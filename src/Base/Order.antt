-- ===== src/Base/Order.antt =====
-- Strong induction on the native numbers, and their order.
use Prim.Native.Nat.{ℕ, zero, suc, ◌<◌, ◌≤◌}
use mathlib.Core.Logic.{◌⊎◌, inl, inr}
use mathlib.Core.WellFounded.{Acc, WellFounded}
use native.Mathlib.Omega.{arith}

Acc-below : (k n : ℕ) → n < k → Acc ◌<◌ n
Acc-below zero n h = elim h [ ]
Acc-below (suc k) n h = Acc.intro n (λ m hm. Acc-below k m (omega arith))

unfoldable pub lt_wf : WellFounded ◌<◌
unfolding Acc-below
lt_wf = record { apply = λ n. Acc-below (suc n) n (omega arith) }

pub lt-or-le : (m n : ℕ) → (m < n) ⊎ (n ≤ m)
lt-or-le m zero = inr (omega arith)
lt-or-le zero (suc n) = inl (omega arith)
lt-or-le (suc m) (suc n) = elim (lt-or-le m n) [
  | inl h ↦ inl (omega (arith, h))
  | inr h ↦ inr (omega (arith, h))
]
