-- ===== src/Base/Powers.antt =====
-- Powers of two and products.
use Prim.Native.Nat.{ℕ, zero, suc, ◌+◌, ◌-◌, ◌*◌, ◌^◌, ◌≤◌, ◌<◌}
use mathlib.Core.Path.{◌≡◌, ap, ◌∙◌}
use native.Mathlib.Nat.{pow-suc}
use native.Mathlib.Omega.{arith}

pub pow_pos : (i : ℕ) → 0 < 2 ^ i
pow_pos zero = omega arith
pow_pos (suc i) = omega (arith, pow_pos i, pow-suc 2 i)

pub pow_add : (n m : ℕ) → 2 ^ (n + m) ≡ 2 ^ n * 2 ^ m
pow_add zero m = ap (λ k. 2 ^ k) {x = 0 + m} {y = m} (omega arith) ∙ omega arith
pow_add (suc n) m =
    ap (λ k. 2 ^ k) {x = suc n + m} {y = suc (n + m)} (omega arith)
    ∙ rw (pow-suc 2 (n + m), pow-suc 2 n, pow_add n m) (omega arith)

-- Multiples are apart by the factor.
pub mul_gap : (m a b : ℕ) → a < b → a * m + m ≤ b * m
mul_gap m a b h =
    let scaled = ap (λ (t : ℕ). t * m) {x = b} {y = a + 1 + (b - a - 1)} (omega arith) in
    omega (arith, scaled)

pub pow_le : (a b : ℕ) → a ≤ b → 2 ^ a ≤ 2 ^ b
pow_le zero b h = pow_pos b
pow_le (suc a) zero h = absurd (omega arith)
pow_le (suc a) (suc b) h = omega (arith, pow_le a b (omega arith), pow-suc 2 a, pow-suc 2 b)
