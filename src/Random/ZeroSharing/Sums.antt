-- ===== src/Random/ZeroSharing/Sums.antt =====
-- Sums over the ranks.
use native.Mathlib.Nat.{mod-eq_of_lt, add-mod_right, mod-add-mod, zero-mod}
use crypt_dough.Base.{ℕ, zero, suc, ◌+◌, ◌*◌, ◌%◌, ◌≡◌, ◌<◌, ◌∙◌, refl, sym, ap, ap₂, arith, mods}
use crypt_dough.Lanes.{Lanes}

abbrev pub sum_below : ℕ → (ℕ → ℕ) → ℕ
sum_below zero f = 0
sum_below (suc n) f = sum_below n f + f n

pub sum_below_ext :
    (n : ℕ) (f g : ℕ → ℕ) → ((p : ℕ) → p < n → f p ≡ g p) → sum_below n f ≡ sum_below n g
sum_below_ext zero f g h = refl
sum_below_ext (suc n) f g h =
    ap₂ ◌+◌ (sum_below_ext n f g (λ p q. h p (omega arith))) (h n (omega arith))

sum_below_front : (n : ℕ) (f : ℕ → ℕ) → sum_below (suc n) f ≡ f 0 + sum_below n (λ p. f (suc p))
sum_below_front zero f = omega arith
sum_below_front (suc n) f = omega (arith, sum_below_front n f)

pub predecessor : (n p : ℕ) → p < n → (suc p + n) % suc n ≡ p
predecessor n p h =
    ap (λ t. t % suc n) (omega arith) ∙ add-mod_right p (suc n) ∙ mod-eq_of_lt (omega arith)

pub predecessor-zero : (n : ℕ) → (zero + n) % suc n ≡ n
predecessor-zero n = ap (λ t. t % suc n) (omega arith) ∙ mod-eq_of_lt {n = n} (omega arith)

-- Going round by one place does not change the sum.
pub sum_below_rotate :
    (n : ℕ) (f : ℕ → ℕ) → sum_below (suc n) (λ p. f ((p + n) % suc n)) ≡ sum_below (suc n) f
sum_below_rotate n f =
    sum_below_front n (λ p. f ((p + n) % suc n))
    ∙ ap₂ ◌+◌ (ap f (predecessor-zero n)) (sum_below_ext n _ f (λ p h. ap f (predecessor n p h)))
    ∙ omega arith

pub sum_below_add :
    (n : ℕ) (f g : ℕ → ℕ) → sum_below n (λ p. f p + g p) ≡ sum_below n f + sum_below n g
sum_below_add zero f g = refl
sum_below_add (suc n) f g = omega (arith, sum_below_add n f g)

pub sum_below_mul : (n k : ℕ) (f : ℕ → ℕ) → sum_below n (λ p. k * f p) ≡ k * sum_below n f
sum_below_mul zero k f = omega arith
sum_below_mul (suc n) k f = omega (arith, sum_below_mul n k f)

pub sum_below_mod : (n m : ℕ) (f : ℕ → ℕ) → sum_below n (λ p. f p % m) % m ≡ sum_below n f % m
sum_below_mod zero m f = refl
sum_below_mod (suc n) m f = simp mods (
    sym (mod-add-mod (sum_below n (λ p. f p % m)) m (f n))
    ∙ ap (λ t. (t + f n) % m) (sum_below_mod n m f)
    ∙ mod-add-mod (sum_below n f) m (f n))

module _ {I A : Type 0} (v : Lanes I A) where
  -- What the ranks hold together.
  abbrev pub sum_shares : ℕ → (ℕ → A) → A
  sum_shares zero f = v.zeros
  sum_shares (suc n) f = v.add (sum_shares n f) (f n)

  pub at-sum_shares :
      (n : ℕ) (f : ℕ → A) (i : I)
      → v.at (sum_shares n f) i ≡ sum_below n (λ p. v.at (f p) i) % suc v.top
  at-sum_shares zero f i = v.at-zeros i ∙ sym (zero-mod (suc v.top))
  at-sum_shares (suc n) f i = simp (v.at-add, at-sum_shares n f i, mods)
