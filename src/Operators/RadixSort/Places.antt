-- ===== src/Operators/RadixSort/Places.antt =====
-- The permutation of one round: what the arithmetic on prefix sums computes is the stable
-- placement.
use native.Mathlib.Nat.{mod-eq_of_lt}
use crypt_dough.Base.{
  ℕ, zero, suc, ◌+◌, ◌-◌, ◌*◌, ◌%◌, ◌≡◌, ◌<◌, ◌≤◌, ◌∙◌, inl, inr, refl, sym, ap, arith,
  if◌then◌else◌, Bool, true, false, not, Bool-cases, mods, mod_eq_by,
}
use crypt_dough.Circuits.Bits.{bit_value}
use crypt_dough.Operators.RadixSort.{prefix_sum, halves, bit_perm}
use crypt_dough.Operators.RadixSort.Counting.{count, place, count-lt, count-complement}

one_less :
    (top : ℕ) (b : Bool) → (1 + top * bit_value b) % suc top ≡ (if not b then 1 else 0) % suc top
one_less top true = mod_eq_by (suc top) 0 1 _ 0 (omega arith)
one_less top false = ap (λ t. t % suc top) (omega arith)

-- A row with the bit goes behind the `c` rows with the bit and all `a` rows without it.
placed_set :
    (top y a c : ℕ)
    → a + c < suc top
    → (y + 1 * (((top + a + (1 + c)) % suc top + top * y) % suc top) % suc top) % suc top ≡ a + c
placed_set top y a c h =
    simp mods
      (mod_eq_by (suc top) 0 (y + 1) (y + 1 * (top + a + (1 + c) + top * y)) (a + c) (omega arith))
    ∙ mod-eq_of_lt h

-- A row without it goes behind the `c` rows without it.
placed_clear :
    (top c q : ℕ) → c < suc top → ((top + (1 + c)) % suc top + 0 * q % suc top) % suc top ≡ c
placed_clear top c q h =
    simp mods (mod_eq_by (suc top) 0 1 (top + (1 + c) + 0 * q) c (omega arith)) ∙ mod-eq_of_lt h

bit_if : (b : Bool) → bit_value b ≡ (if b then 1 else 0)
bit_if true = refl
bit_if false = refl

module _ (top n : ℕ) (b : ℕ → Bool) where
  abbrev f1 : ℕ → ℕ
  f1 k = bit_value (b k)

  abbrev zeros : ℕ → ℕ
  zeros k = count (λ i. not (b i)) k

  abbrev sums : ℕ → ℕ
  sums k = prefix_sum top (halves top n f1) k

  halves-zero : 0 < n → halves top n f1 0 ≡ ((1 + top * f1 0) % suc top + top) % suc top
  unfolding halves
  halves-zero h = ground arith

  halves-first : (k : ℕ) → suc k < n → halves top n f1 (suc k) ≡ (1 + top * f1 (suc k)) % suc top
  unfolding halves
  halves-first k h = ground arith

  halves-second : (k : ℕ) → n ≤ suc k → halves top n f1 (suc k) ≡ f1 (suc k - n)
  unfolding halves
  halves-second k h = ground arith

  sums-first : (k : ℕ) → k < n → sums k ≡ (top + zeros (suc k)) % suc top
  unfolding prefix_sum
  sums-first zero h =
      rw (halves-zero h, one_less top (b 0)) (simp mods (ap (λ t. t % suc top) (omega arith)))
  sums-first (suc k) h =
      rw (sums-first k (omega arith), halves-first k h, one_less top (b (suc k)))
        (simp mods (ap (λ t. t % suc top) (omega arith)))

  -- The sums of the second half.
  sums-second : (m d : ℕ) → n ≡ suc m → d ≤ n → sums (d + m) ≡ (top + zeros n + count b d) % suc top
  unfolding prefix_sum
  sums-second m zero e h =
      ap sums {x = 0 + m} {y = m} (omega arith)
      ∙ sums-first m (omega (arith, e))
      ∙ ap (λ t. t % suc top) (omega (arith, ap zeros (sym e)))
  sums-second m (suc d) e h =
      ap sums {x = suc d + m} {y = suc (d + m)} (omega arith)
      ∙ rw
          (
            sums-second m d e (omega arith),
            halves-second (d + m) (omega (arith, e)),
            ap f1 {x = suc (d + m) - n} {y = d} (omega (arith, e)),
            bit_if (b d),
          )
          (simp mods (ap (λ t. t % suc top) (omega arith)))

  -- With at most as many rows as there are positions, the round places the rows.
  pub bit_perm-place : n ≤ suc top → (k : ℕ) → k < n → bit_perm top n f1 k ≡ place b n k
  unfolding bit_perm
  bit_perm-place fits k h =
      let m = n - 1 in
      let second : sums (n + k) ≡ (top + zeros n + count b (suc k)) % suc top =
        ap sums {x = n + k} {y = suc k + m} (omega arith)
        ∙ sums-second m (suc k) (omega arith) (omega arith) in
      let all = count-complement b n in
      elim (Bool-cases (b k)) [
        | inl set ↦
            let within = count-lt b k n set h in
            rw (second, sums-first k h, set)
              (placed_set top _ (zeros n) (count b k) (omega (arith, all, within, fits)))
        | inr clear ↦
            let other : not (b k) ≡ true = rw clear refl in
            let within = count-lt (λ i. not (b i)) k n other h in
            rw (second, sums-first k h, clear)
              (placed_clear top (zeros k) _ (omega (arith, all, within, fits)))
      ]
