-- ===== src/Operators/RadixSort/Passes.antt =====
-- The rounds of the radix sort: after round i the rows stand in the stable order of their lowest
-- i key bits.
use crypt_dough.Base.{
  ℕ, zero, suc, ◌+◌, ◌-◌, ◌*◌, ◌^◌, ◌≡◌, ◌<◌, ◌≤◌, ◌∙◌, ◌⊎◌, inl, inr, refl, sym, ap, subst, arith,
  ◌==◌, if◌then◌else◌, Bool, true, false, not, ◌&&◌, min, Bool-cases,
}
use crypt_dough.Circuits.Bits.{Bits, bit_value, value, value-lt}
use crypt_dough.Random.Permutation.Laws.{IsPermutation}
use crypt_dough.Operators.Shuffle.{oblivious_apply_elementwise_perm, compose_permutations}
use crypt_dough.Operators.Shuffle.Laws.{
  IsPermutation_ext, composed-IsPermutation, elementwise_perm-entry, compose_permutations-entry,
}
use crypt_dough.Operators.RadixSort.{sort_bit, bit_perm, radix_round, radix_loop}
use crypt_dough.Operators.RadixSort.Counting.{
  place, place-lt_same, place-lt_bits, place-IsPermutation,
}
use crypt_dough.Operators.RadixSort.Places.{bit_perm-place}

-- The bits that rows are ordered by: on the full width the sign bit is inverted, so that negative
-- words come first.
abbrev pub key_bits : ℕ → Bool → Bits → Bits
key_bits bits full_width x i = if full_width && (i == bits - 1) then not (x i) else x i

abbrev pub key : ℕ → Bool → ℕ → Bits → ℕ
key bits full_width i x = value i (key_bits bits full_width x)

-- Row `p` of the column comes before row `q`: its key is less, or equal and it stood before.
abbrev pub Before : ℕ → Bool → ℕ → (ℕ → Bits) → ℕ → ℕ → Type 0
Before bits full_width i v p q =
    (key bits full_width i (v p) < key bits full_width i (v q))
    ⊎ ((key bits full_width i (v p) ≡ key bits full_width i (v q)) × (p < q))

-- The permutation takes the column `v` to the column `v'`, in the stable order of the lowest `i`
-- key bits.
pub record IsSortedBy (n bits : ℕ) (full_width : Bool) (i : ℕ) (v v' : ℕ → Bits) (sigma : ℕ → ℕ)
    : Type 0 where
  pub permutes : IsPermutation n sigma
  pub moved : (k : ℕ) → k < n → v' (sigma k) ≡ v k
  pub stable : (p q : ℕ) → p < n → q < n → Before bits full_width i v p q → sigma p < sigma q

sort_bit-key :
    (w bits : ℕ) (full_width : Bool) (i : ℕ) (v : ℕ → Bits) (k : ℕ)
    → i < w
    → sort_bit w bits full_width i v k ≡ key_bits bits full_width (v k) i
unfolding sort_bit
sort_bit-key w bits full_width i v k h =
    let there : v k (min (0 + i) (w - 1)) ≡ v k i = ap (v k) (omega arith) in
    elim (Bool-cases (full_width && (i == bits - 1))) [
      | inl e ↦ rw (e, there) refl
      | inr e ↦ rw (e, there) refl
    ]

-- A bit more in front: the order is that of the new bits, and the old one where these agree.
bit_in_front :
    (power a c p q : ℕ) (x y : Bool)
    → a < power
    → c < power
    → (a + bit_value x * power < c + bit_value y * power)
      ⊎ ((a + bit_value x * power ≡ c + bit_value y * power) × (p < q))
    → ((x ≡ false) × (y ≡ true)) ⊎ ((x ≡ y) × ((a < c) ⊎ ((a ≡ c) × (p < q))))
bit_in_front power a c p q true true ha hc (inl h) = inr (refl, inl (omega arith))
bit_in_front power a c p q true true ha hc (inr h) = inr (refl, inr (omega arith))
bit_in_front power a c p q false false ha hc (inl h) = inr (refl, inl (omega arith))
bit_in_front power a c p q false false ha hc (inr h) = inr (refl, inr (omega arith))
bit_in_front power a c p q true false ha hc (inl h) = absurd (omega arith)
bit_in_front power a c p q true false ha hc (inr h) = absurd (omega arith)
bit_in_front power a c p q false true ha hc h = inl (refl, refl)

module _ (top w n bits : ℕ) (full_width : Bool) (buffer : ℕ → Bits) (int_buffer : ℕ → ℕ)
    (pi rho : ℕ → ℕ → ℕ) (fits : n ≤ suc top) (v : ℕ → Bits) where
  -- One round, under any random permutations.
  radix_round-IsSortedBy :
      (i : ℕ)
      → i < w
      → IsPermutation n (pi i)
      → IsPermutation n (rho i)
      → (v' : ℕ → Bits) (total_perm : ℕ → ℕ) → IsSortedBy n bits full_width i v v' total_perm
      → IsSortedBy n bits full_width
          (suc i)
          v
          ((radix_round top w n bits full_width buffer int_buffer pi rho i (v', total_perm)).0)
          ((radix_round top w n bits full_width buffer int_buffer pi rho i (v', total_perm)).1)
  unfolding radix_round
  radix_round-IsSortedBy i h mask mask' v' total_perm sorted =
      let b : ℕ → Bool = sort_bit w bits full_width i v' in
      let places : ℕ → ℕ = bit_perm top n (λ k. bit_value (b k)) in
      let at : (k : ℕ) → k < n → places k ≡ place b n k = bit_perm-place top n b fits in
      let placing : IsPermutation n places =
        IsPermutation_ext (place b n) places (λ k hk. sym (at k hk)) (place-IsPermutation b n) in
      let total : (k : ℕ)
          → k < n
          → compose_permutations n int_buffer (rho i) total_perm places k ≡ places (total_perm k) =
        compose_permutations-entry int_buffer mask' places sorted.permutes in
      let bit : (k : ℕ) → k < n → b (total_perm k) ≡ key_bits bits full_width (v k) i = λ k hk.
        sort_bit-key w bits full_width i v' (total_perm k) h
        ∙ ap (λ x. key_bits bits full_width x i) (sorted.moved k hk) in
      record {
        permutes =
            IsPermutation_ext (λ k. places (total_perm k)) _ (λ k hk. sym (total k hk))
              (composed-IsPermutation sorted.permutes placing);
        moved = λ k hk.
            ap (oblivious_apply_elementwise_perm n buffer int_buffer (pi i) v' places) (total k hk)
            ∙ elementwise_perm-entry buffer int_buffer v' mask placing (total_perm k)
                (sorted.permutes.entry-lt k hk)
            ∙ sorted.moved k hk;
        stable = λ p q hp hq before.
            let tp = sorted.permutes.entry-lt p hp in
            let tq = sorted.permutes.entry-lt q hq in
            let less : place b n (total_perm p) < place b n (total_perm q) =
              elim (bit_in_front (2 ^ i) _ _ p q (key_bits bits full_width (v p) i)
                (key_bits bits full_width (v q) i) (value-lt i _) (value-lt i _) before) [
                  | inl (clear, set) ↦
                      place-lt_bits b n (total_perm p) (total_perm q) tp (bit p hp ∙ clear)
                        (bit q hq ∙ set)
                  | inr (same, was) ↦
                      place-lt_same b n (total_perm p) (total_perm q) (sorted.stable p q hp hq was)
                        (bit p hp ∙ same ∙ sym (bit q hq))
                ] in
            omega (arith, less, total p hp, total q hq, at (total_perm p) tp, at (total_perm q) tq);
      }

  pub radix_loop-IsSortedBy :
      ((i : ℕ) → i < bits → IsPermutation n (pi i))
      → ((i : ℕ) → i < bits → IsPermutation n (rho i))
      → bits ≤ w
      → (left i : ℕ) → i + left ≡ bits
      → (v' : ℕ → Bits) (total_perm : ℕ → ℕ) → IsSortedBy n bits full_width i v v' total_perm
      → IsSortedBy n bits full_width bits v
          ((radix_loop top w n bits full_width buffer int_buffer pi rho left i (v', total_perm)).0)
          ((radix_loop top w n bits full_width buffer int_buffer pi rho left i (v', total_perm)).1)
  unfolding radix_loop
  radix_loop-IsSortedBy masks masks' h zero i e v' total_perm sorted =
      subst (λ m. IsSortedBy n bits full_width m v v' total_perm) (omega (arith, e)) sorted
  radix_loop-IsSortedBy masks masks' h (suc left) i e v' total_perm sorted =
      radix_loop-IsSortedBy masks masks' h left (suc i) (omega (arith, e)) _ _ (
        radix_round-IsSortedBy i (omega (arith, e)) (masks i (omega (arith, e)))
          (masks' i (omega (arith, e))) v' total_perm sorted)
