-- ===== src/Operators/RadixSort/Laws.antt =====
-- About the radix sort.
use crypt_dough.Base.{
  ℕ, suc, ◌≡◌, ◌<◌, ◌≤◌, ◌∙◌, inl, inr, refl, sym, ap, arith, ltb, Bool, Bool-cases,
}
use crypt_dough.Circuits.Bits.{Bits}
use crypt_dough.Random.Permutation.Laws.{IsPermutation}
use crypt_dough.Operators.Shuffle.Laws.{identity-IsPermutation}
use crypt_dough.Operators.RadixSort.{radix_sort_ccs}
use crypt_dough.Operators.RadixSort.Passes.{key, IsSortedBy, radix_loop-IsSortedBy}

-- Rows that stand in the stable order of the keys have keys that do not fall.
keys_rise :
    (n bits : ℕ) (full_width : Bool) (i : ℕ) (v v' : ℕ → Bits) (sigma : ℕ → ℕ)
    → IsSortedBy n bits full_width i v v' sigma
    → (j k : ℕ) → j < k
    → k < n
    → key bits full_width i (v' j) ≤ key bits full_width i (v' k)
keys_rise n bits full_width i v v' sigma sorted j k less h =
    let from : ℕ → ℕ = sorted.permutes.inverse in
    let cell : (m : ℕ) → m < n → v' m ≡ v (from m) = λ m hm.
      ap v' (sym (sorted.permutes.entry-inverse m hm))
      ∙ sorted.moved (from m) (sorted.permutes.inverse-lt m hm) in
    let j_key = ap (key bits full_width i) (cell j (omega arith)) in
    let k_key = ap (key bits full_width i) (cell k h) in
    elim (Bool-cases
      (ltb (key bits full_width i (v (from k))) (key bits full_width i (v (from j))))) [
        | inl falls ↦
            let wrong =
              sorted.stable (from k) (from j) (sorted.permutes.inverse-lt k h)
                (sorted.permutes.inverse-lt j (omega arith)) (inl (ground (arith, falls))) in
            absurd (
              omega (
                arith,
                wrong,
                sorted.permutes.entry-inverse k h,
                sorted.permutes.entry-inverse j (omega arith),
              ))
        | inr rises ↦ ground (arith, rises, j_key, k_key)
      ]

-- The radix sort of words of `w` bits on their lowest `bits`, of which there are at most `w`, with
-- at most as many rows as an `int` counts and whatever random permutations mask its rounds: the
-- permutation that it gives takes every row of the column to its place in the sorted column, rows
-- stand in the order of their keys, rows with equal keys in the order in which they stood, and the
-- keys of the sorted column do not fall.
pub radix_sort_ccs-IsSortedBy :
    (top w n bits : ℕ) (full_width : Bool) (buffer : ℕ → Bits) (int_buffer : ℕ → ℕ)
    (pi rho : ℕ → ℕ → ℕ) (v : ℕ → Bits)
    → n ≤ suc top
    → bits ≤ w
    → ((i : ℕ) → i < bits → IsPermutation n (pi i))
    → ((i : ℕ) → i < bits → IsPermutation n (rho i))
    → (v' : ℕ → Bits) × (sigma : ℕ → ℕ) × (radix_sort_ccs top w n bits full_width buffer int_buffer
          pi rho v
        ≡ (v', sigma))
      × IsSortedBy n bits full_width bits v v' sigma
      × ((j k : ℕ)
          → j < k
          → k < n
          → key bits full_width bits (v' j) ≤ key bits full_width bits (v' k))
unfolding radix_sort_ccs
radix_sort_ccs-IsSortedBy top w n bits full_width buffer int_buffer pi rho v fits h masks masks' =
    let sorted =
      radix_loop-IsSortedBy top w n bits full_width buffer int_buffer pi rho fits v masks masks' h
        bits 0 (omega arith) v (λ k. k)
        (record {
          permutes = identity-IsPermutation n;
          moved = λ k hk. refl;
          stable = λ p q hp hq before. ground (arith, before);
        }) in
    (_, _, refl, sorted, keys_rise n bits full_width bits v _ _ sorted)
