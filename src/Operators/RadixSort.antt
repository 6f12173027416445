-- ===== src/Operators/RadixSort.antt =====
-- Radix sort (include/core/operators/radixsort.h), on the values that are shared: a column is a
-- function of the row, a cell is a row of bits, and the positions are `int`s, modulo `suc top`.
pub mod Counting
pub mod Places
pub mod Passes
pub mod Laws
use crypt_dough.Base.{ℕ, zero, suc, ◌+◌, ◌-◌, ◌*◌, ◌%◌, ltb, ◌==◌, if◌then◌else◌, Bool, not, ◌&&◌}
use crypt_dough.Circuits.Bits.{Bits, bit_value, not_b, arithmetic_right_shift}
use crypt_dough.Operators.Shuffle.{oblivious_apply_elementwise_perm, compose_permutations}

module _ (top : ℕ) where
  -- `prefix_sum` of include/core/containers/mapping_access_vector.h: `std::inclusive_scan`.
  unfoldable pub prefix_sum : (ℕ → ℕ) → ℕ → ℕ
  prefix_sum s zero = s 0
  prefix_sum s (suc k) = (prefix_sum s k + s (suc k)) % suc top

  -- `s`, of which `s0` and `s1` are the halves: 1 - f1, then f1, the first element less 1.
  unfoldable pub halves : ℕ → (ℕ → ℕ) → ℕ → ℕ
  halves n f1 k =
      let s = λ (k : ℕ). if ltb k n then (1 + top * f1 k) % suc top else f1 (k - n) in
      if k == 0 then (s 0 + top) % suc top else s k

  -- The place of each row, from its bit.
  unfoldable pub bit_perm : ℕ → (ℕ → ℕ) → ℕ → ℕ
  unfolding prefix_sum halves
  bit_perm n f1 k =
      let s = prefix_sum (halves n f1) in
      let s0 = s k in
      let s1 = (s (n + k) + top * s0) % suc top in (s0 + f1 k * s1 % suc top) % suc top

-- The bit that is sorted on in round `i`: of the cells shifted by `i` and, on the most significant
-- bit, inverted, the lowest bit.
unfoldable pub sort_bit : ℕ → ℕ → Bool → ℕ → (ℕ → Bits) → ℕ → Bool
sort_bit w bits full_width i v k =
    let v_shift = arithmetic_right_shift w (v k) i in
    (if full_width && (i == bits - 1) then not_b v_shift else v_shift) 0

-- `pi i` is the random permutation behind the pair that applies the permutation of round `i`, and
-- `rho i` the one behind the composition.
module _ (top w n bits : ℕ) (full_width : Bool) (buffer : ℕ → Bits) (int_buffer : ℕ → ℕ)
    (pi rho : ℕ → ℕ → ℕ) where
  unfoldable pub radix_round : ℕ → (ℕ → Bits) × (ℕ → ℕ) → (ℕ → Bits) × (ℕ → ℕ)
  unfolding sort_bit bit_perm oblivious_apply_elementwise_perm compose_permutations
  radix_round i (v, total_perm) =
      let place = bit_perm top n (λ k. bit_value (sort_bit w bits full_width i v k)) in
      (
        oblivious_apply_elementwise_perm n buffer int_buffer (pi i) v place,
        compose_permutations n int_buffer (rho i) total_perm place,
      )

  -- The rounds, with `left` of them to go.
  unfoldable pub radix_loop : ℕ → ℕ → (ℕ → Bits) × (ℕ → ℕ) → (ℕ → Bits) × (ℕ → ℕ)
  unfolding radix_round
  radix_loop zero i state = state
  radix_loop (suc left) i state = radix_loop left (suc i) (radix_round i state)

  -- The sorted column, and the permutation that sorts it.
  unfoldable pub radix_sort_ccs : (ℕ → Bits) → (ℕ → Bits) × (ℕ → ℕ)
  unfolding radix_loop
  radix_sort_ccs v = radix_loop bits 0 (v, λ k. k)
