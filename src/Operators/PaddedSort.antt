-- ===== src/Operators/PaddedSort.antt =====
-- The radix sort of one column (`radix_sort` of include/core/operators/radixsort.h, `pad_input` and
-- `remove_padding` of include/core/operators/sorting.h), on the values that are shared. `pad` is
-- the width of an index (32 in the code), `w` of a cell, `wide` of a padded cell. The conversion of
-- the permutation between encodings keeps its value.
pub mod Numbers
pub mod Padding
pub mod Laws
use crypt_dough.Base.{
  ℕ, zero, suc, ◌+◌, ◌-◌, ◌*◌, ◌/◌, ◌%◌, ◌^◌, ltb, ◌==◌, if◌then◌else◌, Bool, not, ◌&&◌, ◌||◌, min,
}
use crypt_dough.Circuits.Bits.{Bits, bit_value, value, not_b, left_shift, arithmetic_right_shift}
use crypt_dough.Operators.Shuffle.{oblivious_apply_elementwise_perm, invert}
use crypt_dough.Operators.RadixSort.{bit_perm}

-- The bits of a number.
abbrev pub bits_of : ℕ → Bits
bits_of x i = x / 2 ^ i % 2 == 1

-- `reverse()` of a vector.
abbrev pub reverse : {A : Type 0} → ℕ → (ℕ → A) → ℕ → A
reverse n x k = x (n - 1 - k)

module _ (pad w wide n : ℕ) where
  -- Cells are extended with their sign and shifted up; below is the row, or -1 less the row.
  unfoldable pub pad_input : (ℕ → Bits) → Bool → ℕ → Bits
  pad_input v reverse_order =
      let idx = λ (i : ℕ). if reverse_order then 2 ^ pad - 1 - i else i in
      let ret : ℕ → Bits = λ k j.
        left_shift (arithmetic_right_shift w (v k) 0) pad j || (ltb j pad && bits_of (idx k) j) in
      if reverse_order then reverse n ret else ret

  -- The cells, and the indices that came with them.
  unfoldable pub remove_padding : (ℕ → Bits) → Bool → (ℕ → Bits) × (ℕ → ℕ)
  remove_padding padded reverse_order = (
    (λ k. arithmetic_right_shift wide (padded k) pad),
    λ k. let index = value pad (padded k) in if reverse_order then 2 ^ pad - 1 - index else index,
  )

  module _ (buffer : ℕ → Bits) (int_buffer : ℕ → ℕ) (pi : ℕ → ℕ → ℕ) (bits : ℕ) where
    unfoldable pub body_bit : Bool → ℕ → (ℕ → Bits) → ℕ → Bool
    body_bit full_width i v k =
        let v_shift = arithmetic_right_shift wide (v k) (pad + i) in
        (if full_width && (i == bits - 1) then not_b v_shift else v_shift) 0

    -- The loop of `radix_sort_body`, with `left` rounds to go.
    unfoldable pub body_loop : Bool → ℕ → ℕ → (ℕ → Bits) → ℕ → Bits
    unfolding body_bit bit_perm oblivious_apply_elementwise_perm
    body_loop full_width zero i v = v
    body_loop full_width (suc left) i v =
        let perm = bit_perm (2 ^ pad - 1) n (λ k. bit_value (body_bit full_width i v k)) in
        body_loop full_width left (suc i)
          (oblivious_apply_elementwise_perm n buffer int_buffer (pi i) v perm)

    unfoldable pub radix_sort_body : Bool → (ℕ → Bits) → ℕ → Bits
    unfolding body_loop
    radix_sort_body full_width v = body_loop full_width bits 0 v

    -- The sorted column and the permutation.
    unfoldable pub radix_sort : Bool → Bool → (ℕ → Bits) → (ℕ → Bits) × (ℕ → ℕ)
    unfolding pad_input remove_padding radix_sort_body invert
    radix_sort reversed no_invert v =
        let padded = radix_sort_body (w == bits) (pad_input v reversed) in
        let padded' = if reversed then reverse n padded else padded in
        let (sorted, permutation) = remove_padding padded' reversed in
        (sorted, if no_invert then permutation else invert n int_buffer (pi bits) permutation)
