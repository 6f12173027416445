-- ===== src/Circuits/CompareLaws.antt =====
-- About `compare` and `linear_compare` of
-- include/core/protocols/interface/protocol_circuits.h.
use crypt_dough.Base.{
  ℕ, zero, suc, ◌+◌, ◌-◌, ◌*◌, ◌^◌, ◌≡◌, ◌<◌, ◌∙◌, sym, ap, ap₂, arith, ltb, ◌==◌, Bool, false, xor,
  not, ◌&&◌,
}
use crypt_dough.Circuits.Bits.{
  Bits, bit_value, value, value-lt, xor_b, and_b, arithmetic_right_shift,
}
use crypt_dough.Circuits.Compare.{bit_same, parity, greater_bit, compare_words, linear_compare}
use crypt_dough.Circuits.CompareBits.{
  equal_digit, greater_digit, and_assoc, and_true, and_false, edge_step, no_edge, xor-false,
  sign_step, with_sign,
}
use crypt_dough.Circuits.Agreement.{same, Agrees, bit_same-Agrees, linear_loop-Agrees}

-- The value of a signed word, counted up from the lowest one.
abbrev pub offset_value : ℕ → Bits → ℕ
offset_value zero x = 0
offset_value (suc n) x = value n x + bit_value (not (x n)) * 2 ^ n

module _ (w : ℕ) (x y eq_bits : Bits) (agrees : Agrees w x y eq_bits) where
  equal_from : (n : ℕ) → n < w → eq_bits 0 ≡ eq_bits n && (value n x == value n y)
  equal_from zero h = sym (and_true (eq_bits 0))
  equal_from (suc n) h =
      equal_from n (omega arith)
      ∙ ap (λ e. e && (value n x == value n y)) (agrees.below n h)
      ∙ and_assoc (eq_bits (suc n)) (same x y n) _
      ∙ ap (λ b. eq_bits (suc n) && b) (equal_digit (x n) (y n) _ _ _ (value-lt n x) (value-lt n y))

  highest_at : (n : ℕ) → w ≡ suc n → eq_bits n ≡ same x y n
  highest_at n e =
      ap eq_bits {y = w - 1} (omega arith)
      ∙ agrees.highest
      ∙ ap (same x y) {x = w - 1} (omega arith)

  -- The lowest bit of the row tells whether the words are equal.
  equal_lowest : (n : ℕ) → w ≡ suc n → eq_bits 0 ≡ (value (suc n) x == value (suc n) y)
  equal_lowest n e =
      equal_from n (omega arith)
      ∙ ap (λ b. b && (value n x == value n y)) (highest_at n e)
      ∙ equal_digit (x n) (y n) _ _ _ (value-lt n x) (value-lt n y)

  edges : Bits
  edges = and_b (xor_b (arithmetic_right_shift w eq_bits 1) eq_bits) x

  edge_at : (n : ℕ) → suc n < w → edges n ≡ (xor (eq_bits (suc n)) (eq_bits n) && x n)
  unfolding edges
  edge_at n h = ap (λ k. xor (eq_bits k) (eq_bits n) && x n) {y = suc n} (omega arith)

  -- The parity of the lowest edges.
  parity-edges : (n : ℕ) → n < w → parity n edges ≡ eq_bits n && ltb (value n y) (value n x)
  parity-edges zero h = sym (and_false (eq_bits 0))
  parity-edges (suc n) h =
      ap₂ xor (parity-edges n (omega arith)) (edge_at n h)
      ∙ ap (λ e. xor (e && ltb (value n y) (value n x)) (xor (eq_bits (suc n)) e && x n))
          (agrees.below n h)
      ∙ edge_step (eq_bits (suc n)) (same x y n) (x n) _
      ∙ ap (λ b. eq_bits (suc n) && b)
          (sym (greater_digit (x n) (y n) _ _ _ (value-lt n x) (value-lt n y)))

  edge_highest : (n : ℕ) → w ≡ suc n → edges n ≡ false
  unfolding edges
  edge_highest n e =
      ap (λ k. xor (eq_bits k) (eq_bits n) && x n) {y = n} (omega arith) ∙ no_edge (eq_bits n) (x n)

  parity_all :
      (n : ℕ) → w ≡ suc n → parity (suc n) edges ≡ same x y n && ltb (value n y) (value n x)
  parity_all n e =
      ap₂ xor (parity-edges n (omega arith)) (edge_highest n e)
      ∙ xor-false _
      ∙ ap (λ b. b && ltb (value n y) (value n x)) (highest_at n e)

  greater_bit-parity :
      (n : ℕ)
      → w ≡ suc n
      → greater_bit w x y eq_bits
        ≡ with_sign (same x y n && ltb (value n y) (value n x)) (x n) (y n)
  unfolding greater_bit edges
  greater_bit-parity n e =
      ap (λ r. with_sign r (x (w - 1)) (y (w - 1))) (ap (λ k. parity k edges) e ∙ parity_all n e)
      ∙ ap (λ k. with_sign (same x y n && ltb (value n y) (value n x)) (x k) (y k)) {x = w - 1}
          {y = n} (omega arith)

  greater_signed :
      (n : ℕ)
      → w ≡ suc n
      → greater_bit w x y eq_bits ≡ ltb (offset_value (suc n) y) (offset_value (suc n) x)
  greater_signed n e =
      greater_bit-parity n e
      ∙ sign_step (x n) (y n) _
      ∙ sym (greater_digit (not (x n)) (not (y n)) _ _ _ (value-lt n x) (value-lt n y))

pred_suc : (w : ℕ) → 0 < w → w ≡ suc (w - 1)
pred_suc w h = omega arith

module _ (w : ℕ) (x y : Bits) (h : 0 < w) where
  results :
      (row : Bits)
      → Agrees w x y row
      → (row 0 ≡ (value w x == value w y))
        × (greater_bit w x y row ≡ ltb (offset_value w y) (offset_value w x))
  results row agrees =
      let e = pred_suc w h in
      (
        equal_lowest w x y row agrees (w - 1) e ∙ ap (λ k. value k x == value k y) (sym e),
        greater_signed w x y row agrees (w - 1) e
            ∙ ap (λ k. ltb (offset_value k y) (offset_value k x)) (sym e),
      )

  -- The comparison of signed words of at least one bit tells whether the words are equal and
  -- whether the first one is greater in two's complement.
  pub compare_words-order :
      compare_words w x y ≡ (value w x == value w y, ltb (offset_value w y) (offset_value w x))
  unfolding compare_words
  compare_words-order =
      let (e, g) = results (bit_same w x y) (bit_same-Agrees w x y h) in
      ap₂ (λ s t. let r : Bool × Bool = (s, t) in r) e g

  -- The comparison with one AND per bit gives, on signed words of at least one bit, both results
  -- of the logarithmic one, whatever stood in its output before.
  pub linear_compare-compare_words : (row : Bits) → linear_compare w x y row ≡ compare_words w x y
  unfolding linear_compare
  linear_compare-compare_words row =
      let (e, g) = results _ (linear_loop-Agrees w x y row h) in
      ap₂ (λ s t. let r : Bool × Bool = (s, t) in r) e g ∙ sym compare_words-order
