-- ===== src/Circuits/Compare.antt =====
-- Comparison: the bits that agree from the top down, in logarithmically many rounds or one by one,
-- and the greater-than bit that both circuits compute from them.
use crypt_dough.Base.{
  ℕ, zero, suc, ◌-◌, ◌^◌, ◌==◌, Bool, false, xor, not, ◌&&◌, if◌then◌else◌, bit_width,
}
use crypt_dough.Circuits.Bits.{Bits, xor_b, and_b, not_b, arithmetic_right_shift, unpack_from}

-- The loop of `bit_same`, with `left` levels to go.
unfoldable pub same_loop : ℕ → ℕ → ℕ → Bits → Bits
same_loop w zero level_size same_bit = same_bit
same_loop w (suc left) level_size same_bit =
    same_loop w left (suc level_size)
      (and_b same_bit (arithmetic_right_shift w same_bit (2 ^ level_size)))

unfoldable pub bit_same : ℕ → Bits → Bits → Bits
unfolding same_loop
bit_same w x y = same_loop w (bit_width (w - 1)) 0 (not_b (xor_b x y))

-- The loop of `linear_compare`, at position `i` of `suc i`; `r` is the conjunction so far.
unfoldable pub linear_loop : ℕ → Bits → ℕ → Bool → Bits → Bits
linear_loop w t zero r eq_bits = eq_bits
linear_loop w t (suc i) r eq_bits =
    let b1 = not (t i) in
    let r' = if i == w - 1 then b1 else (r && b1) in linear_loop w t i r' (unpack_from eq_bits i r')

-- The exclusive or of the lowest `n` bits (`bit_xor`).
abbrev pub parity : ℕ → Bits → Bool
parity zero x = false
parity (suc n) x = xor (parity n x) (x n)

-- `or_b`, by De Morgan.
abbrev pub or_bit : Bool → Bool → Bool
or_bit x y = not (not x && not y)

-- From the agreeing bits to the greater-than bit, on signed types, where the
-- right shift repeats the sign.
unfoldable pub greater_bit : ℕ → Bits → Bits → Bits → Bool
greater_bit w current other eq_bits =
    let edges = xor_b (arithmetic_right_shift w eq_bits 1) eq_bits in
    let r = parity w (and_b edges current) in
    let s1 = current (w - 1) in let s2 = other (w - 1) in xor s1 (or_bit (xor s2 s1) (xor r s2))

-- Both results: whether the words are equal, and whether the first is greater.
unfoldable pub compare_words : ℕ → Bits → Bits → Bool × Bool
unfolding bit_same greater_bit
compare_words w current other =
    let eq_bits = bit_same w current other in (eq_bits 0, greater_bit w current other eq_bits)

unfoldable pub linear_compare : ℕ → Bits → Bits → Bits → Bool × Bool
unfolding linear_loop greater_bit
linear_compare w current other eq_bits =
    let eq_bits' = linear_loop w (xor_b current other) w false eq_bits in
    (eq_bits' 0, greater_bit w current other eq_bits')
