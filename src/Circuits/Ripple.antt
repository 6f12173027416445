-- ===== src/Circuits/Ripple.antt =====
-- The ripple-carry circuits.
use crypt_dough.Base.{ℕ, zero, suc, ◌-◌, ◌==◌, Bool, true, false, xor, ◌&&◌}
use crypt_dough.Circuits.Bits.{Bits, xor_b, not_b, unpack_from}

-- The carry out of one position, with one AND.
abbrev pub next_carry : Bool → Bool → Bool → Bool
next_carry carry a a_xor_b = xor (xor carry a && a_xor_b) a

-- The loop of `ripple_carry_adder`, with `left` rounds to go at position `i`.
module _ (w : ℕ) (a a_xor_b : Bits) where
  unfoldable pub ripple_loop : ℕ → ℕ → Bool → Bits → Bits
  ripple_loop zero i carry sum = sum
  ripple_loop (suc left) i carry sum =
      let sum' = unpack_from sum i (xor (a_xor_b i) carry) in
      elim (i == w - 1) [
        | true ↦ sum'
        | false ↦ ripple_loop left (suc i) (next_carry carry (a i) (a_xor_b i)) sum'
      ]

  -- The loop of `rca_compare` and of `ripple_carry_adder_packed_sign`, which keep the carry only.
  unfoldable pub carry_loop : ℕ → ℕ → Bool → Bool
  carry_loop zero i carry = carry
  carry_loop (suc left) i carry = elim (i == w - 1) [
    | true ↦ carry
    | false ↦ carry_loop left (suc i) (next_carry carry (a i) (a_xor_b i))
  ]

unfoldable pub ripple_carry_adder : ℕ → Bits → Bits → Bits → Bool → Bits
unfolding ripple_loop
ripple_carry_adder w a b sum carry_in = ripple_loop w a (xor_b a b) w 0 carry_in sum

-- Only the highest bit of the sum.
unfoldable pub ripple_carry_adder_packed_sign : ℕ → Bits → Bits → Bool → Bool
unfolding carry_loop
ripple_carry_adder_packed_sign w a b carry_in =
    xor (xor_b a b (w - 1)) (carry_loop w a (xor_b a b) w 0 carry_in)

-- a + ~b + 1, of which the highest bit is kept and then read as the sign.
unfoldable pub rca_compare : ℕ → Bits → Bits → Bool
unfolding carry_loop
rca_compare w a b =
    let nb = not_b b in xor (carry_loop w a (xor_b a nb) w 0 true) (xor_b a nb (w - 1))
