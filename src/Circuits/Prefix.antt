-- ===== src/Circuits/Prefix.antt =====
-- The parallel-prefix adder.
use crypt_dough.Base.{
  ℕ, zero, suc, ◌-◌, ◌^◌, ◌==◌, Bool, true, false, xor, if◌then◌else◌, bit_width,
}
use crypt_dough.Circuits.Bits.{Bits, xor_b, and_b, left_shift}

-- Two neighbouring windows, `x` above `y`.
abbrev pub prefix_sum : Bits × Bits → Bits × Bits → Bits × Bits
prefix_sum (g_x, p_x) (g_y, p_y) =
    let g_y' = and_b g_y p_x in (xor_b (xor_b (and_b g_x g_y') g_x) g_y', and_b p_y p_x)

-- One round of the loop: the windows of 1 << i bits are joined in pairs.
abbrev pub prefix_round : ℕ → Bits × Bits → Bits × Bits
prefix_round i (g, p) = prefix_sum (g, p) (left_shift g (2 ^ i), left_shift p (2 ^ i))

unfoldable pub prefix_loop : ℕ → ℕ → Bits × Bits → Bits × Bits
prefix_loop zero i s = s
prefix_loop (suc left) i s = prefix_loop left (suc i) (prefix_round i s)

-- The lowest bit of a word (`mask(1)`).
abbrev pub lowest : Bits → Bits
lowest x i = if i == 0 then x i else false

-- `p ^ 1`: every holder flips the lowest bit of each share that it holds, which flips the value
-- only if the number of distinct shares is odd. `odd_shares` says whether it is.
abbrev pub xor_public_one : Bool → Bits → Bits
xor_public_one odd_shares x i = if i == 0 then xor (x i) odd_shares else x i

module _ (odd_shares : Bool) (a b : Bits) where
  -- `propagate` before the loop, and what the loop starts from.
  unfoldable pub prefix_start : Bool → Bits × Bits
  prefix_start true =
      (xor_b (and_b a b) (lowest (xor_b a b)), xor_public_one odd_shares (xor_b a b))
  prefix_start false = (and_b a b, xor_b a b)

  unfoldable pub prefix_generates : ℕ → Bool → Bits
  unfolding prefix_loop prefix_start
  prefix_generates w carry_in = (prefix_loop (bit_width (w - 1)) 0 (prefix_start carry_in)).0

  unfoldable pub parallel_prefix_adder : ℕ → Bool → Bits
  unfolding prefix_generates
  parallel_prefix_adder w carry_in =
      xor_b (prefix_start carry_in).1 (left_shift (prefix_generates w carry_in) 1)

  -- Only the highest bit of the sum.
  unfoldable pub parallel_prefix_adder_packed_sign : ℕ → Bool → Bool
  unfolding prefix_generates
  parallel_prefix_adder_packed_sign w carry_in =
      xor_b (prefix_start carry_in).1 (left_shift (prefix_generates w carry_in) 1) (w - 1)
