-- ===== src/Circuits/PrefixLaws.antt =====
-- About the parallel-prefix adders of include/core/protocols/interface/protocol_circuits.h.
use crypt_dough.Base.{
  ℕ, zero, suc, ◌+◌, ◌-◌, ◌%◌, ◌^◌, ◌≡◌, ◌<◌, ◌∙◌, refl, sym, ap, ap₂, arith, Bool, true, false,
  xor, not, ◌&&◌, ◌||◌, bit_width, lt-pow-bit_width,
}
use crypt_dough.Circuits.Bits.{Bits, bit_value, value, value_ext, left_shift}
use crypt_dough.Circuits.Ripple.{next_carry, ripple_carry_adder, ripple_carry_adder_packed_sign}
use crypt_dough.Circuits.RippleLaws.{
  carry_at, sum_bits, ripple_carry_adder-sum_bits, value-ripple_carry_adder,
  packed_sign-ripple_carry_adder,
}
use crypt_dough.Circuits.Prefix.{
  prefix_start, prefix_generates, parallel_prefix_adder, parallel_prefix_adder_packed_sign,
}
use crypt_dough.Circuits.PrefixWindows.{generates, prefix_loop-generates}

carry_step : (x y c : Bool) → (x && y) || (xor x y && c) ≡ next_carry c x (xor x y)
carry_step true true c = ground arith
carry_step true false c = ground arith
carry_step false true c = ground arith
carry_step false false c = ground arith

carry_first : (x y : Bool) → xor (x && y) (xor x y) ≡ next_carry true x (xor x y)
carry_first true y = ground arith
carry_first false y = ground arith

below_one : (x : Bits) (j : ℕ) → left_shift x 1 (suc j) ≡ x j
below_one x j = step ∙ ap x {x = suc j - 1} {y = j} (omega arith)
  where
    step : left_shift x 1 (suc j) ≡ x (suc j - 1)
    step = ground arith

xor-false : (x : Bool) → xor x false ≡ x
xor-false true = refl
xor-false false = refl

flipped : (x : Bool) → xor (xor x false) false ≡ not (xor x true)
flipped true = refl
flipped false = refl

module _ (a b : Bits) where
  -- What the loop starts from, above the lowest bit.
  start_above :
      (carry_in : Bool) (j : ℕ)
      → ((prefix_start true a b carry_in).0 (suc j) ≡ a (suc j) && b (suc j))
        × ((prefix_start true a b carry_in).1 (suc j) ≡ xor (a (suc j)) (b (suc j)))
  unfolding prefix_start
  start_above true j = (ground arith, ground arith)
  start_above false j = (refl, refl)

  start_lowest :
      (carry_in : Bool)
      → (prefix_start true a b carry_in).0 0 ≡ next_carry carry_in (a 0) (xor (a 0) (b 0))
  unfolding prefix_start
  start_lowest true = carry_first (a 0) (b 0)
  start_lowest false = ground (arith, carry_step (a 0) (b 0) false)

  propagate_lowest :
      (carry_in : Bool) → (prefix_start true a b carry_in).1 0 ≡ xor (xor (a 0) (b 0)) carry_in
  unfolding prefix_start
  propagate_lowest true = refl
  propagate_lowest false = ground arith

  module _ (carry_in : Bool) where
    -- The carry out of a position is generated in a window that reaches down to bit 0.
    generates-carry_at :
        (len j : ℕ)
        → j < len
        → generates (prefix_start true a b carry_in).0 (prefix_start true a b carry_in).1 len j
          ≡ carry_at a b carry_in (suc j)
    generates-carry_at zero j h = absurd (omega arith)
    generates-carry_at (suc len) zero h = start_lowest carry_in
    generates-carry_at (suc len) (suc j) h =
        rw
          (
            (start_above carry_in j).0,
            (start_above carry_in j).1,
            generates-carry_at len j (omega arith),
          )
          (carry_step (a (suc j)) (b (suc j)) (carry_at a b carry_in (suc j)))

    prefix_generates-carry_at :
        (w j : ℕ)
        → suc j < w
        → prefix_generates true a b w carry_in j ≡ carry_at a b carry_in (suc j)
    unfolding prefix_generates
    prefix_generates-carry_at w j h =
        ap (λ f. f j)
          (prefix_loop-generates (prefix_start true a b carry_in).0
            (prefix_start true a b carry_in).1 (bit_width (w - 1)))
        ∙ generates-carry_at (2 ^ bit_width (w - 1)) j (omega (arith, lt-pow-bit_width (w - 1)))

    parallel_prefix_adder-sum_bits :
        (w j : ℕ) → j < w → parallel_prefix_adder true a b w carry_in j ≡ sum_bits a b carry_in j
    unfolding parallel_prefix_adder
    parallel_prefix_adder-sum_bits w zero h =
        xor-false ((prefix_start true a b carry_in).1 0) ∙ propagate_lowest carry_in
    parallel_prefix_adder-sum_bits w (suc j) h =
        ap₂ xor (start_above carry_in j).1
          (below_one (prefix_generates true a b w carry_in) j ∙ prefix_generates-carry_at w j h)

    -- With an odd number of distinct shares the parallel-prefix adder gives, bit by bit, the word
    -- of the ripple-carry adder, with and without a carry into the lowest bit.
    pub parallel_prefix_adder-ripple_carry_adder :
        (w : ℕ) (sum : Bits) (j : ℕ)
        → j < w
        → parallel_prefix_adder true a b w carry_in j ≡ ripple_carry_adder w a b sum carry_in j
    parallel_prefix_adder-ripple_carry_adder w sum j h =
        parallel_prefix_adder-sum_bits w j h
        ∙ sym (ripple_carry_adder-sum_bits w a b carry_in sum j h)

    -- With an odd number of distinct shares the parallel-prefix adder adds: its word is the sum of
    -- the two words and the carry, modulo 2 ^ w.
    pub value-parallel_prefix_adder :
        (w : ℕ)
        → value w (parallel_prefix_adder true a b w carry_in)
          ≡ (value w a + value w b + bit_value carry_in) % 2 ^ w
    value-parallel_prefix_adder w =
        value_ext w _ (ripple_carry_adder w a b a carry_in)
          (parallel_prefix_adder-ripple_carry_adder w a)
        ∙ value-ripple_carry_adder w a b carry_in a

    -- On words of at least one bit, with an odd number of distinct shares, the parallel-prefix
    -- circuit for the highest bit alone agrees with the ripple-carry one.
    pub packed_sign-parallel_prefix_adder :
        (w : ℕ)
        → 0 < w
        → parallel_prefix_adder_packed_sign true a b w carry_in
          ≡ ripple_carry_adder_packed_sign w a b carry_in
    unfolding parallel_prefix_adder_packed_sign parallel_prefix_adder
    packed_sign-parallel_prefix_adder w h =
        parallel_prefix_adder-ripple_carry_adder w a (w - 1) (omega arith)
        ∙ sym (packed_sign-ripple_carry_adder w a b carry_in a h)

  -- On words of at least one bit, with an even number of distinct shares and a carry into the
  -- lowest bit, the lowest bit of the parallel-prefix adder is the negation of the lowest bit of
  -- the ripple-carry adder.
  pub parallel_prefix_adder-even_shares :
      (w : ℕ) (sum : Bits)
      → 0 < w
      → parallel_prefix_adder false a b w true 0 ≡ not (ripple_carry_adder w a b sum true 0)
  unfolding parallel_prefix_adder prefix_start
  parallel_prefix_adder-even_shares w sum h =
      flipped (xor (a 0) (b 0)) ∙ ap not (sym (ripple_carry_adder-sum_bits w a b true sum 0 h))
