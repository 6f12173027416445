-- ===== src/Circuits/RippleLaws.antt =====
-- About the ripple-carry circuits of include/core/protocols/interface/protocol_circuits.h.
use native.Mathlib.Nat.{pow-suc, mod-eq_of_lt}
use crypt_dough.Base.{
  ℕ, zero, suc, ◌+◌, ◌-◌, ◌*◌, ◌%◌, ◌^◌, ◌≡◌, ◌<◌, ◌∙◌, refl, sym, ap, subst, arith, ltb, ◌==◌,
  Bool, true, false, xor, if◌then◌else◌, mod_eq_by, Bool-cases, inl, inr,
}
use crypt_dough.Circuits.Bits.{
  Bits, bit_value, value, value-lt, value_ext, value-not, xor_b, not_b, unpack_from,
}
use crypt_dough.Circuits.Ripple.{
  next_carry, ripple_loop, carry_loop, ripple_carry_adder, ripple_carry_adder_packed_sign,
  rca_compare,
}

-- The carry into each position.
abbrev pub carry_at : Bits → Bits → Bool → ℕ → Bool
carry_at a b carry_in zero = carry_in
carry_at a b carry_in (suc i) = next_carry (carry_at a b carry_in i) (a i) (xor (a i) (b i))

abbrev pub sum_bits : Bits → Bits → Bool → Bits
sum_bits a b carry_in i = xor (xor (a i) (b i)) (carry_at a b carry_in i)

full_adder :
    (a b c : Bool)
    → bit_value (xor (xor a b) c) + 2 * bit_value (next_carry c a (xor a b))
      ≡ bit_value a + bit_value b + bit_value c
full_adder true true c = ground arith
full_adder true false c = ground arith
full_adder false true c = ground arith
full_adder false false c = ground arith

pub value-sum_bits :
    (n : ℕ) (a b : Bits) (carry_in : Bool)
    → value n (sum_bits a b carry_in) + bit_value (carry_at a b carry_in n) * 2 ^ n
      ≡ value n a + value n b + bit_value carry_in
value-sum_bits zero a b carry_in = omega arith
value-sum_bits (suc n) a b carry_in = omega (
  arith,
  value-sum_bits n a b carry_in,
  ap (λ (t : ℕ). t * 2 ^ n) (full_adder (a n) (b n) (carry_at a b carry_in n)),
  ap (λ (t : ℕ). bit_value (carry_at a b carry_in (suc n)) * t) (pow-suc 2 n),
)

module _ (w : ℕ) (a b : Bits) (carry_in : Bool) where
  ripple_loop-sum_bits :
      (left i : ℕ) (sum : Bits) (j : ℕ)
      → i + left ≡ w
      → j < w
      → ripple_loop w a (xor_b a b) left i (carry_at a b carry_in i) sum j
        ≡ (if ltb j i then sum j else sum_bits a b carry_in j)
  unfolding ripple_loop
  ripple_loop-sum_bits zero i sum j e h = ground arith
  ripple_loop-sum_bits (suc left) i sum j e h = elim (Bool-cases (i == w - 1)) [
    | inl last ↦ rw (last, ripple_loop) (ground arith)
    | inr more ↦
        rw (more, ripple_loop)
          (ripple_loop-sum_bits left (suc i) (unpack_from sum i (sum_bits a b carry_in i)) j
              (omega arith) h
            ∙ ground arith)
  ]

  carry_loop-carry_at :
      (left i : ℕ)
      → i + suc left ≡ w
      → carry_loop w a (xor_b a b) (suc left) i (carry_at a b carry_in i)
        ≡ carry_at a b carry_in (w - 1)
  unfolding carry_loop
  carry_loop-carry_at zero i e =
      let last : i ≡ w - 1 = omega arith in
      let test : (i == w - 1) ≡ true = ground arith in
      rw (test, carry_loop) (ap (carry_at a b carry_in) last)
  carry_loop-carry_at (suc left) i e =
      let test : (i == w - 1) ≡ false = ground arith in
      rw (test, carry_loop) (carry_loop-carry_at left (suc i) (omega arith))

  -- Each bit of the sum.
  pub ripple_carry_adder-sum_bits :
      (sum : Bits) (j : ℕ)
      → j < w
      → ripple_carry_adder w a b sum carry_in j ≡ sum_bits a b carry_in j
  unfolding ripple_carry_adder
  ripple_carry_adder-sum_bits sum j h =
      ripple_loop-sum_bits w 0 sum j (omega arith) h ∙ ground arith

  -- The ripple-carry adder adds: its word is the sum of the two words and the carry, modulo 2 ^ w,
  -- whatever stood in the output before.
  pub value-ripple_carry_adder :
      (sum : Bits)
      → value w (ripple_carry_adder w a b sum carry_in)
        ≡ (value w a + value w b + bit_value carry_in) % 2 ^ w
  value-ripple_carry_adder sum =
      value_ext w _ (sum_bits a b carry_in) (ripple_carry_adder-sum_bits sum)
      ∙ sym (mod-eq_of_lt (value-lt w (sum_bits a b carry_in)))
      ∙ mod_eq_by (2 ^ w) (bit_value (carry_at a b carry_in w)) 0 _ _
          (omega (arith, value-sum_bits w a b carry_in))

  highest_bit :
      0 < w
      → xor (xor_b a b (w - 1)) (carry_loop w a (xor_b a b) w 0 carry_in)
        ≡ sum_bits a b carry_in (w - 1)
  highest_bit h =
      subst
        (λ k.
          xor (xor_b a b (w - 1)) (carry_loop w a (xor_b a b) k 0 carry_in)
          ≡ sum_bits a b carry_in (w - 1))
        (omega arith) (ap (xor (xor_b a b (w - 1))) (carry_loop-carry_at (w - 1) 0 (omega arith)))

  -- On words of at least one bit, the circuit that computes the highest bit alone agrees with the
  -- adder.
  pub packed_sign-ripple_carry_adder :
      (sum : Bits)
      → 0 < w
      → ripple_carry_adder_packed_sign w a b carry_in
        ≡ ripple_carry_adder w a b sum carry_in (w - 1)
  unfolding ripple_carry_adder_packed_sign
  packed_sign-ripple_carry_adder sum h =
      highest_bit h ∙ sym (ripple_carry_adder-sum_bits sum (w - 1) (omega arith))

-- Subtraction, `binary_adder(*this, ~other, true)`: the word is the difference modulo 2 ^ w.
pub value-subtract :
    (w : ℕ) (a b sum : Bits)
    → value w (ripple_carry_adder w a (not_b b) sum true)
      ≡ (value w a + (2 ^ w - value w b)) % 2 ^ w
value-subtract w a b sum =
    value-ripple_carry_adder w a (not_b b) true sum
    ∙ ap (λ t. t % 2 ^ w) (omega (arith, value-not w b))

xor_comm : (x y : Bool) → xor x y ≡ xor y x
xor_comm true true = refl
xor_comm true false = refl
xor_comm false true = refl
xor_comm false false = refl

-- On words of at least one bit, the ripple-carry comparison gives the highest bit of the difference
-- of the two words.
pub rca_compare-difference :
    (w : ℕ) (a b sum : Bits)
    → 0 < w
    → rca_compare w a b ≡ ripple_carry_adder w a (not_b b) sum true (w - 1)
unfolding rca_compare
rca_compare-difference w a b sum h =
    xor_comm (carry_loop w a (xor_b a (not_b b)) w 0 true) _
    ∙ highest_bit w a (not_b b) true h
    ∙ sym (ripple_carry_adder-sum_bits w a (not_b b) true sum (w - 1) (omega arith))
