-- ===== src/Operators/PaddedSort/Numbers.antt =====
-- The bits of numbers, and words that are joined of two parts.
use native.Mathlib.Nat.{pow-suc, div-div-eq-div-mul, div-eq_of_lt, div-one}
use crypt_dough.Base.{
  ℕ, zero, suc, ◌+◌, ◌*◌, ◌/◌, ◌%◌, ◌^◌, ◌≡◌, ◌<◌, ◌∙◌, sym, ap, arith, pow_add, ◌==◌,
}
use crypt_dough.Circuits.Bits.{Bits, bit_value, value}
use crypt_dough.Operators.PaddedSort.{bits_of}

bit-parity : (q : ℕ) → bit_value (q % 2 == 1) + q / 2 * 2 ≡ q
bit-parity q = ground arith

value-bits_of_all : (n x : ℕ) → value n (bits_of x) + x / 2 ^ n * 2 ^ n ≡ x
value-bits_of_all zero x = omega (arith, div-one x)
value-bits_of_all (suc n) x =
    let ih = value-bits_of_all n x in
    let halved : x / 2 ^ suc n ≡ x / 2 ^ n / 2 =
      ap (λ m. x / m) (pow-suc 2 n) ∙ sym (div-div-eq-div-mul x (2 ^ n) 2) in
    let parity = ap (λ (t : ℕ). t * 2 ^ n) (bit-parity (x / 2 ^ n)) in
    rw (halved, pow-suc 2 n) (omega (arith, ih, parity))

-- A number that fits has the value of its bits.
pub value-bits_of : (n x : ℕ) → x < 2 ^ n → value n (bits_of x) ≡ x
value-bits_of n x h =
    omega (arith, value-bits_of_all n x, ap (λ (t : ℕ). t * 2 ^ n) (div-eq_of_lt h))

-- The lower part of a word and the higher one.
pub value-parts :
    (n m : ℕ) (x : Bits) → value (n + m) x ≡ value m x + value n (λ i. x (m + i)) * 2 ^ m
value-parts zero m x = ap (λ k. value k x) {x = 0 + m} {y = m} (omega arith) ∙ omega arith
value-parts (suc n) m x =
    let bit : bit_value (x (n + m)) ≡ bit_value (x (m + n)) =
      ap (λ k. bit_value (x k)) {x = n + m} {y = m + n} (omega arith) in
    let scaled = ap (λ (t : ℕ). t * 2 ^ n * 2 ^ m) bit in
    let power = ap (λ (t : ℕ). bit_value (x (n + m)) * t) (pow_add n m) in
    ap (λ k. value k x) {x = suc n + m} {y = suc (n + m)} (omega arith)
    ∙ omega (arith, value-parts n m x, scaled, power)
