-- ===== src/Circuits/Bits.antt =====
-- Rows of bits, lowest first, and the operations that the circuits make of them.
use crypt_dough.Base.{
  ℕ, zero, suc, ◌+◌, ◌-◌, ◌*◌, ◌^◌, ◌≡◌, ◌<◌, refl, arith, ltb, ◌==◌, if◌then◌else◌, Bool, true,
  false, xor, not, ◌&&◌, min,
}
use native.Mathlib.Nat.{pow-suc}

abbrev pub Bits : Type 0
Bits = ℕ → Bool

abbrev pub bit_value : Bool → ℕ
bit_value true = 1
bit_value false = 0

-- The number that the lowest `n` bits stand for.
abbrev pub value : ℕ → Bits → ℕ
value zero x = 0
value (suc n) x = value n x + bit_value (x n) * 2 ^ n

abbrev pub xor_b : Bits → Bits → Bits
xor_b x y i = xor (x i) (y i)

abbrev pub and_b : Bits → Bits → Bits
and_b x y i = x i && y i

abbrev pub not_b : Bits → Bits
not_b x i = not (x i)

-- `bit_left_shift`.
abbrev pub left_shift : Bits → ℕ → Bits
left_shift x k i = if ltb i k then false else x (i - k)

-- `bit_arithmetic_right_shift` of a word of `w` bits: the highest bit is repeated.
abbrev pub arithmetic_right_shift : ℕ → Bits → ℕ → Bits
arithmetic_right_shift w x k i = x (min (i + k) (w - 1))

-- `unpack_from` at one position.
abbrev pub unpack_from : Bits → ℕ → Bool → Bits
unpack_from x i b j = if j == i then b else x j

pub value-lt : (n : ℕ) (x : Bits) → value n x < 2 ^ n
value-lt zero x = omega arith
value-lt (suc n) x = ground (arith, value-lt n x, pow-suc 2 n)

pub value_ext : (n : ℕ) (x y : Bits) → ((i : ℕ) → i < n → x i ≡ y i) → value n x ≡ value n y
value_ext zero x y h = refl
value_ext (suc n) x y h = rw (h n (omega arith), value_ext n x y (λ i k. h i (omega arith)))

-- The complement of a word is what is missing to all ones.
pub value-not : (n : ℕ) (x : Bits) → value n (not_b x) + value n x + 1 ≡ 2 ^ n
value-not zero x = refl
value-not (suc n) x = ground (arith, value-not n x, pow-suc 2 n)
