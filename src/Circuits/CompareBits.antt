-- ===== src/Circuits/CompareBits.antt =====
-- Truth tables and digits, for the comparison circuits.
use crypt_dough.Base.{
  ℕ, ◌+◌, ◌*◌, ◌≡◌, ◌≢◌, ◌<◌, refl, sym, arith, ltb, ◌==◌, Bool, true, false, xor, not, ◌&&◌,
  if◌then◌else◌,
}
use crypt_dough.Circuits.Bits.{bit_value}
use crypt_dough.Circuits.Compare.{or_bit}

pub equal_digit :
    (b c : Bool) (p q m : ℕ)
    → p < m
    → q < m
    → not (xor b c) && (p == q) ≡ (p + bit_value b * m == q + bit_value c * m)
equal_digit true true p q m h k = ground arith
equal_digit true false p q m h k = ground arith
equal_digit false true p q m h k = ground arith
equal_digit false false p q m h k = ground arith

pub greater_digit :
    (b c : Bool) (p q m : ℕ)
    → p < m
    → q < m
    → ltb (q + bit_value c * m) (p + bit_value b * m) ≡ (if not (xor b c) then ltb q p else b)
greater_digit true true p q m h k = ground arith
greater_digit true false p q m h k = ground arith
greater_digit false true p q m h k = ground arith
greater_digit false false p q m h k = ground arith

pub and_assoc : (a b c : Bool) → (a && b) && c ≡ a && (b && c)
and_assoc true b c = refl
and_assoc false b c = refl

pub and_true : (a : Bool) → a && true ≡ a
and_true true = refl
and_true false = refl

-- One more edge: `e` tells whether the bits above agree, `s` whether this bit does.
pub edge_step :
    (e s a g : Bool) → xor ((e && s) && g) (xor e (e && s) && a) ≡ e && (if s then g else a)
edge_step true true a true = refl
edge_step true true a false = refl
edge_step true false a g = refl
edge_step false s a g = refl

pub and_false : (a : Bool) → a && false ≡ false
and_false true = refl
and_false false = refl

pub and_self : (a : Bool) → a && a ≡ a
and_self true = refl
and_self false = refl

pub and_comm : (a b : Bool) → a && b ≡ b && a
and_comm true b = sym (and_true b)
and_comm false b = sym (and_false b)

pub last_index : (i n : ℕ) → (i == n) ≡ true → i ≡ n
last_index i n e = ground arith

pub not_last : (i n : ℕ) → (i == n) ≡ false → i ≢ n
not_last i n e = ground arith

pub no_edge : (e a : Bool) → xor e e && a ≡ false
no_edge true a = refl
no_edge false a = refl

pub xor-false : (a : Bool) → xor a false ≡ a
xor-false true = refl
xor-false false = refl

-- The highest bits have the sign.
pub sign_step :
    (b c g : Bool)
    → xor b (or_bit (xor c b) (xor (not (xor b c) && g) c))
      ≡ (if not (xor (not b) (not c)) then g else not b)
sign_step true true true = refl
sign_step true true false = refl
sign_step true false g = refl
sign_step false true g = refl
sign_step false false true = refl
sign_step false false false = refl

abbrev pub with_sign : Bool → Bool → Bool → Bool
with_sign r b c = xor b (or_bit (xor c b) (xor r c))
