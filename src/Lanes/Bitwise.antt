-- ===== src/Lanes/Bitwise.antt =====
-- Words as rows of bits under ^ and &: bit by bit these are + and * modulo 2.
use Prim.Native.Nat.{digits, bitwise, differ, bit_and-bitwise, bit_xor-bitwise}
use mathlib.Core.WellFounded
use crypt_dough.Base.{
  ℕ, zero, suc, ◌+◌, ◌*◌, ◌/◌, ◌%◌, ◌≡◌, ◌<◌, ◌≤◌, ◌∙◌, refl, ap, arith, min, bit_and, bit_xor,
  lt_wf,
}
use crypt_dough.Lanes.{Lanes}

-- Bit `i` of a number.
abbrev pub bit : ℕ → ℕ → ℕ
bit a zero = a % 2
bit a (suc i) = bit (a / 2) i

pub bit-lt : (a i : ℕ) → bit a i < 2
bit-lt a zero = omega arith
bit-lt a (suc i) = bit-lt (a / 2) i

pub zero-bit : (i : ℕ) → bit 0 i ≡ 0
zero-bit zero = refl
zero-bit (suc i) = zero-bit i

zero-eq_of_bits : (b : ℕ) → ((i : ℕ) → bit 0 i ≡ bit b i) → 0 ≡ b
zero-eq_of_bits b =
    WellFounded.induction lt_wf {C = λ b. ((i : ℕ) → bit 0 i ≡ bit b i) → 0 ≡ b} b step
  where
    step :
        (n : ℕ)
        → ((m : ℕ) → m < n → ((i : ℕ) → bit 0 i ≡ bit m i) → 0 ≡ m)
        → ((i : ℕ) → bit 0 i ≡ bit n i)
        → 0 ≡ n
    step zero ih h = refl
    step (suc n) ih h = omega (arith, h 0, ih (suc n / 2) (omega arith) (λ i. h (suc i)))

-- Numbers with the same bits are equal.
pub bit_ext : (a b : ℕ) → ((i : ℕ) → bit a i ≡ bit b i) → a ≡ b
bit_ext a =
    WellFounded.induction lt_wf {C = λ a. (b : ℕ) → ((i : ℕ) → bit a i ≡ bit b i) → a ≡ b} a step
  where
    step :
        (n : ℕ)
        → ((m : ℕ) → m < n → (b : ℕ) → ((i : ℕ) → bit m i ≡ bit b i) → m ≡ b)
        → (b : ℕ) → ((i : ℕ) → bit n i ≡ bit b i)
        → n ≡ b
    step zero ih b h = zero-eq_of_bits b h
    step (suc n) ih b h = omega (arith, h 0, ih (suc n / 2) (omega arith) (b / 2) (λ i. h (suc i)))

module _ (z : ℕ → ℕ) (f : ℕ → ℕ → ℕ) where
  enough_digits : (k l a b : ℕ) → a ≤ k → a ≤ l → digits z f k a b ≡ digits z f l a b
  enough_digits zero zero a b p q = refl
  enough_digits zero (suc l) zero b p q = refl
  enough_digits zero (suc l) (suc a) b p q = absurd (omega arith)
  enough_digits (suc k) zero zero b p q = refl
  enough_digits (suc k) zero (suc a) b p q = absurd (omega arith)
  enough_digits (suc k) (suc l) zero b p q = refl
  enough_digits (suc k) (suc l) (suc a) b p q =
      rw (enough_digits k l (suc a / 2) (b / 2) (omega arith) (omega arith))

  bitwise_lowest :
      (a b : ℕ)
      → bitwise z f (suc a) b ≡ bitwise z f (suc a / 2) (b / 2) * 2 + f (suc a % 2) (b % 2)
  bitwise_lowest a b =
      rw (enough_digits a (suc a / 2) (suc a / 2) (b / 2) (omega arith) (omega arith))

differ-lt : (x y : ℕ) → x < 2 → y < 2 → differ x y ≡ (x + y) % 2
differ-lt zero y p q = omega arith
differ-lt (suc zero) zero p q = refl
differ-lt (suc zero) (suc zero) p q = refl
differ-lt (suc zero) (suc (suc y)) p q = absurd (omega arith)
differ-lt (suc (suc x)) y p q = absurd (omega arith)

min-lt : (x y : ℕ) → x < 2 → y < 2 → min x y ≡ (x * y) % 2
min-lt zero y p q = omega arith
min-lt (suc zero) zero p q = refl
min-lt (suc zero) (suc zero) p q = refl
min-lt (suc zero) (suc (suc y)) p q = absurd (omega arith)
min-lt (suc (suc x)) y p q = absurd (omega arith)

bit_xor_lowest : (a b : ℕ) → bit_xor a b ≡ bit_xor (a / 2) (b / 2) * 2 + (a % 2 + b % 2) % 2
bit_xor_lowest zero b = simp bit_xor-bitwise (omega arith)
bit_xor_lowest (suc a) b =
    rw (← differ-lt (suc a % 2) (b % 2) (omega arith) (omega arith))
      (simp bit_xor-bitwise (bitwise_lowest (λ y. y) differ a b))

bit_and_lowest : (a b : ℕ) → bit_and a b ≡ bit_and (a / 2) (b / 2) * 2 + (a % 2 * (b % 2)) % 2
bit_and_lowest zero b = simp bit_and-bitwise (omega arith)
bit_and_lowest (suc a) b =
    rw (← min-lt (suc a % 2) (b % 2) (omega arith) (omega arith))
      (simp bit_and-bitwise (bitwise_lowest (λ y. 0) min a b))

-- ^ adds bits modulo 2, and & multiplies them.
pub bit-bit_xor : (a b i : ℕ) → bit (bit_xor a b) i ≡ (bit a i + bit b i) % 2
bit-bit_xor a b zero = omega (arith, bit_xor_lowest a b)
bit-bit_xor a b (suc i) =
    ap (λ t. bit t i) (omega (arith, bit_xor_lowest a b)) ∙ bit-bit_xor (a / 2) (b / 2) i

pub bit-bit_and : (a b i : ℕ) → bit (bit_and a b) i ≡ (bit a i * bit b i) % 2
bit-bit_and a b zero = omega (arith, bit_and_lowest a b)
bit-bit_and a b (suc i) =
    ap (λ t. bit t i) (omega (arith, bit_and_lowest a b)) ∙ bit-bit_and (a / 2) (b / 2) i

xor-at-sub : (a b i : ℕ) → bit (bit_xor a b) i ≡ (bit a i + (1 * bit b i) % 2) % 2
xor-at-sub a b i = omega (arith, bit-bit_xor a b i)

bit-at-neg : (a i : ℕ) → bit a i ≡ (1 * bit a i) % 2
bit-at-neg a i = omega (arith, bit-lt a i)

-- Words under ^ (which is its own inverse) and &.
unfoldable pub bitwise_word : Lanes ℕ ℕ
unfolding xor-at-sub bit-at-neg
bitwise_word = record {
  top = 1;
  at = bit;
  zeros = 0;
  add = bit_xor;
  sub = bit_xor;
  neg = λ a. a;
  mul = bit_and;
  at-zeros = zero-bit;
  at-add = bit-bit_xor;
  at-sub = xor-at-sub;
  at-neg = bit-at-neg;
  at-mul = bit-bit_and;
  at_ext = bit_ext;
}
