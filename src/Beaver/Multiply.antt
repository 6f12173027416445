-- ===== src/Beaver/Multiply.antt =====
-- The operations of two parties that consume triples, and truncation.
use crypt_dough.Base.{ℕ, ◌==◌, if◌then◌else◌, Option, some}
use crypt_dough.Comm.{all_two, handle_precision, ◌>>=◌}
use crypt_dough.Lanes.{Lanes}
use crypt_dough.Random.Triples.{Triple}
use crypt_dough.Beaver.Shares.{EVector, unchecked_open_a, unchecked_open_b}

module _ {I A : Type 0} (v : Lanes I A) where
  -- `x + a` and `x ^ a`: the left operand's precision is kept.
  abbrev pub masked : (ℕ → EVector A) → (ℕ → A) → ℕ → EVector A
  masked x a p = record { v0 = v.add (x p).v0 (a p); precision = (x p).precision }

  -- `truncate` (SecureML): `shift` is `bit_arithmetic_right_shift`.
  unfoldable pub truncate : (A → ℕ → A) → EVector A → EVector A
  truncate shift x =
      if x.precision == 0
      then x
      else record { v0 = shift x.v0 x.precision; precision = x.precision }

  module _ (triples : ℕ → Triple A) (x y : ℕ → EVector A) where
    unfoldable pub multiply_a : (A → ℕ → A) → Option (ℕ → EVector A)
    unfolding unchecked_open_a truncate
    multiply_a shift = all_two (λ me. do
      opened_a ← unchecked_open_a v (masked x (λ p. (triples p).a)) me
      opened_b ← unchecked_open_a v (masked y (λ p. (triples p).b)) me
      precision ← handle_precision (x me).precision (y me).precision
      some (
          truncate shift (record {
            v0 =
                v.add (v.sub (v.mul (y me).v0 opened_a) (v.mul (triples me).a opened_b))
                  (triples me).c;
            precision = precision;
          })))

    unfoldable pub and_b : Option (ℕ → EVector A)
    unfolding unchecked_open_b
    and_b = all_two (λ me. do
      opened_a ← unchecked_open_b v (masked x (λ p. (triples p).a)) me
      opened_b ← unchecked_open_b v (masked y (λ p. (triples p).b)) me
      precision ← handle_precision (x me).precision (y me).precision
      some (record {
        v0 =
            v.add (v.add (v.mul (y me).v0 opened_a) (v.mul (triples me).a opened_b)) (triples me).c;
        precision = precision;
      }))

  -- `b2a_bit`, in the arithmetic lanes: `mask` is `& 1`, and only rank 1 negates.
  unfoldable pub b2a_share : (A → A) → (ℕ → EVector A) → ℕ → EVector A
  b2a_share mask x me = record {
    v0 = if me == 1 then v.neg (mask (x me).v0) else mask (x me).v0;
    precision = 0;
  }

  unfoldable pub b2a_bit :
      (A → A) → (A → ℕ → A) → (ℕ → Triple A) → (ℕ → EVector A) → Option (ℕ → EVector A)
  unfolding b2a_share multiply_a
  b2a_bit mask shift triples x = multiply_a triples (b2a_share mask x) (b2a_share mask x) shift
