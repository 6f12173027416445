-- ===== src/Tests/FourPartyTests.antt =====
-- Runs of the protocol of four ranks, and of its hash check.
use crypt_dough.Base.{ℕ, suc, ◌+◌, ◌*◌, ◌/◌, ◌%◌, ◌≡◌, ◌<◌, refl, arith, some, true, false}
use crypt_dough.Lanes.{InRange}
use crypt_dough.Lanes.Word.{word}
use crypt_dough.Lanes.Vector.{vector}
use crypt_dough.Replicated.DotProduct.{dot_product}
use crypt_dough.Lanes.Bitwise.{bitwise_word}
use crypt_dough.FourParty.Shares.{EVector, IsShared, reconstruct_from_a, unchecked_open_a}
use crypt_dough.FourParty.Inp.{Party}
use crypt_dough.FourParty.InpLaws.{IsSynced}
use crypt_dough.FourParty.Multiply.{
  Division, multiply_a, div_const_a, b2a_bit, fantastic_dot_product_a,
}
use crypt_dough.FourParty.MultiplyLaws.{Opens, fantastic_multiply_a-open}
use crypt_dough.FourParty.DivisionLaws.{quotient}
use crypt_dough.FourParty.TruncateLaws.{
  fantastic_div_const_a-identity, fantastic_multiply_a_fraction,
}
use crypt_dough.FourParty.ConvertLaws.{fantastic_b2a_bit-open}
use crypt_dough.FourParty.DotProductLaws.{fantastic_dot_product_a-open}
use crypt_dough.Tests.{stream}

-- A hash that keeps the sum of what it was given.
abbrev add_up : ℕ → ℕ → ℕ
add_up h a = h * 3 + a

abbrev parties : ℕ → Party ℕ
parties me = record { counts = λ link. 0; hash_states = λ pa. 0 }

parties-IsSynced : IsSynced (λ link. 0) parties
parties-IsSynced = record { drawn = λ me k hm hk ne. refl; agreed = λ pa. refl }

abbrev values : ℕ → ℕ → ℕ
values n t = (t * 77 + n) % 256

abbrev x : ℕ → ℕ → ℕ → EVector ℕ
x n d me = record { share = λ k. values n ((me + k + 1) % 4); precision = d }

x-IsShared : (n d : ℕ) → IsShared d (x n d) (values n)
x-IsShared n d = record { held = λ me k hm hk. refl; precisions = λ me h. refl }

abbrev division : ℕ → Division ℕ
division d = record { constant = 4; divrem = λ a. (a / 4, a % 4); is_negative = λ a. a / 128 }

id_final : ℕ → ℕ
id_final h = h

fantastic_multiply_a-open_example :
    (z : ℕ → EVector ℕ) × (after : ℕ → Party ℕ) × (multiply_a
        (word 8)
        add_up
        stream
        true
        division
        (x 5 0)
        (x 9 0)
        parties
      ≡ some (z, after))
    × Opens
        (word 8)
        id_final
        0
        ((word 8).mul (reconstruct_from_a (word 8) (x 5 0)) (reconstruct_from_a (word 8) (x 9 0)))
        z
        after
fantastic_multiply_a-open_example =
    fantastic_multiply_a-open (word 8) add_up id_final stream (x-IsShared 5 0) (x-IsShared 9 0)
      (λ link. 0) parties parties-IsSynced true division refl

quotient-InRange :
    (a : ℕ) → InRange (word 8) a → InRange (word 8) (quotient (word 8) false (division 2) a)
unfolding word
quotient-InRange a h i = omega (arith, h i)

fantastic_multiply_a_fraction_example :
    (z : ℕ → EVector ℕ) × (after : ℕ → Party ℕ) × (multiply_a
        (word 8)
        add_up
        stream
        false
        division
        (x 5 2)
        (x 9 2)
        parties
      ≡ some (z, after))
    × (a : ℕ) × (b : ℕ) × ((word 8).add a b
        ≡ (word 8).mul (reconstruct_from_a (word 8) (x 5 2)) (reconstruct_from_a (word 8) (x 9 2)))
    × Opens
        (word 8)
        id_final
        2
        ((word 8).add
          (quotient (word 8) false (division 2) a)
          (quotient (word 8) false (division 2) b))
        z
        after
fantastic_multiply_a_fraction_example =
    fantastic_multiply_a_fraction (word 8) add_up id_final stream (x-IsShared 5 2) (x-IsShared 9 2)
      (λ link. 0) parties parties-IsSynced false division (λ e. omega (arith, e)) quotient-InRange

division-identity :
    (a : ℕ)
    → InRange (word 8) a
    → (word 8).add
        ((word 8).mul ((division 2).divrem a).0 (division 2).constant)
        ((division 2).divrem a).1
      ≡ a
unfolding word
division-identity a h = omega (arith, h tt)

fantastic_div_const_a-identity_example :
    (q : ℕ) × (err : ℕ) × Opens
      (word 8)
      id_final
      0
      q
      (div_const_a (word 8) add_up stream true (division 2) (x 5 0) parties).0
      (div_const_a (word 8) add_up stream true (division 2) (x 5 0) parties).2
    × ((me : ℕ)
        → me < 4
        → unchecked_open_a
            (word 8)
            (div_const_a (word 8) add_up stream true (division 2) (x 5 0) parties).1
            me
          ≡ err)
    × ((word 8).add ((word 8).add ((word 8).mul q 4) err) 4 ≡ reconstruct_from_a (word 8) (x 5 0))
fantastic_div_const_a-identity_example =
    fantastic_div_const_a-identity (word 8) add_up id_final stream (x-IsShared 5 0) (λ link. 0)
      parties parties-IsSynced (division 2) division-identity

abbrev mask : ℕ → ℕ
mask a = a % 2

abbrev xor_bits : ℕ → ℕ → ℕ
xor_bits a b = (a + b) % 2

xor_bits-at :
    (a b : ℕ) (i : Unit {0})
    → (word 8).at (xor_bits (mask a) (mask b)) i
      ≡ ((word 8).at (mask a) i + (word 8).at (mask b) i) % 2
unfolding word
xor_bits-at a b i = refl

xor_bits-InRange : (a b : ℕ) → InRange (word 8) (xor_bits (mask a) (mask b))
unfolding word
xor_bits-InRange a b i = omega arith

fantastic_b2a_bit-open_example :
    (z : ℕ → EVector ℕ) × (after : ℕ → Party ℕ) × (b2a_bit
        (word 8)
        add_up
        stream
        true
        division
        mask
        xor_bits
        (x 5 0)
        parties
      ≡ some (z, after))
    × (value : ℕ) × Opens (word 8) id_final 0 value z after
    × ((i : Unit {0})
        → (word 8).at value i
          ≡ (((word 8).at (mask 5) i
                + (word 8).at (mask 82) i
                + (word 8).at (mask 159) i
                + (word 8).at (mask 236) i)
              % 2)
            % suc (word 8).top)
fantastic_b2a_bit-open_example =
    fantastic_b2a_bit-open (word 8) add_up id_final stream (x-IsShared 5 0) (λ link. 0) parties
      parties-IsSynced true division mask xor_bits xor_bits-at xor_bits-InRange

abbrev sum : ℕ → ℕ → ℕ
sum a b = (a + b) % 256

-- The complement of the lowest bit, which is ! on a masked share.
abbrev flip_low : ℕ → ℕ
flip_low a = bitwise_word.add a 1

abbrev add_vectors : ℕ → (ℕ → ℕ) → ℕ
add_vectors h f = h * 3 + f 0

abbrev vector_stream : ℕ → ℕ → ℕ → ℕ
vector_stream link k j = stream link (k + j)

abbrev u : ℕ → ℕ → EVector (ℕ → ℕ)
u n me = record { share = λ k j. values (n + j) ((me + k + 1) % 4); precision = 0 }

u-IsShared : (n : ℕ) → IsShared 0 (u n) (λ t j. values (n + j) t)
u-IsShared n = record { held = λ me k hm hk. refl; precisions = λ me h. refl }

abbrev vector_division : ℕ → Division (ℕ → ℕ)
vector_division d = record {
  constant = λ j. 4;
  divrem = λ a. ((λ j. a j / 4), λ j. a j % 4);
  is_negative = λ a j. a j / 128;
}

fantastic_dot_product_a-open_example :
    (z : ℕ → EVector (ℕ → ℕ)) × (after : ℕ → Party ℕ) × (fantastic_dot_product_a
        (word 8)
        add_vectors
        vector_stream
        true
        vector_division
        3
        (u 5)
        (u 9)
        parties
      ≡ some (z, after))
    × Opens
        (vector ℕ (word 8))
        id_final
        0
        (dot_product
          (word 8)
          3
          (reconstruct_from_a (vector ℕ (word 8)) (u 5))
          (reconstruct_from_a (vector ℕ (word 8)) (u 9)))
        z
        after
fantastic_dot_product_a-open_example =
    fantastic_dot_product_a-open (word 8) add_vectors id_final vector_stream true vector_division 3
      (u-IsShared 5) (u-IsShared 9) (λ link. 0) parties parties-IsSynced
