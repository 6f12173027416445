-- ===== src/Tests/BeaverTests.antt =====
-- Runs of the protocol of two ranks.
use crypt_dough.Base.{ℕ, suc, ◌+◌, ◌%◌, ◌≡◌, ◌<◌, refl, arith, some}
use crypt_dough.Lanes.Word.{word}
use crypt_dough.Lanes.Bitwise.{bitwise_word}
use crypt_dough.Comm.{two}
use crypt_dough.Random.Triples.{Triple}
use crypt_dough.Beaver.Shares.{EVector, IsShared, shared, reconstruct_from_a}
use crypt_dough.Beaver.Multiply.{multiply_a, b2a_bit}
use crypt_dough.Beaver.MultiplyLaws.{IsProduct, beaver_multiply_a_fraction, beaver_b2a_bit-open}
use crypt_dough.Tests.{shift}

abbrev x : ℕ → ℕ → EVector ℕ
x d = shared d 100 203

abbrev y : ℕ → ℕ → EVector ℕ
y d = shared d 250 9

-- (3 + 10) * (7 + 4) = 143.
abbrev triples : ℕ → Triple ℕ
triples = two (record { a = 3; b = 7; c = 99 }) (record { a = 10; b = 4; c = 44 })

triples-IsProduct : IsProduct (word 8) triples
unfolding word
triples-IsProduct = refl

-- (3 ^ 10) & (7 ^ 4) = 1.
abbrev bit_triples : ℕ → Triple ℕ
bit_triples = two (record { a = 3; b = 7; c = 99 }) (record { a = 10; b = 4; c = 98 })

bit_triples-IsProduct : IsProduct bitwise_word bit_triples
unfolding bitwise_word
bit_triples-IsProduct = refl

beaver_multiply_a_fraction_example :
    (z : ℕ → EVector ℕ) × (multiply_a (word 8) triples (x 2) (y 2) shift ≡ some z)
    × IsShared 2 z
    × (a : ℕ) × (b : ℕ) × ((word 8).add a b
        ≡ (word 8).mul (reconstruct_from_a (word 8) (x 2)) (reconstruct_from_a (word 8) (y 2)))
    × (reconstruct_from_a (word 8) z ≡ (word 8).add (shift a 2) (shift b 2))
beaver_multiply_a_fraction_example =
    beaver_multiply_a_fraction (word 8) triples (x 2) (y 2) triples-IsProduct {d = 2} (refl, refl)
      (refl, refl) shift (λ e. absurd (omega (arith, e)))

abbrev mask : ℕ → ℕ
mask a = a % 2

mask-lt : (p : ℕ) (i : Unit {0}) → (word 8).at (mask (x 0 p).v0) i < 2
unfolding word
mask-lt p i = omega arith

beaver_b2a_bit-open_example :
    (z : ℕ → EVector ℕ) × (b2a_bit (word 8) mask shift triples (x 0) ≡ some z)
    × ((i : Unit {0})
        → (word 8).at (reconstruct_from_a (word 8) z) i
          ≡ (((word 8).at (mask 100) i + (word 8).at (mask 203) i) % 2) % suc (word 8).top)
beaver_b2a_bit-open_example =
    beaver_b2a_bit-open (word 8) mask shift triples (x 0) triples-IsProduct mask-lt
