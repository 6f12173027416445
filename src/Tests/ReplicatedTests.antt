-- ===== src/Tests/ReplicatedTests.antt =====
-- Runs of the protocol of three ranks.
use crypt_dough.Base.{
  ℕ, suc, ◌+◌, ◌%◌, ◌≡◌, ◌≢◌, ◌<◌, refl, arith, some, none, true, false, bit_xor,
}
use mathlib.Core.Option.{some-ne-none}
use crypt_dough.Lanes.Word.{word}
use crypt_dough.Lanes.Bitwise.{bitwise_word}
use crypt_dough.Comm.{all_three}
use crypt_dough.Random.ZeroSharing.{get_next_arithmetic, get_next_binary}
use crypt_dough.Replicated.Shares.{
  EVector, IsShared, replicated, public_position, reconstruct_from_a, unchecked_open_a,
  secret_share_a_internal,
}
use crypt_dough.Replicated.ShareLaws.{replicated-IsShared, open-reconstruct_a, secret_share_a-open}
use crypt_dough.Replicated.Multiply.{multiply_a}
use crypt_dough.Replicated.MultiplyLaws.{multiply_a-open, multiply_a_fraction}
use crypt_dough.Replicated.Convert.{b2a_bit}
use crypt_dough.Replicated.ConvertLaws.{b2a_bit-reconstruct}
use crypt_dough.Tests.{stream, counters, counters-IsSynced, shift, fits_word}

abbrev x : ℕ → ℕ → EVector ℕ
x d = replicated d 100 200 3

abbrev y : ℕ → ℕ → EVector ℕ
y d = replicated d 250 9 77

abbrev masks_a : ℕ → ℕ
masks_a me = (get_next_arithmetic (word 8) stream 3 me (counters me)).0

abbrev masks_b : ℕ → ℕ
masks_b me = (get_next_binary bitwise_word stream 3 me (counters me)).0

multiply_a-open_example :
    (z : ℕ → EVector ℕ) × (multiply_a (word 8) shift 31 masks_a (x 0) (y 0) ≡ some z)
    × IsShared 0 z
    × (reconstruct_from_a (word 8) z
        ≡ (word 8).mul (reconstruct_from_a (word 8) (x 0)) (reconstruct_from_a (word 8) (y 0)))
multiply_a-open_example =
    multiply_a-open (word 8) stream counters (counters-IsSynced 3) {d = 0} {x = x 0} {y = y 0}
      (replicated-IsShared 0 100 200 3) (replicated-IsShared 0 250 9 77) shift 31 refl

multiply_a_fraction_example :
    (z : ℕ → EVector ℕ) × (multiply_a (word 8) shift 31 masks_a (x 2) (y 2) ≡ some z)
    × IsShared 2 z
    × (a : ℕ) × (b : ℕ) × ((word 8).add a b
        ≡ (word 8).mul (reconstruct_from_a (word 8) (x 2)) (reconstruct_from_a (word 8) (y 2)))
    × (reconstruct_from_a (word 8) z ≡ (word 8).add (shift a 2) (shift b 2))
multiply_a_fraction_example =
    multiply_a_fraction (word 8) stream counters (counters-IsSynced 3) {d = 2} {x = x 2} {y = y 2}
      (replicated-IsShared 2 100 200 3) (replicated-IsShared 2 250 9 77) shift 31
      (λ e. absurd (omega (arith, e)))

abbrev mask : ℕ → ℕ
mask a = a % 2

abbrev bit_shares : ℕ → EVector ℕ
bit_shares = replicated 0 101 200 3

b2a_bit-reconstruct_example :
    (z : ℕ → EVector ℕ) × (b2a_bit (word 8) mask bit_xor shift 31 stream counters bit_shares
      ≡ some z)
    × IsShared 0 z
    × ((i : Unit {0})
        → (word 8).at (reconstruct_from_a (word 8) z) i
          ≡ (((word 8).at (mask 101) i + (word 8).at (mask 200) i + (word 8).at (mask 3) i) % 2)
            % suc (word 8).top)
unfolding word
b2a_bit-reconstruct_example =
    b2a_bit-reconstruct (word 8) mask bit_xor shift 31 stream counters 0 bit_shares
      (counters-IsSynced 3) (replicated-IsShared 0 101 200 3) (λ i. omega arith) (λ i. refl)

abbrev plus : ℕ → ℕ → ℕ
plus a b = (a + b) % 256

secret_share_a-open_example :
    (z : ℕ → EVector ℕ) × (all_three (secret_share_a_internal (word 8) 42 200 99 1) ≡ some z)
    × IsShared 0 z
    × ((me : ℕ) → me < 3 → unchecked_open_a (word 8) z me ≡ some 42)
secret_share_a-open_example =
    secret_share_a-open (word 8) 42 200 99 1 (omega arith) (fits_word 42 (omega arith))

handled_group : public_position false true true ≢ none
unfolding public_position
handled_group = some-ne-none 2

open-reconstruct_a_example :
    unchecked_open_a (word 8) (x 0) 1 ≡ some (reconstruct_from_a (word 8) (x 0))
open-reconstruct_a_example =
    open-reconstruct_a (word 8) 0 (x 0) (replicated-IsShared 0 100 200 3) 1 (omega arith)
