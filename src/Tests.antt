-- ===== src/Tests.antt =====
-- Runs on concrete values: eight-bit words, three ranks with replicated shares and two ranks with
-- additive ones, and PRG streams that are easy to follow.
pub mod RandomTests
pub mod ReplicatedTests
pub mod BeaverTests
pub mod CircuitTests
pub mod QueueTests
pub mod SortTests
pub mod PermutationTests
pub mod AggregationTests
pub mod VectorTests
pub mod FourPartyTests
pub mod FourPartyShareTests
pub mod DetectionTests
pub mod OperatorTests
pub mod CustomFourTests
use native.Mathlib.Nat.{mod-eq_of_lt}
use crypt_dough.Base.{ℕ, zero, suc, ◌+◌, ◌*◌, ◌/◌, ◌%◌, ◌^◌, ◌≡◌, ◌<◌, refl, arith, ◌==◌}
use crypt_dough.Lanes.{Lanes, InRange}
use crypt_dough.Lanes.Word.{word}
use crypt_dough.Lanes.Bitwise.{bitwise_word, bit, bit-lt}
use crypt_dough.Random.Prg.{Counters}
use crypt_dough.Random.ZeroSharing.Laws.{IsSynced}
use crypt_dough.Circuits.Bits.{Bits}

abbrev pub stream : ℕ → ℕ → ℕ
stream link k = (link * 70 + k * 51 + 3) % 256

abbrev pub counters : ℕ → Counters
counters me link = 0

pub counters-IsSynced : (n : ℕ) → IsSynced n counters
counters-IsSynced n me h = refl

abbrev pub shift : ℕ → ℕ → ℕ
shift a d = a / 2 ^ d

abbrev pub bits_of : ℕ → Bits
bits_of n i = bit n i == 1

pub fits_word : (a : ℕ) → a < 256 → InRange (word 8) a
unfolding word
fits_word a h i = mod-eq_of_lt h

pub fits_bits : (a : ℕ) → InRange bitwise_word a
unfolding bitwise_word
fits_bits a i = mod-eq_of_lt (bit-lt a i)

pub one_bit : bitwise_word.top ≡ 1
unfolding bitwise_word
one_bit = refl
