-- ===== src/Tests/RandomTests.antt =====
-- Runs of the generators.
use native.Mathlib.Nat.{zero-mod}
use crypt_dough.Base.{ℕ, ◌+◌, ◌*◌, ◌%◌, ◌≡◌, ◌^◌, ◌∙◌, ap, inl, inr, ◌⊎◌, arith, some, bit_width}
use crypt_dough.Lanes.Word.{word}
use crypt_dough.Random.ZeroSharing.{get_next_arithmetic}
use crypt_dough.Random.ZeroSharing.Sums.{sum_shares}
use crypt_dough.Random.ZeroSharing.Laws.{sum-next_arithmetic}
use crypt_dough.Random.Triples.{Ole, get_next_triple}
use crypt_dough.Random.Triples.Laws.{get_next_triple-product}
use crypt_dough.Random.Permutation.{gen_perm}
use crypt_dough.Random.Permutation.Laws.{IsPermutation, HasZeros, gen_perm-IsPermutation}
use crypt_dough.Tests.{stream, counters, counters-IsSynced}

sum-next_arithmetic_example :
    sum_shares (word 8) 4 (λ me. (get_next_arithmetic (word 8) stream 4 me (counters me)).0)
    ≡ (word 8).zeros
sum-next_arithmetic_example =
    sum-next_arithmetic (word 8) stream counters 4 (omega arith) (omega arith) (counters-IsSynced 4)

abbrev sender : Ole ℕ
sender = record { multiplicative = 17; additive = 200 }

abbrev pub ole_0 : Ole (ℕ → ℕ)
ole_0 = record { multiplicative = λ k. k + 3; additive = λ k. k * 2 + 6 }

abbrev pub ole_1 : Ole (ℕ → ℕ)
ole_1 = record { multiplicative = λ k. 7; additive = λ k. k * 5 + 15 }

pub oles_correlated :
    (k : ℕ)
    → (word 8).add (ole_0.additive k) (ole_1.additive k)
      ≡ (word 8).mul (ole_0.multiplicative k) (ole_1.multiplicative k)
unfolding word
oles_correlated k = ap (λ t. t % 256) {x = k * 2 + 6 + (k * 5 + 15)} {y = (k + 3) * 7} (omega arith)

get_next_triple-product_example :
    (word 8).add
      ((get_next_triple (word 8) 2 0 ole_0).c 1)
      ((get_next_triple (word 8) 2 1 ole_1).c 1)
    ≡ (word 8).mul
        ((word 8).add
          ((get_next_triple (word 8) 2 0 ole_0).a 1)
          ((get_next_triple (word 8) 2 1 ole_1).a 1))
        ((word 8).add
          ((get_next_triple (word 8) 2 0 ole_0).b 1)
          ((get_next_triple (word 8) 2 1 ole_1).b 1))
get_next_triple-product_example = get_next_triple-product (word 8) 2 ole_0 ole_1 oles_correlated 1

-- Random words that are rejected every other time.
abbrev words : ℕ → ℕ
words k = k % 2 * 5

words-HasZeros : HasZeros words 4 2
words-HasZeros k = elim (parity k) [
  | inl even ↦ (0, omega arith, zero_word (k + 0) (omega (arith, even)))
  | inr odd ↦ (1, omega arith, zero_word (k + 1) (omega (arith, odd)))
]
  where
    parity : (k : ℕ) → (k % 2 ≡ 0) ⊎ (k % 2 ≡ 1)
    parity k = omega arith

    zero_word : (k : ℕ) → k % 2 ≡ 0 → words k % 2 ^ bit_width 4 ≡ 0
    zero_word k e = ap (λ t. (t * 5) % 2 ^ bit_width 4) e ∙ zero-mod (2 ^ bit_width 4)

gen_perm-IsPermutation_example : (p : ℕ → ℕ) × (gen_perm words 4 2 ≡ some p) × IsPermutation 4 p
gen_perm-IsPermutation_example = gen_perm-IsPermutation words 4 2 words-HasZeros
