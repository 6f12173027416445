-- ===== src/Random/Permutation.antt =====
-- Local permutations: `gen_perm` of
-- include/core/random/permutations/hm_sharded_permutation_generator.h and of
-- include/core/operators/shuffle.h. The buffers of random words are taken one after another, so
-- the random words are one stream and a position in it.
pub mod Laws
use crypt_dough.Base.{
  ℕ, zero, suc, ◌+◌, ◌-◌, ◌%◌, ◌^◌, ◌==◌, ltb, if◌then◌else◌, Option, none, some, bit_width,
}
use crypt_dough.Comm.{◌>>=◌}

-- An array of size `size`, by its entries.
abbrev pub write_at : (ℕ → ℕ) → ℕ → ℕ → ℕ → ℕ
write_at array i x k = if k == i then x else array k

abbrev pub swap : (ℕ → ℕ) → ℕ → ℕ → ℕ → ℕ
swap permutation i location =
    let temp = permutation i in
    write_at (write_at permutation i (permutation location)) location temp

module _ (stream : ℕ → ℕ) (size : ℕ) where
  -- `random[rand_index] & mask`.
  abbrev pub masked_random : ℕ → ℕ
  masked_random rand_index = stream rand_index % 2 ^ bit_width size

  -- The loop that rejects what is too large. It has no bound in the code: `none` says that the fuel
  -- ran out.
  unfoldable pub draw_below : ℕ → ℕ → ℕ → Option (ℕ × ℕ)
  draw_below zero i rand_index = none
  draw_below (suc fuel) i rand_index =
      let rest = draw_below fuel i (suc rand_index) in
      if ltb (size - i - 1) (masked_random rand_index)
      then rest
      else some (masked_random rand_index, suc rand_index)

  -- The loop over the positions, with `left` of them to go.
  unfoldable pub shuffle_loop : ℕ → ℕ → ℕ → ℕ → (ℕ → ℕ) → Option (ℕ → ℕ)
  unfolding draw_below
  shuffle_loop fuel zero i rand_index permutation = some permutation
  shuffle_loop fuel (suc left) i rand_index permutation = do
    drawn ← draw_below fuel i rand_index
    shuffle_loop fuel left (suc i) (drawn.1) (swap permutation i (i + drawn.0))

  unfoldable pub gen_perm : ℕ → Option (ℕ → ℕ)
  unfolding shuffle_loop
  gen_perm fuel = shuffle_loop fuel size 0 0 (λ k. k)
