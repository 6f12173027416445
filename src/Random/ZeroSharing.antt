-- ===== src/Random/ZeroSharing.antt =====
-- Sharings of zero (include/core/random/correlation/zero_sharing_generator.h).
pub mod Sums
pub mod Laws
use crypt_dough.Base.{ℕ, ◌==◌, ◌&&◌, if◌then◌else◌}
use crypt_dough.Lanes.{Lanes}
use crypt_dough.Random.Prg.{Counters, advance, next_link, prev_link, far_link, get_next}

module _ {I A : Type 0} (v : Lanes I A) (stream : ℕ → ℕ → A) (n me : ℕ) where
  -- Only party 0 of two negates its share.
  pub arithmetic_flip : A → A
  arithmetic_flip nums = if n == 2 && me == 0 then v.neg nums else nums

  -- `getNextArithmetic(Vector&)`.
  pub get_next_arithmetic : Counters → A × Counters
  unfolding arithmetic_flip
  get_next_arithmetic c =
      let (prev, c') = get_next stream (prev_link n me) c in
      let (next, c'') = get_next stream (next_link n me) c' in
      let c_end = if n == 4 then advance (far_link me) c'' else c'' in
      if n == 1 then (v.zeros, c) else (arithmetic_flip (v.sub prev next), c_end)

  -- `getNextBinary(Vector&)`.
  pub get_next_binary : Counters → A × Counters
  get_next_binary c =
      let (prev, c') = get_next stream (prev_link n me) c in
      let (next, c'') = get_next stream (next_link n me) c' in
      if n == 1 then (v.zeros, c) else (v.add prev next, c'')
