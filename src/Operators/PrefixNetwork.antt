-- ===== src/Operators/PrefixNetwork.antt =====
-- The Brent-Kung network (include/core/operators/prefix_network.h): which elements of a vector
-- meet at each level, and what a run of the network makes of a vector.
pub mod Scan
pub mod Levels
pub mod Laws
use crypt_dough.Base.{
  ℕ, zero, suc, ◌+◌, ◌-◌, ◌*◌, ◌/◌, ◌^◌, ltb, ◌==◌, if◌then◌else◌, Bool, bit_width,
}

module _ (n : ℕ) where
  unfoldable pub half_depth : ℕ
  half_depth = bit_width (n - 1)

  unfoldable pub depth : ℕ
  unfolding half_depth
  depth = 2 * half_depth - 1

  -- How many pairs meet at level `i`.
  unfoldable pub level_size : ℕ → ℕ
  unfolding half_depth
  level_size i =
      if ltb i half_depth
      then (let gap = 2 ^ i in (n - 2 * gap) / (2 * gap) + 1)
      else (let gap = 2 ^ (2 * half_depth - 2 - i) in (n - 3 * gap) / (2 * gap) + 1)

  -- The `j`-th elements of the two views of `_level`.
  unfoldable pub level_left : ℕ → ℕ → ℕ
  unfolding half_depth
  level_left i j =
      if ltb i half_depth
      then (let gap = 2 ^ i in 1 * gap - 1 + j * (gap * 2))
      else (let gap = 2 ^ (2 * half_depth - 2 - i) in 2 * gap - 1 + j * (gap * 2))

  unfoldable pub level_right : ℕ → ℕ → ℕ
  unfolding half_depth
  level_right i j =
      if ltb i half_depth
      then (let gap = 2 ^ i in 2 * gap - 1 + j * (gap * 2))
      else (let gap = 2 ^ (2 * half_depth - 2 - i) in 3 * gap - 1 + j * (gap * 2))

-- `combine l r x y` is what the element `y` at place `r` becomes when it meets `x` at place `l`.
module _ {A : Type 0} (combine : ℕ → ℕ → A → A → A) where
  -- The first `count` pairs meet; all are read before one is written.
  unfoldable pub apply_pairs : (ℕ → ℕ) → (ℕ → ℕ) → ℕ → (ℕ → A) → ℕ → A
  apply_pairs left right zero v k = v k
  apply_pairs left right (suc j) v k =
      if k == right j
      then combine (left j) (right j) (v (left j)) (v (right j))
      else apply_pairs left right j v k

  module _ (n : ℕ) where
    unfoldable pub apply_level : ℕ → (ℕ → A) → ℕ → A
    unfolding apply_pairs level_left level_right level_size
    apply_level i v = apply_pairs (level_left n i) (level_right n i) (level_size n i) v

    -- The levels from `i` on, with `left` of them to go.
    unfoldable pub run_levels : ℕ → ℕ → (ℕ → A) → ℕ → A
    unfolding apply_level
    run_levels zero i v = v
    run_levels (suc left) i v = run_levels left (suc i) (apply_level i v)

    unfoldable pub run_network : (ℕ → A) → ℕ → A
    unfolding run_levels depth
    run_network v = run_levels (depth n) 0 v
