-- ===== src/Operators/TreePrefixSum.antt =====
-- The prefix sum by a tree (`tree_prefix_sum` of include/core/operators/aggregation.h), for any
-- type of entries: it is called on shared and on plaintext vectors.
pub mod Laws
use crypt_dough.Base.{ℕ, zero, suc, ◌+◌, ◌-◌, ◌/◌, ◌^◌, ltb, if◌then◌else◌, Bool, bit_width}
use crypt_dough.Operators.Aggregation.{view}

module _ {A : Type 0} (add : A → A → A) where
  -- `b = b + a` for the slices of the entries before the last `d` and after the first `d`; both
  -- are read before one is written.
  unfoldable pub add_shifted : ℕ → (ℕ → A) → ℕ → A
  add_shifted d y k = if ltb k d then y k else add (y k) (y (k - d))

  -- The loop from `i` on, with `left` rounds to go.
  unfoldable pub tree_loop : ℕ → ℕ → ℕ → (ℕ → A) → ℕ → A
  unfolding add_shifted
  tree_loop size zero i y = y
  tree_loop size (suc left) i y = tree_loop size left (suc i) (add_shifted (size / 2 ^ i) y)

  unfoldable pub tree_prefix_sum : ℕ → Bool → (ℕ → A) → ℕ → A
  unfolding tree_loop
  tree_prefix_sum size reverse v =
      let log_size = bit_width size - 1 in
      view size reverse (tree_loop size log_size 1 (view size reverse v))
