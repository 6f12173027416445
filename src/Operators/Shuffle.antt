-- ===== src/Operators/Shuffle.antt =====
-- Applying and composing permutations (include/core/operators/shuffle.h). A vector is a function
-- of the index. The oblivious operations are modelled on the value that is shared: a random
-- sharded permutation moves the shares, and with them the value, as its product `pi` does.
pub mod Laws
use crypt_dough.Base.{ℕ, zero, suc, ltb, ◌==◌, if◌then◌else◌}

module _ {A : Type 0} where
  -- The first loop of `local_apply_perm`, with `left` entries to go.
  unfoldable pub perm_func : (ℕ → ℕ) → (ℕ → A) → ℕ → ℕ → (ℕ → A) → ℕ → A
  perm_func permutation x zero i new_x = new_x
  perm_func permutation x (suc left) i new_x =
      perm_func permutation x left (suc i) (λ k. if k == permutation i then x i else new_x k)

  -- The second loop copies the entries below the size.
  unfoldable pub copy_func : ℕ → (ℕ → A) → (ℕ → A) → ℕ → A
  copy_func size new_x x k = if ltb k size then new_x k else x k

  -- `new_x` is what the buffer holds before the call.
  unfoldable pub local_apply_perm : ℕ → (ℕ → A) → (ℕ → ℕ) → (ℕ → A) → ℕ → A
  unfolding perm_func copy_func
  local_apply_perm size new_x permutation x =
      copy_func size (perm_func permutation x size 0 new_x) x

  unfoldable pub local_apply_inverse_perm : ℕ → (ℕ → ℕ) → (ℕ → A) → ℕ → A
  unfolding copy_func
  local_apply_inverse_perm size permutation x = copy_func size (λ i. x (permutation i)) x

-- `buffer` and `int_buffer` are what the two static buffers hold before each call.
module _ {A : Type 0} (size : ℕ) (buffer : ℕ → A) (int_buffer : ℕ → ℕ) where
  unfoldable pub oblivious_apply_elementwise_perm : (ℕ → ℕ) → (ℕ → A) → (ℕ → ℕ) → ℕ → A
  unfolding local_apply_perm
  oblivious_apply_elementwise_perm pi x perm =
      let pi_x = local_apply_perm size buffer pi x in
      let pi_perm = local_apply_perm size int_buffer pi perm in
      local_apply_perm size buffer pi_perm pi_x

module _ (size : ℕ) (int_buffer : ℕ → ℕ) where
  unfoldable pub compose_permutations : (ℕ → ℕ) → (ℕ → ℕ) → (ℕ → ℕ) → ℕ → ℕ
  unfolding local_apply_perm local_apply_inverse_perm
  compose_permutations pi sigma rho =
      let pi_sigma = local_apply_perm size int_buffer pi sigma in
      let rho' = local_apply_inverse_perm size pi_sigma rho in local_apply_inverse_perm size pi rho'

  -- `ElementwisePermutation::invert` (include/core/containers/permutation.h): the identity is
  -- moved.
  unfoldable pub invert : (ℕ → ℕ) → (ℕ → ℕ) → ℕ → ℕ
  unfolding oblivious_apply_elementwise_perm
  invert pi perm = oblivious_apply_elementwise_perm size int_buffer int_buffer pi (λ i. i) perm
