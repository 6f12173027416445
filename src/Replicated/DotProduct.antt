-- ===== src/Replicated/DotProduct.antt =====
-- Dot products of replicated vectors, chunk by chunk: `dot_product_a`.
use crypt_dough.Base.{ℕ, zero, suc, ◌+◌, ◌*◌, Option, some}
use crypt_dough.Comm.{exchange_shares, all_three, handle_precision, ◌>>=◌}
use crypt_dough.Lanes.{Lanes}
use crypt_dough.Lanes.Vector.{vector}
use crypt_dough.Replicated.Shares.{EVector}
use crypt_dough.Replicated.Multiply.{truncate}

module _ {I A : Type 0} (v : Lanes I A) where
  -- `dot_product` of one chunk that starts at `start`.
  abbrev pub chunk_product : (ℕ → A) → (ℕ → A) → ℕ → ℕ → A
  chunk_product x y start zero = v.zeros
  chunk_product x y start (suc n) =
      v.add (chunk_product x y start n) (v.mul (x (start + n)) (y (start + n)))

  -- `dot_product` of two vectors in chunks of `agg_size`.
  unfoldable pub dot_product : ℕ → (ℕ → A) → (ℕ → A) → ℕ → A
  dot_product agg_size x y chunk = chunk_product x y (chunk * agg_size) agg_size

  unfoldable pub local_dot_product : ℕ → (ℕ → A) → EVector (ℕ → A) → EVector (ℕ → A) → ℕ → A
  unfolding dot_product
  local_dot_product agg_size r x y k =
      v.add
        (v.add (v.add (dot_product agg_size x.v0 y.v0 k) (dot_product agg_size x.v0 y.v1 k))
          (dot_product agg_size x.v1 y.v0 k))
        (r k)

  unfoldable pub dot_product_round :
      ℕ → (ℕ → ℕ → A) → (ℕ → EVector (ℕ → A)) → (ℕ → EVector (ℕ → A)) → Option (ℕ → EVector (ℕ → A))
  unfolding local_dot_product
  dot_product_round agg_size rz x y = all_three (λ me. do
    remote ← exchange_shares 3 2 1 (λ p. local_dot_product agg_size (rz p) (x p) (y p)) me
    precision ← handle_precision (x me).precision (y me).precision
    some (record {
      v0 = local_dot_product agg_size (rz me) (x me) (y me);
      v1 = remote;
      precision = precision;
    }))

  -- `shift` and `masking` are as in `truncate`.
  unfoldable pub dot_product_a :
      ((ℕ → A) → ℕ → (ℕ → A))
      → (ℕ → A)
      → ℕ
      → (ℕ → ℕ → A)
      → (ℕ → EVector (ℕ → A))
      → (ℕ → EVector (ℕ → A))
      → Option (ℕ → EVector (ℕ → A))
  unfolding dot_product_round truncate
  dot_product_a shift masking agg_size rz x y = do
    z ← dot_product_round agg_size rz x y
    all_three (truncate (vector ℕ v) shift masking z)
