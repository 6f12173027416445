-- ===== src/FourParty/DotProductLaws.antt =====
-- About `dot_product_a` of include/core/protocols/dalskov_4pc.h: the dot product is bilinear, so
-- what holds of `generic_multiply` holds of it.
use native.Mathlib.Nat.{zero-mod}
use crypt_dough.Base.{
  ℕ, zero, suc, ◌+◌, ◌*◌, ◌%◌, ◌≡◌, ◌∙◌, refl, sym, ap, ap₂, arith, mods, fun_ext, some, Bool,
}
use crypt_dough.Lanes.{Lanes}
use crypt_dough.Lanes.Vector.{vector}
use crypt_dough.Random.Prg.{Counters}
use crypt_dough.Replicated.DotProduct.{chunk_product, dot_product}
use crypt_dough.FourParty.Shares.{EVector, IsShared, reconstruct_from_a, a_shared}
use crypt_dough.FourParty.ShareLaws.{reconstruct-total}
use crypt_dough.FourParty.Inp.{Party}
use crypt_dough.FourParty.InpLaws.{IsSynced}
use crypt_dough.FourParty.ProductLaws.{IsBilinear, generic_multiply-total}
use crypt_dough.FourParty.MultiplyLaws.{Opens, truncated-open, revalue}
use crypt_dough.FourParty.Multiply.{Division, fantastic_dot_product_a}

module _ {I A : Type 0} (v : Lanes I A) where
  chunk_left :
      (x y z : ℕ → A) (start n : ℕ)
      → chunk_product v (λ k. v.add (x k) (y k)) z start n
        ≡ v.add (chunk_product v x z start n) (chunk_product v y z start n)
  chunk_left x y z start zero = v.at_ext _ _ λ i. simp (v.at-add, v.at-zeros, zero-mod) refl
  chunk_left x y z start (suc n) =
      ap (λ t. v.add t (v.mul (v.add (x (start + n)) (y (start + n))) (z (start + n))))
        (chunk_left x y z start n)
      ∙ v.at_ext _ _ λ i. simp (v.at-add, v.at-mul, mods) (ap (λ t. t % suc v.top) (omega arith))

  chunk_right :
      (x y z : ℕ → A) (start n : ℕ)
      → chunk_product v z (λ k. v.add (x k) (y k)) start n
        ≡ v.add (chunk_product v z x start n) (chunk_product v z y start n)
  chunk_right x y z start zero = v.at_ext _ _ λ i. simp (v.at-add, v.at-zeros, zero-mod) refl
  chunk_right x y z start (suc n) =
      ap (λ t. v.add t (v.mul (z (start + n)) (v.add (x (start + n)) (y (start + n)))))
        (chunk_right x y z start n)
      ∙ v.at_ext _ _ λ i. simp (v.at-add, v.at-mul, mods) (ap (λ t. t % suc v.top) (omega arith))

  dot_product-IsBilinear :
      (agg_size : ℕ) → IsBilinear (vector ℕ v) (vector ℕ v) (dot_product v agg_size)
  unfolding vector dot_product
  dot_product-IsBilinear agg_size = record {
    left = λ x y z. fun_ext λ k. chunk_left x y z (k * agg_size) agg_size;
    right = λ z x y. fun_ext λ k. chunk_right x y z (k * agg_size) agg_size;
  }

module _ {I A H : Type 0} (v : Lanes I A) (update : H → (ℕ → A) → H) (final : H → ℕ)
    (stream : ℕ → ℕ → ℕ → A) where
  -- Dot products of whole values in chunks, by four ranks that agree: no rank fails, every rank
  -- opens the dot products, and the check that follows passes at every rank.
  pub fantastic_dot_product_a-open :
      (corrected : Bool) (division : ℕ → Division (ℕ → A)) (agg_size : ℕ)
      {x y : ℕ → EVector (ℕ → A)} {sx sy : ℕ → ℕ → A}
      → IsShared 0 x sx
      → IsShared 0 y sy
      → (n : Counters) (parties : ℕ → Party H) → IsSynced n parties
      → (z : ℕ → EVector (ℕ → A)) × (after : ℕ → Party H) × (fantastic_dot_product_a v update stream
            corrected division agg_size x y parties
          ≡ some (z, after))
        × Opens
            (vector ℕ v)
            final
            0
            (dot_product v agg_size
              (reconstruct_from_a (vector ℕ v) x)
              (reconstruct_from_a (vector ℕ v) y))
            z
            after
  unfolding fantastic_dot_product_a
  fantastic_dot_product_a-open corrected division agg_size shared_x shared_y n parties synced =
      truncated-open (vector ℕ v) update final stream corrected division refl (
        revalue (vector ℕ v) update final stream
          (ap₂ (dot_product v agg_size) (sym (reconstruct-total (vector ℕ v) shared_x))
            (sym (reconstruct-total (vector ℕ v) shared_y)))
          (generic_multiply-total (vector ℕ v) a_shared tt update stream (dot_product v agg_size) _
            _ _ _ shared_x shared_y (vector ℕ v) (dot_product-IsBilinear v agg_size) n parties
            synced))
