-- ===== src/Replicated/MultiplyLaws.antt =====
-- About `multiply_a` and `and_b` of include/core/protocols/replicated_3pc.h.
use native.Mathlib.Nat.{div-add-mod, zero-add}
use crypt_dough.Base.{
  ℕ, suc, ◌+◌, ◌/◌, ◌%◌, ◌≡◌, ◌≢◌, ◌∙◌, refl, sym, ap, arith, mods, mod_eq_by, some,
}
use crypt_dough.Lanes.{Lanes}
use crypt_dough.Comm.{handle_precision, all_three}
use crypt_dough.Random.Prg.{Counters}
use crypt_dough.Random.ZeroSharing.{get_next_arithmetic, get_next_binary}
use crypt_dough.Random.ZeroSharing.Sums.{sum_shares}
use crypt_dough.Random.ZeroSharing.Laws.{IsSynced, sum-next_arithmetic, sum-next_binary}
use crypt_dough.Replicated.TruncateLaws.{truncate_whole, truncate-halves}
use crypt_dough.Replicated.Shares.{
  EVector, IsShared, replicated, reconstruct_from_a, reconstruct_from_b,
}
use crypt_dough.Replicated.ShareLaws.{replicated-IsShared}
use crypt_dough.Replicated.Multiply.{local_product, product_round, truncate, multiply_a, and_b}

pub handled : (p q d : ℕ) → p ≡ d → q ≡ d → handle_precision p q ≡ some d
unfolding handle_precision
handled p q d e f = ground arith

module _ {I A : Type 0} (v : Lanes I A) where
  -- The nine products of three shares by three, of which each rank forms three.
  abbrev row : A → A → A → A → A → A
  row r a b a' b' = v.add (v.add (v.add r (v.mul a a')) (v.mul a b')) (v.mul b a')

  rows :
      (r0 r1 r2 : A)
      → v.add (v.add r0 r1) r2 ≡ v.zeros
      → (a b c a' b' c' : A)
      → v.add (v.add (row r0 a b a' b') (row r1 b c b' c')) (row r2 c a c' a')
        ≡ v.mul (v.add (v.add a b) c) (v.add (v.add a' b') c')
  rows r0 r1 r2 masked a b c a' b' c' = v.at_ext _ _ λ i.
      let m = suc v.top in
      let r = v.at r0 i + v.at r1 i + v.at r2 i in
      let gone : r % m ≡ 0 =
        sym (simp (v.at-add, mods)) ∙ ap (λ t. v.at t i) masked ∙ v.at-zeros i in
      simp (v.at-add, v.at-mul, mods)
        (mod_eq_by m 0 (r / m) _ _ (omega (arith, div-add-mod r m, gone)))

  module _ (rz : ℕ → A) (masked : v.add (v.add (rz 0) (rz 1)) (rz 2) ≡ v.zeros) {d : ℕ}
      {x y : ℕ → EVector A} (sx : IsShared d x) (sy : IsShared d y) where
    sum-local_product :
        v.add
          (v.add (local_product v (rz 0) (x 0) (y 0)) (local_product v (rz 1) (x 1) (y 1)))
          (local_product v (rz 2) (x 2) (y 2))
        ≡ v.mul (reconstruct_from_a v x) (reconstruct_from_a v y)
    unfolding local_product reconstruct_from_a
    sum-local_product = cc (
      rows (rz 0) (rz 1) (rz 2) masked (x 0).v0 (x 0).v1 (x 1).v1 (y 0).v0 (y 0).v1 (y 1).v1,
      sx.held_01,
      sx.held_12,
      sx.held_20,
      sy.held_01,
      sy.held_12,
      sy.held_20,
    )

    products : ℕ → EVector A
    products =
        replicated d (local_product v (rz 0) (x 0) (y 0)) (local_product v (rz 1) (x 1) (y 1))
          (local_product v (rz 2) (x 2) (y 2))

    product_round_lem : product_round v rz x y ≡ some products
    unfolding product_round products
    product_round_lem = rw (
      handled _ _ d sx.precision_0 sy.precision_0,
      handled _ _ d sx.precision_1 sy.precision_1,
      handled _ _ d sx.precision_2 sy.precision_2,
    )

    products-IsShared : IsShared d products
    unfolding products
    products-IsShared = replicated-IsShared d _ _ _

    reconstruct-products :
        reconstruct_from_a v products ≡ v.mul (reconstruct_from_a v x) (reconstruct_from_a v y)
    unfolding products
    reconstruct-products = unfold_sum ∙ sum-local_product
      where
        unfold_sum :
            reconstruct_from_a v products
            ≡ v.add
                (v.add (local_product v (rz 0) (x 0) (y 0)) (local_product v (rz 1) (x 1) (y 1)))
                (local_product v (rz 2) (x 2) (y 2))
        unfold_sum = unfold reconstruct_from_a in refl

    and_b-product :
        (z : ℕ → EVector A) × (and_b v rz x y ≡ some z)
        × IsShared d z
        × (reconstruct_from_a v z ≡ v.mul (reconstruct_from_a v x) (reconstruct_from_a v y))
    unfolding and_b
    and_b-product = (products, product_round_lem, products-IsShared, reconstruct-products)

    module _ (shift : A → ℕ → A) (r : A) where
      multiply_after_round : multiply_a v shift r rz x y ≡ all_three (truncate v shift r products)
      unfolding multiply_a
      multiply_after_round = rw product_round_lem

      pub multiply_a-product :
          d ≡ 0
          → (z : ℕ → EVector A) × (multiply_a v shift r rz x y ≡ some z)
            × IsShared d z
            × (reconstruct_from_a v z ≡ v.mul (reconstruct_from_a v x) (reconstruct_from_a v y))
      multiply_a-product whole = (
        products,
        multiply_after_round
            ∙ truncate_whole v shift r products-IsShared whole
            ∙ unfold products in refl,
        products-IsShared,
        reconstruct-products,
      )

      multiply_a-halves :
          d ≢ 0
          → (z : ℕ → EVector A) × (multiply_a v shift r rz x y ≡ some z)
            × IsShared d z
            × (a : A) × (b : A) × (v.add a b
                ≡ v.mul (reconstruct_from_a v x) (reconstruct_from_a v y))
            × (reconstruct_from_a v z ≡ v.add (shift a d) (shift b d))
      multiply_a-halves fraction =
          let (z, runs, shared, a, b, halves, sum) =
            truncate-halves v shift r products-IsShared fraction in
          (z, multiply_after_round ∙ runs, shared, a, b, halves ∙ reconstruct-products, sum)

-- With the masks that the zero sharing generator draws.
module _ {I A : Type 0} (v : Lanes I A) (stream : ℕ → ℕ → A) (c : ℕ → Counters)
    (synced : IsSynced 3 c) {d : ℕ} {x y : ℕ → EVector A} (sx : IsShared d x)
    (sy : IsShared d y) where
  abbrev drawn_a : ℕ → A
  drawn_a me = (get_next_arithmetic v stream 3 me (c me)).0

  abbrev drawn_b : ℕ → A
  drawn_b me = (get_next_binary v stream 3 me (c me)).0

  pub three_masks :
      (f : ℕ → A) → sum_shares v 3 f ≡ v.zeros → v.add (v.add (f 0) (f 1)) (f 2) ≡ v.zeros
  three_masks f e = drop_zeros ∙ e
    where
      drop_zeros : v.add (v.add (f 0) (f 1)) (f 2) ≡ sum_shares v 3 f
      drop_zeros = v.at_ext _ _ λ i. simp (v.at-add, v.at-zeros, mods, zero-add)

  -- Multiplication of whole values, with the masks that the zero sharing generator draws at ranks
  -- that have drawn equally often from the PRGs that they share: from consistent shares of two
  -- values the ranks come, with no failure, to consistent shares of their product.
  pub multiply_a-open :
      (shift : A → ℕ → A) (r : A)
      → d ≡ 0
      → (z : ℕ → EVector A) × (multiply_a v shift r drawn_a x y ≡ some z)
        × IsShared d z
        × (reconstruct_from_a v z ≡ v.mul (reconstruct_from_a v x) (reconstruct_from_a v y))
  multiply_a-open shift r whole =
      multiply_a-product v drawn_a
        (three_masks drawn_a (sum-next_arithmetic v stream c 3 (omega arith) (omega arith) synced))
        sx sy shift r whole

  -- Multiplication of fixed-point values, with the masks that the zero sharing generator draws at
  -- ranks that have drawn equally often from the PRGs that they share: the product is split into
  -- two values that add up to it, and the ranks come from consistent shares to consistent shares of
  -- the sum of those two, each shifted right by the precision.
  pub multiply_a_fraction :
      (shift : A → ℕ → A) (r : A)
      → d ≢ 0
      → (z : ℕ → EVector A) × (multiply_a v shift r drawn_a x y ≡ some z)
        × IsShared d z
        × (a : A) × (b : A) × (v.add a b ≡ v.mul (reconstruct_from_a v x) (reconstruct_from_a v y))
        × (reconstruct_from_a v z ≡ v.add (shift a d) (shift b d))
  multiply_a_fraction shift r fraction =
      multiply_a-halves v drawn_a
        (three_masks drawn_a (sum-next_arithmetic v stream c 3 (omega arith) (omega arith) synced))
        sx sy shift r fraction

  -- AND on lanes of one bit, with the masks that the zero sharing generator draws at ranks that
  -- have drawn equally often from the PRGs that they share: from consistent boolean shares the
  -- ranks come, with no failure, to consistent shares of the bitwise product.
  pub and_b-open :
      v.top ≡ 1
      → (z : ℕ → EVector A) × (and_b v drawn_b x y ≡ some z)
        × IsShared d z
        × (reconstruct_from_b v z ≡ v.mul (reconstruct_from_b v x) (reconstruct_from_b v y))
  unfolding reconstruct_from_b
  and_b-open bits =
      unfold reconstruct_from_a in
      and_b-product v drawn_b
        (three_masks drawn_b (sum-next_binary v stream c 3 (omega arith) (omega arith) bits synced))
        sx sy
