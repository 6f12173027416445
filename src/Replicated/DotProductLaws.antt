-- ===== src/Replicated/DotProductLaws.antt =====
-- About `dot_product_a` of include/core/protocols/replicated_3pc.h.
use native.Mathlib.Nat.{div-add-mod, zero-mod, zero-add}
use crypt_dough.Base.{
  ℕ, zero, suc, ◌+◌, ◌*◌, ◌/◌, ◌%◌, ◌≡◌, ◌∙◌, refl, sym, ap, ap₂, arith, mods, mod_eq_by, fun_ext,
  some,
}
use crypt_dough.Lanes.{Lanes}
use crypt_dough.Lanes.Laws.{add-InRange}
use crypt_dough.Lanes.Vector.{vector}
use crypt_dough.Comm.{three}
use crypt_dough.Random.Prg.{Counters}
use crypt_dough.Random.ZeroSharing.{get_next_arithmetic}
use crypt_dough.Random.ZeroSharing.Laws.{IsSynced, sum-next_arithmetic}
use crypt_dough.Replicated.Shares.{EVector, IsShared, replicated, reconstruct_from_a}
use crypt_dough.Replicated.ShareLaws.{replicated-IsShared}
use crypt_dough.Replicated.TruncateLaws.{truncate_whole}
use crypt_dough.Replicated.MultiplyLaws.{handled, three_masks}
use crypt_dough.Replicated.DotProduct.{
  chunk_product, dot_product, local_dot_product, dot_product_round, dot_product_a,
}

sum_of_three : (m p q r : ℕ) → (p % m + q % m + r) % m ≡ (p + q + r) % m
sum_of_three m p q r =
    mod_eq_by m (p / m + q / m) 0 _ _ (omega (arith, div-add-mod p m, div-add-mod q m))

module _ {I A : Type 0} (v : Lanes I A) where
  -- What the ranks form of three shares of each vector, without the masks.
  abbrev part : (a b a' b' : ℕ → A) → ℕ → ℕ → A
  part a b a' b' start n =
      v.add (v.add (chunk_product v a a' start n) (chunk_product v a b' start n))
        (chunk_product v b a' start n)

  whole : (a b c : ℕ → A) → ℕ → A
  whole a b c k = v.add (v.add (a k) (b k)) (c k)

  regroup :
      (p q s r0 r1 r2 : A) (i : I)
      → v.at (v.add (v.add (v.add p r0) (v.add q r1)) (v.add s r2)) i
        ≡ (v.at p i + v.at q i + v.at s i + (v.at r0 i + v.at r1 i + v.at r2 i)) % suc v.top
  regroup p q s r0 r1 r2 i = simp (v.at-add, mods) (ap (λ t. t % suc v.top) (omega arith))

  sum-part :
      (a b c a' b' c' : ℕ → A) (start n : ℕ) (i : I)
      → (v.at (part a b a' b' start n) i
            + v.at (part b c b' c' start n) i
            + v.at (part c a c' a' start n) i)
          % suc v.top
        ≡ v.at (chunk_product v (whole a b c) (whole a' b' c') start n) i % suc v.top
  unfolding whole
  sum-part a b c a' b' c' start zero i = simp (v.at-add, v.at-zeros, mods, zero-add, zero-mod)
  sum-part a b c a' b' c' start (suc n) i =
      let m = suc v.top in
      let sums : (ℕ → A) → (ℕ → A) → ℕ = λ x y. v.at (chunk_product v x y start n) i in
      let p = sums a a' + sums a b' + sums b a' in
      let q = sums b b' + sums b c' + sums c b' in
      let r = sums c c' + sums c a' + sums a c' in
      let total = sums (whole a b c) (whole a' b' c') in
      let earlier : (p % m + q % m + r) % m ≡ total % m =
        simp (v.at-add, mods) at (sum-part a b c a' b' c' start n i) in
      let same : (p + q + r) % m ≡ total % m = sym (sum_of_three m p q r) ∙ earlier in
      simp (v.at-add, v.at-mul, mods)
        (sum_of_three m _ _ _
          ∙ mod_eq_by m (total / m) ((p + q + r) / m) _ _
              (omega (arith, same, div-add-mod (p + q + r) m, div-add-mod total m)))

  chunk_product-InRange :
      (x y : ℕ → A) (start n : ℕ) (i : I)
      → v.at (chunk_product v x y start n) i % suc v.top ≡ v.at (chunk_product v x y start n) i
  chunk_product-InRange x y start zero i = simp (v.at-zeros, zero-mod)
  chunk_product-InRange x y start (suc n) i = add-InRange v _ _ i

  masked_sum :
      (r0 r1 r2 : A)
      → v.add (v.add r0 r1) r2 ≡ v.zeros
      → (a b c a' b' c' : ℕ → A) (start n : ℕ)
      → v.add
          (v.add (v.add (part a b a' b' start n) r0) (v.add (part b c b' c' start n) r1))
          (v.add (part c a c' a' start n) r2)
        ≡ chunk_product v (whole a b c) (whole a' b' c') start n
  masked_sum r0 r1 r2 masked a b c a' b' c' start n = v.at_ext _ _ λ i.
      let m = suc v.top in
      let r = v.at r0 i + v.at r1 i + v.at r2 i in
      let p = part a b a' b' start n in
      let q = part b c b' c' start n in
      let s = part c a c' a' start n in
      let sum = v.at p i + v.at q i + v.at s i in
      let gone : r % m ≡ 0 =
        sym (simp (v.at-add, mods)) ∙ ap (λ t. v.at t i) masked ∙ v.at-zeros i in
      regroup p q s r0 r1 r2 i
      ∙ mod_eq_by m 0 (r / m) (sum + r) sum (omega (arith, gone, div-add-mod r m))
      ∙ sum-part a b c a' b' c' start n i
      ∙ chunk_product-InRange (whole a b c) (whole a' b' c') start n i

  module _ (rz : ℕ → ℕ → A) (masked : (k : ℕ) → v.add (v.add (rz 0 k) (rz 1 k)) (rz 2 k) ≡ v.zeros)
      (agg_size : ℕ) {d : ℕ} {x y : ℕ → EVector (ℕ → A)} (sx : IsShared d x)
      (sy : IsShared d y) where
    dots : ℕ → EVector (ℕ → A)
    dots =
        replicated d (local_dot_product v agg_size (rz 0) (x 0) (y 0))
          (local_dot_product v agg_size (rz 1) (x 1) (y 1))
          (local_dot_product v agg_size (rz 2) (x 2) (y 2))

    dot_product_round_lem : dot_product_round v agg_size rz x y ≡ some dots
    unfolding dot_product_round dots
    dot_product_round_lem = rw (
      handled _ _ d sx.precision_0 sy.precision_0,
      handled _ _ d sx.precision_1 sy.precision_1,
      handled _ _ d sx.precision_2 sy.precision_2,
    )

    parts :
        (k : ℕ)
        → v.add
            (v.add
              (local_dot_product v agg_size (rz 0) (x 0) (y 0) k)
              (local_dot_product v agg_size (rz 1) (x 1) (y 1) k))
            (local_dot_product v agg_size (rz 2) (x 2) (y 2) k)
          ≡ chunk_product v
              (whole (x 0).v0 (x 0).v1 (x 1).v1)
              (whole (y 0).v0 (y 0).v1 (y 1).v1)
              (k * agg_size)
              agg_size
    unfolding local_dot_product dot_product
    parts k =
        rw (sym sx.held_01, sym sx.held_12, sx.held_20, sym sy.held_01, sym sy.held_12, sy.held_20)
          (masked_sum (rz 0 k) (rz 1 k) (rz 2 k) (masked k) (x 0).v0 (x 0).v1 (x 1).v1 (y 0).v0
            (y 0).v1 (y 1).v1 (k * agg_size) agg_size)

    reconstruct-dots :
        reconstruct_from_a (vector ℕ v) dots
        ≡ dot_product v agg_size
            (reconstruct_from_a (vector ℕ v) x)
            (reconstruct_from_a (vector ℕ v) y)
    unfolding dots local_dot_product dot_product reconstruct_from_a vector whole
    reconstruct-dots = fun_ext λ k.
        parts k
        ∙ ap₂ (λ f g. chunk_product v f g (k * agg_size) agg_size)
            (ap₂ (whole (x 0).v0) sx.held_01 sx.held_12)
            (ap₂ (whole (y 0).v0) sy.held_01 sy.held_12)

    dots-IsShared : IsShared d dots
    unfolding dots
    dots-IsShared = replicated-IsShared d _ _ _

    three-dots : three (dots 0) (dots 1) (dots 2) ≡ dots
    unfolding dots
    three-dots = refl

at_index :
    {I A : Type 0} (v : Lanes I A) (rz : ℕ → ℕ → A)
    → (vector ℕ v).add ((vector ℕ v).add (rz 0) (rz 1)) (rz 2) ≡ (vector ℕ v).zeros
    → (k : ℕ) → v.add (v.add (rz 0 k) (rz 1 k)) (rz 2 k) ≡ v.zeros
unfolding vector
at_index v rz e k = ap (λ f. f k) e

-- With the masks that the zero sharing generator draws.
module _ {I A : Type 0} (v : Lanes I A) (stream : ℕ → ℕ → (ℕ → A)) (c : ℕ → Counters) where
  -- Dot products of vectors of whole values, in chunks of `agg_size`, by ranks that have drawn
  -- equally often from the PRGs that they share: from consistent shares the ranks come, with no
  -- failure, to consistent shares of the dot products of the two vectors.
  pub dot_product_a-reconstruct :
      (shift : (ℕ → A) → ℕ → (ℕ → A)) (masking : ℕ → A) (agg_size : ℕ) (x y : ℕ → EVector (ℕ → A))
      → IsSynced 3 c
      → IsShared 0 x
      → IsShared 0 y
      → (z : ℕ → EVector (ℕ → A)) × (dot_product_a v shift masking agg_size
            (λ me. (get_next_arithmetic (vector ℕ v) stream 3 me (c me)).0)
            x
            y
          ≡ some z)
        × IsShared 0 z
        × (reconstruct_from_a (vector ℕ v) z
            ≡ dot_product v agg_size
                (reconstruct_from_a (vector ℕ v) x)
                (reconstruct_from_a (vector ℕ v) y))
  unfolding dot_product_a
  dot_product_a-reconstruct shift masking agg_size x y s sx sy =
      let rz : ℕ → ℕ → A = λ me. (get_next_arithmetic (vector ℕ v) stream 3 me (c me)).0 in
      let zero =
        three_masks (vector ℕ v) stream c s sx sx rz
          (sum-next_arithmetic (vector ℕ v) stream c 3 (omega arith) (omega arith) s) in
      let masked = at_index v rz zero in
      (
        dots v rz masked agg_size sx sy,
        rw (dot_product_round_lem v rz masked agg_size sx sy) (
            truncate_whole (vector ℕ v) shift masking (dots-IsShared v rz masked agg_size sx sy)
              refl
            ∙ ap some (three-dots v rz masked agg_size sx sy)),
        dots-IsShared v rz masked agg_size sx sy,
        reconstruct-dots v rz masked agg_size sx sy,
      )
