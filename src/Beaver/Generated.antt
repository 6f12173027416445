-- ===== src/Beaver/Generated.antt =====
-- `multiply_a` of include/core/protocols/beaver_2pc.h with the triples that the generators make.
use crypt_dough.Base.{ℕ, ◌≡◌, refl, ap, fun_ext, some}
use crypt_dough.Lanes.{Lanes}
use crypt_dough.Lanes.Vector.{vector}
use crypt_dough.Random.Prg.{Counters}
use crypt_dough.Random.Triples.{Triple, get_correlated, get_next_ole, get_next_triple}
use crypt_dough.Random.Triples.Laws.{get_next_ole-IsCorrelated, get_next_triple-product}
use crypt_dough.Beaver.Shares.{EVector, IsShared, reconstruct_from_a}
use crypt_dough.Beaver.Multiply.{multiply_a}
use crypt_dough.Beaver.MultiplyLaws.{IsProduct, beaver_multiply_a-open}

module _ {I A : Type 0} (v : Lanes I A) (stream : ℕ → ℕ → (ℕ → A)) (link n : ℕ)
    (c : ℕ → Counters) where
  -- What a rank draws: an OLE of twice the length, cut into triples.
  abbrev pub generated : ℕ → Triple (ℕ → A)
  generated rank =
      get_next_triple v n rank
        (get_next_ole (vector ℕ v) (get_correlated (vector ℕ v)) stream link rank (c rank)).0

  generated-IsProduct : c 0 link ≡ c 1 link → IsProduct (vector ℕ v) generated
  unfolding vector
  generated-IsProduct e = fun_ext λ k.
      get_next_triple-product v n _ _
        (λ j. ap (λ f. f j) (get_next_ole-IsCorrelated (vector ℕ v) stream link (c 0) (c 1) e).0) k

  -- Multiplication of vectors of whole values with triples from the dummy OLE generator, by ranks
  -- that have drawn equally often from their common PRG: the ranks come, with no failure, to
  -- shares of the elementwise product.
  pub multiply_a-generated :
      (x y : ℕ → EVector (ℕ → A)) (shift : (ℕ → A) → ℕ → (ℕ → A))
      → c 0 link ≡ c 1 link
      → IsShared 0 x
      → IsShared 0 y
      → (z : ℕ → EVector (ℕ → A)) × (multiply_a (vector ℕ v) generated x y shift ≡ some z)
        × IsShared 0 z
        × (reconstruct_from_a (vector ℕ v) z
            ≡ (vector ℕ v).mul
                (reconstruct_from_a (vector ℕ v) x)
                (reconstruct_from_a (vector ℕ v) y))
  multiply_a-generated x y shift e sx sy =
      beaver_multiply_a-open (vector ℕ v) generated x y (generated-IsProduct e) sx sy shift refl
