-- ===== src/Beaver/MultiplyLaws.antt =====
-- About `multiply_a`, `and_b` and `b2a_bit` of include/core/protocols/beaver_2pc.h.
use native.Mathlib.Nat.{div-add-mod}
use crypt_dough.Base.{
  ℕ, suc, ◌+◌, ◌*◌, ◌/◌, ◌%◌, ◌≡◌, ◌≢◌, ◌<◌, ◌∙◌, refl, sym, ap, ap₂, arith, mods, mod_eq_by,
  square_of_bits, some,
}
use crypt_dough.Lanes.{Lanes}
use crypt_dough.Lanes.Laws.{sub-eq-add}
use crypt_dough.Comm.{handle_precision, two}
use crypt_dough.Random.Triples.{Triple}
use crypt_dough.Beaver.Shares.{
  EVector, IsShared, shared, reconstruct_from_a, reconstruct_from_b, unchecked_open_a,
  unchecked_open_b,
}
use crypt_dough.Beaver.Multiply.{truncate, multiply_a, and_b, b2a_share, b2a_bit}

handled : (p q d : ℕ) → p ≡ d → q ≡ d → handle_precision p q ≡ some d
unfolding handle_precision
handled p q d e f = ground arith

module _ {I A : Type 0} (v : Lanes I A) where
  -- The shares of c add up to the product of the values that a and b are shares of.
  abbrev pub IsProduct : (ℕ → Triple A) → Type 0
  IsProduct t = v.add (t 0).c (t 1).c ≡ v.mul (v.add (t 0).a (t 1).a) (v.add (t 0).b (t 1).b)

  abbrev share : A → A → A → A → A → A
  share y a c opened_a opened_b = v.add (v.sub (v.mul y opened_a) (v.mul a opened_b)) c

  product_of_masked :
      (x0 x1 y0 y1 a0 a1 b0 b1 c0 c1 : A)
      → v.add c0 c1 ≡ v.mul (v.add a0 a1) (v.add b0 b1)
      → v.add
          (share y0 a0 c0 (v.add (v.add x0 a0) (v.add x1 a1)) (v.add (v.add y0 b0) (v.add y1 b1)))
          (share y1 a1 c1 (v.add (v.add x1 a1) (v.add x0 a0)) (v.add (v.add y1 b1) (v.add y0 b0)))
        ≡ v.mul (v.add x0 x1) (v.add y0 y1)
  product_of_masked x0 x1 y0 y1 a0 a1 b0 b1 c0 c1 triple = v.at_ext _ _ λ i.
      let m = suc v.top in
      let a = v.at a0 i + v.at a1 i in
      let b = v.at b0 i + v.at b1 i in
      let y = v.at y0 i + v.at y1 i in
      let c = v.at c0 i + v.at c1 i in
      let same : c % m ≡ (a * b) % m =
        sym (v.at-add c0 c1 i) ∙ ap (λ t. v.at t i) triple ∙ simp (v.at-add, v.at-mul, mods) in
      simp (v.at-add, v.at-sub, v.at-mul, mods)
        (mod_eq_by m ((a * b) / m) (a * (y + b) + c / m) _ _
          (omega (arith, same, div-add-mod c m, div-add-mod (a * b) m)))

  reconstruct-shared : (d : ℕ) (a b : A) → reconstruct_from_a v (shared d a b) ≡ v.add a b
  unfolding reconstruct_from_a
  reconstruct-shared d a b = refl

  truncate_none :
      (shift : A → ℕ → A) (d : ℕ) (a : A)
      → d ≡ 0
      → truncate v shift (record { v0 = a; precision = d }) ≡ record { v0 = a; precision = d }
  unfolding truncate
  truncate_none shift d a e = ground arith

  truncate_some :
      (shift : A → ℕ → A) (d : ℕ) (a : A)
      → d ≢ 0
      → truncate v shift (record { v0 = a; precision = d })
        ≡ record { v0 = shift a d; precision = d }
  unfolding truncate
  truncate_some shift d a e = ground arith

  module _ (t : ℕ → Triple A) (x y : ℕ → EVector A) where
    abbrev part : ℕ → ℕ → A
    part me other =
        share (y me).v0 (t me).a (t me).c
          (v.add (v.add (x me).v0 (t me).a) (v.add (x other).v0 (t other).a))
          (v.add (v.add (y me).v0 (t me).b) (v.add (y other).v0 (t other).b))

    module _ (triple : IsProduct t) {d : ℕ} (sx : IsShared d x) (sy : IsShared d y) where
      sum-part :
          v.add (part 0 1) (part 1 0) ≡ v.mul (reconstruct_from_a v x) (reconstruct_from_a v y)
      unfolding reconstruct_from_a
      sum-part = product_of_masked _ _ _ _ _ _ _ _ _ _ triple

      multiply_a_lem :
          (shift : A → ℕ → A)
          → multiply_a v t x y shift
            ≡ some (
                two
                  (truncate v shift (record { v0 = part 0 1; precision = d }))
                  (truncate v shift (record { v0 = part 1 0; precision = d })))
      unfolding multiply_a unchecked_open_a
      multiply_a_lem shift = rw (handled _ _ d sx.0 sy.0, handled _ _ d sx.1 sy.1)

      -- Multiplication of whole values with a product triple: the ranks come, with no failure, to
      -- shares of the product of the two values.
      pub beaver_multiply_a-open :
          (shift : A → ℕ → A)
          → d ≡ 0
          → (z : ℕ → EVector A) × (multiply_a v t x y shift ≡ some z)
            × IsShared d z
            × (reconstruct_from_a v z ≡ v.mul (reconstruct_from_a v x) (reconstruct_from_a v y))
      beaver_multiply_a-open shift whole = (
        shared d (part 0 1) (part 1 0),
        multiply_a_lem shift
            ∙ ap₂ (λ p q. some (two p q)) (truncate_none shift d _ whole)
                (truncate_none shift d _ whole),
        (refl, refl),
        reconstruct-shared d _ _ ∙ sum-part,
      )

      -- Multiplication of fixed-point values with a product triple: the product is split into two
      -- values that add up to it, and the ranks come to shares of the sum of those two, each
      -- shifted right by the precision.
      pub beaver_multiply_a_fraction :
          (shift : A → ℕ → A)
          → d ≢ 0
          → (z : ℕ → EVector A) × (multiply_a v t x y shift ≡ some z)
            × IsShared d z
            × (a : A) × (b : A) × (v.add a b
                ≡ v.mul (reconstruct_from_a v x) (reconstruct_from_a v y))
            × (reconstruct_from_a v z ≡ v.add (shift a d) (shift b d))
      beaver_multiply_a_fraction shift fraction = (
        shared d (shift (part 0 1) d) (shift (part 1 0) d),
        multiply_a_lem shift
            ∙ ap₂ (λ p q. some (two p q)) (truncate_some shift d _ fraction)
                (truncate_some shift d _ fraction),
        (refl, refl),
        part 0 1,
        part 1 0,
        sum-part,
        reconstruct-shared d _ _,
      )

      -- AND on lanes of one bit with a product triple: the ranks come, with no failure, to shares
      -- of the bitwise product.
      pub beaver_and_b-open :
          v.top ≡ 1
          → (z : ℕ → EVector A) × (and_b v t x y ≡ some z)
            × IsShared d z
            × (reconstruct_from_b v z ≡ v.mul (reconstruct_from_b v x) (reconstruct_from_b v y))
      unfolding reconstruct_from_b and_b unchecked_open_b
      beaver_and_b-open bits = (
        shared d (part 0 1) (part 1 0),
        rw (handled _ _ d sx.0 sy.0, handled _ _ d sx.1 sy.1)
            (ap₂ (λ p q. some (shared d (v.add p (t 0).c) (v.add q (t 1).c)))
              (sym (sub-eq-add v bits _ _)) (sym (sub-eq-add v bits _ _))),
        (refl, refl),
        product_of_masked _ _ _ _ _ _ _ _ _ _ triple,
      )

module _ {I A : Type 0} (v : Lanes I A) where
  -- With a product triple, the arithmetic shares that a boolean-shared bit is converted to open,
  -- in every lane, to the exclusive or of the two masked shares.
  pub beaver_b2a_bit-open :
      (mask : A → A) (shift : A → ℕ → A) (t : ℕ → Triple A) (x : ℕ → EVector A)
      → IsProduct v t
      → ((p : ℕ) (i : I) → v.at (mask (x p).v0) i < 2)
      → (z : ℕ → EVector A) × (b2a_bit v mask shift t x ≡ some z)
        × ((i : I)
            → v.at (reconstruct_from_a v z) i
              ≡ ((v.at (mask (x 0).v0) i + v.at (mask (x 1).v0) i) % 2) % suc v.top)
  unfolding b2a_bit b2a_share reconstruct_from_a
  beaver_b2a_bit-open mask shift t x triple bits =
      let s = b2a_share v mask x in
      let (z, runs, _, opens) =
        beaver_multiply_a-open v t s s triple {d = 0} (refl, refl) (refl, refl) shift refl in
      (
        z,
        runs,
        λ i.
            ap (λ w. v.at w i) opens
            ∙ simp (v.at-mul, v.at-add, v.at-neg, mods)
                (square_of_bits v.top (v.at (mask (x 0).v0) i) (v.at (mask (x 1).v0) i) (bits 0 i)
                  (bits 1 i)),
      )
