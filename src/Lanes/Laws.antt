-- ===== src/Lanes/Laws.antt =====
-- Laws of the operations in any lanes.
use native.Mathlib.Nat.{zero-mod, zero-add, add-zero}
use crypt_dough.Base.{ℕ, suc, ◌*◌, ◌%◌, ◌≡◌, ◌∙◌, ap, arith, mods, mod_eq_by}
use crypt_dough.Lanes.{Lanes, InRange}

module _ {I A : Type 0} (v : Lanes I A) where
  -- A sum of three shares does not depend on where the counting starts.
  pub add_rotate : (a b c : A) → v.add (v.add b c) a ≡ v.add (v.add a b) c
  add_rotate a b c = v.at_ext _ _ λ i. simp (v.at-add, mods) (ap (λ t. t % suc v.top) (omega arith))

  pub add_comm : (a b : A) → v.add a b ≡ v.add b a
  add_comm a b = v.at_ext _ _ λ i. simp v.at-add (ap (λ t. t % suc v.top) (omega arith))

  pub sub_add : (a b : A) → InRange v a → v.add (v.sub a b) b ≡ a
  sub_add a b fits = v.at_ext _ _ λ i.
      simp (v.at-add, v.at-sub, mods)
        (mod_eq_by (suc v.top) 0 (v.at b i) _ (v.at a i) (omega arith) ∙ fits i)

  pub zeros-add : (a : A) → InRange v a → v.add v.zeros a ≡ a
  zeros-add a fits = v.at_ext _ _ λ i. simp (v.at-add, v.at-zeros, zero-add) (fits i)

  -- With one bit to a lane, subtraction is addition.
  pub sub-eq-add : v.top ≡ 1 → (a b : A) → v.sub a b ≡ v.add a b
  sub-eq-add bits a b = v.at_ext _ _ λ i.
      simp (v.at-add, v.at-sub, mods)
        (ap (λ t. t % suc v.top) (omega (arith, ap (λ (t : ℕ). t * v.at b i) bits)))

  -- Results of the operations fit.
  pub add-InRange : (a b : A) → InRange v (v.add a b)
  add-InRange a b i = simp (v.at-add, mods)

  pub mul-InRange : (a b : A) → InRange v (v.mul a b)
  mul-InRange a b i = simp (v.at-mul, mods)

  pub add-zeros : (a : A) → InRange v a → v.add a v.zeros ≡ a
  add-zeros a fits = v.at_ext _ _ λ i. simp (v.at-add, v.at-zeros, add-zero) (fits i)

  -- A value beside two zero shares, wherever it stands.
  pub one_of_three :
      (a : A)
      → InRange v a
      → (v.add (v.add a v.zeros) v.zeros ≡ a)
        × (v.add (v.add v.zeros a) v.zeros ≡ a)
        × (v.add (v.add v.zeros v.zeros) a ≡ a)
  one_of_three a fits = (
    rw (add-zeros a fits) (add-zeros a fits),
    rw (zeros-add a fits) (add-zeros a fits),
    v.at_ext _ _ λ i. simp (v.at-add, v.at-zeros, zero-add, zero-mod) (fits i),
  )

  pub sub-InRange : (a b : A) → InRange v (v.sub a b)
  sub-InRange a b i = simp (v.at-sub, mods)
