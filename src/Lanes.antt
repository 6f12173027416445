-- ===== src/Lanes.antt =====
-- The element types that the protocols are templates over (`Vector` and `Data` of
-- include/core/protocols). A value has a number in each lane, and the operations are those of the
-- integers modulo `suc top` in every lane: a word of w bits has one lane modulo 2 ^ w, a word
-- under `^` and `&` has a lane modulo 2 for each bit, and a vector has the lanes of its elements.
pub mod Word
pub mod Laws
pub mod Vector
pub mod Bitwise
use crypt_dough.Base.{ℕ, suc, ◌+◌, ◌*◌, ◌%◌, ◌≡◌}

pub record Lanes (I A : Type 0) : Type 0 where
  pub top : ℕ
  pub at : A → I → ℕ
  pub zeros : A
  pub add : A → A → A
  pub sub : A → A → A
  pub neg : A → A
  pub mul : A → A → A
  pub at-zeros : (i : I) → at zeros i ≡ 0
  pub at-add : (a b : A) (i : I) → at (add a b) i ≡ (at a i + at b i) % suc top
  pub at-sub : (a b : A) (i : I) → at (sub a b) i ≡ (at a i + (top * at b i) % suc top) % suc top
  pub at-neg : (a : A) (i : I) → at (neg a) i ≡ (top * at a i) % suc top
  pub at-mul : (a b : A) (i : I) → at (mul a b) i ≡ (at a i * at b i) % suc top
  pub at_ext : (a b : A) → ((i : I) → at a i ≡ at b i) → a ≡ b

-- The value fits its lanes.
abbrev pub InRange : {I A : Type 0} → Lanes I A → A → Type 0
InRange {I} v a = (i : I) → v.at a i % suc v.top ≡ v.at a i
