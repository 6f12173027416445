-- ===== src/Beaver/ShareLaws.antt =====
-- About sharing and opening in include/core/protocols/beaver_2pc.h.
use crypt_dough.Base.{ℕ, zero, suc, ◌≡◌, ◌<◌, ◌∙◌, refl, sym, ap, arith, some, true, false}
use crypt_dough.Lanes.{Lanes, InRange}
use crypt_dough.Lanes.Laws.{add_comm, sub-eq-add, sub_add, add-zeros, zeros-add}
use crypt_dough.Comm.{all_two}
use crypt_dough.Beaver.Shares.{
  EVector, IsShared, shared, reconstruct_from_a, reconstruct_from_b, unchecked_open_a, public_share,
  secret_share_a_internal, redistribute_shares_b,
}

module _ {I A : Type 0} (v : Lanes I A) where
  -- Opening gives both ranks the reconstruction of both shares.
  pub beaver_open-reconstruct_a :
      (x : ℕ → EVector A) (me : ℕ)
      → me < 2
      → unchecked_open_a v x me ≡ some (reconstruct_from_a v x)
  unfolding unchecked_open_a reconstruct_from_a
  beaver_open-reconstruct_a x zero h = refl
  beaver_open-reconstruct_a x (suc zero) h = ap some (add_comm v _ _)
  beaver_open-reconstruct_a x (suc (suc me)) h = absurd (omega arith)

  whole_again : (plain r : A) → InRange v plain → v.add r (v.sub plain r) ≡ plain
  whole_again plain r fits = add_comm v r _ ∙ sub_add v plain r fits

  -- Whichever rank owns a value that fits its type, both ranks end with shares that open to it at
  -- both ranks.
  pub beaver_secret_share_a-open :
      (plain r : A) (data_party : ℕ)
      → data_party < 2
      → InRange v plain
      → (z : ℕ → EVector A) × (all_two (secret_share_a_internal v plain r data_party) ≡ some z)
        × IsShared 0 z
        × ((me : ℕ) → me < 2 → unchecked_open_a v z me ≡ some plain)
  unfolding secret_share_a_internal
  beaver_secret_share_a-open plain r zero h fits = (
    shared 0 r (v.sub plain r),
    refl,
    (refl, refl),
    λ me k.
        beaver_open-reconstruct_a _ me k
        ∙ ap some (unfold reconstruct_from_a in whole_again plain r fits),
  )
  beaver_secret_share_a-open plain r (suc zero) h fits = (
    shared 0 (v.sub plain r) r,
    refl,
    (refl, refl),
    λ me k.
        beaver_open-reconstruct_a _ me k
        ∙ ap some (unfold reconstruct_from_a in sub_add v plain r fits),
  )
  beaver_secret_share_a-open plain r (suc (suc n)) h fits = absurd (omega arith)

  -- The two pairs of shares that `redistribute_shares_b` gives, in lanes of one bit, reconstruct
  -- to the share of rank 0 and to the share of rank 1.
  pub beaver_redistribute_shares_b-reconstruct :
      (m0 m1 : A) (x : ℕ → EVector A)
      → v.top ≡ 1
      → InRange v (x 0).v0
      → InRange v (x 1).v0
      → (z : ℕ → EVector A × EVector A) × (all_two (redistribute_shares_b v m0 m1 x) ≡ some z)
        × (reconstruct_from_b v (λ me. (z me).0) ≡ (x 0).v0)
        × (reconstruct_from_b v (λ me. (z me).1) ≡ (x 1).v0)
  unfolding redistribute_shares_b reconstruct_from_b
  beaver_redistribute_shares_b-reconstruct m0 m1 x bits fits0 fits1 = (
    _,
    refl,
    ap (v.add m0) (sym (sub-eq-add v bits _ _)) ∙ whole_again (x 0).v0 m0 fits0,
    ap (λ t. v.add t m1) (sym (sub-eq-add v bits _ _)) ∙ sub_add v (x 1).v0 m1 fits1,
  )

  -- Public shares of a value that everyone knows (the empty group) or that exactly one rank knows
  -- reconstruct to the value; if both ranks are named, they reconstruct to its double.
  pub beaver_public_share-reconstruct :
      (x : A)
      → InRange v x
      → (reconstruct_from_a v (public_share v x false false) ≡ x)
        × (reconstruct_from_a v (public_share v x true false) ≡ x)
        × (reconstruct_from_a v (public_share v x false true) ≡ x)
        × (reconstruct_from_a v (public_share v x true true) ≡ v.add x x)
  unfolding public_share reconstruct_from_a
  beaver_public_share-reconstruct x fits =
      (add-zeros v x fits, add-zeros v x fits, zeros-add v x fits, refl)
