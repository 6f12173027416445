-- ===== src/Replicated/ShareLaws.antt =====
-- About sharing and opening in include/core/protocols/replicated_3pc.h.
use crypt_dough.Base.{
  Bool, true, false, none, ◌≢◌, ℕ, zero, suc, ◌+◌, ◌≡◌, ◌<◌, ◌∙◌, refl, sym, ap, arith, mods,
  mod_eq_by, Option, some,
}
use crypt_dough.Lanes.{Lanes, InRange}
use crypt_dough.Lanes.Laws.{add_rotate, sub-eq-add, one_of_three}
use crypt_dough.Comm.{peer, exchange_shares, all_three, ◌>>=◌}
use crypt_dough.Replicated.Shares.{
  EVector, IsShared, replicated, reconstruct_from_a, unchecked_open_a, secret_share_a_internal,
  unchecked_open_b, secret_share_b_internal, give_out, public_position, public_share,
}

served :
    {B C : Type 0} (f : ℕ → B) (k : B → Option C) (me : ℕ)
    → me < 3
    → (exchange_shares 3 2 1 f me >>= k) ≡ k (f (peer 3 me 1))
served f k zero h = refl
served f k (suc zero) h = refl
served f k (suc (suc zero)) h = refl
served f k (suc (suc (suc n))) h = absurd (omega arith)

pub replicated-IsShared : {A : Type 0} (d : ℕ) (a b c : A) → IsShared d (replicated d a b c)
replicated-IsShared d a b c = record {
  held_01 = refl;
  held_12 = refl;
  held_20 = refl;
  precision_0 = refl;
  precision_1 = refl;
  precision_2 = refl;
}

module _ {I A : Type 0} (v : Lanes I A) where
  rotated :
      (d : ℕ) (x : ℕ → EVector A)
      → IsShared d x
      → (me : ℕ) → me < 3
      → (v.add (v.add (x me).v0 (x me).v1) (x (peer 3 me 1)).v1) ≡ reconstruct_from_a v x
  unfolding reconstruct_from_a
  rotated d x s zero h = rw (s.held_01, s.held_12) refl
  rotated d x s (suc zero) h = rw (s.held_12, s.held_20) (add_rotate v _ _ _)
  rotated d x s (suc (suc zero)) h =
      rw (s.held_20, s.held_01) (add_rotate v _ _ _ ∙ add_rotate v _ _ _)
  rotated d x s (suc (suc (suc n))) h = absurd (omega arith)

  -- Opening consistent shares gives every rank the reconstruction of all shares.
  pub open-reconstruct_a :
      (d : ℕ) (x : ℕ → EVector A)
      → IsShared d x
      → (me : ℕ) → me < 3
      → unchecked_open_a v x me ≡ some (reconstruct_from_a v x)
  unfolding unchecked_open_a
  open-reconstruct_a d x s me h =
      served (λ p. (x p).v1) (λ r. some (v.add (v.add (x me).v0 (x me).v1) r)) me h
      ∙ ap some (rotated d x s me h)

  sum-shares_a :
      (plain r1 r2 : A) → InRange v plain → v.add (v.add r1 r2) (v.sub (v.sub plain r1) r2) ≡ plain
  sum-shares_a plain r1 r2 fits = v.at_ext _ _ λ i.
      simp (v.at-add, v.at-sub, mods)
        (mod_eq_by (suc v.top) 0 (v.at r1 i + v.at r2 i) _ (v.at plain i) (omega arith) ∙ fits i)

  -- Consistent shares of a sum open to it.
  opens :
      (a b c plain : A)
      → v.add (v.add a b) c ≡ plain
      → (me : ℕ) → me < 3
      → unchecked_open_a v (replicated 0 a b c) me ≡ some plain
  unfolding reconstruct_from_a
  opens a b c plain e me h =
      open-reconstruct_a 0 (replicated 0 a b c) (replicated-IsShared 0 a b c) me h ∙ ap some e

  same_shares :
      v.top ≡ 1
      → (plain r1 r2 : A) (data_party : ℕ)
      → secret_share_b_internal v plain r1 r2 data_party
        ≡ secret_share_a_internal v plain r1 r2 data_party
  unfolding secret_share_b_internal secret_share_a_internal
  same_shares bits plain r1 r2 data_party =
      ap (λ t. give_out (replicated 0 r1 r2 t) data_party)
        (ap (λ t. v.add t r2) (sym (sub-eq-add v bits plain r1))
          ∙ sym (sub-eq-add v bits (v.sub plain r1) r2))

  -- Whoever owns a value that fits its type, the ranks end with consistent shares of it, and
  -- opening those gives every rank the value.
  pub secret_share_a-open :
      (plain r1 r2 : A) (data_party : ℕ)
      → data_party < 3
      → InRange v plain
      → (z : ℕ → EVector A) × (all_three (secret_share_a_internal v plain r1 r2 data_party)
          ≡ some z)
        × IsShared 0 z
        × ((me : ℕ) → me < 3 → unchecked_open_a v z me ≡ some plain)
  unfolding secret_share_a_internal
  secret_share_a-open plain r1 r2 zero h fits =
      let r3 = v.sub (v.sub plain r1) r2 in
      (_, refl, replicated-IsShared 0 r1 r2 r3, opens r1 r2 r3 _ (sum-shares_a plain r1 r2 fits))
  secret_share_a-open plain r1 r2 (suc zero) h fits =
      let r3 = v.sub (v.sub plain r1) r2 in
      (
        _,
        refl,
        replicated-IsShared 0 r3 r1 r2,
        opens r3 r1 r2 _ (sym (add_rotate v r3 r1 r2) ∙ sum-shares_a plain r1 r2 fits),
      )
  secret_share_a-open plain r1 r2 (suc (suc zero)) h fits =
      let r3 = v.sub (v.sub plain r1) r2 in
      (
        _,
        refl,
        replicated-IsShared 0 r2 r3 r1,
        opens r2 r3 r1 _ (add_rotate v r1 r2 r3 ∙ sum-shares_a plain r1 r2 fits),
      )
  secret_share_a-open plain r1 r2 (suc (suc (suc n))) h fits = absurd (omega arith)

  -- In lanes of one bit, whoever owns a value that fits its type, the ranks end with consistent
  -- boolean shares of it, and opening those gives every rank the value.
  pub secret_share_b-open :
      v.top ≡ 1
      → (plain r1 r2 : A) (data_party : ℕ) → data_party < 3
      → InRange v plain
      → (z : ℕ → EVector A) × (all_three (secret_share_b_internal v plain r1 r2 data_party)
          ≡ some z)
        × IsShared 0 z
        × ((me : ℕ) → me < 3 → unchecked_open_b v z me ≡ some plain)
  unfolding unchecked_open_b
  secret_share_b-open bits plain r1 r2 data_party h fits =
      rw (same_shares bits plain r1 r2 data_party)
        (unfold unchecked_open_a in secret_share_a-open plain r1 r2 data_party h fits)

  -- A value that everyone or any two ranks know becomes consistent shares that open to it at
  -- every rank, if the value fits its type and the group is one that the code handles.
  pub public_share-open :
      (x : A) (k0 k1 k2 : Bool)
      → InRange v x
      → public_position k0 k1 k2 ≢ none
      → (z : ℕ → EVector A) × (all_three (public_share v x k0 k1 k2) ≡ some z)
        × IsShared 0 z
        × ((me : ℕ) → me < 3 → unchecked_open_a v z me ≡ some x)
  unfolding public_share
  public_share-open x false false false fits h =
      (_, refl, replicated-IsShared 0 x v.zeros v.zeros, opens _ _ _ x (one_of_three v x fits).0)
  public_share-open x true false true fits h =
      (_, refl, replicated-IsShared 0 x v.zeros v.zeros, opens _ _ _ x (one_of_three v x fits).0)
  public_share-open x true true false fits h =
      (_, refl, replicated-IsShared 0 v.zeros x v.zeros, opens _ _ _ x (one_of_three v x fits).1)
  public_share-open x false true true fits h =
      (_, refl, replicated-IsShared 0 v.zeros v.zeros x, opens _ _ _ x (one_of_three v x fits).2)
  public_share-open x _ _ _ fits h = absurd (h refl)
