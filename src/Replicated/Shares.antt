-- ===== src/Replicated/Shares.antt =====
-- Making, giving out, opening and publishing replicated shares.
use crypt_dough.Base.{
  ℕ, ◌+◌, ◌-◌, ◌%◌, ◌==◌, if◌then◌else◌, Bool, true, false, Option, none, some, ◌≡◌,
}
use crypt_dough.Comm.{peer, exchange_shares, three, ◌>>=◌}
use crypt_dough.Lanes.{Lanes}

-- The share container of one rank (include/core/containers/e_vector.h, replication number 2).
pub record EVector (A : Type 0) : Type 0 where
  pub v0 : A
  pub v1 : A
  pub precision : ℕ

-- Neighbours agree on the share that both hold, and all on the precision.
pub record IsShared {A : Type 0} (d : ℕ) (x : ℕ → EVector A) : Type 0 where
  pub held_01 : (x 0).v1 ≡ (x 1).v0
  pub held_12 : (x 1).v1 ≡ (x 2).v0
  pub held_20 : (x 2).v1 ≡ (x 0).v0
  pub precision_0 : (x 0).precision ≡ d
  pub precision_1 : (x 1).precision ≡ d
  pub precision_2 : (x 2).precision ≡ d

-- The shares of all ranks: rank `p` has the shares `p` and `p + 1`.
abbrev pub replicated : {A : Type 0} → ℕ → A → A → A → ℕ → EVector A
replicated d a b c =
    three (record { v0 = a; v1 = b; precision = d }) (record { v0 = b; v1 = c; precision = d })
      (record { v0 = c; v1 = a; precision = d })

-- `public_share`: the group of ranks that know the value is a set of ranks, as three flags; the
-- empty set stands for everyone. `none` is the exception.
unfoldable pub public_position : Bool → Bool → Bool → Option ℕ
public_position false false false = some 0
public_position true false true = some 0
public_position true true false = some 1
public_position false true true = some 2
public_position _ _ _ = none

module _ {I A : Type 0} (v : Lanes I A) where
  unfoldable pub reconstruct_from_a : (ℕ → EVector A) → A
  reconstruct_from_a shares = v.add (v.add (shares 0).v0 (shares 1).v0) (shares 2).v0

  unfoldable pub unchecked_open_a : (ℕ → EVector A) → ℕ → Option A
  unchecked_open_a shares me = do
    shares_3 ← exchange_shares 3 2 1 (λ p. (shares p).v1) me
    some (v.add (v.add (shares me).v0 (shares me).v1) shares_3)

  -- The two shares are the next values of the local PRG.
  unfoldable pub get_shares_a : A → A → A → ℕ → EVector A
  get_shares_a plain share_1 share_2 =
      let share_3 = v.sub (v.sub plain share_1) share_2 in replicated 0 share_1 share_2 share_3

  -- The boolean versions: `add` is ^ in the lanes that they are used with.
  unfoldable pub reconstruct_from_b : (ℕ → EVector A) → A
  reconstruct_from_b shares = v.add (v.add (shares 0).v0 (shares 1).v0) (shares 2).v0

  unfoldable pub unchecked_open_b : (ℕ → EVector A) → ℕ → Option A
  unchecked_open_b shares me = do
    shares_3 ← exchange_shares 3 2 1 (λ p. (shares p).v1) me
    some (v.add (v.add (shares me).v0 (shares me).v1) shares_3)

  unfoldable pub get_shares_b : A → A → A → ℕ → EVector A
  get_shares_b plain share_1 share_2 =
      let share_3 = v.add (v.add plain share_1) share_2 in replicated 0 share_1 share_2 share_3

  unfoldable pub public_share : A → Bool → Bool → Bool → ℕ → Option (EVector A)
  unfolding public_position
  public_share x k0 k1 k2 me = do
    k ← public_position k0 k1 k2
    some (record {
      v0 = if me % 3 == k then x else v.zeros;
      v1 = if (me + 1) % 3 == k then x else v.zeros;
      precision = 0;
    })

-- The owner keeps its first share vector and sends the others to the ranks one and two after it;
-- every other rank receives from the relative rank `data_party - me`.
module _ {A : Type 0} (shares : ℕ → EVector A) (data_party : ℕ) where
  -- What the owner addressed to a rank.
  unfoldable pub addressed_to : ℕ → Option (EVector A)
  addressed_to me =
      if peer 3 data_party 1 == me
      then some (shares 1)
      else if peer 3 data_party 2 == me
      then some (shares 2)
      else none

  unfoldable pub give_out : ℕ → Option (EVector A)
  unfolding addressed_to
  give_out me =
      if me == data_party
      then some (shares 0)
      else if peer 3 me (data_party + 3 - me) == data_party
      then addressed_to me
      else none

module _ {I A : Type 0} (v : Lanes I A) (plain share_1 share_2 : A) (data_party : ℕ) where
  unfoldable pub secret_share_a_internal : ℕ → Option (EVector A)
  unfolding get_shares_a give_out
  secret_share_a_internal me = give_out (get_shares_a v plain share_1 share_2) data_party me

  unfoldable pub secret_share_b_internal : ℕ → Option (EVector A)
  unfolding get_shares_b give_out
  secret_share_b_internal me = give_out (get_shares_b v plain share_1 share_2) data_party me
