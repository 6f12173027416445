-- ===== src/FourParty/Shares.antt =====
-- Shares of four ranks: making, opening and publishing them.
use crypt_dough.Base.{
  ℕ, zero, suc, ◌+◌, ◌-◌, ◌%◌, ◌==◌, if◌then◌else◌, ◌≡◌, ◌<◌, Option, none, some, Bool, true, false,
}
use crypt_dough.Comm.{peer, three, four, ◌>>=◌}
use crypt_dough.Lanes.{Lanes}
use crypt_dough.FourParty.Ranks.{next_party, abs2sh, jmp_assignments}

-- The share container of one rank (include/core/containers/e_vector.h, replication number 3).
pub record EVector (A : Type 0) : Type 0 where
  pub share : ℕ → A
  pub precision : ℕ

-- Rank `me` holds the shares `me + 1`, `me + 2` and `me + 3` of `s`.
abbrev pub Held : {A : Type 0} → (ℕ → ℕ → A) → (ℕ → A) → Type 0
Held f s = (me k : ℕ) → me < 4 → k < 3 → f me k ≡ s ((me + k + 1) % 4)

pub record IsShared {A : Type 0} (d : ℕ) (x : ℕ → EVector A) (s : ℕ → A) : Type 0 where
  pub held : Held (λ me. (x me).share) s
  pub precisions : (me : ℕ) → me < 4 → (x me).precision ≡ d

-- The template parameter of the encoding: boolean shares are masked with ^, which is `add` in the
-- lanes that they are used with.
pub data Encoding : Type 0 where
  a_shared : Encoding
  b_shared : Encoding

module _ {I A : Type 0} (v : Lanes I A) where
  unfoldable pub take_away : Encoding → A → A → A
  take_away a_shared x y = v.sub x y
  take_away b_shared x y = v.add x y

  -- `s0`, `s1` and `s2` are the next values of the local PRG.
  unfoldable pub get_shares : Encoding → A → A → A → A → ℕ → EVector A
  unfolding take_away
  get_shares e plain s0 s1 s2 me =
      let s3 = take_away e (take_away e (take_away e plain s0) s1) s2 in
      record {
        share = four (three s1 s2 s3) (three s2 s3 s0) (three s3 s0 s1) (three s0 s1 s2) me;
        precision = 0;
      }

  unfoldable pub reconstruct_from_a : (ℕ → EVector A) → A
  reconstruct_from_a shares =
      v.add (v.add (v.add ((shares 0).share 0) ((shares 1).share 0)) ((shares 2).share 0))
        ((shares 3).share 0)

  -- `_open_shares` at rank `me`: the last share that is received. The hashes that the messages
  -- update are left out: an opening returns no check of them.
  unfoldable pub open_shares : (ℕ → EVector A) → ℕ → ℕ → A
  unfolding next_party abs2sh jmp_assignments
  open_shares shares me zero = v.zeros
  open_shares shares me (suc p) =
      let sh3 = open_shares shares me p in
      let q = (p + 1) % 4 in
      let r = next_party p q in
      let sender = (jmp_assignments p q r).sender in
      if me == r then (shares sender).share (abs2sh sender r) else sh3

  unfoldable pub unchecked_open_a : (ℕ → EVector A) → ℕ → A
  unfolding open_shares
  unchecked_open_a shares me =
      v.add (v.add (v.add ((shares me).share 0) ((shares me).share 1)) ((shares me).share 2))
        (open_shares shares me 4)

  -- `public_share`: the ranks that know the value are given as flags; the empty set stands for
  -- everyone. `none` is the failed assertion on the size of the set.
  unfoldable pub lacking_rank : Bool → Bool → Bool → Bool → Option ℕ
  lacking_rank false false false false = some 0
  lacking_rank true true true false = some 3
  lacking_rank true true false true = some 2
  lacking_rank true false true true = some 1
  lacking_rank false true true true = some 0
  lacking_rank _ _ _ _ = none

  unfoldable pub public_share : A → Bool → Bool → Bool → Bool → ℕ → Option (EVector A)
  unfolding lacking_rank abs2sh
  public_share x k0 k1 k2 k3 me = do
    k ← lacking_rank k0 k1 k2 k3
    some (record {
      share = λ l. if me == k then v.zeros else if l == abs2sh me k then x else v.zeros;
      precision = 0;
    })

-- The owner keeps the first share vector and sends each of the others to the rank at that
-- relative position; every other rank receives from the relative rank `data_party - me`.
module _ {A : Type 0} (shares : ℕ → EVector A) (data_party : ℕ) where
  -- The relative position at which the owner addresses a rank, tried up to the one given.
  unfoldable pub addressed_to : ℕ → ℕ → Option (EVector A)
  addressed_to zero me = none
  addressed_to (suc rel) me =
      if peer 4 data_party (suc rel) == me then some (shares (suc rel)) else addressed_to rel me

  unfoldable pub give_out : ℕ → Option (EVector A)
  unfolding addressed_to
  give_out me =
      if me == data_party
      then some (shares 0)
      else if peer 4 me (data_party + 4 - me) == data_party
      then addressed_to 3 me
      else none

module _ {I A : Type 0} (v : Lanes I A) where
  unfoldable pub secret_share : Encoding → A → A → A → A → ℕ → ℕ → Option (EVector A)
  unfolding get_shares give_out
  secret_share e plain s0 s1 s2 data_party me =
      give_out (get_shares v e plain s0 s1 s2) data_party me
