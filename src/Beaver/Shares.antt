-- ===== src/Beaver/Shares.antt =====
-- Shares of two parties: sharing, opening, public shares and complements.
use crypt_dough.Base.{ℕ, ◌==◌, ◌≡◌, ◌&&◌, ◌||◌, not, if◌then◌else◌, Bool, Option, none, some}
use crypt_dough.Lanes.{Lanes}
use crypt_dough.Comm.{peer, exchange_shares, two, ◌>>=◌}

-- The share container of one rank (include/core/containers/e_vector.h, replication number 1).
pub record EVector (A : Type 0) : Type 0 where
  pub v0 : A
  pub precision : ℕ

abbrev pub shared : {A : Type 0} → ℕ → A → A → ℕ → EVector A
shared d a b = two (record { v0 = a; precision = d }) (record { v0 = b; precision = d })

-- Both ranks have the same precision.
abbrev pub IsShared : {A : Type 0} → ℕ → (ℕ → EVector A) → Type 0
IsShared d x = ((x 0).precision ≡ d) × ((x 1).precision ≡ d)

module _ {I A : Type 0} (v : Lanes I A) where
  unfoldable pub reconstruct_from_a : (ℕ → EVector A) → A
  reconstruct_from_a shares = v.add (shares 0).v0 (shares 1).v0

  unfoldable pub unchecked_open_a : (ℕ → EVector A) → ℕ → Option A
  unchecked_open_a shares me = do
    shares_2 ← exchange_shares 2 1 1 (λ p. (shares p).v0) me
    some (v.add (shares me).v0 shares_2)

  -- The boolean versions: `add` is ^ in the lanes that they are used with.
  unfoldable pub reconstruct_from_b : (ℕ → EVector A) → A
  reconstruct_from_b shares = v.add (shares 0).v0 (shares 1).v0

  unfoldable pub unchecked_open_b : (ℕ → EVector A) → ℕ → Option A
  unchecked_open_b shares me = do
    shares_2 ← exchange_shares 2 1 1 (λ p. (shares p).v0) me
    some (v.add (shares me).v0 shares_2)

  -- The first share is the next value of the local PRG.
  unfoldable pub get_shares_a : A → A → ℕ → EVector A
  get_shares_a plain share_1 = shared 0 share_1 (v.sub plain share_1)

  unfoldable pub get_shares_b : A → A → ℕ → EVector A
  get_shares_b plain share_1 = shared 0 share_1 (v.add plain share_1)

  -- `public_share`: the set of ranks that know the value, as two flags.
  unfoldable pub public_share : A → Bool → Bool → ℕ → EVector A
  public_share x k0 k1 me =
      let all_zero_recv = not k0 && not k1 && me == 0 in
      let knows = if me == 0 then k0 else k1 in
      if all_zero_recv || knows
      then record { v0 = x; precision = 0 }
      else record { v0 = v.zeros; precision = 0 }

-- The owner keeps its first share and sends the second to the next rank; every other rank receives
-- from the rank before it.
module _ {A : Type 0} (shares : ℕ → EVector A) (data_party : ℕ) where
  unfoldable pub give_out : ℕ → Option (EVector A)
  give_out me =
      if me == data_party
      then some (shares 0)
      else if peer 2 me 1 == data_party && peer 2 data_party 1 == me
      then some (record { v0 = (shares 1).v0; precision = 0 })
      else none

module _ {I A : Type 0} (v : Lanes I A) (plain share_1 : A) (data_party : ℕ) where
  unfoldable pub secret_share_a_internal : ℕ → Option (EVector A)
  unfolding get_shares_a give_out
  secret_share_a_internal me = give_out (get_shares_a v plain share_1) data_party me

  unfoldable pub secret_share_b_internal : ℕ → Option (EVector A)
  unfolding get_shares_b give_out
  secret_share_b_internal me = give_out (get_shares_b v plain share_1) data_party me

-- `redistribute_shares_b`: each rank shares its own share anew; `m0` and `m1` are the masks that
-- the ranks draw.
module _ {I A : Type 0} (v : Lanes I A) (m0 m1 : A) (x : ℕ → EVector A) where
  unfoldable pub redistribute_shares_b : ℕ → Option (EVector A × EVector A)
  unfolding secret_share_b_internal
  redistribute_shares_b me = do
    first ← secret_share_b_internal v (x 0).v0 m0 0 me
    second ← secret_share_b_internal v (x 1).v0 m1 1 me
    some (first, second)
