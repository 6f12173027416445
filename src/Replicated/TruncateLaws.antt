-- ===== src/Replicated/TruncateLaws.antt =====
-- About `truncate` of include/core/protocols/replicated_3pc.h.
use crypt_dough.Base.{
  ℕ, suc, ◌%◌, ◌≡◌, ◌≢◌, ◌∙◌, ap, arith, mods, mod_eq_by, some, ◌==◌, true, false,
}
use crypt_dough.Lanes.{Lanes}
use crypt_dough.Comm.{three, all_three}
use crypt_dough.Replicated.Shares.{EVector, IsShared, replicated, reconstruct_from_a}
use crypt_dough.Replicated.ShareLaws.{replicated-IsShared}
use crypt_dough.Replicated.Multiply.{truncate}

is_zero : (d : ℕ) → d ≡ 0 → (d == 0) ≡ true
is_zero d e = ground arith

not_zero : (d : ℕ) → d ≢ 0 → (d == 0) ≡ false
not_zero d e = ground arith

module _ {I A : Type 0} (v : Lanes I A) (shift : A → ℕ → A) (r : A) {d : ℕ} {x : ℕ → EVector A}
    (s : IsShared d x) where
  -- A precision of zero leaves every rank's shares alone.
  pub truncate_whole : d ≡ 0 → all_three (truncate v shift r x) ≡ some (three (x 0) (x 1) (x 2))
  unfolding truncate
  truncate_whole whole = rw (
    is_zero (x 0).precision (s.precision_0 ∙ whole),
    is_zero (x 1).precision (s.precision_1 ∙ whole),
    is_zero (x 2).precision (s.precision_2 ∙ whole),
  )

  -- The shares after truncation, of the values that the two additive shares are shifted to.
  abbrev truncated : ℕ → EVector A
  truncated = replicated d (shift (x 0).v0 d) (v.sub (shift (v.add (x 1).v0 (x 1).v1) d) r) r

  truncate_lem : d ≢ 0 → all_three (truncate v shift r x) ≡ some truncated
  unfolding truncate
  truncate_lem fraction =
      rw (s.precision_0, s.precision_1, s.precision_2, s.held_20, not_zero d fraction)

  reconstruct-truncated :
      reconstruct_from_a v truncated ≡ v.add (shift (x 0).v0 d) (shift (v.add (x 1).v0 (x 1).v1) d)
  unfolding reconstruct_from_a
  reconstruct-truncated =
      v.at_ext _ _
        λ i. simp (v.at-add, v.at-sub, mods) (mod_eq_by (suc v.top) 0 (v.at r i) _ _ (omega arith))

  two_shares : v.add (x 0).v0 (v.add (x 1).v0 (x 1).v1) ≡ reconstruct_from_a v x
  unfolding reconstruct_from_a
  two_shares =
      rw s.held_12 (v.at_ext _ _ λ i. simp (v.at-add, mods) (ap (λ t. t % suc v.top) (omega arith)))

  -- Truncation ends in consistent shares of the sum of the two shifted halves of the value.
  pub truncate-halves :
      d ≢ 0
      → (z : ℕ → EVector A) × (all_three (truncate v shift r x) ≡ some z)
        × IsShared d z
        × (a : A) × (b : A) × (v.add a b ≡ reconstruct_from_a v x)
        × (reconstruct_from_a v z ≡ v.add (shift a d) (shift b d))
  truncate-halves fraction = (
    truncated,
    truncate_lem fraction,
    replicated-IsShared d _ _ _,
    (x 0).v0,
    v.add (x 1).v0 (x 1).v1,
    two_shares,
    reconstruct-truncated,
  )
