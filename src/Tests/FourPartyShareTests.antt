-- ===== src/Tests/FourPartyShareTests.antt =====
-- Runs of the roles and the sharing of four ranks.
use crypt_dough.Base.{
  ℕ, ◌+◌, ◌%◌, ◌≡◌, ◌≢◌, ◌<◌, ◌⊎◌, ◌==◌, if◌then◌else◌, arith, some, none, true, false,
}
use crypt_dough.Lanes.Word.{word}
use crypt_dough.FourParty.Ranks.{next_party, excluded_party, jmp_assignments, abs2sh}
use crypt_dough.FourParty.RankLaws.{four_roles}
use crypt_dough.FourParty.Shares.{
  EVector, IsShared, unchecked_open_a, a_shared, secret_share, public_share,
}
use crypt_dough.FourParty.SharingLaws.{
  group_size, Lacks, fantastic_secret_share-open, fantastic_public_share-open,
}
use crypt_dough.Tests.{fits_word}

four_roles_example :
    (next_party 3 0 < 4)
    × (excluded_party 3 0 (next_party 3 0) < 4)
    × (next_party 3 0 ≢ 3)
    × (next_party 3 0 ≢ 0)
    × (excluded_party 3 0 (next_party 3 0) ≢ 3)
    × (excluded_party 3 0 (next_party 3 0) ≢ 0)
    × (excluded_party 3 0 (next_party 3 0) ≢ next_party 3 0)
    × (next_party 0 3 ≡ next_party 3 0)
    × ((((jmp_assignments 3 0 (next_party 3 0)).hasher ≡ 3)
          × ((jmp_assignments 3 0 (next_party 3 0)).sender ≡ 0))
        ⊎ (((jmp_assignments 3 0 (next_party 3 0)).hasher ≡ 0)
            × ((jmp_assignments 3 0 (next_party 3 0)).sender ≡ 3)))
    × (abs2sh 3 0 < 3)
    × ((3 + abs2sh 3 0 + 1) % 4 ≡ 0)
four_roles_example = four_roles 3 0 (omega arith) (omega arith) (λ e. omega (arith, e))

fantastic_secret_share-open_example :
    (z : ℕ → EVector ℕ) × ((me : ℕ)
      → me < 4
      → secret_share (word 8) a_shared 42 200 100 7 2 me ≡ some (z me))
    × (s : ℕ → ℕ) × IsShared 0 z s
    × ((me : ℕ) → me < 4 → unchecked_open_a (word 8) z me ≡ 42)
fantastic_secret_share-open_example =
    fantastic_secret_share-open (word 8) a_shared tt 42 200 100 7 (fits_word 42 (omega arith)) 2
      (omega arith)

fantastic_public_share-open_example :
    ((group_size true true false true ≢ 0)
      × (group_size true true false true ≢ 3)
      × ((me : ℕ) → public_share (word 8) 42 true true false true me ≡ none))
    ⊎ ((k : ℕ) × Lacks true true false true k
        × (z : ℕ → EVector ℕ) × ((me : ℕ)
            → public_share (word 8) 42 true true false true me ≡ some (z me))
        × (s : ℕ → ℕ) × IsShared 0 z s
        × ((p : ℕ) → p < 4 → s p ≡ (if p == k then 42 else (word 8).zeros))
        × ((me : ℕ) → me < 4 → unchecked_open_a (word 8) z me ≡ 42))
fantastic_public_share-open_example =
    fantastic_public_share-open (word 8) 42 (fits_word 42 (omega arith)) true true false true
