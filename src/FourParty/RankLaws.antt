-- ===== src/FourParty/RankLaws.antt =====
-- About the roles of the ranks in include/core/protocols/dalskov_4pc.h.
use crypt_dough.Base.{ℕ, ◌+◌, ◌%◌, ◌==◌, ◌≡◌, ◌≢◌, ◌<◌, ◌⊎◌, arith}
use crypt_dough.FourParty.Ranks.{
  next_party, excluded_party, abs2sh, abs2rel, jmp_assignments, who_hashes,
}

next_party-below : (i j : ℕ) → i < 4 → j < 4 → i ≢ j → next_party i j < 4
unfolding next_party
next_party-below i j hi hj ne = ground arith

next_party-left : (i j : ℕ) → i < 4 → j < 4 → i ≢ j → next_party i j ≢ i
unfolding next_party
next_party-left i j hi hj ne e = ground arith

next_party-right : (i j : ℕ) → i < 4 → j < 4 → i ≢ j → next_party i j ≢ j
unfolding next_party
next_party-right i j hi hj ne e = ground arith

next_party_comm : (i j : ℕ) → next_party i j ≡ next_party j i
unfolding next_party
next_party_comm i j = ground arith

pub abs2sh-below : (me p : ℕ) → me < 4 → p < 4 → me ≢ p → abs2sh me p < 3
unfolding abs2sh abs2rel
abs2sh-below me p hm hp ne = ground arith

pub abs2sh-rel2abs : (me p : ℕ) → me < 4 → p < 4 → me ≢ p → (me + abs2sh me p + 1) % 4 ≡ p
unfolding abs2sh abs2rel
abs2sh-rel2abs me p hm hp ne = ground arith

pub share_index :
    (me p k : ℕ) → me < 4 → p < 4 → k < 3 → me ≢ p → (k == abs2sh me p) ≡ ((me + k + 1) % 4 == p)
unfolding abs2sh abs2rel
share_index me p k hm hp hk ne = ground arith

pub lacking : (me k : ℕ) → me < 4 → k < 3 → (me + k + 1) % 4 ≢ me
lacking me k hm hk e = omega (arith, e)

-- For two different ranks i and j that send together: one of the two others receives and the other
-- one is excluded, the receiver does not depend on the order of the senders, one of the senders
-- sends and the other hashes, and `abs2sh i j` is a place below three, at which rank i holds x_j,
-- the share that rank j lacks.
pub four_roles :
    (i j : ℕ)
    → i < 4
    → j < 4
    → i ≢ j
    → let g = next_party i j in
      let h = excluded_party i j g in
      (g < 4)
      × (h < 4)
      × (g ≢ i)
      × (g ≢ j)
      × (h ≢ i)
      × (h ≢ j)
      × (h ≢ g)
      × (next_party j i ≡ g)
      × ((((jmp_assignments i j g).hasher ≡ i) × ((jmp_assignments i j g).sender ≡ j))
          ⊎ (((jmp_assignments i j g).hasher ≡ j) × ((jmp_assignments i j g).sender ≡ i)))
      × (abs2sh i j < 3)
      × ((i + abs2sh i j + 1) % 4 ≡ j)
unfolding next_party excluded_party jmp_assignments who_hashes
four_roles i j hi hj ij = (
  ground arith,
  ground arith,
  (λ e. ground arith),
  (λ e. ground arith),
  (λ e. ground arith),
  (λ e. ground arith),
  (λ e. ground arith),
  next_party_comm j i,
  ground arith,
  abs2sh-below i j hi hj ij,
  abs2sh-rel2abs i j hi hj ij,
)
