-- ===== src/FourParty/CheckLaws.antt =====
-- About `malicious_check_internal` of include/core/protocols/dalskov_4pc.h between ranks that
-- agree.
use crypt_dough.Base.{ℕ, ◌≡◌, refl, ap, arith, true, List, [], ◌∷◌}
use crypt_dough.FourParty.Ranks.{PartyAssignment, jmp_assignments}
use crypt_dough.FourParty.Jmp.{
  HashStates, check_assignment, check_pairs, malicious_check_internal, pairs,
}

module _ {H : Type 0} (final : H → ℕ) (hash_states : ℕ → HashStates H) (me : ℕ)
    (agreed : (pa : PartyAssignment) → hash_states pa.hasher pa ≡ hash_states pa.receiver pa) where
  check_assignment-true : (i j r : ℕ) → check_assignment final hash_states me i j r ≡ true
  unfolding check_assignment jmp_assignments
  check_assignment-true i j r =
      let same = ap final (agreed (jmp_assignments i j r)) in ground (arith, same)

  check_pairs-true : (list : List (ℕ × ℕ)) → check_pairs final hash_states me list ≡ true
  unfolding check_pairs
  check_pairs-true [] = refl
  check_pairs-true ((i, j) ∷ rest) =
      rw
        (
          check_assignment-true i j 0,
          check_assignment-true i j 1,
          check_assignment-true i j 2,
          check_assignment-true i j 3,
        )
        (check_pairs-true rest)

  pub malicious_check-agreed : malicious_check_internal final hash_states me ≡ true
  unfolding malicious_check_internal
  malicious_check-agreed = check_pairs-true pairs
