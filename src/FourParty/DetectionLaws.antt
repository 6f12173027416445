-- ===== src/FourParty/DetectionLaws.antt =====
-- What the hash check of include/core/protocols/dalskov_4pc.h finds in any run of joint messages.
use mathlib.Core.Bool.{false≢true}
use crypt_dough.Base.{
  ℕ, zero, suc, ◌<◌, ◌≡◌, ◌≢◌, ◌∙◌, refl, sym, ap, ap₂, arith, Bool, true, false, ◌&&◌, List, [],
  ◌∷◌,
}
use crypt_dough.FourParty.Ranks.{PartyAssignment, jmp_assignments, who_hashes}
use crypt_dough.FourParty.ShareLaws.{each_rank}
use crypt_dough.FourParty.CheckLaws.{malicious_check-agreed}
use crypt_dough.FourParty.Jmp.{
  HashStates, check_assignment, check_pairs, malicious_check_internal, pairs, init_hash,
  init_hashes,
}
use crypt_dough.FourParty.Detection.{
  Call, AreCalls, received, vouched, absorb, run_calls, receiver_state, hasher_state,
}

-- A pair that a list of pairs has.
data Listed (i j : ℕ) : List (ℕ × ℕ) → Type 0 where
  here : {rest : List (ℕ × ℕ)} → Listed i j ((i, j) ∷ rest)
  further : {p : ℕ × ℕ} {rest : List (ℕ × ℕ)} → Listed i j rest → Listed i j (p ∷ rest)

all-Listed : (i j : ℕ) → i < j → j < 4 → Listed i j pairs
all-Listed zero (suc zero) h k = here
all-Listed zero (suc (suc zero)) h k = further here
all-Listed zero (suc (suc (suc zero))) h k = further (further here)
all-Listed (suc zero) (suc (suc zero)) h k = further (further (further here))
all-Listed (suc zero) (suc (suc (suc zero))) h k = further (further (further (further here)))
all-Listed (suc (suc zero)) (suc (suc (suc zero))) h k =
    further (further (further (further (further here))))
all-Listed i zero h k = absurd (omega arith)
all-Listed (suc i) (suc zero) h k = absurd (omega arith)
all-Listed (suc (suc i)) (suc (suc zero)) h k = absurd (omega arith)
all-Listed (suc (suc (suc i))) (suc (suc (suc zero))) h k = absurd (omega arith)
all-Listed i (suc (suc (suc (suc j)))) h k = absurd (omega arith)

module _ {H : Type 0} (final : H → ℕ) (hash_states : ℕ → HashStates H) (me : ℕ) where
  both_true : (a b : Bool) → (a && b) ≡ true → (a ≡ true) × (b ≡ true)
  both_true true b e = (refl, e)
  both_true false b e = absurd (false≢true e)

  -- Every assignment is looked at.
  looked_at :
      (list : List (ℕ × ℕ)) (i j r : ℕ)
      → Listed i j list
      → r < 4
      → check_pairs final hash_states me list ≡ true
      → check_assignment final hash_states me i j r ≡ true
  unfolding check_pairs
  looked_at [] i j r m h e = elim m [ ]
  looked_at ((p, q) ∷ rest) i j r here h e =
      let (e3, others) = both_true _ (check_pairs final hash_states me rest) e in
      let (e2, c3) = both_true _ (check_assignment final hash_states me p q 3) e3 in
      let (e1, c2) = both_true _ (check_assignment final hash_states me p q 2) e2 in
      let (c0, c1) = both_true _ (check_assignment final hash_states me p q 1) e1 in
      each_rank (λ r. check_assignment final hash_states me i j r ≡ true) c0 c1 c2 c3 r h
  looked_at ((p, q) ∷ rest) i j r (further m) h e =
      looked_at rest i j r m h (both_true _ (check_pairs final hash_states me rest) e).1

  -- A receiver that accepts has the hash of the hasher.
  accepted :
      (i j : ℕ)
      → i ≢ me
      → j ≢ me
      → check_assignment final hash_states me i j me ≡ true
      → final (hash_states (jmp_assignments i j me).hasher (jmp_assignments i j me))
        ≡ final (hash_states me (jmp_assignments i j me))
  unfolding check_assignment jmp_assignments who_hashes
  accepted i j ni nj e = ground arith

module _ {A H : Type 0} (update : H → A → H) (final : H → ℕ) where
  -- The hash tells sequences of messages apart.
  abbrev pub IsCollisionFree : Type 0
  IsCollisionFree =
      (h : H) (m n : List A) → final (absorb update h m) ≡ final (absorb update h n) → m ≡ n

  module _ (free : IsCollisionFree) (hs : ℕ → HashStates H)
      (start : (pa : PartyAssignment) → hs pa.hasher pa ≡ hs pa.receiver pa) (calls : List (Call A))
      (valid : AreCalls calls) where
    honest_passes :
        ((pa : PartyAssignment) → received pa calls ≡ vouched pa calls)
        → (r : ℕ) → malicious_check_internal final (run_calls update calls hs) r ≡ true
    honest_passes same r = malicious_check-agreed final (run_calls update calls hs) r λ pa.
        hasher_state update pa calls hs valid
        ∙ ap₂ (absorb update) (start pa) (sym (same pa))
        ∙ sym (receiver_state update pa calls hs)

    caught :
        (i j r : ℕ)
        → i < j
        → j < 4
        → r < 4
        → i ≢ r
        → j ≢ r
        → malicious_check_internal final (run_calls update calls hs) r ≡ true
        → received (jmp_assignments i j r) calls ≡ vouched (jmp_assignments i j r) calls
    unfolding malicious_check_internal
    caught i j r hij hj hr ir jr passes =
        let pa = jmp_assignments i j r in
        let same = accepted final (run_calls update calls hs) r i j ir jr (
          looked_at final (run_calls update calls hs) r pairs i j r (all-Listed i j hij hj) hr
            passes) in
        free (hs pa.receiver pa) _ _ (
          ap final (sym (receiver_state update pa calls hs))
          ∙ sym same
          ∙ ap final (hasher_state update pa calls hs valid)
          ∙ ap (λ h. final (absorb update h (vouched pa calls))) (start pa))

  module _ (update_byte : H → ℕ → H) (init : H → H) where
    -- With a hash that tells sequences of messages apart and an initialisation that forgets the
    -- state, after `init_hashes` and any sequence of calls in which senders may send anything: if
    -- every message was the value of the hasher, the check passes at every rank; and if it passes
    -- at a rank, then that rank has received, under every assignment of two other ranks, exactly
    -- the values of the hasher.
    pub malicious_check-detects :
        IsCollisionFree
        → ((a b : H) → init a ≡ init b)
        → (fresh : ℕ → HashStates H) (calls : List (Call A)) → AreCalls calls
        → let after = run_calls update calls (λ me. init_hashes update_byte init (fresh me)) in
          (((pa : PartyAssignment) → received pa calls ≡ vouched pa calls)
            → (r : ℕ) → malicious_check_internal final after r ≡ true)
          × ((i j r : ℕ)
              → i < j
              → j < 4
              → r < 4
              → i ≢ r
              → j ≢ r
              → malicious_check_internal final after r ≡ true
              → received (jmp_assignments i j r) calls ≡ vouched (jmp_assignments i j r) calls)
    unfolding init_hashes init_hash
    malicious_check-detects free forgets fresh calls valid =
        let start : (pa : PartyAssignment)
            → init_hashes update_byte init (fresh pa.hasher) pa
              ≡ init_hashes update_byte init (fresh pa.receiver) pa =
          λ pa. forgets _ _ in
        (
          honest_passes free (λ me. init_hashes update_byte init (fresh me)) start calls valid,
          caught free (λ me. init_hashes update_byte init (fresh me)) start calls valid,
        )
