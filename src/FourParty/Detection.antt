-- ===== src/FourParty/Detection.antt =====
-- What the hash check finds: runs of joint messages in which a sender may send anything
-- (`_jmp_recv`, `_jmp_send` and `malicious_check_internal` of
-- include/core/protocols/dalskov_4pc.h).
use crypt_dough.Base.{
  ℕ, ◌≡◌, ◌≢◌, ◌∙◌, refl, ap, arith, Bool, true, false, if◌then◌else◌, List, [], ◌∷◌,
}
use crypt_dough.FourParty.Ranks.{PartyAssignment, jmp_assignments, who_hashes}
use crypt_dough.FourParty.Jmp.{HashStates, same_assignment, update_hash, jmp_recv, jmp_send, jmp_at}

-- One call of `jmp` at all ranks: what each rank passes in, and what arrives at the receiver.
pub record Call (A : Type 0) : Type 0 where
  pub from : ℕ
  pub also_from : ℕ
  pub to : ℕ
  pub values : ℕ → A
  pub message : A

-- The three ranks of a call differ.
pub record IsCall {A : Type 0} (c : Call A) : Type 0 where
  pub from_also : c.from ≢ c.also_from
  pub from_to : c.from ≢ c.to
  pub also_to : c.also_from ≢ c.to

abbrev pub AreCalls : {A : Type 0} → List (Call A) → Type 0
AreCalls [] = Unit {0}
AreCalls (c ∷ rest) = IsCall c × AreCalls rest

abbrev pub assignment : {A : Type 0} → Call A → PartyAssignment
assignment c = jmp_assignments c.from c.also_from c.to

-- The messages that arrived under an assignment.
abbrev pub received : {A : Type 0} → PartyAssignment → List (Call A) → List A
received pa [] = []
received pa (c ∷ rest) =
    if same_assignment (assignment c) pa then c.message ∷ received pa rest else received pa rest

-- The values that the hasher had for them.
abbrev pub vouched : {A : Type 0} → PartyAssignment → List (Call A) → List A
vouched pa [] = []
vouched pa (c ∷ rest) =
    if same_assignment (assignment c) pa
    then c.values pa.hasher ∷ vouched pa rest
    else vouched pa rest

module _ {A H : Type 0} (update : H → A → H) where
  abbrev pub absorb : H → List A → H
  absorb h [] = h
  absorb h (m ∷ rest) = absorb (update h m) rest

  -- The hash states after a sequence of calls.
  abbrev pub run_calls : List (Call A) → (ℕ → HashStates H) → ℕ → HashStates H
  run_calls [] hash_states = hash_states
  run_calls (c ∷ rest) hash_states =
      run_calls rest (λ me.
        (jmp_at update c.message me (c.values me) c.from c.also_from c.to (hash_states me)).1)

  module _ (pa : PartyAssignment) where
    receiver_step :
        (c : Call A) (hs : ℕ → HashStates H)
        → (jmp_at update c.message pa.receiver
              (c.values pa.receiver)
              c.from
              c.also_from
              c.to
              (hs pa.receiver)).1
            pa
          ≡ (if same_assignment (assignment c) pa
              then update (hs pa.receiver pa) c.message
              else hs pa.receiver pa)
    unfolding jmp_at jmp_recv jmp_send update_hash same_assignment jmp_assignments who_hashes
    receiver_step c hs = ground arith

    hasher_step :
        (c : Call A) (hs : ℕ → HashStates H)
        → IsCall c
        → (jmp_at update c.message pa.hasher
              (c.values pa.hasher)
              c.from
              c.also_from
              c.to
              (hs pa.hasher)).1
            pa
          ≡ (if same_assignment (assignment c) pa
              then update (hs pa.hasher pa) (c.values pa.hasher)
              else hs pa.hasher pa)
    unfolding jmp_at jmp_recv jmp_send update_hash same_assignment jmp_assignments who_hashes
    hasher_step c hs valid = ground arith

    absorb_if :
        (b : Bool) (h : H) (m : A) (rest : List A)
        → absorb (if b then update h m else h) rest ≡ absorb h (if b then m ∷ rest else rest)
    absorb_if true h m rest = refl
    absorb_if false h m rest = refl

    -- The receiver has hashed what it received, and the hasher what it had.
    pub receiver_state :
        (calls : List (Call A)) (hs : ℕ → HashStates H)
        → run_calls calls hs pa.receiver pa ≡ absorb (hs pa.receiver pa) (received pa calls)
    receiver_state [] hs = refl
    receiver_state (c ∷ rest) hs =
        receiver_state rest _
        ∙ ap (λ h. absorb h (received pa rest)) (receiver_step c hs)
        ∙ absorb_if (same_assignment (assignment c) pa) _ c.message _

    pub hasher_state :
        (calls : List (Call A)) (hs : ℕ → HashStates H)
        → AreCalls calls
        → run_calls calls hs pa.hasher pa ≡ absorb (hs pa.hasher pa) (vouched pa calls)
    hasher_state [] hs valid = refl
    hasher_state (c ∷ rest) hs (valid, others) =
        hasher_state rest _ others
        ∙ ap (λ h. absorb h (vouched pa rest)) (hasher_step c hs valid)
        ∙ absorb_if (same_assignment (assignment c) pa) _ (c.values pa.hasher) _
