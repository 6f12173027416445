-- ===== src/FourParty/Jmp.antt =====
-- Joint message passing: one rank sends a message, a second one and the receiver keep a hash of
-- all that was passed between the three, and the hashes are compared later. The hash itself is a
-- parameter: `update` is `crypto_generichash_update` on the bytes of a vector.
use crypt_dough.Base.{ℕ, ◌+◌, ◌*◌, ◌==◌, if◌then◌else◌, Bool, true, ◌&&◌, ◌||◌, List, [], ◌∷◌}
use crypt_dough.FourParty.Ranks.{PartyAssignment, jmp_assignments}

unfoldable pub same_assignment : PartyAssignment → PartyAssignment → Bool
same_assignment pa qa =
    (pa.hasher == qa.hasher) && (pa.sender == qa.sender) && (pa.receiver == qa.receiver)

-- The hash states of one rank.
abbrev pub HashStates : Type 0 → Type 0
HashStates H = PartyAssignment → H

-- The order in which the code goes through the pairs of ranks.
abbrev pub pairs : List (ℕ × ℕ)
pairs = (0, 1) ∷ (0, 2) ∷ (0, 3) ∷ (1, 2) ∷ (1, 3) ∷ (2, 3) ∷ []

module _ {A H : Type 0} (update : H → A → H) where
  unfoldable pub update_hash : PartyAssignment → A → HashStates H → HashStates H
  unfolding same_assignment
  update_hash pa x hash_states qa =
      let state = hash_states qa in if same_assignment pa qa then update state x else state

  -- `message` is what arrives from the sender.
  unfoldable pub jmp_recv : A → ℕ → ℕ → ℕ → HashStates H → A × HashStates H
  unfolding update_hash jmp_assignments
  jmp_recv message p q r hash_states =
      (message, update_hash (jmp_assignments p q r) message hash_states)

  -- The hash states of a rank that calls `_jmp_send`.
  unfoldable pub jmp_send : ℕ → A → ℕ → ℕ → ℕ → HashStates H → HashStates H
  unfolding update_hash jmp_assignments
  jmp_send me x p q r hash_states =
      let pa = jmp_assignments p q r in
      if me == pa.sender
      then hash_states
      else if me == pa.hasher
      then update_hash pa x hash_states
      else hash_states

  -- `jmp` at rank `me`, if `message` arrives at the receiver.
  unfoldable pub jmp_at : A → ℕ → A → ℕ → ℕ → ℕ → HashStates H → A × HashStates H
  unfolding jmp_recv jmp_send
  jmp_at message me x from also_from to hash_states =
      if me == to
      then jmp_recv message from also_from to hash_states
      else if (me == from) || (me == also_from)
      then (x, jmp_send me x from also_from to hash_states)
      else (x, hash_states)

  -- What an honest sender sends.
  unfoldable pub jmp_message : (ℕ → A) → ℕ → ℕ → ℕ → A
  unfolding jmp_assignments
  jmp_message x from also_from to = x (jmp_assignments from also_from to).sender

  unfoldable pub jmp : (ℕ → A) → ℕ → ℕ → ℕ → (ℕ → HashStates H) → ℕ → A × HashStates H
  unfolding jmp_at jmp_message
  jmp x from also_from to hash_states me =
      jmp_at (jmp_message x from also_from to) me (x me) from also_from to (hash_states me)

module _ {H : Type 0} (update_byte : H → ℕ → H) (init : H → H) where
  -- The body of the loop: the seed goes into a state that `crypto_generichash_init` then sets up.
  unfoldable pub init_hash : ℕ → ℕ → ℕ → H → H
  init_hash i j r fresh = init (update_byte fresh (i * 64 + j * 8 + r))

  -- `init_hashes`, for the pairs in order, whose second rank is the hasher; `fresh` has the new
  -- states in the map, before they are set up.
  unfoldable pub init_hashes : HashStates H → HashStates H
  unfolding init_hash
  init_hashes fresh pa = init_hash pa.sender pa.hasher pa.receiver (fresh pa)

module _ {H : Type 0} (final : H → ℕ) (hash_states : ℕ → HashStates H) (me : ℕ) where
  -- The comparison of the hash that rank `r` has with the one it gets from the hasher.
  unfoldable pub check_assignment : ℕ → ℕ → ℕ → Bool
  unfolding jmp_assignments
  check_assignment i j r =
      if (r == i) || (r == j)
      then true
      else if me == (jmp_assignments i j r).hasher
      then true
      else if me == r
      then final (hash_states (jmp_assignments i j r).hasher (jmp_assignments i j r))
        == final (hash_states me (jmp_assignments i j r))
      else true

  unfoldable pub check_pairs : List (ℕ × ℕ) → Bool
  unfolding check_assignment
  check_pairs [] = true
  check_pairs ((i, j) ∷ rest) =
      check_assignment i j 0
      && check_assignment i j 1
      && check_assignment i j 2
      && check_assignment i j 3
      && check_pairs rest

  unfoldable pub malicious_check_internal : Bool
  unfolding check_pairs
  malicious_check_internal = check_pairs pairs
