-- ===== src/Ring/Runs.antt =====
-- Sequences of calls on a ring buffer, beside the same calls on a bounded queue.
use crypt_dough.Base.{
  ℕ, suc, ◌≡◌, ◌<◌, ◌∙◌, arith, subst, ltb, true, false, if◌then◌else◌, Option, none, some, List,
  [], ◌∷◌, ◌++◌, inl, inr,
}
use crypt_dough.Comm.{◌>>=◌}
use crypt_dough.Ring.{RingEntry, Ring, push, pop}
use crypt_dough.Ring.Walk.{Message, Carries, Represents, length}
use crypt_dough.Ring.Laws.{push-Represents, pop_empty, pop_first}

-- The calls, by whichever threads, in the order in which they take effect.
pub data Call : Type 0 where
  push_call : Message → Call
  pop_call : Call

-- On the ring buffer; `none` if a call waits for ever.
unfoldable pub run_ring : List Call → Ring → Option (List RingEntry × Ring)
run_ring [] ring = some ([], ring)
run_ring (push_call m ∷ calls) ring = do
  ring' ← push ring m.bytes m.byte_count
  run_ring calls ring'
run_ring (pop_call ∷ calls) ring = do
  popped ← pop ring
  rest ← run_ring calls popped.1
  some (popped.0 ∷ rest.0, rest.1)

-- On a queue that holds less than `slots` messages.
unfoldable pub run_queue : ℕ → List Call → List Message → Option (List Message × List Message)
run_queue slots [] queue = some ([], queue)
run_queue slots (push_call m ∷ calls) queue =
    let rest = run_queue slots calls (queue ++ (m ∷ [])) in
    if ltb (suc (length queue)) slots then rest else none
run_queue slots (pop_call ∷ calls) [] = none
run_queue slots (pop_call ∷ calls) (m ∷ queue) = do
  rest ← run_queue slots calls queue
  some (m ∷ rest.0, rest.1)

-- Entries that carry the messages, in order.
abbrev pub AllCarry : List RingEntry → List Message → Type 0
AllCarry [] [] = Unit {0}
AllCarry [] (m ∷ l) = ⊥
AllCarry (e ∷ k) [] = ⊥
AllCarry (e ∷ k) (m ∷ l) = Carries e m × AllCarry k l

-- Both runs wait, or both end with the same messages returned and left.
abbrev pub Agree : Option (List RingEntry × Ring) → Option (List Message × List Message) → Type 0
Agree none none = Unit {0}
Agree none (some q) = ⊥
Agree (some r) none = ⊥
Agree (some r) (some q) = AllCarry r.0 q.0 × Represents r.1 q.1

Agree-pop :
    (entry : RingEntry) (m : Message)
    → Carries entry m
    → (r : Option (List RingEntry × Ring)) (q : Option (List Message × List Message)) → Agree r q
    → Agree (r >>= λ rest. some (entry ∷ rest.0, rest.1)) (q >>= λ rest. some (m ∷ rest.0, rest.1))
Agree-pop entry m carried none none a = a
Agree-pop entry m carried none (some q) a = absurd a
Agree-pop entry m carried (some r) none a = absurd a
Agree-pop entry m carried (some r) (some q) a = ((carried, a.0), a.1)

no_room : (k n : ℕ) → suc k ≡ n → ltb (suc k) n ≡ false
no_room k n e = ground arith

room_left : (k n : ℕ) → suc k < n → ltb (suc k) n ≡ true
room_left k n h = ground arith

-- On a ring buffer that represents a queue, every sequence of calls agrees with the same sequence
-- on the queue: either a call waits in both runs, or both end, the entries that were popped carry
-- the messages that the queue gave, in order, and the buffer represents the queue that is left.
pub run_ring-run_queue :
    (calls : List Call) (slots : ℕ) (ring : Ring) (queue : List Message)
    → ring.ring_size ≡ slots
    → Represents ring queue
    → Agree (run_ring calls ring) (run_queue slots calls queue)
unfolding run_ring run_queue
run_ring-run_queue [] slots ring queue e r = (tt, r)
run_ring-run_queue (push_call m ∷ calls) slots ring queue e r =
    elim (push-Represents ring queue r m) [
      | inl (full, waits) ↦ rw (waits, no_room (length queue) slots (full ∙ e)) tt
      | inr (room, ring', runs, size, r') ↦
          rw (runs, room_left (length queue) slots (subst (λ k. suc (length queue) < k) e room))
            (run_ring-run_queue calls slots ring' (queue ++ (m ∷ [])) (size ∙ e) r')
    ]
run_ring-run_queue (pop_call ∷ calls) slots ring [] e r = rw (pop_empty ring r) tt
run_ring-run_queue (pop_call ∷ calls) slots ring (m ∷ queue) e r =
    let (entry, ring', runs, size, carried, r') = pop_first ring m queue r in
    rw runs (
      Agree-pop entry m carried (run_ring calls ring') (run_queue slots calls queue)
        (run_ring-run_queue calls slots ring' queue (size ∙ e) r'))
