-- ===== src/Ring/Laws.antt =====
-- About `push` and `pop` of include/core/communication/ring.h.
use crypt_dough.Base.{
  ℕ, suc, ◌≡◌, ◌<◌, ◌∙◌, refl, arith, ◌==◌, true, false, none, some, List, [], ◌∷◌, ◌++◌, inl, inr,
  ◌⊎◌,
}
use crypt_dough.Ring.{
  RingEntry, Ring, copy_bytes, new_ring, next_index, is_ring_full, is_ring_empty, push, pop,
}
use crypt_dough.Ring.Walk.{
  Message, Carries, Represents, length, slots_with, distance, after-cases, after-lt,
  length-distance, full_iff, empty_iff, push-Walk, length-append, copied_byte,
}

no_zero : (k : ℕ) → (suc k == 0) ≡ false
no_zero k = ground arith

full-cases :
    (k n : ℕ)
    → k < n
    → ((suc k ≡ n) × ((suc k == n) ≡ true)) ⊎ ((suc k < n) × ((suc k == n) ≡ false))
full-cases k n h = ground arith

module _ (ring : Ring) (queue : List Message) (r : Represents ring queue) where
  -- How full the buffer is.
  count : length queue ≡ distance ring.ring_size ring.read_index ring.write_index
  count =
      length-distance ring.ring_size ring.ring_array ring.read_index queue ring.write_index
        r.read-lt r.write-lt r.short r.walk

  is_ring_full-length : is_ring_full ring ≡ (suc (length queue) == ring.ring_size)
  unfolding is_ring_full next_index
  is_ring_full-length =
      full_iff ring.ring_size ring.read_index ring.write_index (length queue) _ r.read-lt r.write-lt
        count (after-cases ring.ring_size ring.write_index r.write-lt)

  is_ring_empty-length : is_ring_empty ring ≡ (length queue == 0)
  unfolding is_ring_empty
  is_ring_empty-length =
      empty_iff ring.ring_size ring.read_index ring.write_index (length queue) r.read-lt r.write-lt
        count

  -- On a ring buffer that represents a queue, `push` waits exactly if the queue holds one message
  -- less than the buffer has slots; otherwise the buffer keeps its size and represents the queue
  -- with the message at its end.
  pub push-Represents :
      (m : Message)
      → ((suc (length queue) ≡ ring.ring_size) × (push ring m.bytes m.byte_count ≡ none))
        ⊎ ((suc (length queue) < ring.ring_size)
            × (ring' : Ring) × (push ring m.bytes m.byte_count ≡ some ring')
            × (ring'.ring_size ≡ ring.ring_size)
            × Represents ring' (queue ++ (m ∷ [])))
  unfolding push next_index
  push-Represents m = elim (full-cases (length queue) ring.ring_size r.short) [
    | inl (full, test) ↦ inl (full, rw (is_ring_full-length ∙ test, push) refl)
    | inr (room, test) ↦
        let entry : RingEntry = record {
          buffer = copy_bytes m.bytes m.byte_count (ring.ring_array ring.write_index).buffer;
          used = m.byte_count;
        } in
        let ring' : Ring = record {
          write_index = next_index ring ring.write_index;
          read_index = ring.read_index;
          ring_size = ring.ring_size;
          ring_array = slots_with ring.ring_array ring.write_index entry;
        } in
        inr (
          room,
          ring',
          rw (is_ring_full-length ∙ test, push) refl,
          refl,
          record {
            read-lt = r.read-lt;
            write-lt = after-lt ring.ring_size ring.write_index r.write-lt;
            short = omega (arith, length-append queue m);
            walk =
                push-Walk ring.ring_size ring.ring_array entry m
                  (record {
                    counted = refl;
                    copied = λ j h.
                        copied_byte m.bytes j m.byte_count (ring.ring_array ring.write_index).buffer
                          h;
                  })
                  ring.read_index queue ring.write_index r.read-lt r.write-lt room r.walk;
          },
        )
  ]

pub pop_empty : (ring : Ring) → Represents ring [] → pop ring ≡ none
unfolding pop
pop_empty ring r =
    let waits : is_ring_empty ring ≡ true = is_ring_empty-length ring [] r in rw (waits, pop) refl

pub pop_first :
    (ring : Ring) (m : Message) (rest : List Message)
    → Represents ring (m ∷ rest)
    → (entry : RingEntry) × (ring' : Ring) × (pop ring ≡ some (entry, ring'))
      × (ring'.ring_size ≡ ring.ring_size)
      × Carries entry m
      × Represents ring' rest
unfolding pop next_index
pop_first ring m rest r =
    let ready : is_ring_empty ring ≡ false =
      is_ring_empty-length ring (m ∷ rest) r ∙ no_zero (length rest) in
    let ring' : Ring = record {
      write_index = ring.write_index;
      read_index = next_index ring ring.read_index;
      ring_size = ring.ring_size;
      ring_array = ring.ring_array;
    } in
    (
      ring.ring_array ring.read_index,
      ring',
      rw (ready, pop) refl,
      refl,
      r.walk.0,
      record {
        read-lt = after-lt ring.ring_size ring.read_index r.read-lt;
        write-lt = r.write-lt;
        short = omega (arith, r.short);
        walk = r.walk.1;
      },
    )

-- On a ring buffer that represents a queue, `pop` waits exactly if the queue is empty; otherwise
-- it returns an entry that carries the first message, and the buffer keeps its size and represents
-- the other ones.
pub pop-Represents :
    (ring : Ring) (queue : List Message)
    → Represents ring queue
    → ((queue ≡ []) × (pop ring ≡ none))
      ⊎ ((m : Message) × (rest : List Message) × (queue ≡ m ∷ rest)
          × (entry : RingEntry) × (ring' : Ring) × (pop ring ≡ some (entry, ring'))
          × (ring'.ring_size ≡ ring.ring_size)
          × Carries entry m
          × Represents ring' rest)
pop-Represents ring [] r = inl (refl, pop_empty ring r)
pop-Represents ring (m ∷ rest) r =
    let (entry, ring', runs, size, carried, r') = pop_first ring m rest r in
    inr (m, rest, refl, entry, ring', runs, size, carried, r')

-- A new ring buffer with at least one slot represents the empty queue.
pub new_ring-Represents : (r_size : ℕ) → 0 < r_size → Represents (new_ring r_size) []
unfolding new_ring
new_ring-Represents r_size h = record { read-lt = h; write-lt = h; short = h; walk = refl }
