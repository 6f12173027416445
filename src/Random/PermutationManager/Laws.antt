-- ===== src/Random/PermutationManager/Laws.antt =====
-- About include/core/random/permutations/permutation_manager.h.
use crypt_dough.Base.{
  ℕ, suc, ◌≡◌, ◌<◌, ◌∙◌, subst, refl, ap, arith, ◌==◌, if◌then◌else◌, Bool, Bool-cases, true, false,
  inl, inr, Option, some, List, [], ◌∷◌,
}
use crypt_dough.Comm.{◌>>=◌}
use crypt_dough.Random.Pool.{length}
use crypt_dough.Random.PermutationManager.{
  Generator, Manager, reserve, pop_front, generated_next, draw_single, get_next,
}
use crypt_dough.Random.PermutationManager.Sizes.{AllSized, AllPairsSized, IsGenerator, IsManager}
use crypt_dough.Random.PermutationManager.Reservation.{reserve-IsManager, one_single}

module _ {G P : Type 0} (gen : Generator G P) (laws : IsGenerator gen) where
  -- The front of a queue of the right size.
  pub pop_front_finds :
      (two_parties : Bool) (m : Manager G P) (queue : List P)
      → AllSized gen.size_of m.stored_size queue
      → AllPairsSized gen.size_of m.stored_size m.pair_queue
      → 0 < length queue
      → (p : P) × (m' : Manager G P) × (pop_front gen two_parties m.stored_size m queue
          ≡ some (p, m'))
        × (gen.size_of p ≡ m.stored_size)
        × IsManager gen m'
        × (m'.generator ≡ m.generator)
        × (m'.stored_size ≡ m.stored_size)
        × (suc (length m'.queue) ≡ length queue)
        × (m'.pair_queue ≡ m.pair_queue)
  unfolding pop_front
  pop_front_finds two_parties m [] sized pairs_sized h = absurd (omega arith)
  pop_front_finds two_parties m (p ∷ queue) (e, sized) pairs_sized h = (
    p,
    record {
      queue = queue;
      pair_queue = m.pair_queue;
      stored_size = m.stored_size;
      generator = m.generator;
    },
    (let test : (gen.size_of p == m.stored_size) ≡ true = ground (arith, e) in rw test refl),
    e,
    record { queue-AllSized = sized; pair_queue-AllPairsSized = pairs_sized },
    refl,
    refl,
    refl,
    refl,
  )

  -- What comes from the generator has the size asked for, and leaves the queues.
  generated_next-IsManager :
      (two_parties : Bool) (size : ℕ) (m : Manager G P)
      → IsManager gen m
      → (gen.size_of (generated_next gen two_parties size m).0 ≡ size)
        × IsManager gen (generated_next gen two_parties size m).1
  unfolding generated_next
  generated_next-IsManager two_parties size m ok = (
    laws.generate_next-size size m.generator,
    record {
      queue-AllSized = ok.queue-AllSized;
      pair_queue-AllPairsSized = ok.pair_queue-AllPairsSized;
    },
  )

  -- A draw from `m1`, or past the queue if that of `m` is empty.
  pub draw_single_finds :
      (two_parties : Bool) (size : ℕ) (m m1 : Manager G P)
      → IsManager gen m
      → IsManager gen m1
      → m1.stored_size ≡ size
      → (0 < length m.queue → 0 < length m1.queue)
      → (p : P) × (m' : Manager G P) × (draw_single gen two_parties size m m1 ≡ some (p, m'))
        × (gen.size_of p ≡ size)
        × IsManager gen m'
  unfolding draw_single
  draw_single_finds two_parties size m m1 ok ok1 right some_left =
      elim (Bool-cases (length m.queue == 0)) [
        | inl none_left ↦
            let (sized, ok') = generated_next-IsManager two_parties size m ok in
            (_, _, rw none_left refl, sized, ok')
        | inr stored ↦
            let (p, m', e, sized, ok', _, _, _, _) =
              pop_front_finds two_parties m1 m1.queue ok1.queue-AllSized
                ok1.pair_queue-AllPairsSized (some_left (ground (arith, stored))) in
            (
              p,
              m',
              rw stored
                  (subst (λ s. pop_front gen two_parties s m1 m1.queue ≡ some (p, m')) right e),
              sized ∙ right,
              ok',
            )
      ]

  converted-size :
      (two_parties arithmetic : Bool) (size : ℕ) (p : P)
      → gen.size_of p ≡ size
      → gen.size_of (if two_parties then gen.convert arithmetic p else p) ≡ size
  converted-size true arithmetic size p e = laws.convert-size arithmetic p ∙ e
  converted-size false arithmetic size p e = e

  -- Whatever size is stored, the queue that `get_next` draws from has the size asked for.
  resized :
      (two_parties : Bool) (size : ℕ) (m : Manager G P)
      → IsManager gen m
      → let m1 = if size == m.stored_size then m else reserve gen two_parties size 1 0 m in
        IsManager gen m1 × (m1.stored_size ≡ size) × (0 < length m.queue → 0 < length m1.queue)
  resized two_parties size m ok = elim (Bool-cases (size == m.stored_size)) [
    | inl same ↦ rw same (ok, ground (arith, same), λ h. h)
    | inr other ↦
        let (ok1, right, singles, pairs) = reserve-IsManager gen laws two_parties size 1 0 m ok in
        rw other (ok1, right, λ h. one_single two_parties _ singles)
  ]

  -- On queues in which everything has the stored size, `get_next` passes its assertion, returns a
  -- permutation of the size that it is called with, whatever size is stored, and keeps the queues
  -- so.
  pub get_next-IsManager :
      (two_parties arithmetic : Bool) (size : ℕ) (m : Manager G P)
      → IsManager gen m
      → (p : P) × (m' : Manager G P) × (get_next gen two_parties arithmetic size m ≡ some (p, m'))
        × (gen.size_of p ≡ size)
        × IsManager gen m'
  unfolding get_next
  get_next-IsManager two_parties arithmetic size m ok =
      let (ok1, right, some_left) = resized two_parties size m ok in
      let (p, m', found, sized, ok') =
        draw_single_finds two_parties size m _ ok ok1 right some_left in
      (
        _,
        m',
        ap
            (λ (o : Option (P × Manager G P)).
              o >>= λ d. some (if two_parties then gen.convert arithmetic d.0 else d.0, d.1))
            found,
        converted-size two_parties arithmetic size p sized,
        ok',
      )
