-- ===== src/Random/PermutationManager/Served.antt =====
-- Single calls of include/core/random/permutations/permutation_manager.h that the queues serve.
use crypt_dough.Base.{
  ℕ, suc, ◌+◌, ◌≡◌, ◌≤◌, ◌<◌, subst, sym, refl, arith, ◌==◌, if◌then◌else◌, Bool, true, false, some,
  List, [], ◌∷◌,
}
use crypt_dough.Random.Pool.{length}
use crypt_dough.Random.PermutationManager.{
  Generator, Manager, single_count, pair_count, draw_single, get_next, pop_pair, get_next_copies,
  get_next_converted, get_next_pair,
}
use crypt_dough.Random.PermutationManager.Sizes.{AllPairsSized, IsGenerator, IsManager}
use crypt_dough.Random.PermutationManager.Laws.{pop_front_finds}

pub one_more :
    (two_parties : Bool) (singles pairs count : ℕ)
    → single_count two_parties (suc singles) pairs ≤ count
    → suc (single_count two_parties singles pairs) ≤ count
one_more true singles pairs count h = h
one_more false singles pairs count h = omega (arith, h)

pub fewer_singles :
    (two_parties : Bool) (singles pairs num_permutations num_pairs count : ℕ)
    → singles ≤ num_permutations
    → pairs ≤ num_pairs
    → single_count two_parties num_permutations num_pairs ≤ count
    → single_count two_parties singles pairs ≤ count
fewer_singles true singles pairs num_permutations num_pairs count a b h = omega arith
fewer_singles false singles pairs num_permutations num_pairs count a b h = omega arith

pub fewer_pairs :
    (two_parties : Bool) (pairs num_pairs count : ℕ)
    → pairs ≤ num_pairs
    → pair_count two_parties num_pairs ≤ count
    → pair_count two_parties pairs ≤ count
fewer_pairs true pairs num_pairs count b h = omega arith
fewer_pairs false pairs num_pairs count b h = omega arith

module _ {G P : Type 0} (gen : Generator G P) (laws : IsGenerator gen) where
  pop_pair_finds :
      (two_parties : Bool) (m : Manager G P) (pairs : List (P × P))
      → IsManager gen m
      → AllPairsSized gen.size_of m.stored_size pairs
      → 0 < length pairs
      → (p : P) × (q : P) × (m' : Manager G P) × (pop_pair gen two_parties m pairs
          ≡ some ((p, q), m'))
        × (gen.size_of p ≡ m.stored_size)
        × (gen.size_of q ≡ m.stored_size)
        × IsManager gen m'
        × (m'.generator ≡ m.generator)
        × (m'.stored_size ≡ m.stored_size)
        × (m'.queue ≡ m.queue)
        × (suc (length m'.pair_queue) ≡ length pairs)
  unfolding pop_pair
  pop_pair_finds two_parties m [] ok sized h = absurd (omega arith)
  pop_pair_finds two_parties m ((p, q) ∷ pairs) ok (e, f, sized) h = (
    p,
    q,
    record {
      queue = m.queue;
      pair_queue = pairs;
      stored_size = m.stored_size;
      generator = m.generator;
    },
    refl,
    e,
    f,
    record { queue-AllSized = ok.queue-AllSized; pair_queue-AllPairsSized = sized },
    refl,
    refl,
    refl,
    refl,
  )

  -- What is left after calls that the queues served, without the generator.
  abbrev pub IsLeft : ℕ → ℕ → Manager G P → Manager G P → Type 0
  IsLeft singles pairs m m' =
      IsManager gen m'
      × (m'.generator ≡ m.generator)
      × (m'.stored_size ≡ m.stored_size)
      × (singles ≤ length m'.queue)
      × (pairs ≤ length m'.pair_queue)

  draw_single_served :
      (two_parties : Bool) (m : Manager G P)
      → IsManager gen m
      → 0 < length m.queue
      → (p : P) × (m' : Manager G P) × (draw_single gen two_parties m.stored_size m m
          ≡ some (p, m'))
        × IsManager gen m'
        × (m'.generator ≡ m.generator)
        × (m'.stored_size ≡ m.stored_size)
        × (suc (length m'.queue) ≡ length m.queue)
        × (m'.pair_queue ≡ m.pair_queue)
  unfolding draw_single
  draw_single_served two_parties m ok some_left =
      let (p, m', e, sized, ok', same, stored, shorter, pairs) =
        pop_front_finds gen laws two_parties m m.queue ok.queue-AllSized ok.pair_queue-AllPairsSized
          some_left in
      let test : (length m.queue == 0) ≡ false = ground (arith, some_left) in
      (p, m', rw test e, ok', same, stored, shorter, pairs)

  pub get_next_served :
      (two_parties arithmetic : Bool) (size singles pairs : ℕ) (m : Manager G P)
      → IsManager gen m
      → size ≡ m.stored_size
      → suc singles ≤ length m.queue
      → pairs ≤ length m.pair_queue
      → (d : P × Manager G P) × (get_next gen two_parties arithmetic size m ≡ some d)
        × IsLeft singles pairs m d.1
  unfolding get_next
  get_next_served two_parties arithmetic size singles pairs m ok right enough pairs_enough =
      let (p, m', found, ok', same, stored, shorter, kept) =
        draw_single_served two_parties m ok (omega arith) in
      let test : (size == m.stored_size) ≡ true = ground (arith, right) in
      let found' : draw_single gen two_parties size m m ≡ some (p, m') =
        subst (λ s. draw_single gen two_parties s m m ≡ some (p, m')) (sym right) found in
      (
        (if two_parties then gen.convert arithmetic p else p, m'),
        rw (test, found') refl,
        (
          ok',
          same,
          stored,
          omega (arith, shorter, enough),
          subst (λ l. pairs ≤ length l) (sym kept) pairs_enough,
        ),
      )

  copies_served :
      (size singles pairs : ℕ) (m : Manager G P)
      → IsManager gen m
      → size ≡ m.stored_size
      → suc singles ≤ length m.queue
      → pairs ≤ length m.pair_queue
      → (d : (P × P) × Manager G P) × (get_next_copies gen false size m ≡ some d)
        × IsLeft singles pairs m d.1
  unfolding get_next_copies
  copies_served size singles pairs m ok right enough pairs_enough =
      let (p, m', found, ok', same, stored, shorter, kept) =
        draw_single_served false m ok (omega arith) in
      let found' : draw_single gen false size m m ≡ some (p, m') =
        subst (λ s. draw_single gen false s m m ≡ some (p, m')) (sym right) found in
      (
        ((p, p), m'),
        rw found' refl,
        (
          ok',
          same,
          stored,
          omega (arith, shorter, enough),
          subst (λ l. pairs ≤ length l) (sym kept) pairs_enough,
        ),
      )

  converted_served :
      (arithmetic_1 arithmetic_2 : Bool) (singles pairs : ℕ) (m : Manager G P)
      → IsManager gen m
      → singles ≤ length m.queue
      → suc pairs ≤ length m.pair_queue
      → (d : (P × P) × Manager G P) × (get_next_converted gen true arithmetic_1 arithmetic_2 m
          ≡ some d)
        × IsLeft singles pairs m d.1
  unfolding get_next_converted
  converted_served arithmetic_1 arithmetic_2 singles pairs m ok enough pairs_enough =
      let (p, q, m', found, e, f, ok', same, stored, kept, shorter) =
        pop_pair_finds true m m.pair_queue ok ok.pair_queue-AllPairsSized (omega arith) in
      (
        ((gen.convert arithmetic_1 p, gen.convert arithmetic_2 q), m'),
        rw found refl,
        (
          ok',
          same,
          stored,
          subst (λ l. singles ≤ length l) (sym kept) enough,
          omega (arith, shorter, pairs_enough),
        ),
      )

  -- A pair: of two parties from the pairs, of others from the single permutations.
  pub get_next_pair_served :
      (two_parties arithmetic_1 arithmetic_2 : Bool) (size singles pairs : ℕ) (m : Manager G P)
      → IsManager gen m
      → size ≡ m.stored_size
      → single_count two_parties singles (suc pairs) ≤ length m.queue
      → pair_count two_parties (suc pairs) ≤ length m.pair_queue
      → (d : (P × P) × Manager G P) × (get_next_pair gen two_parties arithmetic_1 arithmetic_2 size
            m
          ≡ some d)
        × IsLeft (single_count two_parties singles pairs) (pair_count two_parties pairs) m d.1
  unfolding get_next_pair
  get_next_pair_served true arithmetic_1 arithmetic_2 size singles pairs m ok right enough
        pairs_enough =
      let test : (length m.pair_queue == 0) ≡ false = ground (arith, pairs_enough) in
      rw test (converted_served arithmetic_1 arithmetic_2 singles pairs m ok enough pairs_enough)
  get_next_pair_served false arithmetic_1 arithmetic_2 size singles pairs m ok right enough
        pairs_enough =
      copies_served size (singles + pairs) 0 m ok right (omega (arith, enough)) (omega arith)
