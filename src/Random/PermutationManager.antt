-- ===== src/Random/PermutationManager.antt =====
-- The queues of random permutations (include/core/random/permutations/permutation_manager.h). The
-- generator of sharded permutations is an interface, with a state of its own.
pub mod Sizes
pub mod Reservation
pub mod Laws
pub mod Served
pub mod Draws
use crypt_dough.Base.{
  ℕ, zero, suc, ◌+◌, ◌-◌, ◌*◌, ◌≡◌, ◌==◌, ltb, if◌then◌else◌, Bool, true, false, not, ◌&&◌, ◌||◌,
  Option, none, some, List, [], ◌∷◌, ◌++◌,
}
use crypt_dough.Comm.{◌>>=◌}
use crypt_dough.Random.Pool.{length, drop}

-- What the manager calls: `allocate count size`, `setup_dm_pair`, `generate_permutations`,
-- `getNext size`, and the conversions of a two-party permutation, to boolean or arithmetic shares.
pub record Generator (G P : Type 0) : Type 0 where
  pub size_of : P → ℕ
  pub allocate : ℕ → ℕ → G → List P × G
  pub setup_dm_pair : P → P → G → (P × P) × G
  pub generate_permutations : List P → G → List P × G
  pub generate_next : ℕ → G → P × G
  pub convert : Bool → P → P

pub record Manager (G P : Type 0) : Type 0 where
  pub queue : List P
  pub pair_queue : List (P × P)
  pub stored_size : ℕ
  pub generator : G

-- The pairs at the front of `ret`.
unfoldable pub pairs_of : {P : Type 0} → ℕ → List P → List (P × P)
pairs_of zero ret = []
pairs_of (suc num_pairs) [] = []
pairs_of (suc num_pairs) (p ∷ []) = []
pairs_of (suc num_pairs) (p ∷ q ∷ ret) = (p, q) ∷ pairs_of num_pairs ret

-- Stored permutations of another size are dropped.
unfoldable pub set_size : {G P : Type 0} → ℕ → Manager G P → Manager G P
set_size size m =
    let stored = not (length m.queue == 0) || not (length m.pair_queue == 0) in
    let empty = stored && not (m.stored_size == size) in
    record {
      queue = if empty then [] else m.queue;
      pair_queue = if empty then [] else m.pair_queue;
      stored_size = size;
      generator = m.generator;
    }

-- What is still to be generated of a kind of which `stored` are in the queue.
abbrev pub missing : ℕ → ℕ → ℕ
missing stored count = if ltb stored count then count - stored else count

-- Only two parties have pairs of their own; for others a pair is a single permutation.
abbrev pub single_count : Bool → ℕ → ℕ → ℕ
single_count two_parties num_permutations num_pairs =
    if two_parties then num_permutations else num_permutations + num_pairs

abbrev pub pair_count : Bool → ℕ → ℕ
pair_count two_parties num_pairs = if two_parties then num_pairs else 0

module _ {G P : Type 0} (gen : Generator G P) where
  unfoldable pub setup_pairs : ℕ → List P → G → List P × G
  setup_pairs zero ret g = (ret, g)
  setup_pairs (suc num_pairs) [] g = ([], g)
  setup_pairs (suc num_pairs) (p ∷ []) g = (p ∷ [], g)
  setup_pairs (suc num_pairs) (p ∷ q ∷ ret) g =
      let ((p', q'), g1) = gen.setup_dm_pair p q g in
      let (ret', g2) = setup_pairs num_pairs ret g1 in (p' ∷ q' ∷ ret', g2)

  -- `count` new permutations; for two parties the first ones are set up as pairs.
  unfoldable pub prepare : Bool → ℕ → ℕ → ℕ → G → List P × G
  unfolding setup_pairs
  prepare true size count num_pairs g =
      let (allocated, g1) = gen.allocate count size g in
      let (paired, g2) = setup_pairs num_pairs allocated g1 in gen.generate_permutations paired g2
  prepare false size count num_pairs g =
      let (allocated, g1) = gen.allocate count size g in gen.generate_permutations allocated g1

module _ {G P : Type 0} (gen : Generator G P) (two_parties : Bool) where
  -- Generates that many single permutations and pairs, and appends them to the queues.
  unfoldable pub add_generated : ℕ → ℕ → ℕ → Manager G P → Manager G P
  unfolding prepare pairs_of
  add_generated size num_permutations num_pairs m =
      let num_to_generate = num_permutations + 2 * num_pairs in
      let (ret, g) = prepare gen two_parties size num_to_generate num_pairs m.generator in
      record {
        queue = m.queue ++ drop (num_pairs * 2) ret;
        pair_queue = if two_parties then m.pair_queue ++ pairs_of num_pairs ret else m.pair_queue;
        stored_size = m.stored_size;
        generator = g;
      }

  unfoldable pub reserve : ℕ → ℕ → ℕ → Manager G P → Manager G P
  unfolding set_size add_generated
  reserve size num_permutations num_pairs m =
      let singles = single_count two_parties num_permutations num_pairs in
      let pairs = pair_count two_parties num_pairs in
      let m1 = set_size size m in
      if ltb (length m1.queue) singles || ltb (length m1.pair_queue) pairs
      then add_generated size (missing (length m1.queue) singles)
          (missing (length m1.pair_queue) pairs) m1
      else m1

  -- The front of the queue, without it; `none` is the assertion on its size, or an empty queue.
  unfoldable pub pop_front : ℕ → Manager G P → List P → Option (P × Manager G P)
  pop_front size m [] = none
  pop_front size m (next ∷ queue) =
      if gen.size_of next == size
      then some (
        next,
        record {
          queue = queue;
          pair_queue = m.pair_queue;
          stored_size = m.stored_size;
          generator = m.generator;
        },
      )
      else none

  -- A permutation from the generator, past the queue.
  unfoldable pub generated_next : ℕ → Manager G P → P × Manager G P
  generated_next size m =
      let (next, g) = gen.generate_next size m.generator in
      (
        next,
        record {
          queue = m.queue;
          pair_queue = m.pair_queue;
          stored_size = m.stored_size;
          generator = g;
        },
      )

  -- From the queue, as `m1` has it, or past it if it is empty.
  unfoldable pub draw_single : ℕ → Manager G P → Manager G P → Option (P × Manager G P)
  unfolding generated_next pop_front
  draw_single size m m1 =
      if length m.queue == 0 then some (generated_next size m) else pop_front size m1 m1.queue

  unfoldable pub get_next : Bool → ℕ → Manager G P → Option (P × Manager G P)
  unfolding draw_single reserve
  get_next arithmetic size m = do
    (next, m') ← draw_single size m (if size == m.stored_size then m else reserve size 1 0 m)
    some (if two_parties then gen.convert arithmetic next else next, m')

  unfoldable pub pop_pair : Manager G P → List (P × P) → Option ((P × P) × Manager G P)
  pop_pair m [] = none
  pop_pair m (pair ∷ pair_queue) = some (
    pair,
    record {
      queue = m.queue;
      pair_queue = pair_queue;
      stored_size = m.stored_size;
      generator = m.generator;
    },
  )

  -- Three and four parties use one permutation, of which the second is a deep copy.
  unfoldable pub get_next_copies : ℕ → Manager G P → Option ((P × P) × Manager G P)
  unfolding draw_single
  get_next_copies size m = do (perm, m') ← draw_single size m m; some ((perm, perm), m')

  unfoldable pub get_next_converted : Bool → Bool → Manager G P → Option ((P × P) × Manager G P)
  unfolding pop_pair
  get_next_converted arithmetic_1 arithmetic_2 m = do
    ((p, q), m') ← pop_pair m m.pair_queue
    some ((gen.convert arithmetic_1 p, gen.convert arithmetic_2 q), m')

  unfoldable pub get_next_pair : Bool → Bool → ℕ → Manager G P → Option ((P × P) × Manager G P)
  unfolding get_next_copies get_next_converted reserve
  get_next_pair arithmetic_1 arithmetic_2 size m =
      if two_parties
      then get_next_converted arithmetic_1 arithmetic_2
          (if length m.pair_queue == 0 then reserve size 0 1 m else m)
      else get_next_copies size m

-- A call of `getNext` or of `getNextPair`, with the encodings.
pub data Draw : Type 0 where
  single : Bool → Draw
  pair : Bool → Bool → Draw

abbrev pub single_draws : List Draw → ℕ
single_draws [] = 0
single_draws (Draw.single arithmetic ∷ draws) = suc (single_draws draws)
single_draws (Draw.pair arithmetic_1 arithmetic_2 ∷ draws) = single_draws draws

abbrev pub pair_draws : List Draw → ℕ
pair_draws [] = 0
pair_draws (Draw.single arithmetic ∷ draws) = pair_draws draws
pair_draws (Draw.pair arithmetic_1 arithmetic_2 ∷ draws) = suc (pair_draws draws)

-- Calls one after another, for permutations of one size.
unfoldable pub run_draws :
    {G P : Type 0} → Generator G P → Bool → ℕ → List Draw → Manager G P → Option (Manager G P)
unfolding get_next get_next_pair
run_draws gen two_parties size [] m = some m
run_draws gen two_parties size (Draw.single arithmetic ∷ draws) m =
    get_next gen two_parties arithmetic size m >>= λ d. run_draws gen two_parties size draws d.1
run_draws gen two_parties size (Draw.pair arithmetic_1 arithmetic_2 ∷ draws) m =
    get_next_pair gen two_parties arithmetic_1 arithmetic_2 size m >>= λ d.
    run_draws gen two_parties size draws d.1
