-- ===== src/Random/PermutationManager/Draws.antt =====
-- About calls of include/core/random/permutations/permutation_manager.h after a reservation.
use crypt_dough.Base.{ℕ, ◌≡◌, ◌≤◌, ◌∙◌, sym, refl, Bool, some, List, [], ◌∷◌}
use crypt_dough.Random.Pool.{length}
use crypt_dough.Random.PermutationManager.{
  Generator, Manager, single_count, pair_count, reserve, Draw, single_draws, pair_draws, run_draws,
}
use crypt_dough.Random.PermutationManager.Sizes.{IsGenerator, IsManager}
use crypt_dough.Random.PermutationManager.Reservation.{reserve-IsManager}
use crypt_dough.Random.PermutationManager.Served.{
  one_more, fewer_singles, fewer_pairs, get_next_served, get_next_pair_served,
}

module _ {G P : Type 0} (gen : Generator G P) (laws : IsGenerator gen) where
  draws_served :
      (two_parties : Bool) (size : ℕ) (draws : List Draw) (m : Manager G P)
      → IsManager gen m
      → size ≡ m.stored_size
      → single_count two_parties (single_draws draws) (pair_draws draws) ≤ length m.queue
      → pair_count two_parties (pair_draws draws) ≤ length m.pair_queue
      → (m' : Manager G P) × (run_draws gen two_parties size draws m ≡ some m')
        × IsManager gen m'
        × (m'.generator ≡ m.generator)
  unfolding run_draws
  draws_served two_parties size [] m ok right enough pairs_enough = (m, refl, ok, refl)
  draws_served two_parties size (Draw.single arithmetic ∷ draws) m ok right enough pairs_enough =
      let (d, found, (ok', same, stored, left, pairs_left)) =
        get_next_served gen laws two_parties arithmetic size
          (single_count two_parties (single_draws draws) (pair_draws draws))
          (pair_count two_parties (pair_draws draws)) m ok right
          (one_more two_parties (single_draws draws) (pair_draws draws) _ enough) pairs_enough in
      let (m', rest, ok'', same') =
        draws_served two_parties size draws d.1 ok' (right ∙ sym stored) left pairs_left in
      (m', rw found rest, ok'', same' ∙ same)
  draws_served two_parties size (Draw.pair arithmetic_1 arithmetic_2 ∷ draws) m ok right enough
        pairs_enough =
      let (d, found, (ok', same, stored, left, pairs_left)) =
        get_next_pair_served gen laws two_parties arithmetic_1 arithmetic_2 size
          (single_draws draws) (pair_draws draws) m ok right enough pairs_enough in
      let (m', rest, ok'', same') =
        draws_served two_parties size draws d.1 ok' (right ∙ sym stored) left pairs_left in
      (m', rw found rest, ok'', same' ∙ same)

  -- After a reservation, on queues in which everything has the stored size, calls for permutations
  -- and pairs of the reserved size, in any order, at most as many of each kind as reserved, are all
  -- served without the generator.
  pub run_draws-reserve :
      (two_parties : Bool) (size num_permutations num_pairs : ℕ) (draws : List Draw)
      (m : Manager G P)
      → IsManager gen m
      → single_draws draws ≤ num_permutations
      → pair_draws draws ≤ num_pairs
      → let m1 = reserve gen two_parties size num_permutations num_pairs m in
        (m' : Manager G P) × (run_draws gen two_parties size draws m1 ≡ some m')
        × IsManager gen m'
        × (m'.generator ≡ m1.generator)
  run_draws-reserve two_parties size num_permutations num_pairs draws m ok singles pairs =
      let (ok1, right, enough, pairs_enough) =
        reserve-IsManager gen laws two_parties size num_permutations num_pairs m ok in
      draws_served two_parties size draws _ ok1 (sym right)
        (fewer_singles two_parties _ _ _ _ _ singles pairs enough)
        (fewer_pairs two_parties _ _ _ pairs pairs_enough)
