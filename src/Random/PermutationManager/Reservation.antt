-- ===== src/Random/PermutationManager/Reservation.antt =====
-- Reservations of include/core/random/permutations/permutation_manager.h.
use crypt_dough.Base.{
  ℕ, ◌+◌, ◌*◌, ◌≡◌, ◌≤◌, ◌<◌, refl, arith, ltb, if◌then◌else◌, Bool, Bool-cases, true, false, ◌||◌,
  inl, inr,
}
use crypt_dough.Random.Pool.{length, drop}
use crypt_dough.Random.Pool.Laws.{length-append}
use crypt_dough.Random.PermutationManager.{
  Generator, Manager, pairs_of, prepare, add_generated, set_size, missing, single_count, pair_count,
  reserve,
}
use crypt_dough.Random.PermutationManager.Sizes.{
  append-AllSized, append-AllPairsSized, drop-AllSized, pairs_of-AllPairsSized, length-drop,
  length-pairs_of, IsGenerator, IsManager, prepare_sized, set_size-IsManager,
}

missing-reaches : (stored count : ℕ) → count ≤ stored + missing stored count
missing-reaches stored count = ground arith

pairs_reach :
    (two_parties : Bool) (stored num_pairs total : ℕ)
    → total
      ≡ (if two_parties then stored + missing stored (pair_count two_parties num_pairs) else stored)
    → pair_count two_parties num_pairs ≤ total
pairs_reach true stored num_pairs total e =
    let reaches = missing-reaches stored num_pairs in omega (arith, e, reaches)
pairs_reach false stored num_pairs total e = omega arith

pub one_single : (two_parties : Bool) (count : ℕ) → single_count two_parties 1 0 ≤ count → 0 < count
one_single true count h = omega arith
one_single false count h = omega arith

module _ {G P : Type 0} (gen : Generator G P) (laws : IsGenerator gen) where
  -- Generation keeps what is stored, and adds what was asked for.
  add_generated-IsManager :
      (two_parties : Bool) (singles pairs : ℕ) (m : Manager G P)
      → IsManager gen m
      → let m' = add_generated gen two_parties m.stored_size singles pairs m in
        IsManager gen m'
        × (length m'.queue ≡ length m.queue + singles)
        × (length m'.pair_queue
            ≡ (if two_parties then length m.pair_queue + pairs else length m.pair_queue))
  unfolding add_generated
  add_generated-IsManager true singles pairs m ok =
      let (sized, long) =
        prepare_sized gen laws true m.stored_size (singles + 2 * pairs) pairs m.generator in
      let ret = (prepare gen true m.stored_size (singles + 2 * pairs) pairs m.generator).0 in
      (
        record {
          queue-AllSized =
              append-AllSized gen.size_of m.stored_size m.queue _ ok.queue-AllSized
                (drop-AllSized gen.size_of m.stored_size (pairs * 2) ret sized);
          pair_queue-AllPairsSized =
              append-AllPairsSized gen.size_of m.stored_size m.pair_queue _
                ok.pair_queue-AllPairsSized
                (pairs_of-AllPairsSized gen.size_of m.stored_size pairs ret sized);
        },
        omega (
          arith,
          length-append m.queue (drop (pairs * 2) ret),
          length-drop (pairs * 2) ret,
          long,
        ),
        omega (
          arith,
          length-append m.pair_queue (pairs_of pairs ret),
          length-pairs_of pairs ret (omega (arith, long)),
        ),
      )
  add_generated-IsManager false singles pairs m ok =
      let (sized, long) =
        prepare_sized gen laws false m.stored_size (singles + 2 * pairs) pairs m.generator in
      let ret = (prepare gen false m.stored_size (singles + 2 * pairs) pairs m.generator).0 in
      (
        record {
          queue-AllSized =
              append-AllSized gen.size_of m.stored_size m.queue _ ok.queue-AllSized
                (drop-AllSized gen.size_of m.stored_size (pairs * 2) ret sized);
          pair_queue-AllPairsSized = ok.pair_queue-AllPairsSized;
        },
        omega (
          arith,
          length-append m.queue (drop (pairs * 2) ret),
          length-drop (pairs * 2) ret,
          long,
        ),
        refl,
      )

  -- On queues in which everything has the stored size, `reserve` keeps that so, stores the size
  -- that it is called with, and leaves at least as many permutations and pairs as asked for.
  pub reserve-IsManager :
      (two_parties : Bool) (size num_permutations num_pairs : ℕ) (m : Manager G P)
      → IsManager gen m
      → let m' = reserve gen two_parties size num_permutations num_pairs m in
        IsManager gen m'
        × (m'.stored_size ≡ size)
        × (single_count two_parties num_permutations num_pairs ≤ length m'.queue)
        × (pair_count two_parties num_pairs ≤ length m'.pair_queue)
  unfolding reserve set_size
  reserve-IsManager two_parties size num_permutations num_pairs m ok =
      let m1 = set_size size m in
      let ok1 = set_size-IsManager gen size m ok in
      let singles = single_count two_parties num_permutations num_pairs in
      let pairs = pair_count two_parties num_pairs in
      let (ok2, long, pairs_long) =
        add_generated-IsManager two_parties (missing (length m1.queue) singles)
          (missing (length m1.pair_queue) pairs) m1 ok1 in
      elim (Bool-cases (ltb (length m1.queue) singles || ltb (length m1.pair_queue) pairs)) [
        | inl short ↦ rw short (
          ok2,
          refl,
          (let reaches = missing-reaches (length m1.queue) singles in omega (arith, long, reaches)),
          pairs_reach two_parties (length m1.pair_queue) num_pairs _ pairs_long,
        )
        | inr enough ↦ rw enough (ok1, refl, ground (arith, enough), ground (arith, enough))
      ]
