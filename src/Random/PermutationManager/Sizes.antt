-- ===== src/Random/PermutationManager/Sizes.antt =====
-- The sizes of the permutations in the queues of
-- include/core/random/permutations/permutation_manager.h.
use crypt_dough.Base.{
  ◌==◌, not, ◌&&◌, ◌||◌, Bool-cases, inl, inr, ◌⊎◌, subst, ℕ, zero, suc, ◌-◌, ◌*◌, ◌≡◌, ◌≤◌, ◌∙◌,
  refl, ap, arith, if◌then◌else◌, Bool, true, false, List, [], ◌∷◌, ◌++◌,
}
use crypt_dough.Random.Pool.{length, drop}
use crypt_dough.Random.PermutationManager.{
  Generator, Manager, pairs_of, setup_pairs, prepare, set_size,
}

module _ {P : Type 0} (size_of : P → ℕ) (size : ℕ) where
  abbrev pub AllSized : List P → Type 0
  AllSized [] = Unit {0}
  AllSized (p ∷ l) = (size_of p ≡ size) × AllSized l

  abbrev pub AllPairsSized : List (P × P) → Type 0
  AllPairsSized [] = Unit {0}
  AllPairsSized ((p, q) ∷ l) = (size_of p ≡ size) × (size_of q ≡ size) × AllPairsSized l

  pub append-AllSized : (l m : List P) → AllSized l → AllSized m → AllSized (l ++ m)
  append-AllSized [] m a b = b
  append-AllSized (p ∷ l) m (e, a) b = (e, append-AllSized l m a b)

  pub append-AllPairsSized :
      (l m : List (P × P)) → AllPairsSized l → AllPairsSized m → AllPairsSized (l ++ m)
  append-AllPairsSized [] m a b = b
  append-AllPairsSized ((p, q) ∷ l) m (e, f, a) b = (e, f, append-AllPairsSized l m a b)

  pub drop-AllSized : (n : ℕ) (l : List P) → AllSized l → AllSized (drop n l)
  drop-AllSized zero l a = a
  drop-AllSized (suc n) [] a = tt
  drop-AllSized (suc n) (p ∷ l) (e, a) = drop-AllSized n l a

  pub pairs_of-AllPairsSized : (n : ℕ) (l : List P) → AllSized l → AllPairsSized (pairs_of n l)
  unfolding pairs_of
  pairs_of-AllPairsSized zero l a = tt
  pairs_of-AllPairsSized (suc n) [] a = tt
  pairs_of-AllPairsSized (suc n) (p ∷ []) a = tt
  pairs_of-AllPairsSized (suc n) (p ∷ q ∷ l) (e, (f, a)) = (e, f, pairs_of-AllPairsSized n l a)

pub length-drop : {A : Type 0} (n : ℕ) (l : List A) → length (drop n l) ≡ length l - n
length-drop zero l = omega arith
length-drop (suc n) [] = omega arith
length-drop (suc n) (x ∷ l) = omega (arith, length-drop n l)

pub length-pairs_of :
    {P : Type 0} (n : ℕ) (l : List P) → 2 * n ≤ length l → length (pairs_of n l) ≡ n
unfolding pairs_of
length-pairs_of zero l h = refl
length-pairs_of (suc n) [] h = absurd (omega arith)
length-pairs_of (suc n) (p ∷ []) h = absurd (omega arith)
length-pairs_of (suc n) (p ∷ q ∷ l) h = ap suc (length-pairs_of n l (omega arith))

-- What a generator promises: as many permutations as asked for, of the size asked for, which keep
-- their sizes.
pub record IsGenerator {G P : Type 0} (gen : Generator G P) : Type 0 where
  pub length-allocate : (count size : ℕ) (g : G) → length (gen.allocate count size g).0 ≡ count
  pub allocate-AllSized :
      (count size : ℕ) (g : G) → AllSized gen.size_of size (gen.allocate count size g).0
  pub setup-sizes :
      (p q : P) (g : G)
      → (gen.size_of (gen.setup_dm_pair p q g).0.0 ≡ gen.size_of p)
        × (gen.size_of (gen.setup_dm_pair p q g).0.1 ≡ gen.size_of q)
  pub length-generate : (l : List P) (g : G) → length (gen.generate_permutations l g).0 ≡ length l
  pub generate-AllSized :
      (size : ℕ) (l : List P) (g : G)
      → AllSized gen.size_of size l
      → AllSized gen.size_of size (gen.generate_permutations l g).0
  pub generate_next-size : (size : ℕ) (g : G) → gen.size_of (gen.generate_next size g).0 ≡ size
  pub convert-size :
      (arithmetic : Bool) (p : P) → gen.size_of (gen.convert arithmetic p) ≡ gen.size_of p

-- Everything that is stored has the stored size.
pub record IsManager {G P : Type 0} (gen : Generator G P) (m : Manager G P) : Type 0 where
  pub queue-AllSized : AllSized gen.size_of m.stored_size m.queue
  pub pair_queue-AllPairsSized : AllPairsSized gen.size_of m.stored_size m.pair_queue

module _ {G P : Type 0} (gen : Generator G P) (laws : IsGenerator gen) where
  setup_pairs_sized :
      (size n : ℕ) (l : List P) (g : G)
      → AllSized gen.size_of size l
      → AllSized gen.size_of size (setup_pairs gen n l g).0
        × (length (setup_pairs gen n l g).0 ≡ length l)
  unfolding setup_pairs
  setup_pairs_sized size zero l g a = (a, refl)
  setup_pairs_sized size (suc n) [] g a = (tt, refl)
  setup_pairs_sized size (suc n) (p ∷ []) g a = (a, refl)
  setup_pairs_sized size (suc n) (p ∷ q ∷ l) g (e, (f, a)) =
      let (same_p, same_q) = laws.setup-sizes p q g in
      let (rest, long) = setup_pairs_sized size n l (gen.setup_dm_pair p q g).1 a in
      ((same_p ∙ e, (same_q ∙ f, rest)), ap (λ k. suc (suc k)) long)

  -- What is prepared has the size, and is as much as was asked for.
  pub prepare_sized :
      (two_parties : Bool) (size count pairs : ℕ) (g : G)
      → AllSized gen.size_of size (prepare gen two_parties size count pairs g).0
        × (length (prepare gen two_parties size count pairs g).0 ≡ count)
  unfolding prepare
  prepare_sized true size count pairs g =
      let (allocated, g1) = gen.allocate count size g in
      let (sized, long) =
        setup_pairs_sized size pairs allocated g1 (laws.allocate-AllSized count size g) in
      (
        laws.generate-AllSized size _ _ sized,
        laws.length-generate _ _ ∙ long ∙ laws.length-allocate count size g,
      )
  prepare_sized false size count pairs g = (
    laws.generate-AllSized size _ _ (laws.allocate-AllSized count size g),
    laws.length-generate _ _ ∙ laws.length-allocate count size g,
  )

empty-AllSized :
    {P : Type 0} (size_of : P → ℕ) (size : ℕ) (l : List P) → length l ≡ 0 → AllSized size_of size l
empty-AllSized size_of size [] e = tt
empty-AllSized size_of size (p ∷ l) e = absurd (omega (arith, e))

empty-AllPairsSized :
    {P : Type 0} (size_of : P → ℕ) (size : ℕ) (l : List (P × P))
    → length l ≡ 0
    → AllPairsSized size_of size l
empty-AllPairsSized size_of size [] e = tt
empty-AllPairsSized size_of size (p ∷ l) e = absurd (omega (arith, e))

-- When the queues are emptied, or hold what they should.
abbrev IsKept : Bool → ℕ → ℕ → ℕ → Type 0
IsKept empty stored size count = (empty ≡ true) ⊎ ((stored ≡ size) ⊎ (count ≡ 0))

kept-AllSized :
    {P : Type 0} (size_of : P → ℕ) (empty : Bool) (stored size : ℕ) (l : List P)
    → AllSized size_of stored l
    → IsKept empty stored size (length l)
    → AllSized size_of size (if empty then [] else l)
kept-AllSized size_of true stored size l a kept = tt
kept-AllSized size_of false stored size l a (inl e) = absurd cc
kept-AllSized size_of false stored size l a (inr (inl e)) = subst (λ s. AllSized size_of s l) e a
kept-AllSized size_of false stored size l a (inr (inr e)) = empty-AllSized size_of size l e

kept-AllPairsSized :
    {P : Type 0} (size_of : P → ℕ) (empty : Bool) (stored size : ℕ) (l : List (P × P))
    → AllPairsSized size_of stored l
    → IsKept empty stored size (length l)
    → AllPairsSized size_of size (if empty then [] else l)
kept-AllPairsSized size_of true stored size l a kept = tt
kept-AllPairsSized size_of false stored size l a (inl e) = absurd cc
kept-AllPairsSized size_of false stored size l a (inr (inl e)) =
    subst (λ s. AllPairsSized size_of s l) e a
kept-AllPairsSized size_of false stored size l a (inr (inr e)) =
    empty-AllPairsSized size_of size l e

empties :
    (stored size count_1 count_2 : ℕ)
    → let empty = (not (count_1 == 0) || not (count_2 == 0)) && not (stored == size) in
      IsKept empty stored size count_1 × IsKept empty stored size count_2
empties stored size count_1 count_2 = elim (Bool-cases (stored == size)) [
  | inl same ↦ (inr (inl (ground (arith, same))), inr (inl (ground (arith, same))))
  | inr other ↦ elim (Bool-cases (count_1 == 0)) [
    | inl none_1 ↦ elim (Bool-cases (count_2 == 0)) [
      | inl none_2 ↦ (inr (inr (ground (arith, none_1))), inr (inr (ground (arith, none_2))))
      | inr some_2 ↦ (inl (rw (other, some_2, none_1) refl), inl (rw (other, some_2, none_1) refl))
    ]
    | inr some_1 ↦ (inl (rw (other, some_1) refl), inl (rw (other, some_1) refl))
  ]
]

-- The queues are of the stored size, whatever was stored.
pub set_size-IsManager :
    {G P : Type 0} (gen : Generator G P) (size : ℕ) (m : Manager G P)
    → IsManager gen m
    → IsManager gen (set_size size m)
unfolding set_size
set_size-IsManager gen size m ok =
    let (kept_1, kept_2) = empties m.stored_size size (length m.queue) (length m.pair_queue) in
    record {
      queue-AllSized =
          kept-AllSized gen.size_of _ m.stored_size size m.queue ok.queue-AllSized kept_1;
      pair_queue-AllPairsSized =
          kept-AllPairsSized gen.size_of _ m.stored_size size m.pair_queue
            ok.pair_queue-AllPairsSized kept_2;
    }
