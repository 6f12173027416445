-- ===== src/Tests/PermutationTests.antt =====
-- Runs of the permutation manager, with permutations that are only their sizes and a generator
-- that counts what it has made.
use crypt_dough.Base.{ℕ, zero, suc, ◌+◌, ◌≡◌, ap, refl, Bool, true, false, some, List, [], ◌∷◌}
use crypt_dough.Random.PermutationManager.{
  Generator, Manager, get_next, reserve, Draw, single_draws, pair_draws, run_draws,
}
use crypt_dough.Random.PermutationManager.Sizes.{AllSized, IsGenerator, IsManager}
use crypt_dough.Random.PermutationManager.Laws.{get_next-IsManager}
use crypt_dough.Random.Pool.{length}
use crypt_dough.Operators.TableSort.{Column}
use crypt_dough.Operators.SortDraws.{SortingProtocol, get_perm_counts, table_sort_draws}
use crypt_dough.Operators.SortDraws.Laws.{get_perm_counts-run_draws}

abbrev copies : ℕ → ℕ → List ℕ
copies zero size = []
copies (suc count) size = size ∷ copies count size

length-copies : (count size : ℕ) → length (copies count size) ≡ count
length-copies zero size = refl
length-copies (suc count) size = ap suc (length-copies count size)

copies-AllSized : (count size : ℕ) → AllSized (λ p. p) size (copies count size)
copies-AllSized zero size = tt
copies-AllSized (suc count) size = (refl, copies-AllSized count size)

abbrev sizes : Generator ℕ ℕ
sizes = record {
  size_of = λ p. p;
  allocate = λ count size g. (copies count size, g + count);
  setup_dm_pair = λ p q g. ((p, q), g);
  generate_permutations = λ l g. (l, g);
  generate_next = λ size g. (size, g + 1);
  convert = λ arithmetic p. p;
}

sizes-IsGenerator : IsGenerator sizes
sizes-IsGenerator = record {
  length-allocate = λ count size g. length-copies count size;
  allocate-AllSized = λ count size g. copies-AllSized count size;
  setup-sizes = λ p q g. (refl, refl);
  length-generate = λ l g. refl;
  generate-AllSized = λ size l g a. a;
  generate_next-size = λ size g. refl;
  convert-size = λ arithmetic p. refl;
}

abbrev stored : Manager ℕ ℕ
stored = record { queue = 8 ∷ 8 ∷ []; pair_queue = (8, 8) ∷ []; stored_size = 8; generator = 0 }

stored-IsManager : IsManager sizes stored
stored-IsManager = record {
  queue-AllSized = (refl, (refl, tt));
  pair_queue-AllPairsSized = (refl, refl, tt);
}

-- Another size than the stored one is asked for.
get_next-IsManager_example :
    (p : ℕ) × (m' : Manager ℕ ℕ) × (get_next sizes true true 4 stored ≡ some (p, m'))
    × (p ≡ 4)
    × IsManager sizes m'
get_next-IsManager_example =
    get_next-IsManager sizes sizes-IsGenerator true true 4 stored stored-IsManager

abbrev key : Bool → Column
key single_bit = record { cells = λ k i. false; descending = false; single_bit = single_bit }

abbrev counts : Bool → ℕ × ℕ
counts two_parties =
    get_perm_counts two_parties SortingProtocol.radixsort 8 (key false ∷ key true ∷ []) 3

abbrev draws : List Draw
draws = table_sort_draws false 8 (key false) (key true ∷ []) 1 2

get_perm_counts-run_draws_example :
    (single_draws draws ≡ (counts false).0)
    × (pair_draws draws ≡ (counts false).1)
    × (m' : Manager ℕ ℕ) × (run_draws sizes false 8 draws
          (reserve sizes false 8 (counts false).0 (counts false).1 stored)
        ≡ some m')
    × IsManager sizes m'
    × (m'.generator ≡ (reserve sizes false 8 (counts false).0 (counts false).1 stored).generator)
get_perm_counts-run_draws_example =
    get_perm_counts-run_draws sizes sizes-IsGenerator false 8 8 (key false) (key true ∷ []) 1 2
      stored stored-IsManager

-- Two sorting columns, of which one has a single bit, and three data columns, of eight-bit cells.
counts_beaver : counts true ≡ (1, 17)
unfolding get_perm_counts
counts_beaver = refl
