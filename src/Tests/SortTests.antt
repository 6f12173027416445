-- ===== src/Tests/SortTests.antt =====
-- Runs of the permutations and of the radix sort, on eight-bit cells and five rows.
use crypt_dough.Base.{
  ℕ, ◌==◌, ◌+◌, ◌*◌, ◌%◌, ◌≡◌, ◌<◌, ◌≤◌, refl, arith, Bool, true, false, List, [], ◌∷◌,
}
use crypt_dough.Circuits.Bits.{Bits, value}
use crypt_dough.Random.Permutation.Laws.{IsPermutation}
use crypt_dough.Operators.Shuffle.{oblivious_apply_elementwise_perm, compose_permutations, invert}
use crypt_dough.Operators.Shuffle.Laws.{apply-compose_permutations, apply-invert}
use crypt_dough.Operators.RadixSort.{radix_sort_ccs}
use crypt_dough.Operators.RadixSort.Passes.{key, IsSortedBy}
use crypt_dough.Operators.RadixSort.Laws.{radix_sort_ccs-IsSortedBy}
use crypt_dough.Operators.PaddedSort.{bits_of, radix_sort}
use crypt_dough.Operators.PaddedSort.Laws.{Sorts, radix_sort-Sorts}
use crypt_dough.Operators.TableSort.{
  Column, SortSub, IsStableSort, radix_sort_sub, all_cells, table_sort,
}
use crypt_dough.Operators.TableSort.Laws.{
  RowPrecedes, AllMoved, table_sort-sorts, radix_sort_sub-IsStableSort,
}

abbrev turn : ℕ → ℕ
turn k = (k + 2) % 5

turn-IsPermutation : IsPermutation 5 turn
turn-IsPermutation = record {
  inverse = λ k. (k + 3) % 5;
  entry-lt = λ k h. omega arith;
  inverse-lt = λ k h. omega arith;
  inverse-entry = λ k h. omega arith;
  entry-inverse = λ k h. omega arith;
}

abbrev double : ℕ → ℕ
double k = k * 2 % 5

double-IsPermutation : IsPermutation 5 double
double-IsPermutation = record {
  inverse = λ k. k * 3 % 5;
  entry-lt = λ k h. omega arith;
  inverse-lt = λ k h. omega arith;
  inverse-entry = λ k h. omega arith;
  entry-inverse = λ k h. omega arith;
}

abbrev stale : ℕ → ℕ
stale k = 7

abbrev stale_cells : ℕ → Bits
stale_cells k i = true

abbrev numbers : ℕ → ℕ
numbers k = (k * 77 + 200) % 256

abbrev cells : ℕ → Bits
cells k = bits_of (numbers k)

abbrev choose : Bool → ℕ → ℕ
choose true = turn
choose false = double

choose-IsPermutation : (b : Bool) → IsPermutation 5 (choose b)
choose-IsPermutation true = turn-IsPermutation
choose-IsPermutation false = double-IsPermutation

abbrev draws : ℕ → ℕ → ℕ
draws i = choose (i % 2 == 0)

draws-IsPermutation : (i : ℕ) → IsPermutation 5 (draws i)
draws-IsPermutation i = choose-IsPermutation (i % 2 == 0)

apply-compose_permutations_example :
    oblivious_apply_elementwise_perm 5 stale stale double
      (oblivious_apply_elementwise_perm 5 stale stale turn numbers turn)
      double
      3
    ≡ oblivious_apply_elementwise_perm 5 stale stale turn numbers
        (compose_permutations 5 stale double turn double)
        3
apply-compose_permutations_example =
    apply-compose_permutations stale stale turn-IsPermutation double-IsPermutation
      double-IsPermutation turn-IsPermutation double-IsPermutation numbers 3 (omega arith)

apply-invert_example :
    oblivious_apply_elementwise_perm 5 stale stale double
      (oblivious_apply_elementwise_perm 5 stale stale turn numbers double)
      (invert 5 stale turn double)
      3
    ≡ numbers 3
apply-invert_example =
    apply-invert stale stale turn-IsPermutation double-IsPermutation turn-IsPermutation
      double-IsPermutation turn-IsPermutation numbers 3 (omega arith)

radix_sort_ccs-IsSortedBy_example :
    (v' : ℕ → Bits) × (sigma : ℕ → ℕ) × (radix_sort_ccs 255 8 5 8 true stale_cells stale draws draws
        cells
      ≡ (v', sigma))
    × IsSortedBy 5 8 true 8 cells v' sigma
    × ((j k : ℕ) → j < k → k < 5 → key 8 true 8 (v' j) ≤ key 8 true 8 (v' k))
radix_sort_ccs-IsSortedBy_example =
    radix_sort_ccs-IsSortedBy 255 8 5 8 true stale_cells stale draws draws cells (omega arith)
      (omega arith) (λ i h. draws-IsPermutation i) (λ i h. draws-IsPermutation i)

radix_sort-Sorts_example :
    (sigma : ℕ → ℕ) × Sorts 8 5 8 true cells
      ((radix_sort 4 8 12 5 stale_cells stale draws 8 true false cells).0)
      sigma
    × ((k : ℕ)
        → k < 5
        → (radix_sort 4 8 12 5 stale_cells stale draws 8 true false cells).1 k ≡ sigma k)
radix_sort-Sorts_example =
    radix_sort-Sorts 4 8 12 5 (omega arith) 8 (omega arith) (omega arith) (omega arith) stale_cells
      stale draws draws-IsPermutation true false cells

abbrev small : Column
small = record { cells = λ k. bits_of (k % 2); descending = true; single_bit = true }

abbrev large : Column
large = record { cells = cells; descending = false; single_bit = false }

abbrev sort_sub : SortSub
sort_sub = radix_sort_sub 4 8 12 5 stale_cells stale (λ call. draws)

sort_sub-IsStableSort : IsStableSort 8 5 sort_sub
sort_sub-IsStableSort =
    radix_sort_sub-IsStableSort 4 8 12 5 stale_cells stale (λ call. draws) (omega arith)
      (omega arith) (omega arith) (λ call. draws-IsPermutation)

radix_sort_sub-IsStableSort_example :
    IsStableSort 8 5 (radix_sort_sub 4 8 12 5 stale_cells stale (λ call. draws))
radix_sort_sub-IsStableSort_example =
    radix_sort_sub-IsStableSort 4 8 12 5 stale_cells stale (λ call. draws) (omega arith)
      (omega arith) (omega arith) (λ call. draws-IsPermutation)

table_sort-sorts_example :
    (keys' : List (ℕ → Bits)) × (data' : List (ℕ → Bits)) × (sigma : ℕ → ℕ) × (table_sort 5
        stale_cells stale draws draws sort_sub small
        (large ∷ [])
        (cells ∷ [])
      ≡ (keys', data'))
    × IsPermutation 5 sigma
    × AllMoved 5 sigma (all_cells (small ∷ large ∷ [])) keys'
    × AllMoved 5 sigma (cells ∷ []) data'
    × ((p q : ℕ) → p < 5 → q < 5 → RowPrecedes 8 (small ∷ large ∷ []) p q → sigma p < sigma q)
table_sort-sorts_example =
    table_sort-sorts 8 5 stale_cells stale draws draws sort_sub sort_sub-IsStableSort
      draws-IsPermutation draws-IsPermutation small (large ∷ []) (cells ∷ [])

-- 200, 21, 98, 175 and 252, as signed bytes: -56, 21, 98, -81 and -4.
sorted_numbers : ℕ → ℕ
unfolding radix_sort
sorted_numbers k = value 8 ((radix_sort 4 8 12 5 stale_cells stale draws 8 false false cells).0 k)

sorted_first : sorted_numbers 0 ≡ 175
unfolding sorted_numbers
sorted_first = refl
