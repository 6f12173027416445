-- ===== src/Operators/TableSort.antt =====
-- Sorting the rows of a table by several columns (`table_sort` of
-- include/core/operators/sorting.h), on the values that are shared. The sort of one column is an
-- interface, which `radix_sort` and `quicksort` implement in the code.
pub mod Laws
use crypt_dough.Base.{ℕ, zero, suc, ◌+◌, ◌<◌, ◌==◌, if◌then◌else◌, Bool, false, List, [], ◌∷◌}
use crypt_dough.Circuits.Bits.{Bits}
use crypt_dough.Random.Permutation.Laws.{IsPermutation}
use crypt_dough.Operators.Shuffle.{oblivious_apply_elementwise_perm, compose_permutations}
use crypt_dough.Operators.PaddedSort.{radix_sort}
use crypt_dough.Operators.PaddedSort.Laws.{Precedes}

-- A column to sort by, with its order, and whether its cells have one bit.
pub record Column : Type 0 where
  pub cells : ℕ → Bits
  pub descending : Bool
  pub single_bit : Bool

-- Single-bit columns are sorted on one bit.
abbrev pub sort_bits : ℕ → Bool → ℕ
sort_bits w single_bit = if single_bit then 1 else w

-- The sort of one column: at each call, for each order, the permutation that sorts the cells.
abbrev pub SortSub : Type 0
SortSub = ℕ → Bool → Bool → (ℕ → Bits) → ℕ → ℕ

abbrev pub all_cells : List Column → List (ℕ → Bits)
all_cells [] = []
all_cells (c ∷ columns) = c.cells ∷ all_cells columns

abbrev pub count_columns : List Column → ℕ
count_columns [] = 0
count_columns (c ∷ columns) = suc (count_columns columns)

-- What the sort of one column promises: a permutation, in the stable order of the sort.
pub record IsStableSort (w n : ℕ) (sort_sub : SortSub) : Type 0 where
  pub places :
      (call : ℕ) (descending single_bit : Bool) (v : ℕ → Bits)
      → IsPermutation n (sort_sub call descending single_bit v)
  pub orders :
      (call : ℕ) (descending single_bit : Bool) (v : ℕ → Bits) (p q : ℕ)
      → p < n
      → q < n
      → Precedes descending (sort_bits w single_bit) (w == sort_bits w single_bit) v p q
      → sort_sub call descending single_bit v p < sort_sub call descending single_bit v q

-- The call of `radix_sort`; `pi call` are the random permutations of a call.
unfoldable pub radix_sort_sub : ℕ → ℕ → ℕ → ℕ → (ℕ → Bits) → (ℕ → ℕ) → (ℕ → ℕ → ℕ → ℕ) → SortSub
unfolding radix_sort
radix_sort_sub pad w wide n buffer int_buffer pi call descending single_bit v =
    (radix_sort pad w wide n buffer int_buffer (pi call) (sort_bits w single_bit) descending false
      v).1

module _ (n : ℕ) (buffer : ℕ → Bits) (int_buffer : ℕ → ℕ) (pi rho : ℕ → ℕ → ℕ)
    (sort_sub : SortSub) where
  -- The sorting permutation: the last column first, each earlier one after it is moved by the
  -- permutation so far. The columns themselves are restored.
  unfoldable pub sort_permutation : Column → List Column → ℕ → ℕ
  unfolding oblivious_apply_elementwise_perm compose_permutations
  sort_permutation c [] = sort_sub 0 c.descending c.single_bit c.cells
  sort_permutation c (next ∷ columns) =
      let call = suc (count_columns columns) in
      let total = sort_permutation next columns in
      let moved = oblivious_apply_elementwise_perm n buffer int_buffer (pi call) c.cells total in
      compose_permutations n int_buffer (rho call) total
        (sort_sub call c.descending c.single_bit moved)

  -- The permutation is applied to every column, each under its own mask.
  unfoldable pub apply_to_all : (ℕ → ℕ) → ℕ → List (ℕ → Bits) → List (ℕ → Bits)
  unfolding oblivious_apply_elementwise_perm
  apply_to_all sigma call [] = []
  apply_to_all sigma call (x ∷ xs) =
      oblivious_apply_elementwise_perm n buffer int_buffer (pi call) x sigma
      ∷ apply_to_all sigma (suc call) xs

  -- The sorting columns and the data columns, sorted.
  unfoldable pub table_sort :
      Column → List Column → List (ℕ → Bits) → List (ℕ → Bits) × List (ℕ → Bits)
  unfolding sort_permutation apply_to_all
  table_sort c columns data_columns =
      let sigma = sort_permutation c columns in
      let call = suc (count_columns columns) in
      (
        apply_to_all sigma call (all_cells (c ∷ columns)),
        apply_to_all sigma (call + call) data_columns,
      )
