-- ===== src/Operators/SortDraws.antt =====
-- How many random permutations the sort of a table asks for (`get_perm_counts` of
-- include/core/operators/sorting.h), and the calls that it makes of the permutation manager with
-- radix sort, in their order. The reservation that `radix_sort_body` makes itself is left out.
pub mod Counts
pub mod Laws
use crypt_dough.Base.{
  ℕ, zero, suc, ◌+◌, ◌-◌, ◌*◌, if◌then◌else◌, Bool, true, false, List, [], ◌∷◌, ◌++◌,
}
use crypt_dough.Random.PermutationManager.{Draw}
use crypt_dough.Operators.TableSort.{Column, sort_bits, count_columns}

pub data SortingProtocol : Type 0 where
  quicksort : SortingProtocol
  radixsort : SortingProtocol

-- `std::count` of the single-bit columns.
abbrev pub count_single : List Column → ℕ
count_single [] = 0
count_single (c ∷ columns) =
    if c.single_bit then suc (count_single columns) else count_single columns

-- What a protocol asks for beyond the rest.
abbrev pub extra_perms : SortingProtocol → ℕ → ℕ
extra_perms SortingProtocol.quicksort nk = nk
extra_perms SortingProtocol.radixsort nk = 0

abbrev pub extra_pairs : SortingProtocol → ℕ → ℕ → ℕ
extra_pairs SortingProtocol.quicksort nk l = 0
extra_pairs SortingProtocol.radixsort nk l = nk * l

-- `l` is the width of a cell, `nc` the number of data columns.
unfoldable pub get_perm_counts : Bool → SortingProtocol → ℕ → List Column → ℕ → ℕ × ℕ
get_perm_counts two_parties protocol l columns nc =
    let ns = count_single columns in
    let nk = count_columns columns - ns in
    let perms_required = nk + ns - 1 + extra_perms protocol nk in
    let pairs_required = 4 * ns + 3 * nk + nc - 1 + extra_pairs protocol nk l in
    (if two_parties then perms_required else perms_required + (nk + ns), pairs_required)

-- A call for a pair, to move a vector by an arithmetic permutation, that many times.
abbrev pub apply_draws : Bool → ℕ → List Draw
apply_draws arithmetic zero = []
apply_draws arithmetic (suc count) = Draw.pair arithmetic true ∷ apply_draws arithmetic count

-- One radix sort: a pair for every bit, a permutation for the conversion if there are more than
-- two parties, and a pair for the inversion.
unfoldable pub radix_sort_draws : Bool → ℕ → List Draw
radix_sort_draws two_parties bits =
    apply_draws false bits
    ++ ((if two_parties then [] else Draw.single false ∷ []) ++ (Draw.pair true true ∷ []))

unfoldable pub sort_permutation_draws : Bool → ℕ → Column → List Column → List Draw
unfolding radix_sort_draws
sort_permutation_draws two_parties w c [] = radix_sort_draws two_parties (sort_bits w c.single_bit)
sort_permutation_draws two_parties w c (next ∷ columns) =
    sort_permutation_draws two_parties w next columns
    ++ (apply_draws false 1
        ++ (radix_sort_draws two_parties (sort_bits w c.single_bit) ++ (Draw.single true ∷ [])))

-- The whole sort, with so many arithmetic and boolean data columns.
unfoldable pub table_sort_draws : Bool → ℕ → Column → List Column → ℕ → ℕ → List Draw
unfolding sort_permutation_draws
table_sort_draws two_parties w c columns data_a data_b =
    sort_permutation_draws two_parties w c columns
    ++ (apply_draws false (count_columns (c ∷ columns))
        ++ (apply_draws true data_a ++ apply_draws false data_b))
