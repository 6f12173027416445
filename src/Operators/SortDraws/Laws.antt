-- ===== src/Operators/SortDraws/Laws.antt =====
-- About the random permutations of include/core/operators/sorting.h.
use crypt_dough.Base.{
  ℕ, suc, ◌+◌, ◌-◌, ◌≡◌, ◌≤◌, ◌∙◌, arith, if◌then◌else◌, Bool, true, false, some, List, ◌∷◌,
}
use crypt_dough.Random.PermutationManager.{
  Generator, Manager, reserve, single_draws, pair_draws, run_draws,
}
use crypt_dough.Random.PermutationManager.Sizes.{IsGenerator, IsManager}
use crypt_dough.Random.PermutationManager.Draws.{run_draws-reserve}
use crypt_dough.Operators.TableSort.{Column, count_columns}
use crypt_dough.Operators.SortDraws.{
  SortingProtocol, count_single, get_perm_counts, sort_permutation_draws, table_sort_draws,
}
use crypt_dough.Operators.SortDraws.Counts.{
  conversions, all_bits-columns, single_draws-sort_permutation, pair_draws-sort_permutation,
  single_draws-applied, pair_draws-applied,
}

single_total :
    (two_parties : Bool) (columns singles : ℕ)
    → singles ≤ suc columns
    → columns + conversions two_parties (suc columns) ≡ (
        let nk = suc columns - singles in
        if two_parties then nk + singles - 1 + 0 else nk + singles - 1 + 0 + (nk + singles))
single_total true columns singles h = omega arith
single_total false columns singles h = omega arith

-- Radix sort of a table by one or more columns makes exactly as many calls for single permutations
-- and for pairs as `get_perm_counts` says.
table_sort_draws-get_perm_counts :
    (two_parties : Bool) (w : ℕ) (c : Column) (columns : List Column) (data_a data_b : ℕ)
    → let draws = table_sort_draws two_parties w c columns data_a data_b in
      let counts =
        get_perm_counts two_parties SortingProtocol.radixsort w (c ∷ columns) (data_a + data_b) in
      (single_draws draws ≡ counts.0) × (pair_draws draws ≡ counts.1)
unfolding table_sort_draws get_perm_counts
table_sort_draws-get_perm_counts two_parties w c columns data_a data_b =
    let keys = count_columns (c ∷ columns) in
    let rest = sort_permutation_draws two_parties w c columns in
    let (bits, singles) = all_bits-columns w (c ∷ columns) in
    (
      single_draws-applied keys data_a data_b rest
          ∙ single_draws-sort_permutation two_parties w c columns
          ∙ single_total two_parties (count_columns columns) (count_single (c ∷ columns)) singles,
      omega (
        arith,
        pair_draws-applied keys data_a data_b rest,
        pair_draws-sort_permutation two_parties w c columns,
        bits,
        singles,
      ),
    )

-- Radix sort of a table by one or more columns, after the reservation that `get_perm_counts` names,
-- on queues in which everything has the stored size: all its calls for random permutations are
-- served without the generator, and they are exactly as many as were reserved, of each kind.
pub get_perm_counts-run_draws :
    {G P : Type 0} (gen : Generator G P)
    → IsGenerator gen
    → (two_parties : Bool) (w size : ℕ) (c : Column) (columns : List Column) (data_a data_b : ℕ)
      (m : Manager G P)
    → IsManager gen m
    → let draws = table_sort_draws two_parties w c columns data_a data_b in
      let counts =
        get_perm_counts two_parties SortingProtocol.radixsort w (c ∷ columns) (data_a + data_b) in
      let m1 = reserve gen two_parties size counts.0 counts.1 m in
      (single_draws draws ≡ counts.0)
      × (pair_draws draws ≡ counts.1)
      × (m' : Manager G P) × (run_draws gen two_parties size draws m1 ≡ some m')
      × IsManager gen m'
      × (m'.generator ≡ m1.generator)
get_perm_counts-run_draws gen laws two_parties w size c columns data_a data_b m ok =
    let (singles, pairs) = table_sort_draws-get_perm_counts two_parties w c columns data_a data_b in
    let (m', runs, ok', same) =
      run_draws-reserve gen laws two_parties size _ _
        (table_sort_draws two_parties w c columns data_a data_b) m ok (omega (arith, singles))
        (omega (arith, pairs)) in
    (singles, pairs, m', runs, ok', same)
