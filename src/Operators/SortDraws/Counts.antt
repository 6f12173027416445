-- ===== src/Operators/SortDraws/Counts.antt =====
-- How many calls of each kind the parts of a table sort make.
use crypt_dough.Base.{
  Bool-cases, inl, inr, ℕ, zero, suc, ◌+◌, ◌-◌, ◌*◌, ◌≡◌, ◌≤◌, ◌∙◌, refl, ap, arith, if◌then◌else◌,
  Bool, true, false, List, [], ◌∷◌, ◌++◌,
}
use crypt_dough.Random.PermutationManager.{Draw, single_draws, pair_draws}
use crypt_dough.Operators.TableSort.{Column, sort_bits, count_columns}
use crypt_dough.Operators.SortDraws.{
  count_single, apply_draws, radix_sort_draws, sort_permutation_draws,
}

single_draws-append : (a b : List Draw) → single_draws (a ++ b) ≡ single_draws a + single_draws b
single_draws-append [] b = omega arith
single_draws-append (Draw.single x ∷ a) b = omega (arith, single_draws-append a b)
single_draws-append (Draw.pair x y ∷ a) b = single_draws-append a b

pair_draws-append : (a b : List Draw) → pair_draws (a ++ b) ≡ pair_draws a + pair_draws b
pair_draws-append [] b = omega arith
pair_draws-append (Draw.single x ∷ a) b = pair_draws-append a b
pair_draws-append (Draw.pair x y ∷ a) b = omega (arith, pair_draws-append a b)

single_draws-apply :
    (arithmetic : Bool) (count : ℕ) → single_draws (apply_draws arithmetic count) ≡ 0
single_draws-apply arithmetic zero = refl
single_draws-apply arithmetic (suc count) = single_draws-apply arithmetic count

pair_draws-apply :
    (arithmetic : Bool) (count : ℕ) → pair_draws (apply_draws arithmetic count) ≡ count
pair_draws-apply arithmetic zero = refl
pair_draws-apply arithmetic (suc count) = ap suc (pair_draws-apply arithmetic count)

-- One conversion per sort, except of two parties.
abbrev pub conversions : Bool → ℕ → ℕ
conversions two_parties count = if two_parties then 0 else count

single_draws-radix_sort :
    (two_parties : Bool) (bits : ℕ)
    → single_draws (radix_sort_draws two_parties bits) ≡ conversions two_parties 1
unfolding radix_sort_draws
single_draws-radix_sort true bits = omega (
  arith,
  single_draws-append (apply_draws false bits) (Draw.pair true true ∷ []),
  single_draws-apply false bits,
)
single_draws-radix_sort false bits = omega (
  arith,
  single_draws-append (apply_draws false bits) (Draw.single false ∷ Draw.pair true true ∷ []),
  single_draws-apply false bits,
)

pair_draws-radix_sort :
    (two_parties : Bool) (bits : ℕ) → pair_draws (radix_sort_draws two_parties bits) ≡ suc bits
unfolding radix_sort_draws
pair_draws-radix_sort true bits = omega (
  arith,
  pair_draws-append (apply_draws false bits) (Draw.pair true true ∷ []),
  pair_draws-apply false bits,
)
pair_draws-radix_sort false bits = omega (
  arith,
  pair_draws-append (apply_draws false bits) (Draw.single false ∷ Draw.pair true true ∷ []),
  pair_draws-apply false bits,
)

-- The bits of all sorting columns.
abbrev all_bits : ℕ → List Column → ℕ
all_bits w [] = 0
all_bits w (c ∷ columns) = sort_bits w c.single_bit + all_bits w columns

one_wide : (k w : ℕ) → w + k * w ≡ suc k * w
one_wide k w = grind arith

next_wide :
    (columns singles w bits : ℕ)
    → singles ≤ columns
    → bits ≡ singles + (columns - singles) * w
    → w + bits ≡ singles + (suc columns - singles) * w
next_wide columns singles w bits h e =
    let k : suc columns - singles ≡ suc (columns - singles) = omega arith in
    rw k (omega (arith, e, one_wide (columns - singles) w))

next_narrow :
    (columns singles w bits : ℕ)
    → bits ≡ singles + (columns - singles) * w
    → 1 + bits ≡ suc singles + (suc columns - suc singles) * w
next_narrow columns singles w bits e =
    let k : suc columns - suc singles ≡ columns - singles = omega arith in rw k (omega (arith, e))

pub all_bits-columns :
    (w : ℕ) (columns : List Column)
    → (all_bits w columns
        ≡ count_single columns + (count_columns columns - count_single columns) * w)
      × (count_single columns ≤ count_columns columns)
all_bits-columns w [] = (omega arith, omega arith)
all_bits-columns w (c ∷ columns) =
    let (e, h) = all_bits-columns w columns in
    elim (Bool-cases c.single_bit) [
      | inl narrow ↦
          rw narrow
            (next_narrow (count_columns columns) (count_single columns) w _ e, omega (arith, h))
      | inr wide ↦
          rw wide
            (next_wide (count_columns columns) (count_single columns) w _ h e, omega (arith, h))
    ]

conversions_next :
    (two_parties : Bool) (count : ℕ)
    → conversions two_parties (suc count)
      ≡ conversions two_parties count + conversions two_parties 1
conversions_next true count = refl
conversions_next false count = omega arith

pub single_draws-sort_permutation :
    (two_parties : Bool) (w : ℕ) (c : Column) (columns : List Column)
    → single_draws (sort_permutation_draws two_parties w c columns)
      ≡ count_columns columns + conversions two_parties (count_columns (c ∷ columns))
unfolding sort_permutation_draws
single_draws-sort_permutation two_parties w c [] =
    single_draws-radix_sort two_parties (sort_bits w c.single_bit) ∙ omega arith
single_draws-sort_permutation two_parties w c (next ∷ columns) =
    let sort = radix_sort_draws two_parties (sort_bits w c.single_bit) in
    let rest = sort_permutation_draws two_parties w next columns in
    omega (
      arith,
      single_draws-append rest (Draw.pair false true ∷ (sort ++ (Draw.single true ∷ []))),
      single_draws-append sort (Draw.single true ∷ []),
      single_draws-radix_sort two_parties (sort_bits w c.single_bit),
      single_draws-sort_permutation two_parties w next columns,
      conversions_next two_parties (suc (count_columns columns)),
    )

pub pair_draws-sort_permutation :
    (two_parties : Bool) (w : ℕ) (c : Column) (columns : List Column)
    → pair_draws (sort_permutation_draws two_parties w c columns)
      ≡ count_columns columns + (suc (count_columns columns) + all_bits w (c ∷ columns))
unfolding sort_permutation_draws
pair_draws-sort_permutation two_parties w c [] =
    pair_draws-radix_sort two_parties (sort_bits w c.single_bit) ∙ omega arith
pair_draws-sort_permutation two_parties w c (next ∷ columns) =
    let sort = radix_sort_draws two_parties (sort_bits w c.single_bit) in
    let rest = sort_permutation_draws two_parties w next columns in
    omega (
      arith,
      pair_draws-append rest (Draw.pair false true ∷ (sort ++ (Draw.single true ∷ []))),
      pair_draws-append sort (Draw.single true ∷ []),
      pair_draws-radix_sort two_parties (sort_bits w c.single_bit),
      pair_draws-sort_permutation two_parties w next columns,
    )

-- What is applied at the end of a sort.
pub single_draws-applied :
    (keys data_a data_b : ℕ) (rest : List Draw)
    → single_draws
        (rest ++ (apply_draws false keys ++ (apply_draws true data_a ++ apply_draws false data_b)))
      ≡ single_draws rest
single_draws-applied keys data_a data_b rest = omega (
  arith,
  single_draws-append rest
      (apply_draws false keys ++ (apply_draws true data_a ++ apply_draws false data_b)),
  single_draws-append (apply_draws false keys)
      (apply_draws true data_a ++ apply_draws false data_b),
  single_draws-append (apply_draws true data_a) (apply_draws false data_b),
  single_draws-apply false keys,
  single_draws-apply true data_a,
  single_draws-apply false data_b,
)

pub pair_draws-applied :
    (keys data_a data_b : ℕ) (rest : List Draw)
    → pair_draws
        (rest ++ (apply_draws false keys ++ (apply_draws true data_a ++ apply_draws false data_b)))
      ≡ pair_draws rest + (keys + (data_a + data_b))
pair_draws-applied keys data_a data_b rest = omega (
  arith,
  pair_draws-append rest
      (apply_draws false keys ++ (apply_draws true data_a ++ apply_draws false data_b)),
  pair_draws-append (apply_draws false keys) (apply_draws true data_a ++ apply_draws false data_b),
  pair_draws-append (apply_draws true data_a) (apply_draws false data_b),
  pair_draws-apply false keys,
  pair_draws-apply true data_a,
  pair_draws-apply false data_b,
)
