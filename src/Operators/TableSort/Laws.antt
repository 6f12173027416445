-- ===== src/Operators/TableSort/Laws.antt =====
-- About sorting a table.
use crypt_dough.Base.{
  ℕ, suc, ◌+◌, ◌^◌, ◌≡◌, ◌<◌, ◌≤◌, ◌⊎◌, inl, inr, refl, sym, ap, arith, ◌==◌, if◌then◌else◌, Bool,
  true, false, List, [], ◌∷◌,
}
use crypt_dough.Circuits.Bits.{Bits}
use crypt_dough.Random.Permutation.Laws.{IsPermutation}
use crypt_dough.Operators.Shuffle.{oblivious_apply_elementwise_perm}
use crypt_dough.Operators.Shuffle.Laws.{
  IsPermutation_ext, composed-IsPermutation, elementwise_perm-entry, compose_permutations-entry,
}
use crypt_dough.Operators.RadixSort.Passes.{key}
use crypt_dough.Operators.PaddedSort.Laws.{radix_sort-Sorts}
use crypt_dough.Operators.TableSort.{
  Column, SortSub, IsStableSort, sort_bits, radix_sort_sub, all_cells, count_columns,
  sort_permutation, apply_to_all, table_sort,
}

-- The key of a cell in a column.
abbrev pub column_key : ℕ → Column → Bits → ℕ
column_key w c x =
    key (sort_bits w c.single_bit) (w == sort_bits w c.single_bit) (sort_bits w c.single_bit) x

-- Row `p` belongs before row `q`: by the first column in which their keys differ, or else as they
-- stood.
abbrev pub RowPrecedes : ℕ → List Column → ℕ → ℕ → Type 0
RowPrecedes w [] p q = p < q
RowPrecedes w (c ∷ columns) p q =
    (if c.descending
      then column_key w c (c.cells q) < column_key w c (c.cells p)
      else column_key w c (c.cells p) < column_key w c (c.cells q))
    ⊎ ((column_key w c (c.cells p) ≡ column_key w c (c.cells q)) × RowPrecedes w columns p q)

-- Every column `x` became a column `y` with its rows moved by the permutation.
abbrev pub AllMoved : ℕ → (ℕ → ℕ) → List (ℕ → Bits) → List (ℕ → Bits) → Type 0
AllMoved n sigma [] [] = Unit {0}
AllMoved n sigma [] (y ∷ ys) = ⊥
AllMoved n sigma (x ∷ xs) [] = ⊥
AllMoved n sigma (x ∷ xs) (y ∷ ys) = ((k : ℕ) → k < n → y (sigma k) ≡ x k) × AllMoved n sigma xs ys

some_bit : (w : ℕ) (single_bit : Bool) → 0 < w → 0 < sort_bits w single_bit
some_bit w single_bit h = ground arith

narrow_bits : (w : ℕ) (single_bit : Bool) → 0 < w → sort_bits w single_bit ≤ w
narrow_bits w single_bit h = ground arith

-- Equal keys, and an order of the rest that is carried over.
same_keys :
    {a b c d s t : ℕ} {R : Type 0} (descending : Bool)
    → c ≡ a
    → d ≡ b
    → (R → s < t)
    → (if descending then b < a else a < b) ⊎ ((a ≡ b) × R)
    → (if descending then d < c else c < d) ⊎ ((c ≡ d) × (s < t))
same_keys true e f carry (inl h) = inl (omega arith)
same_keys false e f carry (inl h) = inl (omega arith)
same_keys descending e f carry (inr h) = inr (omega (arith, h.0), carry h.1)

module _ (w n : ℕ) (buffer : ℕ → Bits) (int_buffer : ℕ → ℕ) (pi rho : ℕ → ℕ → ℕ)
    (sort_sub : SortSub) (sorting : IsStableSort w n sort_sub)
    (masks : (call : ℕ) → IsPermutation n (pi call))
    (masks' : (call : ℕ) → IsPermutation n (rho call)) where
  sort_permutation-sorts :
      (c : Column) (columns : List Column)
      → IsPermutation n (sort_permutation n buffer int_buffer pi rho sort_sub c columns)
        × ((p q : ℕ)
            → p < n
            → q < n
            → RowPrecedes w (c ∷ columns) p q
            → sort_permutation n buffer int_buffer pi rho sort_sub c columns p
              < sort_permutation n buffer int_buffer pi rho sort_sub c columns q)
  unfolding sort_permutation
  sort_permutation-sorts c [] = (
    sorting.places 0 c.descending c.single_bit c.cells,
    sorting.orders 0 c.descending c.single_bit c.cells,
  )
  sort_permutation-sorts c (next ∷ columns) =
      let (places, ordered) = sort_permutation-sorts next columns in
      let call = suc (count_columns columns) in
      let total = sort_permutation n buffer int_buffer pi rho sort_sub next columns in
      let moved = oblivious_apply_elementwise_perm n buffer int_buffer (pi call) c.cells total in
      let at : (k : ℕ) → k < n → moved (total k) ≡ c.cells k =
        elementwise_perm-entry buffer int_buffer c.cells (masks call) places in
      let tau = sort_sub call c.descending c.single_bit moved in
      let both = compose_permutations-entry int_buffer (masks' call) tau places in
      (
        IsPermutation_ext (λ k. tau (total k)) _ (λ k h. sym (both k h))
            (composed-IsPermutation places (sorting.places call c.descending c.single_bit moved)),
        λ p q hp hq h.
            let less =
              sorting.orders call c.descending c.single_bit moved (total p) (total q)
                (places.entry-lt p hp) (places.entry-lt q hq)
                (same_keys c.descending (ap (column_key w c) (at p hp))
                  (ap (column_key w c) (at q hq)) (ordered p q hp hq) h) in
            omega (arith, less, both p hp, both q hq),
      )

  apply_to_all-AllMoved :
      (sigma : ℕ → ℕ) (call : ℕ) (xs : List (ℕ → Bits))
      → IsPermutation n sigma
      → AllMoved n sigma xs (apply_to_all n buffer int_buffer pi rho sort_sub sigma call xs)
  unfolding apply_to_all
  apply_to_all-AllMoved sigma call [] places = tt
  apply_to_all-AllMoved sigma call (x ∷ xs) places = (
    elementwise_perm-entry buffer int_buffer x (masks call) places,
    apply_to_all-AllMoved sigma (suc call) xs places,
  )

  -- A table is sorted by some columns with a stable sort of single columns and whatever random
  -- permutations: one permutation moves the rows of all sorting columns and of all data columns, and
  -- a row that belongs before another by the first column in which their keys differ, or by where
  -- it stood, ends before it.
  pub table_sort-sorts :
      (c : Column) (columns : List Column) (data_columns : List (ℕ → Bits))
      → (keys' : List (ℕ → Bits)) × (data' : List (ℕ → Bits)) × (sigma : ℕ → ℕ) × (table_sort n
            buffer int_buffer pi rho sort_sub c columns data_columns
          ≡ (keys', data'))
        × IsPermutation n sigma
        × AllMoved n sigma (all_cells (c ∷ columns)) keys'
        × AllMoved n sigma data_columns data'
        × ((p q : ℕ) → p < n → q < n → RowPrecedes w (c ∷ columns) p q → sigma p < sigma q)
  unfolding table_sort
  table_sort-sorts c columns data_columns =
      let (places, ordered) = sort_permutation-sorts c columns in
      let sigma = sort_permutation n buffer int_buffer pi rho sort_sub c columns in
      (
        _,
        _,
        sigma,
        refl,
        places,
        apply_to_all-AllMoved sigma (suc (count_columns columns)) (all_cells (c ∷ columns)) places,
        apply_to_all-AllMoved sigma _ data_columns places,
        ordered,
      )

-- Radix sort of columns of at least one bit keeps what the sort of a table asks of the sort of one
-- column, for every call, order and kind of column: if the indices of the rows fit the padding, the
-- padded cells are wide enough, and the random permutations are permutations, then what it returns
-- is a permutation, and puts rows in the stable order of the sort.
pub radix_sort_sub-IsStableSort :
    (pad w wide n : ℕ) (buffer : ℕ → Bits) (int_buffer : ℕ → ℕ) (pi : ℕ → ℕ → ℕ → ℕ)
    → n ≤ 2 ^ pad
    → 0 < w
    → pad + w ≤ wide
    → ((call i : ℕ) → IsPermutation n (pi call i))
    → IsStableSort w n (radix_sort_sub pad w wide n buffer int_buffer pi)
unfolding radix_sort_sub
radix_sort_sub-IsStableSort pad w wide n buffer int_buffer pi fits some room masks =
    let sorted = λ (call : ℕ) (descending single_bit : Bool) (v : ℕ → Bits).
      radix_sort-Sorts pad w wide n fits (sort_bits w single_bit) (some_bit w single_bit some)
        (narrow_bits w single_bit some) room buffer int_buffer (pi call) (masks call) descending
        false v in
    record {
      places = λ call descending single_bit v.
          let (sigma, sorts, same) = sorted call descending single_bit v in
          IsPermutation_ext sigma _ (λ k h. sym (same k h)) sorts.permutes;
      orders = λ call descending single_bit v p q hp hq h.
          let (sigma, sorts, same) = sorted call descending single_bit v in
          omega (arith, sorts.stable p q hp hq h, same p hp, same q hq);
    }
