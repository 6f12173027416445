-- ===== src/Operators/PaddedSort/Laws.antt =====
-- About the radix sort of one column.
use crypt_dough.Base.{
  ℕ, ◌+◌, ◌-◌, ◌*◌, ◌^◌, ◌≡◌, ◌<◌, ◌≤◌, ◌∙◌, ◌⊎◌, inl, inr, refl, sym, ap, arith, subst, ◌==◌,
  if◌then◌else◌, Bool, true, false, min,
}
use crypt_dough.Circuits.Bits.{Bits, value, arithmetic_right_shift}
use crypt_dough.Random.Permutation.Laws.{IsPermutation}
use crypt_dough.Operators.Shuffle.{invert}
use crypt_dough.Operators.Shuffle.Laws.{
  identity-IsPermutation, composed-IsPermutation, inverse-IsPermutation, IsPermutation_ext,
  invert-entry,
}
use crypt_dough.Operators.RadixSort.Passes.{key, IsSortedBy}
use crypt_dough.Operators.PaddedSort.{
  reverse, pad_input, remove_padding, radix_sort_body, radix_sort,
}
use crypt_dough.Operators.PaddedSort.Padding.{
  row, index_of, pad_input-high, pad_input-index, key-pad_input, radix_sort_body-IsSortedBy,
}

index_order :
    (pad n : ℕ) (reversed : Bool) (p q : ℕ)
    → n ≤ 2 ^ pad
    → p < n
    → q < n
    → (index_of pad reversed (row n reversed p) < index_of pad reversed (row n reversed q))
      ⊎ ((index_of pad reversed (row n reversed p) ≡ index_of pad reversed (row n reversed q))
          × (p < q))
    → p < q
index_order pad n true p q fits hp hq (inl h) = omega arith
index_order pad n true p q fits hp hq (inr h) = h.1
index_order pad n false p q fits hp hq (inl h) = h
index_order pad n false p q fits hp hq (inr h) = h.1

at_indices :
    {a b c d p q : ℕ}
    → a ≡ c
    → b ≡ d
    → (a < b) ⊎ ((a ≡ b) × (p < q))
    → (c < d) ⊎ ((c ≡ d) × (p < q))
at_indices e f (inl h) = inl (omega arith)
at_indices e f (inr h) = inr (omega arith)

key_above : (power i j a b : ℕ) → i < power → a < b → i + a * power < j + b * power
key_above power i j a b h less =
    let scaled = ap (λ (t : ℕ). t * power) {x = b} {y = a + 1 + (b - a - 1)} (omega arith) in
    omega (arith, scaled)

-- Keys above indices stand in the order of the sort.
order_of_padded :
    (pad n : ℕ) (reversed : Bool) (a b p q : ℕ)
    → n ≤ 2 ^ pad
    → p < n
    → q < n
    → (if reversed then b < a else a < b) ⊎ ((a ≡ b) × (p < q))
    → (if reversed
        then index_of pad reversed q + b * 2 ^ pad < index_of pad reversed p + a * 2 ^ pad
        else index_of pad reversed p + a * 2 ^ pad < index_of pad reversed q + b * 2 ^ pad)
order_of_padded pad n true a b p q fits hp hq (inl h) =
    key_above (2 ^ pad) (2 ^ pad - 1 - q) (2 ^ pad - 1 - p) b a (omega arith) h
order_of_padded pad n true a b p q fits hp hq (inr h) =
    omega (arith, ap (λ (t : ℕ). t * 2 ^ pad) h.0)
order_of_padded pad n false a b p q fits hp hq (inl h) = key_above (2 ^ pad) p q a b (omega arith) h
order_of_padded pad n false a b p q fits hp hq (inr h) =
    omega (arith, ap (λ (t : ℕ). t * 2 ^ pad) h.0)

row_order :
    (n : ℕ) (reversed : Bool) (s t : ℕ)
    → s < n
    → t < n
    → (if reversed then t < s else s < t)
    → row n reversed s < row n reversed t
row_order n true s t hs ht h = omega arith
row_order n false s t hs ht h = h

choose :
    {A B C D : Type 0} (b : Bool) → (A → C) → (B → D) → (if b then A else B) → (if b then C else D)
choose true f g x = f x
choose false f g x = g x

row-IsPermutation : (n : ℕ) (reversed : Bool) → IsPermutation n (row n reversed)
row-IsPermutation n reversed = record {
  inverse = row n reversed;
  entry-lt = λ k h. ground arith;
  inverse-lt = λ k h. ground arith;
  inverse-entry = λ k h. ground arith;
  entry-inverse = λ k h. ground arith;
}

-- Row `p` belongs before row `q`: in the order of the sort, or as it stood if their keys agree.
abbrev pub Precedes : Bool → ℕ → Bool → (ℕ → Bits) → ℕ → ℕ → Type 0
Precedes reversed bits full_width v p q =
    (if reversed
      then key bits full_width bits (v q) < key bits full_width bits (v p)
      else key bits full_width bits (v p) < key bits full_width bits (v q))
    ⊎ ((key bits full_width bits (v p) ≡ key bits full_width bits (v q)) × (p < q))

-- The permutation takes the rows of `v` to those of `v'` in the stable order of the sort.
pub record Sorts (w n bits : ℕ) (reversed : Bool) (v v' : ℕ → Bits) (sigma : ℕ → ℕ) : Type 0 where
  pub permutes : IsPermutation n sigma
  pub moved : (k i : ℕ) → k < n → i < w → v' (sigma k) i ≡ v k i
  pub stable :
      (p q : ℕ) → p < n → q < n → Precedes reversed bits (w == bits) v p q → sigma p < sigma q

module _ (pad w wide n : ℕ) (fits : n ≤ 2 ^ pad) (bits : ℕ) (some_bits : 0 < bits)
    (narrow : bits ≤ w) (room : pad + w ≤ wide) (reversed : Bool) (v : ℕ → Bits) where
  abbrev padded : ℕ → Bits
  padded = pad_input pad w wide n v reversed

  -- Padded cells stand in the order of their indices.
  padded-IsSortedBy :
      (full_width : Bool) → IsSortedBy n (pad + bits) full_width pad padded padded (λ k. k)
  padded-IsSortedBy full_width = record {
    permutes = identity-IsPermutation n;
    moved = λ k hk. refl;
    stable = λ p q hp hq before.
        let at = λ (k : ℕ) (h : k < n).
          (key-pad_input pad w wide n v reversed full_width bits k some_bits narrow fits h).0 in
        index_order pad n reversed p q fits hp hq (at_indices (at p hp) (at q hq) before);
  }

  abbrev full_width : Bool
  full_width = w == bits

  twice : (k : ℕ) → k < n → row n reversed (row n reversed k) ≡ k
  unfolding row-IsPermutation
  twice k h = (row-IsPermutation n reversed).inverse-entry k h

  whole_key :
      (k : ℕ)
      → k < n
      → key (pad + bits) full_width (pad + bits) (padded (row n reversed k))
        ≡ index_of pad reversed k + key bits full_width bits (v k) * 2 ^ pad
  whole_key k h =
      (key-pad_input pad w wide n v reversed full_width bits (row n reversed k) some_bits narrow
        fits ((row-IsPermutation n reversed).entry-lt k h)).1
      ∙ ap (λ m. index_of pad reversed m + key bits full_width bits (v m) * 2 ^ pad) (twice k h)

  sorts :
      (sorted : ℕ → Bits) (sigma : ℕ → ℕ)
      → IsSortedBy n (pad + bits) full_width (pad + bits) padded sorted sigma
      → Sorts w n bits reversed v
          (λ k. arithmetic_right_shift wide (sorted (row n reversed k)) pad)
          (λ k. row n reversed (sigma (row n reversed k)))
  sorts sorted sigma by = record {
    permutes =
        composed-IsPermutation (composed-IsPermutation (row-IsPermutation n reversed) by.permutes)
          (row-IsPermutation n reversed);
    moved = λ k i hk hi.
        let r_lt = (row-IsPermutation n reversed).entry-lt k hk in
        let j = min (i + pad) (wide - 1) in
        ap (λ m. sorted m j) (twice _ (by.permutes.entry-lt _ r_lt))
        ∙ ap (λ x. x j) (by.moved (row n reversed k) r_lt)
        ∙ ap (padded (row n reversed k)) {x = j} {y = pad + i} (omega arith)
        ∙ pad_input-high pad w wide n v reversed (row n reversed k) i hi
        ∙ ap (λ m. v m i) (twice k hk);
    stable = λ p q hp hq h.
        let p_lt = (row-IsPermutation n reversed).entry-lt p hp in
        let q_lt = (row-IsPermutation n reversed).entry-lt q hq in
        row_order n reversed _ _ (by.permutes.entry-lt _ p_lt) (by.permutes.entry-lt _ q_lt) (
          choose reversed
            (λ less.
              by.stable (row n reversed q) (row n reversed p) q_lt p_lt
                (inl (omega (arith, less, whole_key p hp, whole_key q hq))))
            (λ less.
              by.stable (row n reversed p) (row n reversed q) p_lt q_lt
                (inl (omega (arith, less, whole_key p hp, whole_key q hq))))
            (order_of_padded pad n reversed _ _ p q fits hp hq h));
  }

  -- The index that came with the row at its place.
  index-entry :
      (sorted : ℕ → Bits) (sigma : ℕ → ℕ)
      → IsSortedBy n (pad + bits) full_width (pad + bits) padded sorted sigma
      → (k : ℕ) → k < n
      → value pad (sorted (row n reversed (row n reversed (sigma (row n reversed k)))))
        ≡ index_of pad reversed k
  index-entry sorted sigma by k hk =
      let r_lt = (row-IsPermutation n reversed).entry-lt k hk in
      ap (λ m. value pad (sorted m)) (twice _ (by.permutes.entry-lt _ r_lt))
      ∙ ap (value pad) (by.moved (row n reversed k) r_lt)
      ∙ pad_input-index pad w wide n v reversed (row n reversed k) fits r_lt
      ∙ ap (index_of pad reversed) (twice k hk)

if_reverse :
    {A : Type 0} (n : ℕ) (reversed : Bool) (x : ℕ → A)
    → (if reversed then reverse n x else x) ≡ (λ k. x (row n reversed k))
if_reverse n true x = refl
if_reverse n false x = refl

index_back :
    (pad n : ℕ) (reversed : Bool) (k : ℕ)
    → n ≤ 2 ^ pad
    → k < n
    → (if reversed then 2 ^ pad - 1 - index_of pad reversed k else index_of pad reversed k) ≡ k
index_back pad n true k fits h = omega arith
index_back pad n false k fits h = refl

module _ (pad w wide n : ℕ) (fits : n ≤ 2 ^ pad) (bits : ℕ) (some_bits : 0 < bits)
    (narrow : bits ≤ w) (room : pad + w ≤ wide) (buffer : ℕ → Bits) (int_buffer : ℕ → ℕ)
    (pi : ℕ → ℕ → ℕ) (masks : (i : ℕ) → IsPermutation n (pi i)) where
  abbrev returned : Bool → (ℕ → ℕ) → ℕ → ℕ
  returned no_invert permutation =
      if no_invert then permutation else invert n int_buffer (pi bits) permutation

  returned_lem :
      (no_invert : Bool) (permutation to : ℕ → ℕ)
      → IsPermutation n to
      → ((k : ℕ) → k < n → permutation (to k) ≡ k)
      → (k : ℕ) → k < n
      → (if no_invert
          then returned no_invert permutation (to k) ≡ k
          else returned no_invert permutation k ≡ to k)
  returned_lem true permutation to perm back k h = back k h
  returned_lem false permutation to perm back k h =
      let places =
        IsPermutation_ext perm.inverse permutation
          (λ m hm.
            sym (back (perm.inverse m) (perm.inverse-lt m hm))
            ∙ ap permutation (perm.entry-inverse m hm))
          (inverse-IsPermutation perm) in
      ap (invert n int_buffer (pi bits) permutation) (sym (back k h))
      ∙ invert-entry int_buffer (masks bits) places (to k) (perm.entry-lt k h)

  -- The radix sort of one column, ascending or descending, on one to `w` bits, with at most as many
  -- rows as indices, whatever random permutations mask its rounds: there is a permutation that takes
  -- every row to its place in the sorted column, in the stable order of the sort, and what is
  -- returned is this permutation or, without inversion, the rows that came to the places.
  pub radix_sort-Sorts :
      (reversed no_invert : Bool) (v : ℕ → Bits)
      → (sigma : ℕ → ℕ) × Sorts w n bits reversed v
          ((radix_sort pad w wide n buffer int_buffer pi bits reversed no_invert v).0)
          sigma
        × ((k : ℕ)
            → k < n
            → (if no_invert
                then (radix_sort pad w wide n buffer int_buffer pi bits reversed no_invert v).1
                    (sigma k)
                  ≡ k
                else (radix_sort pad w wide n buffer int_buffer pi bits reversed no_invert v).1 k
                  ≡ sigma k))
  unfolding radix_sort remove_padding
  radix_sort-Sorts reversed no_invert v =
      let padded' = pad_input pad w wide n v reversed in
      let start =
        padded-IsSortedBy pad w wide n fits bits some_bits narrow room reversed v (w == bits) in
      let (sigma, by) =
        radix_sort_body-IsSortedBy pad w wide n bits (w == bits) buffer int_buffer pi some_bits
          masks (omega arith) fits padded' start in
      let sorted = radix_sort_body pad w wide n buffer int_buffer pi bits (w == bits) padded' in
      let to : ℕ → ℕ = λ k. row n reversed (sigma (row n reversed k)) in
      let all = sorts pad w wide n fits bits some_bits narrow room reversed v sorted sigma by in
      let back = λ (k : ℕ) (h : k < n).
        ap (λ index. if reversed then 2 ^ pad - 1 - index else index)
          (index-entry pad w wide n fits bits some_bits narrow room reversed v sorted sigma by k h)
        ∙ index_back pad n reversed k fits h in
      let (done, permutation) =
        subst
          (λ (u : ℕ → Bits).
            Sorts w n bits reversed v ((remove_padding pad w wide n u reversed).0) to
            × ((k : ℕ)
                → k < n
                → (if no_invert
                    then returned no_invert ((remove_padding pad w wide n u reversed).1) (to k) ≡ k
                    else returned no_invert ((remove_padding pad w wide n u reversed).1) k ≡ to k)))
          (sym (if_reverse n reversed sorted))
          (all, returned_lem no_invert _ to all.permutes back) in
      (to, done, permutation)
