-- ===== src/Views/Laws.antt =====
-- What the views of include/core/containers/mapping_access_vector.h select.
use native.Mathlib.Nat.{div-add-mod, mod-lt, mul-le-mul_right}
use crypt_dough.Base.{
  ℕ, ◌+◌, ◌-◌, ◌*◌, ◌/◌, ◌%◌, ◌<◌, ◌≤◌, ◌≡◌, ◌∙◌, ap, ap₂, arith, ◌==◌, true, false, ltb, some, min,
  ◌⊎◌, inl, inr, lt-or-le, ◌++◌,
}
use crypt_dough.Views.{
  tabulate, tabulate_ext, size_limit, excluded_size, chunk_size, alternating_size,
  alternating_subset_reference, reversed_alternating_subset_reference,
}
use crypt_dough.Views.Loops.{
  alternating_position, alternating_loop-tabulate, downward_loop-tabulate, reversed_loop-tabulate,
}

mul-le-factor : (q a b : ℕ) → q * a ≤ (a + b) * q
mul-le-factor q a b = grind arith

-- An excluded size of -1 stands for the rest of the vector, which the included ones must leave; any
-- other one must fit with the included ones into a `size_t`.
abbrev pub IsPattern : ℕ → ℕ → ℕ → ℕ → Type 0
IsPattern total_size included excluded left_out =
    ((excluded ≡ size_limit - 1) × (included ≤ total_size) × (left_out ≡ total_size - included))
    ⊎ ((included + excluded < size_limit) × (left_out ≡ excluded))

-- How many entries an alternating view has.
abbrev pub entry_count : ℕ → ℕ → ℕ → ℕ
entry_count total_size included chunk =
    total_size / chunk * included + min included (total_size % chunk)

module _ (total_size included excluded left_out : ℕ) (some_in : 0 < included)
    (fits : total_size < size_limit)
    (pattern : IsPattern total_size included excluded left_out) where
  chunk_size-sum : chunk_size total_size included excluded ≡ included + left_out
  unfolding chunk_size excluded_size
  chunk_size-sum = elim pattern [
    | inl (rest, room, e) ↦
        let minus_one : (excluded == size_limit - 1) ≡ true = ground (arith, rest) in
        rw minus_one (omega (arith, room, e))
    | inr (below, e) ↦
        let plain : (excluded == size_limit - 1) ≡ false = ground (arith, below) in
        rw plain (omega (arith, below, e))
  ]

  entry_count-le : entry_count total_size included (included + left_out) ≤ total_size
  entry_count-le =
      let c = included + left_out in
      let whole = div-add-mod total_size c in
      let scaled : total_size / c * included ≤ c * (total_size / c) =
        mul-le-factor (total_size / c) included left_out in
      omega (arith, whole, scaled)

  alternating_size-count :
      alternating_size total_size included (included + left_out)
      ≡ entry_count total_size included (included + left_out)
  unfolding alternating_size
  alternating_size-count = omega (arith, entry_count-le)

  -- The position of an entry of an alternating view is below the size of the vector.
  position-lt :
      (i : ℕ)
      → i < entry_count total_size included (included + left_out)
      → alternating_position (λ j. j) included left_out i < total_size
  position-lt i b =
      let c = included + left_out in
      let a = i / included in
      let q = total_size / c in
      let here = div-add-mod i included in
      let rest = mod-lt i {m = included} some_in in
      let whole = div-add-mod total_size c in
      elim (lt-or-le a q) [
        | inl below ↦ omega (arith, here, rest, whole, mul-le-mul_right c below)
        | inr above ↦ elim (lt-or-le q a) [
          | inl beyond ↦ absurd (omega (arith, here, rest, whole, mul-le-mul_right included beyond))
          | inr equal ↦
              let same : a ≡ q = omega (arith, above, equal) in
              omega (arith, here, rest, whole, ap (λ t. t * included) same, ap (λ t. t * c) same)
        ]
      ]

  -- An alternating view of some included elements and then some left out, of a vector whose size a
  -- `size_t` holds, where -1 as the excluded size leaves out the rest of the vector and the vector
  -- holds the included ones, and any other excluded size fits with the included one into a
  -- `size_t`: it has at place i the element at place i % included of the chunk i / included, and
  -- every entry stays below the size of the vector.
  pub alternating_subset_reference-entries :
      (index : ℕ → ℕ)
      → let chunk = included + left_out in
        let size = entry_count total_size included chunk in
        (alternating_subset_reference index total_size included excluded
          ≡ some (tabulate size (λ i. index (i / included * chunk + i % included))))
        × ((i : ℕ) → i < size → i / included * chunk + i % included < total_size)
  unfolding alternating_subset_reference
  alternating_subset_reference-entries index =
      let c = included + left_out in
      let some_chunk : (included + left_out == 0) ≡ false = ground (arith, some_in) in
      (
        rw (chunk_size-sum, alternating_size-count, some_chunk)
            (ap some (
              alternating_loop-tabulate (λ j. index (j % size_limit)) included left_out _ _ 0
                some_in (omega arith)
              ∙ tabulate_ext _ _ _ (λ i b. ap index (omega (arith, position-lt i b, fits))))),
        position-lt,
      )

  reversed_position-lt :
      (i : ℕ)
      → i < total_size / (included + left_out) * included
      → i / included * (included + left_out) + included ≤ total_size
  reversed_position-lt i b =
      let c = included + left_out in
      let here = div-add-mod i included in
      let whole = div-add-mod total_size c in
      elim (lt-or-le (i / included) (total_size / c)) [
        | inl below ↦ omega (arith, whole, mul-le-mul_right c below)
        | inr above ↦ absurd (omega (arith, here, b, mul-le-mul_right included above))
      ]

  -- A reversed alternating view lists each chunk of an alternating view backwards, if the last
  -- chunk has no element that is left out.
  pub reversed_alternating_subset_reference-entries :
      (index : ℕ → ℕ)
      → total_size % (included + left_out) ≤ included
      → let chunk = included + left_out in
        let full = total_size / chunk in
        reversed_alternating_subset_reference index total_size included excluded
        ≡ some (
            tabulate
              (full * included)
              (λ i. index (i / included * chunk + (included - 1 - i % included)))
            ++ tabulate
                (total_size % chunk)
                (λ i. index (full * chunk + (total_size % chunk - 1 - i))))
  unfolding reversed_alternating_subset_reference
  reversed_alternating_subset_reference-entries index k =
      let some_chunk : (included + left_out == 0) ≡ false = ground (arith, some_in) in
      let c = included + left_out in
      let whole = div-add-mod total_size c in
      let count : ltb (entry_count total_size included c) size_limit ≡ true =
        ground (arith, entry_count-le, fits) in
      rw (chunk_size-sum, some_chunk, count)
        (ap some (
          ap₂ (λ a b. a ++ b)
            (reversed_loop-tabulate (λ j. index (j % size_limit)) included left_out _ (included - 1)
                some_in (omega arith)
              ∙ tabulate_ext _ _ _ (λ i b. ap index (
                  let r = mod-lt i {m = included} some_in in
                  let below = reversed_position-lt i b in omega (arith, r, below, fits))))
            (downward_loop-tabulate (λ j. index (j % size_limit)) _ (total_size - 1)
                (omega (arith, whole))
              ∙ ap (λ n. tabulate n (λ i. index ((total_size - 1 - i) % size_limit)))
                  (omega (arith, k))
              ∙ tabulate_ext _ _ _ (λ i b. ap index (omega (arith, whole, fits))))))
