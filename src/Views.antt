-- ===== src/Views.antt =====
-- Views of a vector (include/core/containers/mapping_access_vector.h): a vector is storage and a
-- mapping, and a view shares the storage under a new mapping. `index` is the mapping of the
-- vector, or the identity where it has none, and `total_size` its size; each function gives the
-- new mapping, in the order in which its loop writes it. Sizes are `size_t`s of 64 bits; where the
-- code computes with a size of -1, it is 2 ^ 64 - 1 and the wrap-around is written out. The views
-- that repeat elements count in `int`s, so they are modelled for at most 2 ^ 31 - 1 entries.
mod Tabulate
pub mod Loops
pub mod Laws
pub use Tabulate.*
use crypt_dough.Base.{
  ℕ, zero, suc, ◌+◌, ◌-◌, ◌*◌, ◌/◌, ◌%◌, ◌==◌, ltb, if◌then◌else◌, ◌||◌, not, min, Option, none,
  some, List, [], ◌∷◌, ◌++◌,
}

abbrev pub size_limit : ℕ
size_limit = 0x1_0000_0000_0000_0000

-- How many elements are left out after the included ones; -1 stands for the rest of the vector.
unfoldable pub excluded_size : ℕ → ℕ → ℕ → ℕ
excluded_size total_size included excluded =
    if excluded == size_limit - 1
    then (total_size + size_limit - included) % size_limit
    else excluded

unfoldable pub chunk_size : ℕ → ℕ → ℕ → ℕ
unfolding excluded_size
chunk_size total_size included excluded =
    (included + excluded_size total_size included excluded) % size_limit

unfoldable pub alternating_size : ℕ → ℕ → ℕ → ℕ
alternating_size total_size included chunk =
    (total_size / chunk * included % size_limit + min included (total_size % chunk)) % size_limit

module _ (index : ℕ → ℕ) where
  -- The loop of `simple_subset_reference`: `size` entries, `step` apart, from `j` on.
  unfoldable pub subset_loop : ℕ → ℕ → ℕ → List ℕ
  subset_loop step zero j = []
  subset_loop step (suc size) j = index j ∷ subset_loop step size (j + step)

  -- `slice(start, end)`.
  unfoldable pub slice : ℕ → ℕ → ℕ → List ℕ
  unfolding subset_loop
  slice total_size start end = subset_loop 1 (min (end - start) total_size) start

  unfoldable pub simple_subset_reference : ℕ → ℕ → ℕ → ℕ → List ℕ
  unfolding subset_loop slice
  simple_subset_reference total_size start step end =
      if step == 1
      then slice total_size start (end + 1)
      else subset_loop step (min total_size ((end - start) / step + 1)) start

  -- The inner loop of `alternating_subset_reference`: at most `left` entries, while some of the
  -- `rest` are to be written. It gives how many are still to be written.
  unfoldable pub included_loop : ℕ → ℕ → ℕ → List ℕ × ℕ
  included_loop zero rest j = ([], rest)
  included_loop (suc left) zero j = ([], zero)
  included_loop (suc left) (suc rest) j =
      let (entries, after) = included_loop left rest (suc j) in (index j ∷ entries, after)

  -- The outer loop, on fuel.
  unfoldable pub alternating_loop : ℕ → ℕ → ℕ → ℕ → ℕ → List ℕ
  unfolding included_loop
  alternating_loop included chunk zero rest j = []
  alternating_loop included chunk (suc fuel) zero j = []
  alternating_loop included chunk (suc fuel) (suc rest) j =
      let (entries, after) = included_loop included (suc rest) j in
      entries ++ alternating_loop included chunk fuel after (j + chunk)

  -- `count` entries downwards from `chunk_end`.
  unfoldable pub downward_loop : ℕ → ℕ → List ℕ
  downward_loop zero chunk_end = []
  downward_loop (suc count) chunk_end = index chunk_end ∷ downward_loop count (chunk_end - 1)

  unfoldable pub reversed_loop : ℕ → ℕ → ℕ → ℕ → List ℕ
  unfolding downward_loop
  reversed_loop included chunk zero chunk_end = []
  reversed_loop included chunk (suc chunks) chunk_end =
      downward_loop included chunk_end ++ reversed_loop included chunk chunks (chunk_end + chunk)

  unfoldable pub same_loop : ℕ → ℕ → List ℕ
  same_loop zero j = []
  same_loop (suc repetition) j = index j ∷ same_loop repetition j

  -- The elements from `j` on, each `repetition` times.
  unfoldable pub repeated_loop : ℕ → ℕ → ℕ → List ℕ
  unfolding same_loop
  repeated_loop repetition zero j = []
  repeated_loop repetition (suc left) j =
      same_loop repetition j ++ repeated_loop repetition left (suc j)

  unfoldable pub repeated_subset_reference : ℕ → ℕ → List ℕ
  unfolding repeated_loop
  repeated_subset_reference total_size repetition = repeated_loop repetition total_size 0

  unfoldable pub cyclic_subset_reference : ℕ → ℕ → List ℕ
  unfolding subset_loop
  cyclic_subset_reference total_size zero = []
  cyclic_subset_reference total_size (suc cycles) =
      subset_loop 1 total_size 0 ++ cyclic_subset_reference total_size cycles

  -- With direction -1.
  unfoldable pub directed_subset_reference : ℕ → List ℕ
  unfolding downward_loop
  directed_subset_reference total_size = downward_loop total_size (total_size - 1)

-- The positions wrap around; `none` is a division by an empty chunk.
module _ (index : ℕ → ℕ) where
  unfoldable pub alternating_subset_reference : ℕ → ℕ → ℕ → Option (List ℕ)
  unfolding chunk_size alternating_loop alternating_size
  alternating_subset_reference total_size included excluded =
      let chunk = chunk_size total_size included excluded in
      let size = alternating_size total_size included chunk in
      if chunk == 0
      then none
      else some (alternating_loop (λ j. index (j % size_limit)) included chunk size size 0)

  -- It is also `none` if the number of entries that are written wraps around.
  unfoldable pub reversed_alternating_subset_reference : ℕ → ℕ → ℕ → Option (List ℕ)
  unfolding chunk_size reversed_loop
  reversed_alternating_subset_reference total_size included excluded =
      let chunk = chunk_size total_size included excluded in
      let full_chunks = total_size / chunk in
      let last_chunk_size = min included (total_size % chunk) in
      let wrapped = λ (j : ℕ). index (j % size_limit) in
      if (chunk == 0) || not (ltb (full_chunks * included + last_chunk_size) size_limit)
      then none
      else some (
          reversed_loop wrapped included chunk full_chunks (included - 1)
          ++ downward_loop wrapped last_chunk_size (total_size - 1))
