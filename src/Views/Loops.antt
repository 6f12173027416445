-- ===== src/Views/Loops.antt =====
-- The entries that the loops of the views write.
use native.Mathlib.Nat.{div-eq_of_lt, mod-eq_of_lt, add-div_left, add-mod_left}
use crypt_dough.Base.{
  ℕ, zero, suc, ◌+◌, ◌-◌, ◌*◌, ◌/◌, ◌%◌, ◌<◌, ◌≤◌, ◌≡◌, ◌∙◌, refl, ap, ap₂, arith, min, [], ◌∷◌,
  ◌++◌,
}
use crypt_dough.Views.{
  tabulate, tabulate_ext, tabulate_join, subset_loop, included_loop, alternating_loop,
  downward_loop, reversed_loop, same_loop, repeated_loop,
}

module _ (index : ℕ → ℕ) where
  pub subset_loop-tabulate :
      (step size j : ℕ) → subset_loop index step size j ≡ tabulate size (λ i. index (j + i * step))
  unfolding subset_loop
  subset_loop-tabulate step zero j = refl
  subset_loop-tabulate step (suc size) j =
      ap₂ (λ x l. x ∷ l) (ap index (omega arith))
        (subset_loop-tabulate step size (j + step)
          ∙ tabulate_ext size _ _ (λ i b. ap index (omega arith)))

  included_loop-tabulate :
      (left rest j : ℕ)
      → (included_loop index left rest j).0 ≡ tabulate (min left rest) (λ i. index (j + i))
  unfolding included_loop
  included_loop-tabulate zero rest j =
      ap (λ n. tabulate n (λ i. index (j + i))) {x = 0} {y = min 0 rest} (omega arith)
  included_loop-tabulate (suc left) zero j =
      ap (λ n. tabulate n (λ i. index (j + i))) {x = 0} {y = min (suc left) 0} (omega arith)
  included_loop-tabulate (suc left) (suc rest) j =
      ap₂ (λ x l. x ∷ l) (ap index (omega arith))
        (included_loop-tabulate left rest (suc j)
          ∙ tabulate_ext _ _ _ (λ i b. ap index (omega arith)))
      ∙ ap (λ n. tabulate n (λ i. index (j + i))) {x = suc (min left rest)}
          {y = min (suc left) (suc rest)} (omega arith)

  included_loop-rest : (left rest j : ℕ) → (included_loop index left rest j).1 ≡ rest - left
  unfolding included_loop
  included_loop-rest zero rest j = omega arith
  included_loop-rest (suc left) zero j = omega arith
  included_loop-rest (suc left) (suc rest) j = included_loop-rest left rest (suc j) ∙ omega arith

  -- The position of an entry of an alternating view.
  abbrev pub alternating_position : ℕ → ℕ → ℕ → ℕ
  alternating_position included excluded i = i / included * (included + excluded) + i % included

  pub alternating_loop-tabulate :
      (included excluded fuel rest j : ℕ)
      → 0 < included
      → rest ≤ fuel
      → alternating_loop index included (included + excluded) fuel rest j
        ≡ tabulate rest (λ i. index (j + alternating_position included excluded i))
  unfolding alternating_loop
  alternating_loop-tabulate included excluded zero zero j some_in enough = refl
  alternating_loop-tabulate included excluded zero (suc rest) j some_in enough =
      absurd (omega arith)
  alternating_loop-tabulate included excluded (suc fuel) zero j some_in enough = refl
  alternating_loop-tabulate included excluded (suc fuel) (suc rest) j some_in enough =
      let after = (included_loop index included (suc rest) j).1 in
      let less = included_loop-rest included (suc rest) j in
      ap₂ (λ a b. a ++ b) (included_loop-tabulate included (suc rest) j)
        (alternating_loop-tabulate included excluded fuel after (j + (included + excluded)) some_in
          (omega (arith, less)))
      ∙ ap
          (λ n.
            tabulate (min included (suc rest)) (λ i. index (j + i))
            ++ tabulate n
                (λ i. index (j + (included + excluded) + alternating_position included excluded i)))
          less
      ∙ tabulate_join _ _ (suc rest) _ _ _ (omega arith) (λ i b. ap index (first i (omega arith)))
          (λ i b. ap index (next i (min included (suc rest)) (omega arith)))
    where
      first : (i : ℕ) → i < included → j + i ≡ j + alternating_position included excluded i
      first i b = omega (
        arith,
        div-eq_of_lt b,
        mod-eq_of_lt b,
        ap (λ q. q * (included + excluded)) (div-eq_of_lt b),
      )

      next :
          (i m : ℕ)
          → m ≡ included
          → j + (included + excluded) + alternating_position included excluded i
            ≡ j + alternating_position included excluded (m + i)
      next i m e =
          let quotient : (m + i) / included ≡ i / included + 1 =
            ap (λ t. (t + i) / included) e ∙ add-div_left i some_in in
          let remainder : (m + i) % included ≡ i % included =
            ap (λ t. (t + i) % included) e ∙ add-mod_left included i in
          omega (arith, remainder, ap (λ q. q * (included + excluded)) quotient)

  pub downward_loop-tabulate :
      (count chunk_end : ℕ)
      → count ≤ suc chunk_end
      → downward_loop index count chunk_end ≡ tabulate count (λ i. index (chunk_end - i))
  unfolding downward_loop
  downward_loop-tabulate zero chunk_end h = refl
  downward_loop-tabulate (suc zero) chunk_end h =
      ap (λ x. index x ∷ []) {x = chunk_end} {y = chunk_end - 0} (omega arith)
  downward_loop-tabulate (suc (suc count)) chunk_end h =
      ap₂ (λ x l. x ∷ l) (ap index (omega arith))
        (downward_loop-tabulate (suc count) (chunk_end - 1) (omega arith)
          ∙ tabulate_ext (suc count) (λ i. index (chunk_end - 1 - i))
              (λ i. index (chunk_end - suc i)) (λ i b. ap index (omega arith)))

  same_loop-tabulate :
      (repetition j : ℕ) → same_loop index repetition j ≡ tabulate repetition (λ i. index j)
  unfolding same_loop
  same_loop-tabulate zero j = refl
  same_loop-tabulate (suc repetition) j = ap (λ l. index j ∷ l) (same_loop-tabulate repetition j)

  pub repeated_loop-tabulate :
      (repetition left j : ℕ)
      → 0 < repetition
      → repeated_loop index repetition left j
        ≡ tabulate (left * repetition) (λ i. index (j + i / repetition))
  unfolding repeated_loop
  repeated_loop-tabulate repetition zero j h =
      ap (λ n. tabulate n (λ i. index (j + i / repetition))) {x = 0} {y = 0 * repetition}
        (omega arith)
  repeated_loop-tabulate repetition (suc left) j h =
      ap₂ (λ a b. a ++ b) (same_loop-tabulate repetition j)
        (repeated_loop-tabulate repetition left (suc j) h)
      ∙ tabulate_join _ _ (suc left * repetition) _ _ _ (omega arith)
          (λ i b. ap index (omega (arith, div-eq_of_lt b)))
          (λ i b. ap index (omega (arith, add-div_left i h)))

  -- The position of an entry of a reversed alternating view, from the end of the first chunk.
  pub reversed_loop-tabulate :
      (included excluded chunks chunk_end : ℕ)
      → 0 < included
      → included ≤ suc chunk_end
      → reversed_loop index included (included + excluded) chunks chunk_end
        ≡ tabulate
            (chunks * included)
            (λ i. index (chunk_end + i / included * (included + excluded) - i % included))
  unfolding reversed_loop
  reversed_loop-tabulate included excluded zero chunk_end h k =
      ap
        (λ n.
          tabulate n (λ i. index (chunk_end + i / included * (included + excluded) - i % included)))
        {x = 0} {y = 0 * included} (omega arith)
  reversed_loop-tabulate included excluded (suc chunks) chunk_end h k =
      ap₂ (λ a b. a ++ b) (downward_loop-tabulate included chunk_end k)
        (reversed_loop-tabulate included excluded chunks (chunk_end + (included + excluded)) h
          (omega arith))
      ∙ tabulate_join _ _ (suc chunks * included) _ _ _ (omega arith)
          (λ i b.
            ap index
              (omega (arith, mod-eq_of_lt b, ap (λ q. q * (included + excluded)) (div-eq_of_lt b))))
          (λ i b. ap index (
            omega (
              arith,
              add-mod_left included i,
              ap (λ q. q * (included + excluded)) (add-div_left i h),
            )))
