-- ===== src/Tests/OperatorTests.antt =====
-- Runs of the views of vectors and of the sorting network.
use crypt_dough.Base.{
  ℕ, ◌+◌, ◌-◌, ◌*◌, ◌/◌, ◌%◌, ◌^◌, ◌<◌, ◌≤◌, ◌≡◌, refl, arith, Option, none, some, ◌⊎◌, inl, List,
  [], ◌∷◌, bit_width,
}
use crypt_dough.Views.{
  tabulate, size_limit, alternating_subset_reference, reversed_alternating_subset_reference,
}
use crypt_dough.Views.Laws.{entry_count, alternating_subset_reference-entries}
use crypt_dough.Operators.Pairwise.{PairwiseRound, pw_comparisons, pw_comparisons_on}
use crypt_dough.Operators.PairwiseLaws.{AreRounds, pw_comparisons-AreRounds}

abbrev same : ℕ → ℕ
same j = j

-- Two in, three out, of eight elements: the view goes on with 5 and 6.
alternating_8 : alternating_subset_reference same 8 2 3 ≡ some (0 ∷ 1 ∷ 5 ∷ 6 ∷ [])
unfolding alternating_subset_reference
alternating_8 = refl

-- Six in and the rest out, of four elements: the view goes on beyond the vector.
alternating_4 :
    alternating_subset_reference same 4 6 (size_limit - 1) ≡ some (0 ∷ 1 ∷ 2 ∷ 3 ∷ 4 ∷ 5 ∷ [])
unfolding alternating_subset_reference
alternating_4 = refl

-- The reversed view ends with 7, which the alternating view leaves out.
reversed_8 : reversed_alternating_subset_reference same 8 2 3 ≡ some (1 ∷ 0 ∷ 7 ∷ 6 ∷ [])
unfolding reversed_alternating_subset_reference
reversed_8 = refl

-- Three in and the rest out, of eight elements.
alternating_subset_reference-entries_example :
    (alternating_subset_reference same 8 3 (size_limit - 1)
      ≡ some (tabulate (entry_count 8 3 (3 + 5)) (λ i. i / 3 * (3 + 5) + i % 3)))
    × ((i : ℕ) → i < entry_count 8 3 (3 + 5) → i / 3 * (3 + 5) + i % 3 < 8)
alternating_subset_reference-entries_example =
    alternating_subset_reference-entries 8 3 (size_limit - 1) 5 (omega arith) (omega arith)
      (inl (refl, omega arith, refl)) same

starts : List PairwiseRound → List (ℕ × ℕ)
starts [] = []
starts (r ∷ rest) = (r.start_left, r.start_right) ∷ starts rest

starts_of : Option (List PairwiseRound) → List (ℕ × ℕ)
unfolding starts
starts_of none = []
starts_of (some rounds) = starts rounds

rounds_4 : starts_of (pw_comparisons 4) ≡ (0, 1) ∷ (0, 2) ∷ (1, 2) ∷ []
unfolding starts_of pw_comparisons bit_width
rounds_4 = refl

pw_comparisons-AreRounds_example :
    ((0 < 6)
      × (6 ≤ 32768)
      × (rounds : List PairwiseRound) × (pw_comparisons 6 ≡ some rounds)
      × AreRounds 6 rounds
      × ((fuel : ℕ) → 2 ^ bit_width (6 - 1) ≤ fuel → pw_comparisons_on fuel 6 ≡ some rounds))
    ⊎ (((◌≡◌ {A = ℕ} 6 0) ⊎ (32768 < 6)) × ((fuel : ℕ) → pw_comparisons_on fuel 6 ≡ none))
pw_comparisons-AreRounds_example = pw_comparisons-AreRounds 6
