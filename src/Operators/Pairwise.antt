-- ===== src/Operators/Pairwise.antt =====
-- The comparisons of the pairwise sorting network (include/core/operators/sorting_network.h).
use crypt_dough.Base.{
  ℕ, zero, suc, ◌+◌, ◌-◌, ◌*◌, ◌/◌, ◌^◌, ltb, ◌==◌, if◌then◌else◌, bit_width, Option, none, some,
  List, [], ◌∷◌, ◌++◌, ◌&&◌,
}

-- One round: the rows `start_left + k` and `start_right + k` are compared, for the `k` that a
-- subset of `step` rows included and `step` left out selects.
pub record PairwiseRound : Type 0 where
  pub start_left : ℕ
  pub start_right : ℕ
  pub step : ℕ

-- The first loop, on fuel; `a` doubles.
unfoldable pub first_half : ℕ → ℕ → ℕ → ℕ → List PairwiseRound
first_half n n_pow_2 zero a = []
first_half n n_pow_2 (suc fuel) a =
    let rest = first_half n n_pow_2 fuel (a * 2) in
    if ltb a n_pow_2
    then (if ltb a n then record { start_left = 0; start_right = a; step = a } ∷ rest else rest)
    else []

-- The inner loop of the merge, on fuel; `d` is halved.
unfoldable pub merge_round : ℕ → ℕ → ℕ → ℕ → List PairwiseRound
merge_round n zero a d = []
merge_round n (suc fuel) a d =
    let rest = merge_round n fuel a (d / 2) in
    if ltb 0 d
    then (if ltb ((d + 1) * a) n
        then record { start_left = a; start_right = (d + 1) * a; step = a } ∷ rest
        else rest)
    else []

-- The outer loop of the merge, on fuel, with the fuel of the inner one; `a` is halved and `e` is
-- `2 * e + 1`.
unfoldable pub second_half : ℕ → ℕ → ℕ → ℕ → ℕ → ℕ → List PairwiseRound
unfolding merge_round
second_half n n_pow_2 inner zero a e = []
second_half n n_pow_2 inner (suc fuel) a e =
    let rest = second_half n n_pow_2 inner fuel (a / 2) (2 * e + 1) in
    if ltb 0 a && ltb e n_pow_2 then merge_round n inner a e ++ rest else []

-- The rounds for `n` rows, from the power of two; each loop is on this fuel.
unfoldable pub rounds_on : ℕ → ℕ → ℕ → List PairwiseRound
unfolding first_half second_half
rounds_on fuel n n_pow_2 =
    first_half n n_pow_2 fuel 1 ++ second_half n n_pow_2 fuel fuel (n_pow_2 / 4) 1

-- All rounds for `n` rows. The power of two is an `int`, and so is the reservation that is made of
-- it. `none` is an overflow: of the shift, whose distance is 64 on no rows at all, or of the
-- reservation, which overflows wherever the power does.
unfoldable pub pw_comparisons_on : ℕ → ℕ → Option (List PairwiseRound)
unfolding rounds_on
pw_comparisons_on fuel n =
    let n_pow_2 = 2 ^ bit_width (n - 1) in
    if n == 0
    then none
    else if ltb (n_pow_2 * (n_pow_2 + 1)) 2147483648
    then some (rounds_on fuel n n_pow_2)
    else none

unfoldable pub pw_comparisons : ℕ → Option (List PairwiseRound)
unfolding pw_comparisons_on
pw_comparisons n = pw_comparisons_on (2 ^ bit_width (n - 1)) n
