-- ===== src/Operators/PairwiseLaws.antt =====
-- About pw_comparisons of include/core/operators/sorting_network.h.
use native.Mathlib.Nat.{mul-le-mul_right, mul-le-mul}
use crypt_dough.Base.{
  ℕ, zero, suc, ◌+◌, ◌-◌, ◌*◌, ◌/◌, ◌^◌, ◌<◌, ◌≤◌, ◌≡◌, refl, ap, ap₂, arith, ltb, if◌then◌else◌,
  bit_width, lt-pow-bit_width, bit_width-below, pow_le, pow_pos, none, some, ◌⊎◌, inl, inr,
  lt-or-le, ◌==◌, List, [], ◌∷◌, ◌++◌, ◌&&◌, Bool, true, false,
}
use crypt_dough.Operators.Pairwise.{
  PairwiseRound, first_half, merge_round, second_half, rounds_on, pw_comparisons_on, pw_comparisons,
}

-- The rows that a round compares first exist, and they are different.
pub record IsRound (n : ℕ) (r : PairwiseRound) : Type 0 where
  pub step_pos : 0 < r.step
  pub left_lt : r.start_left < r.start_right
  pub right_lt : r.start_right < n

abbrev pub AreRounds : ℕ → List PairwiseRound → Type 0
AreRounds n [] = Unit {0}
AreRounds n (r ∷ rest) = IsRound n r × AreRounds n rest

append-AreRounds :
    (n : ℕ) (k l : List PairwiseRound) → AreRounds n k → AreRounds n l → AreRounds n (k ++ l)
append-AreRounds n [] l hk hl = hl
append-AreRounds n (r ∷ k) l (h, hk) hl = (h, append-AreRounds n k l hk hl)

if-AreRounds :
    (n : ℕ) (b : Bool) (k l : List PairwiseRound)
    → (b ≡ true → AreRounds n k)
    → AreRounds n l
    → AreRounds n (if b then k else l)
if-AreRounds n true k l hk hl = hk refl
if-AreRounds n false k l hk hl = hl

ltb-lt : (a b : ℕ) → ltb a b ≡ true → a < b
ltb-lt a b e = ground (arith, e)

first_half-AreRounds : (n p fuel a : ℕ) → 0 < a → AreRounds n (first_half n p fuel a)
unfolding first_half
first_half-AreRounds n p zero a h = tt
first_half-AreRounds n p (suc fuel) a h =
    let rest = first_half-AreRounds n p fuel (a * 2) (omega arith) in
    if-AreRounds n (ltb a p) _ []
      (λ below.
        if-AreRounds n (ltb a n) _ _
          (λ e. (record { step_pos = h; left_lt = h; right_lt = ltb-lt a n e }, rest)) rest)
      tt

merge_round-AreRounds : (n fuel a d : ℕ) → 0 < a → AreRounds n (merge_round n fuel a d)
unfolding merge_round
merge_round-AreRounds n zero a d h = tt
merge_round-AreRounds n (suc fuel) a d h =
    let rest = merge_round-AreRounds n fuel a (d / 2) h in
    if-AreRounds n (ltb 0 d) _ []
      (λ some.
        if-AreRounds n (ltb ((d + 1) * a) n) _ _
          (λ e. (
            record {
              step_pos = h;
              left_lt = omega (arith, h, mul-le-mul_right a (ltb-lt 0 d some));
              right_lt = ltb-lt _ n e;
            },
            rest,
          ))
          rest)
      tt

second_half-AreRounds : (n p inner fuel a e : ℕ) → AreRounds n (second_half n p inner fuel a e)
unfolding second_half
second_half-AreRounds n p inner zero a e = tt
second_half-AreRounds n p inner (suc fuel) a e =
    let rest = second_half-AreRounds n p inner fuel (a / 2) (2 * e + 1) in
    if-AreRounds n (ltb 0 a && ltb e p) _ []
      (λ goes.
        append-AreRounds n _ _ (merge_round-AreRounds n inner a e (ground (arith, goes))) rest)
      tt

-- Enough fuel.
first_half_enough :
    (n p f g a : ℕ) → 0 < a → p ≤ f + a → p ≤ g + a → first_half n p f a ≡ first_half n p g a
unfolding first_half
first_half_enough n p zero zero a h hf hg = refl
first_half_enough n p zero (suc g) a h hf hg = ground (arith, h, hf, hg)
first_half_enough n p (suc f) zero a h hf hg = ground (arith, h, hf, hg)
first_half_enough n p (suc f) (suc g) a h hf hg =
    ap
      (λ rest.
        if ltb a p
        then (if ltb a n then record { start_left = 0; start_right = a; step = a } ∷ rest else rest)
        else [])
      (first_half_enough n p f g (a * 2) (omega arith) (omega arith) (omega arith))

merge_round_enough : (n f g a d : ℕ) → d ≤ f → d ≤ g → merge_round n f a d ≡ merge_round n g a d
unfolding merge_round
merge_round_enough n zero zero a d hf hg = refl
merge_round_enough n zero (suc g) a d hf hg = ground (arith, hf, hg)
merge_round_enough n (suc f) zero a d hf hg = ground (arith, hf, hg)
merge_round_enough n (suc f) (suc g) a d hf hg =
    ap
      (λ rest.
        if ltb 0 d
        then (if ltb ((d + 1) * a) n
            then record { start_left = a; start_right = (d + 1) * a; step = a } ∷ rest
            else rest)
        else [])
      (merge_round_enough n f g a (d / 2) (omega arith) (omega arith))

if_eq :
    (b : Bool) (k l : List PairwiseRound)
    → (b ≡ true → k ≡ l)
    → (if b then k else []) ≡ (if b then l else [])
if_eq true k l h = h refl
if_eq false k l h = refl

second_half_enough :
    (n p i j f g a e : ℕ)
    → p ≤ i
    → p ≤ j
    → a ≤ f
    → a ≤ g
    → second_half n p i f a e ≡ second_half n p j g a e
unfolding second_half
second_half_enough n p i j zero zero a e hi hj hf hg = refl
second_half_enough n p i j zero (suc g) a e hi hj hf hg = ground (arith, hf, hg)
second_half_enough n p i j (suc f) zero a e hi hj hf hg = ground (arith, hf, hg)
second_half_enough n p i j (suc f) (suc g) a e hi hj hf hg = if_eq (ltb 0 a && ltb e p) _ _ λ goes.
    let below : e < p = ground (arith, goes) in
    ap₂ (λ k l. k ++ l) (merge_round_enough n i j a e (omega (arith, below)) (omega (arith, below)))
      (second_half_enough n p i j f g (a / 2) (2 * e + 1) hi hj (omega arith) (omega arith))

-- The rounds are what the theorem says, and more fuel than the power gives the same.
rounds_on-AreRounds :
    (n p : ℕ)
    → 0 < p
    → AreRounds n (rounds_on p n p) × ((fuel : ℕ) → p ≤ fuel → rounds_on fuel n p ≡ rounds_on p n p)
unfolding rounds_on
rounds_on-AreRounds n p h = (
  append-AreRounds n _ _ (first_half-AreRounds n p p 1 (omega arith))
      (second_half-AreRounds n p p p (p / 4) 1),
  λ fuel enough.
      ap₂ (λ k l. k ++ l) (first_half_enough n p fuel p 1 (omega arith) (omega arith) (omega arith))
        (second_half_enough n p fuel p fuel p (p / 4) 1 enough (omega arith) (omega arith)
          (omega arith)),
)

-- The `int`s hold the power of two and the reservation for one to 2 ^ 15 rows.
power_fits : (n : ℕ) → 0 < n → n ≤ 32768 → 2 ^ bit_width (n - 1) ≤ 32768
power_fits n h top = pow_le (bit_width (n - 1)) 15 (bit_width-below 15 (n - 1) (omega arith))

power_overflows : (n : ℕ) → 32768 < n → 65536 ≤ 2 ^ bit_width (n - 1)
power_overflows n h = elim (lt-or-le 15 (bit_width (n - 1))) [
  | inl wide ↦ pow_le 16 (bit_width (n - 1)) wide
  | inr narrow ↦
      absurd (omega (arith, lt-pow-bit_width (n - 1), pow_le (bit_width (n - 1)) 15 narrow))
]

square_fits : (p : ℕ) → p ≤ 32768 → ltb (p * (p + 1)) 2147483648 ≡ true
square_fits p h =
    let next : p + 1 ≤ 32769 = omega (arith, h) in
    let bound : p * (p + 1) ≤ 32768 * 32769 = mul-le-mul h next in ground (arith, bound)

square_overflows : (p : ℕ) → 65536 ≤ p → ltb (p * (p + 1)) 2147483648 ≡ false
square_overflows p h =
    let next : 65537 ≤ p + 1 = omega (arith, h) in
    let bound : 65536 * 65537 ≤ p * (p + 1) = mul-le-mul h next in ground (arith, bound)

-- For one to 2 ^ 15 rows, no `int` overflows, every comparison that the network makes starts at two
-- different rows below the number of rows and has a step, and its loops end: more fuel than
-- `2 ^ bit_width (n - 1)` gives the same rounds. For no rows and for more, an `int` overflows.
pub pw_comparisons-AreRounds :
    (n : ℕ)
    → ((0 < n)
        × (n ≤ 32768)
        × (rounds : List PairwiseRound) × (pw_comparisons n ≡ some rounds)
        × AreRounds n rounds
        × ((fuel : ℕ) → 2 ^ bit_width (n - 1) ≤ fuel → pw_comparisons_on fuel n ≡ some rounds))
      ⊎ (((n ≡ 0) ⊎ (32768 < n)) × ((fuel : ℕ) → pw_comparisons_on fuel n ≡ none))
unfolding pw_comparisons pw_comparisons_on
pw_comparisons-AreRounds zero = inr (inl refl, λ fuel. refl)
pw_comparisons-AreRounds (suc m) =
    let n = suc m in
    let p = 2 ^ bit_width (n - 1) in
    let some_rows : (suc m == 0) ≡ false = ground arith in
    elim (lt-or-le 32768 n) [
      | inl large ↦
          let over : ltb (p * (p + 1)) 2147483648 ≡ false =
            square_overflows p (power_overflows n large) in
          inr (inr large, λ fuel. rw (some_rows, over) refl)
      | inr small ↦
          let fits : ltb (p * (p + 1)) 2147483648 ≡ true =
            square_fits p (power_fits n (omega arith) small) in
          let (rounds, enough) = rounds_on-AreRounds n p (pow_pos (bit_width (n - 1))) in
          inl (
            omega arith,
            small,
            rounds_on p n p,
            rw (some_rows, fits) refl,
            rounds,
            λ fuel h. rw (some_rows, fits) (ap some (enough fuel h)),
          )
    ]
