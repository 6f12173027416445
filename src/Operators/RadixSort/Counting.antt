-- ===== src/Operators/RadixSort/Counting.antt =====
-- Counting the rows with a bit below a row, and the stable placement that the counts give.
use crypt_dough.Base.{
  ℕ, zero, suc, ◌+◌, ◌-◌, ◌≡◌, ◌<◌, ◌≤◌, ◌∙◌, inl, inr, refl, sym, ap, arith, ltb, ◌==◌,
  if◌then◌else◌, Bool, true, false, not, ◌&&◌, Bool-cases,
}
use crypt_dough.Random.Permutation.Laws.{IsPermutation}

-- How many of the rows below `k` have the bit.
abbrev pub count : (ℕ → Bool) → ℕ → ℕ
count b zero = 0
count b (suc k) = (if b k then 1 else 0) + count b k

pub count_mono : (b : ℕ → Bool) (d k : ℕ) → count b k ≤ count b (d + k)
count_mono b zero k = omega (arith, ap (count b) {x = k} {y = 0 + k} (omega arith))
count_mono b (suc d) k =
    ground (arith, count_mono b d k, ap (count b) {x = suc d + k} {y = suc (d + k)} (omega arith))

pub count-lt : (b : ℕ → Bool) (k n : ℕ) → b k ≡ true → k < n → count b k < count b n
count-lt b k n e h =
    let later = count_mono b (n - suc k) (suc k) in
    let there : count b (n - suc k + suc k) ≡ count b n = ap (count b) (omega arith) in
    ground (arith, later, there)

pub count-complement : (b : ℕ → Bool) (n : ℕ) → count b n + count (λ k. not (b k)) n ≡ n
count-complement b zero = refl
count-complement b (suc n) = elim (Bool-cases (b n)) [
  | inl e ↦ rw e (omega (arith, count-complement b n))
  | inr e ↦ rw e (omega (arith, count-complement b n))
]

-- The row of the `j`-th bit among the first `n` rows.
abbrev select : (ℕ → Bool) → ℕ → ℕ → ℕ
select b zero j = 0
select b (suc n) j = let rest = select b n j in if b n && (count b n == j) then n else rest

select-count :
    (b : ℕ → Bool) (n j : ℕ)
    → j < count b n
    → (select b n j < n) × (b (select b n j) ≡ true) × (count b (select b n j) ≡ j)
select-count b zero j h = absurd (omega arith)
select-count b (suc n) j h = elim (Bool-cases (b n)) [
  | inl e ↦ ground (arith, e, select-count b n j)
  | inr e ↦ ground (arith, e, select-count b n j)
]

-- Rows without the bit come first, and rows with the same bit keep their order.
abbrev pub place : (ℕ → Bool) → ℕ → ℕ → ℕ
place b n k = if b k then count (λ i. not (b i)) n + count b k else count (λ i. not (b i)) k

-- The row that comes to a place.
abbrev source : (ℕ → Bool) → ℕ → ℕ → ℕ
source b n j =
    let zeros = count (λ i. not (b i)) n in
    if ltb j zeros then select (λ i. not (b i)) n j else select b n (j - zeros)

module _ (b : ℕ → Bool) (n : ℕ) where
  place-lt : (k : ℕ) → k < n → place b n k < n
  place-lt k h = elim (Bool-cases (b k)) [
    | inl e ↦ rw e (omega (arith, count-complement b n, count-lt b k n e h))
    | inr e ↦
        let other : not (b k) ≡ true = rw e refl in
        rw e (omega (arith, count-complement b n, count-lt (λ i. not (b i)) k n other h))
  ]

  -- Rows with the same bit keep their order.
  pub place-lt_same : (i k : ℕ) → i < k → b i ≡ b k → place b n i < place b n k
  place-lt_same i k h e = elim (Bool-cases (b k)) [
    | inl set ↦ rw (e, set) (omega (arith, count-lt b i k (e ∙ set) h))
    | inr clear ↦
        let other : not (b i) ≡ true = rw (e, clear) refl in
        rw (e, clear) (count-lt (λ i. not (b i)) i k other h)
  ]

  -- A row without the bit comes before one with the bit.
  pub place-lt_bits : (i k : ℕ) → i < n → b i ≡ false → b k ≡ true → place b n i < place b n k
  place-lt_bits i k h clear set =
      let other : not (b i) ≡ true = rw clear refl in
      rw (clear, set) (omega (arith, count-lt (λ i. not (b i)) i n other h))

  place-source : (j : ℕ) → j < n → (source b n j < n) × (place b n (source b n j) ≡ j)
  place-source j h = elim (Bool-cases (ltb j (count (λ i. not (b i)) n))) [
    | inl low ↦
        let (below, other, at) = select-count (λ i. not (b i)) n j (ground (arith, low)) in
        let clear : b (select (λ i. not (b i)) n j) ≡ false = ground (arith, other) in
        rw low (below, rw clear at)
    | inr high ↦
        let zeros = count (λ i. not (b i)) n in
        let (below, set, at) =
          select-count b n (j - zeros) (ground (arith, high, count-complement b n)) in
        rw high (below, rw set (ground (arith, high, at)))
  ]

  place-injective_same : (i k : ℕ) → b i ≡ b k → place b n i ≡ place b n k → i ≡ k
  place-injective_same i k same e = elim (Bool-cases (ltb i k)) [
    | inl less ↦ absurd (omega (arith, place-lt_same i k (ground (arith, less)) same, e))
    | inr more ↦ elim (Bool-cases (ltb k i)) [
      | inl less ↦ absurd (omega (arith, place-lt_same k i (ground (arith, less)) (sym same), e))
      | inr equal ↦ ground (arith, more, equal)
    ]
  ]

  place-injective : (i k : ℕ) → i < n → k < n → place b n i ≡ place b n k → i ≡ k
  place-injective i k hi hk e = elim (Bool-cases (b i)) [
    | inl set ↦ elim (Bool-cases (b k)) [
      | inl set' ↦ place-injective_same i k (set ∙ sym set') e
      | inr clear ↦ absurd (omega (arith, place-lt_bits k i hk clear set, e))
    ]
    | inr clear ↦ elim (Bool-cases (b k)) [
      | inl set ↦ absurd (omega (arith, place-lt_bits i k hi clear set, e))
      | inr clear' ↦ place-injective_same i k (clear ∙ sym clear') e
    ]
  ]

  pub place-IsPermutation : IsPermutation n (place b n)
  place-IsPermutation = record {
    inverse = source b n;
    entry-lt = place-lt;
    inverse-lt = λ j h. (place-source j h).0;
    inverse-entry = λ k h.
        let there = place-lt k h in
        let (below, at) = place-source (place b n k) there in
        place-injective (source b n (place b n k)) k below h at;
    entry-inverse = λ j h. (place-source j h).1;
  }
