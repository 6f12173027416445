-- ===== src/Random/Permutation/Laws.antt =====
-- About `gen_perm`.
use crypt_dough.Base.{
  ℕ, zero, suc, ◌+◌, ◌-◌, ◌≡◌, ◌<◌, ◌≤◌, ◌∙◌, refl, ap, arith, ◌==◌, ltb, false, if◌then◌else◌,
  Option, some, Bool-cases, inl, inr,
}
use crypt_dough.Comm.{◌>>=◌}
use crypt_dough.Random.Permutation.{swap, masked_random, draw_below, shuffle_loop, gen_perm}

-- The entries below `size` are the numbers below `size`, each once: there is an inverse.
pub record IsPermutation (size : ℕ) (p : ℕ → ℕ) : Type 0 where
  pub inverse : ℕ → ℕ
  pub entry-lt : (k : ℕ) → k < size → p k < size
  pub inverse-lt : (k : ℕ) → k < size → inverse k < size
  pub inverse-entry : (k : ℕ) → k < size → inverse (p k) ≡ k
  pub entry-inverse : (k : ℕ) → k < size → p (inverse k) ≡ k

abbrev transpose : ℕ → ℕ → ℕ → ℕ
transpose i j k = if k == i then j else if k == j then i else k

transpose_twice : (i j k : ℕ) → transpose i j (transpose i j k) ≡ k
transpose_twice i j k = ground arith

transpose-lt : (n i j k : ℕ) → i < n → j < n → k < n → transpose i j k < n
transpose-lt n i j k a b c = ground arith

swap-transpose : (p : ℕ → ℕ) (i j k : ℕ) → swap p i j k ≡ p (transpose i j k)
swap-transpose p i j k = ground arith

swap-IsPermutation :
    (n : ℕ) (p : ℕ → ℕ) (i j : ℕ) → i < n → j < n → IsPermutation n p → IsPermutation n (swap p i j)
swap-IsPermutation n p i j a b perm = record {
  inverse = λ k. transpose i j (perm.inverse k);
  entry-lt = λ k c. ground (arith, perm.entry-lt i a, perm.entry-lt j b, perm.entry-lt k c);
  inverse-lt = λ k c. transpose-lt n i j (perm.inverse k) a b (perm.inverse-lt k c);
  inverse-entry = λ k c.
      ap (λ t. transpose i j (perm.inverse t)) (swap-transpose p i j k)
      ∙ ap (transpose i j) (perm.inverse-entry (transpose i j k) (transpose-lt n i j k a b c))
      ∙ transpose_twice i j k;
  entry-inverse = λ k c.
      swap-transpose p i j _ ∙ ap p (transpose_twice i j (perm.inverse k)) ∙ perm.entry-inverse k c;
}

not_below : (a b : ℕ) → ltb a b ≡ false → b ≤ a
not_below a b e = ground arith

module _ (stream : ℕ → ℕ) (size : ℕ) where
  -- Every window of `fuel` random words has one whose masked value is zero.
  abbrev pub HasZeros : ℕ → Type 0
  HasZeros fuel = (k : ℕ) → (d : ℕ) × (d < fuel) × (masked_random stream size (k + d) ≡ 0)

  draw_below_finds :
      (fuel i k d : ℕ)
      → d < fuel
      → masked_random stream size (k + d) ≡ 0
      → (r : ℕ × ℕ) × (draw_below stream size fuel i k ≡ some r) × (r.0 ≤ size - i - 1)
  unfolding draw_below
  draw_below_finds zero i k d h e = absurd (omega arith)
  draw_below_finds (suc fuel) i k zero h e =
      let word : masked_random stream size k ≡ 0 =
        ap (masked_random stream size) {x = k} {y = k + 0} (omega arith) ∙ e in
      let small : ltb (size - i - 1) (masked_random stream size k) ≡ false = ground (arith, word) in
      ((masked_random stream size k, suc k), rw (small, draw_below) refl, omega (arith, word))
  draw_below_finds (suc fuel) i k (suc d) h e =
      let (r, runs, small) =
        draw_below_finds fuel i (suc k) d (omega arith)
          (ap (masked_random stream size) {x = suc k + d} {y = k + suc d} (omega arith) ∙ e) in
      elim (Bool-cases (ltb (size - i - 1) (masked_random stream size k))) [
        | inl large ↦ (r, rw (large, draw_below) runs, small)
        | inr fits ↦
            ((masked_random stream size k, suc k), rw (fits, draw_below) refl, not_below _ _ fits)
      ]

  shuffle_loop_finds :
      (fuel left i k : ℕ) (p : ℕ → ℕ)
      → HasZeros fuel
      → i + left ≡ size
      → IsPermutation size p
      → (q : ℕ → ℕ) × (shuffle_loop stream size fuel left i k p ≡ some q) × IsPermutation size q
  unfolding shuffle_loop
  shuffle_loop_finds fuel zero i k p zeros e perm = (p, refl, perm)
  shuffle_loop_finds fuel (suc left) i k p zeros e perm =
      let (d, h, z) = zeros k in
      let (r, runs, small) = draw_below_finds fuel i k d h z in
      let (q, rest, done) =
        shuffle_loop_finds fuel left (suc i) r.1 (swap p i (i + r.0)) zeros (omega arith)
          (swap-IsPermutation size p i (i + r.0) (omega arith) (omega arith) perm) in
      (
        q,
        ap
              (λ (o : Option (ℕ × ℕ)). o >>= λ drawn.
                shuffle_loop stream size fuel left (suc i) drawn.1 (swap p i (i + drawn.0)))
              runs
            ∙ rest,
        done,
      )

  -- If every window of `fuel` random words has one whose masked value is zero, the rejection loop
  -- ends within `fuel` rounds at every position, and the shuffle gives a permutation of the numbers
  -- below the size.
  pub gen_perm-IsPermutation :
      (fuel : ℕ)
      → HasZeros fuel
      → (p : ℕ → ℕ) × (gen_perm stream size fuel ≡ some p) × IsPermutation size p
  unfolding gen_perm
  gen_perm-IsPermutation fuel zeros =
      shuffle_loop_finds fuel size 0 0 (λ k. k) zeros (omega arith)
        (record {
          inverse = λ k. k;
          entry-lt = λ k h. h;
          inverse-lt = λ k h. h;
          inverse-entry = λ k h. refl;
          entry-inverse = λ k h. refl;
        })
