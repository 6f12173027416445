-- ===== src/Operators/PrefixNetwork/Levels.antt =====
-- What one level of the network does at each place: the ends of blocks of `2 ^ i` elements.
use native.Mathlib.Nat.{pow-suc, div-eq_of_lt-le}
use crypt_dough.Base.{
  ℕ, zero, suc, ◌+◌, ◌-◌, ◌*◌, ◌/◌, ◌^◌, ◌≡◌, ◌≢◌, ◌<◌, ◌≤◌, ◌∙◌, refl, sym, ap, ap₂, arith,
  pow_pos, mul_gap, pow_add, bit_width-pow, ltb, ◌==◌, true, false, Bool-cases, inl, inr,
}
use crypt_dough.Operators.PrefixNetwork.{
  half_depth, level_size, level_left, level_right, apply_pairs, apply_level, run_levels,
}

-- The last element of block `c`.
abbrev pub place : ℕ → ℕ → ℕ
place i c = c * 2 ^ i + (2 ^ i - 1)

pub place-injective : (i a b : ℕ) → place i a ≡ place i b → a ≡ b
place-injective i a b e = elim (Bool-cases (ltb a b)) [
  | inl less ↦ absurd (omega (arith, e, mul_gap (2 ^ i) a b (ground (arith, less)), pow_pos i))
  | inr more ↦ elim (Bool-cases (ltb b a)) [
    | inl less ↦ absurd (omega (arith, e, mul_gap (2 ^ i) b a (ground (arith, less)), pow_pos i))
    | inr equal ↦ ground (arith, more, equal)
  ]
]

-- Blocks of twice the size end where every other block ends.
pub place-suc : (i c : ℕ) → place (suc i) c ≡ place i (2 * c + 1)
place-suc i c =
    let scaled = ap (λ (t : ℕ). c * t) (pow-suc 2 i) in
    omega (arith, scaled, pow-suc 2 i, pow_pos i)

not_equal : (a b : ℕ) → (a == b) ≡ false → a ≢ b
not_equal a b h e = ground (arith, h, e)

equal_not : (a b : ℕ) → a ≢ b → (a == b) ≡ false
equal_not a b h = ground (arith, h)

below_other : (j count : ℕ) → j < suc count → j ≢ count → j < count
below_other j count h other = ground (arith, other)

module _ {A : Type 0} (combine : ℕ → ℕ → A → A → A) where
  apply_pairs-at :
      (left right : ℕ → ℕ) (count j : ℕ) (v : ℕ → A)
      → ((a b : ℕ) → right a ≡ right b → a ≡ b)
      → j < count
      → apply_pairs combine left right count v (right j)
        ≡ combine (left j) (right j) (v (left j)) (v (right j))
  unfolding apply_pairs
  apply_pairs-at left right zero j v one h = absurd (omega arith)
  apply_pairs-at left right (suc count) j v one h = elim (Bool-cases (right j == right count)) [
    | inl e ↦
        let same : j ≡ count = one j count (ground (arith, e)) in
        rw e (ap (λ q. combine (left q) (right q) (v (left q)) (v (right q))) (sym same))
    | inr e ↦
        let other : j ≢ count = λ same. not_equal (right j) (right count) e (ap right same) in
        rw e (apply_pairs-at left right count j v one (omega (arith, below_other j count h other)))
  ]

  apply_pairs-other :
      (left right : ℕ → ℕ) (count k : ℕ) (v : ℕ → A)
      → ((j : ℕ) → k ≢ right j)
      → apply_pairs combine left right count v k ≡ v k
  unfolding apply_pairs
  apply_pairs-other left right zero k v off = refl
  apply_pairs-other left right (suc count) k v off =
      rw (equal_not k (right count) (off count)) (apply_pairs-other left right count k v off)

half_depth-pow : (h : ℕ) → half_depth (2 ^ h) ≡ h
unfolding half_depth
half_depth-pow h = bit_width-pow h

two_le_pow : (r : ℕ) → 0 < r → 2 ≤ 2 ^ r
two_le_pow zero h = absurd (omega arith)
two_le_pow (suc r) h = omega (arith, pow-suc 2 r, pow_pos r)

-- The first half of the levels: neighbouring blocks of `2 ^ i` elements meet.
module _ (h i r : ℕ) (e : i + suc r ≡ h) where
  reduce-left : (j : ℕ) → level_left (2 ^ h) i j ≡ place i (2 * j)
  unfolding level_left
  reduce-left j = ground (arith, half_depth-pow h, e, pow_pos i)

  reduce-right : (j : ℕ) → level_right (2 ^ h) i j ≡ place i (2 * j + 1)
  unfolding level_right
  reduce-right j = ground (arith, half_depth-pow h, e, pow_pos i)

  blocks : 2 ^ h ≡ 2 ^ r * (2 * 2 ^ i)
  blocks =
      ap (λ k. 2 ^ k) {x = h} {y = i + suc r} (sym e)
      ∙ pow_add i (suc r)
      ∙ rw (pow-suc 2 r) (omega arith)

  more : (2 ^ r - 1) * (2 * 2 ^ i) + 2 * 2 ^ i ≡ 2 ^ h
  more =
      let scaled =
        ap (λ (t : ℕ). t * (2 * 2 ^ i)) {x = 2 ^ r} {y = 2 ^ r - 1 + 1}
          (omega (arith, pow_pos r)) in
      omega (arith, scaled, blocks)

  quotient : (2 ^ h - 2 * 2 ^ i) / (2 * 2 ^ i) ≡ 2 ^ r - 1
  quotient = div-eq_of_lt-le (2 * 2 ^ i) (omega (arith, more)) (omega (arith, more, pow_pos i))

  quotient_less : 0 < r → (2 ^ h - 3 * 2 ^ i) / (2 * 2 ^ i) ≡ 2 ^ r - 2
  quotient_less some =
      let two = two_le_pow r some in
      let scaled = ap (λ (t : ℕ). t * (2 * 2 ^ i)) {x = 2 ^ r} {y = 2 ^ r - 2 + 2} (omega arith) in
      div-eq_of_lt-le (2 * 2 ^ i) (omega (arith, scaled, blocks))
        (omega (arith, scaled, blocks, pow_pos i))

  reduce-size : level_size (2 ^ h) i ≡ 2 ^ r
  unfolding level_size
  reduce-size =
      let first : ltb i (half_depth (2 ^ h)) ≡ true = ground (arith, half_depth-pow h, e) in
      rw (first) (omega (arith, quotient, pow_pos r))

  level-test : 0 < r → ltb (i + 2 * r) (half_depth (2 ^ h)) ≡ false
  level-test some = ground (arith, half_depth-pow h, e)

  level-gap : 2 * half_depth (2 ^ h) - 2 - (i + 2 * r) ≡ i
  level-gap = omega (arith, half_depth-pow h, e)

  -- The second half: the same blocks meet again, later ones with the end of those before.
  distribute-left : (j : ℕ) → 0 < r → level_left (2 ^ h) (i + 2 * r) j ≡ place i (2 * j + 1)
  unfolding level_left
  distribute-left j some = rw (level-test some, level-gap) (omega (arith, pow_pos i))

  distribute-right : (j : ℕ) → 0 < r → level_right (2 ^ h) (i + 2 * r) j ≡ place i (2 * suc j)
  unfolding level_right
  distribute-right j some = rw (level-test some, level-gap) (omega (arith, pow_pos i))

  distribute-size : 0 < r → level_size (2 ^ h) (i + 2 * r) ≡ 2 ^ r - 1
  unfolding level_size
  distribute-size some =
      rw (level-test some, level-gap) (omega (arith, quotient_less some, two_le_pow r some))

module _ {A : Type 0} (combine : ℕ → ℕ → A → A → A) (h i r : ℕ) (e : i + suc r ≡ h)
    (v : ℕ → A) where
  -- What the element at place `q` becomes when it meets the one at place `l`.
  abbrev met : ℕ → ℕ → A
  met l q = combine l q (v l) (v q)

  pub reduce-at :
      (j : ℕ)
      → j < 2 ^ r
      → apply_level combine (2 ^ h) i v (place i (2 * j + 1))
        ≡ met (place i (2 * j)) (place i (2 * j + 1))
  unfolding apply_level
  reduce-at j b =
      ap (apply_level combine (2 ^ h) i v) (sym (reduce-right h i r e j))
      ∙ apply_pairs-at combine (level_left (2 ^ h) i) (level_right (2 ^ h) i) (level_size (2 ^ h) i)
          j v
          (λ a c same. omega (
            arith,
            place-injective i (2 * a + 1) (2 * c + 1)
                (sym (reduce-right h i r e a) ∙ same ∙ reduce-right h i r e c),
          ))
          (omega (arith, b, reduce-size h i r e))
      ∙ ap₂ met (reduce-left h i r e j) (reduce-right h i r e j)

  pub reduce-other :
      (k : ℕ) → ((j : ℕ) → k ≢ place i (2 * j + 1)) → apply_level combine (2 ^ h) i v k ≡ v k
  unfolding apply_level
  reduce-other k off =
      apply_pairs-other combine (level_left (2 ^ h) i) (level_right (2 ^ h) i)
        (level_size (2 ^ h) i) k v (λ j same. off j (same ∙ reduce-right h i r e j))

  module _ (some : 0 < r) where
    pub distribute-at :
        (j : ℕ)
        → suc j < 2 ^ r
        → apply_level combine (2 ^ h) (i + 2 * r) v (place i (2 * suc j))
          ≡ met (place i (2 * j + 1)) (place i (2 * suc j))
    unfolding apply_level
    distribute-at j b =
        ap (apply_level combine (2 ^ h) (i + 2 * r) v) (sym (distribute-right h i r e j some))
        ∙ apply_pairs-at combine (level_left (2 ^ h) (i + 2 * r)) (level_right (2 ^ h) (i + 2 * r))
            (level_size (2 ^ h) (i + 2 * r)) j v
            (λ a c same. omega (
              arith,
              place-injective i (2 * suc a) (2 * suc c)
                  (sym (distribute-right h i r e a some) ∙ same ∙ distribute-right h i r e c some),
            ))
            (omega (arith, b, distribute-size h i r e some))
        ∙ ap₂ met (distribute-left h i r e j some) (distribute-right h i r e j some)

    pub distribute-other :
        (k : ℕ)
        → ((j : ℕ) → k ≢ place i (2 * suc j))
        → apply_level combine (2 ^ h) (i + 2 * r) v k ≡ v k
    unfolding apply_level
    distribute-other k off =
        apply_pairs-other combine (level_left (2 ^ h) (i + 2 * r)) (level_right (2 ^ h) (i + 2 * r))
          (level_size (2 ^ h) (i + 2 * r)) k v
          (λ j same. off j (same ∙ distribute-right h i r e j some))

pub run_levels-more :
    {A : Type 0} (combine : ℕ → ℕ → A → A → A) (n a i : ℕ) (v : ℕ → A)
    → run_levels combine n (suc a) i v ≡ apply_level combine n (i + a) (run_levels combine n a i v)
unfolding run_levels
run_levels-more combine n zero i v =
    ap (λ k. apply_level combine n k v) {x = i} {y = i + 0} (omega arith)
run_levels-more combine n (suc a) i v =
    run_levels-more combine n a (suc i) (apply_level combine n i v)
    ∙ ap (λ k. apply_level combine n k (run_levels combine n a (suc i) (apply_level combine n i v)))
        {x = suc i + a} {y = i + suc a} (omega arith)
