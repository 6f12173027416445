-- ===== src/Operators/TreePrefixSum/Laws.antt =====
-- About `tree_prefix_sum` of include/core/operators/aggregation.h.
use crypt_dough.Base.{
  ℕ, zero, suc, ◌+◌, ◌-◌, ◌*◌, ◌/◌, ◌^◌, ◌≡◌, ◌≤◌, ◌<◌, ◌∙◌, sym, refl, ap, arith, ltb,
  if◌then◌else◌, Bool, Bool-cases, true, false, inl, inr, bit_width, bit_width-power, pow_pos,
  pow_add,
}
use native.Mathlib.Nat.{pow-suc, mul-div_cancel_left}
use crypt_dough.Operators.Aggregation.{view}
use crypt_dough.Operators.Aggregation.Groups.{view_twice}
use crypt_dough.Operators.TreePrefixSum.{add_shifted, tree_loop, tree_prefix_sum}

module _ {A : Type 0} (add : A → A → A) where
  -- The sum of the entries up to `k`, one after another.
  abbrev pub prefix : (ℕ → A) → ℕ → A
  prefix x zero = x 0
  prefix x (suc k) = add (x (suc k)) (prefix x k)

  -- The entries at `k`, `k - d`, `k - 2 * d` and so on, at most `fuel` further ones.
  abbrev strided : ℕ → (ℕ → A) → ℕ → ℕ → A
  strided d x zero k = x k
  strided d x (suc fuel) k =
      let rest = strided d x fuel (k - d) in if ltb k d then x k else add (x k) rest

  strided_enough :
      (d : ℕ) (x : ℕ → A) (fuel more k : ℕ)
      → 0 < d
      → k ≤ fuel
      → k ≤ more
      → strided d x fuel k ≡ strided d x more k
  strided_enough d x zero zero k h a b = refl
  strided_enough d x zero (suc more) k h a b =
      let short : ltb k d ≡ true = ground arith in rw short refl
  strided_enough d x (suc fuel) zero k h a b =
      let short : ltb k d ≡ true = ground arith in rw short refl
  strided_enough d x (suc fuel) (suc more) k h a b =
      ap (λ rest. if ltb k d then x k else add (x k) rest)
        (strided_enough d x fuel more (k - d) h (omega arith) (omega arith))

  strided-prefix : (x : ℕ → A) (k : ℕ) → strided 1 x k k ≡ prefix x k
  strided-prefix x zero = refl
  strided-prefix x (suc k) =
      let far : ltb (suc k) 1 ≡ false = ground arith in
      let back : suc k - 1 ≡ k = omega arith in rw (far, back, strided-prefix x k) refl

  strided_first : (d : ℕ) (x : ℕ → A) (fuel k : ℕ) → k < d → strided d x fuel k ≡ x k
  strided_first d x zero k h = refl
  strided_first d x (suc fuel) k h = let near : ltb k d ≡ true = ground arith in rw near refl

  module _ (assoc : (a b c : A) → add (add a b) c ≡ add a (add b c))
      (comm : (a b : A) → add a b ≡ add b a) where
    exchange : (a b c : A) → add (add a b) c ≡ add (add a c) b
    exchange a b c = assoc a b c ∙ ap (add a) (comm b c) ∙ sym (assoc a c b)

    far_half :
        (d : ℕ) (x : ℕ → A) (fuel k : ℕ)
        → 0 < d
        → d ≤ k
        → add (strided (2 * d) x (suc fuel) k) (strided (2 * d) x fuel (k - d))
          ≡ add (x k) (
              if ltb (k - d) d
              then strided (2 * d) x fuel (k - d)
              else add (strided (2 * d) x fuel (k - d)) (strided (2 * d) x fuel (k - d - d)))
    far_half d x fuel k h b = elim (Bool-cases (ltb (k - d) d)) [
      | inl near ↦ let below : ltb k (2 * d) ≡ true = ground (arith, near) in rw (near, below) refl
      | inr far ↦
          let above : ltb k (2 * d) ≡ false = ground (arith, far) in
          let back : k - 2 * d ≡ k - d - d = omega arith in
          rw (far, above, back) (exchange _ _ _ ∙ assoc _ _ _)
    ]

    -- Even and odd multiples of `d` make all of them.
    halved :
        (d : ℕ) (x : ℕ → A) (fuel k : ℕ)
        → 0 < d
        → k ≤ fuel
        → (if ltb k d
            then strided (2 * d) x fuel k
            else add (strided (2 * d) x fuel k) (strided (2 * d) x fuel (k - d)))
          ≡ strided d x fuel k
    halved d x zero k h a = let short : ltb k d ≡ true = ground arith in rw short refl
    halved d x (suc fuel) k h a = elim (Bool-cases (ltb k d)) [
      | inl near ↦ let below : ltb k (2 * d) ≡ true = ground (arith, near) in rw (near, below) refl
      | inr far ↦
          let b : d ≤ k = ground (arith, far) in
          let same =
            strided_enough (2 * d) x (suc fuel) fuel (k - d) (omega arith) (omega arith)
              (omega arith) in
          rw far (
            ap (λ s. add (strided (2 * d) x (suc fuel) k) s) same
            ∙ far_half d x fuel k h b
            ∙ ap (add (x k)) (halved d x fuel (k - d) h (omega arith)))
    ]

    -- The distance of a round, when so many rounds are to come after it.
    distance : (h i left : ℕ) → i + left ≡ h → 2 ^ h / 2 ^ i ≡ 2 ^ left
    distance h i left e =
        let split : 2 ^ h ≡ 2 ^ i * 2 ^ left =
          ap (λ q. 2 ^ q) {x = h} {y = i + left} (sym e) ∙ pow_add i left in
        rw split (mul-div_cancel_left (2 ^ left) (pow_pos i))

    -- Each round halves the distance between the entries that are summed.
    tree_loop-strided :
        (h left i : ℕ) (x y : ℕ → A)
        → i + left ≡ suc h
        → ((k : ℕ) → k < 2 ^ h → y k ≡ strided (2 ^ left) x k k)
        → (k : ℕ) → k < 2 ^ h
        → tree_loop add (2 ^ h) left i y k ≡ strided 1 x k k
    unfolding tree_loop add_shifted
    tree_loop-strided h zero i x y e before k b = before k b
    tree_loop-strided h (suc left) i x y e before k b =
        tree_loop-strided h left (suc i) x (add_shifted add (2 ^ h / 2 ^ i) y) (omega (arith, e))
          (λ m hm.
            let d : 2 ^ h / 2 ^ i ≡ 2 ^ left = distance h i left (omega (arith, e)) in
            let wide : 2 ^ suc left ≡ 2 * 2 ^ left = omega (arith, pow-suc 2 left) in
            let here : y m ≡ strided (2 * 2 ^ left) x m m =
              before m hm ∙ ap (λ w. strided w x m m) wide in
            let there : y (m - 2 ^ left) ≡ strided (2 * 2 ^ left) x m (m - 2 ^ left) =
              before (m - 2 ^ left) (omega arith)
              ∙ ap (λ w. strided w x (m - 2 ^ left) (m - 2 ^ left)) wide
              ∙ strided_enough (2 * 2 ^ left) x (m - 2 ^ left) m (m - 2 ^ left)
                  (omega (arith, pow_pos left)) (omega arith) (omega arith) in
            rw (d, here, there) (halved (2 ^ left) x m m (pow_pos left) (omega arith)))
          k b

    -- The tree prefix sum of 2 ^ h entries with an associative and commutative sum, in either
    -- direction: every entry becomes the sum of the entries up to it in that direction, as one
    -- loop over them would compute it.
    pub tree_prefix_sum-prefix :
        (h : ℕ) (reverse : Bool) (v : ℕ → A) (k : ℕ)
        → k < 2 ^ h
        → view (2 ^ h) reverse (tree_prefix_sum add (2 ^ h) reverse v) k
          ≡ prefix (view (2 ^ h) reverse v) k
    unfolding tree_prefix_sum
    tree_prefix_sum-prefix h reverse v k b =
        let x = view (2 ^ h) reverse v in
        let rounds : bit_width (2 ^ h) - 1 ≡ h = omega (arith, bit_width-power h) in
        view_twice (2 ^ h) reverse (tree_loop add (2 ^ h) (bit_width (2 ^ h) - 1) 1 x) k b
        ∙ ap (λ r. tree_loop add (2 ^ h) r 1 x k) rounds
        ∙ tree_loop-strided h h 1 x x (omega arith) (λ m hm. sym (strided_first (2 ^ h) x m m hm)) k
            b
        ∙ strided-prefix x k
