-- ===== src/Operators/PrefixNetwork/Laws.antt =====
-- The network computes the running aggregate.
use native.Mathlib.Nat.{pow-suc}
use crypt_dough.Base.{
  ℕ, zero, suc, ◌+◌, ◌-◌, ◌*◌, ◌^◌, ◌≡◌, ◌≢◌, ◌<◌, ◌∙◌, ◌⊎◌, inl, inr, refl, sym, ap, ap₂, subst,
  arith, fun_ext, pow_pos, bit_width-pow, ◌==◌, Bool-cases, if◌then◌else◌, Bool,
}
use crypt_dough.Operators.PrefixNetwork.{
  half_depth, depth, level_left, level_right, level_size, apply_pairs, apply_level, run_levels,
  run_network,
}
use crypt_dough.Operators.PrefixNetwork.Scan.{scan_from, IsGrouping, scan_from-join}
use crypt_dough.Operators.PrefixNetwork.Levels.{
  place, place-injective, place-suc, reduce-at, reduce-other, distribute-at, distribute-other,
  run_levels-more,
}

parity : (c : ℕ) → ((j : ℕ) × (c ≡ 2 * j)) ⊎ ((j : ℕ) × (c ≡ 2 * j + 1))
parity zero = inl (0, omega arith)
parity (suc c) = elim (parity c) [
  | inl (j, e) ↦ inr (j, omega (arith, e))
  | inr (j, e) ↦ inl (suc j, omega (arith, e))
]

module _ {A : Type 0} (same : ℕ → ℕ → Bool) (grouping : IsGrouping same) (op : A → A → A)
    (assoc : (a b c : A) → op (op a b) c ≡ op a (op b c)) (x : ℕ → A) where
  -- An element is combined with an earlier one of its group.
  abbrev pub combine : ℕ → ℕ → A → A → A
  combine l k a b = if same l k then op a b else b

  abbrev scan : ℕ → ℕ → A
  scan = scan_from same op x

  -- Blocks of `2 ^ i` elements hold their aggregates.
  abbrev HasBlocks : ℕ → ℕ → (ℕ → A) → Type 0
  HasBlocks i r v = (c : ℕ) → c < 2 ^ r → v (place i c) ≡ scan (c * 2 ^ i) (2 ^ i - 1)

  -- Where blocks of `2 ^ i` elements end, the elements hold the running aggregate.
  abbrev IsComplete : ℕ → ℕ → (ℕ → A) → Type 0
  IsComplete i r v = (c : ℕ) → c < 2 ^ r → v (place i c) ≡ scan 0 (place i c)

  -- A run of places and the block behind it.
  block-join :
      (i a d q : ℕ)
      → a + d ≡ place i q
      → combine (place i q) (place i (q + 1)) (scan a d) (scan ((q + 1) * 2 ^ i) (2 ^ i - 1))
        ≡ scan a (suc (d + (2 ^ i - 1)))
  block-join i a d q e =
      ap (λ s. combine (place i q) (place i (q + 1)) (scan a d) (scan s (2 ^ i - 1)))
        {x = (q + 1) * 2 ^ i} {y = suc (place i q)} (omega (arith, pow_pos i))
      ∙ sym (
          scan_from-join same grouping op assoc x a d (2 ^ i - 1) (place i q) (place i (q + 1)) e
            (omega (arith, pow_pos i)))

  first_block : (i c : ℕ) → c ≡ 0 → scan (c * 2 ^ i) (2 ^ i - 1) ≡ scan 0 (place i c)
  first_block i c e =
      let none = ap (λ (t : ℕ). t * 2 ^ i) e in
      ap (λ a. scan a (2 ^ i - 1)) {x = c * 2 ^ i} {y = 0} (omega (arith, none))
      ∙ ap (scan 0) {x = 2 ^ i - 1} {y = place i c} (omega (arith, none))

  module _ (h i r : ℕ) (e : i + suc r ≡ h) (v : ℕ → A) where
    -- One level makes blocks of twice the size.
    reduce-HasBlocks : HasBlocks i (suc r) v → HasBlocks (suc i) r (apply_level combine (2 ^ h) i v)
    reduce-HasBlocks blocks c b =
        ap (apply_level combine (2 ^ h) i v) (place-suc i c)
        ∙ reduce-at combine h i r e v c b
        ∙ ap₂ (combine (place i (2 * c)) (place i (2 * c + 1)))
            (blocks (2 * c) (omega (arith, b, pow-suc 2 r)))
            (blocks (2 * c + 1) (omega (arith, b, pow-suc 2 r)))
        ∙ block-join i (2 * c * 2 ^ i) (2 ^ i - 1) (2 * c) refl
        ∙ ap (λ a. scan a (suc (2 ^ i - 1 + (2 ^ i - 1)))) {x = 2 * c * 2 ^ i} {y = c * 2 ^ suc i}
            (omega (arith, ap (λ (t : ℕ). c * t) (pow-suc 2 i)))
        ∙ ap (scan (c * 2 ^ suc i)) {x = suc (2 ^ i - 1 + (2 ^ i - 1))} {y = 2 ^ suc i - 1}
            (omega (arith, pow-suc 2 i, pow_pos i))

    reduce-even : (c : ℕ) → apply_level combine (2 ^ h) i v (place i (2 * c)) ≡ v (place i (2 * c))
    reduce-even c =
        reduce-other combine h i r e v (place i (2 * c))
          (λ j f. absurd (omega (arith, place-injective i (2 * c) (2 * j + 1) f)))

    -- A level of the second half completes the blocks between complete ones. `w` is the vector then,
    -- of which the first half left the odd blocks alone.
    distribute-IsComplete :
        (w : ℕ → A)
        → 0 < r
        → HasBlocks i (suc r) v
        → IsComplete (suc i) r w
        → ((c : ℕ) → w (place i (2 * c)) ≡ v (place i (2 * c)))
        → IsComplete i (suc r) (apply_level combine (2 ^ h) (i + 2 * r) w)
    distribute-IsComplete w some blocks complete kept c b = elim (parity c) [
      | inl (zero, f) ↦
          ap (λ q. apply_level combine (2 ^ h) (i + 2 * r) w (place i q)) {x = c} {y = 2 * 0} f
          ∙ distribute-other combine h i r e w some (place i (2 * 0))
              (λ j g. absurd (omega (arith, place-injective i (2 * 0) (2 * suc j) g)))
          ∙ kept 0
          ∙ blocks (2 * 0) (omega (arith, pow-suc 2 r, pow_pos r))
          ∙ ap (λ a. scan a (2 ^ i - 1)) {x = 2 * 0 * 2 ^ i} {y = 0} (omega arith)
          ∙ ap (scan 0) (omega (arith, ap (λ (t : ℕ). t * 2 ^ i) f))
      | inl (suc j, f) ↦
          ap (λ q. apply_level combine (2 ^ h) (i + 2 * r) w (place i q)) f
          ∙ distribute-at combine h i r e w some j (omega (arith, b, f, pow-suc 2 r))
          ∙ ap₂ (combine (place i (2 * j + 1)) (place i (2 * suc j)))
              (ap w (sym (place-suc i j))
                ∙ complete j (omega (arith, b, f, pow-suc 2 r))
                ∙ ap (scan 0) (place-suc i j))
              (kept (suc j) ∙ blocks (2 * suc j) (omega (arith, b, f)))
          ∙ ap
              (λ q.
                combine (place i (2 * j + 1)) (place i q) (scan 0 (place i (2 * j + 1)))
                  (scan (q * 2 ^ i) (2 ^ i - 1)))
              {x = 2 * suc j} {y = 2 * j + 1 + 1} (omega arith)
          ∙ block-join i 0 (place i (2 * j + 1)) (2 * j + 1) (omega arith)
          ∙ ap (scan 0) {x = suc (place i (2 * j + 1) + (2 ^ i - 1))} {y = place i c}
              (omega (arith, ap (λ (t : ℕ). t * 2 ^ i) f, pow_pos i))
      | inr (j, f) ↦
          ap (λ q. apply_level combine (2 ^ h) (i + 2 * r) w (place i q)) f
          ∙ distribute-other combine h i r e w some (place i (2 * j + 1))
              (λ k g. absurd (omega (arith, place-injective i (2 * j + 1) (2 * suc k) g)))
          ∙ ap w (sym (place-suc i j))
          ∙ complete j (omega (arith, b, f, pow-suc 2 r))
          ∙ ap (scan 0) (place-suc i j ∙ ap (place i) (sym f))
    ]

  -- From level `i` on, and until it is reached again on the way back.
  run_levels-IsComplete :
      (h r i : ℕ)
      → i + r ≡ h
      → (v : ℕ → A) → HasBlocks i r v
      → IsComplete i r (run_levels combine (2 ^ h) (2 * r - 1) i v)
        × ((k : ℕ) → ((c : ℕ) → k ≢ place i c) → run_levels combine (2 ^ h) (2 * r - 1) i v k ≡ v k)
  unfolding run_levels
  run_levels-IsComplete h zero i e v blocks =
      ((λ c b. blocks c b ∙ first_block i c (omega (arith, b))), λ k off. refl)
  run_levels-IsComplete h (suc zero) i e v blocks =
      let v' = apply_level combine (2 ^ h) i v in
      let twice = reduce-HasBlocks h i 0 e v blocks in
      let (complete, kept) = run_levels-IsComplete h zero (suc i) (omega (arith, e)) v' twice in
      (
        λ c b. elim (parity c) [
          | inl (j, f) ↦
              ap (λ q. v' (place i q)) {x = c} {y = 2 * j} f
              ∙ reduce-even h i 0 e v j
              ∙ blocks (2 * j) (omega (arith, b, f))
              ∙ first_block i (2 * j) (omega (arith, b, f))
              ∙ ap (λ q. scan 0 (place i q)) (sym f)
          | inr (j, f) ↦
              ap (λ q. v' (place i q)) {x = c} {y = 2 * j + 1} f
              ∙ ap v' (sym (place-suc i j))
              ∙ complete j (omega (arith, b, f))
              ∙ ap (scan 0) (place-suc i j ∙ ap (place i) (sym f))
        ],
        λ k off. reduce-other combine h i 0 e v k (λ j f. off (2 * j + 1) f),
      )
  run_levels-IsComplete h (suc (suc r)) i e v blocks =
      let v' = apply_level combine (2 ^ h) i v in
      let (complete, kept) =
        run_levels-IsComplete h (suc r) (suc i) (omega (arith, e)) v'
          (reduce-HasBlocks h i (suc r) e v blocks) in
      let w = run_levels combine (2 ^ h) (2 * suc r - 1) (suc i) v' in
      let inner : (k : ℕ) → ((j : ℕ) → k ≢ place i (2 * j + 1)) → w k ≡ v k = λ k off.
        kept k (λ c f. off c (f ∙ place-suc i c)) ∙ reduce-other combine h i (suc r) e v k off in
      let last : run_levels combine (2 ^ h) (2 * suc (suc r) - 1) i v
          ≡ apply_level combine (2 ^ h) (i + 2 * suc r) w =
        ap (λ q. run_levels combine (2 ^ h) q i v) {x = 2 * suc (suc r) - 1}
          {y = suc (suc (2 * suc r - 1))} (omega arith)
        ∙ run_levels-more combine (2 ^ h) (2 * suc r - 1) (suc i) v'
        ∙ ap (λ q. apply_level combine (2 ^ h) q w) {x = suc i + (2 * suc r - 1)}
            {y = i + 2 * suc r} (omega arith) in
      (
        subst (IsComplete i (suc (suc r))) (sym last) (
            distribute-IsComplete h i (suc r) e v w (omega arith) blocks complete (λ c.
              inner (place i (2 * c))
                (λ j f. absurd (omega (arith, place-injective i (2 * c) (2 * j + 1) f))))),
        λ k off.
            ap (λ (u : ℕ → A). u k) last
            ∙ distribute-other combine h i (suc r) e w (omega arith) k (λ j f. off (2 * suc j) f)
            ∙ inner k (λ j f. off (2 * j + 1) f),
      )

-- The Brent-Kung network on 2 ^ h elements, of which there are at least two: with an associative
-- operation, and groups whose places stand together, every element becomes the aggregate of its
-- group up to its place, as one loop over the vector would compute it.
pub run_network-scan :
    {A : Type 0} (same : ℕ → ℕ → Bool) (grouping : IsGrouping same) (op : A → A → A)
    (assoc : (a b c : A) → op (op a b) c ≡ op a (op b c)) (x : ℕ → A) (h : ℕ)
    → 0 < h
    → (k : ℕ) → k < 2 ^ h
    → run_network (λ l q a b. if same l q then op a b else b) (2 ^ h) x k ≡ scan_from same op x 0 k
unfolding run_network depth half_depth
run_network-scan same grouping op assoc x h some k b =
    let levels : 2 * half_depth (2 ^ h) - 1 ≡ 2 * h - 1 = ap (λ q. 2 * q - 1) (bit_width-pow h) in
    let (complete, kept) =
      run_levels-IsComplete same grouping op assoc x h h 0 (omega arith) x
        (λ c hc. ap x (omega arith)) in
    ap (λ q. run_levels (λ l q a b. if same l q then op a b else b) (2 ^ h) q 0 x k) levels
    ∙ ap (run_levels (λ l q a b. if same l q then op a b else b) (2 ^ h) (2 * h - 1) 0 x) {x = k}
        {y = place 0 k} (omega arith)
    ∙ complete k b
    ∙ ap (scan_from same op x 0) {x = place 0 k} {y = k} (omega arith)

-- Two ways to combine that agree on some values, among which they stay, give the same run.
module _ {A : Type 0} (f g : ℕ → ℕ → A → A → A) (P : A → Type 0)
    (stays : (l r : ℕ) (a b : A) → P a → P b → P (f l r a b))
    (agree : (l r : ℕ) (a b : A) → P a → P b → f l r a b ≡ g l r a b) where
  apply_pairs_ext :
      (left right : ℕ → ℕ) (count : ℕ) (v : ℕ → A)
      → ((k : ℕ) → P (v k))
      → (k : ℕ)
      → P (apply_pairs f left right count v k)
        × (apply_pairs f left right count v k ≡ apply_pairs g left right count v k)
  unfolding apply_pairs
  apply_pairs_ext left right zero v good k = (good k, refl)
  apply_pairs_ext left right (suc j) v good k = elim (Bool-cases (k == right j)) [
    | inl e ↦ rw e (
      stays _ _ _ _ (good (left j)) (good (right j)),
      agree _ _ _ _ (good (left j)) (good (right j)),
    )
    | inr e ↦ rw e (apply_pairs_ext left right j v good k)
  ]

  run_levels_ext :
      (n left i : ℕ) (v : ℕ → A)
      → ((k : ℕ) → P (v k))
      → run_levels f n left i v ≡ run_levels g n left i v
  unfolding run_levels apply_level
  run_levels_ext n zero i v good = refl
  run_levels_ext n (suc left) i v good =
      let level = apply_pairs_ext (level_left n i) (level_right n i) (level_size n i) v good in
      run_levels_ext n left (suc i) (apply_level f n i v) (λ k. (level k).0)
      ∙ ap (run_levels g n left (suc i)) (fun_ext λ k. (level k).1)

  pub run_network_ext :
      (n : ℕ) (v : ℕ → A) → ((k : ℕ) → P (v k)) → run_network f n v ≡ run_network g n v
  unfolding run_network
  run_network_ext n v good = run_levels_ext n (depth n) 0 v good
