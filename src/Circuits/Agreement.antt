-- ===== src/Circuits/Agreement.antt =====
-- The row of bits that agree from some position up to the highest one.
use native.Mathlib.Nat.{pow-suc, one-le-pow}
use crypt_dough.Base.{
  ℕ, zero, suc, ◌+◌, ◌-◌, ◌^◌, ◌≡◌, ◌<◌, ◌≤◌, ◌∙◌, refl, sym, ap, ap₂, arith, ◌==◌, Bool, true,
  false, not, ◌&&◌, if◌then◌else◌, min, Bool-cases, inl, inr, ◌⊎◌, subst, bit_width,
  lt-pow-bit_width,
}
use crypt_dough.Circuits.Bits.{Bits, xor_b, and_b, not_b, arithmetic_right_shift, unpack_from}
use crypt_dough.Circuits.Compare.{same_loop, bit_same, linear_loop}
use crypt_dough.Circuits.CompareBits.{and_true, and_assoc, and_self, and_comm, last_index, not_last}

abbrev pub same : Bits → Bits → Bits
same x y = not_b (xor_b x y)

-- A row that tells from where on up to the highest bit the words agree.
pub record Agrees (w : ℕ) (x y eq_bits : Bits) : Type 0 where
  pub highest : eq_bits (w - 1) ≡ same x y (w - 1)
  pub below : (n : ℕ) → suc n < w → eq_bits n ≡ eq_bits (suc n) && same x y n

-- Every window of positions from `i` on, cut off at the highest bit.
module _ (w : ℕ) (s : Bits) where
  abbrev window : ℕ → ℕ → Bool
  window zero i = true
  window (suc n) i = s (min i (w - 1)) && window n (suc i)

  window-add : (m n i : ℕ) → window (m + n) i ≡ window m i && window n (i + m)
  window-add zero n i =
      ap (λ k. window k i) {x = 0 + n} {y = n} (omega arith)
      ∙ ap (window n) {x = i} {y = i + 0} (omega arith)
  window-add (suc m) n i =
      ap (λ k. window k i) {y = suc (m + n)} (omega arith)
      ∙ ap (λ b. s (min i (w - 1)) && b) (window-add m n (suc i))
      ∙ sym (and_assoc (s (min i (w - 1))) (window m (suc i)) _)
      ∙ ap (λ k. window (suc m) i && window n k) {x = suc i + m} (omega arith)

  window_above : (n i j : ℕ) → w - 1 ≤ i → w - 1 ≤ j → window n i ≡ window n j
  window_above zero i j h k = refl
  window_above (suc n) i j h k =
      ap₂ ◌&&◌ (ap s {x = min i (w - 1)} {y = min j (w - 1)} (omega arith))
        (window_above n (suc i) (suc j) (omega arith) (omega arith))

  window-min : (n i : ℕ) → window n (min i (w - 1)) ≡ window n i
  window-min n i = elim (min-cases i) [
    | inl e ↦ ap (window n) e
    | inr e ↦ window_above n _ i (omega (arith, e)) (omega (arith, e))
  ]
    where
      min-cases : (i : ℕ) → (min i (w - 1) ≡ i) ⊎ (min i (w - 1) ≡ w - 1)
      min-cases i = ground arith

  round-window :
      (level j : ℕ)
      → and_b (window (2 ^ level)) (arithmetic_right_shift w (window (2 ^ level)) (2 ^ level)) j
        ≡ window (2 ^ suc level) j
  round-window level j =
      ap (λ b. window (2 ^ level) j && b) (window-min (2 ^ level) (j + 2 ^ level))
      ∙ sym (window-add (2 ^ level) (2 ^ level) j)
      ∙ ap (λ k. window k j) {x = 2 ^ level + 2 ^ level} (omega (arith, pow-suc 2 level))

  same_loop-window :
      (left level : ℕ) (f : Bits)
      → ((i : ℕ) → i < w → f i ≡ window (2 ^ level) i)
      → (i : ℕ) → i < w
      → same_loop w left level f i ≡ window (2 ^ (level + left)) i
  unfolding same_loop
  same_loop-window zero level f e i h =
      e i h ∙ ap (λ k. window (2 ^ k) i) {x = level} {y = level + 0} (omega arith)
  same_loop-window (suc left) level f e i h =
      same_loop-window left (suc level) _
        (λ j k.
          ap₂ ◌&&◌ (e j k) (e (min (j + 2 ^ level) (w - 1)) (omega arith)) ∙ round-window level j)
        i h
      ∙ ap (λ k. window (2 ^ k) i) {x = suc level + left} {y = level + suc left} (omega arith)

  window_highest : (n i : ℕ) → w - 1 ≤ i → window (suc n) i ≡ s (w - 1)
  window_highest zero i h = and_true _ ∙ ap s {x = min i (w - 1)} (omega arith)
  window_highest (suc n) i h =
      ap₂ ◌&&◌ (ap s {x = min i (w - 1)} (omega arith)) (window_highest n (suc i) (omega arith))
      ∙ and_self (s (w - 1))

  -- A window that reaches the highest bit may end with it once more.
  window_full : (n i : ℕ) → w ≤ i + n → i < w → window n i && s (w - 1) ≡ window n i
  window_full zero i h k = absurd (omega arith)
  window_full (suc n) i h k = elim (Bool-cases (i == w - 1)) [
    | inl last ↦
        let e = window_highest n i (omega (arith, last_index i (w - 1) last)) in
        ap (λ b. b && s (w - 1)) e ∙ and_self (s (w - 1)) ∙ sym e
    | inr more ↦
        and_assoc (s (min i (w - 1))) (window n (suc i)) (s (w - 1))
        ∙ ap (λ b. s (min i (w - 1)) && b)
            (window_full n (suc i) (omega arith) (omega (arith, not_last i (w - 1) more)))
  ]

  window-next : (n i : ℕ) → w ≤ suc n → suc i < w → window (suc n) i ≡ window (suc n) (suc i) && s i
  window-next n i h k =
      ap₂ ◌&&◌ (ap s {x = min i (w - 1)} {y = i} (omega arith)) (
        sym (window_full n (suc i) (omega arith) k)
        ∙ ap (λ b. window n (suc i) && b) (sym (window_highest 0 (suc i + n) (omega arith)))
        ∙ sym (window-add n 1 (suc i))
        ∙ ap (λ k. window k (suc i)) {x = n + 1} {y = suc n} (omega arith))
      ∙ and_comm (s i) _

-- The rounds of `bit_same` compute a row that agrees.
pub bit_same-Agrees : (w : ℕ) (x y : Bits) → 0 < w → Agrees w x y (bit_same w x y)
unfolding bit_same
bit_same-Agrees w x y h =
    let full = 2 ^ bit_width (w - 1) in
    let enough : w ≤ suc (full - 1) = omega (arith, lt-pow-bit_width (w - 1)) in
    let row : (i : ℕ) → i < w → bit_same w x y i ≡ window w (same x y) (suc (full - 1)) i = λ i k.
      same_loop-window w (same x y) (bit_width (w - 1)) 0 (same x y)
        (λ j l. ap (same x y) {x = j} {y = min j (w - 1)} (omega arith) ∙ sym (and_true _)) i k
      ∙ ap (λ t. window w (same x y) t i) {x = 2 ^ (0 + bit_width (w - 1))} {y = suc (full - 1)}
          (ap (λ t. 2 ^ t) {x = 0 + bit_width (w - 1)} {y = bit_width (w - 1)} (omega arith)
            ∙ omega (arith, one-le-pow (bit_width (w - 1)) 2 (omega arith))) in
    record {
      highest =
          row (w - 1) (omega arith) ∙ window_highest w (same x y) (full - 1) (w - 1) (omega arith);
      below = λ n k.
          row n (omega arith)
          ∙ window-next w (same x y) (full - 1) n enough k
          ∙ ap (λ b. b && same x y n) (sym (row (suc n) k));
    }

module _ (w : ℕ) (t : Bits) where
  linear_loop_above :
      (i : ℕ) (r : Bool) (row : Bits) (j : ℕ) → i ≤ j → linear_loop w t i r row j ≡ row j
  unfolding linear_loop
  linear_loop_above zero r row j h = refl
  linear_loop_above (suc i) r row j h = linear_loop_above i _ _ j (omega arith) ∙ ground arith

  abbrev conjunction : ℕ → Bool → Bool
  conjunction i r = if i == w - 1 then not (t i) else (r && not (t i))

  written : (row : Bits) (i : ℕ) (b : Bool) → unpack_from row i b i ≡ b
  written row i b = ground arith

  linear_loop_at :
      (i : ℕ) (r : Bool) (row : Bits)
      → suc i < w
      → row (suc i) ≡ r
      → linear_loop w t (suc i) r row i ≡ linear_loop w t (suc i) r row (suc i) && not (t i)
  unfolding linear_loop
  linear_loop_at i r row h e =
      let row' = unpack_from row i (conjunction i r) in
      let kept : row' (suc i) ≡ row (suc i) = ground arith in
      let more : (i == w - 1) ≡ false = ground arith in
      let joined : conjunction i r ≡ r && not (t i) = rw more refl in
      linear_loop_above i (conjunction i r) row' i (omega arith)
      ∙ written row i (conjunction i r)
      ∙ joined
      ∙ ap (λ b. b && not (t i))
          (sym (linear_loop_above i (conjunction i r) row' (suc i) (omega arith) ∙ kept ∙ e))

  linear_loop_below :
      (i : ℕ) (r : Bool) (row : Bits)
      → i ≤ w
      → (i < w → row i ≡ r)
      → (n : ℕ) → n < i
      → suc n < w
      → linear_loop w t i r row n ≡ linear_loop w t i r row (suc n) && not (t n)
  unfolding linear_loop
  linear_loop_below zero r row h e n k l = absurd (omega arith)
  linear_loop_below (suc i) r row h e n k l = elim (Bool-cases (n == i)) [
    | inl last ↦
        subst
          (λ m.
            linear_loop w t (suc i) r row m ≡ linear_loop w t (suc i) r row (suc m) && not (t m))
          (sym (last_index n i last))
          (linear_loop_at i r row (omega (arith, last_index n i last))
            (e (omega (arith, last_index n i last))))
    | inr more ↦
        linear_loop_below i (conjunction i r) (unpack_from row i (conjunction i r)) (omega arith)
          (λ _. written row i (conjunction i r)) n (omega (arith, not_last n i more)) l
  ]

  linear_loop_highest :
      (i : ℕ) (r : Bool) (row : Bits)
      → suc i ≡ w
      → linear_loop w t (suc i) r row (w - 1) ≡ not (t (w - 1))
  unfolding linear_loop
  linear_loop_highest i r row e =
      let here : i ≡ w - 1 = omega arith in
      let last : (i == w - 1) ≡ true = ground arith in
      let joined : conjunction i r ≡ not (t i) = rw last refl in
      subst (λ m. linear_loop w t (suc i) r row m ≡ not (t m)) here
        (linear_loop_above i (conjunction i r) _ i (omega arith)
          ∙ written row i (conjunction i r)
          ∙ joined)

-- The loop of `linear_compare` computes a row that agrees, whatever stood in the output before.
pub linear_loop-Agrees :
    (w : ℕ) (x y row : Bits) → 0 < w → Agrees w x y (linear_loop w (xor_b x y) w false row)
linear_loop-Agrees w x y row h = record {
  highest =
      subst (λ k. linear_loop w (xor_b x y) k false row (w - 1) ≡ same x y (w - 1))
        {x = suc (w - 1)} {y = w} (omega arith)
        (linear_loop_highest w (xor_b x y) (w - 1) false row (omega arith));
  below = λ n k.
      linear_loop_below w (xor_b x y) w false row (omega arith) (λ l. absurd (omega arith)) n
        (omega arith) k;
}
