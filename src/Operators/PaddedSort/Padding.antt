-- ===== src/Operators/PaddedSort/Padding.antt =====
-- What the padded cells are, and the loop that sorts them as rounds of the radix sort.
use crypt_dough.Base.{
  ℕ, zero, suc, ◌+◌, ◌-◌, ◌*◌, ◌^◌, ◌≡◌, ◌<◌, ◌≤◌, ◌∙◌, refl, sym, ap, ap₂, fun_ext, subst, arith,
  ltb, ◌==◌, if◌then◌else◌, Bool, true, false, not, ◌&&◌, ◌||◌, min,
}
use crypt_dough.Circuits.Bits.{
  Bits, bit_value, value, value_ext, left_shift, arithmetic_right_shift, not_b,
}
use crypt_dough.Random.Permutation.Laws.{IsPermutation}
use crypt_dough.Operators.Shuffle.{oblivious_apply_elementwise_perm}
use crypt_dough.Operators.Shuffle.Laws.{identity-IsPermutation}
use crypt_dough.Operators.RadixSort.{sort_bit, bit_perm, radix_round, radix_loop}
use crypt_dough.Operators.RadixSort.Passes.{key_bits, key, IsSortedBy, radix_loop-IsSortedBy}
use crypt_dough.Operators.PaddedSort.{bits_of, pad_input, body_bit, body_loop, radix_sort_body}
use crypt_dough.Operators.PaddedSort.Numbers.{value-bits_of, value-parts}

or_false : (b : Bool) → (b || false) ≡ b
or_false true = refl
or_false false = refl

-- No index bit is inverted, and of the cell's bits the last one.
key_bits_low :
    (full_width : Bool) (bits pad : ℕ) (x : Bits) (j : ℕ)
    → j < pad
    → 0 < bits
    → key_bits (pad + bits) full_width x j ≡ x j
key_bits_low true bits pad x j h some_bits =
    let e : (j == pad + bits - 1) ≡ false = ground arith in rw e refl
key_bits_low false bits pad x j h some_bits = refl

same_round : (bits pad i : ℕ) → 0 < bits → (pad + i == pad + bits - 1) ≡ (i == bits - 1)
same_round bits pad i h = ground arith

key_bits_high :
    (full_width : Bool) (bits pad : ℕ) (x : Bits) (i : ℕ)
    → 0 < bits
    → key_bits (pad + bits) full_width x (pad + i)
      ≡ (if full_width && (i == bits - 1) then not (x (pad + i)) else x (pad + i))
key_bits_high true bits pad x i h =
    ap (λ b. if b then not (x (pad + i)) else x (pad + i)) (same_round bits pad i h)
key_bits_high false bits pad x i h = refl

-- The row at a position, in the order in which the padded cells stand.
abbrev pub row : ℕ → Bool → ℕ → ℕ
row n reversed k = if reversed then n - 1 - k else k

abbrev pub index_of : ℕ → Bool → ℕ → ℕ
index_of pad reversed k = if reversed then 2 ^ pad - 1 - k else k

module _ (pad w wide n : ℕ) (v : ℕ → Bits) where
  -- A cell above an index.
  abbrev cell : Bits → ℕ → Bits
  cell x d j = left_shift (arithmetic_right_shift w x 0) pad j || (ltb j pad && bits_of d j)

  cell-low : (x : Bits) (d j : ℕ) → j < pad → cell x d j ≡ bits_of d j
  cell-low x d j h = let e : ltb j pad ≡ true = ground arith in rw e refl

  cell-high : (x : Bits) (d i : ℕ) → i < w → cell x d (pad + i) ≡ x i
  cell-high x d i h =
      let e : ltb (pad + i) pad ≡ false = ground arith in
      let there : x (min (pad + i - pad + 0) (w - 1)) ≡ x i = ap x (omega arith) in
      rw (e, there) (or_false (x i))

  pad_input-low :
      (reversed : Bool) (k j : ℕ)
      → j < pad
      → pad_input pad w wide n v reversed k j ≡ bits_of (index_of pad reversed (row n reversed k)) j
  unfolding pad_input
  pad_input-low true k j h = cell-low (v (n - 1 - k)) (2 ^ pad - 1 - (n - 1 - k)) j h
  pad_input-low false k j h = cell-low (v k) k j h

  pub pad_input-high :
      (reversed : Bool) (k i : ℕ)
      → i < w
      → pad_input pad w wide n v reversed k (pad + i) ≡ v (row n reversed k) i
  unfolding pad_input
  pad_input-high true k i h = cell-high (v (n - 1 - k)) (2 ^ pad - 1 - (n - 1 - k)) i h
  pad_input-high false k i h = cell-high (v k) k i h

  pub pad_input-index :
      (reversed : Bool) (k : ℕ)
      → n ≤ 2 ^ pad
      → k < n
      → value pad (pad_input pad w wide n v reversed k) ≡ index_of pad reversed (row n reversed k)
  pad_input-index reversed k fits h =
      value_ext pad _ (bits_of (index_of pad reversed (row n reversed k)))
        (λ j hj. pad_input-low reversed k j hj)
      ∙ value-bits_of pad (index_of pad reversed (row n reversed k)) (ground arith)

  -- The key of a padded cell: the cell's key, and the index where that decides nothing.
  pub key-pad_input :
      (reversed full_width : Bool) (bits k : ℕ)
      → 0 < bits
      → bits ≤ w
      → n ≤ 2 ^ pad
      → k < n
      → (key (pad + bits) full_width pad (pad_input pad w wide n v reversed k)
          ≡ index_of pad reversed (row n reversed k))
        × (key (pad + bits) full_width (pad + bits) (pad_input pad w wide n v reversed k)
            ≡ index_of pad reversed (row n reversed k)
              + key bits full_width bits (v (row n reversed k)) * 2 ^ pad)
  key-pad_input reversed full_width bits k some_bits narrow fits h =
      let x = pad_input pad w wide n v reversed k in
      let r = row n reversed k in
      let low : key (pad + bits) full_width pad x ≡ index_of pad reversed r =
        value_ext pad _ _ (λ j hj. key_bits_low full_width bits pad x j hj some_bits)
        ∙ pad_input-index reversed k fits h in
      let high : value bits (λ i. key_bits (pad + bits) full_width x (pad + i))
          ≡ key bits full_width bits (v r) =
        value_ext bits _ _ (λ i hi.
          key_bits_high full_width bits pad x i some_bits
          ∙ ap (λ b. if full_width && (i == bits - 1) then not b else b)
              (pad_input-high reversed k i (omega arith))) in
      (
        low,
        ap (λ m. value m (key_bits (pad + bits) full_width x)) {x = pad + bits} {y = bits + pad}
              (omega arith)
            ∙ value-parts bits pad (key_bits (pad + bits) full_width x)
            ∙ ap₂ (λ a b. a + b * 2 ^ pad) low high,
      )

module _ (pad w wide n bits : ℕ) (full_width : Bool) (buffer : ℕ → Bits) (int_buffer : ℕ → ℕ)
    (pi : ℕ → ℕ → ℕ) (some_bits : 0 < bits) where
  body_bit-sort_bit :
      (i : ℕ) (v : ℕ → Bits)
      → body_bit pad w wide n buffer int_buffer pi bits full_width i v
        ≡ sort_bit wide (pad + bits) full_width (pad + i) v
  unfolding body_bit sort_bit
  body_bit-sort_bit i v = fun_ext λ k.
      let v_shift : Bits = arithmetic_right_shift wide (v k) (pad + i) in
      ap (λ b. (if full_width && b then not_b v_shift else v_shift) 0)
        (sym (same_round bits pad i some_bits))

  abbrev later : ℕ → ℕ → ℕ
  later m = pi (m - pad)

  body_loop-radix_loop :
      (left i : ℕ) (v : ℕ → Bits) (total_perm : ℕ → ℕ)
      → body_loop pad w wide n buffer int_buffer pi bits full_width left i v
        ≡ (radix_loop
            (2 ^ pad - 1)
            wide
            n
            (pad + bits)
            full_width
            buffer
            int_buffer
            later
            (λ m k. k)
            left
            (pad + i)
            (v, total_perm)).0
  unfolding body_loop radix_loop radix_round
  body_loop-radix_loop zero i v total_perm = refl
  body_loop-radix_loop (suc left) i v total_perm =
      let state =
        radix_round (2 ^ pad - 1) wide n (pad + bits) full_width buffer int_buffer later (λ m k. k)
          (pad + i) (v, total_perm) in
      let same =
        ap₂
          (λ p (b : ℕ → Bool).
            oblivious_apply_elementwise_perm n buffer int_buffer p v
              (bit_perm (2 ^ pad - 1) n (λ k. bit_value (b k))))
          (ap pi {x = i} {y = pad + i - pad} (omega arith)) (body_bit-sort_bit i v) in
      ap (body_loop pad w wide n buffer int_buffer pi bits full_width left (suc i)) same
      ∙ body_loop-radix_loop left (suc i) state.0 state.1
      ∙ ap
          (λ m.
            (radix_loop (2 ^ pad - 1) wide n (pad + bits) full_width buffer int_buffer later
              (λ m k. k) left m state).0)
          {x = pad + suc i} {y = suc (pad + i)} (omega arith)

  -- The body sorts padded cells by their index and the key bits above it.
  pub radix_sort_body-IsSortedBy :
      ((i : ℕ) → IsPermutation n (pi i))
      → pad + bits ≤ wide
      → n ≤ 2 ^ pad
      → (v : ℕ → Bits) → IsSortedBy n (pad + bits) full_width pad v v (λ k. k)
      → (sigma : ℕ → ℕ) × IsSortedBy n
          (pad + bits)
          full_width
          (pad + bits)
          v
          (radix_sort_body pad w wide n buffer int_buffer pi bits full_width v)
          sigma
  unfolding radix_sort_body
  radix_sort_body-IsSortedBy masks narrow fits v start =
      let loops : body_loop pad w wide n buffer int_buffer pi bits full_width bits 0 v ≡ _ =
        body_loop-radix_loop bits 0 v (λ k. k) in
      let sorted =
        radix_loop-IsSortedBy (2 ^ pad - 1) wide n (pad + bits) full_width buffer int_buffer later
          (λ m k. k) (omega (arith, fits)) v (λ i h. masks (i - pad))
          (λ i h. identity-IsPermutation n) narrow bits (pad + 0) (omega arith) v (λ k. k)
          (subst (λ m. IsSortedBy n (pad + bits) full_width m v v (λ k. k)) (omega arith) start) in
      let sigma =
        (radix_loop (2 ^ pad - 1) wide n (pad + bits) full_width buffer int_buffer later (λ m k. k)
          bits (pad + 0) (v, λ k. k)).1 in
      (
        sigma,
        subst (λ u. IsSortedBy n (pad + bits) full_width (pad + bits) v u sigma) (sym loops) sorted,
      )
