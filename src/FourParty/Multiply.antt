-- ===== src/FourParty/Multiply.antt =====
-- The operations of four ranks that are made of `inp`: products, division by a constant,
-- truncation, the conversion of a bit and the redistribution of boolean shares.
use crypt_dough.Base.{
  ℕ, zero, suc, ◌==◌, if◌then◌else◌, Bool, not, ◌&&◌, ◌||◌, Option, none, some, List, [], ◌∷◌,
}
use crypt_dough.Comm.{all_four, handle_precision, ◌>>=◌}
use crypt_dough.Lanes.{Lanes}
use crypt_dough.Lanes.Vector.{vector}
use crypt_dough.Replicated.DotProduct.{dot_product}
use crypt_dough.FourParty.Ranks.{next_party, excluded_party, abs2sh}
use crypt_dough.FourParty.Shares.{EVector, Encoding, a_shared, b_shared}
use crypt_dough.FourParty.Jmp.{pairs}
use crypt_dough.FourParty.Inp.{Party, inp_with, inp}

-- The values of all ranks after an operation, and their states.
abbrev pub State : Type 0 → Type 0 → Type 0
State A H = (ℕ → EVector A) × (ℕ → Party H)

-- `divrem` by a constant, and the test for a negative element, on one vector.
pub record Division (A : Type 0) : Type 0 where
  pub constant : A
  pub divrem : A → A × A
  pub is_negative : A → A

module _ {I A : Type 0} (v : Lanes I A) where
  abbrev pub plus : (ℕ → EVector A) → (ℕ → EVector A) → ℕ → EVector A
  plus x y me = record {
    share = λ k. v.add ((x me).share k) ((y me).share k);
    precision = (x me).precision;
  }

  abbrev pub minus : (ℕ → EVector A) → (ℕ → EVector A) → ℕ → EVector A
  minus x y me = record {
    share = λ k. v.sub ((x me).share k) ((y me).share k);
    precision = (x me).precision;
  }

-- `generic_multiply` without its last steps: `times` is `multiplyOp`, and the sums are in `v`.
module _ {J A B H : Type 0} (v : Lanes J B) (e : Encoding) (update : H → B → H) (stream : ℕ → ℕ → B)
    (times : A → A → B) (x y : ℕ → EVector A) where
  -- The cross terms of the two shares that both ranks of a pair hold.
  unfoldable pub cross_terms : ℕ → ℕ → (ℕ → ℕ → B) → ℕ → B
  unfolding abs2sh
  cross_terms g h r me =
      if (me == g) || (me == h)
      then r me 0
      else v.add (times ((x me).share (abs2sh me h)) ((y me).share (abs2sh me g)))
          (times ((x me).share (abs2sh me g)) ((y me).share (abs2sh me h)))

  unfoldable pub multiply_loop :
      List (ℕ × ℕ) → (ℕ → ℕ → B) → (ℕ → Party H) → (ℕ → ℕ → B) × (ℕ → Party H)
  unfolding cross_terms next_party excluded_party inp_with
  multiply_loop [] r parties = (r, parties)
  multiply_loop ((i, j) ∷ rest) r parties =
      let g = next_party i j in
      let h = excluded_party i j g in
      let shared = inp_with v e update stream (cross_terms g h r) i j g h parties in
      multiply_loop rest (λ me k. v.add (r me k) ((shared me).0.share k)) (λ me. (shared me).1)

  unfoldable pub generic_multiply : (ℕ → Party H) → Option (State B H)
  unfolding multiply_loop
  generic_multiply parties =
      let (r, after) = multiply_loop pairs (λ me k. v.zeros) parties in
      do
        precision ← all_four (λ me. handle_precision (x me).precision (y me).precision)
        some (
          (λ me. record {
            share = λ k. v.add (r me k) (times ((x me).share k) ((y me).share k));
            precision = precision me;
          }),
          after,
        )

module _ {I A H : Type 0} (v : Lanes I A) (update : H → A → H) (stream : ℕ → ℕ → A) where
  -- The product of a local division of the two shares that a rank adds, before they are shared.
  unfoldable pub divided : Bool → Division A → (ℕ → EVector A) → ℕ → A × A
  divided corrected d x me =
      let sum : A =
        if (me == 3) || (me == 1)
        then v.add ((x me).share 0) ((x me).share 1)
        else v.add ((x me).share 1) ((x me).share 2) in
      let (res, err) = d.divrem sum in
      let x_sum_neg = d.is_negative sum in
      let err_neg = v.add err (v.mul x_sum_neg d.constant) in
      if not corrected then (res, err) else (
        v.sub res x_sum_neg,
        if (me == 3) || (me == 2) then v.sub err_neg d.constant else err_neg,
      )

  -- `inp(x, 3, 2) + inp(x, 1, 0)`.
  unfoldable pub inp_halves : (ℕ → A) → (ℕ → Party H) → State A H
  unfolding inp
  inp_halves x parties =
      let upper = inp v a_shared update stream x 3 2 parties in
      let lower = inp v a_shared update stream x 1 0 (λ me. (upper me).1) in
      (plus v (λ me. (upper me).0) (λ me. (lower me).0), λ me. (lower me).1)

  -- `corrected` tells if USE_DIVISION_CORRECTION is defined.
  unfoldable pub div_const_a :
      Bool
      → Division A
      → (ℕ → EVector A)
      → (ℕ → Party H)
      → (ℕ → EVector A) × (ℕ → EVector A) × (ℕ → Party H)
  unfolding divided inp_halves
  div_const_a corrected d x parties =
      let (err, between) : State A H =
        if corrected
        then inp_halves (λ me. (divided corrected d x me).1) parties
        else ((λ me. record { share = λ k. v.zeros; precision = 0 }), parties) in
      let (res, after) = inp_halves (λ me. (divided corrected d x me).0) between in
      (res, err, after)

  module _ (corrected : Bool) (division : ℕ → Division A) where
    -- `truncate`: the ranks run the division together, so they have to agree on whether to.
    -- `division` is the one by `1 << precision`.
    unfoldable pub truncate : State A H → Option (State A H)
    unfolding div_const_a
    truncate (z, parties) =
        let whole : ℕ → Bool = λ me. (z me).precision == 0 in
        if whole 0 && whole 1 && whole 2 && whole 3
        then some (z, parties)
        else if whole 0 || whole 1 || whole 2 || whole 3
        then none
        else let (res, err, after) = div_const_a corrected (division (z 0).precision) z parties in
          some ((λ me. record { share = (res me).share; precision = (z me).precision }), after)

    unfoldable pub multiply_a :
        (ℕ → EVector A) → (ℕ → EVector A) → (ℕ → Party H) → Option (State A H)
    unfolding generic_multiply truncate
    multiply_a x y parties = do
      z ← generic_multiply v a_shared update stream v.mul x y parties
      truncate z

    -- `mask` is `& 1` and `xor_bits` is ^ of the words.
    module _ (mask : A → A) (xor_bits : A → A → A) (x : ℕ → EVector A) where
      -- What is in `s0` at the ranks 0 and 1, and in `s1` at the ranks 2 and 3.
      unfoldable pub two_share : ℕ → A
      two_share me =
          if (me == 0) || (me == 2)
          then xor_bits (mask ((x me).share 1)) (mask ((x me).share 2))
          else xor_bits (mask ((x me).share 0)) (mask ((x me).share 1))

      -- The vectors start as zeros.
      unfoldable pub s0 : ℕ → A
      unfolding two_share
      s0 me = if (me == 0) || (me == 1) then two_share me else v.zeros

      unfoldable pub s1 : ℕ → A
      unfolding two_share
      s1 me = if (me == 2) || (me == 3) then two_share me else v.zeros

      unfoldable pub b2a_bit : (ℕ → Party H) → Option (State A H)
      unfolding s0 s1 inp multiply_a
      b2a_bit parties =
          let share0 = inp v a_shared update stream s0 1 0 parties in
          let share1 = inp v a_shared update stream s1 3 2 (λ me. (share0 me).1) in
          let difference = minus v (λ me. (share0 me).0) (λ me. (share1 me).0) in
          multiply_a difference difference (λ me. (share1 me).1)

module _ {I A H : Type 0} (v : Lanes I A) (update : H → A → H) (stream : ℕ → ℕ → A) where
  -- `and_b`, with `add` for ^ and `mul` for &; boolean products are not truncated.
  unfoldable pub and_b : (ℕ → EVector A) → (ℕ → EVector A) → (ℕ → Party H) → Option (State A H)
  unfolding generic_multiply
  and_b x y parties = generic_multiply v b_shared update stream v.mul x y parties

  -- `redistribute_shares_b`: `sum` is + of the words, whose ^ is the `add` of the lanes.
  module _ (sum : A → A → A) where
    unfoldable pub local_sum : (ℕ → EVector A) → ℕ → A
    local_sum x me =
        if (me == 0) || (me == 2)
        then sum ((x me).share 0) ((x me).share 1)
        else sum ((x me).share 1) ((x me).share 2)

    unfoldable pub redistribute_shares_b :
        (ℕ → EVector A) → (ℕ → Party H) → (ℕ → EVector A) × (ℕ → EVector A) × (ℕ → Party H)
    unfolding local_sum inp
    redistribute_shares_b x parties =
        let res_1 = inp v b_shared update stream (local_sum x) 0 3 parties in
        let res_2 = inp v b_shared update stream (local_sum x) 2 1 (λ me. (res_1 me).1) in
        ((λ me. (res_1 me).0), (λ me. (res_2 me).0), λ me. (res_2 me).1)

-- `not_b` and `not_b_1` at rank `me`: `complement` is ~, or ! of a masked bit, and only the
-- ranks that hold the share of rank 3 change it.
unfoldable pub flip_share : {A : Type 0} → (A → A) → (ℕ → A) → ℕ → ℕ → A
flip_share complement x me zero = if me == 2 then complement (x 0) else x 0
flip_share complement x me (suc zero) = if me == 1 then complement (x 1) else x 1
flip_share complement x me (suc (suc k)) = if me == 0 then complement (x 2) else x 2

unfoldable pub not_b : {A : Type 0} → (A → A) → ℕ → EVector A → EVector A
unfolding flip_share
not_b complement me x = record { share = flip_share complement x.share me; precision = 0 }

unfoldable pub not_b_1 : {A : Type 0} → (A → A) → (A → A) → ℕ → EVector A → EVector A
unfolding flip_share
not_b_1 mask negate me x = record {
  share = flip_share negate (λ k. mask (x.share k)) me;
  precision = 0;
}

-- `dot_product_a`, in chunks of `agg_size` (DotProductOps of
-- include/core/protocols/op_structs.h).
module _ {I A H : Type 0} (v : Lanes I A) (update : H → (ℕ → A) → H) (stream : ℕ → ℕ → ℕ → A) where
  unfoldable pub fantastic_dot_product_a :
      Bool
      → (ℕ → Division (ℕ → A))
      → ℕ
      → (ℕ → EVector (ℕ → A))
      → (ℕ → EVector (ℕ → A))
      → (ℕ → Party H)
      → Option (State (ℕ → A) H)
  unfolding generic_multiply truncate dot_product
  fantastic_dot_product_a corrected division agg_size x y parties = do
    z ← generic_multiply (vector ℕ v) a_shared update stream (dot_product v agg_size) x y parties
    truncate (vector ℕ v) update stream corrected division z
