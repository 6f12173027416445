-- ===== src/Operators/Aggregation/Functions.antt =====
-- What the aggregation functions make of two elements of one group, or of different ones.
use crypt_dough.Base.{
  ℕ, suc, ◌+◌, ◌*◌, ◌%◌, ◌≡◌, ◌<◌, ◌∙◌, refl, ap, fun_ext, arith, mods, mod_eq_by, ltb,
  if◌then◌else◌, Bool, true, false, not, xor, ◌&&◌, ◌||◌,
}
use native.Mathlib.Nat.{mod-eq_of_lt, mod-lt}
use crypt_dough.Circuits.Bits.{Bits, bit_value}
use crypt_dough.Operators.Aggregation.{
  ArithmeticFunc, BooleanFunc, multiplex_a, multiplex_b, min_max_agg, apply_a, apply_b,
}

-- The earlier element `a` and the later `b` of one group.
abbrev pub op_a : ℕ → ArithmeticFunc → ℕ → ℕ → ℕ
op_a top ArithmeticFunc.sum a b = (b + a) % suc top
op_a top ArithmeticFunc.count a b = (b + a) % suc top
op_a top ArithmeticFunc.copy a b = a

-- Cells are compared by a number: the greater one stays, or the smaller one; of equal ones the
-- later stays as the maximum and the earlier as the minimum.
abbrev pub op_b : (Bits → ℕ) → BooleanFunc → Bits → Bits → Bits
op_b rank BooleanFunc.bit_or a b = λ i. b i || a i
op_b rank BooleanFunc.max a b = if ltb (rank b) (rank a) then a else b
op_b rank BooleanFunc.min a b = if ltb (rank b) (rank a) then b else a
op_b rank BooleanFunc.copy a b = a
op_b rank BooleanFunc.valid a b = λ i. b i && a i

or_assoc : (x y z : Bool) → (x || (y || z)) ≡ ((x || y) || z)
or_assoc true y z = refl
or_assoc false y z = refl

and_assoc : (x y z : Bool) → (x && (y && z)) ≡ ((x && y) && z)
and_assoc true y z = refl
and_assoc false y z = refl

xor_back : (x y : Bool) → xor x (xor y x) ≡ y
xor_back true true = refl
xor_back true false = refl
xor_back false true = refl
xor_back false false = refl

xor-false : (x : Bool) → xor x false ≡ x
xor-false true = refl
xor-false false = refl

pub op_a_assoc :
    (top : ℕ) (func : ArithmeticFunc) (a b c : ℕ)
    → op_a top func (op_a top func a b) c ≡ op_a top func a (op_a top func b c)
op_a_assoc top ArithmeticFunc.sum a b c = simp mods (ap (λ t. t % suc top) (omega arith))
op_a_assoc top ArithmeticFunc.count a b c = simp mods (ap (λ t. t % suc top) (omega arith))
op_a_assoc top ArithmeticFunc.copy a b c = refl

later_max :
    {A : Type 0} (rank : A → ℕ) (a b c : A)
    → (if ltb (rank c) (rank (if ltb (rank b) (rank a) then a else b))
        then (if ltb (rank b) (rank a) then a else b)
        else c)
      ≡ (if ltb (rank (if ltb (rank c) (rank b) then b else c)) (rank a)
          then a
          else (if ltb (rank c) (rank b) then b else c))
later_max rank a b c = ground arith

earlier_min :
    {A : Type 0} (rank : A → ℕ) (a b c : A)
    → (if ltb (rank c) (rank (if ltb (rank b) (rank a) then b else a))
        then c
        else (if ltb (rank b) (rank a) then b else a))
      ≡ (if ltb (rank (if ltb (rank c) (rank b) then c else b)) (rank a)
          then (if ltb (rank c) (rank b) then c else b)
          else a)
earlier_min rank a b c = ground arith

pub op_b_assoc :
    (rank : Bits → ℕ) (func : BooleanFunc) (a b c : Bits)
    → op_b rank func (op_b rank func a b) c ≡ op_b rank func a (op_b rank func b c)
op_b_assoc rank BooleanFunc.bit_or a b c = fun_ext λ i. or_assoc (c i) (b i) (a i)
op_b_assoc rank BooleanFunc.max a b c = later_max rank a b c
op_b_assoc rank BooleanFunc.min a b c = earlier_min rank a b c
op_b_assoc rank BooleanFunc.copy a b c = refl
op_b_assoc rank BooleanFunc.valid a b c = fun_ext λ i. and_assoc (c i) (b i) (a i)

multiplex_b-if : (sel : Bool) (a b : Bits) → multiplex_b sel a b ≡ (if sel then b else a)
unfolding multiplex_b
multiplex_b-if true a b = fun_ext λ i. xor_back (a i) (b i)
multiplex_b-if false a b = fun_ext λ i. xor-false (a i)

multiplex_a-if :
    (top : ℕ) (sel : Bool) (a b : ℕ)
    → a < suc top
    → b < suc top
    → multiplex_a top (bit_value sel) a b ≡ (if sel then b else a)
unfolding multiplex_a
multiplex_a-if top true a b ha hb =
    simp mods (mod_eq_by (suc top) 0 a (a + 1 * (b + top * a)) b (omega arith)) ∙ mod-eq_of_lt hb
multiplex_a-if top false a b ha hb =
    simp mods (ap (λ t. t % suc top) (omega arith)) ∙ mod-eq_of_lt ha

or_false : (x : Bool) → (x || false) ≡ x
or_false true = refl
or_false false = refl

min_test :
    {A : Type 0} (rank : A → ℕ) (same : Bool) (a b : A)
    → (if same then (if not (ltb (rank b) (rank a)) then a else b) else b)
      ≡ (if same then (if ltb (rank b) (rank a) then b else a) else b)
min_test rank same a b = ground arith

-- On numbers that fit, an element becomes the aggregate with an earlier one of its group, and stays
-- if that one is of another group.
pub apply_a-op_a :
    (top : ℕ) (func : ArithmeticFunc) (same : Bool) (a b : ℕ)
    → a < suc top
    → b < suc top
    → apply_a top func (bit_value same) b a ≡ (if same then op_a top func a b else b)
unfolding apply_a
apply_a-op_a top ArithmeticFunc.sum true a b ha hb = simp mods (ap (λ t. t % suc top) (omega arith))
apply_a-op_a top ArithmeticFunc.sum false a b ha hb =
    simp mods (ap (λ t. t % suc top) (omega arith)) ∙ mod-eq_of_lt hb
apply_a-op_a top ArithmeticFunc.count true a b ha hb =
    simp mods (ap (λ t. t % suc top) (omega arith))
apply_a-op_a top ArithmeticFunc.count false a b ha hb =
    simp mods (ap (λ t. t % suc top) (omega arith)) ∙ mod-eq_of_lt hb
apply_a-op_a top ArithmeticFunc.copy same a b ha hb = multiplex_a-if top same b a hb ha

pub apply_a-lt :
    (top : ℕ) (func : ArithmeticFunc) (group a b : ℕ) → apply_a top func group a b < suc top
unfolding apply_a multiplex_a
apply_a-lt top ArithmeticFunc.sum group a b = mod-lt _ (omega arith)
apply_a-lt top ArithmeticFunc.count group a b = mod-lt _ (omega arith)
apply_a-lt top ArithmeticFunc.copy group a b = mod-lt _ (omega arith)

pub apply_b-op_b :
    (rank : Bits → ℕ) (func : BooleanFunc) (same : Bool) (a b : Bits)
    → apply_b (λ x y. ltb (rank y) (rank x)) func same b a
      ≡ (if same then op_b rank func a b else b)
unfolding apply_b min_max_agg
apply_b-op_b rank BooleanFunc.bit_or true a b = refl
apply_b-op_b rank BooleanFunc.bit_or false a b = fun_ext λ i. or_false (b i)
apply_b-op_b rank BooleanFunc.max same a b =
    multiplex_b-if same b (multiplex_b (ltb (rank b) (rank a)) b a)
    ∙ ap (λ q. if same then q else b) (multiplex_b-if (ltb (rank b) (rank a)) b a)
apply_b-op_b rank BooleanFunc.min same a b =
    multiplex_b-if same b (multiplex_b (not (ltb (rank b) (rank a))) b a)
    ∙ ap (λ q. if same then q else b) (multiplex_b-if (not (ltb (rank b) (rank a))) b a)
    ∙ min_test rank same a b
apply_b-op_b rank BooleanFunc.copy same a b = multiplex_b-if same b a
apply_b-op_b rank BooleanFunc.valid same a b = multiplex_b-if same b (λ i. b i && a i)
