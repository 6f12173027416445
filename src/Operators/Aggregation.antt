-- ===== src/Operators/Aggregation.antt =====
-- Aggregation of the rows of a table by groups (include/core/operators/aggregation.h), on the
-- values that are shared. Arithmetic columns hold numbers modulo `suc top`, boolean ones rows of
-- bits; `greater` is the comparison of two cells. All levels of the network see the vectors in the
-- same direction, so they are turned before the first level and after the last.
pub mod Functions
pub mod Groups
pub mod Laws
use crypt_dough.Base.{
  ℕ, zero, suc, ◌+◌, ◌-◌, ◌*◌, ◌%◌, ◌==◌, if◌then◌else◌, Bool, true, false, not, xor, ◌&&◌, ◌||◌,
  Option, none, some, List, [], ◌∷◌,
}
use crypt_dough.Circuits.Bits.{Bits, bit_value}
use crypt_dough.Operators.PrefixNetwork.{run_network}

-- The functions that an aggregation is made with, arithmetic and boolean.
pub data ArithmeticFunc : Type 0 where
  sum : ArithmeticFunc
  count : ArithmeticFunc
  copy : ArithmeticFunc

pub data BooleanFunc : Type 0 where
  bit_or : BooleanFunc
  max : BooleanFunc
  min : BooleanFunc
  copy : BooleanFunc
  valid : BooleanFunc

module _ (top : ℕ) where
  -- `multiplex` of include/core/operators/common.h, arithmetic.
  unfoldable pub multiplex_a : ℕ → ℕ → ℕ → ℕ
  multiplex_a sel a b = (a + sel * ((b + top * a) % suc top) % suc top) % suc top

  unfoldable pub apply_a : ArithmeticFunc → ℕ → ℕ → ℕ → ℕ
  unfolding multiplex_a
  apply_a ArithmeticFunc.sum group a b = (a + group * b % suc top) % suc top
  apply_a ArithmeticFunc.count group a b = (a + group * b % suc top) % suc top
  apply_a ArithmeticFunc.copy group a b = multiplex_a group a b

-- `multiplex`, boolean: the lowest bit of the selector is extended.
unfoldable pub multiplex_b : Bool → Bits → Bits → Bits
multiplex_b sel a b i = xor (a i) (sel && xor (b i) (a i))

module _ (greater : Bits → Bits → Bool) where
  unfoldable pub min_max_agg : Bool → Bool → Bits → Bits → Bits
  unfolding multiplex_b
  min_max_agg minimum group a b =
      let b_greater = if minimum then not (greater b a) else greater b a in
      multiplex_b group a (multiplex_b b_greater a b)

  unfoldable pub apply_b : BooleanFunc → Bool → Bits → Bits → Bits
  unfolding min_max_agg multiplex_b
  apply_b BooleanFunc.bit_or group a b = λ i. a i || (group && b i)
  apply_b BooleanFunc.max group a b = min_max_agg false group a b
  apply_b BooleanFunc.min group a b = min_max_agg true group a b
  apply_b BooleanFunc.copy group a b = multiplex_b group a b
  apply_b BooleanFunc.valid group a b = multiplex_b group a (λ i. a i && b i)

-- The rows in the direction of the aggregation.
abbrev pub view : {A : Type 0} → ℕ → Bool → (ℕ → A) → ℕ → A
view n reversed x k = if reversed then x (n - 1 - k) else x k

-- Rows are in one group if they agree in all keys.
abbrev pub join_group : List (ℕ → ℕ) → ℕ → ℕ → Bool
join_group [] l r = true
join_group (key ∷ keys) l r = (key l == key r) && join_group keys l r

-- Functions other than `copy` also ask for the same bit in the selection column, if there is one.
abbrev pub group : List (ℕ → ℕ) → Option (ℕ → Bool) → Bool → ℕ → ℕ → Bool
group keys none is_copy l r = join_group keys l r
group keys (some sel) true l r = join_group keys l r
group keys (some sel) false l r = join_group keys l r && not (xor (sel l) (sel r))

abbrev pub is_copy_a : ArithmeticFunc → Bool
is_copy_a ArithmeticFunc.copy = true
is_copy_a ArithmeticFunc.sum = false
is_copy_a ArithmeticFunc.count = false

abbrev pub is_copy_b : BooleanFunc → Bool
is_copy_b BooleanFunc.copy = true
is_copy_b BooleanFunc.bit_or = false
is_copy_b BooleanFunc.max = false
is_copy_b BooleanFunc.min = false
is_copy_b BooleanFunc.valid = false

-- Counting sums ones, or the bits of the selection column.
abbrev pub prepared : ArithmeticFunc → Option (ℕ → Bool) → (ℕ → ℕ) → ℕ → ℕ
prepared ArithmeticFunc.count none x k = 1
prepared ArithmeticFunc.count (some sel) x k = bit_value (sel k)
prepared ArithmeticFunc.sum sel x k = x k
prepared ArithmeticFunc.copy sel x k = x k

abbrev pub view_all : ℕ → Bool → List (ℕ → ℕ) → List (ℕ → ℕ)
view_all n reversed [] = []
view_all n reversed (key ∷ keys) = view n reversed key ∷ view_all n reversed keys

abbrev pub view_sel : ℕ → Bool → Option (ℕ → Bool) → Option (ℕ → Bool)
view_sel n reversed none = none
view_sel n reversed (some sel) = some (view n reversed sel)

abbrev pub is_empty : {A : Type 0} → List A → Bool
is_empty [] = true
is_empty (x ∷ xs) = false

module _ (top n : ℕ) (greater : Bits → Bits → Bool) (reversed : Bool) (keys : List (ℕ → ℕ))
    (sel : Option (ℕ → Bool)) where
  -- The group bits of two rows in the direction of the aggregation. Without keys, the arithmetic
  -- ones stay all ones: they are converted from the boolean ones only if there are keys.
  abbrev pub group_bit_b : Bool → ℕ → ℕ → Bool
  group_bit_b = group (view_all n reversed keys) (view_sel n reversed sel)

  abbrev pub group_bit_a : Bool → ℕ → ℕ → Bool
  group_bit_a is_copy l r = if is_empty keys then true else group_bit_b is_copy l r

  unfoldable pub aggregate_a : ArithmeticFunc → (ℕ → ℕ) → ℕ → ℕ
  unfolding run_network apply_a
  aggregate_a func x = view n reversed (
      run_network (λ l r a b. apply_a top func (bit_value (group_bit_a (is_copy_a func) l r)) b a) n
        (view n reversed (prepared func sel x)))

  unfoldable pub aggregate_b : BooleanFunc → (ℕ → Bits) → ℕ → Bits
  unfolding run_network apply_b
  aggregate_b func x = view n reversed (
      run_network (λ l r a b. apply_b greater func (group_bit_b (is_copy_b func) l r) b a) n
        (view n reversed x))

  unfoldable pub aggregate_all_a : List (ArithmeticFunc × (ℕ → ℕ)) → List (ℕ → ℕ)
  unfolding aggregate_a
  aggregate_all_a [] = []
  aggregate_all_a ((func, x) ∷ specs) = aggregate_a func x ∷ aggregate_all_a specs

  unfoldable pub aggregate_all_b : List (BooleanFunc × (ℕ → Bits)) → List (ℕ → Bits)
  unfolding aggregate_b
  aggregate_all_b [] = []
  aggregate_all_b ((func, x) ∷ specs) = aggregate_b func x ∷ aggregate_all_b specs

  -- `none` is the exception on an aggregation without columns.
  unfoldable pub aggregate :
      List (BooleanFunc × (ℕ → Bits))
      → List (ArithmeticFunc × (ℕ → ℕ))
      → Option (List (ℕ → Bits) × List (ℕ → ℕ))
  unfolding aggregate_all_a aggregate_all_b
  aggregate agg_spec_b agg_spec_a =
      if is_empty keys && (is_empty agg_spec_b && is_empty agg_spec_a)
      then none
      else some (aggregate_all_b agg_spec_b, aggregate_all_a agg_spec_a)
