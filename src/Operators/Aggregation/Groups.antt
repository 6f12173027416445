-- ===== src/Operators/Aggregation/Groups.antt =====
-- The groups of an aggregation, and what an aggregated column holds.
use crypt_dough.Base.{
  ℕ, suc, ◌-◌, ◌≡◌, ◌<◌, ◌≤◌, refl, ap, arith, if◌then◌else◌, Bool, true, false, not, xor, ◌&&◌,
  Option, none, some, List, [], ◌∷◌,
}
use crypt_dough.Circuits.Bits.{Bits, bit_value}
use crypt_dough.Operators.PrefixNetwork.Scan.{scan_from, IsGrouping}
use crypt_dough.Operators.Aggregation.{
  ArithmeticFunc, BooleanFunc, view, join_group, group, view_all, view_sel, is_empty, is_copy_a,
  is_copy_b, prepared,
}
use crypt_dough.Operators.Aggregation.Functions.{op_a, op_b}

-- Rows that agree stand together: whoever stands between two rows of a group is of the group.
abbrev pub AreTogether : (ℕ → ℕ → Bool) → Type 0
AreTogether same = (i j k : ℕ) → i ≤ j → j ≤ k → same i k ≡ true → same j k ≡ true

join_group_trans :
    (keys : List (ℕ → ℕ)) (i j k : ℕ)
    → join_group keys j k ≡ true
    → join_group keys i j ≡ join_group keys i k
join_group_trans [] i j k e = refl
join_group_trans (key ∷ keys) i j k e = ground (arith, e, join_group_trans keys i j k)

both_trans :
    (a b c x y z : Bool)
    → (c ≡ true → a ≡ b)
    → (c && not (xor y z)) ≡ true
    → (a && not (xor x y)) ≡ (b && not (xor x z))
both_trans a b true x true true h e = ap (λ t. t && not (xor x true)) (h refl)
both_trans a b true x false false h e = ap (λ t. t && not (xor x false)) (h refl)
both_trans a b true x true false h e = cc
both_trans a b true x false true h e = cc
both_trans a b false x y z h e = cc

pub group_trans :
    (keys : List (ℕ → ℕ)) (sel : Option (ℕ → Bool)) (is_copy : Bool) (i j k : ℕ)
    → group keys sel is_copy j k ≡ true
    → group keys sel is_copy i j ≡ group keys sel is_copy i k
group_trans keys none is_copy i j k e = join_group_trans keys i j k e
group_trans keys (some sel) true i j k e = join_group_trans keys i j k e
group_trans keys (some sel) false i j k e =
    both_trans (join_group keys i j) (join_group keys i k) (join_group keys j k) (sel i) (sel j)
      (sel k) (join_group_trans keys i j k) e

pub view_twice :
    {A : Type 0} (n : ℕ) (reversed : Bool) (x : ℕ → A) (k : ℕ)
    → k < n
    → view n reversed (view n reversed x) k ≡ x k
view_twice n true x k h = ap x (omega arith)
view_twice n false x k h = refl

-- `aggregated` is the column in the direction of the aggregation: each row holds the aggregate of
-- its group up to the row, as one loop over the rows would compute it.
abbrev pub IsScan :
    {A : Type 0} → ℕ → Bool → (ℕ → ℕ → Bool) → (A → A → A) → (ℕ → A) → (ℕ → A) → Type 0
IsScan n reversed same op x aggregated =
    (k : ℕ) → k < n → view n reversed aggregated k ≡ scan_from same op (view n reversed x) 0 k

-- Each column is aggregated by its function.
module _ (top n : ℕ) (rank : Bits → ℕ) (reversed : Bool) (keys : List (ℕ → ℕ))
    (sel : Option (ℕ → Bool)) where
  abbrev pub same_group : Bool → ℕ → ℕ → Bool
  same_group = group (view_all n reversed keys) (view_sel n reversed sel)

  -- Without keys, all rows are one group for an arithmetic column, whatever is selected.
  abbrev pub same_group_a : Bool → ℕ → ℕ → Bool
  same_group_a is_copy l r = if is_empty keys then true else same_group is_copy l r

  abbrev pub AreScansA : List (ArithmeticFunc × (ℕ → ℕ)) → List (ℕ → ℕ) → Type 0
  AreScansA [] [] = Unit {0}
  AreScansA [] (y ∷ ys) = ⊥
  AreScansA (s ∷ specs) [] = ⊥
  AreScansA ((func, x) ∷ specs) (y ∷ ys) =
      IsScan n reversed (same_group_a (is_copy_a func)) (op_a top func) (prepared func sel x) y
      × AreScansA specs ys

  abbrev pub AreScansB : List (BooleanFunc × (ℕ → Bits)) → List (ℕ → Bits) → Type 0
  AreScansB [] [] = Unit {0}
  AreScansB [] (y ∷ ys) = ⊥
  AreScansB (s ∷ specs) [] = ⊥
  AreScansB ((func, x) ∷ specs) (y ∷ ys) =
      IsScan n reversed (same_group (is_copy_b func)) (op_b rank func) x y × AreScansB specs ys

  abbrev pub AllFit : List (ArithmeticFunc × (ℕ → ℕ)) → Type 0
  AllFit [] = Unit {0}
  AllFit ((func, x) ∷ specs) = ((k : ℕ) → x k < suc top) × AllFit specs

pub is_empty-nil : {A : Type 0} (xs : List A) → is_empty xs ≡ true → xs ≡ []
is_empty-nil [] e = refl
is_empty-nil (x ∷ xs) e = cc

bit_value-lt : (b : Bool) (top : ℕ) → 0 < top → bit_value b < suc top
bit_value-lt true top h = omega arith
bit_value-lt false top h = omega arith

pub view-lt :
    (n : ℕ) (reversed : Bool) (m : ℕ) (x : ℕ → ℕ)
    → ((k : ℕ) → x k < m)
    → (k : ℕ) → view n reversed x k < m
view-lt n true m x h k = h (n - 1 - k)
view-lt n false m x h k = h k

pub prepared-lt :
    (top : ℕ) (func : ArithmeticFunc) (sel : Option (ℕ → Bool)) (x : ℕ → ℕ)
    → 0 < top
    → ((k : ℕ) → x k < suc top)
    → (k : ℕ) → prepared func sel x k < suc top
prepared-lt top ArithmeticFunc.sum sel x one fits k = fits k
prepared-lt top ArithmeticFunc.copy sel x one fits k = fits k
prepared-lt top ArithmeticFunc.count none x one fits k = omega arith
prepared-lt top ArithmeticFunc.count (some sel) x one fits k = bit_value-lt (sel k) top one

pub if_grouping :
    (one_group : Bool) (same : ℕ → ℕ → Bool)
    → IsGrouping same
    → IsGrouping (λ l r. if one_group then true else same l r)
if_grouping true same g = record { same_trans = λ i j k e. refl; together = λ i j k h h' e. refl }
if_grouping false same g = g
