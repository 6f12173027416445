-- ===== src/Tests/AggregationTests.antt =====
-- Runs of the network and of aggregation, on four rows in two groups.
use crypt_dough.Base.{
  ℕ, ◌+◌, ◌*◌, ◌/◌, ◌%◌, ◌^◌, ◌≡◌, ◌⊎◌, refl, arith, ltb, ◌==◌, if◌then◌else◌, Bool, true, false,
  none, some, List, [], ◌∷◌, bit_width,
}
use crypt_dough.Circuits.Bits.{Bits, value}
use crypt_dough.Operators.PaddedSort.{bits_of}
use crypt_dough.Operators.PrefixNetwork.{run_network}
use crypt_dough.Operators.PrefixNetwork.Scan.{scan_from, IsGrouping}
use crypt_dough.Operators.PrefixNetwork.Laws.{run_network-scan}
use crypt_dough.Operators.Aggregation.{ArithmeticFunc, BooleanFunc, aggregate, aggregate_a}
use crypt_dough.Operators.Aggregation.Laws.{aggregate-IsScan}
use crypt_dough.Operators.Aggregation.Groups.{AreScansA, AreScansB, same_group, AreTogether}
use crypt_dough.Operators.Aggregation.{view}
use crypt_dough.Operators.TreePrefixSum.{tree_prefix_sum}
use crypt_dough.Operators.TreePrefixSum.Laws.{prefix, tree_prefix_sum-prefix}
use native.Mathlib.Nat.{add_assoc, add_comm}

abbrev same_half : ℕ → ℕ → Bool
same_half i k = i / 2 == k / 2

same_half-IsGrouping : IsGrouping same_half
same_half-IsGrouping = record {
  same_trans = λ i j k e. ground (arith, e);
  together = λ i j k h h' e. ground (arith, e);
}

abbrev input : ℕ → ℕ
input k = k * 10 + 1

run_network-scan_example :
    run_network (λ l q a b. if same_half l q then a + b else b) (2 ^ 2) input 3
    ≡ scan_from same_half ◌+◌ input 0 3
run_network-scan_example =
    run_network-scan same_half same_half-IsGrouping ◌+◌ add_assoc input 2 (omega arith) 3
      (omega arith)

abbrev keys : List (ℕ → ℕ)
keys = (λ k. k / 2) ∷ []

keys-together : (is_copy : Bool) → AreTogether (same_group 255 4 (value 8) false keys none is_copy)
keys-together is_copy i j k h h' e = ground (arith, e)

abbrev specs_b : List (BooleanFunc × (ℕ → Bits))
specs_b = (BooleanFunc.max, λ k. bits_of (k * 7)) ∷ []

abbrev specs_a : List (ArithmeticFunc × (ℕ → ℕ))
specs_a = (ArithmeticFunc.sum, λ k. k * 10 % 256) ∷ []

aggregate-IsScan_example :
    ((keys ≡ [])
      × (specs_b ≡ [])
      × (specs_a ≡ [])
      × (aggregate 255 4 (λ x y. ltb (value 8 y) (value 8 x)) false keys none specs_b specs_a
          ≡ none))
    ⊎ ((columns_b : List (ℕ → Bits)) × (columns_a : List (ℕ → ℕ)) × (aggregate 255 4
            (λ x y. ltb (value 8 y) (value 8 x))
            false
            keys
            none
            specs_b
            specs_a
          ≡ some (columns_b, columns_a))
        × AreScansB 255 4 (value 8) false keys none specs_b columns_b
        × AreScansA 255 4 (value 8) false keys none specs_a columns_a)
aggregate-IsScan_example =
    aggregate-IsScan 255 2 (omega arith) (omega arith) (value 8) false keys none keys-together
      specs_b specs_a ((λ k. omega arith), tt)

-- 20 + 30 in the second group.
sums_3 : aggregate_a 255 4 (λ x y. false) false keys none ArithmeticFunc.sum (λ k. k * 10) 3 ≡ 50
unfolding aggregate_a bit_width
sums_3 = refl

tree_prefix_sum-prefix_example :
    view 8 true (tree_prefix_sum ◌+◌ 8 true input) 5 ≡ prefix ◌+◌ (view 8 true input) 5
tree_prefix_sum-prefix_example =
    tree_prefix_sum-prefix ◌+◌ add_assoc add_comm 3 true input 5 (omega arith)
