-- ===== src/Operators/Aggregation/Laws.antt =====
-- About aggregation.
use crypt_dough.Base.{
  ℕ, suc, ◌^◌, ◌≡◌, ◌<◌, ◌∙◌, ◌⊎◌, refl, ap, fun_ext, arith, ltb, Bool-cases, inl, inr,
  if◌then◌else◌, Bool, true, ◌&&◌, Option, none, some, List, [], ◌∷◌,
}
use crypt_dough.Circuits.Bits.{Bits, bit_value}
use crypt_dough.Operators.PrefixNetwork.{run_network}
use crypt_dough.Operators.PrefixNetwork.Scan.{IsGrouping}
use crypt_dough.Operators.PrefixNetwork.Laws.{run_network-scan, run_network_ext}
use crypt_dough.Operators.Aggregation.{
  ArithmeticFunc, BooleanFunc, apply_a, apply_b, view, view_all, view_sel, is_empty, is_copy_a,
  is_copy_b, prepared, aggregate_a, aggregate_b, aggregate_all_a, aggregate_all_b, aggregate,
}
use crypt_dough.Operators.Aggregation.Functions.{
  op_a, op_b, op_a_assoc, op_b_assoc, apply_a-op_a, apply_a-lt, apply_b-op_b,
}
use crypt_dough.Operators.Aggregation.Groups.{
  same_group, same_group_a, AreScansA, AreScansB, AllFit, AreTogether, group_trans, view_twice,
  IsScan, is_empty-nil, view-lt, prepared-lt, if_grouping,
}

module _ (top h : ℕ) (one : 0 < top) (some_levels : 0 < h) (rank : Bits → ℕ) (reversed : Bool)
    (keys : List (ℕ → ℕ)) (sel : Option (ℕ → Bool))
    (together : (is_copy : Bool)
      → AreTogether (same_group top (2 ^ h) rank reversed keys sel is_copy)) where
  grouping : (is_copy : Bool) → IsGrouping (same_group top (2 ^ h) rank reversed keys sel is_copy)
  grouping is_copy = record {
    same_trans =
        group_trans (view_all (2 ^ h) reversed keys) (view_sel (2 ^ h) reversed sel) is_copy;
    together = together is_copy;
  }

  grouping_a :
      (is_copy : Bool) → IsGrouping (same_group_a top (2 ^ h) rank reversed keys sel is_copy)
  grouping_a is_copy =
      if_grouping (is_empty keys) (same_group top (2 ^ h) rank reversed keys sel is_copy)
        (grouping is_copy)

  abbrev greater : Bits → Bits → Bool
  greater x y = ltb (rank y) (rank x)

  aggregate_b-IsScan :
      (func : BooleanFunc) (x : ℕ → Bits)
      → IsScan
          (2 ^ h)
          reversed
          (same_group top (2 ^ h) rank reversed keys sel (is_copy_b func))
          (op_b rank func)
          x
          (aggregate_b top (2 ^ h) greater reversed keys sel func x)
  unfolding aggregate_b
  aggregate_b-IsScan func x k b =
      let same = same_group top (2 ^ h) rank reversed keys sel (is_copy_b func) in
      let run =
        run_network (λ l r a c. apply_b greater func (same l r) c a) (2 ^ h)
          (view (2 ^ h) reversed x) in
      view_twice (2 ^ h) reversed run k b
      ∙ ap (λ (f : ℕ → ℕ → Bits → Bits → Bits). run_network f (2 ^ h) (view (2 ^ h) reversed x) k)
          (fun_ext
            λ l. fun_ext λ r. fun_ext λ a. fun_ext λ c. apply_b-op_b rank func (same l r) a c)
      ∙ run_network-scan same (grouping (is_copy_b func)) (op_b rank func) (op_b_assoc rank func)
          (view (2 ^ h) reversed x) h some_levels k b

  aggregate_a-IsScan :
      (func : ArithmeticFunc) (x : ℕ → ℕ)
      → ((k : ℕ) → x k < suc top)
      → IsScan
          (2 ^ h)
          reversed
          (same_group_a top (2 ^ h) rank reversed keys sel (is_copy_a func))
          (op_a top func)
          (prepared func sel x)
          (aggregate_a top (2 ^ h) greater reversed keys sel func x)
  unfolding aggregate_a
  aggregate_a-IsScan func x fits k b =
      let same = same_group_a top (2 ^ h) rank reversed keys sel (is_copy_a func) in
      let start = view (2 ^ h) reversed (prepared func sel x) in
      let run =
        run_network (λ l r a c. apply_a top func (bit_value (same l r)) c a) (2 ^ h) start in
      view_twice (2 ^ h) reversed run k b
      ∙ ap (λ (v : ℕ → ℕ). v k)
          (run_network_ext (λ l r a c. apply_a top func (bit_value (same l r)) c a)
            (λ l r a c. if same l r then op_a top func a c else c) (λ a. a < suc top)
            (λ l r a c ha hc. apply_a-lt top func (bit_value (same l r)) c a)
            (λ l r a c ha hc. apply_a-op_a top func (same l r) a c ha hc) (2 ^ h) start
            (view-lt (2 ^ h) reversed (suc top) _ (prepared-lt top func sel x one fits)))
      ∙ run_network-scan same (grouping_a (is_copy_a func)) (op_a top func) (op_a_assoc top func)
          start h some_levels k b

  all_a :
      (specs : List (ArithmeticFunc × (ℕ → ℕ)))
      → AllFit top (2 ^ h) rank reversed keys sel specs
      → AreScansA top
          (2 ^ h)
          rank
          reversed
          keys
          sel
          specs
          (aggregate_all_a top (2 ^ h) greater reversed keys sel specs)
  unfolding aggregate_all_a
  all_a [] fits = tt
  all_a ((func, x) ∷ specs) (fit, fits) = (aggregate_a-IsScan func x fit, all_a specs fits)

  all_b :
      (specs : List (BooleanFunc × (ℕ → Bits)))
      → AreScansB top
          (2 ^ h)
          rank
          reversed
          keys
          sel
          specs
          (aggregate_all_b top (2 ^ h) greater reversed keys sel specs)
  unfolding aggregate_all_b
  all_b [] = tt
  all_b ((func, x) ∷ specs) = (aggregate_b-IsScan func x, all_b specs)

  -- Aggregation of 2 ^ h rows, of which there are at least two, in either direction: if rows that
  -- agree in the keys, and rows that also agree in the selection, stand together, then the call
  -- throws on no keys and no columns at all, and otherwise each column is, in the direction of the
  -- aggregation, the running aggregate of its function over the group of each row. Without keys
  -- all rows are one group for an arithmetic column, whatever is selected.
  pub aggregate-IsScan :
      (specs_b : List (BooleanFunc × (ℕ → Bits))) (specs_a : List (ArithmeticFunc × (ℕ → ℕ)))
      → AllFit top (2 ^ h) rank reversed keys sel specs_a
      → ((keys ≡ [])
          × (specs_b ≡ [])
          × (specs_a ≡ [])
          × (aggregate top (2 ^ h) greater reversed keys sel specs_b specs_a ≡ none))
        ⊎ ((columns_b : List (ℕ → Bits)) × (columns_a : List (ℕ → ℕ)) × (aggregate top
                (2 ^ h)
                greater
                reversed
                keys
                sel
                specs_b
                specs_a
              ≡ some (columns_b, columns_a))
            × AreScansB top (2 ^ h) rank reversed keys sel specs_b columns_b
            × AreScansA top (2 ^ h) rank reversed keys sel specs_a columns_a)
  unfolding aggregate
  aggregate-IsScan specs_b specs_a fits =
      elim (Bool-cases (is_empty keys && (is_empty specs_b && is_empty specs_a))) [
        | inl e ↦
            let no_keys : is_empty keys ≡ true = ground (arith, e) in
            let no_b : is_empty specs_b ≡ true = ground (arith, e) in
            let no_a : is_empty specs_a ≡ true = ground (arith, e) in
            inl (
              is_empty-nil keys no_keys,
              is_empty-nil specs_b no_b,
              is_empty-nil specs_a no_a,
              rw e refl,
            )
        | inr e ↦ inr (
          aggregate_all_b top (2 ^ h) greater reversed keys sel specs_b,
          aggregate_all_a top (2 ^ h) greater reversed keys sel specs_a,
          rw e refl,
          all_b specs_b,
          all_a specs_a fits,
        )
      ]
