-- ===== src/Operators/PrefixNetwork/Scan.antt =====
-- The running aggregate of a vector, one element after another: the independent description of the
-- network.
use crypt_dough.Base.{
  ℕ, zero, suc, ◌+◌, ◌≡◌, ◌≤◌, ◌∙◌, refl, sym, ap, ap₂, arith, if◌then◌else◌, Bool, true, false,
}

-- The aggregate of the places `l` to `l + d`: it starts anew where the group changes.
abbrev pub scan_from : {A : Type 0} → (ℕ → ℕ → Bool) → (A → A → A) → (ℕ → A) → ℕ → ℕ → A
scan_from same op v l zero = v l
scan_from same op v l (suc d) =
    let before = scan_from same op v l d in
    if same (l + d) (l + suc d) then op before (v (l + suc d)) else v (l + suc d)

-- Grouping: places of a group stand together.
pub record IsGrouping (same : ℕ → ℕ → Bool) : Type 0 where
  pub same_trans : (i j k : ℕ) → same j k ≡ true → same i j ≡ same i k
  pub together : (i j k : ℕ) → i ≤ j → j ≤ k → same i k ≡ true → same j k ≡ true

true-false : true ≡ false → ⊥
true-false e = cc

module _ {A : Type 0} (same : ℕ → ℕ → Bool) (op : A → A → A) (v : ℕ → A) where
  -- One more place, under any names for the last places.
  pub scan_from-suc :
      (l d m k : ℕ)
      → l + d ≡ m
      → l + suc d ≡ k
      → scan_from same op v l (suc d)
        ≡ (if same m k then op (scan_from same op v l d) (v k) else v k)
  scan_from-suc l d m k e f =
      ap₂ (λ m k. if same m k then op (scan_from same op v l d) (v k) else v k) e f

module _ {A : Type 0} (same : ℕ → ℕ → Bool) (grouping : IsGrouping same) (op : A → A → A)
    (assoc : (a b c : A) → op (op a b) c ≡ op a (op b c)) (v : ℕ → A) where
  -- One more place after two runs; `near` compares it with the place before it, `middle` the last
  -- places of the runs, and `far` the new place with the end of the first run.
  longer :
      (near middle far : Bool) (s t x : A)
      → (near ≡ true → middle ≡ far)
      → (far ≡ true → near ≡ true)
      → (if near then op (if middle then op s t else t) x else x)
        ≡ (if far then op s (if near then op t x else x) else (if near then op t x else x))
  longer true true true s t x same_far same_near = assoc s t x
  longer true true false s t x same_far same_near = absurd (true-false (same_far refl))
  longer true false true s t x same_far same_near = absurd (true-false (sym (same_far refl)))
  longer true false false s t x same_far same_near = refl
  longer false middle true s t x same_far same_near = absurd (true-false (sym (same_near refl)))
  longer false middle false s t x same_far same_near = refl

  -- Two runs of places that follow one another.
  pub scan_from-join :
      (l d e m k : ℕ)
      → l + d ≡ m
      → m + suc e ≡ k
      → scan_from same op v l (suc (d + e)) ≡ (
          if same m k
          then op (scan_from same op v l d) (scan_from same op v (suc m) e)
          else scan_from same op v (suc m) e)
  scan_from-join l d zero m k em ek =
      ap (scan_from same op v l) {x = suc (d + 0)} {y = suc d} (omega arith)
      ∙ scan_from-suc same op v l d m k em (omega arith)
      ∙ ap (λ q. if same m k then op (scan_from same op v l d) (v q) else v q) {x = k} {y = suc m}
          (omega arith)
  scan_from-join l d (suc e) m k em ek =
      let p = m + suc e in
      ap (scan_from same op v l) {x = suc (d + suc e)} {y = suc (suc (d + e))} (omega arith)
      ∙ scan_from-suc same op v l (suc (d + e)) p k (omega arith) (omega arith)
      ∙ ap (λ q. if same p k then op q (v k) else v k) (scan_from-join l d e m p em refl)
      ∙ longer (same p k) (same m p) (same m k) _ _ (v k) (grouping.same_trans m p k)
          (grouping.together m p k (omega arith) (omega arith))
      ∙ ap (λ q. if same m k then op (scan_from same op v l d) q else q)
          (sym (scan_from-suc same op v (suc m) e p k (omega arith) (omega arith)))
