-- ===== src/Views/Tabulate.antt =====
-- Lists by their entries: the independent description of the views.
use crypt_dough.Base.{ℕ, zero, suc, ◌+◌, ◌<◌, ◌≡◌, ◌∙◌, refl, ap, ap₂, arith, List, [], ◌∷◌, ◌++◌}

-- The entries `f 0`, ..., `f (n - 1)`.
abbrev pub tabulate : ℕ → (ℕ → ℕ) → List ℕ
tabulate zero f = []
tabulate (suc n) f = f 0 ∷ tabulate n (λ i. f (suc i))

pub tabulate_ext :
    (n : ℕ) (f g : ℕ → ℕ) → ((i : ℕ) → i < n → f i ≡ g i) → tabulate n f ≡ tabulate n g
tabulate_ext zero f g h = refl
tabulate_ext (suc n) f g h =
    ap₂ (λ x l. x ∷ l) (h 0 (omega arith))
      (tabulate_ext n (λ i. f (suc i)) (λ i. g (suc i)) (λ i b. h (suc i) (omega arith)))

-- Two runs of entries are one.
pub tabulate_join :
    (m n k : ℕ) (f g h : ℕ → ℕ)
    → k ≡ m + n
    → ((i : ℕ) → i < m → f i ≡ h i)
    → ((i : ℕ) → i < n → g i ≡ h (m + i))
    → tabulate m f ++ tabulate n g ≡ tabulate k h
tabulate_join zero n k f g h e hf hg =
    tabulate_ext n g h (λ i b. hg i b ∙ ap h (omega arith))
    ∙ ap (λ q. tabulate q h) (omega (arith, e))
tabulate_join (suc m) n zero f g h e hf hg = absurd (omega (arith, e))
tabulate_join (suc m) n (suc k) f g h e hf hg =
    ap₂ (λ x l. x ∷ l) (hf 0 (omega arith))
      (tabulate_join m n k (λ i. f (suc i)) g (λ i. h (suc i)) (omega (arith, e))
        (λ i b. hf (suc i) (omega arith)) (λ i b. hg i b ∙ ap h (omega arith)))
