-- ===== src/Lanes/Word.antt =====
-- Machine words under +, - and *, by their bit patterns, with the wrap-around written out
-- (the integer types of include/core/containers/mapping_access_vector.h).
use native.Mathlib.Nat.{one-le-pow, div-add-mod, mod-lt}
use crypt_dough.Base.{
  ℕ, suc, ◌+◌, ◌-◌, ◌*◌, ◌/◌, ◌%◌, ◌^◌, ◌≡◌, ◌∙◌, refl, ap, arith, mods, mod_eq_by, subst,
}
use crypt_dough.Lanes.{Lanes}

abbrev pub word_add : ℕ → ℕ → ℕ → ℕ
word_add w a b = (a + b) % 2 ^ w

abbrev pub word_neg : ℕ → ℕ → ℕ
word_neg w a = (2 ^ w - a % 2 ^ w) % 2 ^ w

abbrev pub word_sub : ℕ → ℕ → ℕ → ℕ
word_sub w a b = (a + (2 ^ w - b % 2 ^ w)) % 2 ^ w

abbrev pub word_mul : ℕ → ℕ → ℕ → ℕ
word_mul w a b = (a * b) % 2 ^ w

pub suc_pred_pow : (w : ℕ) → suc (2 ^ w - 1) ≡ 2 ^ w
suc_pred_pow w = omega (arith, one-le-pow w 2 (omega arith))

pub complement_mod : (t a b : ℕ) → (a + (suc t - b % suc t)) % suc t ≡ (a + (t * b) % suc t) % suc t
complement_mod t a b = simp mods (
    mod_eq_by (suc t) b (suc (b / suc t)) _ _
      (omega (arith, div-add-mod b (suc t), mod-lt b {m = suc t} (omega arith))))

pub word-at-sub :
    (w a b : ℕ) → word_sub w a b ≡ (a + ((2 ^ w - 1) * b) % suc (2 ^ w - 1)) % suc (2 ^ w - 1)
word-at-sub w a b =
    subst (λ m. (a + (m - b % m)) % m ≡ (a + ((2 ^ w - 1) * b) % suc (2 ^ w - 1)) % suc (2 ^ w - 1))
      (suc_pred_pow w) (complement_mod (2 ^ w - 1) a b)

pub word-at-neg : (w a : ℕ) → word_neg w a ≡ ((2 ^ w - 1) * a) % suc (2 ^ w - 1)
word-at-neg w a =
    ap (λ t. t % 2 ^ w) (omega arith)
    ∙ word-at-sub w 0 a
    ∙ simp mods (ap (λ t. t % suc (2 ^ w - 1)) (omega arith))

unfoldable pub word : ℕ → Lanes (Unit {0}) ℕ
word w = record {
  top = 2 ^ w - 1;
  at = λ a _. a;
  zeros = 0;
  add = word_add w;
  sub = word_sub w;
  neg = word_neg w;
  mul = word_mul w;
  at-zeros = λ _. refl;
  at-add = λ a b _. rw (suc_pred_pow w) refl;
  at-sub = λ a b _. word-at-sub w a b;
  at-neg = λ a _. word-at-neg w a;
  at-mul = λ a b _. rw (suc_pred_pow w) refl;
  at_ext = λ a b h. h tt;
}
