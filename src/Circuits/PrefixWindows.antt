-- ===== src/Circuits/PrefixWindows.antt =====
-- The windows of bits that the rounds of the prefix loop join (`parallel_prefix_adder`).
use native.Mathlib.Nat.{pow-suc, one-le-pow}
use crypt_dough.Base.{
  ℕ, zero, suc, ◌+◌, ◌^◌, ◌≡◌, ◌<◌, ◌∙◌, refl, sym, ap, ap₂, arith, ◌==◌, Bool, true, false, xor,
  ◌&&◌, ◌||◌, fun_ext,
}
use crypt_dough.Circuits.Bits.{Bits, left_shift}
use crypt_dough.Circuits.Prefix.{prefix_round, prefix_loop}

join : (x y z : Bool) → x || (y && z) ≡ xor (xor (x && (z && y)) x) (z && y)
join true true z = ground arith
join true false z = ground arith
join false true z = ground arith
join false false z = ground arith

and_comm : (x y : Bool) → x && y ≡ y && x
and_comm true y = ground arith
and_comm false y = ground arith

module _ (g p : Bits) where
  -- A window of bits that ends at a position gives a carry, or passes one on.
  abbrev pub generates : ℕ → Bits
  generates zero j = false
  generates (suc len) zero = g 0
  generates (suc len) (suc j) = g (suc j) || (p (suc j) && generates len j)

  abbrev propagates : ℕ → Bits
  propagates zero j = true
  propagates (suc len) zero = p 0 && (len == 0)
  propagates (suc len) (suc j) = p (suc j) && propagates len j

  generates-add :
      (m l j : ℕ)
      → generates (m + l) j ≡ generates m j || (propagates m j && left_shift (generates l) m j)
  generates-add zero l j = ap (λ k. generates k j) {y = l} (omega arith) ∙ ground arith
  generates-add (suc m) l zero =
      ap (λ k. generates k 0) {y = suc (m + l)} (omega arith) ∙ ground arith
  generates-add (suc m) l (suc j) =
      ap (λ k. generates k (suc j)) {y = suc (m + l)} (omega arith)
      ∙ ground (arith, generates-add m l j)

  propagates-add :
      (m l j : ℕ) → 0 < l → propagates (m + l) j ≡ propagates m j && left_shift (propagates l) m j
  propagates-add zero l j h = ap (λ k. propagates k j) {y = l} (omega arith) ∙ ground arith
  propagates-add (suc m) l zero h =
      ap (λ k. propagates k 0) {y = suc (m + l)} (omega arith) ∙ ground arith
  propagates-add (suc m) l (suc j) h =
      ap (λ k. propagates k (suc j)) {y = suc (m + l)} (omega arith)
      ∙ ground (arith, propagates-add m l j h)

  -- After `i` rounds every position has the window of 2 ^ i bits that ends there.
  abbrev windows : ℕ → Bits × Bits
  windows i = (generates (2 ^ i), propagates (2 ^ i))

  prefix_round-windows : (i : ℕ) → prefix_round i (windows i) ≡ windows (suc i)
  prefix_round-windows i =
      let l = 2 ^ i in
      let double : 2 ^ suc i ≡ l + l = omega (arith, pow-suc 2 i) in
      let pos : 0 < l = one-le-pow i 2 (omega arith) in
      ap₂ (λ s t. let r : Bits × Bits = (s, t) in r)
        (fun_ext λ j. sym (
          ap (λ k. generates k j) double
          ∙ generates-add l l j
          ∙ join (generates l j) (propagates l j) _))
        (fun_ext λ j. sym (
          ap (λ k. propagates k j) double ∙ propagates-add l l j pos ∙ and_comm (propagates l j) _))

  windows-zero : (g, p) ≡ windows 0
  windows-zero =
      ap₂ (λ s t. let r : Bits × Bits = (s, t) in r)
        (fun_ext (elim [ zero ↦ refl | suc j ↦ ground arith ]))
        (fun_ext (elim [ zero ↦ ground arith | suc j ↦ ground arith ]))

  prefix_loop-windows : (left i : ℕ) → prefix_loop left i (windows i) ≡ windows (i + left)
  unfolding prefix_loop
  prefix_loop-windows zero i = ap windows (omega arith)
  prefix_loop-windows (suc left) i =
      ap (prefix_loop left (suc i)) (prefix_round-windows i)
      ∙ prefix_loop-windows left (suc i)
      ∙ ap windows (omega arith)

  pub prefix_loop-generates : (n : ℕ) → (prefix_loop n 0 (g, p)).0 ≡ generates (2 ^ n)
  prefix_loop-generates n =
      ap (λ s. (prefix_loop n 0 s).0) windows-zero
      ∙ ap (λ (s : Bits × Bits). s.0) (prefix_loop-windows n 0 ∙ ap windows (omega arith))
