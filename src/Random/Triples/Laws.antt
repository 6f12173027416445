-- ===== src/Random/Triples/Laws.antt =====
-- About the generators of OLEs and triples in include/core/random/correlation.
use native.Mathlib.Nat.{div-add-mod}
use crypt_dough.Base.{ℕ, suc, ◌+◌, ◌*◌, ◌/◌, ◌%◌, ◌≡◌, ◌∙◌, sym, ap, arith, mods, mod_eq_by}
use crypt_dough.Lanes.{Lanes}
use crypt_dough.Lanes.Laws.{sub_add, mul-InRange, sub-eq-add}
use crypt_dough.Random.Prg.{Counters, advance, get_next}
use crypt_dough.Random.Triples.{
  Ole, get_correlated, get_correlated_ot, get_next_ole, get_next_chosen, get_next_triple,
}

advance_self : (link : ℕ) (c : Counters) → advance link c link ≡ suc (c link)
advance_self link c = ground arith

next :
    (link : ℕ) (c0 c1 : Counters) → c0 link ≡ c1 link → advance link c0 link ≡ advance link c1 link
next link c0 c1 e = advance_self link c0 ∙ ap suc e ∙ sym (advance_self link c1)

module _ {I A : Type 0} (v : Lanes I A) where
  -- The additive shares of the two parties add up to the product of the multiplicative ones.
  abbrev pub IsCorrelated : Ole A → Ole A → Type 0
  IsCorrelated p q = v.add p.additive q.additive ≡ v.mul p.multiplicative q.multiplicative

  correlated_sum : (b c d : A) → v.add (v.sub (v.mul c d) b) b ≡ v.mul c d
  correlated_sum b c d = sub_add v (v.mul c d) b (mul-InRange v c d)

  share_alike :
      (s : ℕ → A) {i j k i' k' : ℕ}
      → i ≡ i'
      → k ≡ k'
      → v.add (v.sub (v.mul (s j) (s k)) (s i)) (s i') ≡ v.mul (s j) (s k')
  share_alike s {i} {j} {k} e g = cc (e, g, correlated_sum (s i) (s j) (s k))

  -- Two parties that have drawn equally often from their common PRG get a correlated OLE, and
  -- have again drawn equally often.
  pub get_next_ole-IsCorrelated :
      (stream : ℕ → ℕ → A) (link : ℕ) (c0 c1 : Counters)
      → c0 link ≡ c1 link
      → IsCorrelated
          (get_next_ole v (get_correlated v) stream link 0 c0).0
          (get_next_ole v (get_correlated v) stream link 1 c1).0
        × ((get_next_ole v (get_correlated v) stream link 0 c0).1 link
            ≡ (get_next_ole v (get_correlated v) stream link 1 c1).1 link)
  unfolding get_next_ole get_correlated get_next
  get_next_ole-IsCorrelated stream link c0 c1 e =
      let e1 = next link c0 c1 e in
      let e2 = next link (advance link c0) (advance link c1) e1 in
      (
        share_alike (stream link) e e2,
        next link (advance link (advance link c0)) (advance link (advance link c1)) e2,
      )

  -- In lanes of one bit, two parties that have drawn equally often from their common PRG get a
  -- correlated boolean OLE.
  pub get_next_ot-IsCorrelated :
      (stream : ℕ → ℕ → A) (link : ℕ) (c0 c1 : Counters)
      → v.top ≡ 1
      → c0 link ≡ c1 link
      → IsCorrelated
          (get_next_ole v (get_correlated_ot v) stream link 0 c0).0
          (get_next_ole v (get_correlated_ot v) stream link 1 c1).0
  unfolding get_next_ole get_correlated_ot get_next
  get_next_ot-IsCorrelated stream link c0 c1 bits e =
      let e1 = next link c0 c1 e in
      let e2 = next link (advance link c0) (advance link c1) e1 in
      ap (λ t. v.add t (stream link (c1 link))) (sym (sub-eq-add v bits _ _))
      ∙ share_alike (stream link) e e2

  -- When party 1 names its multiplicative share, and party 0 both of its shares, the additive
  -- shares that the parties end with add up to the product of the multiplicative ones.
  pub get_next_chosen-IsCorrelated :
      (p0 : Ole A) (mul_share unused : A)
      → v.add
          (get_next_chosen v (get_correlated v) p0 1 mul_share unused)
          (get_next_chosen v (get_correlated v) p0 0 p0.multiplicative p0.additive)
        ≡ v.mul p0.multiplicative mul_share
  unfolding get_next_chosen get_correlated
  get_next_chosen-IsCorrelated p0 mul_share unused =
      correlated_sum p0.additive p0.multiplicative mul_share

  cross_terms :
      (a0 a1 b0 b1 l0 l1 r0 r1 : A)
      → v.add l0 l1 ≡ v.mul a0 b1
      → v.add r0 r1 ≡ v.mul b0 a1
      → v.add (v.add (v.add (v.mul a0 b0) l0) r0) (v.add (v.add (v.mul a1 b1) l1) r1)
        ≡ v.mul (v.add a0 a1) (v.add b0 b1)
  cross_terms a0 a1 b0 b1 l0 l1 r0 r1 left right = v.at_ext _ _ λ i.
      let m = suc v.top in
      let l = v.at l0 i + v.at l1 i in
      let r = v.at r0 i + v.at r1 i in
      let ab = v.at a0 i * v.at b1 i in
      let ba = v.at b0 i * v.at a1 i in
      let el : l % m ≡ ab % m =
        sym (v.at-add l0 l1 i) ∙ ap (λ t. v.at t i) left ∙ v.at-mul a0 b1 i in
      let er : r % m ≡ ba % m =
        sym (v.at-add r0 r1 i) ∙ ap (λ t. v.at t i) right ∙ v.at-mul b0 a1 i in
      simp (v.at-add, v.at-mul, mods)
        (mod_eq_by m (ab / m + ba / m) (l / m + r / m) _ _ (
          omega
            (arith, el, er, div-add-mod l m, div-add-mod r m, div-add-mod ab m, div-add-mod ba m)))

  -- From an OLE of twice the length that is correlated at every index, the two parties get shares
  -- of triples: at every index the shares of c add up to the product of the opened a and b.
  pub get_next_triple-product :
      (n : ℕ) (p q : Ole (ℕ → A))
      → ((k : ℕ)
          → v.add (p.additive k) (q.additive k) ≡ v.mul (p.multiplicative k) (q.multiplicative k))
      → (k : ℕ)
      → v.add ((get_next_triple v n 0 p).c k) ((get_next_triple v n 1 q).c k)
        ≡ v.mul
            (v.add ((get_next_triple v n 0 p).a k) ((get_next_triple v n 1 q).a k))
            (v.add ((get_next_triple v n 0 p).b k) ((get_next_triple v n 1 q).b k))
  unfolding get_next_triple
  get_next_triple-product n p q h k = cross_terms _ _ _ _ _ _ _ _ (h (0 + k)) (h (n + k))
