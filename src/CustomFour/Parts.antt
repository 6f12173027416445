-- ===== src/CustomFour/Parts.antt =====
-- What the ranks add up in the product of include/core/protocols/custom_4pc.h, and the shares
-- that it is made of.
use crypt_dough.Base.{ℕ, suc, ◌+◌, ◌%◌, ◌≡◌, ◌<◌, ◌∙◌, ap, ap₂, arith, mods, mod_eq_by}
use crypt_dough.Comm.{peer, four, three}
use crypt_dough.Lanes.{Lanes}
use crypt_dough.Random.Prg.{Counters}
use crypt_dough.FourParty.Shares.{EVector, Encoding}
use crypt_dough.FourParty.ShareLaws.{each_rank, each_share, Suits, take_away-sub}
use crypt_dough.CustomFour.Opening.{IsHeld, AreDrawn, total}
use crypt_dough.CustomFour.Terms.{
  near, far, l, part, cross_10-near, cross_12-near, cross-far, masks, second_masks,
}

module _ {I A : Type 0} (v : Lanes I A) (e : Encoding) (hash : A → ℕ) (stream : ℕ → ℕ → A)
    (s t : ℕ → A) (n : Counters) {d : ℕ} {x y : ℕ → EVector A} {counts : ℕ → Counters}
    (hx : IsHeld d x s) (hy : IsHeld d y t) (drawn : AreDrawn n counts) where
  unfoldable pub common : ℕ → ℕ → A
  common me =
      three
        (v.add ((l v e hash stream s t n hx hy drawn) (peer 4 me 3)).cross_10
          ((l v e hash stream s t n hx hy drawn) me).r_next)
        (v.add ((l v e hash stream s t n hx hy drawn) me).cross_10
          ((l v e hash stream s t n hx hy drawn) me).r_opp)
        (v.add ((l v e hash stream s t n hx hy drawn) me).cross_12
          ((l v e hash stream s t n hx hy drawn) me).r_prev)

  unfoldable pub adjusted : ℕ → ℕ → A
  adjusted =
      four
        (three ((part v e hash stream s t n hx hy drawn) 0).r_next
          ((part v e hash stream s t n hx hy drawn) 0).r_opp
          ((part v e hash stream s t n hx hy drawn) 0).cross)
        (three ((part v e hash stream s t n hx hy drawn) 1).r_next
          ((part v e hash stream s t n hx hy drawn) 0).cross
          ((part v e hash stream s t n hx hy drawn) 1).cross)
        (three ((part v e hash stream s t n hx hy drawn) 2).cross
          ((part v e hash stream s t n hx hy drawn) 3).cross
          ((part v e hash stream s t n hx hy drawn) 2).r_prev)
        (three ((part v e hash stream s t n hx hy drawn) 3).cross
          ((part v e hash stream s t n hx hy drawn) 3).r_opp
          ((part v e hash stream s t n hx hy drawn) 3).r_prev)

  -- The shares of the product.
  unfoldable pub product_share : ℕ → A
  product_share p =
      v.add
        (v.add ((near v e hash stream s t n) ((p + 3) % 4))
          (stream ((p + 1) % 4) (n ((p + 1) % 4))))
        (four (stream 1 (suc (n 1))) (stream 2 (suc (n 2))) (far v e hash stream s t n 0 1)
          (far v e hash stream s t n 1 2) p)

  pub product_share-total : Suits v e → total v product_share ≡ v.mul (total v s) (total v t)
  unfolding product_share near far
  product_share-total suits = v.at_ext _ _ λ i.
      let at : ℕ → ℕ → ℕ = λ k c. v.at (stream k c) i in
      simp (take_away-sub v e suits, v.at-add, v.at-sub, v.at-mul, mods)
        (mod_eq_by (suc v.top) 0
          (at 0 (n 0) + at 1 (n 1) + at 2 (n 2) + at 3 (n 3) + at 1 (suc (n 1)) + at 2 (suc (n 2)))
          _ _ (omega arith))

  pub common-held :
      (me k : ℕ)
      → me < 4
      → k < 3
      → common me k
        ≡ v.add
            ((near v e hash stream s t n) ((me + k + 3) % 4))
            (stream ((me + k + 1) % 4) (n ((me + k + 1) % 4)))
  unfolding common
  common-held me k hm hk =
      each_share
        (λ k.
          common me k
          ≡ v.add ((near v e hash stream s t n) ((me + k + 3) % 4))
              (stream ((me + k + 1) % 4) (n ((me + k + 1) % 4))))
        (ap₂ v.add
          (cross_10-near v e hash stream s t n hx hy drawn (peer 4 me 3) (omega arith)
            ∙ ap (near v e hash stream s t n) (omega arith))
          ((masks v e hash stream s t n hx hy drawn me hm).0
            ∙ ap (λ q. stream q (n q)) (omega arith)))
        (ap₂ v.add
          (cross_10-near v e hash stream s t n hx hy drawn me hm
            ∙ ap (near v e hash stream s t n) (omega arith))
          ((masks v e hash stream s t n hx hy drawn me hm).1
            ∙ ap (λ q. stream q (n q)) (omega arith)))
        (ap₂ v.add
          (cross_12-near v e hash stream s t n hx hy drawn me hm
            ∙ ap (near v e hash stream s t n) (omega arith))
          ((masks v e hash stream s t n hx hy drawn me hm).2
            ∙ ap (λ q. stream q (n q)) (omega arith)))
        k hk

  pub adjusted-held :
      (me : ℕ)
      → me < 4
      → (k : ℕ) → k < 3
      → adjusted me k
        ≡ four
            (stream 1 (suc (n 1)))
            (stream 2 (suc (n 2)))
            (far v e hash stream s t n 0 1)
            (far v e hash stream s t n 1 2)
            ((me + k) % 4)
  unfolding adjusted
  adjusted-held =
      let at : ℕ → ℕ → Type 0 = λ me k.
        adjusted me k
        ≡ four (stream 1 (suc (n 1))) (stream 2 (suc (n 2))) (far v e hash stream s t n 0 1)
            (far v e hash stream s t n 1 2) ((me + k) % 4) in
      let (far0, far1, far2, far3) = cross-far v e hash stream s t n hx hy drawn in
      let (next0, opp0, next1, prev2, opp3, prev3) =
        second_masks v e hash stream s t n hx hy drawn in
      each_rank (λ me. (k : ℕ) → k < 3 → at me k) (each_share (at 0) next0 opp0 far0)
        (each_share (at 1) next1 far0 far1) (each_share (at 2) far2 far3 prev2)
        (each_share (at 3) far3 opp3 prev3)
