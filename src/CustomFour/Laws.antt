-- ===== src/CustomFour/Laws.antt =====
-- About the product of include/core/protocols/custom_4pc.h.
use crypt_dough.Base.{ℕ, ◌≡◌, ◌<◌, ◌∙◌, refl, sym, ap, ap₂, arith, Option, some}
use crypt_dough.Comm.{peer, four, all_four, handle_precision, ◌>>=◌}
use crypt_dough.Lanes.{Lanes}
use crypt_dough.Random.Prg.{Counters}
use crypt_dough.Replicated.MultiplyLaws.{handled}
use crypt_dough.FourParty.Shares.{EVector, Encoding, b_shared}
use crypt_dough.FourParty.ShareLaws.{each_rank, Suits}
use crypt_dough.CustomFour.{
  malicious_check, common_part, adjustment, product, and_b, reconstruct, unchecked_open,
}
use crypt_dough.CustomFour.Opening.{IsHeld, AreDrawn, open-total, reconstruct-total}
use crypt_dough.CustomFour.Counts.{drawn_after, part-drawn}
use crypt_dough.CustomFour.Terms.{near, l, part, cross_10-near, cross_12-near, cross-far}
use crypt_dough.CustomFour.Parts.{
  common, adjusted, product_share, product_share-total, common-held, adjusted-held,
}

all_four_runs :
    {A : Type 0} (f : ℕ → Option A) {a b c d : A}
    → f 0 ≡ some a
    → f 1 ≡ some b
    → f 2 ≡ some c
    → f 3 ≡ some d
    → all_four f ≡ some (four a b c d)
all_four_runs f ea eb ec ed = rw (ea, eb, ec, ed) refl

run_three :
    {A B C D : Type 0} {m : Option A} {n : Option B} {o : Option C} {a : A} {b : B} {c : C}
    (f : A → B → C → D)
    → m ≡ some a
    → n ≡ some b
    → o ≡ some c
    → (m >>= λ x. n >>= λ y. o >>= λ z. some (f x y z)) ≡ some (f a b c)
run_three f ea eb ec = rw (ea, eb, ec) refl

passes :
    {I A B : Type 0} (v : Lanes I A) (e : Encoding) (hash : A → ℕ) (stream : ℕ → ℕ → A)
    (message : A) (received : ℕ) (go_on : B)
    → hash message ≡ received
    → malicious_check v e hash stream message received go_on ≡ some go_on
unfolding malicious_check
passes v e hash stream message received go_on same = ground arith

module _ {I A : Type 0} (v : Lanes I A) (e : Encoding) (hash : A → ℕ) (stream : ℕ → ℕ → A)
    (s t : ℕ → A) (n : Counters) {d : ℕ} {x y : ℕ → EVector A} {counts : ℕ → Counters}
    (hx : IsHeld d x s) (hy : IsHeld d y t) (drawn : AreDrawn n counts) where
  result : ℕ → EVector A
  result me = record {
    share = λ k.
        v.add
          (four ((common v e hash stream s t n hx hy drawn) 0)
            ((common v e hash stream s t n hx hy drawn) 1)
            ((common v e hash stream s t n hx hy drawn) 2)
            ((common v e hash stream s t n hx hy drawn) 3) me k)
          (four ((adjusted v e hash stream s t n hx hy drawn) 0)
            ((adjusted v e hash stream s t n hx hy drawn) 1)
            ((adjusted v e hash stream s t n hx hy drawn) 2)
            ((adjusted v e hash stream s t n hx hy drawn) 3) me k);
    precision = four d d d d me;
  }

  result-IsHeld : IsHeld d result (product_share v e hash stream s t n hx hy drawn)
  unfolding result product_share
  result-IsHeld = record {
    held = λ me k hm hk.
        ap₂ v.add
          (each_rank
              (λ m.
                four ((common v e hash stream s t n hx hy drawn) 0)
                  ((common v e hash stream s t n hx hy drawn) 1)
                  ((common v e hash stream s t n hx hy drawn) 2)
                  ((common v e hash stream s t n hx hy drawn) 3) m k
                ≡ (common v e hash stream s t n hx hy drawn) m k)
              refl refl refl refl me hm
            ∙ (common-held v e hash stream s t n hx hy drawn) me k hm hk
            ∙ ap₂ v.add (ap (near v e hash stream s t n) (omega arith))
                (ap (λ q. stream q (n q)) (omega arith)))
          (each_rank
              (λ m.
                four ((adjusted v e hash stream s t n hx hy drawn) 0)
                  ((adjusted v e hash stream s t n hx hy drawn) 1)
                  ((adjusted v e hash stream s t n hx hy drawn) 2)
                  ((adjusted v e hash stream s t n hx hy drawn) 3) m k
                ≡ (adjusted v e hash stream s t n hx hy drawn) m k)
              refl refl refl refl me hm
            ∙ (adjusted-held v e hash stream s t n hx hy drawn) me hm k hk);
    precisions = each_rank (λ me. four d d d d me ≡ d) refl refl refl refl;
  }

  common-runs :
      (me : ℕ)
      → me < 4
      → common_part v e hash stream (l v e hash stream s t n hx hy drawn) me
        ≡ some ((common v e hash stream s t n hx hy drawn) me)
  unfolding common_part common
  common-runs me h = passes v e hash stream _ _ _ (
      ap hash (
        cross_10-near v e hash stream s t n hx hy drawn (peer 4 me 3) (omega arith)
        ∙ ap (near v e hash stream s t n) (omega arith)
        ∙ sym (cross_12-near v e hash stream s t n hx hy drawn (peer 4 me 2) (omega arith))))

  adjusted-runs :
      (me : ℕ)
      → me < 4
      → adjustment v e hash stream (part v e hash stream s t n hx hy drawn) me
        ≡ some ((adjusted v e hash stream s t n hx hy drawn) me)
  unfolding adjustment adjusted
  adjusted-runs =
      let (far0, far1, far2, far3) = cross-far v e hash stream s t n hx hy drawn in
      each_rank
        (λ me.
          adjustment v e hash stream (part v e hash stream s t n hx hy drawn) me
          ≡ some ((adjusted v e hash stream s t n hx hy drawn) me))
        refl (passes v e hash stream _ _ _ (ap hash (far0 ∙ sym far2)))
        (passes v e hash stream _ _ _ (ap hash (far3 ∙ sym far1))) refl

  -- A product of shares by four ranks that have drawn equally often from the PRGs that they
  -- share: every check of a message passes, no rank fails, and every rank opens the product.
  pub custom_product-open :
      Suits v e
      → (z : ℕ → EVector A) × (after : ℕ → Counters) × (product v e hash stream x y counts
          ≡ some (z, after))
        × (w : ℕ → A) × IsHeld d z w
        × ((me : ℕ) → me < 4 → unchecked_open v z me ≡ v.mul (reconstruct v x) (reconstruct v y))
        × (m : Counters) × AreDrawn m after
  unfolding product part l result
  custom_product-open suits = (
    result,
    (λ me. ((part v e hash stream s t n hx hy drawn) me).counts),
    run_three
        (λ z added precision. (
          (λ me. record { share = λ k. v.add (z me k) (added me k); precision = precision me }),
          λ me. ((part v e hash stream s t n hx hy drawn) me).counts,
        ))
        (all_four_runs (common_part v e hash stream (l v e hash stream s t n hx hy drawn))
          (common-runs 0 (omega arith)) (common-runs 1 (omega arith)) (common-runs 2 (omega arith))
          (common-runs 3 (omega arith)))
        (all_four_runs (adjustment v e hash stream (part v e hash stream s t n hx hy drawn))
          (adjusted-runs 0 (omega arith)) (adjusted-runs 1 (omega arith))
          (adjusted-runs 2 (omega arith)) (adjusted-runs 3 (omega arith)))
        (all_four_runs (λ me. handle_precision (x me).precision (y me).precision)
          (precise 0 (omega arith)) (precise 1 (omega arith)) (precise 2 (omega arith))
          (precise 3 (omega arith))),
    (product_share v e hash stream s t n hx hy drawn),
    result-IsHeld,
    (λ me h.
        open-total v result-IsHeld me h
        ∙ (product_share-total v e hash stream s t n hx hy drawn) suits
        ∙ ap₂ v.mul (sym (reconstruct-total v hx)) (sym (reconstruct-total v hy))),
    drawn_after v e hash stream s t n hx hy drawn,
    (λ me k hm hk ne. part-drawn v e hash stream s t n hx hy drawn me hm k hk ne),
  )
    where
      precise : (me : ℕ) → me < 4 → handle_precision (x me).precision (y me).precision ≡ some d
      precise me h = handled _ _ d (hx.precisions me h) (hy.precisions me h)

-- AND by four ranks that have drawn equally often from the PRGs that they share, in lanes of one
-- bit: every check of a message passes, no rank fails, and every rank opens the bitwise product.
pub custom_and_b-open :
    {I A : Type 0} (v : Lanes I A) (hash : A → ℕ) (stream : ℕ → ℕ → A) (s t : ℕ → A) (n : Counters)
    {d : ℕ} {x y : ℕ → EVector A} {counts : ℕ → Counters}
    → IsHeld d x s
    → IsHeld d y t
    → AreDrawn n counts
    → v.top ≡ 1
    → (z : ℕ → EVector A) × (after : ℕ → Counters) × (and_b v hash stream x y counts
        ≡ some (z, after))
      × (w : ℕ → A) × IsHeld d z w
      × ((me : ℕ) → me < 4 → unchecked_open v z me ≡ v.mul (reconstruct v x) (reconstruct v y))
      × (m : Counters) × AreDrawn m after
unfolding and_b
custom_and_b-open v hash stream s t n hx hy drawn bits =
    custom_product-open v b_shared hash stream s t n hx hy drawn bits
