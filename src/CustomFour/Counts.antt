-- ===== src/CustomFour/Counts.antt =====
-- How much the ranks draw from the PRGs in a product of include/core/protocols/custom_4pc.h.
use crypt_dough.Base.{ℕ, suc, ◌≡◌, ◌≢◌, ◌<◌, refl, ap, arith}
use crypt_dough.Comm.{four}
use crypt_dough.Lanes.{Lanes}
use crypt_dough.Random.Prg.{Counters, get_next}
use crypt_dough.FourParty.Shares.{EVector, Encoding}
use crypt_dough.FourParty.ShareLaws.{each_rank}
use crypt_dough.CustomFour.Opening.{IsHeld, AreDrawn}
use crypt_dough.CustomFour.Terms.{l, part}

module _ {I A : Type 0} (v : Lanes I A) (e : Encoding) (hash : A → ℕ) (stream : ℕ → ℕ → A)
    (s t : ℕ → A) (n : Counters) {d : ℕ} {x y : ℕ → EVector A} {counts : ℕ → Counters}
    (hx : IsHeld d x s) (hy : IsHeld d y t) (drawn : AreDrawn n counts) where
  pub drawn_after : Counters
  drawn_after = four (suc (n 0)) (suc (suc (n 1))) (suc (suc (n 2))) (suc (n 3))

  pub part-drawn :
      (me : ℕ)
      → me < 4
      → (k : ℕ) → k < 4
      → me ≢ k
      → ((part v e hash stream s t n hx hy drawn) me).counts k ≡ drawn_after k
  unfolding part l get_next drawn_after
  part-drawn =
      each_rank
        (λ me.
          (k : ℕ)
          → k < 4
          → me ≢ k
          → ((part v e hash stream s t n hx hy drawn) me).counts k ≡ drawn_after k)
        (each_rank
          (λ k. 0 ≢ k → ((part v e hash stream s t n hx hy drawn) 0).counts k ≡ drawn_after k)
          (λ q. absurd (q refl))
          (λ q. ap (λ c. suc (suc c)) (drawn 0 1 (omega arith) (omega arith) q))
          (λ q. ap (λ c. suc (suc c)) (drawn 0 2 (omega arith) (omega arith) q))
          (λ q. ap (λ c. suc c) (drawn 0 3 (omega arith) (omega arith) q)))
        (each_rank
          (λ k. 1 ≢ k → ((part v e hash stream s t n hx hy drawn) 1).counts k ≡ drawn_after k)
          (λ q. ap (λ c. suc c) (drawn 1 0 (omega arith) (omega arith) q)) (λ q. absurd (q refl))
          (λ q. ap (λ c. suc (suc c)) (drawn 1 2 (omega arith) (omega arith) q))
          (λ q. ap (λ c. suc c) (drawn 1 3 (omega arith) (omega arith) q)))
        (each_rank
          (λ k. 2 ≢ k → ((part v e hash stream s t n hx hy drawn) 2).counts k ≡ drawn_after k)
          (λ q. ap (λ c. suc c) (drawn 2 0 (omega arith) (omega arith) q))
          (λ q. ap (λ c. suc (suc c)) (drawn 2 1 (omega arith) (omega arith) q))
          (λ q. absurd (q refl)) (λ q. ap (λ c. suc c) (drawn 2 3 (omega arith) (omega arith) q)))
        (each_rank
          (λ k. 3 ≢ k → ((part v e hash stream s t n hx hy drawn) 3).counts k ≡ drawn_after k)
          (λ q. ap (λ c. suc c) (drawn 3 0 (omega arith) (omega arith) q))
          (λ q. ap (λ c. suc (suc c)) (drawn 3 1 (omega arith) (omega arith) q))
          (λ q. ap (λ c. suc (suc c)) (drawn 3 2 (omega arith) (omega arith) q))
          (λ q. absurd (q refl)))
