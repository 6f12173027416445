-- ===== src/CustomFour/Opening.antt =====
-- Shares of four ranks in the layout of include/core/protocols/custom_4pc.h, and opening them.
use crypt_dough.Base.{ℕ, suc, ◌+◌, ◌%◌, ◌≡◌, ◌≢◌, ◌<◌, ◌∙◌, refl, ap, arith, mods}
use crypt_dough.Comm.{peer}
use crypt_dough.Lanes.{Lanes}
use crypt_dough.Random.Prg.{Counters}
use crypt_dough.FourParty.Shares.{EVector}
use crypt_dough.FourParty.ShareLaws.{each_rank}
use crypt_dough.CustomFour.{reconstruct, unchecked_open}

-- Rank `me` holds the shares `me`, `me + 1` and `me + 2`.
pub record IsHeld {A : Type 0} (d : ℕ) (x : ℕ → EVector A) (s : ℕ → A) : Type 0 where
  pub held : (me k : ℕ) → me < 4 → k < 3 → (x me).share k ≡ s ((me + k) % 4)
  pub precisions : (me : ℕ) → me < 4 → (x me).precision ≡ d

-- The three ranks that share a PRG have drawn equally often from it.
abbrev pub AreDrawn : Counters → (ℕ → Counters) → Type 0
AreDrawn n counts = (me k : ℕ) → me < 4 → k < 4 → me ≢ k → counts me k ≡ n k

module _ {I A : Type 0} (v : Lanes I A) where
  abbrev pub total : (ℕ → A) → A
  total s = v.add (v.add (v.add (s 0) (s 1)) (s 2)) (s 3)

  turns :
      (s : ℕ → A) (me : ℕ)
      → me < 4
      → v.add
          (v.add (v.add (s ((me + 0) % 4)) (s ((me + 1) % 4))) (s ((me + 2) % 4)))
          (s ((me + 3) % 4))
        ≡ total s
  turns s =
      each_rank
        (λ me.
          v.add (v.add (v.add (s ((me + 0) % 4)) (s ((me + 1) % 4))) (s ((me + 2) % 4)))
            (s ((me + 3) % 4))
          ≡ total s)
        refl (v.at_ext _ _ λ i. simp (v.at-add, mods) (ap (λ t. t % suc v.top) (omega arith)))
        (v.at_ext _ _ λ i. simp (v.at-add, mods) (ap (λ t. t % suc v.top) (omega arith)))
        (v.at_ext _ _ λ i. simp (v.at-add, mods) (ap (λ t. t % suc v.top) (omega arith)))

  module _ {d : ℕ} {x : ℕ → EVector A} {s : ℕ → A} (hx : IsHeld d x s) where
    pub reconstruct-total : reconstruct v x ≡ total s
    unfolding reconstruct
    reconstruct-total = cc (
      hx.held 0 0 (omega arith) (omega arith),
      hx.held 1 0 (omega arith) (omega arith),
      hx.held 2 0 (omega arith) (omega arith),
      hx.held 3 0 (omega arith) (omega arith),
    )

    pub open-total : (me : ℕ) → me < 4 → unchecked_open v x me ≡ total s
    unfolding unchecked_open
    open-total me h = cc (
      hx.held me 0 h (omega arith),
      hx.held me 1 h (omega arith),
      hx.held me 2 h (omega arith),
      hx.held (peer 4 me 3) 0 (omega arith) (omega arith)
          ∙ ap s {x = ((me + 3) % 4 + 0) % 4} {y = (me + 3) % 4} (omega arith),
      turns s me h,
    )
