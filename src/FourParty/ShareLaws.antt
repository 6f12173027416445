-- ===== src/FourParty/ShareLaws.antt =====
-- About the shares of include/core/protocols/dalskov_4pc.h.
use crypt_dough.Base.{
  ℕ, zero, suc, ◌==◌, if◌then◌else◌, ◌+◌, ◌%◌, ◌≡◌, ◌≢◌, ◌<◌, refl, sym, ap, arith, mods,
}
use crypt_dough.Lanes.{Lanes}
use crypt_dough.Lanes.Laws.{sub-eq-add}
use crypt_dough.FourParty.Shares.{
  EVector, IsShared, Encoding, a_shared, b_shared, take_away, reconstruct_from_a, open_shares,
  unchecked_open_a,
}

-- For all ranks.
pub each_rank {ℓ} : (P : ℕ → Type ℓ) → P 0 → P 1 → P 2 → P 3 → (me : ℕ) → me < 4 → P me
each_rank P a b c d zero h = a
each_rank P a b c d (suc zero) h = b
each_rank P a b c d (suc (suc zero)) h = c
each_rank P a b c d (suc (suc (suc zero))) h = d
each_rank P a b c d (suc (suc (suc (suc me)))) h = absurd (omega arith)

-- For the three shares of a rank.
pub each_share {ℓ} : (P : ℕ → Type ℓ) → P 0 → P 1 → P 2 → (k : ℕ) → k < 3 → P k
each_share P a b c zero h = a
each_share P a b c (suc zero) h = b
each_share P a b c (suc (suc zero)) h = c
each_share P a b c (suc (suc (suc k))) h = absurd (omega arith)

-- Two shares that may differ from zero.
abbrev pub spread : {A : Type 0} → A → ℕ → ℕ → A → A → ℕ → A
spread zeros g h xg xh t = if t == g then xg else if t == h then xh else zeros

module _ {I A : Type 0} (v : Lanes I A) where
  -- The boolean encoding is used with one bit to a lane.
  abbrev pub Suits : Encoding → Type 0
  Suits a_shared = Unit {0}
  Suits b_shared = v.top ≡ 1

  pub take_away-sub : (e : Encoding) → Suits e → (x y : A) → take_away v e x y ≡ v.sub x y
  unfolding take_away
  take_away-sub a_shared suits x y = refl
  take_away-sub b_shared suits x y = sym (sub-eq-add v suits x y)

  abbrev pub total : (ℕ → A) → A
  total s = v.add (v.add (v.add (s 1) (s 2)) (s 3)) (s 0)

  -- A sum of four shares does not depend on where the counting starts.
  turns :
      (s : ℕ → A) (me : ℕ)
      → me < 4
      → v.add
          (v.add (v.add (s ((me + 0 + 1) % 4)) (s ((me + 1 + 1) % 4))) (s ((me + 2 + 1) % 4)))
          (s me)
        ≡ total s
  turns s =
      each_rank
        (λ me.
          v.add (v.add (v.add (s ((me + 0 + 1) % 4)) (s ((me + 1 + 1) % 4))) (s ((me + 2 + 1) % 4)))
            (s me)
          ≡ total s)
        refl (v.at_ext _ _ λ i. simp (v.at-add, mods) (ap (λ t. t % suc v.top) (omega arith)))
        (v.at_ext _ _ λ i. simp (v.at-add, mods) (ap (λ t. t % suc v.top) (omega arith)))
        (v.at_ext _ _ λ i. simp (v.at-add, mods) (ap (λ t. t % suc v.top) (omega arith)))

  pub spread-total :
      (g h : ℕ) (a b : A) → g < 4 → h < 4 → g ≢ h → total (spread v.zeros g h a b) ≡ v.add a b
  spread-total g h a b hg hh ne =
      v.at_ext _ _
        λ i. simp (v.at-add, mods) (ap (λ t. t % suc v.top) (ground (arith, v.at-zeros i)))

  module _ {d : ℕ} {x : ℕ → EVector A} {s : ℕ → A} (shared : IsShared d x s) where
    pub reconstruct-total : reconstruct_from_a v x ≡ total s
    unfolding reconstruct_from_a
    reconstruct-total = cc (
      shared.held 0 0 (omega arith) (omega arith),
      shared.held 1 0 (omega arith) (omega arith),
      shared.held 2 0 (omega arith) (omega arith),
      shared.held 3 0 (omega arith) (omega arith),
    )

    open_shares-missing : (me : ℕ) → me < 4 → open_shares v x me 4 ≡ s me
    unfolding open_shares
    open_shares-missing =
        each_rank (λ p. open_shares v x p 4 ≡ s p) (shared.held 2 1 (omega arith) (omega arith))
          (shared.held 0 0 (omega arith) (omega arith))
          (shared.held 0 1 (omega arith) (omega arith))
          (shared.held 1 1 (omega arith) (omega arith))

    -- Every rank opens the same value.
    pub open-total : (me : ℕ) → me < 4 → unchecked_open_a v x me ≡ total s
    unfolding unchecked_open_a
    open-total me h = cc (
      open_shares-missing me h,
      shared.held me 0 h (omega arith),
      shared.held me 1 h (omega arith),
      shared.held me 2 h (omega arith),
      turns s me h,
    )
