-- ===== src/FourParty/SharingLaws.antt =====
-- About making, giving out and publishing shares in include/core/protocols/dalskov_4pc.h.
use crypt_dough.Base.{
  ℕ, suc, ◌==◌, if◌then◌else◌, ◌+◌, ◌-◌, ◌%◌, ◌≡◌, ◌<◌, ◌∙◌, refl, ap, arith, mods, mod_eq_by, none,
  some, Bool, true, false, ◌⊎◌, inl, inr, ◌≢◌,
}
use crypt_dough.Circuits.Bits.{bit_value}
use crypt_dough.Comm.{four, three}
use crypt_dough.Lanes.{Lanes, InRange}
use crypt_dough.Lanes.Laws.{add-zeros}
use crypt_dough.FourParty.Ranks.{abs2sh}
use crypt_dough.FourParty.RankLaws.{share_index, lacking}
use crypt_dough.FourParty.Shares.{
  EVector, IsShared, Encoding, take_away, get_shares, unchecked_open_a, lacking_rank, public_share,
  secret_share,
}
use crypt_dough.FourParty.ShareLaws.{
  each_rank, each_share, spread, Suits, take_away-sub, total, spread-total, open-total,
}

-- How many ranks are in a set.
abbrev pub group_size : Bool → Bool → Bool → Bool → ℕ
group_size k0 k1 k2 k3 = bit_value k0 + bit_value k1 + bit_value k2 + bit_value k3

-- Whether a rank is in a set.
abbrev pub in_group : Bool → Bool → Bool → Bool → ℕ → Bool
in_group k0 k1 k2 k3 = four k0 k1 k2 k3

-- Rank `k` is 0 for the empty set, and the one that a set of three lacks.
abbrev pub Lacks : Bool → Bool → Bool → Bool → ℕ → Type 0
Lacks k0 k1 k2 k3 k =
    ((group_size k0 k1 k2 k3 ≡ 0) × (k ≡ 0))
    ⊎ ((group_size k0 k1 k2 k3 ≡ 3) × (k < 4) × (in_group k0 k1 k2 k3 k ≡ false))

module _ {I A : Type 0} (v : Lanes I A) where
  -- The four shares that are made of a value, counted from the owner's rank.
  dealt : A → A → A → A → ℕ → ℕ → A
  dealt s0 s1 s2 s3 data_party t = four s0 s1 s2 s3 ((t + 4 - data_party) % 4)

  module _ (e : Encoding) (suits : Suits v e) (plain s0 s1 s2 : A) (fits : InRange v plain) where
    abbrev s3 : A
    s3 = take_away v e (take_away v e (take_away v e plain s0) s1) s2

    s3-sub : s3 ≡ v.sub (v.sub (v.sub plain s0) s1) s2
    s3-sub =
        rw
          (
            take_away-sub v e suits plain s0,
            take_away-sub v e suits (v.sub plain s0) s1,
            take_away-sub v e suits (v.sub (v.sub plain s0) s1) s2,
          )
          refl

    dealt-total : (data_party : ℕ) → data_party < 4 → total v (dealt s0 s1 s2 s3 data_party) ≡ plain
    unfolding dealt
    dealt-total =
        each_rank (λ p. total v (dealt s0 s1 s2 s3 p) ≡ plain)
          (v.at_ext _ _ λ i.
            simp (s3-sub, v.at-add, v.at-sub, mods)
              (mod_eq_by (suc v.top) 0 (v.at s0 i + v.at s1 i + v.at s2 i) _ (v.at plain i)
                  (omega arith)
                ∙ fits i))
          (v.at_ext _ _ λ i.
            simp (s3-sub, v.at-add, v.at-sub, mods)
              (mod_eq_by (suc v.top) 0 (v.at s0 i + v.at s1 i + v.at s2 i) _ (v.at plain i)
                  (omega arith)
                ∙ fits i))
          (v.at_ext _ _ λ i.
            simp (s3-sub, v.at-add, v.at-sub, mods)
              (mod_eq_by (suc v.top) 0 (v.at s0 i + v.at s1 i + v.at s2 i) _ (v.at plain i)
                  (omega arith)
                ∙ fits i))
          (v.at_ext _ _ λ i.
            simp (s3-sub, v.at-add, v.at-sub, mods)
              (mod_eq_by (suc v.top) 0 (v.at s0 i + v.at s1 i + v.at s2 i) _ (v.at plain i)
                  (omega arith)
                ∙ fits i))

    get_shares-share :
        (me : ℕ)
        → me < 4
        → (k : ℕ) → k < 3
        → (get_shares v e plain s0 s1 s2 me).share k ≡ four s0 s1 s2 s3 ((me + k + 1) % 4)
    unfolding get_shares
    get_shares-share =
        each_rank
          (λ me.
            (k : ℕ)
            → k < 3
            → (get_shares v e plain s0 s1 s2 me).share k ≡ four s0 s1 s2 s3 ((me + k + 1) % 4))
          (each_share (λ k. three s1 s2 s3 k ≡ four s0 s1 s2 s3 ((0 + k + 1) % 4)) refl refl refl)
          (each_share (λ k. three s2 s3 s0 k ≡ four s0 s1 s2 s3 ((1 + k + 1) % 4)) refl refl refl)
          (each_share (λ k. three s3 s0 s1 k ≡ four s0 s1 s2 s3 ((2 + k + 1) % 4)) refl refl refl)
          (each_share (λ k. three s0 s1 s2 k ≡ four s0 s1 s2 s3 ((3 + k + 1) % 4)) refl refl refl)

    given : ℕ → ℕ → EVector A
    unfolding get_shares
    given data_party me = get_shares v e plain s0 s1 s2 ((me + 4 - data_party) % 4)

    given-IsShared :
        (data_party : ℕ)
        → data_party < 4
        → IsShared 0 (given data_party) (dealt s0 s1 s2 s3 data_party)
    unfolding given dealt
    given-IsShared p h = record {
      held = λ me k hm hk.
          get_shares-share ((me + 4 - p) % 4) (omega arith) k hk
          ∙ ap (four s0 s1 s2 s3) (omega arith);
      precisions = λ me hm. refl;
    }

    give_out-given :
        (data_party : ℕ)
        → data_party < 4
        → (me : ℕ) → me < 4
        → secret_share v e plain s0 s1 s2 data_party me ≡ some (given data_party me)
    unfolding given secret_share
    give_out-given =
        each_rank
          (λ p. (me : ℕ) → me < 4 → secret_share v e plain s0 s1 s2 p me ≡ some (given p me))
          (each_rank (λ me. secret_share v e plain s0 s1 s2 0 me ≡ some (given 0 me)) refl refl refl
            refl)
          (each_rank (λ me. secret_share v e plain s0 s1 s2 1 me ≡ some (given 1 me)) refl refl refl
            refl)
          (each_rank (λ me. secret_share v e plain s0 s1 s2 2 me ≡ some (given 2 me)) refl refl refl
            refl)
          (each_rank (λ me. secret_share v e plain s0 s1 s2 3 me ≡ some (given 3 me)) refl refl refl
            refl)

    -- Whoever of four ranks owns a value that fits its type, the ranks end with consistent shares
    -- that open to it at every rank.
    pub fantastic_secret_share-open :
        (data_party : ℕ)
        → data_party < 4
        → (z : ℕ → EVector A) × ((me : ℕ)
            → me < 4
            → secret_share v e plain s0 s1 s2 data_party me ≡ some (z me))
          × (s : ℕ → A) × IsShared 0 z s
          × ((me : ℕ) → me < 4 → unchecked_open_a v z me ≡ plain)
    fantastic_secret_share-open p h = (
      given p,
      give_out-given p h,
      dealt s0 s1 s2 s3 p,
      given-IsShared p h,
      λ me hm. open-total v (given-IsShared p h) me hm ∙ dealt-total p h,
    )

  lacking_rank-cases :
      (k0 k1 k2 k3 : Bool)
      → ((lacking_rank v k0 k1 k2 k3 ≡ none)
          × (group_size k0 k1 k2 k3 ≢ 0)
          × (group_size k0 k1 k2 k3 ≢ 3))
        ⊎ ((k : ℕ) × (k < 4) × (lacking_rank v k0 k1 k2 k3 ≡ some k) × Lacks k0 k1 k2 k3 k)
  unfolding lacking_rank
  lacking_rank-cases false false false false = inr (0, omega arith, refl, inl (refl, refl))
  lacking_rank-cases false false false true =
      inl (refl, (λ e. omega (arith, e)), λ e. omega (arith, e))
  lacking_rank-cases false false true false =
      inl (refl, (λ e. omega (arith, e)), λ e. omega (arith, e))
  lacking_rank-cases false false true true =
      inl (refl, (λ e. omega (arith, e)), λ e. omega (arith, e))
  lacking_rank-cases false true false false =
      inl (refl, (λ e. omega (arith, e)), λ e. omega (arith, e))
  lacking_rank-cases false true false true =
      inl (refl, (λ e. omega (arith, e)), λ e. omega (arith, e))
  lacking_rank-cases false true true false =
      inl (refl, (λ e. omega (arith, e)), λ e. omega (arith, e))
  lacking_rank-cases false true true true =
      inr (0, omega arith, refl, inr (refl, omega arith, refl))
  lacking_rank-cases true false false false =
      inl (refl, (λ e. omega (arith, e)), λ e. omega (arith, e))
  lacking_rank-cases true false false true =
      inl (refl, (λ e. omega (arith, e)), λ e. omega (arith, e))
  lacking_rank-cases true false true false =
      inl (refl, (λ e. omega (arith, e)), λ e. omega (arith, e))
  lacking_rank-cases true false true true =
      inr (1, omega arith, refl, inr (refl, omega arith, refl))
  lacking_rank-cases true true false false =
      inl (refl, (λ e. omega (arith, e)), λ e. omega (arith, e))
  lacking_rank-cases true true false true =
      inr (2, omega arith, refl, inr (refl, omega arith, refl))
  lacking_rank-cases true true true false =
      inr (3, omega arith, refl, inr (refl, omega arith, refl))
  lacking_rank-cases true true true true =
      inl (refl, (λ e. omega (arith, e)), λ e. omega (arith, e))

  module _ (x : A) (fits : InRange v x) (k : ℕ) (hk : k < 4) where
    published : ℕ → EVector A
    published me = record {
      share = λ l. if me == k then v.zeros else if l == abs2sh me k then x else v.zeros;
      precision = 0;
    }

    only : ℕ → A
    only = spread v.zeros k ((k + 1) % 4) x v.zeros

    published-IsShared : IsShared 0 published only
    unfolding published only
    published-IsShared = record {
      held = λ me l hm hl. ground (arith, share_index me k l hm hk hl, lacking me l hm hl);
      precisions = λ me hm. refl;
    }

    only-total : total v only ≡ x
    unfolding only
    only-total =
        spread-total v k ((k + 1) % 4) x v.zeros hk (omega arith) (λ e. omega (arith, e))
        ∙ add-zeros v x fits

  only-at :
      (x : A) (fits : InRange v x) (k : ℕ) (hk : k < 4) (p : ℕ)
      → p < 4
      → only x fits k hk p ≡ (if p == k then x else v.zeros)
  unfolding only
  only-at x fits k hk p hp = ground arith

  not_published :
      (x : A) (k0 k1 k2 k3 : Bool) (me : ℕ)
      → lacking_rank v k0 k1 k2 k3 ≡ none
      → public_share v x k0 k1 k2 k3 me ≡ none
  unfolding public_share
  not_published x k0 k1 k2 k3 me e = rw e refl

  is_published :
      (x : A) (fits : InRange v x) (k0 k1 k2 k3 : Bool) (me k : ℕ) (hk : k < 4)
      → lacking_rank v k0 k1 k2 k3 ≡ some k
      → public_share v x k0 k1 k2 k3 me ≡ some (published x fits k hk me)
  unfolding public_share published
  is_published x fits k0 k1 k2 k3 me k hk e = rw e refl

  -- The set of ranks that know a value: of three ranks it names the fourth, the empty set stands for
  -- all ranks and names rank 0. For these sets, a value that fits its type becomes at every rank
  -- consistent shares that open to it at every rank, of which the one that the named rank lacks is
  -- the value and the others are zero; for a set of one, two or four ranks every rank fails.
  pub fantastic_public_share-open :
      (x : A)
      → InRange v x
      → (k0 k1 k2 k3 : Bool)
      → ((group_size k0 k1 k2 k3 ≢ 0)
          × (group_size k0 k1 k2 k3 ≢ 3)
          × ((me : ℕ) → public_share v x k0 k1 k2 k3 me ≡ none))
        ⊎ ((k : ℕ) × Lacks k0 k1 k2 k3 k
            × (z : ℕ → EVector A) × ((me : ℕ) → public_share v x k0 k1 k2 k3 me ≡ some (z me))
            × (s : ℕ → A) × IsShared 0 z s
            × ((p : ℕ) → p < 4 → s p ≡ (if p == k then x else v.zeros))
            × ((me : ℕ) → me < 4 → unchecked_open_a v z me ≡ x))
  fantastic_public_share-open x fits k0 k1 k2 k3 = elim (lacking_rank-cases k0 k1 k2 k3) [
    | inl (missing, some_ranks, not_three) ↦
        inl (some_ranks, not_three, λ me. not_published x k0 k1 k2 k3 me missing)
    | inr (k, hk, found, lacks) ↦ inr (
      k,
      lacks,
      published x fits k hk,
      (λ me. is_published x fits k0 k1 k2 k3 me k hk found),
      only x fits k hk,
      published-IsShared x fits k hk,
      (λ p hp. only-at x fits k hk p hp),
      λ me hm. open-total v (published-IsShared x fits k hk) me hm ∙ only-total x fits k hk,
    )
  ]
