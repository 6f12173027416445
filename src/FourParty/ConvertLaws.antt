-- ===== src/FourParty/ConvertLaws.antt =====
-- About `b2a_bit`, `redistribute_shares_b`, `not_b` and `not_b_1` of
-- include/core/protocols/dalskov_4pc.h.
use crypt_dough.Base.{
  ℕ, suc, ◌+◌, ◌*◌, ◌%◌, ◌≡◌, ◌<◌, ◌∙◌, refl, sym, ap, ap₂, arith, mods, square_of_bits, some, Bool,
  ◌==◌, if◌then◌else◌,
}
use crypt_dough.Lanes.{Lanes, InRange}
use crypt_dough.Random.Prg.{Counters}
use crypt_dough.FourParty.Shares.{
  EVector, IsShared, Held, reconstruct_from_a, unchecked_open_a, a_shared, b_shared,
}
use crypt_dough.FourParty.ShareLaws.{total, each_share, reconstruct-total, open-total}
use crypt_dough.FourParty.Inp.{Party, inp}
use crypt_dough.FourParty.InpLaws.{IsSynced, inp-shared}
use crypt_dough.FourParty.MultiplyLaws.{Opens, by-Opens, fantastic_multiply_a-open}
use crypt_dough.FourParty.Multiply.{
  Division, minus, two_share, s0, s1, b2a_bit, local_sum, redistribute_shares_b, flip_share, not_b,
  not_b_1,
}

module _ {I A H : Type 0} (v : Lanes I A) (update : H → A → H) (final : H → ℕ)
    (stream : ℕ → ℕ → A) where
  total_sub : (s t : ℕ → A) → total v (λ k. v.sub (s k) (t k)) ≡ v.sub (total v s) (total v t)
  total_sub s t =
      v.at_ext _ _ λ i. simp (v.at-add, v.at-sub, mods) (ap (λ t. t % suc v.top) (omega arith))

  square_lane :
      {a b : A} (i : I) (p q : ℕ)
      → v.at a i ≡ p % 2
      → v.at b i ≡ q % 2
      → v.at (v.mul (v.sub a b) (v.sub a b)) i ≡ ((p + q) % 2) % suc v.top
  square_lane {a} {b} i p q ea eb =
      simp (v.at-mul, v.at-sub, mods)
        (ap₂ (λ s t. ((s + v.top * t) * (s + v.top * t)) % suc v.top) ea eb
          ∙ square_of_bits v.top (p % 2) (q % 2) (omega arith) (omega arith)
          ∙ ap (λ t. t % suc v.top) (simp mods))

  module _ {x : ℕ → EVector A} {s : ℕ → A} {d : ℕ} (shared : IsShared d x s) (n : Counters)
      (parties : ℕ → Party H) (synced : IsSynced n parties) where
    -- Redistribution by four ranks that agree, in lanes of one bit: the two results are
    -- consistent shares of the sum of shares 1 and 2 and of the sum of shares 3 and 0, and the
    -- check that follows passes at every rank.
    pub fantastic_redistribute_shares_b-open :
        v.top ≡ 1
        → (sum : A → A → A) → InRange v (sum (s 1) (s 2))
        → InRange v (sum (s 3) (s 0))
        → ((me : ℕ)
            → me < 4
            → unchecked_open_a v (redistribute_shares_b v update stream sum x parties).0 me
              ≡ sum (s 1) (s 2))
          × Opens v final 0
              (sum (s 3) (s 0))
              (redistribute_shares_b v update stream sum x parties).1
              (redistribute_shares_b v update stream sum x parties).2
    unfolding redistribute_shares_b local_sum inp
    fantastic_redistribute_shares_b-open bits sum f12 f30 =
        let sum_at : (me k l : ℕ)
            → me < 4
            → k < 3
            → l < 3
            → sum ((x me).share k) ((x me).share l)
              ≡ sum (s ((me + k + 1) % 4)) (s ((me + l + 1) % 4)) =
          λ me k l hm hk hl. ap₂ sum (shared.held me k hm hk) (shared.held me l hm hl) in
        let (t, t_held, t_total, between) =
          inp-shared v b_shared update stream bits (local_sum v update stream sum x) _ f12 0 3
            (omega arith) (omega arith) (λ e. omega (arith, e))
            (sum_at 0 0 1 (omega arith) (omega arith) (omega arith))
            (sum_at 3 1 2 (omega arith) (omega arith) (omega arith)) synced in
        let (u, u_held, u_total, after) =
          inp-shared v b_shared update stream bits (local_sum v update stream sum x) _ f30 2 1
            (omega arith) (omega arith) (λ e. omega (arith, e))
            (sum_at 2 0 1 (omega arith) (omega arith) (omega arith))
            (sum_at 1 1 2 (omega arith) (omega arith) (omega arith)) between in
        (
          (λ me h.
              open-total v {d = 0} {s = t} (record { held = t_held; precisions = λ me h. refl }) me
                h
              ∙ t_total),
          by-Opens v final u (record { held = u_held; precisions = λ me h. refl }) u_total _ after,
        )

    -- The conversion of a boolean-shared bit by four ranks that agree: no rank fails, every rank
    -- opens, in every lane, the exclusive or of the four masked shares, and the check that follows
    -- passes at every rank.
    pub fantastic_b2a_bit-open :
        (corrected : Bool) (division : ℕ → Division A) (mask : A → A) (xor_bits : A → A → A)
        → ((a b : A) (i : I)
            → v.at (xor_bits (mask a) (mask b)) i ≡ (v.at (mask a) i + v.at (mask b) i) % 2)
        → ((a b : A) → InRange v (xor_bits (mask a) (mask b)))
        → (z : ℕ → EVector A) × (after : ℕ → Party H) × (b2a_bit v update stream corrected division
              mask xor_bits x parties
            ≡ some (z, after))
          × (value : A) × Opens v final 0 value z after
          × ((i : I)
              → v.at value i
                ≡ ((v.at (mask (s 0)) i
                      + v.at (mask (s 1)) i
                      + v.at (mask (s 2)) i
                      + v.at (mask (s 3)) i)
                    % 2)
                  % suc v.top)
    unfolding b2a_bit s0 s1 two_share inp
    fantastic_b2a_bit-open corrected division mask xor_bits xors fits =
        let bits_at : (me k l : ℕ)
            → me < 4
            → k < 3
            → l < 3
            → xor_bits (mask ((x me).share k)) (mask ((x me).share l))
              ≡ xor_bits (mask (s ((me + k + 1) % 4))) (mask (s ((me + l + 1) % 4))) =
          λ me k l hm hk hl.
            ap₂ (λ a b. xor_bits (mask a) (mask b)) (shared.held me k hm hk)
              (shared.held me l hm hl) in
        let (t, t_held, t_total, between) =
          inp-shared v a_shared update stream tt
            (s0 v update stream corrected division mask xor_bits x) _ (fits (s 2) (s 3)) 1 0
            (omega arith) (omega arith) (λ e. omega (arith, e))
            (bits_at 1 0 1 (omega arith) (omega arith) (omega arith))
            (bits_at 0 1 2 (omega arith) (omega arith) (omega arith)) synced in
        let (u, u_held, u_total, mid) =
          inp-shared v a_shared update stream tt
            (s1 v update stream corrected division mask xor_bits x) _ (fits (s 0) (s 1)) 3 2
            (omega arith) (omega arith) (λ e. omega (arith, e))
            (bits_at 3 0 1 (omega arith) (omega arith) (omega arith))
            (bits_at 2 1 2 (omega arith) (omega arith) (omega arith)) between in
        let difference =
          minus v
            (λ me.
              (inp v a_shared update stream (s0 v update stream corrected division mask xor_bits x)
                1 0 parties me).0)
            (λ me.
              (inp v a_shared update stream (s1 v update stream corrected division mask xor_bits x)
                3 2
                (λ me.
                  (inp v a_shared update stream
                    (s0 v update stream corrected division mask xor_bits x) 1 0 parties me).1)
                me).0) in
        let d_shared : IsShared 0 difference (λ k. v.sub (t k) (u k)) = record {
          held = λ me k hm hk. ap₂ v.sub (t_held me k hm hk) (u_held me k hm hk);
          precisions = λ me h. refl;
        } in
        let (z, after, runs, opens) =
          fantastic_multiply_a-open v update final stream d_shared d_shared _ _ mid corrected
            division refl in
        let opened : reconstruct_from_a v difference
            ≡ v.sub (xor_bits (mask (s 2)) (mask (s 3))) (xor_bits (mask (s 0)) (mask (s 1))) =
          reconstruct-total v d_shared ∙ total_sub t u ∙ ap₂ v.sub t_total u_total in
        (
          z,
          after,
          runs,
          _,
          opens,
          λ i.
              ap (λ a. v.at (v.mul a a) i) opened
              ∙ square_lane i _ _ (xors (s 2) (s 3) i) (xors (s 0) (s 1) i)
              ∙ ap (λ k. (k % 2) % suc v.top) (omega arith),
        )

  flipped : A → (ℕ → A) → ℕ → A
  flipped flip s t = if t == 3 then v.add (s 3) flip else s t

  flipped-total : (flip : A) (s : ℕ → A) → total v (flipped flip s) ≡ v.add (total v s) flip
  unfolding flipped
  flipped-total flip s =
      v.at_ext _ _ λ i. simp (v.at-add, mods) (ap (λ t. t % suc v.top) (omega arith))

  flip_share-Held :
      {f : ℕ → ℕ → A} (s : ℕ → A) (complement : A → A) (flip : A)
      → complement (s 3) ≡ v.add (s 3) flip
      → Held f s
      → Held (λ me. flip_share complement (f me) me) (flipped flip s)
  unfolding flip_share flipped
  flip_share-Held {f} s complement flip flips held me k hm hk =
      each_share (λ l. flip_share complement (f me) me l ≡ flipped flip s ((me + l + 1) % 4))
        (ground (arith, held me 0 hm (omega arith), flips))
        (ground (arith, held me 1 hm (omega arith), flips))
        (ground (arith, held me 2 hm (omega arith), flips)) k hk

  module _ {x : ℕ → EVector A} {s : ℕ → A} {d : ℕ} (shared : IsShared d x s) (flip : A) where
    -- Negation by four ranks flips the opened value once: `not_b` the bits that ~ flips, and
    -- `not_b_1` the lowest bit of the masked shares.
    pub fantastic_not_b-open :
        (complement mask negate : A → A)
        → ((a : A) → complement a ≡ v.add a flip)
        → ((a : A) → negate (mask a) ≡ v.add (mask a) flip)
        → (me : ℕ) → me < 4
        → (unchecked_open_a v (λ p. not_b complement p (x p)) me
            ≡ v.add (reconstruct_from_a v x) flip)
          × (unchecked_open_a v (λ p. not_b_1 mask negate p (x p)) me
              ≡ v.add (total v (λ k. mask (s k))) flip)
    unfolding not_b not_b_1
    fantastic_not_b-open complement mask negate flips flips_bit me h = (
      open-total v {d = 0} {s = flipped flip s}
            (record {
              held = flip_share-Held s complement flip (flips (s 3)) shared.held;
              precisions = λ me h. refl;
            })
            me h
          ∙ flipped-total flip s
          ∙ ap (λ t. v.add t flip) (sym (reconstruct-total v shared)),
      open-total v {d = 0} {s = flipped flip (λ k. mask (s k))}
            (record {
              held =
                  flip_share-Held (λ k. mask (s k)) negate flip (flips_bit (s 3))
                    (λ p k hp hk. ap mask (shared.held p k hp hk));
              precisions = λ me h. refl;
            })
            me h
          ∙ flipped-total flip (λ k. mask (s k)),
    )
