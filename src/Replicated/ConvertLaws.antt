-- ===== src/Replicated/ConvertLaws.antt =====
-- About `b2a_bit` and `redistribute_shares_b` of include/core/protocols/replicated_3pc.h.
use native.Mathlib.Nat.{div-add-mod}
use crypt_dough.Base.{
  ℕ, suc, ◌+◌, ◌*◌, ◌/◌, ◌%◌, ◌≡◌, ◌<◌, ◌∙◌, refl, sym, ap, arith, mods, mod_eq_by, square_of_bits,
  some,
}
use crypt_dough.Lanes.{Lanes, InRange}
use crypt_dough.Comm.{all_three}
use crypt_dough.Random.Prg.{Counters, next_link, prev_link, get_next}
use crypt_dough.Random.ZeroSharing.{get_next_arithmetic}
use crypt_dough.Random.ZeroSharing.Laws.{IsSynced, sum-next_arithmetic, next_arithmetic-IsSynced}
use crypt_dough.Replicated.Shares.{
  EVector, IsShared, replicated, reconstruct_from_a, reconstruct_from_b,
}
use crypt_dough.Replicated.ShareLaws.{replicated-IsShared}
use crypt_dough.Replicated.MultiplyLaws.{multiply_a-product, three_masks}
use crypt_dough.Replicated.Convert.{
  first_share, second_share, b2a_difference, b2a_bit, redistribute_0, redistribute_1,
  redistribute_2, sent_on, redistribute_shares_b,
}

module _ {I A : Type 0} (v : Lanes I A) (plus : A → A → A) (stream : ℕ → ℕ → A) where
  unmask : v.top ≡ 1 → (a b c : A) → InRange v a → v.add (v.add (v.add (v.add a b) c) b) c ≡ a
  unmask bits a b c fits = v.at_ext _ _ λ i.
      let r = v.at b i + v.at c i in
      simp (v.at-add, mods)
        (mod_eq_by (suc v.top) 0 r _ (v.at a i) (omega (arith, ap (λ (t : ℕ). t * r) bits))
          ∙ fits i)

  front_last : (a b c : A) → v.add (v.add a b) c ≡ v.add (v.add c a) b
  front_last a b c = v.at_ext _ _ λ i. simp (v.at-add, mods) (ap (λ t. t % suc v.top) (omega arith))

  -- Redistribution in lanes of one bit, by ranks that have drawn equally often from the PRGs that
  -- they share: every rank succeeds, the ranks hold consistent boolean shares of two values, and
  -- these are the sum of the first two shares and the third share.
  pub redistribute_shares_b-reconstruct :
      (c : ℕ → Counters) (x : ℕ → EVector A)
      → v.top ≡ 1
      → IsSynced 3 c
      → c 0 3 ≡ c 1 3
      → c 0 3 ≡ c 2 3
      → InRange v (plus (x 0).v0 (x 0).v1)
      → InRange v (x 2).v0
      → (z : ℕ → EVector A × EVector A) × (all_three (redistribute_shares_b v plus stream c x)
          ≡ some z)
        × IsShared 0 (λ p. (z p).0)
        × IsShared 0 (λ p. (z p).1)
        × (reconstruct_from_b v (λ p. (z p).0) ≡ plus (x 0).v0 (x 0).v1)
        × (reconstruct_from_b v (λ p. (z p).1) ≡ (x 2).v0)
  unfolding redistribute_shares_b sent_on redistribute_0 redistribute_1 redistribute_2 get_next
      next_link prev_link reconstruct_from_b
  redistribute_shares_b-reconstruct c x bits s g1 g2 fits0 fits2 =
      let link0 : c 1 0 ≡ c 0 0 = s 1 (omega arith) in
      let link2 : c 0 2 ≡ c 2 2 = s 0 (omega arith) in
      let group2 : c 1 3 ≡ c 2 3 = sym g1 ∙ g2 in
      (
        _,
        refl,
        record {
          held_01 = ap (stream 0) (sym link0);
          held_12 = ap (stream 3) group2;
          held_20 = refl;
          precision_0 = refl;
          precision_1 = refl;
          precision_2 = refl;
        },
        record {
          held_01 = ap (λ k. stream 3 (suc k)) g1;
          held_12 = refl;
          held_20 = ap (stream 2) (sym link2);
          precision_0 = refl;
          precision_1 = refl;
          precision_2 = refl;
        },
        rw (link0, sym g2)
            (unmask bits (plus (x 0).v0 (x 0).v1) (stream 0 (c 0 0)) (stream 3 (c 0 3)) fits0),
        rw (link2, group2)
            (front_last (stream 2 (c 2 2)) (stream 3 (suc (c 2 3)))
                (v.add (v.add (x 2).v0 (stream 2 (c 2 2))) (stream 3 (suc (c 2 3))))
              ∙ unmask bits (x 2).v0 (stream 2 (c 2 2)) (stream 3 (suc (c 2 3))) fits2),
      )

module _ {I A : Type 0} (v : Lanes I A) (mask : A → A) (xor_bits : A → A → A) where
  module _ (rz0 rz1 : ℕ → A) (x : ℕ → EVector A) where
    abbrev difference : ℕ → A
    difference p =
        v.sub (first_share v mask xor_bits rz0 rz1 x p) (second_share v mask xor_bits rz0 rz1 x p)

    b2a_difference_lem :
        b2a_difference v mask xor_bits rz0 rz1 x
        ≡ some (replicated 0 (difference 0) (difference 1) (difference 2))
    unfolding b2a_difference
    b2a_difference_lem = refl

    reconstruct-difference :
        v.add (v.add (rz0 0) (rz0 1)) (rz0 2) ≡ v.zeros
        → v.add (v.add (rz1 0) (rz1 1)) (rz1 2) ≡ v.zeros
        → reconstruct_from_a v (replicated 0 (difference 0) (difference 1) (difference 2))
          ≡ v.sub (xor_bits (mask (x 0).v1) (mask (x 0).v0)) (mask (x 1).v1)
    unfolding reconstruct_from_a
    reconstruct-difference e f = v.at_ext _ _ λ i.
        let m = suc v.top in
        let zero0 = v.at (rz0 0) i + v.at (rz0 1) i + v.at (rz0 2) i in
        let zero1 = v.at (rz1 0) i + v.at (rz1 1) i + v.at (rz1 2) i in
        let e0 : zero0 % m ≡ 0 =
          sym (simp (v.at-add, mods)) ∙ ap (λ t. v.at t i) e ∙ v.at-zeros i in
        let e1 : zero1 % m ≡ 0 =
          sym (simp (v.at-add, mods)) ∙ ap (λ t. v.at t i) f ∙ v.at-zeros i in
        simp (v.at-add, v.at-sub, mods)
          (mod_eq_by m 0 (zero0 / m + v.top * (zero1 / m)) _ _ (
            omega (
              arith,
              e0,
              e1,
              div-add-mod zero0 m,
              ap (λ (t : ℕ). v.top * t) (div-add-mod zero1 m),
              ap (λ (t : ℕ). v.top * t) e1,
            )))

  square_of_difference :
      (a b : A) (i : I) (n : ℕ)
      → v.at a i ≡ n % 2
      → v.at b i < 2
      → v.at (v.mul (v.sub a b) (v.sub a b)) i ≡ ((n + v.at b i) % 2) % suc v.top
  square_of_difference a b i n e h =
      let same : (v.at a i + v.at b i) % 2 ≡ (n + v.at b i) % 2 = omega arith in
      simp (v.at-mul, v.at-sub, mods)
        (square_of_bits v.top (v.at a i) (v.at b i) (omega arith) h ∙ ap (λ t. t % suc v.top) same)

  -- The conversion of a boolean-shared bit, by ranks that have drawn equally often from the PRGs
  -- that they share: every rank succeeds, and the arithmetic shares reconstruct, in every lane, to
  -- the exclusive or of the three masked shares.
  pub b2a_bit-reconstruct :
      (shift : A → ℕ → A) (r : A) (stream : ℕ → ℕ → A) (c : ℕ → Counters) (d : ℕ)
      (x : ℕ → EVector A)
      → IsSynced 3 c
      → IsShared d x
      → ((i : I) → v.at (mask (x 1).v1) i < 2)
      → ((i : I)
          → v.at (xor_bits (mask (x 0).v1) (mask (x 0).v0)) i
            ≡ (v.at (mask (x 0).v0) i + v.at (mask (x 0).v1) i) % 2)
      → (z : ℕ → EVector A) × (b2a_bit v mask xor_bits shift r stream c x ≡ some z)
        × IsShared 0 z
        × ((i : I)
            → v.at (reconstruct_from_a v z) i
              ≡ ((v.at (mask (x 0).v0) i + v.at (mask (x 1).v0) i + v.at (mask (x 2).v0) i) % 2)
                % suc v.top)
  unfolding b2a_bit
  b2a_bit-reconstruct shift r stream c d x s held bits xors =
      let draw : (ℕ → Counters) → ℕ → A × Counters =
        λ counts me. get_next_arithmetic v stream 3 me (counts me) in
      let c1 : ℕ → Counters = λ me. (draw c me).1 in
      let c2 : ℕ → Counters = λ me. (draw c1 me).1 in
      let s1 : IsSynced 3 c1 =
        next_arithmetic-IsSynced v stream c 3 (omega arith) (omega arith) s in
      let s2 : IsSynced 3 c2 =
        next_arithmetic-IsSynced v stream c1 3 (omega arith) (omega arith) s1 in
      let rz0 : ℕ → A = λ me. (draw c me).0 in
      let rz1 : ℕ → A = λ me. (draw c1 me).0 in
      let rz2 : ℕ → A = λ me. (draw c2 me).0 in
      let m0 =
        three_masks v stream c s held held rz0
          (sum-next_arithmetic v stream c 3 (omega arith) (omega arith) s) in
      let m1 =
        three_masks v stream c s held held rz1
          (sum-next_arithmetic v stream c1 3 (omega arith) (omega arith) s1) in
      let m2 =
        three_masks v stream c s held held rz2
          (sum-next_arithmetic v stream c2 3 (omega arith) (omega arith) s2) in
      let u =
        replicated 0 (difference rz0 rz1 x 0) (difference rz0 rz1 x 1) (difference rz0 rz1 x 2) in
      let (z, runs, shared, opens) =
        multiply_a-product v rz2 m2 {d = 0} {x = u} {y = u} (replicated-IsShared 0 _ _ _)
          (replicated-IsShared 0 _ _ _) shift r refl in
      (
        z,
        runs,
        shared,
        λ i.
            ap (λ t. v.at t i)
              (opens ∙ ap (λ t. v.mul t t) (reconstruct-difference rz0 rz1 x m0 m1))
            ∙ square_of_difference _ (mask (x 1).v1) i _ (xors i) (bits i)
            ∙ ap (λ t. (t % 2) % suc v.top)
                (omega (
                  arith,
                  ap (λ t. v.at (mask t) i) held.held_01,
                  ap (λ t. v.at (mask t) i) held.held_12,
                )),
      )
