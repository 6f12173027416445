-- ===== src/CustomFour.antt =====
-- The product of the optimised four-party protocol (include/core/protocols/custom_4pc.h), whose
-- messages are checked as they arrive: one rank sends a cross term and another one its hash. Rank
-- `p` holds the shares `p`, `p + 1` and `p + 2`.
pub mod Opening
pub mod Terms
pub mod Counts
pub mod Parts
pub mod Laws
use crypt_dough.Base.{
  ℕ, zero, suc, ◌+◌, ◌%◌, ◌==◌, ◌≡◌, ◌<◌, ◌≢◌, if◌then◌else◌, Option, none, some,
}
use crypt_dough.Comm.{peer, four, three, all_four, handle_precision, ◌>>=◌}
use crypt_dough.Lanes.{Lanes}
use crypt_dough.Random.Prg.{Counters, get_next}
use crypt_dough.FourParty.Shares.{EVector, Encoding, a_shared, b_shared, take_away}

-- What a rank computes before the first message: the cross terms, the values drawn from the PRGs
-- that exclude the next, the opposite and the previous rank, and what it has drawn.
pub record Local (A : Type 0) : Type 0 where
  pub cross_10 : A
  pub cross_12 : A
  pub cross_02 : A
  pub r_next : A
  pub r_opp : A
  pub r_prev : A
  pub counts : Counters

-- After the draws of the second part: the masked cross term with the opposite rank, the values
-- drawn, as far as the rank draws them, and what it has drawn.
pub record Second (A : Type 0) : Type 0 where
  pub cross : A
  pub r_next : A
  pub r_opp : A
  pub r_prev : A
  pub counts : Counters

module _ {I A : Type 0} (v : Lanes I A) (e : Encoding) (hash : A → ℕ) (stream : ℕ → ℕ → A) where
  unfoldable pub local_part : ℕ → EVector A → EVector A → Counters → Local A
  unfolding get_next take_away
  local_part me x y counts =
      let (r_next, c1) = get_next stream (peer 4 me 1) counts in
      let (r_opp, c2) = get_next stream (peer 4 me 2) c1 in
      let (r_prev, c3) = get_next stream (peer 4 me 3) c2 in
      record {
        cross_10 =
            take_away v e
              (v.add (v.add (v.mul (x.share 0) (y.share 0)) (v.mul (x.share 0) (y.share 1)))
                (v.mul (x.share 1) (y.share 0)))
              r_next;
        cross_12 =
            take_away v e
              (v.add (v.add (v.mul (x.share 1) (y.share 1)) (v.mul (x.share 1) (y.share 2)))
                (v.mul (x.share 2) (y.share 1)))
              r_opp;
        cross_02 = v.add (v.mul (x.share 0) (y.share 2)) (v.mul (x.share 2) (y.share 0));
        r_next = r_next;
        r_opp = r_opp;
        r_prev = r_prev;
        counts = c3;
      }

  -- `malicious_check`: the program stops if the hash of the message is another one.
  unfoldable pub malicious_check : {B : Type 0} → A → ℕ → B → Option B
  malicious_check message received go_on = if hash message == received then some go_on else none

  -- The common part of the shares of `z`, after the first exchange.
  unfoldable pub common_part : (ℕ → Local A) → ℕ → Option (ℕ → A)
  unfolding malicious_check
  common_part l me =
      let mult_recv = (l (peer 4 me 3)).cross_10 in
      malicious_check mult_recv (hash (l (peer 4 me 2)).cross_12) (
        three (v.add mult_recv (l me).r_next) (v.add (l me).cross_10 (l me).r_opp)
          (v.add (l me).cross_12 (l me).r_prev))

  -- The draws of the second part.
  unfoldable pub second_part : ℕ → Local A → Second A
  unfolding get_next take_away
  second_part zero l =
      let (r_next, c1) = get_next stream (peer 4 0 1) l.counts in
      let (r_opp, c2) = get_next stream (peer 4 0 2) c1 in
      record {
        cross = take_away v e l.cross_02 r_next;
        r_next = r_next;
        r_opp = r_opp;
        r_prev = l.r_prev;
        counts = c2;
      }
  second_part (suc zero) l =
      let (r_next, c1) = get_next stream (peer 4 1 1) l.counts in
      record {
        cross = take_away v e l.cross_02 r_next;
        r_next = r_next;
        r_opp = l.r_opp;
        r_prev = l.r_prev;
        counts = c1;
      }
  second_part (suc (suc zero)) l =
      let (r_prev, c1) = get_next stream (peer 4 2 3) l.counts in
      record {
        cross = take_away v e l.cross_02 r_prev;
        r_next = l.r_next;
        r_opp = l.r_opp;
        r_prev = r_prev;
        counts = c1;
      }
  second_part (suc (suc (suc me))) l =
      let (r_opp, c1) = get_next stream (peer 4 3 2) l.counts in
      let (r_prev, c2) = get_next stream (peer 4 3 3) c1 in
      record {
        cross = take_away v e l.cross_02 r_prev;
        r_next = l.r_next;
        r_opp = r_opp;
        r_prev = r_prev;
        counts = c2;
      }

  -- The shares that are added in the second part: the ranks 1 and 2 receive the masked term of
  -- 0 and 3, and check it with the hash that 2 and 1 send.
  unfoldable pub adjustment : (ℕ → Second A) → ℕ → Option (ℕ → A)
  unfolding malicious_check
  adjustment s zero = some (three (s 0).r_next (s 0).r_opp (s 0).cross)
  adjustment s (suc zero) =
      malicious_check (s 0).cross (hash (s 2).cross) (three (s 1).r_next (s 0).cross (s 1).cross)
  adjustment s (suc (suc zero)) =
      malicious_check (s 3).cross (hash (s 1).cross) (three (s 2).cross (s 3).cross (s 2).r_prev)
  adjustment s (suc (suc (suc me))) = some (three (s 3).cross (s 3).r_opp (s 3).r_prev)

  -- `multiply_a` up to the truncation, and `and_b`.
  unfoldable pub product :
      (ℕ → EVector A) → (ℕ → EVector A) → (ℕ → Counters) → Option ((ℕ → EVector A) × (ℕ → Counters))
  unfolding local_part common_part second_part adjustment
  product x y counts =
      let l : ℕ → Local A = λ me. local_part me (x me) (y me) (counts me) in
      let s : ℕ → Second A = λ me. second_part me (l me) in
      do
        z ← all_four (common_part l)
        added ← all_four (adjustment s)
        precision ← all_four (λ me. handle_precision (x me).precision (y me).precision)
        some (
          (λ me. record { share = λ k. v.add (z me k) (added me k); precision = precision me }),
          λ me. (s me).counts,
        )

module _ {I A : Type 0} (v : Lanes I A) (hash : A → ℕ) (stream : ℕ → ℕ → A) where
  -- `add` is ^ and `mul` is & in the lanes that it is used with.
  unfoldable pub and_b :
      (ℕ → EVector A) → (ℕ → EVector A) → (ℕ → Counters) → Option ((ℕ → EVector A) × (ℕ → Counters))
  unfolding product
  and_b x y counts = product v b_shared hash stream x y counts

module _ {I A : Type 0} (v : Lanes I A) where
  unfoldable pub reconstruct : (ℕ → EVector A) → A
  reconstruct shares =
      v.add (v.add (v.add ((shares 0).share 0) ((shares 1).share 0)) ((shares 2).share 0))
        ((shares 3).share 0)

  -- `unchecked_open_a` and `unchecked_open_b`: each rank sends its first share to the next one.
  unfoldable pub unchecked_open : (ℕ → EVector A) → ℕ → A
  unchecked_open shares me =
      v.add (v.add (v.add ((shares me).share 0) ((shares me).share 1)) ((shares me).share 2))
        ((shares (peer 4 me 3)).share 0)
