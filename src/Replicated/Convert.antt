-- ===== src/Replicated/Convert.antt =====
-- Conversions of replicated shares: `b2a_bit` and `redistribute_shares_b`.
use crypt_dough.Base.{ℕ, zero, suc, ◌==◌, if◌then◌else◌, Option, some}
use crypt_dough.Comm.{exchange_shares, all_three, ◌>>=◌}
use crypt_dough.Lanes.{Lanes}
use crypt_dough.Random.Prg.{Counters, next_link, prev_link, get_next}
use crypt_dough.Random.ZeroSharing.{get_next_arithmetic}
use crypt_dough.Replicated.Shares.{EVector}
use crypt_dough.Replicated.Multiply.{multiply_a}

-- `mask` is `& 1` and `xor_bits` is ^, on words whose + is the `add` of the lanes.
module _ {I A : Type 0} (v : Lanes I A) (mask : A → A) (xor_bits : A → A → A) where
  module _ (rz0 rz1 : ℕ → A) (x : ℕ → EVector A) where
    -- The bit that a rank contributes, held in `s0(1)`.
    abbrev pub contributed : ℕ → A
    contributed me = if me == 0 then xor_bits (mask (x me).v1) (mask (x me).v0) else mask (x me).v1

    abbrev pub first_share : ℕ → A
    first_share me = if me == 0 then v.add (rz0 me) (contributed me) else rz0 me

    abbrev pub second_share : ℕ → A
    second_share me = if me == 1 then v.add (rz1 me) (contributed me) else rz1 me

    -- Up to `s0 -= s1`.
    unfoldable pub b2a_difference : Option (ℕ → EVector A)
    b2a_difference = all_three (λ me. do
      received0 ← exchange_shares 3 2 1 first_share me
      received1 ← exchange_shares 3 2 1 second_share me
      some (record {
        v0 = v.sub (first_share me) (second_share me);
        v1 = v.sub received0 received1;
        precision = 0;
      }))

  -- Three masks are drawn in turn: for s0, for s1 and for the multiplication.
  unfoldable pub b2a_bit :
      (A → ℕ → A) → A → (ℕ → ℕ → A) → (ℕ → Counters) → (ℕ → EVector A) → Option (ℕ → EVector A)
  unfolding b2a_difference multiply_a
  b2a_bit shift r stream c x =
      let draw : (ℕ → Counters) → ℕ → A × Counters =
        λ counts me. get_next_arithmetic v stream 3 me (counts me) in
      let c1 = λ (me : ℕ). (draw c me).1 in
      let c2 = λ (me : ℕ). (draw c1 me).1 in
      do
        s ← b2a_difference (λ me. (draw c me).0) (λ me. (draw c1 me).0) x
        multiply_a v shift r (λ me. (draw c2 me).0) s s

-- The PRG of all three ranks, `get({0, +1, +2})`.
abbrev pub group_link : ℕ
group_link = 3

-- `redistribute_shares_b`: `add` is ^ in the lanes, and `plus` is + of the words. Every rank
-- computes the two share vectors that it returns, up to what it receives.
module _ {I A : Type 0} (v : Lanes I A) (plus : A → A → A) (stream : ℕ → ℕ → A) where
  -- Rank 0: `redistributed1`, `redistributed2`.
  unfoldable pub redistribute_0 : Counters → EVector A → EVector A × EVector A
  unfolding next_link prev_link get_next
  redistribute_0 c x =
      let (vec1_x1, c1) = get_next stream (next_link 3 0) c in
      let (vec1_x2, c2) = get_next stream group_link c1 in
      let vec1 = v.add (v.add (plus x.v0 x.v1) vec1_x1) vec1_x2 in
      let (vec2_x0, c3) = get_next stream (prev_link 3 0) c2 in
      let (vec2_x1, c4) = get_next stream group_link c3 in
      (
        record { v0 = vec1; v1 = vec1_x1; precision = 0 },
        record { v0 = vec2_x0; v1 = vec2_x1; precision = 0 },
      )

  unfoldable pub redistribute_1 : Counters → A → EVector A × EVector A
  unfolding next_link prev_link get_next
  redistribute_1 c vec2_x2 =
      let (vec1_x1, c1) = get_next stream (prev_link 3 1) c in
      let (vec1_x2, c2) = get_next stream group_link c1 in
      let (vec2_x1, c3) = get_next stream group_link c2 in
      (
        record { v0 = vec1_x1; v1 = vec1_x2; precision = 0 },
        record { v0 = vec2_x1; v1 = vec2_x2; precision = 0 },
      )

  unfoldable pub redistribute_2 : Counters → EVector A → A → EVector A × EVector A
  unfolding next_link prev_link get_next
  redistribute_2 c x vec1_x0 =
      let (vec1_x2, c1) = get_next stream group_link c in
      let (vec2_x0, c2) = get_next stream (next_link 3 2) c1 in
      let (vec2_x1, c3) = get_next stream group_link c2 in
      let vec2_x2 = v.add (v.add x.v0 vec2_x0) vec2_x1 in
      (
        record { v0 = vec1_x2; v1 = vec1_x0; precision = 0 },
        record { v0 = vec2_x2; v1 = vec2_x0; precision = 0 },
      )

  -- Rank 0 sends its `vec1` and rank 2 its `vec2_x2`, each two ranks on; what rank 2 sends does
  -- not depend on what it receives. Nobody reads from rank 1.
  unfoldable pub sent_on : (ℕ → Counters) → (ℕ → EVector A) → ℕ → A
  unfolding redistribute_0 redistribute_2
  sent_on c x zero = (redistribute_0 (c 0) (x 0)).0.v0
  sent_on c x (suc zero) = v.zeros
  sent_on c x (suc (suc p)) = (redistribute_2 (c 2) (x 2) v.zeros).1.v0

  unfoldable pub redistribute_shares_b :
      (ℕ → Counters) → (ℕ → EVector A) → ℕ → Option (EVector A × EVector A)
  unfolding redistribute_0 redistribute_1 redistribute_2 sent_on
  redistribute_shares_b c x zero = some (redistribute_0 (c 0) (x 0))
  redistribute_shares_b c x (suc zero) = do
    vec2_x2 ← exchange_shares 3 2 1 (sent_on c x) 1
    some (redistribute_1 (c 1) vec2_x2)
  redistribute_shares_b c x (suc (suc p)) = do
    vec1_x0 ← exchange_shares 3 2 1 (sent_on c x) 2
    some (redistribute_2 (c 2) (x 2) vec1_x0)
