-- ===== src/Random/ZeroSharing/Laws.antt =====
-- About `getNextArithmetic` and `getNextBinary` of
-- include/core/random/correlation/zero_sharing_generator.h.
use native.Mathlib.Nat.{zero-mod, zero-add, mod-lt}
use crypt_dough.Base.{
  ℕ, zero, suc, ◌+◌, ◌-◌, ◌*◌, ◌%◌, ◌≡◌, ◌≢◌, ◌<◌, ◌≤◌, ◌∙◌, ap, ap₂, sym, arith, mods, mod_eq_by,
  ◌==◌, false, if◌then◌else◌,
}
use crypt_dough.Comm.{peer}
use crypt_dough.Lanes.{Lanes}
use crypt_dough.Random.Prg.{Counters, advance, next_link, prev_link, far_link, get_next}
use crypt_dough.Random.ZeroSharing.{arithmetic_flip, get_next_arithmetic, get_next_binary}
use crypt_dough.Random.ZeroSharing.Sums.{
  sum_below, sum_below_ext, sum_below_rotate, sum_below_add, sum_below_mul, sum_below_mod,
  sum_shares, at-sum_shares, predecessor, predecessor-zero,
}

-- The rank that takes as `get(+1)` the PRG that `me` takes as `get(-1)`.
abbrev pub other_holder : ℕ → ℕ → ℕ
other_holder n me = if n == 4 then peer 4 me 2 else peer n me (n - 1)

-- The two ranks that take shares from a PRG have drawn equally often from it.
abbrev pub IsSynced : ℕ → (ℕ → Counters) → Type 0
IsSynced n c = (me : ℕ) → me < n → c me (prev_link n me) ≡ c (other_holder n me) (prev_link n me)

peer_prev : (n me : ℕ) → peer (suc n) me (suc n - 1) ≡ (me + n) % suc n
peer_prev n me = ap (λ t. (me + t) % suc n) (omega arith)

peer-ne : (n me : ℕ) → me < n → 2 ≤ n → peer n me (n - 1) ≢ me
peer-ne zero me h k e = absurd (omega arith)
peer-ne (suc n) zero h k e = absurd (omega (arith, peer_prev n 0, predecessor-zero n, e))
peer-ne (suc n) (suc me) h k e =
    absurd (omega (arith, peer_prev n (suc me), predecessor n me (omega arith), e))

peer-lt : (n me : ℕ) → me < n → peer n me (n - 1) < n
peer-lt n me h = mod-lt (me + (n - 1)) (omega arith)

same_count :
    (b c : Counters) (me q p : ℕ)
    → q ≢ me
    → p ≢ q
    → b q ≡ c q
    → advance me (advance q b) q ≡ advance q (advance p c) q
same_count b c me q p f g e = ground arith

module _ {I A : Type 0} (v : Lanes I A) (stream : ℕ → ℕ → A) (c : ℕ → Counters) where
  -- The value that the holders of a PRG draw next.
  abbrev drawn : ℕ → A
  drawn link = stream link (c link link)

  next_arithmetic_many :
      (n me : ℕ)
      → 3 ≤ n
      → n ≢ 4
      → me < n
      → IsSynced n c
      → (get_next_arithmetic v stream n me (c me)).0 ≡ v.sub (drawn (peer n me (n - 1))) (drawn me)
  unfolding get_next_arithmetic get_next next_link prev_link
  next_arithmetic_many n me h four k s = ground (arith, s me, peer-ne n me)

  next_binary_many :
      (n me : ℕ)
      → 3 ≤ n
      → n ≢ 4
      → me < n
      → IsSynced n c
      → (get_next_binary v stream n me (c me)).0 ≡ v.add (drawn (peer n me (n - 1))) (drawn me)
  unfolding get_next_binary get_next next_link prev_link
  next_binary_many n me h four k s = ground (arith, s me, peer-ne n me)

  -- Each value is added once and subtracted once.
  telescopes :
      (n : ℕ) (share : ℕ → A) (i : I)
      → ((me : ℕ)
          → me < suc n
          → v.at (share me) i
            ≡ (v.at (drawn ((me + n) % suc n)) i + v.top * v.at (drawn me) i) % suc v.top)
      → v.at (sum_shares v (suc n) share) i ≡ 0
  telescopes n share i h =
      let f = λ (p : ℕ). v.at (drawn p) i in
      let m = suc v.top in
      at-sum_shares v (suc n) share i
      ∙ ap (λ t. t % m) (sum_below_ext (suc n) _ _ h)
      ∙ sum_below_mod (suc n) m (λ p. f ((p + n) % suc n) + v.top * f p)
      ∙ ap (λ t. t % m)
          (sum_below_add (suc n) (λ p. f ((p + n) % suc n)) (λ p. v.top * f p)
            ∙ ap₂ ◌+◌ (sum_below_rotate n f) (sum_below_mul (suc n) v.top f))
      ∙ mod_eq_by m 0 (sum_below (suc n) f) _ 0 (omega arith)
      ∙ zero-mod m

  sum-next_arithmetic_many :
      (n : ℕ)
      → 2 ≤ n
      → suc n ≢ 4
      → IsSynced (suc n) c
      → sum_shares v (suc n) (λ me. (get_next_arithmetic v stream (suc n) me (c me)).0) ≡ v.zeros
  sum-next_arithmetic_many n h four s = v.at_ext _ _ λ i.
      telescopes n _ i (λ me k.
        rw (next_arithmetic_many (suc n) me (omega arith) four k s)
          (rw (peer_prev n me) (simp (v.at-sub, mods))))
      ∙ sym (v.at-zeros i)

  sum-next_binary_many :
      (n : ℕ)
      → 2 ≤ n
      → suc n ≢ 4
      → v.top ≡ 1
      → IsSynced (suc n) c
      → sum_shares v (suc n) (λ me. (get_next_binary v stream (suc n) me (c me)).0) ≡ v.zeros
  sum-next_binary_many n h four bits s = v.at_ext _ _ λ i.
      telescopes n _ i (λ me k. rw (next_binary_many (suc n) me (omega arith) four k s) (
        rw (peer_prev n me) (
          v.at-add _ _ i
          ∙ ap (λ t. t % suc v.top) (omega (arith, ap (λ (t : ℕ). t * v.at (drawn me) i) bits)))))
      ∙ sym (v.at-zeros i)

  sum-next_arithmetic_two :
      IsSynced 2 c → sum_shares v 2 (λ me. (get_next_arithmetic v stream 2 me (c me)).0) ≡ v.zeros
  unfolding get_next_arithmetic arithmetic_flip get_next next_link prev_link
  sum-next_arithmetic_two s = v.at_ext _ _ λ i.
      let together : c 1 0 ≡ c 0 0 = s 1 (omega arith) in
      let p = v.at (stream 0 (c 0 0)) i in
      let q = v.at (stream 0 (suc (c 0 0))) i in
      rw (together, sum_shares)
        (simp (v.at-add, v.at-sub, v.at-neg, v.at-zeros, mods)
          (mod_eq_by (suc v.top) 0 (p + v.top * q) _ 0 (omega arith) ∙ zero-mod (suc v.top)))

  sum-next_binary_two :
      v.top ≡ 1
      → IsSynced 2 c
      → sum_shares v 2 (λ me. (get_next_binary v stream 2 me (c me)).0) ≡ v.zeros
  unfolding get_next_binary get_next next_link prev_link
  sum-next_binary_two bits s = v.at_ext _ _ λ i.
      let together : c 1 0 ≡ c 0 0 = s 1 (omega arith) in
      let r = v.at (stream 0 (c 0 0)) i + v.at (stream 0 (suc (c 0 0))) i in
      rw (together, sum_shares)
        (simp (v.at-add, v.at-zeros, mods)
          (mod_eq_by (suc v.top) 0 r _ 0 (omega (arith, ap (λ (t : ℕ). t * r) bits))
            ∙ zero-mod (suc v.top)))

  sum-next_arithmetic_four :
      IsSynced 4 c → sum_shares v 4 (λ me. (get_next_arithmetic v stream 4 me (c me)).0) ≡ v.zeros
  unfolding get_next_arithmetic arithmetic_flip get_next next_link prev_link
  sum-next_arithmetic_four s = v.at_ext _ _ λ i.
      let s0 : c 2 3 ≡ c 0 3 = sym (s 0 (omega arith)) in
      let s1 : c 3 0 ≡ c 1 0 = sym (s 1 (omega arith)) in
      let s2 : c 2 1 ≡ c 0 1 = s 2 (omega arith) in
      let s3 : c 3 2 ≡ c 1 2 = s 3 (omega arith) in
      let r =
        v.at (stream 3 (c 0 3)) i
        + v.at (stream 0 (c 1 0)) i
        + v.at (stream 1 (c 0 1)) i
        + v.at (stream 2 (c 1 2)) i in
      rw (s0, s1, s2, s3, sum_shares)
        (simp (v.at-add, v.at-sub, v.at-zeros, mods)
          (mod_eq_by (suc v.top) 0 r _ 0 (omega arith) ∙ zero-mod (suc v.top)))

  sum-next_binary_four :
      v.top ≡ 1
      → IsSynced 4 c
      → sum_shares v 4 (λ me. (get_next_binary v stream 4 me (c me)).0) ≡ v.zeros
  unfolding get_next_binary get_next next_link prev_link
  sum-next_binary_four bits s = v.at_ext _ _ λ i.
      let s0 : c 2 3 ≡ c 0 3 = sym (s 0 (omega arith)) in
      let s1 : c 3 0 ≡ c 1 0 = sym (s 1 (omega arith)) in
      let s2 : c 2 1 ≡ c 0 1 = s 2 (omega arith) in
      let s3 : c 3 2 ≡ c 1 2 = s 3 (omega arith) in
      let r =
        v.at (stream 3 (c 0 3)) i
        + v.at (stream 0 (c 1 0)) i
        + v.at (stream 1 (c 0 1)) i
        + v.at (stream 2 (c 1 2)) i in
      rw (s0, s1, s2, s3, sum_shares)
        (simp (v.at-add, v.at-zeros, mods)
          (mod_eq_by (suc v.top) 0 r _ 0 (omega (arith, ap (λ (t : ℕ). t * r) bits))
            ∙ zero-mod (suc v.top)))

  -- For one to four parties, the arithmetic shares that the ranks draw together add up to zero, if
  -- the two ranks that take shares from a PRG have drawn equally often from it.
  pub sum-next_arithmetic :
      (n : ℕ)
      → 1 ≤ n
      → n ≤ 4
      → IsSynced n c
      → sum_shares v n (λ me. (get_next_arithmetic v stream n me (c me)).0) ≡ v.zeros
  unfolding get_next_arithmetic
  sum-next_arithmetic zero h top s = absurd (omega arith)
  sum-next_arithmetic (suc zero) h top s =
      v.at_ext _ _ λ i. simp (v.at-add, v.at-zeros, zero-mod, zero-add)
  sum-next_arithmetic (suc (suc zero)) h top s = sum-next_arithmetic_two s
  sum-next_arithmetic (suc (suc (suc zero))) h top s =
      sum-next_arithmetic_many 2 (omega arith) (λ e. omega (arith, e)) s
  sum-next_arithmetic (suc (suc (suc (suc zero)))) h top s = sum-next_arithmetic_four s
  sum-next_arithmetic (suc (suc (suc (suc (suc n))))) h top s = absurd (omega arith)

  -- For one to four parties, the boolean shares that the ranks draw together xor to zero in lanes of
  -- one bit, if the two ranks that take shares from a PRG have drawn equally often from it.
  pub sum-next_binary :
      (n : ℕ)
      → 1 ≤ n
      → n ≤ 4
      → v.top ≡ 1
      → IsSynced n c
      → sum_shares v n (λ me. (get_next_binary v stream n me (c me)).0) ≡ v.zeros
  unfolding get_next_binary
  sum-next_binary zero h top bits s = absurd (omega arith)
  sum-next_binary (suc zero) h top bits s =
      v.at_ext _ _ λ i. simp (v.at-add, v.at-zeros, zero-mod, zero-add)
  sum-next_binary (suc (suc zero)) h top bits s = sum-next_binary_two bits s
  sum-next_binary (suc (suc (suc zero))) h top bits s =
      sum-next_binary_many 2 (omega arith) (λ e. omega (arith, e)) bits s
  sum-next_binary (suc (suc (suc (suc zero)))) h top bits s = sum-next_binary_four bits s
  sum-next_binary (suc (suc (suc (suc (suc n))))) h top bits s = absurd (omega arith)

  counters-next_arithmetic :
      (n me : ℕ)
      → 3 ≤ n
      → n ≢ 4
      → (link : ℕ) → link < n
      → (get_next_arithmetic v stream n me (c me)).1 link
        ≡ advance me (advance (peer n me (n - 1)) (c me)) link
  unfolding get_next_arithmetic get_next next_link prev_link far_link
  counters-next_arithmetic n me h four link k =
      let one : (n == 1) ≡ false = ground arith in
      let two : (n == 2) ≡ false = ground arith in
      let not_four : (n == 4) ≡ false = ground arith in rw (one, two, not_four) (ground arith)

  -- After a draw by each of three ranks, the two holders of each PRG have again drawn equally often
  -- from it.
  pub next_arithmetic-IsSynced :
      (n : ℕ)
      → 3 ≤ n
      → n ≤ 3
      → IsSynced n c
      → IsSynced n (λ me. (get_next_arithmetic v stream n me (c me)).1)
  unfolding prev_link
  next_arithmetic-IsSynced n h top s me k =
      let four : n ≢ 4 = λ e. omega (arith, e) in
      let not_four : (n == 4) ≡ false = ground arith in
      let two : (n == 2) ≡ false = ground arith in
      let q = peer n me (n - 1) in
      let below : q < n = peer-lt n me k in
      let drawn_alike = rw (two, not_four) at (s me k) in
      rw (two, not_four)
        (counters-next_arithmetic n me h four q below
          ∙ same_count (c me) (c q) me q (peer n q (n - 1)) (peer-ne n me k (omega arith))
              (peer-ne n q below (omega arith)) drawn_alike
          ∙ sym (counters-next_arithmetic n q h four q below))
