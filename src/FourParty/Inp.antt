-- ===== src/FourParty/Inp.antt =====
-- The input of a value that two of four ranks know: `inp`.
use crypt_dough.Base.{ℕ, ◌==◌, if◌then◌else◌}
use crypt_dough.Lanes.{Lanes}
use crypt_dough.Random.Prg.{Counters, get_next}
use crypt_dough.FourParty.Ranks.{next_party, excluded_party, abs2sh, abs2rel, rel2abs}
use crypt_dough.FourParty.Shares.{EVector, Encoding, take_away}
use crypt_dough.FourParty.Jmp.{HashStates, jmp}

-- What the ranks keep between operations: how much each has drawn from the PRGs, which are named
-- by the rank that lacks them, and its hash states.
pub record Party (H : Type 0) : Type 0 where
  pub counts : Counters
  pub hash_states : HashStates H

abbrev pub put : {A : Type 0} → ℕ → A → (ℕ → A) → ℕ → A
put i a f k = if k == i then a else f k

module _ {I A H : Type 0} (v : Lanes I A) (e : Encoding) (update : H → A → H)
    (stream : ℕ → ℕ → A) where
  -- What a rank has for `xg` and what is left of the PRG.
  unfoldable pub draw_g : ℕ → ℕ → Counters → A × Counters
  unfolding get_next abs2rel rel2abs
  draw_g me g counts =
      if me == g then (v.zeros, counts) else get_next stream (rel2abs me (abs2rel me g)) counts

  -- What a rank has for `xh` before the message.
  unfoldable pub value_h : ℕ → ℕ → ℕ → A → A → A
  unfolding take_away
  value_h me g h x xg = if me == g then v.zeros else if me == h then v.zeros else take_away v e x xg

  -- `inp` with all four ranks named.
  unfoldable pub inp_with : (ℕ → A) → ℕ → ℕ → ℕ → ℕ → (ℕ → Party H) → ℕ → EVector A × Party H
  unfolding draw_g value_h abs2sh jmp
  inp_with x i j g h parties me =
      let xg : ℕ → A × Counters = λ p. draw_g p g (parties p).counts in
      let xh : ℕ → A = λ p. value_h p g h (x p) (xg p).0 in
      let sent = jmp update xh i j g (λ p. (parties p).hash_states) me in
      let r : ℕ → A =
        λ k. if me == g then v.zeros else put (abs2sh me g) (xg me).0 (λ l. v.zeros) k in
      (
        record {
          share = λ k. if me == h then r k else put (abs2sh me h) sent.0 r k;
          precision = 0;
        },
        record { counts = (xg me).1; hash_states = sent.1 },
      )

  unfoldable pub inp : (ℕ → A) → ℕ → ℕ → (ℕ → Party H) → ℕ → EVector A × Party H
  unfolding inp_with next_party excluded_party
  inp x i j parties me =
      let g = next_party i j in inp_with x i j g (excluded_party i j g) parties me
