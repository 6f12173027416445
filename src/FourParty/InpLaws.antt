-- ===== src/FourParty/InpLaws.antt =====
-- About `inp` of include/core/protocols/dalskov_4pc.h.
use crypt_dough.Base.{ℕ, ◌+◌, ◌%◌, ◌==◌, if◌then◌else◌, ◌≡◌, ◌≢◌, ◌<◌, ◌∙◌, ap, arith, ◌⊎◌}
use crypt_dough.Lanes.{Lanes, InRange}
use crypt_dough.Lanes.Laws.{add_comm, sub_add}
use crypt_dough.Random.Prg.{Counters, get_next, advance}
use crypt_dough.FourParty.Ranks.{
  PartyAssignment, jmp_assignments, who_hashes, next_party, excluded_party, abs2sh, abs2rel,
  rel2abs,
}
use crypt_dough.FourParty.RankLaws.{share_index, lacking}
use crypt_dough.FourParty.ShareLaws.{spread, total, Suits, take_away-sub, spread-total}
use crypt_dough.FourParty.Jmp.{
  HashStates, jmp, jmp_at, jmp_recv, jmp_send, jmp_message, update_hash, same_assignment,
}
use crypt_dough.FourParty.Shares.{Held, Encoding, take_away}
use crypt_dough.FourParty.Inp.{Party, put, draw_g, value_h, inp_with, inp}

-- The ranks agree on how much is drawn from each PRG that they share, and the hasher of each
-- assignment agrees with its receiver on the hash.
pub record IsSynced {H : Type 0} (n : Counters) (parties : ℕ → Party H) : Type 0 where
  pub drawn : (me k : ℕ) → me < 4 → k < 4 → me ≢ k → (parties me).counts k ≡ n k
  pub agreed :
      (pa : PartyAssignment)
      → (parties pa.hasher).hash_states pa ≡ (parties pa.receiver).hash_states pa

-- Four ranks.
pub record IsRanks (i j g h : ℕ) : Type 0 where
  pub i_lt : i < 4
  pub j_lt : j < 4
  pub g_lt : g < 4
  pub h_lt : h < 4
  pub i_j : i ≢ j
  pub i_g : i ≢ g
  pub i_h : i ≢ h
  pub j_g : j ≢ g
  pub j_h : j ≢ h
  pub g_h : g ≢ h

pub four-IsRanks :
    (i j : ℕ)
    → i < 4
    → j < 4
    → i ≢ j
    → IsRanks i j (next_party i j) (excluded_party i j (next_party i j))
unfolding next_party excluded_party
four-IsRanks i j hi hj ij = record {
  i_lt = hi;
  j_lt = hj;
  g_lt = ground arith;
  h_lt = ground arith;
  i_j = ij;
  i_g = λ e. ground arith;
  i_h = λ e. ground arith;
  j_g = λ e. ground arith;
  j_h = λ e. ground arith;
  g_h = λ e. ground arith;
}

module _ {A H : Type 0} (update : H → A → H) where
  jmp-value :
      (x : ℕ → A) (w : A) (i j g : ℕ) (hs : ℕ → HashStates H)
      → x i ≡ w
      → x j ≡ w
      → (me : ℕ) → (me ≡ g) ⊎ (me ≡ i) ⊎ (me ≡ j)
      → (jmp update x i j g hs me).0 ≡ w
  unfolding jmp jmp_at jmp_recv jmp_message jmp_assignments who_hashes
  jmp-value x w i j g hs xi xj me there = ground arith

placed :
    {A : Type 0} (zeros : A) (me g h k : ℕ)
    → me < 4
    → g < 4
    → h < 4
    → k < 3
    → g ≢ h
    → {drawn sent : A} (xg xh : A) → (me ≢ g → drawn ≡ xg)
    → (me ≢ h → sent ≡ xh)
    → (if me == h
        then (if me == g then zeros else put (abs2sh me g) drawn (λ l. zeros) k)
        else put
            (abs2sh me h)
            sent
            (λ l. if me == g then zeros else put (abs2sh me g) drawn (λ m. zeros) l)
            k)
      ≡ spread zeros g h xg xh ((me + k + 1) % 4)
placed zeros me g h k hm hg hh hk gh xg xh dg dh =
    ground (arith, share_index me g k hm hg hk, share_index me h k hm hh hk, lacking me k hm hk)

jmp-hash_states :
    {A H : Type 0} (update : H → A → H) (x : ℕ → A) (w : A) (i j g : ℕ) (hs : ℕ → HashStates H)
    → i ≢ j
    → i ≢ g
    → j ≢ g
    → x i ≡ w
    → x j ≡ w
    → (pa : PartyAssignment) → hs pa.hasher pa ≡ hs pa.receiver pa
    → (jmp update x i j g hs pa.hasher).1 pa ≡ (jmp update x i j g hs pa.receiver).1 pa
unfolding jmp jmp_at jmp_recv jmp_message jmp_send update_hash same_assignment jmp_assignments
    who_hashes
jmp-hash_states update x w i j g hs ij ig jg xi xj pa agreed = ground (arith, agreed)

module _ {I A H : Type 0} (v : Lanes I A) (e : Encoding) (update : H → A → H)
    (stream : ℕ → ℕ → A) where
  draw_g-value :
      {n : Counters} {parties : ℕ → Party H}
      → IsSynced n parties
      → (me g : ℕ) → me < 4
      → g < 4
      → me ≢ g
      → (draw_g v e update stream me g (parties me).counts).0 ≡ stream g (n g)
  unfolding draw_g get_next abs2rel rel2abs
  draw_g-value {n} {parties} synced me g hm hg ne = ground (arith, synced.drawn me g hm hg ne)

  draw_g-counts :
      {n : Counters} {parties : ℕ → Party H}
      → IsSynced n parties
      → (me g k : ℕ) → me < 4
      → g < 4
      → k < 4
      → me ≢ k
      → (draw_g v e update stream me g (parties me).counts).1 k ≡ advance g n k
  unfolding draw_g get_next abs2rel rel2abs
  draw_g-counts {n} {parties} synced me g k hm hg hk ne = ground (arith, synced.drawn me k hm hk ne)

  module _ (x : ℕ → A) (value : A) (i j g h : ℕ) (ranks : IsRanks i j g h) (xi : x i ≡ value)
      (xj : x j ≡ value) {n : Counters} {parties : ℕ → Party H} (synced : IsSynced n parties) where
    value_h-value :
        (p : ℕ)
        → p < 4
        → p ≢ g
        → p ≢ h
        → x p ≡ value
        → value_h v e update stream p g h (x p) (draw_g v e update stream p g (parties p).counts).0
          ≡ take_away v e value (stream g (n g))
    unfolding value_h
    value_h-value p hp pg ph xp = ground (arith, draw_g-value synced p g hp ranks.g_lt pg)

    sent-value :
        (me : ℕ)
        → me < 4
        → me ≢ h
        → (jmp update
            (λ p.
              value_h v e update stream p g h
                (x p)
                (draw_g v e update stream p g (parties p).counts).0)
            i
            j
            g
            (λ p. (parties p).hash_states)
            me).0
          ≡ take_away v e value (stream g (n g))
    sent-value me hm mh =
        jmp-value update
          (λ p.
            value_h v e update stream p g h (x p)
              (draw_g v e update stream p g (parties p).counts).0)
          _ i j g (λ p. (parties p).hash_states) (value_h-value i ranks.i_lt ranks.i_g ranks.i_h xi)
          (value_h-value j ranks.j_lt ranks.j_g ranks.j_h xj) me
          (let r = ranks in
            ground
              (arith, r.i_lt, r.j_lt, r.g_lt, r.h_lt, r.i_j, r.i_g, r.i_h, r.j_g, r.j_h, r.g_h))

    inp_with-held :
        (me k : ℕ)
        → me < 4
        → k < 3
        → (inp_with v e update stream x i j g h parties me).0.share k
          ≡ spread v.zeros g h
              (stream g (n g))
              (take_away v e value (stream g (n g)))
              ((me + k + 1) % 4)
    unfolding inp_with
    inp_with-held me k hm hk =
        placed v.zeros me g h k hm ranks.g_lt ranks.h_lt hk ranks.g_h _ _
          (λ ne. draw_g-value synced me g hm ranks.g_lt ne) (λ ne. sent-value me hm ne)

    inp_with-IsSynced :
        IsSynced (advance g n) (λ me. (inp_with v e update stream x i j g h parties me).1)
    unfolding inp_with
    inp_with-IsSynced = record {
      drawn = λ me k hm hk ne. draw_g-counts synced me g k hm ranks.g_lt hk ne;
      agreed = λ pa.
          jmp-hash_states update
            (λ p.
              value_h v e update stream p g h (x p)
                (draw_g v e update stream p g (parties p).counts).0)
            _ i j g (λ p. (parties p).hash_states) ranks.i_j ranks.i_g ranks.j_g
            (value_h-value i ranks.i_lt ranks.i_g ranks.i_h xi)
            (value_h-value j ranks.j_lt ranks.j_g ranks.j_h xj) pa (synced.agreed pa);
    }

    inp_with-total :
        InRange v value
        → Suits v e
        → total v (spread v.zeros g h (stream g (n g)) (take_away v e value (stream g (n g))))
          ≡ value
    inp_with-total fits suits =
        spread-total v g h _ _ ranks.g_lt ranks.h_lt ranks.g_h
        ∙ ap (v.add (stream g (n g))) (take_away-sub v e suits _ _)
        ∙ add_comm v _ _
        ∙ sub_add v _ _ fits

  module _ (suits : Suits v e) (x : ℕ → A) (value : A) (fits : InRange v value) (i j : ℕ)
      (hi : i < 4) (hj : j < 4) (ij : i ≢ j) (xi : x i ≡ value) (xj : x j ≡ value) {n : Counters}
      {parties : ℕ → Party H} (synced : IsSynced n parties) where
    -- The value is shared by all, and the ranks stay in step.
    pub inp-shared :
        (s : ℕ → A) × Held (λ me. (inp v e update stream x i j parties me).0.share) s
        × (total v s ≡ value)
        × IsSynced (advance (next_party i j) n) (λ me. (inp v e update stream x i j parties me).1)
    unfolding inp
    inp-shared =
        let r = four-IsRanks i j hi hj ij in
        (
          spread v.zeros _ _ _ _,
          inp_with-held x value i j _ _ r xi xj synced,
          inp_with-total x value i j _ _ r xi xj synced fits suits,
          inp_with-IsSynced x value i j _ _ r xi xj synced,
        )
