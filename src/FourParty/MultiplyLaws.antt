-- ===== src/FourParty/MultiplyLaws.antt =====
-- About the products, the division and the truncation of
-- include/core/protocols/dalskov_4pc.h.
use crypt_dough.Base.{
  ◌==◌, ◌||◌, ◌&&◌, if◌then◌else◌, none, ℕ, ◌≡◌, ◌<◌, ◌∙◌, refl, sym, ap, ap₂, arith, Option, some,
  Bool, true,
}
use crypt_dough.Comm.{◌>>=◌}
use crypt_dough.Lanes.{Lanes, InRange}
use crypt_dough.Random.Prg.{Counters}
use crypt_dough.FourParty.Shares.{
  EVector, IsShared, Encoding, a_shared, b_shared, reconstruct_from_a, unchecked_open_a,
}
use crypt_dough.FourParty.ShareLaws.{total, Suits, reconstruct-total, open-total}
use crypt_dough.FourParty.Jmp.{malicious_check_internal}
use crypt_dough.FourParty.Inp.{Party, inp}
use crypt_dough.FourParty.InpLaws.{IsSynced, inp-shared}
use crypt_dough.FourParty.CheckLaws.{malicious_check-agreed}
use crypt_dough.FourParty.ProductLaws.{
  Held-add, total_add, mul-IsBilinear, Succeeds, generic_multiply-total,
}
use crypt_dough.FourParty.Multiply.{
  div_const_a, State, Division, inp_halves, truncate, multiply_a, and_b, generic_multiply,
}

-- A result that the next step takes on.
pub runs_then :
    {A B : Type 0} {m : Option A} {a : A} (f : A → Option B) {b : B}
    → m ≡ some a
    → f a ≡ some b
    → (m >>= f) ≡ some b
runs_then f e g = ap (λ o. o >>= f) e ∙ g

-- The ranks agree that there is nothing to do.
untouched :
    {X : Type 0} (p0 p1 p2 p3 : ℕ) (x : X) (f : ℕ → X)
    → p0 ≡ 0
    → p1 ≡ 0
    → p2 ≡ 0
    → p3 ≡ 0
    → (if (p0 == 0) && (p1 == 0) && (p2 == 0) && (p3 == 0)
        then some x
        else if (p0 == 0) || (p1 == 0) || (p2 == 0) || (p3 == 0)
        then none
        else some (f p0))
      ≡ some x
untouched p0 p1 p2 p3 x f e0 e1 e2 e3 = ground arith

module _ {I A H : Type 0} (v : Lanes I A) (final : H → ℕ) where
  -- The outcome of an operation: consistent shares that every rank opens to the value, and hashes
  -- on which the ranks agree.
  pub record Opens (d : ℕ) (value : A) (z : ℕ → EVector A) (after : ℕ → Party H) : Type 0 where
    pub shares : ℕ → A
    pub shared : IsShared d z shares
    pub opened : (me : ℕ) → me < 4 → unchecked_open_a v z me ≡ value
    pub counts : Counters
    pub synced : IsSynced counts after
    pub checked : (me : ℕ) → malicious_check_internal final (λ p. (after p).hash_states) me ≡ true

  pub by-Opens :
      {d : ℕ} {value : A} {z : ℕ → EVector A} {after : ℕ → Party H} (s : ℕ → A)
      → IsShared d z s
      → total v s ≡ value
      → (n : Counters) → IsSynced n after
      → Opens d value z after
  by-Opens s shared e n synced = record {
    shares = s;
    shared = shared;
    opened = λ me h. open-total v shared me h ∙ e;
    counts = n;
    synced = synced;
    checked = λ me. malicious_check-agreed final _ me synced.agreed;
  }

module _ {I A H : Type 0} (v : Lanes I A) (update : H → A → H) (final : H → ℕ)
    (stream : ℕ → ℕ → A) where
  module _ (x : ℕ → A) (p q : A) (fp : InRange v p) (fq : InRange v q) (x3 : x 3 ≡ p) (x2 : x 2 ≡ p)
      (x1 : x 1 ≡ q) (x0 : x 0 ≡ q) {n : Counters} {parties : ℕ → Party H}
      (synced : IsSynced n parties) where
    pub inp_halves-shared :
        (s : ℕ → A) × IsShared 0 (inp_halves v update stream x parties).0 s
        × (total v s ≡ v.add p q)
        × (m : Counters) × IsSynced m (inp_halves v update stream x parties).1
    unfolding inp_halves inp
    inp_halves-shared =
        let (s, s_held, s_total, s_synced) =
          inp-shared v a_shared update stream tt x p fp 3 2 (omega arith) (omega arith)
            (λ e. omega (arith, e)) x3 x2 synced in
        let (t, t_held, t_total, t_synced) =
          inp-shared v a_shared update stream tt x q fq 1 0 (omega arith) (omega arith)
            (λ e. omega (arith, e)) x1 x0 s_synced in
        (
          (λ k. v.add (s k) (t k)),
          record { held = Held-add v s t s_held t_held; precisions = λ me h. refl },
          total_add v s t ∙ ap₂ v.add s_total t_total,
          _,
          t_synced,
        )

  pub truncate-whole :
      (corrected : Bool) (division : ℕ → Division A) (z : ℕ → EVector A) (parties : ℕ → Party H)
      → ((me : ℕ) → me < 4 → (z me).precision ≡ 0)
      → truncate v update stream corrected division (z, parties) ≡ some (z, parties)
  unfolding truncate
  truncate-whole corrected division z parties whole =
      untouched _ _ _ _ (z, parties)
        (λ p. (
          (λ me. record {
            share = ((div_const_a v update stream corrected (division p) z parties).0 me).share;
            precision = (z me).precision;
          }),
          (div_const_a v update stream corrected (division p) z parties).2,
        ))
        (whole 0 (omega arith)) (whole 1 (omega arith)) (whole 2 (omega arith))
        (whole 3 (omega arith))

  pub success-open :
      {d : ℕ} {value : A} {outcome : Option (State A H)}
      → Succeeds v d value outcome
      → (z : ℕ → EVector A) × (after : ℕ → Party H) × (outcome ≡ some (z, after))
        × Opens v final d value z after
  success-open r =
      (r.result, r.after, r.runs, by-Opens v final r.shares r.shared r.sums r.counts r.synced)

  pub truncated-open :
      {d : ℕ} {value : A} {outcome : Option (State A H)} (corrected : Bool)
      (division : ℕ → Division A)
      → d ≡ 0
      → Succeeds v d value outcome
      → (z : ℕ → EVector A) × (after : ℕ → Party H) × ((outcome
            >>= truncate v update stream corrected division)
          ≡ some (z, after))
        × Opens v final d value z after
  truncated-open corrected division whole r = (
    r.result,
    r.after,
    runs_then (truncate v update stream corrected division) r.runs (
        truncate-whole corrected division r.result r.after
          (λ me h. r.shared.precisions me h ∙ whole)),
    by-Opens v final r.shares r.shared r.sums r.counts r.synced,
  )

  pub revalue :
      {d : ℕ} {a b : A} {outcome : Option (State A H)}
      → a ≡ b
      → Succeeds v d a outcome
      → Succeeds v d b outcome
  revalue e r = record {
    result = r.result;
    after = r.after;
    runs = r.runs;
    shares = r.shares;
    shared = r.shared;
    sums = r.sums ∙ e;
    counts = r.counts;
    synced = r.synced;
  }

  -- The results of a multiplication of consistent shares.
  module _ {x y : ℕ → EVector A} {sx sy : ℕ → A} {d : ℕ} (shared_x : IsShared d x sx)
      (shared_y : IsShared d y sy) (n : Counters) (parties : ℕ → Party H)
      (synced : IsSynced n parties) where
    pub multiplied :
        (e : Encoding)
        → Suits v e
        → Succeeds v d
            (v.mul (reconstruct_from_a v x) (reconstruct_from_a v y))
            (generic_multiply v e update stream v.mul x y parties)
    multiplied e suits =
        revalue
          (ap₂ v.mul (sym (reconstruct-total v shared_x)) (sym (reconstruct-total v shared_y)))
          (generic_multiply-total v e suits update stream v.mul x y sx sy shared_x shared_y v
            (mul-IsBilinear v) n parties synced)

    -- Multiplication of whole values by ranks that agree on the PRGs and the hashes: no rank
    -- fails, every rank opens the product, and the check that follows passes at every rank.
    pub fantastic_multiply_a-open :
        (corrected : Bool) (division : ℕ → Division A)
        → d ≡ 0
        → (z : ℕ → EVector A) × (after : ℕ → Party H) × (multiply_a v update stream corrected
              division x y parties
            ≡ some (z, after))
          × Opens v final d (v.mul (reconstruct_from_a v x) (reconstruct_from_a v y)) z after
    unfolding multiply_a
    fantastic_multiply_a-open corrected division whole =
        truncated-open corrected division whole (multiplied a_shared tt)

    -- AND of four ranks that agree, in lanes of one bit: no rank fails, every rank opens the
    -- bitwise product, and the check that follows passes.
    pub fantastic_and_b-open :
        v.top ≡ 1
        → (z : ℕ → EVector A) × (after : ℕ → Party H) × (and_b v update stream x y parties
            ≡ some (z, after))
          × Opens v final d (v.mul (reconstruct_from_a v x) (reconstruct_from_a v y)) z after
    unfolding and_b
    fantastic_and_b-open bits = success-open (multiplied b_shared bits)
