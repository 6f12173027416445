-- ===== src/FourParty/TruncateLaws.antt =====
-- About `div_const_a` of include/core/protocols/dalskov_4pc.h and the truncation that uses it: what
-- the divided halves add up to.
use crypt_dough.Base.{
  ℕ, suc, ◌+◌, ◌*◌, ◌%◌, ◌≡◌, ◌≢◌, ◌<◌, ◌∙◌, sym, ap, ap₂, arith, mods, mod_eq_by, Option, some,
  Bool, true, false, ◌||◌, ◌&&◌, none, ◌==◌, if◌then◌else◌,
}
use crypt_dough.Lanes.{Lanes, InRange}
use crypt_dough.Lanes.Laws.{add-InRange, sub-InRange}
use crypt_dough.Random.Prg.{Counters}
use crypt_dough.FourParty.Shares.{EVector, IsShared, reconstruct_from_a, unchecked_open_a, a_shared}
use crypt_dough.FourParty.ShareLaws.{total, reconstruct-total, open-total}
use crypt_dough.FourParty.Inp.{Party}
use crypt_dough.FourParty.InpLaws.{IsSynced}
use crypt_dough.Comm.{◌>>=◌}
use crypt_dough.FourParty.ProductLaws.{Succeeds}
use crypt_dough.FourParty.MultiplyLaws.{Opens, by-Opens, multiplied, runs_then}
use crypt_dough.FourParty.Multiply.{State, Division, div_const_a, truncate, multiply_a}
use crypt_dough.FourParty.DivisionLaws.{quotient, quotients, errors}

-- The ranks agree on a precision that is not zero.
guarded :
    {X : Type 0} (p0 p1 p2 p3 p : ℕ) (x : X) (f : ℕ → X)
    → p0 ≡ p
    → p1 ≡ p
    → p2 ≡ p
    → p3 ≡ p
    → p ≢ 0
    → (if (p0 == 0) && (p1 == 0) && (p2 == 0) && (p3 == 0)
        then some x
        else if (p0 == 0) || (p1 == 0) || (p2 == 0) || (p3 == 0)
        then none
        else some (f p0))
      ≡ some (f p)
guarded p0 p1 p2 p3 p x f e0 e1 e2 e3 ne = ground arith

module _ {I A H : Type 0} (v : Lanes I A) (update : H → A → H) (final : H → ℕ)
    (stream : ℕ → ℕ → A) where
  halves : (s : ℕ → A) → v.add (v.add (s 0) (s 1)) (v.add (s 2) (s 3)) ≡ total v s
  halves s = v.at_ext _ _ λ i. simp (v.at-add, mods) (ap (λ t. t % suc v.top) (omega arith))

  recombine :
      (c q r n q' r' n' : A)
      → v.add
          (v.add
            (v.mul (v.add (v.sub q n) (v.sub q' n')) c)
            (v.add (v.sub (v.add r (v.mul n c)) c) (v.add r' (v.mul n' c))))
          c
        ≡ v.add (v.add (v.mul q c) r) (v.add (v.mul q' c) r')
  recombine c q r n q' r' n' = v.at_ext _ _ λ i.
      let at : A → ℕ = λ a. v.at a i in
      simp (v.at-add, v.at-sub, v.at-mul, mods)
        (mod_eq_by (suc v.top) 0 (at n * at c + at n' * at c + at c) _ _ (omega arith))

  module _ {x : ℕ → EVector A} {s : ℕ → A} {p : ℕ} (shared : IsShared p x s) (n : Counters)
      (parties : ℕ → Party H) (synced : IsSynced n parties) where
    -- Division by a constant with the error correction, by ranks that agree: the quotient times
    -- the constant, the error and once more the constant add up to the value, if the local
    -- division is one with a remainder. The check that follows passes at every rank.
    pub fantastic_div_const_a-identity :
        (d : Division A)
        → ((a : A) → InRange v a → v.add (v.mul (d.divrem a).0 d.constant) (d.divrem a).1 ≡ a)
        → (q : A) × (err : A) × Opens v final 0 q
            (div_const_a v update stream true d x parties).0
            (div_const_a v update stream true d x parties).2
          × ((me : ℕ)
              → me < 4
              → unchecked_open_a v (div_const_a v update stream true d x parties).1 me ≡ err)
          × (v.add (v.add (v.mul q d.constant) err) d.constant ≡ reconstruct_from_a v x)
    unfolding div_const_a
    fantastic_div_const_a-identity d euclid =
        let (t, t_shared, t_total, m, between) =
          errors v update final stream shared d n parties synced in
        let (u, u_shared, u_total, m', after) =
          quotients v update final stream shared d m _ between true (λ a r. sub-InRange v _ _) in
        (
          _,
          _,
          by-Opens v final u u_shared u_total m' after,
          (λ me h. open-total v t_shared me h ∙ t_total),
          recombine d.constant _ _ _ _ _ _
              ∙ ap₂ v.add (euclid _ (add-InRange v _ _)) (euclid _ (add-InRange v _ _))
              ∙ halves s
              ∙ sym (reconstruct-total v shared),
        )

    div_const_a-total :
        (corrected : Bool) (d : Division A)
        → ((a : A) → InRange v a → InRange v (quotient v corrected d a))
        → (t : ℕ → A) × IsShared 0 (div_const_a v update stream corrected d x parties).0 t
          × (total v t
              ≡ v.add
                  (quotient v corrected d (v.add (s 0) (s 1)))
                  (quotient v corrected d (v.add (s 2) (s 3))))
          × (m : Counters) × IsSynced m (div_const_a v update stream corrected d x parties).2
    unfolding div_const_a
    div_const_a-total true d fits =
        let (t, t_shared, t_total, m, between) =
          errors v update final stream shared d n parties synced in
        quotients v update final stream shared d m _ between true fits
    div_const_a-total false d fits =
        quotients v update final stream shared d n parties synced false fits

    truncate_lem :
        (corrected : Bool) (division : ℕ → Division A)
        → p ≢ 0
        → truncate v update stream corrected division (x, parties)
          ≡ some (
            (λ me. record {
              share = ((div_const_a v update stream corrected (division p) x parties).0 me).share;
              precision = (x me).precision;
            }),
            (div_const_a v update stream corrected (division p) x parties).2,
          )
    unfolding truncate
    truncate_lem corrected division fraction =
        guarded _ _ _ _ p (x, parties)
          (λ q. (
            (λ me. record {
              share = ((div_const_a v update stream corrected (division q) x parties).0 me).share;
              precision = (x me).precision;
            }),
            (div_const_a v update stream corrected (division q) x parties).2,
          ))
          (shared.precisions 0 (omega arith)) (shared.precisions 1 (omega arith))
          (shared.precisions 2 (omega arith)) (shared.precisions 3 (omega arith)) fraction

    -- Truncation ends in shares of the sum of the two divided halves of the value.
    pub truncate-halves :
        (corrected : Bool) (division : ℕ → Division A)
        → p ≢ 0
        → ((a : A) → InRange v a → InRange v (quotient v corrected (division p) a))
        → (z : ℕ → EVector A) × (after : ℕ → Party H) × (truncate v update stream corrected division
              (x, parties)
            ≡ some (z, after))
          × (a : A) × (b : A) × (v.add a b ≡ total v s)
          × Opens v final p
              (v.add (quotient v corrected (division p) a) (quotient v corrected (division p) b))
              z
              after
    truncate-halves corrected division fraction fits =
        let (t, t_shared, t_total, m, after) = div_const_a-total corrected (division p) fits in
        (
          _,
          _,
          truncate_lem corrected division fraction,
          _,
          _,
          halves s,
          by-Opens v final t (record { held = t_shared.held; precisions = shared.precisions })
              t_total m after,
        )

  fraction-open :
      {p : ℕ} {value : A} {outcome : Option (State A H)} (corrected : Bool)
      (division : ℕ → Division A)
      → p ≢ 0
      → ((a : A) → InRange v a → InRange v (quotient v corrected (division p) a))
      → Succeeds v p value outcome
      → (z : ℕ → EVector A) × (after : ℕ → Party H) × ((outcome
            >>= truncate v update stream corrected division)
          ≡ some (z, after))
        × (a : A) × (b : A) × (v.add a b ≡ value)
        × Opens v final p
            (v.add (quotient v corrected (division p) a) (quotient v corrected (division p) b))
            z
            after
  fraction-open corrected division fraction fits r =
      let (z, after, truncates, a, b, ab, opens) =
        truncate-halves r.shared r.counts r.after r.synced corrected division fraction fits in
      (
        z,
        after,
        runs_then (truncate v update stream corrected division) r.runs truncates,
        a,
        b,
        ab ∙ r.sums,
        opens,
      )

  -- Multiplication of fixed-point values by ranks that agree: no rank fails, and every rank opens
  -- the sum of two quotients, of values that add up to the product.
  pub fantastic_multiply_a_fraction :
      {x y : ℕ → EVector A} {sx sy : ℕ → A} {p : ℕ}
      → IsShared p x sx
      → IsShared p y sy
      → (n : Counters) (parties : ℕ → Party H) → IsSynced n parties
      → (corrected : Bool) (division : ℕ → Division A) → p ≢ 0
      → ((a : A) → InRange v a → InRange v (quotient v corrected (division p) a))
      → (z : ℕ → EVector A) × (after : ℕ → Party H) × (multiply_a v update stream corrected division
            x y parties
          ≡ some (z, after))
        × (a : A) × (b : A) × (v.add a b ≡ v.mul (reconstruct_from_a v x) (reconstruct_from_a v y))
        × Opens v final p
            (v.add (quotient v corrected (division p) a) (quotient v corrected (division p) b))
            z
            after
  unfolding multiply_a
  fantastic_multiply_a_fraction shared_x shared_y n parties synced corrected division fraction
        fits =
      fraction-open corrected division fraction fits
        (multiplied v update final stream shared_x shared_y n parties synced a_shared tt)
