-- ===== src/FourParty/DivisionLaws.antt =====
-- About `div_const_a` of include/core/protocols/dalskov_4pc.h and the truncation that uses it.
use crypt_dough.Base.{
  ℕ, ◌+◌, ◌%◌, ◌≡◌, ◌<◌, ap, ap₂, arith, Bool, true, false, ◌||◌, ◌==◌, if◌then◌else◌,
}
use crypt_dough.Lanes.{Lanes, InRange}
use crypt_dough.Lanes.Laws.{add-InRange, sub-InRange}
use crypt_dough.Random.Prg.{Counters}
use crypt_dough.FourParty.Shares.{EVector, IsShared}
use crypt_dough.FourParty.ShareLaws.{total}
use crypt_dough.FourParty.Inp.{Party}
use crypt_dough.FourParty.InpLaws.{IsSynced}
use crypt_dough.FourParty.MultiplyLaws.{inp_halves-shared}
use crypt_dough.FourParty.Multiply.{Division, divided, inp_halves}

module _ {I A : Type 0} (v : Lanes I A) where
  -- The quotient that is shared for one half of the value.
  abbrev pub quotient : Bool → Division A → A → A
  quotient true d a = v.sub (d.divrem a).0 (d.is_negative a)
  quotient false d a = (d.divrem a).0

  -- The error of a half, without the constant that the ranks 2 and 3 take away.
  abbrev pub error : Division A → A → A
  error d a = v.add (d.divrem a).1 (v.mul (d.is_negative a) d.constant)

module _ {I A H : Type 0} (v : Lanes I A) (update : H → A → H) (final : H → ℕ)
    (stream : ℕ → ℕ → A) where
  module _ {x : ℕ → EVector A} {s : ℕ → A} {p : ℕ} (shared : IsShared p x s) (d : Division A) where
    abbrev lower : A
    lower = v.add (s 0) (s 1)

    abbrev upper : A
    upper = v.add (s 2) (s 3)

    sum_at :
        (me k l : ℕ)
        → me < 4
        → k < 3
        → l < 3
        → v.add ((x me).share k) ((x me).share l)
          ≡ v.add (s ((me + k + 1) % 4)) (s ((me + l + 1) % 4))
    sum_at me k l hm hk hl = ap₂ v.add (shared.held me k hm hk) (shared.held me l hm hl)

    quotient_at :
        (corrected : Bool) (me : ℕ) (a : A)
        → (if (me == 3) || (me == 1)
            then v.add ((x me).share 0) ((x me).share 1)
            else v.add ((x me).share 1) ((x me).share 2))
          ≡ a
        → (divided v update stream corrected d x me).0 ≡ quotient v corrected d a
    unfolding divided
    quotient_at true me a e = ap (quotient v true d) e
    quotient_at false me a e = ap (quotient v false d) e

    error_at :
        (me : ℕ) (a : A)
        → (if (me == 3) || (me == 1)
            then v.add ((x me).share 0) ((x me).share 1)
            else v.add ((x me).share 1) ((x me).share 2))
          ≡ a
        → (divided v update stream true d x me).1
          ≡ (if (me == 3) || (me == 2) then v.sub (error v d a) d.constant else error v d a)
    unfolding divided
    error_at me a e =
        ap (λ b. if (me == 3) || (me == 2) then v.sub (error v d b) d.constant else error v d b) e

    module _ (n : Counters) (parties : ℕ → Party H) (synced : IsSynced n parties) where
      pub quotients :
          (corrected : Bool)
          → ((a : A) → InRange v a → InRange v (quotient v corrected d a))
          → (t : ℕ → A) × IsShared 0
              (inp_halves v update stream
                (λ me. (divided v update stream corrected d x me).0)
                parties).0
              t
            × (total v t ≡ v.add (quotient v corrected d lower) (quotient v corrected d upper))
            × (m : Counters) × IsSynced m
                (inp_halves v update stream
                  (λ me. (divided v update stream corrected d x me).0)
                  parties).1
      quotients corrected fits =
          inp_halves-shared v update final stream _ _ _ (fits lower (add-InRange v _ _))
            (fits upper (add-InRange v _ _))
            (quotient_at corrected 3 _ (sum_at 3 0 1 (omega arith) (omega arith) (omega arith)))
            (quotient_at corrected 2 _ (sum_at 2 1 2 (omega arith) (omega arith) (omega arith)))
            (quotient_at corrected 1 _ (sum_at 1 0 1 (omega arith) (omega arith) (omega arith)))
            (quotient_at corrected 0 _ (sum_at 0 1 2 (omega arith) (omega arith) (omega arith)))
            synced

      pub errors :
          (t : ℕ → A) × IsShared 0
            (inp_halves v update stream (λ me. (divided v update stream true d x me).1) parties).0
            t
          × (total v t ≡ v.add (v.sub (error v d lower) d.constant) (error v d upper))
          × (m : Counters) × IsSynced m
              (inp_halves v update stream (λ me. (divided v update stream true d x me).1) parties).1
      errors =
          inp_halves-shared v update final stream _ _ _ (sub-InRange v _ _) (add-InRange v _ _)
            (error_at 3 _ (sum_at 3 0 1 (omega arith) (omega arith) (omega arith)))
            (error_at 2 _ (sum_at 2 1 2 (omega arith) (omega arith) (omega arith)))
            (error_at 1 _ (sum_at 1 0 1 (omega arith) (omega arith) (omega arith)))
            (error_at 0 _ (sum_at 0 1 2 (omega arith) (omega arith) (omega arith))) synced
