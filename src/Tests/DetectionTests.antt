-- ===== src/Tests/DetectionTests.antt =====
-- Runs of the hash check of four ranks.
use crypt_dough.Base.{
  ℕ, ◌+◌, ◌*◌, ◌≡◌, ◌≢◌, ◌<◌, ◌∙◌, refl, sym, ap, arith, Bool, true, false, List, [], ◌∷◌,
}
use crypt_dough.FourParty.Ranks.{PartyAssignment, jmp_assignments}
use crypt_dough.FourParty.Jmp.{HashStates, init_hashes, jmp_at, malicious_check_internal}
use crypt_dough.FourParty.Detection.{Call, AreCalls, absorb, run_calls, received, vouched}
use crypt_dough.FourParty.DetectionLaws.{IsCollisionFree, malicious_check-detects}

-- A hash that keeps the messages, one bit each, and a digest that counts them all.
abbrev keep : List Bool → Bool → List Bool
keep [] a = a ∷ []
keep (b ∷ h) a = b ∷ keep h a

abbrev digest : List Bool → ℕ
digest [] = 0
digest (true ∷ h) = 2 * digest h + 2
digest (false ∷ h) = 2 * digest h + 1

digest-cons :
    (a b : Bool) (m n : List Bool)
    → digest (a ∷ m) ≡ digest (b ∷ n)
    → (a ≡ b) × (digest m ≡ digest n)
digest-cons true true m n e = (refl, omega (arith, e))
digest-cons false false m n e = (refl, omega (arith, e))
digest-cons true false m n e = absurd (omega (arith, e))
digest-cons false true m n e = absurd (omega (arith, e))

digest-positive : (a : Bool) (m : List Bool) → digest (a ∷ m) ≢ 0
digest-positive true m e = omega (arith, e)
digest-positive false m e = omega (arith, e)

keep-front : (b : Bool) (h m : List Bool) → absorb keep (b ∷ h) m ≡ b ∷ absorb keep h m
keep-front b h [] = refl
keep-front b h (a ∷ m) = keep-front b (keep h a) m

keep-nil : (m : List Bool) → absorb keep [] m ≡ m
keep-nil [] = refl
keep-nil (a ∷ m) = keep-front a [] m ∙ ap (λ l. a ∷ l) (keep-nil m)

digest-eq : (m n : List Bool) → digest m ≡ digest n → m ≡ n
digest-eq [] [] e = refl
digest-eq [] (b ∷ n) e = absurd (digest-positive b n (sym e))
digest-eq (a ∷ m) [] e = absurd (digest-positive a m e)
digest-eq (a ∷ m) (b ∷ n) e =
    let (ab, mn) = digest-cons a b m n e in ap (λ c. c ∷ m) ab ∙ ap (λ l. b ∷ l) (digest-eq m n mn)

digest-IsCollisionFree : IsCollisionFree keep digest
digest-IsCollisionFree [] m n e =
    digest-eq m n (ap digest (sym (keep-nil m)) ∙ e ∙ ap digest (keep-nil n))
digest-IsCollisionFree (b ∷ h) m n e =
    digest-IsCollisionFree h m n
      (digest-cons b b _ _
        (ap digest (sym (keep-front b h m)) ∙ e ∙ ap digest (keep-front b h n))).1

abbrev fresh : ℕ → HashStates (List Bool)
fresh me pa = true ∷ []

abbrev update_byte : List Bool → ℕ → List Bool
update_byte h b = false ∷ h

abbrev init : List Bool → List Bool
init h = []

-- Rank 0 changes its message to rank 2.
abbrev calls : List (Call Bool)
calls =
    record { from = 1; also_from = 3; to = 0; values = λ me. true; message = true }
    ∷ record { from = 0; also_from = 1; to = 2; values = λ me. true; message = false }
    ∷ []

calls-AreCalls : AreCalls calls
calls-AreCalls = (
  record {
    from_also = λ e. omega (arith, e);
    from_to = λ e. omega (arith, e);
    also_to = λ e. omega (arith, e);
  },
  (
    record {
      from_also = λ e. omega (arith, e);
      from_to = λ e. omega (arith, e);
      also_to = λ e. omega (arith, e);
    },
    tt,
  ),
)

abbrev after : ℕ → HashStates (List Bool)
after = run_calls keep calls (λ me. init_hashes update_byte init (fresh me))

found : malicious_check_internal digest after 2 ≡ false
unfolding malicious_check_internal jmp_at init_hashes
found = refl

not_concerned : malicious_check_internal digest after 0 ≡ true
unfolding malicious_check_internal jmp_at init_hashes
not_concerned = refl

malicious_check-detects_example :
    (((pa : PartyAssignment) → received pa calls ≡ vouched pa calls)
      → (r : ℕ) → malicious_check_internal digest after r ≡ true)
    × ((i j r : ℕ)
        → i < j
        → j < 4
        → r < 4
        → i ≢ r
        → j ≢ r
        → malicious_check_internal digest after r ≡ true
        → received (jmp_assignments i j r) calls ≡ vouched (jmp_assignments i j r) calls)
malicious_check-detects_example =
    malicious_check-detects keep digest update_byte init digest-IsCollisionFree (λ a b. refl) fresh
      calls calls-AreCalls
