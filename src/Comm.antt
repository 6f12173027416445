-- ===== src/Comm.antt =====
-- Ranks and messages (include/core/communication/communicator.h and its implementations).
-- The transport itself is not modelled: a round is described by what every rank sends, and a
-- receive gives the message of the named peer if that peer addressed it to the receiver.
use crypt_dough.Base.{ℕ, zero, suc, ◌+◌, ◌%◌, ◌==◌, if◌then◌else◌, Option, none, some}

-- The rank at a relative position; -1 is written `n - 1`.
abbrev pub peer : ℕ → ℕ → ℕ → ℕ
peer n me rel = (me + rel) % n

-- `exchangeShares(sent, received, to, from)` at rank `me`: every rank sends to its peer at `to`
-- and receives from its peer at `from`. `none` is a receive that nobody serves.
abbrev pub exchange_shares {ℓ} : {A : Type ℓ} → ℕ → ℕ → ℕ → (ℕ → A) → ℕ → Option A
exchange_shares n to from sent me =
    if peer n (peer n me from) to == me then some (sent (peer n me from)) else none

infixl 5 ◌>>=◌
abbrev pub ◌>>=◌ {ℓ κ} : {A : Type ℓ} {B : Type κ} → Option A → (A → Option B) → Option B
none >>= f = none
some a >>= f = f a

-- One value for each of three ranks.
abbrev pub three {ℓ} : {A : Type ℓ} → A → A → A → ℕ → A
three a b c zero = a
three a b c (suc zero) = b
three a b c (suc (suc p)) = c

-- Run the code of all three ranks; the run fails if one of them does.
abbrev pub all_three {ℓ} : {A : Type ℓ} → (ℕ → Option A) → Option (ℕ → A)
all_three f = do a ← f 0; b ← f 1; c ← f 2; some (three a b c)

-- One value for each of two ranks.
abbrev pub two {ℓ} : {A : Type ℓ} → A → A → ℕ → A
two a b zero = a
two a b (suc p) = b

abbrev pub all_two {ℓ} : {A : Type ℓ} → (ℕ → Option A) → Option (ℕ → A)
all_two f = do a ← f 0; b ← f 1; some (two a b)

-- The loop over the operands' precisions (`handle_precision` of
-- include/core/protocols/interface/protocol.h): it throws on a mismatch.
unfoldable pub handle_precision : ℕ → ℕ → Option ℕ
handle_precision p q = if p == q then some p else none

-- One value for each of four ranks.
abbrev pub four {ℓ} : {A : Type ℓ} → A → A → A → A → ℕ → A
four a b c d zero = a
four a b c d (suc zero) = b
four a b c d (suc (suc zero)) = c
four a b c d (suc (suc (suc p))) = d

abbrev pub all_four {ℓ} : {A : Type ℓ} → (ℕ → Option A) → Option (ℕ → A)
all_four f = do a ← f 0; b ← f 1; c ← f 2; d ← f 3; some (four a b c d)
