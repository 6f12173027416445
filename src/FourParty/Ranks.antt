-- ===== src/FourParty/Ranks.antt =====
-- Which rank receives, sends and hashes, and where a rank keeps a share.
use crypt_dough.Base.{ℕ, ◌+◌, ◌-◌, ◌%◌, ◌==◌, if◌then◌else◌, min, max}

pub record PartyAssignment : Type 0 where
  pub hasher : ℕ
  pub sender : ℕ
  pub receiver : ℕ

unfoldable pub next_party : ℕ → ℕ → ℕ
next_party i j =
    let a = min i j in let b = max i j in if b == (a + 1) % 4 then (b + 1) % 4 else (a + 1) % 4

-- The ranks given are distinct, so their sum is at most six.
unfoldable pub excluded_party : ℕ → ℕ → ℕ → ℕ
excluded_party i j k = 0 + 1 + 2 + 3 - (i + j + k)

unfoldable pub abs2rel : ℕ → ℕ → ℕ
abs2rel me p = (p + 4 - me) % 4

unfoldable pub rel2abs : ℕ → ℕ → ℕ
rel2abs me p = (me + p) % 4

-- Where rank `me` keeps the share that rank `p` lacks.
unfoldable pub abs2sh : ℕ → ℕ → ℕ
unfolding abs2rel
abs2sh me p = if p == me then 0 else (abs2rel me p + 3) % 4

unfoldable pub who_hashes : ℕ → ℕ → ℕ
who_hashes a b = max a b

unfoldable pub jmp_assignments : ℕ → ℕ → ℕ → PartyAssignment
unfolding who_hashes
jmp_assignments p q r =
    let hash_party = who_hashes p q in
    record { hasher = hash_party; sender = if p == hash_party then q else p; receiver = r }
