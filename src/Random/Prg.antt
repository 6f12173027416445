-- ===== src/Random/Prg.antt =====
-- Common PRGs (include/core/random/prg/common_prg.h). A PRG that several ranks share is a stream
-- and a count of the values drawn, kept by each holder; the cipher behind the stream is a
-- parameter. Of up to three parties, the PRG of two neighbours is named by the lower of the two,
-- cyclically. Of four parties, three ranks share a PRG, named by the rank that lacks it, and
-- `get(i)` is the PRG that the rank at the relative position `i` lacks
-- (include/backend/common/rand_setup.h).
use crypt_dough.Base.{ℕ, suc, ◌-◌, ◌==◌, if◌then◌else◌}
use crypt_dough.Comm.{peer}

-- How many values a rank has drawn from each PRG.
abbrev pub Counters : Type 0
Counters = ℕ → ℕ

abbrev pub advance : ℕ → Counters → Counters
advance link c k = if k == link then suc (c k) else c k

-- `commonPRGManager->get(+1)`; two parties have one PRG between them.
unfoldable pub next_link : ℕ → ℕ → ℕ
next_link n me = if n == 2 then 0 else if n == 4 then peer 4 me 1 else me

-- `commonPRGManager->get(-1)`.
unfoldable pub prev_link : ℕ → ℕ → ℕ
prev_link n me = if n == 2 then 0 else peer n me (n - 1)

-- `getNext`: the next value of the stream, and the count moved on.
unfoldable pub get_next : {A : Type 0} → (ℕ → ℕ → A) → ℕ → Counters → A × Counters
get_next stream link c = (stream link (c link), advance link c)

-- `commonPRGManager->get(+2)` of four parties.
unfoldable pub far_link : ℕ → ℕ
far_link me = peer 4 me 2
