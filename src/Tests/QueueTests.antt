-- ===== src/Tests/QueueTests.antt =====
-- Runs of the ring buffer and of a pool.
use crypt_dough.Base.{
  ℕ, zero, suc, ◌+◌, ◌*◌, ◌≡◌, ◌<◌, ◌≤◌, refl, ap, arith, some, List, [], ◌∷◌, ◌++◌,
}
use crypt_dough.Ring.{Ring}
use crypt_dough.Ring.Walk.{Message, Represents}
use crypt_dough.Ring.Runs.{Call, push_call, pop_call}
use crypt_dough.Random.Pool as P
use crypt_dough.Random.Pool.Laws.{Paired, Generates, IsPool, get_next-IsPool}

abbrev hello : Message
hello = record { bytes = λ j. j + 104; byte_count = 5 }

-- A buffer of three slots that has gone around: the message stands in its last slot.
abbrev ring : Ring
ring = record {
  write_index = 0;
  read_index = 2;
  ring_size = 3;
  ring_array = λ i. record { buffer = λ j. j + 104; used = 5 };
}

ring-Represents : Represents ring (hello ∷ [])
ring-Represents = record {
  read-lt = omega arith;
  write-lt = omega arith;
  short = omega arith;
  walk = (record { counted = refl; copied = λ j h. refl }, refl);
}

-- The third push goes around the end of the buffer.
abbrev calls : List Call
calls =
    push_call hello
    ∷ push_call hello
    ∷ pop_call
    ∷ push_call (record { bytes = λ j. j; byte_count = 2 })
    ∷ pop_call
    ∷ []

-- A generator that counts.
abbrev count_from : ℕ → ℕ → List ℕ
count_from zero g = []
count_from (suc n) g = g ∷ count_from n (suc g)

abbrev doubles_from : ℕ → ℕ → List ℕ
doubles_from zero g = []
doubles_from (suc n) g = g * 2 ∷ doubles_from n (suc g)

abbrev generate : ℕ → ℕ → (List ℕ × List ℕ) × ℕ
generate n g = ((count_from n g, doubles_from n g), g + n)

abbrev IsDouble : ℕ → ℕ → Type 0
IsDouble a b = b ≡ a * 2

counted_Paired : (n g : ℕ) → Paired IsDouble (count_from n g) (doubles_from n g)
counted_Paired zero g = tt
counted_Paired (suc n) g = (refl, counted_Paired n (suc g))

length-count_from : (n g : ℕ) → P.length (count_from n g) ≡ n
length-count_from zero g = refl
length-count_from (suc n) g = ap suc (length-count_from n (suc g))

generates : Generates generate IsDouble
generates n g = (counted_Paired n g, length-count_from n g)

abbrev pool : P.Pool ℕ ℕ ℕ
pool = record { queue0 = 1 ∷ 2 ∷ 3 ∷ []; queue1 = 2 ∷ 4 ∷ 6 ∷ []; generator = 4 }

pool-IsPool : IsPool generate IsDouble pool
pool-IsPool = (refl, (refl, (refl, tt)))

get_next-IsPool_example :
    (batch : List ℕ × List ℕ) × (pool' : P.Pool ℕ ℕ ℕ) × (P.get_next generate 2 pool
      ≡ some (batch, pool'))
    × Paired IsDouble batch.0 batch.1
    × (P.length batch.0 ≡ 2)
    × IsPool generate IsDouble pool'
    × (2 ≤ P.length pool.queue0 → batch.0 ++ pool'.queue0 ≡ pool.queue0)
    × (P.length pool.queue0 < 2 → pool'.queue0 ≡ pool.queue0)
get_next-IsPool_example = get_next-IsPool generate IsDouble 2 pool generates pool-IsPool
