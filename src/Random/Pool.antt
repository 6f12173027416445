-- ===== src/Random/Pool.antt =====
-- Pools of correlations (include/core/random/pooled/pooled_generator.h), for generators of pairs
-- of vectors. The pooled generator is a parameter with a state of its own.
pub mod Laws
use crypt_dough.Base.{
  ℕ, zero, suc, ◌==◌, ltb, if◌then◌else◌, Option, none, some, List, [], ◌∷◌, ◌++◌,
}
use crypt_dough.Comm.{◌>>=◌}

abbrev pub length {ℓ} : {A : Type ℓ} → List A → ℕ
length [] = 0
length (x ∷ l) = suc (length l)

abbrev pub take {ℓ} : {A : Type ℓ} → ℕ → List A → List A
take zero l = []
take (suc n) [] = []
take (suc n) (x ∷ l) = x ∷ take n l

abbrev pub drop {ℓ} : {A : Type ℓ} → ℕ → List A → List A
drop zero l = l
drop (suc n) [] = []
drop (suc n) (x ∷ l) = drop n l

-- Two queues, and the state of the generator.
pub record Pool (G A B : Type 0) : Type 0 where
  pub queue0 : List A
  pub queue1 : List B
  pub generator : G

module _ {G A B : Type 0} (generate : ℕ → G → (List A × List B) × G) where
  -- `addToQueue`.
  unfoldable pub add_to_queue : List A × List B → Pool G A B → Pool G A B
  add_to_queue batch pool = record {
    queue0 = pool.queue0 ++ batch.0;
    queue1 = pool.queue1 ++ batch.1;
    generator = pool.generator;
  }

  unfoldable pub reserve : ℕ → Pool G A B → Pool G A B
  unfolding add_to_queue
  reserve count pool =
      let (batch, g) = generate count pool.generator in
      add_to_queue batch (record { queue0 = pool.queue0; queue1 = pool.queue1; generator = g })

  -- `size`; `none` is the exception on queues of different sizes.
  unfoldable pub size : Pool G A B → Option ℕ
  size pool = if length pool.queue1 == length pool.queue0 then some (length pool.queue0) else none

  -- `extractElements`, from both queues.
  unfoldable pub extract_elements : ℕ → Pool G A B → (List A × List B) × Pool G A B
  extract_elements count pool = (
    (take count pool.queue0, take count pool.queue1),
    record {
      queue0 = drop count pool.queue0;
      queue1 = drop count pool.queue1;
      generator = pool.generator;
    },
  )

  unfoldable pub get_next : ℕ → Pool G A B → Option ((List A × List B) × Pool G A B)
  unfolding size extract_elements
  get_next count pool = do
    current_size ← size pool
    let (batch, g) = generate count pool.generator in
        if ltb current_size count
        then some (batch, record { queue0 = pool.queue0; queue1 = pool.queue1; generator = g })
        else some (extract_elements count pool)
