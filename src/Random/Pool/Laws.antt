-- ===== src/Random/Pool/Laws.antt =====
-- About include/core/random/pooled/pooled_generator.h.
use crypt_dough.Base.{
  ℕ, zero, suc, ◌+◌, ◌≡◌, ◌<◌, ◌≤◌, ◌∙◌, refl, ap, arith, ◌==◌, ltb, true, false, some, List, [],
  ◌∷◌, ◌++◌, inl, inr, ◌⊎◌,
}
use crypt_dough.Random.Pool.{length, take, drop, Pool, add_to_queue, reserve, size, get_next}

-- Lists of the same length with related elements at every index.
abbrev pub Paired : {A B : Type 0} → (A → B → Type 0) → List A → List B → Type 0
Paired r [] [] = Unit {0}
Paired r [] (y ∷ m) = ⊥
Paired r (x ∷ l) [] = ⊥
Paired r (x ∷ l) (y ∷ m) = r x y × Paired r l m

module _ {A B : Type 0} (r : A → B → Type 0) where
  length-Paired : (l : List A) (m : List B) → Paired r l m → length m ≡ length l
  length-Paired [] [] p = refl
  length-Paired [] (y ∷ m) p = absurd p
  length-Paired (x ∷ l) [] p = absurd p
  length-Paired (x ∷ l) (y ∷ m) p = ap suc (length-Paired l m p.1)

  append-Paired :
      (l : List A) (m : List B) (l' : List A) (m' : List B)
      → Paired r l m
      → Paired r l' m'
      → Paired r (l ++ l') (m ++ m')
  append-Paired [] [] l' m' p q = q
  append-Paired [] (y ∷ m) l' m' p q = absurd p
  append-Paired (x ∷ l) [] l' m' p q = absurd p
  append-Paired (x ∷ l) (y ∷ m) l' m' p q = (p.0, append-Paired l m l' m' p.1 q)

  take-Paired : (n : ℕ) (l : List A) (m : List B) → Paired r l m → Paired r (take n l) (take n m)
  take-Paired zero l m p = tt
  take-Paired (suc n) [] [] p = tt
  take-Paired (suc n) [] (y ∷ m) p = absurd p
  take-Paired (suc n) (x ∷ l) [] p = absurd p
  take-Paired (suc n) (x ∷ l) (y ∷ m) p = (p.0, take-Paired n l m p.1)

  drop-Paired : (n : ℕ) (l : List A) (m : List B) → Paired r l m → Paired r (drop n l) (drop n m)
  drop-Paired zero l m p = p
  drop-Paired (suc n) [] [] p = tt
  drop-Paired (suc n) [] (y ∷ m) p = absurd p
  drop-Paired (suc n) (x ∷ l) [] p = absurd p
  drop-Paired (suc n) (x ∷ l) (y ∷ m) p = drop-Paired n l m p.1

length-take : {A : Type 0} (n : ℕ) (l : List A) → n ≤ length l → length (take n l) ≡ n
length-take zero l h = refl
length-take (suc n) [] h = absurd (omega arith)
length-take (suc n) (x ∷ l) h = ap suc (length-take n l (omega arith))

pub length-append : {A : Type 0} (l m : List A) → length (l ++ m) ≡ length l + length m
length-append [] m = omega arith
length-append (x ∷ l) m = omega (arith, length-append l m)

take-drop : {A : Type 0} (n : ℕ) (l : List A) → take n l ++ drop n l ≡ l
take-drop zero l = refl
take-drop (suc n) [] = refl
take-drop (suc n) (x ∷ l) = ap (x ∷◌) (take-drop n l)

same_length : (m n : ℕ) → m ≡ n → (m == n) ≡ true
same_length m n e = ground arith

short-or-enough : (k n : ℕ) → ((k < n) × (ltb k n ≡ true)) ⊎ ((n ≤ k) × (ltb k n ≡ false))
short-or-enough k n = ground arith

module _ {G A B : Type 0} (generate : ℕ → G → (List A × List B) × G) (r : A → B → Type 0) where
  -- Every batch has the length that was asked for, and is correlated.
  abbrev pub Generates : Type 0
  Generates =
      (n : ℕ) (g : G)
      → Paired r (generate n g).0.0 (generate n g).0.1 × (length (generate n g).0.0 ≡ n)

  abbrev pub IsPool : Pool G A B → Type 0
  IsPool pool = Paired r pool.queue0 pool.queue1

  -- With a generator of correlated batches, reserving keeps the pool correlated and adds as many
  -- elements as were asked for.
  pub reserve-IsPool :
      (count : ℕ) (pool : Pool G A B)
      → Generates
      → IsPool pool
      → IsPool (reserve generate count pool)
        × (length (reserve generate count pool).queue0 ≡ length pool.queue0 + count)
  unfolding reserve add_to_queue
  reserve-IsPool count pool gen p =
      let (paired, long) = gen count pool.generator in
      (
        append-Paired r pool.queue0 pool.queue1 _ _ p paired,
        length-append pool.queue0 _ ∙ ap (λ t. length pool.queue0 + t) long,
      )

  -- With a generator of correlated batches, `get_next` on a correlated pool does not fail, returns
  -- a correlated batch of the length that was asked for, and leaves a correlated pool. If the pool
  -- has enough, the batch is its front and the pool keeps the rest; if not, the queues are left
  -- alone.
  pub get_next-IsPool :
      (count : ℕ) (pool : Pool G A B)
      → Generates
      → IsPool pool
      → (batch : List A × List B) × (pool' : Pool G A B) × (get_next generate count pool
          ≡ some (batch, pool'))
        × Paired r batch.0 batch.1
        × (length batch.0 ≡ count)
        × IsPool pool'
        × (count ≤ length pool.queue0 → batch.0 ++ pool'.queue0 ≡ pool.queue0)
        × (length pool.queue0 < count → pool'.queue0 ≡ pool.queue0)
  unfolding get_next
  get_next-IsPool count pool gen p =
      let (paired, long) = gen count pool.generator in
      let equal : (length pool.queue1 == length pool.queue0) ≡ true =
        same_length _ _ (length-Paired r pool.queue0 pool.queue1 p) in
      elim (short-or-enough (length pool.queue0) count) [
        | inl (short, test) ↦ (
          (generate count pool.generator).0,
          record {
            queue0 = pool.queue0;
            queue1 = pool.queue1;
            generator = (generate count pool.generator).1;
          },
          rw (equal, test, size) refl,
          paired,
          long,
          p,
          λ h. absurd (omega (arith, h, short)),
          λ h. refl,
        )
        | inr (enough, test) ↦ (
          (take count pool.queue0, take count pool.queue1),
          record {
            queue0 = drop count pool.queue0;
            queue1 = drop count pool.queue1;
            generator = pool.generator;
          },
          rw (equal, test, size) refl,
          take-Paired r count pool.queue0 pool.queue1 p,
          length-take count pool.queue0 enough,
          drop-Paired r count pool.queue0 pool.queue1 p,
          λ h. take-drop count pool.queue0,
          λ h. absurd (omega (arith, h, enough)),
        )
      ]
