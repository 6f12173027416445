-- ===== src/FourParty/ProductLaws.antt =====
-- About `generic_multiply` of include/core/protocols/dalskov_4pc.h.
use crypt_dough.Base.{
  ℕ, suc, ◌%◌, ◌≡◌, ◌≢◌, ◌<◌, ◌∙◌, refl, ap, ap₂, arith, mods, List, [], ◌∷◌, Option, some,
}
use crypt_dough.Comm.{handle_precision, four}
use crypt_dough.Lanes.{Lanes}
use crypt_dough.Lanes.Laws.{add-InRange}
use crypt_dough.Random.Prg.{Counters}
use crypt_dough.Replicated.MultiplyLaws.{handled}
use crypt_dough.FourParty.Ranks.{next_party, excluded_party, abs2sh}
use crypt_dough.FourParty.RankLaws.{abs2sh-rel2abs, abs2sh-below}
use crypt_dough.FourParty.Shares.{EVector, IsShared, Held, Encoding}
use crypt_dough.FourParty.ShareLaws.{total, Suits, each_rank}
use crypt_dough.FourParty.Jmp.{pairs}
use crypt_dough.FourParty.Inp.{Party, inp}
use crypt_dough.FourParty.InpLaws.{IsSynced, four-IsRanks, inp-shared}
use crypt_dough.FourParty.Multiply.{State, cross_terms, multiply_loop, generic_multiply}

pub Held-add :
    {I A : Type 0} (v : Lanes I A) {f g : ℕ → ℕ → A} (s t : ℕ → A)
    → Held f s
    → Held g t
    → Held (λ me k. v.add (f me k) (g me k)) (λ k. v.add (s k) (t k))
Held-add v s t hf hg me k hm hk = ap₂ v.add (hf me k hm hk) (hg me k hm hk)

pub total_add :
    {I A : Type 0} (v : Lanes I A) (s t : ℕ → A)
    → total v (λ k. v.add (s k) (t k)) ≡ v.add (total v s) (total v t)
total_add v s t = v.at_ext _ _ λ i. simp (v.at-add, mods) (ap (λ t. t % suc v.top) (omega arith))

-- The pairs of different ranks.
pub data ArePairs : List (ℕ × ℕ) → Type 0 where
  done : ArePairs []
  pair :
      {i j : ℕ} {rest : List (ℕ × ℕ)}
      → i < 4
      → j < 4
      → i ≢ j
      → ArePairs rest
      → ArePairs ((i, j) ∷ rest)

-- What the products have in common: the elementwise one, dot products, matrix products.
pub record IsBilinear {I J A B : Type 0} (u : Lanes I A) (v : Lanes J B) (times : A → A → B)
    : Type 0 where
  pub left : (a b c : A) → times (u.add a b) c ≡ v.add (times a c) (times b c)
  pub right : (a b c : A) → times a (u.add b c) ≡ v.add (times a b) (times a c)

pub mul-IsBilinear : {I A : Type 0} (v : Lanes I A) → IsBilinear v v v.mul
mul-IsBilinear v = record {
  left = λ a b c.
      v.at_ext _ _ λ i. simp (v.at-add, v.at-mul, mods) (ap (λ t. t % suc v.top) (omega arith));
  right = λ a b c.
      v.at_ext _ _ λ i. simp (v.at-add, v.at-mul, mods) (ap (λ t. t % suc v.top) (omega arith));
}

pairs-ArePairs : ArePairs pairs
pairs-ArePairs =
    pair (omega arith) (omega arith) (λ e. omega (arith, e))
      (pair (omega arith) (omega arith) (λ e. omega (arith, e))
        (pair (omega arith) (omega arith) (λ e. omega (arith, e))
          (pair (omega arith) (omega arith) (λ e. omega (arith, e))
            (pair (omega arith) (omega arith) (λ e. omega (arith, e))
              (pair (omega arith) (omega arith) (λ e. omega (arith, e)) done)))))

-- The outcome of an operation of four ranks: it does not fail, the result is consistent shares of
-- the value, and the ranks stay in step.
pub record Succeeds {J B H : Type 0} (v : Lanes J B) (d : ℕ) (value : B)
    (outcome : Option (State B H)) : Type 0 where
  pub result : ℕ → EVector B
  pub after : ℕ → Party H
  pub runs : outcome ≡ some (result, after)
  pub shares : ℕ → B
  pub shared : IsShared d result shares
  pub sums : total v shares ≡ value
  pub counts : Counters
  pub synced : IsSynced counts after

module _ {J A B H : Type 0} (v : Lanes J B) (e : Encoding) (suits : Suits v e) (update : H → B → H)
    (stream : ℕ → ℕ → B) (times : A → A → B) (x y : ℕ → EVector A) (sx sy : ℕ → A) {d : ℕ}
    (shared_x : IsShared d x sx) (shared_y : IsShared d y sy) where
  -- What is shared for one pair.
  abbrev pub cross : ℕ → ℕ → B
  cross i j =
      let g = next_party i j in
      let h = excluded_party i j g in v.add (times (sx h) (sy g)) (times (sx g) (sy h))

  -- A share by the rank that lacks it.
  share-at :
      {x : ℕ → EVector A} {s : ℕ → A}
      → IsShared d x s
      → (me p : ℕ) → me < 4
      → p < 4
      → me ≢ p
      → (x me).share (abs2sh me p) ≡ s p
  share-at {x} {s} shared me p hm hp ne =
      shared.held me (abs2sh me p) hm (abs2sh-below me p hm hp ne)
      ∙ ap s (abs2sh-rel2abs me p hm hp ne)

  cross_terms-value :
      (g h : ℕ) (r : ℕ → ℕ → B) (me : ℕ)
      → me < 4
      → g < 4
      → h < 4
      → me ≢ g
      → me ≢ h
      → cross_terms v e update stream times x y g h r me
        ≡ v.add (times (sx h) (sy g)) (times (sx g) (sy h))
  unfolding cross_terms
  cross_terms-value g h r me hm hg hh mg mh = ground (
    arith,
    share-at shared_x me g hm hg mg,
    share-at shared_x me h hm hh mh,
    share-at shared_y me g hm hg mg,
    share-at shared_y me h hm hh mh,
  )

  abbrev pub sum_cross : List (ℕ × ℕ) → B → B
  sum_cross [] sum = sum
  sum_cross ((i, j) ∷ rest) sum = sum_cross rest (v.add sum (cross i j))

  -- The loop adds shares of the cross terms of every pair, and the ranks stay in step.
  loop-total :
      (list : List (ℕ × ℕ))
      → ArePairs list
      → (r : ℕ → ℕ → B) (s : ℕ → B) → Held r s
      → (n : Counters) (parties : ℕ → Party H) → IsSynced n parties
      → (t : ℕ → B) × Held (multiply_loop v e update stream times x y list r parties).0 t
        × (total v t ≡ sum_cross list (total v s))
        × (m : Counters) × IsSynced m (multiply_loop v e update stream times x y list r parties).1
  unfolding multiply_loop inp
  loop-total [] valid r s held n parties synced = (s, held, refl, n, synced)
  loop-total ((i, j) ∷ rest) (pair hi hj ij valid) r s held n parties synced =
      let g = next_party i j in
      let h = excluded_party i j g in
      let ranks = four-IsRanks i j hi hj ij in
      let value = cross_terms v e update stream times x y g h r in
      let xi = cross_terms-value g h r i hi ranks.g_lt ranks.h_lt ranks.i_g ranks.i_h in
      let xj = cross_terms-value g h r j hj ranks.g_lt ranks.h_lt ranks.j_g ranks.j_h in
      let (made, made_held, made_total, after) =
        inp-shared v e update stream suits value (cross i j) (add-InRange v _ _) i j hi hj ij xi xj
          synced in
      let (t, t_held, t_total, m, last) =
        loop-total rest valid _ (λ k. v.add (s k) (made k)) (Held-add v s made held made_held) _ _
          after in
      (
        t,
        t_held,
        t_total ∙ ap (sum_cross rest) (total_add v s made ∙ ap (v.add (total v s)) made_total),
        m,
        last,
      )

  module _ {I : Type 0} (u : Lanes I A) (bilinear : IsBilinear u v times) where
    -- The cross terms of all pairs and the products of equal shares are all sixteen products.
    sixteen :
        v.add (sum_cross pairs (total v (λ k. v.zeros))) (total v (λ k. times (sx k) (sy k)))
        ≡ times (total u sx) (total u sy)
    unfolding next_party excluded_party
    sixteen =
        simp (bilinear.left, bilinear.right)
          (v.at_ext _ _
            λ i. simp (v.at-add, v.at-zeros, mods) (ap (λ t. t % suc v.top) (omega arith)))

    pub generic_multiply-total :
        (n : Counters) (parties : ℕ → Party H)
        → IsSynced n parties
        → Succeeds v d
            (times (total u sx) (total u sy))
            (generic_multiply v e update stream times x y parties)
    unfolding generic_multiply
    generic_multiply-total n parties synced =
        let same : (me : ℕ) → me < 4 → handle_precision (x me).precision (y me).precision ≡ some d =
          λ me h. handled _ _ d (shared_x.precisions me h) (shared_y.precisions me h) in
        let (t, t_held, t_total, m, last) =
          loop-total pairs pairs-ArePairs (λ me k. v.zeros) (λ k. v.zeros) (λ me k hm hk. refl) n
            parties synced in
        record {
          result = λ me. record {
            share = λ k.
                v.add
                  ((multiply_loop v e update stream times x y pairs (λ me k. v.zeros) parties).0 me
                    k)
                  (times ((x me).share k) ((y me).share k));
            precision = four d d d d me;
          };
          after = (multiply_loop v e update stream times x y pairs (λ me k. v.zeros) parties).1;
          runs =
              rw
                (
                  same 0 (omega arith),
                  same 1 (omega arith),
                  same 2 (omega arith),
                  same 3 (omega arith),
                )
                refl;
          shares = λ k. v.add (t k) (times (sx k) (sy k));
          shared = record {
            held =
                Held-add v t (λ k. times (sx k) (sy k)) t_held
                  (λ me k hm hk. ap₂ times (shared_x.held me k hm hk) (shared_y.held me k hm hk));
            precisions = each_rank (λ me. four d d d d me ≡ d) refl refl refl refl;
          };
          sums =
              total_add v t (λ k. times (sx k) (sy k))
              ∙ ap (λ q. v.add q (total v (λ k. times (sx k) (sy k)))) t_total
              ∙ sixteen;
          counts = m;
          synced = last;
        }
