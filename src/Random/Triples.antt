-- ===== src/Random/Triples.antt =====
-- Oblivious linear evaluation and Beaver triples
-- (include/core/random/correlation/dummy_ole.h and beaver_triple_generator.h). A vector is the
-- function of its index; its length is not kept, since every operation here is elementwise.
pub mod Laws
use crypt_dough.Base.{ℕ, zero, suc, ◌+◌, ◌==◌, if◌then◌else◌}
use crypt_dough.Lanes.{Lanes}
use crypt_dough.Random.Prg.{Counters, get_next}

-- What a party holds of an OLE: its multiplicative share and its additive share.
pub record Ole (A : Type 0) : Type 0 where
  pub multiplicative : A
  pub additive : A

-- One party's shares of a triple.
pub record Triple (A : Type 0) : Type 0 where
  pub a : A
  pub b : A
  pub c : A

-- `slice(first, ...)`.
abbrev pub slice : {A : Type 0} → ℕ → (ℕ → A) → ℕ → A
slice first x k = x (first + k)

module _ {I A : Type 0} (v : Lanes I A) where
  -- `DummyOLE::getCorrelated`.
  unfoldable pub get_correlated : A → A → A → A
  get_correlated added mul0 mul1 = v.sub (v.mul mul0 mul1) added

  -- `DummyOT::getCorrelated`, in lanes of bits.
  unfoldable pub get_correlated_ot : A → A → A → A
  get_correlated_ot xored and0 and1 = v.add (v.mul and0 and1) xored

  -- `DummyBase::getNext(n)` at a rank, with the overridden `getCorrelated` as a parameter; `link`
  -- names the PRG that both ranks share.
  unfoldable pub get_next_ole : (A → A → A → A) → (ℕ → ℕ → A) → ℕ → ℕ → Counters → Ole A × Counters
  unfolding get_next
  get_next_ole correlated stream link rank c =
      let (b, c_b) = get_next stream link c in
      let (m0, c_c) = get_next stream link c_b in
      let (m1, c_d) = get_next stream link c_c in
      let a = correlated b m0 m1 in
      (
        if rank == 0
            then record { multiplicative = m0; additive = a }
            else record { multiplicative = m1; additive = b },
        c_d,
      )

  -- `DummyBase::getNext(mul_share, add_share)`: party 0 keeps its additive share and sends both
  -- of its shares; party 1 computes its own. `sent` is what party 0 sent.
  unfoldable pub get_next_chosen : (A → A → A → A) → Ole A → ℕ → A → A → A
  get_next_chosen correlated sent rank mul_share add_share =
      if rank == 0 then add_share else correlated sent.additive sent.multiplicative mul_share

  -- `BeaverTripleGenerator::getNext(n)` from an OLE of length 2 * n.
  unfoldable pub get_next_triple : ℕ → ℕ → Ole (ℕ → A) → Triple (ℕ → A)
  get_next_triple n rank ole =
      let left_cd = slice 0 ole.multiplicative in
      let right_cd = slice n ole.multiplicative in
      let a = if rank == 0 then left_cd else right_cd in
      let b = if rank == 0 then right_cd else left_cd in
      record {
        a = a;
        b = b;
        c = λ k.
            v.add (v.add (v.mul (a k) (b k)) (slice 0 ole.additive k)) (slice n ole.additive k);
      }
