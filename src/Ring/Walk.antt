-- ===== src/Ring/Walk.antt =====
-- Messages in the slots from one position to another, around the end of the buffer.
use native.Mathlib.Nat.{mod-eq_of_lt, mod_self}
use crypt_dough.Base.{
  ℕ, suc, ◌+◌, ◌-◌, ◌%◌, ◌≡◌, ◌≢◌, ◌<◌, ◌∙◌, refl, sym, ap, arith, ◌==◌, leb, if◌then◌else◌, List,
  [], ◌∷◌, ◌++◌, inl, inr, ◌⊎◌, subst,
}
use crypt_dough.Ring.{RingEntry, Ring, copy_bytes}

-- A message of some bytes.
pub record Message : Type 0 where
  pub bytes : ℕ → ℕ
  pub byte_count : ℕ

abbrev pub length : List Message → ℕ
length [] = 0
length (m ∷ l) = suc (length l)

pub record Carries (entry : RingEntry) (m : Message) : Type 0 where
  pub counted : entry.used ≡ m.byte_count
  pub copied : (j : ℕ) → j < m.byte_count → entry.buffer j ≡ m.bytes j

abbrev pub after : ℕ → ℕ → ℕ
after n i = (i + 1) % n

-- From position `i` on, up to position `last`, the slots carry the messages in order.
abbrev pub Walk : ℕ → (ℕ → RingEntry) → ℕ → List Message → ℕ → Type 0
Walk n slots i [] last = i ≡ last
Walk n slots i (m ∷ l) last = Carries (slots i) m × Walk n slots (after n i) l last

pub record Represents (ring : Ring) (queue : List Message) : Type 0 where
  pub read-lt : ring.read_index < ring.ring_size
  pub write-lt : ring.write_index < ring.ring_size
  pub short : length queue < ring.ring_size
  pub walk : Walk ring.ring_size ring.ring_array ring.read_index queue ring.write_index

pub after-cases :
    (n i : ℕ) → i < n → ((suc i < n) × (after n i ≡ suc i)) ⊎ ((suc i ≡ n) × (after n i ≡ 0))
after-cases n i h = elim (last-or-not n i h) [
  | inl more ↦ inl (more, ap (λ t. t % n) {x = i + 1} (omega arith) ∙ mod-eq_of_lt more)
  | inr last ↦ inr (last, ap (λ t. t % n) {x = i + 1} (omega (arith, last)) ∙ mod_self n)
]
  where
    last-or-not : (n i : ℕ) → i < n → (suc i < n) ⊎ (suc i ≡ n)
    last-or-not n i h = ground arith

unfoldable pub distance : ℕ → ℕ → ℕ → ℕ
distance n i j = if leb i j then j - i else n + j - i

pub after-lt : (n i : ℕ) → i < n → after n i < n
after-lt n i h = ground (arith, after-cases n i h)

pub length-distance :
    (n : ℕ) (slots : ℕ → RingEntry) (i : ℕ) (l : List Message) (j : ℕ)
    → i < n
    → j < n
    → length l < n
    → Walk n slots i l j
    → length l ≡ distance n i j
unfolding distance
length-distance n slots i [] j a b c w = ground arith
length-distance n slots i (m ∷ l) j a b c w = ground (
  arith,
  after-cases n i a,
  length-distance n slots (after n i) l j (after-lt n i a) b (omega arith) w.1,
)

abbrev pub slots_with : (ℕ → RingEntry) → ℕ → RingEntry → ℕ → RingEntry
slots_with slots j entry i = if i == j then entry else slots i

pub other_slot :
    (slots : ℕ → RingEntry) (i j : ℕ) (entry : RingEntry)
    → i ≢ j
    → slots_with slots j entry i ≡ slots i
other_slot slots i j entry h = ground arith

pub same_slot :
    (slots : ℕ → RingEntry) (j : ℕ) (entry : RingEntry) → slots_with slots j entry j ≡ entry
same_slot slots j entry = ground arith

not_there : (n i j k : ℕ) → i ≡ j → suc k ≢ distance n i j
unfolding distance
not_there n i j k e = ground arith

pub full_iff :
    (n i j k next : ℕ)
    → i < n
    → j < n
    → k ≡ distance n i j
    → ((suc j < n) × (next ≡ suc j)) ⊎ ((suc j ≡ n) × (next ≡ 0))
    → (next == i) ≡ (suc k == n)
unfolding distance
full_iff n i j k next a b e c = ground arith

pub empty_iff : (n i j k : ℕ) → i < n → j < n → k ≡ distance n i j → (j == i) ≡ (k == 0)
unfolding distance
empty_iff n i j k a b e = ground arith

pub push-Walk :
    (n : ℕ) (slots : ℕ → RingEntry) (entry : RingEntry) (m : Message)
    → Carries entry m
    → (i : ℕ) (l : List Message) (j : ℕ) → i < n
    → j < n
    → suc (length l) < n
    → Walk n slots i l j
    → Walk n (slots_with slots j entry) i (l ++ (m ∷ [])) (after n j)
push-Walk n slots entry m carried i [] j a b c w = (
  subst (λ k. Carries (slots_with slots j entry k) m) (sym w)
      (subst (λ t. Carries t m) (sym (same_slot slots j entry)) carried),
  ap (after n) w,
)
push-Walk n slots entry m carried i (x ∷ l) j a b c w =
    let apart : i ≢ j =
      λ e. not_there n i j (length l) e (length-distance n slots i (x ∷ l) j a b (omega arith) w) in
    (
      subst (λ t. Carries t x) (sym (other_slot slots i j entry apart)) w.0,
      push-Walk n slots entry m carried (after n i) l j (after-lt n i a) b (omega arith) w.1,
    )

pub length-append : (l : List Message) (m : Message) → length (l ++ (m ∷ [])) ≡ suc (length l)
length-append [] m = refl
length-append (x ∷ l) m = ap suc (length-append l m)

pub copied_byte :
    (source : ℕ → ℕ) (j n : ℕ) (target : ℕ → ℕ) → j < n → copy_bytes source n target j ≡ source j
copied_byte source j n target h = ground arith
