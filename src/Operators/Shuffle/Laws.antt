-- ===== src/Operators/Shuffle/Laws.antt =====
-- About applying, composing and inverting permutations.
use crypt_dough.Base.{
  ℕ, zero, suc, ◌+◌, ◌≡◌, ◌<◌, ◌∙◌, refl, sym, ap, arith, ltb, ◌==◌, if◌then◌else◌,
}
use crypt_dough.Random.Permutation.Laws.{IsPermutation}
use crypt_dough.Operators.Shuffle.{
  perm_func, copy_func, local_apply_perm, local_apply_inverse_perm,
  oblivious_apply_elementwise_perm, compose_permutations, invert,
}

pub entry-injective :
    {size : ℕ} {p : ℕ → ℕ} (perm : IsPermutation size p) (i j : ℕ)
    → i < size
    → j < size
    → p i ≡ p j
    → i ≡ j
entry-injective perm i j hi hj e =
    sym (perm.inverse-entry i hi) ∙ ap perm.inverse e ∙ perm.inverse-entry j hj

abbrev pub identity-IsPermutation : (size : ℕ) → IsPermutation size (λ k. k)
identity-IsPermutation size = record {
  inverse = λ k. k;
  entry-lt = λ k h. h;
  inverse-lt = λ k h. h;
  inverse-entry = λ k h. refl;
  entry-inverse = λ k h. refl;
}

module _ {A : Type 0} {size : ℕ} {p : ℕ → ℕ} (perm : IsPermutation size p) (x : ℕ → A) where
  -- Entry `p j` holds `x j` once the loop has passed `j`.
  perm_func-entry :
      (left i : ℕ) (new_x : ℕ → A)
      → i + left ≡ size
      → (j : ℕ) → j < size
      → perm_func p x left i new_x (p j) ≡ (if ltb j i then new_x (p j) else x j)
  unfolding perm_func
  perm_func-entry zero i new_x e j h = ground (arith)
  perm_func-entry (suc left) i new_x e j h = ground (
    arith,
    perm_func-entry left (suc i) (λ k. if k == p i then x i else new_x k) (omega arith) j h,
    entry-injective perm i j,
  )

  pub local_apply_perm-entry :
      (new_x : ℕ → A) (j : ℕ) → j < size → local_apply_perm size new_x p x (p j) ≡ x j
  unfolding local_apply_perm copy_func
  local_apply_perm-entry new_x j h =
      ground (arith, perm_func-entry size 0 new_x (omega arith) j h, perm.entry-lt j h)

  -- The entry at `k` is the one that the permutation moves to `k`.
  pub local_apply_perm-at :
      (new_x : ℕ → A) (k : ℕ) → k < size → local_apply_perm size new_x p x k ≡ x (perm.inverse k)
  local_apply_perm-at new_x k h =
      ap (local_apply_perm size new_x p x) (sym (perm.entry-inverse k h))
      ∙ local_apply_perm-entry new_x (perm.inverse k) (perm.inverse-lt k h)

-- A permutation moved by another one is a permutation.
pub moved-IsPermutation :
    {size : ℕ} {p q : ℕ → ℕ} (new_x : ℕ → ℕ)
    → IsPermutation size p
    → IsPermutation size q
    → IsPermutation size (local_apply_perm size new_x p q)
moved-IsPermutation {size} {p} {q} new_x perm other = record {
  inverse = λ k. p (other.inverse k);
  entry-lt = λ k h.
      let at = local_apply_perm-at perm q new_x k h in
      omega (arith, at, other.entry-lt (perm.inverse k) (perm.inverse-lt k h));
  inverse-lt = λ k h. perm.entry-lt (other.inverse k) (other.inverse-lt k h);
  inverse-entry = λ k h.
      ap (λ t. p (other.inverse t)) (local_apply_perm-at perm q new_x k h)
      ∙ ap p (other.inverse-entry (perm.inverse k) (perm.inverse-lt k h))
      ∙ perm.entry-inverse k h;
  entry-inverse = λ k h.
      local_apply_perm-entry perm q new_x (other.inverse k) (other.inverse-lt k h)
      ∙ other.entry-inverse k h;
}

pub composed-IsPermutation :
    {size : ℕ} {p q : ℕ → ℕ}
    → IsPermutation size p
    → IsPermutation size q
    → IsPermutation size (λ k. q (p k))
composed-IsPermutation {size} {p} {q} perm other = record {
  inverse = λ k. perm.inverse (other.inverse k);
  entry-lt = λ k h. other.entry-lt _ (perm.entry-lt k h);
  inverse-lt = λ k h. perm.inverse-lt _ (other.inverse-lt k h);
  inverse-entry =
      λ k h. ap perm.inverse (other.inverse-entry _ (perm.entry-lt k h)) ∙ perm.inverse-entry k h;
  entry-inverse =
      λ k h. ap q (perm.entry-inverse _ (other.inverse-lt k h)) ∙ other.entry-inverse k h;
}

-- Whatever random permutation masks it, an elementwise permutation moves every entry to the place
-- that it names.
pub elementwise_perm-entry :
    {A : Type 0} {size : ℕ} (buffer : ℕ → A) (int_buffer : ℕ → ℕ) {pi perm : ℕ → ℕ} (x : ℕ → A)
    → IsPermutation size pi
    → IsPermutation size perm
    → (k : ℕ) → k < size
    → oblivious_apply_elementwise_perm size buffer int_buffer pi x perm (perm k) ≡ x k
unfolding oblivious_apply_elementwise_perm
elementwise_perm-entry {size} buffer int_buffer {pi} {perm} x mask elementwise k h =
    let pi_x : ℕ → _ = local_apply_perm size buffer pi x in
    let moved = moved-IsPermutation int_buffer mask elementwise in
    ap (local_apply_perm size buffer (local_apply_perm size int_buffer pi perm) pi_x)
      (sym (local_apply_perm-entry mask perm int_buffer k h))
    ∙ local_apply_perm-entry moved pi_x buffer (pi k) (mask.entry-lt k h)
    ∙ local_apply_perm-entry mask x buffer k h

module _ {size : ℕ} (int_buffer : ℕ → ℕ) {pi : ℕ → ℕ} (mask : IsPermutation size pi) where
  -- The composition names the place that `rho` gives to the place that `sigma` names.
  pub compose_permutations-entry :
      {sigma : ℕ → ℕ} (rho : ℕ → ℕ)
      → IsPermutation size sigma
      → (k : ℕ) → k < size
      → compose_permutations size int_buffer pi sigma rho k ≡ rho (sigma k)
  unfolding compose_permutations local_apply_inverse_perm copy_func
  compose_permutations-entry {sigma} rho first k h =
      ground (arith, mask.entry-lt k h, local_apply_perm-entry mask sigma int_buffer k h)

  -- Inverting gives the place from which an entry was moved.
  pub invert-entry :
      {perm : ℕ → ℕ}
      → IsPermutation size perm
      → (k : ℕ) → k < size
      → invert size int_buffer pi perm (perm k) ≡ k
  unfolding invert
  invert-entry elementwise k h =
      elementwise_perm-entry int_buffer int_buffer (λ i. i) mask elementwise k h

pub inverse-IsPermutation :
    {size : ℕ} {p : ℕ → ℕ} (perm : IsPermutation size p) → IsPermutation size perm.inverse
inverse-IsPermutation {size} {p} perm = record {
  inverse = p;
  entry-lt = perm.inverse-lt;
  inverse-lt = perm.entry-lt;
  inverse-entry = perm.entry-inverse;
  entry-inverse = perm.inverse-entry;
}

-- Being a permutation depends on the entries below the size.
pub IsPermutation_ext :
    {size : ℕ} (p q : ℕ → ℕ)
    → ((k : ℕ) → k < size → p k ≡ q k)
    → IsPermutation size p
    → IsPermutation size q
IsPermutation_ext p q same perm = record {
  inverse = perm.inverse;
  entry-lt = λ k h. omega (arith, same k h, perm.entry-lt k h);
  inverse-lt = perm.inverse-lt;
  inverse-entry = λ k h. ap perm.inverse (sym (same k h)) ∙ perm.inverse-entry k h;
  entry-inverse = λ k h. sym (same (perm.inverse k) (perm.inverse-lt k h)) ∙ perm.entry-inverse k h;
}

module _ {A : Type 0} {size : ℕ} (buffer : ℕ → A) (int_buffer : ℕ → ℕ) {pi_1 pi_2 pi_3 : ℕ → ℕ}
    (mask_1 : IsPermutation size pi_1) (mask_2 : IsPermutation size pi_2)
    (mask_3 : IsPermutation size pi_3) {sigma rho : ℕ → ℕ} (first : IsPermutation size sigma)
    (then_rho : IsPermutation size rho) (x : ℕ → A) where
  composition-IsPermutation :
      IsPermutation size (compose_permutations size int_buffer pi_3 sigma rho)
  composition-IsPermutation =
      IsPermutation_ext (λ k. rho (sigma k)) _
        (λ k h. sym (compose_permutations-entry int_buffer mask_3 rho first k h))
        (composed-IsPermutation first then_rho)

  -- Applying one permutation after another, each under its own random mask, moves the entries as
  -- the composition of the two does, whatever masks are drawn for that.
  pub apply-compose_permutations :
      (k : ℕ)
      → k < size
      → oblivious_apply_elementwise_perm size buffer int_buffer pi_2
          (oblivious_apply_elementwise_perm size buffer int_buffer pi_1 x sigma)
          rho
          k
        ≡ oblivious_apply_elementwise_perm size buffer int_buffer pi_1 x
            (compose_permutations size int_buffer pi_3 sigma rho)
            k
  apply-compose_permutations k h =
      let j = then_rho.inverse k in
      let i = first.inverse j in
      let j_lt = then_rho.inverse-lt k h in
      let i_lt = first.inverse-lt j j_lt in
      let composition = compose_permutations size int_buffer pi_3 sigma rho in
      let once = oblivious_apply_elementwise_perm size buffer int_buffer pi_1 x sigma in
      let to_k : rho j ≡ k = then_rho.entry-inverse k h in
      let to_j : sigma i ≡ j = first.entry-inverse j j_lt in
      let whole : composition i ≡ k =
        compose_permutations-entry int_buffer mask_3 rho first i i_lt ∙ ap rho to_j ∙ to_k in
      ap (oblivious_apply_elementwise_perm size buffer int_buffer pi_2 once rho) (sym to_k)
      ∙ elementwise_perm-entry buffer int_buffer once mask_2 then_rho j j_lt
      ∙ ap once (sym to_j)
      ∙ elementwise_perm-entry buffer int_buffer x mask_1 first i i_lt
      ∙ sym (elementwise_perm-entry buffer int_buffer x mask_1 composition-IsPermutation i i_lt)
      ∙ ap (oblivious_apply_elementwise_perm size buffer int_buffer pi_1 x composition) whole

  invert-IsPermutation : IsPermutation size (invert size int_buffer pi_3 sigma)
  invert-IsPermutation =
      IsPermutation_ext first.inverse _
        (λ k h.
          sym (invert-entry int_buffer mask_3 first (first.inverse k) (first.inverse-lt k h))
          ∙ ap (invert size int_buffer pi_3 sigma) (first.entry-inverse k h))
        (inverse-IsPermutation first)

  -- Applying a permutation and then its inversion puts every entry back, whatever masks are drawn.
  pub apply-invert :
      (k : ℕ)
      → k < size
      → oblivious_apply_elementwise_perm size buffer int_buffer pi_2
          (oblivious_apply_elementwise_perm size buffer int_buffer pi_1 x sigma)
          (invert size int_buffer pi_3 sigma)
          k
        ≡ x k
  apply-invert k h =
      let once = oblivious_apply_elementwise_perm size buffer int_buffer pi_1 x sigma in
      let inverted = invert size int_buffer pi_3 sigma in
      ap (oblivious_apply_elementwise_perm size buffer int_buffer pi_2 once inverted)
        (sym (invert-entry int_buffer mask_3 first k h))
      ∙ elementwise_perm-entry buffer int_buffer once mask_2 invert-IsPermutation (sigma k)
          (first.entry-lt k h)
      ∙ elementwise_perm-entry buffer int_buffer x mask_1 first k h
