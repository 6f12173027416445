-- ===== src/Base/Modular.antt =====
-- Equations between remainders: the inner remainders are dropped, and what is left is an equation
-- between polynomials up to multiples of the modulus.
use Prim.Native.Nat.{ℕ, zero, suc, ◌+◌, ◌*◌, ◌/◌, ◌%◌, ◌<◌}
use mathlib.Core.Path.{◌≡◌, sym, ap, ◌∙◌}
use native.Mathlib.Nat.{
  div-add-mod, add-mul-mod_self_left, mul_comm, mod-add-mod, add-mod-mod, mod-mod,
}
use native.Mathlib.Omega.{arith}

pub mod_eq_by : (m c d p q : ℕ) → p + m * c ≡ q + m * d → p % m ≡ q % m
mod_eq_by m c d p q e =
    sym (add-mul-mod_self_left p m c) ∙ ap (λ t. t % m) e ∙ add-mul-mod_self_left q m d

pub mod-mul-mod : (a b m : ℕ) → (a % m * b) % m ≡ (a * b) % m
mod-mul-mod a b m =
    mod_eq_by m (a / m * b) 0 (a % m * b) (a * b)
      (omega (arith, ap (λ (t : ℕ). t * b) (div-add-mod a m)))

pub mul-mod-mod : (a b m : ℕ) → (a * (b % m)) % m ≡ (a * b) % m
mul-mod-mod a b m =
    mod_eq_by m (a * (b / m)) 0 (a * (b % m)) (a * b)
      (omega (arith, ap (λ (t : ℕ). a * t) (div-add-mod b m)))

pub ruleset mods = (mod-add-mod, add-mod-mod, mod-mul-mod, mul-mod-mod, mod-mod)

-- The square of a difference of two bits is their exclusive or.
pub square_of_bits :
    (t s u : ℕ) → s < 2 → u < 2 → ((s + t * u) * (s + t * u)) % suc t ≡ ((s + u) % 2) % suc t
square_of_bits t zero zero h k = ap (λ p. p % suc t) (omega arith)
square_of_bits t (suc zero) zero h k = ap (λ p. p % suc t) (omega arith)
square_of_bits t zero (suc zero) h k = mod_eq_by (suc t) 2 (suc t) _ 1 (omega arith)
square_of_bits t (suc zero) (suc zero) h k = mod_eq_by (suc t) 0 (suc t) _ 0 (omega arith)
square_of_bits t (suc (suc s)) u h k = absurd (omega arith)
square_of_bits t s (suc (suc u)) h k = absurd (omega arith)
