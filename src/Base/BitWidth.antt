-- ===== src/Base/BitWidth.antt =====
-- `std::bit_width`: how many halvings take a number to zero.
use Prim.Native.Nat.{ℕ, zero, suc, ◌-◌, ◌/◌, ◌^◌, ◌≤◌, ◌<◌}
use native.Mathlib.Nat.{pow-suc}
use native.Mathlib.Omega.{arith}
use mathlib.Core.Path.{◌≡◌, refl, ap}
use mathlib.Core.Bool.{true, false}
use crypt_dough.Base.Powers.{pow_pos}
use crypt_dough.Base.Tests.{◌==◌, if◌then◌else◌}

pub halvings : ℕ → ℕ → ℕ
halvings zero n = 0
halvings (suc fuel) n = let rest = suc (halvings fuel (n / 2)) in if n == 0 then 0 else rest

-- A number has at most as many bits as it counts, so it serves as its own fuel.
unfoldable pub bit_width : ℕ → ℕ
unfolding halvings
bit_width n = halvings n n

lt-pow-halvings : (fuel n : ℕ) → n ≤ fuel → n < 2 ^ halvings fuel n
unfolding halvings
lt-pow-halvings zero n h = omega arith
lt-pow-halvings (suc fuel) n h =
    ground (arith, lt-pow-halvings fuel (n / 2), pow-suc 2 (halvings fuel (n / 2)))

-- A number lies below the power of its bit width.
pub lt-pow-bit_width : (n : ℕ) → n < 2 ^ bit_width n
unfolding bit_width
lt-pow-bit_width n = lt-pow-halvings n n (omega arith)

halvings-pow : (h fuel : ℕ) → 2 ^ h - 1 ≤ fuel → halvings fuel (2 ^ h - 1) ≡ h
unfolding halvings
halvings-pow zero zero e = refl
halvings-pow zero (suc fuel) e = refl
halvings-pow (suc h) zero e = absurd (omega (arith, e, pow-suc 2 h, pow_pos h))
halvings-pow (suc h) (suc fuel) e =
    let half : (2 ^ suc h - 1) / 2 ≡ 2 ^ h - 1 = omega (arith, pow-suc 2 h, pow_pos h) in
    let some : (2 ^ suc h - 1 == 0) ≡ false = ground (arith, pow-suc 2 h, pow_pos h) in
    rw (some, half) (ap suc (halvings-pow h fuel (omega (arith, e, pow-suc 2 h, pow_pos h))))

-- The largest number of `h` bits.
pub bit_width-pow : (h : ℕ) → bit_width (2 ^ h - 1) ≡ h
unfolding bit_width
bit_width-pow h = halvings-pow h (2 ^ h - 1) (omega arith)

halvings-power : (h fuel : ℕ) → 2 ^ h ≤ fuel → halvings fuel (2 ^ h) ≡ suc h
unfolding halvings
halvings-power h zero e = absurd (omega (arith, e, pow_pos h))
halvings-power zero (suc zero) e = refl
halvings-power zero (suc (suc fuel)) e = refl
halvings-power (suc h) (suc fuel) e =
    let half : 2 ^ suc h / 2 ≡ 2 ^ h = omega (arith, pow-suc 2 h) in
    let some : (2 ^ suc h == 0) ≡ false = ground (arith, pow-suc 2 h, pow_pos h) in
    rw (some, half) (ap suc (halvings-power h fuel (omega (arith, e, pow-suc 2 h, pow_pos h))))

-- A power of two has one bit more than its exponent.
pub bit_width-power : (h : ℕ) → bit_width (2 ^ h) ≡ suc h
unfolding bit_width
bit_width-power h = halvings-power h (2 ^ h) (omega arith)

halvings-below : (fuel k n : ℕ) → n < 2 ^ k → halvings fuel n ≤ k
unfolding halvings
halvings-below zero k n h = omega arith
halvings-below (suc fuel) zero n h =
    let none : (n == 0) ≡ true = ground (arith, h) in rw none (omega arith)
halvings-below (suc fuel) (suc k) n h =
    ground (arith, halvings-below fuel k (n / 2) (omega (arith, h, pow-suc 2 k)))

-- A number below a power of two has at most as many bits as its exponent.
pub bit_width-below : (k n : ℕ) → n < 2 ^ k → bit_width n ≤ k
unfolding bit_width
bit_width-below k n h = halvings-below n k n h
