-- ===== src/Replicated/Multiply.antt =====
-- The operations on replicated shares that take a round: multiplication, AND, truncation and the
-- conversion of a bit. `rz` holds what the zero sharing generator wrote at each rank.
use crypt_dough.Base.{ℕ, zero, suc, ◌==◌, if◌then◌else◌, Option, some}
use crypt_dough.Comm.{exchange_shares, all_three, handle_precision, ◌>>=◌}
use crypt_dough.Lanes.{Lanes}
use crypt_dough.Replicated.Shares.{EVector}

module _ {I A : Type 0} (v : Lanes I A) where
  -- The products that a rank can form of its own shares, masked.
  unfoldable pub local_product : A → EVector A → EVector A → A
  local_product local x y =
      v.add (v.add (v.add local (v.mul x.v0 y.v0)) (v.mul x.v0 y.v1)) (v.mul x.v1 y.v0)

  -- The round of a multiplication: rank `p` ends with its own product and its successor's.
  unfoldable pub product_round :
      (ℕ → A) → (ℕ → EVector A) → (ℕ → EVector A) → Option (ℕ → EVector A)
  unfolding local_product
  product_round local x y = all_three (λ me. do
    remote ← exchange_shares 3 2 1 (λ p. local_product (local p) (x p) (y p)) me
    precision ← handle_precision (x me).precision (y me).precision
    some (record {
      v0 = local_product (local me) (x me) (y me);
      v1 = remote;
      precision = precision;
    }))

  -- `and_b`, with `add` for ^ and `mul` for &.
  unfoldable pub and_b : (ℕ → A) → (ℕ → EVector A) → (ℕ → EVector A) → Option (ℕ → EVector A)
  unfolding product_round
  and_b rz x y = product_round rz x y

  -- `truncate` (ABY3). `shift` is `bit_arithmetic_right_shift`, and `r` the value that ranks 1
  -- and 2 draw from their common PRG.
  module _ (shift : A → ℕ → A) (r : A) where
    -- What rank 1 computes and sends to rank 0.
    abbrev pub truncated_share : EVector A → A
    truncated_share x = v.sub (shift (v.add x.v0 x.v1) x.precision) r

    unfoldable pub truncate_at : ℕ → (ℕ → EVector A) → Option (EVector A)
    truncate_at zero x = do
      received ← exchange_shares 3 2 1 (λ p. truncated_share (x p)) 0
      some (record {
        v0 = shift (x 0).v0 (x 0).precision;
        v1 = received;
        precision = (x 0).precision;
      })
    truncate_at (suc zero) x =
        some (record { v0 = truncated_share (x 1); v1 = r; precision = (x 1).precision })
    truncate_at (suc (suc me)) x =
        some (record { v0 = r; v1 = shift (x 2).v1 (x 2).precision; precision = (x 2).precision })

    unfoldable pub truncate : (ℕ → EVector A) → ℕ → Option (EVector A)
    unfolding truncate_at
    truncate x me = if (x me).precision == 0 then some (x me) else truncate_at me x

    unfoldable pub multiply_a : (ℕ → A) → (ℕ → EVector A) → (ℕ → EVector A) → Option (ℕ → EVector A)
    unfolding product_round truncate
    multiply_a rz x y = do z ← product_round rz x y; all_three (truncate z)
