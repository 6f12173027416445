-- ===== src/Tests/VectorTests.antt =====
-- Runs on vectors of bytes.
use crypt_dough.Base.{ℕ, ◌+◌, ◌*◌, ◌%◌, ◌≡◌, refl, some}
use crypt_dough.Lanes.Word.{word}
use crypt_dough.Lanes.Vector.{vector}
use crypt_dough.Random.ZeroSharing.{get_next_arithmetic}
use crypt_dough.Beaver.Shares as B
use crypt_dough.Beaver.Multiply as M
use crypt_dough.Beaver.Generated.{generated, multiply_a-generated}
use crypt_dough.Replicated.Shares.{EVector, IsShared, replicated, reconstruct_from_a}
use crypt_dough.Replicated.ShareLaws.{replicated-IsShared}
use crypt_dough.Replicated.DotProduct.{dot_product, dot_product_a}
use crypt_dough.Replicated.DotProductLaws.{dot_product_a-reconstruct}
use crypt_dough.Tests.{counters, counters-IsSynced}

abbrev vectors : ℕ → ℕ → (ℕ → ℕ)
vectors link k j = (link * 70 + k * 51 + j * 13) % 256

abbrev no_shift : (ℕ → ℕ) → ℕ → (ℕ → ℕ)
no_shift f d = f

abbrev x : ℕ → B.EVector (ℕ → ℕ)
x = B.shared 0 (λ j. j + 100) (λ j. j * 3 % 256)

abbrev y : ℕ → B.EVector (ℕ → ℕ)
y = B.shared 0 (λ j. j + 7) (λ j. 200)

multiply_a-generated_example :
    (z : ℕ → B.EVector (ℕ → ℕ)) × (M.multiply_a
        (vector ℕ (word 8))
        (generated (word 8) vectors 5 2 counters)
        x
        y
        no_shift
      ≡ some z)
    × B.IsShared 0 z
    × (B.reconstruct_from_a (vector ℕ (word 8)) z
        ≡ (vector ℕ (word 8)).mul
            (B.reconstruct_from_a (vector ℕ (word 8)) x)
            (B.reconstruct_from_a (vector ℕ (word 8)) y))
multiply_a-generated_example =
    multiply_a-generated (word 8) vectors 5 2 counters x y no_shift refl (refl, refl) (refl, refl)

abbrev u : ℕ → EVector (ℕ → ℕ)
u = replicated 0 (λ j. j + 100) (λ j. j * 3 % 256) (λ j. 17)

abbrev w : ℕ → EVector (ℕ → ℕ)
w = replicated 0 (λ j. j + 7) (λ j. 200) (λ j. j * 5 % 256)

dot_product_a-reconstruct_example :
    (z : ℕ → EVector (ℕ → ℕ)) × (dot_product_a
        (word 8)
        no_shift
        (λ j. j)
        3
        (λ me. (get_next_arithmetic (vector ℕ (word 8)) vectors 3 me (counters me)).0)
        u
        w
      ≡ some z)
    × IsShared 0 z
    × (reconstruct_from_a (vector ℕ (word 8)) z
        ≡ dot_product
            (word 8)
            3
            (reconstruct_from_a (vector ℕ (word 8)) u)
            (reconstruct_from_a (vector ℕ (word 8)) w))
dot_product_a-reconstruct_example =
    dot_product_a-reconstruct (word 8) vectors counters no_shift (λ j. j) 3 u w
      (counters-IsSynced 3) (replicated-IsShared 0 _ _ _) (replicated-IsShared 0 _ _ _)
