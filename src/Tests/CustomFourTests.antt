-- ===== src/Tests/CustomFourTests.antt =====
-- Runs of the product of the optimised four-party protocol.
use crypt_dough.Base.{ℕ, ◌+◌, ◌*◌, ◌%◌, ◌≡◌, ◌<◌, refl, some}
use crypt_dough.Lanes.Word.{word}
use crypt_dough.Random.Prg.{Counters}
use crypt_dough.FourParty.Shares.{EVector, a_shared}
use crypt_dough.CustomFour.{product, reconstruct, unchecked_open}
use crypt_dough.CustomFour.Opening.{IsHeld, AreDrawn}
use crypt_dough.CustomFour.Laws.{custom_product-open}
use crypt_dough.Tests.{stream}

abbrev values : ℕ → ℕ → ℕ
values n t = (t * 77 + n) % 256

abbrev x : ℕ → ℕ → EVector ℕ
x n me = record { share = λ k. values n ((me + k) % 4); precision = 0 }

x-IsHeld : (n : ℕ) → IsHeld 0 (x n) (values n)
x-IsHeld n = record { held = λ me k hm hk. refl; precisions = λ me h. refl }

abbrev counts : ℕ → Counters
counts me link = 0

abbrev hash : ℕ → ℕ
hash a = a * 3 + 1

custom_product-open_example :
    (z : ℕ → EVector ℕ) × (after : ℕ → Counters) × (product
        (word 8)
        a_shared
        hash
        stream
        (x 5)
        (x 9)
        counts
      ≡ some (z, after))
    × (w : ℕ → ℕ) × IsHeld 0 z w
    × ((me : ℕ)
        → me < 4
        → unchecked_open (word 8) z me
          ≡ (word 8).mul (reconstruct (word 8) (x 5)) (reconstruct (word 8) (x 9)))
    × (m : Counters) × AreDrawn m after
custom_product-open_example =
    custom_product-open (word 8) a_shared hash stream (values 5) (values 9) (λ link. 0) (x-IsHeld 5)
      (x-IsHeld 9) (λ me k hm hk ne. refl) tt
