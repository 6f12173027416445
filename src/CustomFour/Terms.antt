-- ===== src/CustomFour/Terms.antt =====
-- The terms that the ranks compute in a product of include/core/protocols/custom_4pc.h.
use crypt_dough.Base.{ℕ, suc, ◌+◌, ◌%◌, ◌≡◌, ◌<◌, ap, arith}
use crypt_dough.Lanes.{Lanes}
use crypt_dough.Lanes.Laws.{add_comm}
use crypt_dough.Random.Prg.{Counters, get_next}
use crypt_dough.FourParty.Shares.{EVector, Encoding, take_away}
use crypt_dough.FourParty.ShareLaws.{each_rank}
use crypt_dough.CustomFour.{Local, Second, local_part, second_part}
use crypt_dough.CustomFour.Opening.{IsHeld, AreDrawn}

module _ {I A : Type 0} (v : Lanes I A) (e : Encoding) (hash : A → ℕ) (stream : ℕ → ℕ → A)
    (s t : ℕ → A) (n : Counters) where
  -- The masked product terms that two ranks know, and those of opposite shares.
  unfoldable pub near : ℕ → A
  near p =
      let q = (p + 1) % 4 in
      take_away v e (v.add (v.add (v.mul (s p) (t p)) (v.mul (s p) (t q))) (v.mul (s q) (t p)))
        (stream q (n q))

  unfoldable pub far : ℕ → ℕ → A
  far p q =
      take_away v e (v.add (v.mul (s p) (t ((p + 2) % 4))) (v.mul (s ((p + 2) % 4)) (t p)))
        (stream q (suc (n q)))

  module _ {d : ℕ} {x y : ℕ → EVector A} {counts : ℕ → Counters} (hx : IsHeld d x s)
      (hy : IsHeld d y t) (drawn : AreDrawn n counts) where
    unfoldable pub l : ℕ → Local A
    unfolding local_part
    l me = local_part v e hash stream me (x me) (y me) (counts me)

    pub cross_10-near : (me : ℕ) → me < 4 → (l me).cross_10 ≡ near me
    unfolding l near get_next
    cross_10-near =
        each_rank (λ me. (l me).cross_10 ≡ near me)
          (cc (
            hx.held 0 0 (omega arith) (omega arith),
            hx.held 0 1 (omega arith) (omega arith),
            hy.held 0 0 (omega arith) (omega arith),
            hy.held 0 1 (omega arith) (omega arith),
            drawn 0 1 (omega arith) (omega arith) (λ q. omega (arith, q)),
          ))
          (cc (
            hx.held 1 0 (omega arith) (omega arith),
            hx.held 1 1 (omega arith) (omega arith),
            hy.held 1 0 (omega arith) (omega arith),
            hy.held 1 1 (omega arith) (omega arith),
            drawn 1 2 (omega arith) (omega arith) (λ q. omega (arith, q)),
          ))
          (cc (
            hx.held 2 0 (omega arith) (omega arith),
            hx.held 2 1 (omega arith) (omega arith),
            hy.held 2 0 (omega arith) (omega arith),
            hy.held 2 1 (omega arith) (omega arith),
            drawn 2 3 (omega arith) (omega arith) (λ q. omega (arith, q)),
          ))
          (cc (
            hx.held 3 0 (omega arith) (omega arith),
            hx.held 3 1 (omega arith) (omega arith),
            hy.held 3 0 (omega arith) (omega arith),
            hy.held 3 1 (omega arith) (omega arith),
            drawn 3 0 (omega arith) (omega arith) (λ q. omega (arith, q)),
          ))

    pub cross_12-near : (me : ℕ) → me < 4 → (l me).cross_12 ≡ near ((me + 1) % 4)
    unfolding l near get_next
    cross_12-near =
        each_rank (λ me. (l me).cross_12 ≡ near ((me + 1) % 4))
          (cc (
            hx.held 0 1 (omega arith) (omega arith),
            hx.held 0 2 (omega arith) (omega arith),
            hy.held 0 1 (omega arith) (omega arith),
            hy.held 0 2 (omega arith) (omega arith),
            drawn 0 2 (omega arith) (omega arith) (λ q. omega (arith, q)),
          ))
          (cc (
            hx.held 1 1 (omega arith) (omega arith),
            hx.held 1 2 (omega arith) (omega arith),
            hy.held 1 1 (omega arith) (omega arith),
            hy.held 1 2 (omega arith) (omega arith),
            drawn 1 3 (omega arith) (omega arith) (λ q. omega (arith, q)),
          ))
          (cc (
            hx.held 2 1 (omega arith) (omega arith),
            hx.held 2 2 (omega arith) (omega arith),
            hy.held 2 1 (omega arith) (omega arith),
            hy.held 2 2 (omega arith) (omega arith),
            drawn 2 0 (omega arith) (omega arith) (λ q. omega (arith, q)),
          ))
          (cc (
            hx.held 3 1 (omega arith) (omega arith),
            hx.held 3 2 (omega arith) (omega arith),
            hy.held 3 1 (omega arith) (omega arith),
            hy.held 3 2 (omega arith) (omega arith),
            drawn 3 1 (omega arith) (omega arith) (λ q. omega (arith, q)),
          ))

    unfoldable pub part : ℕ → Second A
    unfolding second_part
    part me = second_part v e hash stream me (l me)

    pub cross-far :
        ((part 0).cross ≡ far 0 1)
        × ((part 1).cross ≡ far 1 2)
        × ((part 2).cross ≡ far 0 1)
        × ((part 3).cross ≡ far 1 2)
    unfolding part l far get_next
    cross-far = (
      (cc (
        hx.held 0 0 (omega arith) (omega arith),
        hx.held 0 2 (omega arith) (omega arith),
        hy.held 0 0 (omega arith) (omega arith),
        hy.held 0 2 (omega arith) (omega arith),
        drawn 0 1 (omega arith) (omega arith) (λ q. omega (arith, q)),
      )),
      (cc (
        hx.held 1 0 (omega arith) (omega arith),
        hx.held 1 2 (omega arith) (omega arith),
        hy.held 1 0 (omega arith) (omega arith),
        hy.held 1 2 (omega arith) (omega arith),
        drawn 1 2 (omega arith) (omega arith) (λ q. omega (arith, q)),
      )),
      (cc (
        hx.held 2 0 (omega arith) (omega arith),
        hx.held 2 2 (omega arith) (omega arith),
        hy.held 2 0 (omega arith) (omega arith),
        hy.held 2 2 (omega arith) (omega arith),
        drawn 2 1 (omega arith) (omega arith) (λ q. omega (arith, q)),
        add_comm v (v.mul (s 2) (t 0)) (v.mul (s 0) (t 2)),
      )),
      (cc (
        hx.held 3 0 (omega arith) (omega arith),
        hx.held 3 2 (omega arith) (omega arith),
        hy.held 3 0 (omega arith) (omega arith),
        hy.held 3 2 (omega arith) (omega arith),
        drawn 3 2 (omega arith) (omega arith) (λ q. omega (arith, q)),
        add_comm v (v.mul (s 3) (t 1)) (v.mul (s 1) (t 3)),
      )),
    )

    pub masks :
        (me : ℕ)
        → me < 4
        → ((l me).r_next ≡ stream ((me + 1) % 4) (n ((me + 1) % 4)))
          × ((l me).r_opp ≡ stream ((me + 2) % 4) (n ((me + 2) % 4)))
          × ((l me).r_prev ≡ stream ((me + 3) % 4) (n ((me + 3) % 4)))
    unfolding l get_next
    masks =
        each_rank
          (λ me.
            ((l me).r_next ≡ stream ((me + 1) % 4) (n ((me + 1) % 4)))
            × ((l me).r_opp ≡ stream ((me + 2) % 4) (n ((me + 2) % 4)))
            × ((l me).r_prev ≡ stream ((me + 3) % 4) (n ((me + 3) % 4))))
          (
            ap (stream 1) (drawn 0 1 (omega arith) (omega arith) (λ q. omega (arith, q))),
            ap (stream 2) (drawn 0 2 (omega arith) (omega arith) (λ q. omega (arith, q))),
            ap (stream 3) (drawn 0 3 (omega arith) (omega arith) (λ q. omega (arith, q))),
          )
          (
            ap (stream 2) (drawn 1 2 (omega arith) (omega arith) (λ q. omega (arith, q))),
            ap (stream 3) (drawn 1 3 (omega arith) (omega arith) (λ q. omega (arith, q))),
            ap (stream 0) (drawn 1 0 (omega arith) (omega arith) (λ q. omega (arith, q))),
          )
          (
            ap (stream 3) (drawn 2 3 (omega arith) (omega arith) (λ q. omega (arith, q))),
            ap (stream 0) (drawn 2 0 (omega arith) (omega arith) (λ q. omega (arith, q))),
            ap (stream 1) (drawn 2 1 (omega arith) (omega arith) (λ q. omega (arith, q))),
          )
          (
            ap (stream 0) (drawn 3 0 (omega arith) (omega arith) (λ q. omega (arith, q))),
            ap (stream 1) (drawn 3 1 (omega arith) (omega arith) (λ q. omega (arith, q))),
            ap (stream 2) (drawn 3 2 (omega arith) (omega arith) (λ q. omega (arith, q))),
          )

    pub second_masks :
        ((part 0).r_next ≡ stream 1 (suc (n 1)))
        × ((part 0).r_opp ≡ stream 2 (suc (n 2)))
        × ((part 1).r_next ≡ stream 2 (suc (n 2)))
        × ((part 2).r_prev ≡ stream 1 (suc (n 1)))
        × ((part 3).r_opp ≡ stream 1 (suc (n 1)))
        × ((part 3).r_prev ≡ stream 2 (suc (n 2)))
    unfolding part l get_next
    second_masks = (
      ap (λ c. stream 1 (suc c)) (drawn 0 1 (omega arith) (omega arith) (λ q. omega (arith, q))),
      ap (λ c. stream 2 (suc c)) (drawn 0 2 (omega arith) (omega arith) (λ q. omega (arith, q))),
      ap (λ c. stream 2 (suc c)) (drawn 1 2 (omega arith) (omega arith) (λ q. omega (arith, q))),
      ap (λ c. stream 1 (suc c)) (drawn 2 1 (omega arith) (omega arith) (λ q. omega (arith, q))),
      ap (λ c. stream 1 (suc c)) (drawn 3 1 (omega arith) (omega arith) (λ q. omega (arith, q))),
      ap (λ c. stream 2 (suc c)) (drawn 3 2 (omega arith) (omega arith) (λ q. omega (arith, q))),
    )
