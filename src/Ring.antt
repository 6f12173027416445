-- ===== src/Ring.antt =====
-- The ring buffer between the protocol threads and the sockets
-- (include/core/communication/ring.h). A call that waits in a loop is `none` in a state where the
-- loop goes on. Numbers of bytes are at most the buffer's size, and bytes are numbers.
pub mod Walk
pub mod Laws
pub mod Runs
use crypt_dough.Base.{
  ℕ, zero, suc, ◌+◌, ◌%◌, ◌==◌, ltb, if◌then◌else◌, Bool, Option, none, some, List,
}

pub record RingEntry : Type 0 where
  pub buffer : ℕ → ℕ
  pub used : ℕ

pub record Ring : Type 0 where
  pub write_index : ℕ
  pub read_index : ℕ
  pub ring_size : ℕ
  pub ring_array : ℕ → RingEntry

-- `memcpy` of the first bytes; the others stay as they were.
abbrev pub copy_bytes : (ℕ → ℕ) → ℕ → (ℕ → ℕ) → ℕ → ℕ
copy_bytes source byte_count target j = if ltb j byte_count then source j else target j

unfoldable pub new_ring : ℕ → Ring
new_ring r_size = record {
  write_index = 0;
  read_index = 0;
  ring_size = r_size;
  ring_array = λ _. record { buffer = λ _. 0; used = 0 };
}

unfoldable pub next_index : Ring → ℕ → ℕ
next_index ring index = (index + 1) % ring.ring_size

unfoldable pub is_ring_full : Ring → Bool
unfolding next_index
is_ring_full ring = next_index ring ring.write_index == ring.read_index

unfoldable pub is_ring_empty : Ring → Bool
is_ring_empty ring = ring.write_index == ring.read_index

unfoldable pub push : Ring → (ℕ → ℕ) → ℕ → Option Ring
unfolding is_ring_full
push ring buf byte_count =
    let old = ring.ring_array ring.write_index in
    let entry : RingEntry = record {
      buffer = copy_bytes buf byte_count old.buffer;
      used = byte_count;
    } in
    if is_ring_full ring
    then none
    else some (record {
      write_index = next_index ring ring.write_index;
      read_index = ring.read_index;
      ring_size = ring.ring_size;
      ring_array = λ i. if i == ring.write_index then entry else ring.ring_array i;
    })

unfoldable pub pop : Ring → Option (RingEntry × Ring)
unfolding is_ring_empty next_index
pop ring =
    if is_ring_empty ring
    then none
    else some (
      ring.ring_array ring.read_index,
      record {
        write_index = ring.write_index;
        read_index = next_index ring ring.read_index;
        ring_size = ring.ring_size;
        ring_array = ring.ring_array;
      },
    )
