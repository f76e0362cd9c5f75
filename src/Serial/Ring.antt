-- ===== src/Serial/Ring.antt =====
-- The ring buffer of mp_serial_ext.c: `ring_push`, and the part of `deliver_batch_to_python` that
-- takes one frame out under the lock. A frame is stored behind its length, a little-endian
-- uint16_t. None is an access outside ring_data or frame_tmp.
pub mod Circle
pub mod Store
pub mod Read
pub mod Fifo
pub mod Push
pub mod Pop
pub mod Usage
use p.Common.{
  ℕ, ◌+◌, ◌*◌, ◌/◌, ◌%◌, ◌-◌, ◌^◌, Bool, true, false, List, Option, none, some, ltb, leb, ◌==◌,
  if◌then◌else◌, ◌>>=◌, length, take, drop, add_size, sub_size,
}
use p.Memory.{Buffer, load, store, copy_out, copy_in}
use p.Serial.State.{Ring, Perf, Shared}

-- ring_data[(ring_head + i) % ring_size] = ((uint8_t*)&ulen)[i], for i = 0 and 1.
pub put_length : Buffer → ℕ → ℕ → ℕ → Option Buffer
put_length b size head ulen = store b (add_size head 0 % size) (ulen % 256) >>= λ b'.
    store b' (add_size head 1 % size) (ulen / 256)

-- The copy behind the length, in one piece or in two.
pub put_payload : Buffer → ℕ → ℕ → List ℕ → Option Buffer
put_payload b size head xs =
    let data_start = add_size head 2 % size in
    let space_to_end = sub_size size data_start in
    if leb (length xs) space_to_end
    then copy_in b data_start xs
    else (copy_in b data_start (take space_to_end xs) >>= λ b'. copy_in b' 0 (drop space_to_end xs))

-- The lock is held from the first line to the return, so that the call is one step. It returns
-- false for the C result 0.
pub ring_push : Shared → List ℕ → Option (Shared × Bool)
unfolding put_length put_payload
ring_push s xs =
    let r = s.ring in
    let needed = add_size 2 (length xs) in
    let available = sub_size r.ring_size (sub_size r.ring_head r.ring_tail) in
    if ltb available needed
    then some (
      record s {
        ring = record r { ring_dropped = add_size r.ring_dropped 1 };
        perf = record (s.perf) { ring_push_dropped = add_size s.perf.ring_push_dropped 1 };
      },
      false,
    )
    else (put_length r.ring_data r.ring_size r.ring_head (length xs % 2 ^ 16) >>= λ b.
        put_payload b r.ring_size r.ring_head xs >>= λ b'. some (
          record s { ring = record r { ring_data = b'; ring_head = add_size r.ring_head needed } },
          true,
        ))

-- ((uint8_t*)&len)[j] = ring_data[(ring_tail + j) % ring_size], for j = 0 and 1.
pub get_length : Buffer → ℕ → ℕ → Option ℕ
get_length b size tail = load b (add_size tail 0 % size) >>= λ low.
    load b (add_size tail 1 % size) >>= λ high. some (low + high * 256)

-- The copy out of the ring into frame_tmp, in one piece or in two.
pub get_payload : Buffer → ℕ → ℕ → ℕ → Buffer → Option Buffer
get_payload b size tail len frame_tmp =
    let data_start = add_size tail 2 % size in
    let space_to_end = sub_size size data_start in
    if leb len space_to_end
    then copy_out b data_start len >>= copy_in frame_tmp 0
    else (copy_out b data_start space_to_end >>= λ xs. copy_in frame_tmp 0 xs >>= λ t.
        copy_out b 0 (len - space_to_end) >>= λ ys. copy_in t space_to_end ys)

-- What one round of the delivery loop does under the lock: nothing on an empty ring, else it
-- leaves the frame's length and frame_tmp.
pub ring_pop : Ring → Buffer → Option (Option (ℕ × Buffer × Ring))
unfolding get_length get_payload
ring_pop r frame_tmp =
    if r.ring_head == r.ring_tail
    then some none
    else (get_length r.ring_data r.ring_size r.ring_tail >>= λ len.
        get_payload r.ring_data r.ring_size r.ring_tail len frame_tmp >>= λ t.
        some (some (len, t, record r { ring_tail = add_size r.ring_tail (add_size 2 len) })))

-- The helper `ring_size`: how many bytes are in use, if ring_head has not wrapped.
pub ring_size_used : Ring → ℕ
ring_size_used r = if leb r.ring_tail r.ring_head then r.ring_head - r.ring_tail else 0
