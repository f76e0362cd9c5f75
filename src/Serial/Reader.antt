-- ===== src/Serial/Reader.antt =====
-- The reader threads of mp_serial_ext.c: bytes from the port are cut into frames at the zeros,
-- decoded and pushed into the ring. `alive` and `py_enabled` are volatile and written by other
-- threads: what a round reads of them is an argument.
pub mod Stream
pub mod Frame
pub mod Scan
pub mod Sent
pub mod Win
use p.Common.{
  ℕ, zero, suc, ◌+◌, ◌-◌, ◌^◌, Bool, true, false, List, [], ◌∷◌, Option, none, some, ltb, leb, ◌==◌,
  ◌&&◌, if◌then◌else◌, ◌>>=◌, length, add_size,
}
use p.Memory.{Buffer, copy_in, copy_out}
use p.Serial.State.{Ring, Perf, Shared}
use p.Serial.Ring.{ring_push}
use p.Serial.Decode.{cobs_decode}

-- sizeof(framebuf) and sizeof(tmp)
abbrev pub frame_bytes : ℕ
frame_bytes = 2 ^ 16

-- The thread's variables, and what it shares. `tmp` stands on the stack, uninitialised.
pub record Reader : Type 0 where
  pub framebuf : Buffer
  pub frame_len : ℕ
  pub tmp : Buffer
  pub shared : Shared

-- What one round of the inner loop reads of the volatile flags.
pub record Flags : Type 0 where
  pub py_enabled : Bool
  pub alive : Bool

-- memchr(p, 0x00, end - p): the bytes before the first zero and those behind it, or none.
pub memchr_zero : List ℕ → Option (List ℕ × List ℕ)
memchr_zero [] = none
memchr_zero (x ∷ xs) =
    if x == 0 then some ([], xs) else (memchr_zero xs >>= λ r. some (x ∷ r.0, r.1))

-- The block `if (chunk)`.
pub append_chunk : Reader → List ℕ → Option Reader
append_chunk r q =
    if length q == 0
    then some r
    else if leb (r.frame_len + length q) frame_bytes
    then copy_in r.framebuf r.frame_len q
      >>= (λ b. some (record r { framebuf = b; frame_len = r.frame_len + length q }))
    else some (record r { frame_len = 0 })

abbrev pub count_error : Shared → Shared
count_error s = record s {
  perf = record (s.perf) { cobs_decode_errors = add_size s.perf.cobs_decode_errors 1 };
}

abbrev pub count_frame : Shared → Shared
count_frame s = record s { perf = record (s.perf) { rx_frames = add_size s.perf.rx_frames 1 } }

-- The decoder's result: a negative one counts as an error, anything else is pushed and counts as a frame.
pub frame_decoded : Reader → Buffer → Option ℕ → Option Reader
frame_decoded r t none = some (record r { tmp = t; shared = count_error r.shared })
frame_decoded r t (some olen) = copy_out t 0 olen >>= λ xs.
    ring_push r.shared xs >>= λ s. some (record r { tmp = t; shared = count_frame s.0 })

-- The block `if (z)`, up to `frame_len = 0`.
pub end_frame : Reader → Bool → Option Reader
end_frame r py_enabled =
    (if ltb 0 r.frame_len && py_enabled
      then (copy_out r.framebuf 0 r.frame_len >>= λ src.
          cobs_decode src r.tmp frame_bytes >>= λ d. frame_decoded r d.0 d.1)
      else some r)
    >>= λ r'. some (record r' { frame_len = 0 })

-- The loop `while (p < end)` of reader_thread_posix from its round `k` on. A round that goes on
-- has taken a byte, so that `length p` rounds are enough; none is a fault or a lack of fuel.
pub scan_posix : ℕ → (ℕ → Flags) → ℕ → Reader → List ℕ → Option Reader
scan_posix fuel flags k r [] = some r
scan_posix zero flags k r (x ∷ p) = none
scan_posix (suc fuel) flags k r (x ∷ p) = elim (memchr_zero (x ∷ p)) [
  | none ↦ append_chunk r (x ∷ p)
  | some z ↦ append_chunk r (z.0) >>= λ r'. end_frame r' (flags k).py_enabled >>= λ r''.
      elim (flags k).alive [ true ↦ scan_posix fuel flags (k + 1) r'' (z.1) | false ↦ some r'' ]
]

-- The same loop in reader_thread_win, which does not look at `alive`.
pub scan_win : ℕ → (ℕ → Flags) → ℕ → Reader → List ℕ → Option Reader
scan_win fuel flags k r [] = some r
scan_win zero flags k r (x ∷ p) = none
scan_win (suc fuel) flags k r (x ∷ p) = elim (memchr_zero (x ∷ p)) [
  | none ↦ append_chunk r (x ∷ p)
  | some z ↦ append_chunk r (z.0) >>= λ r'.
      end_frame r' (flags k).py_enabled >>= λ r''. scan_win fuel flags (k + 1) r'' (z.1)
]

-- What both threads do with the `n > 0` bytes that a read has returned.
abbrev pub count_rx : Reader → ℕ → Reader
count_rx r n = record r {
  shared = record (r.shared) {
    perf = record (r.shared.perf) { rx_bytes = add_size r.shared.perf.rx_bytes n };
  };
}

unfoldable pub feed_posix : (ℕ → Flags) → Reader → List ℕ → Option Reader
feed_posix flags r p = scan_posix (length p) flags 0 (count_rx r (length p)) p

pub feed_win : (ℕ → Flags) → Reader → List ℕ → Option Reader
feed_win flags r p = scan_win (length p) flags 0 (count_rx r (length p)) p
