-- ===== src/Cobs/Encode.antt =====
-- `cobs_enc` on a buffer writes the reference encoding, exactly where the buffer is long enough.
pub mod State
pub mod Steps
pub mod Need
pub mod Run
pub mod Faults
use p.Common.{
  ℕ, suc, ◌+◌, ◌^◌, ◌%◌, ◌≤◌, ◌<◌, ◌≡◌, ◌≢◌, inl, inr, refl, sym, ap, ap₂, ◌∙◌, Bool, true, false,
  List, [], ◌∷◌, ◌++◌, Option, none, some, ◌==◌, if◌then◌else◌, length, length-append, arith,
  dec_lt, ℕ_discrete, ne→==, Bool-cases, eq→==, append_assoc, append-nil, subst, ◌>>=◌, subst,
}
use p.Memory.{Buffer, update, slice}
use p.Memory.Laws.{
  slice-update_out, slice-append, slice_cong, slice-update_end, update_self, store_lem, store_fault,
  load_lem,
}
use p.Cobs.{Encoder, add_size, next_segment, enc_step, enc_loop, enc_finish, cobs_enc}
use p.Cobs.Spec.{encode_from, encode, fulls}
use p.Cobs.Encode.State.{
  Holds, poke, closed, pushed, segment, closed-Holds, pushed-Holds, relabel, past_zero, past_full,
  past_full-Holds, start,
}
use p.Cobs.Encode.Run.{Writes, run, run-Writes}
use p.Cobs.Encode.Faults.{run_faults}

-- Into a buffer of more bytes than the input and its full segments have together, and smaller
-- than 2 ^ 64, cobs_enc faults nowhere, returns the length of the reference encoding and leaves
-- that encoding at the buffer's start.
pub cobs_enc-Writes :
    (b : Buffer) (xs : List ℕ)
    → b.size < 2 ^ 64
    → length xs + fulls 0 xs < b.size
    → Writes (cobs_enc b xs) (encode xs)
unfolding cobs_enc
cobs_enc-Writes b xs small fit =
    rw (store_lem b 0 1 (omega arith))
      (run-Writes xs _ [] [] (start b (omega arith) small) (omega arith) (omega arith))

-- In a buffer with no more bytes than the input and its full segments have together, and smaller
-- than 2 ^ 64, cobs_enc accesses memory outside the buffer.
pub cobs_enc-faults :
    (b : Buffer) (xs : List ℕ)
    → b.size < 2 ^ 64
    → b.size ≤ length xs + fulls 0 xs
    → cobs_enc b xs ≡ none
unfolding cobs_enc
cobs_enc-faults b xs small over = elim (dec_lt 0 b.size) [
  | yes pos ↦
      rw (store_lem b 0 1 pos)
        (run_faults xs _ [] [] (start b pos small) (omega arith) (omega arith))
  | no empty ↦ rw (store_fault b 0 1 (omega arith))
]
