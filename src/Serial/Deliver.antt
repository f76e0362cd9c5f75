-- ===== src/Serial/Deliver.antt =====
-- `deliver_batch_to_python` of mp_serial_ext.c: up to 1024 frames are taken out of the ring, one
-- by one under the lock, and given to Python in one list. What the interpreter answers, what the
-- volatile flags are, and which frames the reader thread pushes between the rounds are arguments.
pub mod Batch
pub mod Refine
pub mod Whole
use p.Common.{
  ℕ, zero, suc, ◌+◌, ◌^◌, Bool, true, false, List, [], ◌∷◌, ◌++◌, Option, none, some, ltb, not,
  ◌&&◌, if◌then◌else◌, ◌>>=◌, length, add_size,
}
use p.Memory.{Buffer, copy_out}
use p.Serial.State.{Ring, Perf, Shared}
use p.Serial.Ring.{ring_push, ring_pop}

pub record Round : Type 0 where
  -- Pushed by the reader thread before this round takes the lock
  pub meanwhile : List (List ℕ)
  -- PyBytes_FromStringAndSize and PyList_Append succeed
  pub bytes_ok : Bool
  pub append_ok : Bool
  -- The flags at the end of the round
  pub alive : Bool
  pub py_enabled : Bool

unfoldable pub push_all : Shared → List (List ℕ) → Option Shared
push_all s [] = some s
push_all s (f ∷ fs) = ring_push s f >>= λ r. push_all r.0 fs

-- What becomes of the frame taken: it is lost and the loop continues, or it is appended to the
-- batch and the loop breaks or goes on.
pub data After : Type 0 where
  drops breaks goes_on : After

unfoldable pub after : Round → After
after round =
    if not (round.bytes_ok && round.append_ok)
    then drops
    else if round.alive && round.py_enabled
    then goes_on
    else breaks

-- perf_delivered_frames++; perf_delivered_bytes += len;
abbrev pub count_delivered : Shared → ℕ → Shared
count_delivered s len = record s {
  perf = record (s.perf) {
    delivered_frames = add_size s.perf.delivered_frames 1;
    delivered_bytes = add_size s.perf.delivered_bytes len;
  };
}

-- The loop from round `k` on, with `n` rounds left.
pub deliver_loop :
    ℕ → (ℕ → Round) → ℕ → Shared → Buffer → List (List ℕ) → Option (Shared × List (List ℕ))
unfolding push_all
deliver_loop zero rounds k s frame_tmp batch = some (s, batch)
deliver_loop (suc n) rounds k s frame_tmp batch = push_all s (rounds k).meanwhile >>= λ s'.
    ring_pop s'.ring frame_tmp >>= elim [
      | none ↦ some (s', batch)
      | some (len, t, r) ↦ copy_out t 0 len >>= λ f. elim (after (rounds k)) [
        | drops ↦ deliver_loop n rounds (k + 1) (record s' { ring = r }) t batch
        | breaks ↦ some (count_delivered (record s' { ring = r }) len, batch ++ (f ∷ []))
        | goes_on ↦
            deliver_loop n rounds (k + 1) (count_delivered (record s' { ring = r }) len) t
              (batch ++ (f ∷ []))
      ]
    ]

pub record Call : Type 0 where
  -- py_enabled at the entry, and whether PyList_New succeeds
  pub py_enabled : Bool
  pub list_ok : Bool
  -- The content of frame_tmp before it is written
  pub stack : ℕ → ℕ
  pub rounds : ℕ → Round

-- What the call leaves, and the batch that it gives to put_nowait, if it calls it. What
-- put_nowait returns is ignored.
pub deliver_batch : Call → Shared → Option (Shared × Option (List (List ℕ)))
deliver_batch c s =
    if not c.py_enabled
    then some (s, none)
    else if not c.list_ok
    then some (s, none)
    else (deliver_loop 1024 c.rounds 0 s (record { size = 2 ^ 16; cell = c.stack }) [] >>= λ r.
        some (r.0, if ltb 0 (length r.1) then some r.1 else none))
