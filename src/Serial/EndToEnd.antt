-- ===== src/Serial/EndToEnd.antt =====
-- From the line to Python: the reader thread and the delivery one behind the other.
use p.Common.{ℕ, ◌^◌, ◌≡◌, ◌≤◌, ◌<◌, true, List, ap, subst, arith, [], ◌++◌, some, length, All}
use p.Serial.State.{Shared, ring_bytes}
use p.Serial.Queue.{Frame, used}
use p.Serial.Ring.Fifo.{Holds}
use p.Serial.Reader.Stream.{View}
use p.Serial.Reader.Frame.{Shows}
use p.Serial.Reader.Sent.{sent, IsSendable}
use p.Serial.ReaderThread.{Round, Thread, goes_on, thread_run}
use p.Serial.ReaderThread.Delivery.{Delivers, thread_run-sent}
use p.Serial.Deliver.{Call, deliver_batch}
use p.Serial.Deliver.Whole.{IsCalm, handed, deliver_batch-all}

-- A sender encodes up to 1024 frames, each short enough for the frame buffer and all of them for
-- the ring, and ends each with a zero. However the port cuts these bytes into reads, the thread
-- that starts with an empty ring and an empty frame buffer reads them without a fault while the
-- flags stay set and its counter of frames is below 2 ^ 64, and then an undisturbed delivery
-- hands Python exactly these frames, in order, and leaves the ring empty.
pub deliver-thread_run :
    {rounds : List Round} (t : Thread) (v : View) (fs : List Frame) (c : Call)
    → Delivers rounds (sent fs)
    → Shows t.reader v []
    → v.queue ≡ []
    → v.frames < 2 ^ 64
    → All IsSendable fs
    → length fs ≤ 1024
    → used fs ≤ ring_bytes
    → c.py_enabled ≡ true
    → c.list_ok ≡ true
    → ((j : ℕ) → IsCalm (c.rounds j))
    → (t' : Thread) × (s : Shared) × (thread_run t rounds ≡ some (goes_on t'))
      × (deliver_batch c t'.reader.shared ≡ some (s, handed fs))
      × Holds s.ring []
deliver-thread_run t v fs c d h empty counted short few fit on ok calm =
    let (t', run, shows) =
      thread_run-sent t v fs d h short counted (omega (arith, ap used empty)) in
    let (s, e, rest) =
      deliver_batch-all c t'.reader.shared fs on ok calm
        (subst (λ q. Holds t'.reader.shared.ring (q ++ fs)) empty shows.shared.ring) few in
    (t', s, run, e, rest)
