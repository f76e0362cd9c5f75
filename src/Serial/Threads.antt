-- ===== src/Serial/Threads.antt =====
-- The threads of mp_serial_ext.c that share the ring, as they interleave: ring_push in the reader
-- thread, deliver_thread_posix or deliver_thread_win with deliver_batch_to_python, and
-- SerialManager_shutdown in the thread that calls it. A step is what no other thread can divide:
-- what is done under the ring's lock, a test, a store to a flag, a wait. The writer thread does
-- not touch the ring, and the accounting of CPU time touches nothing that is read here.
pub mod Steps
pub mod Places
pub mod InOrder
pub mod Order
pub mod Sleep
pub mod Stopping
pub mod Rank
pub mod Ending
pub mod Hanging
use p.Common.{
  ℕ, zero, suc, ◌^◌, ◌<◌, ◌≡◌, Bool, true, false, List, [], ◌∷◌, ◌++◌, some, none, length, not,
  ◌&&◌, ◌==◌,
}
use p.Memory.{Buffer, copy_out}
use p.Serial.State.{Ring, Perf, Shared}
use p.Serial.Queue.{Frame}
use p.Serial.Ring.{ring_push, ring_pop}
use p.Serial.Ring.Fifo.{empty_ring}
use p.Serial.Deliver.{count_delivered}

-- Which side of the code's `#ifdef _WIN32` is built
pub data Os : Type 0 where
  posix windows : Os

-- Where the delivery thread stands.
pub data At : Type 0 where
  -- `while (self->alive)`, and behind it
  looping looking : At
  -- POSIX: at the test of the inner loop, and where it has come out true; both hold ring_mx
  testing dozing : At
  -- In pthread_cond_wait or WaitForSingleObject; and signalled, but without ring_mx as yet
  sleeping notified : At
  -- POSIX: behind pthread_mutex_unlock
  unlocked : At
  -- At the start of deliver_batch_to_python
  calling : At
  -- Rounds left, frame_tmp and py_batch: before a round; with a frame taken; with it appended
  batching : ℕ → Buffer → List Frame → At
  holding : ℕ → Buffer → Frame → List Frame → At
  appended : ℕ → Buffer → List Frame → At
  -- Behind the loop of deliver_batch_to_python
  handing : List Frame → At
  ended : At

-- How far SerialManager_shutdown has come.
pub data Stage : Type 0 where
  serving disabled stopped signalled reader_joined joined : Stage

-- What an observer has seen: the frames for which ring_push returned 1, those taken out of the
-- ring, those of them that came into a batch, and the batches given to put_nowait.
pub record History : Type 0 where
  pub accepted : List Frame
  pub taken : List Frame
  pub kept : List Frame
  pub given : List (List Frame)

-- `event` is whether h_ring_event is set, and `reading` whether the reader thread runs.
pub record System : Type 0 where
  pub shared : Shared
  pub alive : Bool
  pub py_enabled : Bool
  pub event : Bool
  pub at : At
  pub reading : Bool
  pub stage : Stage
  pub history : History

-- pthread_cond_signal wakes a thread that waits, and is lost on one that does not.
abbrev pub notify : At → At
notify sleeping = notified
notify a = a

-- The function ring_signal; SetEvent sets an event that stays set until a wait ends by it.
unfoldable pub ring_signal : Os → System → System
ring_signal posix s = record s { at = notify s.at }
ring_signal windows s = record s { event = true }

abbrev pub locked : At → Bool
locked testing = true
locked dozing = true
locked a = false

abbrev pub is_empty : Ring → Bool
is_empty r = r.ring_head == r.ring_tail

abbrev pub accept : History → Frame → History
accept h f = record h { accepted = h.accepted ++ (f ∷ []) }

-- As SerialManager_init and SerialManager_start leave it, in a block with any content.
abbrev pub initial : (ℕ → ℕ) → Perf → System
initial content perf = record {
  shared = record { ring = empty_ring content; perf = perf };
  alive = true;
  py_enabled = true;
  event = false;
  at = looping;
  reading = true;
  stage = serving;
  history = record { accepted = []; taken = []; kept = []; given = [] };
}
