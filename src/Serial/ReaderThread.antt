-- ===== src/Serial/ReaderThread.antt =====
-- reader_thread_posix of mp_serial_ext.c, round by round. What the system and the other threads
-- answer in a round is an argument.
pub mod Delivery
use p.Common.{ℕ, Bool, true, false, List, [], ◌∷◌, Option, none, some, if◌then◌else◌, ◌>>=◌, not}
use p.Serial.State.{Shared, Perf}
use p.Serial.Cpu.{CpuClock, cpu_sample, spent}
use p.Serial.Reader.{Reader, Flags, feed_posix}

-- The result of select: an error other than EINTR, EINTR, no data in time, data.
pub data Select : Type 0 where
  failed interrupted expired ready : Select

pub record Round : Type 0 where
  -- `while (self->alive)`, thread_cpu_now_ns() and `self->fd >= 0`
  pub alive : Bool
  pub now_ns : ℕ
  pub fd_open : Bool
  -- select, and `self->alive` behind it
  pub select : Select
  pub alive_selected : Bool
  -- The bytes that serial_read_posix has read, or none where it returns 0 or less; and
  -- `self->alive` behind it
  pub received : Option (List ℕ)
  pub alive_read : Bool
  -- The flags in the rounds of the inner loop
  pub flags : ℕ → Flags

pub record Thread : Type 0 where
  pub reader : Reader
  pub cpu : CpuClock

-- The loop goes on, or is left.
pub data Next : Type 0 where
  goes_on : Thread → Next
  leaves : Thread → Next

abbrev with_cpu : Thread → CpuClock × ℕ → Thread
with_cpu t (c, total) = record t {
  cpu = c;
  reader = record (t.reader) {
    shared = record (t.reader.shared) {
      perf = record (t.reader.shared.perf) { cpu_reader_ns = total };
    };
  };
}

pub sampled : Thread → ℕ → Thread
unfolding cpu_sample
sampled t now = with_cpu t (cpu_sample t.cpu t.reader.shared.perf.cpu_reader_ns now)

read_turn : Thread → Round → Option Next
read_turn t round = if not round.alive_read then some (leaves t) else elim round.received [
  | none ↦ some (leaves t)
  | some p ↦ feed_posix round.flags t.reader p >>= λ r. some (goes_on (record t { reader = r }))
]

select_turn : Thread → Round → Option Next
unfolding read_turn
select_turn t round = elim round.select [
  | failed ↦ some (leaves t)
  | interrupted ↦ some (goes_on t)
  | expired ↦ some (goes_on t)
  | ready ↦ read_turn t round
]

pub thread_round : Thread → Round → Option Next
unfolding select_turn
thread_round t round =
    if not round.alive
    then some (leaves t)
    else (let t' = sampled t round.now_ns in
        if not round.fd_open
        then some (leaves t')
        else if not round.alive_selected
        then some (leaves t')
        else select_turn t' round)

-- The rounds so far; a thread that has left the loop does nothing more.
pub thread_run : Thread → List Round → Option Next
thread_run t [] = some (goes_on t)
thread_run t (round ∷ rounds) =
    thread_round t round
    >>= elim [ leaves t' ↦ some (leaves t') | goes_on t' ↦ thread_run t' rounds ]
