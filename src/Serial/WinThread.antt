-- ===== src/Serial/WinThread.antt =====
-- reader_thread_win of mp_serial_ext.c, round by round. What the system and the other threads
-- answer in a round is an argument.
pub mod Delivery
pub mod Sleeps
use p.Common.{
  ℕ, ◌+◌, Bool, true, false, List, [], ◌∷◌, Option, none, some, if◌then◌else◌, ◌>>=◌, not, ltb,
  add_size,
}
use p.Serial.State.{Shared, Perf}
use p.Serial.Reader.{Reader, Flags, feed_win}
use p.Serial.ReaderThread.{Thread, sampled}

-- The result of serial_read_win: negative, 0, or the bytes in `inbuf`.
pub data WinRead : Type 0 where
  read_failed no_bytes : WinRead
  read_bytes : List ℕ → WinRead

-- The result of wait_for_rx_win: 1, 0, -1.
pub data RxEvent : Type 0 where
  rx_event no_event event_failed : RxEvent

pub record WinRound : Type 0 where
  -- `while (self->alive)`, thread_cpu_now_ns() and the test of h_port
  pub alive : Bool
  pub now_ns : ℕ
  pub port_open : Bool
  -- The read, and `self->alive` behind it
  pub read : WinRead
  pub alive_read : Bool
  -- The flags in the rounds of the inner loop, and the wait
  pub flags : ℕ → Flags
  pub event : RxEvent

pub record WinReader : Type 0 where
  pub thread : Thread
  pub idle_backoff_ms : ℕ

-- The loop is left, or it goes on after these milliseconds of sleep.
pub data WinNext : Type 0 where
  leaves : WinReader → WinNext
  goes_on : WinReader → ℕ → WinNext

-- perf_rx_idle_loops++
abbrev pub count_idle : Thread → Thread
count_idle t = record t {
  reader = record (t.reader) {
    shared = record (t.reader.shared) {
      perf = record (t.reader.shared.perf) {
        rx_idle_loops = add_size t.reader.shared.perf.rx_idle_loops 1;
      };
    };
  };
}

abbrev pub backed_off : ℕ → ℕ
backed_off ms = if ltb ms 3 then ms + 1 else ms

-- n == 0: the wait, and the backoff
pub idle_turn : WinReader → RxEvent → WinNext
idle_turn w rx_event = goes_on w 0
idle_turn w event_failed = goes_on w 2
idle_turn w no_event =
    goes_on
      (record { thread = count_idle w.thread; idle_backoff_ms = backed_off w.idle_backoff_ms })
      (backed_off w.idle_backoff_ms)

pub read_turn_win : WinReader → WinRound → Option WinNext
unfolding idle_turn
read_turn_win w round = elim round.read [
  | read_failed ↦ some (goes_on w 10)
  | no_bytes ↦ some (idle_turn w round.event)
  | read_bytes p ↦ feed_win round.flags w.thread.reader p >>= λ r.
      some (goes_on (record { thread = record (w.thread) { reader = r }; idle_backoff_ms = 0 }) 0)
]

pub win_round : WinReader → WinRound → Option WinNext
unfolding read_turn_win
win_round w round =
    if not round.alive
    then some (leaves w)
    else (let w' = record w { thread = sampled w.thread round.now_ns } in
        if not round.port_open
        then some (leaves w')
        else if not round.alive_read
        then some (leaves w')
        else read_turn_win w' round)

-- The rounds so far, with the sleep of the last; a thread that has left the loop does nothing more.
pub win_run : WinReader → ℕ → List WinRound → Option WinNext
win_run w ms [] = some (goes_on w ms)
win_run w ms (round ∷ rounds) =
    win_round w round
    >>= elim [ leaves w' ↦ some (leaves w') | goes_on w' ms' ↦ win_run w' ms' rounds ]
