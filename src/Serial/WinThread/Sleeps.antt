-- ===== src/Serial/WinThread/Sleeps.antt =====
-- The sleeps of the reader thread on Windows.
use p.Common.{
  ℕ, ◌≤◌, ◌≡◌, refl, Bool, true, false, List, [], ◌∷◌, Option, none, some, arith, ◌>>=◌, not,
  if◌then◌else◌,
}
use p.Serial.Reader.{Reader, feed_win}
use p.Serial.ReaderThread.{Thread, sampled}
use p.Serial.WinThread.{
  WinRead, read_failed, no_bytes, read_bytes, RxEvent, rx_event, no_event, event_failed, WinRound,
  WinReader, WinNext, leaves, goes_on, idle_turn, read_turn_win, win_round, win_run,
}

-- The backoff is at most 3, and the last sleep at most 10 milliseconds.
abbrev pub IsBounded : Option WinNext → Type 0
IsBounded none = Unit {0}
IsBounded (some (leaves w)) = w.idle_backoff_ms ≤ 3
IsBounded (some (goes_on w ms)) = (w.idle_backoff_ms ≤ 3) × (ms ≤ 10)

fed-IsBounded :
    (m : Option Reader) (t : Thread)
    → IsBounded (
        m >>= λ r.
        some (goes_on (record { thread = record t { reader = r }; idle_backoff_ms = 0 }) 0))
fed-IsBounded none t = tt
fed-IsBounded (some r) t = (omega arith, omega arith)

idle-IsBounded :
    (w : WinReader) (e : RxEvent) → w.idle_backoff_ms ≤ 3 → IsBounded (some (idle_turn w e))
unfolding idle_turn
idle-IsBounded w rx_event h = (h, omega arith)
idle-IsBounded w event_failed h = (h, omega arith)
idle-IsBounded w no_event h = (ground arith, ground arith)

turn-IsBounded :
    (w : WinReader) (round : WinRound) (read : WinRead)
    → round.read ≡ read
    → w.idle_backoff_ms ≤ 3
    → IsBounded (read_turn_win w round)
unfolding read_turn_win
turn-IsBounded w round read_failed e h = rw (read_turn_win, e) (h, omega arith)
turn-IsBounded w round no_bytes e h = rw (read_turn_win, e) (idle-IsBounded w round.event h)
turn-IsBounded w round (read_bytes p) e h =
    rw (read_turn_win, e) (fed-IsBounded (feed_win round.flags w.thread.reader p) w.thread)

left_or :
    (c : Bool) (w : WinReader) (m : Option WinNext)
    → w.idle_backoff_ms ≤ 3
    → IsBounded m
    → IsBounded (if not c then some (leaves w) else m)
left_or true w m h k = k
left_or false w m h k = h

round-IsBounded :
    (w : WinReader) (round : WinRound) → w.idle_backoff_ms ≤ 3 → IsBounded (win_round w round)
unfolding win_round
round-IsBounded w round h = left_or round.alive w _ h (
    left_or round.port_open _ _ h (
      left_or round.alive_read _ _ h (
        turn-IsBounded (record w { thread = sampled w.thread round.now_ns }) round round.read refl
          h)))

next-IsBounded :
    (m : Option WinNext) (rounds : List WinRound)
    → IsBounded m
    → ((w : WinReader) (ms : ℕ) → w.idle_backoff_ms ≤ 3 → ms ≤ 10 → IsBounded (win_run w ms rounds))
    → IsBounded
        (m >>= elim [ leaves w' ↦ some (leaves w') | goes_on w' ms' ↦ win_run w' ms' rounds ])
next-IsBounded none rounds b later = tt
next-IsBounded (some (leaves w)) rounds b later = b
next-IsBounded (some (goes_on w ms)) rounds b later = later w ms b.0 b.1

-- If the backoff is at most 3 and the last sleep at most 10 ms, they are so after any rounds,
-- whatever the system answers and whatever the flags are: a run that does not fault ends with a
-- backoff of at most 3 and, unless it leaves the loop, a last sleep of at most 10 ms.
win_run-IsBounded :
    (w : WinReader) (ms : ℕ) (rounds : List WinRound)
    → w.idle_backoff_ms ≤ 3
    → ms ≤ 10
    → IsBounded (win_run w ms rounds)
unfolding win_run
win_run-IsBounded w ms [] h k = (h, k)
win_run-IsBounded w ms (round ∷ rounds) h k =
    next-IsBounded (win_round w round) rounds (round-IsBounded w round h)
      (λ w' ms' h' k'. win_run-IsBounded w' ms' rounds h' k')
