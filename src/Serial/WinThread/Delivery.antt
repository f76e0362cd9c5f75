-- ===== src/Serial/WinThread/Delivery.antt =====
-- The stream that the reader thread reads on Windows.
use p.Common.{
  ℕ, ◌∙◌, ◌≡◌, refl, sym, true, List, [], ◌∷◌, ◌++◌, Option, some, All, All-left, All-right, subst,
  ◌>>=◌,
}
use p.Cobs.{IsByte}
use p.Serial.Reader.{Reader, feed_win}
use p.Serial.Reader.Win.{feed_win-feed_posix}
use p.Serial.Reader.Stream.{View, feed, feed-append, IsFraming, IsFraming-append}
use p.Serial.Reader.Frame.{Shows}
use p.Serial.Reader.Scan.{AllSet}
use p.Serial.ReaderThread.{Thread, sampled}
use p.Serial.ReaderThread.Delivery.{sampled-Shows, feed_lem}
use p.Serial.WinThread.{
  read_failed, no_bytes, read_bytes, RxEvent, rx_event, no_event, event_failed, WinRound, WinReader,
  WinNext, goes_on, count_idle, idle_turn, read_turn_win, win_round, win_run,
}

-- The flags stay set and the port open; the read fails or has nothing, or it has the bytes `p`.
pub record IsOpen (round : WinRound) : Type 0 where
  pub alive : round.alive ≡ true
  pub port_open : round.port_open ≡ true
  pub alive_read : round.alive_read ≡ true

-- Rounds in which the port delivers the bytes `xs`
pub data WinDelivers : List WinRound → List ℕ → Type 0 where
  done : WinDelivers [] []
  failing :
      {round : WinRound} {rounds : List WinRound} {xs : List ℕ}
      → IsOpen round
      → round.read ≡ read_failed
      → WinDelivers rounds xs
      → WinDelivers (round ∷ rounds) xs
  idle :
      {round : WinRound} {rounds : List WinRound} {xs : List ℕ}
      → IsOpen round
      → round.read ≡ no_bytes
      → WinDelivers rounds xs
      → WinDelivers (round ∷ rounds) xs
  read :
      {round : WinRound} {rounds : List WinRound} {xs : List ℕ} (p : List ℕ)
      → IsOpen round
      → round.read ≡ read_bytes p
      → AllSet round.flags
      → WinDelivers rounds xs
      → WinDelivers (round ∷ rounds) (p ++ xs)

-- The loop goes on, with a thread that shows the view.
abbrev pub WinRan : Option WinNext → View × List ℕ → Type 0
WinRan m (v, cur) =
    (w : WinReader) × (ms : ℕ) × (m ≡ some (goes_on w ms)) × Shows w.thread.reader v cur

run_step :
    (w w' : WinReader) (ms ms' : ℕ) (round : WinRound) (rounds : List WinRound) (s : View × List ℕ)
    → win_round w round ≡ some (goes_on w' ms')
    → WinRan (win_run w' ms' rounds) s
    → WinRan (win_run w ms (round ∷ rounds)) s
unfolding win_run
run_step w w' ms ms' round rounds s e h = rw e h

open_round :
    (w : WinReader) (round : WinRound)
    → IsOpen round
    → win_round w round ≡ read_turn_win (record w { thread = sampled w.thread round.now_ns }) round
unfolding win_round
open_round w round o = rw (win_round, o.alive, o.port_open, o.alive_read) refl

failing_turn :
    (w : WinReader) (round : WinRound)
    → round.read ≡ read_failed
    → read_turn_win w round ≡ some (goes_on w 10)
unfolding read_turn_win
failing_turn w round e = rw (read_turn_win, e) refl

idle_step :
    (w : WinReader) (round : WinRound)
    → round.read ≡ no_bytes
    → read_turn_win w round ≡ some (idle_turn w round.event)
unfolding read_turn_win
idle_step w round e = rw (read_turn_win, e) refl

abbrev fed : WinReader → Reader → WinReader
fed w r = record { thread = record (w.thread) { reader = r }; idle_backoff_ms = 0 }

read_step :
    (w : WinReader) (round : WinRound) (p : List ℕ) (r : Reader)
    → round.read ≡ read_bytes p
    → feed_win round.flags w.thread.reader p ≡ some r
    → read_turn_win w round ≡ some (goes_on (fed w r) 0)
unfolding read_turn_win
read_step w round p r e f = rw (read_turn_win, e, f, ◌>>=◌) refl

idle_count-Shows :
    (t : Thread) (v : View) (cur : List ℕ)
    → Shows t.reader v cur
    → Shows (count_idle t).reader v cur
idle_count-Shows t v cur h = record {
  buf_size = h.buf_size;
  tmp_size = h.tmp_size;
  len_at = h.len_at;
  content = h.content;
  short = h.short;
  wire = h.wire;
  shared = record {
    ring = h.shared.ring;
    frames = h.shared.frames;
    errors = h.shared.errors;
    dropped = h.shared.dropped;
    push_dropped = h.shared.push_dropped;
  };
}

-- A wait leaves the view as it is.
idle-Shows :
    (w : WinReader) (e : RxEvent) (v : View) (cur : List ℕ)
    → Shows w.thread.reader v cur
    → WinRan (some (idle_turn w e)) (v, cur)
unfolding idle_turn
idle-Shows w rx_event v cur h = (w, 0, refl, h)
idle-Shows w event_failed v cur h = (w, 2, refl, h)
idle-Shows w no_event v cur h = (_, _, refl, idle_count-Shows w.thread v cur h)

-- However the port cuts a stream of bytes into reads, and however often it has nothing, a read
-- fails or a wait ends in any way, the thread on Windows stays in its loop while the flags stay
-- set and the port open, faults nowhere, and leaves in the ring, in its frame buffer and in its
-- counters what the frames of the whole stream leave in the view, if no segment of the stream is
-- longer than the frame buffer.
pub win_run-feeds :
    {rounds : List WinRound} {xs : List ℕ} (w : WinReader) (ms : ℕ) (v : View) (cur : List ℕ)
    → WinDelivers rounds xs
    → Shows w.thread.reader v cur
    → All IsByte xs
    → IsFraming cur xs
    → WinRan (win_run w ms rounds) (feed v cur xs)
win_run-feeds w ms v cur done h bs framing = unfold win_run feed in (w, ms, refl, h)
win_run-feeds w ms v cur (failing {round} {rounds} {xs} o e d) h bs framing =
    let w' = record w { thread = sampled w.thread round.now_ns } in
    run_step w w' ms 10 round rounds _ (open_round w round o ∙ failing_turn w' round e)
      (win_run-feeds w' 10 v cur d (sampled-Shows w.thread round.now_ns v cur h) bs framing)
win_run-feeds w ms v cur (idle {round} {rounds} {xs} o e d) h bs framing =
    let w' = record w { thread = sampled w.thread round.now_ns } in
    let (w2, ms2, stays, h2) =
      idle-Shows w' round.event v cur (sampled-Shows w.thread round.now_ns v cur h) in
    run_step w w2 ms ms2 round rounds _ (open_round w round o ∙ idle_step w' round e ∙ stays)
      (win_run-feeds w2 ms2 v cur d h2 bs framing)
win_run-feeds w ms v cur (read {round} {rounds} {xs} p o e on d) h bs framing =
    let (now, later) = IsFraming-append v cur p xs framing in
    let w' = record w { thread = sampled w.thread round.now_ns } in
    let (r, is_fed, shows) =
      feed_lem round.flags w'.thread.reader p v cur on (sampled-Shows w.thread round.now_ns v cur h)
        (All-left IsByte p xs bs) now in
    let w2 = fed w' r in
    subst (WinRan (win_run w ms (round ∷ rounds))) (sym (feed-append v cur p xs)) (
      run_step w w2 ms 0 round rounds _
        (open_round w round o
          ∙ read_step w' round p r e
              (feed_win-feed_posix round.flags w'.thread.reader p (λ j. (on j).1) ∙ is_fed))
        (win_run-feeds w2 0 (feed v cur p).0 (feed v cur p).1 d shows (All-right IsByte p xs bs)
          later))
