-- ===== src/Serial/ReaderThread/Delivery.antt =====
-- However the port cuts the stream into reads, the thread makes the same of it.
use p.Common.{
  ℕ, ◌+◌, ◌^◌, ◌≤◌, ◌<◌, ap, ◌∙◌, ◌≡◌, refl, sym, true, List, [], ◌∷◌, ◌++◌, Option, some, length,
  arith, All, All-left, All-right, subst, ◌⊎◌, inl, inr,
}
use p.Cobs.{IsByte}
use p.Serial.Reader.{Reader, Flags, feed_posix, count_rx}
use p.Serial.Reader.Stream.{View, feed, feed-append, IsFraming, IsFraming-append}
use p.Serial.Reader.Frame.{Shows}
use p.Serial.State.{ring_bytes}
use p.Serial.Queue.{Frame, used}
use p.Serial.Reader.Sent.{
  sent, IsSendable, sent-IsByte, sent-IsFraming, feed-sent, queued, accept_frames-fits,
}
use p.Serial.Reader.Scan.{AllSet, Scanned, scan_posix-feeds}
use p.Serial.ReaderThread.{
  interrupted, expired, ready, Round, Thread, Next, goes_on, sampled, thread_round, thread_run,
}

-- The flags stay set and the descriptor open; the port has nothing, or the bytes `p`.
pub record IsQuiet (round : Round) : Type 0 where
  pub alive : round.alive ≡ true
  pub fd_open : round.fd_open ≡ true
  pub alive_selected : round.alive_selected ≡ true
  pub nothing : (round.select ≡ interrupted) ⊎ (round.select ≡ expired)

pub record IsRead (round : Round) (p : List ℕ) : Type 0 where
  pub alive : round.alive ≡ true
  pub fd_open : round.fd_open ≡ true
  pub alive_selected : round.alive_selected ≡ true
  pub select : round.select ≡ ready
  pub alive_read : round.alive_read ≡ true
  pub received : round.received ≡ some p
  pub flags : AllSet round.flags

-- Rounds in which the port delivers the bytes `xs`, one read behind another.
pub data Delivers : List Round → List ℕ → Type 0 where
  done : Delivers [] []
  idle :
      {round : Round} {rounds : List Round} {xs : List ℕ}
      → IsQuiet round
      → Delivers rounds xs
      → Delivers (round ∷ rounds) xs
  read :
      {round : Round} {rounds : List Round} {xs : List ℕ} (p : List ℕ)
      → IsRead round p
      → Delivers rounds xs
      → Delivers (round ∷ rounds) (p ++ xs)

quiet_round :
    (t : Thread) (round : Round)
    → IsQuiet round
    → thread_round t round ≡ some (goes_on (sampled t round.now_ns))
unfolding thread_round
quiet_round t round q = elim (q.nothing) [
  | inl e ↦ rw (q.alive, q.fd_open, q.alive_selected, e)
  | inr e ↦ rw (q.alive, q.fd_open, q.alive_selected, e)
]

read_round :
    (t : Thread) (round : Round) (p : List ℕ) (r : Reader)
    → IsRead round p
    → feed_posix round.flags (sampled t round.now_ns).reader p ≡ some r
    → thread_round t round ≡ some (goes_on (record (sampled t round.now_ns) { reader = r }))
unfolding thread_round
read_round t round p r q e =
    rw (q.alive, q.fd_open, q.alive_selected, q.select, q.alive_read, q.received, e)

-- The counters of bytes and of CPU time are not in the view.
pub sampled-Shows :
    (t : Thread) (now : ℕ) (v : View) (cur : List ℕ)
    → Shows t.reader v cur
    → Shows (sampled t now).reader v cur
unfolding sampled
sampled-Shows t now v cur h = record {
  buf_size = h.buf_size;
  tmp_size = h.tmp_size;
  len_at = h.len_at;
  content = h.content;
  short = h.short;
  wire = h.wire;
  shared = record {
    ring = h.shared.ring;
    frames = h.shared.frames;
    errors = h.shared.errors;
    dropped = h.shared.dropped;
    push_dropped = h.shared.push_dropped;
  };
}

counted-Shows :
    (r : Reader) (n : ℕ) (v : View) (cur : List ℕ) → Shows r v cur → Shows (count_rx r n) v cur
counted-Shows r n v cur h = record {
  buf_size = h.buf_size;
  tmp_size = h.tmp_size;
  len_at = h.len_at;
  content = h.content;
  short = h.short;
  wire = h.wire;
  shared = record {
    ring = h.shared.ring;
    frames = h.shared.frames;
    errors = h.shared.errors;
    dropped = h.shared.dropped;
    push_dropped = h.shared.push_dropped;
  };
}

pub feed_lem :
    (flags : ℕ → Flags) (r : Reader) (p : List ℕ) (v : View) (cur : List ℕ)
    → AllSet flags
    → Shows r v cur
    → All IsByte p
    → IsFraming cur p
    → Scanned (feed_posix flags r p) (feed v cur p)
unfolding feed_posix
feed_lem flags r p v cur on h bs framing =
    scan_posix-feeds (length p) flags 0 (count_rx r (length p)) p v cur (omega arith) on
      (counted-Shows r (length p) v cur h) bs framing

-- The loop goes on, with a thread that shows the view.
abbrev pub Ran : Option Next → View × List ℕ → Type 0
Ran m (v, cur) = (t : Thread) × (m ≡ some (goes_on t)) × Shows t.reader v cur

run_step :
    (t t' : Thread) (round : Round) (rounds : List Round) (s : View × List ℕ)
    → thread_round t round ≡ some (goes_on t')
    → Ran (thread_run t' rounds) s
    → Ran (thread_run t (round ∷ rounds)) s
unfolding thread_run
run_step t t' round rounds s e h = rw e h

-- However the port cuts a stream of bytes into reads, and however often it has nothing, the
-- thread stays in its loop while the flags stay set and the descriptor open, faults nowhere, and
-- leaves in the ring, in its frame buffer and in its counters what the frames of the whole
-- stream leave in the view, if no segment of the stream is longer than the frame buffer.
pub thread_run-feeds :
    {rounds : List Round} {xs : List ℕ} (t : Thread) (v : View) (cur : List ℕ)
    → Delivers rounds xs
    → Shows t.reader v cur
    → All IsByte xs
    → IsFraming cur xs
    → Ran (thread_run t rounds) (feed v cur xs)
thread_run-feeds t v cur done h bs framing = unfold thread_run feed in (t, refl, h)
thread_run-feeds t v cur (idle {round} {rounds} {xs} q d) h bs framing =
    run_step t (sampled t round.now_ns) round rounds _ (quiet_round t round q) (
      thread_run-feeds (sampled t round.now_ns) v cur d (sampled-Shows t round.now_ns v cur h) bs
        framing)
thread_run-feeds t v cur (read {round} {rounds} {xs} p q d) h bs framing =
    let (now, later) = IsFraming-append v cur p xs framing in
    let t' = sampled t round.now_ns in
    let (r, e, shows) =
      feed_lem round.flags t'.reader p v cur q.flags (sampled-Shows t round.now_ns v cur h)
        (All-left IsByte p xs bs) now in
    subst (Ran (thread_run t (round ∷ rounds))) (sym (feed-append v cur p xs)) (
      run_step t (record t' { reader = r }) round rounds _ (read_round t round p r q e)
        (thread_run-feeds (record t' { reader = r }) (feed v cur p).0 (feed v cur p).1 d shows
          (All-right IsByte p xs bs) later))

-- The thread turns a sender's encoded frames into the frames themselves: while the flags stay
-- set and the descriptor open it stays in its loop, and the ring then holds them in order behind
-- those it held, each one counted as received, none as dropped or in error. It holds if no
-- segment is open at the start, every frame, encoded, fits the frame buffer, all of them fit the
-- ring, and the counter of frames is below 2 ^ 64.
pub thread_run-sent :
    {rounds : List Round} (t : Thread) (v : View) (fs : List Frame)
    → Delivers rounds (sent fs)
    → Shows t.reader v []
    → All IsSendable fs
    → v.frames < 2 ^ 64
    → used v.queue + used fs ≤ ring_bytes
    → Ran (thread_run t rounds) (queued v fs, [])
thread_run-sent {rounds} t v fs d h short counted fit =
    subst (Ran (thread_run t rounds))
      (feed-sent v fs short ∙ ap (λ w. (w, [])) (accept_frames-fits v fs counted fit))
      (thread_run-feeds t v [] d h (sent-IsByte fs short) (sent-IsFraming fs short))
