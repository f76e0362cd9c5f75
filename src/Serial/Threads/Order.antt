-- ===== src/Serial/Threads/Order.antt =====
-- No frame is lost, doubled or overtaken between ring_push and put_nowait, however the threads
-- interleave.
use p.Common.{
  ℕ, ◌≡◌, refl, sym, ap, ◌∙◌, subst, true, false, List, [], ◌∷◌, ◌++◌, arith, append_assoc,
  append-nil,
}
use p.Serial.State.{Perf}
use p.Serial.Ring.Fifo.{empty_ring-Holds}
use p.Serial.Ring.Pop.{ring_pop-refines}
use p.Serial.DeliverThread.Arrivals.{joined}
use p.Serial.Threads.InOrder.{InOrder, IsOrdered, moved, handed_lem, taken_lem, pushed_lem}
use p.Serial.Threads.Places.{
  batch_of, held, HasTmp, batch_of-notify, held-notify, notify-HasTmp, done, Picks_less,
}
use p.Serial.Threads.{
  Os, posix, windows, At, looping, looking, testing, dozing, sleeping, notified, unlocked, calling,
  batching, handing, ended, System, notify, ring_signal, accept, initial,
}
use p.Serial.Threads.Steps.{
  ReaderStep, pushes, finds_full, ends, WaitStep, leaves, enters, locks, dozes, unlocks,
  falls_asleep, locks_again, breaks, calls, waits, finds_frames, wakes, BatchStep, returns, no_list,
  begins, is_done, finds_none, takes, drops, appends, stops, goes_on, hands, ShutdownStep, disables,
  clears_alive, signals, joins_reader, joins_deliverer, Step, reader_step, wait_step, batch_step,
  shutdown_step, returns_early, Actor, Run, stay, later, loops, waits_posix, waits_win,
}

goes :
    (s : System) {a : At} (b : At)
    → s.at ≡ a
    → batch_of a ≡ batch_of b
    → held a ≡ held b
    → (HasTmp a → HasTmp b)
    → IsOrdered s
    → IsOrdered (record s { at = b })
goes s b e p q t (queue, i) =
    (queue, moved b p q t (subst (λ x. InOrder s.shared.ring x s.history queue) e i))

notified-IsOrdered : (os : Os) (s : System) → IsOrdered s → IsOrdered (ring_signal os s)
unfolding ring_signal
notified-IsOrdered posix s (q, i) =
    (q, moved (notify s.at) (batch_of-notify s.at) (held-notify s.at) (notify-HasTmp s.at) i)
notified-IsOrdered windows s h = h

wait-IsOrdered : {os : Os} {s t : System} → WaitStep s os t → IsOrdered s → IsOrdered t
wait-IsOrdered {s} (loops (leaves e _)) h = goes s ended e refl refl (λ x. x) h
wait-IsOrdered {s} (loops (enters e _)) h = goes s looking e refl refl (λ x. x) h
wait-IsOrdered {s} (waits_posix (locks e)) h = goes s testing e refl refl (λ x. x) h
wait-IsOrdered {s} (waits_posix (dozes e _)) h = goes s dozing e refl refl (λ x. x) h
wait-IsOrdered {s} (waits_posix (unlocks e _)) h = goes s unlocked e refl refl (λ x. x) h
wait-IsOrdered {s} (waits_posix (falls_asleep e)) h = goes s sleeping e refl refl (λ x. x) h
wait-IsOrdered {s} (waits_posix (locks_again e)) h = goes s testing e refl refl (λ x. x) h
wait-IsOrdered {s} (waits_posix (breaks e _)) h = goes s ended e refl refl (λ x. x) h
wait-IsOrdered {s} (waits_posix (calls e _)) h = goes s calling e refl refl (λ x. x) h
wait-IsOrdered {s} (waits_win (waits e _)) h = goes s sleeping e refl refl (λ x. x) h
wait-IsOrdered {s} (waits_win (finds_frames e _)) h = goes s calling e refl refl (λ x. x) h
wait-IsOrdered {s} (waits_win (wakes e _)) h = goes s looping e refl refl (λ x. x) h

batch-IsOrdered : {s t : System} → BatchStep s t → IsOrdered s → IsOrdered t
batch-IsOrdered {s} (returns e _) h = goes s looping e refl refl (λ x. x) h
batch-IsOrdered {s} (no_list e _) h = goes s looping e refl refl (λ x. x) h
batch-IsOrdered {s} (begins stack e _) h = goes s (batching 1024 _ []) e refl refl (λ x. refl) h
batch-IsOrdered {s} (is_done t b e) h = goes s (handing b) e refl refl (λ x. tt) h
batch-IsOrdered {s} (finds_none n t b e _) h = goes s (handing b) e refl refl (λ x. tt) h
batch-IsOrdered {s} (takes n len t t' r f b e p c) (q, i) =
    let j = subst (λ x. InOrder s.shared.ring x s.history q) e i in
    taken_lem s.shared.ring r s.history q n len t t' f b j p c
      (ring_pop-refines s.shared.ring q t j.ring (omega (arith, j.tmp)))
batch-IsOrdered {s} (drops n t f b e) (q, i) =
    let j = subst (λ x. InOrder s.shared.ring x s.history q) e i in
    (
      q,
      record {
        ring = j.ring;
        order = j.order;
        batches = j.batches;
        picked =
            rw (append-nil s.history.kept) (Picks_less s.history.taken s.history.kept f j.picked);
        tmp = j.tmp;
      },
    )
batch-IsOrdered {s} (appends n t f b e) (q, i) =
    let j = subst (λ x. InOrder s.shared.ring x s.history q) e i in
    (
      q,
      record {
        ring = j.ring;
        order = j.order;
        batches =
            sym (append_assoc (joined s.history.given) b (f ∷ []))
            ∙ ap (λ l. l ++ (f ∷ [])) j.batches;
        picked = rw (append-nil (s.history.kept ++ (f ∷ []))) j.picked;
        tmp = j.tmp;
      },
    )
batch-IsOrdered {s} (stops n t b e _) h = goes s (handing b) e refl refl (λ x. tt) h
batch-IsOrdered {s} (goes_on n t b e _) h = goes s (batching n t b) e refl refl (λ x. x) h
batch-IsOrdered {s} (hands b e) (q, i) = (
  q,
  handed_lem s.shared.ring s.history q b (subst (λ x. InOrder s.shared.ring x s.history q) e i),
)

reader-IsOrdered : {os : Os} {s t : System} → ReaderStep os s t → IsOrdered s → IsOrdered t
reader-IsOrdered {os} {s} (pushes f r _ _ short e) (q, i) =
    notified-IsOrdered os (record s { shared = r; history = accept s.history f })
      (q ++ (f ∷ []), pushed_lem s.shared r s.at s.history q f true i short e)
reader-IsOrdered {s} (finds_full f r _ _ short e) (q, i) =
    (q, pushed_lem s.shared r s.at s.history q f false i short e)
reader-IsOrdered (ends _) h = h

shutdown-IsOrdered : {os : Os} {s t : System} → ShutdownStep os s t → IsOrdered s → IsOrdered t
shutdown-IsOrdered (disables _) h = h
shutdown-IsOrdered (clears_alive _) h = h
shutdown-IsOrdered {os} {s} (signals _) h = notified-IsOrdered os s h
shutdown-IsOrdered (joins_reader _ _) h = h
shutdown-IsOrdered (joins_deliverer _ _) h = h

pub Step-IsOrdered :
    {os : Os} {s t : System} {a : Actor} → Step os s a t → IsOrdered s → IsOrdered t
Step-IsOrdered (reader_step x) h = reader-IsOrdered x h
Step-IsOrdered (wait_step x) h = wait-IsOrdered x h
Step-IsOrdered (batch_step x) h = batch-IsOrdered x h
Step-IsOrdered (shutdown_step x) h = shutdown-IsOrdered x h
Step-IsOrdered {s} (returns_early _ e) h = goes s notified e refl refl (λ x. x) h

-- However the reader thread, the delivery thread and a shutdown interleave, on either system:
-- the frames that were taken out of the ring, followed by those that it holds, are the frames
-- that ring_push has accepted, each once and in order; the batches that put_nowait got, joined
-- and followed by the batch in the making, are the frames that came into a batch; and these,
-- with the frame that the thread holds, are some of the frames taken, in their order.
pub Run-IsOrdered :
    {os : Os} (content : ℕ → ℕ) (perf : Perf) {who : List Actor} {s : System}
    → Run os (initial content perf) who s
    → IsOrdered s
Run-IsOrdered content perf stay = (
  [],
  record { ring = empty_ring-Holds content; order = refl; batches = refl; picked = done; tmp = tt },
)
Run-IsOrdered content perf (later r x) = Step-IsOrdered x (Run-IsOrdered content perf r)
