-- ===== src/Serial/Threads/Stopping.antt =====
-- The delivery thread on Windows after SerialManager_shutdown has called ring_signal: where it can
-- stand, and how far it is from its end.
use p.Common.{ℕ, ◌≤◌, ◌≡◌, refl, ap, subst, Bool, true, false, List, [], arith}
use p.Serial.State.{Perf}
use p.Serial.Threads.{
  windows, At, looping, looking, testing, dozing, sleeping, notified, unlocked, calling, batching,
  holding, appended, handing, ended, System, Stage, serving, disabled, stopped, ring_signal,
  initial,
}
use p.Serial.Threads.Steps.{
  ReaderStep, pushes, finds_full, ends, WaitStep, leaves, enters, waits, finds_frames, wakes,
  BatchStep, returns, no_list, begins, is_done, finds_none, takes, drops, appends, stops, goes_on,
  hands, ShutdownStep, disables, clears_alive, signals, joins_reader, joins_deliverer, Step,
  reader_step, wait_step, batch_step, shutdown_step, returns_early, Actor, Run, stay, later, loops,
  waits_win,
}

-- Behind the stores to the flags, and behind ring_signal
abbrev pub halts : Stage → Bool
halts serving = false
halts disabled = false
halts stage = true

abbrev pub past : Stage → Bool
past serving = false
past disabled = false
past stopped = false
past stage = true

-- The places of deliver_thread_win, with at most 1024 rounds left
abbrev pub IsPlace : At → Type 0
IsPlace testing = ⊥
IsPlace dozing = ⊥
IsPlace notified = ⊥
IsPlace unlocked = ⊥
IsPlace (batching n t b) = n ≤ 1024
IsPlace (holding n t f b) = n ≤ 1023
IsPlace (appended n t b) = n ≤ 1023
IsPlace a = Unit

-- Where the thread waits or is going to, the event is set.
abbrev pub Alarm : At → Bool → Type 0
Alarm looking event = event ≡ true
Alarm sleeping event = event ≡ true
Alarm a event = Unit

pub record IsStopping (s : System) : Type 0 where
  pub place : IsPlace s.at
  pub halted : halts s.stage ≡ true → s.alive ≡ false
  pub alarm : past s.stage ≡ true → Alarm s.at s.event

alarm_lem : (a : At) → Alarm a true
alarm_lem looking = refl
alarm_lem sleeping = refl
alarm_lem looping = tt
alarm_lem _ = tt

pub past-halts : (t : Stage) → past t ≡ true → halts t ≡ true
past-halts serving h = cc
past-halts disabled h = cc
past-halts stopped h = refl
past-halts _ h = refl

-- To a place where no event is needed
stepped :
    (s : System) (a : At)
    → IsStopping s
    → IsPlace a
    → ((event : Bool) → Alarm a event)
    → IsStopping (record s { at = a })
stepped s a h place alarm = record { place = place; halted = h.halted; alarm = λ x. alarm s.event }

wait-IsStopping : {s t : System} → WaitStep s windows t → IsStopping s → IsStopping t
wait-IsStopping {s} (loops (leaves _ _)) h = stepped s ended h tt (λ x. tt)
wait-IsStopping {s} (loops (enters _ on)) h = record {
  place = tt;
  halted = h.halted;
  alarm = λ x. absurd (alive_past s h on x);
}
  where
    alive_past : (s : System) → IsStopping s → s.alive ≡ true → past s.stage ≡ true → ⊥
    alive_past s h on x = let off = h.halted (past-halts s.stage x) in cc
wait-IsStopping {s} (waits_win (waits e _)) h = record {
  place = tt;
  halted = h.halted;
  alarm = λ x. subst (λ a. Alarm a s.event) e (h.alarm x);
}
wait-IsStopping {s} (waits_win (finds_frames _ _)) h = stepped s calling h tt (λ x. tt)
wait-IsStopping {s} (waits_win (wakes _ _)) h = record {
  place = tt;
  halted = h.halted;
  alarm = λ x. tt;
}

here_lem : (s : System) {a : At} → IsStopping s → s.at ≡ a → IsPlace a
here_lem s h e = subst IsPlace e h.place

batch-IsStopping : {s t : System} → BatchStep s t → IsStopping s → IsStopping t
batch-IsStopping {s} (returns _ _) h = stepped s looping h tt (λ x. tt)
batch-IsStopping {s} (no_list _ _) h = stepped s looping h tt (λ x. tt)
batch-IsStopping {s} (begins stack _ _) h = stepped s (batching 1024 _ []) h (omega arith) (λ x. tt)
batch-IsStopping {s} (is_done t b e) h = stepped s (handing b) h tt (λ x. tt)
batch-IsStopping {s} (finds_none n t b e _) h = stepped s (handing b) h tt (λ x. tt)
batch-IsStopping {s} (takes n len t t' r f b e _ _) h =
    let n_le = here_lem s h e in
    record { place = omega (arith, n_le); halted = h.halted; alarm = λ x. tt }
batch-IsStopping {s} (drops n t f b e) h =
    let n_le = here_lem s h e in stepped s (batching n t b) h (omega (arith, n_le)) (λ x. tt)
batch-IsStopping {s} (appends n t f b e) h = record {
  place = here_lem s h e;
  halted = h.halted;
  alarm = λ x. tt;
}
batch-IsStopping {s} (stops n t b e _) h = stepped s (handing b) h tt (λ x. tt)
batch-IsStopping {s} (goes_on n t b e _) h =
    let n_le = here_lem s h e in stepped s (batching n t b) h (omega (arith, n_le)) (λ x. tt)
batch-IsStopping {s} (hands b e) h = record { place = tt; halted = h.halted; alarm = λ x. tt }

reader-IsStopping : {s t : System} → ReaderStep windows s t → IsStopping s → IsStopping t
unfolding ring_signal
reader-IsStopping {s} (pushes f r _ _ _ _) h = record {
  place = h.place;
  halted = h.halted;
  alarm = λ x. alarm_lem s.at;
}
reader-IsStopping (finds_full f r _ _ _ _) h = record {
  place = h.place;
  halted = h.halted;
  alarm = h.alarm;
}
reader-IsStopping (ends _) h = record { place = h.place; halted = h.halted; alarm = h.alarm }

shutdown-IsStopping : {s t : System} → ShutdownStep windows s t → IsStopping s → IsStopping t
unfolding ring_signal
shutdown-IsStopping (disables _) h = record { place = h.place; halted = λ x. cc; alarm = λ x. cc }
shutdown-IsStopping (clears_alive _) h = record {
  place = h.place;
  halted = λ x. refl;
  alarm = λ x. cc;
}
shutdown-IsStopping {s} (signals e) h = record {
  place = h.place;
  halted = λ x. h.halted (ap halts e);
  alarm = λ x. alarm_lem s.at;
}
shutdown-IsStopping (joins_reader e _) h = record {
  place = h.place;
  halted = λ x. h.halted (ap halts e);
  alarm = λ x. h.alarm (ap past e);
}
shutdown-IsStopping (joins_deliverer e _) h = record {
  place = h.place;
  halted = λ x. h.halted (ap halts e);
  alarm = λ x. h.alarm (ap past e);
}

pub Step-IsStopping : {s t : System} {a : Actor} → Step windows s a t → IsStopping s → IsStopping t
Step-IsStopping (reader_step x) h = reader-IsStopping x h
Step-IsStopping (wait_step x) h = wait-IsStopping x h
Step-IsStopping (batch_step x) h = batch-IsStopping x h
Step-IsStopping (shutdown_step x) h = shutdown-IsStopping x h
Step-IsStopping (returns_early e _) h = absurd cc

pub Run-IsStopping :
    (content : ℕ → ℕ) (perf : Perf) {who : List Actor} {s : System}
    → Run windows (initial content perf) who s
    → IsStopping s
Run-IsStopping content perf stay = record { place = tt; halted = λ x. cc; alarm = λ x. tt }
Run-IsStopping content perf (later r x) = Step-IsStopping x (Run-IsStopping content perf r)
