-- ===== src/Serial/Threads/Hanging.antt =====
-- SerialManager_shutdown may never return on POSIX systems: its signal can come when the delivery
-- thread has tested the flag and does not wait as yet.
use p.Common.{ℕ, ◌≡◌, refl, false, List, [], ◌∷◌}
use p.Serial.State.{Perf}
use p.Serial.Threads.{posix, sleeping, System, reader_joined, ring_signal, initial}
use p.Serial.Threads.Steps.{
  ReaderStep, pushes, finds_full, ends, WaitStep, leaves, enters, locks, dozes, unlocks,
  falls_asleep, locks_again, breaks, calls, BatchStep, returns, no_list, begins, is_done,
  finds_none, takes, drops, appends, stops, goes_on, hands, ShutdownStep, disables, clears_alive,
  signals, joins_reader, joins_deliverer, reader_step, wait_step, batch_step, shutdown_step,
  returns_early, Actor, the_reader, the_deliverer, the_caller, by_chance, Run, stay, later, loops,
  waits_posix,
}

-- No wait returns without a signal.
abbrev pub IsSignalled : List Actor → Type 0
IsSignalled [] = Unit
IsSignalled (the_reader ∷ who) = IsSignalled who
IsSignalled (the_deliverer ∷ who) = IsSignalled who
IsSignalled (the_caller ∷ who) = IsSignalled who
IsSignalled (by_chance ∷ who) = ⊥

-- shutdown waits for the delivery thread, which waits for a signal that nobody is left to send.
pub record IsHung (s : System) : Type 0 where
  pub at : s.at ≡ sleeping
  pub reading : s.reading ≡ false
  pub stage : s.stage ≡ reader_joined

wait-hung : {s t : System} → WaitStep s posix t → s.at ≡ sleeping → ⊥
wait-hung (loops (leaves e _)) h = cc
wait-hung (loops (enters e _)) h = cc
wait-hung (waits_posix (locks e)) h = cc
wait-hung (waits_posix (dozes e _)) h = cc
wait-hung (waits_posix (unlocks e _)) h = cc
wait-hung (waits_posix (falls_asleep e)) h = cc
wait-hung (waits_posix (locks_again e)) h = cc
wait-hung (waits_posix (breaks e _)) h = cc
wait-hung (waits_posix (calls e _)) h = cc

batch-hung : {s t : System} → BatchStep s t → s.at ≡ sleeping → ⊥
batch-hung (returns e _) h = cc
batch-hung (no_list e _) h = cc
batch-hung (begins _ e _) h = cc
batch-hung (is_done _ _ e) h = cc
batch-hung (finds_none _ _ _ e _) h = cc
batch-hung (takes _ _ _ _ _ _ _ e _ _) h = cc
batch-hung (drops _ _ _ _ e) h = cc
batch-hung (appends _ _ _ _ e) h = cc
batch-hung (stops _ _ _ e _) h = cc
batch-hung (goes_on _ _ _ e _) h = cc
batch-hung (hands _ e) h = cc

reader-hung : {s t : System} → ReaderStep posix s t → s.reading ≡ false → ⊥
reader-hung (pushes _ _ on _ _ _) h = cc
reader-hung (finds_full _ _ on _ _ _) h = cc
reader-hung (ends on) h = cc

shutdown-hung :
    {s t : System} → ShutdownStep posix s t → s.stage ≡ reader_joined → s.at ≡ sleeping → ⊥
shutdown-hung (disables e) h at = cc
shutdown-hung (clears_alive e) h at = cc
shutdown-hung (signals e) h at = cc
shutdown-hung (joins_reader e _) h at = cc
shutdown-hung (joins_deliverer _ e) h at = cc

-- No thread can make a step.
hung_lem :
    (s : System) {who : List Actor} {t : System}
    → IsSignalled who
    → IsHung s
    → Run posix s who t
    → IsHung t
hung_lem s w h stay = h
hung_lem s w h (later r (reader_step x)) = absurd (reader-hung x (hung_lem s w h r).reading)
hung_lem s w h (later r (wait_step x)) = absurd (wait-hung x (hung_lem s w h r).at)
hung_lem s w h (later r (batch_step x)) = absurd (batch-hung x (hung_lem s w h r).at)
hung_lem s w h (later r (shutdown_step x)) =
    let k = hung_lem s w h r in absurd (shutdown-hung x k.stage k.at)
hung_lem s w h (later r (returns_early _ _)) = absurd w

-- The delivery thread is between its test of alive and pthread_cond_wait when shutdown signals.
abbrev schedule : List Actor
schedule =
    the_caller ∷ the_reader ∷ the_deliverer ∷ the_caller ∷ the_caller ∷ the_caller ∷ the_deliverer
    ∷ the_deliverer ∷ the_deliverer ∷ []

abbrev hung : (ℕ → ℕ) → Perf → System
hung content perf = record (initial content perf) {
  alive = false;
  py_enabled = false;
  at = sleeping;
  reading = false;
  stage = reader_joined;
}

hung_run :
    (content : ℕ → ℕ) (perf : Perf) → Run posix (initial content perf) schedule (hung content perf)
unfolding ring_signal
hung_run content perf =
    later
      (later
        (later
          (later
            (later
              (later
                (later
                  (later (later stay (wait_step (loops (enters refl refl))))
                    (wait_step (waits_posix (locks refl))))
                  (wait_step (waits_posix (dozes refl refl))))
                (shutdown_step (disables refl)))
              (shutdown_step (clears_alive refl)))
            (shutdown_step (signals refl)))
          (wait_step (waits_posix (falls_asleep refl))))
        (reader_step (ends refl)))
      (shutdown_step (joins_reader refl refl))

-- On POSIX systems, whatever the ring's block and the counters hold at the start, there is a run
-- in which no wait returns without a signal and at whose end shutdown has signalled and joined
-- the reader, which has ended, while the delivery thread sleeps; and every further run in which
-- no wait returns without a signal leaves it so, with shutdown in its join.
pub shutdown_hangs :
    (content : ℕ → ℕ) (perf : Perf)
    → (before : List Actor) × (s : System) × Run posix (initial content perf) before s
      × IsSignalled before
      × IsHung s
      × ((who : List Actor) (t : System) → IsSignalled who → Run posix s who t → IsHung t)
shutdown_hangs content perf = (
  schedule,
  hung content perf,
  hung_run content perf,
  tt,
  record { at = refl; reading = refl; stage = refl },
  λ who t w r.
      hung_lem (hung content perf) w (record { at = refl; reading = refl; stage = refl }) r,
)
