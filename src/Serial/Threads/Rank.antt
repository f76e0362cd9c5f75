-- ===== src/Serial/Threads/Rank.antt =====
-- How many steps the delivery thread of Windows has left once SerialManager_shutdown has cleared
-- the flags: its own steps count down, and the other threads' leave it where it is.
use p.Common.{
  ℕ, suc, ◌+◌, ◌*◌, ◌≤◌, ◌<◌, ◌≡◌, refl, ap, Bool, true, false, List, [], ◌∷◌, ◌&&◌, arith,
}
use p.Serial.Threads.Stopping.{past, IsPlace}
use p.Serial.Threads.{
  windows, At, looping, looking, sleeping, calling, batching, holding, appended, handing, System,
  ring_signal,
}
use p.Serial.Threads.Steps.{
  ReaderStep, pushes, finds_full, ends, WaitStep, leaves, enters, waits, finds_frames, wakes,
  BatchStep, returns, no_list, begins, is_done, finds_none, takes, drops, appends, stops, goes_on,
  hands, ShutdownStep, disables, clears_alive, signals, joins_reader, joins_deliverer, Step,
  reader_step, wait_step, batch_step, shutdown_step, returns_early, Actor, the_reader,
  the_deliverer, the_caller, by_chance, loops, waits_win,
}

-- How many steps the thread has left at most, once alive is cleared
abbrev pub rank : At → ℕ
rank looping = 1
rank sleeping = 2
rank (handing b) = 2
rank (batching n t b) = 3 * n + 3
rank (appended n t b) = 3 * n + 4
rank (holding n t f b) = 3 * n + 5
rank calling = 3076
rank looking = 3077
rank a = 0

pub rank_le : (a : At) → IsPlace a → rank a ≤ 3077
rank_le looping h = omega arith
rank_le looking h = omega arith
rank_le sleeping h = omega arith
rank_le calling h = omega arith
rank_le (batching n t b) h = omega arith
rank_le (holding n t f b) h = omega arith
rank_le (appended n t b) h = omega arith
rank_le (handing b) h = omega arith
rank_le _ h = omega arith

pub wait-rank : {s t : System} → WaitStep s windows t → s.alive ≡ false → rank t.at < rank s.at
wait-rank (loops (leaves e _)) off = omega (arith, ap rank e)
wait-rank (loops (enters e on)) off = absurd cc
wait-rank (waits_win (waits e _)) off = omega (arith, ap rank e)
wait-rank (waits_win (finds_frames e _)) off = omega (arith, ap rank e)
wait-rank (waits_win (wakes e _)) off = omega (arith, ap rank e)

pub batch-rank : {s t : System} → BatchStep s t → s.alive ≡ false → rank t.at < rank s.at
batch-rank (returns e _) off = omega (arith, ap rank e)
batch-rank (no_list e _) off = omega (arith, ap rank e)
batch-rank (begins stack e _) off = omega (arith, ap rank e)
batch-rank (is_done t b e) off = omega (arith, ap rank e)
batch-rank (finds_none n t b e _) off = omega (arith, ap rank e)
batch-rank (takes n len t t' r f b e _ _) off = omega (arith, ap rank e)
batch-rank (drops n t f b e) off = omega (arith, ap rank e)
batch-rank (appends n t f b e) off = omega (arith, ap rank e)
batch-rank (stops n t b e _) off = omega (arith, ap rank e)
batch-rank {s} (goes_on n t b e on) off = absurd (off_on s.alive s.py_enabled off on)
  where
    off_on : (a b : Bool) → a ≡ false → a && b ≡ true → ⊥
    off_on true b off on = cc
    off_on false b off on = cc
batch-rank (hands b e) off = omega (arith, ap rank e)

-- The steps of the delivery thread
abbrev pub own : List Actor → ℕ
own [] = 0
own (the_deliverer ∷ who) = suc (own who)
own (the_reader ∷ who) = own who
own (the_caller ∷ who) = own who
own (by_chance ∷ who) = own who

pub reader-rank : {s t : System} → ReaderStep windows s t → rank t.at ≡ rank s.at
unfolding ring_signal
reader-rank (pushes f r _ _ _ _) = refl
reader-rank (finds_full f r _ _ _ _) = refl
reader-rank (ends _) = refl

pub shutdown-rank : {s t : System} → ShutdownStep windows s t → rank t.at ≡ rank s.at
unfolding ring_signal
shutdown-rank (disables _) = refl
shutdown-rank (clears_alive _) = refl
shutdown-rank (signals _) = refl
shutdown-rank (joins_reader _ _) = refl
shutdown-rank (joins_deliverer _ _) = refl

-- ring_signal is not taken back.
reader-past : {s t : System} → ReaderStep windows s t → past s.stage ≡ true → past t.stage ≡ true
unfolding ring_signal
reader-past (pushes f r _ _ _ _) h = h
reader-past (finds_full f r _ _ _ _) h = h
reader-past (ends _) h = h

wait-past : {s t : System} → WaitStep s windows t → past s.stage ≡ true → past t.stage ≡ true
wait-past (loops (leaves _ _)) h = h
wait-past (loops (enters _ _)) h = h
wait-past (waits_win (waits _ _)) h = h
wait-past (waits_win (finds_frames _ _)) h = h
wait-past (waits_win (wakes _ _)) h = h

batch-past : {s t : System} → BatchStep s t → past s.stage ≡ true → past t.stage ≡ true
batch-past (returns _ _) h = h
batch-past (no_list _ _) h = h
batch-past (begins _ _ _) h = h
batch-past (is_done _ _ _) h = h
batch-past (finds_none _ _ _ _ _) h = h
batch-past (takes _ _ _ _ _ _ _ _ _ _) h = h
batch-past (drops _ _ _ _ _) h = h
batch-past (appends _ _ _ _ _) h = h
batch-past (stops _ _ _ _ _) h = h
batch-past (goes_on _ _ _ _ _) h = h
batch-past (hands _ _) h = h

shutdown-past :
    {s t : System} → ShutdownStep windows s t → past s.stage ≡ true → past t.stage ≡ true
shutdown-past (disables e) h = absurd cc
shutdown-past (clears_alive e) h = absurd cc
shutdown-past (signals e) h = refl
shutdown-past (joins_reader e _) h = refl
shutdown-past (joins_deliverer e _) h = refl

pub Step-past :
    {s t : System} {a : Actor} → Step windows s a t → past s.stage ≡ true → past t.stage ≡ true
Step-past (reader_step x) h = reader-past x h
Step-past (wait_step x) h = wait-past x h
Step-past (batch_step x) h = batch-past x h
Step-past (shutdown_step x) h = shutdown-past x h
Step-past (returns_early _ _) h = h
