-- ===== src/Tests/ThreadTests.antt =====
-- Runs of the threads that share the ring.
use p.Common.{ℕ, ◌≤◌, ◌≡◌, refl, true, List, [], ◌∷◌, ◌⊎◌, ◌^◌, ap, ◌∙◌, arith}
use p.Serial.State.{Shared}
use p.Memory.{Buffer}
use p.Serial.Manager.{no_perf}
use p.Serial.Threads.{Os, posix, windows, sleeping, ended, System, is_empty, ring_signal, initial}
use p.Serial.Threads.Steps.{
  pushes, leaves, enters, waits, finds_frames, wakes, begins, takes, appends, disables,
  clears_alive, signals, reader_step, wait_step, batch_step, shutdown_step, Actor, the_reader,
  the_deliverer, the_caller, Run, stay, later, loops, waits_win,
}
use p.Serial.Ring.Fifo.{Holds, empty_ring-Holds}
use p.Serial.Ring.Push.{ring_push-refines}
use p.Serial.Ring.{ring_pop}
use p.Serial.Ring.Pop.{ring_pop-refines}
use p.Serial.DeliverThread.Serve.{filled_ring_lem}
use p.Serial.Threads.Sleep.{Run-sleeping}
use p.Serial.Threads.Stopping.{past}
use p.Serial.Threads.Ending.{Moves, shutdown_ends}
use p.Serial.Threads.Hanging.{IsSignalled, IsHung, shutdown_hangs}
use p.Serial.Threads.InOrder.{IsOrdered}
use p.Serial.Threads.Order.{Run-IsOrdered}

abbrev begun : System
begun = initial (λ i. 0) no_perf

abbrev Reached : Os → List Actor → Type 0
Reached os who = (s : System) × Run os begun who s

abbrev message : List ℕ
message = 7 ∷ 8 ∷ []

abbrev before : List Actor
before = the_reader ∷ the_deliverer ∷ the_deliverer ∷ []

-- The delivery thread waits on the event, and a frame comes.
signalled :
    (r : Shared) × Holds r.ring (message ∷ [])
    × (s : System) × (s.shared ≡ r)
    × (s.alive ≡ true)
    × (s.py_enabled ≡ true)
    × (s.at ≡ sleeping)
    × (s.event ≡ true)
    × Run windows begun before s
unfolding ring_signal
signalled =
    let (r, e, holds, _, _) =
      ring_push-refines begun.shared [] message (empty_ring-Holds (λ i. 0)) (omega arith) in
    (
      r,
      holds,
      _,
      refl,
      refl,
      refl,
      refl,
      refl,
      later
          (later (later stay (wait_step (loops (enters refl refl))))
            (wait_step (waits_win (waits refl refl))))
          (reader_step (pushes message r refl refl (omega arith) e)),
    )

abbrev tmp : Buffer
tmp = record { size = 2 ^ 16; cell = λ i. 0 }

abbrev steps_after : List Actor
steps_after =
    the_deliverer ∷ the_deliverer ∷ the_deliverer ∷ the_deliverer ∷ the_deliverer ∷ the_deliverer
    ∷ before

-- It wakes up, finds the frame, takes it and appends it.
delivery_run : (s : System) × Run windows begun steps_after s
delivery_run =
    let (r, holds, s, shared, on, enabled, at, event, run) = signalled in
    let filled = filled_ring_lem r.ring message [] holds in
    let (g, r', p, c, _) = ring_pop-refines r.ring (message ∷ []) tmp holds (omega arith) in
    (
      _,
      later
          (later
            (later
              (later
                (later (later run (wait_step (waits_win (wakes at event))))
                  (wait_step (loops (enters refl on))))
                (wait_step (
                  waits_win
                    (finds_frames refl (ap (λ (x : Shared). is_empty x.ring) shared ∙ filled)))))
              (batch_step (begins (λ i. 0) refl enabled)))
            (batch_step (
              takes 1023 2 tmp (record tmp { cell = g }) r' message [] refl
                (ap (λ (x : Shared). ring_pop x.ring tmp) shared ∙ p) c)))
          (batch_step (appends 1023 _ message [] refl)),
    )

Run-IsOrdered_example : IsOrdered delivery_run.0
Run-IsOrdered_example = Run-IsOrdered (λ i. 0) no_perf delivery_run.1

Run-sleeping_example :
    (is_empty signalled.2.shared.ring ≡ true) ⊎ ((windows ≡ windows) × (signalled.2.event ≡ true))
Run-sleeping_example = Run-sleeping (λ i. 0) no_perf signalled.8 signalled.6

-- Behind shutdown's signal, and when the thread has ended
signals_run :
    (s : System) × (past s.stage ≡ true)
    × (t : System) × Run windows begun
        (the_caller ∷ the_caller ∷ the_caller ∷ the_deliverer ∷ the_deliverer ∷ [])
        s
    × Run windows s (the_deliverer ∷ the_deliverer ∷ []) t
unfolding ring_signal
signals_run = (
  _,
  refl,
  _,
  later
      (later
        (later
          (later (later stay (wait_step (loops (enters refl refl))))
            (wait_step (waits_win (waits refl refl))))
          (shutdown_step (disables refl)))
        (shutdown_step (clears_alive refl)))
      (shutdown_step (signals refl)),
  later (later stay (wait_step (waits_win (wakes refl refl))))
      (wait_step (loops (leaves refl refl))),
)

shutdown_ends_example : (2 ≤ 3077) × ((signals_run.2.at ≡ ended) ⊎ Moves signals_run.2)
shutdown_ends_example = shutdown_ends (λ i. 0) no_perf signals_run.3 signals_run.1 signals_run.4

shutdown_hangs_example :
    (steps : List Actor) × (s : System) × Run posix begun steps s
    × IsSignalled steps
    × IsHung s
    × ((who : List Actor) (t : System) → IsSignalled who → Run posix s who t → IsHung t)
shutdown_hangs_example = shutdown_hangs (λ i. 0) no_perf
