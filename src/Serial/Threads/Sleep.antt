-- ===== src/Serial/Threads/Sleep.antt =====
-- No wake-up for a frame is lost, however the threads interleave.
use p.Common.{ℕ, ◌≡◌, refl, sym, ◌∙◌, subst, Bool, true, false, List, [], ◌∷◌, ◌⊎◌, inl, inr, ◌&&◌}
use p.Serial.State.{Perf, Ring}
use p.Serial.Queue.{Queue}
use p.Serial.Ring.Fifo.{Holds}
use p.Serial.DeliverThread.Serve.{empty_ring_lem, filled_ring_lem}
use p.Serial.Threads.InOrder.{IsOrdered, pushed_lem}
use p.Serial.Threads.Order.{Run-IsOrdered}
use p.Serial.Threads.{
  Os, posix, windows, At, looping, looking, dozing, sleeping, notified, batching, holding, appended,
  handing, ended, System, notify, locked, is_empty, ring_signal, initial,
}
use p.Serial.Threads.Steps.{
  ReaderStep, pushes, finds_full, ends, WaitStep, leaves, enters, locks, dozes, unlocks,
  falls_asleep, locks_again, breaks, calls, waits, finds_frames, wakes, BatchStep, returns, no_list,
  begins, is_done, finds_none, takes, drops, appends, stops, goes_on, hands, ShutdownStep, disables,
  clears_alive, signals, joins_reader, joins_deliverer, Step, reader_step, wait_step, batch_step,
  shutdown_step, returns_early, Actor, Run, stay, later, loops, waits_posix, waits_win,
}

-- Whether the thread may be at this place, if the ring is empty or not and the event is set or
-- not.
abbrev pub MayBe : Os → At → Bool → Bool → Type 0
MayBe posix dozing empty event = empty ≡ true
MayBe posix sleeping empty event = empty ≡ true
MayBe windows sleeping empty event = (empty ≡ true) ⊎ (event ≡ true)
MayBe os a empty event = Unit

abbrev IsAwake : Os → System → Type 0
IsAwake os s = MayBe os s.at (is_empty s.shared.ring) s.event

-- Places where nothing is asked
abbrev IsUp : At → Type 0
IsUp dozing = ⊥
IsUp sleeping = ⊥
IsUp a = Unit

up_MayBe : (os : Os) (a : At) (empty event : Bool) → IsUp a → MayBe os a empty event
up_MayBe posix dozing empty event h = absurd h
up_MayBe posix sleeping empty event h = absurd h
up_MayBe posix looping empty event h = tt
up_MayBe posix _ empty event h = tt
up_MayBe windows sleeping empty event h = absurd h
up_MayBe windows looping empty event h = tt
up_MayBe windows _ empty event h = tt

same_empty : (r r' : Ring) (q : Queue) → Holds r q → Holds r' q → is_empty r ≡ is_empty r'
same_empty r r' [] h h' = empty_ring_lem r h ∙ sym (empty_ring_lem r' h')
same_empty r r' (f ∷ q) h h' = filled_ring_lem r f q h ∙ sym (filled_ring_lem r' f q h')

notify-MayBe :
    (a : At) (empty event : Bool) → MayBe posix a empty event → MayBe posix (notify a) empty event
notify-MayBe dozing empty event h = h
notify-MayBe sleeping empty event h = tt
notify-MayBe looping empty event h = tt
notify-MayBe _ empty event h = tt

-- A push: the ring may have been empty, but a thread that holds the lock does not sleep.
roused_MayBe : (a : At) (empty event : Bool) → locked a ≡ false → MayBe posix (notify a) empty event
roused_MayBe dozing empty event h = cc
roused_MayBe sleeping empty event h = tt
roused_MayBe looping empty event h = tt
roused_MayBe _ empty event h = tt

armed_MayBe : (a : At) (empty : Bool) → MayBe windows a empty true
armed_MayBe sleeping empty = inr refl
armed_MayBe looping empty = tt
armed_MayBe _ empty = tt

push-IsAwake : (os : Os) (s : System) → locked s.at ≡ false → IsAwake os (ring_signal os s)
unfolding ring_signal
push-IsAwake posix s free = roused_MayBe s.at (is_empty s.shared.ring) s.event free
push-IsAwake windows s free = armed_MayBe s.at (is_empty s.shared.ring)

signal-IsAwake : (os : Os) (s : System) → IsAwake os s → IsAwake os (ring_signal os s)
unfolding ring_signal
signal-IsAwake posix s h = notify-MayBe s.at (is_empty s.shared.ring) s.event h
signal-IsAwake windows s h = armed_MayBe s.at (is_empty s.shared.ring)

and_right : (a b : Bool) → a && b ≡ true → b ≡ true
and_right true b h = h
and_right false b h = cc

wait-IsAwake : {os : Os} {s t : System} → WaitStep s os t → IsAwake os s → IsAwake os t
wait-IsAwake {os} (loops (leaves e _)) h = up_MayBe os ended _ _ tt
wait-IsAwake {os} (loops (enters e _)) h = up_MayBe os looking _ _ tt
wait-IsAwake (waits_posix (locks e)) h = tt
wait-IsAwake {s} (waits_posix (dozes e c)) h = and_right s.alive (is_empty s.shared.ring) c
wait-IsAwake (waits_posix (unlocks e _)) h = tt
wait-IsAwake {s} (waits_posix (falls_asleep e)) h =
    subst (λ a. MayBe posix a (is_empty s.shared.ring) s.event) e h
wait-IsAwake (waits_posix (locks_again e)) h = tt
wait-IsAwake (waits_posix (breaks e _)) h = tt
wait-IsAwake (waits_posix (calls e _)) h = tt
wait-IsAwake (waits_win (waits e c)) h = inl c
wait-IsAwake (waits_win (finds_frames e _)) h = tt
wait-IsAwake (waits_win (wakes e _)) h = tt

batch-IsAwake : (os : Os) {s t : System} → BatchStep s t → IsAwake os t
batch-IsAwake os (returns _ _) = up_MayBe os looping _ _ tt
batch-IsAwake os (no_list _ _) = up_MayBe os looping _ _ tt
batch-IsAwake os (begins stack _ _) = up_MayBe os (batching _ _ _) _ _ tt
batch-IsAwake os (is_done t b _) = up_MayBe os (handing b) _ _ tt
batch-IsAwake os (finds_none n t b _ _) = up_MayBe os (handing b) _ _ tt
batch-IsAwake os (takes n len t t' r f b _ _ _) = up_MayBe os (holding n t' f b) _ _ tt
batch-IsAwake os (drops n t f b _) = up_MayBe os (batching n t b) _ _ tt
batch-IsAwake os (appends n t f b _) = up_MayBe os (appended n t _) _ _ tt
batch-IsAwake os (stops n t b _ _) = up_MayBe os (handing b) _ _ tt
batch-IsAwake os (goes_on n t b _ _) = up_MayBe os (batching n t b) _ _ tt
batch-IsAwake os (hands b _) = up_MayBe os looping _ _ tt

reader-IsAwake :
    {os : Os} {s t : System} → ReaderStep os s t → IsOrdered s → IsAwake os s → IsAwake os t
reader-IsAwake {os} (pushes f r _ free _ _) o h = push-IsAwake os _ free
reader-IsAwake {os} {s} (finds_full f r _ _ short e) (q, i) h =
    let j = pushed_lem s.shared r s.at s.history q f false i short e in
    subst (λ x. MayBe os s.at x s.event) (same_empty s.shared.ring r.ring q i.ring j.ring) h
reader-IsAwake (ends _) o h = h

shutdown-IsAwake : {os : Os} {s t : System} → ShutdownStep os s t → IsAwake os s → IsAwake os t
shutdown-IsAwake (disables _) h = h
shutdown-IsAwake (clears_alive _) h = h
shutdown-IsAwake {os} {s} (signals _) h = signal-IsAwake os s h
shutdown-IsAwake (joins_reader _ _) h = h
shutdown-IsAwake (joins_deliverer _ _) h = h

Step-IsAwake :
    {os : Os} {s t : System} {a : Actor} → Step os s a t → IsOrdered s → IsAwake os s → IsAwake os t
Step-IsAwake (reader_step x) o h = reader-IsAwake x o h
Step-IsAwake (wait_step x) o h = wait-IsAwake x h
Step-IsAwake {os} (batch_step x) o h = batch-IsAwake os x
Step-IsAwake (shutdown_step x) o h = shutdown-IsAwake x h
Step-IsAwake {os} (returns_early _ _) o h = up_MayBe os notified _ _ tt

Run-IsAwake :
    {os : Os} (content : ℕ → ℕ) (perf : Perf) {who : List Actor} {s : System}
    → Run os (initial content perf) who s
    → IsAwake os s
Run-IsAwake {os} content perf stay = up_MayBe os looping _ _ tt
Run-IsAwake content perf (later r x) =
    Step-IsAwake x (Run-IsOrdered content perf r) (Run-IsAwake content perf r)

asleep_lem :
    (os : Os) (empty event : Bool)
    → MayBe os sleeping empty event
    → (empty ≡ true) ⊎ ((os ≡ windows) × (event ≡ true))
asleep_lem posix empty event h = inl h
asleep_lem windows empty event (inl h) = inl h
asleep_lem windows empty event (inr h) = inr (refl, h)

-- However the threads interleave: when the delivery thread waits in pthread_cond_wait or in
-- WaitForSingleObject, then the ring is empty or, on Windows, the event is set, so that the wait
-- ends at once.
pub Run-sleeping :
    {os : Os} (content : ℕ → ℕ) (perf : Perf) {who : List Actor} {s : System}
    → Run os (initial content perf) who s
    → s.at ≡ sleeping
    → (is_empty s.shared.ring ≡ true) ⊎ ((os ≡ windows) × (s.event ≡ true))
Run-sleeping {os} content perf {s} r e =
    asleep_lem os (is_empty s.shared.ring) s.event
      (subst (λ a. MayBe os a (is_empty s.shared.ring) s.event) e (Run-IsAwake content perf r))
