-- ===== src/Serial/Threads/Steps.antt =====
-- The steps of the threads that share the ring in mp_serial_ext.c.
use p.Common.{ℕ, suc, ◌^◌, ◌<◌, ◌≡◌, true, false, List, [], ◌∷◌, ◌++◌, some, none, length, ◌&&◌}
use p.Memory.{Buffer, copy_out}
use p.Serial.State.{Ring, Shared}
use p.Serial.Queue.{Frame}
use p.Serial.Ring.{ring_push, ring_pop}
use p.Serial.Deliver.{count_delivered}
use p.Serial.Threads.{
  Os, posix, windows, looping, looking, testing, dozing, sleeping, notified, unlocked, calling,
  batching, holding, appended, handing, ended, serving, disabled, stopped, signalled, reader_joined,
  joined, History, System, ring_signal, locked, is_empty, accept,
}

-- The reader thread as the ring sees it: it pushes frames, of lengths that uint16_t holds, and may
-- leave its loop at any time.
pub data ReaderStep (os : Os) (s : System) : System → Type 0 where
  pushes :
      (f : Frame) (r : Shared)
      → s.reading ≡ true
      → locked s.at ≡ false
      → length f < 2 ^ 16
      → ring_push s.shared f ≡ some (r, true)
      → ReaderStep os s (ring_signal os (record s { shared = r; history = accept s.history f }))
  finds_full :
      (f : Frame) (r : Shared)
      → s.reading ≡ true
      → locked s.at ≡ false
      → length f < 2 ^ 16
      → ring_push s.shared f ≡ some (r, false)
      → ReaderStep os s (record s { shared = r })
  ends : s.reading ≡ true → ReaderStep os s (record s { reading = false })

-- `while (self->alive)` of the delivery thread
pub data LoopStep (s : System) : System → Type 0 where
  leaves : s.at ≡ looping → s.alive ≡ false → LoopStep s (record s { at = ended })
  enters : s.at ≡ looping → s.alive ≡ true → LoopStep s (record s { at = looking })

-- The body of deliver_thread_posix up to the call. pthread_cond_wait gives up the lock and begins
-- to wait in one step.
pub data PosixStep (s : System) : System → Type 0 where
  locks : s.at ≡ looking → PosixStep s (record s { at = testing })
  dozes :
      s.at ≡ testing
      → s.alive && is_empty s.shared.ring ≡ true
      → PosixStep s (record s { at = dozing })
  unlocks :
      s.at ≡ testing
      → s.alive && is_empty s.shared.ring ≡ false
      → PosixStep s (record s { at = unlocked })
  falls_asleep : s.at ≡ dozing → PosixStep s (record s { at = sleeping })
  locks_again : s.at ≡ notified → PosixStep s (record s { at = testing })
  breaks : s.at ≡ unlocked → s.alive ≡ false → PosixStep s (record s { at = ended })
  calls : s.at ≡ unlocked → s.alive ≡ true → PosixStep s (record s { at = calling })

-- The body of deliver_thread_win up to the call; h_ring_event is set by SerialManager_init.
-- WaitForSingleObject ends when the event is set, and resets it.
pub data WinStep (s : System) : System → Type 0 where
  waits : s.at ≡ looking → is_empty s.shared.ring ≡ true → WinStep s (record s { at = sleeping })
  finds_frames :
      s.at ≡ looking → is_empty s.shared.ring ≡ false → WinStep s (record s { at = calling })
  wakes : s.at ≡ sleeping → s.event ≡ true → WinStep s (record s { at = looping; event = false })

pub data WaitStep (s : System) : Os → System → Type 0 where
  loops : {os : Os} {t : System} → LoopStep s t → WaitStep s os t
  waits_posix : {t : System} → PosixStep s t → WaitStep s posix t
  waits_win : {t : System} → WinStep s t → WaitStep s windows t

abbrev pub hand : History → List Frame → History
hand h [] = h
hand h (f ∷ b) = record h { given = h.given ++ ((f ∷ b) ∷ []) }

-- deliver_batch_to_python. PyList_New, PyBytes_FromStringAndSize and PyList_Append may fail.
pub data BatchStep (s : System) : System → Type 0 where
  returns : s.at ≡ calling → s.py_enabled ≡ false → BatchStep s (record s { at = looping })
  no_list : s.at ≡ calling → s.py_enabled ≡ true → BatchStep s (record s { at = looping })
  begins :
      (stack : ℕ → ℕ)
      → s.at ≡ calling
      → s.py_enabled ≡ true
      → BatchStep s (record s { at = batching 1024 (record { size = 2 ^ 16; cell = stack }) [] })
  is_done :
      (t : Buffer) (b : List Frame)
      → s.at ≡ batching 0 t b
      → BatchStep s (record s { at = handing b })
  finds_none :
      (n : ℕ) (t : Buffer) (b : List Frame)
      → s.at ≡ batching (suc n) t b
      → ring_pop s.shared.ring t ≡ some none
      → BatchStep s (record s { at = handing b })
  takes :
      (n len : ℕ) (t t' : Buffer) (r : Ring) (f : Frame) (b : List Frame)
      → s.at ≡ batching (suc n) t b
      → ring_pop s.shared.ring t ≡ some (some (len, t', r))
      → copy_out t' 0 len ≡ some f
      → BatchStep s (record s {
        at = holding n t' f b;
        shared = record (s.shared) { ring = r };
        history = record (s.history) { taken = s.history.taken ++ (f ∷ []) };
      })
  drops :
      (n : ℕ) (t : Buffer) (f : Frame) (b : List Frame)
      → s.at ≡ holding n t f b
      → BatchStep s (record s { at = batching n t b })
  appends :
      (n : ℕ) (t : Buffer) (f : Frame) (b : List Frame)
      → s.at ≡ holding n t f b
      → BatchStep s (record s {
        at = appended n t (b ++ (f ∷ []));
        shared = count_delivered s.shared (length f);
        history = record (s.history) { kept = s.history.kept ++ (f ∷ []) };
      })
  stops :
      (n : ℕ) (t : Buffer) (b : List Frame)
      → s.at ≡ appended n t b
      → s.alive && s.py_enabled ≡ false
      → BatchStep s (record s { at = handing b })
  goes_on :
      (n : ℕ) (t : Buffer) (b : List Frame)
      → s.at ≡ appended n t b
      → s.alive && s.py_enabled ≡ true
      → BatchStep s (record s { at = batching n t b })
  hands :
      (b : List Frame)
      → s.at ≡ handing b
      → BatchStep s (record s { at = looping; history = hand s.history b })

-- SerialManager_shutdown: each flag, ring_signal, and the joins, which wait for their thread.
pub data ShutdownStep (os : Os) (s : System) : System → Type 0 where
  disables :
      s.stage ≡ serving → ShutdownStep os s (record s { py_enabled = false; stage = disabled })
  clears_alive :
      s.stage ≡ disabled → ShutdownStep os s (record s { alive = false; stage = stopped })
  signals : s.stage ≡ stopped → ShutdownStep os s (record (ring_signal os s) { stage = signalled })
  joins_reader :
      s.stage ≡ signalled
      → s.reading ≡ false
      → ShutdownStep os s (record s { stage = reader_joined })
  joins_deliverer :
      s.stage ≡ reader_joined → s.at ≡ ended → ShutdownStep os s (record s { stage = joined })

pub data Actor : Type 0 where
  the_reader the_deliverer the_caller by_chance : Actor

-- pthread_cond_wait may also return without a signal, by chance.
pub data Step (os : Os) (s : System) : Actor → System → Type 0 where
  reader_step : {t : System} → ReaderStep os s t → Step os s the_reader t
  wait_step : {t : System} → WaitStep s os t → Step os s the_deliverer t
  batch_step : {t : System} → BatchStep s t → Step os s the_deliverer t
  shutdown_step : {t : System} → ShutdownStep os s t → Step os s the_caller t
  returns_early : os ≡ posix → s.at ≡ sleeping → Step os s by_chance (record s { at = notified })

-- The steps that have been made, the last one first.
pub data Run (os : Os) (s : System) : List Actor → System → Type 0 where
  stay : Run os s [] s
  later :
      {t u : System} {who : List Actor} {a : Actor}
      → Run os s who t
      → Step os t a u
      → Run os s (a ∷ who) u
