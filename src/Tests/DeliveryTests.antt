-- ===== src/Tests/DeliveryTests.antt =====
-- Deliveries, the Windows loop and the counters on small inputs.
use p.Common.{
  zero, suc, ℕ, ◌^◌, ◌≡◌, ◌<◌, refl, true, false, List, [], ◌∷◌, some, length, arith, All,
}
use p.Serial.State.{Shared}
use p.Serial.Ring.Fifo.{Holds}
use p.Serial.ReaderThread.{Thread, goes_on, thread_run}
use p.Serial.Deliver.{Round, Call, after, deliver_batch}
use p.Serial.Deliver.Batch.{deliver}
use p.Serial.Deliver.Whole.{IsCalm, Called, outlet, handed, deliver_batch-deliver}
use p.Serial.EndToEnd.{deliver-thread_run}
use p.Tests.SerialTests.{
  stale, message, thread, view, reader_Shows, one_frame, one_frame-Delivers, wrapped, wrapped_Holds,
  no_perf,
}

abbrev calm : Round
calm = record { meanwhile = []; bytes_ok = true; append_ok = true; alive = true; py_enabled = true }

pub calm-IsCalm : IsCalm calm
unfolding after
calm-IsCalm = record { meanwhile = refl; goes = refl }

abbrev pub call : Call
call = record { py_enabled = true; list_ok = true; stack = stale; rounds = λ j. calm }

-- Python runs out of memory in the first round, a frame comes, and the flags are cleared.
abbrev disturbed : ℕ → Round
disturbed zero = record {
  meanwhile = message ∷ [];
  bytes_ok = false;
  append_ok = true;
  alive = true;
  py_enabled = true;
}
disturbed (suc k) = record {
  meanwhile = [];
  bytes_ok = true;
  append_ok = true;
  alive = false;
  py_enabled = true;
}

disturbed_short : (j : ℕ) → All (λ (f : List ℕ). length f < 2 ^ 16) (disturbed j).meanwhile
disturbed_short zero = omega arith
disturbed_short (suc j) = tt

abbrev disturbed_call : Call
disturbed_call = record { py_enabled = true; list_ok = true; stack = stale; rounds = disturbed }

abbrev loaded : Shared
loaded = record { ring = wrapped; perf = no_perf }

deliver-thread_run_example :
    (t' : Thread) × (s : Shared) × (thread_run thread one_frame ≡ some (goes_on t'))
    × (deliver_batch call t'.reader.shared ≡ some (s, handed (message ∷ [])))
    × Holds s.ring []
deliver-thread_run_example =
    deliver-thread_run thread view (message ∷ []) call one_frame-Delivers reader_Shows refl
      (omega arith) (omega arith) (omega arith) (omega arith) refl refl (λ j. calm-IsCalm)

deliver_batch-deliver_example :
    Called
      (deliver_batch disturbed_call loaded)
      (deliver 1024 disturbed 0 (outlet loaded ((7 ∷ []) ∷ [] ∷ [])) [])
deliver_batch-deliver_example =
    deliver_batch-deliver disturbed_call loaded (outlet loaded ((7 ∷ []) ∷ [] ∷ [])) refl refl
      disturbed_short (record { ring = wrapped_Holds; frames = refl; bytes = refl })
