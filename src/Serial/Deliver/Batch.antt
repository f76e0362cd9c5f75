-- ===== src/Serial/Deliver/Batch.antt =====
-- What a delivery promises, on the queue of frames.
use p.Common.{ℕ, zero, suc, ◌+◌, List, [], ◌∷◌, ◌++◌, length, add_size}
use p.Serial.Queue
use p.Serial.Queue.{Frame, Queue}
use p.Serial.Deliver.{Round, drops, breaks, goes_on, after}

-- The frames that wait, and the counters of what has been delivered.
pub record Outlet : Type 0 where
  pub queue : Queue
  pub frames : ℕ
  pub bytes : ℕ

abbrev pub offered : Queue → List Frame → Queue
offered q [] = q
offered q (f ∷ fs) = offered (Queue.push q f).0 fs

abbrev pub counted : Outlet → Frame → Outlet
counted o f = record o { frames = add_size o.frames 1; bytes = add_size o.bytes (length f) }

-- `n` rounds take the oldest frame each, until none waits or a round breaks.
unfoldable pub deliver : ℕ → (ℕ → Round) → ℕ → Outlet → List Frame → Outlet × List Frame
deliver zero rounds k o batch = (o, batch)
deliver (suc n) rounds k o batch = elim (offered o.queue (rounds k).meanwhile) [
  | [] ↦ (record o { queue = [] }, batch)
  | f ∷ fs ↦ elim (after (rounds k)) [
    | drops ↦ deliver n rounds (k + 1) (record o { queue = fs }) batch
    | breaks ↦ (counted (record o { queue = fs }) f, batch ++ (f ∷ []))
    | goes_on ↦ deliver n rounds (k + 1) (counted (record o { queue = fs }) f) (batch ++ (f ∷ []))
  ]
]
