-- ===== src/Serial/Queue.antt =====
-- What the ring promises: a queue of frames, oldest first, that takes a frame if it and the two
-- bytes of its length fit beside what is stored.
use p.Common.{ℕ, ◌+◌, Bool, true, false, List, [], ◌∷◌, ◌++◌, leb, if◌then◌else◌, length}
use p.Serial.State.{ring_bytes}

abbrev pub Frame : Type 0
Frame = List ℕ

abbrev pub Queue : Type 0
Queue = List Frame

abbrev pub used : Queue → ℕ
used [] = 0
used (f ∷ fs) = 2 + length f + used fs

abbrev pub push : Queue → Frame → Queue × Bool
push q f = if leb (used q + (2 + length f)) ring_bytes then (q ++ (f ∷ []), true) else (q, false)
