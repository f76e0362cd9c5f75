-- ===== src/Serial/WinPort/Events.antt =====
-- The events of the port's functions on Windows, and how much they read.
use p.Common.{
  ℕ, ◌≡◌, refl, ap, Bool, true, false, Bool-cases, List, [], ◌∷◌, ◌++◌, Option, none, some, inl,
  inr, ℤ, ◌>>=◌, ◌==◌, sym, ◌∙◌, Option-cases,
}
use p.Serial.WinPort.{
  WinCall, clear_error, create_event, close_event, issues, cancels, result_waits, result_polls,
  sets_mask, waits, Issue, at_once, pending_done, pending_late, aborted, failed, serial_write_win,
  to_read, serial_read_win, CommEvent, fired, pending_fired, pending_none, unsupported,
  aborted_wait, failed_wait, wait_for_rx_win, read_issue,
}

-- Whether an event is there after a call: it is created where there is none, used and closed only
-- where there is one.
abbrev pub event_after : WinCall → Bool → Option Bool
event_after create_event false = some true
event_after create_event true = none
event_after close_event true = some false
event_after close_event false = none
event_after clear_error e = some e
event_after sets_mask e = some e
event_after issues false = none
event_after issues true = some true
event_after cancels false = none
event_after cancels true = some true
event_after result_waits false = none
event_after result_waits true = some true
event_after result_polls false = none
event_after result_polls true = some true
event_after (waits n) false = none
event_after (waits n) true = some true

abbrev pub events_after : List WinCall → Bool → Option Bool
events_after [] e = some e
events_after (c ∷ cs) e = event_after c e >>= events_after cs

-- The function leaves no event, and uses none that is not there.
abbrev pub IsClean : List WinCall × ℤ → Type 0
IsClean r = events_after (r.0) false ≡ some false

write-IsClean : (event : Bool) (issue : Issue) → IsClean (serial_write_win event issue)
unfolding serial_write_win
write-IsClean false issue = refl
write-IsClean true (at_once none) = refl
write-IsClean true (at_once (some n)) = refl
write-IsClean true (pending_done none) = refl
write-IsClean true (pending_done (some n)) = refl
write-IsClean true pending_late = refl
write-IsClean true aborted = refl
write-IsClean true failed = refl

issue-IsClean : (issue : Issue) → IsClean (read_issue issue)
issue-IsClean (at_once none) = refl
issue-IsClean (at_once (some n)) = refl
issue-IsClean (pending_done none) = refl
issue-IsClean (pending_done (some n)) = refl
issue-IsClean pending_late = refl
issue-IsClean aborted = refl
issue-IsClean failed = refl

read-IsClean :
    (queued : ℕ) (event : Bool) (issue : ℕ → Issue) (cap : ℕ)
    → IsClean (serial_read_win queued event issue cap)
unfolding serial_read_win
read-IsClean queued event issue cap = elim (Bool-cases (queued == 0)) [
  | inl nothing ↦ rw (serial_read_win, nothing) refl
  | inr bytes ↦ elim (Bool-cases event) [
    | inl created ↦
        rw (serial_read_win, bytes, created) (issue-IsClean (issue (to_read queued cap)))
    | inr refused ↦ rw (serial_read_win, bytes, refused) refl
  ]
]

wait-IsClean :
    (event mask : Bool) (answer : CommEvent) (timeout : ℕ)
    → IsClean (wait_for_rx_win event mask answer timeout)
unfolding wait_for_rx_win
wait-IsClean false mask answer timeout = refl
wait-IsClean true false answer timeout = refl
wait-IsClean true true fired timeout = refl
wait-IsClean true true pending_fired timeout = refl
wait-IsClean true true pending_none timeout = refl
wait-IsClean true true unsupported timeout = refl
wait-IsClean true true aborted_wait timeout = refl
wait-IsClean true true failed_wait timeout = refl

-- A call of one of the port's functions
pub data PortFunction : Type 0 where
  writes : Bool → Issue → PortFunction
  reads : ℕ → Bool → (ℕ → Issue) → ℕ → PortFunction
  waits_for_rx : Bool → Bool → CommEvent → ℕ → PortFunction

abbrev pub port_call : PortFunction → List WinCall × ℤ
port_call (writes event issue) = serial_write_win event issue
port_call (reads queued event issue cap) = serial_read_win queued event issue cap
port_call (waits_for_rx event mask answer timeout) = wait_for_rx_win event mask answer timeout

abbrev pub sequence : List PortFunction → List WinCall
sequence [] = []
sequence (f ∷ fs) = (port_call f).0 ++ sequence fs

port_call-IsClean : (f : PortFunction) → IsClean (port_call f)
port_call-IsClean (writes event issue) = write-IsClean event issue
port_call-IsClean (reads queued event issue cap) = read-IsClean queued event issue cap
port_call-IsClean (waits_for_rx event mask answer timeout) = wait-IsClean event mask answer timeout

events_after-append :
    (cs ds : List WinCall) (e e' : Bool)
    → events_after cs e ≡ some e'
    → events_after (cs ++ ds) e ≡ events_after ds e'
events_after-append [] ds e e' h = ap (λ (o : Option Bool). o >>= events_after ds) h
events_after-append (c ∷ cs) ds e e' h = elim (Option-cases (event_after c e)) [
  | inl misused ↦
      absurd (none-some (sym (ap (λ (o : Option Bool). o >>= events_after cs) misused) ∙ h))
  | inr (e1, used) ↦
      rw (used, ◌>>=◌)
        (events_after-append cs ds e1 e'
          (sym (ap (λ (o : Option Bool). o >>= events_after cs) used) ∙ h))
]
  where
    none-some : {b : Bool} → ¬ (none ≡ some b)
    none-some e = cc

-- In any sequence of calls of serial_write_win, serial_read_win and wait_for_rx_win, whatever
-- the system answers, an event is created only where none is left, used and closed only while it
-- is there, and none is left at the end.
pub sequence-events : (fs : List PortFunction) → events_after (sequence fs) false ≡ some false
sequence-events [] = refl
sequence-events (f ∷ fs) =
    events_after-append ((port_call f).0) (sequence fs) false false (port_call-IsClean f)
    ∙ sequence-events fs
