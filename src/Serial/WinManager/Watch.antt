-- ===== src/Serial/WinManager/Watch.antt =====
-- What Windows asks of the calls of a SerialManager: a watch over what is held, which refuses a
-- call that uses something not held, opens something twice, or takes from a thread that runs what
-- it uses.
use p.Common.{
  ℕ, ◌≡◌, refl, Bool, true, false, List, [], ◌∷◌, ◌++◌, Option, none, some, ◌==◌, if◌then◌else◌,
  ◌>>=◌,
}
use p.Serial.Manager.{Worker, reader, writer, deliverer}
use p.Serial.WinManager.{
  WinEffect, opens, closes, cancels_io, clears_error, purges, masks, clears_dtr, clears_rts,
  creates, waits_for, closes_thread, inits_section, deletes_section, creates_event, sets_event,
  closes_event, allocates, frees,
}

-- A thread that is not there, that runs, or that has ended while its handle is open
pub data ThreadState : Type 0 where
  absent runs over : ThreadState

pub record Held : Type 0 where
  pub port : Option ℕ
  pub read_thread : ThreadState
  pub write_thread : ThreadState
  pub deliver_thread : ThreadState
  pub section : Bool
  pub event : Bool
  pub ring : Bool

abbrev pub nothing : Held
nothing = record {
  port = none;
  read_thread = absent;
  write_thread = absent;
  deliver_thread = absent;
  section = false;
  event = false;
  ring = false;
}

abbrev pub thread_of : Held → Worker → ThreadState
thread_of h reader = h.read_thread
thread_of h writer = h.write_thread
thread_of h deliverer = h.deliver_thread

abbrev pub with_thread : Held → Worker → ThreadState → Held
with_thread h reader t = record h { read_thread = t }
with_thread h writer t = record h { write_thread = t }
with_thread h deliverer t = record h { deliver_thread = t }

abbrev at_work : ThreadState → Bool
at_work runs = true
at_work absent = false
at_work over = false

abbrev pub threads_run : Held → Bool
threads_run h =
    if at_work h.read_thread
    then true
    else if at_work h.write_thread
    then true
    else at_work h.deliver_thread

-- A thread goes from one state to the next.
abbrev turn : Held → Worker → ThreadState → ThreadState → Option Held
turn h w absent runs = some (with_thread h w runs)
turn h w runs over = some (with_thread h w over)
turn h w over absent = some (with_thread h w absent)
turn h w _ _ = none

abbrev on_port : Held → ℕ → Held → Option Held
on_port h n h' = elim h.port [ none ↦ none | some p ↦ if p == n then some h' else none ]

abbrev at_rest : Held → Bool → Held → Option Held
at_rest h needs h' = if needs then (if threads_run h then none else some h') else none

abbrev pub watch : Held → WinEffect → Option Held
watch h (opens n) = elim h.port [ none ↦ some (record h { port = some n }) | some p ↦ none ]
watch h (closes n) = on_port h n (record h { port = none })
watch h (cancels_io n) = on_port h n h
watch h (clears_error n) = on_port h n h
watch h (purges n) = on_port h n h
watch h (masks n) = on_port h n h
watch h (clears_dtr n) = on_port h n h
watch h (clears_rts n) = on_port h n h
watch h (creates w) = turn h w (thread_of h w) runs
watch h (waits_for w) = turn h w (thread_of h w) over
watch h (closes_thread w) = turn h w (thread_of h w) absent
watch h inits_section = if h.section then none else some (record h { section = true })
watch h deletes_section = at_rest h h.section (record h { section = false })
watch h creates_event = if h.event then none else some (record h { event = true })
watch h sets_event = if h.event then some h else none
watch h closes_event = at_rest h h.event (record h { event = false })
watch h allocates = if h.ring then none else some (record h { ring = true })
watch h frees = at_rest h h.ring (record h { ring = false })

abbrev pub watch_all : Held → List WinEffect → Option Held
watch_all h [] = some h
watch_all h (e ∷ es) = watch h e >>= λ h'. watch_all h' es

-- The first call that is refused, if one is
abbrev pub refused : Held → List WinEffect → Option WinEffect
refused h [] = none
refused h (e ∷ es) = elim (watch h e) [ none ↦ some e | some h' ↦ refused h' es ]

then_all :
    (m : Option Held) (es fs : List WinEffect)
    → ((h : Held) → watch_all h (es ++ fs) ≡ (watch_all h es >>= λ h'. watch_all h' fs))
    → (m >>= λ h'. watch_all h' (es ++ fs))
      ≡ ((m >>= λ h'. watch_all h' es) >>= λ h'. watch_all h' fs)
then_all none es fs ih = refl
then_all (some h) es fs ih = ih h

pub watch_all-append :
    (h : Held) (es fs : List WinEffect)
    → watch_all h (es ++ fs) ≡ (watch_all h es >>= λ h'. watch_all h' fs)
watch_all-append h [] fs = refl
watch_all-append h (e ∷ es) fs = then_all (watch h e) es fs (λ h'. watch_all-append h' es fs)
