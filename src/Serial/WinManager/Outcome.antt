-- ===== src/Serial/WinManager/Outcome.antt =====
-- Whether a SerialManager on Windows gives back all that it holds, whatever a program does.
use p.Common.{
  [], ℕ, ◌≡◌, ◌≢◌, refl, sym, ap, ◌∙◌, subst, Bool, true, false, List, ◌++◌, Option, none, some,
  ◌>>=◌,
}
use p.Serial.Manager.{InitAnswers}
use p.Serial.WinManager.{
  deletes_section, WinEffect, WinManager, allocated_win, WinInitError, before_section, no_event,
  init_win, is_running_win, dealloc_win,
}
use p.Serial.WinManager.Watch.{refused, Held, nothing, watch_all, watch_all-append}
use p.Serial.WinManager.Life.{
  WinCommand, effects, reached_win, held_by, ready, IsSettled, idle, live, life_lem,
}

-- What a life that ends in this state comes to
pub data Outcome (es : List WinEffect) (m : WinManager) : Type 0 where
  gives_back :
      m.h_port ≡ none
      → is_running_win m ≡ false
      → watch_all nothing (es ++ dealloc_win m) ≡ some nothing
      → Outcome es m
  abandons :
      (h : ℕ)
      → m.h_port ≡ some h
      → is_running_win m ≡ true
      → watch_all nothing (es ++ dealloc_win m) ≢ some nothing
      → Outcome es m

dealloc_live :
    (h : ℕ) (r w d : Bool)
    → watch_all (held_by (ready (some h) true r w d)) (dealloc_win (ready (some h) true r w d))
      ≢ some nothing
unfolding dealloc_win
dealloc_live h true w d = λ e. cc
dealloc_live h false true d = λ e. cc
dealloc_live h false false true = λ e. cc
dealloc_live h false false false = λ e. cc

behind :
    (es fs : List WinEffect) (h : Held)
    → watch_all nothing es ≡ some h
    → watch_all nothing (es ++ fs) ≡ watch_all h fs
behind es fs h e =
    watch_all-append nothing es fs ∙ ap (λ (x : Option Held). x >>= λ h'. watch_all h' fs) e

settled-Outcome :
    (es : List WinEffect) (m : WinManager)
    → watch_all nothing es ≡ some (held_by m)
    → IsSettled m
    → Outcome es m
unfolding is_running_win dealloc_win
settled-Outcome es m e idle = gives_back refl refl (behind es _ _ e)
settled-Outcome es m e (live h r w d) =
    abandons h refl refl (λ x. dealloc_live h r w d (sym (behind es _ _ e) ∙ x))

abbrev answers : Bool → Bool → Bool → Bool → Option (ℕ → ℕ) → InitAnswers
answers p q r t b = record { parsed = p; queue_like = q; port_memory = r; methods = t; block = b }

abbrev Inited : Type 0
Inited = WinManager × Option WinInitError × List WinEffect

-- The object is ready, and its effects are what it holds.
inited :
    (p q r t event : Bool) (b : Option (ℕ → ℕ)) (m m' : WinManager) (es : List WinEffect)
    → init_win (answers p q r t b) event m ≡ (m', none, es)
    → (watch_all nothing es ≡ some (held_by m')) × IsSettled m'
unfolding init_win
inited false q r t event b m m' es e = cc
inited true false r t event b m m' es e = cc
inited true true false t event b m m' es e = cc
inited true true true false event b m m' es e = cc
inited true true true true event none m m' es e = cc
inited true true true true false (some content) m m' es e = cc
inited true true true true true (some content) m m' es e =
    subst (λ (z : Inited). (watch_all nothing z.2 ≡ some (held_by z.0)) × IsSettled z.0) e
      (refl, idle)

-- On Windows, after an init that succeeds, whatever a program does with start (which may fail to
-- open the port, and whose threads may fail to be created) and shutdown, and then dealloc: if
-- the object has no port by then, is_running returns false and the calls use nothing that is not
-- there, take nothing from a thread that runs, and give back the port, the threads, the critical
-- section, the event and the ring's block. If it has a port, is_running returns true, and the
-- calls do not do all that.
pub life_win-Outcome :
    (a : InitAnswers) (event : Bool) (m m' : WinManager) (es : List WinEffect)
    (cs : List WinCommand)
    → init_win a event m ≡ (m', none, es)
    → Outcome (es ++ effects m' cs) (reached_win m' cs)
life_win-Outcome a event m m' es cs e =
    let (held, s) = inited a.parsed a.queue_like a.port_memory a.methods event a.block m m' es e in
    let (run, s') = life_lem cs m' s in
    settled-Outcome (es ++ effects m' cs) (reached_win m' cs)
      (behind es (effects m' cs) (held_by m') held ∙ run) s'

-- What the calls of a failed init and those of a dealloc come to: the init has made no call and
-- the deletion of the critical section is refused, or all that the init had acquired is given back.
abbrev pub IsLeft : WinInitError → List WinEffect → List WinEffect → Type 0
IsLeft (before_section x) es fs =
    (es ≡ [])
    × (refused nothing (es ++ fs) ≡ some deletes_section)
    × (watch_all nothing (es ++ fs) ≡ none)
IsLeft no_event es fs = watch_all nothing (es ++ fs) ≡ some nothing

abbrev Failed : Option WinInitError → WinManager → List WinEffect → Type 0
Failed none m es = Unit
Failed (some x) m es = IsLeft x es (dealloc_win m)

init-Failed :
    (p q r t event : Bool) (b : Option (ℕ → ℕ))
    → let z = init_win (answers p q r t b) event allocated_win in Failed z.1 z.0 z.2
unfolding init_win dealloc_win
init-Failed false q r t event b = (refl, refl, refl)
init-Failed true false r t event b = (refl, refl, refl)
init-Failed true true false t event b = (refl, refl, refl)
init-Failed true true true false event b = (refl, refl, refl)
init-Failed true true true true event none = (refl, refl, refl)
init-Failed true true true true false (some content) = refl
init-Failed true true true true true (some content) = tt

-- If init of a newly allocated object fails on Windows before it comes to the critical section,
-- for any of its reasons, it has called nothing, and dealloc's deletion of the critical section,
-- which was never made, is the first call that is refused. If CreateEvent is what fails, dealloc
-- gives back what init had acquired, and no call is refused.
pub dealloc_win-init_win :
    (a : InitAnswers) (event : Bool) (m : WinManager) (x : WinInitError) (es : List WinEffect)
    → init_win a event allocated_win ≡ (m, some x, es)
    → IsLeft x es (dealloc_win m)
dealloc_win-init_win a event m x es e =
    subst (λ (z : Inited). Failed z.1 z.0 z.2) e
      (init-Failed a.parsed a.queue_like a.port_memory a.methods event a.block)
