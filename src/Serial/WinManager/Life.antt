-- ===== src/Serial/WinManager/Life.antt =====
-- The commands that a program can give a SerialManager on Windows, and what it holds behind them.
use p.Common.{
  ℕ, ◌≡◌, refl, ap, ◌∙◌, Bool, true, false, List, [], ◌∷◌, ◌++◌, Option, none, some, ◌>>=◌, ◌==◌,
  eq→==,
}
use p.Serial.Manager.{reader, writer, deliverer}
use p.Serial.WinManager.{opens, WinEffect, WinManager, Created, start_win, shutdown_win, created}
use p.Serial.WinManager.Watch.{ThreadState, absent, runs, Held, watch_all, watch_all-append}

pub data WinCommand : Type 0 where
  starts : Option ℕ → Created → WinCommand
  shuts_down : WinCommand

abbrev pub step_win : WinManager → WinCommand → WinManager × List WinEffect
step_win m (starts opened c) = let (m', failed, effects) = start_win m opened c in (m', effects)
step_win m shuts_down = shutdown_win m

-- The effects of the commands, and the object behind them
unfoldable pub effects : WinManager → List WinCommand → List WinEffect
effects m [] = []
effects m (c ∷ cs) = (step_win m c).1 ++ effects (step_win m c).0 cs

unfoldable pub reached_win : WinManager → List WinCommand → WinManager
reached_win m [] = m
reached_win m (c ∷ cs) = reached_win (step_win m c).0 cs

abbrev thread_if : Bool → ThreadState
thread_if true = runs
thread_if false = absent

-- What an initialised object holds, by its fields
abbrev pub held_by : WinManager → Held
held_by m = record {
  port = m.h_port;
  read_thread = thread_if m.h_read_thread;
  write_thread = thread_if m.h_write_thread;
  deliver_thread = thread_if m.h_deliver_thread;
  section = true;
  event = m.h_ring_event;
  ring = m.ring_data;
}

abbrev pub ready : Option ℕ → Bool → Bool → Bool → Bool → WinManager
ready port on r w d = record {
  h_port = port;
  alive = on;
  py_enabled = on;
  h_read_thread = r;
  h_write_thread = w;
  h_deliver_thread = d;
  h_ring_event = true;
  ring_data = true;
}

pub data IsSettled : WinManager → Type 0 where
  idle : IsSettled (ready none false false false false)
  live : (h : ℕ) (r w d : Bool) → IsSettled (ready (some h) true r w d)

same_port : (n : ℕ) → (n == n) ≡ true
same_port n = eq→== n n refl

shutdown_live :
    (h : ℕ) (r w d : Bool)
    → watch_all (held_by (ready (some h) true r w d)) (shutdown_win (ready (some h) true r w d)).1
      ≡ some (held_by (ready none false false false false))
unfolding shutdown_win
shutdown_live h true true true = simp (same_port h)
shutdown_live h true true false = simp (same_port h)
shutdown_live h true false true = simp (same_port h)
shutdown_live h true false false = simp (same_port h)
shutdown_live h false true true = simp (same_port h)
shutdown_live h false true false = simp (same_port h)
shutdown_live h false false true = simp (same_port h)
shutdown_live h false false false = simp (same_port h)

started_idle :
    (h : ℕ) (r w d : Bool)
    → watch_all
        (held_by (ready none false false false false))
        (opens h ∷ created r reader ++ created w writer ++ created d deliverer)
      ≡ some (held_by (ready (some h) true r w d))
started_idle h true true true = refl
started_idle h true true false = refl
started_idle h true false true = refl
started_idle h true false false = refl
started_idle h false true true = refl
started_idle h false true false = refl
started_idle h false false true = refl
started_idle h false false false = refl

-- A command keeps the watch content, and the object in one of its states.
abbrev Kept : WinManager → WinCommand → Type 0
Kept m c =
    (watch_all (held_by m) (step_win m c).1 ≡ some (held_by (step_win m c).0))
    × IsSettled (step_win m c).0

step-Kept : (m : WinManager) (c : WinCommand) → IsSettled m → Kept m c
unfolding start_win shutdown_win
step-Kept _ (starts none c) idle = (refl, idle)
step-Kept _ (starts (some h) c) idle =
    (started_idle h c.read_thread c.write_thread c.deliver_thread, live h _ _ _)
step-Kept _ (starts o c) (live h r w d) = (refl, live h r w d)
step-Kept _ shuts_down idle = (refl, idle)
step-Kept _ shuts_down (live h r w d) = (shutdown_live h r w d, idle)

pub life_lem :
    (cs : List WinCommand) (m : WinManager)
    → IsSettled m
    → (watch_all (held_by m) (effects m cs) ≡ some (held_by (reached_win m cs)))
      × IsSettled (reached_win m cs)
unfolding effects reached_win
life_lem [] m s = (refl, s)
life_lem (c ∷ cs) m s =
    let (e, s') = step-Kept m c s in
    let (e', s'') = life_lem cs (step_win m c).0 s' in
    (
      watch_all-append (held_by m) (step_win m c).1 (effects (step_win m c).0 cs)
          ∙ ap (λ (x : Option Held). x >>= λ h. watch_all h (effects (step_win m c).0 cs)) e
          ∙ e',
      s'',
    )
