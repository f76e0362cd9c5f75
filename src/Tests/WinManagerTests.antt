-- ===== src/Tests/WinManagerTests.antt =====
-- The life of a manager on Windows, and the theorems about it, at concrete inputs.
use p.Common.{◌≡◌, refl, true, false, List, [], ◌∷◌, ◌++◌, none, some}
use p.Serial.Manager.{InitAnswers, bad_arguments}
use p.Serial.WinManager.{
  Created, WinEffect, WinManager, allocated_win, before_section, init_win, dealloc_win, start_win,
  shutdown_win,
}
use p.Serial.WinManager.Watch.{nothing, watch_all}
use p.Serial.WinManager.Life.{WinCommand, starts, shuts_down, effects, reached_win}
use p.Serial.WinManager.Outcome.{IsLeft, Outcome, life_win-Outcome, dealloc_win-init_win}

abbrev all_well : InitAnswers
all_well = record {
  parsed = true;
  queue_like = true;
  port_memory = true;
  methods = true;
  block = some (λ i. 0);
}

abbrev no_arguments : InitAnswers
no_arguments = record {
  parsed = false;
  queue_like = true;
  port_memory = true;
  methods = true;
  block = none;
}

abbrev two_threads : Created
two_threads = record { read_thread = true; write_thread = false; deliver_thread = true }

abbrev fresh : WinManager
fresh = (init_win all_well true allocated_win).0

abbrev acquired : List WinEffect
acquired = (init_win all_well true allocated_win).2

abbrev commands : List WinCommand
commands = starts none two_threads ∷ starts (some 3) two_threads ∷ shuts_down ∷ []

-- With the shutdown all is given back; without it, the critical section goes while threads run.
life_closed :
    watch_all nothing
      (acquired ++ effects fresh commands ++ dealloc_win (reached_win fresh commands))
    ≡ some nothing
unfolding init_win effects reached_win dealloc_win start_win shutdown_win
life_closed = refl

life_open :
    watch_all nothing (
      acquired
      ++ effects fresh (starts (some 3) two_threads ∷ [])
      ++ dealloc_win (reached_win fresh (starts (some 3) two_threads ∷ [])))
    ≡ none
unfolding init_win effects reached_win dealloc_win start_win
life_open = refl

life_win-Outcome_example : Outcome (acquired ++ effects fresh commands) (reached_win fresh commands)
life_win-Outcome_example =
    life_win-Outcome all_well true allocated_win fresh acquired commands (unfold init_win in refl)

dealloc_win-init_win_example :
    IsLeft
      (before_section bad_arguments)
      []
      (dealloc_win (init_win no_arguments true allocated_win).0)
dealloc_win-init_win_example =
    dealloc_win-init_win no_arguments true (init_win no_arguments true allocated_win).0
      (before_section bad_arguments) [] (unfold init_win in refl)
