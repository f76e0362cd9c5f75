-- ===== src/Log/WinClock.antt =====
-- The clock of LogData on Windows: the counter of `LogData_init` and `LogData_decode`, and its
-- frequency, which the objects of a process share.
use p.Common.{
  ℕ, ◌≡◌, refl, subst, sym, ap, ◌∙◌, Bool, true, false, List, [], ◌∷◌, Option, none, some,
}
use p.Log.Python.{Exc, ends, no_clock, no_frequency, C, ret, raising}
use p.Log.Data.{LogData}

-- What QueryPerformanceCounter and QueryPerformanceFrequency answer; none where they fail
pub record Ticks : Type 0 where
  pub counter : Option ℕ
  pub frequency : Option ℕ

-- perf_freq_initialized and performance_frequency
pub record Performance : Type 0 where
  pub initialized : Bool
  pub per_second : ℕ

-- The frequency is asked for unless it is initialized.
abbrev asked : Bool → Option ℕ → Performance → Option Performance
asked true f p = some p
asked false none p = none
asked false (some f) p = some (record { initialized = true; per_second = f })

unfoldable pub ask_frequency : Ticks → Performance → Option Performance
ask_frequency t p = asked p.initialized t.frequency p

-- The frequency as other objects leave it that are set up later
abbrev pub later : List Ticks → Performance → Performance
later [] p = p
later (t ∷ ts) p =
    let rest = later ts in elim (ask_frequency t p) [ none ↦ rest p | some p' ↦ rest p' ]

abbrev known : Option Performance → Bool
known none = true
known (some p) = p.initialized

asked-known :
    (b : Bool) (f : Option ℕ) (p : Performance) → p.initialized ≡ b → known (asked b f p) ≡ true
asked-known true f p h = h
asked-known false none p h = refl
asked-known false (some f) p h = refl

ask_frequency-known :
    (t : Ticks) (p p' : Performance) → ask_frequency t p ≡ some p' → p'.initialized ≡ true
unfolding ask_frequency
ask_frequency-known t p p' a = sym (ap known a) ∙ asked-known p.initialized t.frequency p refl

-- A frequency that is known stays.
abbrev given : ℕ → Bool → Performance
given f b = record { initialized = b; per_second = f }

later-given : (ts : List Ticks) (f : ℕ) → later ts (given f true) ≡ given f true
unfolding ask_frequency
later-given [] f = refl
later-given (t ∷ ts) f = later-given ts f

later_lem : (ts : List Ticks) (p : Performance) → p.initialized ≡ true → later ts p ≡ p
later_lem ts p h =
    subst (λ b. later ts (given p.per_second b) ≡ given p.per_second b) (sym h)
      (later-given ts p.per_second)

-- Doubles are their bits; their conversion, difference and quotient are parameters.
module _ (double : ℕ → ℕ) (minus over : ℕ → ℕ → ℕ) where
  -- Behind the loop of LogData_init: the object and the frequency, and true for the result 0
  unfoldable pub start_clock_win : Ticks → Performance → LogData → C (LogData × Performance × Bool)
  start_clock_win t p s = elim (ask_frequency t p) [
    | none ↦ raising no_frequency (s, p, false)
    | some p' ↦ elim t.counter [
      | none ↦ raising no_clock (s, p', false)
      | some c ↦ ret (record s { start_time = double c; count = 0 }, p', true)
    ]
  ]

  -- The time of a line of the log, or none where the counter cannot be read
  unfoldable pub elapsed_win : Ticks → Performance → LogData → Option ℕ
  elapsed_win t p s = elim t.counter [
    | none ↦ none
    | some c ↦ some (over (minus (double c) s.start_time) (double p.per_second))
  ]

  -- An object is set up when the frequency is known or given and the counter can be read. Whatever
  -- objects are set up later, its times are the counts since then over that frequency.
  pub elapsed_win-start_clock_win :
      (t t' : Ticks) (ts : List Ticks) (p p' : Performance) (s : LogData) (c c' : ℕ)
      (e : Option Exc)
      → ask_frequency t p ≡ some p'
      → t.counter ≡ some c
      → t'.counter ≡ some c'
      → (s' : LogData) × (start_clock_win t p s e ≡ ends (s', p', true) e)
        × (elapsed_win t' (later ts p') s'
            ≡ some (over (minus (double c') (double c)) (double p'.per_second)))
  unfolding start_clock_win elapsed_win
  elapsed_win-start_clock_win t t' ts p p' s c c' e a r r' = (
    record s { start_time = double c; count = 0 },
    rw (start_clock_win, a, r) refl,
    rw (elapsed_win, r', later_lem ts p' (ask_frequency-known t p p' a)) refl,
  )
