-- ===== src/Serial/Priority.antt =====
-- thread_cpu_now_ns and set_current_thread_highest_priority of mp_serial_ext.c. What the system
-- answers is an argument.
use p.Common.{
  ℕ, ◌+◌, ◌*◌, ◌%◌, ◌^◌, ◌<◌, ◌≡◌, refl, Bool, false, List, [], ◌∷◌, Option, none, some, ltb,
  if◌then◌else◌, arith, Bool-cases, inl, inr, ◌++◌, ◌/◌,
}

-- tv_sec and tv_nsec, or none where clock_gettime fails
unfoldable pub thread_cpu_now_ns_posix : Option (ℕ × ℕ) → ℕ
thread_cpu_now_ns_posix none = 0
thread_cpu_now_ns_posix (some (sec, nsec)) = (sec * 10 ^ 9 + nsec) % 2 ^ 64

-- dwLowDateTime and dwHighDateTime of the kernel's and the user's time
unfoldable pub thread_cpu_now_ns_win : Option ((ℕ × ℕ) × (ℕ × ℕ)) → ℕ
thread_cpu_now_ns_win none = 0
thread_cpu_now_ns_win (some ((k_low, k_high), (u_low, u_high))) =
    ((k_low + k_high * 2 ^ 32 + (u_low + u_high * 2 ^ 32)) % 2 ^ 64 * 100) % 2 ^ 64

pub data PriorityCall : Type 0 where
  sets_fifo sets_rr : ℕ → PriorityCall
  clears_errno nice_20 : PriorityCall

-- The two maxima, where 0 stands for one that is not positive, and whether the two calls of
-- pthread_setschedparam succeed
pub record PriorityAnswers : Type 0 where
  pub max_fifo : ℕ
  pub fifo_set : Bool
  pub max_rr : ℕ
  pub rr_set : Bool

unfoldable pub set_current_thread_highest_priority : PriorityAnswers → List PriorityCall
set_current_thread_highest_priority a =
    if ltb 0 a.max_fifo
    then (if a.fifo_set
        then sets_fifo a.max_fifo ∷ []
        else if ltb 0 a.max_rr
        then (if a.rr_set
            then sets_fifo a.max_fifo ∷ sets_rr a.max_rr ∷ []
            else sets_fifo a.max_fifo ∷ sets_rr a.max_rr ∷ clears_errno ∷ nice_20 ∷ [])
        else sets_fifo a.max_fifo ∷ clears_errno ∷ nice_20 ∷ [])
    else clears_errno ∷ nice_20 ∷ []

-- The clock of POSIX systems is exact for more than five hundred years.
clock_exact :
    (sec nsec : ℕ)
    → sec < 18446744073
    → nsec < 10 ^ 9
    → thread_cpu_now_ns_posix (some (sec, nsec)) ≡ sec * 10 ^ 9 + nsec
unfolding thread_cpu_now_ns_posix
clock_exact sec nsec h k = omega arith

-- The clock of Windows is the sum of the two times, which count 100 ns, while it fits.
clock_win_exact :
    (k u : ℕ)
    → (k + u) * 100 < 2 ^ 64
    → thread_cpu_now_ns_win (some ((k % 2 ^ 32, k / 2 ^ 32), (u % 2 ^ 32, u / 2 ^ 32)))
      ≡ (k + u) * 100
unfolding thread_cpu_now_ns_win
clock_win_exact k u h = omega arith

-- Where neither policy can be set, the thread asks for a better nice value.
priority_nice :
    (a : PriorityAnswers)
    → a.fifo_set ≡ false
    → a.rr_set ≡ false
    → (calls : List PriorityCall) × (set_current_thread_highest_priority a
        ≡ calls ++ (clears_errno ∷ nice_20 ∷ []))
unfolding set_current_thread_highest_priority
priority_nice a f r = elim (Bool-cases (ltb 0 a.max_fifo)) [
  | inl fifo ↦ elim (Bool-cases (ltb 0 a.max_rr)) [
    | inl rr ↦ (sets_fifo a.max_fifo ∷ sets_rr a.max_rr ∷ [], rw (fifo, f, rr, r) refl)
    | inr no_rr ↦ (sets_fifo a.max_fifo ∷ [], rw (fifo, f, no_rr) refl)
  ]
  | inr no_fifo ↦ ([], rw no_fifo refl)
]
