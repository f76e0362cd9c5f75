-- ===== src/Serial/Manager/Cycle.antt =====
-- What becomes of a SerialManager's descriptors and threads, whatever a program does with it.
use p.Common.{
  append-nil, ℕ, ◌≡◌, refl, sym, ap, Bool, true, false, List, [], ◌∷◌, ◌++◌, Option, none, some,
  ◌⊎◌, inl, inr, subst,
}
use p.Serial.Manager.Pairs.{start-Balanced, ends_with-Owes}
use p.Serial.Manager.{
  Creations, Effect, closes, Manager, InitAnswers, InitError, allocated, init, shutdown, dealloc,
  is_running, get_perf_stats,
}
use p.Serial.Manager.States.{
  ends_with, Command, step, life, IsIdle, IsLive, Balanced, Owes, shutdown_idle, shutdown_live,
  shutdown-IsIdle, dealloc-shutdown, start_idle, start_fails, start_live, stats-IsIdle,
  stats-IsLive, starts, shuts_down, asks,
}

life-step :
    (m m' : Manager) (c : Command) (cs : List Command) (es : List Effect)
    → step m c ≡ (m', es)
    → life m (c ∷ cs) ≡ es ++ life m' cs
unfolding life
life-step m m' c cs es e = rw e refl

-- The two states of a life, together.
life_lem :
    (cs : List Command)
    → ((m : Manager) → IsIdle m → Balanced (life m cs))
      × ((fd : ℕ) (c : Creations) (m : Manager) → IsLive fd c m → Owes fd c (life m cs))
life_lem [] = (
  (λ m h. unfold life in rw (dealloc-shutdown m, shutdown_idle m h) (refl, refl, refl)),
  λ fd c m h.
      unfold life in
      rw (dealloc-shutdown m, shutdown_live fd c m h)
        (subst (Owes fd c) (append-nil (ends_with fd c))
          (ends_with-Owes fd c [] (refl, refl, refl))),
)
life_lem (starts none c' ∷ cs) =
    let (idle, live) = life_lem cs in
    (
      (λ m h. rw (life-step m m (starts none c') cs [] (start_fails m c' h)) (idle m h)),
      λ fd c m h.
          rw (life-step m m (starts none c') cs [] (start_live m fd c none c' h)) (live fd c m h),
    )
life_lem (starts (some fd') c' ∷ cs) =
    let (idle, live) = life_lem cs in
    (
      (λ m h.
          let (m', e, h') = start_idle m fd' c' h in
          rw (life-step m m' (starts (some fd') c') cs _ e)
            (start-Balanced fd' c' (life m' cs) (live fd' c' m' h'))),
      λ fd c m h.
          rw (life-step m m (starts (some fd') c') cs [] (start_live m fd c (some fd') c' h))
            (live fd c m h),
    )
life_lem (shuts_down ∷ cs) =
    let (idle, live) = life_lem cs in
    (
      (λ m h.
          rw
            (life-step m (shutdown m).0 shuts_down cs []
              (ap (λ es. ((shutdown m).0, es)) (shutdown_idle m h)))
            (idle (shutdown m).0 (shutdown-IsIdle m))),
      λ fd c m h.
          rw
            (life-step m (shutdown m).0 shuts_down cs _
              (ap (λ es. ((shutdown m).0, es)) (shutdown_live fd c m h)))
            (ends_with-Owes fd c _ (idle (shutdown m).0 (shutdown-IsIdle m))),
    )
life_lem (asks memory ∷ cs) =
    let (idle, live) = life_lem cs in
    (
      (λ m h.
          rw (life-step m (get_perf_stats m memory).0 (asks memory) cs [] refl)
            (idle _ (stats-IsIdle m memory h))),
      λ fd c m h.
          rw (life-step m (get_perf_stats m memory).0 (asks memory) cs [] refl)
            (live fd c _ (stats-IsLive fd c m memory h)),
    )

abbrev answers : Bool → Bool → Bool → Bool → Option (ℕ → ℕ) → InitAnswers
answers p q r t b = record { parsed = p; queue_like = q; port_memory = r; methods = t; block = b }

init-IsIdle :
    (p q r t : Bool) (b : Option (ℕ → ℕ)) (m m' : Manager)
    → init (answers p q r t b) m ≡ (m', none)
    → IsIdle m'
unfolding init
init-IsIdle false q r t b m m' e = cc
init-IsIdle true false r t b m m' e = cc
init-IsIdle true true false t b m m' e = cc
init-IsIdle true true true false b m m' e = cc
init-IsIdle true true true true none m m' e = cc
init-IsIdle true true true true (some content) m m' e =
    subst IsIdle (ap (λ (z : Manager × Option InitError). z.0) e) (record {
      fd = refl;
      alive = refl;
      read_thread = refl;
      write_thread = refl;
      deliver_thread = refl;
    })

-- After an init that succeeds, whatever a program does with start (which may fail to open the
-- port, and whose calls of pthread_create may fail), shutdown and get_perf_stats, and then
-- dealloc: every descriptor that was opened has been closed once, every thread that was created
-- has been joined once, in the order of their creation, and every identifier that is not 0 and
-- was left by a pthread_create that failed has been used once for a join of no thread.
pub life-Balanced :
    (a : InitAnswers) (m m' : Manager) (cs : List Command)
    → init a m ≡ (m', none)
    → Balanced (life m' cs)
life-Balanced a m m' cs e =
    (life_lem cs).0 m' (init-IsIdle a.parsed a.queue_like a.port_memory a.methods a.block m m' e)

init_kept :
    (p q r t : Bool) (b : Option (ℕ → ℕ)) (m : Manager) (x : InitError)
    → init (answers p q r t b) allocated ≡ (m, some x)
    → dealloc m ≡ closes 0 ∷ []
unfolding init dealloc
init_kept false q r t b m x e = rw (← ap (λ (z : Manager × Option InitError). z.0) e) refl
init_kept true false r t b m x e = rw (← ap (λ (z : Manager × Option InitError). z.0) e) refl
init_kept true true false t b m x e = rw (← ap (λ (z : Manager × Option InitError). z.0) e) refl
init_kept true true true false b m x e = rw (← ap (λ (z : Manager × Option InitError). z.0) e) refl
init_kept true true true true none m x e =
    rw (← ap (λ (z : Manager × Option InitError). z.0) e) refl
init_kept true true true true (some content) m x e = cc

-- If init of a newly allocated object fails, for any of its reasons, dealloc closes descriptor 0
-- and does nothing else to descriptors or threads.
pub dealloc-init :
    (a : InitAnswers) (m : Manager) (x : InitError)
    → init a allocated ≡ (m, some x)
    → dealloc m ≡ closes 0 ∷ []
dealloc-init a m x e = init_kept a.parsed a.queue_like a.port_memory a.methods a.block m x e

-- The object after the commands.
unfoldable pub reached : Manager → List Command → Manager
reached m [] = m
reached m (c ∷ cs) = reached (step m c).0 cs

-- One of the commands is this.
abbrev pub Has : Command → List Command → Type 0
Has c [] = ⊥
Has c (c' ∷ cs) = (c ≡ c') ⊎ Has c cs

-- Nothing runs; or is_running returns true, a start of this kind has opened the descriptor, and the
-- identifiers are those that the three calls of pthread_create have left in it.
abbrev pub IsConsistent : (ℕ → Creations → Type 0) → Manager → Type 0
IsConsistent Started m =
    (IsIdle m × (is_running m ≡ false))
    ⊎ ((fd : ℕ) × (c : Creations) × Started fd c × IsLive fd c m × (is_running m ≡ true))

idle_running : (m : Manager) → IsIdle m → is_running m ≡ false
unfolding is_running
idle_running m h = rw (h.alive) refl

live_running : (fd : ℕ) (c : Creations) (m : Manager) → IsLive fd c m → is_running m ≡ true
unfolding is_running
live_running fd c m h = rw (h.alive, h.py_enabled, h.at) refl

settles :
    (S : ℕ → Creations → Type 0) (m m' : Manager) (c : Command) (es : List Effect)
    → step m c ≡ (m', es)
    → IsConsistent S m'
    → IsConsistent S (step m c).0
settles S m m' c es e h = subst (IsConsistent S) (sym (ap (λ (z : Manager × List Effect). z.0) e)) h

now_idle : (S : ℕ → Creations → Type 0) (m : Manager) → IsIdle m → IsConsistent S m
now_idle S m h = inl (h, idle_running m h)

now_live :
    (S : ℕ → Creations → Type 0) (m : Manager) (fd : ℕ) (c : Creations)
    → S fd c
    → IsLive fd c m
    → IsConsistent S m
now_live S m fd c s h = inr (fd, c, s, h, live_running fd c m h)

step-IsConsistent :
    (S : ℕ → Creations → Type 0) (m : Manager) (c : Command)
    → IsConsistent S m
    → ((fd : ℕ) (c' : Creations) → starts (some fd) c' ≡ c → S fd c')
    → IsConsistent S (step m c).0
step-IsConsistent S m (starts none c) (inl h) k =
    settles S m m (starts none c) [] (start_fails m c h.0) (inl h)
step-IsConsistent S m (starts (some fd) c) (inl h) k =
    let (m', e, h') = start_idle m fd c h.0 in
    settles S m m' (starts (some fd) c) _ e (now_live S m' fd c (k fd c refl) h')
step-IsConsistent S m (starts o c') (inr (fd, c, s, h, r)) k =
    settles S m m (starts o c') [] (start_live m fd c o c' h) (inr (fd, c, s, h, r))
step-IsConsistent S m shuts_down h k = now_idle S (shutdown m).0 (shutdown-IsIdle m)
step-IsConsistent S m (asks memory) (inl h) k =
    now_idle S (get_perf_stats m memory).0 (stats-IsIdle m memory h.0)
step-IsConsistent S m (asks memory) (inr (fd, c, s, h, r)) k =
    now_live S (get_perf_stats m memory).0 fd c s (stats-IsLive fd c m memory h)

-- What the commands so far and those to come have started
reached_state :
    (Started : ℕ → Creations → Type 0) (m : Manager) (cs : List Command)
    → IsConsistent Started m
    → ((fd : ℕ) (c : Creations) → Has (starts (some fd) c) cs → Started fd c)
    → IsConsistent Started (reached m cs)
unfolding reached
reached_state S m [] h k = h
reached_state S m (c ∷ cs) h k =
    reached_state S (step m c).0 cs (step-IsConsistent S m c h (λ fd c' e. k fd c' (inl e)))
      (λ fd c' x. k fd c' (inr x))

-- After an init that succeeds and any sequence of start, shutdown and get_perf_stats, either the
-- object has no descriptor and no thread and is_running returns false; or is_running returns
-- true, one of the starts of the sequence has opened the descriptor that the object has, and
-- each of the three identifiers is what pthread_create has left in that start, that of a thread
-- or not.
pub reached-IsConsistent :
    (a : InitAnswers) (m m' : Manager) (cs : List Command)
    → init a m ≡ (m', none)
    → IsConsistent (λ fd c. Has (starts (some fd) c) cs) (reached m' cs)
reached-IsConsistent a m m' cs e =
    let h = init-IsIdle a.parsed a.queue_like a.port_memory a.methods a.block m m' e in
    reached_state (λ fd c. Has (starts (some fd) c) cs) m' cs (inl (h, idle_running m' h))
      (λ fd c x. x)
