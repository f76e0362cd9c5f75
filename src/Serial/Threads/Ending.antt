-- ===== src/Serial/Threads/Ending.antt =====
-- SerialManager_shutdown ends the delivery thread of Windows.
use p.Common.{
  ℕ, zero, suc, ◌+◌, ◌≤◌, ◌≡◌, refl, subst, Bool, true, false, List, [], ◌∷◌, ◌⊎◌, inl, inr, ◌&&◌,
  arith, Bool-cases,
}
use p.Memory.{Buffer}
use p.Serial.State.{Perf}
use p.Serial.Queue.{Frame, Queue}
use p.Serial.Ring.Pop.{Popped, ring_pop-refines}
use p.Serial.Threads.InOrder.{IsOrdered, InOrder}
use p.Serial.Threads.Order.{Step-IsOrdered, Run-IsOrdered}
use p.Serial.Threads.Stopping.{
  past, past-halts, IsPlace, Alarm, IsStopping, Step-IsStopping, Run-IsStopping,
}
use p.Serial.Threads.Rank.{
  rank, rank_le, wait-rank, batch-rank, own, reader-rank, shutdown-rank, Step-past,
}
use p.Serial.Threads.{
  windows, At, looping, looking, testing, dozing, sleeping, notified, unlocked, calling, batching,
  holding, appended, handing, ended, System, is_empty, initial,
}
use p.Serial.Threads.Steps.{
  leaves, waits, finds_frames, wakes, returns, no_list, is_done, finds_none, takes, appends, stops,
  hands, Step, reader_step, wait_step, batch_step, shutdown_step, returns_early, Actor, the_reader,
  the_deliverer, the_caller, by_chance, Run, stay, later, loops, waits_win,
}

-- The delivery thread can make a step.
abbrev pub Moves : System → Type 0
Moves s = (t : System) × Step windows s the_deliverer t

flags_off : (a b : Bool) → a ≡ false → a && b ≡ false
flags_off true b h = cc
flags_off false b h = refl

Popped-Moves :
    (s : System) (n : ℕ) (t : Buffer) (b : List Frame) (q : Queue)
    → s.at ≡ batching (suc n) t b
    → Popped s.shared.ring q t
    → Moves s
Popped-Moves s n t b [] e p = (_, batch_step (finds_none n t b e p))
Popped-Moves s n t b (f ∷ q) e (g, r, p, c, _) = (_, batch_step (takes n _ t _ r f b e p c))

batching-Moves :
    (s : System) (n : ℕ) (t : Buffer) (b : List Frame)
    → s.at ≡ batching n t b
    → IsOrdered s
    → Moves s
batching-Moves s zero t b e o = (_, batch_step (is_done t b e))
batching-Moves s (suc n) t b e (q, i) =
    let j = subst (λ x. InOrder s.shared.ring x s.history q) e i in
    Popped-Moves s n t b q e (ring_pop-refines s.shared.ring q t j.ring (omega (arith, j.tmp)))

-- Wherever it stands behind ring_signal, the thread has ended or can go on.
can_go :
    (s : System) (a : At)
    → s.at ≡ a
    → IsPlace a
    → IsOrdered s
    → s.alive ≡ false
    → Alarm a s.event
    → (a ≡ ended) ⊎ Moves s
can_go s looping e p o off alarm = inr (_, wait_step (loops (leaves e off)))
can_go s looking e p o off alarm = elim (Bool-cases (is_empty s.shared.ring)) [
  | inl empty ↦ inr (_, wait_step (waits_win (waits e empty)))
  | inr filled ↦ inr (_, wait_step (waits_win (finds_frames e filled)))
]
can_go s sleeping e p o off alarm = inr (_, wait_step (waits_win (wakes e alarm)))
can_go s calling e p o off alarm = elim (Bool-cases s.py_enabled) [
  | inl on ↦ inr (_, batch_step (no_list e on))
  | inr off ↦ inr (_, batch_step (returns e off))
]
can_go s (batching n t b) e p o off alarm = inr (batching-Moves s n t b e o)
can_go s (holding n t f b) e p o off alarm = inr (_, batch_step (appends n t f b e))
can_go s (appended n t b) e p o off alarm =
    inr (_, batch_step (stops n t b e (flags_off s.alive s.py_enabled off)))
can_go s (handing b) e p o off alarm = inr (_, batch_step (hands b e))
can_go s ended e p o off alarm = inl refl
can_go s testing e p o off alarm = absurd p
can_go s dozing e p o off alarm = absurd p
can_go s notified e p o off alarm = absurd p
can_go s unlocked e p o off alarm = absurd p

-- The thread's steps are paid for by its rank.
Step-rank :
    {s t : System} (a : Actor)
    → Step windows s a t
    → s.alive ≡ false
    → own (a ∷ []) + rank t.at ≤ rank s.at
Step-rank _ (reader_step x) off = omega (arith, reader-rank x)
Step-rank _ (wait_step x) off = omega (arith, wait-rank x off)
Step-rank _ (batch_step x) off = omega (arith, batch-rank x off)
Step-rank _ (shutdown_step x) off = omega (arith, shutdown-rank x)
Step-rank _ (returns_early e _) off = absurd cc

own_cons : (a : Actor) (who : List Actor) → own (a ∷ who) ≡ own (a ∷ []) + own who
own_cons the_reader who = omega arith
own_cons the_deliverer who = omega arith
own_cons the_caller who = omega arith
own_cons by_chance who = omega arith

record Followed (s : System) (who : List Actor) (t : System) : Type 0 where
  stopping : IsStopping t
  ordered : IsOrdered t
  past_at : past t.stage ≡ true
  paid : own who + rank t.at ≤ rank s.at

follow :
    (s : System) {who : List Actor} {t : System}
    → IsStopping s
    → IsOrdered s
    → past s.stage ≡ true
    → Run windows s who t
    → Followed s who t
follow s h o p stay = record { stopping = h; ordered = o; past_at = p; paid = omega arith }
follow s h o p (later {t} {u} {who} {a} r x) =
    let f = follow s h o p r in
    let step = Step-rank a x (f.stopping.halted (past-halts t.stage f.past_at)) in
    record {
      stopping = Step-IsStopping x f.stopping;
      ordered = Step-IsOrdered x f.ordered;
      past_at = Step-past x f.past_at;
      paid = omega (arith, own_cons a who, step, f.paid);
    }

-- On Windows, once SerialManager_shutdown has cleared the flags and called ring_signal: however
-- the threads go on, the delivery thread makes at most 3077 more steps, and wherever it then
-- stands it has ended or can make a step.
pub shutdown_ends :
    (content : ℕ → ℕ) (perf : Perf) {before who : List Actor} {s t : System}
    → Run windows (initial content perf) before s
    → past s.stage ≡ true
    → Run windows s who t
    → (own who ≤ 3077) × ((t.at ≡ ended) ⊎ Moves t)
shutdown_ends content perf {s} {t} b p r =
    let h = Run-IsStopping content perf b in
    let f = follow s h (Run-IsOrdered content perf b) p r in
    let most = rank_le s.at h.place in
    (
      omega (arith, f.paid, most),
      can_go t t.at refl f.stopping.place f.ordered
          (f.stopping.halted (past-halts t.stage f.past_at)) (f.stopping.alarm f.past_at),
    )
