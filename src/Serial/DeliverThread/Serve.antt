-- ===== src/Serial/DeliverThread/Serve.antt =====
-- The delivery thread hands on every frame once and in order.
use p.Common.{
  ℕ, ◌+◌, ◌≤◌, ◌≡◌, refl, sym, ap, ◌∙◌, subst, Bool, true, false, List, [], ◌∷◌, ◌++◌, Option, none,
  some, ◌>>=◌, length, take, drop, All, arith, append_assoc, append-nil, le→leb, eq→==, ne→==, ◌==◌,
  lt→ltb, ◌⊎◌,
}
use p.Serial.State.{Shared, Ring, ring_bytes}
use p.Serial.Queue.{Frame, Queue, used}
use p.Serial.Ring.Fifo.{Holds, IsShort, used-append}
use p.Serial.Deliver.{deliver_batch}
use p.Serial.Deliver.Batch.{offered}
use p.Serial.Deliver.Refine.{push_all_lem}
use p.Serial.Deliver.Whole.{IsCalm, outlet, handed, deliver_batch-split}
use p.Serial.DeliverThread.Arrivals.{
  woken, serve, arrived, joined, behind, serve-arrived, serve-progress,
}
use p.Serial.DeliverThread.{
  Wake, DeliverRound, Deliverer, DeliverNext, leaves, waits, goes_on, deliver_sampled, deliver_wait,
  delivering, deliver_round, deliver_run,
}

-- The flags stay set, what comes in a wait is short and fits the empty ring, and nothing disturbs
-- the call.
abbrev pub IsFitting : Wake → Type 0
IsFitting w = (w.alive ≡ true) × All IsShort w.pushed × (used w.pushed ≤ ring_bytes)

pub record IsServing (r : DeliverRound) : Type 0 where
  pub alive : r.alive ≡ true
  pub alive_locked : r.alive_locked ≡ true
  pub alive_woken : r.alive_woken ≡ true
  pub wakes : All IsFitting r.wakes
  pub py_enabled : r.call.py_enabled ≡ true
  pub list_ok : r.call.list_ok ≡ true
  pub calm : (j : ℕ) → IsCalm (r.call.rounds j)

offered-all : (q : Queue) (fs : List Frame) → used q + used fs ≤ ring_bytes → offered q fs ≡ q ++ fs
offered-all q [] h = sym (append-nil q)
offered-all q (f ∷ fs) h = rw (le→leb (used q + (2 + length f)) ring_bytes (omega arith)) (
    offered-all (q ++ (f ∷ [])) fs (omega (arith, used-append q (f ∷ [])))
    ∙ append_assoc q (f ∷ []) fs)

pub empty_ring_lem : (r : Ring) → Holds r [] → (r.ring_head == r.ring_tail) ≡ true
empty_ring_lem r h = eq→== r.ring_head r.ring_tail (omega (arith, h.head_at, h.tail_lt))

pub filled_ring_lem :
    (r : Ring) (f : Frame) (q : Queue) → Holds r (f ∷ q) → (r.ring_head == r.ring_tail) ≡ false
filled_ring_lem r f q h =
    ne→== r.ring_head r.ring_tail (omega (arith, h.head_at, h.fits, h.tail_lt))

abbrev some_wait : Queue → Bool
some_wait [] = false
some_wait (f ∷ q) = true

abbrev Waited : Option (Shared × Bool) → Queue → Type 0
Waited m q = (s : Shared) × (m ≡ some (s, some_wait q)) × Holds s.ring q

wait_lem :
    (wakes : List Wake) (alive : Bool) (s : Shared) (q : Queue)
    → alive ≡ true
    → All IsFitting wakes
    → Holds s.ring q
    → Waited (deliver_wait alive wakes s) (woken q wakes)
unfolding deliver_wait
wait_lem [] alive s [] on fit h = (s, rw (deliver_wait, on, empty_ring_lem s.ring h) refl, h)
wait_lem [] alive s (f ∷ q) on fit h =
    (s, rw (deliver_wait, on, filled_ring_lem s.ring f q h) refl, h)
wait_lem (w ∷ wakes) alive s (f ∷ q) on fit h =
    (s, rw (deliver_wait, on, filled_ring_lem s.ring f q h) refl, h)
wait_lem (w ∷ wakes) alive s [] on fit h =
    let (s1, pushed, h1) =
      push_all_lem s (outlet s []) w.pushed (record { ring = h; frames = refl; bytes = refl })
        fit.0.1 in
    let (s2, rest, h2) =
      wait_lem wakes w.alive s1 w.pushed fit.0.0 fit.1
        (subst (Holds s1.ring) (offered-all [] w.pushed (omega (arith, fit.0.2))) h1.ring) in
    (s2, rw (deliver_wait, on, empty_ring_lem s.ring h, pushed, ◌>>=◌) rest, h2)

abbrev pub deliverer_of : DeliverNext → Deliverer
deliverer_of (leaves d) = d
deliverer_of (waits d) = d
deliverer_of (goes_on d batch) = d

-- The run ends without a fault, has given these batches, and leaves these frames in the ring.
pub record Served (d : Deliverer) (rounds : List DeliverRound) (given : List (List Frame))
    (rest : Queue) : Type 0 where
  pub next : DeliverNext
  pub run : deliver_run d rounds ≡ some (next, given)
  pub ring : Holds (deliverer_of next).shared.ring rest

round_lem :
    (d : Deliverer) (r : DeliverRound) (w : Shared × Bool)
    → IsServing r
    → deliver_wait r.alive_locked r.wakes (deliver_sampled d r.now_ns).shared ≡ some w
    → deliver_round d r ≡ delivering (deliver_sampled d r.now_ns) r w
unfolding deliver_round
round_lem d r w h e =
    rw (deliver_round, h.alive) refl
    ∙ ap (λ (m : Option (Shared × Bool)). m >>= delivering (deliver_sampled d r.now_ns) r) e

gives_lem :
    (d : Deliverer) (r : DeliverRound) (s s' : Shared) (batch : Option (List Frame))
    → IsServing r
    → deliver_batch r.call s ≡ some (s', batch)
    → delivering d r (s, true) ≡ some (goes_on (record d { shared = s' }) batch)
unfolding delivering
gives_lem d r s s' batch h b =
    rw (delivering, h.alive_woken) refl
    ∙ ap
        (λ (m : Option (Shared × Option (List Frame))).
          m >>= λ x. some (goes_on (record d { shared = x.0 }) x.1))
        b

run_waits :
    (d d' : Deliverer) (r : DeliverRound) (rounds : List DeliverRound)
    → deliver_round d r ≡ some (waits d')
    → Holds d'.shared.ring []
    → Served d (r ∷ rounds) [] []
unfolding deliver_run
run_waits d d' r rounds e h = record {
  next = waits d';
  run = rw (deliver_run, e, ◌>>=◌) refl;
  ring = h;
}

run_gives :
    (d d' : Deliverer) (r : DeliverRound) (rounds : List DeliverRound) (batch : List Frame)
    (given : List (List Frame)) (rest : Queue)
    → deliver_round d r ≡ some (goes_on d' (some batch))
    → Served d' rounds given rest
    → Served d (r ∷ rounds) (batch ∷ given) rest
unfolding deliver_run
run_gives d d' r rounds batch given rest e h = record {
  next = h.next;
  run = rw (deliver_run, e, ◌>>=◌, h.run) refl;
  ring = h.ring;
}

run_round :
    (d : Deliverer) (r : DeliverRound) (rounds : List DeliverRound) (w : Queue)
    → IsServing r
    → Waited (deliver_wait r.alive_locked r.wakes (deliver_sampled d r.now_ns).shared) w
    → ((d' : Deliverer) (q : Queue)
        → Holds d'.shared.ring q
        → Served d' rounds (serve q rounds).0 (serve q rounds).1)
    → Served d (r ∷ rounds) (behind rounds w).0 (behind rounds w).1
run_round d r rounds [] h (s, e, ring) later =
    run_waits d (record (deliver_sampled d r.now_ns) { shared = s }) r rounds
      (round_lem d r (s, false) h e ∙ unfold delivering in refl) ring
run_round d r rounds (f ∷ fs) h (s, e, ring) later =
    let (s', b, left) = deliver_batch-split r.call s (f ∷ fs) h.py_enabled h.list_ok h.calm ring in
    let d' = deliver_sampled d r.now_ns in
    run_gives d _ r rounds (take 1024 (f ∷ fs)) _ _
      (round_lem d r (s, true) h e
        ∙ gives_lem d' r s s' (some (take 1024 (f ∷ fs))) h (b ∙ ap (λ l. some (s', l)) some_frame))
      (later (record d' { shared = s' }) (drop 1024 (f ∷ fs)) left)
  where
    some_frame : handed (take 1024 (f ∷ fs)) ≡ some (take 1024 (f ∷ fs))
    some_frame = rw (lt→ltb 0 (length (take 1024 (f ∷ fs))) (omega arith)) refl

deliver_run-serve :
    (rounds : List DeliverRound) (d : Deliverer) (q : Queue)
    → All IsServing rounds
    → Holds d.shared.ring q
    → Served d rounds (serve q rounds).0 (serve q rounds).1
deliver_run-serve [] d q on h =
    unfold deliver_run in record { next = goes_on d none; run = refl; ring = h }
deliver_run-serve (r ∷ rounds) d q on h =
    run_round d r rounds (woken q r.wakes) on.0
      (wait_lem r.wakes r.alive_locked (deliver_sampled d r.now_ns).shared q on.0.alive_locked
        on.0.wakes h)
      (λ d' q' h'. deliver_run-serve rounds d' q' on.1 h')

-- In rounds in which the flags stay set, every call gets its list and is disturbed by nothing,
-- and what is pushed in a wait is short and fits the empty ring: the thread faults nowhere, and
-- the batches that it gives to Python, joined, and the frames that it leaves in the ring behind
-- them are the frames of the ring at the start and those that came in its waits, each once and
-- in order. It leaves none, or it has given at least as many frames as there were rounds.
pub deliver_run-keeps :
    (rounds : List DeliverRound) (d : Deliverer) (q : Queue)
    → All IsServing rounds
    → Holds d.shared.ring q
    → (given : List (List Frame)) × (rest : Queue) × Served d rounds given rest
      × (joined given ++ rest ≡ q ++ arrived q rounds)
      × ((rest ≡ []) ⊎ (length rest + length rounds ≤ length q + length (arrived q rounds)))
deliver_run-keeps rounds d q on h = (
  (serve q rounds).0,
  (serve q rounds).1,
  deliver_run-serve rounds d q on h,
  serve-arrived rounds q,
  serve-progress rounds q,
)
