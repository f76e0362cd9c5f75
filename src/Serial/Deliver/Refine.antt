-- ===== src/Serial/Deliver/Refine.antt =====
-- The delivery loop does to the ring what the queue's delivery does to the queue.
use p.Common.{
  ℕ, zero, suc, ◌+◌, ◌^◌, ◌≡◌, refl, ap, ◌∙◌, Bool, true, false, List, [], ◌∷◌, ◌++◌, Option, none,
  some, if◌then◌else◌, length, arith, All, add_size,
}
use p.Memory.{Buffer, copy_out}
use p.Serial.State.{Ring, Perf, Shared}
use p.Serial.Queue
use p.Serial.Queue.{Frame, Queue}
use p.Serial.Ring.{ring_push, ring_pop}
use p.Serial.Ring.Fifo.{Holds, IsShort}
use p.Serial.Ring.Push.{counted, ring_push-refines}
use p.Serial.Ring.Pop.{Popped, ring_pop-refines}
use p.Serial.Deliver.{
  Round, After, drops, breaks, goes_on, after, push_all, count_delivered, deliver_loop,
}
use p.Serial.Deliver.Batch
use p.Serial.Deliver.Batch.{Outlet, offered, deliver}

pub record OutletShows (s : Shared) (o : Outlet) : Type 0 where
  pub ring : Holds s.ring o.queue
  pub frames : s.perf.delivered_frames ≡ o.frames
  pub bytes : s.perf.delivered_bytes ≡ o.bytes

-- The state shows the outlet that the rounds leave, and the batch is theirs.
abbrev pub Delivered : Option (Shared × List Frame) → Outlet × List Frame → Type 0
Delivered m (o, batch) = (s : Shared) × (m ≡ some (s, batch)) × OutletShows s o

push_keeps :
    (s : Shared) (o : Outlet) (f : Frame)
    → OutletShows s o
    → IsShort f
    → (s' : Shared) × (ring_push s f ≡ some (s', (Queue.push o.queue f).1))
      × OutletShows s' (record o { queue = (Queue.push o.queue f).0 })
push_keeps s o f h short =
    let (s', e, holds, _, perf) = ring_push-refines s o.queue f h.ring short in
    let (frames, bytes) = same s.perf s'.perf (Queue.push o.queue f).1 perf in
    (s', e, record { ring = holds; frames = frames ∙ h.frames; bytes = bytes ∙ h.bytes })
  where
    same :
        (p p' : Perf) (taken : Bool)
        → p' ≡ (if taken then p else counted p)
        → (p'.delivered_frames ≡ p.delivered_frames) × (p'.delivered_bytes ≡ p.delivered_bytes)
    same p p' true e =
        (ap (λ (k : Perf). k.delivered_frames) e, ap (λ (k : Perf). k.delivered_bytes) e)
    same p p' false e =
        (ap (λ (k : Perf). k.delivered_frames) e, ap (λ (k : Perf). k.delivered_bytes) e)

pub push_all_lem :
    (s : Shared) (o : Outlet) (fs : List Frame)
    → OutletShows s o
    → All IsShort fs
    → (s' : Shared) × (push_all s fs ≡ some s')
      × OutletShows s' (record o { queue = offered o.queue fs })
unfolding push_all
push_all_lem s o [] h short = (s, refl, h)
push_all_lem s o (f ∷ fs) h short =
    let (s', e, h') = push_keeps s o f h short.0 in
    let (s'', e', h'') =
      push_all_lem s' (record o { queue = (Queue.push o.queue f).0 }) fs h' short.1 in
    (s'', rw e e', h'')

-- The frame that a round takes goes where the round's answers send it.
abbrev sent_on :
    ℕ
    → (ℕ → Round)
    → ℕ
    → Shared
    → Buffer
    → List Frame
    → Frame
    → After
    → Option (Shared × List Frame)
sent_on n rounds k s t batch f drops = deliver_loop n rounds (k + 1) s t batch
sent_on n rounds k s t batch f breaks = some (count_delivered s (length f), batch ++ (f ∷ []))
sent_on n rounds k s t batch f goes_on =
    deliver_loop n rounds (k + 1) (count_delivered s (length f)) t (batch ++ (f ∷ []))

round_empty :
    (n : ℕ) (rounds : ℕ → Round) (k : ℕ) (s s' : Shared) (tmp : Buffer) (batch : List Frame)
    → push_all s (rounds k).meanwhile ≡ some s'
    → ring_pop s'.ring tmp ≡ some none
    → deliver_loop (suc n) rounds k s tmp batch ≡ some (s', batch)
unfolding deliver_loop
round_empty n rounds k s s' tmp batch a b = rw (a, b)

round_takes :
    (n : ℕ) (rounds : ℕ → Round) (k : ℕ) (s s' : Shared) (tmp t : Buffer) (r : Ring)
    (batch : List Frame) (f : Frame) (x : After)
    → push_all s (rounds k).meanwhile ≡ some s'
    → ring_pop s'.ring tmp ≡ some (some (length f, t, r))
    → copy_out t 0 (length f) ≡ some f
    → after (rounds k) ≡ x
    → deliver_loop (suc n) rounds k s tmp batch
      ≡ sent_on n rounds k (record s' { ring = r }) t batch f x
unfolding deliver_loop
round_takes n rounds k s s' tmp t r batch f drops a b c e = rw (a, b, c, e, deliver_loop)
round_takes n rounds k s s' tmp t r batch f breaks a b c e = rw (a, b, c, e, deliver_loop)
round_takes n rounds k s s' tmp t r batch f goes_on a b c e = rw (a, b, c, e, deliver_loop)

delivered_Shows :
    (s : Shared) (r : Ring) (o : Outlet) (fs : Queue) (f : Frame)
    → OutletShows s o
    → Holds r fs
    → OutletShows
        (count_delivered (record s { ring = r }) (length f))
        (Batch.counted (record o { queue = fs }) f)
delivered_Shows s r o fs f h holds = record {
  ring = holds;
  frames = ap (λ n. add_size n 1) h.frames;
  bytes = ap (λ n. add_size n (length f)) h.bytes;
}

moved_Shows :
    (s : Shared) (r : Ring) (o : Outlet) (fs : Queue)
    → OutletShows s o
    → Holds r fs
    → OutletShows (record s { ring = r }) (record o { queue = fs })
moved_Shows s r o fs h holds = record { ring = holds; frames = h.frames; bytes = h.bytes }

-- The rounds from `k` on.
abbrev Refines : ℕ → (ℕ → Round) → ℕ → Type 0
Refines n rounds k =
    (s : Shared) (o : Outlet) (tmp : Buffer) (batch : List Frame)
    → OutletShows s o
    → tmp.size ≡ 2 ^ 16
    → Delivered (deliver_loop n rounds k s tmp batch) (deliver n rounds k o batch)

taken_lem :
    (n : ℕ) (rounds : ℕ → Round) (k : ℕ) (s s' : Shared) (o : Outlet) (tmp t : Buffer) (r : Ring)
    (batch : List Frame) (f : Frame) (fs : Queue) (x : After)
    → Refines n rounds (k + 1)
    → OutletShows s' (record o { queue = f ∷ fs })
    → Holds r fs
    → t.size ≡ 2 ^ 16
    → offered o.queue (rounds k).meanwhile ≡ f ∷ fs
    → after (rounds k) ≡ x
    → deliver_loop (suc n) rounds k s tmp batch
      ≡ sent_on n rounds k (record s' { ring = r }) t batch f x
    → Delivered (deliver_loop (suc n) rounds k s tmp batch) (deliver (suc n) rounds k o batch)
unfolding deliver
taken_lem n rounds k s s' o tmp t r batch f fs drops ih h holds size q e run =
    rw (q, e, run, deliver)
      (ih (record s' { ring = r }) (record o { queue = fs }) t batch
        (moved_Shows s' r (record o { queue = f ∷ fs }) fs h holds) size)
taken_lem n rounds k s s' o tmp t r batch f fs breaks ih h holds size q e run =
    rw (q, e, run, deliver)
      (_, refl, delivered_Shows s' r (record o { queue = f ∷ fs }) fs f h holds)
taken_lem n rounds k s s' o tmp t r batch f fs goes_on ih h holds size q e run =
    rw (q, e, run, deliver)
      (ih _ _ t _ (delivered_Shows s' r (record o { queue = f ∷ fs }) fs f h holds) size)

popped_lem :
    (n : ℕ) (rounds : ℕ → Round) (k : ℕ) (s s' : Shared) (o : Outlet) (tmp : Buffer)
    (batch : List Frame) (q : Queue)
    → Refines n rounds (k + 1)
    → OutletShows s' (record o { queue = q })
    → tmp.size ≡ 2 ^ 16
    → push_all s (rounds k).meanwhile ≡ some s'
    → offered o.queue (rounds k).meanwhile ≡ q
    → Popped s'.ring q tmp
    → Delivered (deliver_loop (suc n) rounds k s tmp batch) (deliver (suc n) rounds k o batch)
unfolding deliver
popped_lem n rounds k s s' o tmp batch [] ih h size a e b =
    rw (e, deliver) (s', round_empty n rounds k s s' tmp batch a b, h)
popped_lem n rounds k s s' o tmp batch (f ∷ fs) ih h size a e (g, r, b, c, holds) =
    taken_lem n rounds k s s' o tmp (record tmp { cell = g }) r batch f fs (after (rounds k)) ih h
      holds size e refl
      (round_takes n rounds k s s' tmp (record tmp { cell = g }) r batch f (after (rounds k)) a b c
        refl)

-- The rounds of the loop on the ring are those on the queue: whatever the interpreter answers,
-- whenever the flags are cleared and whatever is pushed meanwhile, nothing faults, and batch,
-- queue and counters are the same.
pub deliver_loop-deliver :
    (n : ℕ) (rounds : ℕ → Round) (k : ℕ) (s : Shared) (o : Outlet) (tmp : Buffer)
    (batch : List Frame)
    → ((j : ℕ) → All IsShort (rounds j).meanwhile)
    → OutletShows s o
    → tmp.size ≡ 2 ^ 16
    → Delivered (deliver_loop n rounds k s tmp batch) (deliver n rounds k o batch)
deliver_loop-deliver zero rounds k s o tmp batch short h size =
    unfold deliver_loop deliver in (s, refl, h)
deliver_loop-deliver (suc n) rounds k s o tmp batch short h size =
    let (s', a, h') = push_all_lem s o (rounds k).meanwhile h (short k) in
    popped_lem n rounds k s s' o tmp batch (offered o.queue (rounds k).meanwhile)
      (λ s o tmp batch h size. deliver_loop-deliver n rounds (k + 1) s o tmp batch short h size) h'
      size a refl (ring_pop-refines s'.ring _ tmp h'.ring (omega (arith, size)))
