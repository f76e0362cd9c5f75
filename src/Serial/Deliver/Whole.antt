-- ===== src/Serial/Deliver/Whole.antt =====
-- The delivery call as a whole, and what it gives to Python when nothing interferes.
use p.Common.{
  ℕ, zero, suc, ◌+◌, ◌%◌, ◌^◌, ◌≡◌, ◌≤◌, ◌<◌, refl, sym, ap, ap₂, ◌∙◌, true, List, [], ◌∷◌, ◌++◌,
  Option, none, some, if◌then◌else◌, length, take, drop, take-all, drop-all, arith, All, ltb,
  append_assoc, append-nil, subst,
}
use p.Serial.State.{Shared}
use p.Serial.Queue.{Frame, Queue}
use p.Serial.Ring.Fifo.{Holds, IsShort}
use p.Serial.Deliver.{Round, Call, goes_on, after, deliver_loop, deliver_batch}
use p.Serial.Deliver.Batch.{Outlet, counted, deliver}
use p.Serial.Deliver.Refine.{OutletShows, Delivered, deliver_loop-deliver}

-- put_nowait gets the batch, if there is one.
abbrev pub handed : List Frame → Option (List Frame)
handed batch = if ltb 0 (length batch) then some batch else none

abbrev pub Called : Option (Shared × Option (List Frame)) → Outlet × List Frame → Type 0
Called m (o, batch) = (s : Shared) × (m ≡ some (s, handed batch)) × OutletShows s o

called :
    (c : Call) (s : Shared) (o : Outlet) (batch : List Frame)
    → c.py_enabled ≡ true
    → c.list_ok ≡ true
    → Delivered
        (deliver_loop 1024 c.rounds 0 s (record { size = 2 ^ 16; cell = c.stack }) [])
        (o, batch)
    → Called (deliver_batch c s) (o, batch)
unfolding deliver_batch
called c s o batch on ok (s', e, h) = rw (on, ok, e) (s', refl, h)

-- A delivery that gets its list, on a ring that holds a queue, ends without a fault and does
-- what the queue's delivery does: the same frames are handed over, the same are left and the
-- counters are the same, whatever frames of less than 2 ^ 16 bytes are pushed between its
-- rounds, whatever the interpreter answers and whenever a flag is cleared.
pub deliver_batch-deliver :
    (c : Call) (s : Shared) (o : Outlet)
    → c.py_enabled ≡ true
    → c.list_ok ≡ true
    → ((j : ℕ) → All IsShort (c.rounds j).meanwhile)
    → OutletShows s o
    → Called (deliver_batch c s) (deliver 1024 c.rounds 0 o [])
deliver_batch-deliver c s o on ok short h =
    let (o', batch) = deliver 1024 c.rounds 0 o [] in
    called c s _ _ on ok (
      deliver_loop-deliver 1024 c.rounds 0 s o (record { size = 2 ^ 16; cell = c.stack }) [] short h
        refl)

-- Nothing is pushed meanwhile, Python has memory and the flags stay set.
pub record IsCalm (round : Round) : Type 0 where
  pub meanwhile : round.meanwhile ≡ []
  pub goes : after round ≡ goes_on

abbrev total : List Frame → ℕ
total [] = 0
total (f ∷ fs) = length f + total fs

-- The outlet after the frames `b` have left it, with `q` behind.
abbrev pub left : Outlet → List Frame → Queue → Outlet
left o b q = record {
  queue = q;
  frames = (o.frames + length b) % 2 ^ 64;
  bytes = (o.bytes + total b) % 2 ^ 64;
}

-- What a ring that holds `q` shows.
abbrev pub outlet : Shared → Queue → Outlet
outlet s q = record { queue = q; frames = s.perf.delivered_frames; bytes = s.perf.delivered_bytes }

left_cong : (a b : Outlet) → a.queue ≡ b.queue → a.frames ≡ b.frames → a.bytes ≡ b.bytes → a ≡ b
left_cong a b q f y = λ i. record { queue = q i; frames = f i; bytes = y i }

round_calm :
    (n : ℕ) (rounds : ℕ → Round) (k : ℕ) (o : Outlet) (batch : List Frame) (f : Frame) (fs : Queue)
    → IsCalm (rounds k)
    → o.queue ≡ f ∷ fs
    → deliver (suc n) rounds k o batch
      ≡ deliver n rounds (k + 1) (counted (record o { queue = fs }) f) (batch ++ (f ∷ []))
unfolding deliver
round_calm n rounds k o batch f fs calm e = rw (deliver, calm.meanwhile, e, calm.goes) refl

stop_calm :
    (n : ℕ) (rounds : ℕ → Round) (k : ℕ) (o : Outlet) (batch : List Frame)
    → IsCalm (rounds k)
    → o.queue ≡ []
    → deliver (suc n) rounds k o batch ≡ (record o { queue = [] }, batch)
unfolding deliver
stop_calm n rounds k o batch calm e = rw (deliver, calm.meanwhile, e) refl

-- The first frames go out, the others stay.
pub deliver-calm :
    (n : ℕ) (rounds : ℕ → Round) (k : ℕ) (q : Queue) (frames bytes : ℕ) (batch : List Frame)
    → ((j : ℕ) → IsCalm (rounds j))
    → frames < 2 ^ 64
    → bytes < 2 ^ 64
    → deliver n rounds k (record { queue = q; frames = frames; bytes = bytes }) batch ≡ (
      left (record { queue = q; frames = frames; bytes = bytes }) (take n q) (drop n q),
      batch ++ take n q,
    )
deliver-calm zero rounds k q frames bytes batch calm a b =
    unfold deliver in
    ap₂ (λ (o : Outlet) (l : List Frame). (o, l)) (left_cong _ _ refl (omega arith) (omega arith))
      (sym (append-nil batch))
deliver-calm (suc n) rounds k [] frames bytes batch calm a b =
    stop_calm n rounds k _ batch (calm k) refl
    ∙ ap₂ (λ (o : Outlet) (l : List Frame). (o, l)) (left_cong _ _ refl (omega arith) (omega arith))
        (sym (append-nil batch))
deliver-calm (suc n) rounds k (f ∷ fs) frames bytes batch calm a b =
    round_calm n rounds k _ batch f fs (calm k) refl
    ∙ deliver-calm n rounds (k + 1) fs _ _ (batch ++ (f ∷ [])) calm (omega arith) (omega arith)
    ∙ ap₂ (λ (o : Outlet) (l : List Frame). (o, l)) (left_cong _ _ refl (omega arith) (omega arith))
        (append_assoc batch (f ∷ []) (take n fs))

-- A delivery that nothing disturbs hands the first 1024 frames that wait to Python, in order and
-- unchanged, leaves the others in the ring, and adds the number of the frames and of their bytes
-- to its counters, which are below 2 ^ 64 before.
deliver_batch-first :
    (c : Call) (s : Shared) (q : Queue)
    → c.py_enabled ≡ true
    → c.list_ok ≡ true
    → ((j : ℕ) → IsCalm (c.rounds j))
    → Holds s.ring q
    → s.perf.delivered_frames < 2 ^ 64
    → s.perf.delivered_bytes < 2 ^ 64
    → Called (deliver_batch c s) (left (outlet s q) (take 1024 q) (drop 1024 q), take 1024 q)
deliver_batch-first c s q on ok calm holds frames bytes =
    subst (Called (deliver_batch c s)) (deliver-calm 1024 c.rounds 0 q _ _ [] calm frames bytes) (
      deliver_batch-deliver c s (outlet s q) on ok
        (λ j. subst (All IsShort) (sym ((calm j).meanwhile)) tt)
        (record { ring = holds; frames = refl; bytes = refl }))

-- The same for the batch and the queue, whatever the counters stand at.
calm_batch :
    (n : ℕ) (rounds : ℕ → Round) (k : ℕ) (o : Outlet) (q : Queue) (batch : List Frame)
    → ((j : ℕ) → IsCalm (rounds j))
    → o.queue ≡ q
    → ((deliver n rounds k o batch).0.queue ≡ drop n q)
      × ((deliver n rounds k o batch).1 ≡ batch ++ take n q)
calm_batch zero rounds k o q batch calm e = unfold deliver in (e, sym (append-nil batch))
calm_batch (suc n) rounds k o [] batch calm e =
    rw (stop_calm n rounds k o batch (calm k) e) (refl, sym (append-nil batch))
calm_batch (suc n) rounds k o (f ∷ fs) batch calm e =
    rw (round_calm n rounds k o batch f fs (calm k) e, ← append_assoc batch (f ∷ []) (take n fs))
      (calm_batch n rounds (k + 1) (counted (record o { queue = fs }) f) fs (batch ++ (f ∷ [])) calm
        refl)

-- A call that nothing disturbs, on a ring whose counters may stand at any value
pub deliver_batch-split :
    (c : Call) (s : Shared) (q : Queue)
    → c.py_enabled ≡ true
    → c.list_ok ≡ true
    → ((j : ℕ) → IsCalm (c.rounds j))
    → Holds s.ring q
    → (s' : Shared) × (deliver_batch c s ≡ some (s', handed (take 1024 q)))
      × Holds s'.ring (drop 1024 q)
deliver_batch-split c s q on ok calm holds =
    let (rest, batch) = calm_batch 1024 c.rounds 0 (outlet s q) q [] calm refl in
    let (s', e, h) =
      deliver_batch-deliver c s (outlet s q) on ok
        (λ j. subst (All IsShort) (sym (calm j).meanwhile) tt)
        (record { ring = holds; frames = refl; bytes = refl }) in
    (s', e ∙ ap (λ l. some (s', handed l)) batch, subst (Holds s'.ring) rest h.ring)

pub deliver_batch-all :
    (c : Call) (s : Shared) (q : Queue)
    → c.py_enabled ≡ true
    → c.list_ok ≡ true
    → ((j : ℕ) → IsCalm (c.rounds j))
    → Holds s.ring q
    → length q ≤ 1024
    → (s' : Shared) × (deliver_batch c s ≡ some (s', handed q)) × Holds s'.ring []
deliver_batch-all c s q on ok calm holds short =
    let (s', e, h) = deliver_batch-split c s q on ok calm holds in
    (
      s',
      e ∙ ap (λ l. some (s', handed l)) (take-all 1024 q short),
      subst (Holds s'.ring) (drop-all 1024 q short) h,
    )
