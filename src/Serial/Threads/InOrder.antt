-- ===== src/Serial/Threads/InOrder.antt =====
-- The order of the frames between ring_push and put_nowait, and how a step of a thread keeps it.
use p.Common.{
  ℕ, suc, ◌^◌, ◌<◌, ◌≡◌, refl, sym, ap, ◌∙◌, subst, Bool, true, false, List, [], ◌∷◌, ◌++◌, some,
  length, append_assoc, append-nil, leb, if◌then◌else◌, ◌+◌,
}
use p.Memory.{Buffer, copy_out}
use p.Serial.State.{Ring, Shared, ring_bytes}
use p.Serial.Queue
use p.Serial.Queue.{Frame, Queue, used}
use p.Serial.Ring.{ring_push, ring_pop}
use p.Serial.Ring.Fifo.{Holds}
use p.Serial.Ring.Push.{ring_push-refines}
use p.Serial.Ring.Pop.{Popped}
use p.Serial.DeliverThread.Arrivals.{joined}
use p.Serial.Threads.Places.{batch_of, held, HasTmp, Picks, Picks_both}
use p.Serial.Threads.{At, looping, batching, holding, handing, History, System, accept}
use p.Serial.Threads.Steps.{hand}

-- The ring holds the frames that are accepted and not taken; what came into a batch has been
-- given or is in the batch; and only frames that memory failed for are missing in between.
pub record InOrder (r : Ring) (a : At) (h : History) (q : Queue) : Type 0 where
  pub ring : Holds r q
  pub order : h.taken ++ q ≡ h.accepted
  pub batches : joined h.given ++ batch_of a ≡ h.kept
  pub picked : Picks h.taken (h.kept ++ held a)
  pub tmp : HasTmp a

abbrev pub IsOrdered : System → Type 0
IsOrdered s = (q : Queue) × InOrder s.shared.ring s.at s.history q

-- The thread goes to another place with what it has.
pub moved :
    {r : Ring} {h : History} {q : Queue} {a : At} (b : At)
    → batch_of a ≡ batch_of b
    → held a ≡ held b
    → (HasTmp a → HasTmp b)
    → InOrder r a h q
    → InOrder r b h q
moved {h} b e f t i = record {
  ring = i.ring;
  order = i.order;
  batches = ap (λ l. joined h.given ++ l) (sym e) ∙ i.batches;
  picked = subst (λ l. Picks h.taken (h.kept ++ l)) f i.picked;
  tmp = t i.tmp;
}

joined-append : (bs : List (List Frame)) (b : List Frame) → joined (bs ++ (b ∷ [])) ≡ joined bs ++ b
joined-append [] b = append-nil b
joined-append (c ∷ bs) b =
    ap (λ l. c ++ l) (joined-append bs b) ∙ sym (append_assoc c (joined bs) b)

-- put_nowait is not called on an empty batch.
joined-hand : (h : History) (b : List Frame) → joined (hand h b).given ≡ joined h.given ++ b
joined-hand h [] = sym (append-nil (joined h.given))
joined-hand h (f ∷ b) = joined-append h.given (f ∷ b)

hand-taken : (h : History) (b : List Frame) → (hand h b).taken ≡ h.taken
hand-taken h [] = refl
hand-taken h (f ∷ b) = refl

hand-kept : (h : History) (b : List Frame) → (hand h b).kept ≡ h.kept
hand-kept h [] = refl
hand-kept h (f ∷ b) = refl

hand-accepted : (h : History) (b : List Frame) → (hand h b).accepted ≡ h.accepted
hand-accepted h [] = refl
hand-accepted h (f ∷ b) = refl

pub handed_lem :
    (r : Ring) (h : History) (q : Queue) (b : List Frame)
    → InOrder r (handing b) h q
    → InOrder r looping (hand h b) q
handed_lem r h q b i = record {
  ring = i.ring;
  order = ap (λ l. l ++ q) (hand-taken h b) ∙ i.order ∙ sym (hand-accepted h b);
  batches =
      append-nil (joined (hand h b).given) ∙ joined-hand h b ∙ i.batches ∙ sym (hand-kept h b);
  picked = rw (hand-taken h b, hand-kept h b) i.picked;
  tmp = tt;
}

-- The oldest frame leaves the ring for the thread's hands.
pub taken_lem :
    (r r' : Ring) (h : History) (q : Queue) (n len : ℕ) (t t' : Buffer) (f : Frame) (b : List Frame)
    → InOrder r (batching (suc n) t b) h q
    → ring_pop r t ≡ some (some (len, t', r'))
    → copy_out t' 0 len ≡ some f
    → Popped r q t
    → (q' : Queue) × InOrder r' (holding n t' f b) (record h { taken = h.taken ++ (f ∷ []) }) q'
taken_lem r r' h [] n len t t' f b i e c p = absurd (cc)
taken_lem r r' h (g ∷ q) n len t t' f b i e c (cell, r'', p, d, holds) = (
  q,
  record {
    ring = subst (λ x. Holds x q) same_ring holds;
    order =
        append_assoc h.taken (f ∷ []) q ∙ ap (λ x. h.taken ++ (x ∷ q)) (sym same_frame) ∙ i.order;
    batches = i.batches;
    picked = Picks_both h.taken h.kept f (subst (Picks h.taken) (append-nil h.kept) i.picked);
    tmp = ap (λ (x : Buffer). x.size) (sym same_tmp) ∙ i.tmp;
  },
)
  where
    same_ring : r'' ≡ r'
    same_ring = cc

    same_tmp : record t { cell = cell } ≡ t'
    same_tmp = cc

    same_length : length g ≡ len
    same_length = cc

    same_frame : g ≡ f
    same_frame = cc

-- The queue behind a push, by what the push returned
abbrev chosen : Bool → Queue → Queue → Queue × Bool
chosen b x y = if b then (x, true) else (y, false)

chosen_queue : (b : Bool) (x y : Queue) → (chosen b x y).0 ≡ (if (chosen b x y).1 then x else y)
chosen_queue true x y = refl
chosen_queue false x y = refl

abbrev told : Bool → History → Frame → History
told taken h f = if taken then accept h f else h

told_lem :
    (r r' : Ring) (a : At) (h : History) (q : Queue) (f : Frame) (taken : Bool)
    → InOrder r a h q
    → Holds r' (if taken then q ++ (f ∷ []) else q)
    → InOrder r' a (told taken h f) (if taken then q ++ (f ∷ []) else q)
told_lem r r' a h q f true i holds = record {
  ring = holds;
  order = sym (append_assoc h.taken q (f ∷ [])) ∙ ap (λ l. l ++ (f ∷ [])) i.order;
  batches = i.batches;
  picked = i.picked;
  tmp = i.tmp;
}
told_lem r r' a h q f false i holds = record {
  ring = holds;
  order = i.order;
  batches = i.batches;
  picked = i.picked;
  tmp = i.tmp;
}

pub pushed_lem :
    (s r : Shared) (a : At) (h : History) (q : Queue) (f : Frame) (taken : Bool)
    → InOrder s.ring a h q
    → length f < 2 ^ 16
    → ring_push s f ≡ some (r, taken)
    → InOrder r.ring a (told taken h f) (if taken then q ++ (f ∷ []) else q)
pushed_lem s r a h q f taken i short e =
    let (r', p, holds, _, _) = ring_push-refines s q f i.ring short in
    told_lem s.ring r.ring a h q f taken i (
      subst (λ (x : Shared × Bool). Holds x.0.ring (if x.1 then q ++ (f ∷ []) else q)) (same r' p)
        (subst (Holds r'.ring)
          (chosen_queue (leb (used q + (2 + length f)) ring_bytes) (q ++ (f ∷ [])) q) holds))
  where
    same :
        (r' : Shared)
        → ring_push s f ≡ some (r', (Queue.push q f).1)
        → ◌≡◌ {A = Shared × Bool} (r', (Queue.push q f).1) (r, taken)
    same r' p = cc
