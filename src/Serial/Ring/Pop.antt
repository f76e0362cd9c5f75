-- ===== src/Serial/Ring/Pop.antt =====
-- `ring_pop` takes the oldest frame of the queue of Serial/Queue.antt.
use p.Common.{
  ℕ, ◌+◌, ◌^◌, ◌≤◌, ◌≡◌, refl, sym, ap, ◌∙◌, [], none, some, subst, ◌∷◌, ◌++◌, length, arith,
  add_size, ne→==, eq→==,
}
use p.Memory.{Buffer, copy_out}
use p.Memory.Laws.{copy_out_lem}
use p.Serial.State.{Ring, ring_bytes}
use p.Serial.Queue.{Frame, Queue, used}
use p.Serial.Ring.{ring_pop}
use p.Serial.Ring.Circle.{circle, circle_cong, circle-wrap, circle_parts}
use p.Serial.Ring.Read.{get_length_lem, get_payload_lem}
use p.Serial.Ring.Store.{length_bytes}
use p.Serial.Ring.Fifo.{serialize, Holds}

-- What a pop leaves: nothing on an empty ring; else the length of the oldest frame, its bytes in
-- frame_tmp, and a ring that holds the others.
abbrev pub Popped : Ring → Queue → Buffer → Type 0
Popped r [] tmp = ring_pop r tmp ≡ some none
Popped r (f ∷ fs) tmp =
    (g : ℕ → ℕ) × (r' : Ring) × (ring_pop r tmp
      ≡ some (some (length f, record tmp { cell = g }, r')))
    × (copy_out (record tmp { cell = g }) 0 (length f) ≡ some f)
    × Holds r' fs

abbrev sized_ring : Ring → Ring
sized_ring r = record r { ring_size = ring_bytes }

abbrev advanced : Ring → Frame → Ring
advanced r f = record r {
  ring_size = ring_bytes;
  ring_tail = add_size r.ring_tail (add_size 2 (length f));
}

-- The oldest frame and what stands behind it.
Holds_first :
    (r : Ring) (f : Frame) (fs : Queue)
    → Holds r (f ∷ fs)
    → (circle r.ring_data.cell r.ring_tail 2 ≡ length_bytes (length f))
      × (circle r.ring_data.cell (r.ring_tail + 2) (length f) ≡ f)
      × (circle r.ring_data.cell (r.ring_tail + 2 + length f) (used fs) ≡ serialize fs)
Holds_first r f fs h =
    let (front, others) =
      circle_parts r.ring_data.cell r.ring_tail (length f + used fs) (length_bytes (length f))
        (f ++ serialize fs) refl (omega arith) h.content in
    let (body, rest) =
      circle_parts r.ring_data.cell (r.ring_tail + 2) (used fs) f (serialize fs) refl refl others in
    (front, body, rest)

Holds_rest : (r : Ring) (f : Frame) (fs : Queue) → Holds r (f ∷ fs) → Holds (advanced r f) fs
Holds_rest r f fs h = record {
  size_at = refl;
  data_at = h.data_at;
  tail_lt = omega arith;
  head_at = omega (arith, h.head_at);
  fits = omega (arith, h.fits);
  content =
      circle-wrap r.ring_data.cell (r.ring_tail + add_size 2 (length f)) (used fs)
      ∙ circle_cong r.ring_data.cell (omega (arith, h.short.0)) refl
      ∙ (Holds_first r f fs h).2;
  short = h.short.1;
}

pop_first :
    (r : Ring) (f : Frame) (fs : Queue) (tmp : Buffer)
    → Holds r (f ∷ fs)
    → 2 ^ 16 ≤ tmp.size
    → Popped (sized_ring r) (f ∷ fs) tmp
unfolding ring_pop
pop_first r f fs tmp h big =
    let (front, body, _) = Holds_first r f fs h in
    let (g, ge, gs) =
      get_payload_lem r.ring_data r.ring_tail r.ring_tail h.data_at (omega (arith, h.tail_lt)) f tmp
        body (omega (arith, h.short.0)) (omega (arith, h.short.0)) in
    (
      g,
      advanced r f,
      rw (
        ne→== r.ring_head r.ring_tail (omega (arith, h.head_at, h.fits, h.tail_lt)),
        get_length_lem r.ring_data r.ring_tail r.ring_tail h.data_at (omega (arith, h.tail_lt))
            (length f) front h.short.0,
        ge,
      ),
      copy_out_lem (record tmp { cell = g }) 0 (length f) (omega (arith, h.short.0)) ∙ ap some gs,
      Holds_rest r f fs h,
    )

pop_empty : (r : Ring) (tmp : Buffer) → Holds r [] → ring_pop r tmp ≡ some none
unfolding ring_pop
pop_empty r tmp h = rw (eq→== r.ring_head r.ring_tail (omega (arith, h.head_at, h.tail_lt)))

-- On a ring that holds a queue, with a frame_tmp of at least 2 ^ 16 bytes, ring_pop never
-- faults: it finds the ring empty where the queue is, and else leaves the oldest frame in
-- frame_tmp, returns its length, and the ring holds the others.
pub ring_pop-refines :
    (r : Ring) (q : Queue) (tmp : Buffer) → Holds r q → 2 ^ 16 ≤ tmp.size → Popped r q tmp
ring_pop-refines r [] tmp h big = pop_empty r tmp h
ring_pop-refines r (f ∷ fs) tmp h big =
    subst (λ z. Popped z (f ∷ fs) tmp) path (pop_first r f fs tmp h big)
  where
    path : sized_ring r ≡ r
    path = λ i. record r { ring_size = sym h.size_at i }
