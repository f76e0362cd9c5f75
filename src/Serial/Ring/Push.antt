-- ===== src/Serial/Ring/Push.antt =====
-- `ring_push` refines the push of the queue of Serial/Queue.antt.
use p.Common.{
  ℕ, ◌+◌, ◌%◌, ◌^◌, ◌≤◌, ◌<◌, ◌≡◌, refl, sym, ap, ap₂, ◌∙◌, [], some, subst, ◌∷◌, ◌++◌, length,
  arith, dec_lt, add_size, sub_size, le→leb, gt→leb, ge→ltb, lt→ltb, if◌then◌else◌, All-append,
  append-nil,
}
use p.Serial.State.{Ring, Perf, Shared, ring_bytes}
use p.Serial.Queue
use p.Serial.Queue.{Frame, Queue, used}
use p.Serial.Ring.{ring_push}
use p.Serial.Ring.Circle.{circle_cong, circle-append}
use p.Serial.Ring.Store.{Stored, Stored-append, length_bytes, put_length_lem, put_payload_lem}
use p.Serial.Ring.Fifo.{stored, serialize, serialize-append, used-append, IsShort, Holds}

abbrev pub counted : Perf → Perf
counted p = record p { ring_push_dropped = add_size p.ring_push_dropped 1 }

-- What a push does to a ring that holds `q`: it returns what the queue returns, the ring then holds
-- the queue's result, and the two counters of dropped frames move only if the frame is dropped.
abbrev pub Pushed : Shared → Queue → Frame → Type 0
Pushed s q f =
    let taken = (Queue.push q f).1 in
    (s' : Shared) × (ring_push s f ≡ some (s', taken))
    × Holds s'.ring (Queue.push q f).0
    × (s'.ring.ring_dropped
        ≡ (if taken then s.ring.ring_dropped else add_size s.ring.ring_dropped 1))
    × (s'.perf ≡ (if taken then s.perf else counted s.perf))

abbrev sized : Shared → Shared
sized s = record s { ring = record (s.ring) { ring_size = ring_bytes } }

push_full :
    (s : Shared) (q : Queue) (f : Frame)
    → Holds s.ring q
    → IsShort f
    → ring_bytes < used q + (2 + length f)
    → Pushed (sized s) q f
unfolding ring_push
push_full s q f h short over =
    rw
      (
        gt→leb (used q + (2 + length f)) ring_bytes over,
        lt→ltb (sub_size ring_bytes (sub_size s.ring.ring_head s.ring.ring_tail))
            (add_size 2 (length f)) (omega (arith, h.head_at, h.tail_lt, h.fits)),
      )
      (_, refl, holds, refl, refl)
  where
    holds :
        Holds
          (record (s.ring) {
            ring_size = ring_bytes;
            ring_dropped = add_size s.ring.ring_dropped 1;
          })
          q
    holds = record {
      size_at = refl;
      data_at = h.data_at;
      tail_lt = h.tail_lt;
      head_at = h.head_at;
      fits = h.fits;
      content = h.content;
      short = h.short;
    }

-- Behind what the ring holds stand the frame's length and its bytes.
Holds_snoc :
    (r : Ring) (g : ℕ → ℕ) (q : Queue) (f : Frame)
    → Holds r q
    → IsShort f
    → used q + (2 + length f) ≤ ring_bytes
    → Stored r.ring_data.cell g (r.ring_tail + used q) (stored f)
    → Holds
        (record r {
          ring_data = record (r.ring_data) { cell = g };
          ring_size = ring_bytes;
          ring_head = add_size r.ring_head (add_size 2 (length f));
        })
        (q ++ (f ∷ []))
Holds_snoc r g q f h short room st = record {
  size_at = refl;
  data_at = h.data_at;
  tail_lt = h.tail_lt;
  head_at = omega (arith, h.head_at, used-append q (f ∷ []));
  fits = omega (arith, used-append q (f ∷ []));
  content =
      circle_cong g {u = r.ring_tail} {n = used q + length (stored f)} refl
        (omega (arith, used-append q (f ∷ [])))
      ∙ circle-append g r.ring_tail (used q) (length (stored f))
      ∙ ap₂ ◌++◌ (st.kept r.ring_tail (used q) (omega arith) (omega arith) ∙ h.content) st.written
      ∙ ap (λ l. serialize q ++ l) (sym (append-nil (stored f)))
      ∙ sym (serialize-append q (f ∷ []));
  short = All-append IsShort q (f ∷ []) h.short (short, tt);
}

frame_Stored :
    (e g k : ℕ → ℕ) (t : ℕ) (f : Frame)
    → IsShort f
    → Stored e g t (length_bytes (length f % 2 ^ 16))
    → Stored g k (t + 2) f
    → Stored e k t (stored f)
frame_Stored e g k t f short a b =
    subst (λ n. Stored e k t (length_bytes n ++ f)) (omega arith)
      (Stored-append e g k t (length_bytes (length f % 2 ^ 16)) f (omega arith) a b)

push_taken :
    (s : Shared) (q : Queue) (f : Frame)
    → Holds s.ring q
    → IsShort f
    → used q + (2 + length f) ≤ ring_bytes
    → Pushed (sized s) q f
unfolding ring_push
push_taken s q f h short room =
    let t = s.ring.ring_tail + used q in
    let (g, ge, gs) =
      put_length_lem s.ring.ring_data t s.ring.ring_head h.data_at h.head_at (length f % 2 ^ 16) in
    let (k, ke, ks) =
      put_payload_lem (record (s.ring.ring_data) { cell = g }) t s.ring.ring_head h.data_at
        h.head_at f (omega arith) in
    rw
      (
        le→leb (used q + (2 + length f)) ring_bytes room,
        ge→ltb (sub_size ring_bytes (sub_size s.ring.ring_head s.ring.ring_tail))
            (add_size 2 (length f)) (omega (arith, h.head_at, h.tail_lt, h.fits)),
        ge,
        ke,
      )
      (
        _,
        refl,
        Holds_snoc s.ring k q f h short room
            (frame_Stored s.ring.ring_data.cell g k t f short gs ks),
        refl,
        refl,
      )

-- On a ring that holds a queue, ring_push of a frame shorter than 2 ^ 16 bytes never faults and
-- is the queue's push: the frame is stored behind the others if it and its two length bytes fit;
-- else the queue stays as it was and both counters of dropped frames grow by one.
pub ring_push-refines :
    (s : Shared) (q : Queue) (f : Frame) → Holds s.ring q → IsShort f → Pushed s q f
ring_push-refines s q f h short =
    subst (λ z. Pushed z q f) path
      (elim (dec_lt ring_bytes (used q + (2 + length f))) [
        | yes over ↦ push_full s q f h short over
        | no room ↦ push_taken s q f h short (omega arith)
      ])
  where
    path : sized s ≡ s
    path = λ i. record s { ring = record (s.ring) { ring_size = sym h.size_at i } }
