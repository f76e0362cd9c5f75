-- ===== src/Serial/Ring/Fifo.antt =====
-- When the ring holds the frames of a queue.
use p.Common.{
  ℕ, ◌+◌, ◌%◌, ◌^◌, ◌≤◌, ◌<◌, ◌≡◌, refl, sym, ap, ◌∙◌, List, [], ◌∷◌, ◌++◌, length, length-append,
  arith, All, append_assoc,
}
use p.Serial.State.{Ring, ring_bytes}
use p.Serial.Queue.{Frame, Queue, used}
use p.Serial.Ring.Circle.{circle}
use p.Serial.Ring.Store.{length_bytes}

-- A frame behind its length, and the frames one behind another.
abbrev pub stored : Frame → List ℕ
stored f = length_bytes (length f) ++ f

abbrev pub serialize : Queue → List ℕ
serialize [] = []
serialize (f ∷ fs) = stored f ++ serialize fs

pub length-serialize : (q : Queue) → length (serialize q) ≡ used q
length-serialize [] = refl
length-serialize (f ∷ fs) = omega (arith, length-append f (serialize fs), length-serialize fs)

pub serialize-append : (q r : Queue) → serialize (q ++ r) ≡ serialize q ++ serialize r
serialize-append [] r = refl
serialize-append (f ∷ fs) r =
    ap (λ l. stored f ++ l) (serialize-append fs r)
    ∙ sym (append_assoc (stored f) (serialize fs) (serialize r))

pub used-append : (q r : Queue) → used (q ++ r) ≡ used q + used r
used-append [] r = omega arith
used-append (f ∷ fs) r = omega (arith, used-append fs r)

-- Lengths that a uint16_t can hold.
abbrev pub IsShort : Frame → Type 0
IsShort f = length f < 2 ^ 16

-- The ring holds the frames of `q`.
pub record Holds (r : Ring) (q : Queue) : Type 0 where
  pub size_at : r.ring_size ≡ ring_bytes
  pub data_at : r.ring_data.size ≡ ring_bytes
  pub tail_lt : r.ring_tail < 2 ^ 64
  pub head_at : r.ring_head ≡ (r.ring_tail + used q) % 2 ^ 64
  pub fits : used q ≤ ring_bytes
  pub content : circle r.ring_data.cell r.ring_tail (used q) ≡ serialize q
  pub short : All IsShort q

-- The ring that SerialManager_init makes of the block that malloc returns.
abbrev pub empty_ring : (ℕ → ℕ) → Ring
empty_ring content = record {
  ring_data = record { size = ring_bytes; cell = content };
  ring_size = ring_bytes;
  ring_head = 0;
  ring_tail = 0;
  ring_dropped = 0;
}

pub empty_ring-Holds : (content : ℕ → ℕ) → Holds (empty_ring content) []
empty_ring-Holds content = record {
  size_at = refl;
  data_at = refl;
  tail_lt = omega arith;
  head_at = omega arith;
  fits = omega arith;
  content = refl;
  short = tt;
}
