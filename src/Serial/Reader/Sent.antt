-- ===== src/Serial/Reader/Sent.antt =====
-- A sender's stream, every frame encoded and behind it a zero, and what the reader makes of it.
use p.Common.{
  ℕ, zero, suc, ◌%◌, ◌<◌, ◌^◌, le→leb, ◌+◌, ◌≤◌, ◌≡◌, ◌≢◌, refl, sym, ap, ◌∙◌, List, [], ◌∷◌, ◌++◌,
  length, arith, All, All-append, append_assoc, append-nil,
}
use p.Cobs.{IsByte}
use p.Cobs.Spec.{encode, encode_from, Decoding, bytes, fails, decode, decode_from}
use p.Cobs.RoundTrip.{IsNonzero, decode-encode}
use p.Cobs.Bounds.{IsWire, IsWire-IsNonzero, encode-IsWire, overhead, length-encode-le}
use p.Serial.Queue.{Frame, used}
use p.Serial.State.{ring_bytes}
use p.Serial.Ring.Fifo.{used-append}
use p.Serial.Reader.{frame_bytes}
use p.Serial.Reader.Stream.{View, accept, receive, feed, feed_segment, IsFraming}

-- The bytes on the line for the frames.
abbrev pub sent : List Frame → List ℕ
sent [] = []
sent (f ∷ fs) = encode f ++ (0 ∷ sent fs)

-- The frames are taken one behind another.
abbrev pub accept_frames : View → List Frame → View
accept_frames v [] = v
accept_frames v (f ∷ fs) = accept_frames (accept v (bytes f)) fs

-- Short enough for the frame buffer once it is encoded.
abbrev pub IsSendable : Frame → Type 0
IsSendable f = All IsByte f × (length f + overhead (length f) ≤ frame_bytes)

decoded_length : Decoding → ℕ
decoded_length (bytes f) = length f
decoded_length (fails e) = 0

encode_nonempty : (f : Frame) → length (encode f) ≢ 0
unfolding decoded_length
encode_nonempty [] e = unfold encode_from in omega (arith, e)
encode_nonempty (x ∷ f) e =
    omega (arith, sym (ap decoded_length (decode-encode (x ∷ f))) ∙ empty (encode (x ∷ f)) e)
  where
    empty : (seg : List ℕ) → length seg ≡ 0 → decoded_length (decode seg) ≡ 0
    empty [] h = unfold decode_from in refl
    empty (y ∷ seg) h = absurd (omega (arith, h))

receive_bytes :
    (v : View) (seg : List ℕ) (f : Frame)
    → length seg ≢ 0
    → decode seg ≡ bytes f
    → receive v seg ≡ accept v (bytes f)
receive_bytes v [] f ne e = absurd (ne refl)
receive_bytes v (x ∷ seg) f ne e = ap (accept v) e

length-encode_short :
    (f : Frame) → length f + overhead (length f) ≤ frame_bytes → length (encode f) ≤ frame_bytes
length-encode_short [] h = unfold encode_from in omega arith
length-encode_short (x ∷ f) h =
    omega (arith, length-encode-le (x ∷ f) (λ e. nonempty (ap length e)))
  where
    nonempty : suc (length f) ≡ 0 → ⊥
    nonempty e = omega arith

framed :
    (cur xs ys : List ℕ)
    → All IsNonzero xs
    → length (cur ++ xs) ≤ frame_bytes
    → IsFraming [] ys
    → IsFraming cur (xs ++ (0 ∷ ys))
framed cur [] ys nz short h = (rw (← append-nil cur) short, h)
framed cur (zero ∷ xs) ys nz short h = absurd (omega arith)
framed cur (suc x ∷ xs) ys nz short h =
    framed (cur ++ (suc x ∷ [])) xs ys nz.1 (rw (append_assoc cur (suc x ∷ []) xs) short) h

wire_bytes : (xs : List ℕ) → All IsWire xs → All IsByte xs
wire_bytes [] h = tt
wire_bytes (x ∷ xs) h = (h.0.1, wire_bytes xs h.1)

pub sent-IsByte : (fs : List Frame) → All IsSendable fs → All IsByte (sent fs)
sent-IsByte [] h = tt
sent-IsByte (f ∷ fs) h =
    All-append IsByte (encode f) (0 ∷ sent fs) (wire_bytes (encode f) (encode-IsWire f h.0.0))
      (omega arith, sent-IsByte fs h.1)

pub sent-IsFraming : (fs : List Frame) → All IsSendable fs → IsFraming [] (sent fs)
sent-IsFraming [] h = omega arith
sent-IsFraming (f ∷ fs) h =
    framed [] (encode f) (sent fs) (IsWire-IsNonzero (encode f) (encode-IsWire f h.0.0))
      (length-encode_short f h.0.1) (sent-IsFraming fs h.1)

-- A stream of encoded frames gives back the frames, in order, and leaves no segment open.
pub feed-sent :
    (v : View) (fs : List Frame)
    → All IsSendable fs
    → feed v [] (sent fs) ≡ (accept_frames v fs, [])
feed-sent v [] h = unfold feed in refl
feed-sent v (f ∷ fs) h =
    feed_segment v [] (encode f) (sent fs) (IsWire-IsNonzero (encode f) (encode-IsWire f h.0.0))
    ∙ ap (λ w. feed w [] (sent fs))
        (receive_bytes v (encode f) f (encode_nonempty f) (decode-encode f))
    ∙ feed-sent (accept v (bytes f)) fs h.1

-- The frames behind those that wait, each of them counted.
abbrev pub queued : View → List Frame → View
queued v fs = record v { queue = v.queue ++ fs; frames = (v.frames + length fs) % 2 ^ 64 }

accept_fits :
    (v : View) (f : Frame)
    → used v.queue + (2 + length f) ≤ ring_bytes
    → accept v (bytes f) ≡ queued v (f ∷ [])
accept_fits v f fit = rw (le→leb (used v.queue + (2 + length f)) ring_bytes fit)

queued-queued :
    (v : View) (f : Frame) (fs : List Frame) → queued (queued v (f ∷ [])) fs ≡ queued v (f ∷ fs)
queued-queued v f fs =
    λ i. record v { queue = append_assoc v.queue (f ∷ []) fs i; frames = counts i }
  where
    counts : ((v.frames + 1) % 2 ^ 64 + length fs) % 2 ^ 64 ≡ (v.frames + suc (length fs)) % 2 ^ 64
    counts = omega arith

-- Frames for which there is room are all taken.
pub accept_frames-fits :
    (v : View) (fs : List Frame)
    → v.frames < 2 ^ 64
    → used v.queue + used fs ≤ ring_bytes
    → accept_frames v fs ≡ queued v fs
accept_frames-fits v [] counted fit =
    λ i. record v { queue = sym (append-nil v.queue) i; frames = same i }
  where
    same : v.frames ≡ (v.frames + 0) % 2 ^ 64
    same = omega arith
accept_frames-fits v (f ∷ fs) counted fit =
    ap (λ w. accept_frames w fs) (accept_fits v f (omega arith))
    ∙ accept_frames-fits (queued v (f ∷ [])) fs (omega arith)
        (omega (arith, used-append v.queue (f ∷ [])))
    ∙ queued-queued v f fs
