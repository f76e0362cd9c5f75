-- ===== src/Serial/Reader/Stream.antt =====
-- What the reader makes of the bytes that it is sent, with no buffers and no chunks.
use p.Common.{
  ℕ, zero, suc, ◌≤◌, ◌≡◌, refl, ap, ◌∙◌, List, [], ◌∷◌, ◌++◌, ◌==◌, if◌then◌else◌, length,
  length-append, arith, All, append_assoc, append-nil, add_size, ne→==,
}
use p.Cobs.Spec.{Decoding, bytes, fails, decode}
use p.Cobs.RoundTrip.{IsNonzero}
use p.Serial.Queue
use p.Serial.Queue.{Frame, Queue}
use p.Serial.Reader.{frame_bytes}

-- The frames that wait in the ring, and the counters.
pub record View : Type 0 where
  pub queue : Queue
  pub frames : ℕ
  pub errors : ℕ
  pub dropped : ℕ

abbrev pub accept : View → Decoding → View
accept v (bytes f) =
    let (q, taken) = Queue.push v.queue f in
    record v {
      queue = q;
      frames = add_size v.frames 1;
      dropped = if taken then v.dropped else add_size v.dropped 1;
    }
accept v (fails e) = record v { errors = add_size v.errors 1 }

-- The end of a segment; two zeros in a row end none.
abbrev pub receive : View → List ℕ → View
receive v [] = v
receive v (x ∷ seg) = accept v (decode (x ∷ seg))

-- The bytes `cur` of a segment have come, and then come `xs`.
unfoldable pub feed : View → List ℕ → List ℕ → View × List ℕ
feed v cur [] = (v, cur)
feed v cur (x ∷ xs) =
    let ended = feed (receive v cur) [] xs in
    let more = feed v (cur ++ (x ∷ [])) xs in if x == 0 then ended else more

-- No segment is longer than the frame buffer.
abbrev pub IsFraming : List ℕ → List ℕ → Type 0
IsFraming cur [] = length cur ≤ frame_bytes
IsFraming cur (zero ∷ xs) = (length cur ≤ frame_bytes) × IsFraming [] xs
IsFraming cur (suc x ∷ xs) = IsFraming (cur ++ (suc x ∷ [])) xs

pub feed-append :
    (v : View) (cur xs ys : List ℕ)
    → feed v cur (xs ++ ys) ≡ feed (feed v cur xs).0 (feed v cur xs).1 ys
unfolding feed
feed-append v cur [] ys = refl
feed-append v cur (zero ∷ xs) ys = feed-append (receive v cur) [] xs ys
feed-append v cur (suc x ∷ xs) ys =
    rw (ne→== (suc x) 0 (omega arith)) (feed-append v (cur ++ (suc x ∷ [])) xs ys)

-- Bytes that are not zero wait.
pub feed_nonzero : (v : View) (cur xs : List ℕ) → All IsNonzero xs → feed v cur xs ≡ (v, cur ++ xs)
unfolding feed
feed_nonzero v cur [] nz = rw append-nil
feed_nonzero v cur (x ∷ xs) nz =
    rw (ne→== x 0 (omega arith))
      (feed_nonzero v (cur ++ (x ∷ [])) xs nz.1 ∙ ap (λ l. (v, l)) (append_assoc cur (x ∷ []) xs))

pub feed_segment :
    (v : View) (cur xs ys : List ℕ)
    → All IsNonzero xs
    → feed v cur (xs ++ (0 ∷ ys)) ≡ feed (receive v (cur ++ xs)) [] ys
feed_segment v cur xs ys nz =
    feed-append v cur xs (0 ∷ ys)
    ∙ ap (λ (s : View × List ℕ). feed s.0 s.1 (0 ∷ ys)) (feed_nonzero v cur xs nz)
    ∙ unfold feed in refl

pub IsFraming-nonzero :
    (cur xs : List ℕ) → All IsNonzero xs → IsFraming cur xs → length (cur ++ xs) ≤ frame_bytes
IsFraming-nonzero cur [] nz h = rw append-nil h
IsFraming-nonzero cur (zero ∷ xs) nz h = absurd (omega arith)
IsFraming-nonzero cur (suc x ∷ xs) nz h =
    rw (← append_assoc cur (suc x ∷ []) xs) (IsFraming-nonzero (cur ++ (suc x ∷ [])) xs nz.1 h)

pub IsFraming-segment :
    (cur xs ys : List ℕ)
    → All IsNonzero xs
    → IsFraming cur (xs ++ (0 ∷ ys))
    → (length (cur ++ xs) ≤ frame_bytes) × IsFraming [] ys
IsFraming-segment cur [] ys nz h = rw append-nil h
IsFraming-segment cur (zero ∷ xs) ys nz h = absurd (omega arith)
IsFraming-segment cur (suc x ∷ xs) ys nz h =
    rw (← append_assoc cur (suc x ∷ []) xs) (IsFraming-segment (cur ++ (suc x ∷ [])) xs ys nz.1 h)

IsFraming-start : (cur xs : List ℕ) → IsFraming cur xs → length cur ≤ frame_bytes
IsFraming-start cur [] h = h
IsFraming-start cur (zero ∷ xs) h = h.0
IsFraming-start cur (suc x ∷ xs) h =
    omega (arith, IsFraming-start (cur ++ (suc x ∷ [])) xs h, length-append cur (suc x ∷ []))

-- A stream may be cut anywhere.
pub IsFraming-append :
    (v : View) (cur xs ys : List ℕ)
    → IsFraming cur (xs ++ ys)
    → IsFraming cur xs × IsFraming (feed v cur xs).1 ys
unfolding feed
IsFraming-append v cur [] ys h = (IsFraming-start cur ys h, h)
IsFraming-append v cur (zero ∷ xs) ys h =
    let (a, b) = IsFraming-append (receive v cur) [] xs ys h.1 in ((h.0, a), b)
IsFraming-append v cur (suc x ∷ xs) ys h =
    rw (ne→== (suc x) 0 (omega arith)) (IsFraming-append v (cur ++ (suc x ∷ [])) xs ys h)
