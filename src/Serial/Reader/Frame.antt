-- ===== src/Serial/Reader/Frame.antt =====
-- What the reader's two blocks on a chunk, append and decode, do to what the thread shows.
use p.Common.{
  ℕ, suc, ◌+◌, ◌≤◌, ◌<◌, ◌≡◌, refl, ap, ap₂, ◌∙◌, Bool, true, false, List, [], ◌∷◌, ◌++◌,
  if◌then◌else◌, length, length-append, arith, All, All-append, append-nil, add_size, ne→==, lt→ltb,
  le→leb, some, ◌>>=◌,
}
use p.Memory.{Buffer, slice, blit, copy_out}
use p.Memory.Laws.{slice_cong, slice-blit_end, copy_in_lem, copy_out_lem}
use p.Cobs.Spec.{Decoding, bytes, fails, decode}
use p.Cobs.Bounds.{IsWire}
use p.Serial.State.{Perf, Shared}
use p.Serial.Queue
use p.Serial.Queue.{Frame, Queue}
use p.Serial.Ring.Fifo.{Holds, IsShort}
use p.Serial.Ring.Push.{counted, ring_push-refines}
use p.Serial.Decode.{Decoded, cobs_decode}
use p.Serial.Decode.Loop.{Gives}
use p.Serial.Decode.Refine.{cobs_decode-Gives}
use p.Serial.Decode.Length.{length-decode}
use p.Serial.Reader.{
  Reader, frame_bytes, count_error, count_frame, append_chunk, end_frame, frame_decoded,
}
use p.Serial.Reader.Stream.{View, accept, receive}

-- The shared state shows `v`.
pub record SharedShows (s : Shared) (v : View) : Type 0 where
  pub ring : Holds s.ring v.queue
  pub frames : s.perf.rx_frames ≡ v.frames
  pub errors : s.perf.cobs_decode_errors ≡ v.errors
  pub dropped : s.ring.ring_dropped ≡ v.dropped
  pub push_dropped : s.perf.ring_push_dropped ≡ v.dropped

-- The thread shows `v`, with the bytes `cur` of a frame collected.
pub record Shows (r : Reader) (v : View) (cur : List ℕ) : Type 0 where
  pub buf_size : r.framebuf.size ≡ frame_bytes
  pub tmp_size : r.tmp.size ≡ frame_bytes
  pub len_at : r.frame_len ≡ length cur
  pub content : slice r.framebuf.cell 0 (length cur) ≡ cur
  pub short : length cur ≤ frame_bytes
  pub wire : All IsWire cur
  pub shared : SharedShows r.shared v

pub append_lem :
    (r : Reader) (v : View) (cur q : List ℕ)
    → Shows r v cur
    → All IsWire q
    → length (cur ++ q) ≤ frame_bytes
    → (r' : Reader) × (append_chunk r q ≡ some r') × Shows r' v (cur ++ q)
unfolding append_chunk
append_lem r v cur [] h wq fit = (r, refl, rw append-nil h)
append_lem r v cur (x ∷ q) h wq fit = (
  record r {
    framebuf = record (r.framebuf) { cell = blit r.framebuf.cell r.frame_len (x ∷ q) };
    frame_len = r.frame_len + suc (length q);
  },
  rw (
    ne→== (suc (length q)) 0 (omega arith),
    le→leb (r.frame_len + suc (length q)) frame_bytes
        (omega (arith, length-append cur (x ∷ q), h.len_at)),
    copy_in_lem r.framebuf r.frame_len (x ∷ q)
        (omega (arith, length-append cur (x ∷ q), h.len_at, h.buf_size)),
  ),
  record {
    buf_size = h.buf_size;
    tmp_size = h.tmp_size;
    len_at = omega (arith, length-append cur (x ∷ q), h.len_at);
    content =
        ap₂ (λ k n. slice (blit r.framebuf.cell k (x ∷ q)) 0 n) (omega (arith, h.len_at))
          (length-append cur (x ∷ q))
        ∙ slice-blit_end r.framebuf.cell 0 (length cur) (x ∷ q)
        ∙ ap (λ l. l ++ (x ∷ q)) h.content;
    short = fit;
    wire = All-append IsWire cur (x ∷ q) h.wire wq;
    shared = h.shared;
  },
)

-- The counters behind a push.
push_counts :
    (p p' : Perf) (taken : Bool)
    → p' ≡ (if taken then p else counted p)
    → (p'.rx_frames ≡ p.rx_frames)
      × (p'.cobs_decode_errors ≡ p.cobs_decode_errors)
      × (p'.ring_push_dropped
          ≡ (if taken then p.ring_push_dropped else add_size p.ring_push_dropped 1))
push_counts p p' true e = (
  ap (λ (k : Perf). k.rx_frames) e,
  ap (λ (k : Perf). k.cobs_decode_errors) e,
  ap (λ (k : Perf). k.ring_push_dropped) e,
)
push_counts p p' false e = (
  ap (λ (k : Perf). k.rx_frames) e,
  ap (λ (k : Perf). k.cobs_decode_errors) e,
  ap (λ (k : Perf). k.ring_push_dropped) e,
)

abbrev bump : Bool → ℕ → ℕ
bump taken n = if taken then n else add_size n 1

-- One more frame in the queue, counted or dropped.
accepted :
    (s s' : Shared) (v : View) (f : Frame)
    → SharedShows s v
    → Holds s'.ring (Queue.push v.queue f).0
    → (s'.ring.ring_dropped ≡ bump (Queue.push v.queue f).1 s.ring.ring_dropped)
    → s'.perf ≡ (if (Queue.push v.queue f).1 then s.perf else counted s.perf)
    → SharedShows
        (record s' { perf = record (s'.perf) { rx_frames = add_size s'.perf.rx_frames 1 } })
        (accept v (bytes f))
accepted s s' v f h ring dropped perf =
    let taken = (Queue.push v.queue f).1 in
    let (frames, errors, pushes) = push_counts s.perf s'.perf taken perf in
    record {
      ring = ring;
      frames = ap (λ n. add_size n 1) (frames ∙ h.frames);
      errors = errors ∙ h.errors;
      dropped = dropped ∙ ap (bump taken) h.dropped;
      push_dropped = pushes ∙ ap (bump taken) h.push_dropped;
    }

-- A frame that a uint16_t can measure, where there is one.
abbrev IsShortResult : Decoding → Type 0
IsShortResult (bytes f) = IsShort f
IsShortResult (fails e) = Unit {0}

-- What the thread does with the decoder's result.
decoded_lem :
    (r : Reader) (v : View) (m : Decoded) (d : Decoding)
    → SharedShows r.shared v
    → IsShortResult d
    → Gives frame_bytes m [] d
    → (t : Buffer) × (s : Shared) × ((m >>= λ k. frame_decoded r k.0 k.1)
        ≡ some (record r { tmp = t; shared = s }))
      × (t.size ≡ frame_bytes)
      × SharedShows s (accept v d)
unfolding frame_decoded
decoded_lem r v m (fails x) h short (b, e, size) = (
  b,
  count_error r.shared,
  rw e,
  size,
  record {
    ring = h.ring;
    frames = h.frames;
    errors = ap (λ n. add_size n 1) h.errors;
    dropped = h.dropped;
    push_dropped = h.push_dropped;
  },
)
decoded_lem r v m (bytes f) h short (b, e, c, size) =
    let (s, pe, holds, dropped, perf) = ring_push-refines r.shared v.queue f h.ring short in
    (b, count_frame s, rw (e, c, pe), size, accepted r.shared s v f h holds dropped perf)

short_result :
    (x : ℕ) (cur : List ℕ)
    → length (x ∷ cur) ≤ frame_bytes
    → (d : Decoding) → decode (x ∷ cur) ≡ d
    → IsShortResult d
short_result x cur fit (bytes f) e = omega (arith, length-decode x cur f e)
short_result x cur fit (fails y) e = tt

end_frame_run :
    (r : Reader) (src : List ℕ) (r' : Reader)
    → 0 < r.frame_len
    → copy_out r.framebuf 0 r.frame_len ≡ some src
    → (cobs_decode src r.tmp frame_bytes >>= λ k. frame_decoded r k.0 k.1) ≡ some r'
    → end_frame r true ≡ some (record r' { frame_len = 0 })
unfolding end_frame
end_frame_run r src r' pos read e = rw (lt→ltb 0 r.frame_len pos, read, e)

-- The end of a segment.
pub end_lem :
    (r : Reader) (v : View) (cur : List ℕ)
    → Shows r v cur
    → (r' : Reader) × (end_frame r true ≡ some r') × Shows r' (receive v cur) []
unfolding end_frame
end_lem r v [] h = (
  record r { frame_len = 0 },
  rw h.len_at,
  record {
    buf_size = h.buf_size;
    tmp_size = h.tmp_size;
    len_at = refl;
    content = refl;
    short = omega arith;
    wire = tt;
    shared = h.shared;
  },
)
end_lem r v (x ∷ cur) h =
    let (t, s, e, size, shows) =
      decoded_lem r v (cobs_decode (x ∷ cur) r.tmp frame_bytes) (decode (x ∷ cur)) h.shared
        (short_result x cur h.short (decode (x ∷ cur)) refl)
        (cobs_decode-Gives (x ∷ cur) r.tmp frame_bytes h.wire h.tmp_size h.short (omega arith)
          (omega (arith, h.short))) in
    (
      record r { tmp = t; shared = s; frame_len = 0 },
      end_frame_run r (x ∷ cur) _ (omega (arith, h.len_at)) collected e,
      record {
        buf_size = h.buf_size;
        tmp_size = size;
        len_at = refl;
        content = refl;
        short = omega arith;
        wire = tt;
        shared = shows;
      },
    )
  where
    collected : copy_out r.framebuf 0 r.frame_len ≡ some (x ∷ cur)
    collected =
        copy_out_lem r.framebuf 0 r.frame_len (omega (arith, h.len_at, h.short, h.buf_size))
        ∙ ap some (slice_cong r.framebuf.cell {j = 0} refl h.len_at ∙ h.content)
