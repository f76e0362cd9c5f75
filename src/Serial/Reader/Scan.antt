-- ===== src/Serial/Reader/Scan.antt =====
-- The reader's inner loop on one chunk does to the ring what the stream's frames do to the queue.
use p.Common.{
  ◌<◌, gt→leb, ne→==, ℕ, zero, suc, ◌+◌, ◌≤◌, ◌≡◌, refl, sym, ap, ◌∙◌, true, List, [], ◌∷◌, ◌++◌,
  length, length-append, arith, All, All-left, All-right, Option, none, some, subst, ◌⊎◌, inl, inr,
}
use p.Cobs.{IsByte}
use p.Cobs.Bounds.{IsWire}
use p.Cobs.RoundTrip.{IsNonzero}
use p.Serial.Reader.{frame_bytes, append_chunk, Reader, Flags, memchr_zero, end_frame, scan_posix}
use p.Serial.Reader.Stream.{
  View, receive, feed, IsFraming, feed_nonzero, feed_segment, IsFraming-nonzero, IsFraming-segment,
}
use p.Serial.Reader.Frame.{Shows, append_lem, end_lem}

-- memchr finds the first zero, or there is none.
pub memchr_cases :
    (p : List ℕ)
    → ((memchr_zero p ≡ none) × All IsNonzero p)
      ⊎ ((q : List ℕ) × (after : List ℕ) × (memchr_zero p ≡ some (q, after))
          × (p ≡ q ++ (0 ∷ after))
          × All IsNonzero q)
unfolding memchr_zero
memchr_cases [] = inl (refl, tt)
memchr_cases (zero ∷ p) = inr ([], p, refl, refl, tt)
memchr_cases (suc x ∷ p) = elim (memchr_cases p) [
  | inl (e, nz) ↦ inl (rw (ne→== (suc x) 0 (omega arith), e), (omega arith, nz))
  | inr (q, after, e, s, nz) ↦ inr (
    suc x ∷ q,
    after,
    rw (ne→== (suc x) 0 (omega arith), e),
    ap (λ l. suc x ∷ l) s,
    (omega arith, nz),
  )
]

to_wire : (xs : List ℕ) → All IsNonzero xs → All IsByte xs → All IsWire xs
to_wire [] nz bs = tt
to_wire (x ∷ xs) nz bs = ((nz.0, bs.0), to_wire xs nz.1 bs.1)

-- Both flags are set in every round.
abbrev pub AllSet : (ℕ → Flags) → Type 0
AllSet flags = (k : ℕ) → ((flags k).py_enabled ≡ true) × ((flags k).alive ≡ true)

-- A round of the loop: up to the next zero, or to the end of the chunk.
round_end :
    (fuel : ℕ) (flags : ℕ → Flags) (k : ℕ) (r r' : Reader) (x : ℕ) (p : List ℕ)
    → memchr_zero (x ∷ p) ≡ none
    → append_chunk r (x ∷ p) ≡ some r'
    → scan_posix (suc fuel) flags k r (x ∷ p) ≡ some r'
unfolding scan_posix
round_end fuel flags k r r' x p e a = rw (e, scan_posix) a

round_zero :
    (fuel : ℕ) (flags : ℕ → Flags) (k : ℕ) (r r' r'' : Reader) (x : ℕ) (p q after : List ℕ)
    → memchr_zero (x ∷ p) ≡ some (q, after)
    → append_chunk r q ≡ some r'
    → end_frame r' true ≡ some r''
    → ((flags k).py_enabled ≡ true) × ((flags k).alive ≡ true)
    → scan_posix (suc fuel) flags k r (x ∷ p) ≡ scan_posix fuel flags (k + 1) r'' after
unfolding scan_posix
round_zero fuel flags k r r' r'' x p q after e a b (on, alive) = rw (e, a, on, b, alive, scan_posix)

-- The loop on a chunk shows what the stream's bytes do to the view.
abbrev pub Scanned : Option Reader → View × List ℕ → Type 0
Scanned m (v, cur) = (r : Reader) × (m ≡ some r) × Shows r v cur

-- With fuel for every byte, while the flags stay set, the inner loop ends without a fault on any
-- chunk of bytes, and the ring, the counters and the frame buffer afterwards show what the
-- chunk's bytes make of the stream, if no segment is longer than the frame buffer.
pub scan_posix-feeds :
    (fuel : ℕ) (flags : ℕ → Flags) (k : ℕ) (r : Reader) (p : List ℕ) (v : View) (cur : List ℕ)
    → length p ≤ fuel
    → AllSet flags
    → Shows r v cur
    → All IsByte p
    → IsFraming cur p
    → Scanned (scan_posix fuel flags k r p) (feed v cur p)
scan_posix-feeds zero flags k r [] v cur fit on h bs framing =
    unfold scan_posix feed in (r, refl, h)
scan_posix-feeds (suc fuel) flags k r [] v cur fit on h bs framing =
    unfold scan_posix feed in (r, refl, h)
scan_posix-feeds zero flags k r (x ∷ p) v cur fit on h bs framing = absurd (omega arith)
scan_posix-feeds (suc fuel) flags k r (x ∷ p) v cur fit on h bs framing =
    elim (memchr_cases (x ∷ p)) [
      | inl (e, nz) ↦
          let (r', a, h') =
            append_lem r v cur (x ∷ p) h (to_wire (x ∷ p) nz bs)
              (IsFraming-nonzero cur (x ∷ p) nz framing) in
          subst (Scanned (scan_posix (suc fuel) flags k r (x ∷ p)))
            (sym (feed_nonzero v cur (x ∷ p) nz)) (r', round_end fuel flags k r r' x p e a, h')
      | inr (q, after, e, s, nz) ↦
          let (short, framing') =
            IsFraming-segment cur q after nz (subst (IsFraming cur) s framing) in
          let bs' = subst (All IsByte) s bs in
          let (r', a, h') =
            append_lem r v cur q h (to_wire q nz (All-left IsByte q (0 ∷ after) bs')) short in
          let (r'', b, h'') = end_lem r' v (cur ++ q) h' in
          subst (Scanned (scan_posix (suc fuel) flags k r (x ∷ p)))
            (sym (feed_segment v cur q after nz) ∙ ap (feed v cur) (sym s))
            (subst (λ m. Scanned m (feed (receive v (cur ++ q)) [] after))
              (sym (round_zero fuel flags k r r' r'' x p q after e a b (on k)))
              (scan_posix-feeds fuel flags (k + 1) r'' after (receive v (cur ++ q)) []
                (omega (arith, ap length s, length-append q (0 ∷ after))) on h''
                (All-right IsByte q (0 ∷ after) bs').1 framing'))
    ]

-- A chunk that does not fit behind what is collected.
overflow_lem :
    (r : Reader) (v : View) (cur q : List ℕ)
    → Shows r v cur
    → 0 < length q
    → frame_bytes < length cur + length q
    → (r' : Reader) × (append_chunk r q ≡ some r') × Shows r' v []
unfolding append_chunk
overflow_lem r v cur q h pos over = (
  record r { frame_len = 0 },
  rw
      (
        ne→== (length q) 0 (omega arith),
        gt→leb (r.frame_len + length q) frame_bytes (omega (arith, h.len_at)),
      )
      refl,
  record {
    buf_size = h.buf_size;
    tmp_size = h.tmp_size;
    len_at = refl;
    content = refl;
    short = omega arith;
    wire = tt;
    shared = h.shared;
  },
)

-- If the bytes collected and a chunk without a zero are more than the frame buffer holds, the
-- inner loop forgets both and stands as between two frames: ring and counters are unchanged, and
-- what follows of the segment is taken for a segment of its own.
pub scan_posix-overflow :
    (fuel : ℕ) (flags : ℕ → Flags) (k : ℕ) (r : Reader) (x : ℕ) (p : List ℕ) (v : View)
    (cur : List ℕ)
    → Shows r v cur
    → All IsNonzero (x ∷ p)
    → frame_bytes < length cur + length (x ∷ p)
    → Scanned (scan_posix (suc fuel) flags k r (x ∷ p)) (v, [])
scan_posix-overflow fuel flags k r x p v cur h nz over = elim (memchr_cases (x ∷ p)) [
  | inl (e, _) ↦
      let (r', a, h') = overflow_lem r v cur (x ∷ p) h (omega arith) over in
      (r', round_end fuel flags k r r' x p e a, h')
  | inr (q, after, e, s, _) ↦ absurd (no_zero q after (subst (All IsNonzero) s nz))
]
  where
    no_zero : (q after : List ℕ) → All IsNonzero (q ++ (0 ∷ after)) → ⊥
    no_zero [] after h = omega (arith, h.0)
    no_zero (y ∷ q) after h = no_zero q after h.1
