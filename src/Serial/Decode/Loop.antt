-- ===== src/Serial/Decode/Loop.antt =====
-- The loop of `cobs_decode` against the reference decoder.
use p.Common.{
  ◌%◌, ◌^◌, ℕ, zero, suc, ◌+◌, ◌-◌, ◌≤◌, ◌<◌, ◌≡◌, refl, sym, ap, ◌∙◌, Bool, true, false, List, [],
  subst, ◌∷◌, ◌++◌, ◌==◌, if◌then◌else◌, length, length-append, arith, All, ne→==, not, take, drop,
  take-append-drop, none, some, length-take, length-drop, All-right, append-nil, append_assoc, ltb,
  lt→ltb, ge→ltb, inl, inr, Bool-cases, eq→==, dec_lt, ◌>>=◌,
}
use p.Memory.{Buffer, slice, blit, copy_out}
use p.Memory.Laws.{slice_cong, slice-blit_end, store_lem, copy_in_lem, copy_out_lem}
use p.Cobs.Spec.{Decoding, bytes, fails, prepend, decode_from}
use p.Cobs.Bounds.{IsWire, IsWire-IsNonzero}
use p.Serial.Decode.{Decoded, end_segment, decode_loop}
use p.Serial.Decode.Segment.{decode_cut, decode_whole, decode_owed}

-- The outcome behind the bytes `acc`: the array begins with `acc` and what was decoded, or -1.
abbrev pub Gives : ℕ → Decoded → List ℕ → Decoding → Type 0
Gives limit m acc (bytes ys) =
    (b : Buffer) × (m ≡ some (b, some (length (acc ++ ys))))
    × (copy_out b 0 (length (acc ++ ys)) ≡ some (acc ++ ys))
    × (b.size ≡ limit)
Gives limit m acc (fails e) = (b : Buffer) × (m ≡ some (b, none)) × (b.size ≡ limit)

Gives-prepend :
    (limit : ℕ) (m : Decoded) (acc xs : List ℕ) (r : Decoding)
    → Gives limit m (acc ++ xs) r
    → Gives limit m acc (prepend xs r)
Gives-prepend limit m acc xs (bytes ys) h = rw (← append_assoc acc xs ys) h
Gives-prepend limit m acc xs (fails e) h = h

pub record Wrote (b : Buffer) (idx limit : ℕ) (acc rest : List ℕ) : Type 0 where
  pub count : idx ≡ length acc
  pub content : slice b.cell 0 idx ≡ acc
  pub size : b.size ≡ limit
  pub room : idx + length rest ≤ limit

-- One segment copied, and the zero behind it where the input goes on.
abbrev copied : Buffer → ℕ → List ℕ → Buffer
copied b idx xs = record b { cell = blit b.cell idx xs }

copied-Wrote :
    (b : Buffer) (idx limit : ℕ) (acc : List ℕ) (xs rest before : List ℕ)
    → Wrote b idx limit acc before
    → length xs + length rest ≤ length before
    → Wrote (copied b idx xs) (idx + length xs) limit (acc ++ xs) rest
copied-Wrote b idx limit acc xs rest before w fit = record {
  count = omega (arith, length-append acc xs, w.count);
  content =
      ap (λ k. slice (blit b.cell k xs) 0 (idx + length xs)) (omega arith)
      ∙ slice-blit_end b.cell 0 idx xs
      ∙ ap (λ l. l ++ xs) w.content;
  size = w.size;
  room = omega (arith, w.room);
}

ends :
    (b : Buffer) (idx limit : ℕ) (acc : List ℕ) (o : Bool)
    → Wrote b idx limit acc []
    → Gives limit (some (b, some idx)) acc (decode_from 0 o [])
unfolding decode_from
ends b idx limit acc o w = rw append-nil (
  b,
  ap (λ k. some (b, some k)) w.count,
  copy_out_lem b 0 (length acc) (omega (arith, w.count, w.room, w.size))
      ∙ ap some (slice_cong b.cell {j = 0} refl (sym w.count) ∙ w.content),
  w.size,
)

loop_end :
    (fuel limit : ℕ) (b : Buffer) (idx : ℕ) → decode_loop fuel [] b idx limit ≡ some (b, some idx)
unfolding decode_loop
loop_end zero limit b idx = refl
loop_end (suc fuel) limit b idx = refl

shorter :
    (b : Buffer) (idx limit : ℕ) (acc : List ℕ) (x : ℕ) (rest : List ℕ)
    → Wrote b idx limit acc (x ∷ rest)
    → Wrote b idx limit acc rest
shorter b idx limit acc x rest w = record {
  count = w.count;
  content = w.content;
  size = w.size;
  room = omega (arith, w.room);
}

-- Any outcome of the reference decoder on the rest is carried over.
abbrev pub Continues : ℕ → ℕ → List ℕ → Type 0
Continues fuel limit rest =
    (acc : List ℕ) (b : Buffer) (idx : ℕ)
    → Wrote b idx limit acc rest
    → Gives limit (decode_loop fuel rest b idx limit) acc (decode_from 0 false rest)

after_segment :
    (fuel limit code : ℕ) (after acc : List ℕ) (b : Buffer) (idx : ℕ)
    → code < 256
    → All IsWire after
    → Wrote b idx limit acc (0 ∷ after)
    → Continues fuel limit after
    → Gives limit
        (end_segment code after b idx >>= λ r. decode_loop fuel after r.0 r.1 limit)
        acc
        (decode_from 0 (not (code == 255)) after)
unfolding end_segment
after_segment fuel limit code [] acc b idx small wire w next = elim (Bool-cases (ltb code 255)) [
  | inl short ↦
      rw (short, loop_end fuel limit b idx)
        (ends b idx limit acc _ (shorter b idx limit acc 0 [] w))
  | inr long ↦
      rw (long, loop_end fuel limit b idx) (ends b idx limit acc _ (shorter b idx limit acc 0 [] w))
]
after_segment fuel limit code (y ∷ after) acc b idx small wire w next = elim (dec_lt code 255) [
  | yes short ↦
      rw
        (
          lt→ltb code 255 short,
          lt→ltb 0 (suc (length after)) (omega arith),
          store_lem b idx 0 (omega (arith, w.room, w.size)),
          ne→== code 255 (omega arith),
          decode_owed y after true (omega arith),
        )
        (Gives-prepend limit _ acc (0 ∷ []) _ (
          next (acc ++ (0 ∷ [])) (copied b idx (0 ∷ [])) (idx + 1)
            (copied-Wrote b idx limit acc (0 ∷ []) (y ∷ after) (0 ∷ y ∷ after) w (omega arith))))
  | no long ↦
      rw (ge→ltb code 255 (omega arith), eq→== code 255 (omega arith))
        (next acc b idx (shorter b idx limit acc 0 (y ∷ after) w))
]

-- A code byte and its segment, as the loop reads them.
loop_cut :
    (fuel limit code : ℕ) (rest : List ℕ) (b : Buffer) (idx : ℕ)
    → 0 < code
    → length rest < code - 1
    → decode_loop (suc fuel) (code ∷ rest) b idx limit ≡ some (b, none)
unfolding decode_loop
loop_cut fuel limit code rest b idx pos cut =
    rw (ne→== code 0 (omega arith), lt→ltb (length rest) (code - 1) cut)

guard_fits :
    (idx limit code : ℕ) (rest : List ℕ)
    → limit < 2 ^ 64
    → idx + suc (length rest) ≤ limit
    → code - 1 ≤ length rest
    → 0 < code
    → (idx + (code - 1) + (if ltb code 255 then 1 else 0)) % 2 ^ 64 ≤ limit
guard_fits idx limit code rest small room whole pos = ground arith

loop_whole :
    (fuel limit code : ℕ) (rest : List ℕ) (b : Buffer) (idx : ℕ)
    → 0 < code
    → code - 1 ≤ length rest
    → b.size ≡ limit
    → idx + suc (length rest) ≤ limit
    → limit < 2 ^ 64
    → decode_loop (suc fuel) (code ∷ rest) b idx limit ≡ (
        end_segment code
          (drop (code - 1) rest)
          (copied b idx (take (code - 1) rest))
          (idx + (code - 1))
        >>= λ r. decode_loop fuel (drop (code - 1) rest) r.0 r.1 limit)
unfolding decode_loop
loop_whole fuel limit code rest b idx pos whole size room small = rw (
  ne→== code 0 (omega arith),
  ge→ltb (length rest) (code - 1) whole,
  ge→ltb limit ((idx + (code - 1) + (if ltb code 255 then 1 else 0)) % 2 ^ 64)
      (guard_fits idx limit code rest small room whole pos),
  copy_in_lem b idx (take (code - 1) rest) (omega (arith, length-take (code - 1) rest)),
)

seg_Wrote :
    (b : Buffer) (idx limit : ℕ) (acc : List ℕ) (code : ℕ) (rest : List ℕ)
    → Wrote b idx limit acc (code ∷ rest)
    → code - 1 ≤ length rest
    → Wrote
        (copied b idx (take (code - 1) rest))
        (idx + (code - 1))
        limit
        (acc ++ take (code - 1) rest)
        (0 ∷ drop (code - 1) rest)
seg_Wrote b idx limit acc code rest w whole =
    subst
      (λ k.
        Wrote (copied b idx (take (code - 1) rest)) (idx + k) limit (acc ++ take (code - 1) rest)
          (0 ∷ drop (code - 1) rest))
      (omega (arith, length-take (code - 1) rest))
      (copied-Wrote b idx limit acc (take (code - 1) rest) (0 ∷ drop (code - 1) rest) (code ∷ rest)
        w (omega (arith, length-take (code - 1) rest, length-drop (code - 1) rest)))

pub loop_gives :
    (fuel limit : ℕ) (src : List ℕ)
    → limit < 2 ^ 64
    → length src ≤ fuel
    → All IsWire src
    → Continues fuel limit src
loop_gives fuel limit [] small short wire acc b idx w =
    rw (loop_end fuel limit b idx) (ends b idx limit acc false w)
loop_gives zero limit (code ∷ rest) small short wire acc b idx w = absurd (omega arith)
loop_gives (suc fuel) limit (code ∷ rest) small short wire acc b idx w =
    elim (dec_lt (length rest) (code - 1)) [
      | yes cut ↦
          rw
            (
              loop_cut fuel limit code rest b idx wire.0.0 cut,
              decode_cut code rest (IsWire-IsNonzero rest wire.1) cut,
            )
            (b, refl, w.size)
      | no whole ↦
          rw
            (
              loop_whole fuel limit code rest b idx wire.0.0 (omega arith) w.size w.room small,
              decode_whole code rest (IsWire-IsNonzero rest wire.1) wire.0.0 (omega arith),
            )
            (Gives-prepend limit _ acc (take (code - 1) rest) _ (
              after_segment fuel limit code (drop (code - 1) rest) (acc ++ take (code - 1) rest)
                (copied b idx (take (code - 1) rest)) (idx + (code - 1)) wire.0.1 rest_wire
                (seg_Wrote b idx limit acc code rest w (omega arith))
                (loop_gives fuel limit (drop (code - 1) rest) small
                  (omega (arith, length-drop (code - 1) rest)) rest_wire)))
    ]
  where
    rest_wire : All IsWire (drop (code - 1) rest)
    rest_wire =
        All-right IsWire (take (code - 1) rest) (drop (code - 1) rest)
          (subst (All IsWire) (sym (take-append-drop (code - 1) rest)) wire.1)
