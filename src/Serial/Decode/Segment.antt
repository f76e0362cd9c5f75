-- ===== src/Serial/Decode/Segment.antt =====
-- The reference decoder on a whole segment, and on one that the input cuts short.
use p.Common.{
  ℕ, ◌-◌, ◌≤◌, ◌<◌, ◌≡◌, ◌≢◌, sym, ap, ap₂, ◌∙◌, Bool, false, List, [], ◌∷◌, ◌++◌, ◌==◌,
  if◌then◌else◌, length, arith, All, not, take, drop, take-append-drop, subst, length-take,
  All-left, append-nil, lt→ltb,
}
use p.Cobs.{insufficient}
use p.Cobs.Spec.{Decoding, fails, prepend, decode_from}
use p.Cobs.Decode.{decode_opens, decode_takes}
use p.Cobs.RoundTrip.{IsNonzero, decode_code, prepend-append}

cut_segment :
    (seg : List ℕ) (code : ℕ) (o : Bool)
    → All IsNonzero seg
    → length seg < code
    → decode_from code o seg ≡ fails insufficient
cut_segment [] code o nz h = unfold decode_from in rw (lt→ltb 0 code h)
cut_segment (x ∷ seg) code o nz h =
    sym (decode_takes code o x seg (omega arith) (omega arith))
    ∙ ap (prepend (x ∷ [])) (cut_segment seg (code - 1) o nz.1 (omega arith))

-- A code byte that asks for more bytes than there are.
pub decode_cut :
    (code : ℕ) (rest : List ℕ)
    → All IsNonzero rest
    → length rest < code - 1
    → decode_from 0 false (code ∷ rest) ≡ fails insufficient
decode_cut code rest nz h =
    sym (decode_opens false code rest (omega arith))
    ∙ ap (prepend []) (cut_segment rest (code - 1) (not (code == 255)) nz h)

-- A code byte with all its bytes.
pub decode_whole :
    (code : ℕ) (rest : List ℕ)
    → All IsNonzero rest
    → 0 < code
    → code - 1 ≤ length rest
    → decode_from 0 false (code ∷ rest)
      ≡ prepend (take (code - 1) rest) (decode_from 0 (not (code == 255)) (drop (code - 1) rest))
decode_whole code rest nz pos h =
    ap₂ (λ k l. decode_from 0 false (k ∷ l)) (omega (arith, size))
      (sym (take-append-drop (code - 1) rest))
    ∙ decode_code seg false after (All-left IsNonzero seg after split)
    ∙ ap (λ t. prepend seg (decode_from 0 (not t) after)) test
  where
    seg : List ℕ
    seg = take (code - 1) rest

    after : List ℕ
    after = drop (code - 1) rest

    size : length seg ≡ code - 1
    size = omega (arith, length-take (code - 1) rest)

    split : All IsNonzero (seg ++ after)
    split = subst (All IsNonzero) (sym (take-append-drop (code - 1) rest)) nz

    test : (length seg == 254) ≡ (code == 255)
    test = ground (arith, size)

-- A segment owes its zero only if more follows.
pub decode_owed :
    (x : ℕ) (rest : List ℕ) (o : Bool)
    → x ≢ 0
    → decode_from 0 o (x ∷ rest)
      ≡ prepend (if o then 0 ∷ [] else []) (decode_from 0 false (x ∷ rest))
decode_owed x rest o nz =
    sym (decode_opens o x rest nz)
    ∙ ap (λ l. prepend l tail) (sym (append-nil (if o then 0 ∷ [] else [])))
    ∙ sym (prepend-append (if o then 0 ∷ [] else []) [] tail)
    ∙ ap (prepend (if o then 0 ∷ [] else [])) (decode_opens false x rest nz)
  where
    tail : Decoding
    tail = decode_from (x - 1) (not (x == 255)) rest
