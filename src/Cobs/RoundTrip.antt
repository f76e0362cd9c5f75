-- ===== src/Cobs/RoundTrip.antt =====
-- The reference decoder undoes the reference encoder.
use p.Common.{
  ℕ, zero, suc, ◌+◌, ◌-◌, ◌<◌, ◌≡◌, refl, sym, ap, ◌∙◌, Bool, true, false, List, [], ◌∷◌, ◌++◌,
  ◌==◌, if◌then◌else◌, length, length-append, arith, ℕ_discrete, All, All-append, ne→==, eq→==,
  append_assoc, append-nil, not,
}
use p.Cobs.Decode.{decode_takes}
use p.Cobs.Encode.Need.{encode_zero, encode_full, encode_more}
use p.Cobs.Spec.{Decoding, bytes, fails, prepend, encode_from, encode, decode_from, decode}

abbrev pub IsNonzero : ℕ → Type 0
IsNonzero b = 0 < b

abbrev owed : Bool → List ℕ
owed o = if o then 0 ∷ [] else []

pub prepend-append :
    (xs ys : List ℕ) (r : Decoding) → prepend xs (prepend ys r) ≡ prepend (xs ++ ys) r
prepend-append xs ys (bytes zs) = ap bytes (sym (append_assoc xs ys zs))
prepend-append xs ys (fails e) = refl

-- A whole segment.
pub decode_segment :
    (seg : List ℕ) (o : Bool) (rest : List ℕ)
    → All IsNonzero seg
    → decode_from (length seg) o (seg ++ rest) ≡ prepend seg (decode_from 0 o rest)
decode_segment [] o rest h = nothing (decode_from 0 o rest)
  where
    nothing : (r : Decoding) → r ≡ prepend [] r
    nothing (bytes ys) = refl
    nothing (fails e) = refl
decode_segment (x ∷ seg) o rest h =
    sym (decode_takes (suc (length seg)) o x (seg ++ rest) (omega arith) (omega arith))
    ∙ ap (prepend (x ∷ []))
        (ap (λ k. decode_from k o (seg ++ rest)) (omega arith) ∙ decode_segment seg o rest h.1)
    ∙ prepend-append (x ∷ []) seg (decode_from 0 o rest)

-- A code byte with its segment.
pub decode_code :
    (seg : List ℕ) (o : Bool) (rest : List ℕ)
    → All IsNonzero seg
    → decode_from 0 o ((length seg + 1) ∷ (seg ++ rest))
      ≡ prepend (owed o ++ seg) (decode_from 0 (not (length seg == 254)) rest)
unfolding decode_from
decode_code seg o rest h =
    rw (ne→== (length seg + 1) 0 (omega arith), pred_len, test)
      (ap (prepend (owed o)) (decode_segment seg (not (length seg == 254)) rest h)
        ∙ prepend-append (owed o) seg (decode_from 0 (not (length seg == 254)) rest))
  where
    pred_len : length seg + 1 - 1 ≡ length seg
    pred_len = omega arith

    test : (length seg + 1 == 255) ≡ (length seg == 254)
    test = ground arith

decode_end : (o : Bool) → decode_from 0 o [] ≡ bytes []
unfolding decode_from
decode_end o = refl

encode_end : (cur : List ℕ) → encode_from cur false [] ≡ (length cur + 1) ∷ cur
unfolding encode_from
encode_end cur = refl

-- Behind a full segment the flag matters at the end only.
after_full :
    (rest : List ℕ)
    → decode_from 0 false (encode_from [] false rest) ≡ bytes rest
    → decode_from 0 false (encode_from [] true rest) ≡ bytes rest
unfolding encode_from
after_full [] h = decode_end false
after_full (v ∷ rest) h = h

-- One segment, and what follows it.
module _ (cur : List ℕ) (o : Bool) (nz : All IsNonzero cur) where
  last_segment : decode_from 0 o (encode_from cur false []) ≡ bytes (owed o ++ (cur ++ []))
  last_segment =
      ap (decode_from 0 o) (encode_end cur ∙ ap (λ l. (length cur + 1) ∷ l) (sym (append-nil cur)))
      ∙ decode_code cur o [] nz
      ∙ ap (prepend (owed o ++ cur)) (decode_end (not (length cur == 254)))
      ∙ ap bytes (append_assoc (owed o) cur [])

  ended_segment :
      (rest : List ℕ)
      → length cur < 254
      → decode_from 0 true (encode_from [] false rest) ≡ bytes (0 ∷ rest)
      → decode_from 0 o (encode_from cur false (0 ∷ rest)) ≡ bytes (owed o ++ (cur ++ (0 ∷ rest)))
  ended_segment rest short ih =
      ap (decode_from 0 o) (sym (encode_zero cur false rest))
      ∙ decode_code cur o (encode_from [] false rest) nz
      ∙ rw (ne→== (length cur) 254 (omega arith), ih)
          (ap bytes (append_assoc (owed o) cur (0 ∷ rest)))

  full_segment :
      (v : ℕ) (rest : List ℕ)
      → 0 < v
      → length cur ≡ 253
      → decode_from 0 false (encode_from [] false rest) ≡ bytes rest
      → decode_from 0 o (encode_from cur false (v ∷ rest)) ≡ bytes (owed o ++ (cur ++ (v ∷ rest)))
  full_segment v rest pos full ih =
      ap (decode_from 0 o) (encode_full cur false v rest (omega arith) full)
      ∙ ap (λ k. decode_from 0 o (k ∷ ((cur ++ (v ∷ [])) ++ encode_from [] true rest)))
          (omega (arith, length-append cur (v ∷ [])))
      ∙ decode_code (cur ++ (v ∷ [])) o (encode_from [] true rest)
          (All-append IsNonzero cur (v ∷ []) nz (pos, tt))
      ∙ rw
          (
            eq→== (length (cur ++ (v ∷ []))) 254 (omega (arith, length-append cur (v ∷ []))),
            after_full rest ih,
          )
          (ap bytes (
            append_assoc (owed o) (cur ++ (v ∷ [])) rest
            ∙ ap (λ l. owed o ++ l) (append_assoc cur (v ∷ []) rest)))

decode-encode_from :
    (xs cur : List ℕ) (o : Bool)
    → All IsNonzero cur
    → length cur < 254
    → decode_from 0 o (encode_from cur false xs) ≡ bytes (owed o ++ (cur ++ xs))
decode-encode_from [] cur o nz short = last_segment cur o nz
decode-encode_from (zero ∷ rest) cur o nz short =
    ended_segment cur o nz rest short (decode-encode_from rest [] true tt (omega arith))
decode-encode_from (suc v ∷ rest) cur o nz short = elim (ℕ_discrete (length cur) 253) [
  | yes full ↦
      full_segment cur o nz (suc v) rest (omega arith) full
        (decode-encode_from rest [] false tt (omega arith))
  | no more ↦
      ap (decode_from 0 o) (encode_more cur false (suc v) rest (omega arith) more)
      ∙ decode-encode_from rest (cur ++ (suc v ∷ [])) o
          (All-append IsNonzero cur (suc v ∷ []) nz (omega arith, tt))
          (omega (arith, length-append cur (suc v ∷ [])))
      ∙ ap (λ l. bytes (owed o ++ l)) (append_assoc cur (suc v ∷ []) rest)
]

pub decode-encode : (xs : List ℕ) → decode (encode xs) ≡ bytes xs
decode-encode xs = decode-encode_from xs [] false tt (omega arith)
