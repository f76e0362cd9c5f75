-- ===== src/Cobs/Spec.antt =====
-- Consistent overhead byte stuffing on lists, with no buffers: the reference for cobs.c.
use p.Common.{
  ℕ, ◌+◌, ◌-◌, Bool, true, false, List, [], ◌∷◌, ◌++◌, ltb, ◌==◌, if◌then◌else◌, not, length,
}
use p.Cobs.{DecError, contains_zero, insufficient}

-- What is still to be written, with the bytes `cur` in the open segment; the flag says that a full
-- segment has just been closed, behind which an empty one is left out at the end.
unfoldable pub encode_from : List ℕ → Bool → List ℕ → List ℕ
encode_from cur full [] = if full then [] else (length cur + 1) ∷ cur
encode_from cur full (v ∷ rest) =
    let ended = ((length cur + 1) ∷ cur) ++ encode_from [] false rest in
    let filled = (255 ∷ (cur ++ (v ∷ []))) ++ encode_from [] true rest in
    let more = encode_from (cur ++ (v ∷ [])) false rest in
    if v == 0 then ended else if length cur == 253 then filled else more

abbrev pub encode : List ℕ → List ℕ
encode xs = encode_from [] false xs

-- The number of full segments, with `c` bytes in the open one.
unfoldable pub fulls : ℕ → List ℕ → ℕ
fulls c [] = 0
fulls c (v ∷ rest) =
    let fresh = fulls 0 rest in
    let more = fulls (c + 1) rest in if v == 0 then fresh else if c == 253 then fresh + 1 else more

pub data Decoding : Type 0 where
  bytes : List ℕ → Decoding
  fails : DecError → Decoding

abbrev pub prepend : List ℕ → Decoding → Decoding
prepend xs (bytes ys) = bytes (xs ++ ys)
prepend xs (fails e) = fails e

-- `code` bytes of the segment are still to come; `owed` is set where a zero ends it.
unfoldable pub decode_from : ℕ → Bool → List ℕ → Decoding
decode_from code owed [] = if ltb 0 code then fails insufficient else bytes []
decode_from code owed (x ∷ rest) =
    let opened = decode_from (x - 1) (not (x == 255)) rest in
    let more = decode_from (code - 1) owed rest in
    if x == 0
    then fails contains_zero
    else if code == 0
    then prepend (if owed then 0 ∷ [] else []) opened
    else prepend (x ∷ []) more

abbrev pub decode : List ℕ → Decoding
decode xs = decode_from 0 false xs
