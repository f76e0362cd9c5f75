-- ===== src/Serial/Decode/Agree.antt =====
-- The two decoders of the repository, `cobs_dec` of cobs.c and `cobs_decode` of mp_serial_ext.c.
use p.Common.{
  ℕ, ◌^◌, ◌≤◌, ◌<◌, ◌≡◌, refl, sym, ◌∙◌, List, [], subst, length, All, Option, none, some,
}
use p.Memory.{Buffer, copy_out}
use p.Cobs.{IsByte, DecResult, decoded, failed, cobs_dec}
use p.Cobs.Spec.{Decoding, bytes, fails, decode, encode}
use p.Cobs.Bounds.{IsWire, encode-IsWire}
use p.Cobs.Decode.{Reads, cobs_dec-reads}
use p.Cobs.RoundTrip.{decode-encode}
use p.Serial.Decode.{Decoded, cobs_decode}
use p.Serial.Decode.Loop.{Gives}
use p.Serial.Decode.Refine.{cobs_decode-Gives}

-- Both fail, or both succeed with the same bytes.
abbrev pub Agree : Option (Buffer × DecResult) → Decoded → Type 0
Agree (some (b, decoded m)) (some (c, some n)) = (m ≡ n) × (copy_out b 0 m ≡ copy_out c 0 n)
Agree (some (b, failed e)) (some (c, none)) = Unit {0}
Agree _ _ = ⊥

both :
    (limit : ℕ) (m : Option (Buffer × DecResult)) (n : Decoded) (r : Decoding)
    → Reads m [] r
    → Gives limit n [] r
    → Agree m n
both limit m n (bytes ys) (b, e, c) (b', e', c', size) = rw (e, e') (refl, c ∙ sym c')
both limit m n (fails x) (b, e) (b', e', size) = rw (e, e') tt

-- On fewer than 2 ^ 31 bytes that are not zero, with buffers at least as long as the input and
-- smaller than 2 ^ 64, cobs_dec and cobs_decode both fail, or both succeed with the same bytes.
pub decoders-Agree :
    (src : List ℕ) (out out' : Buffer)
    → All IsWire src
    → length src ≤ out.size
    → out.size < 2 ^ 64
    → length src ≤ out'.size
    → out'.size < 2 ^ 64
    → length src < 2 ^ 31
    → Agree (cobs_dec out src) (cobs_decode src out' out'.size)
decoders-Agree src out out' wire fit small fit' small' few =
    both out'.size _ _ (decode src) (cobs_dec-reads out src small fit)
      (cobs_decode-Gives src out' out'.size wire refl fit' small' few)

-- cobs_decode of the reference encoding of some bytes, into an array at least as long as the
-- encoding, returns their number and leaves these bytes.
cobs_decode-encode :
    (xs : List ℕ) (out : Buffer)
    → All IsByte xs
    → length (encode xs) ≤ out.size
    → out.size < 2 ^ 64
    → length (encode xs) < 2 ^ 31
    → (b : Buffer) × (cobs_decode (encode xs) out out.size ≡ some (b, some (length xs)))
      × (copy_out b 0 (length xs) ≡ some xs)
cobs_decode-encode xs out bs fit small few = let (b, e, c, _) = given in (b, e, c)
  where
    given : Gives out.size (cobs_decode (encode xs) out out.size) [] (bytes xs)
    given =
        subst (Gives out.size (cobs_decode (encode xs) out out.size) []) (decode-encode xs)
          (cobs_decode-Gives (encode xs) out out.size (encode-IsWire xs bs) refl fit small few)
