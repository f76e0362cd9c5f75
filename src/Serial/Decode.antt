-- ===== src/Serial/Decode.antt =====
-- `cobs_decode` of mp_serial_ext.c, the decoder of the reader thread. The input pointer and index
-- are the list of the bytes not yet read, of which there are fewer than 2 ^ 64 - 254, so that the
-- sum in the first check does not wrap; that of the second is modulo 2 ^ 64.
pub mod Segment
pub mod Length
pub mod Loop
pub mod Refine
pub mod Agree
use p.Common.{
  ◌%◌, ◌^◌, to_signed, pos, negsuc, ℕ, zero, suc, ◌+◌, ◌-◌, Bool, true, false, List, [], ◌∷◌,
  Option, none, some, ltb, ◌==◌, ◌&&◌, if◌then◌else◌, ◌>>=◌, length, take, drop,
}
use p.Memory.{Buffer, store, copy_in}

-- The output array, and the int returned, none where it is negative; the outer none is a fault.
abbrev pub Decoded : Type 0
Decoded = Option (Buffer × Option ℕ)

-- if (code < 0xFF && in_idx < in_len) out[out_idx++] = 0x00;
pub end_segment : ℕ → List ℕ → Buffer → ℕ → Option (Buffer × ℕ)
end_segment code after out out_idx =
    if ltb code 255 && ltb 0 (length after)
    then store out out_idx 0 >>= (λ b. some (b, out_idx + 1))
    else some (out, out_idx)

-- A round takes at least one byte of the input, so `length src` rounds are enough; none stands for
-- a fault and for fuel that has run out.
pub decode_loop : ℕ → List ℕ → Buffer → ℕ → ℕ → Decoded
unfolding end_segment
decode_loop fuel [] out out_idx out_cap = some (out, some out_idx)
decode_loop zero (code ∷ rest) out out_idx out_cap = none
decode_loop (suc fuel) (code ∷ rest) out out_idx out_cap =
    let copy_len = code - 1 in
    let after = drop copy_len rest in
    if code == 0
    then some (out, none)
    else if ltb (length rest) copy_len
    then some (out, none)
    else if ltb out_cap ((out_idx + copy_len + (if ltb code 255 then 1 else 0)) % 2 ^ 64)
    then some (out, none)
    else (copy_in out out_idx (take copy_len rest) >>= λ b.
        end_segment code after b (out_idx + copy_len) >>= λ r.
        decode_loop fuel after r.0 r.1 out_cap)

-- The loop ends with the number of bytes, a size_t; return (int)out_idx.
abbrev pub as_int : Option ℕ → Option ℕ
as_int none = none
as_int (some out_idx) = elim (to_signed 32 (out_idx % 2 ^ 32)) [ pos n ↦ some n | negsuc n ↦ none ]

abbrev pub returned : Decoded → Decoded
returned none = none
returned (some r) = some (r.0, as_int r.1)

pub cobs_decode : List ℕ → Buffer → ℕ → Decoded
unfolding decode_loop
cobs_decode src out out_cap = returned (decode_loop (length src) src out 0 out_cap)
