-- ===== src/Cobs/Python/Decoding.antt =====
-- What `cobs_dec_fn` returns on any input, and the round trip through both functions.
use p.Common.{ℕ, ◌+◌, ◌≡◌, ap, ◌∙◌, List, [], some, ◌==◌, if◌then◌else◌, length, arith}
use p.Cobs.{IsSize, cobs_dec}
use p.Cobs.Spec.{Decoding, bytes, fails, decode}
use p.Cobs.Decode.{Reads, cobs_dec-reads}
use p.Cobs.RoundTrip.{decode-encode}
use p.Cobs.Python.{PyResult, value, raises, cobs_error, cobs_enc_fn, cobs_dec_fn}
use p.Cobs.Python.Encoding.{with_memory, cobs_enc_fn-inversion}

-- The reply for a reference result: an error leaves the block allocated.
abbrev pub dec_outcome : Decoding → ℕ → PyResult × ℕ
dec_outcome (bytes ys) live = (value ys, live)
dec_outcome (fails e) live = (raises (cobs_error e), live + 1)

replies :
    (content : ℕ → ℕ) (xs : List ℕ) (live : ℕ) (r : Decoding)
    → Reads
        (cobs_dec (record { size = if length xs == 0 then 1 else length xs; cell = content }) xs)
        []
        r
    → cobs_dec_fn (with_memory content) (some xs) live ≡ some (dec_outcome r live)
unfolding cobs_dec_fn
replies content xs live (bytes ys) (b, e, r) =
    rw (e, r) (ap (λ k. some (value ys, k)) (omega arith))
replies content xs live (fails x) (b, e) = rw e

-- With memory, dec faults on no input shorter than 2 ^ 63: it returns what the reference decoder
-- returns and frees its block, or raises the reference decoder's error and leaves the block
-- allocated.
pub cobs_dec_fn_lem :
    (content : ℕ → ℕ) (xs : List ℕ) (live : ℕ)
    → IsSize (length xs)
    → cobs_dec_fn (with_memory content) (some xs) live ≡ some (dec_outcome (decode xs) live)
cobs_dec_fn_lem content xs live h =
    replies content xs live (decode xs) (cobs_dec-reads _ xs (ground arith) (ground arith))

-- If enc, with memory, returns a value for some bytes, then dec, with memory, returns these
-- bytes for that value, and no block is left allocated by the two calls. Both lengths are below
-- 2 ^ 63.
pub cobs_dec_fn-cobs_enc_fn :
    (content content' : ℕ → ℕ) (xs ys : List ℕ) (live live' : ℕ)
    → IsSize (length xs)
    → IsSize (length ys)
    → cobs_enc_fn (with_memory content) (some xs) live ≡ some (value ys, live')
    → cobs_dec_fn (with_memory content') (some ys) live' ≡ some (value xs, live)
cobs_dec_fn-cobs_enc_fn content content' xs ys live live' h k e =
    let (same, freed, _) = cobs_enc_fn-inversion content xs ys live live' h e in
    cobs_dec_fn_lem content' ys live' k ∙ rw (same, freed, decode-encode xs)
