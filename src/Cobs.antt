-- ===== src/Cobs.antt =====
-- The COBS extension module, p1150_driver/cobs_c/cobs.c. Pointers into the caller's buffers are
-- indices, `size_t` sums wrap at 2 ^ 64 and `uint8_t` ones at 256. A pointer that walks the input
-- is the list of the bytes that it has not reached. The long of the results has 64 bits.
pub mod Spec
pub mod Encode
pub mod Decode
pub mod RoundTrip
pub mod Bounds
pub mod Python
use p.Common.{
  ℕ, ◌+◌, ◌-◌, ◌/◌, ◌%◌, ◌^◌, ◌<◌, Bool, true, false, List, [], ◌∷◌, Option, none, some, ltb, ◌==◌,
  if◌then◌else◌, not, ◌>>=◌,
}
pub use p.Common.{add_size}
use p.Memory.{Buffer, load, store}

abbrev pub IsByte : ℕ → Type 0
IsByte b = b < 256

-- Lengths that a Python bytes object can have (PY_SSIZE_T_MAX).
abbrev pub IsSize : ℕ → Type 0
IsSize n = n < 2 ^ 63

pub cobs_enc_size : ℕ → ℕ
cobs_enc_size n = add_size (add_size n 253 / 254) n

-- The variables of `cobs_enc`; `out` is the offset of the pointer `out` in the output buffer.
pub record Encoder : Type 0 where
  pub buf : Buffer
  pub out : ℕ
  pub nout : ℕ
  pub last_max : Bool

-- nout += out[0]; out += out[0]; out[0] = 1;
pub next_segment : Encoder → Option Encoder
next_segment e = load e.buf e.out >>= λ c. store e.buf (e.out + c) 1 >>= λ b.
    some (record e { buf = b; out = e.out + c; nout = add_size e.nout c })

-- The body of the loop of `cobs_enc`, for the byte `v`.
pub enc_step : Encoder → ℕ → Option Encoder
unfolding next_segment
enc_step e v =
    if v == 0
    then next_segment (record e { last_max = false })
    else (load e.buf e.out >>= λ c. store e.buf (e.out + c) v >>= λ b.
        store b e.out ((c + 1) % 256) >>= λ b'. load b' e.out >>= λ c'.
        if c' == 255
        then next_segment (record e { buf = b'; last_max = true })
        else some (record e { buf = b'; last_max = false }))

pub enc_loop : Encoder → List ℕ → Option Encoder
unfolding enc_step
enc_loop e [] = some e
enc_loop e (v ∷ rest) = enc_step e v >>= λ e'. enc_loop e' rest

-- The last segment has an implicit 0x00 behind it, unless it is empty behind a full one.
pub enc_finish : Encoder → Option (Buffer × ℕ)
enc_finish e =
    if not e.last_max
    then load e.buf e.out >>= (λ c. some (e.buf, add_size e.nout c))
    else some (e.buf, e.nout)

-- The buffer afterwards and the value returned.
pub cobs_enc : Buffer → List ℕ → Option (Buffer × ℕ)
unfolding enc_loop enc_finish
cobs_enc out src = store out 0 1 >>= λ b.
    enc_loop (record { buf = b; out = 0; nout = 0; last_max = false }) src >>= enc_finish

-- The negative results of `cobs_dec`, -1 and -2.
pub data DecError : Type 0 where
  contains_zero insufficient : DecError

-- What `cobs_dec` returns: a length, or an error.
pub data DecResult : Type 0 where
  decoded : ℕ → DecResult
  failed : DecError → DecResult

pub record Decoder : Type 0 where
  pub buf : Buffer
  pub nout : ℕ
  pub code : ℕ
  pub out0 : Bool

-- if (out0) { *out++ = 0x00; nout++; }
pub put_zero : Decoder → Option Decoder
put_zero d =
    if d.out0
    then store d.buf d.nout 0 >>= (λ b. some (record d { buf = b; nout = add_size d.nout 1 }))
    else some d

-- A round of the loop of `cobs_dec` goes on, or the function returns -1.
pub data Round : Type 0 where
  continues : Decoder → Round
  rejects : Decoder → Round

-- One round on the byte `x`. `code--` runs only where `code` is not 0.
pub dec_step : Decoder → ℕ → Option Round
unfolding put_zero
dec_step d x =
    if d.code == 0
    then put_zero d >>= (λ e.
      some (
        if x == 0 then rejects e else continues (record e { code = x - 1; out0 = not (x == 255) })))
    else (if x == 0
        then some (rejects d)
        else (store d.buf d.nout x >>= λ b.
            some (continues (record d { buf = b; nout = add_size d.nout 1; code = d.code - 1 }))))

pub dec_loop : Decoder → List ℕ → Option (Buffer × DecResult)
unfolding dec_step
dec_loop d [] = some (d.buf, if ltb 0 d.code then failed insufficient else decoded d.nout)
dec_loop d (x ∷ rest) =
    dec_step d x
    >>= elim [ rejects e ↦ some (e.buf, failed contains_zero) | continues e ↦ dec_loop e rest ]

pub cobs_dec : Buffer → List ℕ → Option (Buffer × DecResult)
unfolding dec_loop
cobs_dec out src = dec_loop (record { buf = out; nout = 0; code = 0; out0 = false }) src
