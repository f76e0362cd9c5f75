-- ===== src/Tests/CobsTests.antt =====
-- The COBS module on small inputs.
use p.Common.{ℕ, ◌≡◌, ◌≤◌, refl, List, [], ◌∷◌, none, some, length, arith, All, replicate}
use p.Memory.{Buffer}
use p.Cobs.{cobs_enc_size}
use p.Cobs.Spec.{encode, encode_from, decode}
use p.Cobs.Bounds.{IsWire}
use p.Cobs.Python.{value, cobs_enc_fn, cobs_dec_fn}
use p.Cobs.Python.Encoding.{
  with_memory, IsFullSegments, block_size, cobs_enc_fn-value, cobs_enc_fn-overflows,
  cobs_enc_fn-IsWire,
}
use p.Cobs.Python.Decoding.{dec_outcome, cobs_dec_fn_lem, cobs_dec_fn-cobs_enc_fn}

-- A block whose bytes are all 90 before they are written.
abbrev stale : ℕ → ℕ
stale i = 90

abbrev block : ℕ → Buffer
block n = record { size = n; cell = stale }

abbrev message : List ℕ
message = 7 ∷ 0 ∷ 9 ∷ []

abbrev stuffed : List ℕ
stuffed = 2 ∷ 7 ∷ 2 ∷ 9 ∷ []

abbrev ones : List ℕ
ones = replicate 254 1

message-encode : encode message ≡ stuffed
unfolding encode_from
message-encode = refl

message_not_full : ¬ IsFullSegments message
message_not_full f = omega (arith, f.1)

message_reply : cobs_enc_fn (with_memory stale) (some message) 0 ≡ some (value stuffed, 0)
unfolding encode_from
message_reply = cobs_enc_fn-value stale message 0 (omega arith) message_not_full

cobs_enc_fn-value_example :
    cobs_enc_fn (with_memory stale) (some message) 0 ≡ some (value (encode message), 0)
cobs_enc_fn-value_example = cobs_enc_fn-value stale message 0 (omega arith) message_not_full

cobs_enc_fn-overflows_example : cobs_enc_fn (with_memory stale) (some ones) 0 ≡ none
cobs_enc_fn-overflows_example =
    cobs_enc_fn-overflows stale ones 0 (omega arith) (omega arith, refl, λ e. cc)

cobs_enc_fn-IsWire_example :
    All IsWire stuffed × (length stuffed ≤ block_size (cobs_enc_size (length message)))
cobs_enc_fn-IsWire_example =
    cobs_enc_fn-IsWire stale message stuffed 0 0 (omega arith) (omega arith) message_reply

cobs_dec_fn_lem_example :
    cobs_dec_fn (with_memory stale) (some (5 ∷ 1 ∷ [])) 0
    ≡ some (dec_outcome (decode (5 ∷ 1 ∷ [])) 0)
cobs_dec_fn_lem_example = cobs_dec_fn_lem stale (5 ∷ 1 ∷ []) 0 (omega arith)

cobs_dec_fn-cobs_enc_fn_example :
    cobs_dec_fn (with_memory stale) (some stuffed) 0 ≡ some (value message, 0)
cobs_dec_fn-cobs_enc_fn_example =
    cobs_dec_fn-cobs_enc_fn stale stale message stuffed 0 0 (omega arith) (omega arith)
      message_reply
