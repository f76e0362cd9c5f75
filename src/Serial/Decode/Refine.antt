-- ===== src/Serial/Decode/Refine.antt =====
-- `cobs_decode` agrees with the reference decoder, and so with `cobs_dec`, on frames.
use p.Common.{◌%◌, ◌^◌, ℕ, ◌≤◌, ◌<◌, ◌≡◌, refl, ap, ◌∙◌, List, [], length, arith, All, some, lt→ltb}
use p.Memory.{Buffer}
use p.Cobs.Spec.{Decoding, bytes, fails, decode}
use p.Cobs.Bounds.{IsWire}
use p.Serial.Decode.Length.{Within, decode-Within}
use p.Serial.Decode.{returned, as_int, Decoded, cobs_decode}
use p.Serial.Decode.Loop.{Gives, loop_gives}

int_lem : (n : ℕ) → n < 2 ^ 31 → as_int (some n) ≡ some n
int_lem n h = rw (as_int, lt→ltb (n % 2 ^ 32) (2 ^ 31) (omega arith)) (ap some (omega arith))

returned-Gives :
    (limit n : ℕ) (m : Decoded) (r : Decoding)
    → n < 2 ^ 31
    → Within n r
    → Gives limit m [] r
    → Gives limit (returned m) [] r
unfolding Within
returned-Gives limit n m (bytes ys) small w (b, e, c, size) =
    (b, ap returned e ∙ ap (λ k. some (b, k)) (int_lem (length ys) (omega arith)), c, size)
returned-Gives limit n m (fails x) small w (b, e, size) = (b, ap returned e, size)

-- On fewer than 2 ^ 31 bytes that are not zero, into an array at least as long, of the size it
-- is told and smaller than 2 ^ 64, cobs_decode faults nowhere and has fuel enough: it leaves the
-- bytes that the reference decoder gives and returns their number, or returns a negative number
-- where the reference decoder fails.
pub cobs_decode-Gives :
    (src : List ℕ) (out : Buffer) (limit : ℕ)
    → All IsWire src
    → out.size ≡ limit
    → length src ≤ limit
    → limit < 2 ^ 64
    → length src < 2 ^ 31
    → Gives limit (cobs_decode src out limit) [] (decode src)
unfolding cobs_decode
cobs_decode-Gives src out limit wire size fit small few =
    returned-Gives limit (length src) _ (decode src) few (decode-Within src) (
      loop_gives (length src) limit src small (omega arith) wire [] out 0
        (record { count = refl; content = refl; size = size; room = omega arith }))
