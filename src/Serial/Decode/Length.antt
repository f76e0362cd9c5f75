-- ===== src/Serial/Decode/Length.antt =====
-- How long a decoded frame is.
use p.Common.{
  ℕ, zero, suc, ◌+◌, ◌-◌, ◌≤◌, ◌≡◌, ◌∙◌, Bool, false, List, [], subst, ◌∷◌, if◌then◌else◌, length,
  arith, ◌==◌, not, ne→==, length-append,
}
use p.Cobs.Spec.{Decoding, bytes, fails, prepend, decode_from, decode}
use p.Cobs.Decode.{decode_opens}

-- At most one byte comes out for each byte that goes in.
unfoldable pub Within : ℕ → Decoding → Type 0
Within n (bytes ys) = length ys ≤ n
Within n (fails e) = Unit {0}

Within-prepend :
    (n m : ℕ) (xs : List ℕ) (r : Decoding)
    → length xs + n ≤ m
    → Within n r
    → Within m (prepend xs r)
unfolding Within
Within-prepend n m xs (bytes ys) h w = omega (arith, length-append xs ys)
Within-prepend n m xs (fails e) h w = tt

decode_from-Within : (c : ℕ) (o : Bool) (xs : List ℕ) → Within (length xs) (decode_from c o xs)
unfolding decode_from Within
decode_from-Within c o [] = ground arith
decode_from-Within c o (zero ∷ xs) = tt
decode_from-Within zero o (suc x ∷ xs) = rw (ne→== (suc x) 0 (omega arith)) (
    Within-prepend (length xs) (suc (length xs)) (if o then 0 ∷ [] else []) _ (ground arith)
      (decode_from-Within (suc x - 1) (not (suc x == 255)) xs))
decode_from-Within (suc c) o (suc x ∷ xs) =
    rw (ne→== (suc x) 0 (omega arith), ne→== (suc c) 0 (omega arith))
      (Within-prepend (length xs) (suc (length xs)) (suc x ∷ []) _ (omega arith)
        (decode_from-Within (suc c - 1) o xs))

-- The same of a whole input.
pub decode-Within : (xs : List ℕ) → Within (length xs) (decode xs)
decode-Within xs = decode_from-Within 0 false xs

zero_first : (xs ys : List ℕ) → decode (0 ∷ xs) ≡ bytes ys → length ys ≤ length xs
unfolding decode_from
zero_first xs ys e = cc

-- A decoded frame is shorter than its encoding.
pub length-decode : (x : ℕ) (xs ys : List ℕ) → decode (x ∷ xs) ≡ bytes ys → length ys ≤ length xs
length-decode zero xs ys e = zero_first xs ys e
length-decode (suc x) xs ys e =
    unfold Within in
    subst (Within (length xs)) (decode_opens false (suc x) xs (omega arith) ∙ e) (
      Within-prepend (length xs) (length xs) [] _ (omega arith)
        (decode_from-Within (suc x - 1) (not (suc x == 255)) xs))
