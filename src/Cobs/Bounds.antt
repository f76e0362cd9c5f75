-- ===== src/Cobs/Bounds.antt =====
-- Sizes: how long an encoding is, and what `cobs_enc_size` allows for.
use p.Common.{
  ℕ, zero, suc, ◌+◌, ◌*◌, ◌/◌, ◌≤◌, ◌<◌, ◌≡◌, ◌≢◌, refl, sym, Bool, true, false, List, [], ◌∷◌,
  ◌++◌, length, length-append, arith, ℕ_discrete, All, All-append, subst, inl, inr, Bool-cases,
}
use p.Cobs.{IsByte, IsSize, cobs_enc_size}
use p.Cobs.Encode.Need.{encode_zero, encode_full, encode_more}
use p.Cobs.Spec.{encode_from, encode, fulls}
use p.Cobs.RoundTrip.{IsNonzero}

-- 254 bytes go into each full segment.
pub fulls_bound : (c : ℕ) (xs : List ℕ) → c < 254 → 254 * fulls c xs ≤ c + length xs
unfolding fulls
fulls_bound c [] h = omega arith
fulls_bound c (x ∷ xs) h = ground (arith, fulls_bound 0 xs, fulls_bound (c + 1) xs)

-- A zero leaves a segment short.
pub fulls_zero :
    (c : ℕ) (xs ys : List ℕ)
    → c < 254
    → 254 * fulls c (xs ++ (0 ∷ ys)) < c + length (xs ++ (0 ∷ ys))
unfolding fulls
fulls_zero c [] ys h = omega (arith, fulls_bound 0 ys)
fulls_zero c (x ∷ xs) ys h = ground (arith, fulls_zero 0 xs ys, fulls_zero (c + 1) xs ys)

pub fulls_nonzero :
    (c : ℕ) (xs : List ℕ) → c < 254 → All IsNonzero xs → c + length xs < 254 * (fulls c xs + 1)
unfolding fulls
fulls_nonzero c [] h nz = omega arith
fulls_nonzero c (x ∷ xs) h nz = ground (arith, fulls_nonzero 0 xs, fulls_nonzero (c + 1) xs)

-- A byte that may stand on the wire inside a frame.
abbrev pub IsWire : ℕ → Type 0
IsWire b = (0 < b) × (b < 256)

encode_from-IsWire :
    (xs cur : List ℕ) (m : Bool)
    → All IsByte xs
    → All IsWire cur
    → length cur < 254
    → All IsWire (encode_from cur m xs)
encode_from-IsWire [] cur m hx h short =
    unfold encode_from in
    elim (Bool-cases m) [
      | inl full ↦ rw full tt
      | inr open_segment ↦ rw open_segment (omega arith, h)
    ]
encode_from-IsWire (zero ∷ rest) cur m hx h short = subst (All IsWire) (encode_zero cur m rest) (
  omega arith,
  All-append IsWire cur _ h (encode_from-IsWire rest [] false hx.1 tt (omega arith)),
)
encode_from-IsWire (suc v ∷ rest) cur m hx h short = elim (ℕ_discrete (length cur) 253) [
  | yes full ↦ subst (All IsWire) (sym (encode_full cur m (suc v) rest (omega arith) full)) (
    omega arith,
    All-append IsWire (cur ++ (suc v ∷ [])) _
        (All-append IsWire cur (suc v ∷ []) h (omega arith, tt))
        (encode_from-IsWire rest [] true hx.1 tt (omega arith)),
  )
  | no more ↦ subst (All IsWire) (sym (encode_more cur m (suc v) rest (omega arith) more)) (
      encode_from-IsWire rest (cur ++ (suc v ∷ [])) false hx.1
        (All-append IsWire cur (suc v ∷ []) h (omega arith, tt))
        (omega (arith, length-append cur (suc v ∷ []))))
]

pub encode-IsWire : (xs : List ℕ) → All IsByte xs → All IsWire (encode xs)
encode-IsWire xs h = encode_from-IsWire xs [] false h tt (omega arith)

pub IsWire-IsNonzero : (xs : List ℕ) → All IsWire xs → All IsNonzero xs
IsWire-IsNonzero [] h = tt
IsWire-IsNonzero (x ∷ xs) h = (h.0.0, IsWire-IsNonzero xs h.1)

-- One byte of overhead for each 254 bytes, or part of them.
abbrev pub overhead : ℕ → ℕ
overhead k = (k + 253) / 254

zero_lem :
    (cur rest : List ℕ) (m : Bool)
    → length cur < 254
    → (0 < length rest → length (encode_from [] false rest) ≤ length rest + overhead (length rest))
    → length (encode_from cur m (0 ∷ rest))
      ≤ length cur + suc (length rest) + overhead (length cur + suc (length rest))
zero_lem cur [] m short ih =
    rw (← encode_zero cur m []) (unfold encode_from in omega (arith, length-append cur (1 ∷ [])))
zero_lem cur (x ∷ rest) m short ih =
    rw (← encode_zero cur m (x ∷ rest))
      (omega (arith, length-append cur (encode_from [] false (x ∷ rest)), ih (omega arith)))

full_lem :
    (cur : List ℕ) (v : ℕ) (rest : List ℕ) (m : Bool)
    → v ≢ 0
    → length cur ≡ 253
    → (0 < length rest → length (encode_from [] true rest) ≤ length rest + overhead (length rest))
    → length (encode_from cur m (v ∷ rest))
      ≤ length cur + suc (length rest) + overhead (length cur + suc (length rest))
full_lem cur v [] m nz full ih = rw (encode_full cur m v [] nz full) (
    unfold encode_from in
    omega (arith, length-append (cur ++ (v ∷ [])) [], length-append cur (v ∷ [])))
full_lem cur v (x ∷ rest) m nz full ih = rw (encode_full cur m v (x ∷ rest) nz full) (
    omega (
      arith,
      length-append (cur ++ (v ∷ [])) (encode_from [] true (x ∷ rest)),
      length-append cur (v ∷ []),
      ih (omega arith),
    ))

length-encode_from-le :
    (xs cur : List ℕ) (m : Bool)
    → length cur < 254
    → 0 < length cur + length xs
    → length (encode_from cur m xs) ≤ length cur + length xs + overhead (length cur + length xs)
length-encode_from-le [] cur m short pos =
    unfold encode_from in
    elim (Bool-cases m) [
      | inl full ↦ rw full (omega arith)
      | inr open_segment ↦ rw open_segment (omega arith)
    ]
length-encode_from-le (zero ∷ rest) cur m short pos =
    zero_lem cur rest m short
      (λ p. omega (arith, length-encode_from-le rest [] false (omega arith) (omega arith)))
length-encode_from-le (suc v ∷ rest) cur m short pos = elim (ℕ_discrete (length cur) 253) [
  | yes full ↦
      full_lem cur (suc v) rest m (omega arith) full
        (λ p. omega (arith, length-encode_from-le rest [] true (omega arith) (omega arith)))
  | no more ↦ rw (encode_more cur m (suc v) rest (omega arith) more) (
      omega (
        arith,
        length-append cur (suc v ∷ []),
        length-encode_from-le rest (cur ++ (suc v ∷ [])) false,
      ))
]

pub length-encode-le :
    (xs : List ℕ) → xs ≢ [] → length (encode xs) ≤ length xs + overhead (length xs)
length-encode-le [] h = absurd (h refl)
length-encode-le (x ∷ xs) h =
    omega (arith, length-encode_from-le (x ∷ xs) [] false (omega arith) (omega arith))

pub cobs_enc_size_lem : (n : ℕ) → IsSize n → cobs_enc_size n ≡ n + overhead n
unfolding cobs_enc_size
cobs_enc_size_lem n h = omega arith
