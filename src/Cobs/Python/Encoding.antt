-- ===== src/Cobs/Python/Encoding.antt =====
-- What `cobs_enc_fn` returns, and the inputs on which it writes past its block.
use p.Common.{
  ℕ, zero, suc, ◌+◌, ◌%◌, ◌^◌, ◌≤◌, ◌<◌, ◌≡◌, ◌≢◌, ◌⊎◌, inl, inr, refl, ap, true, subst, List, [],
  ◌∷◌, ◌++◌, none, some, ◌==◌, if◌then◌else◌, length, arith, ℕ_discrete, ne→==, All,
}
use p.Cobs.{IsByte, IsSize, cobs_enc_size, cobs_enc}
use p.Cobs.Spec.{encode, encode_from, fulls}
use p.Cobs.Encode.{cobs_enc-Writes, cobs_enc-faults}
use p.Cobs.Encode.Run.{Writes}
use p.Cobs.RoundTrip.{IsNonzero}
use p.Cobs.Bounds.{
  fulls_bound, fulls_zero, fulls_nonzero, overhead, cobs_enc_size_lem, encode-IsWire,
  length-encode-le, IsWire,
}
use p.Cobs.Python.{Interpreter, value, cobs_enc_fn}

-- An interpreter that has memory; a new block holds `content`.
abbrev pub with_memory : (ℕ → ℕ) → Interpreter
with_memory content = record { block = some content; bytes_ok = true }

-- Inputs of whole full segments: no zero, and a multiple of 254 bytes.
abbrev pub IsFullSegments : List ℕ → Type 0
IsFullSegments xs = All IsNonzero xs × (length xs % 254 ≡ 0) × (xs ≢ [])

abbrev pub block_size : ℕ → ℕ
block_size n = if n == 0 then 1 else n

has_zero :
    (xs : List ℕ) → All IsNonzero xs ⊎ ((ys : List ℕ) × (zs : List ℕ) × (xs ≡ ys ++ (0 ∷ zs)))
has_zero [] = inl tt
has_zero (zero ∷ xs) = inr ([], xs, refl)
has_zero (suc x ∷ xs) = elim (has_zero xs) [
  | inl h ↦ inl (omega arith, h)
  | inr (ys, zs, e) ↦ inr (suc x ∷ ys, zs, ap (λ l. suc x ∷ l) e)
]

room_lem :
    (x : ℕ) (xs : List ℕ)
    → IsSize (suc (length xs))
    → ¬ IsFullSegments (x ∷ xs)
    → suc (length xs) + fulls 0 (x ∷ xs) < suc (length xs) + overhead (suc (length xs))
room_lem x xs h not_full = elim (has_zero (x ∷ xs)) [
  | inl nz ↦ elim (ℕ_discrete (suc (length xs) % 254) 0) [
    | yes whole ↦ absurd (not_full (nz, whole, λ e. cc))
    | no part ↦ omega (arith, fulls_bound 0 (x ∷ xs))
  ]
  | inr (ys, zs, e) ↦ omega (arith, ap length e, ap (fulls 0) e, fulls_zero 0 ys zs (omega arith))
]

room :
    (xs : List ℕ)
    → IsSize (length xs)
    → ¬ IsFullSegments xs
    → length xs + fulls 0 xs < block_size (cobs_enc_size (length xs))
room [] h not_full = rw (cobs_enc_size_lem 0 (omega arith)) (unfold fulls in omega arith)
room (x ∷ xs) h not_full =
    rw
      (
        cobs_enc_size_lem (suc (length xs)) h,
        ne→== (suc (length xs) + overhead (suc (length xs))) 0 (omega arith),
      )
      (room_lem x xs h not_full)

small_block : (n : ℕ) → IsSize n → block_size (cobs_enc_size n) < 2 ^ 64
small_block n h = rw (cobs_enc_size_lem n h) (ground arith)

replies :
    (content : ℕ → ℕ) (xs ys : List ℕ) (live : ℕ)
    → Writes
        (cobs_enc (record { size = block_size (cobs_enc_size (length xs)); cell = content }) xs)
        ys
    → cobs_enc_fn (with_memory content) (some xs) live ≡ some (value ys, live)
unfolding cobs_enc_fn
replies content xs ys live (b, e, r) = rw (e, r) (ap (λ k. some (value ys, k)) (omega arith))

-- With memory, enc returns the reference encoding and frees its block, on every input shorter
-- than 2 ^ 63 that is not made of whole full segments.
pub cobs_enc_fn-value :
    (content : ℕ → ℕ) (xs : List ℕ) (live : ℕ)
    → IsSize (length xs)
    → ¬ IsFullSegments xs
    → cobs_enc_fn (with_memory content) (some xs) live ≡ some (value (encode xs), live)
cobs_enc_fn-value content xs live h not_full =
    replies content xs (encode xs) live
      (cobs_enc-Writes _ xs (small_block (length xs) h) (room xs h not_full))

-- On an input of whole full segments (254 * k bytes, none of them zero, k > 0, shorter than 2 ^
-- 63) enc, with memory, writes outside the block that it has allocated.
pub cobs_enc_fn-overflows :
    (content : ℕ → ℕ) (xs : List ℕ) (live : ℕ)
    → IsSize (length xs)
    → IsFullSegments xs
    → cobs_enc_fn (with_memory content) (some xs) live ≡ none
unfolding cobs_enc_fn
cobs_enc_fn-overflows content [] live h (nz, whole, ne) = absurd (ne refl)
cobs_enc_fn-overflows content (x ∷ xs) live h (nz, whole, ne) = rw (
    cobs_enc-faults (record { size = block_size (cobs_enc_size (suc (length xs))); cell = content })
      (x ∷ xs) (small_block (suc (length xs)) h) tight)
  where
    tight : block_size (cobs_enc_size (suc (length xs))) ≤ suc (length xs) + fulls 0 (x ∷ xs)
    tight =
        rw
          (
            cobs_enc_size_lem (suc (length xs)) h,
            ne→== (suc (length xs) + overhead (suc (length xs))) 0 (omega arith),
          )
          (omega (arith, fulls_nonzero 0 (x ∷ xs) (omega arith) nz))

not-IsNonzero : (ys zs : List ℕ) → ¬ All IsNonzero (ys ++ (0 ∷ zs))
not-IsNonzero [] zs h = absurd (omega (arith, h.0))
not-IsNonzero (y ∷ ys) zs h = not-IsNonzero ys zs h.1

full_cases : (xs : List ℕ) → IsFullSegments xs ⊎ (¬ IsFullSegments xs)
full_cases [] = inr (λ f. f.2 refl)
full_cases (x ∷ xs) = elim (has_zero (x ∷ xs)) [
  | inl nz ↦ elim (ℕ_discrete (suc (length xs) % 254) 0) [
    | yes whole ↦ inl (nz, whole, λ e. cc)
    | no part ↦ inr (λ f. part f.1)
  ]
  | inr (ys, zs, e) ↦ inr (λ f. not-IsNonzero ys zs (subst (All IsNonzero) e f.0))
]

-- A value that `enc` returns is the reference encoding, and no block is left allocated.
pub cobs_enc_fn-inversion :
    (content : ℕ → ℕ) (xs ys : List ℕ) (live live' : ℕ)
    → IsSize (length xs)
    → cobs_enc_fn (with_memory content) (some xs) live ≡ some (value ys, live')
    → (ys ≡ encode xs) × (live' ≡ live) × (¬ IsFullSegments xs)
cobs_enc_fn-inversion content xs ys live live' h e = elim (full_cases xs) [
  | inl full ↦ cc (cobs_enc_fn-overflows content xs live h full)
  | inr not_full ↦ (
    cc (cobs_enc_fn-value content xs live h not_full),
    cc (cobs_enc_fn-value content xs live h not_full),
    not_full,
  )
]

length-encode_block :
    (xs : List ℕ) → IsSize (length xs) → length (encode xs) ≤ block_size (cobs_enc_size (length xs))
length-encode_block [] h =
    rw (cobs_enc_size_lem 0 (omega arith)) (unfold encode_from in omega arith)
length-encode_block (x ∷ xs) h =
    rw
      (
        cobs_enc_size_lem (suc (length xs)) h,
        ne→== (suc (length xs) + overhead (suc (length xs))) 0 (omega arith),
      )
      (length-encode-le (x ∷ xs) (λ e. cc))

-- Whatever enc, with memory, returns for bytes (fewer than 2 ^ 63) consists of bytes that are
-- not zero, and is no longer than cobs_enc_size says, or than one byte for the empty input.
pub cobs_enc_fn-IsWire :
    (content : ℕ → ℕ) (xs ys : List ℕ) (live live' : ℕ)
    → IsSize (length xs)
    → All IsByte xs
    → cobs_enc_fn (with_memory content) (some xs) live ≡ some (value ys, live')
    → All IsWire ys × (length ys ≤ block_size (cobs_enc_size (length xs)))
cobs_enc_fn-IsWire content xs ys live live' h bs e =
    let (same, _, _) = cobs_enc_fn-inversion content xs ys live live' h e in
    rw same (encode-IsWire xs bs, length-encode_block xs h)
