-- ===== src/Cobs/Decode.antt =====
-- `cobs_dec` on a buffer as long as its input: no access faults, and the result is that of the
-- reference decoder.
use p.Common.{
  ℕ, zero, suc, ◌+◌, ◌-◌, ◌^◌, ◌≤◌, ◌<◌, ◌≡◌, ◌≢◌, inl, inr, refl, sym, ap, ◌∙◌, Bool, true, false,
  subst, List, [], ◌∷◌, ◌++◌, Option, some, ◌==◌, if◌then◌else◌, length, length-append, arith,
  ne→==, append_assoc, append-nil, Bool-cases, ltb, not,
}
use p.Memory.Laws.{copy_out_lem}
use p.Memory.{copy_out, Buffer, update, slice}
use p.Memory.Laws.{slice_cong, slice-update_end, store_lem}
use p.Cobs.{
  Decoder, DecResult, decoded, failed, continues, rejects, contains_zero, add_size, dec_step,
  dec_loop, cobs_dec,
}
use p.Cobs.Spec.{Decoding, bytes, fails, prepend, decode_from, decode}

-- The outcome of a run behind the bytes `acc`: the buffer begins with `acc` and what was decoded.
abbrev pub Reads : Option (Buffer × DecResult) → List ℕ → Decoding → Type 0
Reads m acc (bytes ys) =
    (b : Buffer) × (m ≡ some (b, decoded (length (acc ++ ys))))
    × (copy_out b 0 (length (acc ++ ys)) ≡ some (acc ++ ys))
Reads m acc (fails e) = (b : Buffer) × (m ≡ some (b, failed e))

Reads-prepend :
    (m : Option (Buffer × DecResult)) (acc xs : List ℕ) (r : Decoding)
    → Reads m (acc ++ xs) r
    → Reads m acc (prepend xs r)
Reads-prepend m acc xs (bytes ys) h = rw (← append_assoc acc xs ys) h
Reads-prepend m acc xs (fails e) h = h

abbrev at_state : Buffer → ℕ → ℕ → Bool → Decoder
at_state b n c o = record { buf = b; nout = n; code = c; out0 = o }

abbrev put : Buffer → ℕ → ℕ → Buffer
put b n x = record b { cell = update b.cell n x }

module _ (b : Buffer) (n : ℕ) (small : b.size < 2 ^ 64) (lt : n < b.size) where
  count : add_size n 1 ≡ n + 1
  count = omega arith

  step_owed :
      (x : ℕ)
      → x ≢ 0
      → dec_step (at_state b n 0 true) x
        ≡ some (continues (at_state (put b n 0) (n + 1) (x - 1) (not (x == 255))))
  unfolding dec_step
  step_owed x nz = rw (store_lem b n 0 lt, count, ne→== x 0 nz)

  step_owed_zero :
      dec_step (at_state b n 0 true) 0 ≡ some (rejects (at_state (put b n 0) (n + 1) 0 true))
  unfolding dec_step
  step_owed_zero = rw (store_lem b n 0 lt, count)

  step_clear :
      (x : ℕ)
      → x ≢ 0
      → dec_step (at_state b n 0 false) x ≡ some (continues (at_state b n (x - 1) (not (x == 255))))
  unfolding dec_step
  step_clear x nz = rw (ne→== x 0 nz)

  step_clear_zero : dec_step (at_state b n 0 false) 0 ≡ some (rejects (at_state b n 0 false))
  unfolding dec_step
  step_clear_zero = refl

  step_takes :
      (c : ℕ) (o : Bool) (x : ℕ)
      → c ≢ 0
      → x ≢ 0
      → dec_step (at_state b n c o) x ≡ some (continues (at_state (put b n x) (n + 1) (c - 1) o))
  unfolding dec_step
  step_takes c o x cz nz = rw (ne→== c 0 cz, ne→== x 0 nz, store_lem b n x lt, count)

  step_rejects :
      (c : ℕ) (o : Bool) → c ≢ 0 → dec_step (at_state b n c o) 0 ≡ some (rejects (at_state b n c o))
  unfolding dec_step
  step_rejects c o cz = rw (ne→== c 0 cz)

-- The loop behind a round, and its refusal.
goes_on :
    (d e : Decoder) (x : ℕ) (rest acc : List ℕ) (r : Decoding)
    → dec_step d x ≡ some (continues e)
    → Reads (dec_loop e rest) acc r
    → Reads (dec_loop d (x ∷ rest)) acc r
unfolding dec_loop
goes_on d e x rest acc r q w = rw q w

refuses :
    (d e : Decoder) (x : ℕ) (rest acc : List ℕ)
    → dec_step d x ≡ some (rejects e)
    → Reads (dec_loop d (x ∷ rest)) acc (fails contains_zero)
unfolding dec_loop
refuses d e x rest acc q = rw q (e.buf, refl)

pub decode_opens :
    (o : Bool) (x : ℕ) (rest : List ℕ)
    → x ≢ 0
    → prepend (if o then 0 ∷ [] else []) (decode_from (x - 1) (not (x == 255)) rest)
      ≡ decode_from 0 o (x ∷ rest)
unfolding decode_from
decode_opens o x rest nz = rw (ne→== x 0 nz)

pub decode_takes :
    (c : ℕ) (o : Bool) (x : ℕ) (rest : List ℕ)
    → c ≢ 0
    → x ≢ 0
    → prepend (x ∷ []) (decode_from (c - 1) o rest) ≡ decode_from c o (x ∷ rest)
unfolding decode_from
decode_takes c o x rest cz nz = rw (ne→== x 0 nz, ne→== c 0 cz)

-- The variables with the bytes `acc` written, and room for the input that is left.
record Fits (b : Buffer) (n : ℕ) (acc rest : List ℕ) : Type 0 where
  count : n ≡ length acc
  content : slice b.cell 0 n ≡ acc
  small : b.size < 2 ^ 64
  room : n + length rest ≤ b.size

put-Fits :
    (b : Buffer) (n : ℕ) (acc : List ℕ) (x v : ℕ) (rest : List ℕ)
    → Fits b n acc (v ∷ rest)
    → Fits (put b n x) (n + 1) (acc ++ (x ∷ [])) rest
put-Fits b n acc x v rest f = record {
  count = omega (arith, length-append acc (x ∷ []), f.count);
  content =
      ap (λ k. slice (update b.cell k x) 0 (n + 1)) (omega arith)
      ∙ slice-update_end b.cell 0 n x
      ∙ ap (λ l. l ++ (x ∷ [])) f.content;
  small = f.small;
  room = omega (arith, f.room);
}

drop-Fits :
    (b : Buffer) (n : ℕ) (acc : List ℕ) (v : ℕ) (rest : List ℕ)
    → Fits b n acc (v ∷ rest)
    → Fits b n acc rest
drop-Fits b n acc v rest f = record {
  count = f.count;
  content = f.content;
  small = f.small;
  room = omega (arith, f.room);
}

stop_reads :
    (b : Buffer) (n c : ℕ) (o : Bool) (acc : List ℕ)
    → Fits b n acc []
    → Reads (dec_loop (at_state b n c o) []) acc (decode_from c o [])
unfolding dec_loop decode_from
stop_reads b n c o acc f = elim (Bool-cases (ltb 0 c)) [
  | inl more ↦ rw more (b, refl)
  | inr done ↦
      rw (done, append-nil)
        (
          b,
          ap (λ k. some (b, decoded k)) f.count,
          copy_out_lem b 0 (length acc) (omega (arith, f.count, f.room))
              ∙ ap some (slice_cong b.cell {j = 0} refl (sym f.count) ∙ f.content),
        )
]

loop_reads :
    (xs : List ℕ) (b : Buffer) (n c : ℕ) (o : Bool) (acc : List ℕ)
    → Fits b n acc xs
    → Reads (dec_loop (at_state b n c o) xs) acc (decode_from c o xs)
unfolding decode_from
loop_reads [] b n c o acc f = stop_reads b n c o acc f
loop_reads (zero ∷ rest) b n zero true acc f =
    refuses _ _ 0 rest acc (step_owed_zero b n f.small (omega arith))
loop_reads (zero ∷ rest) b n zero false acc f =
    refuses _ _ 0 rest acc (step_clear_zero b n f.small (omega arith))
loop_reads (zero ∷ rest) b n (suc c) o acc f =
    refuses _ _ 0 rest acc (step_rejects b n f.small (omega arith) (suc c) o (omega arith))
loop_reads (suc x ∷ rest) b n zero true acc f =
    subst (Reads (dec_loop (at_state b n 0 true) (suc x ∷ rest)) acc)
      (decode_opens true (suc x) rest (omega arith))
      (goes_on _ _ (suc x) rest acc _ (step_owed b n f.small (omega arith) (suc x) (omega arith)) (
        Reads-prepend _ acc (0 ∷ []) _ (
          loop_reads rest (put b n 0) (n + 1) (suc x - 1) (not (suc x == 255)) (acc ++ (0 ∷ []))
            (put-Fits b n acc 0 (suc x) rest f))))
loop_reads (suc x ∷ rest) b n zero false acc f =
    subst (Reads (dec_loop (at_state b n 0 false) (suc x ∷ rest)) acc)
      (decode_opens false (suc x) rest (omega arith))
      (goes_on _ _ (suc x) rest acc _ (step_clear b n f.small (omega arith) (suc x) (omega arith)) (
        Reads-prepend _ acc [] _ (
          rw append-nil (
            loop_reads rest b n (suc x - 1) (not (suc x == 255)) acc
              (drop-Fits b n acc (suc x) rest f)))))
loop_reads (suc x ∷ rest) b n (suc c) o acc f =
    subst (Reads (dec_loop (at_state b n (suc c) o) (suc x ∷ rest)) acc)
      (decode_takes (suc c) o (suc x) rest (omega arith) (omega arith))
      (goes_on _ _ (suc x) rest acc _
        (step_takes b n f.small (omega arith) (suc c) o (suc x) (omega arith) (omega arith))
        (Reads-prepend _ acc (suc x ∷ []) _ (
          loop_reads rest (put b n (suc x)) (n + 1) (suc c - 1) o (acc ++ (suc x ∷ []))
            (put-Fits b n acc (suc x) (suc x) rest f))))

-- Into a buffer at least as long as the input, and smaller than 2 ^ 64, cobs_dec faults nowhere:
-- it leaves the bytes that the reference decoder gives and returns their number, or returns the
-- reference decoder's error.
pub cobs_dec-reads :
    (b : Buffer) (xs : List ℕ)
    → b.size < 2 ^ 64
    → length xs ≤ b.size
    → Reads (cobs_dec b xs) [] (decode xs)
unfolding cobs_dec
cobs_dec-reads b xs small fit =
    loop_reads xs b 0 0 false []
      (record { count = refl; content = refl; small = small; room = omega arith })
