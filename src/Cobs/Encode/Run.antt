-- ===== src/Cobs/Encode/Run.antt =====
-- The loop of `cobs_enc` where the output buffer is long enough.
use p.Common.{
  ℕ, ◌+◌, ◌≤◌, ◌<◌, ◌≡◌, ◌≢◌, inl, inr, refl, sym, ap, ◌∙◌, Bool, true, false, List, [], ◌∷◌, ◌++◌,
  Option, some, length, length-append, arith, ℕ_discrete, Bool-cases, append_assoc, append-nil,
  subst, ◌>>=◌, subst,
}
use p.Memory.Laws.{copy_out_lem}
use p.Memory.{copy_out, Buffer}
use p.Memory.Laws.{slice_cong, load_lem}
use p.Cobs.{Encoder, enc_step, enc_loop, enc_finish}
use p.Cobs.Spec.{encode_from}
use p.Cobs.Encode.State.{
  Holds, closed, pushed, segment, closed-Holds, pushed-Holds, relabel, past_zero, past_full,
  past_full-Holds,
}
use p.Cobs.Encode.Steps.{step_zero, step_closes, step_full, step_more}
use p.Cobs.Encode.Need.{
  encode_zero, encode_full, encode_more, need, need_zero, need_full, need_more,
}

-- The result is the length of `ys`, and the buffer begins with `ys`.
abbrev pub Writes : Option (Buffer × ℕ) → List ℕ → Type 0
Writes m ys = (b : Buffer) × (m ≡ some (b, length ys)) × (copy_out b 0 (length ys) ≡ some ys)

abbrev pub run : Encoder → List ℕ → Option (Buffer × ℕ)
run e xs = enc_loop e xs >>= enc_finish

pub finish-Writes :
    (e : Encoder) (done cur : List ℕ)
    → Holds e done cur
    → Writes (enc_finish e) (done ++ encode_from cur e.last_max [])
unfolding enc_finish encode_from
finish-Writes e done cur h = elim (Bool-cases e.last_max) [
  | inl full ↦
      rw (full, append-nil)
        (
          e.buf,
          ap (λ k. some (e.buf, k)) (h.nout_at ∙ h.out_at),
          copy_out_lem e.buf 0 (length done) (omega (arith, h.out_at))
              ∙ ap some (slice_cong e.buf.cell {j = 0} refl (sym h.out_at) ∙ h.before),
        )
  | inr open_segment ↦
      rw (open_segment, load_lem e.buf e.out (omega arith), h.mark)
        (
          e.buf,
          ap (λ k. some (e.buf, k)) (omega (arith, size, h.nout_at)),
          copy_out_lem e.buf 0 _ (omega (arith, size))
              ∙ ap some (slice_cong e.buf.cell {j = 0} refl size ∙ segment e done cur h),
        )
]
  where
    size : length (done ++ ((length cur + 1) ∷ cur)) ≡ e.out + (length cur + 1)
    size = omega (arith, length-append done ((length cur + 1) ∷ cur), h.out_at)

pub after_step :
    (e e' : Encoder) (v : ℕ) (rest ys : List ℕ)
    → enc_step e v ≡ some e'
    → Writes (run e' rest) ys
    → Writes (run e (v ∷ rest)) ys
unfolding enc_loop
after_step e e' v rest ys q w = rw q w

pub branch_zero :
    (e : Encoder) (done cur : List ℕ) (m : Bool) (rest : List ℕ)
    → Holds e done cur
    → e.out + (length cur + 1) < e.buf.size
    → Writes
        (run (past_zero e (length cur + 1)) rest)
        ((done ++ ((length cur + 1) ∷ cur)) ++ encode_from [] false rest)
    → Writes (run e (0 ∷ rest)) (done ++ encode_from cur m (0 ∷ rest))
branch_zero e done cur m rest h lt w =
    after_step e (past_zero e (length cur + 1)) 0 rest _
      (step_zero e ∙ step_closes e done cur false h lt)
      (subst (Writes (run (past_zero e (length cur + 1)) rest))
        (append_assoc done ((length cur + 1) ∷ cur) (encode_from [] false rest)
          ∙ ap (λ l. done ++ l) (encode_zero cur m rest))
        w)

pub branch_full :
    (e : Encoder) (done cur : List ℕ) (m : Bool) (v : ℕ) (rest : List ℕ)
    → Holds e done cur
    → v ≢ 0
    → length cur ≡ 253
    → e.out + 255 < e.buf.size
    → Writes
        (run (past_full e (length cur + 1) v) rest)
        ((done ++ ((length (cur ++ (v ∷ [])) + 1) ∷ (cur ++ (v ∷ [])))) ++ encode_from [] true rest)
    → Writes (run e (v ∷ rest)) (done ++ encode_from cur m (v ∷ rest))
branch_full e done cur m v rest h nz full lt w =
    after_step e (past_full e (length cur + 1) v) v rest _
      (step_full e done cur v h nz full lt
        ∙ ap (λ k. some (closed (record (pushed e (length cur + 1) v) { last_max = true }) k))
            (omega (arith, length-append cur (v ∷ []))))
      (subst (Writes (run (past_full e (length cur + 1) v) rest))
        (append_assoc done ((length (cur ++ (v ∷ [])) + 1) ∷ (cur ++ (v ∷ [])))
            (encode_from [] true rest)
          ∙ ap (λ l. done ++ l)
              (ap (λ k. (k ∷ (cur ++ (v ∷ []))) ++ encode_from [] true rest)
                  (omega (arith, length-append cur (v ∷ [])))
                ∙ sym (encode_full cur m v rest nz full)))
        w)

pub branch_more :
    (e : Encoder) (done cur : List ℕ) (m : Bool) (v : ℕ) (rest : List ℕ)
    → Holds e done cur
    → v ≢ 0
    → length cur < 253
    → e.out + (length cur + 1) < e.buf.size
    → Writes
        (run (pushed e (length cur + 1) v) rest)
        (done ++ encode_from (cur ++ (v ∷ [])) false rest)
    → Writes (run e (v ∷ rest)) (done ++ encode_from cur m (v ∷ rest))
branch_more e done cur m v rest h nz more lt w =
    after_step e (pushed e (length cur + 1) v) v rest _ (step_more e done cur v h nz more lt) (
      subst (Writes (run (pushed e (length cur + 1) v) rest))
        (ap (λ l. done ++ l) (sym (encode_more cur m v rest nz (omega arith)))) w)

-- Where the buffer is long enough, no access faults and the reference encoding is written.
pub run-Writes :
    (xs : List ℕ) (e : Encoder) (done cur : List ℕ)
    → Holds e done cur
    → length cur < 254
    → e.out + need cur xs ≤ e.buf.size
    → Writes (run e xs) (done ++ encode_from cur e.last_max xs)
run-Writes [] e done cur h short fit = unfold enc_loop in finish-Writes e done cur h
run-Writes (v ∷ rest) e done cur h short fit = elim (ℕ_discrete v 0) [
  | yes zero_byte ↦
      let room : e.out + (length cur + 1 + need [] rest) ≤ e.buf.size =
        omega (arith, need_zero cur rest, ap (λ (k : ℕ). need cur (k ∷ rest)) zero_byte) in
      rw zero_byte (
        branch_zero e done cur e.last_max rest h (omega arith) (
          run-Writes rest (past_zero e (length cur + 1)) (done ++ ((length cur + 1) ∷ cur)) []
            (closed-Holds _ done cur (relabel e done cur false h) (omega arith)) (omega arith)
            (omega arith)))
  | no nz ↦ elim (ℕ_discrete (length cur) 253) [
    | yes full ↦
        let room : e.out + (255 + need [] rest) ≤ e.buf.size =
          omega (arith, need_full cur v rest nz full) in
        branch_full e done cur e.last_max v rest h nz full (omega arith) (
          run-Writes rest (past_full e (length cur + 1) v) _ []
            (past_full-Holds e done cur v h full (omega arith)) (omega arith) (omega arith))
    | no more ↦
        let room : e.out + need (cur ++ (v ∷ [])) rest ≤ e.buf.size =
          omega (arith, need_more cur v rest nz more) in
        branch_more e done cur e.last_max v rest h nz (omega arith) (omega arith) (
          run-Writes rest (pushed e (length cur + 1) v) done (cur ++ (v ∷ []))
            (pushed-Holds e done cur v h (omega arith)) (omega (arith, length-append cur (v ∷ [])))
            room)
  ]
]
