-- ===== src/Cobs/Encode/Faults.antt =====
-- The loop of `cobs_enc` where the output buffer is too short.
use p.Common.{
  ℕ, ◌+◌, ◌<◌, ◌≡◌, ◌≢◌, ap, ◌∙◌, true, false, List, [], ◌∷◌, ◌++◌, none, some, length,
  length-append, arith, dec_lt, ℕ_discrete, eq→==,
}
use p.Cobs.{Encoder, enc_step, enc_loop}
use p.Cobs.Spec.{fulls}
use p.Cobs.Encode.State.{
  Holds, closed, pushed, closed-Holds, pushed-Holds, relabel, past_zero, past_full, past_full-Holds,
}
use p.Cobs.Encode.Steps.{
  next_segment_fault, step_zero, step_byte, step_fault, step_closes, step_full, step_more,
}
use p.Cobs.Encode.Need.{need, need_zero, need_full, need_more}
use p.Cobs.Encode.Run.{run}

pub fault_here :
    (e : Encoder) (v : ℕ) (rest : List ℕ) → enc_step e v ≡ none → run e (v ∷ rest) ≡ none
unfolding enc_loop
fault_here e v rest q = rw q

pub fault_later :
    (e e' : Encoder) (v : ℕ) (rest : List ℕ)
    → enc_step e v ≡ some e'
    → run e' rest ≡ none
    → run e (v ∷ rest) ≡ none
unfolding enc_loop
fault_later e e' v rest q w = rw q w

pub fault_zero :
    (e : Encoder) (done cur : List ℕ) (rest : List ℕ)
    → Holds e done cur
    → (e.out + (length cur + 1) < e.buf.size → run (past_zero e (length cur + 1)) rest ≡ none)
    → run e (0 ∷ rest) ≡ none
fault_zero e done cur rest h later = elim (dec_lt (e.out + (length cur + 1)) e.buf.size) [
  | yes lt ↦
      fault_later e (past_zero e (length cur + 1)) 0 rest
        (step_zero e ∙ step_closes e done cur false h lt) (later lt)
  | no ge ↦ fault_here e 0 rest (
      step_zero e
      ∙ next_segment_fault (record e { last_max = false }) done cur (relabel e done cur false h)
          (omega arith))
]

pub fault_full :
    (e : Encoder) (done cur : List ℕ) (v : ℕ) (rest : List ℕ)
    → Holds e done cur
    → v ≢ 0
    → length cur ≡ 253
    → (e.out + 255 < e.buf.size → run (past_full e (length cur + 1) v) rest ≡ none)
    → run e (v ∷ rest) ≡ none
fault_full e done cur v rest h nz full later = elim (dec_lt (e.out + 255) e.buf.size) [
  | yes lt ↦
      fault_later e (past_full e (length cur + 1) v) v rest
        (step_full e done cur v h nz full lt
          ∙ ap (λ k. some (closed (record (pushed e (length cur + 1) v) { last_max = true }) k))
              (omega (arith, length-append cur (v ∷ []))))
        (later lt)
  | no ge ↦ elim (dec_lt (e.out + (length cur + 1)) e.buf.size) [
    | yes lt ↦ fault_here e v rest (
        step_byte e done cur v h nz (omega arith) lt
        ∙ rw (eq→== (length cur) 253 full) (
            next_segment_fault (record (pushed e (length cur + 1) v) { last_max = true }) done
              (cur ++ (v ∷ []))
              (relabel (pushed e (length cur + 1) v) done (cur ++ (v ∷ [])) true
                (pushed-Holds e done cur v h lt))
              (omega (arith, length-append cur (v ∷ [])))))
    | no short ↦ fault_here e v rest (step_fault e done cur v h nz (omega arith))
  ]
]

pub fault_more :
    (e : Encoder) (done cur : List ℕ) (v : ℕ) (rest : List ℕ)
    → Holds e done cur
    → v ≢ 0
    → length cur < 253
    → (e.out + (length cur + 1) < e.buf.size → run (pushed e (length cur + 1) v) rest ≡ none)
    → run e (v ∷ rest) ≡ none
fault_more e done cur v rest h nz more later = elim (dec_lt (e.out + (length cur + 1)) e.buf.size) [
  | yes lt ↦
      fault_later e (pushed e (length cur + 1) v) v rest (step_more e done cur v h nz more lt)
        (later lt)
  | no ge ↦ fault_here e v rest (step_fault e done cur v h nz (omega arith))
]

-- Where it is too short, an access faults.
pub run_faults :
    (xs : List ℕ) (e : Encoder) (done cur : List ℕ)
    → Holds e done cur
    → length cur < 254
    → e.buf.size < e.out + need cur xs
    → run e xs ≡ none
run_faults [] e done cur h short fit = absurd (unfold fulls in omega arith)
run_faults (v ∷ rest) e done cur h short fit = elim (ℕ_discrete v 0) [
  | yes zero_byte ↦
      let over : e.buf.size < e.out + (length cur + 1 + need [] rest) =
        omega (arith, need_zero cur rest, ap (λ (k : ℕ). need cur (k ∷ rest)) zero_byte) in
      rw zero_byte (
        fault_zero e done cur rest h λ lt.
          run_faults rest (past_zero e (length cur + 1)) (done ++ ((length cur + 1) ∷ cur)) []
            (closed-Holds _ done cur (relabel e done cur false h) lt) (omega arith) (omega arith))
  | no nz ↦ elim (ℕ_discrete (length cur) 253) [
    | yes full ↦
        let over : e.buf.size < e.out + (255 + need [] rest) =
          omega (arith, need_full cur v rest nz full) in
        fault_full e done cur v rest h nz full λ lt.
          run_faults rest (past_full e (length cur + 1) v) _ []
            (past_full-Holds e done cur v h full lt) (omega arith) (omega arith)
    | no more ↦
        let over : e.buf.size < e.out + need (cur ++ (v ∷ [])) rest =
          omega (arith, need_more cur v rest nz more) in
        fault_more e done cur v rest h nz (omega arith) λ lt.
          run_faults rest (pushed e (length cur + 1) v) done (cur ++ (v ∷ []))
            (pushed-Holds e done cur v h lt) (omega (arith, length-append cur (v ∷ []))) over
  ]
]
