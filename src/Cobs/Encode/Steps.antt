-- ===== src/Cobs/Encode/Steps.antt =====
-- One round of the loop of `cobs_enc`, branch by branch.
use p.Common.{
  ℕ, ◌+◌, ◌%◌, ◌≤◌, ◌<◌, ◌≡◌, ◌≢◌, refl, ap, ◌∙◌, Bool, true, false, List, [], ◌∷◌, ◌++◌, none,
  some, ◌==◌, if◌then◌else◌, length, length-append, arith, ne→==, eq→==,
}
use p.Memory.{Buffer}
use p.Memory.Laws.{update_self, store_lem, store_fault, load_lem}
use p.Cobs.{Encoder, add_size, next_segment, enc_step}
use p.Cobs.Encode.State.{Holds, poke, closed, pushed, pushed-Holds, relabel}

-- `next_segment` on a state that holds its segments.
pub next_segment_lem :
    (e : Encoder) (done cur : List ℕ)
    → Holds e done cur
    → e.out + (length cur + 1) < e.buf.size
    → next_segment e ≡ some (closed e (length cur + 1))
unfolding next_segment
next_segment_lem e done cur h lt =
    rw (load_lem e.buf e.out (omega arith), h.mark, store_lem e.buf (e.out + (length cur + 1)) 1 lt)
      (ap (λ k. some (record (closed e (length cur + 1)) { nout = k })) sum)
  where
    sum : add_size e.nout (length cur + 1) ≡ e.nout + (length cur + 1)
    sum = omega (arith, h.nout_at)

pub next_segment_fault :
    (e : Encoder) (done cur : List ℕ)
    → Holds e done cur
    → e.buf.size ≤ e.out + (length cur + 1)
    → next_segment e ≡ none
unfolding next_segment
next_segment_fault e done cur h ge =
    rw (
      load_lem e.buf e.out (omega arith),
      h.mark,
      store_fault e.buf (e.out + (length cur + 1)) 1 ge,
    )

-- The three branches of the loop's body.
pub step_zero : (e : Encoder) → enc_step e 0 ≡ next_segment (record e { last_max = false })
unfolding enc_step
step_zero e = refl

pub step_byte :
    (e : Encoder) (done cur : List ℕ) (v : ℕ)
    → Holds e done cur
    → v ≢ 0
    → length cur < 254
    → e.out + (length cur + 1) < e.buf.size
    → enc_step e v ≡ (
        if length cur == 253
        then next_segment (record (pushed e (length cur + 1) v) { last_max = true })
        else some (pushed e (length cur + 1) v))
unfolding enc_step
step_byte e done cur v h nz short lt = rw (
  ne→== v 0 nz,
  load_lem e.buf e.out (omega arith),
  h.mark,
  store_lem e.buf (e.out + (length cur + 1)) v lt,
  byte,
  store_lem b e.out (length cur + 1 + 1) (omega arith),
  load_lem (poke b e.out (length cur + 1 + 1)) e.out (omega arith),
  update_self,
  test,
)
  where
    b : Buffer
    b = poke e.buf (e.out + (length cur + 1)) v

    byte : (length cur + 1 + 1) % 256 ≡ length cur + 1 + 1
    byte = omega arith

    test : (length cur + 1 + 1 == 255) ≡ (length cur == 253)
    test = ground arith

pub step_fault :
    (e : Encoder) (done cur : List ℕ) (v : ℕ)
    → Holds e done cur
    → v ≢ 0
    → e.buf.size ≤ e.out + (length cur + 1)
    → enc_step e v ≡ none
unfolding enc_step
step_fault e done cur v h nz ge = rw (
  ne→== v 0 nz,
  load_lem e.buf e.out (omega arith),
  h.mark,
  store_fault e.buf (e.out + (length cur + 1)) v ge,
)

-- After a segment is closed the rest starts on an empty one.
pub step_closes :
    (e : Encoder) (done cur : List ℕ) (m : Bool)
    → Holds e done cur
    → e.out + (length cur + 1) < e.buf.size
    → next_segment (record e { last_max = m })
      ≡ some (closed (record e { last_max = m }) (length cur + 1))
step_closes e done cur m h lt =
    next_segment_lem (record e { last_max = m }) done cur (relabel e done cur m h) lt

pub step_full :
    (e : Encoder) (done cur : List ℕ) (v : ℕ)
    → Holds e done cur
    → v ≢ 0
    → length cur ≡ 253
    → e.out + 255 < e.buf.size
    → enc_step e v
      ≡ some (
          closed
            (record (pushed e (length cur + 1) v) { last_max = true })
            (length (cur ++ (v ∷ [])) + 1))
step_full e done cur v h nz full lt =
    step_byte e done cur v h nz (omega arith) (omega arith)
    ∙ rw (eq→== (length cur) 253 full) (
        step_closes (pushed e (length cur + 1) v) done (cur ++ (v ∷ [])) true
          (pushed-Holds e done cur v h (omega arith)) (omega (arith, length-append cur (v ∷ []))))

pub step_more :
    (e : Encoder) (done cur : List ℕ) (v : ℕ)
    → Holds e done cur
    → v ≢ 0
    → length cur < 253
    → e.out + (length cur + 1) < e.buf.size
    → enc_step e v ≡ some (pushed e (length cur + 1) v)
step_more e done cur v h nz more lt =
    step_byte e done cur v h nz (omega arith) lt ∙ rw (ne→== (length cur) 253 (omega arith))
