-- ===== src/Cobs/Encode/State.antt =====
-- The output buffer of `cobs_enc` between two rounds: closed segments, then the open one.
use p.Common.{
  ℕ, suc, ◌+◌, ◌^◌, ◌≤◌, ◌<◌, ◌≡◌, inl, inr, refl, ap, ap₂, ◌∙◌, Bool, true, false, List, [], ◌∷◌,
  ◌++◌, length, length-append, arith, subst, subst,
}
use p.Memory.{Buffer, update, slice}
use p.Memory.Laws.{slice-update_out, slice-append, slice_cong, slice-update_end, update_self}
use p.Cobs.{Encoder}

-- The buffer holds the closed segments `done`, then the open one with the bytes `cur`.
pub record Holds (e : Encoder) (done cur : List ℕ) : Type 0 where
  pub out_at : e.out ≡ length done
  pub nout_at : e.nout ≡ e.out
  pub mark : e.buf.cell e.out ≡ length cur + 1
  pub before : slice e.buf.cell 0 e.out ≡ done
  pub within : slice e.buf.cell (e.out + 1) (length cur) ≡ cur
  pub inside : e.out + 1 + length cur ≤ e.buf.size
  pub small : e.buf.size < 2 ^ 64

abbrev pub poke : Buffer → ℕ → ℕ → Buffer
poke b i v = record b { cell = update b.cell i v }

abbrev pub closed : Encoder → ℕ → Encoder
closed e c = record e { buf = poke e.buf (e.out + c) 1; out = e.out + c; nout = e.nout + c }

abbrev pub pushed : Encoder → ℕ → ℕ → Encoder
pushed e c v = record e { buf = poke (poke e.buf (e.out + c) v) e.out (c + 1); last_max = false }

pub segment :
    (e : Encoder) (done cur : List ℕ)
    → Holds e done cur
    → slice e.buf.cell 0 (e.out + (length cur + 1)) ≡ done ++ ((length cur + 1) ∷ cur)
segment e done cur h =
    slice_cong e.buf.cell {j = 0} {n = e.out + suc (length cur)} refl (omega arith)
    ∙ slice-append e.buf.cell 0 e.out (suc (length cur))
    ∙ ap₂ ◌++◌ h.before (
        ap₂ ◌∷◌ (slice_at ∙ h.mark)
          (slice_cong e.buf.cell {n = length cur} (omega arith) refl ∙ h.within))
  where
    slice_at : e.buf.cell (0 + e.out) ≡ e.buf.cell e.out
    slice_at = ap e.buf.cell (omega arith)

pub closed-Holds :
    (e : Encoder) (done cur : List ℕ)
    → Holds e done cur
    → e.out + (length cur + 1) < e.buf.size
    → Holds (closed e (length cur + 1)) (done ++ ((length cur + 1) ∷ cur)) []
closed-Holds e done cur h lt = record {
  out_at = omega (arith, h.out_at, length-append done ((length cur + 1) ∷ cur));
  nout_at = omega (arith, h.nout_at);
  mark = update_self e.buf.cell (e.out + (length cur + 1)) 1;
  before =
      slice-update_out e.buf.cell (e.out + (length cur + 1)) 1 0 (e.out + (length cur + 1))
        (inr (omega arith))
      ∙ segment e done cur h;
  within = refl;
  inside = omega arith;
  small = h.small;
}

pub pushed-Holds :
    (e : Encoder) (done cur : List ℕ) (v : ℕ)
    → Holds e done cur
    → e.out + (length cur + 1) < e.buf.size
    → Holds (pushed e (length cur + 1) v) done (cur ++ (v ∷ []))
pushed-Holds e done cur v h lt = record {
  out_at = h.out_at;
  nout_at = h.nout_at;
  mark =
      update_self (update e.buf.cell end v) e.out (length cur + 1 + 1)
      ∙ omega (arith, length-append cur (v ∷ []));
  before =
      slice-update_out (update e.buf.cell end v) e.out (length cur + 1 + 1) 0 e.out
        (inr (omega arith))
      ∙ slice-update_out e.buf.cell end v 0 e.out (inr (omega arith))
      ∙ h.before;
  within =
      slice-update_out (update e.buf.cell end v) e.out (length cur + 1 + 1) (e.out + 1)
        (length (cur ++ (v ∷ []))) (inl (omega arith))
      ∙ slice_cong (update e.buf.cell end v) {j = e.out + 1} {n = length cur + 1} refl
          (omega (arith, length-append cur (v ∷ [])))
      ∙ ap (λ k. slice (update e.buf.cell k v) (e.out + 1) (length cur + 1)) end_eq
      ∙ slice-update_end e.buf.cell (e.out + 1) (length cur) v
      ∙ ap (λ l. l ++ (v ∷ [])) h.within;
  inside = omega (arith, length-append cur (v ∷ []));
  small = h.small;
}
  where
    end : ℕ
    end = e.out + (length cur + 1)

    end_eq : end ≡ e.out + 1 + length cur
    end_eq = omega arith

pub relabel :
    (e : Encoder) (done cur : List ℕ) (m : Bool)
    → Holds e done cur
    → Holds (record e { last_max = m }) done cur
relabel e done cur m h = record {
  out_at = h.out_at;
  nout_at = h.nout_at;
  mark = h.mark;
  before = h.before;
  within = h.within;
  inside = h.inside;
  small = h.small;
}

abbrev pub past_zero : Encoder → ℕ → Encoder
past_zero e c = closed (record e { last_max = false }) c

abbrev pub past_full : Encoder → ℕ → ℕ → Encoder
past_full e c v = closed (record (pushed e c v) { last_max = true }) (c + 1)

pub past_full-Holds :
    (e : Encoder) (done cur : List ℕ) (v : ℕ)
    → Holds e done cur
    → length cur ≡ 253
    → e.out + 255 < e.buf.size
    → Holds
        (past_full e (length cur + 1) v)
        (done ++ ((length (cur ++ (v ∷ [])) + 1) ∷ (cur ++ (v ∷ []))))
        []
past_full-Holds e done cur v h full lt =
    subst
      (λ k.
        Holds (closed (record (pushed e (length cur + 1) v) { last_max = true }) k)
          (done ++ ((length (cur ++ (v ∷ [])) + 1) ∷ (cur ++ (v ∷ [])))) [])
      (omega (arith, length-append cur (v ∷ [])))
      (closed-Holds (record (pushed e (length cur + 1) v) { last_max = true }) done
        (cur ++ (v ∷ []))
        (relabel (pushed e (length cur + 1) v) done (cur ++ (v ∷ [])) true
          (pushed-Holds e done cur v h (omega arith)))
        (omega (arith, length-append cur (v ∷ []))))

pub start :
    (b : Buffer)
    → 0 < b.size
    → b.size < 2 ^ 64
    → Holds (record { buf = poke b 0 1; out = 0; nout = 0; last_max = false }) [] []
start b h small = record {
  out_at = refl;
  nout_at = refl;
  mark = update_self b.cell 0 1;
  before = refl;
  within = refl;
  inside = omega arith;
  small = small;
}
