-- ===== src/Cobs/Encode/Need.antt =====
-- The reference encoding one byte at a time, and the room that the encoder needs for it.
use p.Common.{
  ℕ, ◌+◌, ◌≡◌, ◌≢◌, refl, Bool, true, false, List, [], ◌∷◌, ◌++◌, length, length-append, arith,
  ne→==,
}
use p.Cobs.Spec.{encode_from, fulls}

pub encode_zero :
    (cur : List ℕ) (m : Bool) (rest : List ℕ)
    → ((length cur + 1) ∷ cur) ++ encode_from [] false rest ≡ encode_from cur m (0 ∷ rest)
unfolding encode_from
encode_zero cur m rest = refl

pub encode_full :
    (cur : List ℕ) (m : Bool) (v : ℕ) (rest : List ℕ)
    → v ≢ 0
    → length cur ≡ 253
    → encode_from cur m (v ∷ rest) ≡ (255 ∷ (cur ++ (v ∷ []))) ++ encode_from [] true rest
unfolding encode_from
encode_full cur m v rest nz e = rw (ne→== v 0 nz, e)

pub encode_more :
    (cur : List ℕ) (m : Bool) (v : ℕ) (rest : List ℕ)
    → v ≢ 0
    → length cur ≢ 253
    → encode_from cur m (v ∷ rest) ≡ encode_from (cur ++ (v ∷ [])) false rest
unfolding encode_from
encode_more cur m v rest nz e = rw (ne→== v 0 nz, ne→== (length cur) 253 e)

-- The high-water mark of the encoder: the segment's first index is counted as well.
abbrev pub need : List ℕ → List ℕ → ℕ
need cur xs = 1 + length cur + length xs + fulls (length cur) xs

pub need_zero : (cur rest : List ℕ) → need cur (0 ∷ rest) ≡ length cur + 1 + need [] rest
unfolding fulls
need_zero cur rest = omega arith

pub need_full :
    (cur : List ℕ) (v : ℕ) (rest : List ℕ)
    → v ≢ 0
    → length cur ≡ 253
    → need cur (v ∷ rest) ≡ 255 + need [] rest
unfolding fulls
need_full cur v rest nz e = ground arith

pub need_more :
    (cur : List ℕ) (v : ℕ) (rest : List ℕ)
    → v ≢ 0
    → length cur ≢ 253
    → need cur (v ∷ rest) ≡ need (cur ++ (v ∷ [])) rest
unfolding fulls
need_more cur v rest nz ne =
    rw (ne→== v 0 nz, ne→== (length cur) 253 ne, length-append cur (v ∷ [])) (omega arith)
