-- ===== src/Serial/Ring/Store.antt =====
-- What `ring_push` stores, and that `ring_pop` reads it back.
use p.Common.{
  ℕ, ◌+◌, ◌/◌, ◌%◌, ◌^◌, ◌≤◌, ◌<◌, ◌≡◌, refl, ap₂, ◌∙◌, subst, ◌⊎◌, List, [], some, ◌∷◌, ◌++◌,
  length, length-append, arith, take, drop, take-append-drop, length-take, length-drop, dec_lt, inl,
  inr, add_size, sub_size, le→leb, gt→leb,
}
use mathlib.Core.Path.{subst₂}
use p.Memory.{Buffer, update, blit}
use p.Memory.Laws.{slice-blit_self, blit_out, store_lem, copy_in_lem}
use p.Serial.State.{ring_bytes}
use p.Serial.Ring.{put_length, put_payload}
use p.Serial.Ring.Circle.{circle, circle_cong, circle-append, circle_ext, circle-slice}

-- The bytes `xs` stand at the running index `t`, and the bytes before them, back to less than one
-- round, are what they were.
pub record Stored (f g : ℕ → ℕ) (t : ℕ) (xs : List ℕ) : Type 0 where
  pub written : circle g t (length xs) ≡ xs
  pub kept : (u n : ℕ) → u + n ≤ t → t + length xs ≤ u + ring_bytes → circle g u n ≡ circle f u n

-- One write behind another.
pub Stored-append :
    (f g h : ℕ → ℕ) (t : ℕ) (xs ys : List ℕ)
    → length xs + length ys ≤ ring_bytes
    → Stored f g t xs
    → Stored g h (t + length xs) ys
    → Stored f h t (xs ++ ys)
Stored-append f g h t xs ys fit a b = record {
  written =
      circle_cong h {u = t} {n = length xs + length ys} refl (length-append xs ys)
      ∙ circle-append h t (length xs) (length ys)
      ∙ ap₂ ◌++◌ (b.kept t (length xs) (omega arith) (omega arith) ∙ a.written) b.written;
  kept = λ u n before round.
      b.kept u n (omega arith) (omega (arith, length-append xs ys))
      ∙ a.kept u n before (omega (arith, length-append xs ys));
}

Stored-at :
    (f g h : ℕ → ℕ) {t u : ℕ} {xs ys : List ℕ} → t ≡ u → xs ≡ ys → Stored f g t xs → Stored f g u ys
Stored-at f g h p q s = subst₂ (Stored f g) p q s

-- One piece.
pub blit-Stored :
    (f : ℕ → ℕ) (t i : ℕ) (xs : List ℕ)
    → i ≡ t % ring_bytes
    → i + length xs ≤ ring_bytes
    → Stored f (blit f i xs) t xs
blit-Stored f t i xs at h = record {
  written =
      circle-slice (blit f i xs) t i (length xs) (λ k hk. omega arith) ∙ slice-blit_self f i xs;
  kept = λ u n before round.
      circle_ext (blit f i xs) f u u n
        (λ k hk. blit_out f i xs ((u + k) % ring_bytes) (outside u n k hk before round));
}
  where
    outside :
        (u n k : ℕ)
        → k < n
        → u + n ≤ t
        → t + length xs ≤ u + ring_bytes
        → ((u + k) % ring_bytes < i) ⊎ (i + length xs ≤ (u + k) % ring_bytes)
    outside u n k hk before round = elim (dec_lt ((u + k) % ring_bytes) i) [
      | yes low ↦ inl low
      | no high ↦ inr (omega arith)
    ]

-- The two bytes of a frame's length.
abbrev pub length_bytes : ℕ → List ℕ
length_bytes n = (n % 256) ∷ (n / 256) ∷ []

module _ (b : Buffer) (t head : ℕ) (sized : b.size ≡ ring_bytes) (at : head ≡ t % 2 ^ 64) where
  pub put_length_lem :
      (n : ℕ)
      → (g : ℕ → ℕ) × (put_length b ring_bytes head n ≡ some (record b { cell = g }))
        × Stored b.cell g t (length_bytes n)
  unfolding put_length
  put_length_lem n = (
    blit (blit b.cell i ((n % 256) ∷ [])) j ((n / 256) ∷ []),
    rw (
      store_lem b i (n % 256) (omega arith),
      store_lem (record b { cell = update b.cell i (n % 256) }) j (n / 256) (omega arith),
    ),
    Stored-append b.cell (blit b.cell i ((n % 256) ∷ []))
        (blit (blit b.cell i ((n % 256) ∷ [])) j ((n / 256) ∷ [])) t ((n % 256) ∷ [])
        ((n / 256) ∷ []) (omega arith)
        (blit-Stored b.cell t i ((n % 256) ∷ []) (omega arith) (omega arith))
        (blit-Stored (blit b.cell i ((n % 256) ∷ [])) (t + 1) j ((n / 256) ∷ []) (omega arith)
          (omega arith)),
  )
    where
      i : ℕ
      i = add_size head 0 % ring_bytes

      j : ℕ
      j = add_size head 1 % ring_bytes

  pub put_payload_lem :
      (xs : List ℕ)
      → length xs ≤ ring_bytes
      → (g : ℕ → ℕ) × (put_payload b ring_bytes head xs ≡ some (record b { cell = g }))
        × Stored b.cell g (t + 2) xs
  unfolding put_payload
  put_payload_lem xs fit = elim (dec_lt room (length xs)) [
    | no whole ↦ (
      blit b.cell start xs,
      rw (le→leb (length xs) room (omega arith), copy_in_lem b start xs (omega arith)),
      blit-Stored b.cell (t + 2) start xs (omega arith) (omega arith),
    )
    | yes split ↦ (
      blit (blit b.cell start front) 0 back,
      rw (
        gt→leb (length xs) room split,
        copy_in_lem b start front (omega (arith, length-take room xs)),
        copy_in_lem (record b { cell = blit b.cell start front }) 0 back
            (omega (arith, length-drop room xs)),
      ),
      subst (Stored b.cell (blit (blit b.cell start front) 0 back) (t + 2))
          (take-append-drop room xs)
          (Stored-append b.cell (blit b.cell start front) (blit (blit b.cell start front) 0 back)
            (t + 2) front back (omega (arith, length-take room xs, length-drop room xs))
            (blit-Stored b.cell (t + 2) start front (omega arith)
              (omega (arith, length-take room xs)))
            (blit-Stored (blit b.cell start front) (t + 2 + length front) 0 back
              (omega (arith, length-take room xs)) (omega (arith, length-drop room xs)))),
    )
  ]
    where
      start : ℕ
      start = add_size head 2 % ring_bytes

      room : ℕ
      room = sub_size ring_bytes start

      front : List ℕ
      front = take room xs

      back : List ℕ
      back = drop room xs
