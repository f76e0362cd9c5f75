-- ===== src/Serial/Ring/Read.antt =====
-- `ring_pop` reads back what `ring_push` has stored.
use p.Common.{
  ℕ, ◌+◌, ◌-◌, ◌/◌, ◌%◌, ◌^◌, ◌≤◌, ◌<◌, ◌≡◌, refl, sym, ap, ap₂, ◌∙◌, List, some, ◌++◌, length,
  arith, dec_lt, add_size, sub_size, le→leb, gt→leb,
}
use p.Memory.{Buffer, slice, blit}
use p.Memory.Laws.{
  slice_cong, slice-blit_self, slice-blit_end, length-slice, load_lem, copy_in_lem, copy_out_lem,
}
use p.Serial.State.{ring_bytes}
use p.Serial.Ring.{get_length, get_payload}
use p.Serial.Ring.Circle.{circle, circle_whole, circle_split}
use p.Serial.Ring.Store.{length_bytes}

slice-blit_front : (f : ℕ → ℕ) {n : ℕ} (xs : List ℕ) → length xs ≡ n → slice (blit f 0 xs) 0 n ≡ xs
slice-blit_front f xs e = slice_cong (blit f 0 xs) {j = 0} refl (sym e) ∙ slice-blit_self f 0 xs

slice-blit_two :
    (f : ℕ → ℕ) {m n : ℕ} (xs ys : List ℕ)
    → length xs ≡ m
    → m + length ys ≡ n
    → slice (blit (blit f 0 xs) m ys) 0 n ≡ xs ++ ys
slice-blit_two f {m} {n} xs ys e e' =
    ap (λ k. slice (blit (blit f 0 xs) k ys) 0 n) {x = m} {y = 0 + m} (omega arith)
    ∙ slice_cong (blit (blit f 0 xs) (0 + m) ys) {j = 0} refl (sym e')
    ∙ slice-blit_end (blit f 0 xs) 0 m ys
    ∙ ap (λ l. l ++ ys) (slice-blit_front f xs e)

-- Reading back, from the running index `t` of a frame.
module _ (b : Buffer) (t tail : ℕ) (sized : b.size ≡ ring_bytes) (at : tail ≡ t % 2 ^ 64) where
  pub get_length_lem :
      (n : ℕ)
      → circle b.cell t 2 ≡ length_bytes n
      → n < 2 ^ 16
      → get_length b ring_bytes tail ≡ some n
  unfolding get_length
  get_length_lem n h small =
      rw
        (
          load_lem b (add_size tail 0 % ring_bytes) (omega arith),
          load_lem b (add_size tail 1 % ring_bytes) (omega arith),
        )
        (ap some (omega (arith, low, high)))
    where
      low : b.cell (add_size tail 0 % ring_bytes) ≡ n % 256
      low = ap b.cell (omega arith) ∙ first
        where
          first : b.cell (t % ring_bytes) ≡ n % 256
          first = cc

      high : b.cell (add_size tail 1 % ring_bytes) ≡ n / 256
      high = ap b.cell (omega arith) ∙ second
        where
          second : b.cell ((t + 1) % ring_bytes) ≡ n / 256
          second = cc

  pub get_payload_lem :
      (xs : List ℕ) (frame_tmp : Buffer)
      → circle b.cell (t + 2) (length xs) ≡ xs
      → length xs ≤ ring_bytes
      → length xs ≤ frame_tmp.size
      → (g : ℕ → ℕ) × (get_payload b ring_bytes tail (length xs) frame_tmp
          ≡ some (record frame_tmp { cell = g }))
        × (slice g 0 (length xs) ≡ xs)
  unfolding get_payload
  get_payload_lem xs frame_tmp h fit tmp = elim (dec_lt room (length xs)) [
    | no one ↦ (
      blit frame_tmp.cell 0 whole,
      rw (
        le→leb (length xs) room (omega arith),
        copy_out_lem b start (length xs) (omega arith),
        copy_in_lem frame_tmp 0 whole (omega (arith, length-slice b.cell start (length xs))),
      ),
      slice-blit_front frame_tmp.cell whole (length-slice b.cell start (length xs))
          ∙ slice_cong b.cell {n = length xs} (omega arith) refl
          ∙ sym (circle_whole b.cell (t + 2) (length xs) (omega arith))
          ∙ h,
    )
    | yes two ↦ (
      blit (blit frame_tmp.cell 0 front) room back,
      rw (
        gt→leb (length xs) room two,
        copy_out_lem b start room (omega arith),
        copy_in_lem frame_tmp 0 front (omega (arith, length-slice b.cell start room)),
        copy_out_lem b 0 (length xs - room) (omega arith),
        copy_in_lem (record frame_tmp { cell = blit frame_tmp.cell 0 front }) room back
            (omega (arith, length-slice b.cell 0 (length xs - room))),
      ),
      slice-blit_two frame_tmp.cell front back (length-slice b.cell start room)
            (omega (arith, length-slice b.cell 0 (length xs - room)))
          ∙ ap₂ ◌++◌ (slice_cong b.cell (omega arith) (omega arith))
              (slice_cong b.cell {j = 0} refl (omega arith))
          ∙ sym (circle_split b.cell (t + 2) (length xs) (omega arith) fit)
          ∙ h,
    )
  ]
    where
      start : ℕ
      start = add_size tail 2 % ring_bytes

      room : ℕ
      room = sub_size ring_bytes start

      whole : List ℕ
      whole = slice b.cell start (length xs)

      front : List ℕ
      front = slice b.cell start room

      back : List ℕ
      back = slice b.cell 0 (length xs - room)
