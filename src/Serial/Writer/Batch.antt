-- ===== src/Serial/Writer/Batch.antt =====
-- A round of the writer against the batch of Serial/Writer/Coalesce.antt.
use p.Common.{
  ℕ, ◌+◌, ◌-◌, ◌≤◌, ◌<◌, ◌≡◌, refl, ap, ap₂, ◌∙◌, List, [], ◌∷◌, ◌++◌, Option, none, some, length,
  length-append, arith, dec_lt, lt→ltb, ge→ltb, le→leb, gt→leb, append-nil, append_assoc, subst,
}
use p.Memory.{Buffer, slice, blit}
use p.Memory.Laws.{slice-blit_end, copy_in_lem}
use p.Serial.Writer.{Item, bytes_item, other_item, batch_bytes, try_pop_write, batch_loop}
use p.Serial.Writer.Coalesce.{coalesce}

-- The buffer starts with these bytes.
pub record Starts (b : Buffer) (acc : List ℕ) : Type 0 where
  pub size : b.size ≡ batch_bytes
  pub content : slice b.cell 0 (length acc) ≡ acc
  pub room : length acc ≤ batch_bytes

-- The loop leaves a buffer that starts with these bytes, their number, and these items.
abbrev pub Batched : Option (Buffer × ℕ × List Item) → List ℕ → List ℕ × List Item → Type 0
Batched m acc (ys, rest) =
    (b : Buffer) × (m ≡ some (b, length (acc ++ ys), rest)) × Starts b (acc ++ ys)

pub pop_lem :
    (b : Buffer) (acc xs : List ℕ)
    → Starts b acc
    → length acc + length xs ≤ batch_bytes
    → (b' : Buffer) × (try_pop_write b
          (length acc)
          (batch_bytes - length acc)
          (some (bytes_item xs))
        ≡ some (b', some (length xs)))
      × Starts b' (acc ++ xs)
unfolding try_pop_write
pop_lem b acc xs h fit = (
  record b { cell = blit b.cell (length acc) xs },
  rw
      (
        le→leb (length xs) (batch_bytes - length acc) (omega arith),
        copy_in_lem b (length acc) xs (omega (arith, h.size)),
      )
      refl,
  record {
    size = h.size;
    content =
        ap₂ (λ k n. slice (blit b.cell k xs) 0 n) (omega arith) (length-append acc xs)
        ∙ slice-blit_end b.cell 0 (length acc) xs
        ∙ ap (λ l. l ++ xs) h.content;
    room = omega (arith, length-append acc xs);
  },
)

pop_big :
    (b : Buffer) (n : ℕ) (xs : List ℕ)
    → batch_bytes < n + length xs
    → n ≤ batch_bytes
    → try_pop_write b n (batch_bytes - n) (some (bytes_item xs)) ≡ some (b, none)
unfolding try_pop_write
pop_big b n xs over fit = rw (gt→leb (length xs) (batch_bytes - n) (omega arith)) refl

loop_stops :
    (b : Buffer) (n : ℕ) (x : Item) (items : List Item)
    → n < batch_bytes
    → try_pop_write b n (batch_bytes - n) (some x) ≡ some (b, none)
    → batch_loop b n (x ∷ items) ≡ some (b, n, items)
unfolding batch_loop
loop_stops b n x items room e = rw (lt→ltb n batch_bytes room, e) refl

loop_full :
    (b : Buffer) (n : ℕ) (x : Item) (items : List Item)
    → batch_bytes ≤ n
    → batch_loop b n (x ∷ items) ≡ some (b, n, x ∷ items)
unfolding batch_loop
loop_full b n x items full = rw (ge→ltb n batch_bytes full) refl

loop_goes :
    (b b' : Buffer) (n m : ℕ) (x : Item) (items : List Item)
    → n < batch_bytes
    → try_pop_write b n (batch_bytes - n) (some x) ≡ some (b', some m)
    → batch_loop b n (x ∷ items) ≡ batch_loop b' (n + m) items
unfolding batch_loop
loop_goes b b' n m x items room e = rw (lt→ltb n batch_bytes room, e, batch_loop) refl

stop_Batched :
    (m : Option (Buffer × ℕ × List Item)) (b : Buffer) (acc : List ℕ) (rest : List Item)
    → Starts b acc
    → m ≡ some (b, length acc, rest)
    → Batched m acc ([], rest)
stop_Batched m b acc rest h e = (b, rw (append-nil acc) e, rw (append-nil acc) h)

join_Batched :
    (m : Option (Buffer × ℕ × List Item)) (acc xs : List ℕ) (r : List ℕ × List Item)
    → Batched m (acc ++ xs) r
    → Batched m acc (xs ++ r.0, r.1)
join_Batched m acc xs (ys, rest) (b, e, h) = rw (← append_assoc acc xs ys) (b, e, h)

pop_other :
    (b : Buffer) (n : ℕ) → try_pop_write b n (batch_bytes - n) (some other_item) ≡ some (b, none)
unfolding try_pop_write
pop_other b n = refl

pub loop_lem :
    (items : List Item) (b : Buffer) (acc : List ℕ)
    → Starts b acc
    → Batched (batch_loop b (length acc) items) acc (coalesce (length acc) items)
unfolding coalesce
loop_lem [] b acc h = stop_Batched _ b acc [] h (unfold batch_loop in refl)
loop_lem (other_item ∷ items) b acc h = elim (dec_lt (length acc) batch_bytes) [
  | yes room ↦ rw (lt→ltb (length acc) batch_bytes room) (
      stop_Batched _ b acc items h
        (loop_stops b (length acc) other_item items room (pop_other b (length acc))))
  | no full ↦ rw (ge→ltb (length acc) batch_bytes (omega arith)) (
      stop_Batched _ b acc (other_item ∷ items) h
        (loop_full b (length acc) other_item items (omega arith)))
]
loop_lem (bytes_item xs ∷ items) b acc h = elim (dec_lt (length acc) batch_bytes) [
  | no full ↦ rw (ge→ltb (length acc) batch_bytes (omega arith)) (
      stop_Batched _ b acc (bytes_item xs ∷ items) h
        (loop_full b (length acc) (bytes_item xs) items (omega arith)))
  | yes room ↦ elim (dec_lt batch_bytes (length acc + length xs)) [
    | yes over ↦
        rw (lt→ltb (length acc) batch_bytes room, gt→leb (length acc + length xs) batch_bytes over)
          (stop_Batched _ b acc items h (
            loop_stops b (length acc) (bytes_item xs) items room
              (pop_big b (length acc) xs over (omega arith))))
    | no fits ↦
        let (b', e, h') = pop_lem b acc xs h (omega arith) in
        rw
          (
            lt→ltb (length acc) batch_bytes room,
            le→leb (length acc + length xs) batch_bytes (omega arith),
            loop_goes b b' (length acc) (length xs) (bytes_item xs) items room e,
          )
          (join_Batched _ acc xs _ (
            subst (λ n. Batched (batch_loop b' n items) (acc ++ xs) (coalesce n items))
              (length-append acc xs) (loop_lem items b' (acc ++ xs) h')))
  ]
]
