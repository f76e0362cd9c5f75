-- ===== src/Serial/Writer/Round.antt =====
-- What a round of the writer gives to the port.
use p.Common.{
  ℕ, ◌+◌, ◌≤◌, ◌<◌, ◌≡◌, refl, ap, ◌∙◌, true, List, [], ◌∷◌, ◌++◌, some, length, length-append,
  arith, lt→ltb, gt→leb, append-nil, subst,
}
use p.Memory.{Buffer}
use p.Memory.Laws.{copy_out_lem}
use p.Serial.Writer.{
  Item, bytes_item, batch_bytes, try_pop_write, batch_loop, WriterRound, Writer, WriterNext,
  goes_on, writer_sampled, count_batch, write_batch, writer_round,
}
use p.Serial.Writer.Coalesce.{coalesce, items_of, concat, total_length, coalesce-all}
use p.Serial.Writer.Batch.{Starts, pop_lem, loop_lem}

-- A round in which the flags stay set, the port is open and the queue gives the bytes `xs` first.
pub record IsWriting (r : WriterRound) (xs : List ℕ) : Type 0 where
  pub alive : r.alive ≡ true
  pub py_enabled : r.py_enabled ≡ true
  pub first : r.first ≡ some (bytes_item xs)
  pub alive_popped : r.alive_popped ≡ true
  pub enabled_popped : r.enabled_popped ≡ true
  pub fd_open : r.fd_open ≡ true

-- The round gives these bytes to serial_write_posix, leaves these items in the queue, counts one
-- batch and its bytes, and the thread goes on with a buffer of its size.
abbrev pub Wrote : Writer → WriterRound → List ℕ → List Item → Type 0
Wrote w r xs rest =
    (w' : Writer) × (writer_round w r ≡ some (goes_on w' (some xs) rest))
    × (w'.perf ≡ count_batch (writer_sampled w r.now_ns).perf (length xs))
    × (w'.buf.size ≡ batch_bytes)

write_lem :
    (w : Writer) (b : Buffer) (xs : List ℕ) (rest : List Item)
    → Starts b xs
    → 0 < length xs
    → write_batch w true (b, length xs, rest)
      ≡ some (goes_on (record w { buf = b; perf = count_batch w.perf (length xs) }) (some xs) rest)
unfolding write_batch
write_lem w b xs rest h pos =
    rw
      (
        lt→ltb 0 (length xs) pos,
        copy_out_lem b 0 (length xs) (omega (arith, h.size, h.room)),
        h.content,
      )
      refl

round_lem :
    (w : Writer) (r : WriterRound) (xs : List ℕ) (b b' : Buffer) (total : ℕ) (rest : List Item)
    (next : WriterNext)
    → IsWriting r xs
    → try_pop_write w.buf 0 batch_bytes (some (bytes_item xs)) ≡ some (b, some (length xs))
    → batch_loop b (length xs) r.items ≡ some (b', total, rest)
    → write_batch (writer_sampled w r.now_ns) true (b', total, rest) ≡ some next
    → writer_round w r ≡ some next
unfolding writer_round
round_lem w r xs b b' total rest next h p l o =
    rw (h.alive, h.py_enabled, h.first, p, h.alive_popped, h.enabled_popped, l, h.fd_open) o

-- A round in which the flags stay set, the port is open, the writer's buffer has its size and
-- the queue gives first between 1 and 2 ^ 16 bytes writes, without a fault, these bytes and
-- those of the items that coalesce joins to them, in one piece; it leaves in the queue what
-- coalesce leaves and counts one batch and its bytes.
writer_round-coalesce :
    (w : Writer) (r : WriterRound) (xs : List ℕ)
    → w.buf.size ≡ batch_bytes
    → IsWriting r xs
    → 0 < length xs
    → length xs ≤ batch_bytes
    → Wrote w r (xs ++ (coalesce (length xs) r.items).0) (coalesce (length xs) r.items).1
writer_round-coalesce w r xs size h pos fit =
    let (b, e, started) =
      pop_lem w.buf [] xs (record { size = size; content = refl; room = omega arith })
        (omega arith) in
    let (b', l, ended) = loop_lem r.items b xs started in
    (
      _,
      round_lem w r xs b b' _ _ _ h e l (
          write_lem (writer_sampled w r.now_ns) b' _ _ ended
            (omega (arith, length-append xs (coalesce (length xs) r.items).0))),
      refl,
      ended.size,
    )

-- In a round in which the flags stay set, the port is open, the writer's buffer has its size and
-- the queue gives only byte strings, the first not empty, of fewer than 2 ^ 16 bytes altogether,
-- the writer writes all of them in order, in one piece, and leaves none.
pub writer_round-all :
    (w : Writer) (r : WriterRound) (xs : List ℕ) (xss : List (List ℕ))
    → w.buf.size ≡ batch_bytes
    → IsWriting r xs
    → r.items ≡ items_of xss
    → 0 < length xs
    → length xs + total_length xss < batch_bytes
    → Wrote w r (xs ++ concat xss) []
writer_round-all w r xs xss size h items pos fit =
    subst (λ (s : List ℕ × List Item). Wrote w r (xs ++ s.0) s.1)
      (ap (coalesce (length xs)) items ∙ coalesce-all (length xs) xss fit)
      (writer_round-coalesce w r xs size h pos (omega arith))

too_big :
    (total : ℕ) (ys : List ℕ) (rest : List Item)
    → total < batch_bytes
    → batch_bytes < total + length ys
    → coalesce total (bytes_item ys ∷ rest) ≡ ([], rest)
unfolding coalesce
too_big total ys rest room over =
    rw (lt→ltb total batch_bytes room, gt→leb (total + length ys) batch_bytes over) refl

-- In a round in which the flags stay set, the port is open, the writer's buffer has its size,
-- and the queue gives first a byte string that is not empty and does not fill the buffer and
-- then one that does not fit behind it: the writer writes the first alone, and the second is
-- neither written nor left in the queue.
pub writer_round-drops :
    (w : Writer) (r : WriterRound) (xs ys : List ℕ) (rest : List Item)
    → w.buf.size ≡ batch_bytes
    → IsWriting r xs
    → r.items ≡ bytes_item ys ∷ rest
    → 0 < length xs
    → length xs < batch_bytes
    → batch_bytes < length xs + length ys
    → Wrote w r xs rest
writer_round-drops w r xs ys rest size h items pos room over =
    subst (λ l. Wrote w r l rest) (append-nil xs)
      (subst (λ (s : List ℕ × List Item). Wrote w r (xs ++ s.0) s.1)
        (ap (coalesce (length xs)) items ∙ too_big (length xs) ys rest room over)
        (writer_round-coalesce w r xs size h pos (omega arith)))
