-- ===== src/Serial/Writer/Win.antt =====
-- writer_thread_win, round by round, against writer_thread_posix.
use p.Common.{ℕ, List, Option, none, some, if◌then◌else◌, ◌>>=◌, not, ◌&&◌, ltb}
use p.Memory.{Buffer, copy_out}
use p.Serial.Writer.{
  Item, batch_bytes, try_pop_write, batch_loop, WriterRound, Writer, WriterNext, leaves, goes_on,
  writer_sampled, count_batch,
}

-- Behind the loop that gathers the batch; the result of serial_write_win is ignored.
pub write_batch_win : Writer → Buffer × ℕ × List Item → Option WriterNext
write_batch_win w (buf, total, items) =
    if ltb 0 total
    then (copy_out buf 0 total >>= λ xs.
        some (goes_on (record w { buf = buf; perf = count_batch w.perf total }) (some xs) items))
    else some (goes_on (record w { buf = buf }) none items)

-- `fd_open` is the test of h_port, which comes before the batch is gathered.
pub writer_round_win : Writer → WriterRound → Option WriterNext
unfolding write_batch_win
writer_round_win w r =
    if not r.alive
    then some (leaves w)
    else (let w' = writer_sampled w r.now_ns in
        if not r.py_enabled
        then some (leaves w')
        else (try_pop_write w'.buf 0 batch_bytes r.first >>= λ p. elim (p.1) [
          | none ↦ some (goes_on (record w' { buf = p.0 }) none r.items)
          | some n ↦
              if not (r.alive_popped && r.enabled_popped)
              then some (leaves (record w' { buf = p.0 }))
              else if not r.fd_open
              then some (leaves (record w' { buf = p.0 }))
              else (batch_loop (p.0) n r.items >>= λ b. write_batch_win w' b)
        ]))
