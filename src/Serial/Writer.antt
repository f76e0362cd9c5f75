-- ===== src/Serial/Writer.antt =====
-- writer_thread_posix of mp_serial_ext.c and `try_pop_write`, round by round. What the Python
-- queue gives, the clock and the volatile flags are arguments.
pub mod Coalesce
pub mod Batch
pub mod Round
pub mod Win
pub mod Thread
use p.Common.{
  ℕ, zero, suc, ◌+◌, ◌-◌, ◌^◌, Bool, true, false, List, [], ◌∷◌, Option, none, some, ltb, leb, not,
  ◌&&◌, if◌then◌else◌, ◌>>=◌, length, add_size,
}
use p.Memory.{Buffer, copy_in, copy_out}
use p.Serial.State.{Perf}
use p.Serial.Cpu.{CpuClock, cpu_sample}

-- sizeof(buf)
abbrev pub batch_bytes : ℕ
batch_bytes = 2 ^ 16

-- What a call of get or get_nowait returns: a bytes object, or something else.
pub data Item : Type 0 where
  bytes_item : List ℕ → Item
  other_item : Item

-- The call's answer is none if it raises. The result is the buffer, with the length where `got` is
-- set; the item is gone from the queue in any case.
pub try_pop_write : Buffer → ℕ → ℕ → Option Item → Option (Buffer × Option ℕ)
try_pop_write buf off cap none = some (buf, none)
try_pop_write buf off cap (some other_item) = some (buf, none)
try_pop_write buf off cap (some (bytes_item xs)) =
    if leb (length xs) cap
    then (copy_in buf off xs >>= λ b. some (b, some (length xs)))
    else some (buf, none)

-- The loop that drains the queue. The items are those that get_nowait gives until it raises; the
-- result holds those that have not been asked for.
pub batch_loop : Buffer → ℕ → List Item → Option (Buffer × ℕ × List Item)
batch_loop buf total [] = some (buf, total, [])
batch_loop buf total (x ∷ items) =
    if ltb total batch_bytes
    then (try_pop_write buf total (batch_bytes - total) (some x) >>= λ r. elim (r.1) [
      | none ↦ some (r.0, total, items)
      | some m ↦ batch_loop (r.0) (total + m) items
    ])
    else some (buf, total, x ∷ items)

pub record WriterRound : Type 0 where
  -- `while (self->alive)`, thread_cpu_now_ns() and py_enabled
  pub alive : Bool
  pub now_ns : ℕ
  pub py_enabled : Bool
  -- What get gives within its 5 ms, and the flags behind it
  pub first : Option Item
  pub alive_popped : Bool
  pub enabled_popped : Bool
  -- What get_nowait gives then, and `self->fd >= 0`
  pub items : List Item
  pub fd_open : Bool

pub record Writer : Type 0 where
  pub buf : Buffer
  pub cpu : CpuClock
  pub perf : Perf

-- The loop is left, or goes on; then serial_write_posix has been given these bytes, if any, and
-- these items have not been asked for. What serial_write_posix returns is ignored.
pub data WriterNext : Type 0 where
  leaves : Writer → WriterNext
  goes_on : Writer → Option (List ℕ) → List Item → WriterNext

abbrev pub writer_sampled : Writer → ℕ → Writer
writer_sampled w now =
    let (c, total) = cpu_sample w.cpu w.perf.cpu_writer_ns now in
    record w { cpu = c; perf = record (w.perf) { cpu_writer_ns = total } }

-- perf_tx_batches++; perf_tx_bytes += total;
abbrev pub count_batch : Perf → ℕ → Perf
count_batch p total = record p {
  tx_batches = add_size p.tx_batches 1;
  tx_bytes = add_size p.tx_bytes total;
}

pub write_batch : Writer → Bool → Buffer × ℕ × List Item → Option WriterNext
write_batch w fd_open (buf, total, items) =
    if fd_open && ltb 0 total
    then (copy_out buf 0 total >>= λ xs.
        some (goes_on (record w { buf = buf; perf = count_batch w.perf total }) (some xs) items))
    else some (goes_on (record w { buf = buf }) none items)

pub writer_round : Writer → WriterRound → Option WriterNext
unfolding write_batch
writer_round w r =
    if not r.alive
    then some (leaves w)
    else (let w' = writer_sampled w r.now_ns in
        if not r.py_enabled
        then some (leaves w')
        else (try_pop_write w'.buf 0 batch_bytes r.first >>= λ p. elim (p.1) [
          | none ↦ some (goes_on (record w' { buf = p.0 }) none r.items)
          | some n ↦
              if not (r.alive_popped && r.enabled_popped)
              then some (leaves (record w' { buf = p.0 }))
              else (batch_loop (p.0) n r.items >>= λ b. write_batch w' r.fd_open b)
        ]))
