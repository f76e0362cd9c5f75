-- ===== src/Serial/State.antt =====
-- The state of the serial extension module, p1150_driver/mpserial/mp_serial_ext.c, as far as its
-- threads share it under the ring's lock: the ring buffer and the performance counters.
use p.Common.{ℕ, ◌*◌}
use p.Memory.{Buffer}

-- ring_head and ring_tail run on; an index into ring_data is taken modulo ring_size.
pub record Ring : Type 0 where
  pub ring_data : Buffer
  pub ring_size : ℕ
  pub ring_head : ℕ
  pub ring_tail : ℕ
  pub ring_dropped : ℕ

-- The fields perf_* of SerialManagerObject.
pub record Perf : Type 0 where
  pub rx_bytes : ℕ
  pub rx_frames : ℕ
  pub cobs_decode_errors : ℕ
  pub ring_push_dropped : ℕ
  pub delivered_frames : ℕ
  pub delivered_bytes : ℕ
  pub tx_batches : ℕ
  pub tx_bytes : ℕ
  pub rx_idle_loops : ℕ
  pub cpu_reader_ns : ℕ
  pub cpu_writer_ns : ℕ
  pub cpu_deliver_ns : ℕ

pub record Shared : Type 0 where
  pub ring : Ring
  pub perf : Perf

-- self->ring_size = 1024 * 1024
abbrev pub ring_bytes : ℕ
ring_bytes = 1024 * 1024
