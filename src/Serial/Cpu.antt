-- ===== src/Serial/Cpu.antt =====
-- The accounting of CPU time in the loops of the threads of mp_serial_ext.c.
pub mod Total
use p.Common.{ℕ, ◌+◌, ◌-◌, ◌^◌, Bool, leb, if◌then◌else◌, add_size}

-- cpu_prev_ns and cpu_sample_ctr
pub record CpuClock : Type 0 where
  pub prev_ns : ℕ
  pub sample_ctr : ℕ

-- if (cpu_now_ns >= cpu_prev_ns) perf_cpu_..._ns += (cpu_now_ns - cpu_prev_ns);
abbrev pub spent : ℕ → ℕ → ℕ → ℕ
spent total prev now = if leb prev now then add_size total (now - prev) else total

-- The first lines of a round: every 512 rounds the clock is read.
unfoldable pub cpu_sample : CpuClock → ℕ → ℕ → CpuClock × ℕ
cpu_sample c total now =
    if leb 512 (c.sample_ctr + 1)
    then (record { prev_ns = now; sample_ctr = 0 }, spent total c.prev_ns now)
    else (record c { sample_ctr = c.sample_ctr + 1 }, total)
