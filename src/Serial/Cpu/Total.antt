-- ===== src/Serial/Cpu/Total.antt =====
-- What the samples and the accounting behind the loop add up to.
use p.Common.{
  ℕ, ◌+◌, ◌-◌, ◌%◌, ◌^◌, ◌≤◌, ◌<◌, ◌≡◌, refl, List, [], ◌∷◌, le→leb, gt→leb, arith, dec_lt, ◌∙◌,
}
use p.Serial.Cpu.{CpuClock, spent, cpu_sample}

-- The clock as the rounds would read it, never going back.
abbrev pub Rising : ℕ → List ℕ → ℕ → Type 0
Rising start [] end = start ≤ end
Rising start (now ∷ later) end = (start ≤ now) × Rising now later end

-- The rounds' samples, and what the thread adds when it leaves.
abbrev pub sampled_total : CpuClock → ℕ → List ℕ → ℕ → ℕ
sampled_total c total [] end = spent total c.prev_ns end
sampled_total c total (now ∷ later) end =
    sampled_total (cpu_sample c total now).0 (cpu_sample c total now).1 later end

Rising-end : (start : ℕ) (nows : List ℕ) (end : ℕ) → Rising start nows end → start ≤ end
Rising-end start [] end h = h
Rising-end start (now ∷ later) end h = omega (arith, Rising-end now later end h.1)

total_lem :
    (nows : List ℕ) (at end : ℕ) (c : CpuClock) (total : ℕ)
    → c.prev_ns ≤ at
    → Rising at nows end
    → total < 2 ^ 64
    → sampled_total c total nows end ≡ (total + (end - c.prev_ns)) % 2 ^ 64
unfolding cpu_sample
total_lem [] at end c total h r small = rw (le→leb c.prev_ns end (omega arith)) refl
total_lem (now ∷ later) at end c total h r small = elim (dec_lt (c.sample_ctr + 1) 512) [
  | yes few ↦
      rw (gt→leb 512 (c.sample_ctr + 1) few)
        (total_lem later now end _ total (omega arith) r.1 small)
  | no due ↦
      rw (le→leb 512 (c.sample_ctr + 1) (omega arith), le→leb c.prev_ns now (omega arith))
        (total_lem later now end _ _ (omega arith) r.1 (omega arith)
          ∙ omega (arith, Rising-end now later end r.1))
]

-- However many rounds a thread runs, and whenever it samples, its counter has grown in the end
-- by the CPU time from its first reading of the clock to its last, modulo 2 ^ 64, if the clock
-- never goes back and the counter is below 2 ^ 64 before.
sampled_total_lem :
    (c : CpuClock) (total : ℕ) (nows : List ℕ) (end : ℕ)
    → Rising c.prev_ns nows end
    → total < 2 ^ 64
    → sampled_total c total nows end ≡ (total + (end - c.prev_ns)) % 2 ^ 64
sampled_total_lem c total nows end r small =
    total_lem nows c.prev_ns end c total (omega arith) r small
