-- ===== src/Serial/DeliverThread.antt =====
-- deliver_thread_posix of mp_serial_ext.c, round by round. What the other threads do while it
-- waits, and the flags, are arguments.
pub mod Arrivals
pub mod Serve
use p.Common.{
  ℕ, Bool, true, false, List, [], ◌∷◌, Option, none, some, if◌then◌else◌, ◌>>=◌, not, ◌&&◌, ◌==◌,
}
use p.Serial.State.{Shared, Ring, Perf}
use p.Serial.Cpu.{CpuClock, cpu_sample}
use p.Serial.Deliver.{Call, push_all, deliver_batch}

-- A return of pthread_cond_wait: the frames pushed since, and `self->alive` behind it.
pub record Wake : Type 0 where
  pub pushed : List (List ℕ)
  pub alive : Bool

pub record DeliverRound : Type 0 where
  -- `while (self->alive)`, and thread_cpu_now_ns()
  pub alive : Bool
  pub now_ns : ℕ
  -- `self->alive` at the first test of the inner loop, the wake-ups, and `self->alive` behind it
  pub alive_locked : Bool
  pub wakes : List Wake
  pub alive_woken : Bool
  pub call : Call

pub record Deliverer : Type 0 where
  pub shared : Shared
  pub cpu : CpuClock

-- The loop is left; or it waits for a wake-up; or it goes on, and this batch has been given to
-- put_nowait, if any.
pub data DeliverNext : Type 0 where
  leaves waits : Deliverer → DeliverNext
  goes_on : Deliverer → Option (List (List ℕ)) → DeliverNext

abbrev pub deliver_sampled : Deliverer → ℕ → Deliverer
deliver_sampled d now =
    let (c, total) = cpu_sample d.cpu d.shared.perf.cpu_deliver_ns now in
    record d {
      cpu = c;
      shared = record (d.shared) { perf = record (d.shared.perf) { cpu_deliver_ns = total } };
    }

-- The inner loop, and whether it has ended
pub deliver_wait : Bool → List Wake → Shared → Option (Shared × Bool)
deliver_wait alive [] s = some (s, not (alive && (s.ring.ring_head == s.ring.ring_tail)))
deliver_wait alive (w ∷ wakes) s = elim (alive && (s.ring.ring_head == s.ring.ring_tail)) [
  | true ↦ push_all s w.pushed >>= λ s'. deliver_wait w.alive wakes s'
  | false ↦ some (s, true)
]

-- Behind the inner loop
pub delivering : Deliverer → DeliverRound → Shared × Bool → Option DeliverNext
delivering d r (s, false) = some (waits (record d { shared = s }))
delivering d r (s, true) =
    if not r.alive_woken
    then some (leaves (record d { shared = s }))
    else (deliver_batch r.call s >>= λ b. some (goes_on (record d { shared = b.0 }) b.1))

pub deliver_round : Deliverer → DeliverRound → Option DeliverNext
unfolding delivering
deliver_round d r =
    if not r.alive
    then some (leaves d)
    else (let d' = deliver_sampled d r.now_ns in
        deliver_wait r.alive_locked r.wakes d'.shared >>= delivering d' r)

abbrev pub put : Option (List (List ℕ)) → List (List (List ℕ)) → List (List (List ℕ))
put none given = given
put (some batch) given = batch ∷ given

-- The rounds until the thread leaves the loop or waits, and the batches that it has given
pub deliver_run : Deliverer → List DeliverRound → Option (DeliverNext × List (List (List ℕ)))
deliver_run d [] = some (goes_on d none, [])
deliver_run d (r ∷ rounds) = deliver_round d r >>= elim [
  | leaves d' ↦ some (leaves d', [])
  | waits d' ↦ some (waits d', [])
  | goes_on d' batch ↦ deliver_run d' rounds >>= λ x. some (x.0, put batch x.1)
]
