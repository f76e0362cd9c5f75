-- ===== src/Serial/Ring/Usage.antt =====
-- The helper `ring_size` on a ring that holds a queue.
use p.Common.{◌+◌, ◌^◌, ◌<◌, ◌≡◌, le→leb, arith}
use p.Serial.State.{Ring}
use p.Serial.Queue.{Queue, used}
use p.Serial.Ring.{ring_size_used}
use p.Serial.Ring.Fifo.{Holds}

-- On a ring that holds a queue the helper gives the bytes that the queue's frames take, lengths
-- included, as long as ring_head has not wrapped past 2 ^ 64.
pub ring_size_used-used :
    (r : Ring) (q : Queue) → Holds r q → r.ring_tail + used q < 2 ^ 64 → ring_size_used r ≡ used q
unfolding ring_size_used
ring_size_used-used r q h small =
    rw (le→leb r.ring_tail r.ring_head (omega (arith, h.head_at))) (omega (arith, h.head_at))
