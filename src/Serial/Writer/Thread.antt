-- ===== src/Serial/Writer/Thread.antt =====
-- writer_thread_posix of mp_serial_ext.c as a whole: its rounds, one behind the other, on one Python
-- queue, and the accounting of CPU time behind the loop.
use p.Common.{
  ℕ, ◌+◌, ◌%◌, ◌^◌, ◌<◌, ◌≡◌, refl, ap, Bool, true, List, [], ◌∷◌, ◌++◌, Option, none, some, ◌>>=◌,
  length, length-append, arith, All,
}
use p.Serial.State.{Perf}
use p.Serial.Cpu.{spent}
use p.Serial.Writer.{
  Item, batch_bytes, WriterRound, Writer, leaves, goes_on, writer_sampled, try_pop_write,
  writer_round,
}
use p.Serial.Writer.Coalesce.{items_of, concat, total_length}
use p.Serial.Writer.Round.{writer_round-all}

-- What a round meets: the items put into the queue since the last one, the flags and the clock.
pub record Turn : Type 0 where
  pub arrives : List Item
  pub alive : Bool
  pub now_ns : ℕ
  pub py_enabled : Bool
  pub alive_popped : Bool
  pub enabled_popped : Bool
  pub fd_open : Bool

-- get and get_nowait take the oldest item.
abbrev pub first_of : List Item → Option Item
first_of [] = none
first_of (x ∷ items) = some x

abbrev pub behind_first : List Item → List Item
behind_first [] = []
behind_first (x ∷ items) = items

abbrev pub round_on : Turn → List Item → WriterRound
round_on t queue = record {
  alive = t.alive;
  now_ns = t.now_ns;
  py_enabled = t.py_enabled;
  first = first_of queue;
  alive_popped = t.alive_popped;
  enabled_popped = t.enabled_popped;
  items = behind_first queue;
  fd_open = t.fd_open;
}

-- The thread has returned, or is in its loop with these items in the queue.
pub data WriterState : Type 0 where
  returned : Writer → WriterState
  looping : Writer → List Item → WriterState

-- if (cpu_end_ns >= cpu_prev_ns) perf_cpu_writer_ns += (cpu_end_ns - cpu_prev_ns);
abbrev pub writer_end : Writer → ℕ → Writer
writer_end w end_ns = record w {
  perf = record (w.perf) { cpu_writer_ns = spent w.perf.cpu_writer_ns w.cpu.prev_ns end_ns };
}

abbrev pub noted : Option (List ℕ) → List (List ℕ) → List (List ℕ)
noted none written = written
noted (some xs) written = xs ∷ written

-- The rounds, and what serial_write_posix has been given; `end_ns` is the clock behind the loop.
pub writer_run : Writer → List Item → List Turn → ℕ → Option (WriterState × List (List ℕ))
writer_run w queue [] end_ns = some (looping w queue, [])
writer_run w queue (t ∷ turns) end_ns = writer_round w (round_on t (queue ++ t.arrives)) >>= elim [
  | leaves w' ↦ some (returned (writer_end w' end_ns), [])
  | goes_on w' written rest ↦ writer_run w' rest turns end_ns >>= λ x. some (x.0, noted written x.1)
]

-- The flags stay set, the port is open, and what comes are byte strings, none of them empty and
-- together smaller than the buffer.
pub record IsSteady (t : Turn) (xss : List (List ℕ)) : Type 0 where
  pub arrives : t.arrives ≡ items_of xss
  pub filled : All (λ (xs : List ℕ). 0 < length xs) xss
  pub fits : total_length xss < batch_bytes
  pub alive : t.alive ≡ true
  pub py_enabled : t.py_enabled ≡ true
  pub alive_popped : t.alive_popped ≡ true
  pub enabled_popped : t.enabled_popped ≡ true
  pub fd_open : t.fd_open ≡ true

pub data Steady : List Turn → List ℕ → Type 0 where
  none_left : Steady [] []
  then_turn :
      {t : Turn} {turns : List Turn} {xs : List ℕ} (xss : List (List ℕ))
      → IsSteady t xss
      → Steady turns xs
      → Steady (t ∷ turns) (concat xss ++ xs)

-- A round on an empty queue goes on, with the same buffer.
idle_round :
    (w : Writer) (t : Turn) (xss : List (List ℕ))
    → IsSteady t xss
    → writer_round w (round_on t []) ≡ some (goes_on (writer_sampled w t.now_ns) none [])
unfolding writer_round try_pop_write
idle_round w t xss h = rw (h.alive, h.py_enabled) refl

-- The thread is in its loop behind these turns, with an empty queue; what it has given to
-- serial_write_posix are these bytes, and its counter has grown by their number.
pub record Ran (w : Writer) (turns : List Turn) (end_ns : ℕ) (xs : List ℕ) : Type 0 where
  pub writer : Writer
  pub written : List (List ℕ)
  pub run : writer_run w [] turns end_ns ≡ some (looping writer [], written)
  pub bytes : concat written ≡ xs
  pub counted : writer.perf.tx_bytes ≡ (w.perf.tx_bytes + length xs) % 2 ^ 64
  pub size : writer.buf.size ≡ batch_bytes

run_cons :
    (w w' : Writer) (t : Turn) (turns : List Turn) (end_ns : ℕ) (xss : List (List ℕ))
    (written : Option (List ℕ)) (xs : List ℕ) (given : List (List ℕ)) (s : WriterState)
    → t.arrives ≡ items_of xss
    → writer_round w (round_on t (items_of xss)) ≡ some (goes_on w' written [])
    → writer_run w' [] turns end_ns ≡ some (s, given)
    → writer_run w [] (t ∷ turns) end_ns ≡ some (s, noted written given)
unfolding writer_run
run_cons w w' t turns end_ns xss written xs given s a e r = rw (writer_run, a, e, ◌>>=◌, r) refl

turn_lem :
    (w : Writer) (t : Turn) (turns : List Turn) (end_ns : ℕ) (xss : List (List ℕ)) (xs : List ℕ)
    → w.buf.size ≡ batch_bytes
    → w.perf.tx_bytes < 2 ^ 64
    → IsSteady t xss
    → ((w' : Writer)
        → w'.buf.size ≡ batch_bytes
        → w'.perf.tx_bytes < 2 ^ 64
        → Ran w' turns end_ns xs)
    → Ran w (t ∷ turns) end_ns (concat xss ++ xs)
turn_lem w t turns end_ns [] xs size small h later =
    let ran = later (writer_sampled w t.now_ns) size small in
    record {
      writer = ran.writer;
      written = ran.written;
      run =
          run_cons w (writer_sampled w t.now_ns) t turns end_ns [] none xs ran.written _ h.arrives
            (idle_round w t [] h) ran.run;
      bytes = ran.bytes;
      counted = ran.counted;
      size = ran.size;
    }
turn_lem w t turns end_ns (ys ∷ xss) xs size small h later =
    let (w', e, perf, size') =
      writer_round-all w (round_on t (items_of (ys ∷ xss))) ys xss size
        (record {
          alive = h.alive;
          py_enabled = h.py_enabled;
          first = refl;
          alive_popped = h.alive_popped;
          enabled_popped = h.enabled_popped;
          fd_open = h.fd_open;
        })
        refl h.filled.0 h.fits in
    let tx = ap (λ (p : Perf). p.tx_bytes) perf in
    let ran = later w' size' (omega (arith, tx)) in
    record {
      writer = ran.writer;
      written = (ys ++ concat xss) ∷ ran.written;
      run =
          run_cons w w' t turns end_ns (ys ∷ xss) (some (ys ++ concat xss)) xs ran.written _
            h.arrives e ran.run;
      bytes = ap (λ l. (ys ++ concat xss) ++ l) ran.bytes;
      counted = omega (arith, ran.counted, tx, length-append (ys ++ concat xss) xs);
      size = ran.size;
    }

-- In turns in which the flags stay set and the port is open, and in which, between one round and
-- the next, byte strings that are not empty come into the queue, of fewer than 2 ^ 16 bytes
-- together: a thread that starts with an empty queue, with its buffer and with its counter of
-- bytes below 2 ^ 64, faults nowhere; what it gives to serial_write_posix are the bytes of all
-- that came, in order; it leaves nothing in the queue, and the counter grows by their number,
-- modulo 2 ^ 64.
pub writer_run-Ran :
    {turns : List Turn} {xs : List ℕ} (w : Writer) (end_ns : ℕ)
    → Steady turns xs
    → w.buf.size ≡ batch_bytes
    → w.perf.tx_bytes < 2 ^ 64
    → Ran w turns end_ns xs
writer_run-Ran w end_ns none_left size small = record {
  writer = w;
  written = [];
  run = unfold writer_run in refl;
  bytes = refl;
  counted = omega arith;
  size = size;
}
writer_run-Ran w end_ns (then_turn {t} {turns} {xs} xss h rest) size small =
    turn_lem w t turns end_ns xss xs size small h
      (λ w' size' small'. writer_run-Ran w' end_ns rest size' small')
