-- ===== src/Serial/Manager.antt =====
-- The life cycle of the SerialManager object of mp_serial_ext.c on POSIX systems: init, start,
-- is_running, get_perf_stats, shutdown and dealloc. The system calls are effects in a list; what
-- the interpreter and the system answer is an argument. The code ignores the result of
-- pthread_create, which leaves an undefined identifier where it fails; a join with that is
-- undefined, and an effect of its own here.
pub mod States
pub mod Pairs
pub mod Cycle
use p.Common.{
  ℕ, Bool, true, false, List, [], ◌∷◌, ◌++◌, Option, none, some, not, ◌&&◌, if◌then◌else◌,
}
use p.Memory.{Buffer}
use p.Serial.State.{Ring, Perf, Shared, ring_bytes}

pub data Worker : Type 0 where
  reader writer deliverer : Worker

pub data Effect : Type 0 where
  opens closes : ℕ → Effect
  creates joins : Worker → Effect
  -- pthread_create fails and leaves an identifier that is not 0; and a join with that
  strays joins_stray : Worker → Effect

-- A pthread_t: 0, that of a thread, or what a pthread_create that failed has left
pub data ThreadId : Type 0 where
  zero_id thread_id stray_id : ThreadId

-- What a pthread_create answers: it creates the thread, or it fails, and then the identifier is
-- not 0 afterwards, or is.
pub data Creation : Type 0 where
  succeeds : Creation
  fails : Bool → Creation

pub record Creations : Type 0 where
  pub read_thread : Creation
  pub write_thread : Creation
  pub deliver_thread : Creation

abbrev pub id_of : Creation → ThreadId
id_of succeeds = thread_id
id_of (fails true) = stray_id
id_of (fails false) = zero_id

abbrev pub creation : Worker → Creation → List Effect
creation w succeeds = creates w ∷ []
creation w (fails true) = strays w ∷ []
creation w (fails false) = []

-- fd is none where it is negative. The ring and the counters
-- are those of Serial/State.antt, and ring_data is set where it is not NULL.
pub record Manager : Type 0 where
  pub fd : Option ℕ
  pub alive : Bool
  pub py_enabled : Bool
  pub read_thread : ThreadId
  pub write_thread : ThreadId
  pub deliver_thread : ThreadId
  pub shared : Shared
  pub ring_data : Bool

abbrev pub no_perf : Perf
no_perf = record {
  rx_bytes = 0;
  rx_frames = 0;
  cobs_decode_errors = 0;
  ring_push_dropped = 0;
  delivered_frames = 0;
  delivered_bytes = 0;
  tx_batches = 0;
  tx_bytes = 0;
  rx_idle_loops = 0;
  cpu_reader_ns = 0;
  cpu_writer_ns = 0;
  cpu_deliver_ns = 0;
}

-- The object that tp_alloc returns: every field is zero.
abbrev pub allocated : Manager
allocated = record {
  fd = some 0;
  alive = false;
  py_enabled = false;
  read_thread = zero_id;
  write_thread = zero_id;
  deliver_thread = zero_id;
  shared = record {
    ring = record {
      ring_data = record { size = 0; cell = λ i. 0 };
      ring_size = 0;
      ring_head = 0;
      ring_tail = 0;
      ring_dropped = 0;
    };
    perf = no_perf;
  };
  ring_data = false;
}

-- What the calls in SerialManager_init answer: the arguments parse, the queues have `get` and
-- `put_nowait`, there is memory for the port's name, the three methods are found, and malloc gives
-- a block with this content.
pub record InitAnswers : Type 0 where
  pub parsed : Bool
  pub queue_like : Bool
  pub port_memory : Bool
  pub methods : Bool
  pub block : Option (ℕ → ℕ)

pub data InitError : Type 0 where
  bad_arguments not_queues no_port_memory no_methods no_ring : InitError

abbrev cleared : Manager → Manager
cleared m = record m { alive = false; py_enabled = false; ring_data = false }

-- The ring and the counters, before the check of malloc's result.
abbrev with_ring : Manager → (ℕ → ℕ) → ℕ → Manager
with_ring m content size = record m {
  shared = record {
    ring = record {
      ring_data = record { size = size; cell = content };
      ring_size = ring_bytes;
      ring_head = 0;
      ring_tail = 0;
      ring_dropped = 0;
    };
    perf = no_perf;
  };
}

unfoldable pub init : InitAnswers → Manager → Manager × Option InitError
init a m =
    if not a.parsed
    then (cleared m, some bad_arguments)
    else if not a.queue_like
    then (cleared m, some not_queues)
    else if not a.port_memory
    then (cleared m, some no_port_memory)
    else if not a.methods
    then (cleared m, some no_methods)
    else elim a.block [
      | none ↦ (with_ring (cleared m) (λ i. 0) 0, some no_ring)
      | some content ↦ (
        record (with_ring (cleared m) content ring_bytes) {
          ring_data = true;
          fd = none;
          read_thread = zero_id;
          write_thread = zero_id;
          deliver_thread = zero_id;
        },
        none,
      )
    ]

abbrev pub started : Manager → ℕ → Creations → Manager
started m fd c = record m {
  fd = some fd;
  py_enabled = true;
  alive = true;
  read_thread = id_of c.read_thread;
  write_thread = id_of c.write_thread;
  deliver_thread = id_of c.deliver_thread;
}

abbrev pub creations : Creations → List Effect
creations c =
    creation reader c.read_thread
    ++ creation writer c.write_thread
    ++ creation deliverer c.deliver_thread

-- `opened` is what open_serial_posix returns, or none for a negative result; then start raises
-- OSError, which is the result true.
pub start : Manager → Option ℕ → Creations → Manager × Bool × List Effect
start m opened c = elim m.fd [
  | some fd ↦ (m, false, [])
  | none ↦ elim opened [
    | none ↦ (m, true, [])
    | some fd ↦ (started m fd c, false, opens fd ∷ creations c)
  ]
]

pub is_running : Manager → Bool
is_running m = m.alive && (m.py_enabled && elim m.fd [ none ↦ false | some fd ↦ true ])

abbrev pub joined : ThreadId → Worker → List Effect
joined zero_id w = []
joined thread_id w = joins w ∷ []
joined stray_id w = joins_stray w ∷ []

abbrev join_all : Manager → List Effect
join_all m =
    joined m.read_thread reader ++ joined m.write_thread writer ++ joined m.deliver_thread deliverer

abbrev close_fd : Manager → List Effect
close_fd m = elim m.fd [ none ↦ [] | some fd ↦ closes fd ∷ [] ]

pub shutdown : Manager → Manager × List Effect
shutdown m = (
  record m {
    py_enabled = false;
    alive = false;
    read_thread = zero_id;
    write_thread = zero_id;
    deliver_thread = zero_id;
    fd = none;
  },
  join_all m ++ close_fd m,
)

-- The object is gone afterwards.
pub dealloc : Manager → List Effect
dealloc m = join_all m ++ close_fd m

-- The values of the dictionary, where PyDict_New has memory for it; then the counters start anew.
pub get_perf_stats : Manager → Bool → Manager × Option (Perf × ℕ)
get_perf_stats m memory = if not memory then (m, none) else (
  record m {
    shared = record { ring = record (m.shared.ring) { ring_dropped = 0 }; perf = no_perf };
  },
  some (m.shared.perf, m.shared.ring.ring_dropped),
)
