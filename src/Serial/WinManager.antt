-- ===== src/Serial/WinManager.antt =====
-- The life cycle of the SerialManager object of mp_serial_ext.c on Windows: init, start,
-- is_running, shutdown and dealloc, with cancel_all_io_win, close_serial_win and
-- wait_and_close_thread. The system calls are effects in a list; what the interpreter and the
-- system answer is an argument.
pub mod Watch
pub mod Life
pub mod Outcome
use p.Common.{
  ℕ, Bool, true, false, List, [], ◌∷◌, ◌++◌, Option, none, some, not, ◌&&◌, if◌then◌else◌,
}
use p.Serial.Manager.{
  Worker, reader, writer, deliverer, InitAnswers, InitError, bad_arguments, not_queues,
  no_port_memory, no_methods, no_ring,
}

pub data WinEffect : Type 0 where
  -- The port's handle; cancels_io, clears_error, purges, masks, clears_dtr and clears_rts take it
  opens closes : ℕ → WinEffect
  cancels_io clears_error purges masks clears_dtr clears_rts : ℕ → WinEffect
  -- CreateThread; and WaitForSingleObject and CloseHandle of the thread
  creates waits_for closes_thread : Worker → WinEffect
  inits_section deletes_section : WinEffect
  creates_event sets_event closes_event : WinEffect
  -- malloc and free of ring_data
  allocates frees : WinEffect

-- A handle is none where it is NULL; INVALID_HANDLE_VALUE is not stored. A thread and the event
-- are set where their handles are not NULL.
pub record WinManager : Type 0 where
  pub h_port : Option ℕ
  pub alive : Bool
  pub py_enabled : Bool
  pub h_read_thread : Bool
  pub h_write_thread : Bool
  pub h_deliver_thread : Bool
  pub h_ring_event : Bool
  pub ring_data : Bool

-- The object that tp_alloc returns: every field is zero.
abbrev pub allocated_win : WinManager
allocated_win = record {
  h_port = none;
  alive = false;
  py_enabled = false;
  h_read_thread = false;
  h_write_thread = false;
  h_deliver_thread = false;
  h_ring_event = false;
  ring_data = false;
}

pub data WinInitError : Type 0 where
  before_section : InitError → WinInitError
  no_event : WinInitError

abbrev cleared_win : WinManager → WinManager
cleared_win m = record m { alive = false; py_enabled = false; ring_data = false }

abbrev with_handles : WinManager → Bool → WinManager
with_handles m event = record m {
  alive = false;
  py_enabled = false;
  ring_data = true;
  h_read_thread = false;
  h_write_thread = false;
  h_deliver_thread = false;
  h_port = none;
  h_ring_event = event;
}

-- `event` is whether CreateEvent succeeds.
unfoldable pub init_win :
    InitAnswers → Bool → WinManager → WinManager × Option WinInitError × List WinEffect
init_win a event m =
    if not a.parsed
    then (cleared_win m, some (before_section bad_arguments), [])
    else if not a.queue_like
    then (cleared_win m, some (before_section not_queues), [])
    else if not a.port_memory
    then (cleared_win m, some (before_section no_port_memory), [])
    else if not a.methods
    then (cleared_win m, some (before_section no_methods), [])
    else elim a.block [
      | none ↦ (cleared_win m, some (before_section no_ring), [])
      | some content ↦
          if event
          then (with_handles m true, none, allocates ∷ inits_section ∷ creates_event ∷ [])
          else (with_handles m false, some no_event, allocates ∷ inits_section ∷ [])
    ]

-- Which CreateThread calls succeed; the code does not ask.
pub record Created : Type 0 where
  pub read_thread : Bool
  pub write_thread : Bool
  pub deliver_thread : Bool

abbrev created : Bool → Worker → List WinEffect
created ok w = if ok then creates w ∷ [] else []

-- `opened` is what open_serial_win returns, or none for INVALID_HANDLE_VALUE; then start raises
-- OSError, which is the result true.
unfoldable pub start_win : WinManager → Option ℕ → Created → WinManager × Bool × List WinEffect
start_win m opened c = elim m.h_port [
  | some h ↦ (m, false, [])
  | none ↦ elim opened [
    | none ↦ (m, true, [])
    | some h ↦ (
      record m {
        h_port = some h;
        py_enabled = true;
        alive = true;
        h_read_thread = c.read_thread;
        h_write_thread = c.write_thread;
        h_deliver_thread = c.deliver_thread;
      },
      false,
      opens h ∷ created c.read_thread reader
          ++ created c.write_thread writer
          ++ created c.deliver_thread deliverer,
    )
  ]
]

unfoldable pub is_running_win : WinManager → Bool
is_running_win m = m.alive && (m.py_enabled && elim m.h_port [ none ↦ false | some h ↦ true ])

-- The function ring_signal
abbrev pub signal_win : Bool → List WinEffect
signal_win event = if event then sets_event ∷ [] else []

-- None is for NULL and for INVALID_HANDLE_VALUE.
abbrev pub cancel_all_io_win : Option ℕ → List WinEffect
cancel_all_io_win none = []
cancel_all_io_win (some h) = cancels_io h ∷ clears_error h ∷ purges h ∷ []

abbrev pub wait_and_close_thread : Bool → Worker → List WinEffect
wait_and_close_thread set w = if set then waits_for w ∷ closes_thread w ∷ [] else []

-- Also what shutdown does at its end
abbrev pub close_serial_win : Option ℕ → List WinEffect
close_serial_win none = []
close_serial_win (some h) = closes h ∷ []

abbrev pub quiet_port : Option ℕ → List WinEffect
quiet_port none = []
quiet_port (some h) = masks h ∷ cancel_all_io_win (some h) ++ (clears_dtr h ∷ clears_rts h ∷ [])

unfoldable pub shutdown_win : WinManager → WinManager × List WinEffect
shutdown_win m = (
  record m {
    py_enabled = false;
    alive = false;
    h_read_thread = false;
    h_write_thread = false;
    h_deliver_thread = false;
    h_port = none;
  },
  signal_win m.h_ring_event
      ++ quiet_port m.h_port
      ++ wait_and_close_thread m.h_read_thread reader
      ++ wait_and_close_thread m.h_write_thread writer
      ++ wait_and_close_thread m.h_deliver_thread deliverer
      ++ close_serial_win m.h_port
      ++ signal_win m.h_ring_event,
)

-- The object is gone afterwards.
unfoldable pub dealloc_win : WinManager → List WinEffect
dealloc_win m =
    signal_win m.h_ring_event
    ++ (deletes_section ∷ [])
    ++ (if m.h_ring_event then closes_event ∷ [] else [])
    ++ (if m.ring_data then frees ∷ [] else [])
