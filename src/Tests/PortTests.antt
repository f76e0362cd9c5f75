-- ===== src/Tests/PortTests.antt =====
-- The port's functions, and the loops of the threads on Windows and of the delivery, on small
-- inputs.
use p.Common.{
  ◌⊎◌, ◌≤◌, ◌+◌, length, ◌≡◌, refl, true, false, List, [], ◌∷◌, ◌++◌, none, some, arith, All, pos,
  negsuc,
}
use p.Memory.{blit, copy_in}
use p.Serial.Port.{
  Read, got, interrupted, would_block, broken, Termios, Line, b9600, b115200, serial_read_posix,
  drain, returned, open_serial_posix, speed_of, closes, serial_write_posix, bytes_available_posix,
  close_serial_posix,
}
use p.Serial.Port.Drain.{ReadsAll, serial_read_posix-drains}
use p.Serial.Port.Open.{IsRaw, Opens, open_serial_posix-Opens}
use p.Serial.WinPort.{pending_late, pending_done, fired}
use p.Serial.WinPort.Events.{
  PortFunction, writes, reads, waits_for_rx, sequence, events_after, sequence-events,
}
use p.Serial.WinPort.Open.{
  Dcb, OpenAnswers, IsOpened, open_serial_win, device_after, unopened, device_name,
  open_serial_win-IsOpened,
}
use p.Serial.Reader.Stream.{feed}
use p.Serial.WinThread.{
  WinRead, read_failed, no_bytes, read_bytes, no_event, WinRound, WinReader, win_run,
}
use p.Serial.WinThread.Delivery.{
  WinRan, WinDelivers, done, failing, idle, read, IsOpen, win_run-feeds,
}
use p.Serial.Ring.Fifo.{empty_ring, empty_ring-Holds}
use p.Serial.Queue.{Frame, Queue}
use p.Serial.DeliverThread.{Wake, DeliverRound, Deliverer}
use p.Serial.DeliverThread.Serve.{IsServing, IsFitting, Served, deliver_run-keeps}
use p.Serial.DeliverThread.Arrivals.{joined}
use p.Tests.SerialTests.{
  block, stale, running, running-AllSet, reader_Shows, view, thread, line, no_perf,
}
use p.Tests.DeliveryTests.{call, calm-IsCalm}

abbrev answers : List Read
answers = interrupted ∷ got 3 (4 ∷ []) ∷ would_block ∷ broken ∷ broken ∷ broken ∷ []

serial_read_posix-drains_example : ReadsAll answers 4 (block 4)
serial_read_posix-drains_example =
    serial_read_posix-drains answers 4 (block 4) (omega arith) (omega arith) (omega arith)
      (omega arith, tt) (omega arith)

-- The two bytes that were there are lost with the error.
read_broken :
    serial_read_posix (got 3 (4 ∷ []) ∷ broken ∷ []) 4 (block 4)
    ≡ some (returned (negsuc 0) (record { size = 4; cell = blit stale 0 (3 ∷ 4 ∷ []) }))
unfolding serial_read_posix drain copy_in
read_broken = refl

abbrev raw : Termios
raw = record {
  ispeed = b9600;
  ospeed = b9600;
  clocal = false;
  cread = false;
  csize = 7;
  parenb = true;
  cstopb = false;
  crtscts = true;
  ixon = true;
  ixoff = false;
  vtime = 1;
  vmin = 1;
}

abbrev tty : Line
tty = record { attributes = some raw; make_raw = λ t. record t { ixon = false }; set_ok = true }

tty-IsRaw : IsRaw tty.make_raw
tty-IsRaw = record { ixon = λ t. refl; ixoff = λ t. refl }

open_serial_posix-Opens_example : Opens (some 3) tty 57600 (open_serial_posix (some 3) tty 57600)
open_serial_posix-Opens_example = open_serial_posix-Opens (some 3) tty 57600 tty-IsRaw

other_speed : speed_of 1000000 ≡ b115200
unfolding speed_of
other_speed = refl

written : (serial_write_posix none ≡ negsuc 0) × (serial_write_posix (some 5) ≡ pos 5)
unfolding serial_write_posix
written = (refl, refl)

available :
    (bytes_available_posix false (pos 9) ≡ pos 0) × (bytes_available_posix true (pos 9) ≡ pos 9)
unfolding bytes_available_posix
available = (refl, refl)

closed : (close_serial_posix none ≡ []) × (close_serial_posix (some 3) ≡ closes 3 ∷ [])
unfolding close_serial_posix
closed = (refl, refl)

abbrev port_calls : List PortFunction
port_calls =
    reads 3 true (λ n. pending_late) 4
    ∷ waits_for_rx true true fired 3
    ∷ writes true (pending_done (some 2))
    ∷ []

sequence-events_example : events_after (sequence port_calls) false ≡ some false
sequence-events_example = sequence-events port_calls

abbrev control : Dcb
control = record {
  f_binary = false;
  f_abort_on_error = true;
  baud_rate = 300;
  byte_size = 7;
  parity = true;
  two_stop_bits = true;
  f_outx_cts_flow = true;
  f_outx_dsr_flow = true;
  f_out_x = true;
  f_in_x = true;
  dtr_enabled = false;
  rts_enabled = false;
}

abbrev windows : OpenAnswers
windows = record {
  handle = some 4;
  state = some control;
  state_set = true;
  timeouts_set = true;
  mask_set = true;
}

open_serial_win-IsOpened_example :
    IsOpened 9600 4
      ((open_serial_win (67 ∷ []) 9600 windows).1)
      (device_after ((open_serial_win (67 ∷ []) 9600 windows).0) unopened)
open_serial_win-IsOpened_example = open_serial_win-IsOpened (67 ∷ []) 9600 4 windows refl

names : device_name (67 ∷ []) ≡ 92 ∷ 92 ∷ 46 ∷ 92 ∷ 67 ∷ []
unfolding device_name
names = refl

abbrev turn : WinRead → WinRound
turn r = record {
  alive = true;
  now_ns = 5;
  port_open = true;
  read = r;
  alive_read = true;
  flags = running;
  event = no_event;
}

turn-IsOpen : (r : WinRead) → IsOpen (turn r)
turn-IsOpen r = record { alive = refl; port_open = refl; alive_read = refl }

abbrev win_reader : WinReader
win_reader = record { thread = thread; idle_backoff_ms = 3 }

abbrev turns : List WinRound
turns = turn read_failed ∷ turn no_bytes ∷ turn (read_bytes line) ∷ []

turns-WinDelivers : WinDelivers turns (line ++ [])
turns-WinDelivers = failing (turn-IsOpen read_failed) refl (
    idle (turn-IsOpen no_bytes) refl
      (read line (turn-IsOpen (read_bytes line)) refl running-AllSet done))

win_run-feeds_example : WinRan (win_run win_reader 0 turns) (feed view [] line)
win_run-feeds_example =
    win_run-feeds win_reader 0 view [] turns-WinDelivers reader_Shows (omega arith) (omega arith)

abbrev wake : List Frame → Wake
wake fs = record { pushed = fs; alive = true }

abbrev delivery : List Wake → DeliverRound
delivery wakes = record {
  alive = true;
  now_ns = 5;
  alive_locked = true;
  wakes = wakes;
  alive_woken = true;
  call = call;
}

abbrev frames : List Frame
frames = (7 ∷ []) ∷ [] ∷ []

abbrev deliveries : List DeliverRound
deliveries = delivery (wake [] ∷ wake frames ∷ []) ∷ delivery [] ∷ []

delivery-IsServing : (wakes : List Wake) → All IsFitting wakes → IsServing (delivery wakes)
delivery-IsServing wakes fit = record {
  alive = refl;
  alive_locked = refl;
  alive_woken = refl;
  wakes = fit;
  py_enabled = refl;
  list_ok = refl;
  calm = λ j. calm-IsCalm;
}

abbrev deliverer : Deliverer
deliverer = record {
  shared = record { ring = empty_ring stale; perf = no_perf };
  cpu = record { prev_ns = 0; sample_ctr = 0 };
}

deliver_run-keeps_example :
    (given : List (List Frame)) × (rest : Queue) × Served deliverer deliveries given rest
    × (joined given ++ rest ≡ frames)
    × ((rest ≡ []) ⊎ (length rest + 2 ≤ 2))
deliver_run-keeps_example =
    deliver_run-keeps deliveries deliverer []
      (
        delivery-IsServing _
            ((refl, tt, omega arith), ((refl, (omega arith, (omega arith, tt)), omega arith), tt)),
        (delivery-IsServing [] tt, tt),
      )
      (empty_ring-Holds stale)
