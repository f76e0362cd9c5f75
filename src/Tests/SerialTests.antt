-- ===== src/Tests/SerialTests.antt =====
-- The serial module's ring, decoder and reader thread on small inputs.
use p.Common.{ℕ, ◌+◌, ◌-◌, ◌^◌, if◌then◌else◌, ◌==◌, refl, true, List, [], ◌∷◌, some, arith}
use p.Memory.{Buffer}
use p.Cobs.{cobs_dec}
use p.Cobs.Spec.{encode_from, decode}
use p.Serial.State.{Ring, Perf, Shared, ring_bytes}
use p.Serial.Ring.Fifo.{Holds, empty_ring, empty_ring-Holds}
use p.Serial.Ring.Push.{Pushed, ring_push-refines}
use p.Serial.Ring.Pop.{Popped, ring_pop-refines}
use p.Serial.Decode.{cobs_decode}
use p.Serial.Decode.Loop.{Gives}
use p.Serial.Decode.Refine.{cobs_decode-Gives}
use p.Serial.Decode.Agree.{Agree, decoders-Agree}
use p.Serial.Reader.{Reader, Flags, frame_bytes, scan_posix}
use p.Serial.Reader.Stream.{View, feed}
use p.Serial.Reader.Frame.{Shows}
use p.Serial.Reader.Scan.{Scanned, AllSet, scan_posix-feeds}
use p.Serial.Reader.Sent.{sent}
use p.Serial.ReaderThread.{ready, Round, Thread, thread_run}
use p.Serial.ReaderThread.Delivery.{IsRead, Delivers, done, read, Ran, thread_run-feeds}

abbrev pub stale : ℕ → ℕ
stale i = 90

abbrev pub block : ℕ → Buffer
block n = record { size = n; cell = stale }

abbrev pub message : List ℕ
message = 7 ∷ 0 ∷ 9 ∷ []

abbrev stuffed : List ℕ
stuffed = 2 ∷ 7 ∷ 2 ∷ 9 ∷ []

abbrev pub no_perf : Perf
no_perf = record {
  rx_bytes = 0;
  rx_frames = 0;
  cobs_decode_errors = 0;
  ring_push_dropped = 0;
  delivered_frames = 0;
  delivered_bytes = 0;
  tx_batches = 0;
  tx_bytes = 0;
  rx_idle_loops = 0;
  cpu_reader_ns = 0;
  cpu_writer_ns = 0;
  cpu_deliver_ns = 0;
}

abbrev pub fresh : Shared
fresh = record { ring = empty_ring stale; perf = no_perf }

ring_push-refines_example : Pushed fresh [] message
ring_push-refines_example =
    ring_push-refines fresh [] message (empty_ring-Holds stale) (omega arith)

-- A ring that holds the frames [7] and [], stored across its end.
abbrev pub wrapped : Ring
wrapped = record {
  ring_data = record {
    size = ring_bytes;
    cell = λ i. if i == 0 then 7 else if i == ring_bytes - 2 then 1 else 0;
  };
  ring_size = ring_bytes;
  ring_head = ring_bytes + 3;
  ring_tail = ring_bytes - 2;
  ring_dropped = 0;
}

pub wrapped_Holds : Holds wrapped ((7 ∷ []) ∷ [] ∷ [])
wrapped_Holds = record {
  size_at = refl;
  data_at = refl;
  tail_lt = omega arith;
  head_at = omega arith;
  fits = omega arith;
  content = refl;
  short = omega arith;
}

ring_pop-refines_example : Popped wrapped ((7 ∷ []) ∷ [] ∷ []) (block (2 ^ 16))
ring_pop-refines_example =
    ring_pop-refines wrapped ((7 ∷ []) ∷ [] ∷ []) (block (2 ^ 16)) wrapped_Holds (omega arith)

cobs_decode-Gives_example : Gives 9 (cobs_decode stuffed (block 9) 9) [] (decode stuffed)
cobs_decode-Gives_example =
    cobs_decode-Gives stuffed (block 9) 9 (omega arith) refl (omega arith) (omega arith)
      (omega arith)

decoders-Agree_example : Agree (cobs_dec (block 9) stuffed) (cobs_decode stuffed (block 4) 4)
decoders-Agree_example =
    decoders-Agree stuffed (block 9) (block 4) (omega arith) (omega arith) (omega arith)
      (omega arith) (omega arith) (omega arith)

abbrev pub running : ℕ → Flags
running k = record { py_enabled = true; alive = true }

pub running-AllSet : AllSet running
running-AllSet k = (refl, refl)

abbrev pub reader : Reader
reader = record {
  framebuf = block frame_bytes;
  frame_len = 0;
  tmp = block frame_bytes;
  shared = fresh;
}

abbrev pub view : View
view = record { queue = []; frames = 0; errors = 0; dropped = 0 }

pub reader_Shows : Shows reader view []
reader_Shows = record {
  buf_size = refl;
  tmp_size = refl;
  len_at = refl;
  content = refl;
  short = omega arith;
  wire = tt;
  shared = record {
    ring = empty_ring-Holds stale;
    frames = refl;
    errors = refl;
    dropped = refl;
    push_dropped = refl;
  };
}

abbrev pub line : List ℕ
line = 2 ∷ 7 ∷ 2 ∷ 9 ∷ 0 ∷ 3 ∷ []

scan_posix-feeds_example : Scanned (scan_posix 6 running 0 reader line) (feed view [] line)
scan_posix-feeds_example =
    scan_posix-feeds 6 running 0 reader line view [] (omega arith) running-AllSet reader_Shows
      (omega arith) (omega arith)

-- A round that reads these bytes.
abbrev reads : List ℕ → Round
reads xs = record {
  alive = true;
  now_ns = 5;
  fd_open = true;
  select = ready;
  alive_selected = true;
  received = some xs;
  alive_read = true;
  flags = running;
}

reads-IsRead : (xs : List ℕ) → IsRead (reads xs) xs
reads-IsRead xs = record {
  alive = refl;
  fd_open = refl;
  alive_selected = refl;
  select = refl;
  alive_read = refl;
  received = refl;
  flags = running-AllSet;
}

abbrev pub thread : Thread
thread = record { reader = reader; cpu = record { prev_ns = 0; sample_ctr = 0 } }

abbrev two_reads : List Round
two_reads = reads (2 ∷ 7 ∷ 2 ∷ []) ∷ reads (9 ∷ 0 ∷ 3 ∷ []) ∷ []

thread_run-feeds_example : Ran (thread_run thread two_reads) (feed view [] line)
thread_run-feeds_example =
    thread_run-feeds thread view []
      (read (2 ∷ 7 ∷ 2 ∷ []) (reads-IsRead _) (read (9 ∷ 0 ∷ 3 ∷ []) (reads-IsRead _) done))
      reader_Shows (omega arith) (omega arith)

abbrev pub one_frame : List Round
one_frame = reads (2 ∷ 7 ∷ 2 ∷ []) ∷ reads (9 ∷ 0 ∷ []) ∷ []

pub one_frame-Delivers : Delivers one_frame (sent (message ∷ []))
unfolding encode_from
one_frame-Delivers =
    read (2 ∷ 7 ∷ 2 ∷ []) (reads-IsRead _) (read (9 ∷ 0 ∷ []) (reads-IsRead _) done)
