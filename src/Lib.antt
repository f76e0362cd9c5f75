-- ===== src/Lib.antt =====
-- Verification of the C extension modules of the P1150 driver.
--
-- The driver talks to the P1150 over a serial port. Frames are stuffed with COBS (consistent
-- overhead byte stuffing) so that a zero byte can end each of them.
--
--   p1150_driver/cobs_c/cobs.c is a Python module with the functions `enc` and `dec`.
--   p1150_driver/mpserial/mp_serial_ext.c is a Python type, SerialManager, with three threads. The
--   reader thread reads the port, cuts the stream at the zeros, decodes each frame (`cobs_decode`)
--   and pushes it into a ring buffer (`ring_push`). The delivery thread takes up to 1024 frames
--   out of the ring and gives them to a Python queue in one list (`deliver_batch_to_python`). The
--   writer thread takes byte strings from another Python queue and writes them to the port.
--   p1150_driver/logdata_c/logdatamodule.c decodes the log frames, with a bundled copy of libcbor.
--
-- Files:
--   Common: the library's names, Boolean tests, integers, lists over native numbers, wrapping
--   sums, and the sequencing of code that may fault.
--   Memory: a region of memory, `Buffer`, with the accesses load, store and memcpy. An access out
--   of bounds is `none`.
--   Cobs: cobs_enc_size, cobs_enc and cobs_dec of cobs.c, loop by loop. Cobs/Python: cobs_enc_fn
--   and cobs_dec_fn with the allocated blocks counted. Cobs/Spec: the reference coding on lists.
--   Serial/State, Serial/Ring: the shared fields of SerialManagerObject, ring_push, and the locked
--   part of deliver_batch_to_python (`ring_pop`). Serial/Queue: the queue that the ring refines.
--   Serial/Decode: cobs_decode of mp_serial_ext.c.
--   Serial/Reader: the inner loops of reader_thread_posix and reader_thread_win.
--   Serial/Reader/Stream: what they make of a stream, without buffers and reads.
--   Serial/ReaderThread: reader_thread_posix, round by round.
--   Serial/Deliver: deliver_batch_to_python. Serial/Deliver/Batch: the same on the queue.
--   Serial/EndToEnd: the reader and the delivery, one behind the other.
--   Serial/Writer: try_pop_write and writer_thread_posix, round by round. Serial/Writer/Coalesce:
--   what a batch consists of.
--   Serial/Writer/Thread: the rounds on one queue. Serial/Writer/Win: writer_thread_win.
--   Serial/DeliverThread: deliver_thread_posix, round by round.
--   Serial/Threads, Serial/Threads/Steps: ring_push, deliver_thread_posix, deliver_thread_win,
--   deliver_batch_to_python and SerialManager_shutdown as threads that interleave.
--   Serial/Port: serial_read_posix and the other functions of the port on POSIX systems.
--   Serial/WinPort: serial_read_win, serial_write_win, wait_for_rx_win and open_serial_win, as the
--   calls that they make. Serial/WinThread: reader_thread_win, round by round.
--   Serial/Manager: init, start, is_running, get_perf_stats, shutdown and dealloc of SerialManager
--   on POSIX systems, with the system calls as a list of effects. Any pthread_create may fail, and
--   then leaves an identifier that is 0 or is not; a join with the latter, which is undefined, is
--   an effect of its own. Every other join is taken to return; Serial/Threads shows when it does.
--   Serial/WinManager: the same on Windows. Serial/WinManager/Watch: what the system asks of the
--   calls.
--   Serial/Cpu: the accounting of CPU time that all threads share. Serial/Priority: the threads'
--   clock, and the priority of the reader thread.
--   Log/Object, Log/Python, Log/Cbor: the Python objects, what the log decoder asks of the
--   interpreter, and an item of libcbor as its accessors show it.
--   Log/Field, Log/Symbol, Log/Extract: the parse_c functions with the symbol lookups, and
--   extract_vals_from_frame. Log/Field/Bytes: the bytes that a sender writes for a field.
--   Log/Decode: LogData_decode and LogData_target. Log/Symbol/Choice: the
--   nearest variable, on natural numbers. Log/Symbol/Names: what an address is called.
--   Log/Convert, Log/Spec, Log/Formats, Log/Load: cbor_item_to_pyobject, c_fndecode, process_fmts,
--   and LogData_new and LogData_init. Log/Convert/RoundTrip: the item that encodes an object.
--   Log/WinClock: the clock of LogData_init and LogData_decode on Windows.
--   Log/References: which references cbor_item_to_pyobject (Items), process_fmts (Formats) and
--   LogData_new, LogData_init and LogData_dealloc (Holder) own. Rules, Parts, Steps, Counts and
--   Upon and Leaves: how a step over the ledger ends. Balance, Rows, Five, Table, Members, Life,
--   Fetched and Distinct: the proofs.
--   Tests: runs and the theorems at concrete inputs.
--
-- size_t and uint64_t sums wrap at 2 ^ 64, uint16_t at 2 ^ 16, uint8_t at 256. The long that
-- cobs_dec returns is taken to have 64 bits, as it has not on Windows. A loop that walks a
-- buffer is recursion on the list of the bytes not yet read. `cobs_decode` and the inner reader
-- loop have fuel, the length of their input: each round takes at least one byte, and the theorems
-- about them say that they return. The delivery loop counts its 1024 rounds. serial_read_posix is
-- recursion on the answers of read.
--
-- The lock makes ring_push and ring_pop single steps. Serial/Threads is a step relation: a run
-- is any sequence of steps of the reader thread, of the delivery thread and of the thread in
-- shutdown. A wait on the condition variable ends by a signal that comes while it lasts, or by
-- chance; a wait on the event ends when the event is set, and resets it. Elsewhere each
-- function is run alone: what the system, the interpreter and the other threads answer (select,
-- read, allocation, the volatile flags, the frames pushed during a delivery) is an argument of
-- the model, and so is what uninitialised memory holds.
--
-- In Log the interpreter's text conversions, key comparison and number conversion are a parameter,
-- the record Python, and each function passes the interpreter's error indicator on. A dereference
-- of NULL and an access outside a frame is `fault`. A float is its 64 bits. Memory suffices there,
-- but not in Log/References, where any call may fail; there a ledger names the references owned by
-- the call that gave them, the values are left out, and a release of what is not owned has no
-- result. The references that cbor_array_get gives, which the code owns as well but never gives
-- back, are a number in the ledger.
--
-- Not modelled: counts of references outside Log/References; libcbor, which is a copy of
-- another project's library; the priority on Windows and logging; the interpreter's lock, which
-- the threads take to call Python and shutdown gives up while it joins; when an operation that
-- has been cancelled ends; in Log, the long of Windows; the module tables and the Python files.
pub mod Common
pub mod Memory
pub mod Cobs
pub mod Serial
pub mod Log
mod Tests
