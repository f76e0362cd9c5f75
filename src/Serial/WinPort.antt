-- ===== src/Serial/WinPort.antt =====
-- The port on Windows: serial_write_win, serial_read_win, wait_for_rx_win and open_serial_win of
-- mp_serial_ext.c, as the calls that they make and what they return. What the system answers is an
-- argument.
pub mod Events
pub mod Open
use p.Common.{
  ℕ, ◌+◌, ◌%◌, ◌^◌, Bool, true, false, List, [], ◌∷◌, ◌++◌, Option, none, some, ltb, ◌==◌,
  if◌then◌else◌, ℤ, pos, negsuc, min, take, length,
}
use p.Serial.Port.{int_of}

-- The calls that matter to events and to operations in progress. `issues` is ReadFile, WriteFile or
-- WaitCommEvent with the event.
pub data WinCall : Type 0 where
  clear_error create_event close_event issues cancels result_waits result_polls sets_mask : WinCall
  waits : ℕ → WinCall

-- GetOverlappedResult, or none where it fails
abbrev Done : Type 0
Done = Option ℕ

-- ReadFile or WriteFile: it succeeds at once, and GetOverlappedResult answers; it is pending, and
-- the wait ends in time or not; it is aborted; or it fails otherwise.
pub data Issue : Type 0 where
  at_once : Option ℕ → Issue
  pending_done : Option ℕ → Issue
  pending_late aborted failed : Issue

-- What GetOverlappedResult makes of the return value, behind these calls
abbrev overlapped : List WinCall → Option ℕ → List WinCall × ℤ
overlapped calls none = (calls ++ (close_event ∷ []), negsuc 0)
overlapped calls (some n) = (calls ++ (close_event ∷ []), int_of n)

-- `event` is whether CreateEvent succeeds. CancelIo, where CancelIoEx fails, is the same call here.
pub serial_write_win : Bool → Issue → List WinCall × ℤ
serial_write_win false issue = ([], negsuc 0)
serial_write_win true (at_once r) = overlapped (create_event ∷ issues ∷ result_waits ∷ []) r
serial_write_win true (pending_done r) =
    overlapped (create_event ∷ issues ∷ waits 2000 ∷ result_polls ∷ []) r
serial_write_win true pending_late =
    (create_event ∷ issues ∷ waits 2000 ∷ cancels ∷ clear_error ∷ close_event ∷ [], pos 0)
serial_write_win true aborted = (create_event ∷ issues ∷ close_event ∷ [], negsuc 0)
serial_write_win true failed = (create_event ∷ issues ∷ close_event ∷ [], negsuc 0)

-- The number of bytes that ReadFile is asked for
unfoldable pub to_read : ℕ → ℕ → ℕ
to_read queued cap = if ltb cap queued then cap % 2 ^ 32 else queued

abbrev read_issue : Issue → List WinCall × ℤ
read_issue (at_once r) = overlapped (clear_error ∷ create_event ∷ issues ∷ result_waits ∷ []) r
read_issue (pending_done r) =
    overlapped (clear_error ∷ create_event ∷ issues ∷ waits 3 ∷ result_polls ∷ []) r
read_issue pending_late = (
  clear_error ∷ create_event ∷ issues ∷ waits 3 ∷ cancels ∷ clear_error ∷ close_event ∷ [],
  pos 0,
)
read_issue aborted = (clear_error ∷ create_event ∷ issues ∷ close_event ∷ [], pos 0)
read_issue failed = (clear_error ∷ create_event ∷ issues ∷ close_event ∷ [], negsuc 0)

-- `queued` is st.cbInQue, and `issue` answers ReadFile by the number of bytes asked for.
pub serial_read_win : ℕ → Bool → (ℕ → Issue) → ℕ → List WinCall × ℤ
unfolding to_read
serial_read_win queued event issue cap =
    if queued == 0 then (clear_error ∷ [], pos 0) else elim event [
      | false ↦ (clear_error ∷ [], negsuc 0)
      | true ↦ read_issue (issue (to_read queued cap))
    ]

-- WaitCommEvent: it succeeds at once; it is pending, and the wait ends in time or not; it fails
-- with ERROR_INVALID_PARAMETER, with ERROR_OPERATION_ABORTED, or otherwise.
pub data CommEvent : Type 0 where
  fired pending_fired pending_none unsupported aborted_wait failed_wait : CommEvent

abbrev waited : ℕ → CommEvent → List WinCall × ℤ
waited timeout fired = (create_event ∷ sets_mask ∷ issues ∷ close_event ∷ [], pos 1)
waited timeout pending_fired =
    (create_event ∷ sets_mask ∷ issues ∷ waits timeout ∷ close_event ∷ [], pos 1)
waited timeout pending_none = (
  create_event ∷ sets_mask ∷ issues ∷ waits timeout ∷ cancels ∷ clear_error ∷ close_event ∷ [],
  pos 0,
)
waited timeout unsupported = (create_event ∷ sets_mask ∷ issues ∷ close_event ∷ [], pos 0)
waited timeout aborted_wait = (create_event ∷ sets_mask ∷ issues ∷ close_event ∷ [], pos 0)
waited timeout failed_wait = (create_event ∷ sets_mask ∷ issues ∷ close_event ∷ [], negsuc 0)

-- CreateEvent and SetCommMask succeed or not.
pub wait_for_rx_win : Bool → Bool → CommEvent → ℕ → List WinCall × ℤ
wait_for_rx_win false mask event timeout = ([], negsuc 0)
wait_for_rx_win true false event timeout = (create_event ∷ sets_mask ∷ close_event ∷ [], negsuc 0)
wait_for_rx_win true true event timeout = waited timeout event
