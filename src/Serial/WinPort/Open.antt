-- ===== src/Serial/WinPort/Open.antt =====
-- open_serial_win and close_serial_win: how the port is opened on Windows.
use p.Common.{
  ℕ, ◌≡◌, refl, Bool, true, false, Bool-cases, List, [], ◌∷◌, Option, none, some, ◌==◌, ◌&&◌,
  if◌then◌else◌, take, inl, inr, Option-cases,
}

-- What is set of the device control block; the rest is as GetCommState gives it.
pub record Dcb : Type 0 where
  pub f_binary : Bool
  pub f_abort_on_error : Bool
  pub baud_rate : ℕ
  pub byte_size : ℕ
  pub parity : Bool
  pub two_stop_bits : Bool
  pub f_outx_cts_flow : Bool
  pub f_outx_dsr_flow : Bool
  pub f_out_x : Bool
  pub f_in_x : Bool
  pub dtr_enabled : Bool
  pub rts_enabled : Bool

pub data OpenCall : Type 0 where
  create_file : List ℕ → OpenCall
  close_handle setup_comm purge_comm : OpenCall
  set_comm_state : Dcb → OpenCall
  set_comm_timeouts set_comm_mask clear_comm_error set_rts set_dtr clear_dtr sleep_10 : OpenCall

-- What the system answers: the handle, or none for INVALID_HANDLE_VALUE; the block of
-- GetCommState; and whether the three calls that set something succeed.
pub record OpenAnswers : Type 0 where
  pub handle : Option ℕ
  pub state : Option Dcb
  pub state_set : Bool
  pub timeouts_set : Bool
  pub mask_set : Bool

-- strncmp(port, "\\\\.\\", 4) == 0
pub has_prefix : List ℕ → Bool
has_prefix (a ∷ b ∷ c ∷ d ∷ port) = (a == 92) && (b == 92) && (c == 46) && (d == 92)
has_prefix _ = false

-- The text that fits a buffer of 256 bytes with its zero
unfoldable pub device_name : List ℕ → List ℕ
unfolding has_prefix
device_name port = if has_prefix port then take 255 port else take 255 (92 ∷ 92 ∷ 46 ∷ 92 ∷ port)

pub configured : Dcb → ℕ → Dcb
configured dcb baud = record dcb {
  f_binary = true;
  f_abort_on_error = false;
  baud_rate = baud;
  byte_size = 8;
  parity = false;
  two_stop_bits = false;
  f_outx_cts_flow = false;
  f_outx_dsr_flow = false;
  f_out_x = false;
  f_in_x = false;
  dtr_enabled = true;
  rts_enabled = true;
}

-- The calls behind SetCommState, and whether they end well; then the handle is closed, or the
-- lines are set.
abbrev behind_state : Bool → Bool → List OpenCall × Bool
behind_state false mask = (set_comm_timeouts ∷ close_handle ∷ [], false)
behind_state true false = (set_comm_timeouts ∷ set_comm_mask ∷ close_handle ∷ [], false)
behind_state true true = (
  set_comm_timeouts ∷ set_comm_mask ∷ clear_comm_error ∷ set_rts ∷ set_dtr ∷ clear_dtr ∷ sleep_10
      ∷ set_dtr ∷ [],
  true,
)

abbrev with_state : Option Dcb → ℕ → OpenAnswers → List OpenCall × Bool
with_state none baud a = (close_handle ∷ [], false)
with_state (some dcb) baud a =
    let state = set_comm_state (configured dcb baud) in
    elim a.state_set [
      | false ↦ (state ∷ close_handle ∷ [], false)
      | true ↦ let r = behind_state a.timeouts_set a.mask_set in (state ∷ r.0, r.1)
    ]

pub open_serial_win : List ℕ → ℕ → OpenAnswers → List OpenCall × Option ℕ
unfolding configured
open_serial_win port baud a = elim a.handle [
  | none ↦ (create_file (device_name port) ∷ [], none)
  | some h ↦
      let r = with_state a.state baud a in
      (create_file (device_name port) ∷ setup_comm ∷ purge_comm ∷ r.0, if r.1 then some h else none)
]

-- Eight data bits, no parity, one stop bit, no flow control, both lines enabled
pub record IsPlain (baud : ℕ) (dcb : Dcb) : Type 0 where
  pub baud_rate : dcb.baud_rate ≡ baud
  pub byte_size : dcb.byte_size ≡ 8
  pub parity : dcb.parity ≡ false
  pub two_stop_bits : dcb.two_stop_bits ≡ false
  pub f_outx_cts_flow : dcb.f_outx_cts_flow ≡ false
  pub f_outx_dsr_flow : dcb.f_outx_dsr_flow ≡ false
  pub f_out_x : dcb.f_out_x ≡ false
  pub f_in_x : dcb.f_in_x ≡ false
  pub dtr_enabled : dcb.dtr_enabled ≡ true
  pub rts_enabled : dcb.rts_enabled ≡ true

-- What is left of the calls: whether the handle is closed, the block set last, and the state of
-- the lines DTR and RTS
pub record Device : Type 0 where
  pub closed : Bool
  pub dcb : Option Dcb
  pub dtr : Bool
  pub rts : Bool

abbrev pub device_after : List OpenCall → Device → Device
device_after [] d = d
device_after (close_handle ∷ cs) d = device_after cs (record d { closed = true })
device_after (set_comm_state dcb ∷ cs) d = device_after cs (record d { dcb = some dcb })
device_after (set_dtr ∷ cs) d = device_after cs (record d { dtr = true })
device_after (set_rts ∷ cs) d = device_after cs (record d { rts = true })
device_after (clear_dtr ∷ cs) d = device_after cs (record d { dtr = false })
device_after (c ∷ cs) d = device_after cs d

abbrev pub unopened : Device
unopened = record { closed = false; dcb = none; dtr = false; rts = false }

-- A handle that is not returned is closed; what is returned is the handle that was given, it is
-- open, and its device set up.
abbrev pub IsOpened : ℕ → ℕ → Option ℕ → Device → Type 0
IsOpened baud given none d = d.closed ≡ true
IsOpened baud given (some h) d =
    (h ≡ given)
    × (d.closed ≡ false)
    × (d.dtr ≡ true)
    × (d.rts ≡ true)
    × ((dcb : Dcb) × (d.dcb ≡ some dcb) × IsPlain baud dcb)

-- If CreateFile gives a handle, open_serial_win either closes it and returns none, or returns
-- this handle open with DTR and RTS set, and the control block set last has the baud rate, eight
-- data bits, no parity, one stop bit, no flow control by CTS, DSR or XON and XOFF, and DTR and
-- RTS enabled rather than used for flow control.
pub open_serial_win-IsOpened :
    (port : List ℕ) (baud h : ℕ) (a : OpenAnswers)
    → a.handle ≡ some h
    → IsOpened baud h
        ((open_serial_win port baud a).1)
        (device_after ((open_serial_win port baud a).0) unopened)
unfolding open_serial_win configured
open_serial_win-IsOpened port baud h a there = elim (Option-cases a.state) [
  | inl no_state ↦ rw (open_serial_win, there, no_state) refl
  | inr (dcb, state) ↦ elim (Bool-cases a.state_set) [
    | inr refused ↦ rw (open_serial_win, there, state, refused) refl
    | inl ok ↦ elim (Bool-cases a.timeouts_set) [
      | inr refused ↦ rw (open_serial_win, there, state, ok, refused) refl
      | inl ok' ↦ elim (Bool-cases a.mask_set) [
        | inr refused ↦ rw (open_serial_win, there, state, ok, ok', refused) refl
        | inl ok'' ↦
            rw (open_serial_win, there, state, ok, ok', ok'')
              (
                refl,
                refl,
                refl,
                refl,
                (
                  _,
                  refl,
                  record {
                    baud_rate = refl;
                    byte_size = refl;
                    parity = refl;
                    two_stop_bits = refl;
                    f_outx_cts_flow = refl;
                    f_outx_dsr_flow = refl;
                    f_out_x = refl;
                    f_in_x = refl;
                    dtr_enabled = refl;
                    rts_enabled = refl;
                  },
                ),
              )
      ]
    ]
  ]
]
