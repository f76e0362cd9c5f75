-- ===== src/Serial/Port/Open.antt =====
-- What open_serial_posix does to the port.
use p.Common.{
  ℕ, ◌≡◌, ◌≢◌, refl, sym, ◌⊎◌, inl, inr, ℕ_discrete, eq→==, ne→==, Bool, true, false, List, [], ◌∷◌,
  Option, none, some,
}
use p.Serial.Port.{
  Speed, b9600, b19200, b38400, b57600, b115200, Line, Termios, PortCall, opens, closes, sets,
  speed_of, set_interface_attribs, open_serial_posix,
}

-- The bits per second of a speed
abbrev pub rate : Speed → ℕ
rate b9600 = 9600
rate b19200 = 19200
rate b38400 = 38400
rate b57600 = 57600
rate b115200 = 115200

-- The speed has this rate, or no speed has and it is that of 115200 bits per second.
abbrev pub RunsAt : ℕ → Speed → Type 0
RunsAt baud s = (rate s ≡ baud) ⊎ ((¬ ((s' : Speed) × (rate s' ≡ baud))) × (rate s ≡ 115200))

-- What cfmakeraw is documented to do to the flow control by XON and XOFF: it clears IXON, and does
-- not touch IXOFF.
pub record IsRaw (make_raw : Termios → Termios) : Type 0 where
  pub ixon : (tty : Termios) → (make_raw tty).ixon ≡ false
  pub ixoff : (tty : Termios) → (make_raw tty).ixoff ≡ tty.ixoff

-- Eight data bits, no parity, one stop bit, no flow control of the output, that of the input by
-- XOFF as the port had it, and reads that do not wait
pub record IsPlain (baud : ℕ) (before tty : Termios) : Type 0 where
  pub ispeed : RunsAt baud tty.ispeed
  pub ospeed : RunsAt baud tty.ospeed
  pub clocal : tty.clocal ≡ true
  pub cread : tty.cread ≡ true
  pub csize : tty.csize ≡ 8
  pub parenb : tty.parenb ≡ false
  pub cstopb : tty.cstopb ≡ false
  pub crtscts : tty.crtscts ≡ false
  pub ixon : tty.ixon ≡ false
  pub ixoff : tty.ixoff ≡ before.ixoff
  pub vtime : tty.vtime ≡ 0
  pub vmin : tty.vmin ≡ 0

-- The descriptor that is open at the end
abbrev pub held : List PortCall → Option ℕ → Option ℕ
held [] fd_open = fd_open
held (opens fd ∷ calls) fd_open = held calls (some fd)
held (closes fd ∷ calls) fd_open = held calls none
held (sets tty ∷ calls) fd_open = held calls fd_open

-- The attributes that are set last, if any are
abbrev pub set_last : List PortCall → Option Termios → Option Termios
set_last [] tty = tty
set_last (sets tty' ∷ calls) tty = set_last calls (some tty')
set_last (call ∷ calls) tty = set_last calls tty

-- The descriptor that is returned is the one that open gave and the one that is open, and its
-- attributes are plain; or none is returned and none is open.
abbrev pub Opens : Option ℕ → Line → ℕ → List PortCall × Option ℕ → Type 0
Opens answer line baud (calls, none) = held calls none ≡ none
Opens answer line baud (calls, some fd) =
    (answer ≡ some fd)
    × (held calls none ≡ some fd)
    × ((before : Termios) × (tty : Termios) × (line.attributes ≡ some before)
        × (set_last calls none ≡ some tty)
        × IsPlain baud before tty)

other_rate :
    (baud : ℕ)
    → baud ≢ 9600
    → baud ≢ 19200
    → baud ≢ 38400
    → baud ≢ 57600
    → baud ≢ 115200
    → (s : Speed) → rate s ≢ baud
other_rate baud a b c d e b9600 h = a (sym h)
other_rate baud a b c d e b19200 h = b (sym h)
other_rate baud a b c d e b38400 h = c (sym h)
other_rate baud a b c d e b57600 h = d (sym h)
other_rate baud a b c d e b115200 h = e (sym h)

speed_of-RunsAt : (baud : ℕ) → RunsAt baud (speed_of baud)
unfolding speed_of
speed_of-RunsAt baud = elim (ℕ_discrete baud 9600) [
  | yes a ↦ rw (eq→== baud 9600 a) (inl (sym a))
  | no a ↦ elim (ℕ_discrete baud 19200) [
    | yes b ↦ rw (ne→== baud 9600 a, eq→== baud 19200 b) (inl (sym b))
    | no b ↦ elim (ℕ_discrete baud 38400) [
      | yes c ↦ rw (ne→== baud 9600 a, ne→== baud 19200 b, eq→== baud 38400 c) (inl (sym c))
      | no c ↦ elim (ℕ_discrete baud 57600) [
        | yes d ↦
            rw (ne→== baud 9600 a, ne→== baud 19200 b, ne→== baud 38400 c, eq→== baud 57600 d)
              (inl (sym d))
        | no d ↦
            rw (ne→== baud 9600 a, ne→== baud 19200 b, ne→== baud 38400 c, ne→== baud 57600 d)
              (elim (ℕ_discrete baud 115200) [
                | yes e ↦ inl (sym e)
                | no e ↦ inr ((λ h. other_rate baud a b c d e h.0 h.1), refl)
              ])
      ]
    ]
  ]
]

abbrev line_of : Option Termios → (Termios → Termios) → Bool → Line
line_of attributes raw ok = record { attributes = attributes; make_raw = raw; set_ok = ok }

with_line :
    (fd : ℕ) (attributes : Option Termios) (raw : Termios → Termios) (ok : Bool) (baud : ℕ)
    → IsRaw raw
    → Opens
        (some fd)
        (line_of attributes raw ok)
        baud
        (open_serial_posix (some fd) (line_of attributes raw ok) baud)
unfolding open_serial_posix set_interface_attribs
with_line fd none raw ok baud h = refl
with_line fd (some tty) raw false baud h = refl
with_line fd (some tty) raw true baud h = (
  refl,
  refl,
  (
    tty,
    _,
    refl,
    refl,
    record {
      ispeed = speed_of-RunsAt baud;
      ospeed = speed_of-RunsAt baud;
      clocal = refl;
      cread = refl;
      csize = refl;
      parenb = refl;
      cstopb = refl;
      crtscts = refl;
      ixon = h.ixon tty;
      ixoff = h.ixoff tty;
      vtime = refl;
      vmin = refl;
    },
  ),
)

-- If cfmakeraw clears IXON and leaves IXOFF, as it is documented to: when open_serial_posix
-- returns a descriptor, it is the one that open gave, it is open, and the attributes set last
-- are eight data bits, no parity, one stop bit, no flow control of the output by RTS and CTS or
-- by XON and XOFF, IXOFF as it was, reads that do not wait, a receiver that is enabled and modem
-- lines that are ignored, at a speed of as many bits per second as the baud rate says, or of
-- 115200 if there is no such speed; when it returns -1, no descriptor is open.
pub open_serial_posix-Opens :
    (answer : Option ℕ) (line : Line) (baud : ℕ)
    → IsRaw line.make_raw
    → Opens answer line baud (open_serial_posix answer line baud)
unfolding open_serial_posix
open_serial_posix-Opens none line baud h = refl
open_serial_posix-Opens (some fd) line baud h =
    with_line fd line.attributes line.make_raw line.set_ok baud h
