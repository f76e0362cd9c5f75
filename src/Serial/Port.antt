-- ===== src/Serial/Port.antt =====
-- The port on POSIX systems: set_interface_attribs, open_serial_posix, serial_write_posix,
-- serial_read_posix, bytes_available_posix and close_serial_posix of mp_serial_ext.c. What the
-- system answers is an argument.
pub mod Drain
pub mod Open
use p.Common.{
  ℕ, suc, ◌+◌, ◌%◌, ◌^◌, Bool, true, false, List, [], ◌∷◌, ◌++◌, Option, none, some, leb, ◌==◌,
  if◌then◌else◌, ◌>>=◌, length, ℤ, pos, negsuc, to_signed, to_word, ltb_ℤ,
}
use p.Memory.{Buffer, copy_in}

-- (int)n
abbrev pub int_of : ℕ → ℤ
int_of n = to_signed 32 (n % 2 ^ 32)

-- What one call of read answers: at least one byte, 0, or -1 with EINTR, with EAGAIN or
-- EWOULDBLOCK, or with another error.
pub data Read : Type 0 where
  got : ℕ → List ℕ → Read
  end_of_file interrupted would_block broken : Read

-- The loop returns, or it waits for the next answer with `total` bytes in the buffer.
pub data Drained : Type 0 where
  returned : ℤ → Buffer → Drained
  waiting : ℕ → Buffer → Drained

unfoldable pub drain : List Read → ℕ → ℕ → Buffer → Option Drained
drain [] cap total buf = some (waiting total buf)
drain (got x xs ∷ rs) cap total buf = copy_in buf total (x ∷ xs) >>= λ b.
    elim (leb cap (total + suc (length xs))) [
      | true ↦ some (returned (int_of (total + suc (length xs))) b)
      | false ↦ drain rs cap (total + suc (length xs)) b
    ]
drain (end_of_file ∷ rs) cap total buf = some (returned (int_of total) buf)
drain (interrupted ∷ rs) cap total buf = drain rs cap total buf
drain (would_block ∷ rs) cap total buf = some (returned (int_of total) buf)
drain (broken ∷ rs) cap total buf = some (returned (negsuc 0) buf)

unfoldable pub serial_read_posix : List Read → ℕ → Buffer → Option Drained
serial_read_posix answers cap buf =
    if cap == 0 then some (returned (pos 0) buf) else drain answers cap 0 buf

-- What write answers is none where it is negative.
unfoldable pub serial_write_posix : Option ℕ → ℤ
serial_write_posix none = negsuc 0
serial_write_posix (some w) = int_of w

-- Whether the ioctl succeeds, and what it leaves in `avail`.
unfoldable pub bytes_available_posix : Bool → ℤ → ℤ
bytes_available_posix false avail = pos 0
bytes_available_posix true avail = if ltb_ℤ (pos 0) avail then avail else pos 0

pub data Speed : Type 0 where
  b9600 b19200 b38400 b57600 b115200 : Speed

unfoldable pub speed_of : ℕ → Speed
speed_of speed =
    if speed == 9600
    then b9600
    else if speed == 19200
    then b19200
    else if speed == 38400
    then b38400
    else if speed == 57600
    then b57600
    else b115200

-- The fields of termios that are set here: the flags of c_cflag, where csize is the number of data
-- bits, VTIME and VMIN; and IXON and IXOFF of c_iflag, which stay, as the others do, what
-- cfmakeraw leaves.
pub record Termios : Type 0 where
  pub ispeed : Speed
  pub ospeed : Speed
  pub clocal : Bool
  pub cread : Bool
  pub csize : ℕ
  pub parenb : Bool
  pub cstopb : Bool
  pub crtscts : Bool
  pub ixon : Bool
  pub ixoff : Bool
  pub vtime : ℕ
  pub vmin : ℕ

-- What tcgetattr gives, if it succeeds, cfmakeraw, and whether tcsetattr succeeds.
pub record Line : Type 0 where
  pub attributes : Option Termios
  pub make_raw : Termios → Termios
  pub set_ok : Bool

-- The attributes that are given to tcsetattr, and the result 0 or -1.
pub set_interface_attribs : Line → ℕ → Option Termios × ℤ
set_interface_attribs line speed = elim line.attributes [
  | none ↦ (none, negsuc 0)
  | some tty ↦
      let tty' = record (line.make_raw tty) {
        ispeed = speed_of speed;
        ospeed = speed_of speed;
        clocal = true;
        cread = true;
        csize = 8;
        parenb = false;
        cstopb = false;
        crtscts = false;
        vtime = 0;
        vmin = 0;
      } in
      (some tty', if line.set_ok then pos 0 else negsuc 0)
]

pub data PortCall : Type 0 where
  opens closes : ℕ → PortCall
  sets : Termios → PortCall

abbrev set_call : Option Termios → List PortCall
set_call none = []
set_call (some tty) = sets tty ∷ []

-- What open answers is none where it is negative.
pub open_serial_posix : Option ℕ → Line → ℕ → List PortCall × Option ℕ
unfolding set_interface_attribs
open_serial_posix none line baud = ([], none)
open_serial_posix (some fd) line baud =
    let r = set_interface_attribs line baud in
    elim (r.1) [
      | pos n ↦ (opens fd ∷ set_call r.0, some fd)
      | negsuc n ↦ (opens fd ∷ (set_call r.0 ++ (closes fd ∷ [])), none)
    ]

unfoldable pub close_serial_posix : Option ℕ → List PortCall
close_serial_posix none = []
close_serial_posix (some fd) = closes fd ∷ []
