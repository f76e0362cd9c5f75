-- ===== src/Cobs/Python.antt =====
-- The functions `enc` and `dec` that the extension module gives to Python. The interpreter is a
-- parameter: what PyMem_Malloc returns, and whether PyBytes_FromStringAndSize gets its memory.
pub mod Encoding
pub mod Decoding
use p.Common.{
  ℕ, ◌+◌, ◌-◌, Bool, true, false, List, Option, none, some, ◌==◌, if◌then◌else◌, ◌>>=◌, length,
}
use p.Memory.{Buffer, copy_out}
use p.Cobs.{
  DecError, DecResult, decoded, failed, contains_zero, insufficient, cobs_enc_size, cobs_enc,
  cobs_dec,
}

pub record Interpreter : Type 0 where
  -- The content of the block that PyMem_Malloc returns, or none if it returns NULL.
  pub block : Option (ℕ → ℕ)
  pub bytes_ok : Bool

pub data PyError : Type 0 where
  type_error memory_error : PyError
  cobs_error : DecError → PyError

pub data PyResult : Type 0 where
  value : List ℕ → PyResult
  raises : PyError → PyResult

-- PyMem_Malloc(0) returns a block as PyMem_Malloc(1) does.
pub malloc : Interpreter → ℕ → Option Buffer
malloc py n = elim py.block [
  | none ↦ none
  | some content ↦ some (record { size = if n == 0 then 1 else n; cell = content })
]

-- PyBytes_FromStringAndSize
pub bytes_of : Interpreter → List ℕ → PyResult
bytes_of py xs = if py.bytes_ok then value xs else raises memory_error

-- `args` is none if PyArg_ParseTuple refuses the arguments. The number counts the blocks that are
-- allocated and not freed, before the call and after it; the outer none is a fault.
pub cobs_enc_fn : Interpreter → Option (List ℕ) → ℕ → Option (PyResult × ℕ)
unfolding malloc bytes_of
cobs_enc_fn py none live = some (raises type_error, live)
cobs_enc_fn py (some src) live = elim (malloc py (cobs_enc_size (length src))) [
  | none ↦ some (raises memory_error, live)
  | some out ↦
      cobs_enc out src >>= λ r. copy_out r.0 0 r.1 >>= λ xs. some (bytes_of py xs, live + 1 - 1)
]

-- The error branches return without PyMem_Free.
dec_reply : Interpreter → ℕ → Buffer → DecResult → Option (PyResult × ℕ)
unfolding bytes_of
dec_reply py live out (decoded n) = copy_out out 0 n >>= λ xs. some (bytes_of py xs, live - 1)
dec_reply py live out (failed e) = some (raises (cobs_error e), live)

pub cobs_dec_fn : Interpreter → Option (List ℕ) → ℕ → Option (PyResult × ℕ)
unfolding malloc dec_reply
cobs_dec_fn py none live = some (raises type_error, live)
cobs_dec_fn py (some src) live = elim (malloc py (length src)) [
  | none ↦ some (raises memory_error, live)
  | some out ↦ cobs_dec out src >>= λ r. dec_reply py (live + 1) r.0 r.1
]
