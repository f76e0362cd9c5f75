-- ===== src/Log/Python.antt =====
-- What the log decoder asks of the Python interpreter. The conversions to text, the comparison of
-- keys and the conversions of numbers are parameters. Memory is taken to suffice.
use p.Common.{
  ℕ, Bool, true, false, List, Option, none, some, if◌then◌else◌, ℤ, pos, negsuc, fits_long,
}
use p.Log.Object.{Text, Object, bool_obj, int_obj, str_obj, dict_obj, Items, Entries, end, entry}

-- The exceptions by their cause.
pub data Exc : Type 0 where
  missing_int32 missing_uint32 missing_int64 missing_uint64 : Exc
  missing_double missing_pointer missing_string : Exc
  unknown_spec unknown_type invalid_identifier : Exc
  frame_not_bytes parsers_not_list : Exc
  unsupported_cbor bad_arguments no_saddr no_clock no_frequency io_failed no_memory : Exc
  bad_utf8 unhashable not_a_number not_text too_large no_format : Exc

-- A C function ends with a value and the interpreter's error indicator, or it dereferences NULL or
-- does something else that C leaves undefined.
pub data Result (A : Type 0) : Type 0 where
  fault : Result A
  ends : A → Option Exc → Result A

abbrev pub C : Type 0 → Type 0
C A = Option Exc → Result A

infixl 5 ◌>>=◌ ◌>>◌
abbrev pub ◌>>=◌ : {A B : Type 0} → C A → (A → C B) → C B
◌>>=◌ m f e = elim (m e) [ fault ↦ fault | ends a e' ↦ f a e' ]

abbrev pub ◌>>◌ : {A B : Type 0} → C A → C B → C B
m >> k = m >>= λ _. k

module _ {A : Type 0} where
  abbrev pub ret : A → C A
  ret a e = ends a e

  abbrev pub crash : C A
  crash e = fault

  -- PyErr_SetString, and the value that is returned behind it.
  abbrev pub raising : Exc → A → C A
  raising x a e = ends a (some x)

  -- A dereference of a pointer that may be NULL.
  abbrev pub deref : Option A → C A
  deref none = crash
  deref (some a) = ret a

-- PyErr_Occurred and PyErr_Clear
abbrev pub occurred : C Bool
occurred none = ends false none
occurred (some x) = ends true (some x)

abbrev pub clear : C (Unit {0})
clear e = ends tt none

pub record Python : Type 0 where
  -- %S, %R and the digits of %x, %lX, %08x, %d and of bytes.hex()
  pub str_of : Object → Text
  pub repr_of : Object → Text
  pub hex : ℕ → Text
  pub upper_hex : ℤ → Text
  pub hex8 : ℕ → Text
  pub decimal : ℤ → Text
  -- The text of the UTF-8 bytes, if they are valid
  pub utf8 : List ℕ → Option Text
  -- PyObject_CallMethod(frame, "hex"): NULL if it raises; it may be called with an exception set
  pub call_hex : Object → Option Exc → Option Text × Option Exc
  -- PyUnicode_Format and PyNumber_Long, or none if they raise
  pub percent : Object → Items → Option Text
  pub number_long : Object → Option ℤ
  -- Whether two hashable keys are equal
  pub same_key : Object → Object → Bool

-- PyLong_AsLong: -1 with an exception set if there is no such long. A bool is an int.
unfoldable pub as_long : Object → C ℤ
as_long (int_obj z) = if fits_long z then ret z else raising too_large (negsuc 0)
as_long (bool_obj true) = ret (pos 1)
as_long (bool_obj false) = ret (pos 0)
as_long _ = raising not_a_number (negsuc 0)

-- The entries of a dict that is not NULL; PyDict_Next and PyDict_GetItem find nothing in an object
-- of another type.
unfoldable pub entries_of : Option Object → C Entries
entries_of none = crash
entries_of (some (dict_obj es)) = ret es
entries_of (some _) = ret end

-- PyDict_GetItem on the entries
unfoldable pub get_item : Python → Entries → Object → Option Object
get_item py end key = none
get_item py (entry k v es) key = if py.same_key k key then some v else get_item py es key

-- PyUnicode_FromStringAndSize
unfoldable pub unicode_of : Python → List ℕ → C (Option Object)
unicode_of py xs = elim (py.utf8 xs) [
  | none ↦ raising bad_utf8 none
  | some t ↦ ret (some (str_obj t))
]

-- What the caller of a method sees: a value returned with an exception set, or NULL without one,
-- is a SystemError of the interpreter's.
pub data Outcome : Type 0 where
  returns : Object → Outcome
  raises : Exc → Outcome
  system_error crashes : Outcome

unfoldable pub outcome : Result (Option Object) → Outcome
outcome fault = crashes
outcome (ends (some v) none) = returns v
outcome (ends (some v) (some x)) = system_error
outcome (ends none (some x)) = raises x
outcome (ends none none) = system_error
