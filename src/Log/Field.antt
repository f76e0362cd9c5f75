-- ===== src/Log/Field.antt =====
-- The parsers of single values: what stands at the pointer `*b`, with `*len` bytes of the frame
-- left, is the list of these bytes.
pub mod Bytes
use p.Common.{
  ℕ, zero, suc, ◌+◌, ◌*◌, ◌^◌, List, [], ◌∷◌, Option, none, some, ltb, leb, ◌==◌, if◌then◌else◌,
  length, take, drop, ℤ, pos, to_signed,
}
use p.Log.Object.{Object, int_obj, float_obj, bytes_obj}
use p.Log.Python.{
  missing_int32, missing_uint32, missing_int64, missing_uint64, missing_double, missing_pointer,
  missing_string, C, ◌>>=◌, ret, crash, raising, Python, unicode_of,
}

-- The value, or none for NULL, and the bytes left.
abbrev pub Parsed : Type 0
Parsed = Option Object × List ℕ

-- b[i], which is undefined behind the frame
abbrev pub at : List ℕ → ℕ → C ℕ
at [] i = crash
at (x ∷ xs) zero = ret x
at (x ∷ xs) (suc i) = at xs i

-- The bytes are below 256, so that | is +.
unfoldable pub unpack_le_uint32 : List ℕ → C ℕ
unpack_le_uint32 b = do
  b0 ← at b 0
  b1 ← at b 1
  b2 ← at b 2
  b3 ← at b 3
  ret (b0 + b1 * 2 ^ 8 + b2 * 2 ^ 16 + b3 * 2 ^ 24)

unfoldable pub unpack_le_int32 : List ℕ → C ℤ
unfolding unpack_le_uint32
unpack_le_int32 b = do n ← unpack_le_uint32 b; ret (to_signed 32 n)

unfoldable pub unpack_le_uint64 : List ℕ → C ℕ
unpack_le_uint64 b = do
  b0 ← at b 0
  b1 ← at b 1
  b2 ← at b 2
  b3 ← at b 3
  b4 ← at b 4
  b5 ← at b 5
  b6 ← at b 6
  b7 ← at b 7
  ret (
      b0
      + b1 * 2 ^ 8
      + b2 * 2 ^ 16
      + b3 * 2 ^ 24
      + b4 * 2 ^ 32
      + b5 * 2 ^ 40
      + b6 * 2 ^ 48
      + b7 * 2 ^ 56)

unfoldable pub unpack_le_int64 : List ℕ → C ℤ
unfolding unpack_le_uint64
unpack_le_int64 b = do n ← unpack_le_uint64 b; ret (to_signed 64 n)

-- The bits of the double, on a little-endian machine
unfoldable pub unpack_le_double : List ℕ → C ℕ
unfolding unpack_le_uint64
unpack_le_double b = unpack_le_uint64 b

unfoldable pub parse_c_int32 : List ℕ → C Parsed
unfolding unpack_le_int32
parse_c_int32 b =
    if ltb (length b) 4
    then raising missing_int32 (none, b)
    else do val ← unpack_le_int32 b; ret (some (int_obj val), drop 4 b)

unfoldable pub parse_c_uint32 : List ℕ → C Parsed
unfolding unpack_le_uint32
parse_c_uint32 b =
    if ltb (length b) 4
    then raising missing_uint32 (none, b)
    else do val ← unpack_le_uint32 b; ret (some (int_obj (pos val)), drop 4 b)

unfoldable pub parse_c_int64 : List ℕ → C Parsed
unfolding unpack_le_int64
parse_c_int64 b =
    if ltb (length b) 8
    then raising missing_int64 (none, b)
    else do val ← unpack_le_int64 b; ret (some (int_obj val), drop 8 b)

unfoldable pub parse_c_uint64 : List ℕ → C Parsed
unfolding unpack_le_uint64
parse_c_uint64 b =
    if ltb (length b) 8
    then raising missing_uint64 (none, b)
    else do val ← unpack_le_uint64 b; ret (some (int_obj (pos val)), drop 8 b)

unfoldable pub parse_c_double : List ℕ → C Parsed
unfolding unpack_le_double
parse_c_double b =
    if ltb (length b) 8
    then raising missing_double (none, b)
    else do val ← unpack_le_double b; ret (some (float_obj val), drop 8 b)

unfoldable pub parse_c_pointer : List ℕ → C Parsed
unfolding unpack_le_uint32
parse_c_pointer b =
    if ltb (length b) 4
    then raising missing_pointer (none, b)
    else do val ← unpack_le_uint32 b; ret (some (int_obj (pos val)), drop 4 b)

-- All that is left
unfoldable pub parse_c_bytes : List ℕ → C Parsed
parse_c_bytes b = ret (some (bytes_obj b), [])

-- strnlen(b, length b)
unfoldable pub strnlen : List ℕ → ℕ
strnlen [] = 0
strnlen (x ∷ xs) = let rest = suc (strnlen xs) in if x == 0 then 0 else rest

-- The pointer moves on also where the bytes are no text.
unfoldable pub parse_c_string : Python → List ℕ → C Parsed
unfolding strnlen unicode_of
parse_c_string py b =
    let str_len = strnlen b in
    if leb (length b) str_len
    then raising missing_string (none, b)
    else do val ← unicode_of py (take str_len b); ret (val, drop (str_len + 1) b)
