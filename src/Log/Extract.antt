-- ===== src/Log/Extract.antt =====
-- `extract_vals_from_frame`: the values of a frame by a list of parser identifiers.
pub mod RoundTrip
pub mod Told
use p.Common.{ℕ, suc, List, ◌++◌, Option, none, some, ltb, if◌then◌else◌, length, pos, codes}
use p.Log.Object.{Text, Object, bool_obj, int_obj, bytes_obj, list_obj, tuple_obj, Items, nil, cons}
use p.Log.Python.{
  unknown_type, invalid_identifier, frame_not_bytes, parsers_not_list, C, ◌>>=◌, ret, crash,
  raising, Python, as_long,
}
use p.Log.Field.{
  Parsed, parse_c_int32, parse_c_uint32, parse_c_int64, parse_c_uint64, parse_c_double,
  parse_c_pointer, parse_c_bytes, parse_c_string,
}
use p.Log.Data.{
  LogData, ParserType, parser_unknown, parser_int32, parser_uint32, parser_int64, parser_uint64,
  parser_double, parser_pointer, parser_bytes, parser_string, parser_sym, parser_enum, parser_type,
}
use p.Log.Symbol.{parse_c_sym, parse_c_enum}

-- The switch on the type
unfoldable pub parse_field : Python → LogData → ParserType → Option Object → List ℕ → C Parsed
parse_field py s parser_int32 extra b = parse_c_int32 b
parse_field py s parser_uint32 extra b = parse_c_uint32 b
parse_field py s parser_int64 extra b = parse_c_int64 b
parse_field py s parser_uint64 extra b = parse_c_uint64 b
parse_field py s parser_double extra b = parse_c_double b
parse_field py s parser_pointer extra b = parse_c_pointer b
parse_field py s parser_bytes extra b = parse_c_bytes b
parse_field py s parser_string extra b = parse_c_string py b
parse_field py s parser_sym extra b = parse_c_sym py s b
parse_field py s parser_enum extra b = parse_c_enum py s extra b
parse_field py s parser_unknown extra b = raising unknown_type (none, b)

-- A parser identifier: an int, or a pair of an int and an argument; none for any other object.
unfoldable pub identify : Object → C (Option (ParserType × Option Object))
identify (int_obj z) = do n ← as_long (int_obj z); ret (some (parser_type n, none))
identify (bool_obj x) = do n ← as_long (bool_obj x); ret (some (parser_type n, none))
identify (tuple_obj (cons id (cons extra nil))) = do
  n ← as_long id
  ret (some (parser_type n, some extra))
identify _ = raising invalid_identifier none

-- How the loop ends: with the return of NULL, at a field that gives no value, or with all values
-- and the bytes that are left.
pub data Extracted : Type 0 where
  invalid : Extracted
  failed_field : ℕ → Extracted
  extracted : Items → List ℕ → Extracted

abbrev pub with_value : Object → Extracted → Extracted
with_value v (extracted vals rest) = extracted (cons v vals) rest
with_value v e = e

-- A field's value, and what the loop behind it does
abbrev pub with_field : ℕ → Option Object → C Extracted → C Extracted
with_field i none next = ret (failed_field i)
with_field i (some v) next = do found ← next; ret (with_value v found)

-- The loop from field `i` on
unfoldable pub extract_loop : Python → LogData → ℕ → Items → List ℕ → C Extracted
extract_loop py s i nil b = ret (extracted nil b)
extract_loop py s i (cons id ids) b = do
  parser ← identify id
  elim parser [
    | none ↦ ret invalid
    | some (p_type, p_extra) ↦ do
      (val, rest) ← parse_field py s p_type p_extra b
      with_field i val (extract_loop py s (suc i) ids rest)
  ]

-- The pair that the function returns: values, or an error text. None is NULL.
pub data ValsAndError : Type 0 where
  vals : Items → ValsAndError
  no_vals : Text → ValsAndError

-- PyObject_CallMethod(remaining_bytes, "hex"), whose NULL would be dereferenced
abbrev pub hex_text : Python → Object → C Text
hex_text py frame e = elim ((py.call_hex frame e).0) [
  | none ↦ crash (py.call_hex frame e).1
  | some t ↦ ret t (py.call_hex frame e).1
]

unfoldable pub extract_reply : Python → Extracted → C (Option ValsAndError)
extract_reply py invalid = ret none
extract_reply py (failed_field i) =
    ret (some (no_vals (codes "Failed to parse field " ++ py.decimal (pos i))))
extract_reply py (extracted values rest) =
    if ltb 0 (length rest)
    then (hex_text py (bytes_obj rest) >>= λ hex_bytes.
        ret (some (no_vals (codes "Extra data in frame: " ++ hex_bytes))))
    else ret (some (vals values))

unfoldable pub extract_vals_from_frame :
    Python → LogData → Object → Object → C (Option ValsAndError)
extract_vals_from_frame py s (bytes_obj b) (list_obj ids) = do
  found ← extract_loop py s 0 ids b
  extract_reply py found
extract_vals_from_frame py s (bytes_obj b) _ = raising parsers_not_list none
extract_vals_from_frame py s _ _ = raising frame_not_bytes none
