-- ===== src/Tests/LogTests.antt =====
-- The log decoder on a small log file and small frames.
use p.Common.{
  ℕ, ◌++◌, ◌+◌, ◌≡◌, refl, Bool, true, false, List, [], ◌∷◌, Option, none, some, ◌==◌, ℤ, pos,
  negsuc, arith, codes, fits_long, ◌-◌, All,
}
use p.Log.Object.{
  Text, Object, int_obj, float_obj, none_obj, str_obj, bytes_obj, list_obj, tuple_obj, dict_obj,
  nil, cons, Entries, end, entry,
}
use p.Log.Python.{ends, Python, as_long, get_item, entries_of, unicode_of, returns, missing_int32}
use p.Log.Cbor.{Item, uint, negint, text_string, array, map, Array, stop, item, done, pair}
use p.Log.Data.{LogData, parser_type, parser_sym, parser_enum, parser_bytes, parser_int32}
use p.Log.Convert.{hashable, set_item, negative, as_key, cbor_item_to_pyobject}
use p.Log.Spec.{named_parser, c_fndecode, parser_id}
use p.Log.Formats.{
  set_unchecked, parser_ids, array_of, five_tuple, format_entry, fmts_loop, pairs_of, process_fmts,
}
use p.Log.Load.{new, strncmp_equal, member, load_loop, Answers, start_clock, init}
use p.Log.Decode.{
  Clock, target, undecoded, decode_frame, clean_addr, six, target_digit, format_of, decode, Format,
}
use p.Log.Symbol.{
  func_loop, lookup_c_func, long_sub, nearer, var_loop, lookup_c_var, sym_value, parse_c_sym,
  parse_c_enum, enum_dict, enum_value, as_utf8, is_minus_one,
}
use p.Log.Decode.Loaded.{IsAnswer, extract_vals-IsAnswer}
use p.Log.Symbol.Choice.{Rows}
use p.Log.Symbol.Names.{Functions, function_entries, Names, parse_c_sym-Names}
use p.Log.Symbol.Nearest.{entries}
use p.Log.Field.{unpack_le_uint32, unpack_le_int32, strnlen, parse_c_bytes, parse_c_int32}
use p.Log.Field.Bytes.{Field, IsField, int32, pack4, string}
use p.Log.Extract.{vals, extracted, extract_vals_from_frame, extract_loop, parse_field, identify}
use p.Log.Extract.RoundTrip.{
  ids_of, frame_of, objects_of, tail_ids, tail_bytes, tail_objects, extract_vals-frame_of,
}
use p.Log.Decode.Line.{
  IsNumber, format, format_tuple, log_line, line_text, counted, time_of, decode-frame_of,
}
use p.Log.Decode.Failed.{seen, decode-failed_field}

same_int : ℤ → ℤ → Bool
same_int (pos a) (pos b) = a == b
same_int (negsuc a) (negsuc b) = a == b
same_int _ _ = false

unfoldable pub same : Object → Object → Bool
unfolding same_int
same (int_obj a) (int_obj b) = same_int a b
same (str_obj a) (str_obj b) = strncmp_equal a b
same _ _ = false

abbrev long_of : Object → Option ℤ
long_of (int_obj z) = some z
long_of _ = none

-- An interpreter in which every text is the list of its codes, and numbers have one digit.
abbrev pub plain : Python
plain = record {
  str_of = λ o. elim o as (λ _. Text) [ str_obj t ↦ t | _ ↦ codes "?" ];
  repr_of = λ o. codes "?";
  hex = λ n. (48 + n) ∷ [];
  upper_hex = λ z. codes "?";
  hex8 = λ n. codes "?";
  decimal = λ z. elim z [ pos n ↦ (48 + n) ∷ [] | negsuc n ↦ codes "-?" ];
  utf8 = λ xs. some xs;
  call_hex = λ o e. (some (codes "?"), e);
  percent = λ o vs. some (codes "ready");
  number_long = long_of;
  same_key = same;
}

-- A log file with one format, one enumeration, one variable and one function.
abbrev texts : List ℕ → Item
texts t = text_string t

abbrev two : Item → Item → Array
two a b = item a (item b stop)

abbrev root : Item
root = map (
    pair (texts (codes "fmts"))
      (map (
        pair (uint 8)
          (array (
            item (uint 1) (
              item (texts (codes "a.c")) (
                item (uint 7) (
                  item (texts (codes "f")) (
                    item
                      (array (
                        item (texts (codes "sym"))
                          (item (array (two (texts (codes "enum")) (texts (codes "E")))) stop)))
                      stop))))))
          done))
      (pair (texts (codes "enums"))
        (map (pair (texts (codes "E")) (map (pair (negint 0) (texts (codes "neg")) done)) done))
        (pair (texts (codes "vars")) (map (pair (uint 512) (texts (codes "v")) done)) (
          pair (texts (codes "fns"))
            (map (pair (array (two (uint 64) (uint 128))) (texts (codes "main")) done))
            (pair (texts (codes "saddr")) (uint 0x20300000) (pair (uint 0) (uint 0) done))))))

abbrev answers : Answers
answers = record {
  argument = some (codes "log");
  opened = true;
  buffer = true;
  loaded = some root;
  clock = some (5, 0);
  seconds = λ t. t.0;
}

abbrev pair_entry : Object → Object → Entries
pair_entry k v = entry k v end

abbrev sym_format : Format
sym_format = format (pos 1) (str_obj (codes "a.c")) (pos 7) (str_obj (codes "f")) (
    cons (parser_id parser_sym)
      (cons (tuple_obj (cons (parser_id parser_enum) (cons (str_obj (codes "E")) nil))) nil))

abbrev loaded_data : LogData
loaded_data = record {
  enums = some (
      dict_obj (
        pair_entry (str_obj (codes "E"))
          (dict_obj (pair_entry (int_obj (negsuc 0)) (str_obj (codes "neg"))))));
  tdenums = none;
  variables = some (dict_obj (pair_entry (int_obj (pos 512)) (str_obj (codes "v"))));
  functions = some (
      dict_obj (
        pair_entry (tuple_obj (cons (int_obj (pos 64)) (cons (int_obj (pos 128)) nil)))
          (str_obj (codes "main"))));
  saddr = some (int_obj (pos 0x20300000));
  fmts = some (dict_obj (pair_entry (int_obj (pos 8)) (format_tuple sym_format)));
  filename = some (str_obj (codes "log"));
  count = 0;
  start_time = 5;
}

init_root : init plain answers new none ≡ ends (loaded_data, true) none
unfolding init load_loop start_clock pairs_of member strncmp_equal process_fmts fmts_loop
    format_entry five_tuple array_of parser_ids c_fndecode named_parser strnlen set_unchecked
    set_item hashable as_key negative cbor_item_to_pyobject new unicode_of
init_root = refl

target_digit_test : target loaded_data none ≡ ends (some (int_obj (pos 3))) none
unfolding target as_long target_digit
target_digit_test = refl

-- 66 is in the function, and 513 behind the variable.
frame_values :
    extract_loop plain loaded_data 0
      (cons (parser_id parser_sym) (cons (parser_id parser_sym) (cons (parser_id parser_sym) nil)))
      (67 ∷ 0 ∷ 0 ∷ 0 ∷ 1 ∷ 2 ∷ 0 ∷ 0 ∷ 0 ∷ 1 ∷ 0 ∷ 0 ∷ [])
      none
    ≡ ends
        (extracted
          (cons
            (str_obj (codes "main+0x2"))
            (cons (str_obj (codes "v+0x1")) (cons (str_obj (codes "0x?")) nil)))
          [])
        none
unfolding extract_loop identify as_long parser_type parse_field parse_c_sym sym_value lookup_c_func
    func_loop lookup_c_var var_loop long_sub nearer is_minus_one unpack_le_uint32 entries_of
frame_values = refl

enum_values :
    extract_loop plain loaded_data 0
      (cons
        (tuple_obj (cons (parser_id parser_enum) (cons (str_obj (codes "E")) nil)))
        (cons (parser_id parser_bytes) nil))
      (255 ∷ 255 ∷ 255 ∷ 255 ∷ 1 ∷ [])
      none
    ≡ ends (extracted (cons (str_obj (codes "neg")) (cons (bytes_obj (1 ∷ [])) nil)) []) none
unfolding extract_loop identify as_long parser_type parse_field parse_c_enum as_utf8 enum_dict
    enum_value unpack_le_int32 unpack_le_uint32 entries_of get_item parse_c_bytes strncmp_equal same
enum_values = refl

undecoded_line :
    decode_frame plain loaded_data 0 (pos 2) (pos 5) (bytes_obj []) none
    ≡ ends
        (some (
          six
            (int_obj (pos 0))
            (float_obj 0)
            (str_obj (codes "RAW"))
            (str_obj (codes "?"))
            (int_obj (pos 0))
            (str_obj (codes "UNDECODED: TGT=2 ADDR=0x? FRAME=?"))))
        none
unfolding decode_frame undecoded format_of clean_addr get_item entries_of same
undecoded_line = refl

abbrev fields : List Field
fields = int32 (negsuc 1) ∷ string (codes "hi") ∷ []

fields-IsField : All (IsField plain) fields
fields-IsField = (omega arith, (hi, tt))
  where
    hi : IsField plain (string (codes "hi"))
    hi = ((omega arith, (omega arith, tt)), refl)

extract_vals-frame_of_example :
    extract_vals_from_frame plain new
      (bytes_obj (frame_of fields (tail_bytes (some (9 ∷ [])))))
      (list_obj (ids_of fields (tail_ids (some (9 ∷ [])))))
      none
    ≡ ends (some (vals (objects_of fields (tail_objects (some (9 ∷ [])))))) none
extract_vals-frame_of_example =
    extract_vals-frame_of plain new fields (some (9 ∷ [])) fields-IsField

abbrev with_fmts : Format → LogData
with_fmts f = record loaded_data {
  fmts = some (dict_obj (pair_entry (int_obj (pos 8)) (format_tuple f)));
}

abbrev clock : Clock
clock = record { now = some (6, 0); seconds = λ t. t.0; minus = λ a b. a - b }

pos-IsNumber : (n : ℕ) → fits_long (pos n) ≡ true → IsNumber plain (pos n)
pos-IsNumber n h = record { kept = refl; fits = h }

abbrev field_format : Format
field_format =
    format (pos 1) (str_obj (codes "a.c")) (pos 7) (str_obj (codes "f"))
      (ids_of fields (tail_ids none))

decode-frame_of_example :
    decode plain clock
      (with_fmts field_format)
      (some (pos 0, pos 9, bytes_obj (frame_of fields (tail_bytes none))))
      none
    ≡ ends
        (
          counted (with_fmts field_format),
          some (
              log_line
                (counted (with_fmts field_format))
                (time_of clock (with_fmts field_format) (6, 0))
                (pos 1)
                (str_obj (codes "a.c"))
                (pos 7)
                (line_text plain (str_obj (codes "f")) (objects_of fields (tail_objects none)))),
        )
        none
unfolding get_item clean_addr same
decode-frame_of_example =
    decode-frame_of plain clock (with_fmts field_format) (6, 0) (pos 0) (pos 9) (pos 1) (pos 7)
      (str_obj (codes "a.c")) (str_obj (codes "f"))
      (pair_entry (int_obj (pos 8)) (format_tuple field_format)) fields none refl refl refl
      (pos-IsNumber 1 refl) (pos-IsNumber 7 refl) fields-IsField

abbrev int_format : Format
int_format =
    format (pos 1) (str_obj (codes "a.c")) (pos 7) (str_obj (codes "f"))
      (cons (parser_id parser_int32) nil)

-- A frame of one byte for a field of four
decode-failed_field_example : ¬ (
    seen (decode plain clock (with_fmts int_format) (some (pos 0, pos 9, bytes_obj (1 ∷ []))) none)
    ≡ returns none_obj)
unfolding get_item clean_addr same format_of extract_loop identify as_long parser_type parse_field
    parse_c_int32
decode-failed_field_example =
    decode-failed_field plain clock (with_fmts int_format) (6, 0) (pos 0) (pos 9) (1 ∷ [])
      (pair_entry (int_obj (pos 8)) (format_tuple int_format)) int_format
      (cons (parser_id parser_int32) nil) 0 (some missing_int32) none_obj (λ o x. (x, refl)) refl
      refl refl refl refl

abbrev rows : Rows
rows = (512, str_obj (codes "v")) ∷ (768, str_obj (codes "w")) ∷ (99999, str_obj (codes "x")) ∷ []

extract_vals-IsAnswer_example :
    IsAnswer
      (extract_vals_from_frame plain loaded_data (bytes_obj (1 ∷ [])) sym_format.parsers none)
unfolding get_item format_of same
extract_vals-IsAnswer_example =
    extract_vals-IsAnswer plain answers loaded_data none none
      (pair_entry (int_obj (pos 8)) (format_tuple sym_format)) (int_obj (pos 8)) sym_format (1 ∷ [])
      init_root refl refl

abbrev functions : Functions
functions = (64, 128, str_obj (codes "main")) ∷ (128, 130, str_obj (codes "f")) ∷ []

abbrev symbols : LogData
symbols = record loaded_data {
  functions = some (dict_obj (function_entries functions));
  variables = some (dict_obj (entries rows));
}

parse_c_sym-Names_example :
    (v : Object) × (parse_c_sym plain symbols (pack4 770 ++ (1 ∷ [])) none
      ≡ ends (some v, 1 ∷ []) none)
    × Names plain 770 functions rows v
parse_c_sym-Names_example =
    parse_c_sym-Names plain symbols 770 (1 ∷ []) functions rows refl refl (omega arith)
      ((omega arith, omega arith), ((omega arith, omega arith), tt))
      (omega arith, (omega arith, (omega arith, tt)))
