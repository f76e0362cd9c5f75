-- ===== src/Log/Extract/RoundTrip.antt =====
-- The values that a sender has written into a frame are the values that come out of it.
use p.Common.{ℕ, suc, ◌≡◌, refl, List, [], ◌∷◌, ◌++◌, Option, none, some, All}
use p.Log.Object.{Object, list_obj, bytes_obj, Items, nil, cons}
use p.Log.Python.{◌>>=◌, Exc, ends, Python, as_long}
use p.Log.Field.Bytes.{
  Field, int32, int64, uint32, uint64, double, pointer, string, IsField, field_type, field_bytes,
  field_object, parse_int32, parse_uint32, parse_int64, parse_uint64, parse_double, parse_pointer,
  parse_string, string_bytes,
}
use p.Log.Data.{
  LogData, ParserType, parser_type, parser_unknown, parser_int32, parser_uint32, parser_int64,
  parser_uint64, parser_double, parser_pointer, parser_bytes, parser_string, parser_sym,
  parser_enum,
}
use p.Log.Spec.{parser_id}
use p.Log.Field.{parse_c_bytes}
use p.Log.Extract.{
  parse_field, identify, extract_loop, Extracted, extracted, with_value, extract_vals_from_frame,
  extract_reply, vals,
}

parse_field_lem :
    (py : Python) (s : LogData) (f : Field) (rest : List ℕ) (e : Option Exc)
    → IsField py f
    → parse_field py s (field_type f) none (field_bytes f ++ rest) e
      ≡ ends (some (field_object f), rest) e
unfolding parse_field
parse_field_lem py s (int32 z) rest e h = parse_int32 z rest e h
parse_field_lem py s (uint32 n) rest e h = parse_uint32 n rest e h
parse_field_lem py s (int64 z) rest e h = parse_int64 z rest e h
parse_field_lem py s (uint64 n) rest e h = parse_uint64 n rest e h
parse_field_lem py s (double n) rest e h = parse_double n rest e h
parse_field_lem py s (pointer n) rest e h = parse_pointer n rest e h
parse_field_lem py s (string t) rest e h =
    rw (string_bytes t rest) (parse_string py t rest e h.0 h.1)

-- A parser's identifier names the parser.
pub identify-parser_id :
    (t : ParserType) (e : Option Exc) → identify (parser_id t) e ≡ ends (some (t, none)) e
unfolding identify as_long parser_type
identify-parser_id parser_unknown e = refl
identify-parser_id parser_int32 e = refl
identify-parser_id parser_uint32 e = refl
identify-parser_id parser_int64 e = refl
identify-parser_id parser_uint64 e = refl
identify-parser_id parser_double e = refl
identify-parser_id parser_pointer e = refl
identify-parser_id parser_bytes e = refl
identify-parser_id parser_string e = refl
identify-parser_id parser_sym e = refl
identify-parser_id parser_enum e = refl

-- The identifiers, the bytes and the objects of fields, in front of others
abbrev pub ids_of : List Field → Items → Items
ids_of [] more = more
ids_of (f ∷ fs) more = cons (parser_id (field_type f)) (ids_of fs more)

abbrev pub frame_of : List Field → List ℕ → List ℕ
frame_of [] rest = rest
frame_of (f ∷ fs) rest = field_bytes f ++ frame_of fs rest

abbrev pub objects_of : List Field → Items → Items
objects_of [] more = more
objects_of (f ∷ fs) more = cons (field_object f) (objects_of fs more)

-- One round of the loop.
pub round_takes :
    (py : Python) (s : LogData) (i : ℕ) (t : ParserType) (ids : Items) (b rest : List ℕ)
    (v : Object) (e e' : Option Exc) (r : Extracted)
    → parse_field py s t none b e ≡ ends (some v, rest) e
    → extract_loop py s (suc i) ids rest e ≡ ends r e'
    → extract_loop py s i (cons (parser_id t) ids) b e ≡ ends (with_value v r) e'
unfolding extract_loop
round_takes py s i t ids b rest v e e' r p l = rw (identify-parser_id t e, p, l, ◌>>=◌) refl

-- The fields' rounds put their objects in front of what the others find.
pub fields_lem :
    (py : Python) (s : LogData) (i : ℕ) (fs : List Field) (more : Items) (rest b : List ℕ)
    (vs : Items) (e e' : Option Exc)
    → All (IsField py) fs
    → ((j : ℕ) → extract_loop py s j more rest e ≡ ends (extracted vs b) e')
    → extract_loop py s i (ids_of fs more) (frame_of fs rest) e
      ≡ ends (extracted (objects_of fs vs) b) e'
fields_lem py s i [] more rest b vs e e' h l = l i
fields_lem py s i (f ∷ fs) more rest b vs e e' h l =
    round_takes py s i (field_type f) (ids_of fs more) (field_bytes f ++ frame_of fs rest)
      (frame_of fs rest) (field_object f) e e' (extracted (objects_of fs vs) b)
      (parse_field_lem py s f (frame_of fs rest) e h.0)
      (fields_lem py s (suc i) fs more rest b vs e e' h.1 l)

-- What may follow the fields: nothing, or bytes for a parser that takes all that is left.
abbrev pub tail_ids : Option (List ℕ) → Items
tail_ids none = nil
tail_ids (some xs) = cons (parser_id parser_bytes) nil

abbrev pub tail_bytes : Option (List ℕ) → List ℕ
tail_bytes none = []
tail_bytes (some xs) = xs

abbrev pub tail_objects : Option (List ℕ) → Items
tail_objects none = nil
tail_objects (some xs) = cons (bytes_obj xs) nil

bytes_lem :
    (py : Python) (s : LogData) (xs : List ℕ) (e : Option Exc)
    → parse_field py s parser_bytes none xs e ≡ ends (some (bytes_obj xs), []) e
unfolding parse_field parse_c_bytes
bytes_lem py s xs e = refl

tail_lem :
    (py : Python) (s : LogData) (tail : Option (List ℕ)) (i : ℕ)
    → extract_loop py s i (tail_ids tail) (tail_bytes tail) none
      ≡ ends (extracted (tail_objects tail) []) none
unfolding extract_loop
tail_lem py s none i = refl
tail_lem py s (some xs) i =
    round_takes py s i parser_bytes nil xs [] (bytes_obj xs) none none (extracted nil [])
      (bytes_lem py s xs none) refl

replies :
    (py : Python) (s : LogData) (b : List ℕ) (ids vs : Items)
    → extract_loop py s 0 ids b none ≡ ends (extracted vs []) none
    → extract_vals_from_frame py s (bytes_obj b) (list_obj ids) none ≡ ends (some (vals vs)) none
unfolding extract_vals_from_frame extract_reply
replies py s b ids vs e = rw (e, ◌>>=◌) refl

-- From a frame of the little-endian bytes of some numbers and doubles of 32 or 64 bits and of
-- texts that end with a zero, and of further bytes if a parser for these comes last,
-- extract_vals_from_frame, with the parsers of the fields' types, gives exactly the values of
-- the fields.
pub extract_vals-frame_of :
    (py : Python) (s : LogData) (fs : List Field) (tail : Option (List ℕ))
    → All (IsField py) fs
    → extract_vals_from_frame py s
        (bytes_obj (frame_of fs (tail_bytes tail)))
        (list_obj (ids_of fs (tail_ids tail)))
        none
      ≡ ends (some (vals (objects_of fs (tail_objects tail)))) none
extract_vals-frame_of py s fs tail h =
    replies py s (frame_of fs (tail_bytes tail)) (ids_of fs (tail_ids tail)) _ (
      fields_lem py s 0 fs (tail_ids tail) (tail_bytes tail) [] (tail_objects tail) none none h
        (tail_lem py s tail))
