-- ===== src/Log/Decode/Line.antt =====
-- The log line that `decode` makes of a frame whose values are there.
use p.Common.{
  ℕ, ◌+◌, ◌≡◌, refl, ap, true, List, ◌++◌, Option, none, some, All, Option-cases, inl, inr, ℤ, pos,
  fits_long, codes,
}
use p.Log.Object.{
  Text, Object, int_obj, float_obj, str_obj, bytes_obj, list_obj, tuple_obj, dict_obj, Items, nil,
  cons, Entries,
}
use p.Log.Python.{Exc, ends, ◌>>=◌, Python, as_long, entries_of, get_item}
use p.Log.Data.{LogData}
use p.Log.Field.Bytes.{Field, IsField}
use p.Log.Extract.{ValsAndError, vals, extract_vals_from_frame}
use p.Log.Extract.RoundTrip.{
  ids_of, frame_of, objects_of, tail_ids, tail_bytes, tail_objects, extract_vals-frame_of,
}
use p.Log.Decode.{
  Clock, clean_addr, level_str, six, Format, format_of, number, reply, formatted, decoded,
  decode_frame, decode,
}

-- The formatted text, or the debug message.
abbrev pub line_text : Python → Object → Items → Text
line_text py fmt vs = elim (py.percent fmt vs) [
  | some t ↦ t
  | none ↦ py.str_of fmt ++ codes " (FORMATTING FAILED) " ++ py.repr_of (tuple_obj vs)
]

formatted_lem :
    (py : Python) (fmt : Object) (vs : Items)
    → formatted py fmt vs none ≡ ends (line_text py fmt vs) none
unfolding formatted
formatted_lem py fmt vs = elim (Option-cases (py.percent fmt vs)) [
  | inl e ↦ rw (e, formatted, line_text) refl
  | inr (t, e) ↦ rw (e, formatted, line_text) refl
]

-- A number of a format: a long that PyNumber_Long leaves as it is.
pub record IsNumber (py : Python) (z : ℤ) : Type 0 where
  pub kept : py.number_long (int_obj z) ≡ some z
  pub fits : fits_long z ≡ true

number_lem :
    (py : Python) (z : ℤ) (e : Option Exc)
    → IsNumber py z
    → number py (int_obj z) e ≡ ends (some z) e
unfolding number as_long
number_lem py z e h = rw (h.kept, h.fits, number, ◌>>=◌) refl

-- The format of an entry of the table of formats
abbrev pub format : ℤ → Object → ℤ → Object → Items → Format
format level fname line clean_fmt ids = record {
  level = int_obj level;
  fname = fname;
  line = int_obj line;
  clean_fmt = clean_fmt;
  parsers = list_obj ids;
}

abbrev pub format_tuple : Format → Object
format_tuple f =
    tuple_obj (cons f.level (cons f.fname (cons f.line (cons f.clean_fmt (cons f.parsers nil)))))

-- The tuple of a line
abbrev pub log_line : LogData → ℕ → ℤ → Object → ℤ → Text → Object
log_line s ts level fname line text =
    six (int_obj (pos s.count)) (float_obj ts) (str_obj (level_str level)) fname (int_obj line)
      (str_obj text)

reply_lem :
    (py : Python) (s : LogData) (ts : ℕ) (level line : ℤ) (fname clean_fmt : Object) (ids : Items)
    (text : Text)
    → IsNumber py level
    → IsNumber py line
    → reply py s ts (format level fname line clean_fmt ids) text none
      ≡ ends (some (log_line s ts level fname line text)) none
unfolding reply
reply_lem py s ts level line fname clean_fmt ids text hl hn =
    rw (number_lem py level none hl, ◌>>=◌, number_lem py line none hn) refl

decoded_lem :
    (py : Python) (s : LogData) (ts : ℕ) (level line : ℤ) (fname clean_fmt frame : Object)
    (ids vs : Items)
    → IsNumber py level
    → IsNumber py line
    → decoded py s ts (format level fname line clean_fmt ids) frame (some (vals vs)) none
      ≡ ends (some (log_line s ts level fname line (line_text py clean_fmt vs))) none
unfolding decoded
decoded_lem py s ts level line fname clean_fmt frame ids vs hl hn =
    rw (formatted_lem py clean_fmt vs, ◌>>=◌)
      (reply_lem py s ts level line fname clean_fmt ids _ hl hn)

-- The object as the call counts it, and the time of the call
abbrev pub counted : LogData → LogData
counted s = record s { count = s.count + 1 }

abbrev pub time_of : Clock → LogData → ℕ × ℕ → ℕ
time_of clock s t = clock.minus (clock.seconds t) s.start_time

frame-ends :
    (py : Python) (s : LogData) (ts : ℕ) (target addr : ℤ) (frame : Object) (es : Entries)
    (fmt : Format) (found : Option ValsAndError) (v : Option Object) (e e' : Option Exc)
    → entries_of s.fmts none ≡ ends es none
    → format_of (get_item py es (int_obj (clean_addr addr))) ≡ some fmt
    → extract_vals_from_frame py s frame fmt.parsers none ≡ ends found e
    → decoded py s ts fmt frame found e ≡ ends v e'
    → decode_frame py s ts target addr frame none ≡ ends v e'
unfolding decode_frame
frame-ends py s ts target addr frame es fmt found v e e' table is_fmt x d =
    rw (decode_frame, table, ◌>>=◌, is_fmt, x) d

-- A call that reads the clock and finds a format goes on to the frame.
pub decode-ends :
    (py : Python) (clock : Clock) (s : LogData) (t : ℕ × ℕ) (target addr : ℤ) (frame : Object)
    (es : Entries) (fmt : Format) (found : Option ValsAndError) (v : Option Object)
    (e e' : Option Exc)
    → clock.now ≡ some t
    → s.fmts ≡ some (dict_obj es)
    → format_of (get_item py es (int_obj (clean_addr addr))) ≡ some fmt
    → extract_vals_from_frame py (counted s) frame fmt.parsers none ≡ ends found e
    → decoded py (counted s) (time_of clock s t) fmt frame found e ≡ ends v e'
    → decode py clock s (some (target, addr, frame)) none ≡ ends (counted s, v) e'
unfolding decode entries_of
decode-ends py clock s t target addr frame es fmt found v e e' now table is_fmt x d =
    rw
      (
        now,
        decode,
        ◌>>=◌,
        frame-ends py (counted s) (time_of clock s t) target addr frame es fmt found v e e'
            (ap (λ (m : Option Object). entries_of m none) table) is_fmt x d,
      )
      refl

-- The clock gives a time, the table of formats has, for the address without its two lowest bits,
-- a format whose level and line are longs, and the frame consists of the bytes of some fields,
-- as its parsers name them, and of further bytes if a parser for these comes last. Then decode
-- returns the log line of the format and the fields' values without an exception: its number,
-- the time since the start, the level's name, file and line, and the formatted text, or the
-- debug message where formatting fails.
pub decode-frame_of :
    (py : Python) (clock : Clock) (s : LogData) (t : ℕ × ℕ) (target addr level line : ℤ)
    (fname clean_fmt : Object) (es : Entries) (fs : List Field) (tail : Option (List ℕ))
    → clock.now ≡ some t
    → s.fmts ≡ some (dict_obj es)
    → get_item py es (int_obj (clean_addr addr))
      ≡ some (format_tuple (format level fname line clean_fmt (ids_of fs (tail_ids tail))))
    → IsNumber py level
    → IsNumber py line
    → All (IsField py) fs
    → decode py clock s (some (target, addr, bytes_obj (frame_of fs (tail_bytes tail)))) none
      ≡ ends
          (
            counted s,
            some (
                log_line
                  (counted s)
                  (time_of clock s t)
                  level
                  fname
                  line
                  (line_text py clean_fmt (objects_of fs (tail_objects tail)))),
          )
          none
unfolding format_of
decode-frame_of py clock s t target addr level line fname clean_fmt es fs tail now table entry hl hn
      h =
    decode-ends py clock s t target addr _ es
      (format level fname line clean_fmt (ids_of fs (tail_ids tail))) _ _ none none now table
      (ap format_of entry) (extract_vals-frame_of py (counted s) fs tail h)
      (decoded_lem py (counted s) (time_of clock s t) level line fname clean_fmt _ _ _ hl hn)
