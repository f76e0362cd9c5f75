-- ===== src/Log/Decode/Failed.antt =====
-- A call of `decode` in which a field gives no value.
use p.Common.{
  ℕ, ◌≡◌, subst, sym, ap, Bool-cases, List, Option, none, some, Option-cases, inl, inr, ℤ,
  fits_long,
}
use p.Log.Object.{
  Object, bytes_obj, list_obj, dict_obj, int_obj, Items, Entries, str_obj, bool_obj, none_obj,
  float_obj, tuple_obj, other_obj,
}
use p.Log.Python.{
  Exc, Result, fault, ends, C, ◌>>=◌, ret, Python, Outcome, returns, outcome, as_long, entries_of,
  get_item,
}
use p.Log.Data.{LogData}
use p.Log.Extract.{extract_loop, failed_field, hex_text, no_vals}
use p.Log.Extract.Told.{extract_loop-failed, extract_vals-failed}
use p.Log.Decode.{
  Clock, clean_addr, Format, format_of, number, reply, text_of, decoded, decode_frame, decode,
}
use p.Log.Decode.Line.{counted, time_of}

-- An end with an exception set, or none.
abbrev IsMarked : {A : Type 0} → Result A → Type 0
IsMarked (ends a none) = ⊥
IsMarked _ = Unit {0}

then-IsMarked :
    {A B : Type 0} (r : Result A) (f : A → C B)
    → IsMarked r
    → ((a : A) (x : Exc) → IsMarked (f a (some x)))
    → IsMarked (elim r [ fault ↦ fault | ends a e ↦ f a e ])
then-IsMarked fault f h k = tt
then-IsMarked (ends a none) f h k = absurd h
then-IsMarked (ends a (some x)) f h k = k a x

-- `hex` leaves an exception set that was set before.
abbrev pub KeepsMark : Python → Type 0
KeepsMark py = (o : Object) (x : Exc) → (y : Exc) × ((py.call_hex o (some x)).1 ≡ some y)

hex_text-IsMarked :
    (py : Python) (o : Object) (x : Exc) → KeepsMark py → IsMarked (hex_text py o (some x))
hex_text-IsMarked py o x h = elim (Option-cases ((py.call_hex o (some x)).0)) [
  | inl null ↦ rw (hex_text, null) tt
  | inr (t, there) ↦ rw (hex_text, there, (h o x).1) tt
]

text_of-IsMarked : (o : Object) (x : Exc) → IsMarked (text_of o (some x))
unfolding text_of
text_of-IsMarked (str_obj t) x = tt
text_of-IsMarked none_obj x = tt
text_of-IsMarked (bool_obj b) x = tt
text_of-IsMarked (int_obj z) x = tt
text_of-IsMarked (float_obj n) x = tt
text_of-IsMarked (bytes_obj b) x = tt
text_of-IsMarked (list_obj vs) x = tt
text_of-IsMarked (tuple_obj vs) x = tt
text_of-IsMarked (dict_obj es) x = tt
text_of-IsMarked (other_obj n) x = tt

long-IsMarked : (z : ℤ) (x : Exc) → IsMarked (as_long (int_obj z) (some x))
unfolding as_long
long-IsMarked z x = elim (Bool-cases (fits_long z)) [
  | inl in_range ↦ rw (as_long, in_range) tt
  | inr beyond ↦ rw (as_long, beyond) tt
]

number-IsMarked : (py : Python) (o : Object) (x : Exc) → IsMarked (number py o (some x))
unfolding number
number-IsMarked py o x = elim (Option-cases (py.number_long o)) [
  | inl none_there ↦ rw (number, none_there) tt
  | inr (z, there) ↦
      rw (number, there)
        (then-IsMarked (as_long (int_obj z) (some x)) _ (long-IsMarked z x) (λ n y. tt))
]

option-IsMarked :
    {A B : Type 0} (o : Option A) (f : A → C (Option B)) (x : Exc)
    → ((a : A) → IsMarked (f a (some x)))
    → IsMarked ((elim o as (λ _. C (Option B)) [ none ↦ ret none | some a ↦ f a ]) (some x))
option-IsMarked none f x h = tt
option-IsMarked (some a) f x h = h a

reply-IsMarked :
    (py : Python) (s : LogData) (ts : ℕ) (fmt : Format) (text : List ℕ) (x : Exc)
    → IsMarked (reply py s ts fmt text (some x))
unfolding reply
reply-IsMarked py s ts fmt text x =
    then-IsMarked (number py fmt.level (some x)) _ (number-IsMarked py fmt.level x) (λ level y.
      option-IsMarked level _ y (λ l.
        then-IsMarked (number py fmt.line (some y)) _ (number-IsMarked py fmt.line y)
          (λ line z. option-IsMarked line _ z (λ n. tt))))

decoded-IsMarked :
    (py : Python) (s : LogData) (ts : ℕ) (fmt : Format) (frame : Object) (error : List ℕ) (x : Exc)
    → KeepsMark py
    → IsMarked (decoded py s ts fmt frame (some (no_vals error)) (some x))
unfolding decoded
decoded-IsMarked py s ts fmt frame error x h =
    then-IsMarked (hex_text py frame (some x)) _ (hex_text-IsMarked py frame x h) (λ t y.
      then-IsMarked (text_of fmt.clean_fmt (some y)) _ (text_of-IsMarked fmt.clean_fmt y)
        (λ c z. reply-IsMarked py s ts fmt _ z))

-- What the caller of the method sees of an end.
abbrev pub seen : Result (LogData × Option Object) → Outcome
seen fault = outcome fault
seen (ends (s, v) e) = outcome (ends v e)

abbrev IsReturn : Outcome → Type 0
IsReturn (returns v) = Unit {0}
IsReturn _ = ⊥

marked-IsReturn : (r : Result (LogData × Option Object)) → IsMarked r → ¬ (IsReturn (seen r))
unfolding outcome
marked-IsReturn fault h k = k
marked-IsReturn (ends a none) h k = h
marked-IsReturn (ends (s, none) (some x)) h k = k
marked-IsReturn (ends (s, some v) (some x)) h k = k

-- The frame's part of the call, once the format is there
frame_extract :
    (py : Python) (s : LogData) (ts : ℕ) (target addr : ℤ) (b : List ℕ) (es : Entries)
    (fmt : Format) (ids : Items) (i : ℕ) (x : Exc)
    → KeepsMark py
    → entries_of s.fmts none ≡ ends es none
    → format_of (get_item py es (int_obj (clean_addr addr))) ≡ some fmt
    → fmt.parsers ≡ list_obj ids
    → extract_loop py s 0 ids b none ≡ ends (failed_field i) (some x)
    → IsMarked (decode_frame py s ts target addr (bytes_obj b) none)
unfolding decode_frame
frame_extract py s ts target addr b es fmt ids i x h table is_fmt parsers run =
    rw
      (
        decode_frame,
        table,
        ◌>>=◌,
        is_fmt,
        parsers,
        extract_vals-failed py s i ids b none (some x) run,
      )
      (decoded-IsMarked py s ts fmt (bytes_obj b) _ x h)

decode-IsMarked :
    (py : Python) (clock : Clock) (s : LogData) (t : ℕ × ℕ) (target addr : ℤ) (frame : Object)
    → clock.now ≡ some t
    → IsMarked (decode_frame py (counted s) (time_of clock s t) target addr frame none)
    → IsMarked (decode py clock s (some (target, addr, frame)) none)
unfolding decode
decode-IsMarked py clock s t target addr frame now h =
    rw (decode, now)
      (then-IsMarked (decode_frame py (counted s) (time_of clock s t) target addr frame none) _ h
        (λ v e. tt))

-- The clock gives a time, the table of formats has a format for the address, and one of its
-- parsers gives no value for the frame. Then the caller of decode gets no log line, and no other
-- value: decode raises, ends with a value and an exception, which is a SystemError, or does
-- something undefined, if hex leaves an exception set that was set before.
pub decode-failed_field :
    (py : Python) (clock : Clock) (s : LogData) (t : ℕ × ℕ) (target addr : ℤ) (b : List ℕ)
    (es : Entries) (fmt : Format) (ids : Items) (i : ℕ) (e : Option Exc) (v : Object)
    → KeepsMark py
    → clock.now ≡ some t
    → s.fmts ≡ some (dict_obj es)
    → format_of (get_item py es (int_obj (clean_addr addr))) ≡ some fmt
    → fmt.parsers ≡ list_obj ids
    → extract_loop py (counted s) 0 ids b none ≡ ends (failed_field i) e
    → ¬ (seen (decode py clock s (some (target, addr, bytes_obj b)) none) ≡ returns v)
unfolding entries_of
decode-failed_field py clock s t target addr b es fmt ids i e v h now table is_fmt parsers run
      line =
    let told = extract_loop-failed py (counted s) 0 i ids b none e run in
    marked-IsReturn (decode py clock s (some (target, addr, bytes_obj b)) none)
      (decode-IsMarked py clock s t target addr (bytes_obj b) now (
        frame_extract py (counted s) (time_of clock s t) target addr b es fmt ids i told.0 h
          (ap (λ (m : Option Object). entries_of m none) table) is_fmt parsers
          (subst (λ e'. extract_loop py (counted s) 0 ids b none ≡ ends (failed_field i) e') told.1
            run)))
      (subst IsReturn (sym line) tt)
