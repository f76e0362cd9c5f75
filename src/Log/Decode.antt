-- ===== src/Log/Decode.antt =====
-- `LogData_decode` and `LogData_target`.
pub mod Failed
pub mod Loaded
pub mod Line
use p.Common.{
  ℕ, zero, suc, ◌+◌, ◌-◌, ◌*◌, ◌/◌, ◌%◌, ◌^◌, true, false, ◌++◌, Option, none, some, ltb,
  if◌then◌else◌, ℤ, pos, negsuc, codes,
}
use p.Log.Object.{Text, Object, none_obj, int_obj, float_obj, str_obj, tuple_obj, Items, nil, cons}
use p.Log.Python.{
  bad_arguments, no_saddr, no_clock, not_a_number, C, ◌>>=◌, ◌>>◌, ret, crash, raising, occurred,
  clear, Python, as_long, entries_of, get_item,
}
use p.Log.Data.{LogData}
use p.Log.Extract.{ValsAndError, vals, no_vals, hex_text, extract_vals_from_frame}

-- The clock, tv_sec and tv_nsec; doubles are their bits, and their arithmetic is a parameter.
pub record Clock : Type 0 where
  pub now : Option (ℕ × ℕ)
  -- (double)tv_sec + (double)tv_nsec / 1e9, and the difference
  pub seconds : ℕ × ℕ → ℕ
  pub minus : ℕ → ℕ → ℕ

-- addr & ~3
unfoldable pub clean_addr : ℤ → ℤ
clean_addr (pos n) = pos (n - n % 4)
clean_addr (negsuc n) = negsuc (4 * ((n + 4) / 4) - 1)

abbrev pub level_map : ℕ → Text
level_map zero = codes "INFO"
level_map (suc zero) = codes "TRACE "
level_map (suc (suc zero)) = codes "WARN "
level_map (suc (suc (suc zero))) = codes "ERROR"
level_map (suc (suc (suc (suc zero)))) = codes "FATAL"
level_map _ = codes "PANIC"

-- (level_val >= 0 && level_val < 6) ? level_map[level_val] : "<bad level>"
unfoldable pub level_str : ℤ → Text
level_str (pos n) = if ltb n 6 then level_map n else codes "<bad level>"
level_str (negsuc n) = codes "<bad level>"

abbrev pub six : Object → Object → Object → Object → Object → Object → Object
six a b c d e f = tuple_obj (cons a (cons b (cons c (cons d (cons e (cons f nil))))))

-- A tuple of at least five entries whose first is not None; or none for the test of the RAW branch
pub record Format : Type 0 where
  pub level : Object
  pub fname : Object
  pub line : Object
  pub clean_fmt : Object
  pub parsers : Object

unfoldable pub format_of : Option Object → Option Format
format_of (some (tuple_obj (cons none_obj items))) = none
format_of (some (tuple_obj (cons a (cons b (cons c (cons d (cons e more))))))) =
    some (record { level = a; fname = b; line = c; clean_fmt = d; parsers = e })
format_of _ = none

-- The RAW branch
unfoldable pub undecoded : Python → LogData → ℕ → ℤ → ℤ → Object → C (Option Object)
undecoded py s ts target addr frame = do
  hex_frame ← hex_text py frame
  let text =
      codes "UNDECODED: TGT="
      ++ py.decimal target
      ++ codes " ADDR=0x"
      ++ py.upper_hex addr
      ++ codes " FRAME="
      ++ hex_frame
  ret (
      some (
        six (int_obj (pos s.count)) (float_obj ts) (str_obj (codes "RAW")) (str_obj (codes "?"))
          (int_obj (pos 0)) (str_obj text)))

-- PyNumber_Long and PyLong_AsLong; the outer none is the return of NULL.
unfoldable pub number : Python → Object → C (Option ℤ)
number py x = elim (py.number_long x) [
  | none ↦ raising not_a_number none
  | some z ↦ do n ← as_long (int_obj z); ret (some n)
]

-- The last lines of both branches, from py_level on
unfoldable pub reply : Python → LogData → ℕ → Format → Text → C (Option Object)
reply py s ts fmt text = do
  level_val ← number py fmt.level
  elim level_val [
    | none ↦ ret none
    | some level ↦ do
      line_val ← number py fmt.line
      elim line_val [
        | none ↦ ret none
        | some line ↦ ret (
            some (
              six (int_obj (pos s.count)) (float_obj ts) (str_obj (level_str level)) fmt.fname
                (int_obj line) (str_obj text)))
      ]
  ]

-- PyUnicode_Format, or the debug message; its exception is cleared.
unfoldable pub formatted : Python → Object → Items → C Text
formatted py clean_fmt values = elim (py.percent clean_fmt values) [
  | some t ↦ ret t
  | none ↦ do
    clear
    ret (py.str_of clean_fmt ++ codes " (FORMATTING FAILED) " ++ py.repr_of (tuple_obj values))
]

-- The conversion %U, which is undefined for what is no str
unfoldable pub text_of : Object → C Text
text_of (str_obj t) = ret t
text_of _ = crash

unfoldable pub decoded :
    Python → LogData → ℕ → Format → Object → Option ValsAndError → C (Option Object)
decoded py s ts fmt frame none = ret none
decoded py s ts fmt frame (some (vals values)) = do
  text ← formatted py fmt.clean_fmt values
  reply py s ts fmt text
decoded py s ts fmt frame (some (no_vals error)) = do
  hex_frame ← hex_text py frame
  clean ← text_of fmt.clean_fmt
  reply py s ts fmt (clean ++ codes " [" ++ hex_frame ++ codes " - " ++ error ++ codes "]")

-- From the lookup on, when the clock has been read and the call is counted
unfoldable pub decode_frame : Python → LogData → ℕ → ℤ → ℤ → Object → C (Option Object)
decode_frame py s ts target addr frame = do
  es ← entries_of s.fmts
  elim (format_of (get_item py es (int_obj (clean_addr addr)))) [
    | none ↦ undecoded py s ts target addr frame
    | some fmt ↦ do
      found ← extract_vals_from_frame py s frame fmt.parsers
      decoded py s ts fmt frame found
  ]

-- The object afterwards, and the result. `args` is none where PyArg_ParseTuple refuses them.
unfoldable pub decode :
    Python → Clock → LogData → Option (ℤ × ℤ × Object) → C (LogData × Option Object)
decode py clock s none = raising bad_arguments (s, none)
decode py clock s (some (target, addr, frame)) = elim clock.now [
  | none ↦ raising no_clock (s, none)
  | some t ↦ do
    let ts = clock.minus (clock.seconds t) s.start_time
    let s' = record s { count = s.count + 1 }
    v ← decode_frame py s' ts target addr frame
    ret (s', v)
]

-- saddr_val >> 20, which is the floor of the quotient, and & 0xf
unfoldable pub target_digit : ℤ → ℕ
target_digit (pos n) = n / 2 ^ 20 % 16
target_digit (negsuc n) = 15 - n / 2 ^ 20 % 16

-- A long of -1 without an exception is a value.
unfoldable pub target : LogData → C (Option Object)
unfolding target_digit
target s = elim s.saddr [
  | none ↦ raising no_saddr none
  | some saddr ↦ do
    saddr_val ← as_long saddr
    failed ← occurred
    elim failed [ true ↦ ret none | false ↦ ret (some (int_obj (pos (target_digit saddr_val)))) ]
]
