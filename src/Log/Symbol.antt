-- ===== src/Log/Symbol.antt =====
-- The parsers that look an address or a number up in the tables of the log file.
pub mod Choice
pub mod Nearest
pub mod Names
use p.Common.{
  ℕ, ◌-◌, ◌%◌, Bool, true, false, List, ◌++◌, Option, none, some, ltb, ◌==◌, ◌&&◌, if◌then◌else◌,
  length, drop, ℤ, pos, negsuc, leb_ℤ, ltb_ℤ, ◌-ℤ◌, fits_long, codes, to_word, ◌||◌,
}
use p.Log.Object.{
  Text, Object, int_obj, str_obj, tuple_obj, dict_obj, nil, cons, Entries, end, entry,
}
use p.Log.Python.{
  missing_uint32, missing_int32, C, ◌>>=◌, ret, crash, deref, raising, not_text, occurred, Python,
  as_long, entries_of, get_item,
}
use p.Log.Field.{Parsed, unpack_le_uint32, unpack_le_int32}
use p.Log.Data.{LogData}

-- PyUnicode_FromFormat("%S+0x%x", value, offset)
abbrev pub symbol_text : Python → Object → ℕ → Object
symbol_text py value offset = str_obj (py.str_of value ++ codes "+0x" ++ py.hex offset)

-- The rest of the loop of lookup_c_func; `a` has its lowest bit cleared.
unfoldable pub func_loop : Python → ℕ → Entries → C (Option Object)
func_loop py a end = ret none
func_loop py a (entry (tuple_obj (cons k0 (cons k1 nil))) value es) = do
  low ← as_long k0
  hi ← as_long k1
  failed ← occurred
  elim failed [
    | true ↦ ret none
    | false ↦ elim (leb_ℤ low (pos a) && ltb_ℤ (pos a) hi) [
      | true ↦ ret (some (symbol_text py value (to_word 32 (pos a -ℤ low))))
      | false ↦ func_loop py a es
    ]
  ]
func_loop py a (entry key value es) = func_loop py a es

unfoldable pub lookup_c_func : Python → Option Object → ℕ → C (Option Object)
lookup_c_func py functions a = do es ← entries_of functions; func_loop py (a - a % 2) es

-- a - addr, whose overflow is undefined
unfoldable pub long_sub : ℕ → ℤ → C ℤ
long_sub a addr = let d = pos a -ℤ addr in if fits_long d then ret d else crash

-- The variable found so far and its offset; min_offset is -1 where there is none.
abbrev pub Nearest : Type 0
Nearest = Option (Object × ℤ)

abbrev pub min_offset : Nearest → ℤ
min_offset none = negsuc 0
min_offset (some (name, offset)) = offset

unfoldable pub is_minus_one : ℤ → Bool
is_minus_one (pos n) = false
is_minus_one (negsuc n) = n == 0

-- The test in the body of the loop of lookup_c_var
unfoldable pub nearer : Nearest → ℕ → ℤ → ℤ → Bool
unfolding is_minus_one
nearer best a addr offset =
    leb_ℤ addr (pos a)
    && ltb_ℤ offset (pos 0x3000)
    && (is_minus_one (min_offset best) || ltb_ℤ offset (min_offset best))

-- The loop, and what it finds; none for the return in its body.
unfoldable pub var_loop : Python → ℕ → Entries → Nearest → C (Option Nearest)
var_loop py a end best = ret (some best)
var_loop py a (entry key value es) best = do
  addr ← as_long key
  failed ← occurred
  elim failed [
    | true ↦ ret none
    | false ↦ do
      offset ← long_sub a addr
      var_loop py a es (if nearer best a addr offset then some (value, offset) else best)
  ]

unfoldable pub lookup_c_var : Python → Option Object → ℕ → C (Option Object)
lookup_c_var py variables a = do
  es ← entries_of variables
  found ← var_loop py a es none
  elim found [
    | none ↦ ret none
    | some none ↦ ret none
    | some (some (name, offset)) ↦ ret (some (symbol_text py name (to_word 32 offset)))
  ]

-- if (x != NULL || PyErr_Occurred()) return x; and else what follows
abbrev pub or_else : Option Object → C (Option Object) → C (Option Object)
or_else (some v) next = ret (some v)
or_else none next = do failed ← occurred; elim failed [ true ↦ ret none | false ↦ next ]

-- The part of parse_c_sym behind the reading of `r`
unfoldable pub sym_value : Python → LogData → ℕ → C (Option Object)
sym_value py s r = do
  f_str ← lookup_c_func py s.functions r
  or_else f_str (do
    v_str ← lookup_c_var py s.variables r
    or_else v_str (ret (some (str_obj (codes "0x" ++ py.hex8 r)))))

unfoldable pub parse_c_sym : Python → LogData → List ℕ → C Parsed
parse_c_sym py s b =
    if ltb (length b) 4
    then raising missing_uint32 (none, b)
    else do r ← unpack_le_uint32 b; val ← sym_value py s r; ret (val, drop 4 b)

-- PyUnicode_AsUTF8
unfoldable pub as_utf8 : Object → C (Option Text)
as_utf8 (str_obj t) = ret (some t)
as_utf8 _ = raising not_text none

-- The two texts that name a number without an entry; formatting NULL is undefined.
abbrev pub enum_text : Python → List ℕ → ℤ → Option Text → C (Option Object)
enum_text py mark r none = crash
enum_text py mark r (some enum_t) =
    ret (some (str_obj (mark ++ enum_t ++ codes ":" ++ py.decimal r ++ codes ">")))

-- The dict of the enumeration, of `enums` or else of `tdenums`
unfoldable pub enum_dict : Python → LogData → Object → C (Option Object)
enum_dict py s name = do
  es ← entries_of s.enums
  elim (get_item py es name) [
    | some d ↦ ret (some d)
    | none ↦ do ts ← entries_of s.tdenums; ret (get_item py ts name)
  ]

-- The value for the number in what has been found
unfoldable pub enum_value : Python → Option Text → ℤ → Option Object → C (Option Object)
enum_value py enum_t r (some (dict_obj es)) = elim (get_item py es (int_obj r)) [
  | some val ↦ ret (some val)
  | none ↦ enum_text py (codes "<") r enum_t
]
enum_value py enum_t r _ = enum_text py (codes "<!") r enum_t

unfoldable pub parse_c_enum : Python → LogData → Option Object → List ℕ → C Parsed
parse_c_enum py s enum_t_obj b = if ltb (length b) 4 then raising missing_int32 (none, b) else do
  r ← unpack_le_int32 b
  name ← deref enum_t_obj
  enum_t ← as_utf8 name
  d ← enum_dict py s name
  val ← enum_value py enum_t r d
  ret (val, drop 4 b)
