-- ===== src/Log/Extract/Told.antt =====
-- A field that gives no value leaves an exception set.
use p.Common.{
  ℕ, suc, ◌≡◌, refl, subst, Bool, true, false, List, Option, none, some, ltb, leb, length, take,
  drop, Bool-cases, Option-cases, inl, inr, ℤ, pos, if◌then◌else◌, codes, ◌++◌,
}
use p.Log.Object.{Text, Object, dict_obj, Items, nil, cons, int_obj, float_obj, bytes_obj, list_obj}
use p.Log.Python.{
  Exc, Result, fault, ends, C, ◌>>=◌, deref, raising, ret, Python, unicode_of, get_item,
}
use p.Log.Field.{
  Parsed, unpack_le_uint32, unpack_le_int32, strnlen, parse_c_int32, parse_c_uint32, parse_c_int64,
  parse_c_uint64, parse_c_double, parse_c_pointer, parse_c_bytes, parse_c_string, unpack_le_int64,
  unpack_le_uint64, unpack_le_double,
}
use p.Log.Data.{
  LogData, ParserType, parser_unknown, parser_int32, parser_uint32, parser_int64, parser_uint64,
  parser_double, parser_pointer, parser_bytes, parser_string, parser_sym, parser_enum,
}
use p.Log.Symbol.{
  lookup_c_func, lookup_c_var, or_else, sym_value, parse_c_sym, parse_c_enum, as_utf8, enum_dict,
  enum_value,
}
use p.Log.Extract.{
  parse_field, identify, Extracted, invalid, failed_field, extracted, with_value, with_field,
  extract_loop, extract_vals_from_frame, extract_reply, no_vals,
}

-- NULL comes with an exception.
abbrev pub IsTold : Result Parsed → Type 0
IsTold (ends (none, rest) none) = ⊥
IsTold _ = Unit {0}

elim-IsTold :
    {A : Type 0} (r : Result A) (f : A → C Parsed)
    → ((a : A) (e : Option Exc) → IsTold (f a e))
    → IsTold (elim r [ fault ↦ fault | ends a e ↦ f a e ])
elim-IsTold fault f h = tt
elim-IsTold (ends a e) f h = h a e

number-IsTold :
    {A : Type 0} (c : Bool) (x : Exc) (b rest : List ℕ) (m : C A) (g : A → Object) (e : Option Exc)
    → IsTold ((if c then raising x (none, b) else (m >>= λ a. ret (some (g a), rest))) e)
number-IsTold true x b rest m g e = tt
number-IsTold false x b rest m g e = elim-IsTold (m e) (λ a. ret (some (g a), rest)) (λ a e'. tt)

string-IsTold : (py : Python) (b : List ℕ) (e : Option Exc) → IsTold (parse_c_string py b e)
unfolding parse_c_string unicode_of
string-IsTold py b e = elim (Bool-cases (leb (length b) (strnlen b))) [
  | inl missing ↦ rw (missing, parse_c_string) tt
  | inr there ↦ elim (Option-cases (py.utf8 (take (strnlen b) b))) [
    | inl bad ↦ rw (there, parse_c_string, ◌>>=◌, unicode_of, bad) tt
    | inr (t, good) ↦ rw (there, parse_c_string, ◌>>=◌, unicode_of, good) tt
  ]
]

-- The same for a value alone.
abbrev IsToldValue : Result (Option Object) → Type 0
IsToldValue (ends none none) = ⊥
IsToldValue _ = Unit {0}

value-IsTold :
    (r : Result (Option Object)) (rest : List ℕ)
    → IsToldValue r
    → IsTold (elim r [ fault ↦ fault | ends v e ↦ ends (v, rest) e ])
value-IsTold fault rest h = tt
value-IsTold (ends (some v) e) rest h = tt
value-IsTold (ends none none) rest h = h
value-IsTold (ends none (some x)) rest h = tt

elim-IsToldValue :
    {A : Type 0} (r : Result A) (f : A → C (Option Object))
    → ((a : A) (e : Option Exc) → IsToldValue (f a e))
    → IsToldValue (elim r [ fault ↦ fault | ends a e ↦ f a e ])
elim-IsToldValue fault f h = tt
elim-IsToldValue (ends a e) f h = h a e

or_else-IsToldValue :
    (o : Option Object) (next : C (Option Object)) (e : Option Exc)
    → IsToldValue (next none)
    → IsToldValue (or_else o next e)
or_else-IsToldValue (some v) next e h = tt
or_else-IsToldValue none next none h = h
or_else-IsToldValue none next (some x) h = tt

sym_value-IsTold :
    (py : Python) (s : LogData) (r : ℕ) (e : Option Exc) → IsToldValue (sym_value py s r e)
unfolding sym_value
sym_value-IsTold py s r e = elim-IsToldValue (lookup_c_func py s.functions r e) _ (λ f_str e1.
    or_else-IsToldValue f_str _ e1 (
      elim-IsToldValue (lookup_c_var py s.variables r none) _
        (λ v_str e2. or_else-IsToldValue v_str _ e2 tt)))

enum_value-IsTold :
    (py : Python) (t : Option Text) (r : ℤ) (d : Option Object) (e : Option Exc)
    → IsToldValue (enum_value py t r d e)
unfolding enum_value
enum_value-IsTold py none r (some (dict_obj es)) e =
    elim (Option-cases (get_item py es (int_obj r))) [
      | inl absent ↦ rw (enum_value, absent) tt
      | inr (v, found) ↦ rw (enum_value, found) tt
    ]
enum_value-IsTold py (some t) r (some (dict_obj es)) e =
    elim (Option-cases (get_item py es (int_obj r))) [
      | inl absent ↦ rw (enum_value, absent) tt
      | inr (v, found) ↦ rw (enum_value, found) tt
    ]
enum_value-IsTold py none r _ e = tt
enum_value-IsTold py (some t) r _ e = tt

-- A value that is read as a number first, and then looked up
looked-IsTold :
    {A : Type 0} (c : Bool) (x : Exc) (b rest : List ℕ) (m : C A) (g : A → C (Option Object))
    (e : Option Exc)
    → ((a : A) (e' : Option Exc) → IsToldValue (g a e'))
    → IsTold ((if c then raising x (none, b) else (m >>= λ a. g a >>= λ val. ret (val, rest))) e)
looked-IsTold true x b rest m g e h = tt
looked-IsTold false x b rest m g e h =
    elim-IsTold (m e) (λ a. g a >>= λ val. ret (val, rest))
      (λ a e'. value-IsTold (g a e') rest (h a e'))

enum-IsTold :
    (py : Python) (s : LogData) (extra : Option Object) (b : List ℕ) (e : Option Exc)
    → IsTold (parse_c_enum py s extra b e)
unfolding parse_c_enum
enum-IsTold py s extra b e = elim (Bool-cases (ltb (length b) 4)) [
  | inl short ↦ rw (short, parse_c_enum) tt
  | inr long ↦
      rw (long, parse_c_enum)
        (elim-IsTold (unpack_le_int32 b e) _ (λ r e1. elim-IsTold (deref extra e1) _ (λ name e2.
          elim-IsTold (as_utf8 name e2) _ (λ t e3. elim-IsTold (enum_dict py s name e3) _ (λ d e4.
            value-IsTold (enum_value py t r d e4) (drop 4 b) (enum_value-IsTold py t r d e4))))))
]

pub parse_field-IsTold :
    (py : Python) (s : LogData) (t : ParserType) (extra : Option Object) (b : List ℕ)
    (e : Option Exc)
    → IsTold (parse_field py s t extra b e)
unfolding parse_field parse_c_int32 parse_c_uint32 parse_c_int64 parse_c_uint64 parse_c_double
    parse_c_pointer parse_c_bytes parse_c_sym
parse_field-IsTold py s parser_int32 extra b e =
    number-IsTold _ _ b (drop 4 b) (unpack_le_int32 b) int_obj e
parse_field-IsTold py s parser_uint32 extra b e =
    number-IsTold _ _ b (drop 4 b) (unpack_le_uint32 b) (λ n. int_obj (pos n)) e
parse_field-IsTold py s parser_int64 extra b e =
    number-IsTold _ _ b (drop 8 b) (unpack_le_int64 b) int_obj e
parse_field-IsTold py s parser_uint64 extra b e =
    number-IsTold _ _ b (drop 8 b) (unpack_le_uint64 b) (λ n. int_obj (pos n)) e
parse_field-IsTold py s parser_double extra b e =
    number-IsTold _ _ b (drop 8 b) (unpack_le_double b) float_obj e
parse_field-IsTold py s parser_pointer extra b e =
    number-IsTold _ _ b (drop 4 b) (unpack_le_uint32 b) (λ n. int_obj (pos n)) e
parse_field-IsTold py s parser_bytes extra b e = tt
parse_field-IsTold py s parser_string extra b e = string-IsTold py b e
parse_field-IsTold py s parser_sym extra b e =
    looked-IsTold _ _ b (drop 4 b) (unpack_le_uint32 b) (sym_value py s) e (sym_value-IsTold py s)
parse_field-IsTold py s parser_enum extra b e = enum-IsTold py s extra b e
parse_field-IsTold py s parser_unknown extra b e = tt

-- A loop that stops at a field leaves an exception set.
abbrev IsToldLoop : Result Extracted → Type 0
IsToldLoop (ends (failed_field i) none) = ⊥
IsToldLoop _ = Unit {0}

with_value-IsTold :
    (r : Result Extracted) (v : Object)
    → IsToldLoop r
    → IsToldLoop (elim r [ fault ↦ fault | ends x e ↦ ends (with_value v x) e ])
with_value-IsTold fault v h = tt
with_value-IsTold (ends invalid e) v h = tt
with_value-IsTold (ends (failed_field i) none) v h = h
with_value-IsTold (ends (failed_field i) (some x)) v h = tt
with_value-IsTold (ends (extracted vs b) e) v h = tt

field-IsTold :
    (i : ℕ) (r : Result Parsed) (next : List ℕ → C Extracted)
    → IsTold r
    → ((b : List ℕ) (e : Option Exc) → IsToldLoop (next b e))
    → IsToldLoop (elim r [ fault ↦ fault | ends x e ↦ with_field i x.0 (next x.1) e ])
field-IsTold i fault next h k = tt
field-IsTold i (ends (none, rest) none) next h k = h
field-IsTold i (ends (none, rest) (some x)) next h k = tt
field-IsTold i (ends (some v, rest) e) next h k = with_value-IsTold (next rest e) v (k rest e)

elim-IsToldLoop :
    {A : Type 0} (r : Result A) (f : A → C Extracted)
    → ((a : A) (e : Option Exc) → IsToldLoop (f a e))
    → IsToldLoop (elim r [ fault ↦ fault | ends a e ↦ f a e ])
elim-IsToldLoop fault f h = tt
elim-IsToldLoop (ends a e) f h = h a e

option-IsToldLoop :
    {A : Type 0} (o : Option A) (f : A → C Extracted) (e : Option Exc)
    → ((a : A) (e : Option Exc) → IsToldLoop (f a e))
    → IsToldLoop ((elim o as (λ _. C Extracted) [ none ↦ ret invalid | some a ↦ f a ]) e)
option-IsToldLoop none f e h = tt
option-IsToldLoop (some a) f e h = h a e

loop-IsTold :
    (py : Python) (s : LogData) (i : ℕ) (ids : Items) (b : List ℕ) (e : Option Exc)
    → IsToldLoop (extract_loop py s i ids b e)
unfolding extract_loop
loop-IsTold py s i nil b e = tt
loop-IsTold py s i (cons id ids) b e = elim-IsToldLoop (identify id e) _ (λ parser e1.
    option-IsToldLoop parser _ e1 (λ p e2.
      field-IsTold i (parse_field py s p.0 p.1 b e2) (extract_loop py s (suc i) ids)
        (parse_field-IsTold py s p.0 p.1 b e2) (loop-IsTold py s (suc i) ids)))

pub extract_loop-failed :
    (py : Python) (s : LogData) (i k : ℕ) (ids : Items) (b : List ℕ) (e e' : Option Exc)
    → extract_loop py s i ids b e ≡ ends (failed_field k) e'
    → (x : Exc) × (e' ≡ some x)
extract_loop-failed py s i k ids b e none run =
    absurd (subst IsToldLoop run (loop-IsTold py s i ids b e))
extract_loop-failed py s i k ids b e (some x) run = (x, refl)

pub extract_vals-failed :
    (py : Python) (s : LogData) (i : ℕ) (ids : Items) (b : List ℕ) (e e' : Option Exc)
    → extract_loop py s 0 ids b e ≡ ends (failed_field i) e'
    → extract_vals_from_frame py s (bytes_obj b) (list_obj ids) e
      ≡ ends (some (no_vals (codes "Failed to parse field " ++ py.decimal (pos i)))) e'
unfolding extract_vals_from_frame extract_reply
extract_vals-failed py s i ids b e e' run = rw (extract_vals_from_frame, ◌>>=◌, run) refl
