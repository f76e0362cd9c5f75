-- ===== src/Log/Decode/Loaded.antt =====
-- What the decoder makes of the formats that have been loaded.
use p.Common.{
  ℕ, suc, ◌≡◌, refl, sym, subst, true, Bool-cases, List, Option, none, some, inl, inr, ltb, length,
}
use p.Log.Object.{
  Text, Object, none_obj, int_obj, str_obj, bytes_obj, list_obj, tuple_obj, dict_obj, Items, nil,
  cons, Entries, end, entry,
}
use p.Log.Python.{Exc, Result, fault, ends, C, ret, Python, as_long, get_item}
use p.Log.Data.{
  LogData, ParserType, parser_unknown, parser_int32, parser_uint32, parser_int64, parser_uint64,
  parser_double, parser_pointer, parser_bytes, parser_string, parser_sym, parser_enum, parser_type,
}
use p.Log.Spec.{parser_id}
use p.Log.Field.{Parsed}
use p.Log.Formats.Valid.{IsParser, AllParsers, IsFormat, IsTable, IsTableObject, IsKnown}
use p.Log.Load.{Answers, init, new}
use p.Log.Load.Valid.{Loads, IsLoaded, init-Loads}
use p.Log.Extract.{
  identify, parse_field, Extracted, invalid, failed_field, extracted, with_value, with_field,
  extract_loop, ValsAndError, extract_vals_from_frame, extract_reply, hex_text,
}
use p.Log.Decode.{Format, format_of}

abbrev FoundFormat : Option Object → Type 0
FoundFormat none = Unit {0}
FoundFormat (some v) = IsFormat v

get_item-FoundFormat :
    (py : Python) (es : Entries) (key : Object) → IsTable es → FoundFormat (get_item py es key)
unfolding get_item
get_item-FoundFormat py end key t = tt
get_item-FoundFormat py (entry k v es) key t = elim (Bool-cases (py.same_key k key)) [
  | inl same ↦ rw (get_item, same) t.0
  | inr other ↦ rw (get_item, other) (get_item-FoundFormat py es key t.1)
]

-- A format's parsers are a list of identifiers.
abbrev HasParsers : Option Format → Type 0
HasParsers none = Unit {0}
HasParsers (some fmt) = (ids : Items) × (fmt.parsers ≡ list_obj ids) × AllParsers ids

five-HasParsers :
    (a b c d : Object) (ids : Items)
    → AllParsers ids
    → HasParsers
        (format_of (some (tuple_obj (cons a (cons b (cons c (cons d (cons (list_obj ids) nil))))))))
unfolding format_of
five-HasParsers none_obj b c d ids h = tt
five-HasParsers _ b c d ids h = (ids, refl, h)

format_of-HasParsers : (o : Option Object) → FoundFormat o → HasParsers (format_of o)
unfolding format_of
format_of-HasParsers none h = tt
format_of-HasParsers (some (list_obj vs)) h = tt
format_of-HasParsers
      (some (tuple_obj (cons a (cons b (cons c (cons d (cons (list_obj ids) nil))))))) h =
    five-HasParsers a b c d ids h
format_of-HasParsers (some _) h = absurd h

-- An identifier that names a parser is recognised.
abbrev Recognised : Result (Option (ParserType × Option Object)) → Type 0
Recognised (ends (some (t, extra)) e) = IsKnown t
Recognised _ = ⊥

number-Recognised :
    (t : ParserType) (e : Option Exc) → IsKnown t → Recognised (identify (parser_id t) e)
unfolding identify as_long parser_type
number-Recognised parser_unknown e k = k
number-Recognised parser_int32 e k = tt
number-Recognised parser_uint32 e k = tt
number-Recognised parser_int64 e k = tt
number-Recognised parser_uint64 e k = tt
number-Recognised parser_double e k = tt
number-Recognised parser_pointer e k = tt
number-Recognised parser_bytes e k = tt
number-Recognised parser_string e k = tt
number-Recognised parser_sym e k = tt
number-Recognised parser_enum e k = tt

identify-Recognised : (id : Object) (e : Option Exc) → IsParser id → Recognised (identify id e)
unfolding identify as_long parser_type
identify-Recognised (int_obj z) e (t, is_number, k) =
    subst (λ n. Recognised (identify (int_obj n) e)) (sym is_number) (number-Recognised t e k)
identify-Recognised (tuple_obj (cons id (cons (str_obj name) nil))) e is_enum =
    subst (λ o. Recognised (identify (tuple_obj (cons o (cons (str_obj name) nil))) e))
      (sym is_enum) tt
identify-Recognised _ e h = absurd h

-- The loop does not end with the return of NULL.
abbrev Valid : Result Extracted → Type 0
Valid (ends invalid e) = ⊥
Valid _ = Unit {0}

value-Valid :
    (r : Result Extracted) (v : Object)
    → Valid r
    → Valid (elim r [ fault ↦ fault | ends x e ↦ ends (with_value v x) e ])
value-Valid fault v h = tt
value-Valid (ends invalid e) v h = h
value-Valid (ends (failed_field i) e) v h = tt
value-Valid (ends (extracted vs b) e) v h = tt

field-Valid :
    (i : ℕ) (r : Result Parsed) (next : List ℕ → C Extracted)
    → ((b : List ℕ) (e : Option Exc) → Valid (next b e))
    → Valid (elim r [ fault ↦ fault | ends x e ↦ with_field i x.0 (next x.1) e ])
field-Valid i fault next h = tt
field-Valid i (ends (none, b) e) next h = tt
field-Valid i (ends (some v, b) e) next h = value-Valid (next b e) v (h b e)

named-Valid :
    (r : Result (Option (ParserType × Option Object)))
    (f : ParserType × Option Object → C Extracted)
    → Recognised r
    → ((p : ParserType × Option Object) (e : Option Exc) → Valid (f p e))
    → Valid (elim r [
      | fault ↦ fault
      | ends o e ↦ (elim o as (λ _. C Extracted) [ none ↦ ret invalid | some p ↦ f p ]) e
    ])
named-Valid fault f q h = absurd q
named-Valid (ends none e) f q h = absurd q
named-Valid (ends (some p) e) f q h = h p e

loop-Valid :
    (py : Python) (s : LogData) (i : ℕ) (ids : Items) (b : List ℕ) (e : Option Exc)
    → AllParsers ids
    → Valid (extract_loop py s i ids b e)
unfolding extract_loop
loop-Valid py s i nil b e h = tt
loop-Valid py s i (cons id ids) b e h =
    named-Valid (identify id e) _ (identify-Recognised id e h.0) (λ p e1.
      field-Valid i (parse_field py s p.0 p.1 b e1) (extract_loop py s (suc i) ids)
        (λ b' e2. loop-Valid py s (suc i) ids b' e2 h.1))

-- The function returns values or an error text, not NULL.
abbrev pub IsAnswer : Result (Option ValsAndError) → Type 0
IsAnswer (ends none e) = ⊥
IsAnswer _ = Unit {0}

hex-IsAnswer :
    (r : Result Text) (f : Text → ValsAndError)
    → IsAnswer (elim r [ fault ↦ fault | ends t e ↦ ends (some (f t)) e ])
hex-IsAnswer fault f = tt
hex-IsAnswer (ends t e) f = tt

reply-IsAnswer :
    (py : Python) (r : Result Extracted)
    → Valid r
    → IsAnswer (elim r [ fault ↦ fault | ends x e ↦ extract_reply py x e ])
unfolding extract_reply
reply-IsAnswer py fault h = tt
reply-IsAnswer py (ends invalid e) h = h
reply-IsAnswer py (ends (failed_field i) e) h = tt
reply-IsAnswer py (ends (extracted vs rest) e) h = elim (Bool-cases (ltb 0 (length rest))) [
  | inl more ↦ rw (extract_reply, more) (hex-IsAnswer (hex_text py (bytes_obj rest) e) _)
  | inr all ↦ rw (extract_reply, all) tt
]

extract-IsAnswer :
    (py : Python) (s : LogData) (ids : Items) (b : List ℕ) (parsers : Object) (e : Option Exc)
    → parsers ≡ list_obj ids
    → AllParsers ids
    → IsAnswer (extract_vals_from_frame py s (bytes_obj b) parsers e)
unfolding extract_vals_from_frame
extract-IsAnswer py s ids b parsers e is_list h =
    subst (λ p. IsAnswer (extract_vals_from_frame py s (bytes_obj b) p e)) (sym is_list)
      (reply-IsAnswer py (extract_loop py s 0 ids b e) (loop-Valid py s 0 ids b e h))

loaded-IsTable :
    (s : LogData) (es : Entries) → IsLoaded s → s.fmts ≡ some (dict_obj es) → IsTable es
loaded-IsTable s es l e = subst OptionTable e l
  where
    OptionTable : Option Object → Type 0
    OptionTable o = elim o [ none ↦ Unit {0} | some t ↦ IsTableObject t ]

-- If init has loaded a log file into a new object, whatever the file holds, then with the
-- parsers of every format that decode takes from its table extract_vals_from_frame refuses no
-- identifier: for a frame of bytes it does not return NULL, but values or an error text, unless
-- it does something undefined.
pub extract_vals-IsAnswer :
    (py : Python) (a : Answers) (s : LogData) (e e' : Option Exc) (es : Entries) (key : Object)
    (fmt : Format) (b : List ℕ)
    → init py a new none ≡ ends (s, true) e
    → s.fmts ≡ some (dict_obj es)
    → format_of (get_item py es key) ≡ some fmt
    → IsAnswer (extract_vals_from_frame py s (bytes_obj b) fmt.parsers e')
extract_vals-IsAnswer py a s e e' es key fmt b ready table is_fmt =
    let known = loaded-IsTable s es (subst Loads ready (init-Loads py a none)) table in
    let (ids, is_list, valid) =
      subst HasParsers is_fmt
        (format_of-HasParsers (get_item py es key) (get_item-FoundFormat py es key known)) in
    extract-IsAnswer py s ids b fmt.parsers e' is_list valid
