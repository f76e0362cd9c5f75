-- ===== src/Log/Formats/Valid.antt =====
-- The table of formats that process_fmts makes.
use p.Common.{
  ◌≡◌, refl, subst, Bool, true, false, Bool-cases, Option, none, some, Option-cases, inl, inr, pos,
  if◌then◌else◌, codes, List, [], ◌∷◌, All,
}
use p.Log.Object.{
  Text, Object, int_obj, str_obj, list_obj, tuple_obj, dict_obj, Items, nil, cons, Entries, end,
  entry,
}
use p.Log.Python.{unhashable, Exc, Result, fault, ends, C, ◌>>=◌, ret, Python}
use p.Log.Cbor.{Item, absent, array, Array, stop, item, Pairs, done, pair}
use p.Log.Data.{
  ParserType, parser_int32, parser_uint32, parser_int64, parser_uint64, parser_double,
  parser_pointer, parser_bytes, parser_string, parser_sym, parser_enum, parser_unknown,
  parser_number,
}
use p.Log.Convert.{hashable, set_item, cbor_item_to_pyobject, array_to_items}
use p.Log.Spec.{c_fndecode, named_parser, parser_id, strcmp_equal}
use p.Log.Formats.{
  set_unchecked, parser_ids, array_of, five_tuple, Entry, fails, skips, stores, stored,
  format_entry, fmts_loop, pairs_of, process_fmts,
}

abbrev pub IsKnown : ParserType → Type 0
IsKnown parser_unknown = ⊥
IsKnown t = Unit {0}

-- An identifier that names a parser
abbrev pub IsParser : Object → Type 0
IsParser (int_obj z) = (t : ParserType) × (z ≡ pos (parser_number t)) × IsKnown t
IsParser (tuple_obj (cons id (cons (str_obj name) nil))) = id ≡ parser_id parser_enum
IsParser _ = ⊥

abbrev pub AllParsers : Items → Type 0
AllParsers nil = Unit {0}
AllParsers (cons id ids) = IsParser id × AllParsers ids

-- A list, or a tuple of five whose last is a list of identifiers
abbrev pub IsFormat : Object → Type 0
IsFormat (list_obj vs) = Unit {0}
IsFormat (tuple_obj (cons a (cons b (cons c (cons d (cons (list_obj ids) nil)))))) = AllParsers ids
IsFormat _ = ⊥

abbrev pub IsTable : Entries → Type 0
IsTable end = Unit {0}
IsTable (entry k v es) = IsFormat v × IsTable es

-- What a call makes, if it does not give NULL
abbrev pub Makes : {A : Type 0} → (A → Type 0) → Result (Option A) → Type 0
Makes P (ends (some a) e) = P a
Makes P _ = Unit {0}

module _ {A B : Type 0} (P : B → Type 0) where
  pub then-Makes :
      (r : Result A) (f : A → C (Option B))
      → ((a : A) (e : Option Exc) → Makes P (f a e))
      → Makes P (elim r [ fault ↦ fault | ends a e ↦ f a e ])
  then-Makes fault f h = tt
  then-Makes (ends a e) f h = h a e

  pub option-Makes :
      (o : Option A) (f : A → C (Option B)) (e : Option Exc)
      → ((a : A) → Makes P (f a e))
      → Makes P ((elim o as (λ _. C (Option B)) [ none ↦ ret none | some a ↦ f a ]) e)
  option-Makes none f e h = tt
  option-Makes (some a) f e h = h a

  -- Both, for a call that gives NULL or a value of its own kind
  pub made-Makes :
      (Q : A → Type 0) (r : Result (Option A)) (f : A → C (Option B))
      → Makes Q r
      → ((a : A) (e : Option Exc) → Q a → Makes P (f a e))
      → Makes P (elim r [
        | fault ↦ fault
        | ends o e ↦ (elim o as (λ _. C (Option B)) [ none ↦ ret none | some a ↦ f a ]) e
      ])
  made-Makes Q fault f q h = tt
  made-Makes Q (ends none e) f q h = tt
  made-Makes Q (ends (some a) e) f q h = h a e q

cond-Makes :
    {A : Type 0} (P : A → Type 0) (c : Bool) (m k : C (Option A)) (e : Option Exc)
    → Makes P (m e)
    → Makes P (k e)
    → Makes P ((if c then m else k) e)
cond-Makes P true m k e hm hk = hm
cond-Makes P false m k e hm hk = hk

abbrev IsNamed : Option ParserType → Type 0
IsNamed none = Unit {0}
IsNamed (some t) = IsKnown t

-- The first of these parsers whose test holds
abbrev choose : List (Bool × ParserType) → Option ParserType
choose [] = none
choose ((c, t) ∷ cs) = if c then some t else choose cs

choose-IsNamed : (cs : List (Bool × ParserType)) → All (λ c. IsKnown (c.1)) cs → IsNamed (choose cs)
choose-IsNamed [] h = tt
choose-IsNamed ((true, t) ∷ cs) h = h.0
choose-IsNamed ((false, t) ∷ cs) h = choose-IsNamed cs h.1

named-IsNamed : (t : Text) → IsNamed (named_parser t)
unfolding named_parser
named-IsNamed t =
    choose-IsNamed
      ((strcmp_equal t (codes "int32"), parser_int32)
        ∷ (strcmp_equal t (codes "uint32"), parser_uint32)
        ∷ (strcmp_equal t (codes "int64"), parser_int64)
        ∷ (strcmp_equal t (codes "uint64"), parser_uint64)
        ∷ (strcmp_equal t (codes "double"), parser_double)
        ∷ (strcmp_equal t (codes "pointer"), parser_pointer)
        ∷ (strcmp_equal t (codes "bytes"), parser_bytes)
        ∷ (strcmp_equal t (codes "string"), parser_string)
        ∷ (strcmp_equal t (codes "sym"), parser_sym)
        ∷ [])
      (tt, (tt, (tt, (tt, (tt, (tt, (tt, (tt, (tt, tt)))))))))

fndecode-IsParser : (spec : Object) (e : Option Exc) → Makes IsParser (c_fndecode spec e)
unfolding c_fndecode
fndecode-IsParser (str_obj t) e = elim (Option-cases (named_parser t)) [
  | inl unknown ↦ rw (c_fndecode, unknown) tt
  | inr (p, known) ↦ rw (c_fndecode, known) (p, refl, subst IsNamed known (named-IsNamed t))
]
fndecode-IsParser (list_obj (cons (str_obj p0) (cons (str_obj p1) nil))) e =
    cond-Makes IsParser (strcmp_equal p0 (codes "enum")) _ _ e refl tt
fndecode-IsParser _ e = tt

parser_ids-AllParsers :
    (py : Python) (xs : Array) (e : Option Exc) → Makes AllParsers (parser_ids py xs e)
unfolding parser_ids
parser_ids-AllParsers py stop e = tt
parser_ids-AllParsers py (item x xs) e =
    then-Makes AllParsers (cbor_item_to_pyobject py x e) _ (λ spec e1.
      option-Makes AllParsers spec _ e1 (λ s.
        made-Makes AllParsers IsParser (c_fndecode s e1) _ (fndecode-IsParser s e1) (λ id e2 valid.
          made-Makes AllParsers AllParsers (parser_ids py xs e2) _ (parser_ids-AllParsers py xs e2)
            (λ ids e3 rest. (valid, rest)))))

five_tuple-IsFormat :
    (py : Python) (a b c d f : Item) (e : Option Exc) → Makes IsFormat (five_tuple py a b c d f e)
unfolding five_tuple
five_tuple-IsFormat py a b c d f e =
    then-Makes IsFormat (cbor_item_to_pyobject py a e) _ (λ level e1.
      then-Makes IsFormat (cbor_item_to_pyobject py b e1) _ (λ fname e2.
        then-Makes IsFormat (cbor_item_to_pyobject py c e2) _ (λ line e3.
          then-Makes IsFormat (cbor_item_to_pyobject py d e3) _ (λ clean_fmt e4.
            option-Makes IsFormat level _ e4 (λ l. option-Makes IsFormat fname _ e4 (λ n.
              option-Makes IsFormat line _ e4 (λ m. option-Makes IsFormat clean_fmt _ e4 (λ t.
                then-Makes IsFormat (array_of f e4) _ (λ specs e5.
                  made-Makes IsFormat AllParsers (parser_ids py specs e5) _
                    (parser_ids-AllParsers py specs e5) (λ ids e6 valid. valid))))))))))

-- An array becomes a list.
array-IsFormat :
    (py : Python) (xs : Array) (e : Option Exc)
    → Makes IsFormat (cbor_item_to_pyobject py (array xs) e)
unfolding cbor_item_to_pyobject
array-IsFormat py xs e =
    then-Makes IsFormat (array_to_items py xs e) _
      (λ vs e1. option-Makes IsFormat vs _ e1 (λ list. tt))

-- An entry that is stored is a format.
abbrev Stores : Result Entry → Type 0
Stores (ends (stores v) e) = IsFormat v
Stores _ = Unit {0}

stored-Stores :
    (r : Result (Option Object))
    → Makes IsFormat r
    → Stores (elim r [ fault ↦ fault | ends v e ↦ ends (stored v) e ])
stored-Stores fault h = tt
stored-Stores (ends none e) h = tt
stored-Stores (ends (some v) e) h = h

entry-Stores : (py : Python) (v : Item) (e : Option Exc) → Stores (format_entry py v e)
unfolding format_entry
entry-Stores py absent e = tt
entry-Stores py (array (item a (item b (item c stop)))) e =
    stored-Stores (cbor_item_to_pyobject py (array (item a (item b (item c stop)))) e)
      (array-IsFormat py _ e)
entry-Stores py (array (item a (item b (item c (item d (item f stop)))))) e =
    stored-Stores (five_tuple py a b c d f e) (five_tuple-IsFormat py a b c d f e)
entry-Stores py _ e = tt

set_item-IsTable :
    (py : Python) (es : Entries) (key value : Object)
    → IsTable es
    → IsFormat value
    → IsTable (set_item py es key value)
unfolding set_item
set_item-IsTable py end key value h f = (f, tt)
set_item-IsTable py (entry k v es) key value h f = elim (Bool-cases (py.same_key k key)) [
  | inl same ↦ rw (set_item, same) (f, h.1)
  | inr other ↦ rw (set_item, other) (h.0, set_item-IsTable py es key value h.1 f)
]

-- What a loop makes of a table
entry_step :
    (py : Python) (ps : Pairs) (dict : Entries) (key : Object) (r : Result Entry)
    → IsTable dict
    → Stores r
    → ((dict' : Entries) (e : Option Exc) → IsTable dict' → Makes IsTable (fmts_loop py ps dict' e))
    → Makes IsTable (elim r [
      | fault ↦ fault
      | ends x e ↦
          (elim x as (λ _. C (Option Entries)) [
            | fails ↦ ret none
            | skips ↦ fmts_loop py ps dict
            | stores v ↦ set_unchecked py dict key v >>= λ dict'. fmts_loop py ps dict'
          ])
            e
    ])
unfolding set_unchecked
entry_step py ps dict key fault t h later = tt
entry_step py ps dict key (ends fails e) t h later = tt
entry_step py ps dict key (ends skips e) t h later = later dict e t
entry_step py ps dict key (ends (stores v) e) t h later = elim (Bool-cases (hashable key)) [
  | inl ok ↦
      rw (set_unchecked, ok, ◌>>=◌)
        (later (set_item py dict key v) e (set_item-IsTable py dict key v t h))
  | inr refused ↦ rw (set_unchecked, refused, ◌>>=◌) (later dict (some unhashable) t)
]

loop-IsTable :
    (py : Python) (ps : Pairs) (dict : Entries) (e : Option Exc)
    → IsTable dict
    → Makes IsTable (fmts_loop py ps dict e)
unfolding fmts_loop
loop-IsTable py done dict e t = t
loop-IsTable py (pair k v ps) dict e t =
    then-Makes IsTable (cbor_item_to_pyobject py k e) _ (λ key e1.
      option-Makes IsTable key _ e1 (λ o.
        entry_step py ps dict o (format_entry py v e1) t (entry-Stores py v e1)
          (loop-IsTable py ps)))

abbrev pub IsTableObject : Object → Type 0
IsTableObject (dict_obj es) = IsTable es
IsTableObject o = ⊥

pub process_fmts-IsTableObject :
    (py : Python) (x : Item) (e : Option Exc) → Makes IsTableObject (process_fmts py x e)
unfolding process_fmts
process_fmts-IsTableObject py x e = then-Makes IsTableObject (pairs_of x e) _ (λ ps e1.
    made-Makes IsTableObject IsTable (fmts_loop py ps end e1) _ (loop-IsTable py ps end e1 tt)
      (λ es e2 t. t))
