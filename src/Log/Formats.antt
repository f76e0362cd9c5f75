-- ===== src/Log/Formats.antt =====
-- `process_fmts`: the table of formats of a log file.
pub mod Valid
use p.Common.{true, false, Option, none, some}
use p.Log.Object.{Object, list_obj, tuple_obj, dict_obj, Items, nil, cons, Entries, end}
use p.Log.Python.{unhashable, C, ◌>>=◌, ret, crash, raising, Python}
use p.Log.Cbor.{Item, absent, array, map, Array, stop, item, Pairs, done, pair}
use p.Log.Convert.{hashable, set_item, cbor_item_to_pyobject}
use p.Log.Spec.{c_fndecode}

-- PyDict_SetItem, whose result is not looked at
unfoldable pub set_unchecked : Python → Entries → Object → Object → C Entries
set_unchecked py dict key value = elim (hashable key) [
  | true ↦ ret (set_item py dict key value)
  | false ↦ raising unhashable dict
]

-- The loop over the names of parsers
unfoldable pub parser_ids : Python → Array → C (Option Items)
parser_ids py stop = ret (some nil)
parser_ids py (item x xs) = do
  spec ← cbor_item_to_pyobject py x
  elim spec [
    | none ↦ ret none
    | some parser_spec ↦ do
      id ← c_fndecode parser_spec
      elim id [
        | none ↦ ret none
        | some parser_id ↦ do
          rest ← parser_ids py xs
          elim rest [ none ↦ ret none | some ids ↦ ret (some (cons parser_id ids)) ]
      ]
  ]

-- cbor_array_size and cbor_array_get on what is no array are undefined.
unfoldable pub array_of : Item → C Array
array_of (array xs) = ret xs
array_of _ = crash

-- An array of five: the parsers are looked at when the four others have been converted.
unfoldable pub five_tuple : Python → Item → Item → Item → Item → Item → C (Option Object)
five_tuple py i0 i1 i2 i3 i4 = do
  level ← cbor_item_to_pyobject py i0
  fname ← cbor_item_to_pyobject py i1
  line ← cbor_item_to_pyobject py i2
  clean_fmt ← cbor_item_to_pyobject py i3
  elim level [
    | none ↦ ret none
    | some a ↦ elim fname [
      | none ↦ ret none
      | some b ↦ elim line [
        | none ↦ ret none
        | some c ↦ elim clean_fmt [
          | none ↦ ret none
          | some d ↦ do
            specs ← array_of i4
            ids ← parser_ids py specs
            elim ids [
              | none ↦ ret none
              | some list ↦
                  ret (
                    some (tuple_obj (cons a (cons b (cons c (cons d (cons (list_obj list) nil)))))))
            ]
        ]
      ]
    ]
  ]

-- The value for an entry: NULL, none to store, or an object.
pub data Entry : Type 0 where
  fails skips : Entry
  stores : Object → Entry

abbrev stored : Option Object → Entry
stored none = fails
stored (some v) = stores v

unfoldable pub format_entry : Python → Item → C Entry
format_entry py absent = crash
format_entry py (array (item a (item b (item c stop)))) = do
  v ← cbor_item_to_pyobject py (array (item a (item b (item c stop))))
  ret (stored v)
format_entry py (array (item a (item b (item c (item d (item e stop)))))) = do
  v ← five_tuple py a b c d e
  ret (stored v)
format_entry py _ = ret skips

-- The dict so far, and the pairs that follow
unfoldable pub fmts_loop : Python → Pairs → Entries → C (Option Entries)
fmts_loop py done dict = ret (some dict)
fmts_loop py (pair k v ps) dict = do
  key ← cbor_item_to_pyobject py k
  elim key [
    | none ↦ ret none
    | some key_obj ↦ do
      value ← format_entry py v
      elim value [
        | fails ↦ ret none
        | skips ↦ fmts_loop py ps dict
        | stores v_obj ↦ do dict' ← set_unchecked py dict key_obj v_obj; fmts_loop py ps dict'
      ]
  ]

-- cbor_map_size and cbor_map_handle on what is no map are undefined.
unfoldable pub pairs_of : Item → C Pairs
pairs_of (map ps) = ret ps
pairs_of _ = crash

unfoldable pub process_fmts : Python → Item → C (Option Object)
process_fmts py fmts_item = do
  ps ← pairs_of fmts_item
  dict ← fmts_loop py ps end
  elim dict [ none ↦ ret none | some es ↦ ret (some (dict_obj es)) ]
