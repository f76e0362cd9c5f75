-- ===== src/Log/References/Formats.antt =====
-- The references of `process_fmts`.
use p.Common.{ℕ, Bool, true, false, Option, none, some}
use p.Log.Cbor.{Item, absent, text_string, array, map, Array, stop, item, Pairs, done, pair}
use p.Log.References.{
  crash, xrelease, release_parts, Calls, Own, ◌>>=◌, ◌>>◌, ret, new_ref, make, asks, release,
  get_item,
}
use p.Log.References.Items.{item_ref}

-- cbor_item_to_pyobject on what cbor_array_get gives
unfoldable pub element_ref : Calls → Item → Own (Option ℕ)
element_ref ok x = do get_item; item_ref ok x

-- c_fndecode on the object of this item. The number of a parser is small, so that the call for it
-- does not fail; that a text is none of the known ones is a call that fails.
unfoldable pub parser_ref : Calls → Item → Own (Option ℕ)
parser_ref ok (text_string xs) = make ok
parser_ref ok (array (item x (item y stop))) = do
  enum ← asks ok
  elim enum [
    | false ↦ ret none
    | true ↦ do type_obj ← new_ref; tuple ← make ok; xrelease type_obj; ret tuple
  ]
parser_ref ok _ = ret none

-- The loop over the names of parsers: whether it goes on to the end
unfoldable pub parser_refs : Calls → Array → Own Bool
parser_refs ok stop = ret true
parser_refs ok (item x xs) = do
  spec ← element_ref ok x
  elim spec [
    | none ↦ ret false
    | some parser_spec ↦ do
      id ← parser_ref ok x
      release parser_spec
      elim id [ none ↦ ret false | some parser_id ↦ do release parser_id; parser_refs ok xs ]
  ]

-- NULL is returned when the key and the dict have been released.
abbrev pub row_fails : ℕ → ℕ → Own Bool
row_fails dict key = do release key; release dict; ret false

-- The dict takes references of its own, or does not: its answer is not looked at.
abbrev pub row_ends : Calls → ℕ → ℕ → Own Bool
row_ends ok key value = do asks ok; release value; release key; ret true

-- The tuple, when the list of parsers has been filled
unfoldable pub packed_ref : Calls → ℕ → ℕ → ℕ → ℕ → ℕ → ℕ → ℕ → Own Bool
packed_ref ok dict key level fname line clean_fmt list = do
  tuple ← make ok
  release_parts (some level) (some fname) (some line) (some clean_fmt) (do
    release list
    elim tuple [ none ↦ row_fails dict key | some final_tuple ↦ row_ends ok key final_tuple ])

-- The parser list and the tuple, when the four parts have been converted
unfoldable pub tuple_ref : Calls → ℕ → ℕ → ℕ → ℕ → ℕ → ℕ → Item → Own Bool
tuple_ref ok dict key level fname line clean_fmt (array specs) = do
  ids ← make ok
  elim ids [
    | none ↦
        release_parts (some level) (some fname) (some line) (some clean_fmt) (row_fails dict key)
    | some list ↦ do
      filled ← parser_refs ok specs
      elim filled [
        | false ↦ do
          release list
          release_parts (some level) (some fname) (some line) (some clean_fmt) (row_fails dict key)
        | true ↦ packed_ref ok dict key level fname line clean_fmt list
      ]
  ]
tuple_ref ok dict key level fname line clean_fmt _ = crash

-- Behind the conversions of the parts, of which any may be NULL
unfoldable pub parts_ref :
    Calls → ℕ → ℕ → Option ℕ → Option ℕ → Option ℕ → Option ℕ → Item → Own Bool
parts_ref ok dict key (some level) (some fname) (some line) (some clean_fmt) specs =
    tuple_ref ok dict key level fname line clean_fmt specs
parts_ref ok dict key level fname line clean_fmt specs =
    release_parts level fname line clean_fmt (row_fails dict key)

unfoldable pub five_ref : Calls → ℕ → ℕ → Item → Item → Item → Item → Item → Own Bool
five_ref ok dict key i0 i1 i2 i3 i4 = do
  level ← element_ref ok i0
  fname ← element_ref ok i1
  line ← element_ref ok i2
  clean_fmt ← element_ref ok i3
  get_item
  parts_ref ok dict key level fname line clean_fmt i4

-- One entry of the table: false where NULL is returned, true where the loop goes on
unfoldable pub row_ref : Calls → ℕ → ℕ → Item → Own Bool
row_ref ok dict key absent = crash
row_ref ok dict key (array (item a (item b (item c stop)))) = do
  value ← item_ref ok (array (item a (item b (item c stop))))
  elim value [ none ↦ row_fails dict key | some val_tuple ↦ row_ends ok key val_tuple ]
row_ref ok dict key (array (item a (item b (item c (item d (item e stop)))))) =
    five_ref ok dict key a b c d e
row_ref ok dict key _ = do release key; ret true

unfoldable pub rows_ref : Calls → ℕ → Pairs → Own (Option ℕ)
rows_ref ok dict done = ret (some dict)
rows_ref ok dict (pair k v ps) = do
  converted ← item_ref ok k
  elim converted [
    | none ↦ do release dict; ret none
    | some key ↦ do
      whole ← row_ref ok dict key v
      elim whole [ false ↦ ret none | true ↦ rows_ref ok dict ps ]
  ]

unfoldable pub fmts_ref : Calls → Item → Own (Option ℕ)
fmts_ref ok (map ps) = do dict ← make ok; elim dict [ none ↦ ret none | some h ↦ rows_ref ok h ps ]
fmts_ref ok _ = crash
