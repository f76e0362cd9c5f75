-- ===== src/Log/References/Items.antt =====
-- The references of `cbor_item_to_pyobject`. A value of none is NULL.
use p.Common.{Bool, true, false, ℕ, true, false, Option, none, some}
use p.Log.Cbor.{
  Item, absent, uint, negint, bytestring, text_string, array, map, boolean, null, float, tag, Array,
  stop, item, Pairs, done, pair,
}
use p.Log.References.{Calls, Own, ◌>>=◌, ◌>>◌, ret, new_ref, make, asks, release, get_item}

-- A list that is a key is made a tuple; the list is released in either case.
unfoldable pub key_ref : Calls → Item → ℕ → Own (Option ℕ)
key_ref ok (array xs) key = do tuple_key ← make ok; release key; ret tuple_key
key_ref ok _ key = ret (some key)

-- The value of a pair, when the key has been converted: false where NULL is returned
unfoldable pub value_ref : Calls → ℕ → ℕ → Own (Option ℕ) → Own Bool
value_ref ok dict key converted = do
  value ← converted
  elim value [
    | none ↦ do release key; release dict; ret false
    | some val ↦ do
      set ← asks ok
      elim set [
        | false ↦ do release key; release val; release dict; ret false
        | true ↦ do release key; release val; ret true
      ]
  ]

unfoldable mutual
  pub item_ref : Calls → Item → Own (Option ℕ)
  item_ref ok absent = new_ref
  item_ref ok (uint n) = make ok
  item_ref ok (negint n) = make ok
  item_ref ok (bytestring xs) = make ok
  item_ref ok (text_string xs) = make ok
  item_ref ok (array xs) = do
    list ← make ok
    elim list [ none ↦ ret none | some h ↦ array_refs ok h xs ]
  item_ref ok (map ps) = do
    dict ← make ok
    elim dict [ none ↦ ret none | some h ↦ map_refs ok h ps ]
  item_ref ok (boolean b) = new_ref
  item_ref ok null = new_ref
  item_ref ok (float bits) = make ok
  item_ref ok tag = ret none

  -- The loop over an array, with the list that is built
  pub array_refs : Calls → ℕ → Array → Own (Option ℕ)
  array_refs ok list stop = ret (some list)
  array_refs ok list (item x xs) = do
    get_item
    val ← item_ref ok x
    elim val [ none ↦ do release list; ret none | some v ↦ do release v; array_refs ok list xs ]

  -- The loop over a map, with the dict that is built
  pub map_refs : Calls → ℕ → Pairs → Own (Option ℕ)
  map_refs ok dict done = ret (some dict)
  map_refs ok dict (pair k v ps) = do
    converted ← item_ref ok k
    elim converted [
      | none ↦ do release dict; ret none
      | some list ↦ do
        hashable ← key_ref ok k list
        elim hashable [
          | none ↦ do release dict; ret none
          | some key ↦ do
            whole ← value_ref ok dict key (item_ref ok v)
            elim whole [ false ↦ ret none | true ↦ map_refs ok dict ps ]
        ]
    ]
