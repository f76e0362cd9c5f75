-- ===== src/Log/Convert.antt =====
-- `cbor_item_to_pyobject`. A value of none is NULL.
pub mod RoundTrip
use p.Common.{
  ℕ, ◌-◌, ◌%◌, ◌^◌, Bool, true, false, Option, none, some, if◌then◌else◌, ◌&&◌, ℤ, pos, to_signed,
}
use p.Log.Object.{
  Object, none_obj, bool_obj, int_obj, float_obj, bytes_obj, list_obj, tuple_obj, dict_obj, Items,
  nil, cons, Entries, end, entry,
}
use p.Log.Python.{unsupported_cbor, unhashable, C, ◌>>=◌, ret, raising, Python, unicode_of}
use p.Log.Cbor.{
  Item, absent, uint, negint, bytestring, text_string, array, map, boolean, null, float, tag, Array,
  stop, item, Pairs, done, pair,
}

-- Whether an object can be the key of a dict
unfoldable mutual
  pub hashable : Object → Bool
  hashable (list_obj vs) = false
  hashable (dict_obj es) = false
  hashable (tuple_obj vs) = all_hashable vs
  hashable _ = true

  pub all_hashable : Items → Bool
  all_hashable nil = true
  all_hashable (cons v vs) = hashable v && all_hashable vs

-- PyDict_SetItem with a hashable key: an equal key keeps its place.
unfoldable pub set_item : Python → Entries → Object → Object → Entries
set_item py end key value = entry key value end
set_item py (entry k v es) key value =
    let rest = entry k v (set_item py es key value) in
    if py.same_key k key then entry k value es else rest

-- -1LL - n is computed without a sign, and read as a long long.
unfoldable pub negative : ℕ → ℤ
negative n = to_signed 64 (2 ^ 64 - 1 - n % 2 ^ 64)

-- A list that is a key is made a tuple.
unfoldable pub as_key : Object → Object
as_key (list_obj vs) = tuple_obj vs
as_key o = o

unfoldable mutual
  unfolding negative as_key

  pub cbor_item_to_pyobject : Python → Item → C (Option Object)
  cbor_item_to_pyobject py absent = ret (some none_obj)
  cbor_item_to_pyobject py (uint n) = ret (some (int_obj (pos n)))
  cbor_item_to_pyobject py (negint n) = ret (some (int_obj (negative n)))
  cbor_item_to_pyobject py (bytestring xs) = ret (some (bytes_obj xs))
  cbor_item_to_pyobject py (text_string xs) = unicode_of py xs
  cbor_item_to_pyobject py (array xs) = do
    vs ← array_to_items py xs
    elim vs [ none ↦ ret none | some list ↦ ret (some (list_obj list)) ]
  cbor_item_to_pyobject py (map ps) = do
    es ← pairs_to_entries py ps end
    elim es [ none ↦ ret none | some dict ↦ ret (some (dict_obj dict)) ]
  cbor_item_to_pyobject py (boolean b) = ret (some (bool_obj b))
  cbor_item_to_pyobject py null = ret (some none_obj)
  cbor_item_to_pyobject py (float bits) = ret (some (float_obj bits))
  cbor_item_to_pyobject py tag = raising unsupported_cbor none

  pub array_to_items : Python → Array → C (Option Items)
  array_to_items py stop = ret (some nil)
  array_to_items py (item x xs) = do
    val ← cbor_item_to_pyobject py x
    elim val [
      | none ↦ ret none
      | some v ↦ do
        vs ← array_to_items py xs
        elim vs [ none ↦ ret none | some list ↦ ret (some (cons v list)) ]
    ]

  -- The dict so far, and the pairs that follow
  pub pairs_to_entries : Python → Pairs → Entries → C (Option Entries)
  pairs_to_entries py done dict = ret (some dict)
  pairs_to_entries py (pair k v ps) dict = do
    key ← cbor_item_to_pyobject py k
    elim key [
      | none ↦ ret none
      | some key_obj ↦ do
        val ← cbor_item_to_pyobject py v
        elim val [
          | none ↦ ret none
          | some val_obj ↦ elim (hashable (as_key key_obj)) [
            | true ↦ pairs_to_entries py ps (set_item py dict (as_key key_obj) val_obj)
            | false ↦ raising unhashable none
          ]
        ]
    ]
