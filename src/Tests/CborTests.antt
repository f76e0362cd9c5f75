-- ===== src/Tests/CborTests.antt =====
-- The conversion of CBOR items on a nested object.
use p.Common.{◌≡◌, refl, true, some, none, pos, negsuc, codes, arith}
use p.Log.Object.{
  Object, int_obj, bool_obj, none_obj, str_obj, list_obj, tuple_obj, dict_obj, nil, cons, end,
  entry,
}
use p.Log.Python.{ends}
use p.Log.Convert.{hashable, cbor_item_to_pyobject}
use p.Log.Convert.RoundTrip.{item_of, IsLoadable, cbor_item_to_pyobject-item_of}
use p.Tests.LogTests.{plain, same}

-- { (1, 2): [True, -5], "x": None }
abbrev nested : Object
nested = dict_obj (
    entry (tuple_obj (cons (int_obj (pos 1)) (cons (int_obj (pos 2)) nil)))
      (list_obj (cons (bool_obj true) (cons (int_obj (negsuc 4)) nil)))
      (entry (str_obj (codes "x")) none_obj end))

nested-IsLoadable : IsLoadable plain (λ t. t) nested
unfolding IsLoadable hashable same
nested-IsLoadable = (
  ((omega arith, (omega arith, tt)), refl, (tt, (omega arith, tt)), (refl, refl, tt, tt)),
  (tt, ((refl, tt), tt)),
)

cbor_item_to_pyobject-item_of_example :
    cbor_item_to_pyobject plain (item_of plain (λ t. t) nested) none ≡ ends (some nested) none
cbor_item_to_pyobject-item_of_example =
    cbor_item_to_pyobject-item_of plain (λ t. t) nested none nested-IsLoadable
