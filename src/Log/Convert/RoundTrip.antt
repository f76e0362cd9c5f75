-- ===== src/Log/Convert/RoundTrip.antt =====
-- What cbor_item_to_pyobject makes of the items that encode an object. `encode` stands for the
-- encoding of texts as UTF-8.
use p.Common.{
  ℕ, ◌-◌, ◌%◌, ◌^◌, ◌<◌, ◌≡◌, refl, sym, ap, ◌∙◌, true, false, List, Option, some, pos, negsuc,
  arith, ge→ltb,
}
use p.Log.Object.{
  Text, Object, none_obj, bool_obj, int_obj, float_obj, bytes_obj, str_obj, list_obj, tuple_obj,
  dict_obj, other_obj, Items, nil, cons, Entries, end, entry,
}
use p.Log.Python.{Exc, ends, ◌>>=◌, Python, unicode_of}
use p.Log.Cbor.{
  Item, uint, negint, bytestring, text_string, array, map, boolean, null, float, tag, Array, stop,
  item, Pairs, done, pair,
}
use p.Log.Convert.{
  hashable, set_item, negative, as_key, cbor_item_to_pyobject, array_to_items, pairs_to_entries,
}

module _ (py : Python) (encode : Text → List ℕ) where
  -- The item of an object, of a key, and of what they hold. CBOR has no tuples: those that are
  -- keys become arrays.
  unfoldable mutual
    pub item_of : Object → Item
    item_of none_obj = null
    item_of (bool_obj b) = boolean b
    item_of (int_obj (pos n)) = uint n
    item_of (int_obj (negsuc n)) = negint n
    item_of (float_obj bits) = float bits
    item_of (bytes_obj xs) = bytestring xs
    item_of (str_obj t) = text_string (encode t)
    item_of (list_obj vs) = array (array_of vs)
    item_of (tuple_obj vs) = array (array_of vs)
    item_of (dict_obj es) = map (pairs_of es)
    item_of (other_obj n) = tag

    pub array_of : Items → Array
    array_of nil = stop
    array_of (cons v vs) = item (item_of v) (array_of vs)

    pub pairs_of : Entries → Pairs
    pairs_of end = done
    pairs_of (entry k v es) = pair (item_of k) (item_of v) (pairs_of es)

  -- No key of the entries is equal to this one.
  abbrev pub Fresh : Entries → Object → Type 0
  Fresh end key = Unit
  Fresh (entry k v es) key = (py.same_key k key ≡ false) × Fresh es key

  abbrev pub snoc : Entries → Object → Object → Entries
  snoc end key value = entry key value end
  snoc (entry k v es) key value = entry k v (snoc es key value)

  -- Entries whose keys differ from those before them
  abbrev pub DistinctFrom : Entries → Entries → Type 0
  DistinctFrom dict end = Unit
  DistinctFrom dict (entry k v es) = Fresh dict k × DistinctFrom (snoc dict k v) es

  -- Objects that CBOR and the conversion can hold: integers from - 2 ^ 63 to 2 ^ 64 - 1, texts that
  -- the decoder of UTF-8 gives back, and no tuple but as a key.
  unfoldable mutual
    pub IsLoadable : Object → Type 0
    IsLoadable none_obj = Unit
    IsLoadable (bool_obj b) = Unit
    IsLoadable (int_obj (pos n)) = n < 2 ^ 64
    IsLoadable (int_obj (negsuc n)) = n < 2 ^ 63
    IsLoadable (float_obj bits) = Unit
    IsLoadable (bytes_obj xs) = Unit
    IsLoadable (str_obj t) = py.utf8 (encode t) ≡ some t
    IsLoadable (list_obj vs) = AreLoadable vs
    IsLoadable (tuple_obj vs) = ⊥
    IsLoadable (dict_obj es) = HasLoadable es × DistinctFrom end es
    IsLoadable (other_obj n) = ⊥

    pub AreLoadable : Items → Type 0
    AreLoadable nil = Unit
    AreLoadable (cons v vs) = IsLoadable v × AreLoadable vs

    pub HasLoadable : Entries → Type 0
    HasLoadable end = Unit
    HasLoadable (entry k v es) = IsKey k × (hashable k ≡ true) × IsLoadable v × HasLoadable es

    pub IsKey : Object → Type 0
    IsKey (tuple_obj vs) = AreLoadable vs
    IsKey (list_obj vs) = ⊥
    IsKey none_obj = Unit
    IsKey (bool_obj b) = Unit
    IsKey (int_obj (pos n)) = n < 2 ^ 64
    IsKey (int_obj (negsuc n)) = n < 2 ^ 63
    IsKey (float_obj bits) = Unit
    IsKey (bytes_obj xs) = Unit
    IsKey (str_obj t) = py.utf8 (encode t) ≡ some t
    IsKey (dict_obj es) = ⊥
    IsKey (other_obj n) = ⊥

  set_item-snoc :
      (dict : Entries) (key value : Object)
      → Fresh dict key
      → set_item py dict key value ≡ snoc dict key value
  unfolding set_item
  set_item-snoc end key value h = refl
  set_item-snoc (entry k v es) key value h =
      rw (set_item, h.0) (ap (entry k v) (set_item-snoc es key value h.1))

  negative_lem : (n : ℕ) → n < 2 ^ 63 → negative n ≡ negsuc n
  unfolding negative
  negative_lem n h =
      rw (ge→ltb (2 ^ 64 - 1 - n % 2 ^ 64) (2 ^ 63) (omega arith)) (ap negsuc (omega arith))

  text_lem :
      (t : Text) (e : Option Exc)
      → py.utf8 (encode t) ≡ some t
      → unicode_of py (encode t) e ≡ ends (some (str_obj t)) e
  unfolding unicode_of
  text_lem t e h = rw (unicode_of, h) refl

  abbrev append : Entries → Entries → Entries
  append end es = es
  append (entry k v dict) es = entry k v (append dict es)

  append-end : (dict : Entries) → append dict end ≡ dict
  append-end end = refl
  append-end (entry k v dict) = ap (entry k v) (append-end dict)

  append-snoc :
      (dict es : Entries) (k v : Object) → append (snoc dict k v) es ≡ append dict (entry k v es)
  append-snoc end es k v = refl
  append-snoc (entry k' v' dict) es k v = ap (entry k' v') (append-snoc dict es k v)

  -- A key comes back as it was, if it is a list by then as a tuple.
  abbrev KeyLoads : Object → Option Exc → Type 0
  KeyLoads k e =
      (k' : Object) × (cbor_item_to_pyobject py (item_of k) e ≡ ends (some k') e) × (as_key k' ≡ k)

  mutual
    unfolding item_of array_of pairs_of IsLoadable AreLoadable HasLoadable IsKey
        cbor_item_to_pyobject array_to_items pairs_to_entries

    item_loads :
        (o : Object) (e : Option Exc)
        → IsLoadable o
        → cbor_item_to_pyobject py (item_of o) e ≡ ends (some o) e
    item_loads none_obj e h = refl
    item_loads (bool_obj b) e h = refl
    item_loads (int_obj (pos n)) e h = refl
    item_loads (int_obj (negsuc n)) e h = ap (λ z. ends (some (int_obj z)) e) (negative_lem n h)
    item_loads (float_obj bits) e h = refl
    item_loads (bytes_obj xs) e h = refl
    item_loads (str_obj t) e h = text_lem t e h
    item_loads (list_obj vs) e h = rw (◌>>=◌, items_load vs e h) refl
    item_loads (tuple_obj vs) e h = absurd h
    item_loads (dict_obj es) e h = rw (◌>>=◌, pairs_load es end e h.0 h.1) refl
    item_loads (other_obj n) e h = absurd h

    items_load :
        (vs : Items) (e : Option Exc)
        → AreLoadable vs
        → array_to_items py (array_of vs) e ≡ ends (some vs) e
    items_load nil e h = refl
    items_load (cons v vs) e h =
        rw (array_to_items, ◌>>=◌, item_loads v e h.0, items_load vs e h.1) refl

    key_loads : (k : Object) (e : Option Exc) → IsKey k → KeyLoads k e
    key_loads none_obj e h = (none_obj, refl, refl)
    key_loads (bool_obj b) e h = (bool_obj b, refl, refl)
    key_loads (int_obj (pos n)) e h = (int_obj (pos n), refl, refl)
    key_loads (int_obj (negsuc n)) e h =
        (int_obj (negsuc n), ap (λ z. ends (some (int_obj z)) e) (negative_lem n h), refl)
    key_loads (float_obj bits) e h = (float_obj bits, refl, refl)
    key_loads (bytes_obj xs) e h = (bytes_obj xs, refl, refl)
    key_loads (str_obj t) e h = (str_obj t, text_lem t e h, refl)
    key_loads (list_obj vs) e h = absurd h
    key_loads (tuple_obj vs) e h = (list_obj vs, rw (◌>>=◌, items_load vs e h) refl, refl)
    key_loads (dict_obj es) e h = absurd h
    key_loads (other_obj n) e h = absurd h

    pairs_load :
        (es dict : Entries) (e : Option Exc)
        → HasLoadable es
        → DistinctFrom dict es
        → pairs_to_entries py (pairs_of es) dict e ≡ ends (some (append dict es)) e
    pairs_load end dict e h d = ap (λ x. ends (some x) e) (sym (append-end dict))
    pairs_load (entry k v es) dict e h d =
        let (k', loads, same) = key_loads k e h.0 in
        rw
          (
            pairs_to_entries,
            ◌>>=◌,
            loads,
            item_loads v e h.2,
            same,
            h.1,
            same,
            set_item-snoc dict k v d.0,
          )
          (pairs_load es (snoc dict k v) e h.3 d.1
            ∙ ap (λ x. ends (some x) e) (append-snoc dict es k v))

-- cbor_item_to_pyobject gives back an object from the item that encodes it, and leaves the
-- interpreter's error indicator as it was, if the object is built of None, bools, floats, bytes,
-- integers from - 2 ^ 63 to 2 ^ 64 - 1, texts that the decoder of UTF-8 gives back, lists, and
-- dicts with hashable keys of which none is equal to one before it; a key may also be a tuple of
-- such objects.
pub cbor_item_to_pyobject-item_of :
    (py : Python) (encode : Text → List ℕ) (o : Object) (e : Option Exc)
    → IsLoadable py encode o
    → cbor_item_to_pyobject py (item_of py encode o) e ≡ ends (some o) e
cbor_item_to_pyobject-item_of py encode o e h = item_loads py encode o e h
