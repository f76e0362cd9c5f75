-- ===== src/Log/References/Balance.antt =====
-- The references of `cbor_item_to_pyobject`, whichever calls fail.
use p.Common.{Option, ℕ, zero, suc, ◌+◌, ◌≤◌, ◌<◌, ◌≡◌, refl, ◌∙◌, ap, List, ◌∷◌, arith}
use p.Log.Cbor.{
  Item, absent, uint, negint, bytestring, text_string, array, map, boolean, null, float, tag, Array,
  stop, item, Pairs, done, pair,
}
use p.Log.References.{Own, Ledger, Calls, make, asks, get_item}
use p.Log.References.Items.{value_ref, item_ref, array_refs, map_refs, key_ref}
use p.Log.References.Steps.{
  Passed, EndsFrom, new_ref-Ends, make-Ends, Built, new_Built, failed-Ends, finished-Ends, Asked,
  asks-Post,
}
use p.Log.References.Rules.{
  bool-Post, release_two-Post, option-Post, Post, Ends, release-Post, drop-top, drop-under,
}

-- How many items stand in the arrays of an item
unfoldable mutual
  pub elements : Item → ℕ
  elements (array xs) = array_elements xs
  elements (map ps) = map_elements ps
  elements _ = zero

  pub array_elements : Array → ℕ
  array_elements stop = zero
  array_elements (item x xs) = suc (elements x + array_elements xs)

  pub map_elements : Pairs → ℕ
  map_elements done = zero
  map_elements (pair k v ps) = elements k + elements v + map_elements ps

key_ref-Post :
    (ok : Calls) (x : Item) (o : List ℕ) (n key : ℕ) (l : Ledger)
    → l.owned ≡ key ∷ o
    → n ≤ key
    → key < l.next
    → Post (Ends o n l.items 0) (key_ref ok x key l)
unfolding key_ref
key_ref-Post ok (array xs) o n key l e old early =
    option-Post (EndsFrom l 0) (Ends o n l.items 0) (make ok l) _ (make-Ends ok l)
      (λ l' h.
        release-Post (Ends o n l.items 0) key (key ∷ o) o l' _ (h.same ∙ e) (drop-top key o)
          (record { same = refl; from = omega arith; got = h.got }))
      (λ t l' h.
        release-Post (Ends o n l.items 0) key (t ∷ key ∷ o) (t ∷ o) l' _
          (h.same ∙ ap (λ z. t ∷ z) e) (drop-under key t (key ∷ o) o (omega arith) (drop-top key o))
          (record { same = refl; from = (omega arith, omega arith); got = h.got }))
key_ref-Post ok x o n key l e old early = record {
  same = e;
  from = (old, early);
  got = omega arith;
}

value_ref-Post :
    (ok : Calls) (e : ℕ) (o : List ℕ) (dict key : ℕ) (m : Own (Option ℕ)) (l : Ledger)
    → l.owned ≡ key ∷ dict ∷ o
    → key < l.next
    → Post (EndsFrom l e) (m l)
    → Post (Passed (dict ∷ o) o l.next l.items e) (value_ref ok dict key m l)
unfolding value_ref
value_ref-Post ok e o dict key m l s early h =
    let Q = Passed (dict ∷ o) o l.next l.items e in
    option-Post (EndsFrom l e) Q (m l) _ h
      (λ l1 h1.
        release-Post Q key (key ∷ dict ∷ o) (dict ∷ o) l1 _ (h1.same ∙ s) (drop-top key (dict ∷ o))
          (release-Post Q dict (dict ∷ o) o (record l1 { owned = dict ∷ o }) _ refl
            (drop-top dict o) (refl, omega arith, omega arith)))
      (λ val l1 h1.
        bool-Post (Asked l1) Q (asks ok l1) _ (asks-Post ok l1)
          (λ l2 h2.
            release_two-Post Q key val (dict ∷ o) l2 _ (h2.0 ∙ h1.same ∙ ap (λ z. val ∷ z) s)
              (omega arith)
              (release-Post Q dict (dict ∷ o) o (record l2 { owned = dict ∷ o }) _ refl
                (drop-top dict o) (refl, omega arith, omega arith)))
          (λ l2 h2.
            release_two-Post Q key val (dict ∷ o) l2 _ (h2.0 ∙ h1.same ∙ ap (λ z. val ∷ z) s)
              (omega arith) (refl, omega arith, omega arith)))

-- The loops go on with an object under construction.
mutual
  unfolding item_ref array_refs map_refs elements array_elements map_elements get_item

  pub item_ref-Post :
      (ok : Calls) (x : Item) (l : Ledger) → Post (EndsFrom l (elements x)) (item_ref ok x l)
  item_ref-Post ok absent l = new_ref-Ends l
  item_ref-Post ok (uint n) l = make-Ends ok l
  item_ref-Post ok (negint n) l = make-Ends ok l
  item_ref-Post ok (bytestring xs) l = make-Ends ok l
  item_ref-Post ok (text_string xs) l = make-Ends ok l
  item_ref-Post ok (array xs) l =
      option-Post (EndsFrom l 0) (EndsFrom l (array_elements xs)) (make ok l) _ (make-Ends ok l)
        (λ l' h. record { same = h.same; from = h.from; got = h.got })
        (λ list l' h.
          array_refs-Post ok l.owned l.next l.items (array_elements xs) list xs l'
            (new_Built l list l' h) omega arith)
  item_ref-Post ok (map ps) l =
      option-Post (EndsFrom l 0) (EndsFrom l (map_elements ps)) (make ok l) _ (make-Ends ok l)
        (λ l' h. record { same = h.same; from = h.from; got = h.got })
        (λ dict l' h.
          map_refs-Post ok l.owned l.next l.items (map_elements ps) dict ps l'
            (new_Built l dict l' h) (omega arith))
  item_ref-Post ok (boolean b) l = new_ref-Ends l
  item_ref-Post ok null l = new_ref-Ends l
  item_ref-Post ok (float bits) l = make-Ends ok l
  item_ref-Post ok tag l = record { same = refl; from = omega arith; got = omega arith }

  array_refs-Post :
      (ok : Calls) (o : List ℕ) (n i e list : ℕ) (xs : Array) (l : Ledger)
      → Built o n list i l
      → l.items + array_elements xs ≡ i + e
      → Post (Ends o n i e) (array_refs ok list xs l)
  array_refs-Post ok o n i e list stop l b g = finished-Ends o n list i e l b (omega arith)
  array_refs-Post ok o n i e list (item x xs) l b g =
      let l' = record l { items = suc l.items } in
      option-Post (EndsFrom l' (elements x)) (Ends o n i e) (item_ref ok x l') _
        (item_ref-Post ok x l')
        (λ l'' h.
          failed-Ends o n list i e l'' (record {
            same = h.same ∙ b.same;
            old = b.old;
            early = omega arith;
            got = omega arith;
          }))
        (λ v l'' h.
          release-Post (Ends o n i e) v (v ∷ list ∷ o) (list ∷ o) l'' _
            (h.same ∙ ap (λ z. v ∷ z) b.same) (drop-top v (list ∷ o))
            (array_refs-Post ok o n i e list xs (record l'' { owned = list ∷ o })
              (record { same = refl; old = b.old; early = omega arith; got = omega arith }) omega
              arith))

  map_refs-Post :
      (ok : Calls) (o : List ℕ) (n i e dict : ℕ) (ps : Pairs) (l : Ledger)
      → Built o n dict i l
      → l.items + map_elements ps ≡ i + e
      → Post (Ends o n i e) (map_refs ok dict ps l)
  map_refs-Post ok o n i e dict done l b g = finished-Ends o n dict i e l b (omega arith)
  map_refs-Post ok o n i e dict (pair k v ps) l b g =
      let Q = Ends o n i e in
      option-Post (EndsFrom l (elements k)) Q (item_ref ok k l) _ (item_ref-Post ok k l)
        (λ l1 h1.
          failed-Ends o n dict i e l1 (record {
            same = h1.same ∙ b.same;
            old = b.old;
            early = omega arith;
            got = omega arith;
          }))
        (λ list l1 h1.
          option-Post (Ends (dict ∷ o) l.next l1.items 0) Q (key_ref ok k list l1) _
            (key_ref-Post ok k (dict ∷ o) l.next list l1 (h1.same ∙ ap (λ z. list ∷ z) b.same)
              h1.from.0 h1.from.1)
            (λ l2 h2.
              failed-Ends o n dict i e l2
                (record { same = h2.same; old = b.old; early = omega arith; got = omega arith }))
            (λ key l2 h2.
              bool-Post (Passed (dict ∷ o) o l2.next l2.items (elements v)) Q
                (value_ref ok dict key (item_ref ok v) l2) _
                (value_ref-Post ok (elements v) o dict key (item_ref ok v) l2 h2.same h2.from.1
                  (item_ref-Post ok v l2))
                (λ l3 h3. record { same = h3.0; from = omega arith; got = omega arith })
                (λ l3 h3.
                  map_refs-Post ok o n i e dict ps l3
                    (record { same = h3.0; old = b.old; early = omega arith; got = omega arith })
                    (omega arith))))

-- Whichever of its calls of the interpreter fail, cbor_item_to_pyobject, on every item, releases
-- only references that it owns. When it returns an object it owns, besides what it owned before,
-- one reference, which it has got by then, and has taken as many items from cbor_array_get as
-- stand in the arrays of the item, of which it gives back none; when it returns NULL it owns
-- what it owned before, and has given back none of the items either.
pub item_ref-Ends :
    (ok : Calls) (x : Item) (l : Ledger) → Post (EndsFrom l (elements x)) (item_ref ok x l)
item_ref-Ends ok x l = item_ref-Post ok x l
