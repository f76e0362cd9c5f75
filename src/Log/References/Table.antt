-- ===== src/Log/References/Table.antt =====
-- The references of `process_fmts`, whichever calls fail.
use p.Common.{ℕ, ◌+◌, ◌≡◌, refl, ◌∙◌, ap, List, ◌∷◌, arith}
use p.Log.Cbor.{Item, absent, array, map, stop, item, Pairs, done, pair}
use p.Log.References.{Ledger, Calls, make}
use p.Log.References.Rules.{Post, Ends, option-Post, bool-Post, release-Post, drop-top}
use p.Log.References.Steps.{
  Passed, Built, new_Built, finished-Ends, failed-Ends, EndsFrom, make-Ends,
}
use p.Log.References.Items.{item_ref}
use p.Log.References.Formats.{row_ref, rows_ref, fmts_ref}
use p.Log.References.Balance.{elements, item_ref-Post}
use p.Log.References.Rows.{row_fails-Post, row_ends-Post}
use p.Log.References.Five.{Keyed, five_ref-Post}

-- A table that the code reads without reading through NULL: no value is missing, and the last of
-- five is an array.
abbrev pub IsRow : Item → Type 0
IsRow absent = ⊥
IsRow (array (item a (item b (item c (item d (item (array xs) stop)))))) = Unit
IsRow (array (item a (item b (item c (item d (item e stop)))))) = ⊥
IsRow _ = Unit

abbrev pub AreRows : Pairs → Type 0
AreRows done = Unit
AreRows (pair k v ps) = IsRow v × AreRows ps

-- The items of arrays that the loop asks for: those of keys, and of arrays of three and of five
abbrev row_elements : Item → ℕ
row_elements (array (item a (item b (item c stop)))) =
    elements (array (item a (item b (item c stop))))
row_elements (array (item a (item b (item c (item d (item e stop)))))) =
    elements (array (item a (item b (item c (item d (item e stop))))))
row_elements _ = 0

abbrev pub table_elements : Pairs → ℕ
table_elements done = 0
table_elements (pair k v ps) = elements k + row_elements v + table_elements ps

row_ref-Post :
    (ok : Calls) (o : List ℕ) (n dict key : ℕ) (v : Item) (l : Ledger)
    → Keyed o n dict key l
    → IsRow v
    → Post (Passed (dict ∷ o) o n l.items (row_elements v)) (row_ref ok dict key v l)
unfolding row_ref
row_ref-Post ok o n dict key absent l kd h = absurd h
row_ref-Post ok o n dict key (array (item a (item b (item c stop)))) l kd h =
    let x = array (item a (item b (item c stop))) in
    let Q = Passed (dict ∷ o) o n l.items (elements x) in
    option-Post (EndsFrom l (elements x)) Q (item_ref ok x l) _ (item_ref-Post ok x l)
      (λ l1 h1.
        row_fails-Post o n l.items (elements x) dict key l1 (h1.same ∙ kd.same) (omega arith)
          (omega arith))
      (λ val l1 h1.
        row_ends-Post ok o n l.items (elements x) dict key val l1
          (h1.same ∙ ap (λ z. val ∷ z) kd.same) (omega arith) h1.got)
row_ref-Post ok o n dict key (array (item a (item b (item c (item d (item (array xs) stop)))))) l kd
      h =
    five_ref-Post ok o n dict key a b c d xs l kd
row_ref-Post ok o n dict key (array (item a (item b (item c (item d (item e stop)))))) l kd h =
    absurd h
row_ref-Post ok o n dict key v l kd h =
    release-Post (Passed (dict ∷ o) o n l.items 0) key (key ∷ dict ∷ o) (dict ∷ o) l _ kd.same
      (drop-top key (dict ∷ o)) (refl, kd.from, omega arith)

rows_ref-Post :
    (ok : Calls) (o : List ℕ) (n i e dict : ℕ) (ps : Pairs) (l : Ledger)
    → Built o n dict i l
    → AreRows ps
    → l.items + table_elements ps ≡ i + e
    → Post (Ends o n i e) (rows_ref ok dict ps l)
unfolding rows_ref
rows_ref-Post ok o n i e dict done l b h g = finished-Ends o n dict i e l b (omega arith)
rows_ref-Post ok o n i e dict (pair k v ps) l b h g =
    let Q = Ends o n i e in
    option-Post (EndsFrom l (elements k)) Q (item_ref ok k l) _ (item_ref-Post ok k l)
      (λ l1 h1.
        failed-Ends o n dict i e l1
          (record { same = h1.same ∙ b.same; old = b.old; early = omega arith; got = omega arith }))
      (λ key l1 h1.
        bool-Post (Passed (dict ∷ o) o l1.next l1.items (row_elements v)) Q
          (row_ref ok dict key v l1) _
          (row_ref-Post ok o l1.next dict key v l1
            (record {
              same = h1.same ∙ ap (λ z. key ∷ z) b.same;
              early = h1.from.1;
              from = omega arith;
            })
            h.0)
          (λ l2 h2. record { same = h2.0; from = omega arith; got = omega arith })
          (λ l2 h2.
            rows_ref-Post ok o n i e dict ps l2
              (record { same = h2.0; old = b.old; early = omega arith; got = omega arith }) h.1
              (omega arith)))

pub fmts_ref-Post :
    (ok : Calls) (ps : Pairs) (l : Ledger)
    → AreRows ps
    → Post (EndsFrom l (table_elements ps)) (fmts_ref ok (map ps) l)
unfolding fmts_ref
fmts_ref-Post ok ps l h =
    option-Post (EndsFrom l 0) (EndsFrom l (table_elements ps)) (make ok l) _ (make-Ends ok l)
      (λ l' e. record { same = e.same; from = e.from; got = e.got })
      (λ dict l' e.
        rows_ref-Post ok l.owned l.next l.items (table_elements ps) dict ps l'
          (new_Built l dict l' e) h (omega arith))
