-- ===== src/Log/References/Rows.antt =====
-- The references of the entries of the table of formats.
use p.Common.{ℕ, suc, ◌+◌, ◌≤◌, ◌<◌, ◌≡◌, refl, ◌∙◌, ap, List, ◌∷◌, Option, none, some, arith}
use p.Log.Cbor.{Item, text_string, array, Array, stop, item}
use p.Log.References.{Ledger, Calls, new_ref, make, asks, get_item}
use p.Log.References.Rules.{
  held, Post, Ends, follow-Post, Post-map, option-Post, bool-Post, release-Post, drop-top,
  drop-under,
}
use p.Log.References.Parts.{Parts, release_parts-Post}
use p.Log.References.Steps.{Passed, EndsFrom, make-Ends, Asked, asks-Post}
use p.Log.References.Items.{item_ref}
use p.Log.References.Formats.{
  element_ref, parser_ref, parser_refs, row_fails, row_ends, packed_ref, tuple_ref,
}
use p.Log.References.Balance.{elements, array_elements, item_ref-Post}

-- An item that cbor_array_get has given before counts.
shifted :
    (l : Ledger) (e : ℕ) (r : Option ℕ) (l' : Ledger)
    → Ends l.owned l.next (suc l.items) e r l'
    → EndsFrom l (suc e) r l'
shifted l e none l' h = record { same = h.same; from = h.from; got = omega arith }
shifted l e (some r) l' h = record { same = h.same; from = h.from; got = omega arith }

pub element_ref-Post :
    (ok : Calls) (x : Item) (l : Ledger) → Post (EndsFrom l (suc (elements x))) (element_ref ok x l)
unfolding element_ref get_item
element_ref-Post ok x l =
    let l' = record l { items = suc l.items } in
    Post-map (EndsFrom l' (elements x)) (EndsFrom l (suc (elements x))) (item_ref ok x l')
      (item_ref-Post ok x l') (λ r l'. shifted l (elements x) r l')

parser_ref-Post : (ok : Calls) (x : Item) (l : Ledger) → Post (EndsFrom l 0) (parser_ref ok x l)
unfolding parser_ref new_ref
parser_ref-Post ok (text_string xs) l = make-Ends ok l
parser_ref-Post ok (array (item x (item y stop))) l =
    let Q = EndsFrom l 0 in
    bool-Post (Asked l) Q (asks ok l) _ (asks-Post ok l)
      (λ l1 h1. record { same = h1.0; from = omega arith; got = omega arith })
      (λ l1 h1.
        let l2 = record l1 { owned = l1.next ∷ l1.owned; next = suc l1.next } in
        option-Post (EndsFrom l2 0) Q (make ok l2) _ (make-Ends ok l2)
          (λ l3 h3.
            release-Post Q l1.next (l1.next ∷ l.owned) l.owned l3 _
              (h3.same ∙ ap (λ z. l1.next ∷ z) h1.0) (drop-top l1.next l.owned)
              (record { same = refl; from = omega arith; got = omega arith }))
          (λ t l3 h3.
            release-Post Q l1.next (t ∷ l1.next ∷ l.owned) (t ∷ l.owned) l3 _
              (h3.same ∙ ap (λ z. t ∷ l1.next ∷ z) h1.0)
              (drop-under l1.next t (l1.next ∷ l.owned) l.owned (omega arith)
                (drop-top l1.next l.owned))
              (record { same = refl; from = (omega arith, omega arith); got = omega arith })))
parser_ref-Post ok x l = record { same = refl; from = omega arith; got = omega arith }

parser_refs-Post :
    (ok : Calls) (o : List ℕ) (n i e : ℕ) (xs : Array) (l : Ledger)
    → l.owned ≡ o
    → n ≤ l.next
    → i ≤ l.items
    → l.items + array_elements xs ≡ i + e
    → Post (Passed o o n i e) (parser_refs ok xs l)
unfolding parser_refs array_elements
parser_refs-Post ok o n i e stop l s f g t = (s, f, omega arith)
parser_refs-Post ok o n i e (item x xs) l s f g t =
    let Q = Passed o o n i e in
    option-Post (EndsFrom l (suc (elements x))) Q (element_ref ok x l) _ (element_ref-Post ok x l)
      (λ l1 h1. (h1.same ∙ s, omega arith, omega arith))
      (λ spec l1 h1.
        option-Post (EndsFrom l1 0) Q (parser_ref ok x l1) _ (parser_ref-Post ok x l1)
          (λ l2 h2.
            release-Post Q spec (spec ∷ o) o l2 _ (h2.same ∙ h1.same ∙ ap (λ z. spec ∷ z) s)
              (drop-top spec o) (refl, omega arith, omega arith))
          (λ id l2 h2.
            release-Post Q spec (id ∷ spec ∷ o) (id ∷ o) l2 _
              (h2.same ∙ ap (λ z. id ∷ z) (h1.same ∙ ap (λ z. spec ∷ z) s))
              (drop-under spec id (spec ∷ o) o (omega arith) (drop-top spec o))
              (release-Post Q id (id ∷ o) o (record l2 { owned = id ∷ o }) _ refl (drop-top id o)
                (parser_refs-Post ok o n i e xs (record l2 { owned = o }) refl (omega arith)
                  (omega arith) (omega arith)))))

pub row_fails-Post :
    (o : List ℕ) (n i e dict key : ℕ) (l : Ledger)
    → l.owned ≡ key ∷ dict ∷ o
    → n ≤ l.next
    → i ≤ l.items
    → Post (Passed (dict ∷ o) o n i e) (row_fails dict key l)
row_fails-Post o n i e dict key l s f g =
    let Q = Passed (dict ∷ o) o n i e in
    release-Post Q key (key ∷ dict ∷ o) (dict ∷ o) l _ s (drop-top key (dict ∷ o)) (
      release-Post Q dict (dict ∷ o) o (record l { owned = dict ∷ o }) _ refl (drop-top dict o)
        (refl, f, g))

pub row_ends-Post :
    (ok : Calls) (o : List ℕ) (n i e dict key value : ℕ) (l : Ledger)
    → l.owned ≡ value ∷ key ∷ dict ∷ o
    → n ≤ l.next
    → l.items ≡ i + e
    → Post (Passed (dict ∷ o) o n i e) (row_ends ok key value l)
row_ends-Post ok o n i e dict key value l s f g =
    let Q = Passed (dict ∷ o) o n i e in
    follow-Post (Asked l) Q (asks ok l) _ (asks-Post ok l) (λ set l1 h1.
      release-Post Q value (value ∷ key ∷ dict ∷ o) (key ∷ dict ∷ o) l1 _ (h1.0 ∙ s)
        (drop-top value (key ∷ dict ∷ o))
        (release-Post Q key (key ∷ dict ∷ o) (dict ∷ o) (record l1 { owned = key ∷ dict ∷ o }) _
          refl (drop-top key (dict ∷ o)) (refl, omega arith, omega arith)))

-- Behind the conversions of the four parts, with the references in between
pub record Row (o : List ℕ) (n i dict key : ℕ) (a b c d : Option ℕ) (l : Ledger) : Type 0 where
  pub k : ℕ
  pub m : ℕ
  pub same : l.owned ≡ held d (held c (held b (held a (key ∷ dict ∷ o))))
  pub parts : Parts k a b c d m
  pub early : m ≤ l.next
  pub from : n ≤ l.next
  pub got : i ≤ l.items

-- The list of parsers is filled.
record Filled (o : List ℕ) (n i e dict key a b c d list : ℕ) (l : Ledger) : Type 0 where
  k : ℕ
  m : ℕ
  same : l.owned ≡ list ∷ d ∷ c ∷ b ∷ a ∷ key ∷ dict ∷ o
  parts : Parts k (some a) (some b) (some c) (some d) m
  old : m ≤ list
  early : list < l.next
  from : n ≤ l.next
  got : l.items ≡ i + e

packed_ref-Post :
    (ok : Calls) (o : List ℕ) (n i e dict key a b c d list : ℕ) (l : Ledger)
    → Filled o n i e dict key a b c d list l
    → Post (Passed (dict ∷ o) o n i e) (packed_ref ok dict key a b c d list l)
unfolding packed_ref
packed_ref-Post ok o n i e dict key a b c d list l row =
    let Q = Passed (dict ∷ o) o n i e in
    let o' = key ∷ dict ∷ o in
    option-Post (EndsFrom l 0) Q (make ok l) _ (make-Ends ok l)
      (λ l1 h1.
        release_parts-Post Q row.k row.m (some a) (some b) (some c) (some d) (some list) none o' l1
          _ (h1.same ∙ row.same) row.parts row.old tt
          (release-Post Q list (list ∷ o') o' (record l1 { owned = list ∷ o' }) _ refl
            (drop-top list o')
            (row_fails-Post o n i e dict key (record l1 { owned = o' }) refl (omega arith)
              (omega arith))))
      (λ t l1 h1.
        release_parts-Post Q row.k row.m (some a) (some b) (some c) (some d) (some list) (some t) o'
          l1 _ (h1.same ∙ ap (λ z. t ∷ z) row.same) row.parts row.old (omega arith)
          (release-Post Q list (t ∷ list ∷ o') (t ∷ o') (record l1 { owned = t ∷ list ∷ o' }) _ refl
            (drop-under list t (list ∷ o') o' (omega arith) (drop-top list o'))
            (row_ends-Post ok o n i e dict key t (record l1 { owned = t ∷ o' }) refl (omega arith)
              (omega arith))))

pub tuple_ref-Post :
    (ok : Calls) (o : List ℕ) (n i e dict key a b c d : ℕ) (xs : Array) (l : Ledger)
    → Row o n i dict key (some a) (some b) (some c) (some d) l
    → l.items + array_elements xs ≡ i + e
    → Post (Passed (dict ∷ o) o n i e) (tuple_ref ok dict key a b c d (array xs) l)
unfolding tuple_ref
tuple_ref-Post ok o n i e dict key a b c d xs l row g =
    let Q = Passed (dict ∷ o) o n i e in
    let o' = key ∷ dict ∷ o in
    let parts = d ∷ c ∷ b ∷ a ∷ o' in
    let fails = release_parts-Post Q row.k row.m (some a) (some b) (some c) (some d) none none o' in
    option-Post (EndsFrom l 0) Q (make ok l) _ (make-Ends ok l)
      (λ l1 h1. fails l1 (row_fails dict key) (h1.same ∙ row.same) row.parts tt tt (
        row_fails-Post o n i e dict key (record l1 { owned = o' }) refl (omega arith)
          (omega arith)))
      (λ list l1 h1.
        bool-Post (Passed l1.owned l1.owned l1.next l1.items (array_elements xs)) Q
          (parser_refs ok xs l1) _
          (parser_refs-Post ok l1.owned l1.next l1.items (array_elements xs) xs l1 refl
            (omega arith) (omega arith) refl)
          (λ l2 h2.
            release-Post Q list (list ∷ parts) parts l2 _
              (h2.0 ∙ h1.same ∙ ap (λ z. list ∷ z) row.same) (drop-top list parts)
              (fails (record l2 { owned = parts }) (row_fails dict key) refl row.parts tt tt
                (row_fails-Post o n i e dict key (record l2 { owned = o' }) refl (omega arith)
                  (omega arith))))
          (λ l2 h2. packed_ref-Post ok o n i e dict key a b c d list l2 (record {
            k = row.k;
            m = row.m;
            same = h2.0 ∙ h1.same ∙ ap (λ z. list ∷ z) row.same;
            parts = row.parts;
            old = omega arith;
            early = omega arith;
            from = omega arith;
            got = omega arith;
          })))
