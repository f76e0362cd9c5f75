-- ===== src/Log/References/Five.antt =====
-- The references of an entry of the table with an array of five.
use p.Common.{ℕ, suc, ◌+◌, ◌≤◌, ◌<◌, ◌≡◌, refl, ◌∙◌, ap, List, ◌∷◌, Option, none, some, arith}
use p.Log.Cbor.{Item, array, Array, stop, item}
use p.Log.References.{Ledger, Calls, get_item, release_parts}
use p.Log.References.Rules.{held, Post, Counts, follow-Post}
use p.Log.References.Parts.{Parts-≤, Parts, release_parts-Post}
use p.Log.References.Steps.{Passed, EndsFrom}
use p.Log.References.Formats.{element_ref, row_fails, parts_ref, five_ref}
use p.Log.References.Balance.{elements, array_elements}
use p.Log.References.Rows.{element_ref-Post, row_fails-Post, tuple_ref-Post, Row}

Counts-≤ : (i e j : ℕ) (r : Option ℕ) → Counts i e r j → i ≤ j
Counts-≤ i e j none c = c
Counts-≤ i e j (some h) c = omega arith

-- The items that the conversions of the four parts have been given
record Counted (i : ℕ) (ea eb ec ed : ℕ) (a b c d : Option ℕ) (j : ℕ) : Type 0 where
  i1 : ℕ
  i2 : ℕ
  i3 : ℕ
  ca : Counts i ea a i1
  cb : Counts i1 eb b i2
  cc : Counts i2 ec c i3
  cd : Counts i3 ed d j

Counted-≤ :
    (i ea eb ec ed : ℕ) (a b c d : Option ℕ) (j : ℕ) → Counted i ea eb ec ed a b c d j → i ≤ j
Counted-≤ i ea eb ec ed a b c d j p =
    let le1 = Counts-≤ i ea p.i1 a p.ca in
    let le2 = Counts-≤ p.i1 eb p.i2 b p.cb in
    let le3 = Counts-≤ p.i2 ec p.i3 c p.cc in let le4 = Counts-≤ p.i3 ed j d p.cd in omega arith

parts_fail-Post :
    (o : List ℕ) (n i e dict key : ℕ) (a b c d : Option ℕ) (l : Ledger)
    → Row o n i dict key a b c d l
    → Post (Passed (dict ∷ o) o n i e) (release_parts a b c d (row_fails dict key) l)
parts_fail-Post o n i e dict key a b c d l row =
    let o' = key ∷ dict ∷ o in
    release_parts-Post (Passed (dict ∷ o) o n i e) row.k row.m a b c d none none o' l
      (row_fails dict key) row.same row.parts tt tt
      (row_fails-Post o n i e dict key (record l { owned = o' }) refl row.from row.got)

parts_ref-Post :
    (ok : Calls) (o : List ℕ) (n i e dict key ea eb ec ed : ℕ) (a b c d : Option ℕ) (xs : Array)
    (j : ℕ) (l : Ledger)
    → Row o n i dict key a b c d l
    → Counted i ea eb ec ed a b c d j
    → l.items ≡ suc j
    → suc (ea + eb + ec + ed + array_elements xs) ≡ e
    → Post (Passed (dict ∷ o) o n i e) (parts_ref ok dict key a b c d (array xs) l)
unfolding parts_ref
parts_ref-Post ok o n i e dict key ea eb ec ed (some a) (some b) (some c) (some d) xs j l row ct g
      t =
    tuple_ref-Post ok o n i e dict key a b c d xs l row (omega arith)
parts_ref-Post ok o n i e dict key ea eb ec ed a b c d xs j l row ct g t =
    parts_fail-Post o n i e dict key a b c d l row

-- An entry under construction
pub record Keyed (o : List ℕ) (n dict key : ℕ) (l : Ledger) : Type 0 where
  pub same : l.owned ≡ key ∷ dict ∷ o
  pub early : key < l.next
  pub from : n ≤ l.next

module _ (ea eb ec ed : ℕ) (a b c d : Option ℕ) (l l1 l2 l3 l4 : Ledger) (h1 : EndsFrom l ea a l1)
    (h2 : EndsFrom l1 eb b l2) (h3 : EndsFrom l2 ec c l3) (h4 : EndsFrom l3 ed d l4) where
  five-Parts : Parts l.next a b c d l4.next
  five-Parts = record {
    m1 = l1.next;
    m2 = l2.next;
    m3 = l3.next;
    wa = h1.from;
    wb = h2.from;
    wc = h3.from;
    wd = h4.from;
  }

  five-Counted : Counted l.items ea eb ec ed a b c d l4.items
  five-Counted = record {
    i1 = l1.items;
    i2 = l2.items;
    i3 = l3.items;
    ca = h1.got;
    cb = h2.got;
    cc = h3.got;
    cd = h4.got;
  }

  -- What stands when the last item has been asked for
  five-Row :
      (o : List ℕ) (n dict key : ℕ)
      → Keyed o n dict key l
      → Row o n l.items dict key a b c d (record l4 { items = suc l4.items })
  five-Row o n dict key kd =
      let le = Parts-≤ l.next a b c d l4.next five-Parts in
      let le' = Counted-≤ l.items ea eb ec ed a b c d l4.items five-Counted in
      record {
        k = l.next;
        m = l4.next;
        same =
            h4.same
            ∙ ap (held d)
                (h3.same ∙ ap (held c) (h2.same ∙ ap (held b) (h1.same ∙ ap (held a) kd.same)));
        parts = five-Parts;
        early = omega arith;
        from = omega arith;
        got = omega arith;
      }

pub five_ref-Post :
    (ok : Calls) (o : List ℕ) (n dict key : ℕ) (w x y z : Item) (xs : Array) (l : Ledger)
    → Keyed o n dict key l
    → Post
        (Passed
          (dict ∷ o)
          o
          n
          l.items
          (elements (array (item w (item x (item y (item z (item (array xs) stop))))))))
        (five_ref ok dict key w x y z (array xs) l)
unfolding five_ref get_item elements array_elements
five_ref-Post ok o n dict key w x y z xs l kd =
    let e = elements (array (item w (item x (item y (item z (item (array xs) stop)))))) in
    let Q = Passed (dict ∷ o) o n l.items e in
    follow-Post (EndsFrom l (suc (elements w))) Q (element_ref ok w l) _ (element_ref-Post ok w l)
      (λ a l1 h1.
        follow-Post (EndsFrom l1 (suc (elements x))) Q (element_ref ok x l1) _
          (element_ref-Post ok x l1)
          (λ b l2 h2.
            follow-Post (EndsFrom l2 (suc (elements y))) Q (element_ref ok y l2) _
              (element_ref-Post ok y l2)
              (λ c l3 h3.
                follow-Post (EndsFrom l3 (suc (elements z))) Q (element_ref ok z l3) _
                  (element_ref-Post ok z l3)
                  (λ d l4 h4.
                    parts_ref-Post ok o n l.items e dict key (suc (elements w)) (suc (elements x))
                      (suc (elements y)) (suc (elements z)) a b c d xs l4.items
                      (record l4 { items = suc l4.items })
                      (five-Row _ _ _ _ a b c d l l1 l2 l3 l4 h1 h2 h3 h4 o n dict key kd)
                      (five-Counted _ _ _ _ a b c d l l1 l2 l3 l4 h1 h2 h3 h4) refl
                      (omega arith)))))
