-- ===== src/Log/References/Fetched.antt =====
-- How many items cbor_array_get gives while a file is loaded.
use p.Common.{List, ◌∙◌, ℕ, ◌+◌, ◌≤◌, ◌≡◌, refl, Bool, true, false, Option, none, some, arith}
use p.Log.Cbor.{Item, absent, text_string, map, Pairs, done, pair}
use p.Log.Load.{Member, fmts, unused, member}
use p.Log.References.{drop, Ledger, Own, Calls, follow, new_ref, make, asks, release, xrelease}
use p.Log.References.Rules.{Counts, Post}
use p.Log.References.Leaves.{Leaves, Post-Leaves, follow-Leaves, option-Leaves, bool-Leaves}
use p.Log.References.Steps.{EndsFrom, make-Ends, Asked, asks-Post}
use p.Log.References.Items.{item_ref}
use p.Log.References.Formats.{fmts_ref}
use p.Log.References.Balance.{item_ref-Post, elements}
use p.Log.References.Table.{fmts_ref-Post, table_elements}
use p.Log.References.Holder.{
  Holder, new_holder, set_filename, with_member, release_unused, clock_refs, member_ref, load_refs,
  file_refs, init_refs, dealloc_refs, life_refs,
}
use p.Log.References.Life.{IsValue, IsFile}

-- Those in the arrays of the values that the keys select
abbrev value_elements : Member → Item → ℕ
value_elements fmts (map ps) = table_elements ps
value_elements fmts x = 0
value_elements m x = elements x

abbrev pub file_elements : Pairs → ℕ
file_elements done = 0
file_elements (pair (text_string key) value ps) =
    value_elements (member key) value + file_elements ps
file_elements (pair k value ps) = file_elements ps

-- All of them have been given where LogData_init succeeds.
abbrev pub Fetched : ℕ → ℕ → Bool → ℕ → Type 0
Fetched i e true j = j ≡ i + e
Fetched i e false j = i ≤ j

-- A release gives back none.
abbrev KeepsItems : {A : Type 0} → Ledger → A → Ledger → Type 0
KeepsItems l a l' = l'.items ≡ l.items

dropped-Leaves :
    (l : Ledger) (d : Option (List ℕ))
    → Leaves {A = Unit {0}}
        (KeepsItems l)
        (elim d [ none ↦ none | some hs ↦ some (tt, record l { owned = hs }) ])
dropped-Leaves l none = tt
dropped-Leaves l (some hs) = refl

release-Leaves : (h : ℕ) (l : Ledger) → Leaves (KeepsItems l) (release h l)
unfolding release
release-Leaves h l = dropped-Leaves l (drop h l.owned)

xrelease-Leaves : (r : Option ℕ) (l : Ledger) → Leaves (KeepsItems l) (xrelease r l)
xrelease-Leaves none l = refl
xrelease-Leaves (some h) l = release-Leaves h l

release_unused-Leaves :
    (m : Member) (v : ℕ) (l : Ledger) → Leaves (KeepsItems l) (release_unused m v l)
release_unused-Leaves unused v l =
    follow-Leaves (KeepsItems l) (KeepsItems l) (release v l) _ (release-Leaves v l) (λ u l1 e. e)
release_unused-Leaves m v l = refl

then_xrelease :
    {B : Type 0} (l : Ledger) (r : Option ℕ) (l' : Ledger) (f : Own B)
    → KeepsItems l r l'
    → ((l'' : Ledger) → KeepsItems l r l'' → Leaves (KeepsItems l) (f l''))
    → Leaves (KeepsItems l) (follow (xrelease r l') (λ u. f))
then_xrelease l r l' f e k =
    follow-Leaves (KeepsItems l') (KeepsItems l) (xrelease r l') (λ u. f) (xrelease-Leaves r l')
      (λ u l'' e'. k l'' (e' ∙ e))

from_Ends :
    (e : ℕ) (l : Ledger) (m : Option (Option ℕ × Ledger))
    → Post (EndsFrom l e) m
    → Leaves (λ r l'. Counts l.items e r l'.items) m
from_Ends e l none h = tt
from_Ends e l (some r) h = h.got

made_by : (ok : Calls) (l : Ledger) → Leaves (EndsFrom l 0) (make ok l)
made_by ok l = Post-Leaves (EndsFrom l 0) (make ok l) (make-Ends ok l)

still_Fetched :
    (i e : ℕ) (b : Bool) (l l' : Ledger)
    → l'.items ≡ l.items
    → Fetched i e b l.items
    → Fetched i e b l'.items
still_Fetched i e true l l' k q = k ∙ q
still_Fetched i e false l l' k q = omega arith

member_ref-Leaves :
    (ok : Calls) (m : Member) (x : Item) (l : Ledger)
    → IsValue m x
    → Leaves (λ r l'. Counts l.items (value_elements m x) r l'.items) (member_ref ok m x l)
member_ref-Leaves ok fmts (map ps) l h =
    from_Ends (table_elements ps) l (fmts_ref ok (map ps) l) (fmts_ref-Post ok ps l h)
member_ref-Leaves ok fmts x l h = absurd h
member_ref-Leaves ok m x l h = from_Ends (elements x) l (item_ref ok x l) (item_ref-Post ok x l)

load_refs-Fetched :
    (ok : Calls) (i e : ℕ) (root : Option ℕ) (ps : Pairs) (s : Holder) (l : Ledger)
    → IsFile ps
    → i ≤ l.items
    → l.items + file_elements ps ≡ i + e
    → Leaves (λ r l'. Fetched i e r.1 l'.items) (load_refs ok root ps s l)
unfolding load_refs
load_refs-Fetched ok i e root done s l h g t =
    follow-Leaves (KeepsItems l) (λ r l'. Fetched i e r.1 l'.items) (xrelease root l) _
      (xrelease-Leaves root l) (λ u l1 k. omega arith)
load_refs-Fetched ok i e root (pair absent value ps) s l h g t = absurd h
load_refs-Fetched ok i e root (pair (text_string key) value ps) s l h g t =
    let Q = λ (r : Holder × Bool) (l' : Ledger). Fetched i e r.1 l'.items in
    option-Leaves (λ r l'. Counts l.items (value_elements (member key) value) r l'.items) Q
      (member_ref ok (member key) value l) _ (member_ref-Leaves ok (member key) value l h.0)
      (λ l1 c.
        follow-Leaves (KeepsItems l1) Q (xrelease root l1) _ (xrelease-Leaves root l1)
          (λ u l2 k. omega arith))
      (λ v l1 c.
        follow-Leaves (KeepsItems l1) Q (release_unused (member key) v l1) _
          (release_unused-Leaves (member key) v l1)
          (λ u l2 k.
            load_refs-Fetched ok i e root ps (with_member s (member key) v) l2 h.1 (omega arith)
              (omega arith)))
load_refs-Fetched ok i e root (pair k value ps) s l h g t =
    load_refs-Fetched ok i e root ps s l h g t

clock_refs-Fetched :
    (ok : Calls) (i e : ℕ) (s : Holder) (whole : Bool) (l : Ledger)
    → Fetched i e whole l.items
    → Leaves (λ r l'. Fetched i e r.1 l'.items) (clock_refs ok s whole l)
clock_refs-Fetched ok i e s false l h = h
clock_refs-Fetched ok i e s true l h =
    bool-Leaves (Asked l) (λ r l'. Fetched i e r.1 l'.items) (asks ok l) _
      (Post-Leaves (Asked l) (asks ok l) (asks-Post ok l)) (λ l1 a. omega arith)
      (λ l1 a. omega arith)

file_refs-Fetched :
    (ok : Calls) (i : ℕ) (ps : Pairs) (s : Holder) (l : Ledger)
    → IsFile ps
    → l.items ≡ i
    → Leaves (λ r l'. Fetched i (file_elements ps) r.1 l'.items) (file_refs ok (some (map ps)) s l)
unfolding file_refs new_ref
file_refs-Fetched ok i ps s l h g =
    let Q = λ (r : Holder × Bool) (l' : Ledger). Fetched i (file_elements ps) r.1 l'.items in
    option-Leaves (EndsFrom l 0) Q (make ok l) _ (made_by ok l) (λ l1 e1. omega arith)
      (λ file l1 e1.
        option-Leaves (EndsFrom l1 0) Q (make ok l1) _ (made_by ok l1)
          (λ l2 e2.
            follow-Leaves (KeepsItems l2) Q (release file l2) _ (release-Leaves file l2)
              (λ u l3 k. omega arith))
          (λ buffer l2 e2.
            follow-Leaves (KeepsItems l2) Q (release file l2) _ (release-Leaves file l2) (λ u l3 k.
              follow-Leaves (KeepsItems l3) Q (new_ref l3) _ refl (λ root l4 k'.
                follow-Leaves (KeepsItems l4) Q (release buffer l4) _ (release-Leaves buffer l4)
                  (λ u' l5 k''.
                    follow-Leaves Q Q (load_refs ok root ps s l5) _
                      (load_refs-Fetched ok i (file_elements ps) root ps s l5 h (omega arith)
                        (omega arith))
                      (λ r l6 q. clock_refs-Fetched ok i (file_elements ps) r.0 r.1 l6 q))))))

init_refs-Fetched :
    (ok : Calls) (ps : Pairs) (s : Holder) (l : Ledger)
    → IsFile ps
    → Leaves
        (λ r l'. Fetched l.items (file_elements ps) r.1 l'.items)
        (init_refs ok (some (map ps)) s l)
unfolding init_refs
init_refs-Fetched ok ps s l h =
    let Q = λ (r : Holder × Bool) (l' : Ledger). Fetched l.items (file_elements ps) r.1 l'.items in
    bool-Leaves (Asked l) Q (asks ok l) _ (Post-Leaves (Asked l) (asks ok l) (asks-Post ok l))
      (λ l1 a. omega arith)
      (λ l1 a.
        option-Leaves (EndsFrom l1 0) Q (make ok l1) _ (made_by ok l1) (λ l2 e. omega arith)
          (λ f l2 e. file_refs-Fetched ok l.items ps (set_filename s (some f)) l2 h (omega arith)))

dealloc_refs-Leaves : (s : Holder) (l : Ledger) → Leaves (KeepsItems l) (dealloc_refs s l)
unfolding dealloc_refs
dealloc_refs-Leaves s l = then_xrelease l s.enums l _ refl (λ l1 e1.
    then_xrelease l s.tdenums l1 _ e1 (λ l2 e2. then_xrelease l s.variables l2 _ e2 (λ l3 e3.
      then_xrelease l s.functions l3 _ e3 (λ l4 e4. then_xrelease l s.saddr l4 _ e4 (λ l5 e5.
        then_xrelease l s.fmts l5 _ e5
          (λ l6 e6. then_xrelease l s.filename l6 _ e6 (λ l7 e7. e7)))))))

pub life_refs-Fetched :
    (ok : Calls) (ps : Pairs) (l : Ledger)
    → IsFile ps
    → Leaves
        (λ r l'. Fetched l.items (file_elements ps) r.1 l'.items)
        (life_refs ok (some (map ps)) l)
unfolding life_refs
life_refs-Fetched ok ps l h =
    follow-Leaves (λ r l'. Fetched l.items (file_elements ps) r.1 l'.items)
      (λ r l'. Fetched l.items (file_elements ps) r.1 l'.items)
      (init_refs ok (some (map ps)) new_holder l) _ (init_refs-Fetched ok ps new_holder l h)
      (λ r l1 q.
        follow-Leaves (KeepsItems l1) (λ r l'. Fetched l.items (file_elements ps) r.1 l'.items)
          (dealloc_refs r.0 l1) _ (dealloc_refs-Leaves r.0 l1)
          (λ u l2 k. still_Fetched l.items (file_elements ps) r.1 l1 l2 k q))
