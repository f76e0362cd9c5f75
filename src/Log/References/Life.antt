-- ===== src/Log/References/Life.antt =====
-- What an object of the log decoder owns during its life: set up once, or once more, and released.
use p.Common.{
  ℕ, suc, ◌+◌, ◌≡◌, refl, ap, ◌∙◌, Bool, true, false, List, ◌∷◌, Option, none, some, arith,
}
use p.Log.Cbor.{Item, absent, text_string, map, Pairs, done, pair}
use p.Log.Load.{Member, fmts, member}
use p.Log.References.{Ledger, Calls, new_ref, make, asks}
use p.Log.References.Rules.{
  Post, follow-Post, Post-map, option-Post, bool-Post, release-Post, drop-top, drop-under,
}
use p.Log.References.Steps.{EndsFrom, make-Ends, Asked, asks-Post}
use p.Log.References.Items.{item_ref}
use p.Log.References.Formats.{fmts_ref}
use p.Log.References.Balance.{item_ref-Post, elements}
use p.Log.References.Table.{AreRows, fmts_ref-Post, table_elements}
use p.Log.References.Counts.{one_of, count, Owns, xrelease-Owns}
use p.Log.References.Members.{
  in_members, Keeps, with_member-Keeps, filename-Keeps, held-Owns, dealloc_refs-Owns,
}
use p.Log.References.Holder.{
  Holder, new_holder, set_filename, with_member, release_unused, clock_refs, member_ref, load_refs,
  file_refs, init_refs, dealloc_refs, life_refs,
}

abbrev pub IsValue : Member → Item → Type 0
IsValue fmts (map ps) = AreRows ps
IsValue fmts _ = ⊥
IsValue _ _ = Unit

-- The table of formats can be read, and no key is missing.
abbrev pub IsFile : Pairs → Type 0
IsFile done = Unit
IsFile (pair absent value ps) = ⊥
IsFile (pair (text_string key) value ps) = IsValue (member key) value × IsFile ps
IsFile (pair key value ps) = IsFile ps

member_ref-Owns :
    (ok : Calls) (m : Member) (x : Item) (l : Ledger) (n : ℕ → ℕ)
    → IsValue m x
    → Owns l n
    → Post (λ r l'. Owns l' (λ k. one_of k r + n k)) (member_ref ok m x l)
member_ref-Owns ok fmts (map ps) l n h o =
    Post-map (EndsFrom l (table_elements ps)) (λ r l'. Owns l' (λ k. one_of k r + n k))
      (fmts_ref ok (map ps) l) (fmts_ref-Post ok ps l h) (λ r l' e. held-Owns r l l' n e.same o)
member_ref-Owns ok fmts x l n h o = absurd h
member_ref-Owns ok m x l n h o =
    Post-map (EndsFrom l (elements x)) (λ r l'. Owns l' (λ k. one_of k r + n k)) (item_ref ok x l)
      (item_ref-Post ok x l) (λ r l' e. held-Owns r l l' n e.same o)

-- The loop over the file's map, while the item that was loaded is owned
load_refs-Keeps :
    (ok : Calls) (n : ℕ → ℕ) (root : Option ℕ) (ps : Pairs) (s : Holder) (l : Ledger)
    → IsFile ps
    → Keeps (λ k. one_of k root + n k) s l
    → Post (λ r l'. Keeps n r.0 l') (load_refs ok root ps s l)
unfolding load_refs
load_refs-Keeps ok n root done s l h o =
    xrelease-Owns (λ r l'. Keeps n r.0 l') root (λ k. in_members k s + (count k s.lost + n k)) l _
      (λ k. (let e = o k in omega arith)) (λ l1 o1. o1)
load_refs-Keeps ok n root (pair absent value ps) s l h o = absurd h
load_refs-Keeps ok n root (pair (text_string key) value ps) s l h o =
    let Q = λ (r : Holder × Bool) (l' : Ledger). Keeps n r.0 l' in
    let have = λ (k : ℕ). in_members k s + (count k s.lost + (one_of k root + n k)) in
    option-Post (λ r l'. Owns l' (λ k. one_of k r + have k)) Q (member_ref ok (member key) value l)
      _ (member_ref-Owns ok (member key) value l have h.0 (λ k. (let e = o k in omega arith)))
      (λ l1 o1.
        xrelease-Owns Q root (λ k. in_members k s + (count k s.lost + n k)) l1 _
          (λ k. (let e = o1 k in omega arith)) (λ l2 o2. o2))
      (λ v l1 o1.
        follow-Post (λ u l2. Keeps (λ k. one_of k root + n k) (with_member s (member key) v) l2) Q
          (release_unused (member key) v l1) _
          (with_member-Keeps (λ k. one_of k root + n k) s (member key) v l1
            (λ k. (let e = o1 k in omega arith)))
          (λ u l2 o2. load_refs-Keeps ok n root ps (with_member s (member key) v) l2 h.1 o2))
load_refs-Keeps ok n root (pair key value ps) s l h o = load_refs-Keeps ok n root ps s l h o

clock_refs-Keeps :
    (ok : Calls) (n : ℕ → ℕ) (s : Holder) (whole : Bool) (l : Ledger)
    → Keeps n s l
    → Post (λ r l'. Keeps n r.0 l') (clock_refs ok s whole l)
clock_refs-Keeps ok n s false l o = o
clock_refs-Keeps ok n s true l o =
    follow-Post (Asked l) (λ r l'. Keeps n r.0 l') (asks ok l) _ (asks-Post ok l)
      (λ clock l1 a1 k. ap (count k) a1.0 ∙ o k)

-- The file and the buffer are given back, and the item that was loaded.
file_refs-Keeps :
    (ok : Calls) (n : ℕ → ℕ) (ps : Pairs) (s : Holder) (l : Ledger)
    → IsFile ps
    → Keeps n s l
    → Post (λ r l'. Keeps n r.0 l') (file_refs ok (some (map ps)) s l)
unfolding file_refs new_ref
file_refs-Keeps ok n ps s l h o =
    let Q = λ (r : Holder × Bool) (l' : Ledger). Keeps n r.0 l' in
    option-Post (EndsFrom l 0) Q (make ok l) _ (make-Ends ok l)
      (λ l1 e1. λ k. ap (count k) e1.same ∙ o k)
      (λ file l1 e1.
        option-Post (EndsFrom l1 0) Q (make ok l1) _ (make-Ends ok l1)
          (λ l2 e2.
            release-Post Q file (file ∷ l.owned) l.owned l2 _ (e2.same ∙ e1.same)
              (drop-top file l.owned) o)
          (λ buffer l2 e2.
            release-Post Q file (buffer ∷ file ∷ l.owned) (buffer ∷ l.owned) l2 _
              (e2.same ∙ ap (λ z. buffer ∷ z) e1.same)
              (drop-under file buffer (file ∷ l.owned) l.owned (omega arith)
                (drop-top file l.owned))
              (release-Post Q buffer (l2.next ∷ buffer ∷ l.owned) (l2.next ∷ l.owned)
                (record l2 { owned = l2.next ∷ buffer ∷ l.owned; next = suc l2.next }) _ refl
                (drop-under buffer l2.next (buffer ∷ l.owned) l.owned (omega arith)
                  (drop-top buffer l.owned))
                (follow-Post Q Q
                  (load_refs ok (some l2.next) ps s
                    (record l2 { owned = l2.next ∷ l.owned; next = suc l2.next }))
                  _
                  (load_refs-Keeps ok n (some l2.next) ps s
                    (record l2 { owned = l2.next ∷ l.owned; next = suc l2.next }) h
                    (λ k. (let e = o k in omega arith)))
                  (λ r l3 o3. clock_refs-Keeps ok n r.0 r.1 l3 o3)))))

init_refs-Keeps :
    (ok : Calls) (n : ℕ → ℕ) (ps : Pairs) (s : Holder) (l : Ledger)
    → IsFile ps
    → Keeps n s l
    → Post (λ r l'. Keeps n r.0 l') (init_refs ok (some (map ps)) s l)
unfolding init_refs
init_refs-Keeps ok n ps s l h o =
    let Q = λ (r : Holder × Bool) (l' : Ledger). Keeps n r.0 l' in
    bool-Post (Asked l) Q (asks ok l) _ (asks-Post ok l) (λ l1 a1. λ k. ap (count k) a1.0 ∙ o k)
      (λ l1 a1.
        option-Post (EndsFrom l1 0) Q (make ok l1) _ (make-Ends ok l1)
          (λ l2 e2.
            filename-Keeps n s none l2
              (held-Owns none l1 l2 _ e2.same (λ k. ap (count k) a1.0 ∙ o k)))
          (λ f l2 e2. file_refs-Keeps ok n ps (set_filename s (some f)) l2 h (
            filename-Keeps n s (some f) l2
              (held-Owns (some f) l1 l2 _ e2.same (λ k. ap (count k) a1.0 ∙ o k)))))

pub life_refs-lost :
    (ok : Calls) (ps : Pairs) (l : Ledger)
    → IsFile ps
    → Post
        (λ r l'. (k : ℕ) → count k l'.owned ≡ count k r.0 + count k l.owned)
        (life_refs ok (some (map ps)) l)
unfolding life_refs new_holder in_members
life_refs-lost ok ps l h =
    let n = λ (k : ℕ). count k l.owned in
    let Q = λ (r : List ℕ × Bool) (l' : Ledger). Owns l' (λ k. count k r.0 + n k) in
    follow-Post (λ r l'. Keeps n r.0 l') Q (init_refs ok (some (map ps)) new_holder l) _
      (init_refs-Keeps ok n ps new_holder l h (λ k. omega arith))
      (λ r l1 o1.
        follow-Post (λ u l'. Owns l' (λ k. count k r.0.lost + n k)) Q (dealloc_refs r.0 l1) _
          (dealloc_refs-Owns n r.0 l1 o1) (λ u l2 o2. o2))
