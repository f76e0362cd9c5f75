-- ===== src/Log/References/Distinct.antt =====
-- A file whose keys select different members: no pointer is overwritten.
use p.Common.{List, arith, ℕ, ◌+◌, ◌≡◌, refl, ap, ◌∙◌, Bool, true, false, [], Option, none, some}
use p.Log.Cbor.{absent, text_string, map, Pairs, done, pair}
use p.Log.Load.{Member, fmts, enums, tdenums, variables, functions, saddr, unused, member}
use p.Log.References.{Ledger, Calls, new_ref, make, asks, release, xrelease}
use p.Log.References.Rules.{Post}
use p.Log.References.Upon.{Upon, follow-Upon, option-Upon, bool-Upon, after-Upon, both-Post}
use p.Log.References.Counts.{count, Owns}
use p.Log.References.Holder.{
  Holder, new_holder, lose, set_filename, with_member, release_unused, member_ref, load_refs,
  clock_refs, file_refs, init_refs, dealloc_refs, life_refs,
}
use p.Log.References.Fetched.{Fetched, file_elements, life_refs-Fetched}
use p.Log.References.Leaves.{with-Leaves}
use p.Log.References.Life.{IsFile, life_refs-lost}

abbrev same_member : Member → Member → Bool
same_member fmts fmts = true
same_member enums enums = true
same_member tdenums tdenums = true
same_member variables variables = true
same_member functions functions = true
same_member saddr saddr = true
same_member _ _ = false

-- No key selects this member.
abbrev Spares : Member → Pairs → Type 0
Spares m done = Unit
Spares m (pair (text_string key) v ps) = (same_member m (member key) ≡ false) × Spares m ps
Spares m (pair k v ps) = Spares m ps

-- No two keys select one member.
abbrev pub AreDistinct : Pairs → Type 0
AreDistinct done = Unit
AreDistinct (pair (text_string key) v ps) = Spares (member key) ps × AreDistinct ps
AreDistinct (pair k v ps) = AreDistinct ps

abbrev value_of : Holder → Member → Option ℕ
value_of s fmts = s.fmts
value_of s enums = s.enums
value_of s tdenums = s.tdenums
value_of s variables = s.variables
value_of s functions = s.functions
value_of s saddr = s.saddr
value_of s unused = none

-- The members that the keys select have no value yet.
abbrev AreUnset : Holder → Pairs → Type 0
AreUnset s done = Unit
AreUnset s (pair (text_string key) v ps) = (value_of s (member key) ≡ none) × AreUnset s ps
AreUnset s (pair k v ps) = AreUnset s ps

unset : (m : Member) (r : Option ℕ) → value_of (set_filename new_holder r) m ≡ none
unfolding new_holder
unset unused r = refl
unset m r = refl

with_member-value_of :
    (s : Holder) (m m' : Member) (v : ℕ)
    → same_member m m' ≡ false
    → value_of (with_member s m v) m' ≡ value_of s m'
unfolding with_member
with_member-value_of s fmts fmts v h = absurd cc
with_member-value_of s enums enums v h = absurd cc
with_member-value_of s tdenums tdenums v h = absurd cc
with_member-value_of s variables variables v h = absurd cc
with_member-value_of s functions functions v h = absurd cc
with_member-value_of s saddr saddr v h = absurd cc
with_member-value_of s m m' v h = refl

with_member-lost :
    (s : Holder) (m : Member) (v : ℕ) → value_of s m ≡ none → (with_member s m v).lost ≡ s.lost
unfolding with_member
with_member-lost s unused v h = refl
with_member-lost s m v h = ap (λ r. lose r s.lost) h

AreUnset-with_member :
    (s : Holder) (m : Member) (v : ℕ) (ps : Pairs)
    → AreUnset s ps
    → Spares m ps
    → AreUnset (with_member s m v) ps
AreUnset-with_member s m v done u d = tt
AreUnset-with_member s m v (pair (text_string key) x ps) u d =
    (with_member-value_of s m (member key) v d.0 ∙ u.0, AreUnset-with_member s m v ps u.1 d.1)
AreUnset-with_member s m v (pair k x ps) u d = AreUnset-with_member s m v ps u d

-- The loop loses nothing.
load_refs-lost :
    (ok : Calls) (root : Option ℕ) (ps : Pairs) (s : Holder) (l : Ledger)
    → AreUnset s ps
    → AreDistinct ps
    → s.lost ≡ []
    → Upon (λ r. r.0.lost ≡ []) (load_refs ok root ps s l)
unfolding load_refs
load_refs-lost ok root done s l u d e =
    follow-Upon (λ r. r.0.lost ≡ []) (xrelease root l) _ (λ x l1. e)
load_refs-lost ok root (pair absent value ps) s l u d e = tt
load_refs-lost ok root (pair (text_string key) value ps) s l u d e =
    option-Upon (λ r. r.0.lost ≡ []) (member_ref ok (member key) value l) _
      (λ l1. follow-Upon (λ r. r.0.lost ≡ []) (xrelease root l1) _ (λ x l2. e))
      (λ v l1.
        follow-Upon (λ r. r.0.lost ≡ []) (release_unused (member key) v l1) _
          (λ x l2.
            load_refs-lost ok root ps (with_member s (member key) v) l2
              (AreUnset-with_member s (member key) v ps u.1 d.0) d.1
              (with_member-lost s (member key) v u.0 ∙ e)))
load_refs-lost ok root (pair k value ps) s l u d e = load_refs-lost ok root ps s l u d e

clock_refs-lost :
    (ok : Calls) (s : Holder) (whole : Bool) (l : Ledger)
    → s.lost ≡ []
    → Upon (λ r. r.0.lost ≡ []) (clock_refs ok s whole l)
clock_refs-lost ok s false l e = e
clock_refs-lost ok s true l e = follow-Upon (λ r. r.0.lost ≡ []) (asks ok l) _ (λ clock l1. e)

file_refs-lost :
    (ok : Calls) (ps : Pairs) (s : Holder) (l : Ledger)
    → AreUnset s ps
    → AreDistinct ps
    → s.lost ≡ []
    → Upon (λ r. r.0.lost ≡ []) (file_refs ok (some (map ps)) s l)
unfolding file_refs
file_refs-lost ok ps s l u d e =
    let Q = λ (r : Holder × Bool). r.0.lost ≡ [] in
    option-Upon Q (make ok l) _ (λ l1. e)
      (λ file l1.
        option-Upon Q (make ok l1) _ (λ l2. follow-Upon Q (release file l2) _ (λ x l3. e))
          (λ buffer l2. follow-Upon Q (release file l2) _ (λ x l3.
            follow-Upon Q (new_ref l3) _ (λ root l4. follow-Upon Q (release buffer l4) _ (λ y l5.
              after-Upon Q Q (load_refs ok root ps s l5) _ (load_refs-lost ok root ps s l5 u d e)
                (λ r l6 e'. clock_refs-lost ok r.0 r.1 l6 e'))))))

AreUnset-new : (ps : Pairs) (r : Option ℕ) → AreUnset (set_filename new_holder r) ps
unfolding new_holder
AreUnset-new done r = tt
AreUnset-new (pair (text_string key) value ps) r = (unset (member key) r, AreUnset-new ps r)
AreUnset-new (pair k value ps) r = AreUnset-new ps r

init_refs-lost :
    (ok : Calls) (ps : Pairs) (l : Ledger)
    → AreDistinct ps
    → Upon (λ r. r.0.lost ≡ []) (init_refs ok (some (map ps)) new_holder l)
unfolding init_refs new_holder
init_refs-lost ok ps l d =
    let Q = λ (r : Holder × Bool). r.0.lost ≡ [] in
    bool-Upon Q (asks ok l) _ (λ l1. refl)
      (λ l1.
        option-Upon Q (make ok l1) _ (λ l2. refl)
          (λ f l2.
            file_refs-lost ok ps (set_filename new_holder (some f)) l2 (AreUnset-new ps (some f)) d
              refl))

life-lost :
    (ok : Calls) (ps : Pairs) (l : Ledger)
    → AreDistinct ps
    → Upon (λ r. r.0 ≡ []) (life_refs ok (some (map ps)) l)
unfolding life_refs
life-lost ok ps l d =
    after-Upon (λ r. r.0.lost ≡ []) (λ (r : List ℕ × Bool). r.0 ≡ [])
      (init_refs ok (some (map ps)) new_holder l) _ (init_refs-lost ok ps l d)
      (λ r l1 e. follow-Upon (λ (r : List ℕ × Bool). r.0 ≡ []) (dealloc_refs r.0 l1) _ (λ u l2. e))

-- cbor_load gives a map in which no key is NULL and no two keys select one member, and a value
-- of fmts is a map in which no value is NULL and an array of five ends with an array. Then,
-- whichever calls fail, an object that is made, set up once by LogData_init and released by
-- LogData_dealloc gives back only what it owns; of the references to Python objects, the file,
-- the buffer and the item of cbor_load it owns in the end what was owned before, each as often.
-- But the references that cbor_array_get has given are not given back: if LogData_init succeeds,
-- there is one more for each item in an array that it has looked at, and if it fails, there are
-- not fewer than before.
pub life_refs-Owns :
    (ok : Calls) (ps : Pairs) (l : Ledger)
    → IsFile ps
    → AreDistinct ps
    → Post
        (λ r l'. Owns l' (λ k. count k l.owned) × Fetched l.items (file_elements ps) r.1 l'.items)
        (life_refs ok (some (map ps)) l)
life_refs-Owns ok ps l h d =
    let m = life_refs ok (some (map ps)) l in
    let P = λ (r : List ℕ × Bool) (l' : Ledger). Owns l' (λ k. count k l.owned) in
    let F = λ (r : List ℕ × Bool) (l' : Ledger). Fetched l.items (file_elements ps) r.1 l'.items in
    with-Leaves P F m
      (both-Post (λ r l'. Owns l' (λ k. count k r.0 + count k l.owned)) P (λ r. r.0 ≡ []) m
        (life_refs-lost ok ps l h) (life-lost ok ps l d)
        (λ r l' p e k. p k ∙ ap (λ x. count k x + count k l.owned) e ∙ omega arith))
      (life_refs-Fetched ok ps l h)
