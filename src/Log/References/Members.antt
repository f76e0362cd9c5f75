-- ===== src/Log/References/Members.antt =====
-- The references in the members of an object, and their release.
use p.Common.{ℕ, ◌+◌, ◌≡◌, refl, ap, ◌∙◌, List, Option, none, some, arith}
use p.Log.Load.{Member, fmts, enums, tdenums, variables, functions, saddr, unused}
use p.Log.References.{Ledger, ret}
use p.Log.References.Rules.{held, Post}
use p.Log.References.Counts.{one, one_of, count, Owns, xrelease-Owns}
use p.Log.References.Holder.{Holder, lose, set_filename, with_member, release_unused, dealloc_refs}

-- The references of the members
unfoldable pub in_members : ℕ → Holder → ℕ
in_members k s =
    one_of k s.enums
    + (one_of k s.tdenums
        + (one_of k s.variables
            + (one_of k s.functions
                + (one_of k s.saddr + (one_of k s.fmts + one_of k s.filename)))))

-- Every reference that is owned is one of a member, or has lost its last pointer, or is of these.
abbrev pub Keeps : (ℕ → ℕ) → Holder → Ledger → Type 0
Keeps n s l = Owns l (λ k. in_members k s + (count k s.lost + n k))

lose-count : (k : ℕ) (r : Option ℕ) (hs : List ℕ) → count k (lose r hs) ≡ one_of k r + count k hs
lose-count k none hs = omega arith
lose-count k (some h) hs = refl

pub with_member-Keeps :
    (n : ℕ → ℕ) (s : Holder) (m : Member) (v : ℕ) (l : Ledger)
    → Owns l (λ k. one k v + (in_members k s + (count k s.lost + n k)))
    → Post (λ u l'. Keeps n (with_member s m v) l') (release_unused m v l)
unfolding with_member in_members
with_member-Keeps n s fmts v l o =
    λ k. (let e = o k in let c = lose-count k s.fmts s.lost in omega arith)
with_member-Keeps n s enums v l o =
    λ k. (let e = o k in let c = lose-count k s.enums s.lost in omega arith)
with_member-Keeps n s tdenums v l o =
    λ k. (let e = o k in let c = lose-count k s.tdenums s.lost in omega arith)
with_member-Keeps n s variables v l o =
    λ k. (let e = o k in let c = lose-count k s.variables s.lost in omega arith)
with_member-Keeps n s functions v l o =
    λ k. (let e = o k in let c = lose-count k s.functions s.lost in omega arith)
with_member-Keeps n s saddr v l o =
    λ k. (let e = o k in let c = lose-count k s.saddr s.lost in omega arith)
with_member-Keeps n s unused v l o =
    xrelease-Owns (λ u l'. Keeps n s l') (some v) (λ k. in_members k s + (count k s.lost + n k)) l
      (ret tt) o (λ l' o'. o')

pub filename-Keeps :
    (n : ℕ → ℕ) (s : Holder) (r : Option ℕ) (l : Ledger)
    → Owns l (λ k. one_of k r + (in_members k s + (count k s.lost + n k)))
    → Keeps n (set_filename s r) l
unfolding in_members
filename-Keeps n s r l o =
    λ k. (let e = o k in let c = lose-count k s.filename s.lost in omega arith)

all_members :
    (n : ℕ → ℕ) (s : Holder) (l : Ledger)
    → Keeps n s l
    → Owns l (λ k.
      one_of k s.enums
      + (one_of k s.tdenums
          + (one_of k s.variables
              + (one_of k s.functions
                  + (one_of k s.saddr
                      + (one_of k s.fmts + (one_of k s.filename + (count k s.lost + n k))))))))
unfolding in_members
all_members n s l o = λ k. (let e = o k in omega arith)

pub held-Owns :
    (r : Option ℕ) (l l' : Ledger) (n : ℕ → ℕ)
    → l'.owned ≡ held r l.owned
    → Owns l n
    → Owns l' (λ k. one_of k r + n k)
held-Owns none l l' n e o = λ k. ap (count k) e ∙ o k ∙ omega arith
held-Owns (some h) l l' n e o = λ k. ap (count k) e ∙ ap (λ z. one k h + z) (o k)

pub dealloc_refs-Owns :
    (n : ℕ → ℕ) (s : Holder) (l : Ledger)
    → Keeps n s l
    → Post (λ u l'. Owns l' (λ k. count k s.lost + n k)) (dealloc_refs s l)
unfolding dealloc_refs in_members
dealloc_refs-Owns n s l o =
    let Q = λ (u : Unit {0}) (l' : Ledger). Owns l' (λ k. count k s.lost + n k) in
    xrelease-Owns Q s.enums _ l _ (all_members n s l o) (λ l1 o1.
      xrelease-Owns Q s.tdenums _ l1 _ o1 (λ l2 o2. xrelease-Owns Q s.variables _ l2 _ o2 (λ l3 o3.
        xrelease-Owns Q s.functions _ l3 _ o3 (λ l4 o4. xrelease-Owns Q s.saddr _ l4 _ o4 (λ l5 o5.
          xrelease-Owns Q s.fmts _ l5 _ o5
            (λ l6 o6. xrelease-Owns Q s.filename _ l6 _ o6 (λ l7 o7. o7)))))))
