-- ===== src/Log/References/Counts.antt =====
-- How often a reference is owned, and what a release does to that.
use p.Common.{
  ℕ, ◌+◌, ◌≤◌, ◌≡◌, refl, sym, ap, ◌∙◌, List, [], ◌∷◌, Option, none, some, ◌==◌, arith,
  if◌then◌else◌, eq→==, ne→==, ℕ_discrete, ◌≢◌,
}
use p.Log.References.{Ledger, Own, follow, drop, xrelease}
use p.Log.References.Rules.{Post, release-Post}

unfoldable pub one : ℕ → ℕ → ℕ
one k h = if h == k then 1 else 0

abbrev pub one_of : ℕ → Option ℕ → ℕ
one_of k none = 0
one_of k (some h) = one k h

abbrev pub count : ℕ → List ℕ → ℕ
count k [] = 0
count k (h ∷ hs) = one k h + count k hs

-- These are owned, and no others, in whatever order.
abbrev pub Owns : Ledger → (ℕ → ℕ) → Type 0
Owns l n = (k : ℕ) → count k l.owned ≡ n k

-- A list from which a reference can be taken
abbrev Without : ℕ → List ℕ → Type 0
Without h o = (ks : List ℕ) × (drop h o ≡ some ks) × ((k : ℕ) → one k h + count k ks ≡ count k o)

one_self : (h : ℕ) → one h h ≡ 1
unfolding one
one_self h = ground arith

one_other : (h k : ℕ) → h ≢ k → one h k ≡ 0
unfolding one
one_other h k ne = rw (ne→== k h (λ e. ne (sym e))) refl

drop-Without : (h : ℕ) (o : List ℕ) → 1 ≤ count h o → Without h o
unfolding drop
drop-Without h [] le = absurd (omega arith)
drop-Without h (k ∷ o) le = elim (ℕ_discrete h k) [
  | yes e ↦ (o, rw (eq→== h k e) refl, λ j. ap (λ z. one j z + count j o) e)
  | no ne ↦
      let none_here = one_other h k ne in
      let (ks, taken, counts) = drop-Without h o (omega arith) in
      (k ∷ ks, rw (taken, ne→== h k ne) refl, λ j. (let c = counts j in omega arith))
]

pub xrelease-Owns :
    {B : Type 0} (Q : B → Ledger → Type 0) (r : Option ℕ) (n : ℕ → ℕ) (l : Ledger) (f : Own B)
    → Owns l (λ k. one_of k r + n k)
    → ((l' : Ledger) → Owns l' n → Post Q (f l'))
    → Post Q (follow (xrelease r l) (λ _. f))
xrelease-Owns Q none n l f o k = k l (λ j. o j ∙ omega arith)
xrelease-Owns Q (some h) n l f o k =
    let (ks, taken, counts) =
      drop-Without h l.owned (let e = o h in let i = one_self h in omega arith) in
    release-Post Q h l.owned ks l (λ _. f) refl taken
      (k (record l { owned = ks }) (λ j. (let e = o j in let c = counts j in omega arith)))
