-- ===== src/Log/References/Steps.antt =====
-- The single steps of the code over the ledger, and an object while it is built.
use p.Common.{
  true, false, ℕ, suc, ◌+◌, ◌≤◌, ◌<◌, ◌≡◌, refl, Bool, true, false, List, ◌∷◌, Option, none, some,
  arith,
}
use p.Log.References.{made, Ledger, Calls, new_ref, make, asks, release, follow, ret}
use p.Log.References.Rules.{Post, Ends, release-Post, drop-top}

-- The effect from this ledger on
abbrev pub EndsFrom : Ledger → ℕ → Option ℕ → Ledger → Type 0
EndsFrom l e = Ends l.owned l.next l.items e

pub new_ref-Ends : (l : Ledger) → Post (EndsFrom l 0) (new_ref l)
unfolding new_ref
new_ref-Ends l = record { same = refl; from = (omega arith, omega arith); got = omega arith }

made-Ends : (b : Bool) (l : Ledger) → Post (EndsFrom l 0) (made b l)
made-Ends true l = new_ref-Ends l
made-Ends false l = record { same = refl; from = omega arith; got = omega arith }

pub make-Ends : (ok : Calls) (l : Ledger) → Post (EndsFrom l 0) (make ok l)
unfolding make
make-Ends ok l = made-Ends (ok l.next) l

-- An object under construction
pub record Built (o : List ℕ) (n h i : ℕ) (l : Ledger) : Type 0 where
  pub same : l.owned ≡ h ∷ o
  pub old : n ≤ h
  pub early : h < l.next
  pub got : i ≤ l.items

pub new_Built :
    (l : Ledger) (h : ℕ) (l' : Ledger)
    → EndsFrom l 0 (some h) l'
    → Built l.owned l.next h l.items l'
new_Built l h l' p = record { same = p.same; old = p.from.0; early = p.from.1; got = omega arith }

module _ (o : List ℕ) (n h i e : ℕ) where
  pub failed-Ends :
      (l : Ledger) → Built o n h i l → Post (Ends o n i e) (follow (release h l) (λ _. ret none))
  failed-Ends l b =
      release-Post (Ends o n i e) h (h ∷ o) o l (λ _. ret none) b.same (drop-top h o)
        (record { same = refl; from = omega arith; got = b.got })

  pub finished-Ends : (l : Ledger) → Built o n h i l → l.items ≡ i + e → Ends o n i e (some h) l
  finished-Ends l b g = record { same = b.same; from = (b.old, b.early); got = g }

-- A call that gives no reference
abbrev pub Asked : Ledger → Bool → Ledger → Type 0
Asked l set l' = (l'.owned ≡ l.owned) × (l'.next ≡ suc l.next) × (l'.items ≡ l.items)

pub asks-Post : (ok : Calls) (l : Ledger) → Post (Asked l) (asks ok l)
unfolding asks
asks-Post ok l = (refl, refl, refl)

-- A step that goes on leaves these references, and one that does not leaves those.
abbrev pub Passed : List ℕ → List ℕ → ℕ → ℕ → ℕ → Bool → Ledger → Type 0
Passed o o' n i e true l = (l.owned ≡ o) × (n ≤ l.next) × (l.items ≡ i + e)
Passed o o' n i e false l = (l.owned ≡ o') × (n ≤ l.next) × (i ≤ l.items)
