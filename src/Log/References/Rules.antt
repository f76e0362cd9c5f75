-- ===== src/Log/References/Rules.antt =====
-- How a step over the ledger is shown to end in a state of a kind.
use p.Common.{
  Bool, true, false, ℕ, ◌+◌, ◌≤◌, ◌<◌, ◌≡◌, refl, List, ◌∷◌, Option, none, some, eq→==, ne→==,
  arith,
}
use p.Log.References.{◌>>=◌, Ledger, Own, follow, drop, release}

-- The references that a result adds to these
abbrev pub held : Option ℕ → List ℕ → List ℕ
held none o = o
held (some h) o = h ∷ o

-- A result that comes from the calls between these numbers
abbrev pub Within : ℕ → Option ℕ → ℕ → Type 0
Within n none m = n ≤ m
Within n (some h) m = (n ≤ h) × (h < m)

-- A result comes with this many items of arrays; without one there are not fewer than before.
abbrev pub Counts : ℕ → ℕ → Option ℕ → ℕ → Type 0
Counts i e none j = i ≤ j
Counts i e (some h) j = j ≡ i + e

-- A step ends with a result and a ledger of which this holds.
abbrev pub Post : {A : Type 0} → (A → Ledger → Type 0) → Option (A × Ledger) → Type 0
Post P none = ⊥
Post P (some r) = P r.0 r.1

pub follow-Post :
    {A B : Type 0} (P : A → Ledger → Type 0) (Q : B → Ledger → Type 0) (m : Option (A × Ledger))
    (f : A → Own B)
    → Post P m
    → ((a : A) (l : Ledger) → P a l → Post Q (f a l))
    → Post Q (follow m f)
follow-Post P Q none f h k = absurd h
follow-Post P Q (some r) f h k = k r.0 r.1 h

pub Post-map :
    {A : Type 0} (P Q : A → Ledger → Type 0) (m : Option (A × Ledger))
    → Post P m
    → ((a : A) (l : Ledger) → P a l → Q a l)
    → Post Q m
Post-map P Q none h k = absurd h
Post-map P Q (some r) h k = k r.0 r.1 h

-- A result that may be NULL
pub option-Post :
    {A B : Type 0} (P : Option A → Ledger → Type 0) (Q : B → Ledger → Type 0)
    (m : Option (Option A × Ledger)) (f : Option A → Own B)
    → Post P m
    → ((l : Ledger) → P none l → Post Q (f none l))
    → ((a : A) (l : Ledger) → P (some a) l → Post Q (f (some a) l))
    → Post Q (follow m f)
option-Post P Q none f h fails gives = absurd h
option-Post P Q (some (none, l)) f h fails gives = fails l h
option-Post P Q (some (some a, l)) f h fails gives = gives a l h

pub bool-Post :
    {B : Type 0} (P : Bool → Ledger → Type 0) (Q : B → Ledger → Type 0) (m : Option (Bool × Ledger))
    (f : Bool → Own B)
    → Post P m
    → ((l : Ledger) → P false l → Post Q (f false l))
    → ((l : Ledger) → P true l → Post Q (f true l))
    → Post Q (follow m f)
bool-Post P Q none f h fails does = absurd h
bool-Post P Q (some (false, l)) f h fails does = fails l h
bool-Post P Q (some (true, l)) f h fails does = does l h

pub drop-top : (h : ℕ) (o : List ℕ) → drop h (h ∷ o) ≡ some o
unfolding drop
drop-top h o = rw (eq→== h h refl) refl

pub drop-under :
    (h k : ℕ) (o o' : List ℕ) → h < k → drop h o ≡ some o' → drop h (k ∷ o) ≡ some (k ∷ o')
unfolding drop
drop-under h k o o' lt e = rw (e, ne→== h k (λ p. omega arith)) refl

pub release-Post :
    {B : Type 0} (Q : B → Ledger → Type 0) (h : ℕ) (o o' : List ℕ) (l : Ledger)
    (f : Unit {0} → Own B)
    → l.owned ≡ o
    → drop h o ≡ some o'
    → Post Q (f tt (record l { owned = o' }))
    → Post Q (follow (release h l) f)
unfolding release
release-Post Q h o o' l f e d k = rw (e, release, d) k

-- Two references are released, the older one first.
pub release_two-Post :
    {B : Type 0} (Q : B → Ledger → Type 0) (key val : ℕ) (o : List ℕ) (l : Ledger) (f : Own B)
    → l.owned ≡ val ∷ key ∷ o
    → key < val
    → Post Q (f (record l { owned = o }))
    → Post Q (follow (release key l) (λ _. release val >>= λ _. f))
release_two-Post Q key val o l f e lt k =
    release-Post Q key (val ∷ key ∷ o) (val ∷ o) l (λ _. release val >>= λ _. f) e
      (drop-under key val (key ∷ o) o lt (drop-top key o))
      (release-Post Q val (val ∷ o) o (record l { owned = val ∷ o }) (λ _. f) refl (drop-top val o)
        k)

-- The effect of a conversion: the references that it adds, the numbers of its calls, and how many
-- items cbor_array_get has given, or not more than that are known where it fails.
pub record Ends (o : List ℕ) (n i e : ℕ) (r : Option ℕ) (l : Ledger) : Type 0 where
  pub same : l.owned ≡ held r o
  pub from : Within n r l.next
  pub got : Counts i e r l.items
