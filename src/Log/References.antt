-- ===== src/Log/References.antt =====
-- The references that the log decoder owns. The conversions count the references that they get and
-- release; here each call is modelled by what it does to these alone, and every call of the
-- interpreter that may fail fails or not as the caller of the model chooses.
pub mod Rules
pub mod Parts
pub mod Steps
pub mod Items
pub mod Balance
pub mod Formats
pub mod Rows
pub mod Five
pub mod Table
pub mod Holder
pub mod Counts
pub mod Members
pub mod Life
pub mod Upon
pub mod Leaves
pub mod Fetched
pub mod Distinct
use p.Common.{ℕ, suc, Bool, true, false, List, [], ◌∷◌, Option, none, some, ◌==◌, if◌then◌else◌}

-- `owned` names the references the code has to release, the newest first, by the call that gave
-- them; `next` is the number of the next call. `items` is the number of references to items of
-- libcbor that cbor_array_get has given: the code owns these too, and no call of it gives one
-- back, so that their names do not matter.
pub record Ledger : Type 0 where
  pub owned : List ℕ
  pub next : ℕ
  pub items : ℕ

-- Whether the call of this number succeeds
abbrev pub Calls : Type 0
Calls = ℕ → Bool

-- None where a reference is released that the code does not own.
abbrev pub Own : Type 0 → Type 0
Own A = Ledger → Option (A × Ledger)

abbrev pub follow : {A B : Type 0} → Option (A × Ledger) → (A → Own B) → Option (B × Ledger)
follow none f = none
follow (some r) f = f r.0 r.1

infixl 5 ◌>>=◌ ◌>>◌
abbrev pub ◌>>=◌ : {A B : Type 0} → Own A → (A → Own B) → Own B
◌>>=◌ m f l = follow (m l) f

abbrev pub ◌>>◌ : {A B : Type 0} → Own A → Own B → Own B
m >> k = m >>= λ _. k

abbrev pub ret : {A : Type 0} → A → Own A
ret a l = some (a, l)

-- A new reference from a call that does not fail, as to None
unfoldable pub new_ref : Own (Option ℕ)
new_ref l = some (some l.next, record l { owned = l.next ∷ l.owned; next = suc l.next })

-- The end of a call that succeeds or not: a new reference, or NULL
abbrev pub made : Bool → Own (Option ℕ)
made true l = new_ref l
made false l = some (none, record l { next = suc l.next })

unfoldable pub make : Calls → Own (Option ℕ)
make ok l = made (ok l.next) l

-- A call that gives no reference
unfoldable pub asks : Calls → Own Bool
asks ok l = some (ok l.next, record l { next = suc l.next })

unfoldable pub drop : ℕ → List ℕ → Option (List ℕ)
drop h [] = none
drop h (k ∷ ks) =
    let rest = drop h ks in
    if h == k then some ks else elim rest [ none ↦ none | some ks' ↦ some (k ∷ ks') ]

-- Py_DECREF, and what a call that steals a reference does to it
unfoldable pub release : ℕ → Own (Unit {0})
release h l = elim (drop h l.owned) [ none ↦ none | some hs ↦ some (tt, record l { owned = hs }) ]

-- cbor_array_get
unfoldable pub get_item : Own (Unit {0})
get_item l = some (tt, record l { items = suc l.items })

-- The code reads through NULL, or an item as what it is not.
abbrev pub crash : {A : Type 0} → Own A
crash l = none

-- Py_XDECREF
abbrev pub xrelease : Option ℕ → Own (Unit {0})
xrelease none = ret tt
xrelease (some h) = release h

-- The four parts of an array of five are released in this order, before what follows.
abbrev pub release_parts : {A : Type 0} → Option ℕ → Option ℕ → Option ℕ → Option ℕ → Own A → Own A
release_parts level fname line clean_fmt m = do
  xrelease level
  xrelease fname
  xrelease line
  xrelease clean_fmt
  m
