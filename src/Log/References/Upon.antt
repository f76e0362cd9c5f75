-- ===== src/Log/References/Upon.antt =====
-- What holds of the result of a step if it has one.
use p.Common.{Bool, true, false, Option, none, some}
use p.Log.References.{Ledger, Own, follow}
use p.Log.References.Rules.{Post}

-- If a step ends at all, this holds of its result.
abbrev pub Upon : {A : Type 0} → (A → Type 0) → Option (A × Ledger) → Type 0
Upon P none = Unit
Upon P (some r) = P r.0

pub follow-Upon :
    {A B : Type 0} (Q : B → Type 0) (m : Option (A × Ledger)) (f : A → Own B)
    → ((a : A) (l : Ledger) → Upon Q (f a l))
    → Upon Q (follow m f)
follow-Upon Q none f k = tt
follow-Upon Q (some r) f k = k r.0 r.1

-- The same behind a step whose result may be NULL, or that answers, or that has a result of a kind
pub option-Upon :
    {A B : Type 0} (Q : B → Type 0) (m : Option (Option A × Ledger)) (f : Option A → Own B)
    → ((l : Ledger) → Upon Q (f none l))
    → ((a : A) (l : Ledger) → Upon Q (f (some a) l))
    → Upon Q (follow m f)
option-Upon Q none f fails gives = tt
option-Upon Q (some (none, l)) f fails gives = fails l
option-Upon Q (some (some a, l)) f fails gives = gives a l

pub bool-Upon :
    {B : Type 0} (Q : B → Type 0) (m : Option (Bool × Ledger)) (f : Bool → Own B)
    → ((l : Ledger) → Upon Q (f false l))
    → ((l : Ledger) → Upon Q (f true l))
    → Upon Q (follow m f)
bool-Upon Q none f fails does = tt
bool-Upon Q (some (false, l)) f fails does = fails l
bool-Upon Q (some (true, l)) f fails does = does l

pub after-Upon :
    {A B : Type 0} (P : A → Type 0) (Q : B → Type 0) (m : Option (A × Ledger)) (f : A → Own B)
    → Upon P m
    → ((a : A) (l : Ledger) → P a → Upon Q (f a l))
    → Upon Q (follow m f)
after-Upon P Q none f h k = tt
after-Upon P Q (some r) f h k = k r.0 r.1 h

pub both-Post :
    {A : Type 0} (P R : A → Ledger → Type 0) (Q : A → Type 0) (m : Option (A × Ledger))
    → Post P m
    → Upon Q m
    → ((a : A) (l : Ledger) → P a l → Q a → R a l)
    → Post R m
both-Post P R Q none h u k = absurd h
both-Post P R Q (some r) h u k = k r.0 r.1 h u
