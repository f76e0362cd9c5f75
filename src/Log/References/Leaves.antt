-- ===== src/Log/References/Leaves.antt =====
-- What holds of the result of a step and of the ledger if the step ends.
use p.Common.{ℕ, Bool, true, false, Option, none, some}
use p.Log.References.{Ledger, Own, follow}
use p.Log.References.Rules.{Post}

-- If a step ends at all, this holds of its result and of the ledger.
abbrev pub Leaves : {A : Type 0} → (A → Ledger → Type 0) → Option (A × Ledger) → Type 0
Leaves P none = Unit
Leaves P (some r) = P r.0 r.1

pub Post-Leaves :
    {A : Type 0} (P : A → Ledger → Type 0) (m : Option (A × Ledger)) → Post P m → Leaves P m
Post-Leaves P none h = tt
Post-Leaves P (some r) h = h

pub with-Leaves :
    {A : Type 0} (P Q : A → Ledger → Type 0) (m : Option (A × Ledger))
    → Post P m
    → Leaves Q m
    → Post (λ a l. P a l × Q a l) m
with-Leaves P Q none h k = absurd h
with-Leaves P Q (some r) h k = (h, k)

pub follow-Leaves :
    {A B : Type 0} (P : A → Ledger → Type 0) (Q : B → Ledger → Type 0) (m : Option (A × Ledger))
    (f : A → Own B)
    → Leaves P m
    → ((a : A) (l : Ledger) → P a l → Leaves Q (f a l))
    → Leaves Q (follow m f)
follow-Leaves P Q none f h k = tt
follow-Leaves P Q (some r) f h k = k r.0 r.1 h

pub option-Leaves :
    {B : Type 0} (P : Option ℕ → Ledger → Type 0) (Q : B → Ledger → Type 0)
    (m : Option (Option ℕ × Ledger)) (f : Option ℕ → Own B)
    → Leaves P m
    → ((l : Ledger) → P none l → Leaves Q (f none l))
    → ((h : ℕ) (l : Ledger) → P (some h) l → Leaves Q (f (some h) l))
    → Leaves Q (follow m f)
option-Leaves P Q none f h fails gives = tt
option-Leaves P Q (some (none, l)) f h fails gives = fails l h
option-Leaves P Q (some (some a, l)) f h fails gives = gives a l h

pub bool-Leaves :
    {B : Type 0} (P : Bool → Ledger → Type 0) (Q : B → Ledger → Type 0) (m : Option (Bool × Ledger))
    (f : Bool → Own B)
    → Leaves P m
    → ((l : Ledger) → P false l → Leaves Q (f false l))
    → ((l : Ledger) → P true l → Leaves Q (f true l))
    → Leaves Q (follow m f)
bool-Leaves P Q none f h fails does = tt
bool-Leaves P Q (some (false, l)) f h fails does = fails l h
bool-Leaves P Q (some (true, l)) f h fails does = does l h
