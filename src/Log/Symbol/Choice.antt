-- ===== src/Log/Symbol/Choice.antt =====
-- The choice of the nearest variable among the rows of a table, on natural numbers.
use p.Common.{
  ℕ, ◌+◌, ◌-◌, ◌^◌, ◌≤◌, ◌<◌, ◌≡◌, refl, sym, ap, subst, Bool, true, false, Bool-cases, ◌&&◌, List,
  [], ◌∷◌, Option, none, some, ltb, leb, if◌then◌else◌, All, ◌⊎◌, inl, inr, arith,
}
use p.Log.Object.{Object}

-- A table of variables: an address and a name in each row
abbrev pub Rows : Type 0
Rows = List (ℕ × Object)

abbrev pub IsAddress : ℕ × Object → Type 0
IsAddress row = row.0 < 2 ^ 63

-- The name found so far, and its offset
abbrev pub Found : Type 0
Found = Option (Object × ℕ)

abbrev pub better : Found → ℕ → Bool
better none n = true
better (some (name, k)) n = ltb n k

abbrev pub pick : ℕ → Found → ℕ × Object → Found
pick a best (addr, name) =
    if leb addr a && ltb (a - addr) 0x3000 && better best (a - addr)
    then some (name, a - addr)
    else best

abbrev pub picks : ℕ → Rows → Found → Found
picks a [] best = best
picks a (row ∷ rows) best = picks a rows (pick a best row)

-- An address from which `a` is fewer than 0x3000 bytes away
abbrev pub InRange : ℕ → ℕ × Object → Type 0
InRange a row = (row.0 ≤ a) × (a < row.0 + 0x3000)

-- One of the rows has this name, at this distance.
abbrev pub IsRow : ℕ → Rows → Object × ℕ → Type 0
IsRow a [] p = ⊥
IsRow a ((addr, name) ∷ rows) p = ((name ≡ p.0) × (addr + p.1 ≡ a)) ⊎ IsRow a rows p

-- No row is in range; or a row that is, and none that is has a higher address.
abbrev pub IsNearest : ℕ → Rows → Found → Type 0
IsNearest a rows none = All (λ row. ¬ InRange a row) rows
IsNearest a rows (some p) =
    (p.1 < 0x3000) × IsRow a rows p × All (λ row. InRange a row → row.0 + p.1 ≤ a) rows

pub test_below :
    (best : Found) (a addr : ℕ)
    → (leb addr a && ltb (a - addr) 0x3000 && better best (a - addr)) ≡ true
    → addr ≤ a
test_below none a addr h = ground arith
test_below (some (name, k)) a addr h = ground arith

-- What the rows make of the variable found before them
abbrev Chosen : ℕ → Rows → Found → Found → Type 0
Chosen a rows best none = (best ≡ none) × All (λ row. ¬ InRange a row) rows
Chosen a rows best (some p) =
    ((best ≡ some p) ⊎ ((p.1 < 0x3000) × IsRow a rows p))
    × All (λ row. InRange a row → row.0 + p.1 ≤ a) rows
    × ((q : Object × ℕ) → best ≡ some q → p.1 ≤ q.1)

offset : Found → ℕ
offset none = 0
offset (some p) = p.1

name_of : Object → Found → Object
name_of o none = o
name_of o (some p) = p.0

same_offset : (p q : Object × ℕ) → ◌≡◌ {A = Found} (some p) (some q) → p.1 ≡ q.1
unfolding offset
same_offset p q e = ap offset e

same_name : (p q : Object × ℕ) → ◌≡◌ {A = Found} (some p) (some q) → p.0 ≡ q.0
unfolding name_of
same_name p q e = ap (name_of p.0) e

some-none : (p : Object × ℕ) → ¬ (◌≡◌ {A = Found} (some p) none)
some-none p e = cc

-- The row is taken.
taken_lem :
    (a addr : ℕ) (name : Object) (rows : Rows) (best r : Found)
    → addr ≤ a
    → a - addr < 0x3000
    → ((q : Object × ℕ) → best ≡ some q → a - addr ≤ q.1)
    → Chosen a rows (some (name, a - addr)) r
    → Chosen a ((addr, name) ∷ rows) best r
taken_lem a addr name rows best none below near better ih = absurd (some-none (name, a - addr) ih.0)
taken_lem a addr name rows best (some p) below near better (origin, bound, least) =
    let up = least (name, a - addr) refl in
    (
      elim origin [
        | inl e ↦ inr (
          omega (arith, up),
          inl (same_name (name, a - addr) p e, omega (arith, same_offset (name, a - addr) p e)),
        )
        | inr (lt, there) ↦ inr (lt, inr there)
      ],
      ((λ h. omega (arith, up)), bound),
      (λ q e. omega (arith, up, better q e)),
    )

-- The row is passed over.
passed_lem :
    (a addr : ℕ) (name : Object) (rows : Rows) (best r : Found)
    → (best ≡ none → ¬ InRange a (addr, name))
    → ((q : Object × ℕ) → best ≡ some q → InRange a (addr, name) → addr + q.1 ≤ a)
    → Chosen a rows best r
    → Chosen a ((addr, name) ∷ rows) best r
passed_lem a addr name rows best none empty far ih = (ih.0, (empty ih.0, ih.1))
passed_lem a addr name rows none (some p) empty far (origin, bound, least) = (
  elim origin [ inl e ↦ inl e | inr (lt, there) ↦ inr (lt, inr there) ],
  ((λ h. absurd (empty refl h)), bound),
  least,
)
passed_lem a addr name rows (some q) (some p) empty far (origin, bound, least) = (
  elim origin [ inl e ↦ inl e | inr (lt, there) ↦ inr (lt, inr there) ],
  ((λ h. omega (arith, far q refl h, least q refl)), bound),
  least,
)

abbrev test : ℕ → Found → ℕ → Bool
test a best addr = leb addr a && ltb (a - addr) 0x3000 && better best (a - addr)

taken_row : (a addr : ℕ) (best : Found) → test a best addr ≡ true → (addr ≤ a) × (a - addr < 0x3000)
taken_row a addr none h = (ground arith, ground arith)
taken_row a addr (some (name, k)) h = (ground arith, ground arith)

taken_better :
    (a addr : ℕ) (best : Found)
    → test a best addr ≡ true
    → (q : Object × ℕ) → best ≡ some q
    → a - addr ≤ q.1
taken_better a addr none h q e = absurd (some-none q (sym e))
taken_better a addr (some (name, k)) h q e = less (same_offset (name, k) q e)
  where
    less : k ≡ q.1 → a - addr ≤ q.1
    less e' = ground arith

passed_none :
    (a addr : ℕ) (name : Object) (best : Found)
    → test a best addr ≡ false
    → best ≡ none
    → ¬ InRange a (addr, name)
passed_none a addr name none h e i = ground arith
passed_none a addr name (some p) h e i = absurd (some-none p e)

passed_some :
    (a addr : ℕ) (name : Object) (best : Found)
    → test a best addr ≡ false
    → (q : Object × ℕ) → best ≡ some q
    → InRange a (addr, name)
    → addr + q.1 ≤ a
passed_some a addr name none h q e i = absurd (some-none q (sym e))
passed_some a addr name (some (n, k)) h q e i = more (same_offset (n, k) q e)
  where
    more : k ≡ q.1 → addr + q.1 ≤ a
    more e' = ground arith

row_lem :
    (a addr : ℕ) (name : Object) (rows : Rows) (best r : Found)
    → Chosen a rows (pick a best (addr, name)) r
    → Chosen a ((addr, name) ∷ rows) best r
row_lem a addr name rows best r ih = elim (Bool-cases (test a best addr)) [
  | inl yes_taken ↦
      let (below, near) = taken_row a addr best yes_taken in
      taken_lem a addr name rows best r below near (taken_better a addr best yes_taken) (
        subst (λ (c : Bool). Chosen a rows (if c then some (name, a - addr) else best) r) yes_taken
          ih)
  | inr not_taken ↦
      passed_lem a addr name rows best r (passed_none a addr name best not_taken)
        (passed_some a addr name best not_taken)
        (subst (λ (c : Bool). Chosen a rows (if c then some (name, a - addr) else best) r) not_taken
          ih)
]

picks_lem : (a : ℕ) (rows : Rows) (best : Found) → Chosen a rows best (picks a rows best)
picks_lem a [] none = (refl, tt)
picks_lem a [] (some p) = (inl refl, tt, λ q e. omega (arith, same_offset p q e))
picks_lem a ((addr, name) ∷ rows) best =
    row_lem a addr name rows best _ (picks_lem a rows (pick a best (addr, name)))

Chosen-IsNearest : (a : ℕ) (rows : Rows) (r : Found) → Chosen a rows none r → IsNearest a rows r
Chosen-IsNearest a rows none h = h.1
Chosen-IsNearest a rows (some p) (origin, bound, least) = elim origin [
  | inl e ↦ absurd (some-none p (sym e))
  | inr (lt, there) ↦ (lt, there, bound)
]

pub picks-IsNearest : (a : ℕ) (rows : Rows) → IsNearest a rows (picks a rows none)
picks-IsNearest a rows = Chosen-IsNearest a rows (picks a rows none) (picks_lem a rows none)
