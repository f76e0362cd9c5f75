-- ===== src/Log/Load/Valid.antt =====
-- What LogData_init loads is fit for LogData_decode.
use p.Common.{◌≡◌, refl, Bool, true, false, Bool-cases, Option, none, some, Option-cases, inl, inr}
use p.Log.Object.{Text, Object, str_obj}
use p.Log.Python.{Exc, Result, fault, ends, C, ret, Python}
use p.Log.Cbor.{Item, absent, text_string, Pairs, done, pair}
use p.Log.Data.{LogData}
use p.Log.Convert.{cbor_item_to_pyobject}
use p.Log.Formats.{process_fmts, pairs_of}
use p.Log.Formats.Valid.{Makes, IsTableObject, process_fmts-IsTableObject}
use p.Log.Load.{
  new, Member, fmts, enums, tdenums, variables, functions, saddr, unused, member, assign,
  member_value, load_loop, Answers, start_clock, init,
}

-- The table of formats, if there is one
abbrev pub IsLoaded : LogData → Type 0
IsLoaded s = elim s.fmts [ none ↦ Unit {0} | some o ↦ IsTableObject o ]

abbrev pub Loads : Result (LogData × Bool) → Type 0
Loads fault = Unit {0}
Loads (ends (s, b) e) = IsLoaded s

then-Loads :
    {A : Type 0} (r : Result A) (f : A → C (LogData × Bool))
    → ((a : A) (e : Option Exc) → Loads (f a e))
    → Loads (elim r [ fault ↦ fault | ends a e ↦ f a e ])
then-Loads fault f h = tt
then-Loads (ends a e) f h = h a e

option-Loads :
    (o : Option Object) (s : LogData) (f : Object → C (LogData × Bool)) (e : Option Exc)
    → IsLoaded s
    → ((v : Object) → o ≡ some v → Loads (f v e))
    → Loads ((elim o as (λ _. C (LogData × Bool)) [ none ↦ ret (s, false) | some v ↦ f v ]) e)
option-Loads none s f e l h = l
option-Loads (some v) s f e l h = h v refl

-- The table itself
fmts_step :
    (s : LogData) (r : Result (Option Object)) (f : LogData → C (LogData × Bool))
    → IsLoaded s
    → Makes IsTableObject r
    → ((s' : LogData) (e : Option Exc) → IsLoaded s' → Loads (f s' e))
    → Loads (elim r [
      | fault ↦ fault
      | ends o e ↦
          (elim o as (λ _. C (LogData × Bool)) [
            | none ↦ ret (s, false)
            | some v ↦ f (assign s fmts v)
          ])
            e
    ])
fmts_step s fault f l t h = tt
fmts_step s (ends none e) f l t h = l
fmts_step s (ends (some v) e) f l t h = h (record s { fmts = some v }) e t

other_step :
    (s : LogData) (m : Member) (r : Result (Option Object)) (f : LogData → C (LogData × Bool))
    → IsLoaded s
    → ((v : Object) → IsLoaded (assign s m v))
    → ((s' : LogData) (e : Option Exc) → IsLoaded s' → Loads (f s' e))
    → Loads (elim r [
      | fault ↦ fault
      | ends o e ↦
          (elim o as (λ _. C (LogData × Bool)) [
            | none ↦ ret (s, false)
            | some v ↦ f (assign s m v)
          ])
            e
    ])
other_step s m fault f l keeps h = tt
other_step s m (ends none e) f l keeps h = l
other_step s m (ends (some v) e) f l keeps h = h (assign s m v) e (keeps v)

member_step :
    (py : Python) (m : Member) (value : Item) (s : LogData) (f : LogData → C (LogData × Bool))
    (e : Option Exc)
    → IsLoaded s
    → ((s' : LogData) (e : Option Exc) → IsLoaded s' → Loads (f s' e))
    → Loads (elim (member_value py m value e) [
      | fault ↦ fault
      | ends o e' ↦
          (elim o as (λ _. C (LogData × Bool)) [
            | none ↦ ret (s, false)
            | some v ↦ f (assign s m v)
          ])
            e'
    ])
member_step py fmts value s f e l h =
    fmts_step s (process_fmts py value e) f l (process_fmts-IsTableObject py value e) h
member_step py enums value s f e l h =
    other_step s enums (cbor_item_to_pyobject py value e) f l (λ v. l) h
member_step py tdenums value s f e l h =
    other_step s tdenums (cbor_item_to_pyobject py value e) f l (λ v. l) h
member_step py variables value s f e l h =
    other_step s variables (cbor_item_to_pyobject py value e) f l (λ v. l) h
member_step py functions value s f e l h =
    other_step s functions (cbor_item_to_pyobject py value e) f l (λ v. l) h
member_step py saddr value s f e l h =
    other_step s saddr (cbor_item_to_pyobject py value e) f l (λ v. l) h
member_step py unused value s f e l h =
    other_step s unused (cbor_item_to_pyobject py value e) f l (λ v. l) h

loop-Loads :
    (py : Python) (ps : Pairs) (s : LogData) (e : Option Exc)
    → IsLoaded s
    → Loads (load_loop py ps s e)
unfolding load_loop
loop-Loads py done s e l = l
loop-Loads py (pair (text_string key) value ps) s e l =
    member_step py (member key) value s (load_loop py ps) e l (loop-Loads py ps)
loop-Loads py (pair absent value ps) s e l = tt
loop-Loads py (pair _ value ps) s e l = loop-Loads py ps s e l

clock-Loads : (a : Answers) (s : LogData) (e : Option Exc) → IsLoaded s → Loads (start_clock a s e)
unfolding start_clock
clock-Loads a s e l = elim (Option-cases a.clock) [
  | inl stopped ↦ rw (start_clock, stopped) l
  | inr (t, read) ↦ rw (start_clock, read) l
]

whole-Loads :
    (a : Answers) (r : Result (LogData × Bool))
    → Loads r
    → Loads (elim r [
      | fault ↦ fault
      | ends x e ↦
          (elim (x.1) as (λ _. C (LogData × Bool)) [
            | false ↦ ret (x.0, false)
            | true ↦ start_clock a (x.0)
          ])
            e
    ])
whole-Loads a fault l = tt
whole-Loads a (ends (s, false) e) l = l
whole-Loads a (ends (s, true) e) l = clock-Loads a s e l

abbrev named : Text → LogData
unfolding new
named filename = record new { filename = some (str_obj filename) }

pub init-Loads : (py : Python) (a : Answers) (e : Option Exc) → Loads (init py a new e)
unfolding init new
init-Loads py a e = elim (Option-cases a.argument) [
  | inl refused ↦ rw (init, refused) tt
  | inr (name, parsed) ↦ elim (Option-cases (py.utf8 name)) [
    | inl bad ↦ rw (init, parsed, bad) tt
    | inr (filename, good) ↦ elim (Bool-cases a.opened) [
      | inr missing ↦ rw (init, parsed, good, missing) tt
      | inl opened ↦ elim (Bool-cases a.buffer) [
        | inr full ↦ rw (init, parsed, good, opened, full) tt
        | inl room ↦ elim (Option-cases a.loaded) [
          | inl broken ↦ rw (init, parsed, good, opened, room, broken) tt
          | inr (root, there) ↦
              rw (init, parsed, good, opened, room, there)
                (then-Loads (pairs_of root e) _ (λ ps e1.
                  whole-Loads a (load_loop py ps (named filename) e1)
                    (loop-Loads py ps (named filename) e1 tt)))
        ]
      ]
    ]
  ]
]
