-- ===== src/Log/References/Holder.antt =====
-- The references of `LogData_new`, `LogData_init` and `LogData_dealloc`; here the ledger names the
-- open file, the buffer and the item that cbor_load returns as well.
use p.Common.{ℕ, Bool, true, false, List, [], ◌∷◌, Option, none, some}
use p.Log.Cbor.{Item, absent, text_string, map, Pairs, done, pair}
use p.Log.Load.{Member, fmts, enums, tdenums, variables, functions, saddr, unused, member}
use p.Log.References.{Calls, Own, ◌>>=◌, ◌>>◌, ret, new_ref, make, asks, release, crash, xrelease}
use p.Log.References.Items.{item_ref}
use p.Log.References.Formats.{fmts_ref}

-- The references in the members of the object. `lost` is no member: it names the references whose
-- only pointer has been overwritten.
pub record Holder : Type 0 where
  pub enums : Option ℕ
  pub tdenums : Option ℕ
  pub variables : Option ℕ
  pub functions : Option ℕ
  pub saddr : Option ℕ
  pub fmts : Option ℕ
  pub filename : Option ℕ
  pub lost : List ℕ

unfoldable pub new_holder : Holder
new_holder = record {
  enums = none;
  tdenums = none;
  variables = none;
  functions = none;
  saddr = none;
  fmts = none;
  filename = none;
  lost = [];
}

-- The pointer that is overwritten
abbrev pub lose : Option ℕ → List ℕ → List ℕ
lose none hs = hs
lose (some h) hs = h ∷ hs

abbrev pub set_filename : Holder → Option ℕ → Holder
set_filename s r = record s { filename = r; lost = lose s.filename s.lost }

-- A value becomes that of its member. Without a member it is not stored,
unfoldable pub with_member : Holder → Member → ℕ → Holder
with_member s fmts v = record s { fmts = some v; lost = lose s.fmts s.lost }
with_member s enums v = record s { enums = some v; lost = lose s.enums s.lost }
with_member s tdenums v = record s { tdenums = some v; lost = lose s.tdenums s.lost }
with_member s variables v = record s { variables = some v; lost = lose s.variables s.lost }
with_member s functions v = record s { functions = some v; lost = lose s.functions s.lost }
with_member s saddr v = record s { saddr = some v; lost = lose s.saddr s.lost }
with_member s unused v = s

-- but released.
abbrev pub release_unused : Member → ℕ → Own (Unit {0})
release_unused unused v = do release v; ret tt
release_unused _ v = ret tt

abbrev pub member_ref : Calls → Member → Item → Own (Option ℕ)
member_ref ok fmts value = fmts_ref ok value
member_ref ok _ value = item_ref ok value

-- The loop over the file's map, and whether it goes on to the end. The item is given back in
-- either case.
unfoldable pub load_refs : Calls → Option ℕ → Pairs → Holder → Own (Holder × Bool)
load_refs ok root done s = do xrelease root; ret (s, true)
load_refs ok root (pair absent value ps) s = crash
load_refs ok root (pair (text_string key) value ps) s = do
  py_val ← member_ref ok (member key) value
  elim py_val [
    | none ↦ do xrelease root; ret (s, false)
    | some v ↦ do release_unused (member key) v; load_refs ok root ps (with_member s (member key) v)
  ]
load_refs ok root (pair key value ps) s = load_refs ok root ps s

-- Behind the loop the clock is asked, which may fail.
abbrev pub clock_refs : Calls → Holder → Bool → Own (Holder × Bool)
clock_refs ok s false = ret (s, false)
clock_refs ok s true = do clock ← asks ok; ret (s, clock)

-- Behind the filename. `loaded` is what cbor_load returns, NULL with an error, which is then
-- dereferenced.
unfoldable pub file_refs : Calls → Option Item → Holder → Own (Holder × Bool)
file_refs ok loaded s = do
  opened ← make ok
  elim opened [
    | none ↦ ret (s, false)
    | some file ↦ do
      memory ← make ok
      elim memory [
        | none ↦ do release file; ret (s, false)
        | some buffer ↦ do
          release file
          elim loaded [
            | some (map ps) ↦ do
              root ← new_ref
              release buffer
              (s', whole) ← load_refs ok root ps s
              clock_refs ok s' whole
            | _ ↦ crash
          ]
      ]
  ]

unfoldable pub init_refs : Calls → Option Item → Holder → Own (Holder × Bool)
init_refs ok loaded s = do
  parsed ← asks ok
  elim parsed [
    | false ↦ ret (s, false)
    | true ↦ do
      filename ← make ok
      elim filename [
        | none ↦ ret (set_filename s none, false)
        | some h ↦ file_refs ok loaded (set_filename s (some h))
      ]
  ]

unfoldable pub dealloc_refs : Holder → Own (Unit {0})
dealloc_refs s = do
  xrelease s.enums
  xrelease s.tdenums
  xrelease s.variables
  xrelease s.functions
  xrelease s.saddr
  xrelease s.fmts
  xrelease s.filename
  ret tt

-- The life of an object that is made and set up once: the references lost, and whether the set-up
-- succeeded
unfoldable pub life_refs : Calls → Option Item → Own (List ℕ × Bool)
life_refs ok loaded = do
  (s, whole) ← init_refs ok loaded new_holder
  dealloc_refs s
  ret (s.lost, whole)
