-- ===== src/Log/Load.antt =====
-- `LogData_new` and `LogData_init`.
pub mod Valid
use p.Common.{
  ℕ, Bool, true, false, List, [], ◌∷◌, Option, none, some, ◌==◌, if◌then◌else◌, codes, not,
}
use p.Log.Object.{Text, Object, str_obj}
use p.Log.Python.{
  bad_arguments, bad_utf8, io_failed, no_memory, no_clock, C, ◌>>=◌, ret, crash, raising, Python,
}
use p.Log.Cbor.{Item, absent, text_string, Pairs, done, pair}
use p.Log.Data.{LogData}
use p.Log.Convert.{cbor_item_to_pyobject}
use p.Log.Formats.{process_fmts, pairs_of}

unfoldable pub new : LogData
new = record {
  enums = none;
  tdenums = none;
  variables = none;
  functions = none;
  saddr = none;
  fmts = none;
  filename = none;
  count = 0;
  start_time = 0;
}

-- strncmp(key, literal, key_len) == 0, where `key` has key_len bytes and the literal ends with a
-- zero: the comparison ends at the first difference, behind a zero, or behind key_len bytes.
unfoldable pub strncmp_equal : List ℕ → Text → Bool
strncmp_equal [] literal = true
strncmp_equal (k ∷ key) [] = k == 0
strncmp_equal (k ∷ key) (c ∷ literal) =
    let rest = strncmp_equal key literal in if k == c then rest else false

-- The member that a key of the file's map selects
pub data Member : Type 0 where
  fmts enums tdenums variables functions saddr unused : Member

unfoldable pub member : List ℕ → Member
member key =
    if strncmp_equal key (codes "fmts")
    then fmts
    else if strncmp_equal key (codes "enums")
    then enums
    else if strncmp_equal key (codes "tdenums")
    then tdenums
    else if strncmp_equal key (codes "vars")
    then variables
    else if strncmp_equal key (codes "fns")
    then functions
    else if strncmp_equal key (codes "saddr")
    then saddr
    else unused

abbrev pub assign : LogData → Member → Object → LogData
assign s fmts v = record s { fmts = some v }
assign s enums v = record s { enums = some v }
assign s tdenums v = record s { tdenums = some v }
assign s variables v = record s { variables = some v }
assign s functions v = record s { functions = some v }
assign s saddr v = record s { saddr = some v }
assign s unused v = s

abbrev pub member_value : Python → Member → Item → C (Option Object)
member_value py fmts value = process_fmts py value
member_value py _ value = cbor_item_to_pyobject py value

-- The loop over the file's map: the object, and whether it goes on to the end
unfoldable pub load_loop : Python → Pairs → LogData → C (LogData × Bool)
load_loop py done s = ret (s, true)
load_loop py (pair absent value ps) s = crash
load_loop py (pair (text_string key) value ps) s = do
  py_val ← member_value py (member key) value
  elim py_val [ none ↦ ret (s, false) | some v ↦ load_loop py ps (assign s (member key) v) ]
load_loop py (pair key value ps) s = load_loop py ps s

-- What the system and libcbor answer. `loaded` is the item that cbor_load returns for the file, or
-- none where it returns NULL with an error.
pub record Answers : Type 0 where
  pub argument : Option (List ℕ)
  pub opened : Bool
  pub buffer : Bool
  pub loaded : Option Item
  pub clock : Option (ℕ × ℕ)
  pub seconds : ℕ × ℕ → ℕ

-- Behind the loop: the clock is read, and the calls are counted from 0.
unfoldable pub start_clock : Answers → LogData → C (LogData × Bool)
start_clock a s = elim a.clock [
  | none ↦ raising no_clock (s, false)
  | some t ↦ ret (record s { start_time = a.seconds t; count = 0 }, true)
]

-- The object afterwards, and true for the result 0. Where cbor_load has failed, its NULL is given
-- to cbor_decref, which dereferences it.
unfoldable pub init : Python → Answers → LogData → C (LogData × Bool)
init py a s = elim a.argument [
  | none ↦ raising bad_arguments (s, false)
  | some name ↦ elim (py.utf8 name) [
    | none ↦ raising bad_utf8 (record s { filename = none }, false)
    | some filename ↦
        let s' = record s { filename = some (str_obj filename) } in
        if not a.opened
        then raising io_failed (s', false)
        else if not a.buffer
        then raising no_memory (s', false)
        else elim a.loaded [
          | none ↦ crash
          | some root ↦ do
            ps ← pairs_of root
            (s'', whole) ← load_loop py ps s'
            elim whole [ false ↦ ret (s'', false) | true ↦ start_clock a s'' ]
        ]
  ]
]
