-- ===== src/Log/Symbol/Names.antt =====
-- What parse_c_sym makes of an address: a place in a function, a place near a variable, or a number.
use p.Common.{
  ℕ, ◌-◌, ◌%◌, ◌^◌, ◌≤◌, ◌<◌, ◌≡◌, refl, ap, ◌∙◌, Bool, true, false, Bool-cases, ◌&&◌, List, [],
  ◌∷◌, ◌++◌, Option, none, some, ge→ltb, All, ◌⊎◌, inl, inr, arith, pos, ◌-ℤ◌, to_word, codes,
  length, leb_ℤ, ltb_ℤ,
}
use p.Log.Object.{Object, int_obj, str_obj, dict_obj, tuple_obj, nil, cons, Entries, end, entry}
use p.Log.Python.{Result, fault, ends, C, ret, ◌>>=◌, Python, entries_of}
use p.Log.Data.{LogData}
use p.Log.Field.{Parsed, unpack_le_uint32}
use p.Log.Field.Bytes.{pack4, sum4}
use p.Log.Symbol.Choice.{Rows, IsAddress, Found, IsNearest}
use p.Log.Symbol.Nearest.{entries, text, long_lem, sub_pos, lookup_c_var-IsNearest}
use p.Log.Symbol.{
  symbol_text, func_loop, lookup_c_func, lookup_c_var, or_else, sym_value, parse_c_sym,
}

-- A table of functions: the first address, the one behind the last, and the name in each row
abbrev pub Functions : Type 0
Functions = List (ℕ × ℕ × Object)

abbrev pub function_entries : Functions → Entries
function_entries [] = end
function_entries ((low, hi, name) ∷ rows) =
    entry (tuple_obj (cons (int_obj (pos low)) (cons (int_obj (pos hi)) nil))) name
      (function_entries rows)

abbrev pub AreAddresses : ℕ × ℕ × Object → Type 0
AreAddresses row = (row.0 < 2 ^ 63) × (row.1 < 2 ^ 63)

abbrev pub Within : ℕ → ℕ × ℕ × Object → Type 0
Within a row = (row.0 ≤ a) × (a < row.1)

-- The first row that the address is within, with the offset from its start; or none is.
abbrev pub IsFirst : ℕ → Functions → Found → Type 0
IsFirst a [] r = r ≡ none
IsFirst a ((low, hi, name) ∷ rows) r =
    (Within a (low, hi, name) × (r ≡ some (name, a - low)))
    ⊎ ((¬ Within a (low, hi, name)) × IsFirst a rows r)

abbrev FirstOf : Python → ℕ → Functions → C (Option Object) → Type 0
FirstOf py a rows m = (r : Found) × (m none ≡ ends (text py r) none) × IsFirst a rows r

word_lem : (a low : ℕ) → low ≤ a → a < 2 ^ 32 → to_word 32 (pos a -ℤ pos low) ≡ a - low
word_lem a low below small = ap (to_word 32) (sub_pos a low below) ∙ omega arith

-- The test of a row, and what follows it
abbrev row_turn : Bool → Object → C (Option Object) → C (Option Object)
row_turn c v next = elim c [ true ↦ ret (some v) | false ↦ next ]

row_lem :
    (py : Python) (a low hi : ℕ) (name : Object) (rows : Functions)
    → AreAddresses (low, hi, name)
    → func_loop py a (function_entries ((low, hi, name) ∷ rows)) none
      ≡ row_turn
          (leb_ℤ (pos low) (pos a) && ltb_ℤ (pos a) (pos hi))
          (symbol_text py name (to_word 32 (pos a -ℤ pos low)))
          (func_loop py a (function_entries rows))
          none
unfolding func_loop
row_lem py a low hi name rows (hl, hh) =
    rw (func_loop, ◌>>=◌, long_lem low none hl, long_lem hi none hh) refl

func_loop_lem :
    (py : Python) (a : ℕ) (rows : Functions)
    → a < 2 ^ 32
    → All AreAddresses rows
    → FirstOf py a rows (func_loop py a (function_entries rows))
func_loop_lem py a [] small h = unfold func_loop in (none, refl, refl)
func_loop_lem py a ((low, hi, name) ∷ rows) small h =
    elim (Bool-cases (leb_ℤ (pos low) (pos a) && ltb_ℤ (pos a) (pos hi))) [
      | inl yes_in ↦ (
        some (name, a - low),
        row_lem py a low hi name rows h.0
            ∙ ap
                (λ c.
                  row_turn c (symbol_text py name (to_word 32 (pos a -ℤ pos low)))
                    (func_loop py a (function_entries rows)) none)
                yes_in
            ∙ ap (λ n. ends (some (symbol_text py name n)) none)
                (word_lem a low (inside a low hi yes_in).0 small),
        inl (inside a low hi yes_in, refl),
      )
      | inr not_in ↦
          let (r, e, first) = func_loop_lem py a rows small h.1 in
          (
            r,
            row_lem py a low hi name rows h.0
                ∙ ap
                    (λ c.
                      row_turn c (symbol_text py name (to_word 32 (pos a -ℤ pos low)))
                        (func_loop py a (function_entries rows)) none)
                    not_in
                ∙ e,
            inr (outside a low hi not_in, first),
          )
    ]
  where
    inside :
        (a low hi : ℕ)
        → leb_ℤ (pos low) (pos a) && ltb_ℤ (pos a) (pos hi) ≡ true
        → (low ≤ a) × (a < hi)
    inside a low hi h = (ground arith, ground arith)

    outside :
        (a low hi : ℕ)
        → leb_ℤ (pos low) (pos a) && ltb_ℤ (pos a) (pos hi) ≡ false
        → ¬ ((low ≤ a) × (a < hi))
    outside a low hi h i = ground arith

-- The text that names an address: the first function that holds it, its lowest bit cleared; or the
-- nearest variable below it; or its digits.
pub data Names (py : Python) (a : ℕ) (functions : Functions) (variables : Rows)
    : Object → Type 0 where
  in_function :
      (name : Object) (offset : ℕ)
      → IsFirst (a - a % 2) functions (some (name, offset))
      → Names py a functions variables (symbol_text py name offset)
  near_variable :
      (name : Object) (offset : ℕ)
      → IsFirst (a - a % 2) functions none
      → IsNearest a variables (some (name, offset))
      → Names py a functions variables (symbol_text py name offset)
  as_number :
      IsFirst (a - a % 2) functions none
      → IsNearest a variables none
      → Names py a functions variables (str_obj (codes "0x" ++ py.hex8 a))

abbrev Named : Python → ℕ → Functions → Rows → C (Option Object) → Type 0
Named py a fs vs m = (v : Object) × (m none ≡ ends (some v) none) × Names py a fs vs v

behind_functions :
    (py : Python) (a : ℕ) (fs : Functions) (vs : Rows) (f v : Found) (m k : C (Option Object))
    → k none ≡ ends (text py v) none
    → IsNearest a vs v
    → m none ≡ ends (text py f) none
    → IsFirst (a - a % 2) fs f
    → Named py a fs vs (
        m >>= λ f_str.
        or_else f_str
          (k >>= λ v_str. or_else v_str (ret (some (str_obj (codes "0x" ++ py.hex8 a))))))
behind_functions py a fs vs (some (name, n)) v m k e near d first =
    (_, rw (◌>>=◌, d) refl, in_function name n first)
behind_functions py a fs vs none (some (name, n)) m k e near d first =
    (_, rw (◌>>=◌, d, e) refl, near_variable name n first near)
behind_functions py a fs vs none none m k e near d first =
    (_, rw (◌>>=◌, d, e) refl, as_number first near)

lookup_c_func_lem :
    (py : Python) (a : ℕ) (fs : Functions)
    → a < 2 ^ 32
    → All AreAddresses fs
    → FirstOf py (a - a % 2) fs (lookup_c_func py (some (dict_obj (function_entries fs))) a)
unfolding lookup_c_func entries_of
lookup_c_func_lem py a fs small h = func_loop_lem py (a - a % 2) fs (omega arith) h

sym_value_lem :
    (py : Python) (s : LogData) (a : ℕ) (fs : Functions) (vs : Rows)
    → s.functions ≡ some (dict_obj (function_entries fs))
    → s.variables ≡ some (dict_obj (entries vs))
    → a < 2 ^ 32
    → All AreAddresses fs
    → All IsAddress vs
    → Named py a fs vs (sym_value py s a)
unfolding sym_value
sym_value_lem py s a fs vs ef ev small hf hv =
    let (f, d, first) = lookup_c_func_lem py a fs small hf in
    let (v, e, near) = lookup_c_var-IsNearest py a vs small hv in
    behind_functions py a fs vs f v (lookup_c_func py s.functions a) (lookup_c_var py s.variables a)
      (ap (λ o. lookup_c_var py o a none) ev ∙ e) near (ap (λ o. lookup_c_func py o a none) ef ∙ d)
      first

-- With a table of functions and one of variables whose addresses are below 2 ^ 63, parse_c_sym
-- of the four bytes of an address takes these bytes from the frame, sets no exception and gives
-- a text: of the first function in the table that holds the address, with its lowest bit
-- cleared, and the offset from its start; if there is none, of a variable fewer than 0x3000
-- bytes below the address or at it that none is nearer than, and the distance; and if there is
-- none either, of the address in hexadecimal digits.
pub parse_c_sym-Names :
    (py : Python) (s : LogData) (a : ℕ) (rest : List ℕ) (fs : Functions) (vs : Rows)
    → s.functions ≡ some (dict_obj (function_entries fs))
    → s.variables ≡ some (dict_obj (entries vs))
    → a < 2 ^ 32
    → All AreAddresses fs
    → All IsAddress vs
    → (v : Object) × (parse_c_sym py s (pack4 a ++ rest) none ≡ ends (some v, rest) none)
      × Names py a fs vs v
unfolding parse_c_sym unpack_le_uint32
parse_c_sym-Names py s a rest fs vs ef ev small hf hv =
    let (v, e, names) = sym_value_lem py s a fs vs ef ev small hf hv in
    (
      v,
      rw (ge→ltb (length (pack4 a ++ rest)) 4 (omega arith)) (
          ap (λ n. (sym_value py s n >>= λ val. ret (val, rest)) none) (sum4 a small)
          ∙ ap
              (λ (r : Result (Option Object)). elim r as (λ _. Result Parsed) [
                | fault ↦ fault
                | ends x y ↦ ends (x, rest) y
              ])
              e),
      names,
    )
