-- ===== src/Log/Symbol/Nearest.antt =====
-- The variable that lookup_c_var finds.
use p.Common.{
  ℕ, ◌+◌, ◌-◌, ◌^◌, ◌≤◌, ◌<◌, ◌≡◌, refl, ap, ◌∙◌, Bool, true, false, Bool-cases, ◌&&◌, [], ◌∷◌,
  Option, none, some, ltb, leb, le→leb, lt→ltb, if◌then◌else◌, All, inl, inr, arith, pos, ◌-ℤ◌,
  fits_long, to_word,
}
use p.Log.Object.{Object, int_obj, dict_obj, Entries, end, entry}
use p.Log.Python.{Exc, ends, C, ret, crash, ◌>>=◌, Python, as_long, entries_of}
use p.Log.Symbol.Choice.{
  Rows, IsAddress, Found, better, pick, picks, IsNearest, test_below, picks-IsNearest,
}
use p.Log.Symbol.{symbol_text, long_sub, Nearest, is_minus_one, nearer, var_loop, lookup_c_var}

abbrev pub entries : Rows → Entries
entries [] = end
entries ((addr, name) ∷ rows) = entry (int_obj (pos addr)) name (entries rows)

abbrev lift : Found → Nearest
lift none = none
lift (some (name, n)) = some (name, pos n)

abbrev pub text : Python → Found → Option Object
text py none = none
text py (some (name, n)) = some (symbol_text py name n)

nearer_lem :
    (best : Found) (a addr : ℕ)
    → nearer (lift best) a (pos addr) (pos a -ℤ pos addr)
      ≡ (leb addr a && ltb (a - addr) 0x3000 && better best (a - addr))
unfolding nearer is_minus_one
nearer_lem none a addr = ground arith
nearer_lem (some (name, k)) a addr = ground arith

pub sub_pos : (a addr : ℕ) → addr ≤ a → pos a -ℤ pos addr ≡ pos (a - addr)
sub_pos a addr h = rw (le→leb (0 + addr) (a + 0) (omega arith)) (ap pos (omega arith))

sub_fits : (a addr : ℕ) → a < 2 ^ 32 → addr < 2 ^ 63 → fits_long (pos a -ℤ pos addr) ≡ true
sub_fits a addr ha hb = elim (Bool-cases (leb (0 + addr) (a + 0))) [
  | inl below ↦ rw below (lt→ltb (a + 0 - (0 + addr)) (2 ^ 63) (omega arith))
  | inr above ↦ rw above (lt→ltb (0 + addr - (a + 0) - 1) (2 ^ 63) (omega arith))
]

sub_lem :
    (a addr : ℕ) (e : Option Exc)
    → a < 2 ^ 32
    → addr < 2 ^ 63
    → long_sub a (pos addr) e ≡ ends (pos a -ℤ pos addr) e
unfolding long_sub
sub_lem a addr e ha hb =
    ap (λ (c : Bool). (if c then ret (pos a -ℤ pos addr) else crash) e) (sub_fits a addr ha hb)

pub long_lem :
    (addr : ℕ) (e : Option Exc) → addr < 2 ^ 63 → as_long (int_obj (pos addr)) e ≡ ends (pos addr) e
unfolding as_long
long_lem addr e h = rw (as_long, lt→ltb addr (2 ^ 63) h) refl

kept_lem :
    (c : Bool) (best : Found) (a addr : ℕ) (name : Object)
    → (c ≡ true → addr ≤ a)
    → (if c then some (name, pos a -ℤ pos addr) else lift best)
      ≡ lift (if c then some (name, a - addr) else best)
kept_lem true best a addr name h = ap (λ z. some (name, z)) (sub_pos a addr (h refl))
kept_lem false best a addr name h = refl

pick_lem :
    (best : Found) (a addr : ℕ) (name : Object)
    → (if nearer (lift best) a (pos addr) (pos a -ℤ pos addr)
        then some (name, pos a -ℤ pos addr)
        else lift best)
      ≡ lift (pick a best (addr, name))
pick_lem best a addr name =
    ap (λ (c : Bool). if c then some (name, pos a -ℤ pos addr) else lift best)
      (nearer_lem best a addr)
    ∙ kept_lem _ best a addr name (test_below best a addr)

loop_lem :
    (py : Python) (a : ℕ) (rows : Rows) (best : Found)
    → a < 2 ^ 32
    → All IsAddress rows
    → var_loop py a (entries rows) (lift best) none ≡ ends (some (lift (picks a rows best))) none
unfolding var_loop
loop_lem py a [] best ha h = refl
loop_lem py a ((addr, name) ∷ rows) best ha h =
    rw
      (
        var_loop,
        ◌>>=◌,
        long_lem addr none h.0,
        sub_lem a addr none ha h.0,
        pick_lem best a addr name,
      )
      (loop_lem py a rows (pick a best (addr, name)) ha h.1)

answer_lem :
    (py : Python) (a : ℕ) (rows : Rows) (r : Found) (e : Option Exc)
    → IsNearest a rows r
    → (elim (lift r) as (λ x. C (Option Object)) [
      | none ↦ ret none
      | some (name, offset) ↦ ret (some (symbol_text py name (to_word 32 offset)))
    ])
        e
      ≡ ends (text py r) e
answer_lem py a rows none e h = refl
answer_lem py a rows (some p) e h =
    ap (λ n. ends (some (symbol_text py p.0 n)) e) (omega (arith, h.0))

-- In a table of variables whose addresses are below 2 ^ 63, lookup_c_var of a 32-bit address
-- sets no exception and returns NULL if no variable lies fewer than 0x3000 bytes below the
-- address or at it; else the name of one that does, with its distance, and none that does is
-- nearer.
pub lookup_c_var-IsNearest :
    (py : Python) (a : ℕ) (rows : Rows)
    → a < 2 ^ 32
    → All IsAddress rows
    → (r : Found) × (lookup_c_var py (some (dict_obj (entries rows))) a none
        ≡ ends (text py r) none)
      × IsNearest a rows r
unfolding lookup_c_var entries_of
lookup_c_var-IsNearest py a rows ha h =
    let near = picks-IsNearest a rows in
    (
      picks a rows none,
      rw (lookup_c_var, ◌>>=◌, loop_lem py a rows none ha h)
          (answer_lem py a rows (picks a rows none) none near),
      near,
    )
