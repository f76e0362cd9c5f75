-- ===== src/Log/Field/Bytes.antt =====
-- Fields as a sender writes them, and what the parsers of single values make of them.
use p.Common.{
  ℕ, zero, suc, ◌+◌, ◌*◌, ◌/◌, ◌%◌, ◌^◌, ◌<◌, ◌≡◌, refl, ap, ◌∙◌, List, [], ◌∷◌, ◌++◌, Option, some,
  length, drop, arith, ge→ltb, gt→leb, ne→==, All, length-append, take-append_self, ℤ, pos, negsuc,
  to_signed, to_word, IsSigned, append_assoc,
}
use p.Cobs.RoundTrip.{IsNonzero}
use p.Log.Object.{Text, Object, int_obj, float_obj, str_obj}
use p.Log.Python.{Exc, ends, Python, unicode_of}
use p.Log.Field.{
  strnlen, parse_c_int32, parse_c_uint32, parse_c_int64, parse_c_uint64, parse_c_double,
  parse_c_pointer, parse_c_string,
}
use p.Log.Data.{
  ParserType, parser_int32, parser_uint32, parser_int64, parser_uint64, parser_double,
  parser_pointer, parser_string,
}

-- The little-endian bytes
abbrev pub pack4 : ℕ → List ℕ
pack4 n = n % 256 ∷ n / 2 ^ 8 % 256 ∷ n / 2 ^ 16 % 256 ∷ n / 2 ^ 24 % 256 ∷ []

abbrev pub pack8 : ℕ → List ℕ
pack8 n =
    n % 256
    ∷ n / 2 ^ 8 % 256
    ∷ n / 2 ^ 16 % 256
    ∷ n / 2 ^ 24 % 256
    ∷ n / 2 ^ 32 % 256
    ∷ n / 2 ^ 40 % 256
    ∷ n / 2 ^ 48 % 256
    ∷ n / 2 ^ 56 % 256
    ∷ []

pub sum4 :
    (n : ℕ)
    → n < 2 ^ 32
    → n % 256 + n / 2 ^ 8 % 256 * 2 ^ 8 + n / 2 ^ 16 % 256 * 2 ^ 16 + n / 2 ^ 24 % 256 * 2 ^ 24 ≡ n
sum4 n h = omega arith

sum8 :
    (n : ℕ)
    → n < 2 ^ 64
    → n % 256
        + n / 2 ^ 8 % 256 * 2 ^ 8
        + n / 2 ^ 16 % 256 * 2 ^ 16
        + n / 2 ^ 24 % 256 * 2 ^ 24
        + n / 2 ^ 32 % 256 * 2 ^ 32
        + n / 2 ^ 40 % 256 * 2 ^ 40
        + n / 2 ^ 48 % 256 * 2 ^ 48
        + n / 2 ^ 56 % 256 * 2 ^ 56
      ≡ n
sum8 n h = omega arith

signed32 : (z : ℤ) → IsSigned 32 z → (to_word 32 z < 2 ^ 32) × (to_signed 32 (to_word 32 z) ≡ z)
signed32 (pos n) h = (omega arith, ground arith)
signed32 (negsuc n) h = (omega arith, ground arith)

signed64 : (z : ℤ) → IsSigned 64 z → (to_word 64 z < 2 ^ 64) × (to_signed 64 (to_word 64 z) ≡ z)
signed64 (pos n) h = (omega arith, ground arith)
signed64 (negsuc n) h = (omega arith, ground arith)

-- A value that a sender writes into a frame
pub data Field : Type 0 where
  int32 int64 : ℤ → Field
  uint32 uint64 double pointer : ℕ → Field
  string : Text → Field

abbrev pub IsField : Python → Field → Type 0
IsField py (int32 z) = IsSigned 32 z
IsField py (uint32 n) = n < 2 ^ 32
IsField py (int64 z) = IsSigned 64 z
IsField py (uint64 n) = n < 2 ^ 64
IsField py (double n) = n < 2 ^ 64
IsField py (pointer n) = n < 2 ^ 32
IsField py (string t) = All IsNonzero t × (py.utf8 t ≡ some t)

abbrev pub field_type : Field → ParserType
field_type (int32 z) = parser_int32
field_type (uint32 n) = parser_uint32
field_type (int64 z) = parser_int64
field_type (uint64 n) = parser_uint64
field_type (double n) = parser_double
field_type (pointer n) = parser_pointer
field_type (string t) = parser_string

abbrev pub field_bytes : Field → List ℕ
field_bytes (int32 z) = pack4 (to_word 32 z)
field_bytes (uint32 n) = pack4 n
field_bytes (int64 z) = pack8 (to_word 64 z)
field_bytes (uint64 n) = pack8 n
field_bytes (double n) = pack8 n
field_bytes (pointer n) = pack4 n
field_bytes (string t) = t ++ (0 ∷ [])

abbrev pub field_object : Field → Object
field_object (int32 z) = int_obj z
field_object (uint32 n) = int_obj (pos n)
field_object (int64 z) = int_obj z
field_object (uint64 n) = int_obj (pos n)
field_object (double n) = float_obj n
field_object (pointer n) = int_obj (pos n)
field_object (string t) = str_obj t

strnlen_text : (t rest : List ℕ) → All IsNonzero t → strnlen (t ++ (0 ∷ rest)) ≡ length t
unfolding strnlen
strnlen_text [] rest h = refl
strnlen_text (x ∷ t) rest h =
    rw (ne→== x 0 (omega arith)) (ap (λ n. suc n) (strnlen_text t rest h.1))

pub parse_int32 :
    (z : ℤ) (rest : List ℕ) (e : Option Exc)
    → IsSigned 32 z
    → parse_c_int32 (pack4 (to_word 32 z) ++ rest) e ≡ ends (some (int_obj (z)), rest) e
unfolding parse_c_int32
parse_int32 z rest e h = rw (ge→ltb (length (pack4 (to_word 32 z) ++ rest)) 4 (omega arith)) (
    ap (λ k. ends (some (int_obj (to_signed 32 k)), rest) e) (sum4 (to_word 32 z) (signed32 z h).0)
    ∙ ap (λ k. ends (some (int_obj (k)), rest) e) (signed32 z h).1)

pub parse_uint32 :
    (n : ℕ) (rest : List ℕ) (e : Option Exc)
    → n < 2 ^ 32
    → parse_c_uint32 (pack4 n ++ rest) e ≡ ends (some (int_obj (pos n)), rest) e
unfolding parse_c_uint32
parse_uint32 n rest e h =
    rw (ge→ltb (length (pack4 n ++ rest)) 4 (omega arith))
      (ap (λ k. ends (some (int_obj (pos k)), rest) e) (sum4 n h))

pub parse_int64 :
    (z : ℤ) (rest : List ℕ) (e : Option Exc)
    → IsSigned 64 z
    → parse_c_int64 (pack8 (to_word 64 z) ++ rest) e ≡ ends (some (int_obj (z)), rest) e
unfolding parse_c_int64
parse_int64 z rest e h = rw (ge→ltb (length (pack8 (to_word 64 z) ++ rest)) 8 (omega arith)) (
    ap (λ k. ends (some (int_obj (to_signed 64 k)), rest) e) (sum8 (to_word 64 z) (signed64 z h).0)
    ∙ ap (λ k. ends (some (int_obj (k)), rest) e) (signed64 z h).1)

pub parse_uint64 :
    (n : ℕ) (rest : List ℕ) (e : Option Exc)
    → n < 2 ^ 64
    → parse_c_uint64 (pack8 n ++ rest) e ≡ ends (some (int_obj (pos n)), rest) e
unfolding parse_c_uint64
parse_uint64 n rest e h =
    rw (ge→ltb (length (pack8 n ++ rest)) 8 (omega arith))
      (ap (λ k. ends (some (int_obj (pos k)), rest) e) (sum8 n h))

pub parse_double :
    (n : ℕ) (rest : List ℕ) (e : Option Exc)
    → n < 2 ^ 64
    → parse_c_double (pack8 n ++ rest) e ≡ ends (some (float_obj n), rest) e
unfolding parse_c_double
parse_double n rest e h =
    rw (ge→ltb (length (pack8 n ++ rest)) 8 (omega arith))
      (ap (λ k. ends (some (float_obj k), rest) e) (sum8 n h))

pub parse_pointer :
    (n : ℕ) (rest : List ℕ) (e : Option Exc)
    → n < 2 ^ 32
    → parse_c_pointer (pack4 n ++ rest) e ≡ ends (some (int_obj (pos n)), rest) e
unfolding parse_c_pointer
parse_pointer n rest e h =
    rw (ge→ltb (length (pack4 n ++ rest)) 4 (omega arith))
      (ap (λ k. ends (some (int_obj (pos k)), rest) e) (sum4 n h))

drop_behind : (t rest : List ℕ) (n : ℕ) → n ≡ suc (length t) → drop n (t ++ (0 ∷ rest)) ≡ rest
drop_behind t rest zero e = absurd (omega arith)
drop_behind [] rest (suc zero) e = refl
drop_behind [] rest (suc (suc n)) e = absurd (omega arith)
drop_behind (x ∷ t) rest (suc n) e = drop_behind t rest n (omega arith)

pub parse_string :
    (py : Python) (t rest : List ℕ) (e : Option Exc)
    → All IsNonzero t
    → py.utf8 t ≡ some t
    → parse_c_string py (t ++ (0 ∷ rest)) e ≡ ends (some (str_obj t), rest) e
unfolding parse_c_string unicode_of
parse_string py t rest e h utf8 =
    rw
      (
        strnlen_text t rest h,
        gt→leb (length (t ++ (0 ∷ rest))) (length t) (omega (arith, length-append t (0 ∷ rest))),
        take-append_self t (0 ∷ rest),
        unicode_of,
        utf8,
        drop_behind t rest (length t + 1) (omega arith),
      )
      refl

-- A string stands in front of its zero.
pub string_bytes : (t rest : List ℕ) → (t ++ (0 ∷ [])) ++ rest ≡ t ++ (0 ∷ rest)
string_bytes t rest = append_assoc t (0 ∷ []) rest
