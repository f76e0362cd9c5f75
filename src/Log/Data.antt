-- ===== src/Log/Data.antt =====
-- The LogData object, and the identifiers of parsers.
use p.Common.{ℕ, Option, ◌==◌, if◌then◌else◌, ℤ, to_word}
use p.Log.Object.{Object}

-- The object; a member is none where it is NULL. `start_time` is the bits of a
-- double; fewer than 2 ^ 63 calls are counted.
pub record LogData : Type 0 where
  pub enums : Option Object
  pub tdenums : Option Object
  pub variables : Option Object
  pub functions : Option Object
  pub saddr : Option Object
  pub fmts : Option Object
  pub filename : Option Object
  pub count : ℕ
  pub start_time : ℕ

pub data ParserType : Type 0 where
  parser_unknown parser_int32 parser_uint32 parser_int64 parser_uint64 : ParserType
  parser_double parser_pointer parser_bytes parser_string parser_sym parser_enum : ParserType

-- The numbers of the enumeration
abbrev pub parser_number : ParserType → ℕ
parser_number parser_unknown = 0
parser_number parser_int32 = 1
parser_number parser_uint32 = 2
parser_number parser_int64 = 3
parser_number parser_uint64 = 4
parser_number parser_double = 5
parser_number parser_pointer = 6
parser_number parser_bytes = 7
parser_number parser_string = 8
parser_number parser_sym = 9
parser_number parser_enum = 10

numbered : ℕ → ParserType
numbered n =
    if n == 1
    then parser_int32
    else if n == 2
    then parser_uint32
    else if n == 3
    then parser_int64
    else if n == 4
    then parser_uint64
    else if n == 5
    then parser_double
    else if n == 6
    then parser_pointer
    else if n == 7
    then parser_bytes
    else if n == 8
    then parser_string
    else if n == 9
    then parser_sym
    else if n == 10
    then parser_enum
    else parser_unknown

-- The cast of a long to the enumeration, whose type is unsigned int; numbers that name no parser
-- are handled as PARSER_UNKNOWN is, by the default branch.
unfoldable pub parser_type : ℤ → ParserType
unfolding numbered
parser_type z = numbered (to_word 32 z)
