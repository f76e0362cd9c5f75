-- ===== src/Log/Spec.antt =====
-- `c_fndecode`: from the name of a parser to its identifier.
use p.Common.{
  Bool, true, false, [], ◌∷◌, Option, none, some, ◌==◌, ◌&&◌, if◌then◌else◌, pos, codes, take,
}
use p.Log.Object.{Text, Object, int_obj, str_obj, list_obj, tuple_obj, nil, cons}
use p.Log.Python.{unknown_spec, C, ret, raising}
use p.Log.Field.{strnlen}
use p.Log.Data.{
  ParserType, parser_int32, parser_uint32, parser_int64, parser_uint64, parser_double,
  parser_pointer, parser_bytes, parser_string, parser_sym, parser_enum, parser_number,
}

abbrev pub same_text : Text → Text → Bool
same_text [] [] = true
same_text (x ∷ xs) (y ∷ ys) = (x == y) && same_text xs ys
same_text _ _ = false

-- strcmp(s, t) == 0 for a literal t: a text ends at its first zero for it.
abbrev pub strcmp_equal : Text → Text → Bool
strcmp_equal s t = same_text (take (strnlen s) s) t

-- PyLong_FromLong of the parser's number
abbrev pub parser_id : ParserType → Object
parser_id t = int_obj (pos (parser_number t))

unfoldable pub named_parser : Text → Option ParserType
named_parser p_str =
    if strcmp_equal p_str (codes "int32")
    then some parser_int32
    else if strcmp_equal p_str (codes "uint32")
    then some parser_uint32
    else if strcmp_equal p_str (codes "int64")
    then some parser_int64
    else if strcmp_equal p_str (codes "uint64")
    then some parser_uint64
    else if strcmp_equal p_str (codes "double")
    then some parser_double
    else if strcmp_equal p_str (codes "pointer")
    then some parser_pointer
    else if strcmp_equal p_str (codes "bytes")
    then some parser_bytes
    else if strcmp_equal p_str (codes "string")
    then some parser_string
    else if strcmp_equal p_str (codes "sym")
    then some parser_sym
    else none

unfoldable pub c_fndecode : Object → C (Option Object)
unfolding named_parser
c_fndecode (str_obj p_str) = elim (named_parser p_str) [
  | some t ↦ ret (some (parser_id t))
  | none ↦ raising unknown_spec none
]
c_fndecode (list_obj (cons (str_obj p0) (cons (str_obj p1) nil))) =
    if strcmp_equal p0 (codes "enum")
    then ret (some (tuple_obj (cons (parser_id parser_enum) (cons (str_obj p1) nil))))
    else raising unknown_spec none
c_fndecode _ = raising unknown_spec none
