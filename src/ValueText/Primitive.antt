-- ===== src/ValueText/Primitive.antt =====
-- gconf/gconf-value.c: `gconf_value_new_from_string`; gconf/gconf-internals.c: the names of types.
-- The caller passes a place for the error.
use gconf_dbus.Prelude.{
  ℕ, true, false, not, ◌||◌, Option, none, some, [], ◌∷◌, ◌==◌, if◌then◌else◌, to_int32,
}
use gconf_dbus.CString.{Bytes, codes, bytes_eq, Strtol, strtol}
use gconf_dbus.Platform.{Platform}
use gconf_dbus.Value.{
  GConfValueType, GConfValue, invalid, string, int, float, bool, schema, list, pair, string_value,
  int_value, float_value, bool_value,
}

-- The messages of `GCONF_ERROR_PARSE_ERROR`.
pub data ParseError : Type 0 where
  expected_integer integer_range expected_real invalid_utf8 expected_bool : ParseError
  list_start list_end extra_bracket trailing_characters : ParseError
  pair_start pair_end wrong_number extra_parenthesis : ParseError

-- `refused`: NULL from a failed check of the arguments. `stopped`: `g_assert_not_reached`.
pub data Parsed : Type 0 where
  parsed : GConfValue → Parsed
  failed : ParseError → Parsed
  refused stopped : Parsed

unfoldable pub value_type_to_string : GConfValueType → Bytes
value_type_to_string int = codes "int"
value_type_to_string string = codes "string"
value_type_to_string float = codes "float"
value_type_to_string bool = codes "bool"
value_type_to_string schema = codes "schema"
value_type_to_string list = codes "list"
value_type_to_string pair = codes "pair"
value_type_to_string invalid = codes "*invalid*"

unfoldable pub value_type_from_string : Bytes → GConfValueType
value_type_from_string s =
    if bytes_eq s (codes "int")
    then int
    else if bytes_eq s (codes "float")
    then float
    else if bytes_eq s (codes "string")
    then string
    else if bytes_eq s (codes "bool")
    then bool
    else if bytes_eq s (codes "schema")
    then schema
    else if bytes_eq s (codes "list")
    then list
    else if bytes_eq s (codes "pair")
    then pair
    else invalid

-- `strtol` and its errors. The `long` that it returns is stored in an `int`.
unfoldable pub int_from_strtol : Strtol → Parsed
int_from_strtol r =
    if not r.converted
    then failed expected_integer
    else if r.out_of_range
    then failed integer_range
    else parsed (int_value (to_int32 r.value))

-- The first byte decides.
unfoldable pub bool_from_string : Bytes → Parsed
bool_from_string [] = failed expected_bool
bool_from_string (c ∷ s) =
    if c == b't' || (c == b'T' || (c == b'1' || (c == b'y' || c == b'Y')))
    then parsed (bool_value true)
    else if c == b'f' || (c == b'F' || (c == b'0' || (c == b'n' || c == b'N')))
    then parsed (bool_value false)
    else failed expected_bool

unfoldable pub float_from_strtod : Option ℕ → Parsed
float_from_strtod none = failed expected_real
float_from_strtod (some d) = parsed (float_value d)

unfoldable pub new_from_string : Platform → GConfValueType → Bytes → Parsed
new_from_string p int s = int_from_strtol (strtol s)
new_from_string p float s = float_from_strtod (p.ascii_strtod s)
new_from_string p string s =
    if p.utf8_validate s then parsed (string_value (some s)) else failed invalid_utf8
new_from_string p bool s = bool_from_string s
new_from_string p _ s = stopped
