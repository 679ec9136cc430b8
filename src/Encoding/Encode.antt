-- ===== src/Encoding/Encode.antt =====
-- `type_byte`, `byte_type` and `gconf_value_encode`.
use gconf_dbus.Prelude.{
  ℕ, true, false, Option, none, some, [], ◌∷◌, ◌++◌, ◌>>=◌, ◌==◌, if◌then◌else◌, ◌≡◌, refl,
}
use gconf_dbus.CString.{Bytes, format_d}
use gconf_dbus.Platform.{Platform}
use gconf_dbus.Quote.{quote_string}
use gconf_dbus.Value.{
  GConfValueType, GConfValue, Values, MaybeValue, GConfSchema, invalid, string, int, float, bool,
  schema, list, pair, invalid_value, string_value, int_value, float_value, bool_value, schema_null,
  schema_value, list_value, pair_value, nil, cons, null, just, make_schema,
}

unfoldable pub type_byte : GConfValueType → ℕ
type_byte int = b'i'
type_byte bool = b'b'
type_byte float = b'f'
type_byte string = b's'
type_byte schema = b'c'
type_byte list = b'l'
type_byte pair = b'p'
type_byte invalid = b'v'

unfoldable pub byte_type : ℕ → GConfValueType
byte_type c =
    if c == b'i'
    then int
    else if c == b'b'
    then bool
    else if c == b's'
    then string
    else if c == b'c'
    then schema
    else if c == b'f'
    then float
    else if c == b'l'
    then list
    else if c == b'p'
    then pair
    else invalid

-- A string of a schema, "" where it is NULL.
abbrev pub or_empty : Option Bytes → Bytes
or_empty none = []
or_empty (some s) = s

-- `g_strconcat ("p", car, ",", cdr, NULL)`, which ends at the first part that is NULL.
abbrev pub concat_pair : Option Bytes → Option Bytes → Bytes
concat_pair none cdr = b'p' ∷ []
concat_pair (some car) none = b'p' ∷ car ++ b',' ∷ []
concat_pair (some car) (some cdr) = b'p' ∷ car ++ b',' ∷ cdr

-- `none` where the program stops, by `g_assert_not_reached` or through a NULL pointer.
unfoldable mutual
  pub encode : Platform → GConfValue → Option Bytes
  encode p invalid_value = none
  encode p (string_value none) = none
  encode p (string_value (some s)) = some (b's' ∷ s)
  encode p (int_value z) = some (b'i' ∷ format_d z)
  encode p (float_value d) = some (b'f' ∷ p.format_g d)
  encode p (bool_value true) = some (b'b' ∷ b't' ∷ [])
  encode p (bool_value false) = some (b'b' ∷ b'f' ∷ [])
  encode p schema_null = none
  encode p (schema_value sc) = encode_schema p sc
  encode p (list_value t xs) = do body ← encode_items p xs; some (b'l' ∷ type_byte t ∷ body)
  encode p (pair_value x y) = do
    car ← encode_part p x
    cdr ← encode_part p y
    some (concat_pair car cdr)

  pub encode_schema : Platform → GConfSchema → Option Bytes
  encode_schema p (make_schema t lt at dt locale owner short_desc long_desc default_value) = do
    encoded ← encode_default p default_value
    some (
        b'c'
        ∷ type_byte t
        ∷ type_byte lt
        ∷ type_byte at
        ∷ type_byte dt
        ∷ b','
        ∷ (quote_string (or_empty locale)
            ++ (b','
                ∷ (quote_string (or_empty short_desc)
                    ++ (b','
                        ∷ (quote_string (or_empty long_desc) ++ (b',' ∷ quote_string encoded)))))))

  -- The quoted encoding of an element of a pair, NULL for NULL.
  pub encode_part : Platform → MaybeValue → Option (Option Bytes)
  encode_part p null = some none
  encode_part p (just v) = do encoded ← encode p v; some (some (quote_string encoded))

  pub encode_default : Platform → MaybeValue → Option Bytes
  encode_default p null = some []
  encode_default p (just v) = encode p v

  pub encode_items : Platform → Values → Option Bytes
  encode_items p nil = some []
  encode_items p (cons v vs) = do
    encoded ← encode p v
    rest ← encode_items p vs
    some (b',' ∷ (quote_string encoded ++ rest))

pub byte_type-type_byte : (t : GConfValueType) → byte_type (type_byte t) ≡ t
unfolding byte_type type_byte
byte_type-type_byte int = refl
byte_type-type_byte _ = refl
