-- ===== src/Encoding/Canonical.antt =====
-- What the encoding keeps of a value: the owner of a schema is not written, and a missing string of
-- a schema is written as "".
use gconf_dbus.Prelude.{false, true, none, some, ◌≡◌, IsInt32}
use gconf_dbus.Platform.{Platform}
use gconf_dbus.Value.{
  GConfValue, Values, MaybeValue, GConfSchema, invalid_value, string_value, int_value, float_value,
  bool_value, schema_null, schema_value, list_value, pair_value, nil, cons, null, just, make_schema,
}
use gconf_dbus.Encoding.Encode.{or_empty}
use gconf_dbus.Encoding.Decode.{set_list_type, is_invalid}

unfoldable mutual
  pub canonical : GConfValue → GConfValue
  canonical invalid_value = invalid_value
  canonical (string_value s) = string_value s
  canonical (int_value z) = int_value z
  canonical (float_value d) = float_value d
  canonical (bool_value b) = bool_value b
  canonical schema_null = schema_null
  canonical (schema_value sc) = schema_value (canonical_schema sc)
  canonical (list_value t xs) = list_value t (canonical_items xs)
  canonical (pair_value x y) = pair_value (canonical_part x) (canonical_part y)

  pub canonical_schema : GConfSchema → GConfSchema
  canonical_schema (make_schema t lt at dt locale owner short_desc long_desc default_value) =
      make_schema t lt at dt (some (or_empty locale)) none (some (or_empty short_desc))
        (some (or_empty long_desc)) (canonical_part default_value)

  pub canonical_part : MaybeValue → MaybeValue
  canonical_part null = null
  canonical_part (just v) = just (canonical v)

  pub canonical_items : Values → Values
  canonical_items nil = nil
  canonical_items (cons v vs) = cons (canonical v) (canonical_items vs)

-- A pair without a car has no cdr either.
abbrev pub CarFirst : MaybeValue → MaybeValue → Type 0
CarFirst null (just v) = ⊥
CarFirst _ _ = Unit

-- Values that an encoding stands for: no missing strings, texts in UTF-8, integers of 32 bits,
-- floats that `%g` writes exactly, and lists of a type that a list may have.
abbrev mutual
  pub IsEncodable : Platform → GConfValue → Type 0
  IsEncodable p invalid_value = ⊥
  IsEncodable p (string_value none) = ⊥
  IsEncodable p (string_value (some s)) = p.utf8_validate s ≡ true
  IsEncodable p (int_value z) = IsInt32 z
  IsEncodable p (float_value d) = p.strtod (p.format_g d) ≡ d
  IsEncodable p (bool_value b) = Unit
  IsEncodable p schema_null = ⊥
  IsEncodable p (schema_value sc) = IsEncodableSchema p sc
  IsEncodable p (list_value t xs) =
      (set_list_type t ≡ t) × (is_invalid t ≡ false) × IsEncodableItems p xs
  IsEncodable p (pair_value x y) = IsEncodablePart p x × IsEncodablePart p y × CarFirst x y

  pub IsEncodableSchema : Platform → GConfSchema → Type 0
  IsEncodableSchema p (make_schema t lt at dt locale owner short_desc long_desc default_value) =
      (p.utf8_validate (or_empty locale) ≡ true)
      × (p.utf8_validate (or_empty short_desc) ≡ true)
      × (p.utf8_validate (or_empty long_desc) ≡ true)
      × IsEncodablePart p default_value

  pub IsEncodablePart : Platform → MaybeValue → Type 0
  IsEncodablePart p null = Unit
  IsEncodablePart p (just v) = IsEncodable p v

  pub IsEncodableItems : Platform → Values → Type 0
  IsEncodableItems p nil = Unit
  IsEncodableItems p (cons v vs) = IsEncodable p v × IsEncodableItems p vs
