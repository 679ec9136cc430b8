-- ===== src/ValueText/Print.antt =====
-- `gconf_value_to_string`.
use gconf_dbus.Prelude.{true, false, Option, none, some, [], ◌∷◌, ◌++◌, ◌>>=◌}
use gconf_dbus.CString.{Bytes, codes, format_d}
use gconf_dbus.Platform.{Platform}
use gconf_dbus.Value.{
  GConfValue, Values, MaybeValue, GConfSchema, invalid_value, string_value, int_value, float_value,
  bool_value, schema_null, schema_value, list_value, pair_value, nil, cons, null, just, make_schema,
}
use gconf_dbus.ValueText.Primitive.{value_type_to_string}
use gconf_dbus.ValueText.Escapes.{escape_string}

abbrev pub list_escapes : Bytes
list_escapes = codes ",]"

abbrev pub pair_escapes : Bytes
pair_escapes = codes ",)"

abbrev locale_or_null : Option Bytes → Bytes
locale_or_null none = codes "(null)"
locale_or_null (some s) = s

unfoldable pub schema_to_string : GConfSchema → Bytes
schema_to_string (make_schema t lt at dt locale owner short_desc long_desc default_value) =
    codes "Schema (type: `"
    ++ (value_type_to_string t
        ++ (codes "' list_type: '"
            ++ (value_type_to_string lt
                ++ (codes "' car_type: '"
                    ++ (value_type_to_string at
                        ++ (codes "' cdr_type: '"
                            ++ (value_type_to_string dt
                                ++ (codes "' locale: `"
                                    ++ (locale_or_null locale ++ codes "')")))))))))

-- `none` where the result is NULL, or the program stops at a NULL inside the value.
unfoldable mutual
  pub to_string : Platform → GConfValue → Option Bytes
  to_string p invalid_value = some (codes "Invalid")
  to_string p (string_value s) = s
  to_string p (int_value z) = some (format_d z)
  to_string p (float_value d) = some (p.ascii_dtostr d)
  to_string p (bool_value true) = some (codes "true")
  to_string p (bool_value false) = some (codes "false")
  to_string p schema_null = none
  to_string p (schema_value sc) = some (schema_to_string sc)
  to_string p (list_value t nil) = some (codes "[]")
  to_string p (list_value t (cons v vs)) = do
    first ← to_string p v
    others ← items_to_string p vs
    some (b'[' ∷ (escape_string list_escapes first ++ others))
  to_string p (pair_value x y) = do
    car ← part_to_string p x
    cdr ← part_to_string p y
    some (
        b'('
        ∷ (escape_string pair_escapes car
            ++ (b',' ∷ (escape_string pair_escapes cdr ++ b')' ∷ []))))

  -- Behind the first element: the last comma is overwritten by the bracket.
  pub items_to_string : Platform → Values → Option Bytes
  items_to_string p nil = some (b']' ∷ [])
  items_to_string p (cons v vs) = do
    first ← to_string p v
    others ← items_to_string p vs
    some (b',' ∷ (escape_string list_escapes first ++ others))

  pub part_to_string : Platform → MaybeValue → Option Bytes
  part_to_string p null = some (codes "nil")
  part_to_string p (just v) = to_string p v
