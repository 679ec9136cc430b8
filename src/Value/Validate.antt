-- ===== src/Value/Validate.antt =====
-- `gconf_value_validate` (gconf/gconf-value.c) and `gconf_schema_validate` (gconf/gconf-schema.c).
use gconf_dbus.Prelude.{Bool, true, false, not, ◌||◌, Option, none, some, if◌then◌else◌}
use gconf_dbus.CString.{Bytes}
use gconf_dbus.Platform.{Platform}
use gconf_dbus.Value.{
  GConfValueType, invalid, list, pair, GConfValue, string_value, schema_value, GConfSchema,
  make_schema,
}

-- TRUE, or FALSE with the message.
pub data ValueValidity : Type 0 where
  is_valid value_utf8 schema_utf8 no_list_type no_pair_types : ValueValidity

abbrev is_invalid : GConfValueType → Bool
is_invalid invalid = true
is_invalid t = false

module _ (p : Platform) where
  abbrev bad_utf8 : Option Bytes → Bool
  bad_utf8 none = false
  bad_utf8 (some s) = not (p.utf8_validate s)

  abbrev check_types :
      GConfValueType → GConfValueType → GConfValueType → GConfValueType → ValueValidity
  check_types list list_type car_type cdr_type =
      if is_invalid list_type then no_list_type else is_valid
  check_types pair list_type car_type cdr_type =
      if is_invalid car_type || is_invalid cdr_type then no_pair_types else is_valid
  check_types t list_type car_type cdr_type = is_valid

  unfoldable pub gconf_schema_validate : GConfSchema → ValueValidity
  gconf_schema_validate
        (make_schema t list_type car_type cdr_type locale owner short_desc long_desc default) =
      if bad_utf8 locale
      then schema_utf8
      else if bad_utf8 short_desc
      then schema_utf8
      else if bad_utf8 long_desc
      then schema_utf8
      else if bad_utf8 owner
      then schema_utf8
      else check_types t list_type car_type cdr_type

  unfoldable pub gconf_value_validate : GConfValue → ValueValidity
  gconf_value_validate (string_value s) = if bad_utf8 s then value_utf8 else is_valid
  gconf_value_validate (schema_value sc) = gconf_schema_validate sc
  gconf_value_validate v = is_valid
