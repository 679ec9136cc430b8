-- ===== src/Value.antt =====
-- gconf/gconf-value.h and gconf/gconf-value.c: values and schemas.
-- A pointer that may be NULL is an `Option`, or a type with a constructor `null` in the block. A
-- `gint` is an integer, a `gdouble` the number of its bit pattern. A value of type schema whose
-- `schema_data` is NULL is `schema_null`.
pub mod Order
pub mod Flip
pub mod Same
pub mod Entry
pub mod Validate
mod Tests
use gconf_dbus.Prelude.{ℕ, Bool, Option, ℤ}
use gconf_dbus.CString.{Bytes}

pub data GConfValueType : Type 0 where
  invalid string int float bool schema list pair : GConfValueType

mutual
  pub data GConfValue : Type 0 where
    invalid_value : GConfValue
    string_value : Option Bytes → GConfValue
    int_value : ℤ → GConfValue
    float_value : ℕ → GConfValue
    bool_value : Bool → GConfValue
    schema_null : GConfValue
    schema_value : GConfSchema → GConfValue
    list_value : GConfValueType → Values → GConfValue
    pair_value : MaybeValue → MaybeValue → GConfValue

  pub data Values : Type 0 where
    nil : Values
    cons : GConfValue → Values → Values

  pub data MaybeValue : Type 0 where
    null : MaybeValue
    just : GConfValue → MaybeValue

  -- type, list_type, car_type, cdr_type, locale, owner, short_desc, long_desc, default_value
  pub data GConfSchema : Type 0 where
    make_schema :
        GConfValueType
        → GConfValueType
        → GConfValueType
        → GConfValueType
        → Option Bytes
        → Option Bytes
        → Option Bytes
        → Option Bytes
        → MaybeValue
        → GConfSchema

-- value->type
unfoldable pub value_type : GConfValue → GConfValueType
value_type invalid_value = invalid
value_type (string_value s) = string
value_type (int_value z) = int
value_type (float_value d) = float
value_type (bool_value b) = bool
value_type schema_null = schema
value_type (schema_value sc) = schema
value_type (list_value t xs) = list
value_type (pair_value x y) = pair
