-- ===== src/Value/Order.antt =====
-- gconf/gconf-value.c: `gconf_value_compare`. The result is the sign of the number that the code
-- returns, `none` where it hands a NULL string to `strcmp`.
use gconf_dbus.Prelude.{ℕ, ℤ, compare, Ordering, Bool, true, false, Option, none, some, ltb_ℤ}
use gconf_dbus.CString.{Bytes, strcmp}
use gconf_dbus.Platform.{Platform}
use gconf_dbus.Value.{
  GConfValueType, invalid, string, int, float, bool, schema, list, pair, GConfValue, invalid_value,
  string_value, int_value, float_value, bool_value, schema_null, schema_value, list_value,
  pair_value, Values, nil, cons, MaybeValue, null, just, GConfSchema, make_schema, value_type,
}

-- The numbers of the types.
abbrev pub type_number : GConfValueType → ℕ
type_number invalid = 0
type_number string = 1
type_number int = 2
type_number float = 3
type_number bool = 4
type_number schema = 5
type_number list = 6
type_number pair = 7

abbrev pub compare_types : GConfValueType → GConfValueType → Ordering
compare_types t u = compare (type_number t) (type_number u)

-- The getters, with what they return for a value of another type.
abbrev pub get_string : GConfValue → Option Bytes
get_string (string_value s) = s
get_string v = none

abbrev pub get_int : GConfValue → ℤ
get_int (int_value z) = z
get_int v = ℤ.pos 0

abbrev pub get_float : GConfValue → ℕ
get_float (float_value d) = d
get_float v = 0

abbrev pub get_bool : GConfValue → Bool
get_bool (bool_value b) = b
get_bool v = false

abbrev pub get_list : GConfValue → Values
get_list (list_value t xs) = xs
get_list v = nil

abbrev pub get_car : GConfValue → MaybeValue
get_car (pair_value x y) = x
get_car v = null

abbrev pub get_cdr : GConfValue → MaybeValue
get_cdr (pair_value x y) = y
get_cdr v = null

-- What the getters of a schema return for NULL.
abbrev pub no_schema : GConfSchema
no_schema = make_schema invalid invalid invalid invalid none none none none null

abbrev pub get_schema : GConfValue → GConfSchema
get_schema (schema_value sc) = sc
get_schema v = no_schema

-- `if (result != 0) return result;` and the rest
abbrev pub or_else : Ordering → Ordering → Ordering
or_else Ordering.lt rest = Ordering.lt
or_else Ordering.eq rest = rest
or_else Ordering.gt rest = Ordering.gt

abbrev pub then_compare : Option Ordering → Option Ordering → Option Ordering
then_compare none rest = none
then_compare (some Ordering.lt) rest = some Ordering.lt
then_compare (some Ordering.eq) rest = rest
then_compare (some Ordering.gt) rest = some Ordering.gt

-- `a < b` first, `a > b` second
abbrev pub by_less : Bool → Bool → Ordering
by_less true greater = Ordering.lt
by_less false true = Ordering.gt
by_less false false = Ordering.eq

unfoldable pub compare_ints : ℤ → ℤ → Ordering
compare_ints a b = by_less (ltb_ℤ a b) (ltb_ℤ b a)

unfoldable pub compare_bools : Bool → Bool → Ordering
compare_bools true true = Ordering.eq
compare_bools true false = Ordering.gt
compare_bools false true = Ordering.lt
compare_bools false false = Ordering.eq

-- strcmp, of which an argument may be NULL
unfoldable pub compare_strings : Option Bytes → Option Bytes → Option Ordering
compare_strings none t = none
compare_strings (some s) none = none
compare_strings (some s) (some t) = some (strcmp s t)

unfoldable pub null_safe_strcmp : Option Bytes → Option Bytes → Ordering
null_safe_strcmp none none = Ordering.eq
null_safe_strcmp none (some t) = Ordering.lt
null_safe_strcmp (some s) none = Ordering.gt
null_safe_strcmp (some s) (some t) = strcmp s t

-- The element types, which are compared where the type has them.
unfoldable pub compare_parts :
    GConfValueType
    → GConfValueType
    → GConfValueType
    → GConfValueType
    → GConfValueType
    → GConfValueType
    → GConfValueType
    → Ordering
compare_parts list l1 c1 d1 l2 c2 d2 = compare_types l1 l2
compare_parts pair l1 c1 d1 l2 c2 d2 = or_else (compare_types c1 c2) (compare_types d1 d2)
compare_parts t l1 c1 d1 l2 c2 d2 = Ordering.eq

-- The owner and the default value are not compared.
unfoldable pub compare_schemas : GConfSchema → GConfSchema → Ordering
compare_schemas (make_schema t1 l1 c1 d1 locale1 owner1 short1 long1 default1)
      (make_schema t2 l2 c2 d2 locale2 owner2 short2 long2 default2) =
    or_else (compare_types t1 t2) (
      or_else (null_safe_strcmp short1 short2) (
        or_else (null_safe_strcmp long1 long2)
          (or_else (null_safe_strcmp locale1 locale2) (compare_parts t1 l1 c1 d1 l2 c2 d2))))

-- The types are compared first.
abbrev pub by_type : GConfValueType → GConfValueType → Option Ordering → Option Ordering
by_type t u same = elim (compare_types t u) [
  | Ordering.lt ↦ some Ordering.lt
  | Ordering.eq ↦ same
  | Ordering.gt ↦ some Ordering.gt
]

module _ (p : Platform) where
  unfoldable pub compare_floats : ℕ → ℕ → Ordering
  compare_floats d e = by_less (p.double_lt d e) (p.double_lt e d)

  unfoldable mutual
    pub gconf_value_compare : GConfValue → GConfValue → Option Ordering
    gconf_value_compare invalid_value b = by_type invalid (value_type b) (some Ordering.eq)
    gconf_value_compare (string_value s) b =
        by_type string (value_type b) (compare_strings s (get_string b))
    gconf_value_compare (int_value z) b =
        by_type int (value_type b) (some (compare_ints z (get_int b)))
    gconf_value_compare (float_value d) b =
        by_type float (value_type b) (some (compare_floats d (get_float b)))
    gconf_value_compare (bool_value x) b =
        by_type bool (value_type b) (some (compare_bools x (get_bool b)))
    gconf_value_compare schema_null b =
        by_type schema (value_type b) (some (compare_schemas no_schema (get_schema b)))
    gconf_value_compare (schema_value sc) b =
        by_type schema (value_type b) (some (compare_schemas sc (get_schema b)))
    gconf_value_compare (list_value t xs) b =
        by_type list (value_type b) (compare_lists xs (get_list b))
    gconf_value_compare (pair_value x y) b =
        by_type pair (value_type b)
          (then_compare (compare_maybe x (get_car b)) (compare_maybe y (get_cdr b)))

    pub compare_lists : Values → Values → Option Ordering
    compare_lists nil nil = some Ordering.eq
    compare_lists nil (cons y ys) = some Ordering.lt
    compare_lists (cons x xs) nil = some Ordering.gt
    compare_lists (cons x xs) (cons y ys) =
        then_compare (gconf_value_compare x y) (compare_lists xs ys)

    pub compare_maybe : MaybeValue → MaybeValue → Option Ordering
    compare_maybe null null = some Ordering.eq
    compare_maybe null (just y) = some Ordering.lt
    compare_maybe (just x) null = some Ordering.gt
    compare_maybe (just x) (just y) = gconf_value_compare x y
