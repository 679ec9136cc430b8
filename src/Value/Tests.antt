-- ===== src/Value/Tests.antt =====
-- Tests of the comparison, of entries and of validation, and the instances of their properties.
use gconf_dbus.Prelude.{◌≡◌, refl, ◌↔◌, ℤ, Ordering, true, false, none, some, [], ◌∷◌, arith}
use gconf_dbus.CString.{strcmp}
use gconf_dbus.Platform.Ascii.{ascii_platform}
use gconf_dbus.Value.{
  invalid, string, int, list, GConfValue, string_value, int_value, bool_value, schema_value,
  list_value, nil, cons, null, just, make_schema, value_type,
}
use gconf_dbus.Value.Order.{
  gconf_value_compare, compare_lists, compare_strings, compare_ints, compare_bools, compare_schemas,
  compare_parts, null_safe_strcmp,
}
use gconf_dbus.Value.Flip.{IsAsymmetric, opposite_result, gconf_value_compare_flip}
use gconf_dbus.Value.Same.{compared_part, gconf_value_compare_eq_iff}
use gconf_dbus.Value.Entry.{
  GConfEntry, entry_new, gconf_entry_equal, SameEntry, gconf_entry_equal_iff,
}
use gconf_dbus.Value.Validate.{gconf_value_validate, gconf_schema_validate, no_list_type}

abbrev one_two : GConfValue
one_two = list_value int (cons (int_value (ℤ.pos 1)) (cons (int_value (ℤ.pos 2)) nil))

abbrev one : GConfValue
one = list_value int (cons (int_value (ℤ.pos 1)) nil)

-- A longer list is greater.
longer : gconf_value_compare ascii_platform one_two one ≡ some Ordering.gt
unfolding gconf_value_compare compare_lists compare_ints value_type
longer = refl

-- The type decides first, and a NULL string crashes only against a string.
by_type_first : gconf_value_compare ascii_platform (string_value none) one ≡ some Ordering.lt
unfolding gconf_value_compare value_type
by_type_first = refl

null_string : gconf_value_compare ascii_platform (string_value none) (string_value none) ≡ none
unfolding gconf_value_compare compare_strings value_type
null_string = refl

-- Empty lists are equal, whatever the types of their elements.
empty_lists :
    gconf_value_compare ascii_platform (list_value int nil) (list_value string nil)
    ≡ some Ordering.eq
unfolding gconf_value_compare compare_lists value_type
empty_lists = refl

true_greater :
    gconf_value_compare ascii_platform (bool_value true) (bool_value false) ≡ some Ordering.gt
unfolding gconf_value_compare compare_bools value_type
true_greater = refl

abbrev schema_with : ℤ → GConfValue
schema_with z =
    schema_value (make_schema int invalid invalid invalid none none none none (just (int_value z)))

-- Schemas that differ in their default values are equal.
default_values :
    gconf_value_compare ascii_platform (schema_with (ℤ.pos 1)) (schema_with (ℤ.pos 2))
    ≡ some Ordering.eq
unfolding gconf_value_compare compare_schemas compare_parts null_safe_strcmp value_type
default_values = refl

asym_lemma : IsAsymmetric ascii_platform
asym_lemma = record { asym = λ d e h. ground arith }

gconf_value_compare_flip_example :
    gconf_value_compare ascii_platform one one_two
    ≡ opposite_result (gconf_value_compare ascii_platform one_two one)
gconf_value_compare_flip_example = gconf_value_compare_flip ascii_platform asym_lemma one_two one

gconf_value_compare_eq_iff_example :
    (gconf_value_compare ascii_platform (schema_with (ℤ.pos 1)) (schema_with (ℤ.pos 2))
      ≡ some Ordering.eq)
    ↔ (compared_part (schema_with (ℤ.pos 1)) ≡ compared_part (schema_with (ℤ.pos 2)))
gconf_value_compare_eq_iff_example =
    gconf_value_compare_eq_iff ascii_platform (schema_with (ℤ.pos 1)) (schema_with (ℤ.pos 2)) tt

abbrev at : GConfValue → GConfEntry
at v = entry_new (47 ∷ 97 ∷ []) (just v)

gconf_entry_equal_iff_example :
    (gconf_entry_equal ascii_platform (at one) (at one_two) ≡ some true)
    ↔ SameEntry (at one) (at one_two)
gconf_entry_equal_iff_example = gconf_entry_equal_iff ascii_platform (at one) (at one_two) (tt, tt)

entries_differ : gconf_entry_equal ascii_platform (at one) (at one_two) ≡ some false
unfolding gconf_entry_equal gconf_value_compare compare_lists compare_ints value_type strcmp
entries_differ = refl

schema_without_list_type :
    gconf_value_validate ascii_platform
      (schema_value (make_schema list invalid invalid invalid none none none none null))
    ≡ no_list_type
unfolding gconf_value_validate gconf_schema_validate
schema_without_list_type = refl
