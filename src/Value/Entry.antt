-- ===== src/Value/Entry.antt =====
-- gconf/gconf-value.c: entries, `gconf_entry_equal`; and `gconf_value_validate` with
-- `gconf_schema_validate` (gconf/gconf-schema.c). Reference counts are not modelled.
use gconf_dbus.Prelude.{
  ◌≡◌, ◌↔◌, refl, ap, Ordering, Bool, true, false, not, ◌&&◌, Option, none, some, arith,
  if◌then◌else◌,
}
use gconf_dbus.CString.{Bytes, strcmp, strcmp_eq, strcmp_refl}
use gconf_dbus.Platform.{Platform}
use gconf_dbus.Value.{MaybeValue, null, just}
use gconf_dbus.Value.Order.{gconf_value_compare}
use gconf_dbus.Value.Same.{IsPlainPart, compared_maybe, gconf_value_compare_eq_iff}

pub record GConfEntry : Type 0 where
  pub key : Bytes
  pub value : MaybeValue
  pub schema_name : Option Bytes
  pub is_default : Bool
  pub is_writable : Bool

abbrev pub entry_new : Bytes → MaybeValue → GConfEntry
entry_new key val = record {
  key = key;
  value = val;
  schema_name = none;
  is_default = false;
  is_writable = true;
}

abbrev pub entry_copy : GConfEntry → GConfEntry
entry_copy src = record (entry_new src.key src.value) {
  schema_name = src.schema_name;
  is_default = src.is_default;
  is_writable = src.is_writable;
}

abbrev pub steal_value : GConfEntry → MaybeValue × GConfEntry
steal_value entry = (entry.value, record entry { value = null })

abbrev pub entry_set_value : GConfEntry → MaybeValue → GConfEntry
entry_set_value entry val = record entry { value = val }

abbrev pub entry_set_schema_name : GConfEntry → Option Bytes → GConfEntry
entry_set_schema_name entry name = record entry { schema_name = name }

abbrev is_just : MaybeValue → Bool
is_just null = false
is_just (just v) = true

abbrev is_some : Option Bytes → Bool
is_some none = false
is_some (some s) = true

abbrev is_eq : Ordering → Bool
is_eq Ordering.eq = true
is_eq o = false

abbrev same_flag : Bool → Bool → Bool
same_flag true b = b
same_flag false b = not b

-- strcmp (a, b) != 0, of names that are both there
abbrev names_differ : Option Bytes → Option Bytes → Bool
names_differ (some s) (some t) = not (is_eq (strcmp s t))
names_differ s t = false

abbrev equal_result : Option Ordering → Option Bool
equal_result none = none
equal_result (some o) = some (is_eq o)

-- The entries agree in all that gconf_entry_equal looks at.
pub record SameEntry (a b : GConfEntry) : Type 0 where
  pub same_key : a.key ≡ b.key
  pub same_value : compared_maybe a.value ≡ compared_maybe b.value
  pub same_schema : a.schema_name ≡ b.schema_name
  pub same_default : a.is_default ≡ b.is_default
  pub same_writable : a.is_writable ≡ b.is_writable

is_eq_true : {r : Option Ordering} → equal_result r ≡ some true → r ≡ some Ordering.eq
is_eq_true {r} h = ground arith

module _ (p : Platform) where
  -- The last of the tests.
  abbrev pub values_equal : MaybeValue → MaybeValue → Option Bool
  values_equal (just v) (just w) = equal_result (gconf_value_compare p v w)
  values_equal v w = some true

  -- `none` where a NULL string is handed to `strcmp`.
  unfoldable pub gconf_entry_equal : GConfEntry → GConfEntry → Option Bool
  gconf_entry_equal a b =
      if is_just a.value && not (is_just b.value)
      then some false
      else if not (is_just a.value) && is_just b.value
      then some false
      else if not (same_flag a.is_default b.is_default)
      then some false
      else if not (same_flag a.is_writable b.is_writable)
      then some false
      else if not (is_eq (strcmp a.key b.key))
      then some false
      else if is_some a.schema_name && not (is_some b.schema_name)
      then some false
      else if not (is_some a.schema_name) && is_some b.schema_name
      then some false
      else if names_differ a.schema_name b.schema_name
      then some false
      else values_equal a.value b.value

  maybe_iff :
      (x y : MaybeValue)
      → IsPlainPart x
      → ((is_just x ≡ is_just y) × (values_equal x y ≡ some true))
        ↔ (compared_maybe x ≡ compared_maybe y)
  maybe_iff null null w = ground arith
  maybe_iff null (just v) w = ground arith
  maybe_iff (just v) null w = ground arith
  maybe_iff (just v) (just u) w =
      let e = gconf_value_compare_eq_iff p v u w in
      ((λ h. ap just (e.0 (is_eq_true h.1))), λ h. (refl, rw (e.1 (cc)) refl))

  names_iff :
      (s t : Option Bytes) → ((is_some s ≡ is_some t) × (names_differ s t ≡ false)) ↔ (s ≡ t)
  names_iff none none = ground arith
  names_iff none (some t) = ground arith
  names_iff (some s) none = ground arith
  names_iff (some s) (some t) = ground (arith, strcmp_eq s t, strcmp_refl s)

  -- gconf_entry_equal, on an entry whose value has no NULL string and no float in it, says yes
  -- exactly when the keys, the flags and the schema names are equal and the values are, as far as
  -- gconf_value_compare looks at them (`compared_maybe`).
  pub gconf_entry_equal_iff :
      (a b : GConfEntry) → IsPlainPart a.value → (gconf_entry_equal a b ≡ some true) ↔ SameEntry a b
  unfolding gconf_entry_equal
  gconf_entry_equal_iff a b w = ground (
    arith,
    maybe_iff a.value b.value w,
    names_iff a.schema_name b.schema_name,
    strcmp_eq a.key b.key,
    strcmp_refl a.key,
  )
