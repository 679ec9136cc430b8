-- ===== src/Markup/Entry/RoundTrip.antt =====
-- What `markup_entry_get_value` returns after `markup_entry_set_value`.
use gconf_dbus.Prelude.{
  ℕ, ◌≡◌, refl, ap, ◌∙◌, false, Option, none, some, List, [], ◌∷◌, arith, if◌then◌else◌,
  Option-cases, inl, inr,
}
use gconf_dbus.CString.{Bytes, bytes_eq, bytes_eq-eq, bytes_eq_refl}
use gconf_dbus.Platform.{Platform}
use gconf_dbus.Value.{
  GConfValueType, GConfValue, invalid_value, string_value, int_value, float_value, bool_value,
  schema_null, schema_value, list_value, pair_value, just, GConfSchema, make_schema,
}
use gconf_dbus.Value.Validate.{gconf_schema_validate, is_valid}
use gconf_dbus.Markup.Entry.{
  LocalSchemaInfo, MarkupEntry, set_local, or_prepend, local_of, is_schema, entry_set_value,
  c_locale, main_schema, current_schema,
}
use gconf_dbus.Markup.Entry.Local.{scan_locales, localize, entry_get_value}
use gconf_dbus.Markup.Entry.Scan.{local_for, first_for, scan_locales-first_for}

abbrev put : LocalSchemaInfo → List LocalSchemaInfo → List LocalSchemaInfo
put new ls = or_prepend new (set_local new ls) ls

set_local-some :
    (new : LocalSchemaInfo) (ls : List LocalSchemaInfo) (l : Bytes) (ls' : List LocalSchemaInfo)
    → set_local new ls ≡ some ls'
    → local_for l ls' ≡ (if bytes_eq l new.locale then some new else local_for l ls)
unfolding set_local local_for
set_local-some new [] l ls' h = absurd (cc)
set_local-some new (lsi ∷ rest) l ls' h = elim (Option-cases (set_local new rest)) [
  | inl e ↦ ground (
    arith,
    bytes_eq-eq lsi.locale new.locale,
    bytes_eq-eq l new.locale,
    bytes_eq-eq l lsi.locale,
    bytes_eq_refl l,
  )
  | inr (ls, e) ↦ ground (
    arith,
    set_local-some new rest l ls e,
    bytes_eq-eq lsi.locale new.locale,
    bytes_eq-eq l new.locale,
    bytes_eq-eq l lsi.locale,
    bytes_eq_refl l,
  )
]

-- The texts of a locale are those that were put last, the others are as they were.
pub local_for-put :
    (new : LocalSchemaInfo) (ls : List LocalSchemaInfo) (l : Bytes)
    → local_for l (put new ls) ≡ (if bytes_eq l new.locale then some new else local_for l ls)
unfolding local_for
local_for-put new ls l = elim (Option-cases (set_local new ls)) [
  | inl e ↦ rw e refl
  | inr (ls', e) ↦ rw e (set_local-some new ls l ls' e)
]

-- A value that is no schema is returned as it was set.
pub get_value-set_value_plain :
    (p : Platform) (now : ℕ) (e : MarkupEntry) (v : GConfValue) (locales : List Bytes)
    → is_schema v ≡ false
    → entry_get_value p (entry_set_value p now e v) locales ≡ just v
unfolding entry_get_value entry_set_value
get_value-set_value_plain p now e invalid_value locales h = refl
get_value-set_value_plain p now e (string_value s) locales h = refl
get_value-set_value_plain p now e (int_value z) locales h = refl
get_value-set_value_plain p now e (float_value d) locales h = refl
get_value-set_value_plain p now e (bool_value b) locales h = refl
get_value-set_value_plain p now e schema_null locales h = absurd (cc)
get_value-set_value_plain p now e (schema_value sc) locales h = absurd (cc)
get_value-set_value_plain p now e (list_value t xs) locales h = refl
get_value-set_value_plain p now e (pair_value x y) locales h = refl

-- A schema with a locale, both descriptions and a default value.
abbrev pub full_schema :
    GConfValueType
    → GConfValueType
    → GConfValueType
    → GConfValueType
    → Bytes
    → Option Bytes
    → Bytes
    → Bytes
    → GConfValue
    → GConfSchema
full_schema t l c d locale owner short long v =
    make_schema t l c d (some locale) owner (some short) (some long) (just v)

module _ (p : Platform) (now : ℕ) (e : MarkupEntry) (t l c d : GConfValueType) (locale : Bytes)
    (owner : Option Bytes) (short long : Bytes) (v : GConfValue) (locales : List Bytes) where
  abbrev full : GConfSchema
  full = full_schema t l c d locale owner short long v

  localize-full :
      (old : GConfSchema) (k : Option LocalSchemaInfo)
      → gconf_schema_validate p full ≡ is_valid
      → localize p (record { best = some (local_of p full); c = k }) (main_schema p old full) ≡ full
  unfolding localize gconf_schema_validate
  localize-full (make_schema t1 l1 c1 d1 locale1 owner1 short1 long1 default1) k h = ground arith

  found-full :
      scan_locales
        (locale ∷ locales)
        (put (local_of p full) e.local_schemas)
        (record { best = none; c = none })
      ≡ record {
        best = some (local_of p full);
        c = local_for c_locale (put (local_of p full) e.local_schemas);
      }
  unfolding first_for
  found-full =
      rw
        (
          scan_locales-first_for locale locales (put (local_of p full) e.local_schemas),
          first_for,
          local_for-put (local_of p full) e.local_schemas locale,
          bytes_eq_refl locale,
        )
        refl

  -- A schema that has a locale, both descriptions and a default value, and passes
  -- gconf_schema_validate, is returned as it was set, when its locale is the preferred one: whatever
  -- value the entry had, and whatever texts in this language and others.
  pub get_value-set_value_schema :
      gconf_schema_validate p full ≡ is_valid
      → entry_get_value p (entry_set_value p now e (schema_value full)) (locale ∷ locales)
        ≡ just (schema_value full)
  unfolding entry_get_value entry_set_value
  get_value-set_value_schema h =
      ap (λ f. just (schema_value (localize p f (main_schema p (current_schema p e.value) full))))
        found-full
      ∙ ap (λ sc. just (schema_value sc)) (localize-full (current_schema p e.value) _ h)
