-- ===== src/Markup/Entry.antt =====
-- Entries of the markup tree: `markup_entry_set_value`, `markup_entry_unset_value`,
-- `markup_entry_set_schema_name` and `markup_entry_get_value`. The texts of a schema in the languages
-- are kept apart from it, in a list. The files with those of one language are read where a tree is
-- kept in one file, which is not modelled, so that `ensure_schema_descs_loaded` returns at once.
pub mod Local
pub mod Scan
pub mod RoundTrip
use gconf_dbus.Prelude.{
  ℕ, Bool, true, false, not, ◌&&◌, Option, none, some, List, [], ◌∷◌, if◌then◌else◌,
}
use gconf_dbus.CString.{Bytes, bytes_eq}
use gconf_dbus.Platform.{Platform}
use gconf_dbus.Value.{
  GConfValueType, invalid, GConfValue, invalid_value, string_value, int_value, float_value,
  bool_value, schema_null, schema_value, list_value, pair_value, MaybeValue, null, just,
  GConfSchema, make_schema,
}
use gconf_dbus.Value.Order.{no_schema}

pub record LocalSchemaInfo : Type 0 where
  pub locale : Bytes
  pub short_desc : Option Bytes
  pub long_desc : Option Bytes
  pub default_value : MaybeValue

pub record MarkupEntry : Type 0 where
  pub name : Bytes
  pub value : MaybeValue
  pub schema_name : Option Bytes
  pub local_schemas : List LocalSchemaInfo
  pub mod_time : ℕ
  pub mod_user : Option Bytes

abbrev pub entry_new : Bytes → MarkupEntry
entry_new name = record {
  name = name;
  value = null;
  schema_name = none;
  local_schemas = [];
  mod_time = 0;
  mod_user = none;
}

abbrev pub c_locale : Bytes
c_locale = b'C' ∷ []

-- The fields that are kept apart, put in front where the locale has none.
unfoldable pub set_local : LocalSchemaInfo → List LocalSchemaInfo → Option (List LocalSchemaInfo)
set_local new [] = none
set_local new (lsi ∷ rest) =
    let later = set_local new rest in
    if bytes_eq lsi.locale new.locale
    then some (new ∷ rest)
    else elim later [ none ↦ none | some ls ↦ some (lsi ∷ ls) ]

abbrev pub or_prepend :
    LocalSchemaInfo → Option (List LocalSchemaInfo) → List LocalSchemaInfo → List LocalSchemaInfo
or_prepend new none ls = new ∷ ls
or_prepend new (some ls') ls = ls'

abbrev pub locale_or_c : Option Bytes → Bytes
locale_or_c none = c_locale
locale_or_c (some l) = l

module _ (p : Platform) where
  -- `text == NULL || g_utf8_validate (text)`, without which a setter of a schema does nothing
  abbrev pub settable : Option Bytes → Bool
  settable none = true
  settable (some s) = p.utf8_validate s

  abbrev pub set_owner : Option Bytes → Option Bytes → Option Bytes
  set_owner new old = if settable new then new else old

  -- The schema of the entry, of which `default_value` is never set. The type fields and the owner
  -- are those of the new schema, and locale and texts are NULL.
  abbrev pub main_schema : GConfSchema → GConfSchema → GConfSchema
  main_schema (make_schema t1 l1 c1 d1 locale1 owner1 short1 long1 default1)
        (make_schema t2 l2 c2 d2 locale2 owner2 short2 long2 default2) =
      make_schema t2 l2 c2 d2 none (set_owner owner2 owner1) none none default1

  -- The schema that the entry has; a new one where it has no value, or one of another type. A value
  -- of type schema in an entry has its schema.
  abbrev pub current_schema : MaybeValue → GConfSchema
  current_schema (just (schema_value sc)) = sc
  current_schema v = no_schema

  abbrev pub local_of : GConfSchema → LocalSchemaInfo
  local_of (make_schema t l c d locale owner short long default) = record {
    locale = locale_or_c locale;
    short_desc = short;
    long_desc = long;
    default_value = default;
  }

  -- `now` is the time. On a value of type schema with no schema the program stops, by an
  -- assertion; the entry is as it was.
  unfoldable pub entry_set_value : ℕ → MarkupEntry → GConfValue → MarkupEntry
  entry_set_value now entry (schema_value sc) = record {
    name = entry.name;
    value = just (schema_value (main_schema (current_schema entry.value) sc));
    schema_name = entry.schema_name;
    local_schemas =
        or_prepend (local_of sc) (set_local (local_of sc) entry.local_schemas) entry.local_schemas;
    mod_time = now;
    mod_user = entry.mod_user;
  }
  entry_set_value now entry schema_null = entry
  entry_set_value now entry v = record {
    name = entry.name;
    value = just v;
    schema_name = entry.schema_name;
    local_schemas = [];
    mod_time = now;
    mod_user = entry.mod_user;
  }

-- g_slist_remove of the first of the locale
unfoldable pub remove_local : Bytes → List LocalSchemaInfo → List LocalSchemaInfo
remove_local locale [] = []
remove_local locale (lsi ∷ rest) =
    let later = lsi ∷ remove_local locale rest in if bytes_eq lsi.locale locale then rest else later

abbrev pub is_schema : GConfValue → Bool
is_schema schema_null = true
is_schema (schema_value sc) = true
is_schema v = false

abbrev unset_with : ℕ → MarkupEntry → MaybeValue → List LocalSchemaInfo → MarkupEntry
unset_with now entry v ls = record {
  name = entry.name;
  value = v;
  schema_name = entry.schema_name;
  local_schemas = ls;
  mod_time = now;
  mod_user = entry.mod_user;
}

abbrev unset_schema : ℕ → MarkupEntry → Option Bytes → MarkupEntry
unset_schema now entry none = unset_with now entry null []
unset_schema now entry (some locale) =
    unset_with now entry entry.value (remove_local locale entry.local_schemas)

abbrev unset_some : ℕ → MarkupEntry → GConfValue → Option Bytes → MarkupEntry
unset_some now entry v locale =
    if is_schema v
    then unset_schema now entry locale
    else unset_with now entry null entry.local_schemas

-- `none` where there is nothing to do, and the directory is not marked.
abbrev unset_by : ℕ → MarkupEntry → Option Bytes → MaybeValue → Option MarkupEntry
unset_by now entry locale null = none
unset_by now entry locale (just v) = some (unset_some now entry v locale)

unfoldable pub entry_unset_value : ℕ → MarkupEntry → Option Bytes → Option MarkupEntry
entry_unset_value now entry locale = unset_by now entry locale entry.value

unfoldable pub entry_set_schema_name : ℕ → MarkupEntry → Option Bytes → MarkupEntry
entry_set_schema_name now entry name = record {
  name = entry.name;
  value = entry.value;
  schema_name = name;
  local_schemas = entry.local_schemas;
  mod_time = now;
  mod_user = entry.mod_user;
}
