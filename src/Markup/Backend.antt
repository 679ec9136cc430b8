-- ===== src/Markup/Backend.antt =====
-- backends/markup-backend.c: the functions of the backend on a tree in memory, and its table for the
-- stack of sources.
use gconf_dbus.Prelude.{ℕ, Bool, true, false, Option, none, some, List, [], ◌∷◌, if◌then◌else◌}
use gconf_dbus.CString.{Bytes}
use gconf_dbus.Keys.{slash, key_directory, key_key}
use gconf_dbus.Platform.{Platform}
use gconf_dbus.Value.{GConfValue, MaybeValue, null}
use gconf_dbus.Listeners.Table.{dirnames_of}
use gconf_dbus.Sources.{Answer, VTable}
use gconf_dbus.Markup.Entry.{MarkupEntry, entry_set_value, entry_unset_value, entry_set_schema_name}
use gconf_dbus.Markup.Entry.Local.{entry_get_value}
use gconf_dbus.Markup.Dir.{MarkupDir, dir_new, Files, Step, walk, lookup_entry, update_entry}

-- Where the entry of a key stands: the names of the directories, and that of the entry.
pub record Location : Type 0 where
  pub dirs : List Bytes
  pub name : Bytes

abbrev location_in : Option Bytes → Option Bytes → Option Location
location_in (some d) (some n) = some (record { dirs = dirnames_of d; name = n })
location_in d n = none

-- `none` for a key with no slash, on which the program stops.
unfoldable pub location_of : Bytes → Option Location
location_of key = location_in (key_directory key) (key_key key)

-- `markup_tree_get`, of a tree that is not open yet
abbrev pub tree_new : MarkupDir
tree_new = dir_new (slash ∷ [])

module _ (files : Files) where
  abbrev lookup_at : MarkupDir → Option Location → Step (Option MarkupEntry)
  lookup_at t none = record { result = none; dir = t; queued = false }
  lookup_at t (some l) = walk files false (lookup_entry files l.name) [] l.dirs t

  -- `tree_lookup_entry`, with FALSE for `create_if_not_found`
  unfoldable pub tree_lookup_entry : MarkupDir → Bytes → Step (Option MarkupEntry)
  tree_lookup_entry t key = lookup_at t (location_of key)

  abbrev update_at : (MarkupEntry → Option MarkupEntry) → MarkupDir → Option Location → MarkupDir
  update_at f t none = t
  update_at f t (some l) = (walk files true (update_entry files f l.name) [] l.dirs t).dir

  -- `tree_lookup_entry` with TRUE, and an operation on the entry
  unfoldable pub tree_update_entry :
      (MarkupEntry → Option MarkupEntry) → MarkupDir → Bytes → MarkupDir
  tree_update_entry f t key = update_at f t (location_of key)

-- The entry of a lookup, which may fail at a directory or at the entry.
abbrev pub entry_of : Option (Option MarkupEntry) → Option MarkupEntry
entry_of none = none
entry_of (some e) = e

abbrev pub schema_name_of : Option MarkupEntry → Option Bytes
schema_name_of none = none
schema_name_of (some e) = e.schema_name

module _ (p : Platform) (files : Files) where
  abbrev pub value_of : List Bytes → Option MarkupEntry → MaybeValue
  value_of locales none = null
  value_of locales (some e) = entry_get_value p e locales

  -- `query_value` and `query_metainfo` keep in the tree what they loaded.
  abbrev pub answer_of : List Bytes → Bool → Option MarkupEntry → Answer
  answer_of locales wanted e = record {
    value = value_of locales e;
    schema_name = if wanted then schema_name_of e else none;
    error = none;
  }

  unfoldable pub ms_query_value : MarkupDir → Bytes → List Bytes → Bool → Answer × MarkupDir
  ms_query_value t key locales wanted =
      let s = tree_lookup_entry files t key in (answer_of locales wanted (entry_of s.result), s.dir)

  unfoldable pub ms_query_metainfo : MarkupDir → Bytes → Option Bytes × MarkupDir
  ms_query_metainfo t key =
      let s = tree_lookup_entry files t key in (schema_name_of (entry_of s.result), s.dir)

  unfoldable pub ms_set_value : ℕ → MarkupDir → Bytes → GConfValue → MarkupDir
  ms_set_value now t key v = tree_update_entry files (λ e. some (entry_set_value p now e v)) t key

  unfoldable pub ms_unset_value : ℕ → MarkupDir → Bytes → Option Bytes → MarkupDir
  ms_unset_value now t key locale =
      tree_update_entry files (λ e. entry_unset_value now e locale) t key

  unfoldable pub ms_set_schema : ℕ → MarkupDir → Bytes → Option Bytes → MarkupDir
  ms_set_schema now t key name =
      tree_update_entry files (λ e. some (entry_set_schema_name now e name)) t key

  -- The table that the sources call, at the time `now`. What a query keeps in the tree changes no
  -- later answer (Markup/Query.antt), so that the table leaves it out.
  abbrev pub markup_vtable : ℕ → VTable MarkupDir
  markup_vtable now = record {
    readable = some (λ t key. (true, none));
    writable = some (λ t key. (true, none));
    query_value = λ t key locales wanted. (ms_query_value t key locales wanted).0;
    query_metainfo = λ t key. ((ms_query_metainfo t key).0, none);
    set_value = λ t key v. (ms_set_value now t key v, none);
    unset_value = λ t key locale. (ms_unset_value now t key locale, none);
  }
