-- ===== src/Markup/Tests.antt =====
-- Tests of the markup backend, and the instances of its properties.
use gconf_dbus.Prelude.{◌≡◌, ◌≢◌, refl, ℤ, true, false, none, some, Option, List, [], ◌∷◌}
use gconf_dbus.CString.{Bytes, codes, bytes_eq}
use gconf_dbus.Platform.Ascii.{ascii_platform}
use gconf_dbus.Keys.{
  key_directory, key_key, split_last_slash, valid_key, valid_key_loop, is_invalid_char,
}
use gconf_dbus.Listeners.Tree.{strsplit, split_parts}
use gconf_dbus.Value.{invalid, int, GConfValue, int_value, schema_value, just, null}
use gconf_dbus.Value.Validate.{gconf_schema_validate}
use gconf_dbus.Sources.{key_check}
use gconf_dbus.Sources.Query.{sources_query_value}
use gconf_dbus.Sources.Found.{found}
use gconf_dbus.Sources.Write.{sources_set_value}
use gconf_dbus.Markup.Entry.{
  LocalSchemaInfo, MarkupEntry, entry_new, c_locale, entry_set_value, entry_unset_value,
}
use gconf_dbus.Markup.Entry.Local.{scan_locales, entry_get_value}
use gconf_dbus.Markup.Entry.Scan.{first_for, local_for, scan_locales-first_for}
use gconf_dbus.Markup.Entry.RoundTrip.{full_schema}
use gconf_dbus.Markup.Dir.{
  MarkupDir, Files, walk, change_child, load_entries, load_subdirs, new_subdirs, find_entry,
  lookup_entry, change_entry, update_entry,
}
use gconf_dbus.Markup.Backend.{
  Location, location_of, tree_new, tree_lookup_entry, tree_update_entry, ms_query_value,
  ms_query_metainfo, ms_set_value, ms_unset_value, ms_set_schema,
}
use gconf_dbus.Markup.Answers.{
  ms_query_value-elsewhere, ms_query_value-set_value_schema, ms_query_value-unset_value,
}
use gconf_dbus.Markup.Marks.{IsMarked}
use gconf_dbus.Markup.Marked.{operations-IsMarked, tree_new-IsMarked}
use gconf_dbus.Markup.Sync.{
  save, remove, markup_dir_sync, sync_dirs, markup_tree_sync, clean_old_local_schemas, kept_schemas,
  useful_entries, some_useless, useful_dirs, useless_dirs,
}
use gconf_dbus.Markup.Saves.{saves_of, dirty, all_saved, tree_sync-saves, tree_sync-ok}
use gconf_dbus.Markup.Composed.{markup_source, markup_readback}
use gconf_dbus.Markup.Listing.{
  ms_all_entries, ms_all_subdirs, ms_dir_exists, ms_clear_cache, list_subdirs, dir_names,
}

-- A disk with a directory `a`, in it an entry `x` with a value, and an empty directory `b`.
abbrev name_a : Bytes
name_a = codes "a"

abbrev entry_x : MarkupEntry
entry_x = record (entry_new (codes "x")) { value = just (int_value (ℤ.pos 1)) }

abbrev disk : Files
disk = record {
  parsed = λ path. elim path [
    | [] ↦ []
    | c ∷ cs ↦ elim (bytes_eq c name_a) [ true ↦ entry_x ∷ [] | false ↦ [] ]
  ];
  listing = λ path. elim path [ [] ↦ name_a ∷ codes "b" ∷ codes "%gconf.xml" ∷ [] | c ∷ cs ↦ [] ];
  has_file = λ path. true;
}

abbrev key_x : Bytes
key_x = codes "/a/x"

abbrev key_y : Bytes
key_y = codes "/a/n/y"

-- What the disk holds is found.
query_disk :
    (ms_query_value ascii_platform disk tree_new key_x [] true).0.value ≡ just (int_value (ℤ.pos 1))
unfolding ms_query_value tree_lookup_entry location_of key_directory key_key split_last_slash
    strsplit split_parts walk change_child load_subdirs load_entries new_subdirs lookup_entry
    find_entry entry_get_value
query_disk = refl

abbrev seven : GConfValue
seven = int_value (ℤ.pos 7)

-- A value set in a new directory: both new and changed files are written, `a` not being changed.
abbrev with_y : MarkupDir
with_y = ms_set_value ascii_platform disk 5 tree_new key_y seven

sync_y :
    (markup_tree_sync disk (λ path. true) with_y).actions
    ≡ save
        (codes "n" ∷ name_a ∷ [])
        (record (entry_new (codes "y")) { value = just seven; mod_time = 5 } ∷ [])
      ∷ []
unfolding ms_set_value tree_update_entry location_of key_directory key_key split_last_slash strsplit
    split_parts walk change_child load_subdirs load_entries new_subdirs update_entry change_entry
    entry_set_value markup_tree_sync markup_dir_sync sync_dirs clean_old_local_schemas kept_schemas
    useful_entries useless_dirs useful_dirs some_useless
sync_y = refl

-- An entry that is unset is dropped, and its directory removed when it is empty.
sync_unset :
    (markup_tree_sync disk
      (λ path. true)
      (ms_unset_value ascii_platform disk 5 tree_new key_x none)).actions
    ≡ save (name_a ∷ []) [] ∷ remove (name_a ∷ []) ∷ []
unfolding ms_unset_value tree_update_entry location_of key_directory key_key split_last_slash
    strsplit split_parts walk change_child load_subdirs load_entries new_subdirs update_entry
    change_entry entry_unset_value markup_tree_sync markup_dir_sync sync_dirs
    clean_old_local_schemas kept_schemas useful_entries useless_dirs useful_dirs some_useless
sync_unset = refl

-- The subdirectories, the last one of the disk in front in the tree and behind in the list.
subdirs_of_root : (ms_all_subdirs disk tree_new (codes "/")).0 ≡ name_a ∷ codes "b" ∷ []
unfolding ms_all_subdirs walk strsplit split_parts list_subdirs load_subdirs new_subdirs dir_names
subdirs_of_root = refl

abbrev loc_x : Location
loc_x = record { dirs = name_a ∷ []; name = codes "x" }

at_x : location_of key_x ≡ some loc_x
unfolding location_of key_directory key_key split_last_slash strsplit split_parts
at_x = refl

at_y : location_of key_y ≡ some (record { dirs = name_a ∷ codes "n" ∷ []; name = codes "y" })
unfolding location_of key_directory key_key split_last_slash strsplit split_parts
at_y = refl

x_not_y : location_of key_x ≢ location_of key_y
unfolding location_of key_directory key_key split_last_slash strsplit split_parts
x_not_y h = cc

ms_query_value-elsewhere_example :
    ((ms_query_value ascii_platform disk with_y key_x [] true).0
      ≡ (ms_query_value ascii_platform disk tree_new key_x [] true).0)
    × ((ms_query_value ascii_platform disk
          (ms_unset_value ascii_platform disk 5 tree_new key_y none)
          key_x
          []
          true).0
        ≡ (ms_query_value ascii_platform disk tree_new key_x [] true).0)
    × ((ms_query_value ascii_platform disk
          (ms_set_schema ascii_platform disk 5 tree_new key_y (some key_x))
          key_x
          []
          true).0
        ≡ (ms_query_value ascii_platform disk tree_new key_x [] true).0)
ms_query_value-elsewhere_example =
    ms_query_value-elsewhere ascii_platform disk tree_new 5 key_y key_x seven none (some key_x) []
      true x_not_y

abbrev greek : GConfValue
greek =
    schema_value (
      full_schema int invalid invalid invalid (codes "el") none (codes "short") (codes "long")
        seven)

ms_query_value-set_value_schema_example :
    (ms_query_value ascii_platform disk
      (ms_set_value ascii_platform disk 5 tree_new key_x greek)
      key_x
      (codes "el" ∷ [])
      true).0.value
    ≡ just greek
unfolding gconf_schema_validate
ms_query_value-set_value_schema_example =
    ms_query_value-set_value_schema ascii_platform disk tree_new 5 key_x [] true int invalid invalid
      invalid (codes "el") none (codes "short") (codes "long") seven at_x refl

ms_query_value-unset_value_example :
    (ms_query_value ascii_platform disk
      (ms_unset_value ascii_platform disk 5 tree_new key_x none)
      key_x
      []
      true).0
    ≡ record {
      value = null;
      schema_name = (ms_query_value ascii_platform disk tree_new key_x [] true).0.schema_name;
      error = none;
    }
ms_query_value-unset_value_example =
    ms_query_value-unset_value ascii_platform disk tree_new 5 key_x [] true at_x

operations-IsMarked_example :
    IsMarked (ms_query_value ascii_platform disk tree_new key_y [] true).1
    × IsMarked (ms_query_metainfo ascii_platform disk tree_new key_y).1
    × IsMarked (ms_set_value ascii_platform disk 5 tree_new key_y seven)
    × IsMarked (ms_unset_value ascii_platform disk 5 tree_new key_y none)
    × IsMarked (ms_set_schema ascii_platform disk 5 tree_new key_y none)
    × IsMarked (ms_all_entries disk ascii_platform tree_new key_y []).1
    × IsMarked (ms_all_subdirs disk tree_new key_y).1
    × IsMarked (ms_dir_exists disk tree_new key_y).1
    × IsMarked (markup_tree_sync disk (λ path. false) tree_new).dir
    × IsMarked (ms_clear_cache disk (λ path. false) tree_new)
operations-IsMarked_example =
    operations-IsMarked disk ascii_platform tree_new 5 key_y seven none none [] true (λ path. false)
      tree_new-IsMarked

with_y-IsMarked : IsMarked with_y
with_y-IsMarked = operations-IsMarked_example.2

tree_sync-saves_example :
    saves_of (markup_tree_sync disk (λ path. true) with_y).actions ≡ dirty [] with_y
tree_sync-saves_example = tree_sync-saves disk (λ path. true) with_y with_y-IsMarked

tree_sync-ok_example :
    (markup_tree_sync disk (λ path. false) with_y).ok ≡ all_saved (λ path. false) (dirty [] with_y)
tree_sync-ok_example = tree_sync-ok disk (λ path. false) with_y with_y-IsMarked

valid_y : key_check key_y ≡ none
unfolding key_check valid_key valid_key_loop is_invalid_char
valid_y = refl

markup_readback_example :
    (n : Option Bytes) × (sources_query_value
        (sources_set_value
          (markup_source ascii_platform disk 5 [] tree_new ∷ [])
          key_y
          seven).sources
        key_y
        []
        true
        true
      ≡ found seven n true)
markup_readback_example =
    markup_readback ascii_platform disk 5 [] tree_new key_y seven [] true true valid_y refl refl

abbrev texts : List LocalSchemaInfo
texts =
    record { locale = codes "el"; short_desc = none; long_desc = none; default_value = null }
    ∷ record { locale = c_locale; short_desc = none; long_desc = none; default_value = null }
    ∷ []

scan_locales-first_for_example :
    scan_locales (codes "fr" ∷ codes "el" ∷ []) texts (record { best = none; c = none })
    ≡ record { best = first_for (codes "fr" ∷ codes "el" ∷ []) texts; c = local_for c_locale texts }
scan_locales-first_for_example = scan_locales-first_for (codes "fr") (codes "el" ∷ []) texts
