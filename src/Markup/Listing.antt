-- ===== src/Markup/Listing.antt =====
-- What the markup backend lists: `all_entries`, `all_subdirs`, `dir_exists`; and `clear_cache`.
use gconf_dbus.Prelude.{Bool, true, false, Option, none, some, List, [], ◌∷◌, if◌then◌else◌}
use gconf_dbus.CString.{Bytes}
use gconf_dbus.Platform.{Platform}
use gconf_dbus.Listeners.Table.{dirnames_of}
use gconf_dbus.Value.Entry.{GConfEntry}
use gconf_dbus.Markup.Entry.{MarkupEntry}
use gconf_dbus.Markup.Entry.Local.{entry_get_value}
use gconf_dbus.Markup.Dir.{
  MarkupDir, MarkupDirs, make_dir, no_dirs, more_dirs, dir_name, Files, Step, walk, load_entries,
  load_subdirs,
}
use gconf_dbus.Markup.Backend.{tree_new}
use gconf_dbus.Markup.Sync.{Synced, markup_tree_sync}

-- markup_tree_lookup_dir, and an operation on the directory
abbrev pub lookup_dir :
    {A : Type 0} → Files → (List Bytes → MarkupDir → Step A) → MarkupDir → Bytes → Step A
lookup_dir files op t key = walk files false op [] (dirnames_of key) t

-- g_slist_prepend in a loop
unfoldable pub prepended {ℓ} : {A B : Type ℓ} → (A → B) → List A → List B → List B
prepended f [] out = out
prepended f (x ∷ xs) out = prepended f xs (f x ∷ out)

-- Entries have relative names here.
abbrev pub entry_from : Platform → List Bytes → MarkupEntry → GConfEntry
entry_from p locales e = record {
  key = e.name;
  value = entry_get_value p e locales;
  schema_name = e.schema_name;
  is_default = false;
  is_writable = true;
}

abbrev entries_in : Platform → List Bytes → MarkupDir → Step (List GConfEntry)
entries_in p locales (make_dir i es ds) = record {
  result = some (prepended (entry_from p locales) es []);
  dir = make_dir i es ds;
  queued = false;
}

unfoldable pub list_entries :
    Platform → Files → List Bytes → List Bytes → MarkupDir → Step (List GConfEntry)
list_entries p files locales path d = entries_in p locales (load_entries files path d)

unfoldable pub dir_names : MarkupDirs → List Bytes → List Bytes
dir_names no_dirs out = out
dir_names (more_dirs d ds) out = dir_names ds (dir_name d ∷ out)

abbrev subdirs_in : MarkupDir → Step (List Bytes)
subdirs_in (make_dir i es ds) = record {
  result = some (dir_names ds []);
  dir = make_dir i es ds;
  queued = false;
}

unfoldable pub list_subdirs : Files → List Bytes → MarkupDir → Step (List Bytes)
list_subdirs files path d = subdirs_in (load_subdirs files path d)

abbrev pub here : List Bytes → MarkupDir → Step (Unit {0})
here path d = record { result = some tt; dir = d; queued = false }

abbrev pub or_empty : {A : Type 0} → Option (List A) → List A
or_empty none = []
or_empty (some xs) = xs

abbrev is_there : Option (Unit {0}) → Bool
is_there none = false
is_there (some u) = true

module _ (files : Files) where
  unfoldable pub ms_all_entries :
      Platform → MarkupDir → Bytes → List Bytes → List GConfEntry × MarkupDir
  ms_all_entries p t key locales =
      let s = lookup_dir files (list_entries p files locales) t key in (or_empty s.result, s.dir)

  unfoldable pub ms_all_subdirs : MarkupDir → Bytes → List Bytes × MarkupDir
  ms_all_subdirs t key =
      let s = lookup_dir files (list_subdirs files) t key in (or_empty s.result, s.dir)

  unfoldable pub ms_dir_exists : MarkupDir → Bytes → Bool × MarkupDir
  ms_dir_exists t key = let s = lookup_dir files here t key in (is_there s.result, s.dir)

  -- The tree is made anew where all was written.
  abbrev rebuilt : Synced → MarkupDir
  rebuilt s = if s.ok then tree_new else s.dir

  unfoldable pub ms_clear_cache : (List Bytes → Bool) → MarkupDir → MarkupDir
  ms_clear_cache success t = rebuilt (markup_tree_sync files success t)
