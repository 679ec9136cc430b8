-- ===== src/Markup/Sync.antt =====
-- `markup_dir_sync`, which writes what has to be written and removes what is of no use any more.
-- Making a directory on the disk is taken to be a part of saving its file.
use gconf_dbus.Prelude.{
  Bool, true, false, not, ◌&&◌, ◌||◌, Option, none, List, [], ◌∷◌, ◌++◌, map, if◌then◌else◌,
}
use gconf_dbus.CString.{Bytes}
use gconf_dbus.Value.{
  GConfValueType, schema_null, schema_value, MaybeValue, null, just, GConfSchema, make_schema,
  value_type,
}
use gconf_dbus.Value.Order.{type_number}
use gconf_dbus.Prelude.{◌==◌}
use gconf_dbus.Markup.Entry.{LocalSchemaInfo, MarkupEntry}
use gconf_dbus.Markup.Dir.{
  DirInfo, MarkupDir, MarkupDirs, make_dir, no_dirs, more_dirs, dir_name, Files, load_entries,
  load_subdirs,
}
use gconf_dbus.Markup.Marks.{dir_needs_sync}

-- What is done to the files: the entries of a directory are written, or the file and the directory
-- are removed.
pub data Action : Type 0 where
  save : List Bytes → List MarkupEntry → Action
  remove : List Bytes → Action

abbrev schema_type : GConfSchema → GConfValueType
schema_type (make_schema t l c d locale owner short long default) = t

abbrev default_is_dead : GConfSchema → MaybeValue → Bool
default_is_dead sc null = false
default_is_dead sc (just d) = not (type_number (schema_type sc) == type_number (value_type d))

-- The texts that no longer fit the value of the entry.
unfoldable pub is_dead : MaybeValue → LocalSchemaInfo → Bool
is_dead null lsi = false
is_dead (just schema_null) lsi = false
is_dead (just (schema_value sc)) lsi = default_is_dead sc lsi.default_value
is_dead (just v) lsi = true

unfoldable pub kept_schemas : MaybeValue → List LocalSchemaInfo → List LocalSchemaInfo
kept_schemas v [] = []
kept_schemas v (lsi ∷ rest) =
    let later = kept_schemas v rest in if is_dead v lsi then later else lsi ∷ later

unfoldable pub clean_old_local_schemas : MarkupEntry → MarkupEntry
clean_old_local_schemas e = record {
  name = e.name;
  value = e.value;
  schema_name = e.schema_name;
  local_schemas = kept_schemas e.value e.local_schemas;
  mod_time = e.mod_time;
  mod_user = e.mod_user;
}

abbrev useless_parts : MaybeValue → List LocalSchemaInfo → Option Bytes → Bool
useless_parts null [] none = true
useless_parts v ls n = false

abbrev pub is_useless : MarkupEntry → Bool
is_useless e = useless_parts e.value e.local_schemas e.schema_name

-- `delete_useless_entries`: the entries that are kept, and whether some were not.
unfoldable pub useful_entries : List MarkupEntry → List MarkupEntry
useful_entries [] = []
useful_entries (e ∷ es) = let later = useful_entries es in if is_useless e then later else e ∷ later

unfoldable pub some_useless : List MarkupEntry → Bool
some_useless [] = false
some_useless (e ∷ es) = is_useless e || some_useless es

abbrev is_empty_dir : List MarkupEntry → MarkupDirs → Bool
is_empty_dir [] no_dirs = true
is_empty_dir es ds = false

-- A directory that is loaded and has nothing in it.
abbrev pub is_useless_dir : MarkupDir → Bool
is_useless_dir (make_dir i es ds) = i.entries_loaded && i.subdirs_loaded && is_empty_dir es ds

-- `delete_useless_subdirs`
unfoldable pub useful_dirs : MarkupDirs → MarkupDirs
useful_dirs no_dirs = no_dirs
useful_dirs (more_dirs d ds) =
    let later = useful_dirs ds in if is_useless_dir d then later else more_dirs d later

unfoldable pub useless_dirs : List Bytes → MarkupDirs → List Action
useless_dirs path no_dirs = []
useless_dirs path (more_dirs d ds) =
    let later = useless_dirs path ds in
    if is_useless_dir d then remove (dir_name d ∷ path) ∷ later else later

abbrev pub some_action : List Action → Bool
some_action [] = false
some_action (a ∷ rest) = true

-- What a call leaves: its result, the directory, and what was done to the files, in order.
pub record Synced : Type 0 where
  pub ok : Bool
  pub dir : MarkupDir
  pub actions : List Action

pub record SyncedDirs : Type 0 where
  pub one_failed : Bool
  pub dirs : MarkupDirs
  pub actions : List Action

-- After the entries of the directory are saved.
pub record Saved : Type 0 where
  pub info : DirInfo
  pub entries : List MarkupEntry
  pub some_useless_entries : Bool
  pub actions : List Action

abbrev pub save_done : Bool → DirInfo → DirInfo
save_done success i = record {
  name = i.name;
  entries_loaded = i.entries_loaded;
  entries_need_save = i.entries_need_save && not success;
  subdirs_loaded = i.subdirs_loaded;
  some_subdir_needs_sync = i.some_subdir_needs_sync;
}

abbrev pub subdirs_done : Bool → DirInfo → DirInfo
subdirs_done one_failed i = record {
  name = i.name;
  entries_loaded = i.entries_loaded;
  entries_need_save = i.entries_need_save;
  subdirs_loaded = i.subdirs_loaded;
  some_subdir_needs_sync = i.some_subdir_needs_sync && one_failed;
}

abbrev pub stopped : DirInfo → List MarkupEntry → MarkupDirs → List Action → Synced
stopped i es ds acts = record { ok = false; dir = make_dir i es ds; actions = acts }

-- `success` tells whether `save_tree` succeeds for a directory.
module _ (files : Files) (success : List Bytes → Bool) where
  abbrev pub save_entries : List Bytes → DirInfo → List MarkupEntry → Saved
  save_entries path i es =
      if i.entries_need_save
      then record {
        info = save_done (success path) i;
        entries = useful_entries es;
        some_useless_entries = some_useless es;
        actions = save path (useful_entries es) ∷ [];
      }
      else record { info = i; entries = es; some_useless_entries = false; actions = [] }

  -- Loading what is not loaded, where something was deleted.
  abbrev pub reload : List Bytes → Bool → Bool → DirInfo → MarkupDir → MarkupDir
  reload path some_useless_entries some_useless_subdirs i d =
      let d' =
        if some_useless_entries && not i.subdirs_loaded then load_subdirs files path d else d in
      if some_useless_subdirs && not i.entries_loaded then load_entries files path d' else d'

  abbrev pub finished : MarkupDir → List Action → Synced
  finished d acts = record { ok = not (dir_needs_sync d); dir = d; actions = acts }

  abbrev pub delete_useless_subdirs :
      List Bytes → DirInfo → List MarkupEntry → MarkupDirs → Bool → List Action → Synced
  delete_useless_subdirs path i es ds some_useless_entries acts =
      finished
        (reload path some_useless_entries (some_action (useless_dirs path ds)) i
          (make_dir i es (useful_dirs ds)))
        (acts ++ useless_dirs path ds)

  abbrev pub sync_subdirs : List Bytes → Saved → MarkupDirs → SyncedDirs → Synced
  sync_subdirs path s ds below =
      if s.info.some_subdir_needs_sync
      then (if s.info.subdirs_loaded
          then delete_useless_subdirs path (subdirs_done below.one_failed s.info) s.entries
              below.dirs s.some_useless_entries (s.actions ++ below.actions)
          else stopped s.info s.entries ds s.actions)
      else delete_useless_subdirs path s.info s.entries ds s.some_useless_entries s.actions

  abbrev pub sync_with : List Bytes → DirInfo → List MarkupEntry → MarkupDirs → SyncedDirs → Synced
  sync_with path i es ds below =
      if i.entries_need_save && not i.entries_loaded
      then stopped i es ds []
      else sync_subdirs path (save_entries path i es) ds below

  abbrev pub sync_child : MarkupDir → Synced → SyncedDirs → SyncedDirs
  sync_child d s rest =
      if dir_needs_sync d
      then record {
        one_failed = not s.ok || rest.one_failed;
        dirs = more_dirs s.dir rest.dirs;
        actions = s.actions ++ rest.actions;
      }
      else record {
        one_failed = rest.one_failed;
        dirs = more_dirs d rest.dirs;
        actions = rest.actions;
      }

  unfoldable mutual
    pub markup_dir_sync : List Bytes → MarkupDir → Synced
    markup_dir_sync path (make_dir i es ds) =
        sync_with path i (map clean_old_local_schemas es) ds (sync_dirs path ds)

    pub sync_dirs : List Bytes → MarkupDirs → SyncedDirs
    sync_dirs path no_dirs = record { one_failed = false; dirs = no_dirs; actions = [] }
    sync_dirs path (more_dirs d ds) =
        sync_child d (markup_dir_sync (dir_name d ∷ path) d) (sync_dirs path ds)

  -- `markup_tree_sync`, and FALSE with an error where not all was written.
  unfoldable pub markup_tree_sync : MarkupDir → Synced
  markup_tree_sync t =
      if dir_needs_sync t then markup_dir_sync [] t else record { ok = true; dir = t; actions = [] }
