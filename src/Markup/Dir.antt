-- ===== src/Markup/Dir.antt =====
-- Directories of the markup tree: loading, looking up and making entries and subdirectories, and the
-- marks for what has to be written. A directory is given by its path, the innermost name first. The
-- trees are those with a file %gconf.xml in each directory, not merged ones (%gconf-tree.xml).
use gconf_dbus.Prelude.{
  Bool, true, false, not, ◌&&◌, ◌||◌, Option, none, some, List, [], ◌∷◌, ◌++◌, if◌then◌else◌,
}
use gconf_dbus.CString.{Bytes, bytes_eq, begins}
use gconf_dbus.Markup.Entry.{MarkupEntry, entry_new}

pub record DirInfo : Type 0 where
  pub name : Bytes
  pub entries_loaded : Bool
  pub entries_need_save : Bool
  pub subdirs_loaded : Bool
  pub some_subdir_needs_sync : Bool

mutual
  pub data MarkupDir : Type 0 where
    make_dir : DirInfo → List MarkupEntry → MarkupDirs → MarkupDir

  pub data MarkupDirs : Type 0 where
    no_dirs : MarkupDirs
    more_dirs : MarkupDir → MarkupDirs → MarkupDirs

-- The files: what the parser makes of the %gconf.xml of a directory, the names in a directory (none
-- where it cannot be opened), and whether a directory has a %gconf.xml.
pub record Files : Type 0 where
  pub parsed : List Bytes → List MarkupEntry
  pub listing : List Bytes → List Bytes
  pub has_file : List Bytes → Bool

abbrev pub dir_name : MarkupDir → Bytes
dir_name (make_dir i es ds) = i.name

-- `markup_dir_new`, of a directory that is on the disk.
abbrev pub dir_new : Bytes → MarkupDir
dir_new name =
    make_dir
      (record {
        name = name;
        entries_loaded = false;
        entries_need_save = false;
        subdirs_loaded = false;
        some_subdir_needs_sync = false;
      })
      [] no_dirs

-- That of `markup_dir_ensure_subdir`.
abbrev pub fresh_dir : Bytes → MarkupDir
fresh_dir name =
    make_dir
      (record {
        name = name;
        entries_loaded = true;
        entries_need_save = true;
        subdirs_loaded = true;
        some_subdir_needs_sync = false;
      })
      [] no_dirs

abbrev pub entries_read : DirInfo → DirInfo
entries_read i = record {
  name = i.name;
  entries_loaded = true;
  entries_need_save = i.entries_need_save;
  subdirs_loaded = i.subdirs_loaded;
  some_subdir_needs_sync = i.some_subdir_needs_sync;
}

abbrev pub subdirs_read : DirInfo → DirInfo
subdirs_read i = record {
  name = i.name;
  entries_loaded = i.entries_loaded;
  entries_need_save = i.entries_need_save;
  subdirs_loaded = true;
  some_subdir_needs_sync = i.some_subdir_needs_sync;
}

-- markup_dir_set_entries_need_save
abbrev pub need_save : DirInfo → DirInfo
need_save i = record {
  name = i.name;
  entries_loaded = i.entries_loaded;
  entries_need_save = true;
  subdirs_loaded = i.subdirs_loaded;
  some_subdir_needs_sync = i.some_subdir_needs_sync;
}

-- The mark that `markup_dir_queue_sync` puts on a directory above.
abbrev pub mark : Bool → DirInfo → DirInfo
mark queued i = record {
  name = i.name;
  entries_loaded = i.entries_loaded;
  entries_need_save = i.entries_need_save;
  subdirs_loaded = i.subdirs_loaded;
  some_subdir_needs_sync = queued || i.some_subdir_needs_sync;
}

module _ (files : Files) where
  abbrev is_dir_of : List Bytes → Bytes → Bool
  is_dir_of path name =
      not (begins name b'.') && not (begins name b'%') && files.has_file (name ∷ path)

  -- The loop of `load_subdirs`, each name put in front of those before it.
  unfoldable pub new_subdirs : List Bytes → List Bytes → MarkupDirs → MarkupDirs
  new_subdirs path [] ds = ds
  new_subdirs path (n ∷ names) ds =
      new_subdirs path names (if is_dir_of path n then more_dirs (dir_new n) ds else ds)

  unfoldable pub load_entries : List Bytes → MarkupDir → MarkupDir
  load_entries path (make_dir i es ds) =
      make_dir (entries_read i) (if i.entries_loaded then es else files.parsed path ++ es) ds

  -- A directory whose subdirectories are not loaded has none, by an assertion.
  unfoldable pub load_subdirs : List Bytes → MarkupDir → MarkupDir
  load_subdirs path (make_dir i es ds) =
      make_dir (subdirs_read i) es
        (if i.subdirs_loaded then ds else new_subdirs path (files.listing path) no_dirs)

-- What an operation at a directory leaves: its result, none where there is no directory, the
-- directory, and whether the directories above it are to be marked.
pub record Step (A : Type 0) : Type 0 where
  pub result : Option A
  pub dir : MarkupDir
  pub queued : Bool

-- Whether a child was found, and then the children with it changed.
pub data Descent (A : Type 0) : Type 0 where
  missing : Descent A
  found : Option A → MarkupDirs → Bool → Descent A

module _ {A : Type 0} where
  abbrev pub past : MarkupDir → Descent A → Descent A
  past d missing = missing
  past d (found r ds queued) = found r (more_dirs d ds) queued

  unfoldable pub change_child : (MarkupDir → Step A) → Bytes → MarkupDirs → Descent A
  change_child op name no_dirs = missing
  change_child op name (more_dirs d ds) =
      let later = change_child op name ds in
      if bytes_eq (dir_name d) name
      then (let s = op d in found s.result (more_dirs s.dir ds) s.queued)
      else past d later

  abbrev pub made : DirInfo → List MarkupEntry → MarkupDirs → Step A → Step A
  made i es ds s = record {
    result = s.result;
    dir = make_dir (mark s.queued i) es (more_dirs s.dir ds);
    queued = s.queued;
  }

  abbrev pub entered :
      Bool
      → (MarkupDir → Step A)
      → Bytes
      → DirInfo
      → List MarkupEntry
      → MarkupDirs
      → Descent A
      → Step A
  entered create op name i es ds (found r ds' queued) = record {
    result = r;
    dir = make_dir (mark queued i) es ds';
    queued = queued;
  }
  entered true op name i es ds missing = made i es ds (op (fresh_dir name))
  entered false op name i es ds missing = record {
    result = none;
    dir = make_dir i es ds;
    queued = false;
  }

  abbrev pub enter : Bool → (MarkupDir → Step A) → Bytes → MarkupDir → Step A
  enter create op name (make_dir i es ds) = entered create op name i es ds (change_child op name ds)

  -- `markup_tree_get_dir_internal` from a directory at `path`, and an operation at the directory
  -- that it finds or makes.
  unfoldable pub walk :
      Files
      → Bool
      → (List Bytes → MarkupDir → Step A)
      → List Bytes
      → List Bytes
      → MarkupDir
      → Step A
  walk files create op path [] d = op path d
  walk files create op path (c ∷ cs) d =
      enter create (walk files create op (c ∷ path) cs) c (load_subdirs files path d)

unfoldable pub find_entry : Bytes → List MarkupEntry → Option MarkupEntry
find_entry name [] = none
find_entry name (e ∷ es) =
    let later = find_entry name es in if bytes_eq name e.name then some e else later

-- `markup_dir_lookup_entry`
abbrev lookup_in : Bytes → MarkupDir → Step (Option MarkupEntry)
lookup_in name (make_dir i es ds) = record {
  result = some (find_entry name es);
  dir = make_dir i es ds;
  queued = false;
}

unfoldable pub lookup_entry : Files → Bytes → List Bytes → MarkupDir → Step (Option MarkupEntry)
lookup_entry files name path d = lookup_in name (load_entries files path d)

-- An operation on an entry, which is none where it does nothing.
pub data EntryChange : Type 0 where
  absent unchanged : EntryChange
  changed : List MarkupEntry → EntryChange

abbrev pub change_of : List MarkupEntry → Option MarkupEntry → EntryChange
change_of es none = unchanged
change_of es (some e) = changed (e ∷ es)

abbrev pub keep : MarkupEntry → EntryChange → EntryChange
keep e absent = absent
keep e unchanged = unchanged
keep e (changed es) = changed (e ∷ es)

unfoldable pub change_entry :
    (MarkupEntry → Option MarkupEntry) → Bytes → List MarkupEntry → EntryChange
change_entry f name [] = absent
change_entry f name (e ∷ es) =
    let later = change_entry f name es in
    if bytes_eq name e.name then change_of es (f e) else keep e later

abbrev pub or_same : MarkupEntry → Option MarkupEntry → MarkupEntry
or_same e none = e
or_same e (some e') = e'

abbrev pub apply_change :
    (MarkupEntry → Option MarkupEntry)
    → Bytes
    → DirInfo
    → List MarkupEntry
    → MarkupDirs
    → EntryChange
    → Step (Unit {0})
apply_change f name i es ds absent = record {
  result = some tt;
  dir = make_dir (need_save i) (or_same (entry_new name) (f (entry_new name)) ∷ es) ds;
  queued = true;
}
apply_change f name i es ds unchanged = record {
  result = some tt;
  dir = make_dir i es ds;
  queued = false;
}
apply_change f name i es ds (changed es') = record {
  result = some tt;
  dir = make_dir (need_save i) es' ds;
  queued = true;
}

abbrev pub update_in : (MarkupEntry → Option MarkupEntry) → Bytes → MarkupDir → Step (Unit {0})
update_in f name (make_dir i es ds) = apply_change f name i es ds (change_entry f name es)

-- `markup_dir_ensure_entry`, and the operation on the entry that it finds or makes.
unfoldable pub update_entry :
    Files → (MarkupEntry → Option MarkupEntry) → Bytes → List Bytes → MarkupDir → Step (Unit {0})
update_entry files f name path d = update_in f name (load_entries files path d)
