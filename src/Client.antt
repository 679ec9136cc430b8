-- ===== src/Client.antt =====
-- gconf/gconf-client.c: the directories that a client watches, and its cache of entries.
-- The two hash tables are lists, in the order in which they are walked. The engine of the client is
-- a parameter, a table of functions over a state `E` of its own; an identifier of 0 comes with an
-- error. Signals and the trace are not modelled.
pub mod Covered
pub mod Steps
pub mod Dirs
pub mod Cache
pub mod Cached
pub mod Fresh
pub mod Flush
pub mod Flushed
pub mod Monitored
mod Tests
use gconf_dbus.Prelude.{
  ℕ, ◌+◌, ◌-◌, ◌%◌, ◌^◌, Bool, true, false, not, ◌&&◌, Option, none, some, List, [], ◌∷◌, ◌==◌,
  if◌then◌else◌, ◌⊎◌,
}
use gconf_dbus.CString.{Bytes, bytes_eq}
use gconf_dbus.Keys.{key_is_below, valid_key, Validity, valid_key_result, why_invalid}
use gconf_dbus.Sources.{GConfError}
use gconf_dbus.Value.{GConfValue}
use gconf_dbus.Value.Entry.{GConfEntry}

pub record Dir : Type 0 where
  pub name : Bytes
  pub notify_id : ℕ
  pub add_count : ℕ

pub record Engine (E : Type 0) : Type 0 where
  -- gconf_engine_notify_add: the identifier and the error
  pub notify_add : E → Bytes → E × ℕ × Option GConfError
  pub notify_remove : E → ℕ → E
  -- gconf_engine_get_entry, in the current locale: an entry or an error
  pub get_entry : E → Bytes → E × (GConfEntry ⊎ GConfError)
  -- gconf_engine_set
  pub set : E → Bytes → GConfValue → E × Option GConfError
  -- gconf_engine_unset and gconf_engine_recursive_unset
  pub unset : E → Bytes → E × Option GConfError
  pub recursive_unset : E → Bytes → E × Option GConfError

abbrev pub is_none : {A : Type 0} → Option A → Bool
is_none none = true
is_none (some a) = false

abbrev pub is_valid : Validity → Bool
is_valid valid_key_result = true
is_valid (why_invalid w) = false

abbrev pub dir_new : Bytes → ℕ → Dir
dir_new name notify_id = record { name = name; notify_id = notify_id; add_count = 0 }

-- g_hash_table_lookup (client->dir_hash, name)
abbrev pub find_dir : Bytes → List Dir → Option Dir
find_dir name [] = none
find_dir name (d ∷ ds) = if bytes_eq d.name name then some d else find_dir name ds

-- g_hash_table_remove (client->dir_hash, name)
abbrev pub remove_name : Bytes → List Dir → List Dir
remove_name name [] = []
remove_name name (d ∷ ds) =
    let rest = remove_name name ds in if bytes_eq d.name name then rest else d ∷ rest

-- The directory of a name gets another notification or another count.
abbrev pub change_dir : (Dir → Dir) → Bytes → List Dir → List Dir
change_dir f name [] = []
change_dir f name (d ∷ ds) = (if bytes_eq d.name name then f d else d) ∷ change_dir f name ds

abbrev pub set_notify_id : ℕ → Dir → Dir
set_notify_id id d = record d { notify_id = id }

abbrev pub set_add_count : ℕ → Dir → Dir
set_add_count n d = record d { add_count = n }

abbrev pub names : List Dir → List Bytes
names [] = []
names (d ∷ ds) = d.name ∷ names ds

-- The client's part of OverlapData, one directory of the table, and the engine.
pub record Visit (E : Type 0) : Type 0 where
  pub lower_dir : Option Bytes
  pub dir : Dir
  pub engine : E

pub record Overlaps (E : Type 0) : Type 0 where
  pub lower_dir : Option Bytes
  pub dirs : List Dir
  pub engine : E

-- What an operation leaves: the table of directories, the engine, and the error.
pub record Watched (E : Type 0) : Type 0 where
  pub dirs : List Dir
  pub engine : E
  pub error : Option GConfError

module _ {E : Type 0} (eng : Engine E) where
  -- gconf_engine_notify_remove, where there is a notification
  abbrev pub drop_notify : ℕ → E → E
  drop_notify id e = if id == 0 then e else eng.notify_remove e id

  -- Without GCONF_ENABLE_DEBUG.
  unfoldable pub foreach_setup_overlap : Bytes → Option Bytes → Dir → E → Visit E
  foreach_setup_overlap dirname lower d e =
      if is_none lower && (not (d.notify_id == 0) && key_is_below d.name dirname)
      then record { lower_dir = some d.name; dir = d; engine = e }
      else if not (d.notify_id == 0) && key_is_below dirname d.name
      then record {
        lower_dir = lower;
        dir = set_notify_id 0 d;
        engine = eng.notify_remove e d.notify_id;
      }
      else record { lower_dir = lower; dir = d; engine = e }

  unfoldable pub overlaps_loop : Bytes → Option Bytes → List Dir → E → Overlaps E
  overlaps_loop dirname lower [] e = record { lower_dir = lower; dirs = []; engine = e }
  overlaps_loop dirname lower (d ∷ ds) e =
      let here = foreach_setup_overlap dirname lower d e in
      let rest = overlaps_loop dirname here.lower_dir ds here.engine in
      record { lower_dir = rest.lower_dir; dirs = here.dir ∷ rest.dirs; engine = rest.engine }

  unfoldable pub setup_overlaps : Bytes → List Dir → E → Overlaps E
  setup_overlaps dirname ds e = overlaps_loop dirname none ds e

  -- The end of gconf_client_add_dir's first block: `n` is what the engine said.
  unfoldable pub insert_dir : Bytes → List Dir → E × ℕ × Option GConfError → Watched E
  insert_dir dirname ds (e, id, none) = record {
    dirs = (if id == 0 then ds else record (dir_new dirname id) { add_count = 1 } ∷ ds);
    engine = e;
    error = none;
  }
  insert_dir dirname ds (e, id, some err) = record {
    dirs = ds;
    engine = e;
    error = (if id == 0 then some err else none);
  }

  -- The second argument is the directory that `setup_overlaps` found.
  unfoldable pub add_new_dir : Bytes → Option Bytes → List Dir → E → Watched E
  unfolding insert_dir
  add_new_dir dirname none ds e = insert_dir dirname ds (eng.notify_add e dirname)
  add_new_dir dirname (some l) ds e = record {
    dirs = record (dir_new dirname 0) { add_count = 1 } ∷ ds;
    engine = e;
    error = none;
  }

  unfoldable pub add_found_dir : Bytes → Option Dir → List Dir → E → Watched E
  add_found_dir dirname none ds e =
      let o = setup_overlaps dirname ds e in add_new_dir dirname o.lower_dir o.dirs o.engine
  add_found_dir dirname (some d) ds e = record {
    dirs = change_dir (set_add_count ((d.add_count + 1) % 2 ^ 32)) dirname ds;
    engine = e;
    error = none;
  }

  -- `gconf_client_add_dir` but for the preloading, which leaves the directories alone.
  unfoldable pub gconf_client_add_dir : Bytes → List Dir → E → Watched E
  gconf_client_add_dir dirname ds e =
      if is_valid (valid_key dirname)
      then add_found_dir dirname (find_dir dirname ds) ds e
      else record { dirs = ds; engine = e; error = none }

  abbrev pub notified : Bytes → List Dir → E × ℕ × Option GConfError → Watched E
  notified name ds (e, id, error) = record {
    dirs = change_dir (set_notify_id id) name ds;
    engine = e;
    error = error;
  }

  unfoldable pub notify_unless : Bytes → Option Bytes → List Dir → E → Watched E
  notify_unless name none ds e = notified name ds (eng.notify_add e name)
  notify_unless name (some l) ds e = record { dirs = ds; engine = e; error = none }

  unfoldable pub notify_dir : Bytes → Option Dir → List Dir → E → Watched E
  notify_dir name none ds e = record { dirs = ds; engine = e; error = none }
  notify_dir name (some d) ds e =
      let o = setup_overlaps name ds e in
      if d.notify_id == 0
      then notify_unless name o.lower_dir o.dirs o.engine
      else record { dirs = ds; engine = e; error = none }

  -- `foreach_add_notifies`, for the directory that has the name.
  unfoldable pub foreach_add_notifies : Bytes → List Dir → E → Watched E
  foreach_add_notifies name ds e = notify_dir name (find_dir name ds) ds e

  -- After an error the rest of the table is passed over.
  unfoldable pub add_notifies : List Bytes → Watched E → Watched E
  add_notifies [] w = w
  add_notifies (name ∷ ns) w =
      let next = add_notifies ns (foreach_add_notifies name w.dirs w.engine) in
      if is_none w.error then next else w

  unfoldable pub gconf_client_real_remove_dir : Dir → List Dir → E → Watched E
  gconf_client_real_remove_dir d ds e =
      let rest = remove_name d.name ds in
      add_notifies (names rest)
        (record { dirs = rest; engine = drop_notify d.notify_id e; error = none })

  unfoldable pub remove_found_dir : Bytes → Option Dir → List Dir → E → Watched E
  remove_found_dir dirname none ds e = record { dirs = ds; engine = e; error = none }
  remove_found_dir dirname (some d) ds e =
      if d.add_count == 0
      then record { dirs = ds; engine = e; error = none }
      else if d.add_count - 1 == 0
      then gconf_client_real_remove_dir d ds e
      else record {
        dirs = change_dir (set_add_count (d.add_count - 1)) dirname ds;
        engine = e;
        error = none;
      }

  -- The directories' part; `forget_dir` is the cache's.
  unfoldable pub gconf_client_remove_dir : Bytes → List Dir → E → Watched E
  gconf_client_remove_dir dirname ds e = remove_found_dir dirname (find_dir dirname ds) ds e
