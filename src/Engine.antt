-- ===== src/Engine.antt =====
-- gconf/gconf-dbus.c: the connections of an engine, which the client library's notifications go
-- through: the tables by directory and by number, `gconf_engine_notify_add`,
-- `gconf_engine_notify_remove`, and the loop of `handle_notify`.
-- The daemon is a parameter, a table of functions over a state `S` of its own. A connection is known
-- by its number. The caller is taken to pass a place for the error.
pub mod Tables
pub mod Notify
mod Tests
use gconf_dbus.Prelude.{
  ℕ, ◌+◌, ◌%◌, ◌^◌, Bool, true, false, Option, none, some, List, [], ◌∷◌, ◌==◌, if◌then◌else◌,
}
use gconf_dbus.CString.{Bytes, bytes_eq}
use gconf_dbus.Sources.{GConfError}
use gconf_dbus.Value.{MaybeValue}
use gconf_dbus.Value.Entry.{GConfEntry, entry_new}

-- The user data stands for the function too.
pub record GConfCnxn : Type 0 where
  pub namespace_section : Bytes
  pub client_id : ℕ
  pub user_data : ℕ

pub record CnxnsData : Type 0 where
  pub dir : Bytes
  pub cnxns : List GConfCnxn

-- `next_id` is the static variable of gconf_cnxn_new, which all engines share.
pub record GConfEngine : Type 0 where
  pub is_local : Bool
  pub notify_dirs : List CnxnsData
  pub notify_ids : List GConfCnxn
  pub next_id : ℕ

-- The answer to AddNotify, with the search for the database; RemoveNotify has none.
pub record Server (S : Type 0) : Type 0 where
  pub add_notify : S → Bytes → S × Option GConfError
  pub remove_notify : S → Bytes → S

abbrev pub gconf_cnxn_lookup_dir : Bytes → List CnxnsData → List GConfCnxn
gconf_cnxn_lookup_dir dir [] = []
gconf_cnxn_lookup_dir dir (d ∷ ds) =
    if bytes_eq d.dir dir then d.cnxns else gconf_cnxn_lookup_dir dir ds

abbrev pub gconf_cnxn_lookup_id : ℕ → List GConfCnxn → Option GConfCnxn
gconf_cnxn_lookup_id id [] = none
gconf_cnxn_lookup_id id (c ∷ cs) = if c.client_id == id then some c else gconf_cnxn_lookup_id id cs

-- g_hash_table_remove (conf->notify_ids, id)
abbrev pub remove_id : ℕ → List GConfCnxn → List GConfCnxn
remove_id id [] = []
remove_id id (c ∷ cs) = let rest = remove_id id cs in if c.client_id == id then rest else c ∷ rest

-- g_hash_table_remove (conf->notify_dirs, dir)
abbrev pub remove_dir : Bytes → List CnxnsData → List CnxnsData
remove_dir dir [] = []
remove_dir dir (d ∷ ds) =
    let rest = remove_dir dir ds in if bytes_eq d.dir dir then rest else d ∷ rest

-- The connection in front of those of its directory, which may be new.
abbrev pub prepend_cnxn : GConfCnxn → Bytes → List CnxnsData → List CnxnsData
prepend_cnxn c dir [] = record { dir = dir; cnxns = c ∷ [] } ∷ []
prepend_cnxn c dir (d ∷ ds) =
    let rest = prepend_cnxn c dir ds in
    if bytes_eq d.dir dir then record d { cnxns = c ∷ d.cnxns } ∷ ds else d ∷ rest

-- g_list_remove (cnxns, cnxn)
abbrev pub list_remove : ℕ → List GConfCnxn → List GConfCnxn
list_remove id [] = []
list_remove id (c ∷ cs) = let rest = list_remove id cs in if c.client_id == id then cs else c ∷ rest

-- The data of a directory with no connection go.
abbrev pub keep_data : Bytes → List GConfCnxn → List CnxnsData → List CnxnsData
keep_data dir [] ds = remove_dir dir ds
keep_data dir (c ∷ cs) ds = record { dir = dir; cnxns = c ∷ cs } ∷ ds

abbrev pub take_cnxn : ℕ → Bytes → List CnxnsData → List CnxnsData
take_cnxn id dir [] = []
take_cnxn id dir (d ∷ ds) =
    let rest = take_cnxn id dir ds in
    if bytes_eq d.dir dir then keep_data d.dir (list_remove id d.cnxns) ds else d ∷ rest

abbrev pub gconf_cnxn_insert : GConfCnxn → GConfEngine → GConfEngine
gconf_cnxn_insert c conf = record conf {
  notify_dirs = prepend_cnxn c c.namespace_section conf.notify_dirs;
  notify_ids = c ∷ remove_id c.client_id conf.notify_ids;
}

abbrev pub gconf_cnxn_remove : GConfCnxn → GConfEngine → GConfEngine
gconf_cnxn_remove c conf = record conf {
  notify_dirs = take_cnxn c.client_id c.namespace_section conf.notify_dirs;
  notify_ids = remove_id c.client_id conf.notify_ids;
}

-- `gconf_cnxn_new`; `next_id` is a `guint`.
abbrev pub gconf_cnxn_new : Bytes → ℕ → GConfEngine → GConfCnxn × GConfEngine
gconf_cnxn_new namespace_section user_data conf = (
  record { namespace_section = namespace_section; client_id = conf.next_id; user_data = user_data },
  record conf { next_id = (conf.next_id + 1) % 2 ^ 32 },
)

-- The engine and the state of the daemon, the identifier, and the error.
pub record Added (S : Type 0) : Type 0 where
  pub conf : GConfEngine
  pub server : S
  pub id : ℕ
  pub error : Option GConfError

abbrev pub after_send : {S : Type 0} → GConfCnxn → GConfEngine → S × Option GConfError → Added S
after_send c conf (s, none) = record { conf = conf; server = s; id = c.client_id; error = none }
after_send c conf (s, some e) = record {
  conf = gconf_cnxn_remove c conf;
  server = s;
  id = 0;
  error = some e;
}

-- `gconf_cnxn_remove` for what `gconf_cnxn_lookup_id` found, and the message to the daemon.
abbrev pub remove_found :
    {S : Type 0} → Server S → Option GConfCnxn → GConfEngine → S → GConfEngine × S
remove_found srv none conf s = (conf, s)
remove_found srv (some c) conf s =
    (gconf_cnxn_remove c conf, srv.remove_notify s c.namespace_section)

module _ {S : Type 0} (srv : Server S) where
  -- On a local engine, the check of the arguments returns 0 with no error.
  unfoldable pub gconf_engine_notify_add : Bytes → ℕ → GConfEngine → S → Added S
  gconf_engine_notify_add section user_data conf s =
      let (c, conf') = gconf_cnxn_new section user_data conf in
      if conf.is_local
      then record { conf = conf; server = s; id = 0; error = none }
      else after_send c (gconf_cnxn_insert c conf') (srv.add_notify s section)

  unfoldable pub gconf_engine_notify_remove : ℕ → GConfEngine → S → GConfEngine × S
  gconf_engine_notify_remove id conf s =
      if conf.is_local
      then (conf, s)
      else remove_found srv (gconf_cnxn_lookup_id id conf.notify_ids) conf s

-- A call of a connection's function.
pub record Call : Type 0 where
  pub cnxn : GConfCnxn
  pub entry : GConfEntry

-- The loop of `handle_notify`.
abbrev pub notify_loop : Bytes → Bytes → MaybeValue → List GConfCnxn → List Call
notify_loop section key value [] = []
notify_loop section key value (c ∷ cs) =
    let rest = notify_loop section key value cs in
    if bytes_eq c.namespace_section section
    then record { cnxn = c; entry = entry_new key value } ∷ rest
    else rest

-- The calls that a notification of the daemon makes; it is handled if there is one.
unfoldable pub handle_notify : Bytes → Bytes → MaybeValue → GConfEngine → List Call
handle_notify section key value conf =
    notify_loop section key value (gconf_cnxn_lookup_dir section conf.notify_dirs)
