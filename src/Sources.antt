-- ===== src/Sources.antt =====
-- gconf/gconf-sources.c and gconf/gconf-sources.h: sources, and the stack of sources that a
-- configuration is looked up in.
-- A backend (gconf/gconf-backend.h) is a parameter: its table of functions over a state `S` of its
-- own. Reads do not change that state. An error location is always given, as the daemon does.
pub mod Query
pub mod Write
pub mod Rounds
pub mod Found
pub mod Default
pub mod SetLoop
pub mod Set
pub mod Unset
pub mod Readback
mod Tests
use gconf_dbus.Prelude.{
  ℕ, Bool, true, false, ◌&&◌, Option, none, some, List, ◌∷◌, [], if◌then◌else◌,
}
use gconf_dbus.CString.{Bytes}
use gconf_dbus.Value.{GConfValue, MaybeValue, null, just}
use gconf_dbus.Keys.{valid_key, Validity, valid_key_result, why_invalid}

pub data GConfError : Type 0 where
  bad_key is_dir overridden no_writable_database failed : GConfError
  backend_error : ℕ → GConfError

-- `gconf_set_error`, and `g_set_error`: the deepest error is kept.
abbrev pub set_error : Option GConfError → GConfError → Option GConfError
set_error none e = some e
set_error (some d) e = some d

-- What a query leaves: the value, `*schema_name` where a location for it was given, and the error.
pub record Answer : Type 0 where
  pub value : MaybeValue
  pub schema_name : Option Bytes
  pub error : Option GConfError

-- GConfBackendVTable. The Boolean argument of `query_value` tells whether there is a location for
-- the name of the schema. `query_metainfo` is reduced to `schema`, `none` for no information too.
pub record VTable (S : Type 0) : Type 0 where
  pub readable : Option (S → Bytes → Bool × Option GConfError)
  pub writable : Option (S → Bytes → Bool × Option GConfError)
  pub query_value : S → Bytes → List Bytes → Bool → Answer
  pub query_metainfo : S → Bytes → Option Bytes × Option GConfError
  pub set_value : S → Bytes → GConfValue → S × Option GConfError
  pub unset_value : S → Bytes → Option Bytes → S × Option GConfError

-- The flags are GCONF_SOURCE_ALL_WRITEABLE, ALL_READABLE and NEVER_WRITEABLE.
pub record GConfSource (S : Type 0) : Type 0 where
  pub all_writeable : Bool
  pub all_readable : Bool
  pub never_writeable : Bool
  pub address : Bytes
  pub vtable : VTable S
  pub store : S

-- An optional function of the table, which is NULL where a backend lacks it.
abbrev pub call :
    {S : Type 0}
    → Option (S → Bytes → Bool × Option GConfError)
    → S
    → Bytes
    → Bool × Option GConfError
call none s key = (false, none)
call (some f) s key = f s key

abbrev pub answer_if : Bool × Option GConfError → Answer → Answer
answer_if (true, none) a = a
answer_if (true, some e) a = record { value = null; schema_name = none; error = some e }
answer_if (false, e) a = record { value = null; schema_name = none; error = e }

abbrev pub info_if :
    Bool × Option GConfError → Option Bytes × Option GConfError → Option Bytes × Option GConfError
info_if (true, none) m = m
info_if (true, some e) m = (none, some e)
info_if (false, e) m = (none, e)

module _ {S : Type 0} where
  -- SOURCE_READABLE
  unfoldable pub source_readable : GConfSource S → Bytes → Bool × Option GConfError
  source_readable src key =
      if src.all_readable then (true, none) else call src.vtable.readable src.store key

  unfoldable pub source_is_writable : GConfSource S → Bytes → Bool × Option GConfError
  source_is_writable src key =
      if src.never_writeable
      then (false, none)
      else if src.all_writeable
      then (true, none)
      else call src.vtable.writable src.store key

  unfoldable pub source_query_value : GConfSource S → Bytes → List Bytes → Bool → Answer
  source_query_value src key locales wanted =
      answer_if (source_readable src key) (src.vtable.query_value src.store key locales wanted)

  unfoldable pub source_query_metainfo : GConfSource S → Bytes → Option Bytes × Option GConfError
  source_query_metainfo src key =
      info_if (source_readable src key) (src.vtable.query_metainfo src.store key)

  -- A source with a changed store.
  abbrev pub with_store : GConfSource S → S → GConfSource S
  with_store src s = record {
    all_writeable = src.all_writeable;
    all_readable = src.all_readable;
    never_writeable = src.never_writeable;
    address = src.address;
    vtable = src.vtable;
    store = s;
  }

-- `gconf_key_check`, `none` where the key is accepted.
unfoldable pub key_check : Bytes → Option GConfError
key_check key = elim (valid_key key) [ valid_key_result ↦ none | why_invalid r ↦ some bad_key ]
