-- ===== src/Client/Flush.antt =====
-- gconf/gconf-client.c: `gconf_client_flush_notifies`, where no listener changes the client. The
-- sort of GLib is a parameter. Within the cache an entry is known by its key.
use gconf_dbus.Prelude.{
  Bool, true, false, Option, none, some, List, [], ◌∷◌, ◌++◌, if◌then◌else◌, ◌>>=◌,
}
use gconf_dbus.CString.{Bytes, bytes_eq}
use gconf_dbus.Platform.{Platform}
use gconf_dbus.Value.Entry.{GConfEntry}
use gconf_dbus.Client.{Dir, Engine}
use gconf_dbus.Client.Cache.{gconf_client_lookup, Got, get, key_being_monitored}

-- `last_entry` by its key; the entries told of, in order.
pub record Flushed (E : Type 0) : Type 0 where
  pub last : Option Bytes
  pub notified : List GConfEntry
  pub cache : List GConfEntry
  pub engine : E

abbrev pub is_last : Option Bytes → Bytes → Bool
is_last none key = false
is_last (some last) key = bytes_eq last key

-- An entry that was asked for, or none.
abbrev pub told : {E : Type 0} → Option Bytes → Option GConfEntry → Got E → Flushed E
told last none g = record { last = last; notified = []; cache = g.cache; engine = g.engine }
told last (some entry) g = record {
  last = none;
  notified = entry ∷ [];
  cache = g.cache;
  engine = g.engine;
}

abbrev pub follow : {E : Type 0} → Flushed E → Flushed E → Flushed E
follow t f = record f { notified = t.notified ++ f.notified }

module _ (p : Platform) {E : Type 0} (eng : Engine E) (ds : List Dir) where
  -- One round of the loop, with what the cache has for the key.
  unfoldable pub flush_key :
      Option Bytes → List GConfEntry → E → Bytes → Option GConfEntry → Option (Flushed E)
  flush_key last cache e key (some entry) =
      if is_last last entry.key
      then some (record { last = last; notified = []; cache = cache; engine = e })
      else some (record { last = some entry.key; notified = entry ∷ []; cache = cache; engine = e })
  flush_key last cache e key none =
      if key_being_monitored ds key
      then (get p eng ds cache key true e >>= λ g. some (told last g.entry g))
      else some (record { last = last; notified = []; cache = cache; engine = e })

  unfoldable pub flush_loop : Option Bytes → List GConfEntry → E → List Bytes → Option (Flushed E)
  flush_loop last cache e [] =
      some (record { last = last; notified = []; cache = cache; engine = e })
  flush_loop last cache e (key ∷ keys) =
      flush_key last cache e key (gconf_client_lookup cache key) >>= λ t.
      (flush_loop t.last t.cache t.engine keys >>= λ f. some (follow t f))

  unfoldable pub gconf_client_flush_notifies :
      (List Bytes → List Bytes) → List Bytes → List GConfEntry → E → Option (Flushed E)
  gconf_client_flush_notifies g_slist_sort notify_list cache e =
      flush_loop none cache e (g_slist_sort notify_list)
