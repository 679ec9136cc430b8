-- ===== src/Client/Cache.antt =====
-- gconf/gconf-client.c: the cache of entries: `gconf_client_cache`, `gconf_client_lookup`, `get`, the
-- removals from the cache and the callers that make them, and `notify_from_server_callback`.
use gconf_dbus.Prelude.{
  Bool, true, false, not, ◌&&◌, ◌||◌, Option, none, some, List, [], ◌∷◌, ◌++◌, ◌==◌, if◌then◌else◌,
  ◌⊎◌, inl, inr, ◌>>=◌,
}
use gconf_dbus.CString.{Bytes, bytes_eq}
use gconf_dbus.Platform.{Platform}
use gconf_dbus.Keys.{slash, key_is_below}
use gconf_dbus.Sources.{GConfError}
use gconf_dbus.Value.Entry.{GConfEntry, gconf_entry_equal, entry_copy, entry_set_schema_name}
use gconf_dbus.Value.{GConfValue}
use gconf_dbus.Client.{Dir, Engine, is_none, find_dir}

-- cache_hash: the key of a pair is the key of its entry.
-- `gconf_client_lookup`
abbrev pub gconf_client_lookup : List GConfEntry → Bytes → Option GConfEntry
gconf_client_lookup [] key = none
gconf_client_lookup (x ∷ xs) key = if bytes_eq x.key key then some x else gconf_client_lookup xs key

-- g_hash_table_replace, of a pair that is there
abbrev pub replace_entry : GConfEntry → List GConfEntry → List GConfEntry
replace_entry entry [] = []
replace_entry entry (x ∷ xs) =
    let rest = replace_entry entry xs in if bytes_eq x.key entry.key then entry ∷ xs else x ∷ rest

-- g_hash_table_foreach_remove, with a test on the key
abbrev pub remove_where : (Bytes → Bool) → List GConfEntry → List GConfEntry
remove_where f [] = []
remove_where f (x ∷ xs) = let rest = remove_where f xs in if f x.key then rest else x ∷ rest

-- The new entry as it is put into the cache.
abbrev pub kept_schema : Bool → GConfEntry → GConfEntry → GConfEntry
kept_schema preserve_schema_name old new =
    if preserve_schema_name
    then entry_set_schema_name (entry_copy new) old.schema_name
    else entry_copy new

-- Whether the entries are equal, `none` where a NULL string is compared.
abbrev pub cache_changed :
    Bool → GConfEntry → GConfEntry → List GConfEntry → Bool → Bool × List GConfEntry
cache_changed preserve_schema_name old new cache true = (false, cache)
cache_changed preserve_schema_name old new cache false =
    (true, replace_entry (kept_schema preserve_schema_name old new) cache)

module _ (p : Platform) where
  unfoldable pub cache_found :
      Bool → GConfEntry → List GConfEntry → Option GConfEntry → Option (Bool × List GConfEntry)
  cache_found preserve_schema_name new cache none = some (true, entry_copy new ∷ cache)
  cache_found preserve_schema_name new cache (some old) = do
    same ← gconf_entry_equal p old new
    some (cache_changed preserve_schema_name old new cache same)

  -- Whether the cache has changed, and the cache.
  unfoldable pub gconf_client_cache :
      Bool → GConfEntry → List GConfEntry → Option (Bool × List GConfEntry)
  gconf_client_cache preserve_schema_name new cache =
      cache_found preserve_schema_name new cache (gconf_client_lookup cache new.key)

  -- The key for which a notification is queued, if the cache has changed.
  unfoldable pub notify_from_server_callback :
      GConfEntry → List GConfEntry → Option (Option Bytes × List GConfEntry)
  notify_from_server_callback entry cache = do
    (changed, cache') ← gconf_client_cache true entry cache
    some ((if changed then some entry.key else none), cache')

abbrev pub remove_key_from_cache : Bytes → List GConfEntry → List GConfEntry
remove_key_from_cache key = remove_where (λ cached_key. bytes_eq cached_key key)

-- The test is on the cached key first, then on the key.
abbrev pub remove_key_from_cache_recursively : Bytes → List GConfEntry → List GConfEntry
remove_key_from_cache_recursively key =
    remove_where (λ cached_key. not (key_is_below cached_key key) || bytes_eq cached_key key)

abbrev pub clear_dir_cache : Bytes → List GConfEntry → List GConfEntry
clear_dir_cache dir = remove_where (λ cached_key. key_is_below dir cached_key)

abbrev pub has_dir : Bytes → List Dir → Bool
has_dir name ds = not (is_none (find_dir name ds))

-- What is left when the key is cut off at the slash behind these bytes.
abbrev pub parent_of : Bytes → Bytes
parent_of [] = slash ∷ []
parent_of (c ∷ s) = c ∷ s

-- The loop of `key_being_monitored`, with the bytes before the rest of the key: the last slash
-- comes first.
unfoldable pub monitored_loop : List Dir → Bytes → Bytes → Bool
monitored_loop ds before [] = false
monitored_loop ds before (c ∷ s) =
    let deeper = monitored_loop ds (before ++ c ∷ []) s in
    if c == slash then deeper || has_dir (parent_of before) ds else deeper

-- The key is not empty.
unfoldable pub key_being_monitored : List Dir → Bytes → Bool
key_being_monitored ds key = has_dir key ds || monitored_loop ds [] key

-- What a call leaves that reads an entry.
pub record Got (E : Type 0) : Type 0 where
  pub entry : Option GConfEntry
  pub cache : List GConfEntry
  pub engine : E
  pub error : Option GConfError

-- `gconf_entry_get_is_default (entry) && !use_default`
abbrev pub or_default : Bool → GConfEntry → Option GConfEntry
or_default use_default entry = if entry.is_default && not use_default then none else some entry

module _ (p : Platform) {E : Type 0} (eng : Engine E) where
  -- The end of `get`, with the answer of the engine.
  unfoldable pub get_answer :
      List Dir → List GConfEntry → Bytes → Bool → E × (GConfEntry ⊎ GConfError) → Option (Got E)
  get_answer ds cache key use_default (e, inl entry) =
      if key_being_monitored ds key
      then (gconf_client_cache p false entry cache >>= λ (changed, cache'). some (record {
        entry = or_default use_default entry;
        cache = cache';
        engine = e;
        error = none;
      }))
      else some
          (record { entry = or_default use_default entry; cache = cache; engine = e; error = none })
  get_answer ds cache key use_default (e, inr err) =
      some (record { entry = none; cache = cache; engine = e; error = some err })

  unfoldable pub get_found :
      List Dir → List GConfEntry → Bytes → Bool → E → Option GConfEntry → Option (Got E)
  get_found ds cache key use_default e none =
      get_answer ds cache key use_default (eng.get_entry e key)
  get_found ds cache key use_default e (some entry) = some (record {
    entry = or_default use_default (entry_copy entry);
    cache = cache;
    engine = e;
    error = none;
  })

  unfoldable pub get : List Dir → List GConfEntry → Bytes → Bool → E → Option (Got E)
  get ds cache key use_default e =
      get_found ds cache key use_default e (gconf_client_lookup cache key)

module _ {E : Type 0} (eng : Engine E) where
  abbrev pub evict :
      (List GConfEntry → List GConfEntry)
      → List GConfEntry
      → E × Option GConfError
      → List GConfEntry × E × Option GConfError
  evict f cache (e, none) = (f cache, e, none)
  evict f cache (e, some err) = (cache, e, some err)

  -- `gconf_client_set`, with the value that `gconf_engine_set` is given.
  unfoldable pub gconf_client_set :
      Bytes → GConfValue → List GConfEntry → E → List GConfEntry × E × Option GConfError
  gconf_client_set key val cache e = evict (remove_key_from_cache key) cache (eng.set e key val)

  unfoldable pub gconf_client_unset :
      Bytes → List GConfEntry → E → List GConfEntry × E × Option GConfError
  gconf_client_unset key cache e = evict (remove_key_from_cache key) cache (eng.unset e key)

  unfoldable pub gconf_client_recursive_unset :
      Bytes → List GConfEntry → E → List GConfEntry × E × Option GConfError
  gconf_client_recursive_unset key cache e =
      evict (remove_key_from_cache_recursively key) cache (eng.recursive_unset e key)

abbrev is_last : Option Dir → Bool
is_last none = false
is_last (some d) = d.add_count == 1

-- The cache's part of `gconf_client_remove_dir`.
unfoldable pub forget_dir : Bytes → List Dir → List GConfEntry → List GConfEntry
forget_dir dirname ds cache =
    if is_last (find_dir dirname ds) then clear_dir_cache dirname cache else cache
