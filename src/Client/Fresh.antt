-- ===== src/Client/Fresh.antt =====
-- What `get` answers from the cache, and what it asks the engine for.
use gconf_dbus.Prelude.{
  ◌≡◌, refl, ◌∙◌, Bool, true, not, ◌||◌, Option, none, some, List, ◌∷◌, arith, ◌⊎◌, inl, inr,
}
use mathlib.Core.Bool.{false≢true}
use gconf_dbus.CString.{Bytes, bytes_eq, bytes_eq_refl}
use gconf_dbus.Platform.{Platform}
use gconf_dbus.Keys.{key_is_below}
use gconf_dbus.Keys.Order.{key_is_below_antisym}
use gconf_dbus.Sources.{GConfError}
use gconf_dbus.Value.{GConfValue}
use gconf_dbus.Value.Entry.{GConfEntry, entry_copy}
use gconf_dbus.Client.{Dir, Engine, is_none}
use gconf_dbus.Client.Covered.{IsName}
use gconf_dbus.Client.Cache.{
  gconf_client_lookup, cache_found, gconf_client_cache, evict, gconf_client_set, gconf_client_unset,
  gconf_client_recursive_unset, remove_key_from_cache, remove_key_from_cache_recursively, Got, get,
  get_found, get_answer, or_default, key_being_monitored,
}
use gconf_dbus.Client.Cached.{lookup-remove_where}

-- The engine answers for a key with an entry that has the key.
abbrev pub HasKey : {E : Type 0} → Bytes → E × (GConfEntry ⊎ GConfError) → Type 0
HasKey key (e, inl entry) = entry.key ≡ key
HasKey key (e, inr err) = Unit

pub record IsKeyed {E : Type 0} (eng : Engine E) : Type 0 where
  pub keyed : (e : E) (key : Bytes) → HasKey key (eng.get_entry e key)

module _ (p : Platform) {E : Type 0} (eng : Engine E) (ds : List Dir) (key : Bytes)
    (use_default : Bool) where
  -- The next call of `get` has the same answer, whatever the engine is then.
  pub record Answered (g : Got E) : Type 0 where
    pub again :
        (e : E)
        → get p eng ds g.cache key use_default e
          ≡ some (record { entry = g.entry; cache = g.cache; engine = e; error = none })

  -- `get` returns, and what it returns without an error it returns again.
  pub record Returned (r : Option (Got E)) : Type 0 where
    pub got : Got E
    pub returned : r ≡ some got
    pub answered : is_none got.error ≡ true → Answered got

  found_again :
      (entry : GConfEntry) (cache : List GConfEntry)
      → gconf_client_lookup cache key ≡ some entry
      → (e e' : E)
      → Answered (record {
        entry = or_default use_default entry;
        cache = cache;
        engine = e';
        error = none;
      })
  unfolding get get_found
  found_again entry cache h e e' = record { again = λ e''. rw h refl }

  answer-Returned :
      (cache : List GConfEntry) (a : E × (GConfEntry ⊎ GConfError))
      → gconf_client_lookup cache key ≡ none
      → key_being_monitored ds key ≡ true
      → HasKey key a
      → Returned (get_answer p eng ds cache key use_default a)
  unfolding get_answer gconf_client_cache cache_found
  answer-Returned cache (e, inr err) h m k = record {
    got = record { entry = none; cache = cache; engine = e; error = some err };
    returned = refl;
    answered = λ q. absurd (false≢true q);
  }
  answer-Returned cache (e, inl entry) h m k = record {
    got = record {
      entry = or_default use_default entry;
      cache = entry_copy entry ∷ cache;
      engine = e;
      error = none;
    };
    returned = rw (m, k, h) refl;
    answered = λ q.
        found_again entry (entry_copy entry ∷ cache) (ground (arith, bytes_eq_refl key, k)) e e;
  }

  found-Returned :
      (law : IsKeyed eng) (cache : List GConfEntry) (e : E) (found : Option GConfEntry)
      → gconf_client_lookup cache key ≡ found
      → key_being_monitored ds key ≡ true
      → Returned (get_found p eng ds cache key use_default e found)
  unfolding get_found
  found-Returned law cache e none h m =
      answer-Returned cache (eng.get_entry e key) h m (law.keyed e key)
  found-Returned law cache e (some entry) h m = record {
    got = record { entry = or_default use_default entry; cache = cache; engine = e; error = none };
    returned = refl;
    answered = λ q. found_again entry cache h e e;
  }

  -- For a monitored key, and an engine that answers a key with an entry that has the key, `get`
  -- returns; and when it has returned without an error, the next call returns the same entry from
  -- the cache, and changes neither the cache nor the engine.
  pub get-Returned :
      (law : IsKeyed eng) (cache : List GConfEntry) (e : E)
      → key_being_monitored ds key ≡ true
      → Returned (get p eng ds cache key use_default e)
  unfolding get
  get-Returned law cache e m = found-Returned law cache e (gconf_client_lookup cache key) refl m

module _ {E : Type 0} (eng : Engine E) where
  evict-lookup :
      (f : List GConfEntry → List GConfEntry) (key : Bytes) (cache : List GConfEntry)
      → (a : E × Option GConfError) → is_none (evict eng f cache a).2 ≡ true
      → gconf_client_lookup (f cache) key ≡ none
      → gconf_client_lookup (evict eng f cache a).0 key ≡ none
  evict-lookup f key cache (e, none) q h = h
  evict-lookup f key cache (e, some err) q h = absurd (false≢true q)

  removed-lookup :
      (key : Bytes) (cache : List GConfEntry)
      → gconf_client_lookup (remove_key_from_cache key cache) key ≡ none
  removed-lookup key cache =
      lookup-remove_where (λ k. bytes_eq k key) key cache ∙ ground (arith, bytes_eq_refl key)

  below_removed :
      (key below : Bytes)
      → IsName key
      → IsName below
      → key_is_below key below ≡ true
      → (not (key_is_below below key) || bytes_eq below key) ≡ true
  below_removed key below i j h =
      ground (arith, key_is_below_antisym key below i j h, bytes_eq_refl key)

  removed_below-lookup :
      (key below : Bytes) (cache : List GConfEntry)
      → IsName key
      → IsName below
      → key_is_below key below ≡ true
      → gconf_client_lookup (remove_key_from_cache_recursively key cache) below ≡ none
  removed_below-lookup key below cache i j h =
      lookup-remove_where (λ k. not (key_is_below k key) || bytes_eq k key) below cache
      ∙ ground (arith, below_removed key below i j h)

  module _ (p : Platform) (ds : List Dir) (use_default : Bool) where
    -- `get` goes to the engine.
    abbrev pub Asks : Bytes → List GConfEntry → Type 0
    Asks key cache =
        (e : E)
        → get p eng ds cache key use_default e
          ≡ get_answer p eng ds cache key use_default (eng.get_entry e key)

    missing-Asks :
        (key : Bytes) (cache : List GConfEntry)
        → gconf_client_lookup cache key ≡ none
        → Asks key cache
    unfolding get get_found
    missing-Asks key cache h e = rw h refl

    pub set-Asks :
        (key : Bytes) (val : GConfValue) (cache : List GConfEntry) (e : E)
        → is_none (gconf_client_set eng key val cache e).2 ≡ true
        → Asks key (gconf_client_set eng key val cache e).0
    unfolding gconf_client_set
    set-Asks key val cache e q = missing-Asks key _ (
        evict-lookup (remove_key_from_cache key) key cache (eng.set e key val) q
          (removed-lookup key cache))

    pub unset-Asks :
        (key : Bytes) (cache : List GConfEntry) (e : E)
        → is_none (gconf_client_unset eng key cache e).2 ≡ true
        → Asks key (gconf_client_unset eng key cache e).0
    unfolding gconf_client_unset
    unset-Asks key cache e q = missing-Asks key _ (
        evict-lookup (remove_key_from_cache key) key cache (eng.unset e key) q
          (removed-lookup key cache))

    -- After a recursive unset without an error, `get` asks the engine for every key at the one
    -- unset or below it; the keys are not empty.
    pub recursive_unset-Asks :
        (key below : Bytes) (cache : List GConfEntry) (e : E)
        → IsName key
        → IsName below
        → key_is_below key below ≡ true
        → is_none (gconf_client_recursive_unset eng key cache e).2 ≡ true
        → Asks below (gconf_client_recursive_unset eng key cache e).0
    unfolding gconf_client_recursive_unset
    recursive_unset-Asks key below cache e i j h q = missing-Asks below _ (
        evict-lookup (remove_key_from_cache_recursively key) below cache (eng.recursive_unset e key)
          q (removed_below-lookup key below cache i j h))
