-- ===== src/Client/Tests/Queue.antt =====
-- Tests of the queue of notifications.
use gconf_dbus.Prelude.{◌≡◌, refl, ℤ, Ordering, true, some, List, [], ◌∷◌, All}
use gconf_dbus.CString.{Bytes, codes, strcmp}
use gconf_dbus.Platform.Ascii.{ascii_platform}
use gconf_dbus.Value.{int_value, just}
use gconf_dbus.Value.Entry.{entry_new}
use gconf_dbus.Client.Cache.{
  cache_found, gconf_client_cache, monitored_loop, key_being_monitored, get, get_found, get_answer,
}
use gconf_dbus.Client.Flush.{flush_key, flush_loop, gconf_client_flush_notifies}
use gconf_dbus.Client.Flushed.{IsSort, Notified, flush_notifies-Notified}
use gconf_dbus.Client.Tests.{counting, a_b, x_as, counting-IsKeyed}

-- A sort by insertion.
-- The comparison of `k` and `x`, and the rest with `k` put into it.
abbrev place : Ordering → Bytes → Bytes → List Bytes → List Bytes → List Bytes
place Ordering.gt k x xs rest = x ∷ rest
place o k x xs rest = k ∷ x ∷ xs

abbrev insert_key : Bytes → List Bytes → List Bytes
insert_key k [] = k ∷ []
insert_key k (x ∷ xs) = place (strcmp k x) k x xs (insert_key k xs)

abbrev sort_keys : List Bytes → List Bytes
sort_keys [] = []
sort_keys (k ∷ ks) = insert_key k (sort_keys ks)

place-keeps :
    (P : Bytes → Type 0) (o : Ordering) (k x : Bytes) (xs rest : List Bytes)
    → (All P rest → P k × All P xs)
    → All P (place o k x xs rest)
    → P k × All P (x ∷ xs)
place-keeps P Ordering.gt k x xs rest f h = let r = f h.1 in (r.0, (h.0, r.1))
place-keeps P Ordering.lt k x xs rest f h = h
place-keeps P Ordering.eq k x xs rest f h = h

insert-keeps :
    (P : Bytes → Type 0) (k : Bytes) (xs : List Bytes) → All P (insert_key k xs) → P k × All P xs
insert-keeps P k [] h = h
insert-keeps P k (x ∷ xs) h =
    place-keeps P (strcmp k x) k x xs (insert_key k xs) (insert-keeps P k xs) h

sort-keeps : (P : Bytes → Type 0) (xs : List Bytes) → All P (sort_keys xs) → All P xs
sort-keeps P [] h = h
sort-keeps P (x ∷ xs) h = let r = insert-keeps P x (sort_keys xs) h in (r.0, sort-keeps P xs r.1)

sort_keys-IsSort : IsSort sort_keys
sort_keys-IsSort = record { keeps = sort-keeps }

-- A key that is cached is told of once, however often it is queued.
once :
    gconf_client_flush_notifies ascii_platform counting a_b sort_keys
      (codes "/x" ∷ codes "/a/b/c" ∷ codes "/x" ∷ [])
      (x_as true ∷ [])
      5
    ≡ some (record {
      last = some (codes "/x");
      notified = entry_new (codes "/a/b/c") (just (int_value (ℤ.pos 7))) ∷ x_as true ∷ [];
      cache = entry_new (codes "/a/b/c") (just (int_value (ℤ.pos 7))) ∷ x_as true ∷ [];
      engine = 5;
    })
unfolding gconf_client_flush_notifies flush_loop flush_key strcmp key_being_monitored monitored_loop
    get get_found get_answer gconf_client_cache cache_found
once = refl

-- A key that is not cached is told of twice where it is queued twice.
twice :
    gconf_client_flush_notifies ascii_platform counting a_b sort_keys
      (codes "/a/b/c" ∷ codes "/a/b/c" ∷ [])
      []
      5
    ≡ some (record {
      last = some (codes "/a/b/c");
      notified =
          entry_new (codes "/a/b/c") (just (int_value (ℤ.pos 7)))
          ∷ entry_new (codes "/a/b/c") (just (int_value (ℤ.pos 7)))
          ∷ [];
      cache = entry_new (codes "/a/b/c") (just (int_value (ℤ.pos 7))) ∷ [];
      engine = 5;
    })
unfolding gconf_client_flush_notifies flush_loop flush_key strcmp key_being_monitored monitored_loop
    get get_found get_answer gconf_client_cache cache_found
twice = refl

flush_notifies-Notified_example :
    Notified ascii_platform counting a_b
      (x_as true ∷ [])
      (codes "/x" ∷ codes "/a/b/c" ∷ codes "/x" ∷ [])
      (gconf_client_flush_notifies ascii_platform counting a_b sort_keys
        (codes "/x" ∷ codes "/a/b/c" ∷ codes "/x" ∷ [])
        (x_as true ∷ [])
        5)
flush_notifies-Notified_example =
    flush_notifies-Notified ascii_platform counting a_b counting-IsKeyed sort_keys sort_keys-IsSort
      (codes "/x" ∷ codes "/a/b/c" ∷ codes "/x" ∷ []) (x_as true ∷ []) 5
