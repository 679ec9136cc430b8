-- ===== src/Client/Tests.antt =====
-- Tests of the client, and the instances of its properties.
mod Queue
use gconf_dbus.Prelude.{
  ℕ, suc, ◌≡◌, refl, ◌↔◌, ℤ, Ordering, Bool, true, false, none, some, List, [], ◌∷◌, arith, All,
  inl,
}
use gconf_dbus.CString.{Bytes, codes, strcmp}
use gconf_dbus.Keys.{
  key_is_below, is_root, below_prefix, valid_key, valid_key_loop, is_invalid_char,
}
use gconf_dbus.Platform.Ascii.{ascii_platform}
use gconf_dbus.Sources.{failed}
use gconf_dbus.Value.{int_value, bool_value, just, value_type}
use gconf_dbus.Value.Order.{gconf_value_compare, compare_bools}
use gconf_dbus.Value.Entry.{GConfEntry, entry_new, gconf_entry_equal}
use gconf_dbus.Client.{
  Dir, Engine, is_none, names, foreach_setup_overlap, overlaps_loop, setup_overlaps, insert_dir,
  add_new_dir, add_found_dir, gconf_client_add_dir, notify_unless, notify_dir, foreach_add_notifies,
  add_notifies, gconf_client_real_remove_dir, remove_found_dir, gconf_client_remove_dir,
}
use gconf_dbus.Client.Covered.{covered, IsCovered, IsName}
use gconf_dbus.Client.Steps.{IsEngine}
use gconf_dbus.Client.Dirs.{add_dir-IsCovered, remove_dir-IsCovered}
use gconf_dbus.Client.Cache.{
  gconf_client_lookup, remove_key_from_cache_recursively, cache_found, gconf_client_cache,
  monitored_loop, key_being_monitored, get, get_found, get_answer, gconf_client_recursive_unset,
  forget_dir, notify_from_server_callback,
}
use gconf_dbus.Client.Monitored.{watched, key_being_monitored_iff}
use gconf_dbus.Client.Cached.{Updated, gconf_client_cache-lookup}
use gconf_dbus.Client.Flush.{Flushed, flush_key, flush_loop, gconf_client_flush_notifies}
use gconf_dbus.Client.Flushed.{IsSort, Notified, flush_notifies-Notified}
use gconf_dbus.Client.Fresh.{IsKeyed, Returned, Asks, get-Returned, recursive_unset-Asks}

-- An engine that counts its notifications, and has the number 7 at every key.
abbrev pub counting : Engine ℕ
counting = record {
  notify_add = λ e name. (suc e, suc e, none);
  notify_remove = λ e id. e;
  get_entry = λ e key. (e, inl (entry_new key (just (int_value (ℤ.pos 7)))));
  set = λ e key val. (e, none);
  unset = λ e key. (e, none);
  recursive_unset = λ e key. (e, none);
}

abbrev refusing : Engine ℕ
refusing = record counting { notify_add = λ e name. (e, 0, some failed) }

counting-IsEngine : IsEngine counting
counting-IsEngine = record { answers = λ e name. ground arith }

refusing-IsEngine : IsEngine refusing
refusing-IsEngine = record { answers = λ e name. refl }

pub counting-IsKeyed : IsKeyed counting
counting-IsKeyed = record { keyed = λ e key. refl }

abbrev pub a_b : List Dir
a_b = record { name = codes "/a/b"; notify_id = 1; add_count = 1 } ∷ []

abbrev a_and_b : List Dir
a_and_b =
    record { name = codes "/a"; notify_id = 2; add_count = 1 }
    ∷ record { name = codes "/a/b"; notify_id = 0; add_count = 1 }
    ∷ []

-- A directory above takes over the notification of one below.
added : (gconf_client_add_dir counting (codes "/a") a_b 1).dirs ≡ a_and_b
unfolding gconf_client_add_dir add_found_dir add_new_dir insert_dir setup_overlaps overlaps_loop
    foreach_setup_overlap key_is_below is_root below_prefix valid_key valid_key_loop is_invalid_char
added = refl

-- The removal of the one above gives it back.
removed :
    (gconf_client_remove_dir counting (codes "/a") a_and_b 2).dirs
    ≡ record { name = codes "/a/b"; notify_id = 3; add_count = 1 } ∷ []
unfolding gconf_client_remove_dir remove_found_dir gconf_client_real_remove_dir add_notifies
    foreach_add_notifies notify_dir notify_unless setup_overlaps overlaps_loop foreach_setup_overlap
    key_is_below is_root below_prefix
removed = refl

-- A directory that cannot be added leaves the one below it with no notification.
lost : covered (codes "/a/b") (gconf_client_add_dir refusing (codes "/a") a_b 1).dirs ≡ false
unfolding gconf_client_add_dir add_found_dir add_new_dir insert_dir setup_overlaps overlaps_loop
    foreach_setup_overlap key_is_below is_root below_prefix valid_key valid_key_loop is_invalid_char
lost = refl

abbrev cached : List GConfEntry
cached =
    entry_new (codes "/x") (just (int_value (ℤ.pos 1)))
    ∷ entry_new (codes "/a/b/c") (just (int_value (ℤ.pos 2)))
    ∷ []

-- A recursive unset of a key evicts a key elsewhere.
elsewhere :
    gconf_client_lookup (remove_key_from_cache_recursively (codes "/a/b") cached) (codes "/x")
    ≡ none
unfolding key_is_below is_root below_prefix
elsewhere = refl

-- The last removal of a directory evicts what is below it.
forgotten :
    forget_dir (codes "/a/b") a_b cached ≡ entry_new (codes "/x") (just (int_value (ℤ.pos 1))) ∷ []
unfolding forget_dir key_is_below is_root below_prefix
forgotten = refl

a_b-IsCovered : IsCovered a_b
unfolding key_is_below is_root below_prefix
a_b-IsCovered = ((λ e. absurd (ground arith), refl), tt)

a_and_b-IsCovered : IsCovered a_and_b
unfolding key_is_below is_root below_prefix
a_and_b-IsCovered = ((λ e. absurd (ground arith), refl), ((λ e. absurd (ground arith), refl), tt))

added_well : is_none (gconf_client_add_dir counting (codes "/a") a_b 1).error ≡ true
unfolding gconf_client_add_dir add_found_dir add_new_dir insert_dir setup_overlaps overlaps_loop
    foreach_setup_overlap key_is_below is_root below_prefix valid_key valid_key_loop is_invalid_char
added_well = refl

removed_well : is_none (gconf_client_remove_dir counting (codes "/a") a_and_b 2).error ≡ true
unfolding gconf_client_remove_dir remove_found_dir gconf_client_real_remove_dir add_notifies
    foreach_add_notifies notify_dir notify_unless setup_overlaps overlaps_loop foreach_setup_overlap
    key_is_below is_root below_prefix
removed_well = refl

add_dir-IsCovered_example : IsCovered (gconf_client_add_dir counting (codes "/a") a_b 1).dirs
add_dir-IsCovered_example =
    add_dir-IsCovered counting counting-IsEngine (codes "/a") a_b 1 a_b-IsCovered added_well

remove_dir-IsCovered_example :
    IsCovered (gconf_client_remove_dir counting (codes "/a") a_and_b 2).dirs
remove_dir-IsCovered_example =
    remove_dir-IsCovered counting counting-IsEngine (codes "/a") a_and_b 2 a_and_b-IsCovered
      removed_well

a_b-IsName : All IsName (names a_b)
a_b-IsName = (λ e. absurd (ground arith), tt)

key_being_monitored_iff_example :
    (key_being_monitored a_b (codes "/a/b/c") ≡ true) ↔ (watched (codes "/a/b/c") a_b ≡ true)
key_being_monitored_iff_example = key_being_monitored_iff a_b (codes "a/b/c") a_b-IsName

monitored : key_being_monitored a_b (codes "/a/b/c") ≡ true
unfolding key_being_monitored monitored_loop
monitored = refl

not_monitored : key_being_monitored a_b (codes "/a/bc") ≡ false
unfolding key_being_monitored monitored_loop
not_monitored = refl

abbrev pub x_as : Bool → GConfEntry
x_as b = entry_new (codes "/x") (just (bool_value b))

cached_again :
    gconf_client_cache ascii_platform true (x_as true) cached
    ≡ some (true, x_as true ∷ entry_new (codes "/a/b/c") (just (int_value (ℤ.pos 2))) ∷ [])
unfolding gconf_client_cache cache_found gconf_entry_equal gconf_value_compare value_type strcmp
cached_again = refl

-- The server tells of a value that the cache has.
unchanged :
    notify_from_server_callback ascii_platform (x_as true) (x_as true ∷ [])
    ≡ some (none, x_as true ∷ [])
unfolding notify_from_server_callback gconf_client_cache cache_found gconf_entry_equal
    gconf_value_compare value_type strcmp compare_bools
unchanged = refl

gconf_client_cache-lookup_example :
    Updated ascii_platform true
      (x_as true)
      cached
      (true, x_as true ∷ entry_new (codes "/a/b/c") (just (int_value (ℤ.pos 2))) ∷ [])
gconf_client_cache-lookup_example =
    gconf_client_cache-lookup ascii_platform true (x_as true) cached
      (true, x_as true ∷ entry_new (codes "/a/b/c") (just (int_value (ℤ.pos 2))) ∷ []) cached_again

get-Returned_example :
    Returned ascii_platform counting a_b
      (codes "/a/b/c")
      true
      (get ascii_platform counting a_b [] (codes "/a/b/c") true 5)
get-Returned_example =
    get-Returned ascii_platform counting a_b (codes "/a/b/c") true counting-IsKeyed [] 5 monitored

a_b-above : key_is_below (codes "/a/b") (codes "/a/b/c") ≡ true
unfolding key_is_below is_root below_prefix
a_b-above = refl

unset_well : is_none (gconf_client_recursive_unset counting (codes "/a/b") cached 5).2 ≡ true
unfolding gconf_client_recursive_unset
unset_well = refl

recursive_unset-Asks_example :
    Asks counting ascii_platform a_b true
      (codes "/a/b/c")
      (gconf_client_recursive_unset counting (codes "/a/b") cached 5).0
recursive_unset-Asks_example =
    recursive_unset-Asks counting ascii_platform a_b true (codes "/a/b") (codes "/a/b/c") cached 5
      (λ e. absurd (ground arith)) (λ e. absurd (ground arith)) a_b-above unset_well
