-- ===== src/Listeners/Tests.antt =====
-- Runs of the operations, and the theorems at a table with one listener.
use gconf_dbus.Prelude.{◌≡◌, refl, none, some, [], ◌∷◌, arith}
use gconf_dbus.CString.{Bytes, codes, strcmp}
use gconf_dbus.Keys.{
  key_is_below, below_prefix, is_root, is_invalid_char, valid_key, valid_key_loop, valid_key_result,
}
use gconf_dbus.Keys.Valid.{IsComponent, key_of}
use gconf_dbus.Listeners.Tree.{
  insert_at, insert_child, remove_at, remove_child, remove_listener, prune, listeners_at,
  collect_child,
}
use gconf_dbus.Listeners.Order.{IsSorted, AreSorted}
use gconf_dbus.Listeners.Insert.{insert_at-IsSorted}
use gconf_dbus.Listeners.Notify.{Added}
use gconf_dbus.Listeners.Table.{
  LTable, NextCnxn, get_index, set_index, ltable_remove, ltable_notify, listeners_add, root,
}
use gconf_dbus.Listeners.Ids.{HasIds, the_listener}
use gconf_dbus.Listeners.Remove.{Without}
use gconf_dbus.Listeners.Removed.{HasListener, notify-remove_below}
use gconf_dbus.Listeners.Notified.{notify-add_below}

abbrev apps : Bytes
apps = codes "apps"

abbrev foo : Bytes
foo = codes "foo"

apps-IsComponent : IsComponent apps
unfolding is_invalid_char
apps-IsComponent = ground arith

foo-IsComponent : IsComponent foo
unfolding is_invalid_char
foo-IsComponent = ground arith

-- A listener at "/foo", of index 1.
abbrev busy : LTable
busy = record {
  tree = some (insert_at (foo ∷ []) (the_listener 1 70) (root none));
  listeners = none ∷ some (foo ∷ []) ∷ [];
  active_listeners = 1;
  next_cnxn = 2;
  removed_indices = [];
}

busy-IsSorted : IsSorted (root busy.tree)
unfolding IsSorted AreSorted
busy-IsSorted = insert_at-IsSorted (foo ∷ []) (the_listener 1 70) (root none) tt

busy-HasIds : HasIds busy
busy-HasIds = record { positive = omega arith; recycled = tt }

-- The array is one place short of the last index of 24 bits.
abbrev full : LTable
full = record {
  tree = none;
  listeners = [];
  active_listeners = 0;
  next_cnxn = 16777215;
  removed_indices = [];
}

-- Removing the only listener empties the tree, and its index is kept for the next one.
remove_last :
    ltable_remove busy 1
    ≡ some (record {
      tree = none;
      listeners = none ∷ none ∷ [];
      active_listeners = 0;
      next_cnxn = 2;
      removed_indices = 1 ∷ [];
    })
unfolding ltable_remove get_index set_index listeners_at collect_child insert_at insert_child
    remove_at remove_child remove_listener prune strcmp
remove_last = refl

-- A number with the right index and another byte is refused.
remove_stale : ltable_remove busy 16777217 ≡ some busy
unfolding ltable_remove get_index listeners_at collect_child insert_at insert_child strcmp
remove_stale = refl

foo-valid : valid_key (codes "/foo") ≡ valid_key_result
unfolding valid_key valid_key_loop is_invalid_char
foo-valid = refl

notify-add_below_example :
    (n : NextCnxn) × (listeners_add busy 7 (key_of (apps ∷ [])) 80 ≡ some n)
    × IsSorted (root n.table.tree)
    × Added
        (the_listener n.cnxn 80)
        (ltable_notify busy (key_of (apps ∷ foo ∷ [])))
        (ltable_notify n.table (key_of (apps ∷ foo ∷ [])))
unfolding key_is_below below_prefix is_root
notify-add_below_example =
    notify-add_below busy 7 80 (apps ∷ []) (apps ∷ foo ∷ []) busy-HasIds (omega arith) busy-IsSorted
      (apps-IsComponent, tt) (apps-IsComponent, (foo-IsComponent, tt)) refl

busy-HasListener : HasListener busy 1 (foo ∷ []) (root busy.tree)
unfolding get_index listeners_at collect_child insert_at insert_child strcmp
busy-HasListener = record {
  in_array = refl;
  in_tree = refl;
  sorted = busy-IsSorted;
  at_node = refl;
}

notify-remove_below_example :
    (lt : LTable) × (ltable_remove busy 1 ≡ some lt)
    × (lt.removed_indices ≡ 1 ∷ [])
    × Without 1
        (ltable_notify busy (key_of (foo ∷ apps ∷ [])))
        (ltable_notify lt (key_of (foo ∷ apps ∷ [])))
unfolding key_is_below below_prefix is_root
notify-remove_below_example =
    notify-remove_below busy 1 (foo ∷ []) (root busy.tree) busy-HasListener (foo ∷ apps ∷ [])
      (foo-IsComponent, tt) (foo-IsComponent, (apps-IsComponent, tt)) refl
