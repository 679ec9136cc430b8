-- ===== src/Listeners/Found.antt =====
-- A listener that was added is found by its number.
use gconf_dbus.Prelude.{
  ℕ, ◌<◌, ◌≡◌, refl, ◌∙◌, ap, Bool, ◌||◌, some, List, [], ◌∷◌, ==_refl, if◌then◌else◌,
}
use gconf_dbus.CString.{Bytes}
use gconf_dbus.Keys.{valid_key, valid_key_result}
use gconf_dbus.Listeners.Tree.{
  Listener, Node, make_node, new_node, insert_at, collect_child, listeners_at,
}
use gconf_dbus.Listeners.Order.{IsSorted}
use gconf_dbus.Listeners.Insert.{insert_at-IsSorted, insert_at-Keeps}
use gconf_dbus.Listeners.Notify.{collect-insert_child}
use gconf_dbus.Listeners.Table.{
  LTable, NextCnxn, has_cnxn, data_of, with_location, ltable_get_data, listeners_add, dirnames_of,
  root,
}
use gconf_dbus.Listeners.Ids.{HasIds, the_listener, listeners_add-ok}
use gconf_dbus.Listeners.Removed.{HasListener}

listeners_at-new_node : (d : Bytes) (ds : List Bytes) → listeners_at ds (new_node d) ≡ []
unfolding listeners_at collect_child
listeners_at-new_node d [] = refl
listeners_at-new_node d (e ∷ ds) = refl

listeners_at-insert_at :
    (ds : List Bytes) (l : Listener) (t : Node)
    → IsSorted t
    → listeners_at ds (insert_at ds l t) ≡ l ∷ listeners_at ds t
unfolding listeners_at insert_at IsSorted
listeners_at-insert_at [] l (make_node n ls ch) s = refl
listeners_at-insert_at (d ∷ ds) l (make_node n ls ch) s =
    collect-insert_child (λ xs ys. ys ≡ l ∷ xs) (listeners_at ds) (insert_at ds l) d
      (listeners_at-new_node d ds) (insert_at-Keeps ds l) (λ c sc. listeners_at-insert_at ds l c sc)
      ch s

module _ (lt : LTable) (u : ℕ) (location : Bytes) (x : ℕ) where
  -- A listener that was added is in the table under its number, from which its data and its
  -- location are read. The table has to have good ids, an index to give, and a sorted tree.
  pub get_data-add :
      HasIds lt
      → valid_key location ≡ valid_key_result
      → lt.next_cnxn < 16777215
      → IsSorted (root lt.tree)
      → (n : NextCnxn) × (listeners_add lt u location x ≡ some n)
        × (t : Node) × HasListener n.table n.cnxn (dirnames_of location) t
        × (ltable_get_data n.table n.cnxn ≡ some (x, dirnames_of location))
  unfolding ltable_get_data
  get_data-add ids hv h sorted =
      let (n, added, good) = listeners_add-ok lt u location x ids hv h in
      let ds = dirnames_of location in
      let l = the_listener n.cnxn x in
      let here = listeners_at-insert_at ds l (root lt.tree) sorted in
      let same = ==_refl n.cnxn in
      (
        n,
        added,
        insert_at ds l (root lt.tree),
        record {
          in_array = good.in_array;
          in_tree = good.in_tree;
          sorted = insert_at-IsSorted ds l (root lt.tree) sorted;
          at_node =
              ap (has_cnxn n.cnxn) here
              ∙ ap (λ (b : Bool). b || has_cnxn n.cnxn (listeners_at ds (root lt.tree))) same;
        },
        rw (ltable_get_data, good.in_array, good.in_tree)
            (ap (λ (ls : List Listener). with_location ds (data_of n.cnxn ls)) here
              ∙ ap
                  (λ (b : Bool).
                    with_location ds
                      (if b then some x else data_of n.cnxn (listeners_at ds (root lt.tree))))
                  same),
      )
