-- ===== src/Listeners/Notified.antt =====
-- `gconf_listeners_add` and then `gconf_listeners_notify`, by keys.
use gconf_dbus.Prelude.{
  ℕ, ◌<◌, ◌≡◌, refl, ◌∙◌, ap, sym, Option, none, some, List, [], ◌∷◌, ◌++◌, All, false, true,
  Option-cases, inl, inr, subst, subst₂,
}
use mathlib.Core.Bool.{false≢true}
use gconf_dbus.CString.{Bytes}
use gconf_dbus.Keys.{slash, key_is_below, valid_key, valid_key_result}
use gconf_dbus.Keys.Valid.{IsKeyChar, IsComponent, join, key_of, valid_key_iff}
use gconf_dbus.Keys.Below.{component-IsKeyChar, key_is_below_iff}
use gconf_dbus.Listeners.Tree.{Node, insert_at, to_notify, put_first, split_parts, strsplit}
use gconf_dbus.Listeners.Order.{IsSorted}
use gconf_dbus.Listeners.Insert.{insert_at-IsSorted}
use gconf_dbus.Listeners.Notify.{Added, to_notify-new_node, to_notify-below, to_notify-elsewhere}
use gconf_dbus.Listeners.Table.{LTable, NextCnxn, ltable_notify, listeners_add, dirnames_of, root}
use gconf_dbus.Listeners.Ids.{HasIds, the_listener, listeners_add-ok}

split_parts-join :
    (c : Bytes) (cs : List Bytes)
    → All IsKeyChar c
    → All IsComponent cs
    → split_parts (c ++ join cs) ≡ c ∷ cs
unfolding split_parts
split_parts-join [] [] hc hs = refl
split_parts-join [] (d ∷ cs) hc hs =
    ap (λ (ps : List Bytes). [] ∷ ps) (split_parts-join d cs (component-IsKeyChar d hs.0) hs.1)
split_parts-join (b ∷ c) cs hc hs =
    rw (hc.0.no_slash) (ap (put_first b) (split_parts-join c cs hc.1 hs))

pub dirnames_of-key_of : (cs : List Bytes) → All IsComponent cs → dirnames_of (key_of cs) ≡ cs
unfolding strsplit
dirnames_of-key_of [] h = refl
dirnames_of-key_of ([] ∷ cs) h = absurd h.0
dirnames_of-key_of ((b ∷ c) ∷ cs) h =
    split_parts-join (b ∷ c) cs (component-IsKeyChar (b ∷ c) h.0) h.1

pub valid_key-of : (cs : List Bytes) → All IsComponent cs → valid_key (key_of cs) ≡ valid_key_result
valid_key-of cs h = (valid_key_iff (key_of cs)).1 (cs, h, refl)

notify-tree :
    (lt : LTable) (es : List Bytes) (t : Node)
    → All IsComponent es
    → lt.tree ≡ some t
    → ltable_notify lt (key_of es) ≡ to_notify es t
unfolding ltable_notify
notify-tree lt es t h e =
    rw (ltable_notify, valid_key-of es h, e)
      (ap (λ (ds : List Bytes). to_notify ds t) (dirnames_of-key_of es h))

notify-nothing :
    (lt : LTable) (es : List Bytes)
    → All IsComponent es
    → lt.tree ≡ none
    → ltable_notify lt (key_of es) ≡ []
unfolding ltable_notify
notify-nothing lt es h e = rw (ltable_notify, valid_key-of es h, e) refl

notify-root :
    (lt : LTable) (es : List Bytes)
    → All IsComponent es
    → ltable_notify lt (key_of es) ≡ to_notify es (root lt.tree)
notify-root lt es h = elim (Option-cases lt.tree) [
  | inr (t, e) ↦ notify-tree lt es t h e ∙ ap (λ (o : Option Node). to_notify es (root o)) (sym e)
  | inl e ↦
      notify-nothing lt es h e
      ∙ sym (to_notify-new_node (slash ∷ []) es)
      ∙ ap (λ (o : Option Node). to_notify es (root o)) (sym e)
]

module _ (lt : LTable) (u : ℕ) (x : ℕ) (ds es : List Bytes) where
  -- A listener that is added at a key is notified, once, of a change of a key that is that key or
  -- lies below it, and the others as before; the tree stays sorted. The table has to have good ids,
  -- a sorted tree, and an index to give.
  pub notify-add_below :
      HasIds lt
      → lt.next_cnxn < 16777215
      → IsSorted (root lt.tree)
      → All IsComponent ds
      → All IsComponent es
      → key_is_below (key_of ds) (key_of es) ≡ true
      → (n : NextCnxn) × (listeners_add lt u (key_of ds) x ≡ some n)
        × IsSorted (root n.table.tree)
        × Added
            (the_listener n.cnxn x)
            (ltable_notify lt (key_of es))
            (ltable_notify n.table (key_of es))
  notify-add_below ids h sorted hd he below =
      let (n, added, good) = listeners_add-ok lt u (key_of ds) x ids (valid_key-of ds hd) h in
      let l = the_listener n.cnxn x in
      let (rest, split) = (key_is_below_iff ds es hd he).0 below in
      let tree =
        good.in_tree
        ∙ ap (λ (p : List Bytes). some (insert_at p l (root lt.tree))) (dirnames_of-key_of ds hd) in
      let inserted = to_notify-below ds rest l (root lt.tree) sorted in
      (
        n,
        added,
        subst (λ (o : Option Node). IsSorted (root o)) (sym tree)
            (insert_at-IsSorted ds l (root lt.tree) sorted),
        subst₂ (Added l) (sym (notify-root lt es he)) (sym (notify-tree n.table es _ he tree)) (
            subst
              (λ (p : List Bytes).
                Added l (to_notify p (root lt.tree)) (to_notify p (insert_at ds l (root lt.tree))))
              (sym split) inserted),
      )

  -- A listener that is added at a key is not notified of a change of a key that is neither that key
  -- nor lies below it: for such a key the listeners are the same as before. The table has to have
  -- good ids, a sorted tree, and an index to give.
  pub notify-add_elsewhere :
      HasIds lt
      → lt.next_cnxn < 16777215
      → IsSorted (root lt.tree)
      → All IsComponent ds
      → All IsComponent es
      → key_is_below (key_of ds) (key_of es) ≡ false
      → (n : NextCnxn) × (listeners_add lt u (key_of ds) x ≡ some n)
        × (ltable_notify n.table (key_of es) ≡ ltable_notify lt (key_of es))
  notify-add_elsewhere ids h sorted hd he not_below =
      let (n, added, good) = listeners_add-ok lt u (key_of ds) x ids (valid_key-of ds hd) h in
      let l = the_listener n.cnxn x in
      let tree =
        good.in_tree
        ∙ ap (λ (p : List Bytes). some (insert_at p l (root lt.tree))) (dirnames_of-key_of ds hd) in
      let no_prefix = λ (r : (rest : List Bytes) × (es ≡ ds ++ rest)).
        false≢true (sym not_below ∙ (key_is_below_iff ds es hd he).1 r) in
      (
        n,
        added,
        notify-tree n.table es _ he tree
            ∙ to_notify-elsewhere ds es l (root lt.tree) no_prefix sorted
            ∙ sym (notify-root lt es he),
      )
