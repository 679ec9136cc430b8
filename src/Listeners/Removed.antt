-- ===== src/Listeners/Removed.antt =====
-- `gconf_listeners_remove` and then `gconf_listeners_notify`, by keys.
use gconf_dbus.Prelude.{
  ℕ, suc, zero, ◌+◌, ◌%◌, ◌≡◌, ◌≢◌, refl, ◌∙◌, ap, sym, subst, subst₂, inl, inr, true, false,
  Option, none, some, List, [], ◌∷◌, ◌++◌, All,
}
use mathlib.Core.Bool.{false≢true}
use gconf_dbus.CString.{Bytes, strcmp, strcmp_eq, strcmp_refl}
use gconf_dbus.Keys.{key_is_below}
use gconf_dbus.Keys.Valid.{IsComponent, key_of}
use gconf_dbus.Keys.Below.{key_is_below_iff}
use gconf_dbus.Listeners.Tree.{
  Listener, Node, Nodes, make_node, no_nodes, more_nodes, name_of, collect_child, to_notify,
  put_child, remove_listener, remove_child, remove_at, listeners_at,
}
use gconf_dbus.Listeners.Order.{collect_child-past, IsSorted, AreSorted}
use gconf_dbus.Listeners.Table.{
  LTable, has_cnxn, notified_in, get_index, set_index, cnxn_id_index, ltable_remove, ltable_notify,
}
use gconf_dbus.Listeners.Notify.{collect-cong, cons_eq}
use gconf_dbus.Listeners.Notified.{valid_key-of, dirnames_of-key_of}
use gconf_dbus.Listeners.Remove.{
  Without, IsNamed, remove_listener-Without, Without-prepend, Without-append, notified-prune,
  remove_at-IsNamed, remove_child-here, remove_child-past, name_eq-cases, collect-remove_child,
}

remove_at-below :
    (ds rest : List Bytes) (cnxn : ℕ) (t : Node)
    → IsSorted t
    → has_cnxn cnxn (listeners_at ds t) ≡ true
    → Without cnxn (to_notify (ds ++ rest) t) (notified_in (ds ++ rest) (remove_at ds cnxn t))
unfolding to_notify remove_at listeners_at IsSorted
remove_at-below [] [] cnxn (make_node n ls ch) s h =
    subst (Without cnxn ls) (sym (notified-prune [] (make_node n (remove_listener cnxn ls) ch)))
      (remove_listener-Without cnxn ls h)
remove_at-below [] (e ∷ es) cnxn (make_node n ls ch) s h =
    let below = collect_child (to_notify es) e ch in
    subst (Without cnxn (ls ++ below))
      (sym (notified-prune (e ∷ es) (make_node n (remove_listener cnxn ls) ch)))
      (Without-append cnxn ls (remove_listener cnxn ls) below (remove_listener-Without cnxn ls h))
remove_at-below (d ∷ ds) rest cnxn (make_node n ls ch) s h =
    let es = ds ++ rest in
    let left = remove_child (remove_at ds cnxn) d ch in
    subst (Without cnxn (ls ++ collect_child (to_notify es) d ch))
      (sym (notified-prune (d ∷ es) (make_node n ls left)))
      (Without-prepend cnxn ls (collect_child (to_notify es) d ch)
        (collect_child (to_notify es) d left)
        (collect-remove_child (remove_at ds cnxn) (remove_at-IsNamed ds cnxn)
          (λ xs. has_cnxn cnxn xs ≡ true) (Without cnxn) es (listeners_at ds) d
          (λ p. absurd (false≢true p)) (λ c sc p. remove_at-below ds rest cnxn c sc p) ch s h))

module _ (b : Node → Option Node) (named : (c : Node) → IsNamed (name_of c) (b c)) where
  module _ (f : Node → List Listener) (d e : Bytes) (ne : d ≢ e) where
    past_other :
        (o : Option Node) (cs : Nodes)
        → IsNamed d o
        → collect_child f e (put_child o cs) ≡ collect_child f e cs
    past_other none cs h = refl
    past_other (some c) cs h =
        collect_child-past f e c cs (λ p. ne (sym h ∙ strcmp_eq (name_of c) e p))

    collect-remove_other :
        (cs : Nodes) → collect_child f e (remove_child b d cs) ≡ collect_child f e cs
    unfolding remove_child
    collect-remove_other no_nodes = refl
    collect-remove_other (more_nodes c cs) = elim (name_eq-cases (name_of c) d) [
      | inl q ↦
          ap (collect_child f e)
            (remove_child-here b d c cs (ap (λ (n : Bytes). strcmp n d) q ∙ strcmp_refl d))
          ∙ past_other (b c) cs (subst (λ (n : Bytes). IsNamed n (b c)) q (named c))
          ∙ sym (collect_child-past f e c cs (λ p. ne (sym q ∙ strcmp_eq (name_of c) e p)))
      | inr n ↦
          ap (collect_child f e) (remove_child-past b d c cs n)
          ∙ collect-cong f e c (remove_child b d cs) cs (collect-remove_other cs)
    ]

  collect-remove_either :
      (es : List Bytes) (d e : Bytes)
      → (d ≡ e → (c : Node) → IsSorted c → notified_in es (b c) ≡ to_notify es c)
      → (cs : Nodes) → AreSorted cs
      → collect_child (to_notify es) e (remove_child b d cs) ≡ collect_child (to_notify es) e cs
  collect-remove_either es d e h cs s = elim (name_eq-cases d e) [
    | inr n ↦
        collect-remove_other (to_notify es) d e
          (λ q. n (ap (λ (x : Bytes). strcmp x e) q ∙ strcmp_refl e)) cs
    | inl q ↦
        ap (λ (x : Bytes). collect_child (to_notify es) e (remove_child b x cs)) q
        ∙ sym (
            collect-remove_child b named (λ xs. Unit) (λ xs ys. xs ≡ ys) es (to_notify es) e
              (λ p. refl) (λ c sc p. sym (h q c sc)) cs s tt)
  ]

remove_at-elsewhere :
    (ds es : List Bytes) (cnxn : ℕ) (t : Node)
    → ¬ ((rest : List Bytes) × (es ≡ ds ++ rest))
    → IsSorted t
    → notified_in es (remove_at ds cnxn t) ≡ to_notify es t
unfolding to_notify remove_at IsSorted
remove_at-elsewhere [] es cnxn t h s = absurd (h (es, refl))
remove_at-elsewhere (d ∷ ds) [] cnxn (make_node n ls ch) h s =
    notified-prune [] (make_node n ls (remove_child (remove_at ds cnxn) d ch))
remove_at-elsewhere (d ∷ ds) (e ∷ es) cnxn (make_node n ls ch) h s =
    notified-prune (e ∷ es) (make_node n ls (remove_child (remove_at ds cnxn) d ch))
    ∙ ap (λ (x : List Listener). ls ++ x)
        (collect-remove_either (remove_at ds cnxn) (remove_at-IsNamed ds cnxn) es d e
          (λ q c sc. remove_at-elsewhere ds es cnxn c (λ (rest, p). h (rest, cons_eq (sym q) p)) sc)
          ch s)

set_index-of_get {ℓ} :
    {A : Type ℓ} (i : ℕ) (x y : A) (xs : List A)
    → get_index i xs ≡ some x
    → (ys : List A) × (set_index i y xs ≡ some ys)
unfolding get_index set_index
set_index-of_get zero x y [] h = absurd (cc)
set_index-of_get (suc i) x y [] h = absurd (cc)
set_index-of_get zero x y (z ∷ xs) h = (y ∷ xs, refl)
set_index-of_get (suc i) x y (z ∷ xs) h =
    let (ys, e) = set_index-of_get i x y xs h in (z ∷ ys, rw e refl)

notify-option :
    (lt : LTable) (es : List Bytes)
    → All IsComponent es
    → ltable_notify lt (key_of es) ≡ notified_in es lt.tree
unfolding ltable_notify
notify-option lt es h =
    rw (ltable_notify, valid_key-of es h)
      (ap (λ (ds : List Bytes). notified_in ds lt.tree) (dirnames_of-key_of es h))

at_tree : (es : List Bytes) {o o' : Option Node} → o ≡ o' → notified_in es o ≡ notified_in es o'
at_tree es e = ap (notified_in es) e

-- The number leads to a node that has a listener of this number.
pub record HasListener (lt : LTable) (cnxn : ℕ) (ds : List Bytes) (t : Node) : Type 0 where
  pub in_array : get_index (cnxn_id_index cnxn) lt.listeners ≡ some (some ds)
  pub in_tree : lt.tree ≡ some t
  pub sorted : IsSorted t
  pub at_node : has_cnxn cnxn (listeners_at ds t) ≡ true

module _ (lt : LTable) (cnxn : ℕ) (ds : List Bytes) (t : Node) (h : HasListener lt cnxn ds t) where
  remove-tree :
      (lt' : LTable) × (ltable_remove lt cnxn ≡ some lt')
      × (lt'.tree ≡ remove_at ds cnxn t)
      × (lt'.removed_indices ≡ cnxn_id_index cnxn ∷ lt.removed_indices)
  unfolding ltable_remove
  remove-tree =
      let (array, e) =
        set_index-of_get (cnxn_id_index cnxn) (some ds) none lt.listeners h.in_array in
      (
        record {
          tree = remove_at ds cnxn t;
          listeners = array;
          active_listeners = (lt.active_listeners + 4294967295) % 4294967296;
          next_cnxn = lt.next_cnxn;
          removed_indices = cnxn_id_index cnxn ∷ lt.removed_indices;
        },
        rw (ltable_remove, h.in_array, h.in_tree, h.at_node, e) refl,
        refl,
        refl,
      )

  module _ (es : List Bytes) (hd : All IsComponent ds) (he : All IsComponent es) where
    -- Removing a listener that the table has takes it, and no other, out of the list of those who
    -- are notified of a change of its key or of one below it, and makes its index one to recycle.
    pub notify-remove_below :
        key_is_below (key_of ds) (key_of es) ≡ true
        → (lt' : LTable) × (ltable_remove lt cnxn ≡ some lt')
          × (lt'.removed_indices ≡ cnxn_id_index cnxn ∷ lt.removed_indices)
          × Without cnxn (ltable_notify lt (key_of es)) (ltable_notify lt' (key_of es))
    notify-remove_below below =
        let (lt', removed, tree, recycled) = remove-tree in
        let (rest, split) = (key_is_below_iff ds es hd he).0 below in
        (
          lt',
          removed,
          recycled,
          subst₂ (Without cnxn) (sym (notify-option lt es he ∙ at_tree es h.in_tree))
              (sym (notify-option lt' es he ∙ at_tree es tree))
              (subst
                (λ (p : List Bytes).
                  Without cnxn (to_notify p t) (notified_in p (remove_at ds cnxn t)))
                (sym split) (remove_at-below ds rest cnxn t h.sorted h.at_node)),
        )

    -- For a key that is neither that of the listener nor lies below it, the list stays the same.
    pub notify-remove_elsewhere :
        key_is_below (key_of ds) (key_of es) ≡ false
        → (lt' : LTable) × (ltable_remove lt cnxn ≡ some lt')
          × (ltable_notify lt' (key_of es) ≡ ltable_notify lt (key_of es))
    notify-remove_elsewhere not_below =
        let (lt', removed, tree, recycled) = remove-tree in
        let no_prefix = λ (r : (rest : List Bytes) × (es ≡ ds ++ rest)).
          false≢true (sym not_below ∙ (key_is_below_iff ds es hd he).1 r) in
        (
          lt',
          removed,
          notify-option lt' es he
              ∙ at_tree es tree
              ∙ remove_at-elsewhere ds es cnxn t no_prefix h.sorted
              ∙ sym (notify-option lt es he ∙ at_tree es h.in_tree),
        )
