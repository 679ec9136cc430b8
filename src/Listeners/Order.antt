-- ===== src/Listeners/Order.antt =====
-- The order of names, and sorted siblings.
use gconf_dbus.Prelude.{◌≡◌, refl, inl, inr, ◌≢◌, Ordering, List}
use gconf_dbus.CString.{Bytes, Ordering-cases, strcmp}
use gconf_dbus.Listeners.Tree.{
  Node, Nodes, make_node, no_nodes, more_nodes, name_of, new_node, insert_child, collect_child,
  Listener,
}

-- The steps of the walks over siblings.
module _ (g : Node → Node) (d : Bytes) (c : Node) (cs : Nodes) where
  pub insert_child-lt :
      strcmp (name_of c) d ≡ Ordering.lt
      → insert_child g d (more_nodes c cs) ≡ more_nodes c (insert_child g d cs)
  unfolding insert_child
  insert_child-lt e = rw (insert_child, e) refl

  pub insert_child-eq :
      strcmp (name_of c) d ≡ Ordering.eq → insert_child g d (more_nodes c cs) ≡ more_nodes (g c) cs
  unfolding insert_child
  insert_child-eq e = rw (insert_child, e) refl

  pub insert_child-gt :
      strcmp (name_of c) d ≡ Ordering.gt
      → insert_child g d (more_nodes c cs) ≡ more_nodes (g (new_node d)) (more_nodes c cs)
  unfolding insert_child
  insert_child-gt e = rw (insert_child, e) refl

module _ (f : Node → List Listener) (d : Bytes) (c : Node) (cs : Nodes) where
  pub collect_child-here :
      strcmp (name_of c) d ≡ Ordering.eq → collect_child f d (more_nodes c cs) ≡ f c
  unfolding collect_child
  collect_child-here e = rw (collect_child, e) refl

  pub collect_child-past :
      strcmp (name_of c) d ≢ Ordering.eq
      → collect_child f d (more_nodes c cs) ≡ collect_child f d cs
  unfolding collect_child
  collect_child-past h = elim (Ordering-cases (strcmp (name_of c) d)) [
    | inl e ↦ rw (collect_child, e) refl
    | inr (inl e) ↦ absurd (h e)
    | inr (inr e) ↦ rw (collect_child, e) refl
  ]

-- A name stands before all the siblings.
abbrev pub IsBefore : Bytes → Nodes → Type 0
IsBefore name no_nodes = Unit
IsBefore name (more_nodes c cs) = (strcmp name (name_of c) ≡ Ordering.lt) × IsBefore name cs

-- All siblings of the tree are sorted by their names, with no name twice.
unfoldable mutual
  pub IsSorted : Node → Type 0
  IsSorted (make_node name listeners children) = AreSorted children

  pub AreSorted : Nodes → Type 0
  AreSorted no_nodes = Unit
  AreSorted (more_nodes c cs) = IsSorted c × IsBefore (name_of c) cs × AreSorted cs
