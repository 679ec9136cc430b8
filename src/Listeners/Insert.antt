-- ===== src/Listeners/Insert.antt =====
-- `ltable_insert` keeps the tree sorted.
use gconf_dbus.Prelude.{◌≡◌, refl, subst, sym, inl, inr, Ordering, List, [], ◌∷◌}
use gconf_dbus.CString.{Bytes, Ordering-cases, strcmp, strcmp_gt, strcmp_trans}
use gconf_dbus.Listeners.Tree.{
  Listener, Node, Nodes, make_node, no_nodes, more_nodes, name_of, new_node, insert_child,
  insert_at,
}
use gconf_dbus.Listeners.Order.{
  insert_child-lt, insert_child-eq, insert_child-gt, IsBefore, IsSorted, AreSorted,
}

pub name_of-insert_at :
    (ds : List Bytes) (l : Listener) (t : Node) → name_of (insert_at ds l t) ≡ name_of t
unfolding insert_at
name_of-insert_at [] l (make_node n ls ch) = refl
name_of-insert_at (d ∷ ds) l (make_node n ls ch) = refl

pub IsBefore-trans :
    (m n : Bytes) (cs : Nodes) → strcmp m n ≡ Ordering.lt → IsBefore n cs → IsBefore m cs
IsBefore-trans m n no_nodes h b = tt
IsBefore-trans m n (more_nodes c cs) h b =
    (strcmp_trans m n (name_of c) h b.0, IsBefore-trans m n cs h b.1)

-- What is done to a child below: it keeps its name, and its order.
pub record Keeps (g : Node → Node) : Type 0 where
  pub name : (c : Node) → name_of (g c) ≡ name_of c
  pub order : (c : Node) → IsSorted c → IsSorted (g c)

module _ (g : Node → Node) (k : Keeps g) (d : Bytes) where
  insert_child-IsBefore :
      (n : Bytes) (cs : Nodes)
      → strcmp n d ≡ Ordering.lt
      → IsBefore n cs
      → IsBefore n (insert_child g d cs)
  unfolding insert_child
  insert_child-IsBefore n no_nodes h b = (rw (k.name (new_node d)) h, tt)
  insert_child-IsBefore n (more_nodes c cs) h b = elim (Ordering-cases (strcmp (name_of c) d)) [
    | inl e ↦ rw (insert_child-lt g d c cs e) (b.0, insert_child-IsBefore n cs h b.1)
    | inr (inl e) ↦ rw (insert_child-eq g d c cs e) (rw (k.name c) b.0, b.1)
    | inr (inr e) ↦ rw (insert_child-gt g d c cs e) (rw (k.name (new_node d)) h, b)
  ]

  pub insert_child-AreSorted : (cs : Nodes) → AreSorted cs → AreSorted (insert_child g d cs)
  unfolding insert_child AreSorted IsSorted
  insert_child-AreSorted no_nodes s = (k.order (new_node d) tt, tt, tt)
  insert_child-AreSorted (more_nodes c cs) s = elim (Ordering-cases (strcmp (name_of c) d)) [
    | inl e ↦
        rw (insert_child-lt g d c cs e)
          (s.0, insert_child-IsBefore (name_of c) cs e s.1, insert_child-AreSorted cs s.2)
    | inr (inl e) ↦ rw (insert_child-eq g d c cs e) (k.order c s.0, rw (k.name c) s.1, s.2)
    | inr (inr e) ↦
        let lt = strcmp_gt (name_of c) d e in
        rw (insert_child-gt g d c cs e) (
          k.order (new_node d) tt,
          subst (λ (n : Bytes). IsBefore n (more_nodes c cs)) (sym (k.name (new_node d)))
              (lt, IsBefore-trans d (name_of c) cs lt s.1),
          s,
        )
  ]

-- Adding a listener keeps the siblings sorted and their names different.
pub insert_at-IsSorted :
    (ds : List Bytes) (l : Listener) (t : Node) → IsSorted t → IsSorted (insert_at ds l t)
unfolding insert_at IsSorted
insert_at-IsSorted [] l (make_node n ls ch) s = s
insert_at-IsSorted (d ∷ ds) l (make_node n ls ch) s =
    insert_child-AreSorted (insert_at ds l)
      (record { name = name_of-insert_at ds l; order = insert_at-IsSorted ds l }) d ch s

pub insert_at-Keeps : (ds : List Bytes) (l : Listener) → Keeps (insert_at ds l)
insert_at-Keeps ds l = record { name = name_of-insert_at ds l; order = insert_at-IsSorted ds l }
