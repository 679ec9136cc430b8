-- ===== src/Listeners/Tree.antt =====
-- The tree of a table of listeners. A node has a name, its listeners and its children; its
-- `full_name` is the path to it. Siblings are told apart by their names, so a node is given by its
-- path. Reference counts are not modelled.
use gconf_dbus.Prelude.{
  ℕ, Ordering, Bool, true, false, Option, none, some, List, [], ◌∷◌, ◌++◌, ◌==◌, if◌then◌else◌,
}
use gconf_dbus.CString.{Bytes, strcmp}
use gconf_dbus.Keys.{slash}

pub record Listener : Type 0 where
  pub cnxn : ℕ
  pub listener_data : ℕ

mutual
  pub data Node : Type 0 where
    make_node : Bytes → List Listener → Nodes → Node

  pub data Nodes : Type 0 where
    no_nodes : Nodes
    more_nodes : Node → Nodes → Nodes

abbrev pub name_of : Node → Bytes
name_of (make_node name listeners children) = name

-- `ltable_entry_new`, with the node for it.
abbrev pub new_node : Bytes → Node
new_node name = make_node name [] no_nodes

-- The name is looked for among the sorted siblings, and a node for it put in where it is missing;
-- `below` is the rest of the loop, at the node found.
unfoldable pub insert_child : (Node → Node) → Bytes → Nodes → Nodes
insert_child below dirname no_nodes = more_nodes (below (new_node dirname)) no_nodes
insert_child below dirname (more_nodes across next) =
    let later = insert_child below dirname next in
    elim (strcmp (name_of across) dirname) [
      | Ordering.eq ↦ more_nodes (below across) next
      | Ordering.gt ↦ more_nodes (below (new_node dirname)) (more_nodes across next)
      | Ordering.lt ↦ more_nodes across later
    ]

-- The loop of `ltable_insert` over `dirnames`, and `g_list_prepend` at its end.
unfoldable pub insert_at : List Bytes → Listener → Node → Node
insert_at [] l (make_node name listeners children) = make_node name (l ∷ listeners) children
insert_at (d ∷ dirnames) l (make_node name listeners children) =
    make_node name listeners (insert_child (insert_at dirnames l) d children)

-- The first child of the name, and what is collected at it and below it.
unfoldable pub collect_child : (Node → List Listener) → Bytes → Nodes → List Listener
collect_child below dir no_nodes = []
collect_child below dir (more_nodes child next) =
    let later = collect_child below dir next in
    elim (strcmp (name_of child) dir) [ Ordering.eq ↦ below child | _ ↦ later ]

-- `to_notify` of `ltable_notify`: the listeners of the node, and those of the nodes on the path.
unfoldable pub to_notify : List Bytes → Node → List Listener
to_notify [] (make_node name listeners children) = listeners
to_notify (d ∷ dirs) (make_node name listeners children) =
    listeners ++ collect_child (to_notify dirs) d children

-- `g_strsplit (s, "/", -1)`: no part for the empty string.
abbrev pub put_first : ℕ → List Bytes → List Bytes
put_first c [] = (c ∷ []) ∷ []
put_first c (p ∷ ps) = (c ∷ p) ∷ ps

unfoldable pub split_parts : Bytes → List Bytes
split_parts [] = [] ∷ []
split_parts (c ∷ s) =
    let parts = split_parts s in if c == slash then [] ∷ parts else put_first c parts

unfoldable pub strsplit : Bytes → List Bytes
strsplit [] = []
strsplit (c ∷ s) = split_parts (c ∷ s)

-- The removal of a listener from the list of a node, and whether it was there.
unfoldable pub remove_listener : ℕ → List Listener → List Listener
remove_listener cnxn [] = []
remove_listener cnxn (l ∷ ls) =
    let later = l ∷ remove_listener cnxn ls in if l.cnxn == cnxn then ls else later

abbrev pub is_childless : Nodes → Bool
is_childless no_nodes = true
is_childless (more_nodes child next) = false

-- A node with no listeners and no children is destroyed. A parent whose child stays has a child, so
-- testing every parent is the same as stopping at the first that stays.
unfoldable pub prune : Node → Option Node
prune (make_node name [] no_nodes) = none
prune (make_node name [] (more_nodes child next)) = some (make_node name [] (more_nodes child next))
prune (make_node name (l ∷ listeners) children) = some (make_node name (l ∷ listeners) children)

abbrev pub put_child : Option Node → Nodes → Nodes
put_child none next = next
put_child (some child) next = more_nodes child next

unfoldable pub remove_child : (Node → Option Node) → Bytes → Nodes → Nodes
remove_child below dir no_nodes = no_nodes
remove_child below dir (more_nodes child next) =
    let later = more_nodes child (remove_child below dir next) in
    elim (strcmp (name_of child) dir) [ Ordering.eq ↦ put_child (below child) next | _ ↦ later ]

unfoldable pub remove_at : List Bytes → ℕ → Node → Option Node
remove_at [] cnxn (make_node name listeners children) =
    prune (make_node name (remove_listener cnxn listeners) children)
remove_at (d ∷ dirnames) cnxn (make_node name listeners children) =
    prune (make_node name listeners (remove_child (remove_at dirnames cnxn) d children))

-- The listeners of the node at a path, none for no node.
unfoldable pub listeners_at : List Bytes → Node → List Listener
listeners_at [] (make_node name listeners children) = listeners
listeners_at (d ∷ dirnames) (make_node name listeners children) =
    collect_child (listeners_at dirnames) d children
