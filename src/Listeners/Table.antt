-- ===== src/Listeners/Table.antt =====
-- The table of listeners, and its operations. A place of the flat array is `none` for NULL, and
-- otherwise the path to a node. The results are `none` where the program stops or writes outside
-- the array.
use gconf_dbus.Prelude.{
  ℕ, zero, suc, ◌+◌, ◌*◌, ◌%◌, Bool, false, ◌||◌, Option, none, some, List, [], ◌∷◌, leb, ◌==◌,
  if◌then◌else◌, max_of,
}
use gconf_dbus.CString.{Bytes}
use gconf_dbus.Keys.{slash, valid_key, valid_key_result, why_invalid}
use gconf_dbus.Listeners.Tree.{
  Listener, Node, make_node, no_nodes, insert_at, remove_at, listeners_at, to_notify, strsplit,
}

pub record LTable : Type 0 where
  pub tree : Option Node
  pub listeners : List (Option (List Bytes))
  pub active_listeners : ℕ
  pub next_cnxn : ℕ
  pub removed_indices : List ℕ

-- g_ptr_array_set_size, which fills with NULL
unfoldable pub set_size {ℓ} : {A : Type ℓ} → ℕ → List (Option A) → List (Option A)
set_size zero xs = []
set_size (suc n) [] = none ∷ set_size n []
set_size (suc n) (x ∷ xs) = x ∷ set_size n xs

-- g_ptr_array_index, read and written
unfoldable pub get_index {ℓ} : {A : Type ℓ} → ℕ → List A → Option A
get_index i [] = none
get_index zero (x ∷ xs) = some x
get_index (suc i) (x ∷ xs) = get_index i xs

abbrev cons_some {ℓ} : {A : Type ℓ} → A → Option (List A) → Option (List A)
cons_some x none = none
cons_some x (some xs) = some (x ∷ xs)

unfoldable pub set_index {ℓ} : {A : Type ℓ} → ℕ → A → List A → Option (List A)
set_index i y [] = none
set_index zero y (x ∷ xs) = some (y ∷ xs)
set_index (suc i) y (x ∷ xs) = cons_some x (set_index i y xs)

abbrev pub ltable_new : LTable
ltable_new = record {
  tree = none;
  listeners = none ∷ none ∷ none ∷ none ∷ none ∷ [];
  active_listeners = 0;
  next_cnxn = 1;
  removed_indices = [];
}

-- CNXN_ID_INDEX
abbrev pub cnxn_id_index : ℕ → ℕ
cnxn_id_index cid = cid % 16777216

-- The number, the table, and `uniqueness`, a byte that all tables share.
pub record NextCnxn : Type 0 where
  pub cnxn : ℕ
  pub table : LTable
  pub uniqueness : ℕ

-- An index has 24 bits, so that `|` with the shifted byte is their sum.
abbrev pub with_uniqueness : ℕ → ℕ → ℕ
with_uniqueness index u = index + u * 16777216

unfoldable pub ltable_next_cnxn : LTable → ℕ → Option NextCnxn
ltable_next_cnxn lt uniqueness =
    let u = (uniqueness + 1) % 256 in
    elim (lt.removed_indices) [
      | index ∷ removed ↦ some (record {
        cnxn = with_uniqueness index u;
        table = record {
          tree = lt.tree;
          listeners = lt.listeners;
          active_listeners = lt.active_listeners;
          next_cnxn = lt.next_cnxn;
          removed_indices = removed;
        };
        uniqueness = u;
      })
      | [] ↦
          if leb lt.next_cnxn 16777215
          then some (record {
            cnxn = with_uniqueness lt.next_cnxn u;
            table = record {
              tree = lt.tree;
              listeners = lt.listeners;
              active_listeners = lt.active_listeners;
              next_cnxn = lt.next_cnxn + 1;
              removed_indices = [];
            };
            uniqueness = u;
          })
          else none
    ]

-- The root, which is made where there is none.
abbrev pub root : Option Node → Node
root none = make_node (slash ∷ []) [] no_nodes
root (some t) = t

-- `where + 1`, split
abbrev pub dirnames_of : Bytes → List Bytes
dirnames_of [] = []
dirnames_of (c ∷ s) = strsplit s

abbrev inserted : LTable → Node → Option (List (Option (List Bytes))) → Option LTable
inserted lt t none = none
inserted lt t (some array) = some (record {
  tree = some t;
  listeners = array;
  active_listeners = lt.active_listeners + 1;
  next_cnxn = lt.next_cnxn;
  removed_indices = lt.removed_indices;
})

unfoldable pub ltable_insert : LTable → Bytes → Listener → Option LTable
ltable_insert lt location l = elim (valid_key location) [
  | why_invalid r ↦ some lt
  | valid_key_result ↦ inserted lt (insert_at (dirnames_of location) l (root lt.tree)) (
      set_index (cnxn_id_index l.cnxn) (some (dirnames_of location))
        (set_size (max_of (cnxn_id_index lt.next_cnxn) (cnxn_id_index l.cnxn)) lt.listeners))
]

abbrev added : ℕ → ℕ → Option LTable → Option NextCnxn
added cnxn u none = none
added cnxn u (some lt) = some (record { cnxn = cnxn; table = lt; uniqueness = u })

unfoldable pub listeners_add : LTable → ℕ → Bytes → ℕ → Option NextCnxn
listeners_add lt uniqueness listen_point listener_data = elim (ltable_next_cnxn lt uniqueness) [
  | none ↦ none
  | some n ↦
      added n.cnxn n.uniqueness (
        ltable_insert n.table listen_point
          (record { cnxn = n.cnxn; listener_data = listener_data }))
]

abbrev pub has_cnxn : ℕ → List Listener → Bool
has_cnxn cnxn [] = false
has_cnxn cnxn (l ∷ ls) = l.cnxn == cnxn || has_cnxn cnxn ls

-- The listener is in the list of the node that its index leads to. The count is a `guint`.
abbrev removed :
    LTable → ℕ → List Bytes → Node → Option (List (Option (List Bytes))) → Option LTable
removed lt cnxn path t none = none
removed lt cnxn path t (some array) = some (record {
  tree = remove_at path cnxn t;
  listeners = array;
  active_listeners = (lt.active_listeners + 4294967295) % 4294967296;
  next_cnxn = lt.next_cnxn;
  removed_indices = cnxn_id_index cnxn ∷ lt.removed_indices;
})

abbrev remove_in : LTable → ℕ → List Bytes → Option Node → Option LTable
remove_in lt cnxn path none = none
remove_in lt cnxn path (some t) =
    if has_cnxn cnxn (listeners_at path t)
    then removed lt cnxn path t (set_index (cnxn_id_index cnxn) none lt.listeners)
    else some lt

unfoldable pub ltable_remove : LTable → ℕ → Option LTable
ltable_remove lt cnxn = elim (get_index (cnxn_id_index cnxn) lt.listeners) [
  | none ↦ some lt
  | some none ↦ some lt
  | some (some path) ↦ remove_in lt cnxn path lt.tree
]

unfoldable pub listeners_remove : LTable → ℕ → Option LTable
listeners_remove lt cnxn_id = if cnxn_id == 0 then some lt else ltable_remove lt cnxn_id

abbrev pub notified_in : List Bytes → Option Node → List Listener
notified_in dirs none = []
notified_in dirs (some t) = to_notify dirs t

-- `to_notify` of `ltable_notify`
unfoldable pub ltable_notify : LTable → Bytes → List Listener
ltable_notify lt key = elim (valid_key key) [
  | why_invalid r ↦ []
  | valid_key_result ↦ notified_in (dirnames_of key) lt.tree
]

abbrev pub data_of : ℕ → List Listener → Option ℕ
data_of cnxn [] = none
data_of cnxn (l ∷ ls) = if l.cnxn == cnxn then some l.listener_data else data_of cnxn ls

abbrev pub with_location : List Bytes → Option ℕ → Option (ℕ × List Bytes)
with_location path none = none
with_location path (some x) = some (x, path)

abbrev pub data_in : ℕ → List Bytes → Option Node → Option (ℕ × List Bytes)
data_in cnxn path none = none
data_in cnxn path (some t) = with_location path (data_of cnxn (listeners_at path t))

-- The data and the location of a listener, `none` for FALSE.
unfoldable pub ltable_get_data : LTable → ℕ → Option (ℕ × List Bytes)
ltable_get_data lt cnxn_id = elim (get_index (cnxn_id_index cnxn_id) lt.listeners) [
  | none ↦ none
  | some none ↦ none
  | some (some path) ↦ data_in cnxn_id path lt.tree
]
