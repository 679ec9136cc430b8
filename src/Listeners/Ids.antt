-- ===== src/Listeners/Ids.antt =====
-- Connection numbers: their indices lead into the flat array.
use gconf_dbus.Prelude.{
  ℕ, zero, suc, ◌+◌, ◌%◌, ◌<◌, ◌≤◌, ◌≡◌, refl, ap, ◌⊎◌, inl, inr, Option, none, some, List, [], ◌∷◌,
  All, arith, max_of, length, le→leb,
}
use gconf_dbus.CString.{Bytes}
use gconf_dbus.Keys.{valid_key, valid_key_result}
use gconf_dbus.Listeners.Tree.{Listener, insert_at}
use gconf_dbus.Listeners.Table.{
  LTable, NextCnxn, set_size, get_index, set_index, cnxn_id_index, with_uniqueness,
  ltable_next_cnxn, ltable_insert, listeners_add, dirnames_of, root,
}

module _ {ℓ} {A : Type ℓ} where
  length-set_size : (n : ℕ) (xs : List (Option A)) → length (set_size n xs) ≡ n
  unfolding set_size
  length-set_size zero xs = refl
  length-set_size (suc n) [] = ap (λ (k : ℕ). suc k) (length-set_size n [])
  length-set_size (suc n) (x ∷ xs) = ap (λ (k : ℕ). suc k) (length-set_size n xs)

  set_index-some :
      (i : ℕ) (y : A) (xs : List A)
      → i < length xs
      → (ys : List A) × (set_index i y xs ≡ some ys) × (get_index i ys ≡ some y)
  unfolding set_index get_index
  set_index-some zero y [] h = absurd (omega arith)
  set_index-some (suc i) y [] h = absurd (omega arith)
  set_index-some zero y (x ∷ xs) h = (y ∷ xs, refl, refl)
  set_index-some (suc i) y (x ∷ xs) h =
      let (ys, e, g) = set_index-some i y xs (omega arith) in (x ∷ ys, rw e refl, g)

  set_index-none : (i : ℕ) (y : A) (xs : List A) → length xs ≤ i → set_index i y xs ≡ none
  unfolding set_index
  set_index-none zero y [] h = refl
  set_index-none (suc i) y [] h = refl
  set_index-none zero y (x ∷ xs) h = absurd (omega arith)
  set_index-none (suc i) y (x ∷ xs) h = rw (set_index-none i y xs (omega arith)) refl

-- The next index and the recycled ones: all behind 0, the recycled ones in front of the next.
pub record HasIds (lt : LTable) : Type 0 where
  pub positive : 0 < lt.next_cnxn
  pub recycled : All (λ i. (0 < i) × (i < lt.next_cnxn)) lt.removed_indices

abbrev pub with_ids : LTable → ℕ → List ℕ → LTable
with_ids lt next removed = record {
  tree = lt.tree;
  listeners = lt.listeners;
  active_listeners = lt.active_listeners;
  next_cnxn = next;
  removed_indices = removed;
}

abbrev pub taken : ℕ → LTable → ℕ → NextCnxn
taken index lt u = record {
  cnxn = with_uniqueness index ((u + 1) % 256);
  table = lt;
  uniqueness = (u + 1) % 256;
}

next-recycled :
    (lt : LTable) (u i : ℕ) (is : List ℕ)
    → lt.removed_indices ≡ i ∷ is
    → ltable_next_cnxn lt u ≡ some (taken i (with_ids lt lt.next_cnxn is) u)
unfolding ltable_next_cnxn
next-recycled lt u i is e = rw (ltable_next_cnxn, e) refl

next-fresh :
    (lt : LTable) (u : ℕ)
    → lt.removed_indices ≡ []
    → lt.next_cnxn ≤ 16777215
    → ltable_next_cnxn lt u ≡ some (taken lt.next_cnxn (with_ids lt (lt.next_cnxn + 1) []) u)
unfolding ltable_next_cnxn
next-fresh lt u e h = rw (ltable_next_cnxn, e, le→leb lt.next_cnxn 16777215 h) refl

module _ (lt : LTable) (location : Bytes) (l : Listener) where
  -- The table with the listener in its tree.
  abbrev pub holding : List (Option (List Bytes)) → LTable
  holding array = record {
    tree = some (insert_at (dirnames_of location) l (root lt.tree));
    listeners = array;
    active_listeners = lt.active_listeners + 1;
    next_cnxn = lt.next_cnxn;
    removed_indices = lt.removed_indices;
  }

  insert-some :
      valid_key location ≡ valid_key_result
      → cnxn_id_index l.cnxn < cnxn_id_index lt.next_cnxn
      → (array : List (Option (List Bytes))) × (ltable_insert lt location l ≡ some (holding array))
        × (get_index (cnxn_id_index l.cnxn) array ≡ some (some (dirnames_of location)))
  unfolding ltable_insert
  insert-some hv h =
      let size = max_of (cnxn_id_index lt.next_cnxn) (cnxn_id_index l.cnxn) in
      let (array, e, g) =
        set_index-some (cnxn_id_index l.cnxn) (some (dirnames_of location))
          (set_size size lt.listeners) (rw (length-set_size size lt.listeners) (ground arith)) in
      (array, rw (ltable_insert, hv, e) refl, g)

  insert-overrun :
      valid_key location ≡ valid_key_result
      → cnxn_id_index lt.next_cnxn ≤ cnxn_id_index l.cnxn
      → ltable_insert lt location l ≡ none
  unfolding ltable_insert
  insert-overrun hv h =
      let size = max_of (cnxn_id_index lt.next_cnxn) (cnxn_id_index l.cnxn) in
      let e =
        set_index-none (cnxn_id_index l.cnxn) (some (dirnames_of location))
          (set_size size lt.listeners) (rw (length-set_size size lt.listeners) (ground arith)) in
      rw (ltable_insert, hv, e) refl

abbrev pub the_listener : ℕ → ℕ → Listener
the_listener cnxn listener_data = record { cnxn = cnxn; listener_data = listener_data }

-- The number is given and the listener put into the tree; the table that is left has good ids, and
-- its array has a place for the index of the number, which is not 0.
pub record IsAdded (lt : LTable) (location : Bytes) (x : ℕ) (n : NextCnxn) : Type 0 where
  pub ids : HasIds n.table
  pub not_zero : 0 < cnxn_id_index n.cnxn
  pub inside : cnxn_id_index n.cnxn < n.table.next_cnxn
  pub in_tree :
      n.table.tree ≡ some (insert_at (dirnames_of location) (the_listener n.cnxn x) (root lt.tree))
  pub in_array :
      get_index (cnxn_id_index n.cnxn) n.table.listeners ≡ some (some (dirnames_of location))
  pub counted : n.table.active_listeners ≡ lt.active_listeners + 1

module _ (lt : LTable) (u : ℕ) (location : Bytes) (x : ℕ) where
  add-next :
      (n : NextCnxn) (array : List (Option (List Bytes)))
      → ltable_next_cnxn lt u ≡ some n
      → ltable_insert n.table location (the_listener n.cnxn x)
        ≡ some (holding n.table location (the_listener n.cnxn x) array)
      → listeners_add lt u location x
        ≡ some (record {
          cnxn = n.cnxn;
          table = holding n.table location (the_listener n.cnxn x) array;
          uniqueness = n.uniqueness;
        })
  unfolding listeners_add
  add-next n array hn hi = rw (listeners_add, hn, hi) refl

  add-recycled :
      (i : ℕ) (is : List ℕ)
      → HasIds lt
      → valid_key location ≡ valid_key_result
      → lt.next_cnxn < 16777216
      → lt.removed_indices ≡ i ∷ is
      → (n : NextCnxn) × (listeners_add lt u location x ≡ some n) × IsAdded lt location x n
  add-recycled i is ids hv h e =
      let ((i0, i1), others) = rw e at ids.recycled in
      let n = taken i (with_ids lt lt.next_cnxn is) u in
      let (array, p, g) =
        insert-some n.table location (the_listener n.cnxn x) hv (omega (arith, h, i1)) in
      (
        _,
        add-next n array (next-recycled lt u i is e) p,
        record {
          ids = record { positive = ids.positive; recycled = others };
          not_zero = omega (arith, h, i0, i1);
          inside = omega (arith, h, i1);
          in_tree = refl;
          in_array = g;
          counted = refl;
        },
      )

  add-fresh :
      HasIds lt
      → valid_key location ≡ valid_key_result
      → lt.next_cnxn < 16777215
      → lt.removed_indices ≡ []
      → (n : NextCnxn) × (listeners_add lt u location x ≡ some n) × IsAdded lt location x n
  add-fresh ids hv h e =
      let n = taken lt.next_cnxn (with_ids lt (lt.next_cnxn + 1) []) u in
      let positive = ids.positive in
      let (array, p, g) =
        insert-some n.table location (the_listener n.cnxn x) hv (omega (arith, h)) in
      (
        _,
        add-next n array (next-fresh lt u e (omega (arith, h))) p,
        record {
          ids = record { positive = omega arith; recycled = tt };
          not_zero = omega (arith, h, positive);
          inside = omega (arith, h);
          in_tree = refl;
          in_array = g;
          counted = refl;
        },
      )

  List-cases : (xs : List ℕ) → (xs ≡ []) ⊎ ((y : ℕ) × (ys : List ℕ) × (xs ≡ y ∷ ys))
  List-cases [] = inl refl
  List-cases (y ∷ ys) = inr (y, ys, refl)

  -- While the next index is below the last of 24 bits, adding a listener at a valid location
  -- succeeds: it gives a number whose index is not 0 and lies inside the array, puts the listener
  -- into the tree, counts it, and keeps the indices good.
  pub listeners_add-ok :
      HasIds lt
      → valid_key location ≡ valid_key_result
      → lt.next_cnxn < 16777215
      → (n : NextCnxn) × (listeners_add lt u location x ≡ some n) × IsAdded lt location x n
  listeners_add-ok ids hv h = elim (List-cases lt.removed_indices) [
    | inl e ↦ add-fresh ids hv h e
    | inr (i, is, e) ↦ add-recycled i is ids hv (omega (arith, h)) e
  ]

  -- At the last index of 24 bits, with none to recycle, adding a listener at a valid location makes
  -- the array one place too short and writes behind its end.
  pub listeners_add-overrun :
      valid_key location ≡ valid_key_result
      → lt.next_cnxn ≡ 16777215
      → lt.removed_indices ≡ []
      → (ltable_next_cnxn lt u ≡ some (taken lt.next_cnxn (with_ids lt (lt.next_cnxn + 1) []) u))
        × (listeners_add lt u location x ≡ none)
  unfolding listeners_add
  listeners_add-overrun hv h e =
      let n = taken lt.next_cnxn (with_ids lt (lt.next_cnxn + 1) []) u in
      let hn = next-fresh lt u e (omega (arith, h)) in
      let hi = insert-overrun n.table location (the_listener n.cnxn x) hv (omega (arith, h)) in
      (hn, rw (listeners_add, hn, hi) refl)
