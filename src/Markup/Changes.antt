-- ===== src/Markup/Changes.antt =====
-- The operations on the entries of a directory, for each name.
use gconf_dbus.Prelude.{
  ◌≡◌, refl, sym, ◌≢◌, true, false, Option, none, some, List, [], ◌∷◌, arith, if◌then◌else◌,
  Bool-cases, inl, inr,
}
use gconf_dbus.CString.{Bytes, bytes_eq, bytes_eq-eq, bytes_eq_refl}
use gconf_dbus.Markup.Entry.{MarkupEntry, entry_new}
use gconf_dbus.Markup.Dir.{
  DirInfo, MarkupDir, MarkupDirs, make_dir, entries_read, Files, load_entries, load_subdirs,
  find_entry, dir_name, lookup_entry, EntryChange, absent, unchanged, changed, change_of, keep,
  or_same, change_entry, apply_change, update_entry,
}
use gconf_dbus.Markup.View.{entry_at, children_of}
use gconf_dbus.Markup.Walk.{IsLocal}

module _ (files : Files) (name : Bytes) where
  lookup_entry-name :
      (path : List Bytes) (d : MarkupDir)
      → dir_name (lookup_entry files name path d).dir ≡ dir_name d
  unfolding lookup_entry load_entries
  lookup_entry-name path (make_dir i es ds) = refl

  lookup_entry-entry_at :
      (n : Bytes) (path : List Bytes) (d : MarkupDir)
      → entry_at files n path (lookup_entry files name path d).dir ≡ entry_at files n path d
  unfolding lookup_entry load_entries
  lookup_entry-entry_at n path (make_dir i es ds) = refl

  lookup_entry-children :
      (path : List Bytes) (d : MarkupDir)
      → children_of (load_subdirs files path (lookup_entry files name path d).dir)
        ≡ children_of (load_subdirs files path d)
  unfolding lookup_entry load_entries load_subdirs
  lookup_entry-children path (make_dir i es ds) = refl

  pub lookup_entry-IsLocal : IsLocal files (lookup_entry files name) (λ n o. o)
  lookup_entry-IsLocal = record {
    name_kept = lookup_entry-name;
    entry_changed = lookup_entry-entry_at;
    children_kept = lookup_entry-children;
  }

-- The entry that an operation leaves, of the one that there was.
abbrev pub updated : (MarkupEntry → Option MarkupEntry) → Bytes → Option MarkupEntry → MarkupEntry
updated g name none = or_same (entry_new name) (g (entry_new name))
updated g name (some e) = or_same e (g e)

abbrev pub updated_at :
    (MarkupEntry → Option MarkupEntry) → Bytes → Bytes → Option MarkupEntry → Option MarkupEntry
updated_at g name n o = if bytes_eq n name then some (updated g name o) else o

pub updated_at_self :
    (g : MarkupEntry → Option MarkupEntry) (name : Bytes) (o : Option MarkupEntry)
    → updated_at g name name o ≡ some (updated g name o)
updated_at_self g name o = rw (bytes_eq_refl name) refl

pub updated_at_other :
    (g : MarkupEntry → Option MarkupEntry) (name n : Bytes) (o : Option MarkupEntry)
    → n ≢ name
    → updated_at g name n o ≡ o
updated_at_other g name n o h = ground (arith, bytes_eq-eq n name)

-- An operation keeps the name of its entry.
abbrev pub KeepsName : (MarkupEntry → Option MarkupEntry) → Type 0
KeepsName g = (e : MarkupEntry) → (or_same e (g e)).name ≡ e.name

module _ (g : MarkupEntry → Option MarkupEntry) (keeps : KeepsName g) (name : Bytes) where
  abbrev Describes : List MarkupEntry → EntryChange → Type 0
  Describes es absent = find_entry name es ≡ none
  Describes es unchanged = some (updated g name (find_entry name es)) ≡ find_entry name es
  Describes es (changed es') =
      (n : Bytes) → find_entry n es' ≡ updated_at g name n (find_entry n es)

  Describes-keep :
      (e : MarkupEntry) (es : List MarkupEntry) (ch : EntryChange)
      → bytes_eq name e.name ≡ false
      → Describes es ch
      → Describes (e ∷ es) (keep e ch)
  unfolding find_entry
  Describes-keep e es absent h k = rw h k
  Describes-keep e es unchanged h k = rw h k
  Describes-keep e es (changed es') h k =
      λ n. ground (arith, k n, bytes_eq-eq n e.name, bytes_eq-eq n name, bytes_eq_refl n)

  Describes-here :
      (e : MarkupEntry) (es : List MarkupEntry) (o : Option MarkupEntry)
      → bytes_eq name e.name ≡ true
      → g e ≡ o
      → Describes (e ∷ es) (change_of es o)
  unfolding find_entry
  Describes-here e es none h k = ground (arith, bytes_eq_refl name)
  Describes-here e es (some e') h k = λ n.
      let q : e'.name ≡ e.name = rw k at (keeps e) in
      ground (
        arith,
        q,
        bytes_eq-eq n e'.name,
        bytes_eq-eq n e.name,
        bytes_eq-eq n name,
        bytes_eq-eq name e.name,
        bytes_eq_refl n,
        bytes_eq_refl name,
      )

  pub change_entry_lem : (es : List MarkupEntry) → Describes es (change_entry g name es)
  unfolding change_entry find_entry
  change_entry_lem [] = refl
  change_entry_lem (e ∷ es) = elim (Bool-cases (bytes_eq name e.name)) [
    | inl h ↦ rw h (Describes-here e es (g e) h refl)
    | inr h ↦ rw h (Describes-keep e es (change_entry g name es) h (change_entry_lem es))
  ]

  module _ (files : Files) where
    applied-name :
        (i : DirInfo) (es : List MarkupEntry) (ds : MarkupDirs) (ch : EntryChange)
        → dir_name (apply_change g name i es ds ch).dir ≡ i.name
    applied-name i es ds absent = refl
    applied-name i es ds unchanged = refl
    applied-name i es ds (changed es') = refl

    applied-children :
        (path : List Bytes) (i : DirInfo) (es es' : List MarkupEntry) (ds : MarkupDirs)
        (ch : EntryChange)
        → children_of (load_subdirs files path (apply_change g name (entries_read i) es ds ch).dir)
          ≡ children_of (load_subdirs files path (make_dir i es' ds))
    unfolding load_subdirs
    applied-children path i es es' ds absent = refl
    applied-children path i es es' ds unchanged = refl
    applied-children path i es es' ds (changed es2) = refl

    applied-entry_at :
        (n : Bytes) (path : List Bytes) (i : DirInfo) (es : List MarkupEntry) (ds : MarkupDirs)
        → (ch : EntryChange) → Describes es ch
        → entry_at files n path (apply_change g name (entries_read i) es ds ch).dir
          ≡ updated_at g name n (find_entry n es)
    unfolding load_entries find_entry
    applied-entry_at n path i es ds absent h =
        let q : (or_same (entry_new name) (g (entry_new name))).name ≡ name =
          keeps (entry_new name) in
        rw q (elim (Bool-cases (bytes_eq n name)) [
          | inl e ↦ let m : n ≡ name = bytes_eq-eq n name e in rw (e, m, h) refl
          | inr e ↦ rw e refl
        ])
    applied-entry_at n path i es ds unchanged h = elim (Bool-cases (bytes_eq n name)) [
      | inl e ↦ let m : n ≡ name = bytes_eq-eq n name e in rw m (rw (bytes_eq_refl name) (sym h))
      | inr e ↦ rw e refl
    ]
    applied-entry_at n path i es ds (changed es2) h = h n

    update_entry-name :
        (path : List Bytes) (d : MarkupDir)
        → dir_name (update_entry files g name path d).dir ≡ dir_name d
    unfolding update_entry load_entries
    update_entry-name path (make_dir i es ds) = applied-name (entries_read i) _ ds _

    update_entry-children :
        (path : List Bytes) (d : MarkupDir)
        → children_of (load_subdirs files path (update_entry files g name path d).dir)
          ≡ children_of (load_subdirs files path d)
    unfolding update_entry load_entries
    update_entry-children path (make_dir i es ds) = applied-children path i _ es ds _

    update_entry-entry_at :
        (n : Bytes) (path : List Bytes) (d : MarkupDir)
        → entry_at files n path (update_entry files g name path d).dir
          ≡ updated_at g name n (entry_at files n path d)
    unfolding update_entry load_entries
    update_entry-entry_at n path (make_dir i es ds) =
        applied-entry_at n path i _ ds _ (change_entry_lem _)

    pub update_entry-IsLocal : IsLocal files (update_entry files g name) (updated_at g name)
    update_entry-IsLocal = record {
      name_kept = update_entry-name;
      entry_changed = update_entry-entry_at;
      children_kept = update_entry-children;
    }
