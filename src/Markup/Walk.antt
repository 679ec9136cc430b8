-- ===== src/Markup/Walk.antt =====
-- How a walk to a directory, and an operation there, change what can be looked up.
use gconf_dbus.Prelude.{
  ◌≡◌, refl, sym, ap, ◌∙◌, ◌≢◌, Bool, true, false, Option, none, List, [], ◌∷◌, arith, Bool-cases,
  inl, inr,
}
use gconf_dbus.CString.{Bytes, bytes_eq, bytes_eq-eq, bytes_eq_refl, bytes_eq_ne}
use gconf_dbus.Markup.Entry.{MarkupEntry}
use gconf_dbus.Markup.Dir.{
  DirInfo, MarkupDir, MarkupDirs, make_dir, dir_name, fresh_dir, subdirs_read, Files, load_entries,
  load_subdirs, Step, Descent, missing, found, change_child, entered, walk, find_entry,
}
use gconf_dbus.Markup.View.{
  in_child, children_of, entry_at, view, Descended, here, there, change_child_lem,
}

module _ (files : Files) {A : Type 0} (op : List Bytes → MarkupDir → Step A) where
  -- An operation that changes the entries of the directory alone, by `f` for each name.
  pub record IsLocal (f : Bytes → Option MarkupEntry → Option MarkupEntry) : Type 0 where
    pub name_kept : (path : List Bytes) (d : MarkupDir) → dir_name (op path d).dir ≡ dir_name d
    pub entry_changed :
        (name : Bytes) (path : List Bytes) (d : MarkupDir)
        → entry_at files name path (op path d).dir ≡ f name (entry_at files name path d)
    pub children_kept :
        (path : List Bytes) (d : MarkupDir)
        → children_of (load_subdirs files path (op path d).dir)
          ≡ children_of (load_subdirs files path d)

view-fresh_dir :
    (files : Files) (name c : Bytes) (path cs : List Bytes)
    → view files name path cs (fresh_dir c) ≡ none
unfolding view load_entries load_subdirs find_entry in_child
view-fresh_dir files name c path [] = refl
view-fresh_dir files name c path (b ∷ cs) = refl

-- A walk into the child `c`, from a directory whose children `ds` are loaded. What is done at the
-- child is `w`.
module _ (files : Files) {A : Type 0} (w : MarkupDir → Step A) (c : Bytes)
    (w_name : (d : MarkupDir) → dir_name (w d).dir ≡ dir_name d) (i : DirInfo)
    (es : List MarkupEntry) (ds : MarkupDirs) where
  abbrev after : Bool → Descent A → MarkupDir
  after create de = (entered create w c (subdirs_read i) es ds de).dir

  entered-name : (create : Bool) (de : Descent A) → dir_name (after create de) ≡ i.name
  entered-name create (found r ds' q) = refl
  entered-name true missing = refl
  entered-name false missing = refl

  module _ (name : Bytes) (path : List Bytes) where
    entered-entry_at :
        (create : Bool) (de : Descent A) (old : MarkupDirs)
        → entry_at files name path (after create de) ≡ entry_at files name path (make_dir i es old)
    unfolding load_entries
    entered-entry_at create (found r ds' q) old = refl
    entered-entry_at true missing old = refl
    entered-entry_at false missing old = refl

    module _ (cs : List Bytes) (f : Option MarkupEntry → Option MarkupEntry)
        (changes : (d : MarkupDir)
          → view files name (c ∷ path) cs (w d).dir ≡ f (view files name (c ∷ path) cs d)) where
      abbrev look : MarkupDir → Option MarkupEntry
      look = view files name (c ∷ path) cs

      entered-view :
          (create : Bool) (de : Descent A)
          → (create ≡ false → f none ≡ none)
          → Descended w c ds de
          → view files name path (c ∷ cs) (after create de) ≡ f (in_child look c ds)
      unfolding view load_subdirs
      entered-view create (found r ds' q) k h =
          h.after look ∙ changes h.child ∙ ap f (sym (h.before look))
      entered-view true missing k h =
          here w c look (w (fresh_dir c)).dir ds c (rw (w_name (fresh_dir c)) (bytes_eq_refl c))
          ∙ changes (fresh_dir c)
          ∙ ap f (view-fresh_dir files name c (c ∷ path) cs ∙ sym (h look))
      entered-view false missing k h = h look ∙ sym (k refl) ∙ ap f (sym (h look))

    entered-elsewhere :
        (create : Bool) (de : Descent A) (b : Bytes) (bs : List Bytes)
        → b ≢ c
        → Descended w c ds de
        → view files name path (b ∷ bs) (after create de)
          ≡ in_child (view files name (b ∷ path) bs) b ds
    unfolding view load_subdirs
    entered-elsewhere create (found r ds' q) b bs n h =
        h.elsewhere (view files name (b ∷ path) bs) b n
    entered-elsewhere true missing b bs n h =
        there w c (view files name (b ∷ path) bs) (w (fresh_dir c)).dir ds b
          (rw (w_name (fresh_dir c)) (ground (arith, bytes_eq-eq c b)))
    entered-elsewhere false missing b bs n h = refl

module _ (files : Files) {A : Type 0} (create : Bool) (op : List Bytes → MarkupDir → Step A)
    (f : Bytes → Option MarkupEntry → Option MarkupEntry) (law : IsLocal files op f)
    (kept : create ≡ false → (name : Bytes) → f name none ≡ none) where
  pub walk-name :
      (path cs : List Bytes) (d : MarkupDir)
      → dir_name (walk files create op path cs d).dir ≡ dir_name d
  unfolding walk load_subdirs
  walk-name path [] d = law.name_kept path d
  walk-name path (c ∷ cs) (make_dir i es ds) =
      entered-name files (walk files create op (c ∷ path) cs) c (walk-name (c ∷ path) cs) i es _
        create (change_child (walk files create op (c ∷ path) cs) c _)

  descended :
      (path cs : List Bytes) (c : Bytes) (ds : MarkupDirs)
      → Descended
          (walk files create op (c ∷ path) cs)
          c
          ds
          (change_child (walk files create op (c ∷ path) cs) c ds)
  descended path cs c ds =
      change_child_lem (walk files create op (c ∷ path) cs) c (walk-name (c ∷ path) cs) ds

  -- At the directory that the walk leads to, the entries are changed by `f`.
  pub walk-view :
      (name : Bytes) (path cs : List Bytes) (d : MarkupDir)
      → view files name path cs (walk files create op path cs d).dir
        ≡ f name (view files name path cs d)
  unfolding walk view load_subdirs
  walk-view name path [] d = law.entry_changed name path d
  walk-view name path (c ∷ cs) (make_dir i es ds) =
      entered-view files (walk files create op (c ∷ path) cs) c (walk-name (c ∷ path) cs) i es _
        name path cs (f name) (walk-view name (c ∷ path) cs) create
        (change_child (walk files create op (c ∷ path) cs) c _) (λ e. kept e name)
        (descended path cs c _)

  -- At every other directory they are as they were.
  pub walk-view_ne :
      (name : Bytes) (path cs bs : List Bytes) (d : MarkupDir)
      → bs ≢ cs
      → view files name path bs (walk files create op path cs d).dir ≡ view files name path bs d
  unfolding walk view load_subdirs
  walk-view_ne name path [] [] d n = absurd (n refl)
  walk-view_ne name path [] (b ∷ bs) d n =
      ap (in_child (view files name (b ∷ path) bs) b) (law.children_kept path d)
  walk-view_ne name path (c ∷ cs) [] (make_dir i es ds) n =
      entered-entry_at files (walk files create op (c ∷ path) cs) c (walk-name (c ∷ path) cs) i es _
        name path create (change_child (walk files create op (c ∷ path) cs) c _) ds
  walk-view_ne name path (c ∷ cs) (b ∷ bs) (make_dir i es ds) n = elim (Bool-cases (bytes_eq b c)) [
    | inl e ↦
        let same : b ≡ c = bytes_eq-eq b c e in
        rw same (
          entered-view files (walk files create op (c ∷ path) cs) c (walk-name (c ∷ path) cs) i es _
            name path bs (λ o. o)
            (λ d. walk-view_ne name (c ∷ path) cs bs d (λ h. n (cc (same, h)))) create
            (change_child (walk files create op (c ∷ path) cs) c _) (λ k. refl)
            (descended path cs c _))
    | inr e ↦
        entered-elsewhere files (walk files create op (c ∷ path) cs) c (walk-name (c ∷ path) cs) i
          es _ name path create (change_child (walk files create op (c ∷ path) cs) c _) b bs
          (bytes_eq_ne b c e) (descended path cs c _)
  ]
