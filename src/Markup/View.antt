-- ===== src/Markup/View.antt =====
-- What can be looked up in a tree, and how a walk changes it.
use gconf_dbus.Prelude.{
  ◌≡◌, refl, sym, ap, ◌∙◌, ◌≢◌, Bool, true, false, Option, none, List, [], ◌∷◌, arith,
  if◌then◌else◌, Bool-cases, inl, inr,
}
use gconf_dbus.CString.{Bytes, bytes_eq, bytes_eq-eq}
use gconf_dbus.Markup.Entry.{MarkupEntry}
use gconf_dbus.Markup.Dir.{
  MarkupDir, MarkupDirs, make_dir, no_dirs, more_dirs, dir_name, Files, load_entries, load_subdirs,
  Step, Descent, missing, found, past, change_child, find_entry,
}

-- The first child of a name, and what is seen in it.
unfoldable pub in_child {ℓ} : {B : Type ℓ} → (MarkupDir → Option B) → Bytes → MarkupDirs → Option B
in_child look name no_dirs = none
in_child look name (more_dirs d ds) =
    let later = in_child look name ds in if bytes_eq (dir_name d) name then look d else later

abbrev pub entries_of : MarkupDir → List MarkupEntry
entries_of (make_dir i es ds) = es

abbrev pub children_of : MarkupDir → MarkupDirs
children_of (make_dir i es ds) = ds

module _ (files : Files) where
  -- The entry of a name in a directory, with what its file holds where that is not loaded yet.
  abbrev pub entry_at : Bytes → List Bytes → MarkupDir → Option MarkupEntry
  entry_at name path d = find_entry name (entries_of (load_entries files path d))

  -- The entry at a path below a directory, and the name of the entry.
  unfoldable pub view : Bytes → List Bytes → List Bytes → MarkupDir → Option MarkupEntry
  view name path [] d = entry_at name path d
  view name path (c ∷ cs) d =
      in_child (view name (c ∷ path) cs) c (children_of (load_subdirs files path d))

module _ {A : Type 0} (op : MarkupDir → Step A) (c : Bytes) where
  -- The directory that a child was found to be: it was looked at, and is changed.
  pub record IsFound (ds ds' : MarkupDirs) (r : Option A) (q : Bool) : Type 0 where
    pub child : MarkupDir
    pub before : (look : MarkupDir → Option MarkupEntry) → in_child look c ds ≡ look child
    pub after : (look : MarkupDir → Option MarkupEntry) → in_child look c ds' ≡ look (op child).dir
    pub result : r ≡ (op child).result
    pub elsewhere :
        (look : MarkupDir → Option MarkupEntry) (b : Bytes)
        → b ≢ c
        → in_child look b ds' ≡ in_child look b ds

  abbrev pub Descended : MarkupDirs → Descent A → Type 0
  Descended ds missing = (look : MarkupDir → Option MarkupEntry) → in_child look c ds ≡ none
  Descended ds (found r ds' q) = IsFound ds ds' r q

  -- The steps over a first child.
  pub here :
      (look : MarkupDir → Option MarkupEntry) (d : MarkupDir) (ds : MarkupDirs) (b : Bytes)
      → bytes_eq (dir_name d) b ≡ true
      → in_child look b (more_dirs d ds) ≡ look d
  unfolding in_child
  here look d ds b e = rw e refl

  pub there :
      (look : MarkupDir → Option MarkupEntry) (d : MarkupDir) (ds : MarkupDirs) (b : Bytes)
      → bytes_eq (dir_name d) b ≡ false
      → in_child look b (more_dirs d ds) ≡ in_child look b ds
  unfolding in_child
  there look d ds b e = rw e refl

  both_there :
      (look : MarkupDir → Option MarkupEntry) (d : MarkupDir) (ds ds' : MarkupDirs) (b : Bytes)
      → in_child look b ds' ≡ in_child look b ds
      → in_child look b (more_dirs d ds') ≡ in_child look b (more_dirs d ds)
  unfolding in_child
  both_there look d ds ds' b e = ap (λ o. if bytes_eq (dir_name d) b then look d else o) e

  Descended-past :
      (d : MarkupDir) (ds : MarkupDirs) (de : Descent A)
      → bytes_eq (dir_name d) c ≡ false
      → Descended ds de
      → Descended (more_dirs d ds) (past d de)
  Descended-past d ds missing e h = λ look. there look d ds c e ∙ h look
  Descended-past d ds (found r ds' q) e h = record {
    child = h.child;
    before = λ look. there look d ds c e ∙ h.before look;
    after = λ look. there look d ds' c e ∙ h.after look;
    result = h.result;
    elsewhere = λ look b n. both_there look d ds ds' b (h.elsewhere look b n);
  }

  not_here :
      (d : MarkupDir) (b : Bytes)
      → bytes_eq (dir_name d) c ≡ true
      → b ≢ c
      → bytes_eq (dir_name d) b ≡ false
  not_here d b e n = ground (arith, bytes_eq-eq (dir_name d) b, bytes_eq-eq (dir_name d) c)

  IsFound-here :
      ((d : MarkupDir) → dir_name (op d).dir ≡ dir_name d)
      → (d : MarkupDir) (ds : MarkupDirs) → bytes_eq (dir_name d) c ≡ true
      → IsFound (more_dirs d ds) (more_dirs (op d).dir ds) (op d).result (op d).queued
  IsFound-here h d ds e = record {
    child = d;
    before = λ look. here look d ds c e;
    after = λ look. here look (op d).dir ds c (rw (h d) e);
    result = refl;
    elsewhere = λ look b n.
        there look (op d).dir ds b (rw (h d) (not_here d b e n))
        ∙ sym (there look d ds b (not_here d b e n));
  }

  pub change_child_lem :
      ((d : MarkupDir) → dir_name (op d).dir ≡ dir_name d)
      → (ds : MarkupDirs) → Descended ds (change_child op c ds)
  unfolding change_child in_child
  change_child_lem h no_dirs = λ look. refl
  change_child_lem h (more_dirs d ds) = elim (Bool-cases (bytes_eq (dir_name d) c)) [
    | inl e ↦ rw e (IsFound-here h d ds e)
    | inr e ↦ rw e (Descended-past d ds (change_child op c ds) e (change_child_lem h ds))
  ]
