-- ===== src/Markup/Marks.antt =====
-- The marks of the directories that have to be written: each directory above such a one is marked,
-- and what has to be written is loaded.
use gconf_dbus.Prelude.{
  ◌≡◌, refl, sym, ap, ◌∙◌, Bool, true, false, ◌||◌, List, [], ◌∷◌, if◌then◌else◌, Bool-cases, inl,
  inr,
}
use mathlib.Core.Bool.{true≢false}
use gconf_dbus.CString.{Bytes, bytes_eq}
use gconf_dbus.Markup.Entry.{MarkupEntry}
use gconf_dbus.Markup.Dir.{
  DirInfo, MarkupDir, MarkupDirs, make_dir, no_dirs, more_dirs, dir_name, dir_new, fresh_dir,
  subdirs_read, mark, Files, new_subdirs, load_subdirs, Step, Descent, missing, found, past,
  change_child, entered,
}

-- markup_dir_needs_sync
abbrev pub dir_needs_sync : MarkupDir → Bool
dir_needs_sync (make_dir i es ds) = i.entries_need_save || i.some_subdir_needs_sync

abbrev pub any_needs_sync : MarkupDirs → Bool
any_needs_sync no_dirs = false
any_needs_sync (more_dirs d ds) = dir_needs_sync d || any_needs_sync ds

pub record InfoIsMarked (i : DirInfo) (below : Bool) : Type 0 where
  pub marked : below ≡ true → i.some_subdir_needs_sync ≡ true
  pub save_loaded : i.entries_need_save ≡ true → i.entries_loaded ≡ true
  pub sync_loaded : i.some_subdir_needs_sync ≡ true → i.subdirs_loaded ≡ true

abbrev mutual
  pub IsMarked : MarkupDir → Type 0
  IsMarked (make_dir i es ds) = InfoIsMarked i (any_needs_sync ds) × AreMarked ds

  pub AreMarked : MarkupDirs → Type 0
  AreMarked no_dirs = Unit
  AreMarked (more_dirs d ds) = IsMarked d × AreMarked ds

-- A directory with no child and no mark, or with the mark to be written and loaded.
pub bare :
    (i : DirInfo)
    → i.some_subdir_needs_sync ≡ false
    → (i.entries_need_save ≡ true → i.entries_loaded ≡ true)
    → InfoIsMarked i false
bare i h k = record {
  marked = λ e. absurd (true≢false (sym e));
  save_loaded = k;
  sync_loaded = λ e. absurd (true≢false (sym e ∙ h));
}

-- Subdirectories that are read from the disk have no mark.
abbrev AreUnmarked : MarkupDirs → Type 0
AreUnmarked ds = AreMarked ds × (any_needs_sync ds ≡ false)

add_new :
    (n : Bytes) (b : Bool) (ds : MarkupDirs)
    → AreUnmarked ds
    → AreUnmarked (if b then more_dirs (dir_new n) ds else ds)
add_new n false ds h = h
add_new n true ds (h, k) = (((bare _ refl (λ e. absurd (true≢false (sym e))), tt), h), k)

new_subdirs-AreUnmarked :
    (files : Files) (path names : List Bytes) (ds : MarkupDirs)
    → AreUnmarked ds
    → AreUnmarked (new_subdirs files path names ds)
unfolding new_subdirs
new_subdirs-AreUnmarked files path [] ds h = h
new_subdirs-AreUnmarked files path (n ∷ names) ds h =
    new_subdirs-AreUnmarked files path names _ (add_new n _ ds h)

loaded-IsMarked :
    (i : DirInfo) (ds new : MarkupDirs) (b : Bool)
    → i.subdirs_loaded ≡ b
    → InfoIsMarked i (any_needs_sync ds)
    → AreMarked ds
    → AreUnmarked new
    → InfoIsMarked (subdirs_read i) (any_needs_sync (if b then ds else new))
      × AreMarked (if b then ds else new)
loaded-IsMarked i ds new true e m h k =
    (record { marked = m.marked; save_loaded = m.save_loaded; sync_loaded = λ x. refl }, h)
loaded-IsMarked i ds new false e m h (k, n) = (
  record {
    marked = λ x. absurd (true≢false (sym x ∙ n));
    save_loaded = m.save_loaded;
    sync_loaded = λ x. refl;
  },
  k,
)

pub load_subdirs-IsMarked :
    (files : Files) (path : List Bytes) (d : MarkupDir)
    → IsMarked d
    → IsMarked (load_subdirs files path d)
unfolding load_subdirs
load_subdirs-IsMarked files path (make_dir i es ds) (m, h) =
    loaded-IsMarked i ds _ i.subdirs_loaded refl m h
      (new_subdirs-AreUnmarked files path (files.listing path) no_dirs (tt, refl))

pub load_subdirs-dir_needs_sync :
    (files : Files) (path : List Bytes) (d : MarkupDir)
    → dir_needs_sync (load_subdirs files path d) ≡ dir_needs_sync d
unfolding load_subdirs
load_subdirs-dir_needs_sync files path (make_dir i es ds) = refl

-- An operation keeps the marks: where it asks for none above, the directory needs to be written as
-- before. In a fresh directory it asks for marks.
pub record KeepsMarks {A : Type 0} (create : Bool) (w : MarkupDir → Step A) : Type 0 where
  pub kept : (d : MarkupDir) → IsMarked d → IsMarked (w d).dir
  pub quiet : (d : MarkupDir) → (w d).queued ≡ false → dir_needs_sync (w d).dir ≡ dir_needs_sync d
  pub fresh : create ≡ true → (c : Bytes) → (w (fresh_dir c)).queued ≡ true

module _ {A : Type 0} (create : Bool) (w : MarkupDir → Step A) (k : KeepsMarks create w)
    (c : Bytes) where
  abbrev ChildrenKept : MarkupDirs → Descent A → Type 0
  ChildrenKept ds missing = Unit
  ChildrenKept ds (found r ds' q) =
      AreMarked ds' × (q ≡ false → any_needs_sync ds' ≡ any_needs_sync ds)

  kept-past :
      (d : MarkupDir) (ds : MarkupDirs) (de : Descent A)
      → IsMarked d
      → ChildrenKept ds de
      → ChildrenKept (more_dirs d ds) (past d de)
  kept-past d ds missing h g = tt
  kept-past d ds (found r ds' q) h g = ((h, g.0), λ e. ap (λ b. dir_needs_sync d || b) (g.1 e))

  pub change_child-kept : (ds : MarkupDirs) → AreMarked ds → ChildrenKept ds (change_child w c ds)
  unfolding change_child
  change_child-kept no_dirs h = tt
  change_child-kept (more_dirs d ds) (h, hs) = elim (Bool-cases (bytes_eq (dir_name d) c)) [
    | inl e ↦ rw e ((k.kept d h, hs), λ q. ap (λ b. b || any_needs_sync ds) (k.quiet d q))
    | inr e ↦ rw e (kept-past d ds (change_child w c ds) h (change_child-kept ds hs))
  ]

  mark-kept :
      (q : Bool) (i : DirInfo) (ds ds' : MarkupDirs)
      → InfoIsMarked (subdirs_read i) (any_needs_sync ds)
      → (q ≡ false → any_needs_sync ds' ≡ any_needs_sync ds)
      → InfoIsMarked (mark q (subdirs_read i)) (any_needs_sync ds')
  mark-kept true i ds ds' m h = record {
    marked = λ e. refl;
    save_loaded = m.save_loaded;
    sync_loaded = λ e. refl;
  }
  mark-kept false i ds ds' m h = record {
    marked = λ e. m.marked (sym (h refl) ∙ e);
    save_loaded = m.save_loaded;
    sync_loaded = λ e. refl;
  }

  pub entered-kept :
      (b : Bool) (i : DirInfo) (es : List MarkupEntry) (ds : MarkupDirs) (de : Descent A)
      → create ≡ b
      → IsMarked (make_dir (subdirs_read i) es ds)
      → ChildrenKept ds de
      → IsMarked (entered b w c (subdirs_read i) es ds de).dir
  entered-kept b i es ds (found r ds' q) e (m, h) g = (mark-kept q i ds ds' m g.1, g.0)
  entered-kept true i es ds missing e (m, h) g = (
    mark-kept (w (fresh_dir c)).queued i ds (more_dirs (w (fresh_dir c)).dir ds) m
        (λ q. absurd (true≢false (sym (k.fresh e c) ∙ q))),
    (k.kept (fresh_dir c) ((bare _ refl (λ x. refl)), tt), h),
  )
  entered-kept false i es ds missing e (m, h) g = (m, h)

  pub entered-quiet :
      (b : Bool) (i : DirInfo) (es : List MarkupEntry) (ds : MarkupDirs) (de : Descent A)
      → (entered b w c (subdirs_read i) es ds de).queued ≡ false
      → dir_needs_sync (entered b w c (subdirs_read i) es ds de).dir
        ≡ dir_needs_sync (make_dir (subdirs_read i) es ds)
  entered-quiet b i es ds (found r ds' q) e =
      ap (λ x. i.entries_need_save || (x || i.some_subdir_needs_sync)) e
  entered-quiet true i es ds missing e =
      ap (λ x. i.entries_need_save || (x || i.some_subdir_needs_sync)) e
  entered-quiet false i es ds missing e = refl
