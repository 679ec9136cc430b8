-- ===== src/Markup/Saves.antt =====
-- What `markup_tree_sync` writes, and when it says that all is written.
use gconf_dbus.Prelude.{
  ◌≡◌, refl, sym, ap, ◌∙◌, Bool, true, false, not, ◌&&◌, ◌||◌, List, [], ◌∷◌, ◌++◌, arith, map,
  if◌then◌else◌, Bool-cases, inl, inr, append-nil,
}
use gconf_dbus.CString.{Bytes}
use gconf_dbus.Markup.Entry.{MarkupEntry}
use gconf_dbus.Markup.Dir.{
  DirInfo, MarkupDir, MarkupDirs, make_dir, no_dirs, more_dirs, dir_name, Files, load_entries,
  load_subdirs,
}
use gconf_dbus.Markup.Marks.{
  dir_needs_sync, any_needs_sync, InfoIsMarked, IsMarked, AreMarked, load_subdirs-dir_needs_sync,
}
use gconf_dbus.Markup.Sync.{
  Action, save, remove, is_useless_dir, useless_dirs, useful_dirs, Synced, SyncedDirs, Saved,
  save_entries, reload, delete_useless_subdirs, sync_subdirs, sync_with, sync_child,
  markup_dir_sync, sync_dirs, markup_tree_sync, clean_old_local_schemas, subdirs_done,
}

-- The directories whose files are written.
abbrev pub saves_of : List Action → List (List Bytes)
saves_of [] = []
saves_of (save path es ∷ acts) = path ∷ saves_of acts
saves_of (remove path ∷ acts) = saves_of acts

-- The directories that have to be written, each before those below it.
abbrev mutual
  pub dirty : List Bytes → MarkupDir → List (List Bytes)
  dirty path (make_dir i es ds) =
      (if i.entries_need_save then path ∷ [] else []) ++ dirty_dirs path ds

  pub dirty_dirs : List Bytes → MarkupDirs → List (List Bytes)
  dirty_dirs path no_dirs = []
  dirty_dirs path (more_dirs d ds) = dirty (dir_name d ∷ path) d ++ dirty_dirs path ds

-- All of the writes succeed.
abbrev pub all_saved : (List Bytes → Bool) → List (List Bytes) → Bool
all_saved success [] = true
all_saved success (path ∷ paths) = success path && all_saved success paths

saves_of-append : (xs ys : List Action) → saves_of (xs ++ ys) ≡ saves_of xs ++ saves_of ys
saves_of-append [] ys = refl
saves_of-append (save path es ∷ xs) ys = ap (λ zs. path ∷ zs) (saves_of-append xs ys)
saves_of-append (remove path ∷ xs) ys = saves_of-append xs ys

useless_dirs-saves : (path : List Bytes) (ds : MarkupDirs) → saves_of (useless_dirs path ds) ≡ []
unfolding useless_dirs
useless_dirs-saves path no_dirs = refl
useless_dirs-saves path (more_dirs d ds) = elim (Bool-cases (is_useless_dir d)) [
  | inl e ↦ rw e (useless_dirs-saves path ds)
  | inr e ↦ rw e (useless_dirs-saves path ds)
]

saves-deleted :
    (path : List Bytes) (ds : MarkupDirs) (acts : List Action)
    → saves_of (acts ++ useless_dirs path ds) ≡ saves_of acts
saves-deleted path ds acts =
    saves_of-append acts (useless_dirs path ds)
    ∙ ap (λ ys. saves_of acts ++ ys) (useless_dirs-saves path ds)
    ∙ append-nil _

-- Below a directory that needs no sync, nothing has to be written.
mutual
  clean-dirty :
      (path : List Bytes) (d : MarkupDir)
      → IsMarked d
      → dir_needs_sync d ≡ false
      → dirty path d ≡ []
  clean-dirty path (make_dir i es ds) (m, h) e =
      ground (arith, m.marked, clean-dirty_dirs path ds h)

  clean-dirty_dirs :
      (path : List Bytes) (ds : MarkupDirs)
      → AreMarked ds
      → any_needs_sync ds ≡ false
      → dirty_dirs path ds ≡ []
  clean-dirty_dirs path no_dirs h e = refl
  clean-dirty_dirs path (more_dirs d ds) (h, hs) e =
      ground (arith, clean-dirty (dir_name d ∷ path) d h, clean-dirty_dirs path ds hs)

module _ (files : Files) (success : List Bytes → Bool) where
  saves-at :
      (path : List Bytes) (i : DirInfo) (es : List MarkupEntry) (ds : MarkupDirs) (b : SyncedDirs)
      → InfoIsMarked i (any_needs_sync ds)
      → AreMarked ds
      → saves_of b.actions ≡ dirty_dirs path ds
      → saves_of (sync_with files success path i es ds b).actions ≡ dirty path (make_dir i es ds)
  saves-at path i es ds b m h e = ground (
    arith,
    m.marked,
    m.save_loaded,
    m.sync_loaded,
    clean-dirty_dirs path ds h,
    saves-deleted path ds [],
    saves-deleted path b.dirs b.actions,
  )

  saves-child :
      (path : List Bytes) (d : MarkupDir) (ds : MarkupDirs) (s : Synced) (b : SyncedDirs)
      → IsMarked d
      → saves_of s.actions ≡ dirty (dir_name d ∷ path) d
      → saves_of b.actions ≡ dirty_dirs path ds
      → saves_of (sync_child files success d s b).actions ≡ dirty_dirs path (more_dirs d ds)
  saves-child path d ds s b h e k = elim (Bool-cases (dir_needs_sync d)) [
    | inl n ↦ rw n (
        saves_of-append s.actions b.actions
        ∙ ap (λ xs. xs ++ saves_of b.actions) e
        ∙ ap (λ ys. dirty (dir_name d ∷ path) d ++ ys) k)
    | inr n ↦
        rw n (k ∙ ap (λ xs. xs ++ dirty_dirs path ds) (sym (clean-dirty (dir_name d ∷ path) d h n)))
  ]

  mutual
    unfolding markup_dir_sync sync_dirs

    dir_sync-saves :
        (path : List Bytes) (d : MarkupDir)
        → IsMarked d
        → saves_of (markup_dir_sync files success path d).actions ≡ dirty path d
    dir_sync-saves path (make_dir i es ds) (m, h) =
        saves-at path i (map clean_old_local_schemas es) ds (sync_dirs files success path ds) m h
          (sync_dirs-saves path ds h)

    sync_dirs-saves :
        (path : List Bytes) (ds : MarkupDirs)
        → AreMarked ds
        → saves_of (sync_dirs files success path ds).actions ≡ dirty_dirs path ds
    sync_dirs-saves path no_dirs h = refl
    sync_dirs-saves path (more_dirs d ds) (h, hs) =
        saves-child path d ds (markup_dir_sync files success (dir_name d ∷ path) d)
          (sync_dirs files success path ds) h (dir_sync-saves (dir_name d ∷ path) d h)
          (sync_dirs-saves path ds hs)

  -- markup_tree_sync writes the file of each directory that has to be written, once, a directory
  -- before those below it, and no other file, on a tree whose marks are right: whichever of the
  -- writes fail.
  pub tree_sync-saves :
      (t : MarkupDir)
      → IsMarked t
      → saves_of (markup_tree_sync files success t).actions ≡ dirty [] t
  unfolding markup_tree_sync
  tree_sync-saves t h = elim (Bool-cases (dir_needs_sync t)) [
    | inl e ↦ rw e (dir_sync-saves [] t h)
    | inr e ↦ rw e (sym (clean-dirty [] t h e))
  ]

  all_saved-append :
      (xs ys : List (List Bytes))
      → all_saved success (xs ++ ys) ≡ (all_saved success xs && all_saved success ys)
  all_saved-append [] ys = refl
  all_saved-append (x ∷ xs) ys = ground (arith, all_saved-append xs ys)

  load_entries-dir_needs_sync :
      (path : List Bytes) (d : MarkupDir)
      → dir_needs_sync (load_entries files path d) ≡ dir_needs_sync d
  unfolding load_entries
  load_entries-dir_needs_sync path (make_dir i es ds) = refl

  reload-dir_needs_sync :
      (path : List Bytes) (a b : Bool) (i : DirInfo) (d : MarkupDir)
      → dir_needs_sync (reload files success path a b i d) ≡ dir_needs_sync d
  reload-dir_needs_sync path a b i d = ground (
    arith,
    load_subdirs-dir_needs_sync files path d,
    load_entries-dir_needs_sync path d,
    load_entries-dir_needs_sync path (load_subdirs files path d),
  )

  deleted-ok :
      (path : List Bytes) (i : DirInfo) (es : List MarkupEntry) (ds : MarkupDirs) (u : Bool)
      → (acts : List Action)
      → (delete_useless_subdirs files success path i es ds u acts).ok
        ≡ not (i.entries_need_save || i.some_subdir_needs_sync)
  deleted-ok path i es ds u acts =
      ap not (reload-dir_needs_sync path u _ i (make_dir i es (useful_dirs ds)))

  sub-ok :
      (path : List Bytes) (s : Saved) (ds : MarkupDirs) (b : SyncedDirs)
      → (s.info.some_subdir_needs_sync ≡ true → s.info.subdirs_loaded ≡ true)
      → (sync_subdirs files success path s ds b).ok
        ≡ not (s.info.entries_need_save || (s.info.some_subdir_needs_sync && b.one_failed))
  sub-ok path s ds b h = ground (
    arith,
    deleted-ok path (subdirs_done b.one_failed s.info) s.entries b.dirs s.some_useless_entries
        (s.actions ++ b.actions),
    deleted-ok path s.info s.entries ds s.some_useless_entries s.actions,
  )

  ok-at :
      (path : List Bytes) (i : DirInfo) (es : List MarkupEntry) (ds : MarkupDirs) (b : SyncedDirs)
      → InfoIsMarked i (any_needs_sync ds)
      → AreMarked ds
      → b.one_failed ≡ not (all_saved success (dirty_dirs path ds))
      → (sync_with files success path i es ds b).ok
        ≡ all_saved success (dirty path (make_dir i es ds))
  ok-at path i es ds b m h e = ground (
    arith,
    m.marked,
    m.save_loaded,
    m.sync_loaded,
    clean-dirty_dirs path ds h,
    sub-ok path (save_entries files success path i es) ds b,
  )

  ok-child :
      (path : List Bytes) (d : MarkupDir) (ds : MarkupDirs) (s : Synced) (b : SyncedDirs)
      → IsMarked d
      → s.ok ≡ all_saved success (dirty (dir_name d ∷ path) d)
      → b.one_failed ≡ not (all_saved success (dirty_dirs path ds))
      → (sync_child files success d s b).one_failed
        ≡ not (all_saved success (dirty_dirs path (more_dirs d ds)))
  ok-child path d ds s b h e k = ground (
    arith,
    all_saved-append (dirty (dir_name d ∷ path) d) (dirty_dirs path ds),
    clean-dirty (dir_name d ∷ path) d h,
  )

  mutual
    unfolding markup_dir_sync sync_dirs

    dir_sync-ok :
        (path : List Bytes) (d : MarkupDir)
        → IsMarked d
        → (markup_dir_sync files success path d).ok ≡ all_saved success (dirty path d)
    dir_sync-ok path (make_dir i es ds) (m, h) =
        ok-at path i (map clean_old_local_schemas es) ds (sync_dirs files success path ds) m h
          (sync_dirs-one_failed path ds h)

    sync_dirs-one_failed :
        (path : List Bytes) (ds : MarkupDirs)
        → AreMarked ds
        → (sync_dirs files success path ds).one_failed
          ≡ not (all_saved success (dirty_dirs path ds))
    sync_dirs-one_failed path no_dirs h = refl
    sync_dirs-one_failed path (more_dirs d ds) (h, hs) =
        ok-child path d ds (markup_dir_sync files success (dir_name d ∷ path) d)
          (sync_dirs files success path ds) h (dir_sync-ok (dir_name d ∷ path) d h)
          (sync_dirs-one_failed path ds hs)

  -- On a tree whose marks are right, markup_tree_sync says that it wrote all exactly when the write
  -- of every directory that has to be written succeeds.
  pub tree_sync-ok :
      (t : MarkupDir)
      → IsMarked t
      → (markup_tree_sync files success t).ok ≡ all_saved success (dirty [] t)
  unfolding markup_tree_sync
  tree_sync-ok t h = elim (Bool-cases (dir_needs_sync t)) [
    | inl e ↦ rw e (dir_sync-ok [] t h)
    | inr e ↦ rw e (ap (all_saved success) (sym (clean-dirty [] t h e)))
  ]
