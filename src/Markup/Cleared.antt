-- ===== src/Markup/Cleared.antt =====
-- The sync keeps the marks of what has to be written, and says that all is written exactly when it
-- leaves no mark at the root.
use gconf_dbus.Prelude.{
  ◌≡◌, refl, sym, ◌∙◌, Bool, true, false, not, ◌&&◌, List, [], ◌∷◌, ◌++◌, arith, map, if◌then◌else◌,
  Bool-cases, inl, inr,
}
use mathlib.Core.Bool.{true≢false}
use gconf_dbus.CString.{Bytes}
use gconf_dbus.Markup.Entry.{MarkupEntry}
use gconf_dbus.Markup.Dir.{
  DirInfo, MarkupDir, MarkupDirs, make_dir, no_dirs, more_dirs, dir_name, Files, load_entries,
  load_subdirs,
}
use gconf_dbus.Markup.Marks.{
  dir_needs_sync, any_needs_sync, InfoIsMarked, IsMarked, AreMarked, load_subdirs-IsMarked,
}
use gconf_dbus.Markup.Sync.{
  Action, is_useless_dir, useless_dirs, useful_dirs, Synced, SyncedDirs, Saved, save_entries,
  some_action, delete_useless_subdirs, sync_subdirs, sync_with, sync_child, markup_dir_sync,
  sync_dirs, markup_tree_sync, clean_old_local_schemas, subdirs_done,
}

-- A predicate on each branch, where it is taken.
if_holds :
    {A : Type 0} (P : A → Type 0) (c : Bool) (x y : A)
    → (c ≡ true → P x)
    → (c ≡ false → P y)
    → P (if c then x else y)
if_holds P true x y f g = f refl
if_holds P false x y f g = g refl

useful_dirs-AreMarked : (ds : MarkupDirs) → AreMarked ds → AreMarked (useful_dirs ds)
unfolding useful_dirs
useful_dirs-AreMarked no_dirs h = tt
useful_dirs-AreMarked (more_dirs d ds) (h, hs) = elim (Bool-cases (is_useless_dir d)) [
  | inl e ↦ rw e (useful_dirs-AreMarked ds hs)
  | inr e ↦ rw e (h, useful_dirs-AreMarked ds hs)
]

useful_dirs-needs :
    (ds : MarkupDirs) → any_needs_sync (useful_dirs ds) ≡ true → any_needs_sync ds ≡ true
unfolding useful_dirs
useful_dirs-needs no_dirs h = h
useful_dirs-needs (more_dirs d ds) h = ground (arith, useful_dirs-needs ds, h)

load_entries-IsMarked :
    (files : Files) (path : List Bytes) (d : MarkupDir)
    → IsMarked d
    → IsMarked (load_entries files path d)
unfolding load_entries
load_entries-IsMarked files path (make_dir i es ds) (m, h) =
    (record { marked = m.marked; save_loaded = λ e. refl; sync_loaded = m.sync_loaded }, h)

-- After a sync of a directory: the marks are right, and the result says whether there are any.
abbrev IsSynced : Synced → Type 0
IsSynced s = IsMarked s.dir × (s.ok ≡ not (dir_needs_sync s.dir))

abbrev AreSynced : SyncedDirs → Type 0
AreSynced b = AreMarked b.dirs × (b.one_failed ≡ any_needs_sync b.dirs)

module _ (files : Files) (success : List Bytes → Bool) where
  loads-IsMarked :
      (path : List Bytes) (a b : Bool) (d : MarkupDir)
      → IsMarked d
      → IsMarked (
          if b
          then load_entries files path (if a then load_subdirs files path d else d)
          else (if a then load_subdirs files path d else d))
  loads-IsMarked path true true d h =
      load_entries-IsMarked files path (load_subdirs files path d)
        (load_subdirs-IsMarked files path d h)
  loads-IsMarked path true false d h = load_subdirs-IsMarked files path d h
  loads-IsMarked path false true d h = load_entries-IsMarked files path d h
  loads-IsMarked path false false d h = h

  deleted-IsSynced :
      (path : List Bytes) (i : DirInfo) (es : List MarkupEntry) (ds : MarkupDirs) (u : Bool)
      → (acts : List Action) → InfoIsMarked i (any_needs_sync ds)
      → AreMarked ds
      → IsSynced (delete_useless_subdirs files success path i es ds u acts)
  deleted-IsSynced path i es ds u acts m h = (
    loads-IsMarked path (u && not i.subdirs_loaded)
        (some_action (useless_dirs path ds) && not i.entries_loaded)
        (make_dir i es (useful_dirs ds))
        (
          record {
            marked = λ e. m.marked (useful_dirs-needs ds e);
            save_loaded = m.save_loaded;
            sync_loaded = m.sync_loaded;
          },
          useful_dirs-AreMarked ds h,
        ),
    refl,
  )

  -- Saving the entries takes a mark away, or none.
  save_entries-marks :
      (path : List Bytes) (i : DirInfo) (es : List MarkupEntry) (below : Bool)
      → InfoIsMarked i below
      → InfoIsMarked (save_entries files success path i es).info below
  save_entries-marks path i es below m =
      if_holds (λ (s : Saved). InfoIsMarked s.info below) i.entries_need_save _ _
        (λ e. record {
          marked = m.marked;
          save_loaded = λ x. m.save_loaded e;
          sync_loaded = m.sync_loaded;
        })
        (λ e. m)

  subdirs-IsSynced :
      (path : List Bytes) (s : Saved) (ds : MarkupDirs) (b : SyncedDirs)
      → InfoIsMarked s.info (any_needs_sync ds)
      → AreMarked ds
      → AreSynced b
      → IsSynced (sync_subdirs files success path s ds b)
  subdirs-IsSynced path s ds b m h (hb, f) =
      if_holds IsSynced s.info.some_subdir_needs_sync _ _
        (λ e.
          if_holds IsSynced s.info.subdirs_loaded _ _
            (λ l.
              deleted-IsSynced path (subdirs_done b.one_failed s.info) s.entries b.dirs
                s.some_useless_entries (s.actions ++ b.actions)
                (record {
                  marked = λ x. ground (arith, e, f, x);
                  save_loaded = m.save_loaded;
                  sync_loaded = λ x. l;
                })
                hb)
            (λ l. absurd (true≢false (sym (m.sync_loaded e) ∙ l))))
        (λ e. deleted-IsSynced path s.info s.entries ds s.some_useless_entries s.actions m h)

  at-IsSynced :
      (path : List Bytes) (i : DirInfo) (es : List MarkupEntry) (ds : MarkupDirs) (b : SyncedDirs)
      → InfoIsMarked i (any_needs_sync ds)
      → AreMarked ds
      → AreSynced b
      → IsSynced (sync_with files success path i es ds b)
  at-IsSynced path i es ds b m h s =
      if_holds IsSynced (i.entries_need_save && not i.entries_loaded) _ _
        (λ e. absurd (ground (arith, m.save_loaded, e)))
        (λ e.
          subdirs-IsSynced path (save_entries files success path i es) ds b
            (save_entries-marks path i es (any_needs_sync ds) m) h s)

  child-AreSynced :
      (d : MarkupDir) (s : Synced) (b : SyncedDirs)
      → IsMarked d
      → IsSynced s
      → AreSynced b
      → AreSynced (sync_child files success d s b)
  child-AreSynced d s b h (hs, k) (hb, f) = elim (Bool-cases (dir_needs_sync d)) [
    | inl e ↦ rw e ((hs, hb), ground (arith, k, f))
    | inr e ↦ rw e ((h, hb), ground (arith, e, f))
  ]

  mutual
    unfolding markup_dir_sync sync_dirs

    dir_sync-IsSynced :
        (path : List Bytes) (d : MarkupDir)
        → IsMarked d
        → IsSynced (markup_dir_sync files success path d)
    dir_sync-IsSynced path (make_dir i es ds) (m, h) =
        at-IsSynced path i (map clean_old_local_schemas es) ds (sync_dirs files success path ds) m h
          (sync_dirs-AreSynced path ds h)

    sync_dirs-AreSynced :
        (path : List Bytes) (ds : MarkupDirs)
        → AreMarked ds
        → AreSynced (sync_dirs files success path ds)
    sync_dirs-AreSynced path no_dirs h = (tt, refl)
    sync_dirs-AreSynced path (more_dirs d ds) (h, hs) =
        child-AreSynced d (markup_dir_sync files success (dir_name d ∷ path) d)
          (sync_dirs files success path ds) h (dir_sync-IsSynced (dir_name d ∷ path) d h)
          (sync_dirs-AreSynced path ds hs)

  pub tree_sync-IsMarked :
      (t : MarkupDir) → IsMarked t → IsMarked (markup_tree_sync files success t).dir
  unfolding markup_tree_sync
  tree_sync-IsMarked t h =
      if_holds (λ (s : Synced). IsMarked s.dir) (dir_needs_sync t) _ _
        (λ e. (dir_sync-IsSynced [] t h).0) (λ e. h)
