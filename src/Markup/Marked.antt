-- ===== src/Markup/Marked.antt =====
-- The operations of the markup backend keep the marks of what has to be written.
use gconf_dbus.Prelude.{
  ℕ, ◌≡◌, refl, sym, if◌then◌else◌, Bool, true, false, Option, List, [], ◌∷◌, Option-cases, inl,
  inr,
}
use mathlib.Core.Bool.{true≢false}
use gconf_dbus.CString.{Bytes}
use gconf_dbus.Platform.{Platform}
use gconf_dbus.Value.{GConfValue}
use gconf_dbus.Markup.Entry.{MarkupEntry}
use gconf_dbus.Markup.Dir.{
  DirInfo, MarkupDir, MarkupDirs, make_dir, no_dirs, fresh_dir, entries_read, Files, load_entries,
  load_subdirs, Step, missing, change_child, entered, enter, walk, lookup_entry, update_entry,
  EntryChange, absent, unchanged, changed, apply_change, change_entry,
}
use gconf_dbus.Markup.Marks.{
  dir_needs_sync, IsMarked, KeepsMarks, bare, change_child-kept, entered-kept, entered-quiet,
  load_subdirs-IsMarked,
}
use gconf_dbus.Markup.Sync.{markup_tree_sync}
use gconf_dbus.Markup.Listing.{
  list_entries, list_subdirs, here, ms_all_entries, ms_all_subdirs, ms_dir_exists, ms_clear_cache,
}
use gconf_dbus.Markup.Listed.{entries-KeepsMarks, subdirs-KeepsMarks, here-KeepsMarks}
use gconf_dbus.Markup.Cleared.{tree_sync-IsMarked}
use gconf_dbus.Listeners.Table.{dirnames_of}
use gconf_dbus.Markup.Backend.{
  location_of, tree_new, tree_lookup_entry, tree_update_entry, ms_query_value, ms_query_metainfo,
  ms_set_value, ms_unset_value, ms_set_schema,
}

entered-fresh :
    {A : Type 0} (create : Bool) (w : MarkupDir → Step A) (b : Bytes) (i : DirInfo)
    → (es : List MarkupEntry) (ds : MarkupDirs) → create ≡ true
    → (w (fresh_dir b)).queued ≡ true
    → (entered create w b i es ds missing).queued ≡ true
entered-fresh true w b i es ds e h = h
entered-fresh false w b i es ds e h = absurd (true≢false (sym e))

module _ (files : Files) (create : Bool) {A : Type 0} (w : MarkupDir → Step A)
    (k : KeepsMarks create w) (path : List Bytes) (c : Bytes) where
  abbrev into : MarkupDir → Step A
  into d = enter create w c (load_subdirs files path d)

  into-kept : (d : MarkupDir) → IsMarked d → IsMarked (into d).dir
  unfolding load_subdirs
  into-kept (make_dir i es ds) h =
      let m = load_subdirs-IsMarked files path (make_dir i es ds) h in
      entered-kept create w k c create i es _ (change_child w c _) refl m
        (change_child-kept create w k c _ m.1)

  into-quiet :
      (d : MarkupDir) → (into d).queued ≡ false → dir_needs_sync (into d).dir ≡ dir_needs_sync d
  unfolding load_subdirs
  into-quiet (make_dir i es ds) e = entered-quiet create w k c create i es _ (change_child w c _) e

  into-fresh : create ≡ true → (b : Bytes) → (into (fresh_dir b)).queued ≡ true
  unfolding load_subdirs change_child
  into-fresh e b = entered-fresh create w c _ [] no_dirs e (k.fresh e c)

  into-KeepsMarks : KeepsMarks create into
  into-KeepsMarks = record { kept = into-kept; quiet = into-quiet; fresh = into-fresh }

module _ (files : Files) (create : Bool) {A : Type 0} (op : List Bytes → MarkupDir → Step A)
    (law : (path : List Bytes) → KeepsMarks create (op path)) where
  walk-KeepsMarks : (path cs : List Bytes) → KeepsMarks create (walk files create op path cs)
  unfolding walk
  walk-KeepsMarks path [] = law path
  walk-KeepsMarks path (c ∷ cs) =
      into-KeepsMarks files create (walk files create op (c ∷ path) cs)
        (walk-KeepsMarks (c ∷ path) cs) path c

module _ (files : Files) (name : Bytes) (path : List Bytes) where
  lookup-kept : (d : MarkupDir) → IsMarked d → IsMarked (lookup_entry files name path d).dir
  unfolding lookup_entry load_entries
  lookup-kept (make_dir i es ds) (m, h) =
      (record { marked = m.marked; save_loaded = λ e. refl; sync_loaded = m.sync_loaded }, h)

  lookup-quiet :
      (d : MarkupDir) → dir_needs_sync (lookup_entry files name path d).dir ≡ dir_needs_sync d
  unfolding lookup_entry load_entries
  lookup-quiet (make_dir i es ds) = refl

  lookup_entry-KeepsMarks : KeepsMarks false (lookup_entry files name path)
  lookup_entry-KeepsMarks = record {
    kept = lookup-kept;
    quiet = λ d q. lookup-quiet d;
    fresh = λ e. absurd (true≢false (sym e));
  }

  module _ (g : MarkupEntry → Option MarkupEntry) where
    applied-kept :
        (i : DirInfo) (es : List MarkupEntry) (ds : MarkupDirs) (ch : EntryChange)
        → IsMarked (make_dir i es ds)
        → IsMarked (apply_change g name (entries_read i) es ds ch).dir
    applied-kept i es ds absent (m, h) =
        (record { marked = m.marked; save_loaded = λ e. refl; sync_loaded = m.sync_loaded }, h)
    applied-kept i es ds unchanged (m, h) =
        (record { marked = m.marked; save_loaded = λ e. refl; sync_loaded = m.sync_loaded }, h)
    applied-kept i es ds (changed es') (m, h) =
        (record { marked = m.marked; save_loaded = λ e. refl; sync_loaded = m.sync_loaded }, h)

    applied-quiet :
        (i : DirInfo) (es : List MarkupEntry) (ds : MarkupDirs) (ch : EntryChange)
        → (apply_change g name (entries_read i) es ds ch).queued ≡ false
        → dir_needs_sync (apply_change g name (entries_read i) es ds ch).dir
          ≡ dir_needs_sync (make_dir i es ds)
    applied-quiet i es ds absent e = absurd (true≢false e)
    applied-quiet i es ds unchanged e = refl
    applied-quiet i es ds (changed es') e = absurd (true≢false e)

    update-kept : (d : MarkupDir) → IsMarked d → IsMarked (update_entry files g name path d).dir
    unfolding update_entry load_entries
    update-kept (make_dir i es ds) h = applied-kept i _ ds _ h

    update-quiet :
        (d : MarkupDir)
        → (update_entry files g name path d).queued ≡ false
        → dir_needs_sync (update_entry files g name path d).dir ≡ dir_needs_sync d
    unfolding update_entry load_entries
    update-quiet (make_dir i es ds) e = applied-quiet i _ ds _ e

    update-fresh : (c : Bytes) → (update_entry files g name path (fresh_dir c)).queued ≡ true
    unfolding update_entry load_entries change_entry
    update-fresh c = refl

    update_entry-KeepsMarks : KeepsMarks true (update_entry files g name path)
    update_entry-KeepsMarks = record {
      kept = update-kept;
      quiet = update-quiet;
      fresh = λ e. update-fresh;
    }

module _ (files : Files) where
  lookup-IsMarked :
      (t : MarkupDir) (key : Bytes) → IsMarked t → IsMarked (tree_lookup_entry files t key).dir
  unfolding tree_lookup_entry
  lookup-IsMarked t key h = elim (Option-cases (location_of key)) [
    | inl e ↦ rw e h
    | inr (l, e) ↦ rw e (
        (walk-KeepsMarks files false (lookup_entry files l.name)
            (lookup_entry-KeepsMarks files l.name) [] l.dirs).kept
          t h)
  ]

  update-IsMarked :
      (g : MarkupEntry → Option MarkupEntry) (t : MarkupDir) (key : Bytes)
      → IsMarked t
      → IsMarked (tree_update_entry files g t key)
  unfolding tree_update_entry
  update-IsMarked g t key h = elim (Option-cases (location_of key)) [
    | inl e ↦ rw e h
    | inr (l, e) ↦ rw e (
        (walk-KeepsMarks files true (update_entry files g l.name)
            (λ path. update_entry-KeepsMarks files l.name path g) [] l.dirs).kept
          t h)
  ]

pub tree_new-IsMarked : IsMarked tree_new
tree_new-IsMarked = (bare _ refl (λ e. absurd (true≢false (sym e))), tt)

rebuilt-IsMarked : (ok : Bool) (d : MarkupDir) → IsMarked d → IsMarked (if ok then tree_new else d)
rebuilt-IsMarked true d h = tree_new-IsMarked
rebuilt-IsMarked false d h = h

module _ (files : Files) where
  -- The operations of the markup backend that are modelled (ms_query_value, ms_query_metainfo,
  -- ms_set_value, ms_unset_value, ms_set_schema, ms_all_entries, ms_all_subdirs, ms_dir_exists,
  -- markup_tree_sync and ms_clear_cache) keep the marks, whichever writes succeed: whatever has to
  -- be written is loaded, and all directories above it are marked.
  pub operations-IsMarked :
      (p : Platform) (t : MarkupDir) (now : ℕ) (key : Bytes) (v : GConfValue)
      → (locale name : Option Bytes) (locales : List Bytes) (wanted : Bool)
      → (success : List Bytes → Bool) → IsMarked t
      → IsMarked (ms_query_value p files t key locales wanted).1
        × IsMarked (ms_query_metainfo p files t key).1
        × IsMarked (ms_set_value p files now t key v)
        × IsMarked (ms_unset_value p files now t key locale)
        × IsMarked (ms_set_schema p files now t key name)
        × IsMarked (ms_all_entries files p t key locales).1
        × IsMarked (ms_all_subdirs files t key).1
        × IsMarked (ms_dir_exists files t key).1
        × IsMarked (markup_tree_sync files success t).dir
        × IsMarked (ms_clear_cache files success t)
  unfolding ms_query_value ms_query_metainfo ms_set_value ms_unset_value ms_set_schema
      ms_all_entries ms_all_subdirs ms_dir_exists ms_clear_cache
  operations-IsMarked p t now key v locale name locales wanted success h = (
    lookup-IsMarked files t key h,
    lookup-IsMarked files t key h,
    update-IsMarked files _ t key h,
    update-IsMarked files _ t key h,
    update-IsMarked files _ t key h,
    (walk-KeepsMarks files false (list_entries p files locales) (entries-KeepsMarks files p locales)
          [] (dirnames_of key)).kept
        t h,
    (walk-KeepsMarks files false (list_subdirs files) (subdirs-KeepsMarks files) []
          (dirnames_of key)).kept
        t h,
    (walk-KeepsMarks files false here (here-KeepsMarks files) [] (dirnames_of key)).kept t h,
    tree_sync-IsMarked files success t h,
    rebuilt-IsMarked (markup_tree_sync files success t).ok _ (tree_sync-IsMarked files success t h),
  )
