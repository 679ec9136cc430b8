-- ===== src/Markup/Listed.antt =====
-- Listing keeps the marks of what has to be written.
use gconf_dbus.Prelude.{◌≡◌, refl, sym, ap, ◌∙◌, false, List}
use mathlib.Core.Bool.{true≢false}
use gconf_dbus.CString.{Bytes}
use gconf_dbus.Platform.{Platform}
use gconf_dbus.Markup.Dir.{MarkupDir, make_dir, Files, load_entries, load_subdirs, Step}
use gconf_dbus.Markup.Marks.{
  dir_needs_sync, IsMarked, KeepsMarks, load_subdirs-IsMarked, load_subdirs-dir_needs_sync,
}
use gconf_dbus.Markup.Listing.{list_entries, list_subdirs, here}

module _ (files : Files) where
  -- An operation that changes no mark.
  still :
      {A : Type 0} (w : MarkupDir → Step A)
      → ((d : MarkupDir) → IsMarked d → IsMarked (w d).dir)
      → ((d : MarkupDir) → dir_needs_sync (w d).dir ≡ dir_needs_sync d)
      → KeepsMarks false w
  still w k q = record { kept = k; quiet = λ d e. q d; fresh = λ e. absurd (true≢false (sym e)) }

  pub entries-KeepsMarks :
      (p : Platform) (locales path : List Bytes)
      → KeepsMarks false (list_entries p files locales path)
  unfolding list_entries load_entries
  entries-KeepsMarks p locales path = still _ entries-kept entries-same
    where
      entries-kept :
          (d : MarkupDir) → IsMarked d → IsMarked (list_entries p files locales path d).dir
      entries-kept (make_dir i es ds) (m, h) =
          (record { marked = m.marked; save_loaded = λ e. refl; sync_loaded = m.sync_loaded }, h)

      entries-same :
          (d : MarkupDir)
          → dir_needs_sync (list_entries p files locales path d).dir ≡ dir_needs_sync d
      entries-same (make_dir i es ds) = refl

  list_subdirs-dir :
      (path : List Bytes) (d : MarkupDir)
      → (list_subdirs files path d).dir ≡ load_subdirs files path d
  unfolding list_subdirs load_subdirs
  list_subdirs-dir path (make_dir i es ds) = refl

  pub subdirs-KeepsMarks : (path : List Bytes) → KeepsMarks false (list_subdirs files path)
  subdirs-KeepsMarks path =
      still (list_subdirs files path)
        (λ d h. rw (list_subdirs-dir path d) (load_subdirs-IsMarked files path d h))
        (λ d.
          ap dir_needs_sync (list_subdirs-dir path d) ∙ load_subdirs-dir_needs_sync files path d)

  pub here-KeepsMarks : (path : List Bytes) → KeepsMarks false (here path)
  here-KeepsMarks path = still (here path) (λ d h. h) (λ d. refl)
