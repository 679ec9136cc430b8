-- ===== src/Markup/Query.antt =====
-- What the markup backend answers after its operations.
use gconf_dbus.Prelude.{
  ◌≡◌, refl, sym, ap, ◌∙◌, ◌≢◌, true, false, Option, none, some, List, [], ◌∷◌, Option-cases, inl,
  inr,
}
use native.Mathlib.Decide.{ℕ_discrete}
use mathlib.Core.List.{List-discrete}
use mathlib.Core.Bool.{true≢false}
use gconf_dbus.CString.{Bytes}
use gconf_dbus.Markup.Entry.{MarkupEntry}
use gconf_dbus.Markup.Dir.{
  DirInfo, MarkupDir, MarkupDirs, make_dir, Files, load_entries, load_subdirs, Step, Descent,
  missing, found, entered, walk, lookup_entry, update_entry, subdirs_read,
}
use gconf_dbus.Markup.View.{view, in_child, Descended, change_child_lem}
use gconf_dbus.Markup.Walk.{walk-name, walk-view, walk-view_ne}
use gconf_dbus.Markup.Changes.{
  lookup_entry-IsLocal, update_entry-IsLocal, updated, updated_at, updated_at_self,
  updated_at_other, KeepsName,
}
use gconf_dbus.Markup.Backend.{
  Location, location_of, tree_lookup_entry, tree_update_entry, entry_of,
}

dirs-discrete : Discrete (List Bytes)
dirs-discrete = List-discrete (List-discrete ℕ_discrete)

-- The result of a step into a child.
entered-result :
    (w : MarkupDir → Step (Option MarkupEntry)) (c : Bytes) (i : DirInfo) (es : List MarkupEntry)
    → (ds : MarkupDirs) (look : MarkupDir → Option MarkupEntry)
    → ((d : MarkupDir) → entry_of (w d).result ≡ look d)
    → (de : Descent (Option MarkupEntry)) → Descended w c ds de
    → entry_of (entered false w c i es ds de).result ≡ in_child look c ds
entered-result w c i es ds look h missing k = sym (k look)
entered-result w c i es ds look h (found r ds' q) k =
    ap entry_of k.result ∙ h k.child ∙ sym (k.before look)

module _ (files : Files) (name : Bytes) where
  -- A lookup finds what is seen.
  walk-result :
      (path cs : List Bytes) (d : MarkupDir)
      → entry_of (walk files false (lookup_entry files name) path cs d).result
        ≡ view files name path cs d
  unfolding walk view load_subdirs lookup_entry load_entries
  walk-result path [] (make_dir i es ds) = refl
  walk-result path (c ∷ cs) (make_dir i es ds) =
      entered-result (walk files false (lookup_entry files name) (c ∷ path) cs) c (subdirs_read i)
        es _ (view files name (c ∷ path) cs) (walk-result (c ∷ path) cs) _
        (change_child_lem (walk files false (lookup_entry files name) (c ∷ path) cs) c
          (walk-name files false (lookup_entry files name) (λ n o. o)
            (lookup_entry-IsLocal files name) (λ e n. refl) (c ∷ path) cs)
          _)

  -- A lookup changes nothing that is seen.
  walk-lookup_view :
      (n : Bytes) (cs bs : List Bytes) (t : MarkupDir)
      → view files n [] bs (walk files false (lookup_entry files name) [] cs t).dir
        ≡ view files n [] bs t
  walk-lookup_view n cs bs t = elim (dirs-discrete bs cs) [
    | yes e ↦ rw e (
        walk-view files false (lookup_entry files name) (λ n o. o) (lookup_entry-IsLocal files name)
          (λ e n. refl) n [] cs t)
    | no e ↦
        walk-view_ne files false (lookup_entry files name) (λ n o. o)
          (lookup_entry-IsLocal files name) (λ e n. refl) n [] cs bs t e
  ]

same_location : (m l : Location) → m.dirs ≡ l.dirs → m.name ≡ l.name → m ≡ l
same_location m l h k = λ i. record { dirs = h i; name = k i }

module _ (files : Files) where
  abbrev view_in : MarkupDir → Option Location → Option MarkupEntry
  view_in t none = none
  view_in t (some l) = view files l.name [] l.dirs t

  -- The entry of a key, `none` where there is none.
  unfoldable pub tree_view : MarkupDir → Bytes → Option MarkupEntry
  tree_view t key = view_in t (location_of key)

  pub lookup-view :
      (t : MarkupDir) (key : Bytes)
      → entry_of (tree_lookup_entry files t key).result ≡ tree_view t key
  unfolding tree_lookup_entry tree_view
  lookup-view t key = elim (Option-cases (location_of key)) [
    | inl e ↦ rw e refl
    | inr (l, e) ↦ rw e (walk-result files l.name [] l.dirs t)
  ]

  pub view-lookup :
      (t : MarkupDir) (key k : Bytes)
      → tree_view (tree_lookup_entry files t key).dir k ≡ tree_view t k
  unfolding tree_lookup_entry tree_view
  view-lookup t key k = elim (Option-cases (location_of key)) [
    | inl e ↦ rw e refl
    | inr (l, e) ↦ elim (Option-cases (location_of k)) [
      | inl d ↦ rw d refl
      | inr (m, d) ↦ rw (e, d) (walk-lookup_view files l.name m.name l.dirs m.dirs t)
    ]
  ]

  module _ (g : MarkupEntry → Option MarkupEntry) (keeps : KeepsName g) where
    -- The entry at another location, which may be in the same directory.
    update_ne :
        (t : MarkupDir) (l m : Location)
        → m ≢ l
        → view files m.name [] m.dirs
            (walk files true (update_entry files g l.name) [] l.dirs t).dir
          ≡ view files m.name [] m.dirs t
    update_ne t l m n = elim (dirs-discrete m.dirs l.dirs) [
      | yes e ↦ rw e (
          walk-view files true (update_entry files g l.name) (updated_at g l.name)
            (update_entry-IsLocal g keeps l.name files) (λ h n. absurd (true≢false h)) m.name []
            l.dirs t
          ∙ updated_at_other g l.name m.name _ (λ h. n (same_location m l e h)))
      | no e ↦
          walk-view_ne files true (update_entry files g l.name) (updated_at g l.name)
            (update_entry-IsLocal g keeps l.name files) (λ h n. absurd (true≢false h)) m.name []
            l.dirs m.dirs t e
    ]

    pub view-update :
        (t : MarkupDir) (key : Bytes) {l : Location}
        → location_of key ≡ some l
        → tree_view (tree_update_entry files g t key) key
          ≡ some (updated g l.name (tree_view t key))
    unfolding tree_update_entry tree_view
    view-update t key {l} e = rw e (
        walk-view files true (update_entry files g l.name) (updated_at g l.name)
          (update_entry-IsLocal g keeps l.name files) (λ h n. absurd (true≢false h)) l.name []
          l.dirs t
        ∙ updated_at_self g l.name (view files l.name [] l.dirs t))

    pub view-update_ne :
        (t : MarkupDir) (key k : Bytes)
        → location_of k ≢ location_of key
        → tree_view (tree_update_entry files g t key) k ≡ tree_view t k
    unfolding tree_update_entry tree_view
    view-update_ne t key k n = elim (Option-cases (location_of key)) [
      | inl e ↦ rw e refl
      | inr (l, e) ↦ elim (Option-cases (location_of k)) [
        | inl d ↦ rw d refl
        | inr (m, d) ↦ rw (e, d) (update_ne t l m (λ h. n (d ∙ ap some h ∙ sym e)))
      ]
    ]
