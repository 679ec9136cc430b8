-- ===== src/Markup/Composed.antt =====
-- A configuration whose one source is a markup tree: the stack of sources over the backend.
use gconf_dbus.Prelude.{
  ℕ, ◌≡◌, refl, ap, ◌∙◌, Bool, true, false, Option, none, some, List, [], ◌∷◌, arith, Option-cases,
  inl, inr,
}
use gconf_dbus.Listeners.Table.{dirnames_of}
use gconf_dbus.CString.{Bytes}
use gconf_dbus.Platform.{Platform}
use gconf_dbus.Keys.{slash, valid_key, split_last_slash, directory_before, key_directory, key_key}
use gconf_dbus.Value.{GConfValue}
use gconf_dbus.Sources.{
  GConfSource, Answer, key_check, source_is_writable, source_readable, source_query_value,
  source_query_metainfo,
}
use gconf_dbus.Sources.Rounds.{IsQuiet}
use gconf_dbus.Sources.Query.{sources_query_value}
use gconf_dbus.Sources.Found.{found}
use gconf_dbus.Sources.Write.{is_root_name, sources_set_value}
use gconf_dbus.Sources.Readback.{query_value-set_value}
use gconf_dbus.Markup.Entry.{is_schema}
use gconf_dbus.Markup.Dir.{MarkupDir, Files}
use gconf_dbus.Markup.Backend.{Location, location_of, markup_vtable, ms_query_value, ms_set_value}
use gconf_dbus.Markup.Answers.{ms_query_value-set_value_plain}

split_last_slash-slash : (s : Bytes) → (r : Bytes × Bytes) × (split_last_slash (slash ∷ s) ≡ some r)
unfolding split_last_slash
split_last_slash-slash s = elim (Option-cases (split_last_slash s)) [
  | inl e ↦ (([], s), rw e refl)
  | inr (r, e) ↦ ((slash ∷ r.0, r.1), rw e refl)
]

valid_key-slash : (key : Bytes) → key_check key ≡ none → (s : Bytes) × (key ≡ slash ∷ s)
unfolding key_check valid_key
valid_key-slash [] h = absurd (cc)
valid_key-slash (c ∷ []) h = ([], ground arith)
valid_key-slash (c ∷ d ∷ s) h = (d ∷ s, ground arith)

key_parts :
    (s : Bytes) (r : Bytes × Bytes)
    → split_last_slash (slash ∷ s) ≡ some r
    → (key_directory (slash ∷ s) ≡ some (directory_before r.0)) × (key_key (slash ∷ s) ≡ some r.1)
unfolding key_directory key_key
key_parts s r h = (rw (key_directory, h) refl, rw (key_key, h) refl)

-- A valid key has a directory and a name.
valid_key-location_of :
    (key : Bytes) → key_check key ≡ none → (l : Location) × (location_of key ≡ some l)
unfolding location_of
valid_key-location_of key h =
    let (s, e) = valid_key-slash key h in
    let (r, k) = split_last_slash-slash s in
    let parts = key_parts s r k in
    (
      record { dirs = dirnames_of (directory_before r.0); name = r.1 },
      ap location_of e ∙ rw (location_of, parts.0, parts.1) refl,
    )

module _ (p : Platform) (files : Files) (now : ℕ) where
  -- The source that `resolve_address` makes, where the directory can be read and written.
  abbrev pub markup_source : Bytes → MarkupDir → GConfSource MarkupDir
  markup_source address t = record {
    all_writeable = true;
    all_readable = true;
    never_writeable = false;
    address = address;
    vtable = markup_vtable p files now;
    store = t;
  }

  markup_source-IsQuiet :
      (address : Bytes) (t : MarkupDir) (key : Bytes) (locales : List Bytes)
      → IsQuiet key locales (markup_source address t)
  unfolding source_query_value source_query_metainfo source_readable ms_query_value
  markup_source-IsQuiet address t key locales = record {
    no_error = λ wanted. refl;
    same_value = λ wanted. refl;
    no_info_error = refl;
  }

  -- In a configuration whose one source is a markup tree that can be written, on any files, a value
  -- that is no schema and that gconf_sources_set_value set at a valid key other than the root is what
  -- the next gconf_sources_query_value returns: as a value that is no default, of a writable key.
  pub markup_readback :
      (address : Bytes) (t : MarkupDir) (key : Bytes) (v : GConfValue) (locales : List Bytes)
      → (default namep : Bool) → key_check key ≡ none
      → is_root_name key ≡ false
      → is_schema v ≡ false
      → (n : Option Bytes) × (sources_query_value
            (sources_set_value (markup_source address t ∷ []) key v).sources
            key
            locales
            default
            namep
          ≡ found v n true)
  unfolding source_is_writable source_query_value source_readable
  markup_readback address t key v locales default namep hk hr hv =
      let (l, e) = valid_key-location_of key hk in
      query_value-set_value key locales [] (markup_source address t) [] v
        (ms_set_value p files now t key v) default namep hk hr tt refl refl
        (ap (λ (a : Answer). a.value)
          (ms_query_value-set_value_plain p files t now key v locales false e hv))
        tt tt (markup_source-IsQuiet address (ms_set_value p files now t key v) key locales, tt)
