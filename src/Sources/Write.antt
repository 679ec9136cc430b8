-- ===== src/Sources/Write.antt =====
-- `gconf_source_set_value`, `gconf_source_unset_value`, `gconf_sources_set_value` and
-- `gconf_sources_unset_value`. The modified sources are given by their addresses.
use gconf_dbus.Prelude.{Bool, true, false, Option, none, some, List, [], ◌∷◌}
use gconf_dbus.CString.{Bytes}
use gconf_dbus.Value.{GConfValue, MaybeValue, null, just}
use gconf_dbus.Sources.{
  GConfError, is_dir, overridden, no_writable_database, set_error, GConfSource, source_is_writable,
  source_query_value, with_store, key_check,
}

-- The source as the call leaves it, whether it was writable, and the error.
pub record Wrote (S : Type 0) : Type 0 where
  pub source : GConfSource S
  pub was_writable : Bool
  pub error : Option GConfError

pub record Written (S : Type 0) : Type 0 where
  pub sources : List (GConfSource S)
  pub modified : List Bytes
  pub error : Option GConfError

-- `key[1] == '\0'`
abbrev pub is_root_name : Bytes → Bool
is_root_name (c ∷ d ∷ s) = false
is_root_name _ = true

module _ {S : Type 0} where
  -- The call of the backend, where the source is writable without an error.
  abbrev pub write_if : GConfSource S → Bool × Option GConfError → S × Option GConfError → Wrote S
  write_if src (true, none) (s, e) = record {
    source = with_store src s;
    was_writable = true;
    error = e;
  }
  write_if src (true, some d) _ = record { source = src; was_writable = false; error = some d }
  write_if src (false, d) _ = record { source = src; was_writable = false; error = d }

  -- With an error set before the call, the functions refuse to run.
  unfoldable pub source_set_value : GConfSource S → Bytes → GConfValue → Option GConfError → Wrote S
  source_set_value src key value (some d) = record {
    source = src;
    was_writable = false;
    error = some d;
  }
  source_set_value src key value none =
      write_if src (source_is_writable src key) (src.vtable.set_value src.store key value)

  unfoldable pub source_unset_value :
      GConfSource S → Bytes → Option Bytes → Option GConfError → Wrote S
  source_unset_value src key locale (some d) = record {
    source = src;
    was_writable = false;
    error = some d;
  }
  source_unset_value src key locale none =
      write_if src (source_is_writable src key) (src.vtable.unset_value src.store key locale)

  abbrev pub keep_front : GConfSource S → Written S → Written S
  keep_front src w = record { sources = src ∷ w.sources; modified = w.modified; error = w.error }

  -- What follows the call of `gconf_source_set_value`: the value that the source has, where it was
  -- not writable, and the rest of the loop.
  unfoldable pub after_set :
      Bytes → List (GConfSource S) → Wrote S → MaybeValue → Written S → Written S
  after_set address rest w val more = elim (w.was_writable) [
    | true ↦ record { sources = w.source ∷ rest; modified = address ∷ []; error = w.error }
    | false ↦ elim val [
      | just v ↦ record {
        sources = w.source ∷ rest;
        modified = [];
        error = set_error w.error overridden;
      }
      | null ↦ keep_front w.source more
    ]
  ]

  unfoldable pub set_loop :
      List (GConfSource S) → Bytes → GConfValue → Option GConfError → Written S
  set_loop [] key value err = record {
    sources = [];
    modified = [];
    error = set_error err no_writable_database;
  }
  set_loop (src ∷ rest) key value err =
      let w = source_set_value src key value err in
      after_set src.address rest w (source_query_value src key [] false).value
        (set_loop rest key value w.error)

  unfoldable pub sources_set_value : List (GConfSource S) → Bytes → GConfValue → Written S
  sources_set_value sources key value = elim (key_check key) [
    | some e ↦ record { sources = sources; modified = []; error = some e }
    | none ↦ elim (is_root_name key) [
      | true ↦ record { sources = sources; modified = []; error = some is_dir }
      | false ↦ set_loop sources key value none
    ]
  ]

  -- What follows the call of `gconf_source_unset_value`: the rest of the loop with the source among
  -- the modified ones, and without it. An error is handed on only by a source that was writable.
  unfoldable pub after_unset :
      Bytes → List (GConfSource S) → List Bytes → Wrote S → Written S → Written S → Written S
  after_unset address rest modified w with_it without_it = elim (w.was_writable) [
    | true ↦ elim (w.error) [
      | some e ↦ record { sources = w.source ∷ rest; modified = modified; error = some e }
      | none ↦ keep_front w.source with_it
    ]
    | false ↦ keep_front w.source without_it
  ]

  -- `error` is the local location, the result's is the caller's.
  unfoldable pub unset_loop :
      List (GConfSource S) → Bytes → Option Bytes → List Bytes → Option GConfError → Written S
  unset_loop [] key locale modified error = record {
    sources = [];
    modified = modified;
    error = none;
  }
  unset_loop (src ∷ rest) key locale modified error =
      let w = source_unset_value src key locale error in
      after_unset src.address rest modified w
        (unset_loop rest key locale (src.address ∷ modified) w.error)
        (unset_loop rest key locale modified w.error)

  unfoldable pub sources_unset_value : List (GConfSource S) → Bytes → Option Bytes → Written S
  sources_unset_value sources key locale = unset_loop sources key locale [] none
