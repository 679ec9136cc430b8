-- ===== src/Sources/Unset.antt =====
-- `gconf_sources_unset_value`: the key is unset in every writable source.
use gconf_dbus.Prelude.{
  ◌≡◌, refl, ◌∙◌, sym, ap, Bool, true, false, Option, none, List, [], ◌∷◌, All, ◌⊎◌, inl, inr, map,
}
use gconf_dbus.CString.{Bytes}
use gconf_dbus.Sources.{GConfError, GConfSource, source_is_writable, with_store}
use gconf_dbus.Sources.Write.{
  Wrote, Written, write_if, after_unset, source_unset_value, keep_front, unset_loop,
  sources_unset_value,
}

abbrev note_if : Bytes → Bool → List Bytes → List Bytes
note_if address true modified = address ∷ modified
note_if address false modified = modified

module _ {S : Type 0} (key : Bytes) (locale : Option Bytes) where
  -- The source is writable and its backend unsets the key, or it is not writable; there are no
  -- errors.
  abbrev pub Unsets : GConfSource S → Type 0
  Unsets src =
      ((s : S) × (source_is_writable src key ≡ (true, none))
        × (src.vtable.unset_value src.store key locale ≡ (s, none)))
      ⊎ (source_is_writable src key ≡ (false, none))

  abbrev unset_if : GConfSource S → Bool → GConfSource S
  unset_if src true = with_store src (src.vtable.unset_value src.store key locale).0
  unset_if src false = src

  -- The source behind the call.
  abbrev pub unset_in : GConfSource S → GConfSource S
  unset_in src = unset_if src (source_is_writable src key).0

  -- The addresses of the writable sources in front of those that are there, the last first.
  abbrev pub note_all : List (GConfSource S) → List Bytes → List Bytes
  note_all [] modified = modified
  note_all (src ∷ srcs) modified =
      note_all srcs (note_if src.address (source_is_writable src key).0 modified)

  unset_value-writes :
      (src : GConfSource S) (s : S)
      → source_is_writable src key ≡ (true, none)
      → src.vtable.unset_value src.store key locale ≡ (s, none)
      → source_unset_value src key locale none
        ≡ record { source = with_store src s; was_writable = true; error = none }
  unfolding source_unset_value
  unset_value-writes src s hw hs =
      ap
        (λ (w : Bool × Option GConfError).
          write_if src w (src.vtable.unset_value src.store key locale))
        hw
      ∙ ap (λ (r : S × Option GConfError). write_if src (true, none) r) hs

  unset_value-refuses :
      (src : GConfSource S)
      → source_is_writable src key ≡ (false, none)
      → source_unset_value src key locale none
        ≡ record { source = src; was_writable = false; error = none }
  unfolding source_unset_value
  unset_value-refuses src hw =
      ap
        (λ (w : Bool × Option GConfError).
          write_if src w (src.vtable.unset_value src.store key locale))
        hw

  unset_loop-cons :
      (src : GConfSource S) (rest : List (GConfSource S)) (modified : List Bytes) (w : Wrote S)
      → source_unset_value src key locale none ≡ w
      → unset_loop (src ∷ rest) key locale modified none
        ≡ after_unset src.address rest modified w
            (unset_loop rest key locale (src.address ∷ modified) w.error)
            (unset_loop rest key locale modified w.error)
  unfolding unset_loop
  unset_loop-cons src rest modified w hw =
      ap
        (λ (u : Wrote S).
          after_unset src.address rest modified u
            (unset_loop rest key locale (src.address ∷ modified) u.error)
            (unset_loop rest key locale modified u.error))
        hw

  -- The result for a source that behaves as `b` and `x` say.
  abbrev unset_result :
      GConfSource S → List (GConfSource S) → List Bytes → Bool → GConfSource S → Written S
  unset_result src srcs modified b x = record {
    sources = x ∷ map unset_in srcs;
    modified = note_all srcs (note_if src.address b modified);
    error = none;
  }

  unset_loop-map :
      (srcs : List (GConfSource S)) (modified : List Bytes)
      → All Unsets srcs
      → unset_loop srcs key locale modified none
        ≡ record { sources = map unset_in srcs; modified = note_all srcs modified; error = none }
  unfolding unset_loop after_unset
  unset_loop-map [] modified h = refl
  unset_loop-map (src ∷ srcs) modified (inl (s, hw, hs), h) =
      unset_loop-cons src srcs modified _ (unset_value-writes src s hw hs)
      ∙ ap (keep_front (with_store src s)) (unset_loop-map srcs (src.address ∷ modified) h)
      ∙ ap (λ (r : S × Option GConfError). unset_result src srcs modified true (with_store src r.0))
          (sym hs)
      ∙ ap (λ (w : Bool × Option GConfError). unset_result src srcs modified w.0 (unset_if src w.0))
          (sym hw)
  unset_loop-map (src ∷ srcs) modified (inr hw, h) =
      unset_loop-cons src srcs modified _ (unset_value-refuses src hw)
      ∙ ap (keep_front src) (unset_loop-map srcs modified h)
      ∙ ap (λ (w : Bool × Option GConfError). unset_result src srcs modified w.0 (unset_if src w.0))
          (sym hw)

  -- Where no check and no backend reports an error, unsetting a key unsets it in every writable
  -- source, leaves the others as they are, and reports the writable ones, the last first.
  pub unset_value-all :
      (sources : List (GConfSource S))
      → All Unsets sources
      → sources_unset_value sources key locale
        ≡ record { sources = map unset_in sources; modified = note_all sources []; error = none }
  unfolding sources_unset_value
  unset_value-all sources h = unset_loop-map sources [] h
