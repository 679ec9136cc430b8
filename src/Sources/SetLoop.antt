-- ===== src/Sources/SetLoop.antt =====
-- `gconf_sources_set_value`: the rounds of its loop.
use gconf_dbus.Prelude.{
  append-nil, ◌≡◌, refl, ◌∙◌, sym, ap, Bool, true, false, Option, none, some, List, [], ◌∷◌, ◌++◌,
  All,
}
use gconf_dbus.CString.{Bytes}
use gconf_dbus.Value.{GConfValue, MaybeValue, null, just}
use gconf_dbus.Sources.{
  GConfError, overridden, no_writable_database, GConfSource, source_is_writable, source_query_value,
  with_store, key_check,
}
use gconf_dbus.Sources.Write.{
  Wrote, Written, write_if, after_set, source_set_value, keep_front, set_loop, is_root_name,
  sources_set_value,
}

-- What a call leaves: the sources, the modified ones and the error.
abbrev pub written :
    {S : Type 0} → List (GConfSource S) → List Bytes → Option GConfError → Written S
written srcs modified err = record { sources = srcs; modified = modified; error = err }

module _ {S : Type 0} (key : Bytes) (value : GConfValue) where
  -- A source that is passed over: it is not writable, and has no value of its own.
  pub record IsPassed (src : GConfSource S) : Type 0 where
    pub read_only : source_is_writable src key ≡ (false, none)
    pub no_value : (source_query_value src key [] false).value ≡ null

  -- `gconf_source_set_value` on a source that is writable, and on one that is not.
  set_value-writes :
      (src : GConfSource S) (s : S) (err : Option GConfError)
      → source_is_writable src key ≡ (true, none)
      → src.vtable.set_value src.store key value ≡ (s, err)
      → source_set_value src key value none
        ≡ record { source = with_store src s; was_writable = true; error = err }
  unfolding source_set_value
  set_value-writes src s err hw hs =
      ap
        (λ (w : Bool × Option GConfError).
          write_if src w (src.vtable.set_value src.store key value))
        hw
      ∙ ap (λ (r : S × Option GConfError). write_if src (true, none) r) hs

  set_value-refuses :
      (src : GConfSource S)
      → source_is_writable src key ≡ (false, none)
      → source_set_value src key value none
        ≡ record { source = src; was_writable = false; error = none }
  unfolding source_set_value
  set_value-refuses src hw =
      ap
        (λ (w : Bool × Option GConfError).
          write_if src w (src.vtable.set_value src.store key value))
        hw

  -- A round of the loop, with what the call returned.
  set_loop-cons :
      (src : GConfSource S) (rest : List (GConfSource S)) (w : Wrote S) (val : MaybeValue)
      → source_set_value src key value none ≡ w
      → (source_query_value src key [] false).value ≡ val
      → set_loop (src ∷ rest) key value none
        ≡ after_set src.address rest w val (set_loop rest key value w.error)
  unfolding set_loop
  set_loop-cons src rest w val hw hv =
      ap
        (λ (u : Wrote S).
          after_set src.address rest u (source_query_value src key [] false).value
            (set_loop rest key value u.error))
        hw
      ∙ ap (λ (x : MaybeValue). after_set src.address rest w x (set_loop rest key value w.error)) hv

  set_loop-passes :
      (before rest : List (GConfSource S)) (after : List (GConfSource S)) (m : List Bytes)
      → (err : Option GConfError) → All IsPassed before
      → set_loop rest key value none ≡ written after m err
      → set_loop (before ++ rest) key value none ≡ written (before ++ after) m err
  unfolding after_set
  set_loop-passes [] rest after m err h e = e
  set_loop-passes (b ∷ before) rest after m err h e =
      set_loop-cons b (before ++ rest) _ null (set_value-refuses b h.0.read_only) h.0.no_value
      ∙ ap (keep_front b) (set_loop-passes before rest after m err h.1 e)

  sources_set_value-loop :
      (sources : List (GConfSource S))
      → key_check key ≡ none
      → is_root_name key ≡ false
      → sources_set_value sources key value ≡ set_loop sources key value none
  unfolding sources_set_value set_loop
  sources_set_value-loop sources hk hr = rw (sources_set_value, hk, hr) refl

  module _ (hk : key_check key ≡ none) (hr : is_root_name key ≡ false) where
    pub set_value-writable :
        (before : List (GConfSource S)) (src : GConfSource S) (after : List (GConfSource S))
        → (s : S) (err : Option GConfError) → All IsPassed before
        → source_is_writable src key ≡ (true, none)
        → src.vtable.set_value src.store key value ≡ (s, err)
        → sources_set_value (before ++ src ∷ after) key value
          ≡ written (before ++ with_store src s ∷ after) (src.address ∷ []) err
    unfolding after_set
    set_value-writable before src after s err hb hw hs =
        sources_set_value-loop (before ++ src ∷ after) hk hr
        ∙ set_loop-passes before (src ∷ after) (with_store src s ∷ after) (src.address ∷ []) err hb
            (set_loop-cons src after _ _ (set_value-writes src s err hw hs) refl)

    pub set_value-overridden :
        (before : List (GConfSource S)) (src : GConfSource S) (after : List (GConfSource S))
        → (v : GConfValue) → All IsPassed before
        → source_is_writable src key ≡ (false, none)
        → (source_query_value src key [] false).value ≡ just v
        → sources_set_value (before ++ src ∷ after) key value
          ≡ written (before ++ src ∷ after) [] (some overridden)
    unfolding after_set
    set_value-overridden before src after v hb hw hv =
        sources_set_value-loop (before ++ src ∷ after) hk hr
        ∙ set_loop-passes before (src ∷ after) (src ∷ after) [] (some overridden) hb
            (set_loop-cons src after _ (just v) (set_value-refuses src hw) hv)

    pub set_value-nowhere :
        (sources : List (GConfSource S))
        → All IsPassed sources
        → sources_set_value sources key value
          ≡ written (sources ++ []) [] (some no_writable_database)
    unfolding set_loop
    set_value-nowhere sources hb =
        ap (λ (x : List (GConfSource S)). sources_set_value x key value) (sym (append-nil sources))
        ∙ sources_set_value-loop (sources ++ []) hk hr
        ∙ set_loop-passes sources [] [] [] (some no_writable_database) hb refl
