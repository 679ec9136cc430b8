-- ===== src/Sources/Readback.antt =====
-- What `gconf_sources_query_value` returns after `gconf_sources_set_value` and
-- `gconf_sources_unset_value`.
use gconf_dbus.Prelude.{
  ◌≡◌, refl, ◌∙◌, ap, Bool, true, false, Option, none, List, [], ◌∷◌, ◌++◌, All, map,
}
use gconf_dbus.CString.{Bytes}
use gconf_dbus.Value.{GConfValue, just}
use gconf_dbus.Sources.{GConfSource, source_is_writable, with_store, key_check}
use gconf_dbus.Sources.Rounds.{IsQuiet, HasNone, value_in, any_writable}
use gconf_dbus.Sources.Query.{sources_query_value}
use gconf_dbus.Sources.Found.{found, query_value-first}
use gconf_dbus.Sources.Write.{Written, is_root_name, sources_set_value, sources_unset_value}
use gconf_dbus.Sources.SetLoop.{IsPassed, set_value-writable}
use gconf_dbus.Sources.Unset.{Unsets, unset_in, unset_value-all}

module _ {S : Type 0} (key : Bytes) (locales : List Bytes) where
  -- A value that is set in the first writable source is what the next query returns, whatever the
  -- sources behind it hold. The key has to be valid and not the root; the sources in front have to
  -- be passed over by the set, and to have no value for the locales of the query; the backend of the
  -- source has to store the value without an error, and to return it; and all sources, also those
  -- behind, have to answer the query without errors, and alike with and without the name of the
  -- schema.
  pub query_value-set_value :
      (before : List (GConfSource S)) (src : GConfSource S) (after : List (GConfSource S))
      → (value : GConfValue) (s : S) (default namep : Bool) → key_check key ≡ none
      → is_root_name key ≡ false
      → All (IsPassed key value) before
      → source_is_writable src key ≡ (true, none)
      → src.vtable.set_value src.store key value ≡ (s, none)
      → value_in key locales (with_store src s) ≡ just value
      → All (IsQuiet key locales) before
      → All (HasNone key locales) before
      → All (IsQuiet key locales) (with_store src s ∷ after)
      → (n : Option Bytes) × (sources_query_value
            (sources_set_value (before ++ src ∷ after) key value).sources
            key
            locales
            default
            namep
          ≡ found value n (any_writable key locales (before ++ with_store src s ∷ [])))
  query_value-set_value before src after value s default namep hk hr hb hw hs hv qb nb q =
      let (n, p) =
        query_value-first key locales before (with_store src s) after value default namep hk qb nb q
          hv in
      (
        n,
        ap (λ (w : Written S). sources_query_value w.sources key locales default namep)
              (set_value-writable key value hk hr before src after s none hb hw hs)
            ∙ p,
      )

map-append : {A B : Type 0} (f : A → B) (xs ys : List A) → map f (xs ++ ys) ≡ map f xs ++ map f ys
map-append f [] ys = refl
map-append f (x ∷ xs) ys = ap (λ zs. f x ∷ zs) (map-append f xs ys)

module _ {S : Type 0} (key : Bytes) (locale : Option Bytes) (locales : List Bytes) where
  -- After a key is unset, the first source that still has a value for it decides what a query
  -- returns: the sources in front of it are those whose call took the value away, or that had none.
  -- No check and no backend may report an error.
  pub query_value-unset_value :
      (before : List (GConfSource S)) (src : GConfSource S) (after : List (GConfSource S))
      → (v : GConfValue) (default namep : Bool) → key_check key ≡ none
      → All (Unsets key locale) (before ++ src ∷ after)
      → All (IsQuiet key locales) (map (unset_in key locale) before)
      → All (HasNone key locales) (map (unset_in key locale) before)
      → All (IsQuiet key locales) (map (unset_in key locale) (src ∷ after))
      → value_in key locales (unset_in key locale src) ≡ just v
      → (n : Option Bytes) × (sources_query_value
            (sources_unset_value (before ++ src ∷ after) key locale).sources
            key
            locales
            default
            namep
          ≡ found v n (
              any_writable key locales
                (map (unset_in key locale) before ++ unset_in key locale src ∷ [])))
  query_value-unset_value before src after v default namep hk h qb nb q hv =
      let (n, p) =
        query_value-first key locales (map (unset_in key locale) before) (unset_in key locale src)
          (map (unset_in key locale) after) v default namep hk qb nb q hv in
      (
        n,
        ap (λ (w : Written S). sources_query_value w.sources key locales default namep)
              (unset_value-all key locale (before ++ src ∷ after) h)
            ∙ ap (λ (x : List (GConfSource S)). sources_query_value x key locales default namep)
                (map-append (unset_in key locale) before (src ∷ after))
            ∙ p,
      )
