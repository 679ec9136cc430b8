-- ===== src/Sources/Default.antt =====
-- `gconf_sources_query_value` for a key that has no value: the default of its schema.
use gconf_dbus.Prelude.{
  ◌≡◌, refl, ◌∙◌, sym, ap, Bool, true, false, ◌&&◌, ◌||◌, Option, none, some, List, [], ◌∷◌, ◌++◌,
  All,
}
use gconf_dbus.CString.{Bytes}
use gconf_dbus.Value.{GConfValue, MaybeValue, null, just}
use gconf_dbus.Sources.{GConfSource, source_is_writable, source_query_value, key_check}
use gconf_dbus.Sources.Rounds.{
  IsQuiet, HasNone, value_in, any_writable, or_false, or_assoc, loop-passes,
}
use gconf_dbus.Sources.Found.{found, query_with-returned, loop-finds}
use gconf_dbus.Sources.Query.{
  QueryResult, Left, ended, query_round, query_loop, is_none, name_after, give_name, query_with,
  sources_query_value, after_loop, no_query, schema_default, default_from,
}

module _ {S : Type 0} (key : Bytes) (locales : List Bytes) where
  -- The name that the first source to have one gives.
  abbrev pub first_schema : List (GConfSource S) → Option Bytes
  first_schema [] = none
  first_schema (src ∷ srcs) =
      name_after (source_query_value src key locales true).schema_name (first_schema srcs)

  name-step :
      (src : GConfSource S) (srcs : List (GConfSource S)) (wants : Bool) (name : Option Bytes)
      → (w : Bool) → wants ≡ true
      → name_after
          (name_after name (query_round src key locales (is_none name && wants) null w).found)
          (first_schema srcs)
        ≡ name_after name (first_schema (src ∷ srcs))
  unfolding query_round
  name-step src srcs wants (some n) w h = refl
  name-step src srcs wants none w h = rw h refl

  loop-ends :
      (wants namep : Bool) (srcs : List (GConfSource S)) (name : Option Bytes) (w : Bool)
      → wants ≡ true
      → All (IsQuiet key locales) srcs
      → All (HasNone key locales) srcs
      → query_loop key locales wants namep srcs null name w
        ≡ ended (name_after name (first_schema srcs)) (w || any_writable key locales srcs)
  unfolding query_loop
  loop-ends wants namep [] none w h q e = ap (λ (u : Bool). ended none u) (or_false w)
  loop-ends wants namep [] (some n) w h q e = ap (λ (u : Bool). ended (some n) u) (or_false w)
  loop-ends wants namep (src ∷ srcs) name w h q e =
      loop-passes key locales wants namep src srcs name w q.0 e.0
      ∙ loop-ends wants namep srcs
          (name_after name (query_round src key locales (is_none name && wants) null w).found)
          (w || (source_is_writable src key).0) h q.1 e.1
      ∙ ap
          (λ (n : Option Bytes).
            ended n ((w || (source_is_writable src key).0) || any_writable key locales srcs))
          (name-step src srcs wants name w h)
      ∙ ap (λ (u : Bool). ended (name_after name (first_schema (src ∷ srcs))) u)
          (or_assoc w (source_is_writable src key).0 (any_writable key locales srcs))

-- The query for a key whose value is the default of its schema.
abbrev pub defaulted : Bool → Bytes → Bool → MaybeValue → QueryResult
defaulted namep name writable d = record {
  value = d;
  is_default = true;
  is_writable = writable;
  schema_name = give_name namep (some name);
  error = none;
}

default_from-schema :
    (namep writable : Bool) (name : Bytes) (v : GConfValue) (d : MaybeValue)
    → schema_default v ≡ some d
    → default_from namep name writable (just v) none ≡ defaulted namep name writable d
unfolding default_from
default_from-schema namep writable name v d hd = rw (default_from, hd) refl

after_loop-default :
    (schema : Bytes → QueryResult) (namep writable : Bool) (name : Bytes) (loop : Left)
    → (n : Option Bytes) (u : Bool) (v : GConfValue) (d : MaybeValue)
    → loop ≡ ended (some name) writable
    → schema name ≡ found v n u
    → schema_default v ≡ some d
    → after_loop schema true namep loop ≡ defaulted namep name writable d
unfolding after_loop
after_loop-default schema namep writable name loop n u v d hl hs hd = rw hl (
    ap (λ (r : QueryResult). default_from namep name writable r.value r.error) hs
    ∙ default_from-schema namep writable name v d hd)

or_true : (a : Bool) → (a || true) ≡ true
or_true true = refl
or_true false = refl

module _ {S : Type 0} (key : Bytes) (locales : List Bytes) where
  -- Where no source has a value for a key, the query returns the default value of the schema that
  -- the first source to name one names, as the first source with a value for that name holds it;
  -- it says that the value is a default, and that the key is writable exactly when some source is.
  -- The query has to be one for defaults, the key and the name have to be valid, all sources have to
  -- answer without errors for both, and alike with and without the name of the schema, and the value
  -- of the name has to be a schema.
  pub query_value-default :
      (sources : List (GConfSource S)) (namep : Bool)
      → (before : List (GConfSource S)) (src : GConfSource S) (after : List (GConfSource S))
      → (name : Bytes) (v : GConfValue) (d : MaybeValue) → key_check key ≡ none
      → All (IsQuiet key locales) sources
      → All (HasNone key locales) sources
      → first_schema key locales sources ≡ some name
      → key_check name ≡ none
      → sources ≡ before ++ src ∷ after
      → All (IsQuiet name locales) before
      → All (HasNone name locales) before
      → All (IsQuiet name locales) (src ∷ after)
      → value_in name locales src ≡ just v
      → schema_default v ≡ some d
      → sources_query_value sources key locales true namep
        ≡ defaulted namep name (any_writable key locales sources) d
  unfolding sources_query_value query_with
  query_value-default sources namep before src after name v d hk q e hn hk' hs qb hb q' e' hd =
      let (n, p) = loop-finds name locales false false before src after v none false qb hb q' e' in
      let whole = rw (sym hs) at p in
      rw (hk, query_with)
        (after_loop-default (λ m. query_with no_query sources m locales false false) namep
          (any_writable key locales sources) name _ n _ v d
          (loop-ends key locales (namep || true) namep sources none false (or_true namep) q e
            ∙ ap (λ (m : Option Bytes). ended m (any_writable key locales sources)) hn)
          (query_with-returned name locales no_query sources false false _ hk' whole) hd)
