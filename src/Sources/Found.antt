-- ===== src/Sources/Found.antt =====
-- `gconf_sources_query_value` for a key that has a value in some source.
use gconf_dbus.Prelude.{
  ◌≡◌, refl, ◌∙◌, ap, Bool, true, false, not, ◌&&◌, ◌||◌, Option, none, List, [], ◌∷◌, ◌++◌, All,
  ◌⊎◌, inl, inr,
}
use gconf_dbus.CString.{Bytes}
use gconf_dbus.Value.{GConfValue, MaybeValue, null, just}
use gconf_dbus.Sources.{GConfSource, source_is_writable, key_check}
use gconf_dbus.Sources.Rounds.{
  IsQuiet, HasNone, value_in, any_writable, or_false, or_assoc, loop-passes,
}
use gconf_dbus.Sources.Query.{
  QueryResult, Round, Left, returned, ended, query_round, query_loop, end_round, finish, is_none,
  name_after, give_name, query_with, sources_query_value, after_loop, no_query,
}

-- The query with a value.
abbrev pub found : GConfValue → Option Bytes → Bool → QueryResult
found v name writable = record {
  value = just v;
  is_default = false;
  is_writable = writable;
  schema_name = name;
  error = none;
}

finish-found :
    (namep : Bool) (v : GConfValue) (name : Option Bytes) (w : Bool) (more : Left) (stop : Bool)
    → (stop ≡ true) ⊎ ((n : Option Bytes) × (more ≡ returned (found v n w)))
    → (n : Option Bytes) × (finish namep (just v) name w more stop ≡ returned (found v n w))
finish-found namep v name w more true h = (give_name namep name, refl)
finish-found namep v name w more false (inl e) = absurd (cc)
finish-found namep v name w more false (inr (n, e)) = (n, e)

or_true : (a b : Bool) → (a || (b || true)) ≡ true
or_true true b = refl
or_true false true = refl
or_true false false = refl

end_round-found :
    (namep wanted last : Bool) (name : Option Bytes) (r : Round) (more : Left) (v : GConfValue)
    → r.error ≡ none
    → r.val ≡ just v
    → (last ≡ true) ⊎ ((n : Option Bytes) × (more ≡ returned (found v n r.writable)))
    → (n : Option Bytes) × (end_round namep wanted last name r more
        ≡ returned (found v n r.writable))
unfolding end_round
end_round-found namep wanted last name r more v he hv (inl e) =
    rw (he, hv, e, or_true (not wanted) (not (is_none (name_after name r.found))))
      (finish-found namep v (name_after name r.found) r.writable more true (inl refl))
end_round-found namep wanted last name r more v he hv (inr m) =
    rw (he, hv)
      (finish-found namep v (name_after name r.found) r.writable more
        (not wanted || (not (is_none (name_after name r.found)) || last)) (inr m))

module _ {S : Type 0} (key : Bytes) (locales : List Bytes) where
  round-keeps :
      (src : GConfSource S) (wanted : Bool) (v : GConfValue) (val : MaybeValue) (w : Bool)
      → IsQuiet key locales src
      → val ≡ just v
      → ((query_round src key locales wanted val w).error ≡ none)
        × ((query_round src key locales wanted val w).val ≡ just v)
        × ((query_round src key locales wanted val w).writable ≡ w)
  unfolding query_round
  round-keeps src true v null w q e = absurd (cc)
  round-keeps src false v null w q e = absurd (cc)
  round-keeps src true v (just u) w q e = (q.no_info_error, e, refl)
  round-keeps src false v (just u) w q e = (refl, e, refl)

  -- The first round that meets the value.
  round-finds :
      (src : GConfSource S) (wanted : Bool) (v : GConfValue) (w : Bool)
      → IsQuiet key locales src
      → value_in key locales src ≡ just v
      → ((query_round src key locales wanted null w).error ≡ none)
        × ((query_round src key locales wanted null w).val ≡ just v)
        × ((query_round src key locales wanted null w).writable
            ≡ (w || (source_is_writable src key).0))
  unfolding query_round
  round-finds src wanted v w q e = (q.no_error wanted, q.same_value wanted ∙ e, refl)

  module _ (wants namep : Bool) where
    -- From a round with a value on, the sources that follow change only the name.
    loop-settled :
        (src : GConfSource S) (rest : List (GConfSource S)) (v : GConfValue) (val : MaybeValue)
        → (name : Option Bytes) (w u : Bool)
        → ((query_round src key locales (is_none name && wants) val w).error ≡ none)
          × ((query_round src key locales (is_none name && wants) val w).val ≡ just v)
          × ((query_round src key locales (is_none name && wants) val w).writable ≡ u)
        → All (IsQuiet key locales) rest
        → (n : Option Bytes) × (query_loop key locales wants namep (src ∷ rest) val name w
            ≡ returned (found v n u))
    unfolding query_loop
    loop-settled src [] v val name w u (he, hv, hw) q =
        let wanted = is_none name && wants in
        let r = query_round src key locales wanted val w in
        let (n, p) =
          end_round-found namep wanted true name r (ended (name_after name r.found) r.writable) v he
            hv (inl refl) in
        (n, p ∙ ap (λ (u : Bool). returned (found v n u)) hw)
    loop-settled src (next ∷ rest) v val name w u (he, hv, hw) q =
        let wanted = is_none name && wants in
        let r = query_round src key locales wanted val w in
        let name' = name_after name r.found in
        let tail =
          loop-settled next rest v r.val name' r.writable r.writable
            (round-keeps next (is_none name' && wants) v r.val r.writable q.0 hv) q.1 in
        let (n, p) =
          end_round-found namep wanted false name r
            (query_loop key locales wants namep (next ∷ rest) r.val name' r.writable) v he hv
            (inr tail) in
        (n, p ∙ ap (λ (u : Bool). returned (found v n u)) hw)

    pub loop-finds :
        (before : List (GConfSource S)) (src : GConfSource S) (after : List (GConfSource S))
        → (v : GConfValue) (name : Option Bytes) (w : Bool) → All (IsQuiet key locales) before
        → All (HasNone key locales) before
        → All (IsQuiet key locales) (src ∷ after)
        → value_in key locales src ≡ just v
        → (n : Option Bytes) × (query_loop key locales wants namep
              (before ++ src ∷ after)
              null
              name
              w
            ≡ returned (found v n (w || any_writable key locales (before ++ src ∷ []))))
    loop-finds [] src after v name w qb hb q e =
        let (n, p) =
          loop-settled src after v null name w (w || (source_is_writable src key).0)
            (round-finds src (is_none name && wants) v w q.0 e) q.1 in
        (n, p ∙ ap (λ (u : Bool). returned (found v n (w || u))) (or_false _))
    loop-finds (b ∷ before) src after v name w qb hb q e =
        let (n, p) =
          loop-finds before src after v
            (name_after name (query_round b key locales (is_none name && wants) null w).found)
            (w || (source_is_writable b key).0) qb.1 hb.1 q e in
        (
          n,
          loop-passes key locales wants namep b (before ++ src ∷ after) name w qb.0 hb.0
              ∙ p
              ∙ ap (λ (u : Bool). returned (found v n u))
                  (or_assoc w (source_is_writable b key).0
                    (any_writable key locales (before ++ src ∷ []))),
        )

  pub query_with-returned :
      (schema : Bytes → QueryResult) (sources : List (GConfSource S)) (default namep : Bool)
      → (r : QueryResult) → key_check key ≡ none
      → query_loop key locales (namep || default) namep sources null none false ≡ returned r
      → query_with schema sources key locales default namep ≡ r
  unfolding query_with after_loop
  query_with-returned schema sources default namep r hk h = rw (hk, query_with, h) refl

  query_value-returned :
      (sources : List (GConfSource S)) (default namep : Bool) (r : QueryResult)
      → key_check key ≡ none
      → query_loop key locales (namep || default) namep sources null none false ≡ returned r
      → sources_query_value sources key locales default namep ≡ r
  unfolding sources_query_value
  query_value-returned sources false namep r hk h =
      query_with-returned no_query sources false namep r hk h
  query_value-returned sources true namep r hk h =
      query_with-returned (λ name. query_with no_query sources name locales false false) sources
        true namep r hk h

  -- Where a key has a value, the first source that has one decides, whatever follows: the query
  -- returns its value with no error, says that it is not a default, and that the key is writable
  -- exactly when that source or one in front of it is. The key has to be valid, and all
  -- sources, also those behind, have to answer without errors for values and metainfo, and alike
  -- with and without the name of the schema.
  pub query_value-first :
      (before : List (GConfSource S)) (src : GConfSource S) (after : List (GConfSource S))
      → (v : GConfValue) (default namep : Bool) → key_check key ≡ none
      → All (IsQuiet key locales) before
      → All (HasNone key locales) before
      → All (IsQuiet key locales) (src ∷ after)
      → value_in key locales src ≡ just v
      → (n : Option Bytes) × (sources_query_value (before ++ src ∷ after) key locales default namep
          ≡ found v n (any_writable key locales (before ++ src ∷ [])))
  query_value-first before src after v default namep hk qb hb q e =
      let (n, p) = loop-finds (namep || default) namep before src after v none false qb hb q e in
      (n, query_value-returned (before ++ src ∷ after) default namep _ hk p)
