-- ===== src/Sources/Rounds.antt =====
-- Sources that answer without errors, and the rounds of the loop of `gconf_sources_query_value` on
-- them.
use gconf_dbus.Prelude.{
  ◌≡◌, refl, ◌∙◌, ap, Bool, true, false, ◌&&◌, ◌||◌, Option, none, List, [], ◌∷◌,
}
use gconf_dbus.CString.{Bytes}
use gconf_dbus.Value.{MaybeValue, null}
use gconf_dbus.Sources.{GConfSource, source_is_writable, source_query_value, source_query_metainfo}
use gconf_dbus.Sources.Query.{
  Round, Left, query_round, query_loop, end_round, is_none, is_empty, name_after,
}

pub or_false : (a : Bool) → a ≡ (a || false)
or_false true = refl
or_false false = refl

pub or_assoc : (a b c : Bool) → ((a || b) || c) ≡ (a || (b || c))
or_assoc true b c = refl
or_assoc false b c = refl

end_round-passes :
    (namep wanted last : Bool) (name : Option Bytes) (r : Round) (more : Left)
    → r.error ≡ none
    → r.val ≡ null
    → end_round namep wanted last name r more ≡ more
unfolding end_round
end_round-passes namep wanted last name r more he hv = rw (he, hv) refl

module _ {S : Type 0} (key : Bytes) (locales : List Bytes) where
  -- A source answers without an error, and gives the same value whether or not it is asked for the
  -- name of the schema too.
  pub record IsQuiet (src : GConfSource S) : Type 0 where
    pub no_error : (wanted : Bool) → (source_query_value src key locales wanted).error ≡ none
    pub same_value :
        (wanted : Bool)
        → (source_query_value src key locales wanted).value
          ≡ (source_query_value src key locales false).value
    pub no_info_error : (source_query_metainfo src key).1 ≡ none

  abbrev pub value_in : GConfSource S → MaybeValue
  value_in src = (source_query_value src key locales false).value

  abbrev pub HasNone : GConfSource S → Type 0
  HasNone src = value_in src ≡ null

  abbrev pub any_writable : List (GConfSource S) → Bool
  any_writable [] = false
  any_writable (src ∷ srcs) = (source_is_writable src key).0 || any_writable srcs

  round-passes :
      (src : GConfSource S) (wanted : Bool) (w : Bool)
      → IsQuiet src
      → HasNone src
      → ((query_round src key locales wanted null w).error ≡ none)
        × ((query_round src key locales wanted null w).val ≡ null)
        × ((query_round src key locales wanted null w).writable
            ≡ (w || (source_is_writable src key).0))
  unfolding query_round
  round-passes src wanted w q e = (q.no_error wanted, q.same_value wanted ∙ e, refl)

  -- A source without a value adds only its name and its writability.
  pub loop-passes :
      (wants namep : Bool) (src : GConfSource S) (rest : List (GConfSource S))
      → (name : Option Bytes) (w : Bool) → IsQuiet src
      → HasNone src
      → query_loop key locales wants namep (src ∷ rest) null name w
        ≡ query_loop key locales wants namep rest null
            (name_after name (query_round src key locales (is_none name && wants) null w).found)
            (w || (source_is_writable src key).0)
  unfolding query_loop
  loop-passes wants namep src rest name w q e =
      let r = query_round src key locales (is_none name && wants) null w in
      let name' = name_after name r.found in
      let (he, hv, hw) = round-passes src (is_none name && wants) w q e in
      end_round-passes namep (is_none name && wants) (is_empty rest) name r
        (query_loop key locales wants namep rest r.val name' r.writable) he hv
      ∙ ap (λ (x : MaybeValue). query_loop key locales wants namep rest x name' r.writable) hv
      ∙ ap (λ (x : Bool). query_loop key locales wants namep rest null name' x) hw
