-- ===== src/Sources/Query.antt =====
-- `gconf_sources_query_value`.
use gconf_dbus.Prelude.{
  Bool, true, false, not, ◌&&◌, ◌||◌, Option, none, some, List, [], ◌∷◌, if◌then◌else◌,
}
use gconf_dbus.CString.{Bytes}
use gconf_dbus.Value.{GConfValue, MaybeValue, null, just, schema_null, schema_value, make_schema}
use gconf_dbus.Sources.{
  GConfError, failed, GConfSource, source_is_writable, source_query_value, source_query_metainfo,
  key_check,
}

-- The value returned, and what the locations hold at the return.
pub record QueryResult : Type 0 where
  pub value : MaybeValue
  pub is_default : Bool
  pub is_writable : Bool
  pub schema_name : Option Bytes
  pub error : Option GConfError

abbrev pub query_failed : Bool → Bool → GConfError → QueryResult
query_failed is_default is_writable e = record {
  value = null;
  is_default = is_default;
  is_writable = is_writable;
  schema_name = none;
  error = some e;
}

-- `*schema_namep = name` where `schema_namep` is not NULL.
abbrev pub give_name : Bool → Option Bytes → Option Bytes
give_name namep name = if namep then name else none

abbrev pub is_none {ℓ} : {A : Type ℓ} → Option A → Bool
is_none none = true
is_none (some a) = false

abbrev pub is_empty {ℓ} : {A : Type ℓ} → List A → Bool
is_empty [] = true
is_empty (x ∷ xs) = false

-- How the loop is left: by a return, or at its end with the name of the schema and writability.
pub data Left : Type 0 where
  returned : QueryResult → Left
  ended : Option Bytes → Bool → Left

-- The state of the loop after its first half: `val`, the name found in this round, `error`.
pub record Round : Type 0 where
  pub val : MaybeValue
  pub found : Option Bytes
  pub writable : Bool
  pub error : Option GConfError

-- `val` as it is returned: with `val` NULL the loop goes on.
abbrev pub finish : Bool → MaybeValue → Option Bytes → Bool → Left → Bool → Left
finish namep null name writable more stop = more
finish namep (just v) name writable more false = more
finish namep (just v) name writable more true = returned (record {
  value = just v;
  is_default = false;
  is_writable = writable;
  schema_name = give_name namep name;
  error = none;
})

-- `schema_name` after a round; a name that is there is kept, for none is wanted any more.
abbrev pub name_after : Option Bytes → Option Bytes → Option Bytes
name_after none found = found
name_after (some n) found = some n

-- The second half of a round: it returns, or goes on with `more`. `last` is `tmp->next == NULL`.
unfoldable pub end_round : Bool → Bool → Bool → Option Bytes → Round → Left → Left
end_round namep wanted last name r more = elim (r.error) [
  | some e ↦ returned (query_failed false r.writable e)
  | none ↦
      finish namep r.val (name_after name r.found) r.writable more
        (not wanted || (not (is_none (name_after name r.found)) || last))
]

module _ {S : Type 0} where
  -- One source: it is asked for the value, or, with a value there, for the name of the schema.
  unfoldable pub query_round : GConfSource S → Bytes → List Bytes → Bool → MaybeValue → Bool → Round
  query_round src key locales wanted null writable =
      let a = source_query_value src key locales wanted in
      record {
        val = a.value;
        found = if wanted then a.schema_name else none;
        writable = writable || (source_is_writable src key).0;
        error = a.error;
      }
  query_round src key locales true (just v) writable =
      let m = source_query_metainfo src key in
      record { val = just v; found = m.0; writable = writable; error = m.1 }
  query_round src key locales false (just v) writable = record {
    val = just v;
    found = none;
    writable = writable;
    error = none;
  }

  -- The loop over the sources. `wants` is `schema_namep != NULL || use_schema_default`. At its end
  -- there is no value, which the code asserts.
  unfoldable pub query_loop :
      Bytes
      → List Bytes
      → Bool
      → Bool
      → List (GConfSource S)
      → MaybeValue
      → Option Bytes
      → Bool
      → Left
  query_loop key locales wants namep [] val name writable = ended name writable
  query_loop key locales wants namep (src ∷ rest) val name writable =
      let wanted = is_none name && wants in
      let r = query_round src key locales wanted val writable in
      end_round namep wanted (is_empty rest) name r
        (query_loop key locales wants namep rest r.val (name_after name r.found) r.writable)

-- `gconf_schema_steal_default_value (gconf_value_get_schema (val))` of a value that has to be a
-- schema, `none` for another value.
unfoldable pub schema_default : GConfValue → Option MaybeValue
schema_default schema_null = some null
schema_default (schema_value (make_schema t l a d locale owner sd ld default_value)) =
    some default_value
schema_default _ = none

-- What the schema's value makes of the query: `found` is the result of the query for the schema.
unfoldable pub default_from : Bool → Bytes → Bool → MaybeValue → Option GConfError → QueryResult
default_from namep name writable val (some e) = query_failed true writable e
default_from namep name writable null none = record {
  value = null;
  is_default = true;
  is_writable = writable;
  schema_name = give_name namep (some name);
  error = none;
}
default_from namep name writable (just v) none = elim (schema_default v) [
  | none ↦ record {
    value = null;
    is_default = true;
    is_writable = writable;
    schema_name = give_name namep (some name);
    error = some failed;
  }
  | some d ↦ record {
    value = d;
    is_default = true;
    is_writable = writable;
    schema_name = give_name namep (some name);
    error = none;
  }
]

-- `schema` is the query for the name of the schema, without a default.
unfoldable pub after_loop : (Bytes → QueryResult) → Bool → Bool → Left → QueryResult
after_loop schema default namep (returned r) = r
after_loop schema default namep (ended none writable) = record {
  value = null;
  is_default = false;
  is_writable = writable;
  schema_name = none;
  error = none;
}
after_loop schema false namep (ended (some name) writable) =
    default_from namep name writable null none
after_loop schema true namep (ended (some name) writable) =
    default_from namep name writable (schema name).value (schema name).error

abbrev pub no_query : Bytes → QueryResult
no_query name = record {
  value = null;
  is_default = false;
  is_writable = false;
  schema_name = none;
  error = none;
}

module _ {S : Type 0} where
  unfoldable pub query_with :
      (Bytes → QueryResult) → List (GConfSource S) → Bytes → List Bytes → Bool → Bool → QueryResult
  query_with schema sources key locales default namep = elim (key_check key) [
    | some e ↦ query_failed false false e
    | none ↦
        after_loop schema default namep
          (query_loop key locales (namep || default) namep sources null none false)
  ]

  -- The query for a default recurs once, and asks for no default.
  unfoldable pub sources_query_value :
      List (GConfSource S) → Bytes → List Bytes → Bool → Bool → QueryResult
  sources_query_value sources key locales false namep =
      query_with no_query sources key locales false namep
  sources_query_value sources key locales true namep =
      query_with (λ name. query_with no_query sources name locales false false) sources key locales
        true namep
