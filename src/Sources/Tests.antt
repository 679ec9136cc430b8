-- ===== src/Sources/Tests.antt =====
-- A backend in memory, three sources on it, and the theorems at them.
use gconf_dbus.Prelude.{
  ◌≡◌, refl, Bool, true, false, ◌&&◌, Option, none, some, List, [], ◌∷◌, ◌==◌, if◌then◌else◌, pos,
  inl, inr, ◌⊎◌, map,
}
use gconf_dbus.CString.{Bytes, codes}
use gconf_dbus.Value.{
  GConfValue, MaybeValue, null, just, int_value, schema_value, make_schema, int, invalid,
}
use gconf_dbus.Keys.{valid_key, valid_key_loop, is_invalid_char}
use gconf_dbus.Sources.{
  VTable, GConfSource, bad_key, is_dir, source_readable, source_is_writable, source_query_value,
  source_query_metainfo, with_store, key_check,
}
use gconf_dbus.Sources.Query.{sources_query_value, schema_default}
use gconf_dbus.Sources.Write.{sources_set_value, sources_unset_value}
use gconf_dbus.Sources.Rounds.{IsQuiet, any_writable}
use gconf_dbus.Sources.Found.{found, query_value-first}
use gconf_dbus.Sources.Default.{defaulted, query_value-default}
use gconf_dbus.Sources.SetLoop.{IsPassed}
use gconf_dbus.Sources.Set.{Writes, IsOverridden, HasNowhere, set_value-outcome}
use gconf_dbus.Sources.Unset.{unset_in, note_all, unset_value-all}
use gconf_dbus.Sources.Readback.{query_value-set_value}

abbrev same : Bytes → Bytes → Bool
same [] [] = true
same [] (d ∷ t) = false
same (c ∷ s) [] = false
same (c ∷ s) (d ∷ t) = c == d && same s t

-- The value and the name of the schema of each key.
abbrev Store : Type 0
Store = Bytes → MaybeValue × Option Bytes

abbrev put : Store → Bytes → MaybeValue → Store
put s key v = λ k. if same k key then (v, (s k).1) else s k

abbrev memory : VTable Store
memory = record {
  readable = some (λ (s : Store) (k : Bytes). (true, none));
  writable = none;
  query_value = λ (s : Store) (k : Bytes) (l : List Bytes) (w : Bool). record {
    value = (s k).0;
    schema_name = (s k).1;
    error = none;
  };
  query_metainfo = λ (s : Store) (k : Bytes). ((s k).1, none);
  set_value = λ (s : Store) (k : Bytes) (v : GConfValue). (put s k (just v), none);
  unset_value = λ (s : Store) (k : Bytes) (l : Option Bytes). (put s k null, none);
}

abbrev source : Bool → Store → GConfSource Store
source writeable s = record {
  all_writeable = writeable;
  all_readable = false;
  never_writeable = false;
  address = codes "memory:";
  vtable = memory;
  store = s;
}

abbrev key : Bytes
key = codes "/a"

abbrev name : Bytes
name = codes "/s"

abbrev schema_of_key : GConfValue
schema_of_key =
    schema_value
      (make_schema int invalid invalid invalid none none none none (just (int_value (pos 5))))

abbrev empty : Store
empty = λ k. (null, none)

-- It has no values, and names a schema for the key.
abbrev names : Store
names = λ k. if same k key then (null, some name) else (null, none)

abbrev defaults : Store
defaults = λ k. if same k name then (just schema_of_key, none) else (null, none)

abbrev seven : Store
seven = λ k. (just (int_value (pos 7)), none)

abbrev front : GConfSource Store
front = source false names

abbrev user : GConfSource Store
user = source true empty

abbrev system : GConfSource Store
system = source false defaults

abbrev vendor : GConfSource Store
vendor = source false seven

abbrev stored : GConfSource Store
stored = source true seven

memory-IsQuiet : (b : Bool) (s : Store) (k : Bytes) → IsQuiet k [] (source b s)
unfolding source_query_value source_query_metainfo source_readable
memory-IsQuiet b s k = record { no_error = λ w. refl; same_value = λ w. refl; no_info_error = refl }

key_check-key : key_check key ≡ none
unfolding key_check valid_key valid_key_loop is_invalid_char
key_check-key = refl

key_check-name : key_check name ≡ none
unfolding key_check valid_key valid_key_loop is_invalid_char
key_check-name = refl

key_check-bad : key_check (codes "/a//b") ≡ some bad_key
unfolding key_check valid_key valid_key_loop is_invalid_char
key_check-bad = refl

set_root : (sources_set_value (user ∷ []) (codes "/") (int_value (pos 3))).error ≡ some is_dir
unfolding sources_set_value key_check valid_key
set_root = refl

query_value-first_example :
    (n : Option Bytes) × (sources_query_value (front ∷ user ∷ vendor ∷ system ∷ []) key [] true true
      ≡ found (int_value (pos 7)) n (any_writable key [] (front ∷ user ∷ vendor ∷ [])))
unfolding source_query_value source_readable
query_value-first_example =
    query_value-first key [] (front ∷ user ∷ []) vendor (system ∷ []) (int_value (pos 7)) true true
      key_check-key (memory-IsQuiet false names key, (memory-IsQuiet true empty key, tt))
      (refl, (refl, tt)) (memory-IsQuiet false seven key, (memory-IsQuiet false defaults key, tt))
      refl

query_value-default_example :
    sources_query_value (front ∷ user ∷ system ∷ []) key [] true true
    ≡ defaulted true name
        (any_writable key [] (front ∷ user ∷ system ∷ []))
        (just (int_value (pos 5)))
unfolding source_query_value source_readable schema_default
query_value-default_example =
    query_value-default key [] (front ∷ user ∷ system ∷ []) true (front ∷ user ∷ []) system [] name
      schema_of_key (just (int_value (pos 5))) key_check-key
      (
        memory-IsQuiet false names key,
        (memory-IsQuiet true empty key, (memory-IsQuiet false defaults key, tt)),
      )
      (refl, (refl, (refl, tt))) refl key_check-name refl
      (memory-IsQuiet false names name, (memory-IsQuiet true empty name, tt)) (refl, (refl, tt))
      (memory-IsQuiet false defaults name, tt) refl refl

passed : IsPassed key (int_value (pos 3)) front
unfolding source_query_value source_readable source_is_writable
passed = record { read_only = refl; no_value = refl }

set_value-outcome_example :
    Writes key
      (int_value (pos 3))
      (front ∷ user ∷ [])
      (sources_set_value (front ∷ user ∷ []) key (int_value (pos 3)))
    ⊎ (IsOverridden key
          (int_value (pos 3))
          (front ∷ user ∷ [])
          (sources_set_value (front ∷ user ∷ []) key (int_value (pos 3)))
        ⊎ HasNowhere key
            (int_value (pos 3))
            (front ∷ user ∷ [])
            (sources_set_value (front ∷ user ∷ []) key (int_value (pos 3))))
unfolding source_is_writable
set_value-outcome_example =
    set_value-outcome key (int_value (pos 3)) (front ∷ user ∷ []) key_check-key refl
      (refl, (refl, tt))

unset_value-all_example : sources_unset_value (front ∷ stored ∷ []) key none ≡ record {
  sources = map (unset_in key none) (front ∷ stored ∷ []);
  modified = note_all key none (front ∷ stored ∷ []) [];
  error = none;
}
unfolding source_is_writable
unset_value-all_example =
    unset_value-all key none (front ∷ stored ∷ [])
      (inr refl, (inl (put seven key null, refl, refl), tt))

query_value-set_value_example :
    (n : Option Bytes) × (sources_query_value
        (sources_set_value (front ∷ user ∷ vendor ∷ []) key (int_value (pos 3))).sources
        key
        []
        true
        true
      ≡ found (int_value (pos 3)) n (
          any_writable key []
            (front ∷ with_store user (put empty key (just (int_value (pos 3)))) ∷ [])))
unfolding source_query_value source_readable source_is_writable
query_value-set_value_example =
    query_value-set_value key [] (front ∷ []) user (vendor ∷ []) (int_value (pos 3))
      (put empty key (just (int_value (pos 3)))) true true key_check-key refl (passed, tt) refl refl
      refl (memory-IsQuiet false names key, tt) (refl, tt)
      (
        memory-IsQuiet true (put empty key (just (int_value (pos 3)))) key,
        (memory-IsQuiet false seven key, tt),
      )
