-- ===== src/Markup/Answers.antt =====
-- The answers of the markup backend after its operations, on any tree and any files.
use gconf_dbus.Prelude.{
  ℕ, ◌≡◌, refl, sym, ap, ◌∙◌, ◌≢◌, Bool, true, false, Option, none, some, List, ◌∷◌, arith,
  if◌then◌else◌,
}
use gconf_dbus.CString.{Bytes}
use gconf_dbus.Platform.{Platform}
use gconf_dbus.Value.{GConfValueType, GConfValue, schema_value, schema_null, MaybeValue, null, just}
use gconf_dbus.Value.Validate.{gconf_schema_validate, is_valid}
use gconf_dbus.Sources.{Answer}
use gconf_dbus.Markup.Entry.{
  MarkupEntry, entry_new, entry_set_value, entry_unset_value, entry_set_schema_name, is_schema,
}
use gconf_dbus.Markup.Entry.Local.{entry_get_value}
use gconf_dbus.Markup.Entry.RoundTrip.{
  get_value-set_value_plain, get_value-set_value_schema, full_schema,
}
use gconf_dbus.Markup.Dir.{MarkupDir, Files, or_same}
use gconf_dbus.Markup.Changes.{updated, KeepsName}
use gconf_dbus.Markup.Query.{tree_view, lookup-view, view-lookup, view-update, view-update_ne}
use gconf_dbus.Markup.Backend.{
  Location, location_of, tree_update_entry, answer_of, value_of, schema_name_of, ms_query_value,
  ms_set_value, ms_unset_value, ms_set_schema,
}

set_keeps :
    (p : Platform) (now : ℕ) (v : GConfValue) → KeepsName (λ e. some (entry_set_value p now e v))
unfolding entry_set_value
set_keeps p now schema_null e = refl
set_keeps p now (schema_value sc) e = refl
set_keeps p now v e = refl

unset_keeps : (now : ℕ) (locale : Option Bytes) → KeepsName (λ e. entry_unset_value now e locale)
unfolding entry_unset_value
unset_keeps now locale e = ground arith

set_schema_keeps :
    (now : ℕ) (name : Option Bytes) → KeepsName (λ e. some (entry_set_schema_name now e name))
unfolding entry_set_schema_name
set_schema_keeps now name e = refl

set-schema_name :
    (p : Platform) (now : ℕ) (e : MarkupEntry) (v : GConfValue)
    → (entry_set_value p now e v).schema_name ≡ e.schema_name
unfolding entry_set_value
set-schema_name p now e schema_null = refl
set-schema_name p now e (schema_value sc) = refl
set-schema_name p now e v = refl

-- An answer with no error.
abbrev answered : Bool → MaybeValue → Option Bytes → Answer
answered w v name = record { value = v; schema_name = if w then name else none; error = none }

answered_eq :
    (w : Bool) (v v' : MaybeValue) (n n' : Option Bytes)
    → v ≡ v'
    → n ≡ n'
    → answered w v n ≡ answered w v' n'
answered_eq w v v' n n' h k = λ i. answered w (h i) (k i)

-- Unsetting in all locales leaves no value, and the name of the schema.
unset_all :
    (p : Platform) (now : ℕ) (ls : List Bytes) (e : MarkupEntry)
    → (entry_get_value p (or_same e (entry_unset_value now e none)) ls ≡ null)
      × ((or_same e (entry_unset_value now e none)).schema_name ≡ e.schema_name)
unfolding entry_unset_value entry_get_value
unset_all p now ls e = ground arith

module _ (p : Platform) (files : Files) where
  set_plain :
      (now : ℕ) (v : GConfValue) (ls : List Bytes) (w : Bool) (name : Bytes)
      (o : Option MarkupEntry)
      → is_schema v ≡ false
      → answer_of p files ls w (some (updated (λ e. some (entry_set_value p now e v)) name o))
        ≡ answered w (just v) (schema_name_of o)
  set_plain now v ls w name none h =
      answered_eq w _ _ _ _ (get_value-set_value_plain p now (entry_new name) v ls h)
        (set-schema_name p now (entry_new name) v)
  set_plain now v ls w name (some e) h =
      answered_eq w _ _ _ _ (get_value-set_value_plain p now e v ls h) (set-schema_name p now e v)

  set_full :
      (now : ℕ) (ty li ca cd : GConfValueType) (locale : Bytes) (owner : Option Bytes)
      → (short long : Bytes) (v : GConfValue) (ls : List Bytes) (name : Bytes)
      → (o : Option MarkupEntry)
      → let sc = full_schema ty li ca cd locale owner short long v in
        gconf_schema_validate p sc ≡ is_valid
        → entry_get_value p
            (updated (λ e. some (entry_set_value p now e (schema_value sc))) name o)
            (locale ∷ ls)
          ≡ just (schema_value sc)
  set_full now ty li ca cd locale owner short long v ls name none h =
      get_value-set_value_schema p now (entry_new name) ty li ca cd locale owner short long v ls h
  set_full now ty li ca cd locale owner short long v ls name (some e) h =
      get_value-set_value_schema p now e ty li ca cd locale owner short long v ls h

  unset_answer :
      (now : ℕ) (ls : List Bytes) (w : Bool) (name : Bytes) (o : Option MarkupEntry)
      → answer_of p files ls w (some (updated (λ e. entry_unset_value now e none) name o))
        ≡ answered w null (schema_name_of o)
  unset_answer now ls w name none =
      let u = unset_all p now ls (entry_new name) in answered_eq w _ _ _ _ u.0 u.1
  unset_answer now ls w name (some e) =
      let u = unset_all p now ls e in answered_eq w _ _ _ _ u.0 u.1

  set_schema_answer :
      (now : ℕ) (ls : List Bytes) (new : Option Bytes) (name : Bytes) (o : Option MarkupEntry)
      → answer_of p files ls true
          (some (updated (λ e. some (entry_set_schema_name now e new)) name o))
        ≡ answered true (value_of p files ls o) new
  unfolding entry_set_schema_name entry_get_value
  set_schema_answer now ls new name none = refl
  set_schema_answer now ls new name (some e) = refl

  -- An answer is read off the view.
  query_value-view :
      (t : MarkupDir) (key : Bytes) (locales : List Bytes) (wanted : Bool)
      → (ms_query_value p files t key locales wanted).0
        ≡ answer_of p files locales wanted (tree_view files t key)
  unfolding ms_query_value
  query_value-view t key locales wanted =
      ap (answer_of p files locales wanted) (lookup-view files t key)

  -- A query keeps in the tree what it read from the files, and changes no later answer, for any key
  -- and any locales.
  pub ms_query_value-query_value :
      (t : MarkupDir) (key k : Bytes) (locales ls : List Bytes) (wanted w : Bool)
      → (ms_query_value p files (ms_query_value p files t key locales wanted).1 k ls w).0
        ≡ (ms_query_value p files t k ls w).0
  unfolding ms_query_value
  ms_query_value-query_value t key k locales ls wanted w =
      ap (answer_of p files ls w)
        (lookup-view files _ k ∙ view-lookup files t key k ∙ sym (lookup-view files t k))

  -- Answers at a location that is not that of the entry that an operation changes.
  elsewhere :
      (g : MarkupEntry → Option MarkupEntry)
      → KeepsName g
      → (t : MarkupDir) (key k : Bytes) (ls : List Bytes) (w : Bool)
      → location_of k ≢ location_of key
      → (ms_query_value p files (tree_update_entry files g t key) k ls w).0
        ≡ (ms_query_value p files t k ls w).0
  elsewhere g keeps t key k ls w n =
      query_value-view (tree_update_entry files g t key) k ls w
      ∙ ap (answer_of p files ls w) (view-update_ne files g keeps t key k n)
      ∙ sym (query_value-view t k ls w)

  -- Setting a value, unsetting one and setting the name of a schema changes no answer for a key with
  -- another directory or another name in it.
  pub ms_query_value-elsewhere :
      (t : MarkupDir) (now : ℕ) (key k : Bytes) (v : GConfValue) (locale name : Option Bytes)
      → (ls : List Bytes) (w : Bool) → location_of k ≢ location_of key
      → ((ms_query_value p files (ms_set_value p files now t key v) k ls w).0
          ≡ (ms_query_value p files t k ls w).0)
        × ((ms_query_value p files (ms_unset_value p files now t key locale) k ls w).0
            ≡ (ms_query_value p files t k ls w).0)
        × ((ms_query_value p files (ms_set_schema p files now t key name) k ls w).0
            ≡ (ms_query_value p files t k ls w).0)
  unfolding ms_set_value ms_unset_value ms_set_schema
  ms_query_value-elsewhere t now key k v locale name ls w n = (
    elsewhere _ (set_keeps p now v) t key k ls w n,
    elsewhere _ (unset_keeps now locale) t key k ls w n,
    elsewhere _ (set_schema_keeps now name) t key k ls w n,
  )

  -- The answer at the entry that an operation changes.
  at_entry :
      (g : MarkupEntry → Option MarkupEntry)
      → KeepsName g
      → (t : MarkupDir) (key : Bytes) {l : Location} (ls : List Bytes) (w : Bool)
      → location_of key ≡ some l
      → (ms_query_value p files (tree_update_entry files g t key) key ls w).0
        ≡ answer_of p files ls w (some (updated g l.name (tree_view files t key)))
  at_entry g keeps t key ls w e =
      query_value-view (tree_update_entry files g t key) key ls w
      ∙ ap (answer_of p files ls w) (view-update files g keeps t key e)

  -- A value that is no schema, set at a key with a slash in it, is the answer to the next query for
  -- the key, in whatever locales; the name of the schema of the key is as it was.
  pub ms_query_value-set_value_plain :
      (t : MarkupDir) (now : ℕ) (key : Bytes) (v : GConfValue) (ls : List Bytes) (w : Bool)
      → {l : Location} → location_of key ≡ some l
      → is_schema v ≡ false
      → (ms_query_value p files (ms_set_value p files now t key v) key ls w).0 ≡ record {
        value = just v;
        schema_name = (ms_query_value p files t key ls w).0.schema_name;
        error = none;
      }
  unfolding ms_set_value
  ms_query_value-set_value_plain t now key v ls w {l} e h =
      at_entry _ (set_keeps p now v) t key ls w e
      ∙ set_plain now v ls w l.name _ h
      ∙ ap (λ (a : Answer). answered true (just v) a.schema_name)
          (sym (query_value-view t key ls w))

  -- A schema that has a locale, both descriptions and a default value, and passes
  -- gconf_schema_validate, set at a key with a slash in it, is the answer to the next query that
  -- prefers its locale.
  pub ms_query_value-set_value_schema :
      (t : MarkupDir) (now : ℕ) (key : Bytes) (ls : List Bytes) (w : Bool)
      → (ty li ca cd : GConfValueType) (locale : Bytes) (owner : Option Bytes) (short long : Bytes)
      → (v : GConfValue) {l : Location} → location_of key ≡ some l
      → gconf_schema_validate p (full_schema ty li ca cd locale owner short long v) ≡ is_valid
      → (ms_query_value p files
          (ms_set_value p files now t key
            (schema_value (full_schema ty li ca cd locale owner short long v)))
          key
          (locale ∷ ls)
          w).0.value
        ≡ just (schema_value (full_schema ty li ca cd locale owner short long v))
  unfolding ms_set_value
  ms_query_value-set_value_schema t now key ls w ty li ca cd locale owner short long v {l} e h =
      let sc = full_schema ty li ca cd locale owner short long v in
      ap (λ (a : Answer). a.value)
        (at_entry _ (set_keeps p now (schema_value sc)) t key (locale ∷ ls) w e)
      ∙ set_full now ty li ca cd locale owner short long v ls l.name (tree_view files t key) h

  -- After the value of a key with a slash in it is unset in all locales, a query for the key finds
  -- no value; the name of its schema is as it was.
  pub ms_query_value-unset_value :
      (t : MarkupDir) (now : ℕ) (key : Bytes) (ls : List Bytes) (w : Bool) {l : Location}
      → location_of key ≡ some l
      → (ms_query_value p files (ms_unset_value p files now t key none) key ls w).0 ≡ record {
        value = null;
        schema_name = (ms_query_value p files t key ls w).0.schema_name;
        error = none;
      }
  unfolding ms_unset_value
  ms_query_value-unset_value t now key ls w {l} e =
      at_entry _ (unset_keeps now none) t key ls w e
      ∙ unset_answer now ls w l.name _
      ∙ ap (λ (a : Answer). answered true null a.schema_name) (sym (query_value-view t key ls w))

  -- Setting the name of a schema is read back by the next query, and the value stays.
  pub ms_query_value-set_schema :
      (t : MarkupDir) (now : ℕ) (key : Bytes) (name : Option Bytes) (ls : List Bytes) {l : Location}
      → location_of key ≡ some l
      → (ms_query_value p files (ms_set_schema p files now t key name) key ls true).0 ≡ record {
        value = (ms_query_value p files t key ls true).0.value;
        schema_name = name;
        error = none;
      }
  unfolding ms_set_schema
  ms_query_value-set_schema t now key name ls {l} e =
      at_entry _ (set_schema_keeps now name) t key ls true e
      ∙ set_schema_answer now ls name l.name _
      ∙ ap (λ (a : Answer). answered true a.value name) (sym (query_value-view t key ls true))
