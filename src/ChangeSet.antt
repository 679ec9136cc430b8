-- ===== src/ChangeSet.antt =====
-- gconf/gconf-changeset.c: sets of changes to keys, their commit, and their reverse.
-- The hash table is the list of its changes in the order in which it is traversed. Reference counts
-- and user data are not modelled.
pub mod Lookup
pub mod Commit
pub mod Reverse
pub mod Emptied
mod Tests
use gconf_dbus.Prelude.{
  ℕ, ◌+◌, ◌-◌, Bool, true, false, not, ◌&&◌, Option, none, some, List, [], ◌∷◌, ◌==◌, if◌then◌else◌,
  length, ℤ,
}
use gconf_dbus.CString.{Bytes, bytes_eq}
use gconf_dbus.Value.{
  GConfValue, GConfValueType, value_type, invalid, int_value, float_value, string_value, bool_value,
}

pub data ChangeType : Type 0 where
  change_invalid change_set_to change_unset_it : ChangeType

pub record Change : Type 0 where
  pub key : Bytes
  pub change_type : ChangeType
  pub value : Option GConfValue

pub record GConfChangeSet : Type 0 where
  pub hash : List Change
  pub in_foreach : ℕ

abbrev pub change_set_new : GConfChangeSet
change_set_new = record { hash = []; in_foreach = 0 }

abbrev pub change_new : Bytes → Change
change_new key = record { key = key; change_type = change_invalid; value = none }

-- GCONF_VALUE_TYPE_VALID
unfoldable pub type_valid : GConfValueType → Bool
type_valid invalid = false
type_valid t = true

unfoldable pub change_set : GConfValue → Change → Change
change_set value c =
    if type_valid (value_type value)
    then record { key = c.key; change_type = change_set_to; value = some value }
    else c

unfoldable pub change_unset : Change → Change
change_unset c = record { key = c.key; change_type = change_unset_it; value = none }

-- g_hash_table_lookup
unfoldable pub lookup_change : Bytes → List Change → Option Change
lookup_change key [] = none
lookup_change key (c ∷ cs) =
    let later = lookup_change key cs in if bytes_eq c.key key then some c else later

-- `get_change_unconditional`, and what its caller does to the change.
unfoldable pub update_change : Bytes → (Change → Change) → List Change → List Change
update_change key f [] = f (change_new key) ∷ []
update_change key f (c ∷ cs) =
    let later = c ∷ update_change key f cs in if bytes_eq c.key key then f c ∷ cs else later

-- g_hash_table_remove
unfoldable pub remove_change : Bytes → List Change → List Change
remove_change key [] = []
remove_change key (c ∷ cs) =
    let later = c ∷ remove_change key cs in if bytes_eq c.key key then cs else later

abbrev pub with_hash : GConfChangeSet → List Change → GConfChangeSet
with_hash cs hash = record { hash = hash; in_foreach = cs.in_foreach }

abbrev pub change_set_clear : GConfChangeSet → GConfChangeSet
change_set_clear cs = with_hash cs []

abbrev pub change_set_size : GConfChangeSet → ℕ
change_set_size cs = length cs.hash

unfoldable pub change_set_remove : GConfChangeSet → Bytes → GConfChangeSet
change_set_remove cs key =
    if cs.in_foreach == 0 then with_hash cs (remove_change key cs.hash) else cs

abbrev pub value_of : Option Change → Option (Option GConfValue)
value_of none = none
value_of (some c) = some c.value

-- `none` for FALSE, and otherwise the value, which may be NULL.
unfoldable pub change_set_check_value : GConfChangeSet → Bytes → Option (Option GConfValue)
change_set_check_value cs key = value_of (lookup_change key cs.hash)

unfoldable pub change_set_set : GConfChangeSet → Bytes → GConfValue → GConfChangeSet
change_set_set cs key value = with_hash cs (update_change key (change_set value) cs.hash)

unfoldable pub change_set_unset : GConfChangeSet → Bytes → GConfChangeSet
change_set_unset cs key = with_hash cs (update_change key change_unset cs.hash)

abbrev pub change_set_set_int : GConfChangeSet → Bytes → ℤ → GConfChangeSet
change_set_set_int cs key val = change_set_set cs key (int_value val)

abbrev pub change_set_set_bool : GConfChangeSet → Bytes → Bool → GConfChangeSet
change_set_set_bool cs key val = change_set_set cs key (bool_value val)

abbrev pub change_set_set_float : GConfChangeSet → Bytes → ℕ → GConfChangeSet
change_set_set_float cs key val = change_set_set cs key (float_value val)

abbrev pub change_set_set_string : GConfChangeSet → Bytes → Bytes → GConfChangeSet
change_set_set_string cs key val = change_set_set cs key (string_value (some val))

-- What the code uses of an engine: `gconf_engine_set`, `gconf_engine_unset` and
-- `gconf_engine_get_without_default`, each with the error it reports.
pub record Engine (E : Type 0) : Type 0 where
  pub set : E → Bytes → GConfValue → E × Option ℕ
  pub unset : E → Bytes → E × Option ℕ
  pub get : E → Bytes → Option GConfValue × Option ℕ

-- `struct CommitData`, with the state of the engine.
pub record CommitData (E : Type 0) : Type 0 where
  pub engine : E
  pub error : Option ℕ
  pub remove_list : List Bytes

pub record Committed (E : Type 0) : Type 0 where
  pub engine : E
  pub changes : GConfChangeSet
  pub error : Option ℕ

abbrev pub remove_all : GConfChangeSet → List Bytes → GConfChangeSet
remove_all cs [] = cs
remove_all cs (key ∷ keys) = remove_all (change_set_remove cs key) keys

-- An error of the engine is only warned about.
unfoldable pub revert_change :
    Bytes → Option GConfValue → Option GConfValue → GConfChangeSet → GConfChangeSet
revert_change key none none revert_set = revert_set
revert_change key none (some value) revert_set = change_set_unset revert_set key
revert_change key (some old_value) value revert_set = change_set_set revert_set key old_value

abbrev pub current_change : Bytes → Option GConfValue → GConfChangeSet → GConfChangeSet
current_change key none new_set = change_set_unset new_set key
current_change key (some value) new_set = change_set_set new_set key value

module _ {E : Type 0} (conf : Engine E) where
  abbrev pub engine_change : E → Bytes → Option GConfValue → E × Option ℕ
  engine_change e key none = conf.unset e key
  engine_change e key (some value) = conf.set e key value

  abbrev pub note_committed : Bool → Bytes → List Bytes → E × Option ℕ → CommitData E
  note_committed remove_committed key keys (e, some err) = record {
    engine = e;
    error = some err;
    remove_list = keys;
  }
  note_committed true key keys (e, none) = record {
    engine = e;
    error = none;
    remove_list = key ∷ keys;
  }
  note_committed false key keys (e, none) = record { engine = e; error = none; remove_list = keys }

  unfoldable pub commit_foreach : Bool → Change → CommitData E → CommitData E
  commit_foreach remove_committed c cd = elim (cd.error) [
    | some err ↦ cd
    | none ↦
        note_committed remove_committed c.key cd.remove_list (engine_change cd.engine c.key c.value)
  ]

  unfoldable pub commit_loop : Bool → List Change → CommitData E → CommitData E
  commit_loop remove_committed [] cd = cd
  commit_loop remove_committed (c ∷ cs) cd =
      commit_loop remove_committed cs (commit_foreach remove_committed c cd)

  -- The result is FALSE where there is an error.
  unfoldable pub commit_change_set : E → GConfChangeSet → Bool → Committed E
  commit_change_set e cs remove_committed =
      let cd =
        commit_loop remove_committed cs.hash
          (record { engine = e; error = none; remove_list = [] }) in
      record { engine = cd.engine; changes = remove_all cs cd.remove_list; error = cd.error }

  unfoldable pub revert_loop : E → List Change → GConfChangeSet → GConfChangeSet
  revert_loop e [] revert_set = revert_set
  revert_loop e (c ∷ cs) revert_set =
      revert_loop e cs (revert_change c.key (conf.get e c.key).0 c.value revert_set)

  unfoldable pub reverse_change_set : E → GConfChangeSet → GConfChangeSet
  reverse_change_set e cs = revert_loop e cs.hash change_set_new

  unfoldable pub from_currentv : E → List Bytes → GConfChangeSet → GConfChangeSet
  from_currentv e [] new_set = new_set
  from_currentv e (key ∷ keys) new_set =
      from_currentv e keys (current_change key (conf.get e key).0 new_set)

  unfoldable pub change_set_from_currentv : E → List Bytes → GConfChangeSet
  change_set_from_currentv e keys = from_currentv e keys change_set_new
