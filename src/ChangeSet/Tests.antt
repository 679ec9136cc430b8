-- ===== src/ChangeSet/Tests.antt =====
-- An engine in memory, a change set on it, and the theorems at them.
use gconf_dbus.Prelude.{Option, none, some, pos, if◌then◌else◌}
use gconf_dbus.CString.{Bytes, codes, bytes_eq}
use gconf_dbus.Value.{GConfValue, int_value, value_type}
use gconf_dbus.ChangeSet.{
  GConfChangeSet, change_set_new, type_valid, change_set_set, change_set_unset, Engine,
}

abbrev Store : Type 0
Store = Bytes → Option GConfValue

abbrev put : Store → Bytes → Option GConfValue → Store
put e k v = λ j. if bytes_eq k j then v else e j

-- Only valid values are read.
abbrev valid_only : Option GConfValue → Option GConfValue
valid_only none = none
valid_only (some v) = if type_valid (value_type v) then some v else none

abbrev memory : Engine Store
memory = record {
  set = λ (e : Store) (k : Bytes) (v : GConfValue). (put e k (some v), none);
  unset = λ (e : Store) (k : Bytes). (put e k none, none);
  get = λ (e : Store) (k : Bytes). (valid_only (e k), none);
}

abbrev start : Store
start = put (λ k. none) (codes "/b") (some (int_value (pos 4)))

-- It sets "/a" and unsets "/b".
abbrev changes : GConfChangeSet
changes =
    change_set_unset (change_set_set change_set_new (codes "/a") (int_value (pos 3))) (codes "/b")
