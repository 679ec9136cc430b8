-- ===== src/ChangeSet/Reverse.antt =====
-- `gconf_engine_reverse_change_set`: committing the reverse undoes a commit.
use gconf_dbus.Prelude.{◌≡◌, ◌⊎◌, Option, none, some}
use gconf_dbus.CString.{Bytes}
use gconf_dbus.Value.{GConfValue}
use gconf_dbus.ChangeSet.{GConfChangeSet, change_set_check_value}

-- The value that the first commit leaves is undone: the revert set has the old value, or it has
-- nothing and the value is the old one.
abbrev Undone : GConfChangeSet → Bytes → Option GConfValue → Option GConfValue → Type 0
Undone revert_set k current old =
    (change_set_check_value revert_set k ≡ some old)
    ⊎ ((change_set_check_value revert_set k ≡ none) × (current ≡ old))
