-- ===== src/Quote/Tests.antt =====
-- Texts that the theorems are applied to, and a run of the functions.
use gconf_dbus.Prelude.{◌≡◌, refl, true}
use gconf_dbus.CString.{codes}
use gconf_dbus.Quote.{unquote_string}

run_unquote :
    unquote_string (codes "\"a\\\"b\\c\"tail")
    ≡ record { text = codes "a\"b\\c"; rest = codes "tail"; closed = true }
unfolding unquote_string
run_unquote = refl
