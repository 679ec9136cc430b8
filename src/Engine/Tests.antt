-- ===== src/Engine/Tests.antt =====
-- Tests of the engine's connections, and the instances of their properties.
use gconf_dbus.Prelude.{ℕ, suc, ◌≡◌, refl, ℤ, true, false, ◌&&◌, none, some, [], ◌∷◌, if◌then◌else◌}
use gconf_dbus.CString.{codes, bytes_eq}
use gconf_dbus.Sources.{failed}
use gconf_dbus.Value.{MaybeValue, just, int_value}
use gconf_dbus.Value.Entry.{entry_new}
use gconf_dbus.Client.{is_none}
use gconf_dbus.Engine.{
  GConfEngine, Server, gconf_engine_notify_add, gconf_engine_notify_remove, handle_notify,
}
use gconf_dbus.Engine.Notify.{new_cnxn, handle_notify-add, handle_notify-remove}

-- A daemon that counts what it is asked for.
abbrev willing : Server ℕ
willing = record { add_notify = λ n dir. (suc n, none); remove_notify = λ n dir. n }

abbrev unwilling : Server ℕ
unwilling = record willing { add_notify = λ n dir. (n, some failed) }

abbrev conf : GConfEngine
conf = record { is_local = false; notify_dirs = []; notify_ids = []; next_id = 1 }

abbrev two : GConfEngine
two =
    (gconf_engine_notify_add willing (codes "/b") 9
      (gconf_engine_notify_add willing (codes "/a") 8 conf 0).conf 1).conf

abbrev seven : MaybeValue
seven = just (int_value (ℤ.pos 7))

-- The second connection at the directory comes first.
reached :
    handle_notify
      (codes "/a")
      (codes "/a/x")
      seven
      (gconf_engine_notify_add willing (codes "/a") 7 two 2).conf
    ≡ record {
      cnxn = record { namespace_section = codes "/a"; client_id = 3; user_data = 7 };
      entry = entry_new (codes "/a/x") seven;
    }
      ∷ record {
        cnxn = record { namespace_section = codes "/a"; client_id = 1; user_data = 8 };
        entry = entry_new (codes "/a/x") seven;
      }
      ∷ []
unfolding gconf_engine_notify_add handle_notify
reached = refl

-- A connection that the daemon refuses leaves the tables.
refused :
    (gconf_engine_notify_add unwilling (codes "/a") 7 conf 0).conf ≡ record conf { next_id = 2 }
unfolding gconf_engine_notify_add
refused = refl

-- After the last number comes 0, which stands for an error.
wrapped :
    (gconf_engine_notify_add willing
      (codes "/a")
      7
      (record conf { next_id = 4294967295 })
      0).conf.next_id
    ≡ 0
unfolding gconf_engine_notify_add
wrapped = refl

two_remote : two.is_local ≡ false
unfolding gconf_engine_notify_add
two_remote = refl

two_next : two.next_id ≡ 3
unfolding gconf_engine_notify_add
two_next = refl

added_third : is_none (gconf_engine_notify_add willing (codes "/a") 7 two 2).error ≡ true
unfolding gconf_engine_notify_add
added_third = refl

handle_notify-add_example :
    handle_notify
      (codes "/a")
      (codes "/a/x")
      seven
      (gconf_engine_notify_add willing (codes "/a") 7 two 2).conf
    ≡ (if is_none (gconf_engine_notify_add willing (codes "/a") 7 two 2).error
          && bytes_eq (codes "/a") (codes "/a")
        then record { cnxn = new_cnxn (codes "/a") 7 two; entry = entry_new (codes "/a/x") seven }
          ∷ handle_notify (codes "/a") (codes "/a/x") seven two
        else handle_notify (codes "/a") (codes "/a/x") seven two)
handle_notify-add_example =
    handle_notify-add (codes "/a") (codes "/a/x") seven willing (codes "/a") 7 two 2 two_remote

handle_notify-remove_example :
    handle_notify
      (codes "/a")
      (codes "/a/x")
      seven
      (gconf_engine_notify_remove willing
        (gconf_engine_notify_add willing (codes "/a") 7 two 2).id
        (gconf_engine_notify_add willing (codes "/a") 7 two 2).conf
        (gconf_engine_notify_add willing (codes "/a") 7 two 2).server).0
    ≡ handle_notify (codes "/a") (codes "/a/x") seven two
handle_notify-remove_example =
    handle_notify-remove (codes "/a") (codes "/a/x") seven willing (codes "/a") 7 two 2 two_remote
      added_third
