-- ===== src/Engine/Notify.antt =====
-- Whom a notification of the daemon reaches, after an addition and a removal.
use gconf_dbus.Prelude.{
  ℕ, ◌≡◌, ◌∙◌, ap, true, false, ◌&&◌, Option, none, some, List, ◌∷◌, arith, ◌==◌, ==_refl,
  if◌then◌else◌, Bool-cases, inl, inr,
}
use gconf_dbus.CString.{Bytes, bytes_eq}
use gconf_dbus.Sources.{GConfError}
use gconf_dbus.Value.{MaybeValue}
use gconf_dbus.Value.Entry.{entry_new}
use gconf_dbus.Client.{is_none}
use gconf_dbus.Client.Steps.{one_of}
use gconf_dbus.Engine.{
  GConfCnxn, GConfEngine, CnxnsData, Server, Call, gconf_cnxn_lookup_dir, prepend_cnxn, take_cnxn,
  gconf_cnxn_new, gconf_cnxn_insert, after_send, gconf_engine_notify_add,
  gconf_engine_notify_remove, notify_loop, handle_notify,
}
use gconf_dbus.Engine.Tables.{lookup_dir-prepend, lookup_dir-take_prepend}

-- The connection that is made.
abbrev pub new_cnxn : Bytes → ℕ → GConfEngine → GConfCnxn
new_cnxn section user_data conf = record {
  namespace_section = section;
  client_id = conf.next_id;
  user_data = user_data;
}

module _ (s key : Bytes) (value : MaybeValue) where
  abbrev calls : List CnxnsData → List Call
  calls ds = notify_loop s key value (gconf_cnxn_lookup_dir s ds)

  calls-prepend :
      (c : GConfCnxn) (ds : List CnxnsData)
      → calls (prepend_cnxn c c.namespace_section ds) ≡ (
          if bytes_eq c.namespace_section s
          then record { cnxn = c; entry = entry_new key value } ∷ calls ds
          else calls ds)
  calls-prepend c ds = elim (Bool-cases (bytes_eq c.namespace_section s)) [
    | inl e ↦
        ap (notify_loop s key value) (lookup_dir-prepend c c.namespace_section s ds)
        ∙ ground (arith, e)
    | inr e ↦
        ap (notify_loop s key value) (lookup_dir-prepend c c.namespace_section s ds)
        ∙ ground (arith, e)
  ]

  calls-take_prepend :
      (c : GConfCnxn) (ds : List CnxnsData)
      → calls (take_cnxn c.client_id c.namespace_section (prepend_cnxn c c.namespace_section ds))
        ≡ calls ds
  calls-take_prepend c ds =
      ap (notify_loop s key value) (lookup_dir-take_prepend c c.namespace_section s ds)

  module _ {S : Type 0} where
    calls-after_send :
        (c : GConfCnxn) (conf : GConfEngine) (a : S × Option GConfError)
        → handle_notify s key value (after_send c (gconf_cnxn_insert c conf) a).conf ≡ (
            if is_none (after_send c (gconf_cnxn_insert c conf) a).error
              && bytes_eq c.namespace_section s
            then record { cnxn = c; entry = entry_new key value } ∷ handle_notify s key value conf
            else handle_notify s key value conf)
    unfolding handle_notify
    calls-after_send c conf (st, none) = calls-prepend c conf.notify_dirs
    calls-after_send c conf (st, some e) = calls-take_prepend c conf.notify_dirs

    module _ (srv : Server S) (section : Bytes) (user_data : ℕ) (conf : GConfEngine) (st : S)
        (remote : conf.is_local ≡ false) where
      remote_add : gconf_engine_notify_add srv section user_data conf st ≡ (
          let (c, conf') = gconf_cnxn_new section user_data conf in
          after_send c (gconf_cnxn_insert c conf') (srv.add_notify st section))
      unfolding gconf_engine_notify_add
      remote_add = ground (arith, remote)

      -- On an engine that is not local: after gconf_engine_notify_add a notification of the
      -- daemon reaches the new connection first, with the key and the value, if nothing failed and
      -- the notification is for its directory, and those that it reached before.
      pub handle_notify-add :
          handle_notify s key value (gconf_engine_notify_add srv section user_data conf st).conf ≡ (
            if is_none (gconf_engine_notify_add srv section user_data conf st).error
              && bytes_eq section s
            then record { cnxn = new_cnxn section user_data conf; entry = entry_new key value }
              ∷ handle_notify s key value conf
            else handle_notify s key value conf)
      unfolding handle_notify
      handle_notify-add =
          let (c, conf') = gconf_cnxn_new section user_data conf in
          rw remote_add (calls-after_send c conf' (srv.add_notify st section))

      -- On an engine that is not local: where gconf_engine_notify_add did not fail, and
      -- gconf_engine_notify_remove is called with the identifier that it returned, a notification
      -- of the daemon reaches those that it reached before the two.
      pub handle_notify-remove :
          is_none (gconf_engine_notify_add srv section user_data conf st).error ≡ true
          → handle_notify s key value
              (gconf_engine_notify_remove srv
                (gconf_engine_notify_add srv section user_data conf st).id
                (gconf_engine_notify_add srv section user_data conf st).conf
                (gconf_engine_notify_add srv section user_data conf st).server).0
            ≡ handle_notify s key value conf
      unfolding gconf_engine_notify_add gconf_engine_notify_remove handle_notify
      handle_notify-remove q =
          let (c, conf') = gconf_cnxn_new section user_data conf in
          ground (arith, q, remote, ==_refl conf.next_id, calls-take_prepend c conf'.notify_dirs)

module _ {S : Type 0} (srv : Server S) (section : Bytes) (user_data : ℕ) (conf : GConfEngine)
    (st : S) (remote : conf.is_local ≡ false) where
  -- On an engine that is not local, while the next identifier is not 0: gconf_engine_notify_add
  -- returns an identifier and no error, or 0 and an error.
  pub notify_add-one_of :
      (conf.next_id == 0) ≡ false
      → one_of (
        st,
        (gconf_engine_notify_add srv section user_data conf st).id,
        (gconf_engine_notify_add srv section user_data conf st).error,
      )
        ≡ true
  unfolding gconf_engine_notify_add
  notify_add-one_of z = ground (arith, remote, z)
