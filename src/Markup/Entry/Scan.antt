-- ===== src/Markup/Entry/Scan.antt =====
-- The two loops of `markup_entry_get_value`, against a plain search.
use gconf_dbus.Prelude.{◌≡◌, refl, Option, none, some, List, [], ◌∷◌, arith, if◌then◌else◌}
use gconf_dbus.CString.{Bytes, bytes_eq}
use gconf_dbus.Markup.Entry.{LocalSchemaInfo, c_locale}
use gconf_dbus.Markup.Entry.Local.{Found, see_c, see_best, scan_local, scan_locales}

-- The texts of a locale.
unfoldable pub local_for : Bytes → List LocalSchemaInfo → Option LocalSchemaInfo
local_for locale [] = none
local_for locale (lsi ∷ rest) =
    let later = local_for locale rest in if bytes_eq locale lsi.locale then some lsi else later

abbrev pub or_local : Option LocalSchemaInfo → Option LocalSchemaInfo → Option LocalSchemaInfo
or_local none o = o
or_local (some l) o = some l

-- The texts of the first locale that has any.
unfoldable pub first_for : List Bytes → List LocalSchemaInfo → Option LocalSchemaInfo
first_for [] ls = none
first_for (locale ∷ locales) ls = or_local (local_for locale ls) (first_for locales ls)

abbrev pub filled : Found → Option LocalSchemaInfo → Option LocalSchemaInfo → Found
filled f best c = record { best = or_local f.best best; c = or_local f.c c }

pub bytes_eq_comm : (s t : Bytes) → bytes_eq s t ≡ bytes_eq t s
bytes_eq_comm [] [] = refl
bytes_eq_comm [] (d ∷ t) = refl
bytes_eq_comm (c ∷ s) [] = refl
bytes_eq_comm (c ∷ s) (d ∷ t) = ground (arith, bytes_eq_comm s t)

scan_local_lem :
    (locale : Bytes) (ls : List LocalSchemaInfo) (f : Found)
    → scan_local locale ls f ≡ filled f (local_for locale ls) (local_for c_locale ls)
unfolding scan_local local_for see_c see_best
scan_local_lem locale [] f = ground arith
scan_local_lem locale (lsi ∷ rest) f =
    rw (scan_local_lem locale rest (see_best locale lsi (see_c lsi f)))
      (ground (arith, bytes_eq_comm lsi.locale c_locale))

scan_locales_lem :
    (locale : Bytes) (locales : List Bytes) (ls : List LocalSchemaInfo) (f : Found)
    → scan_locales (locale ∷ locales) ls f
      ≡ filled f (first_for (locale ∷ locales) ls) (local_for c_locale ls)
unfolding scan_locales first_for
scan_locales_lem locale [] ls f = rw (scan_local_lem locale ls f) (ground arith)
scan_locales_lem locale (l ∷ locales) ls f =
    ground
      (arith, scan_local_lem locale ls f, scan_locales_lem l locales ls (scan_local locale ls f))

-- markup_entry_get_value, whose loops stop early, takes the texts of the first locale that has any,
-- and those of the C locale as a fallback.
pub scan_locales-first_for :
    (locale : Bytes) (locales : List Bytes) (ls : List LocalSchemaInfo)
    → scan_locales (locale ∷ locales) ls (record { best = none; c = none })
      ≡ record { best = first_for (locale ∷ locales) ls; c = local_for c_locale ls }
scan_locales-first_for locale locales ls =
    scan_locales_lem locale locales ls (record { best = none; c = none })
