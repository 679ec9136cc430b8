-- ===== src/Markup/Entry/Local.antt =====
-- `markup_entry_get_value`: the choice of the texts for the preferred languages.
use gconf_dbus.Prelude.{
  Bool, true, false, not, ◌&&◌, Option, none, some, List, [], ◌∷◌, if◌then◌else◌,
}
use gconf_dbus.CString.{Bytes, bytes_eq}
use gconf_dbus.Platform.{Platform}
use gconf_dbus.Value.{schema_value, schema_null, MaybeValue, null, just, GConfSchema, make_schema}
use gconf_dbus.Markup.Entry.{LocalSchemaInfo, MarkupEntry, c_locale}

-- `best` and `c_local_schema`
pub record Found : Type 0 where
  pub best : Option LocalSchemaInfo
  pub c : Option LocalSchemaInfo

abbrev pub is_none : Option LocalSchemaInfo → Bool
is_none none = true
is_none (some l) = false

abbrev pub is_complete : Found → Bool
is_complete f = not (is_none f.best) && not (is_none f.c)

-- The two tests of the inner loop.
unfoldable pub see_c : LocalSchemaInfo → Found → Found
see_c lsi f =
    if is_none f.c && bytes_eq lsi.locale c_locale
    then record { best = f.best; c = some lsi }
    else f

unfoldable pub see_best : Bytes → LocalSchemaInfo → Found → Found
see_best locale lsi f =
    if is_none f.best && bytes_eq locale lsi.locale then record { best = some lsi; c = f.c } else f

-- The inner loop, which is left as soon as both are found.
unfoldable pub scan_local : Bytes → List LocalSchemaInfo → Found → Found
scan_local locale [] f = f
scan_local locale (lsi ∷ rest) f =
    let g = see_c lsi f in
    let h = see_best locale lsi g in
    let later = scan_local locale rest h in
    if is_none f.c && is_complete g then g else if is_none g.best && is_complete h then h else later

-- The loop over the locales.
unfoldable pub scan_locales : List Bytes → List LocalSchemaInfo → Found → Found
scan_locales [] ls f = f
scan_locales (locale ∷ locales) ls f =
    let g = scan_local locale ls f in
    let later = scan_locales locales ls g in if is_complete g then g else later

abbrev pub or_fallback : List Bytes → List Bytes
or_fallback [] = c_locale ∷ []
or_fallback (l ∷ ls) = l ∷ ls

abbrev pub short_of : Option LocalSchemaInfo → Option Bytes
short_of none = none
short_of (some lsi) = lsi.short_desc

abbrev pub long_of : Option LocalSchemaInfo → Option Bytes
long_of none = none
long_of (some lsi) = lsi.long_desc

abbrev pub default_of : Option LocalSchemaInfo → MaybeValue
default_of none = null
default_of (some lsi) = lsi.default_value

abbrev pub locale_of : Option LocalSchemaInfo → Bytes
locale_of none = c_locale
locale_of (some lsi) = lsi.locale

abbrev pub set_default : MaybeValue → MaybeValue → MaybeValue → MaybeValue
set_default (just v) c old = just v
set_default null (just v) old = just v
set_default null null old = old

module _ (p : Platform) where
  -- A setter with the first that is there, of `best` and the C locale; with none it is not called.
  abbrev pub set_text : Option Bytes → Option Bytes → Option Bytes → Option Bytes
  set_text (some s) c old = if p.utf8_validate s then some s else old
  set_text none (some s) old = if p.utf8_validate s then some s else old
  set_text none none old = old

  abbrev pub set_locale : Bytes → Option Bytes → Option Bytes
  set_locale l old = if p.utf8_validate l then some l else old

  unfoldable pub localize : Found → GConfSchema → GConfSchema
  localize f (make_schema t l c d locale owner short long default) =
      make_schema t l c d (set_locale (locale_of f.best) locale) owner
        (set_text (short_of f.best) (short_of f.c) short)
        (set_text (long_of f.best) (long_of f.c) long)
        (set_default (default_of f.best) (default_of f.c) default)

  abbrev pub value_for : List Bytes → List LocalSchemaInfo → MaybeValue → MaybeValue
  value_for locales ls null = null
  value_for locales ls (just schema_null) = null
  value_for locales ls (just (schema_value sc)) = just (
      schema_value
        (localize (scan_locales (or_fallback locales) ls (record { best = none; c = none })) sc))
  value_for locales ls (just v) = just v

  unfoldable pub entry_get_value : MarkupEntry → List Bytes → MaybeValue
  entry_get_value entry locales = value_for locales entry.local_schemas entry.value
