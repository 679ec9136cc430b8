-- ===== src/Keys/Tests.antt =====
-- Keys that the theorems are applied to, and runs of the functions.
use gconf_dbus.Prelude.{◌≡◌, refl, ◌↔◌, true, false, List, [], ◌∷◌, ◌++◌, All, arith}
use gconf_dbus.CString.{Bytes, codes, put_nat}
use gconf_dbus.Keys.{
  valid_key, valid_key_result, why_invalid, two_slashes, period_after_slash, ends_with_slash,
  escape_key, unescape_key, needs_escape, is_invalid_char, strtoul_guchar, key_is_below,
  below_prefix, valid_key_loop,
}
use gconf_dbus.Keys.Valid.{IsComponent, key_of, valid_key_iff}
use gconf_dbus.Keys.Escape.{unescape_key-escape_key}
use gconf_dbus.Keys.Below.{key_is_below_iff}

abbrev apps : Bytes
apps = codes "apps"

abbrev foo : Bytes
foo = codes "foo"

-- A key that holds bytes to be escaped.
abbrev text : Bytes
text = codes "a/b.@c"

apps-IsComponent : IsComponent apps
unfolding is_invalid_char
apps-IsComponent = ground arith

foo-IsComponent : IsComponent foo
unfolding is_invalid_char
foo-IsComponent = ground arith

run_escape : unescape_key (escape_key text) ≡ text
unfolding unescape_key escape_key needs_escape put_nat strtoul_guchar is_invalid_char
run_escape = refl

two_slashes_refused : valid_key (codes "/a//b") ≡ why_invalid two_slashes
unfolding valid_key valid_key_loop is_invalid_char
two_slashes_refused = refl

period_refused : valid_key (codes "/a/.b") ≡ why_invalid period_after_slash
unfolding valid_key valid_key_loop is_invalid_char
period_refused = refl

last_slash_refused : valid_key (codes "/a/") ≡ why_invalid ends_with_slash
unfolding valid_key valid_key_loop is_invalid_char
last_slash_refused = refl

-- A prefix of bytes is not enough.
not_below : key_is_below (codes "/foo") (codes "/foofoo/bar") ≡ false
unfolding key_is_below below_prefix
not_below = refl

valid_key_iff_example :
    (valid_key (codes "/apps/foo") ≡ valid_key_result)
    ↔ ((cs : List Bytes) × All IsComponent cs × (codes "/apps/foo" ≡ key_of cs))
valid_key_iff_example = valid_key_iff (codes "/apps/foo")

unescape_key-escape_key_example : unescape_key (escape_key text) ≡ text
unescape_key-escape_key_example = unescape_key-escape_key text (omega arith)

key_is_below_iff_example :
    (key_is_below (codes "/apps") (codes "/apps/foo") ≡ true)
    ↔ ((es : List Bytes) × (apps ∷ foo ∷ [] ≡ (apps ∷ []) ++ es))
key_is_below_iff_example =
    key_is_below_iff (apps ∷ []) (apps ∷ foo ∷ []) (apps-IsComponent, tt)
      (apps-IsComponent, (foo-IsComponent, tt))
