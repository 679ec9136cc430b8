-- ===== src/Quote.antt =====
-- gconf/gconf-internals.c: `gconf_quote_string` and `gconf_unquote_string`.
-- The strings are the bytes before the NUL. The in-place loop reads behind its read position only,
-- so its output is a list of its own here.
pub mod RoundTrip
mod Tests
use gconf_dbus.Prelude.{ℕ, ◌≡◌, refl, Bool, true, false, List, [], ◌∷◌, ◌++◌, ◌==◌, if◌then◌else◌}
use gconf_dbus.CString.{Bytes}

abbrev pub quote_mark : ℕ
quote_mark = b'"'

abbrev pub backslash : ℕ
backslash = b'\\'

-- The loop of `gconf_quote_string`, with the closing mark.
quote_loop : Bytes → Bytes
quote_loop [] = quote_mark ∷ []
quote_loop (c ∷ s) =
    if c == quote_mark
    then backslash ∷ quote_mark ∷ quote_loop s
    else if c == backslash
    then backslash ∷ backslash ∷ quote_loop s
    else c ∷ quote_loop s

unfoldable pub quote_string : Bytes → Bytes
unfolding quote_loop
quote_string src = quote_mark ∷ quote_loop src

-- The text, what `*end` points at, and whether the error is left unset.
pub record Unquoted : Type 0 where
  pub text : Bytes
  pub rest : Bytes
  pub closed : Bool

-- The loop of `gconf_unquote_string_inplace` after the first mark; `out` is what stands before
-- `dest`. A backslash that escapes nothing is copied, and the byte behind it is looked at again.
unquote_loop : Bytes → Bytes → Unquoted
unquote_loop [] out = record { text = out; rest = []; closed = false }
unquote_loop (c ∷ []) out =
    if c == quote_mark
    then record { text = out; rest = []; closed = true }
    else record { text = out ++ c ∷ []; rest = []; closed = false }
unquote_loop (c ∷ d ∷ s) out =
    let escaped = unquote_loop s (out ++ d ∷ []) in
    let copied = unquote_loop (d ∷ s) (out ++ c ∷ []) in
    if c == quote_mark
    then record { text = out; rest = d ∷ s; closed = true }
    else if c == backslash
    then (if d == quote_mark then escaped else if d == backslash then escaped else copied)
    else copied

-- Without a mark in front the string is left as it is, with `*end` at its start.
unfoldable pub unquote_string : Bytes → Unquoted
unfolding unquote_loop
unquote_string [] = record { text = []; rest = []; closed = false }
unquote_string (c ∷ s) =
    if c == quote_mark
    then unquote_loop s []
    else record { text = c ∷ s; rest = c ∷ s; closed = false }
