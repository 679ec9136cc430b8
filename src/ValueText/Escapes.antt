-- ===== src/ValueText/Escapes.antt =====
-- `escape_string`.
use gconf_dbus.Prelude.{ℕ, Bool, false, ◌||◌, [], ◌∷◌, ◌==◌, if◌then◌else◌}
use gconf_dbus.CString.{Bytes}

-- strchr (escaped_chars, c) != NULL, where `c` is no NUL
abbrev pub strchr : Bytes → ℕ → Bool
strchr [] c = false
strchr (d ∷ s) c = d == c || strchr s c

-- A backslash goes before each byte of `escaped_chars`, and before each backslash.
unfoldable pub escape_string : Bytes → Bytes → Bytes
escape_string escaped_chars [] = []
escape_string escaped_chars (c ∷ s) =
    if strchr escaped_chars c || c == b'\\'
    then b'\\' ∷ c ∷ escape_string escaped_chars s
    else c ∷ escape_string escaped_chars s
