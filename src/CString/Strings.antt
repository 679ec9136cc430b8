-- ===== src/CString/Strings.antt =====
-- Byte strings and literals.
use Prim.Native.Char.{code}
use Prim.Native.String.{String}
use gconf_dbus.Prelude.{ℕ, List, [], ◌∷◌, Bool, true, false, ◌&&◌, ◌==◌}

abbrev pub Bytes : Type 0
Bytes = List ℕ

-- The bytes of an ASCII literal.
abbrev pub codes : String → Bytes
codes String.[] = []
codes (String.◌∷◌ c s) = code c ∷ codes s

-- strcmp (s, t) == 0
abbrev pub bytes_eq : Bytes → Bytes → Bool
bytes_eq [] [] = true
bytes_eq [] (d ∷ t) = false
bytes_eq (c ∷ s) [] = false
bytes_eq (c ∷ s) (d ∷ t) = c == d && bytes_eq s t

-- *s == c, where `c` is no NUL
abbrev pub begins : Bytes → ℕ → Bool
begins [] c = false
begins (d ∷ s) c = d == c
