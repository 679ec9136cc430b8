-- ===== src/Platform/Ascii.antt =====
-- A platform that meets the laws: its UTF-8 is ASCII, and a double stands for a natural number.
use gconf_dbus.Prelude.{
  ℕ, ◌<◌, ◌≡◌, refl, ap, Bool, true, ◌&&◌, [], ◌∷◌, ◌++◌, some, arith, ltb, lt→ltb,
}
use gconf_dbus.CString.{Bytes, put_nat, put_nat-ascii, scan_digits}
use gconf_dbus.Platform.{Platform, IsUtf8, IsAsciiFormat}

abbrev pub is_ascii : Bytes → Bool
is_ascii [] = true
is_ascii (c ∷ s) = ltb c 128 && is_ascii s

abbrev pub ascii_platform : Platform
ascii_platform = record {
  utf8_validate = is_ascii;
  format_g = λ d. put_nat d [];
  strtod = λ s. (scan_digits s 0).0;
  ascii_dtostr = λ d. put_nat d [];
  ascii_strtod = λ s. some (scan_digits s 0).0;
  double_lt = ltb;
}

is_ascii-append :
    (xs : Bytes) (c : ℕ) (ys : Bytes)
    → c < 128
    → is_ascii (xs ++ c ∷ ys) ≡ (is_ascii xs && is_ascii ys)
is_ascii-append [] c ys h = ap (λ b. b && is_ascii ys) (lt→ltb c 128 h)
is_ascii-append (x ∷ xs) c ys h = ground (arith, is_ascii-append xs c ys h)

pub ascii_platform-IsUtf8 : IsUtf8 ascii_platform
ascii_platform-IsUtf8 = record { empty = refl; ascii = is_ascii-append }

pub ascii_platform-IsAsciiFormat : IsAsciiFormat ascii_platform
ascii_platform-IsAsciiFormat = record { written = put_nat-ascii }
