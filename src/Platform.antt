-- ===== src/Platform.antt =====
-- What the code takes from GLib and from the floating point of the C library, as parameters.
-- A `gdouble` is its bit pattern, a number.
pub mod Ascii
use gconf_dbus.Prelude.{ℕ, ◌<◌, ◌≡◌, ◌∙◌, ap, Bool, true, ◌&&◌, [], ◌∷◌, ◌++◌, All, Option}
use gconf_dbus.CString.{Bytes}

pub record Platform : Type 0 where
  -- g_utf8_validate (str, -1, NULL)
  pub utf8_validate : Bytes → Bool
  -- printf "%g"
  pub format_g : ℕ → Bytes
  -- g_strtod (str, &end): the value, 0.0 where nothing is converted
  pub strtod : Bytes → ℕ
  -- g_ascii_dtostr (buf, size, d)
  pub ascii_dtostr : ℕ → Bytes
  -- g_ascii_strtod (str, &end): none where nothing is converted, or `errno` is set
  pub ascii_strtod : Bytes → Option ℕ
  -- a < b, of two doubles
  pub double_lt : ℕ → ℕ → Bool

-- UTF-8 is such that an ASCII byte stands only for itself: a text is valid exactly when the parts
-- before and after such a byte are.
pub record IsUtf8 (p : Platform) : Type 0 where
  pub empty : p.utf8_validate [] ≡ true
  pub ascii :
      (xs : Bytes) (c : ℕ) (ys : Bytes)
      → c < 128
      → p.utf8_validate (xs ++ c ∷ ys) ≡ (p.utf8_validate xs && p.utf8_validate ys)

-- What `%g` writes is ASCII.
pub record IsAsciiFormat (p : Platform) : Type 0 where
  pub written : (d : ℕ) → All (λ c. c < 128) (p.format_g d)

module _ (p : Platform) (u : IsUtf8 p) where
  pub utf8-cons_ascii : (c : ℕ) (s : Bytes) → c < 128 → p.utf8_validate (c ∷ s) ≡ p.utf8_validate s
  utf8-cons_ascii c s h = u.ascii [] c s h ∙ ap (λ b. b && p.utf8_validate s) u.empty

  pub utf8-ascii : (s : Bytes) → All (λ c. c < 128) s → p.utf8_validate s ≡ true
  utf8-ascii [] h = u.empty
  utf8-ascii (c ∷ s) h = utf8-cons_ascii c s h.0 ∙ utf8-ascii s h.1
