-- ===== src/ValueText/Plain.antt =====
-- The text of a value that is no list, pair or schema is read back as the value.
use gconf_dbus.Prelude.{
  ◌≡◌, refl, ◌∙◌, ap, ◌≢◌, true, false, some, arith, ℤ, pos, negsuc, IsInt32, to_int32,
  to_int32-eq_self, to_int32-IsInt32,
}
use mathlib.Core.Path.{subst}
use gconf_dbus.CString.{Bytes, codes, format_d, strtol-format_d, format_d-ascii, IsLong}
use gconf_dbus.Platform.{Platform, IsUtf8, utf8-ascii}
use gconf_dbus.Value.{
  GConfValueType, GConfValue, string, int, float, bool, string_value, int_value, float_value,
  bool_value,
}
use gconf_dbus.ValueText.Primitive.{
  parsed, new_from_string, int_from_strtol, bool_from_string, float_from_strtod,
}
use gconf_dbus.ValueText.Print.{to_string}

-- A value of a primitive type that its text gives back: texts in UTF-8, integers of 32 bits, and
-- floats that GLib reads back as it wrote them.
abbrev pub IsPlain : Platform → GConfValueType → GConfValue → Type 0
IsPlain p string (string_value (some s)) = p.utf8_validate s ≡ true
IsPlain p int (int_value z) = IsInt32 z
IsPlain p bool (bool_value b) = Unit
IsPlain p float (float_value d) =
    (p.ascii_strtod (p.ascii_dtostr d) ≡ some d) × (p.utf8_validate (p.ascii_dtostr d) ≡ true)
IsPlain p _ _ = ⊥

-- `strtol` takes the range of a `long`, and the result is cut to 32 bits with no error.
pub int_from_string-format_d :
    (p : Platform) (z : ℤ)
    → IsLong z
    → new_from_string p int (format_d z) ≡ parsed (int_value (to_int32 z))
unfolding new_from_string int_from_strtol
int_from_string-format_d p z h = rw (strtol-format_d z h)

-- An integer in the range of a `long` and outside that of an `int` is read, with no error, as
-- another integer.
pub int_from_string_wraps :
    (p : Platform) (z : ℤ)
    → IsLong z
    → ¬ IsInt32 z
    → (new_from_string p int (format_d z) ≡ parsed (int_value (to_int32 z))) × (to_int32 z ≢ z)
int_from_string_wraps p z h n =
    (int_from_string-format_d p z h, λ e. n (subst IsInt32 e (to_int32-IsInt32 z)))

IsInt32-IsLong : (z : ℤ) → IsInt32 z → IsLong z
IsInt32-IsLong (pos n) h = omega arith
IsInt32-IsLong (negsuc n) h = omega arith

int_read_back :
    (p : Platform) (z : ℤ) → IsInt32 z → new_from_string p int (format_d z) ≡ parsed (int_value z)
int_read_back p z h =
    int_from_string-format_d p z (IsInt32-IsLong z h)
    ∙ ap (λ (x : ℤ). parsed (int_value x)) (to_int32-eq_self z h)

pub record ReadBack (p : Platform) (t : GConfValueType) (v : GConfValue) : Type 0 where
  pub text : Bytes
  pub printed : to_string p v ≡ some text
  pub read : new_from_string p t text ≡ parsed v
  pub valid : p.utf8_validate text ≡ true

pub IsPlain-ReadBack :
    (p : Platform) (u : IsUtf8 p) (t : GConfValueType) (v : GConfValue)
    → IsPlain p t v
    → ReadBack p t v
IsPlain-ReadBack p u string (string_value (some s)) h = record {
  text = s;
  printed = unfold to_string in refl;
  read = unfold new_from_string in rw h;
  valid = h;
}
IsPlain-ReadBack p u int (int_value z) h = record {
  text = format_d z;
  printed = unfold to_string in refl;
  read = int_read_back p z h;
  valid = utf8-ascii p u (format_d z) (format_d-ascii z);
}
IsPlain-ReadBack p u bool (bool_value true) h = record {
  text = codes "true";
  printed = unfold to_string in refl;
  read = unfold new_from_string bool_from_string in refl;
  valid = utf8-ascii p u (codes "true") (omega arith);
}
IsPlain-ReadBack p u bool (bool_value false) h = record {
  text = codes "false";
  printed = unfold to_string in refl;
  read = unfold new_from_string bool_from_string in refl;
  valid = utf8-ascii p u (codes "false") (omega arith);
}
IsPlain-ReadBack p u float (float_value d) h = record {
  text = p.ascii_dtostr d;
  printed = unfold to_string in refl;
  read = unfold new_from_string float_from_strtod in rw h.0;
  valid = h.1;
}
IsPlain-ReadBack p u _ v h = absurd h
