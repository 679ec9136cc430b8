-- ===== src/CString/Equal.antt =====
-- The test for equal strings.
use gconf_dbus.Prelude.{◌≡◌, refl, ◌≢◌, true, false, [], ◌∷◌, arith}
use mathlib.Core.Bool.{false≢true}
use gconf_dbus.CString.Strings.{Bytes, bytes_eq}

pub bytes_eq-eq : (s t : Bytes) → bytes_eq s t ≡ true → s ≡ t
bytes_eq-eq [] [] h = refl
bytes_eq-eq [] (d ∷ t) h = absurd (false≢true h)
bytes_eq-eq (c ∷ s) [] h = absurd (false≢true h)
bytes_eq-eq (c ∷ s) (d ∷ t) h = ground (arith, bytes_eq-eq s t)

pub bytes_eq_refl : (s : Bytes) → bytes_eq s s ≡ true
bytes_eq_refl [] = refl
bytes_eq_refl (c ∷ s) = ground (arith, bytes_eq_refl s)

pub bytes_eq_ne : (s t : Bytes) → bytes_eq s t ≡ false → s ≢ t
bytes_eq_ne s t h e = false≢true (cc (h, e, bytes_eq_refl s))
