-- ===== src/Locales/Explode.antt =====
-- `explode_locale` takes a locale apart.
use gconf_dbus.Prelude.{
  ℕ, ◌≡◌, refl, ◌∙◌, ap, sym, ◌⊎◌, inl, inr, true, [], ◌∷◌, ◌++◌, ◌==◌, Bool-cases,
}
use gconf_dbus.CString.{Bytes}
use gconf_dbus.Locales.{break_at, found_part, explode_rest, explode_locale, part}

break_at-append : (c : ℕ) (s : Bytes) → (break_at c s).0 ++ (break_at c s).1 ≡ s
unfolding break_at
break_at-append c [] = refl
break_at-append c (d ∷ s) = elim (Bool-cases (d == c)) [
  | inl e ↦ rw e refl
  | inr e ↦ rw e (ap (λ (t : Bytes). d ∷ t) (break_at-append c s))
]

part-found : (s : Bytes) → part true (found_part s) ≡ s
part-found [] = refl
part-found (c ∷ s) = refl

List-cases : (s : Bytes) → (s ≡ []) ⊎ ((c : ℕ) × (t : Bytes) × (s ≡ c ∷ t))
List-cases [] = inl refl
List-cases (c ∷ t) = inr (c, t, refl)

explode_rest-append :
    (s : Bytes) → (explode_rest s).0 ++ (part true (explode_rest s).1 ++ (explode_rest s).2) ≡ s
unfolding explode_rest
explode_rest-append s = elim (List-cases (break_at b'.' s).1) [
  | inl e ↦ rw (explode_rest, e) (break_at-append b'@' s)
  | inr (c, t, e) ↦
      rw (explode_rest, e)
        (ap (λ (x : Bytes). (break_at b'.' s).0 ++ x) (break_at-append b'@' (c ∷ t) ∙ sym e)
          ∙ break_at-append b'.' s)
]

-- The components of a locale, one behind the other, are the locale.
pub explode_locale-append :
    (s : Bytes)
    → (explode_locale s).language
        ++ (part true (explode_locale s).territory
            ++ (part true (explode_locale s).codeset ++ part true (explode_locale s).modifier))
      ≡ s
unfolding explode_locale
explode_locale-append s = elim (List-cases (break_at b'_' s).1) [
  | inl e ↦
      rw (explode_locale, e)
        (ap (λ (x : Bytes). (explode_rest s).0 ++ (part true (explode_rest s).1 ++ x))
            (part-found (explode_rest s).2)
          ∙ explode_rest-append s)
  | inr (c, t, e) ↦
      rw (explode_locale, e)
        (ap
            (λ (x : Bytes).
              (break_at b'_' s).0
              ++ ((explode_rest (c ∷ t)).0 ++ (part true (explode_rest (c ∷ t)).1 ++ x)))
            (part-found (explode_rest (c ∷ t)).2)
          ∙ ap (λ (x : Bytes). (break_at b'_' s).0 ++ x) (explode_rest-append (c ∷ t) ∙ sym e)
          ∙ break_at-append b'_' s)
]
