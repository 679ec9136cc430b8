-- ===== src/Locales/Tests.antt =====
-- Runs on locales, and the theorems at them.
use gconf_dbus.Prelude.{◌≡◌, refl, some, [], ◌∷◌}
use gconf_dbus.CString.{Bytes, codes}
use gconf_dbus.Locales.{
  break_at, explode_rest, explode_locale, variants_to, variant, is_within, compute_locale_variants,
  next_words, locale_words, has_c_locale, all_variants, split_locale, c_locale,
}
use gconf_dbus.Locales.Variants.{choose_all, compute_locale_variants-choose_all}

abbrev austrian : Bytes
austrian = codes "de_AT.UTF-8@euro"

austrian_variants :
    compute_locale_variants austrian
    ≡ codes "de_AT.UTF-8@euro"
      ∷ codes "de_AT@euro"
      ∷ codes "de.UTF-8@euro"
      ∷ codes "de@euro"
      ∷ codes "de_AT.UTF-8"
      ∷ codes "de_AT"
      ∷ codes "de.UTF-8"
      ∷ codes "de"
      ∷ []
unfolding compute_locale_variants explode_locale explode_rest break_at variants_to variant is_within
austrian_variants = refl

split_two :
    split_locale (some (codes "::de_AT:fr:"))
    ≡ codes "de_AT" ∷ codes "de" ∷ codes "fr" ∷ c_locale ∷ []
unfolding split_locale locale_words next_words has_c_locale all_variants compute_locale_variants
    explode_locale explode_rest break_at variants_to variant is_within
split_two = refl

compute_locale_variants-choose_all_example :
    compute_locale_variants austrian ≡ choose_all (explode_locale austrian)
compute_locale_variants-choose_all_example = compute_locale_variants-choose_all austrian
