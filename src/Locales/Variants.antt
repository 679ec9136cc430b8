-- ===== src/Locales/Variants.antt =====
-- `compute_locale_variants` drops components in every way, the best variant first.
use gconf_dbus.Prelude.{◌≡◌, refl, ◌∙◌, ap, true, Option, none, some, List, [], ◌∷◌, ◌++◌, map}
use gconf_dbus.CString.{Bytes}
use gconf_dbus.Locales.{
  Locale, explode_locale, mask_of, is_within, part, variant, variants_to, compute_locale_variants,
}
use gconf_dbus.Locales.Explode.{explode_locale-append}

-- A component that is there, and then without it.
abbrev pub choices : Option Bytes → List Bytes
choices none = [] ∷ []
choices (some s) = s ∷ [] ∷ []

abbrev pub flat : List Bytes → (Bytes → List Bytes) → List Bytes
flat [] f = []
flat (x ∷ xs) f = f x ++ flat xs f

-- All choices of the components: of two, the one that keeps the modifier stands first, then the one
-- that keeps the territory, then the one that keeps the codeset.
abbrev pub choose_all : Locale → List Bytes
choose_all l = flat (choices l.modifier) (λ m.
    flat (choices l.territory)
      (λ t. map (λ (c : Bytes). l.language ++ (t ++ (c ++ m))) (choices l.codeset)))

abbrev locale_of : Bytes → Option Bytes → Option Bytes → Option Bytes → Locale
locale_of language territory codeset modifier = record {
  language = language;
  territory = territory;
  codeset = codeset;
  modifier = modifier;
}

variants_to-mask :
    (l : Bytes) (t c m : Option Bytes)
    → variants_to (locale_of l t c m) (mask_of (locale_of l t c m)) ≡ choose_all (locale_of l t c m)
unfolding variants_to is_within variant
variants_to-mask l none none none = refl
variants_to-mask l none none (some m) = refl
variants_to-mask l none (some c) none = refl
variants_to-mask l none (some c) (some m) = refl
variants_to-mask l (some t) none none = refl
variants_to-mask l (some t) none (some m) = refl
variants_to-mask l (some t) (some c) none = refl
variants_to-mask l (some t) (some c) (some m) = refl

-- The variants of a locale are all choices of its components, the modifier weighing more than the
-- territory, and the territory more than the codeset.
pub compute_locale_variants-choose_all :
    (s : Bytes) → compute_locale_variants s ≡ choose_all (explode_locale s)
unfolding compute_locale_variants
compute_locale_variants-choose_all s =
    let l = explode_locale s in variants_to-mask l.language l.territory l.codeset l.modifier

choose_all-first :
    (l : Bytes) (t c m : Option Bytes)
    → (rest : List Bytes) × (choose_all (locale_of l t c m)
        ≡ (l ++ (part true t ++ (part true c ++ part true m))) ∷ rest)
choose_all-first l none none none = (_, refl)
choose_all-first l none none (some m) = (_, refl)
choose_all-first l none (some c) none = (_, refl)
choose_all-first l none (some c) (some m) = (_, refl)
choose_all-first l (some t) none none = (_, refl)
choose_all-first l (some t) none (some m) = (_, refl)
choose_all-first l (some t) (some c) none = (_, refl)
choose_all-first l (some t) (some c) (some m) = (_, refl)

-- The first variant of a locale is the locale itself.
pub compute_locale_variants-first :
    (s : Bytes) → (rest : List Bytes) × (compute_locale_variants s ≡ s ∷ rest)
compute_locale_variants-first s =
    let l = explode_locale s in
    let (rest, e) = choose_all-first l.language l.territory l.codeset l.modifier in
    (
      rest,
      compute_locale_variants-choose_all s
          ∙ e
          ∙ ap (λ (x : Bytes). x ∷ rest) (explode_locale-append s),
    )
