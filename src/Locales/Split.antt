-- ===== src/Locales/Split.antt =====
-- `gconf_split_locale` takes a list of locales apart, and always offers the C locale.
use gconf_dbus.Prelude.{
  ◌≡◌, refl, ◌∙◌, ap, sym, inl, inr, true, false, Option, some, List, [], ◌∷◌, ◌++◌, All, ◌==◌,
  if◌then◌else◌, Bool-cases, append_assoc,
}
use mathlib.Core.Bool.{false≢true}
use gconf_dbus.CString.{Bytes, bytes_eq, bytes_eq-eq}
use gconf_dbus.Locales.{
  explode_locale, break_at, explode_rest, variants_to, variant, is_within, compute_locale_variants,
  colon, add_word, next_words, locale_words, c_locale, has_c_locale, all_variants, split_locale,
}

-- A word of the list: not empty, and without a colon.
abbrev pub IsPlain : Bytes → Type 0
IsPlain w = All (λ c. (c == colon) ≡ false) w

abbrev pub IsWord : Bytes → Type 0
IsWord [] = ⊥
IsWord (c ∷ w) = ((c == colon) ≡ false) × IsPlain w

-- The words behind a first one, each behind a colon.
abbrev pub join_more : List Bytes → Bytes
join_more [] = []
join_more (w ∷ ws) = colon ∷ (w ++ join_more ws)

abbrev pub join_words : List Bytes → Bytes
join_words [] = []
join_words (w ∷ ws) = w ++ join_more ws

add_word-word : (w : Bytes) (ws : List Bytes) → IsWord w → add_word w ws ≡ w ∷ ws
add_word-word [] ws h = absurd h
add_word-word (c ∷ w) ws h = refl

word-IsPlain : (w : Bytes) → IsWord w → IsPlain w
word-IsPlain [] h = absurd h
word-IsPlain (c ∷ w) h = h

next_words-join :
    (w : Bytes) (ws : List Bytes)
    → IsPlain w
    → All IsWord ws
    → next_words (w ++ join_more ws) ≡ (w, ws)
unfolding next_words
next_words-join [] [] hw hs = refl
next_words-join [] (v ∷ ws) hw hs =
    ap (λ (p : Bytes × List Bytes). ([], add_word p.0 p.1))
      (next_words-join v ws (word-IsPlain v hs.0) hs.1)
    ∙ ap (λ (vs : List Bytes). ([], vs)) (add_word-word v ws hs.0)
next_words-join (c ∷ w) ws hw hs =
    rw (hw.0) (ap (λ (p : Bytes × List Bytes). (c ∷ p.0, p.1)) (next_words-join w ws hw.1 hs))

locale_words-join : (ws : List Bytes) → All IsWord ws → locale_words (join_words ws) ≡ ws
unfolding locale_words next_words
locale_words-join [] h = refl
locale_words-join (w ∷ ws) h =
    ap (λ (p : Bytes × List Bytes). add_word p.0 p.1)
      (next_words-join w ws (word-IsPlain w h.0) h.1)
    ∙ add_word-word w ws h.0

-- Of locales joined by colons, the result has the variants of each in their order, and the C locale
-- behind them where it is not among them. The locales have to be non-empty and without a colon.
pub split_locale-join_words :
    (ws : List Bytes)
    → All IsWord ws
    → split_locale (some (join_words ws))
      ≡ all_variants ws ++ (if has_c_locale ws then [] else c_locale ∷ [])
unfolding split_locale
split_locale-join_words ws h =
    ap (λ (vs : List Bytes). all_variants vs ++ (if has_c_locale vs then [] else c_locale ∷ []))
      (locale_words-join ws h)

-- The C locale stands in a list.
abbrev pub HasC : List Bytes → Type 0
HasC xs = (front : List Bytes) × (back : List Bytes) × (xs ≡ front ++ c_locale ∷ back)

variants_of_c : compute_locale_variants c_locale ≡ c_locale ∷ []
unfolding compute_locale_variants explode_locale explode_rest break_at variants_to variant is_within
variants_of_c = refl

HasC-append : (xs ys : List Bytes) → HasC ys → HasC (xs ++ ys)
HasC-append xs ys (front, back, e) = (
  xs ++ front,
  back,
  ap (λ (t : List Bytes). xs ++ t) e ∙ sym (append_assoc xs front (c_locale ∷ back)),
)

HasC-before : (xs ys : List Bytes) → HasC xs → HasC (xs ++ ys)
HasC-before xs ys (front, back, e) = (
  front,
  back ++ ys,
  ap (λ (t : List Bytes). t ++ ys) e ∙ append_assoc front (c_locale ∷ back) ys,
)

variants-HasC : (ws : List Bytes) → has_c_locale ws ≡ true → HasC (all_variants ws)
unfolding has_c_locale all_variants
variants-HasC [] h = absurd (false≢true h)
variants-HasC (w ∷ ws) h = elim (Bool-cases (bytes_eq w c_locale)) [
  | inl e ↦
      HasC-before (compute_locale_variants w) (all_variants ws)
        ([], [], ap compute_locale_variants (bytes_eq-eq w c_locale e) ∙ variants_of_c)
  | inr e ↦ HasC-append (compute_locale_variants w) (all_variants ws) (variants-HasC ws (rw e at h))
]

-- Whatever the string, and for NULL too, the result has the C locale, so it is not empty.
pub split_locale-HasC : (locale : Option Bytes) → HasC (split_locale locale)
unfolding split_locale
split_locale-HasC locale = with_words (locale_words _)
  where
    with_words :
        (ws : List Bytes)
        → HasC (all_variants ws ++ (if has_c_locale ws then [] else c_locale ∷ []))
    with_words ws = elim (Bool-cases (has_c_locale ws)) [
      | inl e ↦ HasC-before (all_variants ws) _ (variants-HasC ws e)
      | inr e ↦ rw e (HasC-append (all_variants ws) (c_locale ∷ []) ([], [], refl))
    ]
