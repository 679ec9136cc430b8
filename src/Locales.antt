-- ===== src/Locales.antt =====
-- gconf/gconf-locale.c: `explode_locale`, `compute_locale_variants` and `gconf_split_locale`.
pub mod Explode
pub mod Variants
pub mod Split
mod Tests
use gconf_dbus.Prelude.{
  ℕ, zero, suc, ◌+◌, ◌/◌, ◌%◌, Bool, true, false, not, ◌&&◌, ◌||◌, Option, none, some, List, [],
  ◌∷◌, ◌++◌, ◌==◌, if◌then◌else◌,
}
use gconf_dbus.CString.{Bytes, codes, bytes_eq}

-- The bytes in front of the first `c`, and those from it on, which are none where `strchr` returns
-- NULL.
unfoldable pub break_at : ℕ → Bytes → Bytes × Bytes
break_at c [] = ([], [])
break_at c (d ∷ s) =
    let (before, from) = break_at c s in if d == c then ([], d ∷ s) else (d ∷ before, from)

-- What `explode_locale` returns; a component is `none` where its bit is not in the mask.
pub record Locale : Type 0 where
  pub language : Bytes
  pub territory : Option Bytes
  pub codeset : Option Bytes
  pub modifier : Option Bytes

abbrev pub found_part : Bytes → Option Bytes
found_part [] = none
found_part (c ∷ s) = some (c ∷ s)

abbrev pub make_locale : Bytes → Option Bytes → Option Bytes → Bytes → Locale
make_locale language territory codeset modifier = record {
  language = language;
  territory = territory;
  codeset = codeset;
  modifier = found_part modifier;
}

-- `dot_pos` and `at_pos`, looked for from `start` on. The result is the part in front of them, the
-- codeset and the modifier.
unfoldable pub explode_rest : Bytes → Bytes × Option Bytes × Bytes
explode_rest start = elim ((break_at b'.' start).1) [
  | [] ↦ ((break_at b'@' start).0, none, (break_at b'@' start).1)
  | c ∷ s ↦ ((break_at b'.' start).0, some (break_at b'@' (c ∷ s)).0, (break_at b'@' (c ∷ s)).1)
]

unfoldable pub explode_locale : Bytes → Locale
explode_locale locale = elim ((break_at b'_' locale).1) [
  | [] ↦ let r = explode_rest locale in make_locale r.0 none r.1 r.2
  | c ∷ s ↦ let r = explode_rest (c ∷ s) in make_locale (break_at b'_' locale).0 (some r.0) r.1 r.2
]

-- The mask: 1 for the codeset, 2 for the territory, 4 for the modifier.
abbrev pub bit_of : ℕ → Option Bytes → ℕ
bit_of b none = 0
bit_of b (some s) = b

abbrev pub mask_of : Locale → ℕ
mask_of l = bit_of 1 l.codeset + bit_of 2 l.territory + bit_of 4 l.modifier

-- `i & COMPONENT_…`
abbrev pub has_codeset : ℕ → Bool
has_codeset i = i % 2 == 1

abbrev pub has_territory : ℕ → Bool
has_territory i = i / 2 % 2 == 1

abbrev pub has_modifier : ℕ → Bool
has_modifier i = i / 4 % 2 == 1

-- `(i & ~mask) == 0`, for the three bits of a mask.
unfoldable pub is_within : ℕ → ℕ → Bool
is_within i mask =
    (not (has_codeset i) || has_codeset mask)
    && ((not (has_territory i) || has_territory mask)
        && (not (has_modifier i) || has_modifier mask))

-- The component, or "".
abbrev pub part : Bool → Option Bytes → Bytes
part false s = []
part true none = []
part true (some s) = s

unfoldable pub variant : Locale → ℕ → Bytes
variant l i =
    l.language
    ++ (part (has_territory i) l.territory
        ++ (part (has_codeset i) l.codeset ++ part (has_modifier i) l.modifier))

-- The loop for `i` from 0 to the number, which prepends.
unfoldable pub variants_to : Locale → ℕ → List Bytes
variants_to l zero = if is_within zero (mask_of l) then variant l zero ∷ [] else []
variants_to l (suc i) =
    let before = variants_to l i in
    if is_within (suc i) (mask_of l) then variant l (suc i) ∷ before else before

unfoldable pub compute_locale_variants : Bytes → List Bytes
compute_locale_variants locale =
    variants_to (explode_locale locale) (mask_of (explode_locale locale))

abbrev pub colon : ℕ
colon = b':'

-- A word that is not empty.
abbrev pub add_word : Bytes → List Bytes → List Bytes
add_word [] ws = ws
add_word (c ∷ w) ws = (c ∷ w) ∷ ws

-- The word that begins here, and those behind it.
unfoldable pub next_words : Bytes → Bytes × List Bytes
next_words [] = ([], [])
next_words (c ∷ s) =
    let (w, ws) = next_words s in if c == colon then ([], add_word w ws) else (c ∷ w, ws)

unfoldable pub locale_words : Bytes → List Bytes
locale_words s = add_word (next_words s).0 (next_words s).1

abbrev pub c_locale : Bytes
c_locale = codes "C"

unfoldable pub has_c_locale : List Bytes → Bool
has_c_locale [] = false
has_c_locale (w ∷ ws) = bytes_eq w c_locale || has_c_locale ws

unfoldable pub all_variants : List Bytes → List Bytes
all_variants [] = []
all_variants (w ∷ ws) = compute_locale_variants w ++ all_variants ws

abbrev locale_or_c : Option Bytes → Bytes
locale_or_c none = c_locale
locale_or_c (some s) = s

-- `none` is NULL.
unfoldable pub split_locale : Option Bytes → List Bytes
split_locale locale =
    let ws = locale_words (locale_or_c locale) in
    all_variants ws ++ (if has_c_locale ws then [] else c_locale ∷ [])
