-- ===== src/Address/Tests.antt =====
-- Tests of addresses, and the instances of their properties.
use gconf_dbus.Prelude.{
  ℕ, ◌≡◌, ◌≢◌, refl, ◌∙◌, ap, true, false, none, some, List, [], ◌∷◌, ◌++◌, All, arith, ◌==◌,
  if◌then◌else◌,
}
use gconf_dbus.CString.{Bytes, codes}
use gconf_dbus.Keys.{is_invalid_char}
use gconf_dbus.Sources.{GConfSource, source_is_writable}
use gconf_dbus.Value.{null}
use gconf_dbus.Address.{
  colon, comma, gconf_address_valid, strchr_colon, gconf_address_backend, gconf_address_resource,
  gconf_address_flags, join_commas, HasNo, IsSplit, gconf_backend_resolve_address,
}
use gconf_dbus.Address.Parts.{address_parts}
use gconf_dbus.Address.Flags.{AtMostOne, valid-AtMostOne, resolve_address-read_only}

abbrev push : ℕ → List Bytes → List Bytes
push c [] = (c ∷ []) ∷ []
push c (w ∷ ws) = (c ∷ w) ∷ ws

abbrev split_words : Bytes → List Bytes
split_words [] = [] ∷ []
split_words (c ∷ s) = let rest = split_words s in if c == comma then [] ∷ rest else push c rest

-- A function that splits as g_strsplit does: the empty string gives an empty vector.
abbrev split_commas : Bytes → List Bytes
split_commas [] = []
split_commas (c ∷ s) = split_words (c ∷ s)

words-one : (f : Bytes) → HasNo comma f → split_words f ≡ f ∷ []
words-one [] h = refl
words-one (c ∷ f) h = rw (h.0, words-one f h.1) refl

words-append : (f t : Bytes) → HasNo comma f → split_words (f ++ comma ∷ t) ≡ f ∷ split_words t
words-append [] t h = refl
words-append (c ∷ f) t h = rw (h.0, words-append f t h.1) refl

words-join :
    (f : Bytes) (fs : List Bytes)
    → All (HasNo comma) (f ∷ fs)
    → split_words (join_commas (f ∷ fs)) ≡ f ∷ fs
words-join f [] h = words-one f h.0
words-join f (g ∷ fs) h =
    words-append f (join_commas (g ∷ fs)) h.0
    ∙ ap (λ (ws : List Bytes). f ∷ ws) (words-join g fs h.1)

split_ne : (s : Bytes) → s ≢ [] → split_commas s ≡ split_words s
split_ne [] n = absurd (n refl)
split_ne (c ∷ s) n = refl

split-join :
    (fs : List Bytes)
    → All (HasNo comma) fs
    → join_commas fs ≢ []
    → split_commas (join_commas fs) ≡ fs
split-join [] h n = absurd (n refl)
split-join (f ∷ fs) h n = split_ne (join_commas (f ∷ fs)) n ∙ words-join f fs h

split_commas-IsSplit : IsSplit split_commas
split_commas-IsSplit = record { splits = split-join }

-- Two flags are read, but the address is not valid.
two_flags :
    gconf_address_flags split_commas (codes "xml:readonly,merged:/etc/gconf")
    ≡ some (codes "readonly" ∷ codes "merged" ∷ [])
unfolding gconf_address_flags strchr_colon
two_flags = refl

two_flags_invalid : gconf_address_valid (codes "xml:readonly,merged:/etc/gconf") ≡ false
unfolding gconf_address_valid is_invalid_char
two_flags_invalid = refl

no_flags : gconf_address_flags split_commas (codes "xml::/etc/gconf") ≡ none
unfolding gconf_address_flags strchr_colon
no_flags = refl

address_parts_example :
    (gconf_address_backend (codes "xml" ++ colon ∷ (codes "readonly" ++ colon ∷ codes "/etc"))
      ≡ some (codes "xml"))
    × (gconf_address_flags split_commas
          (codes "xml" ++ colon ∷ (codes "readonly" ++ colon ∷ codes "/etc"))
        ≡ some (codes "readonly" ∷ []))
    × (gconf_address_resource (codes "xml" ++ colon ∷ (codes "readonly" ++ colon ∷ codes "/etc"))
        ≡ some (codes "/etc"))
address_parts_example =
    address_parts split_commas (codes "xml") (codes "readonly" ∷ []) (codes "/etc")
      split_commas-IsSplit (ground arith) (ground arith) (ground arith) (λ e. absurd (ground arith))

address_valid : gconf_address_valid (codes "xml:readonly:/etc") ≡ true
unfolding gconf_address_valid is_invalid_char
address_valid = refl

address_flags :
    gconf_address_flags split_commas (codes "xml:readonly:/etc") ≡ some (codes "readonly" ∷ [])
unfolding gconf_address_flags strchr_colon
address_flags = refl

valid-AtMostOne_example : AtMostOne (gconf_address_flags split_commas (codes "xml:readonly:/etc"))
valid-AtMostOne_example =
    valid-AtMostOne split_commas (codes "xml:readonly:/etc") split_commas-IsSplit address_valid

-- A source that would take every write.
abbrev writable : GConfSource ℕ
writable = record {
  all_writeable = true;
  all_readable = true;
  never_writeable = false;
  address = codes "xml:readonly:/etc";
  vtable = record {
    readable = none;
    writable = none;
    query_value = λ s key locales wanted. record { value = null; schema_name = none; error = none };
    query_metainfo = λ s key. (none, none);
    set_value = λ s key value. (s, none);
    unset_value = λ s key locale. (s, none);
  };
  store = 0;
}

resolve_address-read_only_example :
    (src' : GConfSource ℕ) × (gconf_backend_resolve_address split_commas
        (codes "xml:readonly:/etc")
        (some writable)
      ≡ some src')
    × ((key : Bytes) → source_is_writable src' key ≡ (false, none))
resolve_address-read_only_example =
    resolve_address-read_only split_commas (codes "xml:readonly:/etc") (codes "readonly" ∷ [])
      writable address_flags refl
