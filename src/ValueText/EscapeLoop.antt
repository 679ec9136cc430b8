-- ===== src/ValueText/EscapeLoop.antt =====
-- The loops of `gconf_value_new_list_from_string` and `gconf_value_new_pair_from_string` on what
-- `escape_string` writes.
use gconf_dbus.Prelude.{
  ℕ, ◌<◌, ◌≡◌, refl, ◌∙◌, ap, sym, inl, inr, Bool, true, false, ◌&&◌, ◌||◌, [], ◌∷◌, ◌++◌,
  append_assoc, append-nil, arith, ◌==◌, Bool-cases,
}
use gconf_dbus.CString.{Bytes}
use gconf_dbus.Platform.{Platform, IsUtf8, utf8-cons_ascii}
use gconf_dbus.Quote.RoundTrip.{utf8-escape}
use gconf_dbus.Value.{GConfValueType, Values}
use gconf_dbus.ValueText.Primitive.{new_from_string}
use gconf_dbus.ValueText.Escapes.{strchr, escape_string}
use gconf_dbus.ValueText.Print.{list_escapes, pair_escapes}
use gconf_dbus.ValueText.Lists.{list_loop, list_element, ends_with}

pub ends_with-append :
    (s : Bytes) (c : ℕ) (t : Bytes) (x : ℕ) → ends_with (s ++ c ∷ t) x ≡ ends_with (c ∷ t) x
ends_with-append [] c t x = refl
ends_with-append (d ∷ []) c t x = refl
ends_with-append (d ∷ e ∷ s) c t x = ends_with-append (e ∷ s) c t x

module _ (p : Platform) (t : GConfValueType) (xs : Values) where
  list_loop-escaped :
      (d : ℕ) (s : Bytes) (pending : Bool) (str : Bytes)
      → list_loop p t (b'\\' ∷ d ∷ s) false pending str xs
        ≡ list_loop p t s false true (str ++ d ∷ []) xs
  unfolding list_loop
  list_loop-escaped d s pending str = refl

  list_loop-plain :
      (d : ℕ) (s : Bytes) (pending : Bool) (str : Bytes)
      → (strchr list_escapes d || d == b'\\') ≡ false
      → list_loop p t (d ∷ s) false pending str xs ≡ list_loop p t s false true (str ++ d ∷ []) xs
  unfolding list_loop
  list_loop-plain d s pending str h =
      let comma : (d == b',') ≡ false = ground arith in
      let bracket : (d == b']') ≡ false = ground arith in
      let slash : (d == b'\\') ≡ false = ground arith in rw (comma, bracket, slash)

  list_loop-separator :
      (c : ℕ) (s : Bytes) (pending : Bool) (str : Bytes)
      → (c == b',' || c == b']') ≡ true
      → list_loop p t (c ∷ s) false pending str xs
        ≡ list_element (list_loop p t s false false []) c s xs (new_from_string p t str)
  unfolding list_loop
  list_loop-separator c s pending str h = rw h

  -- An escaped text up to a separator is one element.
  pub list_loop-escape_string :
      (text : Bytes) (c : ℕ) (s : Bytes) (pending : Bool) (str : Bytes)
      → (c == b',' || c == b']') ≡ true
      → list_loop p t (escape_string list_escapes text ++ c ∷ s) false pending str xs
        ≡ list_element (list_loop p t s false false []) c s xs (new_from_string p t (str ++ text))
  unfolding escape_string
  list_loop-escape_string [] c s pending str h =
      rw (append-nil str) (list_loop-separator c s pending str h)
  list_loop-escape_string (d ∷ text) c s pending str h =
      rw (← append_assoc str (d ∷ []) text)
        (elim (Bool-cases (strchr list_escapes d || d == b'\\')) [
          | inl e ↦ rw e (
              list_loop-escaped d (escape_string list_escapes text ++ c ∷ s) pending str
              ∙ list_loop-escape_string text c s true (str ++ d ∷ []) h)
          | inr e ↦ rw e (
              list_loop-plain d (escape_string list_escapes text ++ c ∷ s) pending str e
              ∙ list_loop-escape_string text c s true (str ++ d ∷ []) h)
        ])

-- Escaping keeps a text valid UTF-8, in front of an ASCII byte.
module _ (p : Platform) (u : IsUtf8 p) (es : Bytes) where
  escape_string-utf8 :
      (s pre : Bytes) (c : ℕ) (rest : Bytes)
      → ((d : ℕ) → (strchr es d || d == b'\\') ≡ true → d < 128)
      → c < 128
      → p.utf8_validate (pre ++ (escape_string es s ++ c ∷ rest))
        ≡ (p.utf8_validate (pre ++ s) && p.utf8_validate (c ∷ rest))
  unfolding escape_string
  escape_string-utf8 [] pre c rest a h =
      u.ascii pre c rest h
      ∙ ap (λ b. p.utf8_validate pre && b) (sym (utf8-cons_ascii p u c rest h))
      ∙ ap (λ s. p.utf8_validate s && p.utf8_validate (c ∷ rest)) (sym (append-nil pre))
  escape_string-utf8 (d ∷ s) pre c rest a h = elim (Bool-cases (strchr es d || d == b'\\')) [
    | inl e ↦ rw e (
        utf8-escape p u pre d s (escape_string es s ++ c ∷ rest) (c ∷ rest) (a d e)
          (escape_string-utf8 s [] c rest a h))
    | inr e ↦ rw e (
        ap p.utf8_validate (sym (append_assoc pre (d ∷ []) (escape_string es s ++ c ∷ rest)))
        ∙ escape_string-utf8 s (pre ++ d ∷ []) c rest a h
        ∙ ap (λ s. p.utf8_validate s && p.utf8_validate (c ∷ rest)) (append_assoc pre (d ∷ []) s))
  ]

module _ (p : Platform) (u : IsUtf8 p) where
  pub list_escapes-utf8 :
      (s : Bytes) (c : ℕ) (rest : Bytes)
      → c < 128
      → p.utf8_validate s ≡ true
      → p.utf8_validate (c ∷ rest) ≡ true
      → p.utf8_validate (escape_string list_escapes s ++ c ∷ rest) ≡ true
  list_escapes-utf8 s c rest h v w =
      escape_string-utf8 p u list_escapes s [] c rest (λ d e. ground arith) h ∙ cc (v, w)

  pub pair_escapes-utf8 :
      (s : Bytes) (c : ℕ) (rest : Bytes)
      → c < 128
      → p.utf8_validate s ≡ true
      → p.utf8_validate (c ∷ rest) ≡ true
      → p.utf8_validate (escape_string pair_escapes s ++ c ∷ rest) ≡ true
  pair_escapes-utf8 s c rest h v w =
      escape_string-utf8 p u pair_escapes s [] c rest (λ d e. ground arith) h ∙ cc (v, w)
