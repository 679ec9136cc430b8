-- ===== src/ValueText/Brackets.antt =====
-- Lists whose text has `[]` in it, which `gconf_value_new_list_from_string` takes for empty.
use gconf_dbus.Prelude.{
  ◌≡◌, refl, ◌∙◌, ap, sym, inl, inr, true, ◌||◌, some, [], ◌∷◌, ◌++◌, append_assoc, arith, ◌==◌,
  Bool-cases,
}
use gconf_dbus.CString.{Bytes}
use gconf_dbus.Platform.{Platform, IsUtf8}
use gconf_dbus.Value.{string, nil, cons, list_value, string_value}
use gconf_dbus.ValueText.Primitive.{parsed}
use gconf_dbus.ValueText.Escapes.{strchr, escape_string}
use gconf_dbus.ValueText.Print.{list_escapes, to_string}
use gconf_dbus.ValueText.Lists.{has_brackets, new_list_from_string}
use gconf_dbus.ValueText.ListRoundTrip.{new_list_from_string-to_string}

some_eq : {a b : Bytes} → some a ≡ some b → a ≡ b
some_eq e = cc

has_brackets-append : (xs ys : Bytes) → has_brackets (xs ++ b'[' ∷ b']' ∷ ys) ≡ true
unfolding has_brackets
has_brackets-append [] ys = refl
has_brackets-append (x ∷ []) ys = ground arith
has_brackets-append (x ∷ y ∷ xs) ys = ground (arith, has_brackets-append (y ∷ xs) ys)

escape_string-bracket :
    (s : Bytes)
    → escape_string list_escapes (s ++ b'[' ∷ []) ≡ escape_string list_escapes s ++ b'[' ∷ []
unfolding escape_string
escape_string-bracket [] = refl
escape_string-bracket (c ∷ s) = elim (Bool-cases (strchr list_escapes c || c == b'\\')) [
  | inl e ↦ rw e (rw (escape_string-bracket s))
  | inr e ↦ rw e (rw (escape_string-bracket s))
]

bracket_text : Bytes → Bytes
bracket_text s = b'[' ∷ (escape_string list_escapes (s ++ b'[' ∷ []) ++ b']' ∷ [])

bracket_text_printed :
    (p : Platform) (s : Bytes)
    → to_string p (list_value string (cons (string_value (some (s ++ b'[' ∷ []))) nil))
      ≡ some (bracket_text s)
unfolding to_string bracket_text
bracket_text_printed p s = refl

has_brackets-bracket_text : (s : Bytes) → has_brackets (bracket_text s) ≡ true
unfolding bracket_text
has_brackets-bracket_text s =
    ap (λ (t : Bytes). has_brackets (b'[' ∷ (t ++ b']' ∷ []))) (escape_string-bracket s)
    ∙ ap has_brackets (
        ap (λ (t : Bytes). b'[' ∷ t)
          (append_assoc (escape_string list_escapes s) (b'[' ∷ []) (b']' ∷ [])))
    ∙ has_brackets-append (b'[' ∷ escape_string list_escapes s) []

-- The list of one string that ends with `[` is printed, and its text is read, with no error, as the
-- empty list.
pub bracket_list_lost :
    (p : Platform) (u : IsUtf8 p) (s : Bytes)
    → p.utf8_validate s ≡ true
    → (text : Bytes) × (to_string p
          (list_value string (cons (string_value (some (s ++ b'[' ∷ []))) nil))
        ≡ some text)
      × (new_list_from_string p string text ≡ parsed (list_value string nil))
bracket_list_lost p u s h =
    let valid : p.utf8_validate (s ++ b'[' ∷ []) ≡ true =
      u.ascii s b'[' [] (omega arith) ∙ cc (h, u.empty) in
    let (text, printed, read) =
      new_list_from_string-to_string p u string (string_value (some (s ++ b'[' ∷ []))) nil
        (valid, tt) in
    let same : text ≡ bracket_text s = some_eq (sym printed ∙ bracket_text_printed p s) in
    let brackets : has_brackets text ≡ true = ap has_brackets same ∙ has_brackets-bracket_text s in
    (text, printed, rw brackets at read)
