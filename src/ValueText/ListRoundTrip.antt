-- ===== src/ValueText/ListRoundTrip.antt =====
-- `gconf_value_new_list_from_string` on what `gconf_value_to_string` writes for a list.
use gconf_dbus.Prelude.{
  ℕ, ◌<◌, ◌≡◌, refl, ◌∙◌, ap, Bool, true, false, ◌||◌, some, [], ◌∷◌, ◌++◌, arith, ◌==◌,
  if◌then◌else◌,
}
use gconf_dbus.CString.{Bytes}
use gconf_dbus.Platform.{Platform, IsUtf8, utf8-cons_ascii}
use gconf_dbus.Value.{
  GConfValueType, GConfValue, Values, string, int, float, bool, nil, cons, list_value,
}
use gconf_dbus.Encoding.Decode.{set_list, set_list_type}
use gconf_dbus.ValueText.Primitive.{parsed}
use gconf_dbus.ValueText.Escapes.{escape_string}
use gconf_dbus.ValueText.Print.{list_escapes, to_string, items_to_string}
use gconf_dbus.ValueText.Lists.{
  Elements, elements, list_loop, list_element, list_result, ends_with, has_brackets, reverse_onto,
  is_container, new_list_from_string,
}
use gconf_dbus.ValueText.Plain.{IsPlain, ReadBack, IsPlain-ReadBack}
use gconf_dbus.ValueText.EscapeLoop.{list_loop-escape_string, list_escapes-utf8, ends_with-append}

abbrev append_values : Values → Values → Values
append_values nil ys = ys
append_values (cons v xs) ys = cons v (append_values xs ys)

reverse_onto-reverse_onto :
    (xs ys zs : Values)
    → reverse_onto (reverse_onto xs ys) zs ≡ reverse_onto ys (append_values xs zs)
reverse_onto-reverse_onto nil ys zs = refl
reverse_onto-reverse_onto (cons v xs) ys zs = reverse_onto-reverse_onto xs (cons v ys) zs

append_values-nil : (xs : Values) → append_values xs nil ≡ xs
append_values-nil nil = refl
append_values-nil (cons v xs) = ap (cons v) (append_values-nil xs)

reverse_values-reverse_values : (xs : Values) → reverse_onto (reverse_onto xs nil) nil ≡ xs
reverse_values-reverse_values xs = reverse_onto-reverse_onto xs nil nil ∙ append_values-nil xs

-- All elements are of the type, and their texts give them back.
abbrev pub ArePlain : Platform → GConfValueType → Values → Type 0
ArePlain p t nil = Unit
ArePlain p t (cons v vs) = IsPlain p t v × ArePlain p t vs

-- What is written behind an element: a separator and the rest, which the loop reads to its end.
record ItemsText (p : Platform) (t : GConfValueType) (vs : Values) : Type 0 where
  sep : ℕ
  rest : Bytes
  is_sep : (sep == b',' || sep == b']') ≡ true
  printed : items_to_string p vs ≡ some (sep ∷ rest)
  closed : ends_with (sep ∷ rest) b']' ≡ true
  valid : p.utf8_validate (sep ∷ rest) ≡ true
  read :
      (v : GConfValue) (xs : Values)
      → list_element (list_loop p t rest false false []) sep rest xs (parsed v)
        ≡ elements (reverse_onto vs (cons v xs))

module _ (p : Platform) (u : IsUtf8 p) (t : GConfValueType) where
  nil-ItemsText : ItemsText p t nil
  unfolding to_string list_element list_loop
  nil-ItemsText = record {
    sep = b']';
    rest = [];
    is_sep = refl;
    printed = refl;
    closed = refl;
    valid = utf8-cons_ascii p u b']' [] (omega arith) ∙ u.empty;
    read = λ v xs. refl;
  }

  separator-lt : (c : ℕ) → (c == b',' || c == b']') ≡ true → c < 128
  separator-lt c h = ground arith

  element_text : (w : GConfValue) (ws : Values) → ReadBack p t w → ItemsText p t ws → Bytes
  element_text w ws d i = escape_string list_escapes d.text ++ i.sep ∷ i.rest

  -- The loop from the first byte of an element on.
  list_loop-element :
      (w : GConfValue) (ws : Values) (d : ReadBack p t w) (i : ItemsText p t ws) (xs : Values)
      → list_loop p t (element_text w ws d i) false false [] xs
        ≡ elements (reverse_onto ws (cons w xs))
  unfolding element_text
  list_loop-element w ws d i xs =
      list_loop-escape_string p t xs d.text i.sep i.rest false [] i.is_sep
      ∙ ap (list_element (list_loop p t i.rest false false []) i.sep i.rest xs) d.read
      ∙ i.read w xs

  -- Behind an ASCII byte, the text is valid UTF-8 and ends with the bracket.
  element_text-valid :
      (w : GConfValue) (ws : Values) (d : ReadBack p t w) (i : ItemsText p t ws) (c : ℕ)
      → c < 128
      → p.utf8_validate (c ∷ element_text w ws d i) ≡ true
  unfolding element_text
  element_text-valid w ws d i c h =
      utf8-cons_ascii p u c _ h
      ∙ list_escapes-utf8 p u d.text i.sep i.rest (separator-lt i.sep i.is_sep) d.valid i.valid

  element_text-closed :
      (w : GConfValue) (ws : Values) (d : ReadBack p t w) (i : ItemsText p t ws) (c : ℕ)
      → ends_with (c ∷ element_text w ws d i) b']' ≡ true
  unfolding element_text
  element_text-closed w ws d i c =
      ends_with-append (c ∷ escape_string list_escapes d.text) i.sep i.rest b']' ∙ i.closed

  cons-ItemsText :
      (w : GConfValue) (ws : Values) → ReadBack p t w → ItemsText p t ws → ItemsText p t (cons w ws)
  cons-ItemsText w ws d i = record {
    sep = b',';
    rest = element_text w ws d i;
    is_sep = refl;
    printed = unfold to_string element_text in rw d.printed (rw i.printed);
    closed = element_text-closed w ws d i b',';
    valid = element_text-valid w ws d i b',' (omega arith);
    read = λ v xs. unfold list_element in list_loop-element w ws d i (cons v xs);
  }

  ArePlain-ItemsText : (vs : Values) → ArePlain p t vs → ItemsText p t vs
  ArePlain-ItemsText nil h = nil-ItemsText
  ArePlain-ItemsText (cons v vs) h =
      cons-ItemsText v vs (IsPlain-ReadBack p u t v h.0) (ArePlain-ItemsText vs h.1)

-- A type with plain values is one that a list may have.
plain_type :
    (p : Platform) (t : GConfValueType) (v : GConfValue)
    → IsPlain p t v
    → (is_container t ≡ false) × ((vs : Values) → set_list (set_list_type t) vs ≡ list_value t vs)
unfolding set_list set_list_type
plain_type p string v h = (refl, λ vs. refl)
plain_type p int v h = (refl, λ vs. refl)
plain_type p float v h = (refl, λ vs. refl)
plain_type p bool v h = (refl, λ vs. refl)
plain_type p _ v h = absurd h

set_list_type_plain :
    (p : Platform) (t : GConfValueType) (v : GConfValue) → IsPlain p t v → set_list_type t ≡ t
unfolding set_list_type
set_list_type_plain p string v h = refl
set_list_type_plain p int v h = refl
set_list_type_plain p float v h = refl
set_list_type_plain p bool v h = refl
set_list_type_plain p _ v h = absurd h

-- The checks that come before the loop pass.
list_checks :
    (p : Platform) (t : GConfValueType) (body : Bytes)
    → is_container t ≡ false
    → p.utf8_validate (b'[' ∷ body) ≡ true
    → ends_with (b'[' ∷ body) b']' ≡ true
    → new_list_from_string p t (b'[' ∷ body) ≡ (
        if has_brackets (b'[' ∷ body)
        then parsed (list_value (set_list_type t) nil)
        else list_result t (list_loop p t body false false [] nil))
unfolding new_list_from_string
list_checks p t body c v e = rw c (rw v (rw e))

if_parsed :
    (b : Bool) (v w : GConfValue) → (if b then parsed v else parsed w) ≡ parsed (if b then v else w)
if_parsed true v w = refl
if_parsed false v w = refl

module _ (p : Platform) (u : IsUtf8 p) (t : GConfValueType) (v : GConfValue) (vs : Values) where
  read_list :
      (plain : IsPlain p t v) (d : ReadBack p t v) (i : ItemsText p t vs)
      → new_list_from_string p t (b'[' ∷ element_text p u t v vs d i)
        ≡ parsed (
            if has_brackets (b'[' ∷ element_text p u t v vs d i)
            then list_value t nil
            else list_value t (cons v vs))
  read_list plain d i =
      let body = element_text p u t v vs d i in
      let (container, whole) = plain_type p t v plain in
      list_checks p t body container (element_text-valid p u t v vs d i b'[' (omega arith))
        (element_text-closed p u t v vs d i b'[')
      ∙ ap
          (λ (r : Elements).
            if has_brackets (b'[' ∷ body)
            then parsed (list_value (set_list_type t) nil)
            else list_result t r)
          (list_loop-element p u t v vs d i nil)
      ∙ ap
          (λ (x : Values).
            if has_brackets (b'[' ∷ body)
            then parsed (list_value (set_list_type t) nil)
            else parsed (set_list (set_list_type t) x))
          (reverse_values-reverse_values (cons v vs))
      ∙ rw (whole (cons v vs)) (
          rw (set_list_type_plain p t v plain)
            (if_parsed (has_brackets (b'[' ∷ body)) (list_value t nil) (list_value t (cons v vs))))

-- A list of values of a primitive type whose texts give them back is printed, and its text is read
-- as the list, unless the text has `[]` somewhere in it: then it is read as the empty list.
pub new_list_from_string-to_string :
    (p : Platform) (u : IsUtf8 p) (t : GConfValueType) (v : GConfValue) (vs : Values)
    → ArePlain p t (cons v vs)
    → (text : Bytes) × (to_string p (list_value t (cons v vs)) ≡ some text)
      × (new_list_from_string p t text
          ≡ parsed (if has_brackets text then list_value t nil else list_value t (cons v vs)))
new_list_from_string-to_string p u t v vs h =
    let d = IsPlain-ReadBack p u t v h.0 in
    let i = ArePlain-ItemsText p u t vs h.1 in
    (
      b'[' ∷ element_text p u t v vs d i,
      unfold to_string element_text in rw d.printed (rw i.printed),
      read_list p u t v vs h.0 d i,
    )
