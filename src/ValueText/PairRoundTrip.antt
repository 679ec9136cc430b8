-- ===== src/ValueText/PairRoundTrip.antt =====
-- `gconf_value_new_pair_from_string` on what `gconf_value_to_string` writes for a pair.
use gconf_dbus.Prelude.{
  ℕ, ◌<◌, ◌≡◌, refl, ◌∙◌, ap, inl, inr, Bool, true, false, not, ◌&&◌, ◌||◌, some, [], ◌∷◌, ◌++◌,
  append_assoc, append-nil, arith, ◌==◌, ltb, if◌then◌else◌, Bool-cases,
}
use gconf_dbus.CString.{Bytes}
use gconf_dbus.Platform.{Platform, IsUtf8, utf8-cons_ascii}
use gconf_dbus.Value.{GConfValueType, GConfValue, string, int, float, bool, just, null, pair_value}
use gconf_dbus.ValueText.Primitive.{parsed, failed, wrong_number, new_from_string}
use gconf_dbus.ValueText.Escapes.{strchr, escape_string}
use gconf_dbus.ValueText.Print.{pair_escapes, to_string}
use gconf_dbus.ValueText.Lists.{ends_with, is_container}
use gconf_dbus.ValueText.Pairs.{
  Elems, PairElements, elements, ended, pair_element, pair_loop, pair_result, no_elems,
  new_pair_from_string,
}
use gconf_dbus.ValueText.Plain.{IsPlain, ReadBack, IsPlain-ReadBack}
use gconf_dbus.ValueText.EscapeLoop.{pair_escapes-utf8, ends_with-append}

module _ (p : Platform) (t v : GConfValueType) (e : Elems) where
  -- What the loop does at a separator, behind the text `str` of an element.
  at_separator : ℕ → Bytes → Bytes → PairElements
  at_separator c s str =
      if (c == b')' && not (e.elem == 1)) || ltb 1 e.elem
      then ended (failed wrong_number)
      else pair_element (pair_loop p t v s false false []) c s e
          (new_from_string p (if e.elem == 0 then t else v) str)

  pair_loop-escaped :
      (d : ℕ) (s : Bytes) (pending : Bool) (str : Bytes)
      → pair_loop p t v (b'\\' ∷ d ∷ s) false pending str e
        ≡ pair_loop p t v s false true (str ++ d ∷ []) e
  unfolding pair_loop
  pair_loop-escaped d s pending str = refl

  pair_loop-plain :
      (d : ℕ) (s : Bytes) (pending : Bool) (str : Bytes)
      → (strchr pair_escapes d || d == b'\\') ≡ false
      → pair_loop p t v (d ∷ s) false pending str e ≡ pair_loop p t v s false true (str ++ d ∷ []) e
  unfolding pair_loop
  pair_loop-plain d s pending str h =
      let comma : (d == b',') ≡ false = ground arith in
      let bracket : (d == b')') ≡ false = ground arith in
      let slash : (d == b'\\') ≡ false = ground arith in rw (comma, bracket, slash)

  pair_loop-separator :
      (c : ℕ) (s : Bytes) (pending : Bool) (str : Bytes)
      → (c == b',' || c == b')') ≡ true
      → pair_loop p t v (c ∷ s) false pending str e ≡ at_separator c s str
  unfolding pair_loop at_separator
  pair_loop-separator c s pending str h = rw h

  pair_loop-escape_string :
      (text : Bytes) (c : ℕ) (s : Bytes) (pending : Bool) (str : Bytes)
      → (c == b',' || c == b')') ≡ true
      → pair_loop p t v (escape_string pair_escapes text ++ c ∷ s) false pending str e
        ≡ at_separator c s (str ++ text)
  unfolding escape_string
  pair_loop-escape_string [] c s pending str h =
      rw (append-nil str) (pair_loop-separator c s pending str h)
  pair_loop-escape_string (d ∷ text) c s pending str h =
      rw (← append_assoc str (d ∷ []) text)
        (elim (Bool-cases (strchr pair_escapes d || d == b'\\')) [
          | inl x ↦ rw x (
              pair_loop-escaped d (escape_string pair_escapes text ++ c ∷ s) pending str
              ∙ pair_loop-escape_string text c s true (str ++ d ∷ []) h)
          | inr x ↦ rw x (
              pair_loop-plain d (escape_string pair_escapes text ++ c ∷ s) pending str x
              ∙ pair_loop-escape_string text c s true (str ++ d ∷ []) h)
        ])

plain_container :
    (p : Platform) (t : GConfValueType) (v : GConfValue) → IsPlain p t v → is_container t ≡ false
plain_container p string v h = refl
plain_container p int v h = refl
plain_container p float v h = refl
plain_container p bool v h = refl
plain_container p _ v h = absurd h

-- The checks that come before the loop pass.
pair_checks :
    (p : Platform) (t v : GConfValueType) (body : Bytes)
    → is_container t ≡ false
    → is_container v ≡ false
    → p.utf8_validate (b'(' ∷ body) ≡ true
    → ends_with (b'(' ∷ body) b')' ≡ true
    → new_pair_from_string p t v (b'(' ∷ body)
      ≡ pair_result (pair_loop p t v body false false [] no_elems)
unfolding new_pair_from_string
pair_checks p t v body c d u e = rw (c, d) (rw u (rw e))

module _ (p : Platform) (u : IsUtf8 p) (t v : GConfValueType) (x y : GConfValue)
    (dx : ReadBack p t x) (dy : ReadBack p v y) where
  cdr_text : Bytes
  cdr_text = escape_string pair_escapes dy.text ++ b')' ∷ []

  body_text : Bytes
  body_text = escape_string pair_escapes dx.text ++ b',' ∷ cdr_text

  -- The loop from the cdr on, and the whole.
  loop_cdr :
      pair_loop p t v cdr_text false false [] (record { elem = 1; car = just x; cdr = null })
      ≡ elements (record { elem = 2; car = just x; cdr = just y })
  unfolding cdr_text at_separator pair_element
  loop_cdr =
      pair_loop-escape_string p t v _ dy.text b')' [] false [] refl
      ∙ rw dy.read (unfold pair_loop in refl)

  loop_body :
      pair_loop p t v body_text false false [] no_elems
      ≡ elements (record { elem = 2; car = just x; cdr = just y })
  unfolding body_text at_separator pair_element
  loop_body =
      pair_loop-escape_string p t v no_elems dx.text b',' cdr_text false [] refl
      ∙ rw dx.read loop_cdr

  cdr_text-valid : (c : ℕ) → c < 128 → p.utf8_validate (c ∷ cdr_text) ≡ true
  unfolding cdr_text
  cdr_text-valid c h =
      utf8-cons_ascii p u c _ h
      ∙ pair_escapes-utf8 p u dy.text b')' [] (omega arith) dy.valid
          (utf8-cons_ascii p u b')' [] (omega arith) ∙ u.empty)

  body_text-valid : p.utf8_validate (b'(' ∷ body_text) ≡ true
  unfolding body_text
  body_text-valid =
      utf8-cons_ascii p u b'(' _ (omega arith)
      ∙ pair_escapes-utf8 p u dx.text b',' cdr_text (omega arith) dx.valid
          (cdr_text-valid b',' (omega arith))

  body_text-closed : ends_with (b'(' ∷ body_text) b')' ≡ true
  unfolding body_text cdr_text
  body_text-closed =
      ends_with-append (b'(' ∷ escape_string pair_escapes dx.text) b','
        (escape_string pair_escapes dy.text ++ b')' ∷ []) b')'
      ∙ ends_with-append (b',' ∷ escape_string pair_escapes dy.text) b')' [] b')'

-- A pair of values of primitive types whose texts give them back is printed, and its text is read
-- as the pair.
pub new_pair_from_string-to_string :
    (p : Platform) (u : IsUtf8 p) (t v : GConfValueType) (x y : GConfValue)
    → IsPlain p t x
    → IsPlain p v y
    → (text : Bytes) × (to_string p (pair_value (just x) (just y)) ≡ some text)
      × (new_pair_from_string p t v text ≡ parsed (pair_value (just x) (just y)))
new_pair_from_string-to_string p u t v x y hx hy =
    let dx = IsPlain-ReadBack p u t x hx in
    let dy = IsPlain-ReadBack p u v y hy in
    (
      b'(' ∷ body_text p u t v x y dx dy,
      unfold to_string body_text cdr_text in rw dx.printed (rw dy.printed),
      pair_checks p t v (body_text p u t v x y dx dy) (plain_container p t x hx)
            (plain_container p v y hy) (body_text-valid p u t v x y dx dy)
            (body_text-closed p u t v x y dx dy)
          ∙ ap pair_result (loop_body p u t v x y dx dy),
    )
