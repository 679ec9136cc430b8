-- ===== src/Encoding/Kinds.antt =====
-- The values of each type, and that their encodings are decoded.
use gconf_dbus.Prelude.{
  ℕ, zero, suc, ◌+◌, ◌<◌, ◌≡◌, refl, ◌∙◌, ap, Bool, true, false, Option, none, some, [], ◌∷◌, ◌++◌,
  length, length-append, arith, IsInt32, ℤ,
}
use gconf_dbus.CString.{Bytes, format_d, atoi-format_d, format_d-ascii}
use gconf_dbus.Platform.{Platform, IsUtf8, IsAsciiFormat, utf8-ascii, utf8-cons_ascii}
use gconf_dbus.Quote.{quote_string}
use gconf_dbus.Quote.RoundTrip.{length-lt-quote_string, utf8-quote_string}
use gconf_dbus.Value.{
  GConfValueType, GConfValue, Values, MaybeValue, string_value, int_value, float_value, bool_value,
  schema_value, list_value, pair_value, null, just, make_schema, int, bool, float, string, schema,
  list, pair,
}
use gconf_dbus.Encoding.Encode.{type_byte, byte_type-type_byte, encode, encode_default, or_empty}
use gconf_dbus.Encoding.Decode.{done, decode, decode_body, is_invalid, set_list, set_list_type}
use gconf_dbus.Encoding.Canonical.{canonical, canonical_part, canonical_items}
use gconf_dbus.Encoding.Bodies.{
  utf8-join, utf8-type_byte, decode-type_byte, decode_schema-quoted, decode_pair-quoted,
  decode_pair-nil, decode_pair-car, decode-nil,
}
use gconf_dbus.Encoding.Items.{Decoded, DecodedItems}

-- The encoding of a default value, "" for none, and that it is decoded.
pub record DecodedPart (p : Platform) (m : MaybeValue) : Type 0 where
  pub text : Bytes
  pub encoded : encode_default p m ≡ some text
  pub valid : p.utf8_validate text ≡ true
  pub back : (f : ℕ) → length text < f → decode p f text ≡ done (canonical_part m)

module _ (p : Platform) (u : IsUtf8 p) where
  -- From the case of a type to the whole.
  from_body :
      (t : GConfValueType) (s : Bytes) (v : GConfValue)
      → is_invalid t ≡ false
      → encode p v ≡ some (type_byte t ∷ s)
      → p.utf8_validate s ≡ true
      → ((f : ℕ) → length s < f → decode_body p (decode p f) t s ≡ done (just (canonical v)))
      → Decoded p v
  from_body t s v n e h body = record {
    text = type_byte t ∷ s;
    encoded = e;
    valid = utf8-type_byte p u t s h;
    back = back;
  }
    where
      back :
          (f : ℕ)
          → length (type_byte t ∷ s) < f
          → decode p f (type_byte t ∷ s) ≡ done (just (canonical v))
      back zero lt = elim lt [ ]
      back (suc f) lt = decode-type_byte p u f t s n h ∙ body f (omega arith)

  pub string_Decoded : (s : Bytes) → p.utf8_validate s ≡ true → Decoded p (string_value (some s))
  unfolding encode type_byte canonical decode_body
  string_Decoded s h = from_body string s (string_value (some s)) refl refl h (λ f _. refl)

  pub int_Decoded : (z : ℤ) → IsInt32 z → Decoded p (int_value z)
  unfolding encode type_byte canonical decode_body
  int_Decoded z h =
      from_body int (format_d z) (int_value z) refl refl (utf8-ascii p u _ (format_d-ascii z))
        (λ f _. rw (atoi-format_d z h))

  pub float_Decoded :
      (d : ℕ) → IsAsciiFormat p → p.strtod (p.format_g d) ≡ d → Decoded p (float_value d)
  unfolding encode type_byte canonical decode_body
  float_Decoded d a h =
      from_body float (p.format_g d) (float_value d) refl refl (utf8-ascii p u _ (a.written d))
        (λ f _. ap (λ x. done (just (float_value x))) h)

  pub bool_Decoded : (b : Bool) → Decoded p (bool_value b)
  unfolding encode type_byte canonical decode_body
  bool_Decoded true =
      from_body bool (b't' ∷ []) (bool_value true) refl refl
        (utf8-ascii p u (b't' ∷ []) (omega arith)) (λ f _. refl)
  bool_Decoded false =
      from_body bool (b'f' ∷ []) (bool_value false) refl refl
        (utf8-ascii p u (b'f' ∷ []) (omega arith)) (λ f _. refl)

  pub list_Decoded :
      (t : GConfValueType) (xs : Values)
      → set_list_type t ≡ t
      → is_invalid t ≡ false
      → DecodedItems p xs
      → Decoded p (list_value t xs)
  unfolding encode canonical
  list_Decoded t xs e n ds =
      from_body list (type_byte t ∷ ds.body) (list_value t xs) refl
        (rw ds.encoded (unfold type_byte in refl)) (utf8-type_byte p u t ds.body ds.valid) body
    where
      body :
          (f : ℕ)
          → length (type_byte t ∷ ds.body) < f
          → decode_body p (decode p f) list (type_byte t ∷ ds.body)
            ≡ done (just (list_value t (canonical_items xs)))
      body f h =
          unfold decode_body set_list in
          rw (ds.whole f (omega arith)) (rw (byte_type-type_byte t) (rw e (rw n)))

  pub null_pair_Decoded : Decoded p (pair_value null null)
  unfolding encode type_byte canonical decode_body
  null_pair_Decoded =
      from_body pair [] (pair_value null null) refl refl u.empty
        (λ f h. decode_pair-nil (decode p f) (decode-nil p f h))

  pub car_pair_Decoded : (v : GConfValue) → Decoded p v → Decoded p (pair_value (just v) null)
  unfolding encode canonical
  car_pair_Decoded v d =
      from_body pair (quote_string d.text ++ b',' ∷ []) (pair_value (just v) null) refl
        (rw d.encoded (unfold type_byte in refl))
        (utf8-join p u _ b',' [] (omega arith) (utf8-quote_string p u d.text ∙ d.valid) u.empty)
        body
    where
      body :
          (f : ℕ)
          → length (quote_string d.text ++ b',' ∷ []) < f
          → decode_body p (decode p f) pair (quote_string d.text ++ b',' ∷ [])
            ≡ done (just (pair_value (just (canonical v)) null))
      body f h =
          let room : length d.text < f = omega (
            arith,
            length-lt-quote_string d.text,
            length-append (quote_string d.text) (b',' ∷ []),
          ) in
          unfold decode_body in
          decode_pair-car (decode p f) d.text (just (canonical v)) (d.back f room)
            (decode-nil p f (omega arith))

  pub pair_Decoded :
      (v w : GConfValue) → Decoded p v → Decoded p w → Decoded p (pair_value (just v) (just w))
  unfolding encode canonical
  pair_Decoded v w dv dw =
      from_body pair (quote_string dv.text ++ (b',' ∷ quote_string dw.text))
        (pair_value (just v) (just w)) refl
        (rw dv.encoded (rw dw.encoded (unfold type_byte in refl)))
        (utf8-join p u _ b',' _ (omega arith) (utf8-quote_string p u dv.text ∙ dv.valid)
          (utf8-quote_string p u dw.text ∙ dw.valid))
        body
    where
      body :
          (f : ℕ)
          → length (quote_string dv.text ++ (b',' ∷ quote_string dw.text)) < f
          → decode_body p (decode p f) pair (quote_string dv.text ++ (b',' ∷ quote_string dw.text))
            ≡ done (just (pair_value (just (canonical v)) (just (canonical w))))
      body f h =
          let room : length dv.text + length dw.text < f = omega (
            arith,
            length-lt-quote_string dv.text,
            length-lt-quote_string dw.text,
            length-append (quote_string dv.text) (b',' ∷ quote_string dw.text),
          ) in
          unfold decode_body in
          decode_pair-quoted (decode p f) dv.text dw.text (just (canonical v)) (just (canonical w))
            (dv.back f (omega arith)) (dw.back f (omega arith))

  pub null_DecodedPart : DecodedPart p null
  unfolding encode canonical
  null_DecodedPart = record {
    text = [];
    encoded = refl;
    valid = u.empty;
    back = λ f h. decode-nil p f (omega arith);
  }

  pub just_DecodedPart : (v : GConfValue) → Decoded p v → DecodedPart p (just v)
  unfolding encode canonical
  just_DecodedPart v d = record {
    text = d.text;
    encoded = d.encoded;
    valid = d.valid;
    back = d.back;
  }

  pub schema_Decoded :
      (t lt at dt : GConfValueType) (locale owner short_desc long_desc : Option Bytes)
      (m : MaybeValue)
      → p.utf8_validate (or_empty locale) ≡ true
      → p.utf8_validate (or_empty short_desc) ≡ true
      → p.utf8_validate (or_empty long_desc) ≡ true
      → DecodedPart p m
      → Decoded p (schema_value (make_schema t lt at dt locale owner short_desc long_desc m))
  unfolding encode canonical
  schema_Decoded t lt at dt locale owner short_desc long_desc m hl hs hg d =
      from_body schema body
        (schema_value (make_schema t lt at dt locale owner short_desc long_desc m)) refl
        (rw d.encoded (unfold type_byte in refl)) valid back
    where
      quoted : Bytes
      quoted =
          quote_string (or_empty locale)
          ++ (b','
              ∷ (quote_string (or_empty short_desc)
                  ++ (b',' ∷ (quote_string (or_empty long_desc) ++ (b',' ∷ quote_string d.text)))))

      body : Bytes
      body = type_byte t ∷ type_byte lt ∷ type_byte at ∷ type_byte dt ∷ b',' ∷ quoted

      valid_quoted : p.utf8_validate quoted ≡ true
      valid_quoted =
          utf8-join p u _ b',' _ (omega arith) (utf8-quote_string p u (or_empty locale) ∙ hl) (
            utf8-join p u _ b',' _ (omega arith) (utf8-quote_string p u (or_empty short_desc) ∙ hs)
              (utf8-join p u _ b',' _ (omega arith)
                (utf8-quote_string p u (or_empty long_desc) ∙ hg)
                (utf8-quote_string p u d.text ∙ d.valid)))

      valid : p.utf8_validate body ≡ true
      valid = utf8-type_byte p u t _ (
          utf8-type_byte p u lt _ (
            utf8-type_byte p u at _ (
              utf8-type_byte p u dt _
                (utf8-cons_ascii p u b',' quoted (omega arith) ∙ valid_quoted))))

      length_text : length d.text < length body
      length_text = omega (
        arith,
        length-append (quote_string (or_empty locale)) (
            b','
            ∷ (quote_string (or_empty short_desc)
                ++ (b',' ∷ (quote_string (or_empty long_desc) ++ (b',' ∷ quote_string d.text))))),
        length-append (quote_string (or_empty short_desc))
            (b',' ∷ (quote_string (or_empty long_desc) ++ (b',' ∷ quote_string d.text))),
        length-append (quote_string (or_empty long_desc)) (b',' ∷ quote_string d.text),
        length-lt-quote_string d.text,
      )

      back :
          (f : ℕ)
          → length body < f
          → decode_body p (decode p f) schema body
            ≡ done (
                just (
                  schema_value (
                    make_schema t lt at dt
                      (some (or_empty locale))
                      none
                      (some (or_empty short_desc))
                      (some (or_empty long_desc))
                      (canonical_part m))))
      back f h =
          unfold decode_body in
          decode_schema-quoted (decode p f) t lt at dt (or_empty locale) (or_empty short_desc)
            (or_empty long_desc) d.text (canonical_part m) (d.back f (omega (arith, length_text)))
