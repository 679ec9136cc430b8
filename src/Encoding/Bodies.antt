-- ===== src/Encoding/Bodies.antt =====
-- The parts of `gconf_value_decode` on what `gconf_value_encode` writes.
use gconf_dbus.Prelude.{
  ℕ, zero, suc, ◌<◌, ◌≡◌, refl, ◌∙◌, ap, sym, true, false, none, some, [], ◌∷◌, ◌++◌, arith,
  append-nil,
}
use gconf_dbus.CString.{Bytes}
use gconf_dbus.Platform.{Platform, IsUtf8, utf8-cons_ascii}
use gconf_dbus.Quote.{quote_string, unquote_string}
use gconf_dbus.Quote.RoundTrip.{unquote_string-quote_string}
use gconf_dbus.Value.{
  GConfValueType, MaybeValue, schema_value, pair_value, null, just, make_schema, int,
}
use gconf_dbus.Encoding.Encode.{type_byte, byte_type-type_byte}
use gconf_dbus.Encoding.Decode.{
  Read, done, decode, decode_body, decode_schema, decode_pair, is_invalid,
}

pub type_byte-lt : (t : GConfValueType) → type_byte t < 128
unfolding type_byte
type_byte-lt int = omega arith
type_byte-lt _ = omega arith

module _ (p : Platform) (u : IsUtf8 p) where
  -- Valid texts stay valid when an ASCII byte joins them.
  pub utf8-join :
      (xs : Bytes) (c : ℕ) (ys : Bytes)
      → c < 128
      → p.utf8_validate xs ≡ true
      → p.utf8_validate ys ≡ true
      → p.utf8_validate (xs ++ c ∷ ys) ≡ true
  utf8-join xs c ys h hx hy = u.ascii xs c ys h ∙ cc (hx, hy)

  pub utf8-type_byte :
      (t : GConfValueType) (s : Bytes)
      → p.utf8_validate s ≡ true
      → p.utf8_validate (type_byte t ∷ s) ≡ true
  utf8-type_byte t s h = utf8-cons_ascii p u (type_byte t) s (type_byte-lt t) ∙ h

  -- A valid text that begins with the byte of a type is decoded by the case of the type.
  pub decode-type_byte :
      (f : ℕ) (t : GConfValueType) (s : Bytes)
      → is_invalid t ≡ false
      → p.utf8_validate s ≡ true
      → decode p (suc f) (type_byte t ∷ s) ≡ decode_body p (decode p f) t s
  unfolding decode
  decode-type_byte f t s n h = rw (byte_type-type_byte t) (rw (n, utf8-type_byte t s h) refl)

-- A quoted text at the end of the string.
pub unquote_string-quote_string_end :
    (s : Bytes) → unquote_string (quote_string s) ≡ record { text = s; rest = []; closed = true }
unquote_string-quote_string_end s =
    ap unquote_string (sym (append-nil (quote_string s))) ∙ unquote_string-quote_string s []

module _ (rec : Bytes → Read MaybeValue) where
  pub decode_schema-quoted :
      (t lt at dt : GConfValueType) (locale short_desc long_desc encoded : Bytes) (d : MaybeValue)
      → rec encoded ≡ done d
      → decode_schema rec (
          type_byte t
          ∷ type_byte lt
          ∷ type_byte at
          ∷ type_byte dt
          ∷ b','
          ∷ (quote_string locale
              ++ (b','
                  ∷ (quote_string short_desc
                      ++ (b',' ∷ (quote_string long_desc ++ (b',' ∷ quote_string encoded)))))))
        ≡ done (
            just (
              schema_value
                (make_schema t lt at dt (some locale) none (some short_desc) (some long_desc) d)))
  unfolding decode_schema
  decode_schema-quoted t lt at dt locale short_desc long_desc encoded d h =
      rw (unquote_string-quote_string locale) (
        rw (unquote_string-quote_string short_desc) (
          rw (unquote_string-quote_string long_desc) (
            rw (unquote_string-quote_string_end encoded) (
              rw h (
                rw (
                  byte_type-type_byte t,
                  byte_type-type_byte lt,
                  byte_type-type_byte at,
                  byte_type-type_byte dt,
                ))))))

  pub decode_pair-quoted :
      (car cdr : Bytes) (x y : MaybeValue)
      → rec car ≡ done x
      → rec cdr ≡ done y
      → decode_pair rec (quote_string car ++ (b',' ∷ quote_string cdr))
        ≡ done (just (pair_value x y))
  unfolding decode_pair
  decode_pair-quoted car cdr x y hx hy =
      rw (unquote_string-quote_string car)
        (rw (unquote_string-quote_string_end cdr) (rw hx (rw hy)))

  pub decode_pair-nil : rec [] ≡ done null → decode_pair rec [] ≡ done (just (pair_value null null))
  unfolding decode_pair unquote_string
  decode_pair-nil h = rw h

  -- A pair without a cdr ends behind its comma.
  pub decode_pair-car :
      (car : Bytes) (x : MaybeValue)
      → rec car ≡ done x
      → rec [] ≡ done null
      → decode_pair rec (quote_string car ++ b',' ∷ []) ≡ done (just (pair_value x null))
  unfolding decode_pair
  decode_pair-car car x h e =
      rw (unquote_string-quote_string car (b',' ∷ [])) (rw h (unfold unquote_string in rw e))

pub decode-nil : (p : Platform) (f : ℕ) → 0 < f → decode p f [] ≡ done null
unfolding decode
decode-nil p zero h = elim h [ ]
decode-nil p (suc f) h = refl
