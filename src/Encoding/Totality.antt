-- ===== src/Encoding/Totality.antt =====
-- The fuel of `decode`: more than the length of the string is enough, for every string. And where
-- the code reads behind the end of a string.
use gconf_dbus.Prelude.{
  ℕ, zero, suc, ◌≤◌, ◌<◌, ◌≡◌, refl, ◌≢◌, true, [], ◌∷◌, length, arith, ◌==◌, Bool-cases, inl, inr,
}
use gconf_dbus.CString.{Bytes}
use gconf_dbus.Platform.{Platform}
use gconf_dbus.Quote.{unquote_string}
use gconf_dbus.Quote.RoundTrip.{unquote_string-le}
use gconf_dbus.Value.{GConfValueType, Values, MaybeValue, schema, list, pair}
use gconf_dbus.Encoding.Encode.{byte_type}
use gconf_dbus.Encoding.Decode.{
  Read, done, overrun, exhausted, ◌>>=◌, decode, decode_body, decode_schema, decode_pair,
  decode_list, items_loop, items_next, skip_if_comma, take_byte, skip_comma, is_invalid,
}

-- The fuel did not run out.
abbrev Returns {ℓ} : {A : Type ℓ} → Read A → Type 0
Returns exhausted = ⊥
Returns _ = Unit

Returns-bind {ℓ} :
    {A B : Type ℓ} (m : Read A) (f : A → Read B)
    → Returns m
    → ((a : A) → m ≡ done a → Returns (f a))
    → Returns (m >>= f)
Returns-bind (done a) f h k = k a refl
Returns-bind overrun f h k = tt
Returns-bind exhausted f h k = absurd h

items_next-Returns :
    (more : Bytes → Read Values) (elem : MaybeValue) (s : Bytes)
    → ((t : Bytes) → length t < length s → Returns (more t))
    → Returns (items_next more elem s)
unfolding items_next
items_next-Returns more elem [] m = tt
items_next-Returns more elem (c ∷ s) m = elim (Bool-cases (c == b',')) [
  | inl e ↦ rw e (Returns-bind (more s) _ (m s (omega arith)) (λ xs _. tt))
  | inr e ↦ rw e tt
]

skip_if_comma-le : (s : Bytes) → length (skip_if_comma s) ≤ length s
skip_if_comma-le [] = omega arith
skip_if_comma-le (c ∷ s) = ground arith

-- The recursive call returns on strings of up to `n` bytes.
module _ (n : ℕ) (rec : Bytes → Read MaybeValue) where
  abbrev Total : Type 0
  Total = (x : Bytes) → length x ≤ n → Returns (rec x)

  items_loop-Returns :
      (k : ℕ) (s : Bytes) → Total → length s ≤ k → length s ≤ n → Returns (items_loop rec k s)
  unfolding items_loop
  items_loop-Returns k [] ok hk hn = tt
  items_loop-Returns zero (c ∷ s) ok hk hn = absurd (omega arith)
  items_loop-Returns (suc k) (c ∷ s) ok hk hn =
      Returns-bind (rec (unquote_string (c ∷ s)).text) _
        (ok _ (omega (arith, unquote_string-le (c ∷ s))))
        (λ elem _. items_next-Returns (items_loop rec k) elem (unquote_string (c ∷ s)).rest (λ t ht.
          items_loop-Returns k t ok (omega (arith, unquote_string-le (c ∷ s)))
            (omega (arith, unquote_string-le (c ∷ s)))))

  decode_list-Returns : (s : Bytes) → Total → length s ≤ n → Returns (decode_list rec s)
  unfolding decode_list
  decode_list-Returns [] ok h = tt
  decode_list-Returns (c ∷ s) ok h =
      Returns-bind (items_loop rec (length s) s) _
        (items_loop-Returns (length s) s ok (omega arith) (omega arith)) (λ xs _. tt)

  decode_pair-Returns : (s : Bytes) → Total → length s ≤ n → Returns (decode_pair rec s)
  unfolding decode_pair
  decode_pair-Returns s ok h =
      let next = skip_if_comma (unquote_string s).rest in
      Returns-bind (rec (unquote_string s).text) _ (ok _ (omega (arith, unquote_string-le s)))
        (λ car _.
          Returns-bind (rec (unquote_string next).text) _
            (ok _ (
              omega (
                arith,
                unquote_string-le s,
                unquote_string-le next,
                skip_if_comma-le (unquote_string s).rest,
              )))
            (λ cdr _. tt))

  -- After a byte that is skipped, whatever it is.
  skip_comma-bind :
      {B : Type 0} (s : Bytes) (f : Bytes → Read B)
      → ((t : Bytes) → length t ≤ length s → Returns (f t))
      → Returns (skip_comma s >>= f)
  skip_comma-bind [] f h = tt
  skip_comma-bind (c ∷ s) f h = h s (omega arith)

  take_byte-bind :
      {B : Type 0} (s : Bytes) (f : ℕ × Bytes → Read B)
      → ((c : ℕ) (t : Bytes) → length t ≤ length s → Returns (f (c, t)))
      → Returns (take_byte s >>= f)
  take_byte-bind [] f h = tt
  take_byte-bind (c ∷ s) f h = h c s (omega arith)

  -- The strings of a schema, from the locale on.
  decode_schema-Returns : (s : Bytes) → Total → length s ≤ n → Returns (decode_schema rec s)
  unfolding decode_schema
  decode_schema-Returns s ok h = take_byte-bind s _ λ _ s1 h1. take_byte-bind s1 _ λ _ s2 h2.
      take_byte-bind s2 _ λ _ s3 h3. take_byte-bind s3 _ λ _ s4 h4. skip_comma-bind s4 _ λ s5 h5.
        skip_comma-bind (unquote_string s5).rest _ λ s6 h6.
          skip_comma-bind (unquote_string s6).rest _ λ s7 h7.
            skip_comma-bind (unquote_string s7).rest _ λ s8 h8.
              Returns-bind (rec (unquote_string s8).text) _
                (ok _ (
                  omega (
                    arith,
                    unquote_string-le s5,
                    unquote_string-le s6,
                    unquote_string-le s7,
                    unquote_string-le s8,
                  )))
                (λ _ _. tt)

  decode_body-Returns :
      (p : Platform) (t : GConfValueType) (s : Bytes)
      → Total
      → length s ≤ n
      → Returns (decode_body p rec t s)
  unfolding decode_body
  decode_body-Returns p schema s ok h = decode_schema-Returns s ok h
  decode_body-Returns p list s ok h = decode_list-Returns s ok h
  decode_body-Returns p pair s ok h = decode_pair-Returns s ok h
  decode_body-Returns p _ s ok h = tt

decode-Returns : (p : Platform) (f : ℕ) (s : Bytes) → length s < f → Returns (decode p f s)
unfolding decode
decode-Returns p zero s h = elim h [ ]
decode-Returns p (suc f) [] h = tt
decode-Returns p (suc f) (c ∷ s) h = elim (Bool-cases (is_invalid (byte_type c))) [
  | inl i ↦ rw i tt
  | inr i ↦ rw i (elim (Bool-cases (p.utf8_validate (c ∷ s))) [
    | inl v ↦ rw v (
        decode_body-Returns (length s) (decode p f) p (byte_type c) s
          (λ x hx. decode-Returns p f x (omega arith)) (omega arith))
    | inr v ↦ rw v tt
  ])
]

Returns-ne-exhausted : (r : Read MaybeValue) → Returns r → r ≢ exhausted
Returns-ne-exhausted (done m) h = cc
Returns-ne-exhausted overrun h = cc
Returns-ne-exhausted exhausted h = absurd h

-- On every string, well formed or not, fuel above the length of the string does not run out.
pub decode-ne-exhausted :
    (p : Platform) (f : ℕ) (s : Bytes) → length s < f → decode p f s ≢ exhausted
decode-ne-exhausted p f s h = Returns-ne-exhausted (decode p f s) (decode-Returns p f s h)

short_schema-overrun :
    (rec : Bytes → Read MaybeValue) (s : Bytes) → length s ≤ 4 → decode_schema rec s ≡ overrun
unfolding decode_schema
short_schema-overrun rec [] h = refl
short_schema-overrun rec (_ ∷ []) h = refl
short_schema-overrun rec (_ ∷ _ ∷ []) h = refl
short_schema-overrun rec (_ ∷ _ ∷ _ ∷ []) h = refl
short_schema-overrun rec (_ ∷ _ ∷ _ ∷ _ ∷ []) h = refl
short_schema-overrun rec (_ ∷ _ ∷ _ ∷ _ ∷ _ ∷ s) h = absurd (omega arith)

-- A valid text that begins with the byte of a schema and has at most four bytes behind it makes
-- `gconf_value_decode` read behind the end of the string.
pub decode-short_schema :
    (p : Platform) (f : ℕ) (s : Bytes)
    → length s ≤ 4
    → p.utf8_validate (b'c' ∷ s) ≡ true
    → decode p (suc f) (b'c' ∷ s) ≡ overrun
unfolding decode byte_type
decode-short_schema p f s h v = rw v (short_schema-overrun (decode p f) s h)
