-- ===== src/Encoding/Decode.antt =====
-- `gconf_value_decode`.
use gconf_dbus.Prelude.{
  ℕ, zero, suc, Bool, true, false, none, some, [], ◌∷◌, length, ◌==◌, if◌then◌else◌,
}
use gconf_dbus.CString.{Bytes, atoi, begins}
use gconf_dbus.Platform.{Platform}
use gconf_dbus.Quote.{unquote_string}
use gconf_dbus.Value.{
  GConfValueType, GConfValue, Values, MaybeValue, invalid, string, int, float, bool, schema, list,
  pair, string_value, int_value, float_value, bool_value, schema_value, list_value, pair_value, nil,
  cons, null, just, make_schema,
}
use gconf_dbus.Encoding.Encode.{byte_type}

-- `overrun`: the code reads behind the terminating NUL. `exhausted`: the fuel has run out.
pub data Read {ℓ} (A : Type ℓ) : Type ℓ where
  done : A → Read A
  overrun : Read A
  exhausted : Read A

infixl 5 ◌>>=◌
abbrev pub ◌>>=◌ {ℓ κ} : {A : Type ℓ} {B : Type κ} → Read A → (A → Read B) → Read B
done a >>= f = f a
overrun >>= f = overrun
exhausted >>= f = exhausted

-- `*s` and `++s`. At the NUL the increment leaves the string, and each caller reads there next.
abbrev pub take_byte : Bytes → Read (ℕ × Bytes)
take_byte [] = overrun
take_byte (c ∷ s) = done (c, s)

-- A missing comma gets a warning, and the byte is skipped all the same.
abbrev pub skip_comma : Bytes → Read Bytes
skip_comma [] = overrun
skip_comma (c ∷ s) = done s

abbrev pub is_invalid : GConfValueType → Bool
is_invalid invalid = true
is_invalid _ = false

unfoldable pub decode_schema : (Bytes → Read MaybeValue) → Bytes → Read MaybeValue
decode_schema rec s = do
  (t, s) ← take_byte s
  (lt, s) ← take_byte s
  (at, s) ← take_byte s
  (dt, s) ← take_byte s
  s ← skip_comma s
  let locale = unquote_string s
  s ← skip_comma locale.rest
  let short_desc = unquote_string s
  s ← skip_comma short_desc.rest
  let long_desc = unquote_string s
  s ← skip_comma long_desc.rest
  default_value ← rec (unquote_string s).text
  done (
      just (
        schema_value (
          make_schema (byte_type t) (byte_type lt) (byte_type at) (byte_type dt) (some locale.text)
            none (some short_desc.text) (some long_desc.text) default_value)))

-- `gconf_value_set_list_type` on a new list: types `list` and `pair` are refused.
unfoldable pub set_list_type : GConfValueType → GConfValueType
set_list_type list = invalid
set_list_type pair = invalid
set_list_type t = t

-- `gconf_value_set_list_nocopy` on an empty list: nothing is set while the type is invalid.
unfoldable pub set_list : GConfValueType → Values → GConfValue
set_list t xs = if is_invalid t then list_value invalid nil else list_value t xs

abbrev pub prepend : MaybeValue → Values → Values
prepend null xs = xs
prepend (just v) xs = cons v xs

-- What follows an element; `more` is the next round of the loop.
unfoldable pub items_next : (Bytes → Read Values) → MaybeValue → Bytes → Read Values
items_next more elem [] = done (prepend elem nil)
items_next more elem (c ∷ s) =
    if c == b',' then (do xs ← more s; done (prepend elem xs)) else done (prepend elem nil)

-- `while (*s)`, for which the length of the string is fuel enough.
unfoldable pub items_loop : (Bytes → Read MaybeValue) → ℕ → Bytes → Read Values
items_loop rec k [] = done nil
items_loop rec zero (c ∷ s) = exhausted
items_loop rec (suc k) (c ∷ s) = do
  elem ← rec (unquote_string (c ∷ s)).text
  items_next (items_loop rec k) elem (unquote_string (c ∷ s)).rest

unfoldable pub decode_list : (Bytes → Read MaybeValue) → Bytes → Read MaybeValue
decode_list rec s = do
  (t, s) ← take_byte s
  xs ← items_loop rec (length s) s
  done (just (set_list (set_list_type (byte_type t)) xs))

abbrev pub skip_if_comma : Bytes → Bytes
skip_if_comma [] = []
skip_if_comma (c ∷ s) = if c == b',' then s else c ∷ s

unfoldable pub decode_pair : (Bytes → Read MaybeValue) → Bytes → Read MaybeValue
decode_pair rec s = do
  car ← rec (unquote_string s).text
  cdr ← rec (unquote_string (skip_if_comma (unquote_string s).rest)).text
  done (just (pair_value car cdr))

-- The `switch` on the type; `s` is `encoded + 1`, and `rec` the recursive call.
unfoldable pub decode_body :
    Platform → (Bytes → Read MaybeValue) → GConfValueType → Bytes → Read MaybeValue
unfolding decode_schema decode_list decode_pair
decode_body p rec invalid s = done null
decode_body p rec int s = done (just (int_value (atoi s)))
decode_body p rec bool s = done (just (bool_value (begins s b't')))
decode_body p rec float s = done (just (float_value (p.strtod s)))
decode_body p rec string s = done (just (string_value (some s)))
decode_body p rec schema s = decode_schema rec s
decode_body p rec list s = decode_list rec s
decode_body p rec pair s = decode_pair rec s

-- The first number is fuel, for which more than the length of the string is enough.
unfoldable pub decode : Platform → ℕ → Bytes → Read MaybeValue
unfolding decode_body
decode p zero encoded = exhausted
decode p (suc f) [] = done null
decode p (suc f) (c ∷ s) =
    if is_invalid (byte_type c)
    then done null
    else if p.utf8_validate (c ∷ s)
    then decode_body p (decode p f) (byte_type c) s
    else done null
