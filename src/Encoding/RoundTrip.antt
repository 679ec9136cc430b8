-- ===== src/Encoding/RoundTrip.antt =====
-- `gconf_value_decode` undoes `gconf_value_encode`, up to what the encoding leaves out.
use gconf_dbus.Prelude.{ℕ, ◌<◌, ◌≡◌, true, none, some, length}
use gconf_dbus.CString.{Bytes}
use gconf_dbus.Platform.{Platform, IsUtf8, IsAsciiFormat}
use gconf_dbus.Value.{
  GConfValue, Values, MaybeValue, GConfSchema, invalid_value, string_value, int_value, float_value,
  bool_value, schema_null, schema_value, list_value, pair_value, nil, cons, null, just, make_schema,
}
use gconf_dbus.Encoding.Encode.{encode}
use gconf_dbus.Encoding.Decode.{done, decode}
use gconf_dbus.Encoding.Canonical.{
  canonical, IsEncodable, IsEncodablePart, IsEncodableItems, IsEncodableSchema,
}
use gconf_dbus.Encoding.Items.{Decoded, DecodedItems, nil-DecodedItems, cons-DecodedItems}
use gconf_dbus.Encoding.Kinds.{
  DecodedPart, string_Decoded, int_Decoded, float_Decoded, bool_Decoded, list_Decoded,
  null_pair_Decoded, car_pair_Decoded, pair_Decoded, null_DecodedPart, just_DecodedPart,
  schema_Decoded,
}

-- Every encodable value is encoded, and its encoding is decoded.
module _ (p : Platform) (u : IsUtf8 p) (a : IsAsciiFormat p) where
  mutual
    IsEncodable-Decoded : (v : GConfValue) → IsEncodable p v → Decoded p v
    IsEncodable-Decoded invalid_value h = absurd h
    IsEncodable-Decoded (string_value none) h = absurd h
    IsEncodable-Decoded (string_value (some s)) h = string_Decoded p u s h
    IsEncodable-Decoded (int_value z) h = int_Decoded p u z h
    IsEncodable-Decoded (float_value d) h = float_Decoded p u d a h
    IsEncodable-Decoded (bool_value b) h = bool_Decoded p u b
    IsEncodable-Decoded schema_null h = absurd h
    IsEncodable-Decoded (schema_value sc) h = IsEncodableSchema-Decoded sc h
    IsEncodable-Decoded (list_value t xs) h =
        list_Decoded p u t xs h.0 h.1 (IsEncodableItems-Decoded xs h.2)
    IsEncodable-Decoded (pair_value null null) h = null_pair_Decoded p u
    IsEncodable-Decoded (pair_value null (just w)) h = absurd h.2
    IsEncodable-Decoded (pair_value (just v) null) h =
        car_pair_Decoded p u v (IsEncodable-Decoded v h.0)
    IsEncodable-Decoded (pair_value (just v) (just w)) h =
        pair_Decoded p u v w (IsEncodable-Decoded v h.0) (IsEncodable-Decoded w h.1)

    IsEncodableSchema-Decoded :
        (sc : GConfSchema) → IsEncodableSchema p sc → Decoded p (schema_value sc)
    IsEncodableSchema-Decoded (make_schema t lt at dt locale owner short_desc long_desc m) h =
        schema_Decoded p u t lt at dt locale owner short_desc long_desc m h.0 h.1 h.2
          (IsEncodablePart-Decoded m h.3)

    IsEncodablePart-Decoded : (m : MaybeValue) → IsEncodablePart p m → DecodedPart p m
    IsEncodablePart-Decoded null h = null_DecodedPart p u
    IsEncodablePart-Decoded (just v) h = just_DecodedPart p u v (IsEncodable-Decoded v h)

    IsEncodableItems-Decoded : (xs : Values) → IsEncodableItems p xs → DecodedItems p xs
    IsEncodableItems-Decoded nil h = nil-DecodedItems p u
    IsEncodableItems-Decoded (cons v vs) h =
        cons-DecodedItems p u v vs (IsEncodable-Decoded v h.0) (IsEncodableItems-Decoded vs h.1)

  -- An encodable value has an encoding, which is valid UTF-8, and from which
  -- `gconf_value_decode`, with fuel above its length, reads the canonical form of the value.
  pub decode-encode :
      (v : GConfValue)
      → IsEncodable p v
      → (text : Bytes) × (encode p v ≡ some text)
        × (p.utf8_validate text ≡ true)
        × ((f : ℕ) → length text < f → decode p f text ≡ done (just (canonical v)))
  decode-encode v h = let d = IsEncodable-Decoded v h in (d.text, d.encoded, d.valid, d.back)
