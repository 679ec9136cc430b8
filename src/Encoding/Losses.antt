-- ===== src/Encoding/Losses.antt =====
-- What `gconf_value_encode` drops.
use gconf_dbus.Prelude.{ℕ, ◌≡◌, ◌<◌, ◌∙◌, some, length}
use gconf_dbus.CString.{Bytes}
use gconf_dbus.Platform.{Platform, IsUtf8, IsAsciiFormat}
use gconf_dbus.Value.{GConfValue, pair_value, null, just}
use gconf_dbus.Encoding.Encode.{encode}
use gconf_dbus.Encoding.Decode.{done, decode}
use gconf_dbus.Encoding.Canonical.{canonical, IsEncodable}
use gconf_dbus.Encoding.RoundTrip.{decode-encode}

without_car :
    (p : Platform) (v : GConfValue) (t : Bytes)
    → encode p v ≡ some t
    → encode p (pair_value null (just v)) ≡ encode p (pair_value null null)
unfolding encode
without_car p v t e = rw e

-- A pair with no car and an encodable cdr is encoded, and what is decoded from its encoding is a
-- pair with neither.
pub encode-pair_without_car :
    (p : Platform) (u : IsUtf8 p) (a : IsAsciiFormat p) (v : GConfValue)
    → IsEncodable p v
    → (text : Bytes) × (encode p (pair_value null (just v)) ≡ some text)
      × ((f : ℕ) → length text < f → decode p f text ≡ done (just (pair_value null null)))
encode-pair_without_car p u a v h =
    let (own, encoded, _, _) = decode-encode p u a v h in
    let (text, both, _, back) = decode-encode p u a (pair_value null null) (tt, tt, tt) in
    (text, without_car p v own encoded ∙ both, λ f hf. unfold canonical in back f hf)
