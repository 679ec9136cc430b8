-- ===== src/Encoding/Tests.antt =====
-- Values that the theorems are applied to, and runs of the functions.
use gconf_dbus.Prelude.{
  ℕ, ◌<◌, ◌≡◌, refl, ◌≢◌, true, none, some, length, arith, pos, negsuc, to_int32,
}
use gconf_dbus.CString.{Bytes, codes, put_nat, format_d, atoi}
use gconf_dbus.Platform.Ascii.{ascii_platform, ascii_platform-IsUtf8, ascii_platform-IsAsciiFormat}
use gconf_dbus.Quote.{quote_string, unquote_string}
use gconf_dbus.Value.{
  GConfValue, int, string, pair, invalid, int_value, string_value, schema_value, list_value,
  pair_value, nil, cons, just, make_schema,
}
use gconf_dbus.Encoding.Encode.{encode, type_byte, byte_type}
use gconf_dbus.Encoding.Decode.{
  done, exhausted, decode, items_loop, items_next, set_list, set_list_type,
}
use gconf_dbus.Encoding.Canonical.{canonical, IsEncodable}
use gconf_dbus.Encoding.RoundTrip.{decode-encode}
use gconf_dbus.Encoding.Totality.{decode-ne-exhausted}

-- A schema for pairs, with a pair for its default value.
abbrev sample : GConfValue
sample = schema_value (
    make_schema pair invalid int string none (some (codes "owner")) (some (codes "say \"hi\"")) none
      (just
        (pair_value (just (int_value (negsuc 41))) (just (string_value (some (codes "a\\b")))))))

sample-IsEncodable : IsEncodable ascii_platform sample
sample-IsEncodable = (refl, refl, refl, (omega arith, refl, tt))

encode_list :
    encode ascii_platform (list_value int (cons (int_value (pos 1)) (cons (int_value (pos 2)) nil)))
    ≡ some (codes "li,\"i1\",\"i2\"")
unfolding encode quote_string format_d put_nat type_byte
encode_list = refl

decode_list_run :
    decode ascii_platform 20 (codes "li,\"i1\",\"i2\"")
    ≡ done (just (list_value int (cons (int_value (pos 1)) (cons (int_value (pos 2)) nil))))
unfolding decode unquote_string atoi items_loop items_next set_list set_list_type byte_type to_int32
decode_list_run = refl

decode-encode_example :
    (text : Bytes) × (encode ascii_platform sample ≡ some text)
    × (ascii_platform.utf8_validate text ≡ true)
    × ((f : ℕ) → length text < f → decode ascii_platform f text ≡ done (just (canonical sample)))
decode-encode_example =
    decode-encode ascii_platform ascii_platform-IsUtf8 ascii_platform-IsAsciiFormat sample
      sample-IsEncodable

decode-ne-exhausted_example : decode ascii_platform 9 (codes "li,\"i1\"") ≢ exhausted
decode-ne-exhausted_example = decode-ne-exhausted ascii_platform 9 (codes "li,\"i1\"") (omega arith)
