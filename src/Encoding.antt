-- ===== src/Encoding.antt =====
-- gconf/gconf-internals.c: the one-line encoding of values, `gconf_value_encode` and
-- `gconf_value_decode`.
pub mod Encode
pub mod Decode
pub mod Canonical
mod Bodies
mod Items
mod Kinds
pub mod RoundTrip
pub mod Totality
pub mod Losses
mod Tests
