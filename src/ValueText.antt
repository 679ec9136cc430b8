-- ===== src/ValueText.antt =====
-- gconf/gconf-value.c: values from and to the text that users read and write.
pub mod Primitive
pub mod Escapes
pub mod Print
pub mod Lists
pub mod Pairs
pub mod Plain
mod EscapeLoop
pub mod ListRoundTrip
pub mod Brackets
pub mod PairRoundTrip
pub mod Buffer
mod Tests
