-- ===== src/CString.antt =====
-- C strings, and the functions of the C library that the code calls on them.
-- A string is the list of its bytes before the terminating NUL, so the end of the list is the NUL.
mod Strings
mod Decimal
mod Equal
mod Compare
pub use Strings.*
pub use Equal.*
pub use Compare.*
unfoldable pub use Compare.{strcmp}
pub use Decimal.{
  long_max, Strtol, IsLong, put_nat-digits, put_nat-ascii, format_d-ascii, put_nat-append,
  put_nat-cons, scan_digits-put_nat, strtol-format_d, atoi-format_d,
}
unfoldable pub use Decimal.{
  is_space, is_digit, scan_digits, put_nat, strtol, atoi, format_d, strtol_sign, strtol_digits,
}
