-- ===== src/Keys.antt =====
-- gconf/gconf.c: `gconf_valid_key`, `gconf_escape_key`, `gconf_unescape_key` and
-- `gconf_key_is_below`; gconf/gconf-internals.c: `gconf_concat_dir_and_key`, `gconf_key_directory`
-- and `gconf_key_key`. Keys are the bytes before the NUL.
pub mod Valid
pub mod Escape
pub mod Below
pub mod Order
pub mod Concat
mod Tests
use gconf_dbus.Prelude.{
  ℕ, zero, suc, ◌+◌, ◌-◌, ◌%◌, Bool, true, false, not, ◌&&◌, ◌||◌, Option, none, some, List, [],
  ◌∷◌, ◌++◌, leb, ltb, ◌==◌, if◌then◌else◌, ◌≡◌, refl,
}
use gconf_dbus.CString.{Bytes, codes, begins, is_space, is_digit, scan_digits, put_nat}

abbrev pub slash : ℕ
slash = b'/'

abbrev pub dot : ℕ
dot = b'.'

abbrev pub at_sign : ℕ
at_sign = b'@'

-- `invalid_chars`
abbrev invalid_chars : Bytes
invalid_chars = codes " \t\r\n\"$&<>,+=#!()'|{}[]?~`;%\\"

contains : Bytes → ℕ → Bool
contains [] c = false
contains (d ∷ s) c = d == c || contains s c

unfoldable pub is_invalid_char : ℕ → Bool
unfolding contains
is_invalid_char c = contains invalid_chars c

-- `*why_invalid`
pub data Reason : Type 0 where
  no_slash two_slashes period_after_slash not_ascii invalid_character ends_with_slash : Reason

pub data Validity : Type 0 where
  valid_key_result : Validity
  why_invalid : Reason → Validity

-- The loop of `gconf_valid_key`.
unfoldable pub valid_key_loop : Bytes → Bool → Validity
valid_key_loop [] true = why_invalid ends_with_slash
valid_key_loop [] false = valid_key_result
valid_key_loop (c ∷ s) just_saw_slash =
    let after_slash = valid_key_loop s true in
    let after_char = valid_key_loop s false in
    if just_saw_slash && c == slash
    then why_invalid two_slashes
    else if just_saw_slash && c == dot
    then why_invalid period_after_slash
    else if c == slash
    then after_slash
    else if ltb 127 c
    then why_invalid not_ascii
    else if is_invalid_char c
    then why_invalid invalid_character
    else after_char

unfoldable pub valid_key : Bytes → Validity
valid_key [] = why_invalid no_slash
valid_key (c ∷ []) = if c == slash then valid_key_result else why_invalid no_slash
valid_key (c ∷ d ∷ s) =
    if c == slash then valid_key_loop (c ∷ d ∷ s) false else why_invalid no_slash

-- The bytes that `gconf_escape_key` writes by number. `strchr (invalid_chars, 0)` finds the NUL.
unfoldable pub needs_escape : ℕ → Bool
needs_escape c =
    c == slash || (c == dot || (c == at_sign || (ltb 127 c || (c == 0 || is_invalid_char c))))

unfoldable pub escape_key : Bytes → Bytes
escape_key [] = []
escape_key (c ∷ s) =
    if needs_escape c then at_sign ∷ put_nat c (at_sign ∷ escape_key s) else c ∷ escape_key s

abbrev ulong_max : ℕ
ulong_max = 18446744073709551615

-- `(guchar) n` of an `unsigned long` that `strtoul` returns for the digits `n`.
abbrev to_guchar : Bool → ℕ → ℕ
to_guchar negative n =
    if ltb ulong_max n then 255 else if negative then (256 - n % 256) % 256 else n % 256

-- `strtoul (start, &end, 10)` as a `guchar`, `none` where nothing is converted.
strtoul_digits : Bool → Bytes → Option ℕ
unfolding is_digit scan_digits
strtoul_digits negative [] = none
strtoul_digits negative (c ∷ s) =
    if is_digit c then some (to_guchar negative (scan_digits (c ∷ s) 0).0) else none

strtoul_sign : Bytes → Option ℕ
unfolding strtoul_digits
strtoul_sign [] = none
strtoul_sign (c ∷ s) =
    if c == b'-'
    then strtoul_digits true s
    else if c == b'+'
    then strtoul_digits false s
    else strtoul_digits false (c ∷ s)

unfoldable pub strtoul_guchar : Bytes → Option ℕ
unfolding is_space strtoul_sign
strtoul_guchar [] = none
strtoul_guchar (c ∷ s) = if is_space c then strtoul_guchar s else strtoul_sign (c ∷ s)

abbrev pub push_val : Option ℕ → Bytes → Bytes
push_val none rest = rest
push_val (some val) rest = val ∷ rest

-- The loop of `gconf_unescape_key`; the second argument is `start_seq`.
unfoldable pub unescape_loop : Bytes → Option Bytes → Bytes
unescape_loop [] start_seq = []
unescape_loop (c ∷ s) none =
    let sequence = unescape_loop s (some s) in
    let copied = c ∷ unescape_loop s none in if c == at_sign then sequence else copied
unescape_loop (c ∷ s) (some start_seq) =
    let rest = unescape_loop s none in
    let more = unescape_loop s (some start_seq) in
    if c == at_sign then push_val (strtoul_guchar start_seq) rest else more

unfoldable pub unescape_key : Bytes → Bytes
unfolding unescape_loop
unescape_key s = unescape_loop s none

-- `strncmp (below, above, strlen (above)) == 0`, and the tests on `below[len]`.
unfoldable pub below_prefix : Bytes → Bytes → Bool
below_prefix [] [] = true
below_prefix [] (d ∷ below) = d == slash
below_prefix (c ∷ above) [] = false
below_prefix (c ∷ above) (d ∷ below) = c == d && below_prefix above below

unfoldable pub is_root : Bytes → Bool
is_root [] = false
is_root (c ∷ []) = c == slash
is_root (c ∷ d ∷ s) = false

unfoldable pub key_is_below : Bytes → Bytes → Bool
unfolding is_root
key_is_below above below = if is_root above then true else below_prefix above below

-- dir[strlen (dir) - 1] == '/'
unfoldable pub ends_with_slash? : Bytes → Bool
ends_with_slash? [] = false
ends_with_slash? (c ∷ []) = c == slash
ends_with_slash? (c ∷ d ∷ s) = ends_with_slash? (d ∷ s)

abbrev pub skip_slash : Bytes → Bytes
skip_slash [] = []
skip_slash (c ∷ s) = if c == slash then s else c ∷ s

-- `none` is NULL, which is returned for a directory that does not begin with a slash.
unfoldable pub concat_dir_and_key : Bytes → Bytes → Option Bytes
unfolding ends_with_slash?
concat_dir_and_key dir key =
    if begins dir slash
    then some (
        if ends_with_slash? dir
        then dir ++ skip_slash key
        else if begins key slash
        then dir ++ key
        else dir ++ slash ∷ key)
    else none

-- `strrchr (key, '/')`: what stands before the last slash and what stands behind it.
unfoldable pub split_last_slash : Bytes → Option (Bytes × Bytes)
split_last_slash [] = none
split_last_slash (c ∷ s) = elim (split_last_slash s) [
  | some (before, behind) ↦ some (c ∷ before, behind)
  | none ↦ if c == slash then some ([], s) else none
]

abbrev pub directory_before : Bytes → Bytes
directory_before [] = slash ∷ []
directory_before (c ∷ s) = c ∷ s

-- `gconf_key_directory`, `none` for NULL, and `gconf_key_key`, `none` where it is undefined.
unfoldable pub key_directory : Bytes → Option Bytes
key_directory key = elim (split_last_slash key) [
  | none ↦ none
  | some (before, behind) ↦ some (directory_before before)
]

unfoldable pub key_key : Bytes → Option Bytes
key_key key = elim (split_last_slash key) [ none ↦ none | some (before, behind) ↦ some behind ]
