-- ===== src/ValueText/Tests.antt =====
-- Values that the theorems are applied to, and runs of the functions.
use gconf_dbus.Prelude.{ℕ, ◌+◌, ◌≡◌, refl, none, some, List, [], ◌∷◌, arith, if◌then◌else◌}
use gconf_dbus.CString.{codes}
use gconf_dbus.Platform.Ascii.{ascii_platform, ascii_platform-IsUtf8}
use gconf_dbus.Value.{GConfValue, string, string_value, list_value, nil, cons}
use gconf_dbus.ValueText.Primitive.{parsed, failed, extra_bracket, new_from_string}
use gconf_dbus.ValueText.Escapes.{escape_string}
use gconf_dbus.ValueText.Print.{to_string}
use gconf_dbus.ValueText.Lists.{has_brackets, new_list_from_string, list_loop, list_element}
use gconf_dbus.ValueText.ListRoundTrip.{new_list_from_string-to_string}
use gconf_dbus.ValueText.Buffer.{
  Buffer, start, total, grow, add_element, put_element, add_elements, HasRoom, add_elements-fits,
}

abbrev text : GConfValue
text = string_value (some (codes "a,b]\\"))

abbrev list_of_two : GConfValue
list_of_two = list_value string (cons text (cons text nil))

print_list : to_string ascii_platform list_of_two ≡ some (codes "[a\\,b\\]\\\\,a\\,b\\]\\\\]")
unfolding to_string escape_string
print_list = refl

bracket_refused : new_list_from_string ascii_platform string (codes "[a]b]") ≡ failed extra_bracket
unfolding new_list_from_string has_brackets list_loop list_element new_from_string
bracket_refused = refl

new_list_from_string-to_string_example :
    (t : List ℕ) × (to_string ascii_platform list_of_two ≡ some t)
    × (new_list_from_string ascii_platform string t
        ≡ parsed (if has_brackets t then list_value string nil else list_of_two))
new_list_from_string-to_string_example =
    new_list_from_string-to_string ascii_platform ascii_platform-IsUtf8 string text (cons text nil)
      (refl, (refl, tt))

add_elements-fits_example :
    (b' : Buffer) × (add_elements start (60 ∷ 200 ∷ []) ≡ some b')
    × HasRoom b'
    × (b'.cur ≡ 1 + total (60 ∷ 200 ∷ []))
add_elements-fits_example =
    add_elements-fits start (60 ∷ 200 ∷ [])
      (record { inside = omega arith; block_fits = omega arith }) (omega arith)

-- A text of 4 GiB less one byte: the sum of the test for room wraps to 2, the block is not grown, and
-- the text is written behind its end.
overrun : add_element start 4294967295 ≡ none
unfolding add_element grow put_element
overrun = refl

-- Twice the size of a buffer of 2 GiB wraps to 0, and the other size is taken.
doubled : (grow (record { bufsize = 2147483648; cur = 2147483647 }) 5).bufsize ≡ 2147483657
unfolding grow
doubled = refl
