-- ===== src/ValueText/Lists.antt =====
-- `gconf_value_new_list_from_string`.
use gconf_dbus.Prelude.{ℕ, Bool, true, false, not, ◌&&◌, ◌||◌, [], ◌∷◌, ◌++◌, ◌==◌, if◌then◌else◌}
use gconf_dbus.CString.{Bytes, begins}
use gconf_dbus.Platform.{Platform}
use gconf_dbus.Value.{GConfValueType, Values, nil, cons, list, pair, list_value}
use gconf_dbus.Encoding.Decode.{set_list, set_list_type}
use gconf_dbus.ValueText.Primitive.{
  Parsed, parsed, failed, refused, stopped, list_start, list_end, extra_bracket,
  trailing_characters, invalid_utf8, new_from_string,
}

-- str[strlen (str) - 1] == c
abbrev pub ends_with : Bytes → ℕ → Bool
ends_with [] c = false
ends_with (d ∷ []) c = d == c
ends_with (d ∷ e ∷ s) c = ends_with (e ∷ s) c

-- strstr (str, "[]") != NULL
unfoldable pub has_brackets : Bytes → Bool
has_brackets [] = false
has_brackets (c ∷ []) = false
has_brackets (c ∷ d ∷ s) = (c == b'[' && d == b']') || has_brackets (d ∷ s)

-- g_slist_reverse
abbrev pub reverse_onto : Values → Values → Values
reverse_onto nil ys = ys
reverse_onto (cons v xs) ys = reverse_onto xs (cons v ys)

abbrev pub is_nul : Bytes → Bool
is_nul [] = true
is_nul (c ∷ s) = false

-- The elements, newest first, or the end of the loop by an error.
pub data Elements : Type 0 where
  elements : Values → Elements
  ended : Parsed → Elements

-- Behind a separator `c`: the value read so far, and the check for a bracket inside the list.
unfoldable pub list_element : (Values → Elements) → ℕ → Bytes → Values → Parsed → Elements
list_element more c s xs (parsed v) =
    if c == b']' && not (is_nul s) then ended (failed extra_bracket) else more (cons v xs)
list_element more c s xs (failed e) = ended (failed e)
list_element more c s xs refused = ended refused
list_element more c s xs stopped = ended stopped

-- The loop from `str[1]` on. A pending character behind the last separator is an error.
unfoldable pub list_loop :
    Platform → GConfValueType → Bytes → Bool → Bool → Bytes → Values → Elements
list_loop p t [] escaped pending_chars str xs =
    if pending_chars then ended (failed trailing_characters) else elements xs
list_loop p t (c ∷ s) escaped pending_chars str xs =
    let element =
      list_element (list_loop p t s escaped false []) c s xs (new_from_string p t str) in
    let escape = list_loop p t s true true str xs in
    let append = list_loop p t s false true (str ++ c ∷ []) xs in
    if not escaped && (c == b',' || c == b']')
    then element
    else if not escaped && c == b'\\'
    then escape
    else append

-- &str[1]
abbrev pub behind_first : Bytes → Bytes
behind_first [] = []
behind_first (c ∷ s) = s

abbrev pub list_result : GConfValueType → Elements → Parsed
list_result t (elements xs) = parsed (set_list (set_list_type t) (reverse_onto xs nil))
list_result t (ended r) = r

abbrev pub is_container : GConfValueType → Bool
is_container list = true
is_container pair = true
is_container _ = false

unfoldable pub new_list_from_string : Platform → GConfValueType → Bytes → Parsed
new_list_from_string p t str =
    if is_container t
    then refused
    else if not (p.utf8_validate str)
    then failed invalid_utf8
    else if not (begins str b'[')
    then failed list_start
    else if not (ends_with str b']')
    then failed list_end
    else if has_brackets str
    then parsed (list_value (set_list_type t) nil)
    else list_result t (list_loop p t (behind_first str) false false [] nil)
