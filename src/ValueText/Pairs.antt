-- ===== src/ValueText/Pairs.antt =====
-- `gconf_value_new_pair_from_string`.
use gconf_dbus.Prelude.{
  ℕ, ◌+◌, Bool, true, false, not, ◌&&◌, ◌||◌, [], ◌∷◌, ◌++◌, ◌==◌, ltb, if◌then◌else◌,
}
use gconf_dbus.CString.{Bytes, begins}
use gconf_dbus.Platform.{Platform}
use gconf_dbus.Value.{GConfValueType, GConfValue, MaybeValue, null, just, pair_value}
use gconf_dbus.ValueText.Primitive.{
  Parsed, parsed, failed, refused, stopped, pair_start, pair_end, wrong_number, extra_parenthesis,
  trailing_characters, invalid_utf8, new_from_string,
}
use gconf_dbus.ValueText.Lists.{ends_with, is_nul, behind_first, is_container}

-- The count of elements, and `car` and `cdr`.
pub record Elems : Type 0 where
  pub elem : ℕ
  pub car : MaybeValue
  pub cdr : MaybeValue

pub data PairElements : Type 0 where
  elements : Elems → PairElements
  ended : Parsed → PairElements

-- The first value is the car, the second the cdr.
abbrev pub set_elem : Elems → GConfValue → Elems
set_elem e v =
    if e.elem == 0
    then record { elem = e.elem + 1; car = just v; cdr = e.cdr }
    else record { elem = e.elem + 1; car = e.car; cdr = just v }

unfoldable pub pair_element : (Elems → PairElements) → ℕ → Bytes → Elems → Parsed → PairElements
pair_element more c s e (parsed v) =
    if c == b')' && not (is_nul s) then ended (failed extra_parenthesis) else more (set_elem e v)
pair_element more c s e (failed x) = ended (failed x)
pair_element more c s e refused = ended refused
pair_element more c s e stopped = ended stopped

-- The loop from `str[1]` on, for the types `t` of the car and `u` of the cdr.
unfoldable pub pair_loop :
    Platform → GConfValueType → GConfValueType → Bytes → Bool → Bool → Bytes → Elems → PairElements
pair_loop p t u [] escaped pending_chars str e =
    if pending_chars
    then ended (failed trailing_characters)
    else if not (e.elem == 2)
    then ended (failed wrong_number)
    else elements e
pair_loop p t u (c ∷ s) escaped pending_chars str e =
    let element =
      pair_element (pair_loop p t u s escaped false []) c s e
        (new_from_string p (if e.elem == 0 then t else u) str) in
    let escape = pair_loop p t u s true true str e in
    let append = pair_loop p t u s false true (str ++ c ∷ []) e in
    if not escaped && (c == b',' || c == b')')
    then (if (c == b')' && not (e.elem == 1)) || ltb 1 e.elem
        then ended (failed wrong_number)
        else element)
    else if not escaped && c == b'\\'
    then escape
    else append

abbrev pub pair_result : PairElements → Parsed
pair_result (elements e) = parsed (pair_value e.car e.cdr)
pair_result (ended r) = r

abbrev pub no_elems : Elems
no_elems = record { elem = 0; car = null; cdr = null }

unfoldable pub new_pair_from_string : Platform → GConfValueType → GConfValueType → Bytes → Parsed
new_pair_from_string p t u str =
    if is_container t || is_container u
    then refused
    else if not (p.utf8_validate str)
    then failed invalid_utf8
    else if not (begins str b'(')
    then failed pair_start
    else if not (ends_with str b')')
    then failed pair_end
    else pair_result (pair_loop p t u (behind_first str) false false [] no_elems)
