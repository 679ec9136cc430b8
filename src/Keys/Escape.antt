-- ===== src/Keys/Escape.antt =====
-- `gconf_escape_key` makes a component of a key of any text, and `gconf_unescape_key` undoes it.
use gconf_dbus.Prelude.{
  ℕ, ◌<◌, ◌≡◌, refl, ◌∙◌, ap, sym, ◌≢◌, inl, inr, true, false, Option, none, some, [], ◌∷◌, ◌++◌,
  All, All-append, append-nil, arith, ◌==◌, Bool-cases,
}
use gconf_dbus.CString.{
  Bytes, put_nat, put_nat-digits, put_nat-append, put_nat-cons, is_digit, is_space, scan_digits,
  scan_digits-put_nat,
}
use gconf_dbus.Keys.{
  slash, dot, at_sign, is_invalid_char, valid_key_result, valid_key, needs_escape, escape_key,
  strtoul_guchar, to_guchar, push_val, unescape_loop, unescape_key,
}
use gconf_dbus.Keys.Valid.{IsKeyChar, IsComponent, valid_key_iff}

digit-IsKeyChar : (c : ℕ) → is_digit c ≡ true → IsKeyChar c
unfolding is_digit is_invalid_char
digit-IsKeyChar c d = ground arith

digit-ne-dot : (c : ℕ) → is_digit c ≡ true → c ≢ dot
unfolding is_digit
digit-ne-dot c d = ground arith

at_sign-IsKeyChar : IsKeyChar at_sign
unfolding is_invalid_char
at_sign-IsKeyChar = record { no_slash = refl; ascii = omega arith; allowed = refl }

-- A byte that is not escaped may begin a component.
unescaped-IsKeyChar : (c : ℕ) → needs_escape c ≡ false → IsKeyChar c × (c ≢ dot)
unfolding needs_escape
unescaped-IsKeyChar c h = ground arith

digits-IsKeyChar : (s : Bytes) → All (λ c. is_digit c ≡ true) s → All IsKeyChar s
digits-IsKeyChar [] h = tt
digits-IsKeyChar (c ∷ s) h = (digit-IsKeyChar c h.0, digits-IsKeyChar s h.1)

sequence-IsKeyChar : (c : ℕ) (s : Bytes) → All IsKeyChar s → All IsKeyChar (put_nat c (at_sign ∷ s))
sequence-IsKeyChar c s h = rw (put_nat-append c (at_sign ∷ s)) (
    All-append IsKeyChar (put_nat c []) (at_sign ∷ s)
      (digits-IsKeyChar (put_nat c []) (put_nat-digits c)) (at_sign-IsKeyChar, h))

escape_key-IsKeyChar : (s : Bytes) → All IsKeyChar (escape_key s)
unfolding escape_key
escape_key-IsKeyChar [] = tt
escape_key-IsKeyChar (c ∷ s) = elim (Bool-cases (needs_escape c)) [
  | inl e ↦ rw e (at_sign-IsKeyChar, sequence-IsKeyChar c (escape_key s) (escape_key-IsKeyChar s))
  | inr e ↦ rw e ((unescaped-IsKeyChar c e).0, escape_key-IsKeyChar s)
]

escape_key-IsComponent : (c : ℕ) (s : Bytes) → IsComponent (escape_key (c ∷ s))
unfolding escape_key
escape_key-IsComponent c s = elim (Bool-cases (needs_escape c)) [
  | inl e ↦ rw e (
    at_sign-IsKeyChar,
    (omega arith),
    sequence-IsKeyChar c (escape_key s) (escape_key-IsKeyChar s),
  )
  | inr e ↦ let (g, n) = unescaped-IsKeyChar c e in rw e (g, n, escape_key-IsKeyChar s)
]

-- Behind a slash, the escaped form of any text is a key that `gconf_valid_key` accepts.
pub valid_key-escape_key : (s : Bytes) → valid_key (slash ∷ escape_key s) ≡ valid_key_result
valid_key-escape_key [] = unfold escape_key valid_key in refl
valid_key-escape_key (c ∷ s) = (valid_key_iff (slash ∷ escape_key (c ∷ s))).1 (
  escape_key (c ∷ s) ∷ [],
  (escape_key-IsComponent c s, tt),
  ap (λ (t : Bytes). slash ∷ t) (sym (append-nil (escape_key (c ∷ s)))),
)

-- A sequence of digits up to the next `@` is kept as it is.
unescape_loop-digits :
    (ds s start_seq : Bytes)
    → All (λ c. is_digit c ≡ true) ds
    → unescape_loop (ds ++ at_sign ∷ s) (some start_seq)
      ≡ push_val (strtoul_guchar start_seq) (unescape_loop s none)
unfolding unescape_loop
unescape_loop-digits [] s start_seq h = refl
unescape_loop-digits (c ∷ ds) s start_seq h =
    let e : (c == at_sign) ≡ false = unfold is_digit in ground (arith, h.0) in
    rw e (unescape_loop-digits ds s start_seq h.1)

strtoul_guchar-digit :
    (c : ℕ) (t : Bytes)
    → is_digit c ≡ true
    → strtoul_guchar (c ∷ t) ≡ some (to_guchar false (scan_digits (c ∷ t) 0).0)
unfolding strtoul_guchar
strtoul_guchar-digit c t d =
    let s : is_space c ≡ false = unfold is_space is_digit in ground arith in
    let m : (c == b'-') ≡ false = unfold is_digit in ground arith in
    let p : (c == b'+') ≡ false = unfold is_digit in ground arith in rw (s, m, p, d)

scan_digits-sequence : (n : ℕ) (s : Bytes) → (scan_digits (put_nat n (at_sign ∷ s)) 0).0 ≡ n
unfolding scan_digits
scan_digits-sequence n s = ap (λ (r : ℕ × Bytes). r.0) (scan_digits-put_nat n (at_sign ∷ s))

-- `strtoul` reads the number of an escaped byte.
strtoul_guchar-sequence :
    (n : ℕ) (s : Bytes) → n < 256 → strtoul_guchar (put_nat n (at_sign ∷ s)) ≡ some n
strtoul_guchar-sequence n s h =
    let (c, t, e, d) = put_nat-cons n (at_sign ∷ s) in
    let scanned : (scan_digits (c ∷ t) 0).0 ≡ n = rw e at (scan_digits-sequence n s) in
    rw e
      (strtoul_guchar-digit c t d ∙ ap (λ (k : ℕ). some (to_guchar false k)) scanned ∙ ground arith)

unescape_loop-start : (t : Bytes) → unescape_loop (at_sign ∷ t) none ≡ unescape_loop t (some t)
unfolding unescape_loop
unescape_loop-start t = refl

unescape_loop-sequence :
    (n : ℕ) (s : Bytes)
    → n < 256
    → unescape_loop (at_sign ∷ put_nat n (at_sign ∷ s)) none ≡ n ∷ unescape_loop s none
unescape_loop-sequence n s h =
    let sequence : Bytes = put_nat n (at_sign ∷ s) in
    unescape_loop-start sequence
    ∙ ap (λ (t : Bytes). unescape_loop t (some sequence)) (put_nat-append n (at_sign ∷ s))
    ∙ unescape_loop-digits (put_nat n []) s sequence (put_nat-digits n)
    ∙ ap (λ (o : Option ℕ). push_val o (unescape_loop s none)) (strtoul_guchar-sequence n s h)

-- Unescaping undoes escaping, for every text of bytes.
pub unescape_key-escape_key : (s : Bytes) → All (λ c. c < 256) s → unescape_key (escape_key s) ≡ s
unfolding unescape_key escape_key
unescape_key-escape_key [] h = refl
unescape_key-escape_key (c ∷ s) h = elim (Bool-cases (needs_escape c)) [
  | inl e ↦ rw e (
      unescape_loop-sequence c (escape_key s) h.0
      ∙ ap (λ (t : Bytes). c ∷ t) (unescape_key-escape_key s h.1))
  | inr e ↦
      let a : (c == at_sign) ≡ false = unfold needs_escape in ground arith in
      rw (e, a) (ap (λ (t : Bytes). c ∷ t) (unescape_key-escape_key s h.1))
]
