-- ===== src/CString/Decimal.antt =====
-- The C library's `%d`, and `strtol` in base 10 and `atoi`, for a `long` of 64 bits.
use gconf_dbus.Prelude.{
  ℕ, zero, suc, ◌+◌, ◌-◌, ◌*◌, ◌/◌, ◌%◌, ◌≤◌, ◌<◌, ◌≡◌, refl, ◌∙◌, ap, Bool, true, false, ◌&&◌,
  ◌||◌, [], ◌∷◌, ◌++◌, arith, ltb, leb, ◌==◌, if◌then◌else◌, ℤ, pos, negsuc, neg, IsInt32, to_int32,
  to_int32-eq_self, All, Bool-cases, inl, inr,
}
use gconf_dbus.CString.Strings.{Bytes, codes}

unfoldable pub is_space : ℕ → Bool
is_space c = c == 32 || (leb 9 c && leb c 13)

unfoldable pub is_digit : ℕ → Bool
is_digit c = leb 48 c && leb c 57

-- The digits of `n`, put before `rest`; the first argument is fuel above `n`.
put_loop : ℕ → ℕ → Bytes → Bytes
put_loop zero n rest = rest
put_loop (suc f) n rest =
    let more = put_loop f (n / 10) ((48 + n % 10) ∷ rest) in
    if ltb n 10 then (48 + n) ∷ rest else more

unfoldable pub put_nat : ℕ → Bytes → Bytes
unfolding put_loop
put_nat n rest = put_loop (suc n) n rest

-- `%d`
unfoldable pub format_d : ℤ → Bytes
format_d (pos n) = put_nat n []
format_d (negsuc n) = b'-' ∷ put_nat (suc n) []

-- The value of the leading digits after those that `acc` stands for, and what follows them.
unfoldable pub scan_digits : Bytes → ℕ → ℕ × Bytes
unfolding is_digit
scan_digits [] acc = (acc, [])
scan_digits (c ∷ s) acc =
    let more = scan_digits s (acc * 10 + (c - 48)) in if is_digit c then more else (acc, c ∷ s)

abbrev pub long_max : ℕ
long_max = 9223372036854775807

-- The returned number, whether `errno` is `ERANGE`, and where `endptr` points, `none` for the start
-- of the string, where it is when there were no digits.
pub record Strtol : Type 0 where
  pub value : ℤ
  pub out_of_range : Bool
  pub end_ptr : Bytes
  pub converted : Bool

abbrev digits_value : Bool → ℕ → Bytes → Strtol
digits_value false n rest =
    if leb n long_max
    then record { value = pos n; out_of_range = false; end_ptr = rest; converted = true }
    else record { value = pos long_max; out_of_range = true; end_ptr = rest; converted = true }
digits_value true n rest =
    if leb n (long_max + 1)
    then record { value = neg n; out_of_range = false; end_ptr = rest; converted = true }
    else record { value = negsuc long_max; out_of_range = true; end_ptr = rest; converted = true }

-- After the sign; `negative` says which.
unfoldable pub strtol_digits : Bytes → Bool → Bytes → Strtol
unfolding scan_digits is_digit
strtol_digits str negative [] = record {
  value = pos 0;
  out_of_range = false;
  end_ptr = str;
  converted = false;
}
strtol_digits str negative (c ∷ s) =
    if is_digit c
    then digits_value negative (scan_digits (c ∷ s) 0).0 (scan_digits (c ∷ s) 0).1
    else record { value = pos 0; out_of_range = false; end_ptr = str; converted = false }

unfoldable pub strtol_sign : Bytes → Bytes → Strtol
unfolding strtol_digits
strtol_sign str [] = strtol_digits str false []
strtol_sign str (c ∷ s) =
    if c == b'-'
    then strtol_digits str true s
    else if c == b'+'
    then strtol_digits str false s
    else strtol_digits str false (c ∷ s)

skip_space : Bytes → Bytes
unfolding is_space
skip_space [] = []
skip_space (c ∷ s) = if is_space c then skip_space s else c ∷ s

unfoldable pub strtol : Bytes → Strtol
unfolding skip_space strtol_sign
strtol str = strtol_sign str (skip_space str)

-- `(int) strtol (str, NULL, 10)`
unfoldable pub atoi : Bytes → ℤ
unfolding strtol
atoi str = to_int32 (strtol str).value

-- What `put_nat` writes is digits.
put_loop-digits :
    (f n : ℕ) (rest : Bytes)
    → n < f
    → All (λ c. is_digit c ≡ true) rest
    → All (λ c. is_digit c ≡ true) (put_loop f n rest)
unfolding put_loop is_digit
put_loop-digits zero n rest h d = elim h [ ]
put_loop-digits (suc f) n rest h d = elim (Bool-cases (ltb n 10)) [
  | inl e ↦ rw e (ground arith, d)
  | inr e ↦ rw e (put_loop-digits f (n / 10) _ (ground arith) (ground arith, d))
]

pub put_nat-digits : (n : ℕ) → All (λ c. is_digit c ≡ true) (put_nat n [])
unfolding put_nat
put_nat-digits n = put_loop-digits (suc n) n [] (omega arith) tt

-- What `%d` writes is ASCII.
digits-ascii : (s : Bytes) → All (λ c. is_digit c ≡ true) s → All (λ c. c < 128) s
digits-ascii [] h = tt
digits-ascii (c ∷ s) h = (unfold is_digit in ground (arith, h.0), digits-ascii s h.1)

pub put_nat-ascii : (n : ℕ) → All (λ c. c < 128) (put_nat n [])
put_nat-ascii n = digits-ascii (put_nat n []) (put_nat-digits n)

pub format_d-ascii : (z : ℤ) → All (λ c. c < 128) (format_d z)
unfolding format_d
format_d-ascii (pos n) = put_nat-ascii n
format_d-ascii (negsuc n) = (omega arith, put_nat-ascii (suc n))

put_loop-append : (f n : ℕ) (s rest : Bytes) → put_loop f n (s ++ rest) ≡ put_loop f n s ++ rest
unfolding put_loop
put_loop-append zero n s rest = refl
put_loop-append (suc f) n s rest = elim (Bool-cases (ltb n 10)) [
  | inl e ↦ rw e
  | inr e ↦ rw e (put_loop-append f (n / 10) ((48 + n % 10) ∷ s) rest)
]

pub put_nat-append : (n : ℕ) (rest : Bytes) → put_nat n rest ≡ put_nat n [] ++ rest
unfolding put_nat
put_nat-append n rest = put_loop-append (suc n) n [] rest

-- It begins with a digit.
put_loop-cons :
    (f n : ℕ) (rest : Bytes)
    → n < f
    → (c : ℕ) × (t : Bytes) × (put_loop f n rest ≡ c ∷ t) × (is_digit c ≡ true)
unfolding put_loop is_digit
put_loop-cons zero n rest h = elim h [ ]
put_loop-cons (suc f) n rest h = elim (Bool-cases (ltb n 10)) [
  | inl e ↦ rw e (48 + n, rest, refl, ground arith)
  | inr e ↦ rw e (put_loop-cons f (n / 10) ((48 + n % 10) ∷ rest) (ground arith))
]

scan_digits-put_loop :
    (f n : ℕ) (rest : Bytes) → n < f → scan_digits (put_loop f n rest) 0 ≡ scan_digits rest n
unfolding put_loop scan_digits
scan_digits-put_loop zero n rest h = elim h [ ]
scan_digits-put_loop (suc f) n rest h =
    ground (arith, scan_digits-put_loop f (n / 10) ((48 + n % 10) ∷ rest))

pub scan_digits-put_nat :
    (n : ℕ) (rest : Bytes) → scan_digits (put_nat n rest) 0 ≡ scan_digits rest n
unfolding put_nat
scan_digits-put_nat n rest = scan_digits-put_loop (suc n) n rest (omega arith)

scan_digits-put_nat_nil : (n : ℕ) → scan_digits (put_nat n []) 0 ≡ (n, [])
unfolding scan_digits
scan_digits-put_nat_nil n = scan_digits-put_nat n []

pub put_nat-cons :
    (n : ℕ) (rest : Bytes) → (c : ℕ) × (t : Bytes) × (put_nat n rest ≡ c ∷ t) × (is_digit c ≡ true)
unfolding put_nat
put_nat-cons n rest = put_loop-cons (suc n) n rest (omega arith)

module _ (c : ℕ) (t : Bytes) (digit : is_digit c ≡ true) where
  strtol-digit :
      strtol (c ∷ t) ≡ digits_value false (scan_digits (c ∷ t) 0).0 (scan_digits (c ∷ t) 0).1
  unfolding strtol
  strtol-digit =
      let s : is_space c ≡ false = unfold is_space is_digit in ground arith in
      let m : (c == b'-') ≡ false = unfold is_digit in ground arith in
      let p : (c == b'+') ≡ false = unfold is_digit in ground arith in rw (s, m, p, digit)

  strtol-minus_digit :
      strtol (b'-' ∷ c ∷ t) ≡ digits_value true (scan_digits (c ∷ t) 0).0 (scan_digits (c ∷ t) 0).1
  unfolding strtol
  strtol-minus_digit = rw digit

strtol-put_nat : (n : ℕ) → strtol (put_nat n []) ≡ digits_value false n []
strtol-put_nat n =
    let (c, t, e, d) = put_nat-cons n [] in
    let scanned : scan_digits (c ∷ t) 0 ≡ (n, []) = rw e at (scan_digits-put_nat_nil n) in
    rw e (strtol-digit c t d ∙ ap (λ (r : ℕ × Bytes). digits_value false r.0 r.1) scanned)

strtol-minus_put_nat : (n : ℕ) → strtol (b'-' ∷ put_nat n []) ≡ digits_value true n []
strtol-minus_put_nat n =
    let (c, t, e, d) = put_nat-cons n [] in
    let scanned : scan_digits (c ∷ t) 0 ≡ (n, []) = rw e at (scan_digits-put_nat_nil n) in
    rw e (strtol-minus_digit c t d ∙ ap (λ (r : ℕ × Bytes). digits_value true r.0 r.1) scanned)

-- The values of a `long` of 64 bits.
abbrev pub IsLong : ℤ → Type 0
IsLong (pos n) = n ≤ long_max
IsLong (negsuc n) = n ≤ long_max

-- `strtol` reads back the whole of what `%d` or `%ld` writes.
pub strtol-format_d :
    (z : ℤ)
    → IsLong z
    → strtol (format_d z)
      ≡ record { value = z; out_of_range = false; end_ptr = []; converted = true }
unfolding format_d
strtol-format_d (pos n) h = strtol-put_nat n ∙ ground arith
strtol-format_d (negsuc n) h = strtol-minus_put_nat (suc n) ∙ ground arith

pub atoi-format_d : (z : ℤ) → IsInt32 z → atoi (format_d z) ≡ z
unfolding atoi
atoi-format_d (pos n) h =
    ap (λ (r : Strtol). to_int32 r.value) (strtol-format_d (pos n) (omega arith))
    ∙ to_int32-eq_self (pos n) h
atoi-format_d (negsuc n) h =
    ap (λ (r : Strtol). to_int32 r.value) (strtol-format_d (negsuc n) (omega arith))
    ∙ to_int32-eq_self (negsuc n) h

test_d : format_d (negsuc 120) ≡ codes "-121"
unfolding format_d put_nat
test_d = refl

test_strtol : (strtol (codes " +42abc")).value ≡ pos 42
unfolding strtol
test_strtol = refl
