-- ===== src/Quote/RoundTrip.antt =====
-- `gconf_unquote_string` undoes `gconf_quote_string`, and what it returns is bounded.
use gconf_dbus.Prelude.{
  ℕ, ◌+◌, ◌≤◌, ◌<◌, ◌≡◌, refl, ◌∙◌, Bool, true, false, [], ◌∷◌, ◌++◌, ◌==◌, append_assoc,
  append-nil, arith, length, length-append, inl, inr, Bool-cases, ==_iff, ◌⊎◌, ◌&&◌, sym, ap,
}
use gconf_dbus.CString.{Bytes, begins}
use gconf_dbus.Platform.{Platform, IsUtf8, utf8-cons_ascii}
use gconf_dbus.Quote.{
  quote_mark, backslash, quote_loop, quote_string, Unquoted, unquote_loop, unquote_string,
}

-- A plain byte is copied.
unquote_loop-plain :
    (c : ℕ) (s out : Bytes)
    → (c == quote_mark) ≡ false
    → (c == backslash) ≡ false
    → unquote_loop (c ∷ s) out ≡ unquote_loop s (out ++ c ∷ [])
unfolding unquote_loop
unquote_loop-plain c [] out q b = rw q
unquote_loop-plain c (d ∷ s) out q b = rw (q, b)

unquote_loop-close :
    (rest out : Bytes)
    → unquote_loop (quote_mark ∷ rest) out ≡ record { text = out; rest = rest; closed = true }
unfolding unquote_loop
unquote_loop-close [] out = refl
unquote_loop-close (d ∷ s) out = refl

-- An escaped mark or backslash is copied without its backslash.
unquote_loop-escaped :
    (d : ℕ) (s out : Bytes)
    → (d ≡ quote_mark) ⊎ (d ≡ backslash)
    → unquote_loop (backslash ∷ d ∷ s) out ≡ unquote_loop s (out ++ d ∷ [])
unfolding unquote_loop
unquote_loop-escaped d s out (inl e) = rw e
unquote_loop-escaped d s out (inr e) = rw e

unquoted-append :
    (c : ℕ) (s rest out : Bytes) (r : Unquoted)
    → r ≡ record { text = (out ++ c ∷ []) ++ s; rest = rest; closed = true }
    → r ≡ record { text = out ++ c ∷ s; rest = rest; closed = true }
unquoted-append c s rest out r e = e ∙ rw append_assoc

unquote_loop-quote_loop :
    (s rest out : Bytes)
    → unquote_loop (quote_loop s ++ rest) out
      ≡ record { text = out ++ s; rest = rest; closed = true }
unfolding quote_loop
unquote_loop-quote_loop [] rest out = unquote_loop-close rest out ∙ rw append-nil
unquote_loop-quote_loop (c ∷ s) rest out =
    unquoted-append c s rest out _ (elim (Bool-cases (c == quote_mark)) [
      | inl q ↦ rw q (
          rw ((==_iff c quote_mark).0 q) (
            unquote_loop-escaped quote_mark (quote_loop s ++ rest) out (inl refl)
            ∙ unquote_loop-quote_loop s rest (out ++ quote_mark ∷ [])))
      | inr q ↦ elim (Bool-cases (c == backslash)) [
        | inl b ↦
            rw (q, b)
              (rw ((==_iff c backslash).0 b) (
                unquote_loop-escaped backslash (quote_loop s ++ rest) out (inr refl)
                ∙ unquote_loop-quote_loop s rest (out ++ backslash ∷ [])))
        | inr b ↦
            rw (q, b)
              (unquote_loop-plain c (quote_loop s ++ rest) out q b
                ∙ unquote_loop-quote_loop s rest (out ++ c ∷ []))
      ]
    ])

-- Whatever follows it, a quoted text is read back whole, and the rest is left.
pub unquote_string-quote_string :
    (s rest : Bytes)
    → unquote_string (quote_string s ++ rest) ≡ record { text = s; rest = rest; closed = true }
unfolding unquote_string quote_string
unquote_string-quote_string s rest = unquote_loop-quote_loop s rest []

begins-quote_string : (s : Bytes) → begins (quote_string s ++ []) quote_mark ≡ true
unfolding quote_string
begins-quote_string s = refl

length-unquote_loop :
    (s out : Bytes)
    → length (unquote_loop s out).text + length (unquote_loop s out).rest ≤ length out + length s
unfolding unquote_loop
length-unquote_loop [] out = omega arith
length-unquote_loop (c ∷ []) out = ground (arith, length-append out (c ∷ []))
length-unquote_loop (c ∷ d ∷ s) out = ground (
  arith,
  length-append out (c ∷ []),
  length-append out (d ∷ []),
  length-unquote_loop s (out ++ d ∷ []),
  length-unquote_loop (d ∷ s) (out ++ c ∷ []),
)

-- The loop's assertion `s > dest`: the text and what is left are shorter than a quoted string.
pub length-unquote_string :
    (s : Bytes)
    → begins s quote_mark ≡ true
    → length (unquote_string s).text + length (unquote_string s).rest < length s
unfolding unquote_string
length-unquote_string [] h = cc
length-unquote_string (c ∷ s) h = rw h (omega (arith, length-unquote_loop s []))

-- Neither the text nor what is left is longer than the string, also where the text is not quoted.
pub unquote_string-le :
    (s : Bytes)
    → (length (unquote_string s).text ≤ length s) × (length (unquote_string s).rest ≤ length s)
unfolding unquote_string
unquote_string-le [] = (omega arith, omega arith)
unquote_string-le (c ∷ s) = elim (Bool-cases (c == quote_mark)) [
  | inl q ↦ rw q (omega (arith, length-unquote_loop s []), omega (arith, length-unquote_loop s []))
  | inr q ↦ rw q (omega arith, omega arith)
]

-- A quoted text is longer than the text.
pub length-lt-quote_string : (s : Bytes) → length s < length (quote_string s)
length-lt-quote_string s = omega (
  arith,
  ap length (ap Unquoted.text (unquote_string-quote_string s [])),
  length-append (quote_string s) [],
  length-unquote_string (quote_string s ++ []) (begins-quote_string s),
)

and_true : (b : Bool) → (b && true) ≡ b
and_true b = ground arith

and_assoc : (a b c : Bool) → (a && (b && c)) ≡ (a && b && c)
and_assoc a b c = ground arith

module _ (p : Platform) (u : IsUtf8 p) where
  -- An ASCII byte may stand before another.
  pub utf8-escape :
      (pre : Bytes) (c : ℕ) (s t b : Bytes)
      → c < 128
      → p.utf8_validate t ≡ (p.utf8_validate s && p.utf8_validate b)
      → p.utf8_validate (pre ++ backslash ∷ c ∷ t)
        ≡ (p.utf8_validate (pre ++ c ∷ s) && p.utf8_validate b)
  utf8-escape pre c s t b h e =
      u.ascii pre backslash (c ∷ t) (omega arith)
      ∙ ap (λ x. p.utf8_validate pre && x) (utf8-cons_ascii p u c t h ∙ e)
      ∙ and_assoc (p.utf8_validate pre) (p.utf8_validate s) (p.utf8_validate b)
      ∙ ap (λ x. x && p.utf8_validate b) (sym (u.ascii pre c s h))

  quote_loop-utf8 :
      (s pre b : Bytes)
      → p.utf8_validate (pre ++ (quote_loop s ++ b))
        ≡ (p.utf8_validate (pre ++ s) && p.utf8_validate b)
  unfolding quote_loop
  quote_loop-utf8 [] pre b =
      u.ascii pre quote_mark b (omega arith)
      ∙ ap (λ t. p.utf8_validate t && p.utf8_validate b) (sym (append-nil pre))
  quote_loop-utf8 (c ∷ s) pre b = elim (Bool-cases (c == quote_mark)) [
    | inl q ↦
        let e : c ≡ quote_mark = (==_iff c quote_mark).0 q in
        rw q (
          rw (← e)
            (utf8-escape pre c s (quote_loop s ++ b) b (omega arith) (quote_loop-utf8 s [] b)))
    | inr q ↦ elim (Bool-cases (c == backslash)) [
      | inl e ↦
          rw (q, e)
            (rw ((==_iff c backslash).0 e) (
              utf8-escape pre backslash s (quote_loop s ++ b) b (omega arith)
                (quote_loop-utf8 s [] b)))
      | inr e ↦
          rw (q, e)
            (ap p.utf8_validate (sym (append_assoc pre (c ∷ []) (quote_loop s ++ b)))
              ∙ quote_loop-utf8 s (pre ++ c ∷ []) b
              ∙ ap (λ t. p.utf8_validate t && p.utf8_validate b) (append_assoc pre (c ∷ []) s))
    ]
  ]

  -- A quoted text is valid UTF-8 exactly when the text is, whatever follows.
  pub utf8-quote_string-append :
      (s b : Bytes)
      → p.utf8_validate (quote_string s ++ b) ≡ (p.utf8_validate s && p.utf8_validate b)
  unfolding quote_string
  utf8-quote_string-append s b =
      utf8-cons_ascii p u quote_mark (quote_loop s ++ b) (omega arith) ∙ quote_loop-utf8 s [] b

  pub utf8-quote_string : (s : Bytes) → p.utf8_validate (quote_string s) ≡ p.utf8_validate s
  utf8-quote_string s =
      ap p.utf8_validate (sym (append-nil (quote_string s)))
      ∙ utf8-quote_string-append s []
      ∙ ap (λ x. p.utf8_validate s && x) u.empty
      ∙ and_true (p.utf8_validate s)
