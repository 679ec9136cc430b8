-- ===== src/Encoding/Items.antt =====
-- The loop of `gconf_value_decode` over the elements of a list.
use gconf_dbus.Prelude.{
  ℕ, zero, suc, ◌+◌, ◌≤◌, ◌<◌, ◌≡◌, refl, ◌∙◌, true, some, [], ◌∷◌, ◌++◌, length, length-append,
  arith,
}
use gconf_dbus.CString.{Bytes}
use gconf_dbus.Platform.{Platform, IsUtf8, utf8-cons_ascii}
use gconf_dbus.Quote.{quote_mark, quote_string, unquote_string}
use gconf_dbus.Quote.RoundTrip.{
  unquote_string-quote_string, length-lt-quote_string, utf8-quote_string-append,
}
use gconf_dbus.Value.{GConfValue, Values, MaybeValue, nil, cons, null, just}
use gconf_dbus.Encoding.Encode.{byte_type, encode, encode_items}
use gconf_dbus.Encoding.Decode.{Read, done, decode, items_loop, items_next, prepend}
use gconf_dbus.Encoding.Canonical.{canonical, canonical_items}

-- The encoding of a value, and that it is decoded.
pub record Decoded (p : Platform) (v : GConfValue) : Type 0 where
  pub text : Bytes
  pub encoded : encode p v ≡ some text
  pub valid : p.utf8_validate text ≡ true
  pub back : (f : ℕ) → length text < f → decode p f text ≡ done (just (canonical v))

-- The encoding of the elements of a list: behind an element the loop reads the others.
pub record DecodedItems (p : Platform) (xs : Values) : Type 0 where
  pub body : Bytes
  pub encoded : encode_items p xs ≡ some body
  pub valid : p.utf8_validate body ≡ true
  pub next :
      (f k : ℕ) (elem : MaybeValue)
      → length body ≤ suc k
      → length body ≤ f
      → items_next (items_loop (decode p f) k) elem body ≡ done (prepend elem (canonical_items xs))
  pub whole :
      (f : ℕ)
      → length body ≤ f
      → items_loop (decode p f) (length body) body ≡ done (canonical_items xs)

-- One round of the loop on a quoted element.
items_loop-quoted :
    (rec : Bytes → Read MaybeValue) (k : ℕ) (s b : Bytes) (m : MaybeValue)
    → rec s ≡ done m
    → items_loop rec (suc k) (quote_string s ++ b) ≡ items_next (items_loop rec k) m b
unfolding items_loop
items_loop-quoted rec k s b m h =
    let q : (t : Bytes) × (quote_string s ++ b ≡ quote_mark ∷ t) =
      unfold quote_string in (_, refl) in
    rw q.1 (rw (← q.1) (rw (unquote_string-quote_string s b) (rw h)))

module _ (p : Platform) (u : IsUtf8 p) where
  -- The first element of an encoded list stands behind a comma too. There `gconf_value_decode`
  -- finds no quotation mark, and decodes the whole rest of the list as an element, which is none.
  items_loop-comma :
      (f k : ℕ) (s : Bytes)
      → items_loop (decode p (suc f)) (suc k) (b',' ∷ s)
        ≡ items_next (items_loop (decode p (suc f)) k) null (b',' ∷ s)
  unfolding items_loop unquote_string decode byte_type
  items_loop-comma f k s = refl

  pub nil-DecodedItems : DecodedItems p nil
  unfolding encode items_next items_loop canonical
  nil-DecodedItems = record {
    body = [];
    encoded = refl;
    valid = u.empty;
    next = λ f k elem _ _. refl;
    whole = λ f _. refl;
  }

  module _ (v : GConfValue) (vs : Values) (d : Decoded p v) (ds : DecodedItems p vs) where
    cons_body : Bytes
    cons_body = quote_string d.text ++ ds.body

    length-cons_body : length d.text + length ds.body + 1 ≤ length cons_body
    unfolding cons_body
    length-cons_body =
        omega (arith, length-lt-quote_string d.text, length-append (quote_string d.text) ds.body)

    loop-cons_body :
        (f k : ℕ)
        → length cons_body ≤ k
        → length cons_body ≤ f
        → items_loop (decode p f) k cons_body ≡ done (cons (canonical v) (canonical_items vs))
    loop-cons_body f zero hk hf = absurd (omega (arith, length-cons_body))
    loop-cons_body f (suc k) hk hf =
        unfold cons_body in
        items_loop-quoted (decode p f) k d.text ds.body (just (canonical v))
          (d.back f (omega (arith, length-cons_body)))
        ∙ ds.next f k (just (canonical v)) (omega (arith, length-cons_body))
            (omega (arith, length-cons_body))

    cons_body-utf8 : p.utf8_validate (b',' ∷ cons_body) ≡ true
    unfolding cons_body
    cons_body-utf8 =
        utf8-cons_ascii p u b',' (quote_string d.text ++ ds.body) (omega arith)
        ∙ utf8-quote_string-append p u d.text ds.body
        ∙ cc (d.valid, ds.valid)

    next-cons_body :
        (f k : ℕ) (elem : MaybeValue)
        → length cons_body ≤ k
        → length cons_body ≤ f
        → items_next (items_loop (decode p f) k) elem (b',' ∷ cons_body)
          ≡ done (prepend elem (cons (canonical v) (canonical_items vs)))
    unfolding items_next
    next-cons_body f k elem hk hf = rw (loop-cons_body f k hk hf)

    whole-cons_body :
        (f : ℕ)
        → suc (length cons_body) ≤ f
        → items_loop (decode p f) (suc (length cons_body)) (b',' ∷ cons_body)
          ≡ done (cons (canonical v) (canonical_items vs))
    whole-cons_body zero h = elim h [ ]
    whole-cons_body (suc f) h =
        items_loop-comma f (length cons_body) cons_body
        ∙ next-cons_body (suc f) (length cons_body) null (omega arith) (omega arith)

    pub cons-DecodedItems : DecodedItems p (cons v vs)
    unfolding encode canonical
    cons-DecodedItems = record {
      body = b',' ∷ cons_body;
      encoded = rw d.encoded (rw ds.encoded (unfold cons_body in refl));
      valid = cons_body-utf8;
      next = λ f k elem hk hf. next-cons_body f k elem (omega arith) (omega arith);
      whole = whole-cons_body;
    }
