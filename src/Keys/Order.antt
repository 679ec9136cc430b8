-- ===== src/Keys/Order.antt =====
-- `gconf_key_is_below` is an order on the names that are not empty.
use gconf_dbus.Prelude.{
  ◌≡◌, refl, sym, ◌∙◌, ap, subst, ◌≢◌, true, length, length-append, ◌+◌, [], ◌∷◌, ◌++◌, arith,
  append_assoc, append-nil,
}
use gconf_dbus.CString.{Bytes}
use gconf_dbus.Keys.{is_root, below_prefix, key_is_below}
use gconf_dbus.Keys.Below.{IsTail, below_prefix-append, prefix-of_below}

pub key_is_below_refl : (s : Bytes) → key_is_below s s ≡ true
unfolding key_is_below
key_is_below_refl s =
    let self = below_prefix-append s [] tt in ground (arith, rw (append-nil s) at self)

tails : (r q : Bytes) → IsTail r → IsTail q → IsTail (r ++ q)
tails [] q hr hq = hq
tails (c ∷ r) q hr hq = hr

below_prefix_trans :
    (a b c : Bytes) → below_prefix a b ≡ true → below_prefix b c ≡ true → below_prefix a c ≡ true
below_prefix_trans a b c h k =
    let (r, tail, e) = prefix-of_below a b h in
    let (q, tail', e') = prefix-of_below b c k in
    let path : c ≡ a ++ (r ++ q) = e' ∙ ap (λ (t : Bytes). t ++ q) e ∙ append_assoc a r q in
    subst (λ (t : Bytes). below_prefix a t ≡ true) (sym path)
      (below_prefix-append a (r ++ q) (tails r q tail tail'))

root_below : (a b : Bytes) → a ≢ [] → is_root b ≡ true → below_prefix a b ≡ true → is_root a ≡ true
unfolding is_root below_prefix
root_below [] b n r h = absurd (n refl)
root_below (c ∷ []) (d ∷ []) n r h = ground (arith, r, h)
root_below (c ∷ x ∷ a) (d ∷ []) n r h = ground (arith, r, h)
root_below (c ∷ a) [] n r h = ground (arith, r)
root_below (c ∷ a) (d ∷ y ∷ b) n r h = ground (arith, r)

pub key_is_below_trans :
    (a b c : Bytes)
    → a ≢ []
    → key_is_below a b ≡ true
    → key_is_below b c ≡ true
    → key_is_below a c ≡ true
unfolding key_is_below
key_is_below_trans a b c n h k = ground (arith, root_below a b n, below_prefix_trans a b c, h, k)

nil_of_length : (s : Bytes) → length s ≡ 0 → s ≡ []
nil_of_length [] h = refl
nil_of_length (c ∷ s) h = absurd (ground arith)

below_prefix_antisym : (a b : Bytes) → below_prefix a b ≡ true → below_prefix b a ≡ true → a ≡ b
below_prefix_antisym a b h k =
    let (r, tail, e) = prefix-of_below a b h in
    let (q, tail', e') = prefix-of_below b a k in
    let m : length b ≡ length a + length r = ap length e ∙ length-append a r in
    let m' : length a ≡ length b + length q = ap length e' ∙ length-append b q in
    let z = nil_of_length r (omega (arith, m, m')) in sym (rw (e, z) (append-nil a))

root_unique : (a b : Bytes) → is_root a ≡ true → is_root b ≡ true → a ≡ b
unfolding is_root
root_unique (c ∷ []) (d ∷ []) h k = ground (arith, h, k)
root_unique [] b h k = absurd (ground (arith, h))
root_unique (c ∷ x ∷ a) b h k = absurd (ground (arith, h))
root_unique (c ∷ []) [] h k = absurd (ground (arith, k))
root_unique (c ∷ []) (d ∷ x ∷ b) h k = absurd (ground (arith, k))

pub key_is_below_antisym :
    (a b : Bytes) → a ≢ [] → b ≢ [] → key_is_below a b ≡ true → key_is_below b a ≡ true → a ≡ b
unfolding key_is_below
key_is_below_antisym a b n m h k =
    ground
      (arith, root_below a b n, root_below b a m, root_unique a b, below_prefix_antisym a b, h, k)
