-- ===== src/Keys/Below.antt =====
-- `gconf_key_is_below` is containment of paths.
use gconf_dbus.Prelude.{
  ◌≡◌, refl, ◌∙◌, ap, sym, ◌↔◌, true, false, List, [], ◌∷◌, ◌++◌, append_assoc, All, arith, ==_iff,
  ==_refl,
}
use gconf_dbus.CString.{Bytes}
use gconf_dbus.Keys.{slash, below_prefix, is_root, key_is_below}
use gconf_dbus.Keys.Valid.{IsKeyChar, IsComponent, join, key_of}

-- Empty, or behind a slash.
abbrev pub IsTail : Bytes → Type 0
IsTail [] = Unit
IsTail (c ∷ s) = c ≡ slash

pub join-append : (cs ds : List Bytes) → join (cs ++ ds) ≡ join cs ++ join ds
join-append [] ds = refl
join-append (c ∷ cs) ds =
    ap (λ (t : Bytes). slash ∷ (c ++ t)) (join-append cs ds)
    ∙ ap (λ (t : Bytes). slash ∷ t) (sym (append_assoc c (join cs) (join ds)))

join-IsTail : (cs : List Bytes) → IsTail (join cs)
join-IsTail [] = tt
join-IsTail (c ∷ cs) = refl

pub component-IsKeyChar : (c : Bytes) → IsComponent c → All IsKeyChar c
component-IsKeyChar [] h = tt
component-IsKeyChar (c ∷ s) h = (h.0, h.2)

pub below_prefix-append : (s t : Bytes) → IsTail t → below_prefix s (s ++ t) ≡ true
unfolding below_prefix
below_prefix-append [] [] h = refl
below_prefix-append [] (c ∷ t) h = ground arith
below_prefix-append (c ∷ s) t h = rw (==_refl c) (below_prefix-append s t h)

pub prefix-of_below :
    (s t : Bytes) → below_prefix s t ≡ true → (r : Bytes) × IsTail r × (t ≡ s ++ r)
unfolding below_prefix
prefix-of_below [] [] h = ([], tt, refl)
prefix-of_below [] (d ∷ t) h = (d ∷ t, (==_iff d slash).0 h, refl)
prefix-of_below (c ∷ s) [] h = absurd (ground arith)
prefix-of_below (c ∷ s) (d ∷ t) h =
    let (r, tail, e) = prefix-of_below s t (ground arith) in (r, tail, ground (arith, e))

-- Where a component ends is determined by the bytes.
component_unique :
    (a b x y : Bytes)
    → All IsKeyChar a
    → All IsKeyChar b
    → IsTail x
    → IsTail y
    → a ++ x ≡ b ++ y
    → (a ≡ b) × (x ≡ y)
component_unique [] [] x y ha hb hx hy e = (refl, e)
component_unique [] (d ∷ b) [] y ha hb hx hy e = absurd (ground arith)
component_unique [] (d ∷ b) (c ∷ x) y ha hb hx hy e = absurd (ground (arith, hb.0.no_slash))
component_unique (c ∷ a) [] x [] ha hb hx hy e = absurd (ground arith)
component_unique (c ∷ a) [] x (d ∷ y) ha hb hx hy e = absurd (ground (arith, ha.0.no_slash))
component_unique (c ∷ a) (d ∷ b) x y ha hb hx hy e =
    let (p, q) = component_unique a b x y ha.1 hb.1 hx hy (cc) in (cc (p), q)

IsTail-append : (s r : Bytes) → IsTail s → IsTail r → IsTail (s ++ r)
IsTail-append [] r hs hr = hr
IsTail-append (c ∷ s) r hs hr = hs

join_prefix :
    (cs ds : List Bytes) (r : Bytes)
    → All IsComponent cs
    → All IsComponent ds
    → IsTail r
    → join cs ++ r ≡ join ds
    → (es : List Bytes) × (ds ≡ cs ++ es)
join_prefix [] ds r hc hd hr e = (ds, refl)
join_prefix (c ∷ cs) [] r hc hd hr e = absurd (ground arith)
join_prefix (c ∷ cs) (d ∷ ds) r hc hd hr e =
    let whole : (c ++ join cs) ++ r ≡ d ++ join ds = cc in
    let (first, others) =
      component_unique c d (join cs ++ r) (join ds) (component-IsKeyChar c hc.0)
        (component-IsKeyChar d hd.0) (IsTail-append (join cs) r (join-IsTail cs) hr)
        (join-IsTail ds) (sym (append_assoc c (join cs) r) ∙ whole) in
    let (es, rest) = join_prefix cs ds r hc.1 hd.1 hr others in (es, cc (first, rest))

is_root-join : (c : Bytes) (cs : List Bytes) → IsComponent c → is_root (join (c ∷ cs)) ≡ false
unfolding is_root
is_root-join [] cs h = absurd h
is_root-join (d ∷ c) cs h = refl

not_above_root :
    (c : Bytes) (cs : List Bytes)
    → IsComponent c
    → ¬ (below_prefix (join (c ∷ cs)) (slash ∷ []) ≡ true)
unfolding below_prefix
not_above_root [] cs h e = absurd h
not_above_root (d ∷ c) cs h e = cc

below_of_prefix :
    (cs es : List Bytes) → All IsComponent cs → key_is_below (key_of cs) (key_of (cs ++ es)) ≡ true
unfolding key_is_below
below_of_prefix [] es hc = refl
below_of_prefix (c ∷ cs) es hc =
    rw (is_root-join c cs hc.0) (
      rw (join-append (c ∷ cs) es) (below_prefix-append (join (c ∷ cs)) (join es) (join-IsTail es)))

prefix_of_below :
    (cs ds : List Bytes)
    → All IsComponent cs
    → All IsComponent ds
    → key_is_below (key_of cs) (key_of ds) ≡ true
    → (es : List Bytes) × (ds ≡ cs ++ es)
unfolding key_is_below
prefix_of_below [] ds hc hd h = (ds, refl)
prefix_of_below (c ∷ cs) [] hc hd h =
    absurd (not_above_root c cs hc.0 (rw (is_root-join c cs hc.0) at h))
prefix_of_below (c ∷ cs) (d ∷ ds) hc hd h =
    let (r, tail, e) =
      prefix-of_below (join (c ∷ cs)) (join (d ∷ ds)) (rw (is_root-join c cs hc.0) at h) in
    join_prefix (c ∷ cs) (d ∷ ds) r hc hd tail (sym e)

-- Of two keys, the first is above the second, or equal to it, exactly when its components are the
-- first components of the second.
pub key_is_below_iff :
    (cs ds : List Bytes)
    → All IsComponent cs
    → All IsComponent ds
    → (key_is_below (key_of cs) (key_of ds) ≡ true) ↔ ((es : List Bytes) × (ds ≡ cs ++ es))
key_is_below_iff cs ds hc hd =
    (prefix_of_below cs ds hc hd, λ (es, e). rw e (below_of_prefix cs es hc))
