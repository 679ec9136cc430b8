-- ===== src/Listeners/Remove.antt =====
-- Who is notified after `ltable_remove`.
use gconf_dbus.Prelude.{
  ℕ, ◌≡◌, refl, ◌∙◌, ap, sym, subst, subst₂, ◌⊎◌, inl, inr, ◌≢◌, Ordering, true, Option, none, some,
  List, [], ◌∷◌, ◌++◌, append_assoc, ◌==◌, ==_iff, Bool-cases,
}
use mathlib.Core.Bool.{false≢true}
use gconf_dbus.CString.{Bytes, Ordering-cases, strcmp, strcmp_eq, strcmp_refl}
use gconf_dbus.Listeners.Tree.{
  Listener, Node, Nodes, make_node, no_nodes, more_nodes, name_of, collect_child, to_notify,
  remove_listener, prune, put_child, remove_child, remove_at,
}
use gconf_dbus.Listeners.Order.{
  collect_child-here, collect_child-past, IsBefore, IsSorted, AreSorted,
}
use gconf_dbus.Listeners.Table.{has_cnxn, notified_in}
use gconf_dbus.Listeners.Notify.{Added, Added-append, collect_before, lt≢eq, gt≢eq}

-- A listener of the number is in the first list at one place, and the second is the rest.
abbrev pub Without : ℕ → List Listener → List Listener → Type 0
Without cnxn xs ys = (l : Listener) × (l.cnxn ≡ cnxn) × Added l ys xs

pub remove_listener-Without :
    (cnxn : ℕ) (ls : List Listener)
    → has_cnxn cnxn ls ≡ true
    → Without cnxn ls (remove_listener cnxn ls)
unfolding remove_listener
remove_listener-Without cnxn [] h = absurd (false≢true h)
remove_listener-Without cnxn (l ∷ ls) h = elim (Bool-cases (l.cnxn == cnxn)) [
  | inl e ↦ rw e (l, (==_iff l.cnxn cnxn).0 e, ([], ls, refl, refl))
  | inr e ↦
      let (m, p, added) = remove_listener-Without cnxn ls (rw e at h) in
      rw e (m, p, Added-append m (l ∷ []) (remove_listener cnxn ls) ls added)
]

pub Without-prepend :
    (cnxn : ℕ) (zs xs ys : List Listener) → Without cnxn xs ys → Without cnxn (zs ++ xs) (zs ++ ys)
Without-prepend cnxn zs xs ys (l, p, a) = (l, p, Added-append l zs ys xs a)

pub Without-append :
    (cnxn : ℕ) (xs ys zs : List Listener) → Without cnxn xs ys → Without cnxn (xs ++ zs) (ys ++ zs)
Without-append cnxn xs ys zs (l, p, (front, back, q, r)) = (
  l,
  p,
  (
    front,
    back ++ zs,
    ap (λ (t : List Listener). t ++ zs) q ∙ append_assoc front back zs,
    ap (λ (t : List Listener). t ++ zs) r ∙ append_assoc front (l ∷ back) zs,
  ),
)

-- A node that is destroyed would have notified nobody.
pub notified-prune : (es : List Bytes) (t : Node) → notified_in es (prune t) ≡ to_notify es t
unfolding prune to_notify collect_child
notified-prune [] (make_node n [] no_nodes) = refl
notified-prune (e ∷ es) (make_node n [] no_nodes) = refl
notified-prune es (make_node n [] (more_nodes c cs)) = refl
notified-prune es (make_node n (l ∷ ls) ch) = refl

abbrev pub IsNamed : Bytes → Option Node → Type 0
IsNamed n none = Unit
IsNamed n (some c) = name_of c ≡ n

prune-IsNamed :
    (n : Bytes) (ls : List Listener) (ch : Nodes) → IsNamed n (prune (make_node n ls ch))
unfolding prune
prune-IsNamed n [] no_nodes = tt
prune-IsNamed n [] (more_nodes c cs) = refl
prune-IsNamed n (l ∷ ls) ch = refl

pub remove_at-IsNamed :
    (ds : List Bytes) (cnxn : ℕ) (t : Node) → IsNamed (name_of t) (remove_at ds cnxn t)
unfolding remove_at
remove_at-IsNamed [] cnxn (make_node n ls ch) = prune-IsNamed n (remove_listener cnxn ls) ch
remove_at-IsNamed (d ∷ ds) cnxn (make_node n ls ch) =
    prune-IsNamed n ls (remove_child (remove_at ds cnxn) d ch)

module _ (b : Node → Option Node) (d : Bytes) (c : Node) (cs : Nodes) where
  pub remove_child-here :
      strcmp (name_of c) d ≡ Ordering.eq → remove_child b d (more_nodes c cs) ≡ put_child (b c) cs
  unfolding remove_child
  remove_child-here e = rw (remove_child, e) refl

  pub remove_child-past :
      strcmp (name_of c) d ≢ Ordering.eq
      → remove_child b d (more_nodes c cs) ≡ more_nodes c (remove_child b d cs)
  unfolding remove_child
  remove_child-past h = elim (Ordering-cases (strcmp (name_of c) d)) [
    | inl e ↦ rw (remove_child, e) refl
    | inr (inl e) ↦ absurd (h e)
    | inr (inr e) ↦ rw (remove_child, e) refl
  ]

pub name_eq-cases : (s t : Bytes) → (s ≡ t) ⊎ (strcmp s t ≢ Ordering.eq)
name_eq-cases s t = elim (Ordering-cases (strcmp s t)) [
  | inl e ↦ inr (λ p. lt≢eq (sym e ∙ p))
  | inr (inl e) ↦ inl (strcmp_eq s t e)
  | inr (inr e) ↦ inr (λ p. gt≢eq (sym e ∙ p))
]

module _ (b : Node → Option Node) (named : (c : Node) → IsNamed (name_of c) (b c)) where
  -- What is collected at the place of a child that was changed or destroyed.
  collect-put_child :
      (es : List Bytes) (d : Bytes) (o : Option Node) (cs : Nodes)
      → IsNamed d o
      → IsBefore d cs
      → collect_child (to_notify es) d (put_child o cs) ≡ notified_in es o
  collect-put_child es d none cs h s = collect_before (to_notify es) d cs s
  collect-put_child es d (some c) cs h s =
      collect_child-here (to_notify es) d c cs (ap (λ (n : Bytes). strcmp n d) h ∙ strcmp_refl d)

  module _ (P : List Listener → Type 0) (R : List Listener → List Listener → Type 0) where
    -- What the change of a child does to what is collected from it, it does to what is collected
    -- from the siblings, where what `q` collects has `P`.
    pub collect-remove_child :
        (es : List Bytes) (q : Node → List Listener) (d : Bytes)
        → (P [] → R [] [])
        → ((c : Node) → IsSorted c → P (q c) → R (to_notify es c) (notified_in es (b c)))
        → (cs : Nodes) → AreSorted cs
        → P (collect_child q d cs)
        → R
            (collect_child (to_notify es) d cs)
            (collect_child (to_notify es) d (remove_child b d cs))
    unfolding AreSorted IsSorted collect_child remove_child
    collect-remove_child es q d r0 h no_nodes s p = r0 p
    collect-remove_child es q d r0 h (more_nodes c cs) s p = elim (name_eq-cases (name_of c) d) [
      | inl e ↦
          let here = ap (λ (n : Bytes). strcmp n d) e ∙ strcmp_refl d in
          subst₂ R (sym (collect_child-here (to_notify es) d c cs here))
            (sym (
              ap (collect_child (to_notify es) d) (remove_child-here b d c cs here)
              ∙ collect-put_child es d (b c) cs (subst (λ (n : Bytes). IsNamed n (b c)) e (named c))
                  (subst (λ (n : Bytes). IsBefore n cs) e s.1)))
            (h c s.0 (subst P (collect_child-here q d c cs here) p))
      | inr ne ↦
          subst₂ R (sym (collect_child-past (to_notify es) d c cs ne))
            (sym (
              ap (collect_child (to_notify es) d) (remove_child-past b d c cs ne)
              ∙ collect_child-past (to_notify es) d c (remove_child b d cs) ne))
            (collect-remove_child es q d r0 h cs s.2 (subst P (collect_child-past q d c cs ne) p))
    ]
