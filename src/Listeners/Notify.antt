-- ===== src/Listeners/Notify.antt =====
-- Who is notified: `ltable_notify` after `ltable_insert`.
use gconf_dbus.Prelude.{
  ◌≡◌, refl, subst₂, ◌∙◌, ap, sym, inl, inr, ◌≢◌, Ordering, List, [], ◌∷◌, ◌++◌, append_assoc,
}
use gconf_dbus.CString.{Bytes, Ordering-cases, strcmp, strcmp_eq, strcmp_gt, strcmp_refl}
use gconf_dbus.Listeners.Tree.{
  Listener, Node, Nodes, make_node, no_nodes, more_nodes, name_of, new_node, insert_child,
  insert_at, collect_child, to_notify,
}
use gconf_dbus.Listeners.Order.{
  insert_child-lt, insert_child-eq, insert_child-gt, collect_child-here, collect_child-past,
  IsBefore, IsSorted, AreSorted,
}
use gconf_dbus.Listeners.Insert.{IsBefore-trans, Keeps, insert_at-Keeps}

-- `ys` is `xs` with `l` put in at one place.
abbrev pub Added : Listener → List Listener → List Listener → Type 0
Added l xs ys =
    (front : List Listener) × (back : List Listener) × (xs ≡ front ++ back)
    × (ys ≡ front ++ l ∷ back)

pub Added-append :
    (l : Listener) (zs xs ys : List Listener) → Added l xs ys → Added l (zs ++ xs) (zs ++ ys)
Added-append l zs xs ys (front, back, p, q) = (
  zs ++ front,
  back,
  ap (λ (t : List Listener). zs ++ t) p ∙ sym (append_assoc zs front back),
  ap (λ (t : List Listener). zs ++ t) q ∙ sym (append_assoc zs front (l ∷ back)),
)

pub gt≢eq : Ordering.gt ≢ Ordering.eq
gt≢eq e = cc

pub lt≢eq : Ordering.lt ≢ Ordering.eq
lt≢eq e = cc

pub to_notify-new_node : (d : Bytes) (es : List Bytes) → to_notify es (new_node d) ≡ []
unfolding to_notify collect_child
to_notify-new_node d [] = refl
to_notify-new_node d (e ∷ es) = refl

lt_ne_eq : (s t : Bytes) → strcmp s t ≡ Ordering.lt → t ≢ s
lt_ne_eq s t h e = lt≢eq (sym (rw e at h) ∙ strcmp_refl s)

-- Nothing is collected where the name stands before the siblings.
pub collect_before :
    (f : Node → List Listener) (d : Bytes) (cs : Nodes) → IsBefore d cs → collect_child f d cs ≡ []
unfolding collect_child
collect_before f d no_nodes b = refl
collect_before f d (more_nodes c cs) b =
    collect_child-past f d c cs (λ e. lt_ne_eq d (name_of c) b.0 (strcmp_eq (name_of c) d e))
    ∙ collect_before f d cs b.1

module _ (R : List Listener → List Listener → Type 0) where
  along : {x x' y y' : List Listener} → x ≡ x' → y ≡ y' → R x y → R x' y'
  along p q r = subst₂ R p q r

  module _ (f : Node → List Listener) (g : Node → Node) (d : Bytes) where
    module _ (fresh : f (new_node d) ≡ []) (k : Keeps g) where
      named :
          (c : Node) → strcmp (name_of c) d ≡ Ordering.eq → strcmp (name_of (g c)) d ≡ Ordering.eq
      named c e = rw (k.name c) e

      in_new_node :
          R (f (new_node d)) (f (g (new_node d)))
          → (rest : Nodes) → R [] (collect_child f d (more_nodes (g (new_node d)) rest))
      in_new_node r rest =
          along fresh
            (sym
              (collect_child-here f d (g (new_node d)) rest (named (new_node d) (strcmp_refl d))))
            r

      -- What the change of a child does to what is collected from it, it does to what is collected
      -- from the siblings.
      pub collect-insert_child :
          ((c : Node) → IsSorted c → R (f c) (f (g c)))
          → (cs : Nodes) → AreSorted cs
          → R (collect_child f d cs) (collect_child f d (insert_child g d cs))
      unfolding AreSorted IsSorted insert_child collect_child
      collect-insert_child h no_nodes s = in_new_node (h (new_node d) tt) no_nodes
      collect-insert_child h (more_nodes c cs) s = elim (Ordering-cases (strcmp (name_of c) d)) [
        | inl e ↦
            let ne = λ (p : strcmp (name_of c) d ≡ Ordering.eq). lt≢eq (sym e ∙ p) in
            along (sym (collect_child-past f d c cs ne))
              (sym (collect_child-past f d c (insert_child g d cs) ne)
                ∙ ap (collect_child f d) (sym (insert_child-lt g d c cs e)))
              (collect-insert_child h cs s.2)
        | inr (inl e) ↦
            along (sym (collect_child-here f d c cs e))
              (sym (collect_child-here f d (g c) cs (named c e))
                ∙ ap (collect_child f d) (sym (insert_child-eq g d c cs e)))
              (h c s.0)
        | inr (inr e) ↦
            let before = strcmp_gt (name_of c) d e in
            along
              (sym (
                collect_before f d (more_nodes c cs)
                  (before, IsBefore-trans d (name_of c) cs before s.1)))
              (ap (collect_child f d) (sym (insert_child-gt g d c cs e)))
              (in_new_node (h (new_node d) tt) (more_nodes c cs))
      ]

-- What is collected under one name does not depend on the children of other names.
module _ (f : Node → List Listener) (e : Bytes) where
  pub collect-cong :
      (c : Node) (cs' cs : Nodes)
      → collect_child f e cs' ≡ collect_child f e cs
      → collect_child f e (more_nodes c cs') ≡ collect_child f e (more_nodes c cs)
  collect-cong c cs' cs h = elim (Ordering-cases (strcmp (name_of c) e)) [
    | inl o ↦ skip_both (λ p. lt≢eq (sym o ∙ p))
    | inr (inl o) ↦ collect_child-here f e c cs' o ∙ sym (collect_child-here f e c cs o)
    | inr (inr o) ↦ skip_both (λ p. gt≢eq (sym o ∙ p))
  ]
    where
      skip_both :
          strcmp (name_of c) e ≢ Ordering.eq
          → collect_child f e (more_nodes c cs') ≡ collect_child f e (more_nodes c cs)
      skip_both n = collect_child-past f e c cs' n ∙ h ∙ sym (collect_child-past f e c cs n)

  module _ (g : Node → Node) (d : Bytes) (ne : d ≢ e) (k : Keeps g) where
    other_name : (c : Node) → name_of c ≡ d → strcmp (name_of c) e ≢ Ordering.eq
    other_name c p o = ne (sym p ∙ strcmp_eq (name_of c) e o)

    collect-insert_other :
        (cs : Nodes) → collect_child f e (insert_child g d cs) ≡ collect_child f e cs
    unfolding insert_child
    collect-insert_other no_nodes =
        collect_child-past f e (g (new_node d)) no_nodes
          (other_name (g (new_node d)) (k.name (new_node d)))
    collect-insert_other (more_nodes c cs) = elim (Ordering-cases (strcmp (name_of c) d)) [
      | inl o ↦
          ap (collect_child f e) (insert_child-lt g d c cs o)
          ∙ collect-cong c (insert_child g d cs) cs (collect-insert_other cs)
      | inr (inl o) ↦
          let same = strcmp_eq (name_of c) d o in
          ap (collect_child f e) (insert_child-eq g d c cs o)
          ∙ collect_child-past f e (g c) cs (other_name (g c) (k.name c ∙ same))
          ∙ sym (collect_child-past f e c cs (other_name c same))
      | inr (inr o) ↦
          ap (collect_child f e) (insert_child-gt g d c cs o)
          ∙ collect_child-past f e (g (new_node d)) (more_nodes c cs)
              (other_name (g (new_node d)) (k.name (new_node d)))
    ]

pub cons_eq : {x y : Bytes} {xs ys : List Bytes} → x ≡ y → xs ≡ ys → (x ∷ xs) ≡ (y ∷ ys)
cons_eq p q = cc

collect-insert_child_either :
    (f : Node → List Listener) (g : Node → Node) (d e : Bytes)
    → f (new_node e) ≡ []
    → Keeps g
    → (d ≡ e → (c : Node) → IsSorted c → f (g c) ≡ f c)
    → (cs : Nodes) → AreSorted cs
    → collect_child f e (insert_child g d cs) ≡ collect_child f e cs
collect-insert_child_either f g d e fresh k h cs s = elim (Ordering-cases (strcmp d e)) [
  | inl o ↦ collect-insert_other f e g d (ne_of o lt≢eq) k cs
  | inr (inr o) ↦ collect-insert_other f e g d (ne_of o gt≢eq) k cs
  | inr (inl o) ↦
      let q = strcmp_eq d e o in
      ap (λ (x : Bytes). collect_child f e (insert_child g x cs)) q
      ∙ sym (collect-insert_child (λ xs ys. xs ≡ ys) f g e fresh k (λ c sc. sym (h q c sc)) cs s)
]
  where
    ne_of : {o : Ordering} → strcmp d e ≡ o → o ≢ Ordering.eq → d ≢ e
    ne_of p n q = n (sym p ∙ ap (λ (x : Bytes). strcmp d x) (sym q) ∙ strcmp_refl d)

Added-here : (l : Listener) (xs ys : List Listener) → Added l (xs ++ ys) ((l ∷ xs) ++ ys)
Added-here l xs ys = ([], xs ++ ys, refl, refl)

-- A listener at a location is notified, once, of a change at the location or below it: it is put
-- into the list of those who are.
pub to_notify-below :
    (ds rest : List Bytes) (l : Listener) (t : Node)
    → IsSorted t
    → Added l (to_notify (ds ++ rest) t) (to_notify (ds ++ rest) (insert_at ds l t))
unfolding to_notify insert_at IsSorted
to_notify-below [] [] l (make_node n ls ch) s = ([], ls, refl, refl)
to_notify-below [] (e ∷ es) l (make_node n ls ch) s =
    Added-here l ls (collect_child (to_notify es) e ch)
to_notify-below (d ∷ ds) rest l (make_node n ls ch) s =
    Added-append l ls (collect_child (to_notify (ds ++ rest)) d ch)
      (collect_child (to_notify (ds ++ rest)) d (insert_child (insert_at ds l) d ch))
      (collect-insert_child (Added l) (to_notify (ds ++ rest)) (insert_at ds l) d
        (to_notify-new_node d (ds ++ rest)) (insert_at-Keeps ds l)
        (λ c sc. to_notify-below ds rest l c sc) ch s)

-- A listener at a location is not notified of a change elsewhere.
pub to_notify-elsewhere :
    (ds es : List Bytes) (l : Listener) (t : Node)
    → ¬ ((rest : List Bytes) × (es ≡ ds ++ rest))
    → IsSorted t
    → to_notify es (insert_at ds l t) ≡ to_notify es t
unfolding to_notify insert_at IsSorted
to_notify-elsewhere [] es l t h s = absurd (h (es, refl))
to_notify-elsewhere (d ∷ ds) [] l (make_node n ls ch) h s = refl
to_notify-elsewhere (d ∷ ds) (e ∷ es) l (make_node n ls ch) h s =
    ap (λ (x : List Listener). ls ++ x)
      (collect-insert_child_either (to_notify es) (insert_at ds l) d e (to_notify-new_node e es)
        (insert_at-Keeps ds l)
        (λ q c sc. to_notify-elsewhere ds es l c (λ (rest, p). h (rest, cons_eq (sym q) p)) sc) ch
        s)
