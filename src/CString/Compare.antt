-- ===== src/CString/Compare.antt =====
-- `strcmp`, and the order that it gives.
use gconf_dbus.Prelude.{◌≡◌, refl, compare, Ordering, ◌⊎◌, inl, inr, [], ◌∷◌, arith}
use gconf_dbus.CString.Strings.{Bytes}

-- The sign of the result.
unfoldable pub strcmp : Bytes → Bytes → Ordering
strcmp [] [] = Ordering.eq
strcmp [] (d ∷ t) = Ordering.lt
strcmp (c ∷ s) [] = Ordering.gt
strcmp (c ∷ s) (d ∷ t) = elim (compare c d) [
  | Ordering.lt ↦ Ordering.lt
  | Ordering.eq ↦ strcmp s t
  | Ordering.gt ↦ Ordering.gt
]

pub strcmp_refl : (s : Bytes) → strcmp s s ≡ Ordering.eq
unfolding strcmp
strcmp_refl [] = refl
strcmp_refl (c ∷ s) = ground (arith, strcmp_refl s)

pub strcmp_eq : (s t : Bytes) → strcmp s t ≡ Ordering.eq → s ≡ t
unfolding strcmp
strcmp_eq [] [] h = refl
strcmp_eq [] (d ∷ t) h = absurd (cc)
strcmp_eq (c ∷ s) [] h = absurd (cc)
strcmp_eq (c ∷ s) (d ∷ t) h = ground (arith, strcmp_eq s t)

-- The other order.
abbrev pub opposite : Ordering → Ordering
opposite Ordering.lt = Ordering.gt
opposite Ordering.eq = Ordering.eq
opposite Ordering.gt = Ordering.lt

pub strcmp_flip : (s t : Bytes) → strcmp t s ≡ opposite (strcmp s t)
unfolding strcmp
strcmp_flip [] [] = refl
strcmp_flip [] (d ∷ t) = refl
strcmp_flip (c ∷ s) [] = refl
strcmp_flip (c ∷ s) (d ∷ t) = ground (arith, strcmp_flip s t)

pub strcmp_gt : (s t : Bytes) → strcmp s t ≡ Ordering.gt → strcmp t s ≡ Ordering.lt
strcmp_gt s t h = rw (strcmp_flip s t, h) refl

pub strcmp_trans :
    (s t u : Bytes) → strcmp s t ≡ Ordering.lt → strcmp t u ≡ Ordering.lt → strcmp s u ≡ Ordering.lt
unfolding strcmp
strcmp_trans [] [] u h k = absurd (cc)
strcmp_trans [] (d ∷ t) [] h k = absurd (cc)
strcmp_trans [] (d ∷ t) (e ∷ u) h k = refl
strcmp_trans (c ∷ s) [] u h k = absurd (cc)
strcmp_trans (c ∷ s) (d ∷ t) [] h k = absurd (cc)
strcmp_trans (c ∷ s) (d ∷ t) (e ∷ u) h k = ground (arith, strcmp_trans s t u)

pub Ordering-cases : (o : Ordering) → (o ≡ Ordering.lt) ⊎ ((o ≡ Ordering.eq) ⊎ (o ≡ Ordering.gt))
Ordering-cases Ordering.lt = inl refl
Ordering-cases Ordering.eq = inr (inl refl)
Ordering-cases Ordering.gt = inr (inr refl)
