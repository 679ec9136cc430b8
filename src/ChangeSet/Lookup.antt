-- ===== src/ChangeSet/Lookup.antt =====
-- A change set is a map from keys to values or NULL.
use gconf_dbus.Prelude.{
  ◌≡◌, ◌≢◌, refl, ◌∙◌, ap, sym, inl, inr, true, false, Option, none, some, List, [], ◌∷◌,
  Bool-cases,
}
use gconf_dbus.CString.{Bytes, bytes_eq, bytes_eq-eq, bytes_eq_refl, bytes_eq_ne}
use gconf_dbus.Value.{GConfValue, value_type}
use gconf_dbus.ChangeSet.{
  Change, GConfChangeSet, change_new, type_valid, change_set, change_unset, lookup_change,
  update_change, value_of, change_set_check_value, change_set_set, change_set_unset,
}

pub bytes_eq_of_ne : (s t : Bytes) → s ≢ t → bytes_eq s t ≡ false
bytes_eq_of_ne s t h = elim (Bool-cases (bytes_eq s t)) [
  | inl e ↦ absurd (h (bytes_eq-eq s t e))
  | inr e ↦ e
]

-- What is done to a change keeps its key.
abbrev pub KeepsKey : (Change → Change) → Type 0
KeepsKey f = (c : Change) → (f c).key ≡ c.key

pub change_set-KeepsKey : (v : GConfValue) → KeepsKey (change_set v)
unfolding change_set
change_set-KeepsKey v c = elim (Bool-cases (type_valid (value_type v))) [
  | inl e ↦ rw e refl
  | inr e ↦ rw e refl
]

pub change_unset-KeepsKey : KeepsKey change_unset
unfolding change_unset
change_unset-KeepsKey c = refl

pub lookup-here :
    (k : Bytes) (c : Change) (cs : List Change)
    → bytes_eq c.key k ≡ true
    → lookup_change k (c ∷ cs) ≡ some c
unfolding lookup_change
lookup-here k c cs e = rw (lookup_change, e) refl

pub lookup-past :
    (k : Bytes) (c : Change) (cs : List Change)
    → bytes_eq c.key k ≡ false
    → lookup_change k (c ∷ cs) ≡ lookup_change k cs
unfolding lookup_change
lookup-past k c cs e = rw (lookup_change, e) refl

abbrev pub or_new : Bytes → Option Change → Change
or_new k none = change_new k
or_new k (some c) = c

module _ (k : Bytes) (f : Change → Change) where
  pub update-here :
      (c : Change) (cs : List Change)
      → bytes_eq c.key k ≡ true
      → update_change k f (c ∷ cs) ≡ f c ∷ cs
  unfolding update_change
  update-here c cs e = rw (update_change, e) refl

  pub update-past :
      (c : Change) (cs : List Change)
      → bytes_eq c.key k ≡ false
      → update_change k f (c ∷ cs) ≡ c ∷ update_change k f cs
  unfolding update_change
  update-past c cs e = rw (update_change, e) refl

module _ (k : Bytes) (f : Change → Change) (kf : KeepsKey f) where
  key_test : (c : Change) (j : Bytes) → bytes_eq (f c).key j ≡ bytes_eq c.key j
  key_test c j = ap (λ (x : Bytes). bytes_eq x j) (kf c)

  pub lookup-update_same :
      (cs : List Change)
      → lookup_change k (update_change k f cs) ≡ some (f (or_new k (lookup_change k cs)))
  unfolding lookup_change update_change
  lookup-update_same [] =
      lookup-here k (f (change_new k)) [] (key_test (change_new k) k ∙ bytes_eq_refl k)
  lookup-update_same (c ∷ cs) = elim (Bool-cases (bytes_eq c.key k)) [
    | inl e ↦
        ap (lookup_change k) (update-here k f c cs e)
        ∙ lookup-here k (f c) cs (key_test c k ∙ e)
        ∙ ap (λ (o : Option Change). some (f (or_new k o))) (sym (lookup-here k c cs e))
    | inr e ↦
        ap (lookup_change k) (update-past k f c cs e)
        ∙ lookup-past k c (update_change k f cs) e
        ∙ lookup-update_same cs
        ∙ ap (λ (o : Option Change). some (f (or_new k o))) (sym (lookup-past k c cs e))
  ]

  pub lookup-update_other :
      (j : Bytes) (cs : List Change)
      → k ≢ j
      → lookup_change j (update_change k f cs) ≡ lookup_change j cs
  unfolding lookup_change update_change
  lookup-update_other j [] ne =
      lookup-past j (f (change_new k)) [] (key_test (change_new k) j ∙ bytes_eq_of_ne k j ne)
  lookup-update_other j (c ∷ cs) ne = elim (Bool-cases (bytes_eq c.key k)) [
    | inl e ↦
        let other = bytes_eq_of_ne c.key j (λ p. ne (sym (bytes_eq-eq c.key k e) ∙ p)) in
        ap (lookup_change j) (update-here k f c cs e)
        ∙ lookup-past j (f c) cs (key_test c j ∙ other)
        ∙ sym (lookup-past j c cs other)
    | inr e ↦
        ap (lookup_change j) (update-past k f c cs e)
        ∙ past_or_here c cs (update_change k f cs) (lookup-update_other j cs ne)
  ]
    where
      past_or_here :
          (c : Change) (cs cs' : List Change)
          → lookup_change j cs' ≡ lookup_change j cs
          → lookup_change j (c ∷ cs') ≡ lookup_change j (c ∷ cs)
      past_or_here c cs cs' h = elim (Bool-cases (bytes_eq c.key j)) [
        | inl e ↦ lookup-here j c cs' e ∙ sym (lookup-here j c cs e)
        | inr e ↦ lookup-past j c cs' e ∙ h ∙ sym (lookup-past j c cs e)
      ]

-- No two changes have the same key.
unfoldable pub IsDistinct : List Change → Type 0
IsDistinct [] = Unit
IsDistinct (c ∷ cs) = (lookup_change c.key cs ≡ none) × IsDistinct cs

pub update-IsDistinct :
    (k : Bytes) (f : Change → Change)
    → KeepsKey f
    → (cs : List Change) → IsDistinct cs
    → IsDistinct (update_change k f cs)
unfolding IsDistinct update_change lookup_change
update-IsDistinct k f kf [] d = (refl, tt)
update-IsDistinct k f kf (c ∷ cs) d = elim (Bool-cases (bytes_eq c.key k)) [
  | inl e ↦ rw (update-here k f c cs e) (ap (λ (x : Bytes). lookup_change x cs) (kf c) ∙ d.0, d.1)
  | inr e ↦ rw (update-past k f c cs e) (
    lookup-update_other k f kf c.key cs (λ p. bytes_eq_ne c.key k e (sym p)) ∙ d.0,
    update-IsDistinct k f kf cs d.1,
  )
]

-- A change set is a map: what is set is read back, an unset key is there with NULL, and the other
-- keys stay as they are. The value has to have a type other than invalid.
pub check_value-set :
    (cs : GConfChangeSet) (k : Bytes) (v : GConfValue)
    → type_valid (value_type v) ≡ true
    → change_set_check_value (change_set_set cs k v) k ≡ some (some v)
unfolding change_set_check_value change_set_set change_set
check_value-set cs k v h =
    ap value_of (lookup-update_same k (change_set v) (change_set-KeepsKey v) cs.hash) ∙ rw h refl

pub check_value-unset :
    (cs : GConfChangeSet) (k : Bytes) → change_set_check_value (change_set_unset cs k) k ≡ some none
unfolding change_set_check_value change_set_unset change_unset
check_value-unset cs k =
    ap value_of (lookup-update_same k change_unset change_unset-KeepsKey cs.hash)
