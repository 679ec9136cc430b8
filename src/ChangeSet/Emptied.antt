-- ===== src/ChangeSet/Emptied.antt =====
-- What `gconf_engine_commit_change_set` leaves in a set with `remove_committed`.
use gconf_dbus.Prelude.{
  ◌≡◌, ◌≢◌, refl, ◌∙◌, ap, sym, subst, inl, inr, Bool, true, false, ◌||◌, none, some, List, [], ◌∷◌,
  Bool-cases, All,
}
use mathlib.Core.Bool.{false≢true}
use gconf_dbus.CString.{Bytes, bytes_eq, bytes_eq-eq, bytes_eq_refl, bytes_eq_ne}
use gconf_dbus.ChangeSet.{
  Change, GConfChangeSet, lookup_change, remove_change, change_set_remove, remove_all, Engine,
  CommitData, engine_change, commit_loop, commit_change_set,
}
use gconf_dbus.ChangeSet.Lookup.{IsDistinct, lookup-here, lookup-past, bytes_eq_of_ne}
use gconf_dbus.ChangeSet.Commit.{IsStore, under_way, commit_foreach-ok}

abbrev has_key : List Bytes → Bytes → Bool
has_key [] k = false
has_key (j ∷ js) k = bytes_eq j k || has_key js k

-- The key of each change is in the list.
abbrev AreCovered : List Bytes → List Change → Type 0
AreCovered keys cs = All (λ c. has_key keys c.key ≡ true) cs

or_true : (a : Bool) → (a || true) ≡ true
or_true true = refl
or_true false = refl

some≢none : {c : Change} → some c ≢ none
some≢none e = cc

remove-here :
    (k : Bytes) (c : Change) (cs : List Change)
    → bytes_eq c.key k ≡ true
    → remove_change k (c ∷ cs) ≡ cs
unfolding remove_change
remove-here k c cs e = rw (remove_change, e) refl

remove-past :
    (k : Bytes) (c : Change) (cs : List Change)
    → bytes_eq c.key k ≡ false
    → remove_change k (c ∷ cs) ≡ c ∷ remove_change k cs
unfolding remove_change
remove-past k c cs e = rw (remove_change, e) refl

covered_past :
    (k j : Bytes) (keys : List Bytes) → k ≢ j → has_key (k ∷ keys) j ≡ true → has_key keys j ≡ true
covered_past k j keys ne h =
    ap (λ (b : Bool). b || has_key keys j) (sym (bytes_eq_of_ne k j ne)) ∙ h

absent-AreCovered :
    (k : Bytes) (keys : List Bytes) (cs : List Change)
    → lookup_change k cs ≡ none
    → AreCovered (k ∷ keys) cs
    → AreCovered keys cs
absent-AreCovered k keys [] h v = tt
absent-AreCovered k keys (c ∷ cs) h v = elim (Bool-cases (bytes_eq c.key k)) [
  | inl e ↦ absurd (some≢none (sym (lookup-here k c cs e) ∙ h))
  | inr e ↦ (
    covered_past k c.key keys (λ p. bytes_eq_ne c.key k e (sym p)) v.0,
    absent-AreCovered k keys cs (sym (lookup-past k c cs e) ∙ h) v.1,
  )
]

remove-AreCovered :
    (k : Bytes) (keys : List Bytes) (cs : List Change)
    → IsDistinct cs
    → AreCovered (k ∷ keys) cs
    → AreCovered keys (remove_change k cs)
unfolding IsDistinct remove_change
remove-AreCovered k keys [] d v = tt
remove-AreCovered k keys (c ∷ cs) d v = elim (Bool-cases (bytes_eq c.key k)) [
  | inl e ↦
      let absent = ap (λ (x : Bytes). lookup_change x cs) (sym (bytes_eq-eq c.key k e)) ∙ d.0 in
      rw (remove-here k c cs e) (absent-AreCovered k keys cs absent v.1)
  | inr e ↦ rw (remove-past k c cs e) (
    covered_past k c.key keys (λ p. bytes_eq_ne c.key k e (sym p)) v.0,
    remove-AreCovered k keys cs d.1 v.1,
  )
]

lookup-remove_absent :
    (j k : Bytes) (cs : List Change)
    → lookup_change j cs ≡ none
    → lookup_change j (remove_change k cs) ≡ none
unfolding remove_change lookup_change
lookup-remove_absent j k [] h = refl
lookup-remove_absent j k (c ∷ cs) h = elim (Bool-cases (bytes_eq c.key j)) [
  | inl e ↦ absurd (some≢none (sym (lookup-here j c cs e) ∙ h))
  | inr e ↦
      let absent = sym (lookup-past j c cs e) ∙ h in
      elim (Bool-cases (bytes_eq c.key k)) [
        | inl q ↦ ap (lookup_change j) (remove-here k c cs q) ∙ absent
        | inr q ↦
            ap (lookup_change j) (remove-past k c cs q)
            ∙ lookup-past j c (remove_change k cs) e
            ∙ lookup-remove_absent j k cs absent
      ]
]

remove-IsDistinct : (k : Bytes) (cs : List Change) → IsDistinct cs → IsDistinct (remove_change k cs)
unfolding IsDistinct remove_change
remove-IsDistinct k [] d = tt
remove-IsDistinct k (c ∷ cs) d = elim (Bool-cases (bytes_eq c.key k)) [
  | inl e ↦ rw (remove-here k c cs e) d.1
  | inr e ↦
      rw (remove-past k c cs e) (lookup-remove_absent c.key k cs d.0, remove-IsDistinct k cs d.1)
]

not_covered : (cs : List Change) → AreCovered [] cs → cs ≡ []
not_covered [] v = refl
not_covered (c ∷ cs) v = absurd (false≢true v.0)

remove-hash :
    (cs : GConfChangeSet) (k : Bytes)
    → cs.in_foreach ≡ 0
    → change_set_remove cs k ≡ record { hash = remove_change k cs.hash; in_foreach = cs.in_foreach }
unfolding change_set_remove
remove-hash cs k z = rw (change_set_remove, z) refl

remove_all-empties :
    (keys : List Bytes) (hash : List Change)
    → IsDistinct hash
    → AreCovered keys hash
    → (remove_all (record { hash = hash; in_foreach = 0 }) keys).hash ≡ []
remove_all-empties [] hash d v = not_covered hash v
remove_all-empties (k ∷ keys) hash d v =
    ap (λ (cs : GConfChangeSet). (remove_all cs keys).hash)
      (remove-hash (record { hash = hash; in_foreach = 0 }) k refl)
    ∙ remove_all-empties keys (remove_change k hash) (remove-IsDistinct k hash d)
        (remove-AreCovered k keys hash d v)

module _ {E : Type 0} (conf : Engine E) (store : IsStore conf) where
  abbrev committed_keys : List Change → E → List Bytes → List Bytes
  committed_keys cs e keys = (commit_loop conf true cs (under_way conf store e keys)).remove_list

  committed_keys-cons :
      (c : Change) (cs : List Change) (e : E) (keys : List Bytes)
      → committed_keys (c ∷ cs) e keys
        ≡ committed_keys cs (engine_change conf e c.key c.value).0 (c.key ∷ keys)
  unfolding commit_loop
  committed_keys-cons c cs e keys =
      ap (λ (cd : CommitData E). (commit_loop conf true cs cd).remove_list)
        (commit_foreach-ok conf store true c e keys)

  committed_keys-keeps :
      (cs : List Change) (e : E) (keys : List Bytes) (k : Bytes)
      → has_key keys k ≡ true
      → has_key (committed_keys cs e keys) k ≡ true
  unfolding commit_loop
  committed_keys-keeps [] e keys k h = h
  committed_keys-keeps (c ∷ cs) e keys k h =
      ap (λ (ks : List Bytes). has_key ks k) (committed_keys-cons c cs e keys)
      ∙ committed_keys-keeps cs (engine_change conf e c.key c.value).0 (c.key ∷ keys) k
          (ap (λ (b : Bool). bytes_eq c.key k || b) h ∙ or_true (bytes_eq c.key k))

  committed_keys-AreCovered :
      (cs : List Change) (e : E) (keys : List Bytes) → AreCovered (committed_keys cs e keys) cs
  unfolding commit_loop
  committed_keys-AreCovered [] e keys = tt
  committed_keys-AreCovered (c ∷ cs) e keys =
      let e' = (engine_change conf e c.key c.value).0 in
      subst (λ (ks : List Bytes). AreCovered ks (c ∷ cs)) (sym (committed_keys-cons c cs e keys))
        (
          committed_keys-keeps cs e' (c.key ∷ keys) c.key
              (ap (λ (b : Bool). b || has_key keys c.key) (bytes_eq_refl c.key)),
          committed_keys-AreCovered cs e' (c.key ∷ keys),
        )

  -- With `remove_committed`, and no traversal of the set under way, a commit leaves the set empty.
  -- The engine has to store what it is told, and no key may be in the set twice.
  pub commit_change_set-empties :
      (e : E) (hash : List Change)
      → IsDistinct hash
      → (commit_change_set conf e (record { hash = hash; in_foreach = 0 }) true).changes.hash ≡ []
  unfolding commit_change_set
  commit_change_set-empties e hash d =
      remove_all-empties (committed_keys hash e []) hash d (committed_keys-AreCovered hash e [])
