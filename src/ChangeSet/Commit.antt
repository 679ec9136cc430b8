-- ===== src/ChangeSet/Commit.antt =====
-- `gconf_engine_commit_change_set` on an engine that stores what it is told.
use gconf_dbus.Prelude.{
  ℕ, ◌≡◌, ◌≢◌, refl, ◌∙◌, ap, sym, inl, inr, Bool, true, false, Option, none, some, List, [], ◌∷◌,
  if◌then◌else◌, Bool-cases, All,
}
use gconf_dbus.CString.{Bytes, bytes_eq, bytes_eq-eq, bytes_eq_ne}
use gconf_dbus.Value.{GConfValue, value_type}
use gconf_dbus.ChangeSet.{
  Change, GConfChangeSet, type_valid, lookup_change, value_of, Engine, CommitData, engine_change,
  note_committed, commit_foreach, commit_loop, commit_change_set,
}
use gconf_dbus.ChangeSet.Lookup.{lookup-here, lookup-past, IsDistinct}

-- Nothing, or a value of a type other than invalid.
unfoldable pub IsValid : Option GConfValue → Type 0
IsValid none = Unit
IsValid (some v) = type_valid (value_type v) ≡ true

-- The engine reports no errors, reads back a valid value that was set, reads nothing where a key was unset, and
-- leaves the other keys as they are. It holds no values of type invalid.
pub record IsStore {E : Type 0} (conf : Engine E) : Type 0 where
  pub set_ok : (e : E) (k : Bytes) (v : GConfValue) → (conf.set e k v).1 ≡ none
  pub unset_ok : (e : E) (k : Bytes) → (conf.unset e k).1 ≡ none
  pub get-set :
      (e : E) (k : Bytes) (v : GConfValue)
      → type_valid (value_type v) ≡ true
      → (conf.get (conf.set e k v).0 k).0 ≡ some v
  pub get-set_other :
      (e : E) (k j : Bytes) (v : GConfValue)
      → k ≢ j
      → (conf.get (conf.set e k v).0 j).0 ≡ (conf.get e j).0
  pub get-unset : (e : E) (k : Bytes) → (conf.get (conf.unset e k).0 k).0 ≡ none
  pub get-unset_other :
      (e : E) (k j : Bytes) → k ≢ j → (conf.get (conf.unset e k).0 j).0 ≡ (conf.get e j).0
  pub get_valid :
      (e : E) (k : Bytes) (v : GConfValue)
      → (conf.get e k).0 ≡ some v
      → type_valid (value_type v) ≡ true

abbrev pub AreValid : List Change → Type 0
AreValid cs = All (λ c. IsValid c.value) cs

-- The value of a key behind the changes, one after the other.
unfoldable pub value_after : List Change → Bytes → Option GConfValue → Option GConfValue
value_after [] k old = old
value_after (c ∷ cs) k old = value_after cs k (if bytes_eq c.key k then c.value else old)

abbrev pub override : Option (Option GConfValue) → Option GConfValue → Option GConfValue
override none old = old
override (some v) old = v

some≢none : {c : Change} → some c ≢ none
some≢none e = cc

value_after-absent :
    (cs : List Change) (k : Bytes) (old : Option GConfValue)
    → lookup_change k cs ≡ none
    → value_after cs k old ≡ old
unfolding value_after
value_after-absent [] k old h = refl
value_after-absent (c ∷ cs) k old h = elim (Bool-cases (bytes_eq c.key k)) [
  | inl e ↦ absurd (some≢none (sym (lookup-here k c cs e) ∙ h))
  | inr e ↦ rw e (value_after-absent cs k old (sym (lookup-past k c cs e) ∙ h))
]

pub value_after-distinct :
    (cs : List Change) (k : Bytes) (old : Option GConfValue)
    → IsDistinct cs
    → value_after cs k old ≡ override (value_of (lookup_change k cs)) old
unfolding value_after IsDistinct lookup_change
value_after-distinct [] k old d = refl
value_after-distinct (c ∷ cs) k old d = elim (Bool-cases (bytes_eq c.key k)) [
  | inl e ↦
      let absent = ap (λ (x : Bytes). lookup_change x cs) (sym (bytes_eq-eq c.key k e)) ∙ d.0 in
      ap (λ (b : Bool). value_after cs k (if b then c.value else old)) e
      ∙ value_after-absent cs k c.value absent
      ∙ ap (λ (o : Option Change). override (value_of o) old) (sym (lookup-here k c cs e))
  | inr e ↦
      ap (λ (b : Bool). value_after cs k (if b then c.value else old)) e
      ∙ value_after-distinct cs k old d.1
      ∙ ap (λ (o : Option Change). override (value_of o) old) (sym (lookup-past k c cs e))
]

module _ {E : Type 0} (conf : Engine E) (store : IsStore conf) where
  engine_change-ok :
      (e : E) (k : Bytes) (v : Option GConfValue) → (engine_change conf e k v).1 ≡ none
  engine_change-ok e k none = store.unset_ok e k
  engine_change-ok e k (some v) = store.set_ok e k v

  get-engine_change :
      (e : E) (k j : Bytes) (v : Option GConfValue)
      → IsValid v
      → (conf.get (engine_change conf e k v).0 j).0 ≡ (if bytes_eq k j then v else (conf.get e j).0)
  unfolding IsValid
  get-engine_change e k j v valid = elim (Bool-cases (bytes_eq k j)) [
    | inl q ↦ rw (q, ← bytes_eq-eq k j q) (get_same v valid)
    | inr q ↦ rw q (get_other v (bytes_eq_ne k j q))
  ]
    where
      get_same :
          (v : Option GConfValue) → IsValid v → (conf.get (engine_change conf e k v).0 k).0 ≡ v
      get_same none h = store.get-unset e k
      get_same (some u) h = store.get-set e k u h

      get_other :
          (v : Option GConfValue)
          → k ≢ j
          → (conf.get (engine_change conf e k v).0 j).0 ≡ (conf.get e j).0
      get_other none ne = store.get-unset_other e k j ne
      get_other (some u) ne = store.get-set_other e k j u ne

  abbrev pub note_if : Bool → Bytes → List Bytes → List Bytes
  note_if true k keys = k ∷ keys
  note_if false k keys = keys

  abbrev pub under_way : E → List Bytes → CommitData E
  under_way e keys = record { engine = e; error = none; remove_list = keys }

  note-ok :
      (rc : Bool) (k : Bytes) (keys : List Bytes) (e : E) (err : Option ℕ)
      → err ≡ none
      → note_committed conf rc k keys (e, err) ≡ under_way e (note_if rc k keys)
  note-ok true k keys e err h = rw h refl
  note-ok false k keys e err h = rw h refl

  pub commit_foreach-ok :
      (rc : Bool) (c : Change) (e : E) (keys : List Bytes)
      → commit_foreach conf rc c (under_way e keys)
        ≡ under_way (engine_change conf e c.key c.value).0 (note_if rc c.key keys)
  unfolding commit_foreach
  commit_foreach-ok rc c e keys =
      let (e', err) = engine_change conf e c.key c.value in
      note-ok rc c.key keys e' err (engine_change-ok e c.key c.value)

  -- The loop reports no error, and the engine holds the values behind the changes.
  commit_loop-get :
      (rc : Bool) (cs : List Change) (e : E) (keys : List Bytes) (k : Bytes)
      → AreValid cs
      → ((commit_loop conf rc cs (under_way e keys)).error ≡ none)
        × ((conf.get (commit_loop conf rc cs (under_way e keys)).engine k).0
            ≡ value_after cs k (conf.get e k).0)
  unfolding commit_loop value_after
  commit_loop-get rc [] e keys k valid = (refl, refl)
  commit_loop-get rc (c ∷ cs) e keys k valid =
      let e' = (engine_change conf e c.key c.value).0 in
      let step = commit_foreach-ok rc c e keys in
      let (h, g) = commit_loop-get rc cs e' (note_if rc c.key keys) k valid.1 in
      (
        ap (λ (cd : CommitData E). (commit_loop conf rc cs cd).error) step ∙ h,
        ap (λ (cd : CommitData E). (conf.get (commit_loop conf rc cs cd).engine k).0) step
            ∙ g
            ∙ ap (value_after cs k) (get-engine_change e c.key k c.value valid.0),
      )

  pub get-commit_change_set :
      (e : E) (cs : GConfChangeSet) (rc : Bool) (k : Bytes)
      → AreValid cs.hash
      → (conf.get (commit_change_set conf e cs rc).engine k).0
        ≡ value_after cs.hash k (conf.get e k).0
  unfolding commit_change_set
  get-commit_change_set e cs rc k valid = (commit_loop-get rc cs.hash e [] k valid).1
