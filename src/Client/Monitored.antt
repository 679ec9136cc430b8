-- ===== src/Client/Monitored.antt =====
-- `key_being_monitored` says whether a directory of the client is at the key or above it.
use gconf_dbus.Prelude.{
  ◌≡◌, refl, ◌↔◌, Bool, true, false, ◌||◌, List, [], ◌∷◌, ◌++◌, append_assoc, append-nil, All,
  arith, Bool-cases, inl, inr,
}
use mathlib.Core.Bool.{false≢true}
use gconf_dbus.CString.{Bytes, bytes_eq-eq, bytes_eq_refl}
use gconf_dbus.Keys.{slash, is_root, key_is_below}
use gconf_dbus.Keys.Below.{IsTail, below_prefix-append, prefix-of_below}
use gconf_dbus.Keys.Order.{key_is_below_refl}
use gconf_dbus.Client.{Dir, names}
use gconf_dbus.Client.Covered.{IsName}
use gconf_dbus.Client.Cache.{has_dir, parent_of, monitored_loop, key_being_monitored}

-- A directory of the table is at the key or above it.
abbrev pub watched : Bytes → List Dir → Bool
watched key [] = false
watched key (d ∷ ds) = key_is_below d.name key || watched key ds

watched-has :
    (a key : Bytes) (ds : List Dir)
    → has_dir a ds ≡ true
    → key_is_below a key ≡ true
    → watched key ds ≡ true
watched-has a key [] h k = h
watched-has a key (d ∷ ds) h k = ground (arith, watched-has a key ds, bytes_eq-eq d.name a, h, k)

has-watched :
    (key : Bytes) (ds : List Dir)
    → All IsName (names ds)
    → watched key ds ≡ true
    → (a : Bytes) × IsName a × (has_dir a ds ≡ true) × (key_is_below a key ≡ true)
has-watched key [] i h = absurd (false≢true h)
has-watched key (d ∷ ds) i h = elim (Bool-cases (key_is_below d.name key)) [
  | inl k ↦ (d.name, i.0, ground (arith, bytes_eq_refl d.name), k)
  | inr k ↦
      let (a, j, m, b) = has-watched key ds i.1 (ground (arith, h, k)) in
      (a, j, ground (arith, m), b)
]

loop-found :
    (ds : List Dir) (before s : Bytes)
    → monitored_loop ds before s ≡ true
    → (t u : Bytes) × (s ≡ t ++ slash ∷ u) × (has_dir (parent_of (before ++ t)) ds ≡ true)
unfolding monitored_loop
loop-found ds before [] h = absurd (false≢true h)
loop-found ds before (c ∷ s) h = elim (Bool-cases (monitored_loop ds (before ++ c ∷ []) s)) [
  | inl k ↦
      let (t, u, e, m) = loop-found ds (before ++ c ∷ []) s k in
      (c ∷ t, u, cc (e), rw (append_assoc before (c ∷ []) t) at m)
  | inr k ↦ ([], s, ground (arith, h, k), rw (append-nil before) (ground (arith, h, k)))
]

found-loop :
    (ds : List Dir) (before t u : Bytes)
    → has_dir (parent_of (before ++ t)) ds ≡ true
    → monitored_loop ds before (t ++ slash ∷ u) ≡ true
unfolding monitored_loop
found-loop ds before [] u h = ground (arith, rw (append-nil before) at h)
found-loop ds before (c ∷ t) u h =
    let deeper = found-loop ds (before ++ c ∷ []) t u (rw (append_assoc before (c ∷ []) t) h) in
    ground (arith, deeper)

parent_below : (t u : Bytes) → key_is_below (parent_of t) (t ++ slash ∷ u) ≡ true
unfolding key_is_below is_root
parent_below [] u = refl
parent_below (c ∷ t) u = ground (arith, below_prefix-append (c ∷ t) (slash ∷ u) refl)

root_eq : (a : Bytes) → is_root a ≡ true → a ≡ slash ∷ []
unfolding is_root
root_eq [] h = absurd (false≢true h)
root_eq (c ∷ []) h = ground (arith, h)
root_eq (c ∷ d ∷ a) h = absurd (false≢true h)

parent_of_name : (a : Bytes) → IsName a → parent_of a ≡ a
parent_of_name [] i = absurd (i refl)
parent_of_name (c ∷ a) i = refl

above-monitored :
    (ds : List Dir) (a r : Bytes)
    → IsName a
    → IsTail r
    → has_dir a ds ≡ true
    → key_being_monitored ds (a ++ r) ≡ true
unfolding key_being_monitored
above-monitored ds a [] i tail h = rw (append-nil a, h) refl
above-monitored ds a (c ∷ r) i tail h =
    let found : monitored_loop ds [] (a ++ c ∷ r) ≡ true =
      rw tail (found-loop ds [] a r (rw (parent_of_name a i) h)) in
    ground (arith, found)

root-monitored :
    (ds : List Dir) (s : Bytes)
    → has_dir (slash ∷ []) ds ≡ true
    → key_being_monitored ds (slash ∷ s) ≡ true
unfolding key_being_monitored
root-monitored ds s m = ground (arith, found-loop ds [] [] s m)

below-monitored :
    (ds : List Dir) (a s : Bytes)
    → IsName a
    → has_dir a ds ≡ true
    → key_is_below a (slash ∷ s) ≡ true
    → key_being_monitored ds (slash ∷ s) ≡ true
unfolding key_is_below
below-monitored ds a s i h k = elim (Bool-cases (is_root a)) [
  | inl r ↦ root-monitored ds s (rw (root_eq a r) at h)
  | inr r ↦
      let (q, tail, e) = prefix-of_below a (slash ∷ s) (ground (arith, k, r)) in
      rw e (above-monitored ds a q i tail h)
]

monitored-watched :
    (ds : List Dir) (s : Bytes)
    → key_being_monitored ds (slash ∷ s) ≡ true
    → watched (slash ∷ s) ds ≡ true
unfolding key_being_monitored
monitored-watched ds s h = elim (Bool-cases (has_dir (slash ∷ s) ds)) [
  | inl m ↦ watched-has (slash ∷ s) (slash ∷ s) ds m (key_is_below_refl (slash ∷ s))
  | inr m ↦
      let (t, u, e, q) = loop-found ds [] (slash ∷ s) (ground (arith, h, m)) in
      rw e (watched-has (parent_of t) (t ++ slash ∷ u) ds q (parent_below t u))
]

-- A key that begins with a slash is monitored exactly when a directory of the table, none of which
-- has an empty name, is at the key or above it.
pub key_being_monitored_iff :
    (ds : List Dir) (s : Bytes)
    → All IsName (names ds)
    → (key_being_monitored ds (slash ∷ s) ≡ true) ↔ (watched (slash ∷ s) ds ≡ true)
key_being_monitored_iff ds s i = (
  monitored-watched ds s,
  λ w. let (a, j, h, k) = has-watched (slash ∷ s) ds i w in below-monitored ds a s j h k,
)
