-- ===== src/Client/Dirs.antt =====
-- Adding and removing directories keeps all of them covered.
use gconf_dbus.Prelude.{
  ℕ, ◌-◌, ◌≡◌, refl, ◌∙◌, true, false, ◌||◌, Option, none, some, List, [], ◌∷◌, All, arith, ◌==◌,
  Bool-cases, inl, inr, All-map, All-zip,
}
use mathlib.Core.Bool.{false≢true}
use gconf_dbus.CString.{Bytes, bytes_eq, bytes_eq_refl}
use gconf_dbus.Keys.{valid_key}
use gconf_dbus.Keys.Order.{key_is_below_refl}
use gconf_dbus.Sources.{GConfError}
use gconf_dbus.Client.{
  Dir, names, find_dir, change_dir, set_add_count, remove_name, Engine, Watched, is_none, is_valid,
  drop_notify, setup_overlaps, insert_dir, add_new_dir, add_found_dir, gconf_client_add_dir,
  add_notifies, gconf_client_real_remove_dir, remove_found_dir, gconf_client_remove_dir,
}
use gconf_dbus.Client.Covered.{
  covered, IsName, IsCoveredIn, IsCovered, setup_overlaps-names, setup_overlaps-lower,
}
use gconf_dbus.Client.Steps.{
  has_name, change_dir-names, count-covered, one_of, IsEngine, Covers, still_covered,
  add_notifies-Covers,
}

all-has : (ns : List Bytes) → All (λ n. has_name n ns ≡ true) ns
all-has [] = tt
all-has (n ∷ ns) = (
  ground (arith, bytes_eq_refl n),
  All-map (λ m. has_name m ns ≡ true) (λ m. has_name m (n ∷ ns) ≡ true) (λ m h. ground (arith, h))
      ns (all-has ns),
)

remove_name-IsName :
    (name : Bytes) (ds : List Dir)
    → All IsName (names ds)
    → All IsName (names (remove_name name ds))
remove_name-IsName name [] h = h
remove_name-IsName name (d ∷ ds) h = elim (Bool-cases (bytes_eq d.name name)) [
  | inl e ↦ rw e (remove_name-IsName name ds h.1)
  | inr e ↦ rw e (h.0, remove_name-IsName name ds h.1)
]

named : (ds : List Dir) → IsCovered ds → All IsName (names ds)
named ds = All-map (IsCoveredIn ds) IsName (λ n h. h.0) (names ds)

count-IsCovered :
    (k : ℕ) (name : Bytes) (ds : List Dir)
    → IsCovered ds
    → IsCovered (change_dir (set_add_count k) name ds)
count-IsCovered k name ds h = rw (change_dir-names (set_add_count k) (λ d. refl) name ds) (
    All-map (IsCoveredIn ds) (IsCoveredIn (change_dir (set_add_count k) name ds))
      (λ m (i, c). (i, count-covered k name m ds ∙ c)) (names ds) h)

valid-IsName : (s : Bytes) → is_valid (valid_key s) ≡ true → IsName s
unfolding valid_key
valid-IsName [] h = absurd (false≢true h)
valid-IsName (c ∷ s) h = λ e. absurd (ground arith)

Covers-IsCovered :
    {E : Type 0} (w : Watched E) (ds : List Dir)
    → All IsName (names ds)
    → Covers w (names ds) ds
    → is_none w.error ≡ true
    → IsCovered w.dirs
Covers-IsCovered w ds i c q =
    rw c.same_names (All-zip IsName (λ n. covered n w.dirs ≡ true) (names ds) i (c.now q))

module _ {E : Type 0} (eng : Engine E) (law : IsEngine eng) where
  module _ (n : Bytes) (i : IsName n) (ds : List Dir) (e : E) (h : IsCovered ds) where
    abbrev with_dir : ℕ → List Dir
    with_dir id =
        record { name = n; notify_id = id; add_count = 1 } ∷ (setup_overlaps eng n ds e).dirs

    with_dir-IsCovered : (id : ℕ) → covered n (with_dir id) ≡ true → IsCovered (with_dir id)
    with_dir-IsCovered id c =
        let kept = setup_overlaps-names eng n i ds e in
        let all_named : All IsName (names (with_dir id)) = (i, rw kept (named ds h)) in
        (
          (i, c),
          rw kept (
              All-map (IsCoveredIn ds) (IsCoveredIn (with_dir id))
                (λ m (j, k). (
                  j,
                  still_covered eng law n i ds (with_dir id) e all_named c
                      (λ m' k'. ground (arith, k')) m k,
                ))
                (names ds) h),
        )

    insert_dir-IsCovered :
        (a : E × ℕ × Option GConfError)
        → one_of a ≡ true
        → is_none (insert_dir eng n (setup_overlaps eng n ds e).dirs a).error ≡ true
        → IsCovered (insert_dir eng n (setup_overlaps eng n ds e).dirs a).dirs
    unfolding insert_dir
    insert_dir-IsCovered (e', id, none) ok q =
        let z : (id == 0) ≡ false = ground (arith, ok) in
        rw z (with_dir-IsCovered id (ground (arith, key_is_below_refl n, z)))
    insert_dir-IsCovered (e', id, some err) ok q = absurd (ground (arith, ok, q))

    add_new_dir-IsCovered :
        (lower : Option Bytes)
        → (is_none lower || covered n (setup_overlaps eng n ds e).dirs) ≡ true
        → is_none
            (add_new_dir eng n lower
              (setup_overlaps eng n ds e).dirs
              (setup_overlaps eng n ds e).engine).error
          ≡ true
        → IsCovered
            (add_new_dir eng n lower
              (setup_overlaps eng n ds e).dirs
              (setup_overlaps eng n ds e).engine).dirs
    unfolding add_new_dir
    add_new_dir-IsCovered none k q =
        let o = setup_overlaps eng n ds e in
        insert_dir-IsCovered (eng.notify_add o.engine n) (law.answers o.engine n) q
    add_new_dir-IsCovered (some l) k q = with_dir-IsCovered 0 (ground (arith, k))

  add_found-IsCovered :
      (n : Bytes) (i : IsName n) (found : Option Dir) (ds : List Dir) (e : E)
      → IsCovered ds
      → is_none (add_found_dir eng n found ds e).error ≡ true
      → IsCovered (add_found_dir eng n found ds e).dirs
  unfolding add_found_dir
  add_found-IsCovered n i none ds e h q =
      add_new_dir-IsCovered n i ds e h (setup_overlaps eng n ds e).lower_dir
        (setup_overlaps-lower eng n i ds e) q
  add_found-IsCovered n i (some d) ds e h q = count-IsCovered _ n ds h

  -- Where the engine answers with an identifier or an error, adding a directory without an error
  -- keeps the table such that each directory has one with a notification at it or above it.
  pub add_dir-IsCovered :
      (n : Bytes) (ds : List Dir) (e : E)
      → IsCovered ds
      → is_none (gconf_client_add_dir eng n ds e).error ≡ true
      → IsCovered (gconf_client_add_dir eng n ds e).dirs
  unfolding gconf_client_add_dir
  add_dir-IsCovered n ds e h q = elim (Bool-cases (is_valid (valid_key n))) [
    | inl v ↦ rw v (add_found-IsCovered n (valid-IsName n v) (find_dir n ds) ds e h (rw v at q))
    | inr v ↦ rw v h
  ]

  real_remove-IsCovered :
      (d : Dir) (ds : List Dir) (e : E)
      → IsCovered ds
      → is_none (gconf_client_real_remove_dir eng d ds e).error ≡ true
      → IsCovered (gconf_client_real_remove_dir eng d ds e).dirs
  unfolding gconf_client_real_remove_dir
  real_remove-IsCovered d ds e h q =
      let rest = remove_name d.name ds in
      let i = remove_name-IsName d.name ds (named ds h) in
      let start : Watched E = record {
        dirs = rest;
        engine = drop_notify eng d.notify_id e;
        error = none;
      } in
      let has =
        All-zip IsName (λ n. has_name n (names rest) ≡ true) (names rest) i
          (all-has (names rest)) in
      Covers-IsCovered (add_notifies eng (names rest) start) rest i
        (add_notifies-Covers eng law (names rest) start i has refl) q

  remove_found-IsCovered :
      (n : Bytes) (found : Option Dir) (ds : List Dir) (e : E)
      → IsCovered ds
      → is_none (remove_found_dir eng n found ds e).error ≡ true
      → IsCovered (remove_found_dir eng n found ds e).dirs
  unfolding remove_found_dir
  remove_found-IsCovered n none ds e h q = h
  remove_found-IsCovered n (some d) ds e h q =
      ground (arith, h, q, real_remove-IsCovered d ds e h, count-IsCovered (d.add_count - 1) n ds h)

  -- Where the engine answers with an identifier or an error, removing a directory without an error
  -- keeps the table such that each directory left has one with a notification at it or above it.
  pub remove_dir-IsCovered :
      (n : Bytes) (ds : List Dir) (e : E)
      → IsCovered ds
      → is_none (gconf_client_remove_dir eng n ds e).error ≡ true
      → IsCovered (gconf_client_remove_dir eng n ds e).dirs
  unfolding gconf_client_remove_dir
  remove_dir-IsCovered n ds e = remove_found-IsCovered n (find_dir n ds) ds e
