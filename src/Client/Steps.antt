-- ===== src/Client/Steps.antt =====
-- Adding the notifications that are missing: `foreach_add_notifies` covers its directory and
-- leaves covered what was.
use gconf_dbus.Prelude.{
  ℕ, ◌≡◌, refl, sym, ◌∙◌, Bool, true, false, not, ◌||◌, Option, none, some, List, [], ◌∷◌, All,
  arith, ◌==◌, Bool-cases, inl, inr, if◌then◌else◌,
}
use mathlib.Core.Bool.{true≢false}
use gconf_dbus.CString.{Bytes, bytes_eq, bytes_eq-eq}
use gconf_dbus.Keys.Order.{key_is_below_refl}
use gconf_dbus.Sources.{GConfError}
use gconf_dbus.Client.{
  Dir, names, find_dir, change_dir, set_notify_id, set_add_count, Engine, Watched, is_none,
  setup_overlaps, notified, notify_unless, notify_dir, foreach_add_notifies, add_notifies,
}
use gconf_dbus.Client.Covered.{
  covered, IsName, covered_trans, setup_overlaps-names, setup_overlaps-covered,
  setup_overlaps-lower,
}

abbrev pub has_name : Bytes → List Bytes → Bool
has_name name [] = false
has_name name (n ∷ ns) = bytes_eq n name || has_name name ns

pub find_dir-none :
    (name : Bytes) (ds : List Dir) → find_dir name ds ≡ none → has_name name (names ds) ≡ false
find_dir-none name [] h = refl
find_dir-none name (d ∷ ds) h = ground (arith, find_dir-none name ds, h)

pub change_dir-names :
    (f : Dir → Dir) (keeps : (d : Dir) → (f d).name ≡ d.name) (name : Bytes) (ds : List Dir)
    → names (change_dir f name ds) ≡ names ds
change_dir-names f keeps name [] = refl
change_dir-names f keeps name (d ∷ ds) = ground (arith, keeps d, change_dir-names f keeps name ds)

pub count-covered :
    (k : ℕ) (name m : Bytes) (ds : List Dir)
    → covered m (change_dir (set_add_count k) name ds) ≡ covered m ds
count-covered k name m [] = refl
count-covered k name m (d ∷ ds) = ground (arith, count-covered k name m ds)

id-covered :
    (id : ℕ) (name m : Bytes) (ds : List Dir)
    → (id == 0) ≡ false
    → covered m ds ≡ true
    → covered m (change_dir (set_notify_id id) name ds) ≡ true
id-covered id name m [] z h = h
id-covered id name m (d ∷ ds) z h = ground (arith, id-covered id name m ds z, z, h)

id_covers :
    (id : ℕ) (name : Bytes) (ds : List Dir)
    → (id == 0) ≡ false
    → has_name name (names ds) ≡ true
    → covered name (change_dir (set_notify_id id) name ds) ≡ true
id_covers id name [] z h = h
id_covers id name (d ∷ ds) z h =
    ground (arith, id_covers id name ds z, bytes_eq-eq d.name name, key_is_below_refl d.name, z, h)

found_covers :
    (name : Bytes) (d : Dir) (ds : List Dir)
    → find_dir name ds ≡ some d
    → (d.notify_id == 0) ≡ false
    → covered name ds ≡ true
found_covers name d [] f z = absurd (ground arith)
found_covers name d (x ∷ ds) f z =
    ground (arith, found_covers name d ds, bytes_eq-eq x.name name, key_is_below_refl x.name, z, f)

-- An identifier, or an error.
abbrev pub one_of : {E : Type 0} → E × ℕ × Option GConfError → Bool
one_of (e, id, error) = if id == 0 then not (is_none error) else is_none error

-- What gconf_engine_notify_add promises.
pub record IsEngine {E : Type 0} (eng : Engine E) : Type 0 where
  pub answers : (e : E) (name : Bytes) → one_of (eng.notify_add e name) ≡ true

pub record Covers {E : Type 0} (w : Watched E) (ns : List Bytes) (ds : List Dir) : Type 0 where
  pub same_names : names w.dirs ≡ names ds
  pub now : is_none w.error ≡ true → All (λ n. covered n w.dirs ≡ true) ns
  pub still : is_none w.error ≡ true → (m : Bytes) → covered m ds ≡ true → covered m w.dirs ≡ true

module _ {E : Type 0} (eng : Engine E) (law : IsEngine eng) where
  module _ (n : Bytes) (i : IsName n) where
    -- Of what `setup_overlaps` took the notification from, the name is above.
    pub still_covered :
        (ds new : List Dir) (e : E)
        → All IsName (names new)
        → covered n new ≡ true
        → ((m : Bytes) → covered m (setup_overlaps eng n ds e).dirs ≡ true → covered m new ≡ true)
        → (m : Bytes) → covered m ds ≡ true
        → covered m new ≡ true
    still_covered ds new e named h k m c =
        ground (arith, setup_overlaps-covered eng n i m ds e c, covered_trans n m new named h, k m)

    notified-Covers :
        (ds : List Dir) (e : E) (a : E × ℕ × Option GConfError)
        → All IsName (names ds)
        → has_name n (names ds) ≡ true
        → one_of a ≡ true
        → Covers (notified eng n (setup_overlaps eng n ds e).dirs a) (n ∷ []) ds
    notified-Covers ds e (e', id, error) named has ok =
        let kept = setup_overlaps-names eng n i ds e in
        let same =
          change_dir-names (set_notify_id id) (λ d. refl) n (setup_overlaps eng n ds e).dirs
          ∙ kept in
        let z : is_none error ≡ true → (id == 0) ≡ false = λ q. ground (arith, ok, q) in
        let here : (q : is_none error ≡ true) → _ =
          λ q. id_covers id n (setup_overlaps eng n ds e).dirs (z q) (rw kept has) in
        record {
          same_names = same;
          now = λ q. (here q, tt);
          still = λ q m.
              still_covered ds (change_dir (set_notify_id id) n (setup_overlaps eng n ds e).dirs) e
                (rw same named) (here q)
                (λ m'. id-covered id n m' (setup_overlaps eng n ds e).dirs (z q)) m;
        }

    notify_unless-Covers :
        (lower : Option Bytes) (ds : List Dir) (e : E)
        → All IsName (names ds)
        → has_name n (names ds) ≡ true
        → (is_none lower || covered n (setup_overlaps eng n ds e).dirs) ≡ true
        → Covers
            (notify_unless eng n lower
              (setup_overlaps eng n ds e).dirs
              (setup_overlaps eng n ds e).engine)
            (n ∷ [])
            ds
    unfolding notify_unless
    notify_unless-Covers none ds e named has h =
        let o = setup_overlaps eng n ds e in
        notified-Covers ds e (eng.notify_add o.engine n) named has (law.answers o.engine n)
    notify_unless-Covers (some l) ds e named has h =
        let o = setup_overlaps eng n ds e in
        let kept = setup_overlaps-names eng n i ds e in
        record {
          same_names = kept;
          now = λ x. (h, tt);
          still = λ x. still_covered ds o.dirs e (rw kept named) h (λ m c. c);
        }

    kept-Covers :
        (ds : List Dir) (e : E)
        → covered n ds ≡ true
        → Covers (record { dirs = ds; engine = e; error = none }) (n ∷ []) ds
    kept-Covers ds e h = record { same_names = refl; now = λ x. (h, tt); still = λ x m c. c }

    notify_dir-Covers :
        (found : Option Dir) (ds : List Dir) (e : E)
        → find_dir n ds ≡ found
        → All IsName (names ds)
        → has_name n (names ds) ≡ true
        → Covers (notify_dir eng n found ds e) (n ∷ []) ds
    unfolding notify_dir
    notify_dir-Covers none ds e q named has = absurd (true≢false (sym has ∙ find_dir-none n ds q))
    notify_dir-Covers (some d) ds e q named has = elim (Bool-cases (d.notify_id == 0)) [
      | inl z ↦ rw z (
          notify_unless-Covers (setup_overlaps eng n ds e).lower_dir ds e named has
            (setup_overlaps-lower eng n i ds e))
      | inr z ↦ rw z (kept-Covers ds e (found_covers n d ds q z))
    ]

    pub foreach-Covers :
        (ds : List Dir) (e : E)
        → All IsName (names ds)
        → has_name n (names ds) ≡ true
        → Covers (foreach_add_notifies eng n ds e) (n ∷ []) ds
    unfolding foreach_add_notifies
    foreach-Covers ds e = notify_dir-Covers (find_dir n ds) ds e refl

  add_notifies-error :
      (ns : List Bytes) (w : Watched E) → is_none w.error ≡ false → add_notifies eng ns w ≡ w
  unfolding add_notifies
  add_notifies-error [] w h = refl
  add_notifies-error (n ∷ ns) w h = ground (arith, h)

  failed-Covers :
      (w : Watched E) (ns : List Bytes) (ds : List Dir)
      → names w.dirs ≡ names ds
      → is_none w.error ≡ false
      → Covers w ns ds
  failed-Covers w ns ds same h = record {
    same_names = same;
    now = λ q. absurd (true≢false (sym q ∙ h));
    still = λ q. absurd (true≢false (sym q ∙ h));
  }

  -- A round that went well, and the others.
  next-Covers :
      (n : Bytes) (ns : List Bytes) (ds : List Dir) (x y : Watched E)
      → Covers x (n ∷ []) ds
      → is_none x.error ≡ true
      → Covers y ns x.dirs
      → Covers y (n ∷ ns) ds
  next-Covers n ns ds x y c h d = record {
    same_names = d.same_names ∙ c.same_names;
    now = λ q. (d.still q n (c.now h).0, d.now q);
    still = λ q m k. d.still q m (c.still h m k);
  }

  -- `foreach_add_notifies` for some names of the table, unless it ends with an error.
  pub add_notifies-Covers :
      (ns : List Bytes) (w : Watched E)
      → All IsName (names w.dirs)
      → All (λ n. IsName n × (has_name n (names w.dirs) ≡ true)) ns
      → is_none w.error ≡ true
      → Covers (add_notifies eng ns w) ns w.dirs
  unfolding add_notifies
  add_notifies-Covers [] w named has h = record {
    same_names = refl;
    now = λ q. tt;
    still = λ q m k. k;
  }
  add_notifies-Covers (n ∷ ns) w named has h =
      let x = foreach_add_notifies eng n w.dirs w.engine in
      let c = foreach-Covers n has.0.0 w.dirs w.engine named has.0.1 in
      elim (Bool-cases (is_none x.error)) [
        | inl z ↦ rw h (
            next-Covers n ns w.dirs x (add_notifies eng ns x) c z
              (add_notifies-Covers ns x (rw c.same_names named) (rw c.same_names has.1) z))
        | inr z ↦ rw (h, add_notifies-error ns x z) (failed-Covers x (n ∷ ns) w.dirs c.same_names z)
      ]
