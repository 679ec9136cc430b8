-- ===== src/Client/Covered.antt =====
-- Every directory of a client has a directory with a notification at it or above it.
use gconf_dbus.Prelude.{
  ◌≡◌, refl, ◌≢◌, Bool, true, false, not, ◌&&◌, ◌||◌, List, [], ◌∷◌, All, arith, Option, none, some,
  ◌==◌,
}
use mathlib.Core.Bool.{false≢true}
use gconf_dbus.CString.{Bytes}
use gconf_dbus.Keys.{key_is_below}
use gconf_dbus.Keys.Order.{key_is_below_trans}
use gconf_dbus.Client.{
  Dir, names, Engine, is_none, foreach_setup_overlap, overlaps_loop, setup_overlaps,
}

-- The directory has a notification, and is at the name or above it.
abbrev pub notices : Bytes → Dir → Bool
notices name d = not (d.notify_id == 0) && key_is_below d.name name

abbrev pub covered : Bytes → List Dir → Bool
covered name [] = false
covered name (d ∷ ds) = notices name d || covered name ds

abbrev pub IsCoveredIn : List Dir → Bytes → Type 0
IsCoveredIn ds name = (name ≢ []) × (covered name ds ≡ true)

-- The invariant of the table of directories.
abbrev pub IsCovered : List Dir → Type 0
IsCovered ds = All (IsCoveredIn ds) (names ds)

abbrev pub IsName : Bytes → Type 0
IsName name = name ≢ []

notices_trans :
    (n m : Bytes) (d : Dir)
    → IsName d.name
    → notices n d ≡ true
    → key_is_below n m ≡ true
    → notices m d ≡ true
notices_trans n m d i h k = ground (arith, key_is_below_trans d.name n m i, h, k)

pub covered_trans :
    (n m : Bytes) (ds : List Dir)
    → All IsName (names ds)
    → covered n ds ≡ true
    → key_is_below n m ≡ true
    → covered m ds ≡ true
covered_trans n m [] i h k = h
covered_trans n m (d ∷ ds) i h k =
    ground (arith, notices_trans n m d i.0, covered_trans n m ds i.1, h, k)

module _ {E : Type 0} (eng : Engine E) (n : Bytes) (i : IsName n) where
  visit-name :
      (lower : Option Bytes) (d : Dir) (e : E)
      → (foreach_setup_overlap eng n lower d e).dir.name ≡ d.name
  unfolding foreach_setup_overlap
  visit-name lower d e = ground arith

  -- What a directory notices, it notices still, or it is below the new name.
  visit-notices :
      (m : Bytes) (lower : Option Bytes) (d : Dir) (e : E)
      → notices m d ≡ true
      → (notices m (foreach_setup_overlap eng n lower d e).dir || key_is_below n m) ≡ true
  unfolding foreach_setup_overlap
  visit-notices m lower d e h = ground (arith, key_is_below_trans n d.name m i, h)

  visit-lower :
      (lower : Option Bytes) (d : Dir) (e : E)
      → (is_none (foreach_setup_overlap eng n lower d e).lower_dir
          || (not (is_none lower) || notices n (foreach_setup_overlap eng n lower d e).dir))
        ≡ true
  unfolding foreach_setup_overlap
  visit-lower lower d e = ground arith

  loop-names :
      (lower : Option Bytes) (ds : List Dir) (e : E)
      → names (overlaps_loop eng n lower ds e).dirs ≡ names ds
  unfolding overlaps_loop
  loop-names lower [] e = refl
  loop-names lower (d ∷ ds) e =
      let here = foreach_setup_overlap eng n lower d e in
      cc (visit-name lower d e, loop-names here.lower_dir ds here.engine)

  loop-covered :
      (m : Bytes) (lower : Option Bytes) (ds : List Dir) (e : E)
      → covered m ds ≡ true
      → (covered m (overlaps_loop eng n lower ds e).dirs || key_is_below n m) ≡ true
  unfolding overlaps_loop
  loop-covered m lower [] e h = absurd (false≢true h)
  loop-covered m lower (d ∷ ds) e h =
      let here = foreach_setup_overlap eng n lower d e in
      ground (arith, visit-notices m lower d e, loop-covered m here.lower_dir ds here.engine, h)

  loop-lower :
      (lower : Option Bytes) (ds : List Dir) (e : E)
      → (is_none (overlaps_loop eng n lower ds e).lower_dir
          || (not (is_none lower) || covered n (overlaps_loop eng n lower ds e).dirs))
        ≡ true
  unfolding overlaps_loop
  loop-lower none [] e = refl
  loop-lower (some l) [] e = refl
  loop-lower lower (d ∷ ds) e =
      let here = foreach_setup_overlap eng n lower d e in
      ground (arith, visit-lower lower d e, loop-lower here.lower_dir ds here.engine)

  pub setup_overlaps-names :
      (ds : List Dir) (e : E) → names (setup_overlaps eng n ds e).dirs ≡ names ds
  unfolding setup_overlaps
  setup_overlaps-names ds e = loop-names none ds e

  -- Once the name is covered after `setup_overlaps`, all that was covered is.
  pub setup_overlaps-covered :
      (m : Bytes) (ds : List Dir) (e : E)
      → covered m ds ≡ true
      → (covered m (setup_overlaps eng n ds e).dirs || key_is_below n m) ≡ true
  unfolding setup_overlaps
  setup_overlaps-covered m ds e h = loop-covered m none ds e h

  -- A directory found above has its notification still.
  pub setup_overlaps-lower :
      (ds : List Dir) (e : E)
      → (is_none (setup_overlaps eng n ds e).lower_dir
          || covered n (setup_overlaps eng n ds e).dirs)
        ≡ true
  unfolding setup_overlaps
  setup_overlaps-lower ds e = loop-lower none ds e
