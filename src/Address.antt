-- ===== src/Address.antt =====
-- gconf/gconf-backend.c: the addresses of sources, a backend, flags and a resource with a colon
-- behind each of the first two, as in xml:readonly:/etc/gconf; and `gconf_backend_resolve_address`.
-- Not for Windows. `g_strsplit (s, ",", 0)` is a parameter.
pub mod Parts
pub mod Flags
mod Tests
use gconf_dbus.Prelude.{
  ℕ, ◌≡◌, ◌≢◌, Bool, true, false, Option, none, some, List, [], ◌∷◌, ◌++◌, All, ◌==◌, if◌then◌else◌,
  ◌>>=◌,
}
use gconf_dbus.CString.{Bytes, bytes_eq, codes}
use gconf_dbus.Keys.{is_invalid_char}
use gconf_dbus.Sources.{GConfSource, GConfError}

abbrev pub colon : ℕ
colon = b':'

abbrev pub comma : ℕ
comma = b','

-- `gconf_address_valid`. The invalid characters are those of keys.
unfoldable pub gconf_address_valid : Bytes → Bool
gconf_address_valid [] = true
gconf_address_valid (c ∷ s) =
    let rest = gconf_address_valid s in if is_invalid_char c then false else rest

abbrev pub behind : ℕ → Option (Bytes × Bytes) → Option (Bytes × Bytes)
behind c none = none
behind c (some (before, after)) = some (c ∷ before, after)

-- strchr (s, ':'): what is before the colon and what is after it.
unfoldable pub strchr_colon : Bytes → Option (Bytes × Bytes)
strchr_colon [] = none
strchr_colon (c ∷ s) =
    let rest = behind c (strchr_colon s) in if c == colon then some ([], s) else rest

abbrev first_of : Bytes × Bytes → Option Bytes
first_of (before, after) = some before

abbrev second_of : Bytes × Bytes → Option Bytes
second_of (before, after) = some after

unfoldable pub gconf_address_backend : Bytes → Option Bytes
gconf_address_backend address = strchr_colon address >>= first_of

unfoldable pub gconf_address_resource : Bytes → Option Bytes
gconf_address_resource address = strchr_colon address >>= second_of >>= strchr_colon >>= second_of

-- An empty vector is not returned.
abbrev pub vector : List Bytes → Option (List Bytes)
vector [] = none
vector (f ∷ fs) = some (f ∷ fs)

abbrev pub flags_between : (Bytes → List Bytes) → Bytes → Option (List Bytes)
flags_between strsplit [] = none
flags_between strsplit (c ∷ s) = vector (strsplit (c ∷ s))

unfoldable pub gconf_address_flags : (Bytes → List Bytes) → Bytes → Option (List Bytes)
gconf_address_flags strsplit address =
    strchr_colon address >>= second_of >>= strchr_colon >>= first_of >>= flags_between strsplit

abbrev pub join_commas : List Bytes → Bytes
join_commas [] = []
join_commas (f ∷ []) = f
join_commas (f ∷ g ∷ fs) = f ++ comma ∷ join_commas (g ∷ fs)

abbrev pub HasNo : ℕ → Bytes → Type 0
HasNo c = All (λ d. (d == c) ≡ false)

-- Parts without a comma, joined by commas, are split again, but for the empty string.
pub record IsSplit (strsplit : Bytes → List Bytes) : Type 0 where
  pub splits :
      (fs : List Bytes)
      → All (HasNo comma) fs
      → join_commas fs ≢ []
      → strsplit (join_commas fs) ≡ fs

module _ {S : Type 0} where
  -- The loop over the flags.
  unfoldable pub apply_flags : List Bytes → GConfSource S → GConfSource S
  apply_flags [] src = src
  apply_flags (f ∷ fs) src =
      let read_only =
        apply_flags fs (record src { all_writeable = false; never_writeable = true }) in
      let as_is = apply_flags fs src in if bytes_eq f (codes "readonly") then read_only else as_is

  abbrev pub resolved : Option (List Bytes) → GConfSource S → GConfSource S
  resolved none src = src
  resolved (some fs) src = apply_flags fs src

  -- With what the backend's own function made of the address.
  unfoldable pub gconf_backend_resolve_address :
      (Bytes → List Bytes) → Bytes → Option (GConfSource S) → Option (GConfSource S)
  gconf_backend_resolve_address strsplit address none = none
  gconf_backend_resolve_address strsplit address (some src) =
      some (resolved (gconf_address_flags strsplit address) src)
