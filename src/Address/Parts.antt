-- ===== src/Address/Parts.antt =====
-- The parts of an address.
use gconf_dbus.Prelude.{◌≡◌, ◌≢◌, refl, some, List, [], ◌∷◌, ◌++◌, All}
use gconf_dbus.CString.{Bytes}
use gconf_dbus.Address.{
  colon, comma, strchr_colon, gconf_address_backend, gconf_address_resource, vector, flags_between,
  gconf_address_flags, join_commas, HasNo, IsSplit,
}

pub strchr_colon-append :
    (s t : Bytes) → HasNo colon s → strchr_colon (s ++ colon ∷ t) ≡ some (s, t)
unfolding strchr_colon
strchr_colon-append [] t h = refl
strchr_colon-append (c ∷ s) t h = rw (h.0, strchr_colon-append s t h.1) refl

split_flags :
    (strsplit : Bytes → List Bytes) (fs : List Bytes)
    → IsSplit strsplit
    → All (HasNo comma) fs
    → join_commas fs ≢ []
    → flags_between strsplit (join_commas fs) ≡ some fs
split_flags strsplit fs law h n = vector_of (join_commas fs) n (law.splits fs h n) (empty fs n)
  where
    empty : (gs : List Bytes) → join_commas gs ≢ [] → vector gs ≡ some gs
    empty [] m = absurd (m refl)
    empty (g ∷ gs) m = refl

    vector_of :
        (s : Bytes)
        → s ≢ []
        → strsplit s ≡ fs
        → vector fs ≡ some fs
        → flags_between strsplit s ≡ some fs
    vector_of [] m e v = absurd (m refl)
    vector_of (c ∷ s) m e v = rw e v

-- For a split by commas that undoes their joining: the address that is made of a backend and of
-- flags, with no colon in them, and of a resource, has the backend, the flags and the resource, where
-- no flag has a comma in it and they are not all empty.
pub address_parts :
    (strsplit : Bytes → List Bytes) (b : Bytes) (fs : List Bytes) (r : Bytes)
    → IsSplit strsplit
    → HasNo colon b
    → HasNo colon (join_commas fs)
    → All (HasNo comma) fs
    → join_commas fs ≢ []
    → (gconf_address_backend (b ++ colon ∷ (join_commas fs ++ colon ∷ r)) ≡ some b)
      × (gconf_address_flags strsplit (b ++ colon ∷ (join_commas fs ++ colon ∷ r)) ≡ some fs)
      × (gconf_address_resource (b ++ colon ∷ (join_commas fs ++ colon ∷ r)) ≡ some r)
unfolding gconf_address_backend gconf_address_flags gconf_address_resource
address_parts strsplit b fs r law hb hf hc n =
    let first = strchr_colon-append b (join_commas fs ++ colon ∷ r) hb in
    let second = strchr_colon-append (join_commas fs) r hf in
    (rw first refl, rw (first, second) (split_flags strsplit fs law hc n), rw (first, second) refl)
