-- ===== src/Engine/Tables.antt =====
-- The connections of each directory, after an insertion and a removal.
use gconf_dbus.Prelude.{
  ℕ, ◌≡◌, refl, ◌∙◌, false, List, [], ◌∷◌, arith, ==_refl, if◌then◌else◌, Bool-cases, inl, inr,
}
use gconf_dbus.CString.{Bytes, bytes_eq, bytes_eq-eq, bytes_eq_refl}
use gconf_dbus.Engine.{
  GConfCnxn, CnxnsData, gconf_cnxn_lookup_dir, remove_dir, prepend_cnxn, list_remove, keep_data,
  take_cnxn,
}

prepend-same :
    (c : GConfCnxn) (dir : Bytes) (ds : List CnxnsData)
    → gconf_cnxn_lookup_dir dir (prepend_cnxn c dir ds) ≡ c ∷ gconf_cnxn_lookup_dir dir ds
prepend-same c dir [] = ground (arith, bytes_eq_refl dir)
prepend-same c dir (d ∷ ds) = ground (arith, prepend-same c dir ds)

prepend-other :
    (c : GConfCnxn) (dir s : Bytes) (ds : List CnxnsData)
    → bytes_eq dir s ≡ false
    → gconf_cnxn_lookup_dir s (prepend_cnxn c dir ds) ≡ gconf_cnxn_lookup_dir s ds
prepend-other c dir s [] n = ground (arith, n)
prepend-other c dir s (d ∷ ds) n =
    ground (arith, prepend-other c dir s ds n, bytes_eq-eq d.dir dir, n)

remove_dir-same :
    (dir : Bytes) (ds : List CnxnsData) → gconf_cnxn_lookup_dir dir (remove_dir dir ds) ≡ []
remove_dir-same dir [] = refl
remove_dir-same dir (d ∷ ds) = ground (arith, remove_dir-same dir ds)

remove_dir-other :
    (dir s : Bytes) (ds : List CnxnsData)
    → bytes_eq dir s ≡ false
    → gconf_cnxn_lookup_dir s (remove_dir dir ds) ≡ gconf_cnxn_lookup_dir s ds
remove_dir-other dir s [] n = refl
remove_dir-other dir s (d ∷ ds) n =
    ground (arith, remove_dir-other dir s ds n, bytes_eq-eq d.dir dir, n)

keep-same :
    (dir : Bytes) (cs : List GConfCnxn) (ds : List CnxnsData)
    → gconf_cnxn_lookup_dir dir (keep_data dir cs ds) ≡ cs
keep-same dir [] ds = remove_dir-same dir ds
keep-same dir (c ∷ cs) ds = ground (arith, bytes_eq_refl dir)

keep-other :
    (dir s : Bytes) (cs : List GConfCnxn) (ds : List CnxnsData)
    → bytes_eq dir s ≡ false
    → gconf_cnxn_lookup_dir s (keep_data dir cs ds) ≡ gconf_cnxn_lookup_dir s ds
keep-other dir s [] ds n = remove_dir-other dir s ds n
keep-other dir s (c ∷ cs) ds n = ground (arith, n)

take-same :
    (id : ℕ) (dir : Bytes) (ds : List CnxnsData)
    → gconf_cnxn_lookup_dir dir (take_cnxn id dir ds)
      ≡ list_remove id (gconf_cnxn_lookup_dir dir ds)
take-same id dir [] = refl
take-same id dir (d ∷ ds) = elim (Bool-cases (bytes_eq d.dir dir)) [
  | inl e ↦
      let same = bytes_eq-eq d.dir dir e in
      rw e (rw⁻¹ same (keep-same d.dir (list_remove id d.cnxns) ds))
  | inr e ↦ ground (arith, e, take-same id dir ds)
]

take-other :
    (id : ℕ) (dir s : Bytes) (ds : List CnxnsData)
    → bytes_eq dir s ≡ false
    → gconf_cnxn_lookup_dir s (take_cnxn id dir ds) ≡ gconf_cnxn_lookup_dir s ds
take-other id dir s [] n = refl
take-other id dir s (d ∷ ds) n = elim (Bool-cases (bytes_eq d.dir dir)) [
  | inl e ↦
      let same = bytes_eq-eq d.dir dir e in
      let m : bytes_eq d.dir s ≡ false = rw same n in
      rw e (keep-other d.dir s (list_remove id d.cnxns) ds m ∙ ground (arith, m))
  | inr e ↦ ground (arith, e, take-other id dir s ds n)
]

-- In front of the connections of its directory.
pub lookup_dir-prepend :
    (c : GConfCnxn) (dir s : Bytes) (ds : List CnxnsData)
    → gconf_cnxn_lookup_dir s (prepend_cnxn c dir ds)
      ≡ (if bytes_eq dir s then c ∷ gconf_cnxn_lookup_dir s ds else gconf_cnxn_lookup_dir s ds)
lookup_dir-prepend c dir s ds = elim (Bool-cases (bytes_eq dir s)) [
  | inl e ↦ rw e (rw⁻¹ (bytes_eq-eq dir s e) (prepend-same c dir ds))
  | inr e ↦ rw e (prepend-other c dir s ds e)
]

pub lookup_dir-take :
    (id : ℕ) (dir s : Bytes) (ds : List CnxnsData)
    → gconf_cnxn_lookup_dir s (take_cnxn id dir ds) ≡ (
        if bytes_eq dir s
        then list_remove id (gconf_cnxn_lookup_dir s ds)
        else gconf_cnxn_lookup_dir s ds)
lookup_dir-take id dir s ds = elim (Bool-cases (bytes_eq dir s)) [
  | inl e ↦ rw e (rw⁻¹ (bytes_eq-eq dir s e) (take-same id dir ds))
  | inr e ↦ rw e (take-other id dir s ds e)
]

-- What was put in front is taken again.
pub lookup_dir-take_prepend :
    (c : GConfCnxn) (dir s : Bytes) (ds : List CnxnsData)
    → gconf_cnxn_lookup_dir s (take_cnxn c.client_id dir (prepend_cnxn c dir ds))
      ≡ gconf_cnxn_lookup_dir s ds
lookup_dir-take_prepend c dir s ds =
    lookup_dir-take c.client_id dir s (prepend_cnxn c dir ds)
    ∙ ground (arith, lookup_dir-prepend c dir s ds, ==_refl c.client_id)
