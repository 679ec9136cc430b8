-- ===== src/Address/Flags.antt =====
-- The flags of a valid address.
use gconf_dbus.Prelude.{
  Bool, ◌||◌, ◌≡◌, refl, ◌∙◌, ap, true, false, Option, none, some, List, [], ◌∷◌, arith, ◌==◌,
  Bool-cases, Option-cases, inl, inr,
}
use mathlib.Core.Bool.{false≢true}
use gconf_dbus.CString.{Bytes, bytes_eq, codes}
use gconf_dbus.Keys.{is_invalid_char}
use gconf_dbus.Sources.{GConfSource, source_is_writable}
use gconf_dbus.Address.{
  colon, comma, gconf_address_valid, behind, strchr_colon, flags_between, gconf_address_flags,
  HasNo, IsSplit, apply_flags, gconf_backend_resolve_address,
}

comma_invalid : is_invalid_char comma ≡ true
unfolding is_invalid_char
comma_invalid = refl

-- No byte of a valid address is a comma.
valid-HasNo : (s : Bytes) → gconf_address_valid s ≡ true → HasNo comma s
unfolding gconf_address_valid
valid-HasNo [] h = tt
valid-HasNo (c ∷ s) h = elim (Bool-cases (c == comma)) [
  | inl e ↦
      let same : c ≡ comma = ground (arith, e) in
      absurd (ground (arith, h, ap is_invalid_char same ∙ comma_invalid))
  | inr e ↦ (e, valid-HasNo s (ground (arith, h)))
]

-- Both sides of a colon have no comma.
abbrev BothNo : Option (Bytes × Bytes) → Type 0
BothNo none = Unit
BothNo (some (before, after)) = HasNo comma before × HasNo comma after

behind-BothNo :
    (c : _) (o : Option (Bytes × Bytes)) → (c == comma) ≡ false → BothNo o → BothNo (behind c o)
behind-BothNo c none n h = tt
behind-BothNo c (some (x, y)) n h = ((n, h.0), h.1)

strchr_colon-BothNo : (s : Bytes) → HasNo comma s → BothNo (strchr_colon s)
unfolding strchr_colon
strchr_colon-BothNo [] h = tt
strchr_colon-BothNo (c ∷ s) h = elim (Bool-cases (c == colon)) [
  | inl e ↦ rw e (tt, h.1)
  | inr e ↦ rw e (behind-BothNo c (strchr_colon s) h.0 (strchr_colon-BothNo s h.1))
]

-- One flag, or none.
abbrev pub AtMostOne : Option (List Bytes) → Type 0
AtMostOne none = Unit
AtMostOne (some fs) = (f : Bytes) × (fs ≡ f ∷ [])

between-AtMostOne :
    (strsplit : Bytes → List Bytes) (s : Bytes)
    → IsSplit strsplit
    → HasNo comma s
    → AtMostOne (flags_between strsplit s)
between-AtMostOne strsplit [] law h = tt
between-AtMostOne strsplit (c ∷ s) law h =
    rw (law.splits ((c ∷ s) ∷ []) (h, tt) (λ e. absurd (ground (arith, e)))) (c ∷ s, refl)

-- For a split by commas that undoes their joining: a valid address has at most one flag.
pub valid-AtMostOne :
    (strsplit : Bytes → List Bytes) (address : Bytes)
    → IsSplit strsplit
    → gconf_address_valid address ≡ true
    → AtMostOne (gconf_address_flags strsplit address)
unfolding gconf_address_flags
valid-AtMostOne strsplit address law h =
    let first = strchr_colon-BothNo address (valid-HasNo address h) in
    elim (Option-cases (strchr_colon address)) [
      | inl e ↦ rw e tt
      | inr ((b, t), e) ↦
          let second = strchr_colon-BothNo t (rw e at first).1 in
          elim (Option-cases (strchr_colon t)) [
            | inl q ↦ rw (e, q) tt
            | inr ((f, r), q) ↦ rw (e, q) (between-AtMostOne strsplit f law (rw q at second).0)
          ]
    ]

abbrev pub is_read_only : List Bytes → Bool
is_read_only [] = false
is_read_only (f ∷ fs) = bytes_eq f (codes "readonly") || is_read_only fs

module _ {S : Type 0} where
  apply-never :
      (fs : List Bytes) (src : GConfSource S)
      → src.never_writeable ≡ true
      → (apply_flags fs src).never_writeable ≡ true
  unfolding apply_flags
  apply-never [] src h = h
  apply-never (f ∷ fs) src h = elim (Bool-cases (bytes_eq f (codes "readonly"))) [
    | inl e ↦ rw e (apply-never fs _ refl)
    | inr e ↦ rw e (apply-never fs src h)
  ]

  apply-read_only :
      (fs : List Bytes) (src : GConfSource S)
      → is_read_only fs ≡ true
      → (apply_flags fs src).never_writeable ≡ true
  unfolding apply_flags
  apply-read_only [] src h = absurd (false≢true h)
  apply-read_only (f ∷ fs) src h = elim (Bool-cases (bytes_eq f (codes "readonly"))) [
    | inl e ↦ rw e (apply-never fs _ refl)
    | inr e ↦ rw e (apply-read_only fs src (rw e at h))
  ]

  -- The source that gconf_backend_resolve_address gives for an address with the flag readonly is
  -- writable at no key.
  pub resolve_address-read_only :
      (strsplit : Bytes → List Bytes) (address : Bytes) (fs : List Bytes) (src : GConfSource S)
      → gconf_address_flags strsplit address ≡ some fs
      → is_read_only fs ≡ true
      → (src' : GConfSource S) × (gconf_backend_resolve_address strsplit address (some src)
          ≡ some src')
        × ((key : Bytes) → source_is_writable src' key ≡ (false, none))
  unfolding gconf_backend_resolve_address source_is_writable
  resolve_address-read_only strsplit address fs src h r =
      (apply_flags fs src, rw h refl, λ key. rw (apply-read_only fs src r) refl)
