-- ===== src/Sources/Set.antt =====
-- `gconf_sources_set_value`: which source is written.
use gconf_dbus.Prelude.{
  append-nil, ◌≡◌, refl, ◌∙◌, sym, ap, Bool, true, false, Option, none, some, List, [], ◌∷◌, ◌++◌,
  All, ◌⊎◌, inl, inr,
}
use gconf_dbus.CString.{Bytes}
use gconf_dbus.Value.{GConfValue, MaybeValue, null, just}
use gconf_dbus.Sources.{
  GConfError, overridden, no_writable_database, GConfSource, source_is_writable, source_query_value,
  with_store, key_check,
}
use gconf_dbus.Sources.Write.{Written, is_root_name, sources_set_value}
use gconf_dbus.Sources.SetLoop.{
  IsPassed, written, set_value-writable, set_value-overridden, set_value-nowhere,
}

check-cases : (w : Bool × Option GConfError) → w.1 ≡ none → (w ≡ (true, none)) ⊎ (w ≡ (false, none))
check-cases (true, e) h = inl (ap (λ (x : Option GConfError). (true, x)) h)
check-cases (false, e) h = inr (ap (λ (x : Option GConfError). (false, x)) h)

MaybeValue-cases : (m : MaybeValue) → (m ≡ null) ⊎ ((v : GConfValue) × (m ≡ just v))
MaybeValue-cases null = inl refl
MaybeValue-cases (just v) = inr (v, refl)

module _ {S : Type 0} (key : Bytes) (value : GConfValue) where
  -- A writable source is written and reported, behind sources that are passed over.
  abbrev pub Writes : List (GConfSource S) → Written S → Type 0
  Writes sources w =
      (before : List (GConfSource S)) × (src : GConfSource S) × (after : List (GConfSource S))
      × (sources ≡ before ++ src ∷ after)
      × All (IsPassed key value) before
      × (source_is_writable src key ≡ (true, none))
      × (w
          ≡ written (before ++ with_store src (src.vtable.set_value src.store key value).0 ∷ after)
              (src.address ∷ []) (src.vtable.set_value src.store key value).1)

  -- A source that is not writable has a value, behind sources that are passed over.
  abbrev pub IsOverridden : List (GConfSource S) → Written S → Type 0
  IsOverridden sources w =
      (before : List (GConfSource S)) × (src : GConfSource S) × (after : List (GConfSource S))
      × (v : GConfValue) × (sources ≡ before ++ src ∷ after)
      × All (IsPassed key value) before
      × (source_is_writable src key ≡ (false, none))
      × ((source_query_value src key [] false).value ≡ just v)
      × (w ≡ written sources [] (some overridden))

  abbrev pub HasNowhere : List (GConfSource S) → Written S → Type 0
  HasNowhere sources w =
      All (IsPassed key value) sources × (w ≡ written sources [] (some no_writable_database))

  -- The check of a source's writability reports no error.
  abbrev pub IsChecked : GConfSource S → Type 0
  IsChecked src = (source_is_writable src key).1 ≡ none

  abbrev Deciding : List (GConfSource S) → Type 0
  Deciding sources =
      (before : List (GConfSource S)) × (src : GConfSource S) × (after : List (GConfSource S))
      × (sources ≡ before ++ src ∷ after)
      × All (IsPassed key value) before
      × ((source_is_writable src key ≡ (true, none))
          ⊎ ((source_is_writable src key ≡ (false, none))
              × (v : GConfValue) × ((source_query_value src key [] false).value ≡ just v)))

  behind :
      (b : GConfSource S) (srcs : List (GConfSource S))
      → IsPassed key value b
      → Deciding srcs
      → Deciding (b ∷ srcs)
  behind b srcs h (before, src, after, e, hb, d) =
      (b ∷ before, src, after, ap (λ (x : List (GConfSource S)). b ∷ x) e, (h, hb), d)

  deciding :
      (sources : List (GConfSource S))
      → All IsChecked sources
      → Deciding sources ⊎ All (IsPassed key value) sources
  deciding [] h = inr tt
  deciding (src ∷ srcs) h = elim (check-cases (source_is_writable src key) h.0) [
    | inl hw ↦ inl ([], src, srcs, refl, tt, inl hw)
    | inr hw ↦ elim (MaybeValue-cases (source_query_value src key [] false).value) [
      | inr (v, hv) ↦ inl ([], src, srcs, refl, tt, inr (hw, v, hv))
      | inl hv ↦ elim (deciding srcs h.1) [
        | inl d ↦ inl (behind src srcs (record { read_only = hw; no_value = hv }) d)
        | inr p ↦ inr (record { read_only = hw; no_value = hv }, p)
      ]
    ]
  ]

  set_value-decided :
      (sources : List (GConfSource S))
      → key_check key ≡ none
      → is_root_name key ≡ false
      → Deciding sources
      → Writes sources (sources_set_value sources key value)
        ⊎ IsOverridden sources (sources_set_value sources key value)
  set_value-decided sources hk hr (before, src, after, e, hb, inl hw) = inl (
    before,
    src,
    after,
    e,
    hb,
    hw,
    ap (λ (x : List (GConfSource S)). sources_set_value x key value) e
        ∙ set_value-writable key value hk hr before src after _ _ hb hw refl,
  )
  set_value-decided sources hk hr (before, src, after, e, hb, inr (hw, v, hv)) = inr (
    before,
    src,
    after,
    v,
    e,
    hb,
    hw,
    hv,
    ap (λ (x : List (GConfSource S)). sources_set_value x key value) e
        ∙ set_value-overridden key value hk hr before src after v hb hw hv
        ∙ ap (λ (x : List (GConfSource S)). written x [] (some overridden)) (sym e),
  )

  -- Setting a valid key that is not the root has one of three outcomes. The first source that is
  -- writable or has a value decides: it is written and reported, with the error of its backend; or
  -- nothing is changed and the error is that the value is overridden. Where there is no such
  -- source, nothing is changed and the error is that no database is writable. The checks of
  -- writability have to report no errors.
  pub set_value-outcome :
      (sources : List (GConfSource S))
      → key_check key ≡ none
      → is_root_name key ≡ false
      → All IsChecked sources
      → Writes sources (sources_set_value sources key value)
        ⊎ (IsOverridden sources (sources_set_value sources key value)
            ⊎ HasNowhere sources (sources_set_value sources key value))
  set_value-outcome sources hk hr h = elim (deciding sources h) [
    | inr p ↦ inr (
        inr (
          p,
          set_value-nowhere key value hk hr sources p
              ∙ ap (λ (x : List (GConfSource S)). written x [] (some no_writable_database))
                  (append-nil sources),
        ))
    | inl d ↦ elim (set_value-decided sources hk hr d) [ inl w ↦ inl w | inr o ↦ inr (inl o) ]
  ]
