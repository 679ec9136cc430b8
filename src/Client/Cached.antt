-- ===== src/Client/Cached.antt =====
-- What the cache holds after each operation, by key.
use gconf_dbus.Prelude.{
  ◌≡◌, refl, ◌∙◌, subst, Bool, true, false, Option, none, some, List, [], ◌∷◌, arith, inl, inr,
  Bool-cases, Option-cases, if◌then◌else◌,
}
use gconf_dbus.CString.{Bytes, bytes_eq, bytes_eq-eq, bytes_eq_refl}
use gconf_dbus.Platform.{Platform}
use gconf_dbus.Value.Entry.{GConfEntry, gconf_entry_equal, entry_copy}
use gconf_dbus.Client.Cache.{
  gconf_client_lookup, replace_entry, remove_where, cache_found, cache_changed, kept_schema,
  gconf_client_cache,
}

pub some_eq : {A : Type 0} {a b : A} → some a ≡ some b → a ≡ b
some_eq h = cc (h)

pub lookup-remove_where :
    (f : Bytes → Bool) (key : Bytes) (cache : List GConfEntry)
    → gconf_client_lookup (remove_where f cache) key
      ≡ (if f key then none else gconf_client_lookup cache key)
lookup-remove_where f key [] = ground arith
lookup-remove_where f key (x ∷ xs) = elim (Bool-cases (bytes_eq x.key key)) [
  | inl e ↦
      let same = bytes_eq-eq x.key key e in
      elim (Bool-cases (f key)) [
        | inl t ↦ rw (same, t) (lookup-remove_where f key xs ∙ ground (arith, t))
        | inr t ↦ ground (arith, same, t, e)
      ]
  | inr e ↦ ground (arith, lookup-remove_where f key xs, e)
]

pub lookup_key :
    (key : Bytes) (cache : List GConfEntry) (x : GConfEntry)
    → gconf_client_lookup cache key ≡ some x
    → x.key ≡ key
lookup_key key [] x h = absurd (ground arith)
lookup_key key (y ∷ cache) x h = ground (arith, lookup_key key cache x, bytes_eq-eq y.key key, h)

lookup-replace :
    (new old : GConfEntry) (cache : List GConfEntry)
    → gconf_client_lookup cache new.key ≡ some old
    → gconf_client_lookup (replace_entry new cache) new.key ≡ some new
lookup-replace new old [] h = absurd (ground arith)
lookup-replace new old (x ∷ cache) h =
    ground (arith, lookup-replace new old cache, bytes_eq_refl new.key, h)

lookup-replace_other :
    (new : GConfEntry) (key : Bytes) (cache : List GConfEntry)
    → bytes_eq new.key key ≡ false
    → gconf_client_lookup (replace_entry new cache) key ≡ gconf_client_lookup cache key
lookup-replace_other new key [] n = refl
lookup-replace_other new key (x ∷ cache) n = elim (Bool-cases (bytes_eq x.key new.key)) [
  | inl e ↦
      let same = bytes_eq-eq x.key new.key e in
      let other : bytes_eq x.key key ≡ false = rw same n in ground (arith, e, other, n)
  | inr e ↦ ground (arith, e, lookup-replace_other new key cache n)
]

-- The name of the schema that the new entry is cached with: that of the old entry, where there is
-- one and it is to be preserved.
abbrev pub schema_after : Bool → Option GConfEntry → GConfEntry → Option Bytes
schema_after true (some old) new = old.schema_name
schema_after preserve old new = new.schema_name

-- The entry that was cached differs from the new one, or there was none.
abbrev pub Differs : Platform → Option GConfEntry → GConfEntry → Type 0
Differs p none new = Unit
Differs p (some old) new = gconf_entry_equal p old new ≡ some false

-- The cached entry has all that the new one has, but for the name of the schema.
pub record IsNew (p : Platform) (preserve : Bool) (old : Option GConfEntry) (new x : GConfEntry)
    : Type 0 where
  pub differs : Differs p old new
  pub same_key : x.key ≡ new.key
  pub same_value : x.value ≡ new.value
  pub schema : x.schema_name ≡ schema_after preserve old new
  pub same_default : x.is_default ≡ new.is_default
  pub same_writable : x.is_writable ≡ new.is_writable

-- What the entry `x` in the cache is, after `gconf_client_cache` has answered for a new one, where
-- `old` was cached: by whether it has said that the cache has changed.
abbrev pub IsUpdate : Platform → Bool → Option GConfEntry → Bool → GConfEntry → GConfEntry → Type 0
IsUpdate p preserve old true new x = IsNew p preserve old new x
IsUpdate p preserve old false new x = (old ≡ some x) × (gconf_entry_equal p x new ≡ some true)

pub record Updated (p : Platform) (preserve : Bool) (new : GConfEntry) (cache : List GConfEntry)
    (r : Bool × List GConfEntry) : Type 0 where
  pub entry : GConfEntry
  pub found : gconf_client_lookup r.1 new.key ≡ some entry
  pub update : IsUpdate p preserve (gconf_client_lookup cache new.key) r.0 new entry
  pub others :
      (key : Bytes)
      → bytes_eq new.key key ≡ false
      → gconf_client_lookup r.1 key ≡ gconf_client_lookup cache key

kept_schema-IsNew :
    (p : Platform) (preserve : Bool) (old new : GConfEntry)
    → gconf_entry_equal p old new ≡ some false
    → IsNew p preserve (some old) new (kept_schema preserve old new)
kept_schema-IsNew p true old new e = record {
  differs = e;
  same_key = refl;
  same_value = refl;
  schema = refl;
  same_default = refl;
  same_writable = refl;
}
kept_schema-IsNew p false old new e = record {
  differs = e;
  same_key = refl;
  same_value = refl;
  schema = refl;
  same_default = refl;
  same_writable = refl;
}

copy-IsNew :
    (p : Platform) (preserve : Bool) (new : GConfEntry) → IsNew p preserve none new (entry_copy new)
copy-IsNew p preserve new = record {
  differs = tt;
  same_key = refl;
  same_value = refl;
  schema = ground arith;
  same_default = refl;
  same_writable = refl;
}

kept_schema-found :
    (preserve : Bool) (old new : GConfEntry) (cache : List GConfEntry)
    → gconf_client_lookup cache new.key ≡ some old
    → gconf_client_lookup (replace_entry (kept_schema preserve old new) cache) new.key
      ≡ some (kept_schema preserve old new)
kept_schema-found true old new cache h = lookup-replace (kept_schema true old new) old cache h
kept_schema-found false old new cache h = lookup-replace (kept_schema false old new) old cache h

kept_schema-others :
    (preserve : Bool) (old new : GConfEntry) (cache : List GConfEntry) (key : Bytes)
    → bytes_eq new.key key ≡ false
    → gconf_client_lookup (replace_entry (kept_schema preserve old new) cache) key
      ≡ gconf_client_lookup cache key
kept_schema-others true old new cache key n =
    lookup-replace_other (kept_schema true old new) key cache n
kept_schema-others false old new cache key n =
    lookup-replace_other (kept_schema false old new) key cache n

module _ (p : Platform) (preserve : Bool) (new : GConfEntry) (cache : List GConfEntry) where
  changed-Updated :
      (old : GConfEntry) (same : Bool)
      → gconf_client_lookup cache new.key ≡ some old
      → gconf_entry_equal p old new ≡ some same
      → Updated p preserve new cache (cache_changed preserve old new cache same)
  changed-Updated old true h e = record {
    entry = old;
    found = h;
    update = (h, e);
    others = λ key n. refl;
  }
  changed-Updated old false h e = record {
    entry = kept_schema preserve old new;
    found = kept_schema-found preserve old new cache h;
    update = rw h (kept_schema-IsNew p preserve old new e);
    others = kept_schema-others preserve old new cache;
  }

  found-Updated :
      (found : Option GConfEntry) (r : Bool × List GConfEntry)
      → gconf_client_lookup cache new.key ≡ found
      → cache_found p preserve new cache found ≡ some r
      → Updated p preserve new cache r
  unfolding cache_found
  found-Updated none r h e = subst (Updated p preserve new cache) (some_eq e) (record {
    entry = entry_copy new;
    found = ground (arith, bytes_eq_refl new.key);
    update = rw h (copy-IsNew p preserve new);
    others = λ key n. ground (arith, n);
  })
  found-Updated (some old) r h e = elim (Option-cases (gconf_entry_equal p old new)) [
    | inl q ↦ absurd (ground (arith, e, q))
    | inr (same, q) ↦
        subst (Updated p preserve new cache) (some_eq (rw q at e)) (changed-Updated old same h q)
  ]

  -- Where gconf_client_cache answers, and says that the cache has changed, the entry for the key was
  -- missing or not equal to the new one, and is now the new one, but that it keeps the old name of
  -- the schema where there was an entry and the name is to be preserved; where it says that nothing
  -- has changed, the entry for the key is the one that was there, and is equal to the new one. For
  -- every other key the cache holds what it held.
  pub gconf_client_cache-lookup :
      (r : Bool × List GConfEntry)
      → gconf_client_cache p preserve new cache ≡ some r
      → Updated p preserve new cache r
  unfolding gconf_client_cache
  gconf_client_cache-lookup r = found-Updated (gconf_client_lookup cache new.key) r refl
