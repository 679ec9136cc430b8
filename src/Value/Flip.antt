-- ===== src/Value/Flip.antt =====
-- `gconf_value_compare` with its arguments swapped.
use gconf_dbus.Prelude.{
  ℕ, ℤ, ◌≡◌, refl, sym, ap, Ordering, Bool, true, false, Option, none, some, arith,
}
use gconf_dbus.CString.{Bytes, strcmp_flip, opposite}
use gconf_dbus.Platform.{Platform}
use gconf_dbus.Value.{
  GConfValueType, list, pair, GConfValue, invalid_value, string_value, int_value, float_value,
  bool_value, schema_null, schema_value, list_value, pair_value, Values, nil, cons, MaybeValue,
  null, just, GConfSchema, make_schema, value_type,
}
use gconf_dbus.Value.Order.{
  compare_types, or_else, then_compare, compare_ints, compare_bools, compare_strings,
  null_safe_strcmp, compare_parts, compare_schemas, compare_floats, gconf_value_compare,
  compare_lists, compare_maybe, no_schema,
}

abbrev pub opposite_result : Option Ordering → Option Ordering
opposite_result none = none
opposite_result (some o) = some (opposite o)

-- Of two doubles, at most one is less than the other.
pub record IsAsymmetric (p : Platform) : Type 0 where
  pub asym : (d e : ℕ) → p.double_lt d e ≡ true → p.double_lt e d ≡ false

compare_types_flip : (t u : GConfValueType) → compare_types u t ≡ opposite (compare_types t u)
compare_types_flip t u = ground arith

compare_ints_flip : (a b : ℤ) → compare_ints b a ≡ opposite (compare_ints a b)
unfolding compare_ints
compare_ints_flip a b = ground arith

compare_bools_flip : (a b : Bool) → compare_bools b a ≡ opposite (compare_bools a b)
unfolding compare_bools
compare_bools_flip a b = ground arith

compare_strings_flip :
    (s t : Option Bytes) → compare_strings t s ≡ opposite_result (compare_strings s t)
unfolding compare_strings
compare_strings_flip none none = refl
compare_strings_flip none (some t) = refl
compare_strings_flip (some s) none = refl
compare_strings_flip (some s) (some t) = ap some (strcmp_flip s t)

null_safe_flip : (s t : Option Bytes) → null_safe_strcmp t s ≡ opposite (null_safe_strcmp s t)
unfolding null_safe_strcmp
null_safe_flip none none = refl
null_safe_flip none (some t) = refl
null_safe_flip (some s) none = refl
null_safe_flip (some s) (some t) = strcmp_flip s t

or_else_flip :
    (o o' r r' : Ordering)
    → o' ≡ opposite o
    → r' ≡ opposite r
    → or_else o' r' ≡ opposite (or_else o r)
or_else_flip o o' r r' h k = ground arith

then_compare_flip :
    (o o' r r' : Option Ordering)
    → o' ≡ opposite_result o
    → r' ≡ opposite_result r
    → then_compare o' r' ≡ opposite_result (then_compare o r)
then_compare_flip o o' r r' h k = ground arith

compare_types-eq : (t u : GConfValueType) → compare_types t u ≡ Ordering.eq → t ≡ u
compare_types-eq t u h = ground arith

compare_parts_flip :
    (t l1 c1 d1 l2 c2 d2 : GConfValueType)
    → compare_parts t l2 c2 d2 l1 c1 d1 ≡ opposite (compare_parts t l1 c1 d1 l2 c2 d2)
unfolding compare_parts
compare_parts_flip list l1 c1 d1 l2 c2 d2 = compare_types_flip l1 l2
compare_parts_flip pair l1 c1 d1 l2 c2 d2 =
    or_else_flip _ _ _ _ (compare_types_flip c1 c2) (compare_types_flip d1 d2)
compare_parts_flip t l1 c1 d1 l2 c2 d2 = refl

-- The later steps count only where the types are equal.
or_else_same :
    (t u : GConfValueType) (r r' : Ordering)
    → (t ≡ u → r' ≡ opposite r)
    → or_else (compare_types u t) r' ≡ opposite (or_else (compare_types t u) r)
or_else_same t u r r' h = ground (arith, compare_types_flip t u, compare_types-eq t u, h)

pub compare_schemas_flip :
    (a b : GConfSchema) → compare_schemas b a ≡ opposite (compare_schemas a b)
unfolding compare_schemas
compare_schemas_flip (make_schema t1 l1 c1 d1 lo1 o1 s1 g1 v1)
      (make_schema t2 l2 c2 d2 lo2 o2 s2 g2 v2) =
    or_else_same t1 t2 _ _ λ e. or_else_flip _ _ _ _ (null_safe_flip s1 s2) (
      or_else_flip _ _ _ _ (null_safe_flip g1 g2) (
        or_else_flip _ _ _ _ (null_safe_flip lo1 lo2)
          (rw (sym e) (compare_parts_flip t1 l1 c1 d1 l2 c2 d2))))

module _ (p : Platform) (law : IsAsymmetric p) where
  compare_floats_flip : (d e : ℕ) → compare_floats p e d ≡ opposite (compare_floats p d e)
  unfolding compare_floats
  compare_floats_flip d e = ground (arith, law.asym d e, law.asym e d)

  mutual
    unfolding gconf_value_compare compare_lists compare_maybe value_type

    compare_flip_at :
        (a b : GConfValue) → gconf_value_compare p b a ≡ opposite_result (gconf_value_compare p a b)
    compare_flip_at invalid_value invalid_value = refl
    compare_flip_at invalid_value b = refl
    compare_flip_at (string_value s) (string_value t) = compare_strings_flip s t
    compare_flip_at (string_value s) b = refl
    compare_flip_at (int_value y) (int_value z) = ap some (compare_ints_flip y z)
    compare_flip_at (int_value y) b = refl
    compare_flip_at (float_value d) (float_value e) = ap some (compare_floats_flip d e)
    compare_flip_at (float_value d) b = refl
    compare_flip_at (bool_value x) (bool_value y) = ap some (compare_bools_flip x y)
    compare_flip_at (bool_value x) b = refl
    compare_flip_at schema_null schema_null = ap some (compare_schemas_flip no_schema no_schema)
    compare_flip_at schema_null (schema_value sd) = ap some (compare_schemas_flip no_schema sd)
    compare_flip_at schema_null b = refl
    compare_flip_at (schema_value sc) schema_null = ap some (compare_schemas_flip sc no_schema)
    compare_flip_at (schema_value sc) (schema_value sd) = ap some (compare_schemas_flip sc sd)
    compare_flip_at (schema_value sc) b = refl
    compare_flip_at (list_value t xs) (list_value u ys) = compare_lists_flip xs ys
    compare_flip_at (list_value t xs) b = refl
    compare_flip_at (pair_value x y) (pair_value z w) =
        then_compare_flip _ _ _ _ (compare_maybe_flip x z) (compare_maybe_flip y w)
    compare_flip_at (pair_value x y) b = refl

    compare_lists_flip :
        (xs ys : Values) → compare_lists p ys xs ≡ opposite_result (compare_lists p xs ys)
    compare_lists_flip nil nil = refl
    compare_lists_flip nil (cons y ys) = refl
    compare_lists_flip (cons x xs) nil = refl
    compare_lists_flip (cons x xs) (cons y ys) =
        then_compare_flip _ _ _ _ (compare_flip_at x y) (compare_lists_flip xs ys)

    compare_maybe_flip :
        (x y : MaybeValue) → compare_maybe p y x ≡ opposite_result (compare_maybe p x y)
    compare_maybe_flip null null = refl
    compare_maybe_flip null (just y) = refl
    compare_maybe_flip (just x) null = refl
    compare_maybe_flip (just x) (just y) = compare_flip_at x y

  -- gconf_value_compare with its arguments swapped gives the opposite sign, and hands a NULL string
  -- to strcmp for the same two values.
  pub gconf_value_compare_flip :
      (a b : GConfValue) → gconf_value_compare p b a ≡ opposite_result (gconf_value_compare p a b)
  gconf_value_compare_flip a b = compare_flip_at a b
