-- ===== src/Value/Same.antt =====
-- What `gconf_value_compare` takes for equal: the values, less what it does not look at.
use gconf_dbus.Prelude.{ℤ, ◌≡◌, refl, ap, ◌↔◌, Ordering, Bool, Option, none, some, arith}
use gconf_dbus.CString.{Bytes, strcmp_eq, strcmp_refl}
use gconf_dbus.Platform.{Platform}
use gconf_dbus.Value.{
  GConfValueType, invalid, list, pair, GConfValue, invalid_value, string_value, int_value,
  float_value, bool_value, schema_null, schema_value, list_value, pair_value, Values, nil, cons,
  MaybeValue, null, just, GConfSchema, make_schema, value_type,
}
use gconf_dbus.Value.Order.{
  compare_types, or_else, then_compare, compare_ints, compare_bools, compare_strings,
  null_safe_strcmp, compare_parts, compare_schemas, gconf_value_compare, compare_lists,
  compare_maybe, no_schema,
}

abbrev pub list_part : GConfValueType → GConfValueType → GConfValueType
list_part list t = t
list_part u t = invalid

abbrev pub pair_part : GConfValueType → GConfValueType → GConfValueType
pair_part pair t = t
pair_part u t = invalid

abbrev pub compared_schema : GConfSchema → GConfSchema
compared_schema (make_schema t l c d locale owner short long default) =
    make_schema t (list_part t l) (pair_part t c) (pair_part t d) locale none short long null

-- A value without the element type of its lists, the owners and default values of its schemas, and
-- those element types of a schema that its type does not use.
abbrev mutual
  pub compared_part : GConfValue → GConfValue
  compared_part invalid_value = invalid_value
  compared_part (string_value s) = string_value s
  compared_part (int_value z) = int_value z
  compared_part (float_value d) = float_value d
  compared_part (bool_value b) = bool_value b
  compared_part schema_null = schema_value (compared_schema no_schema)
  compared_part (schema_value sc) = schema_value (compared_schema sc)
  compared_part (list_value t xs) = list_value invalid (compared_items xs)
  compared_part (pair_value x y) = pair_value (compared_maybe x) (compared_maybe y)

  pub compared_items : Values → Values
  compared_items nil = nil
  compared_items (cons x xs) = cons (compared_part x) (compared_items xs)

  pub compared_maybe : MaybeValue → MaybeValue
  compared_maybe null = null
  compared_maybe (just x) = just (compared_part x)

-- No string is NULL, and there is no float (of which zeros of both signs, and all that are no
-- numbers, are equal).
abbrev mutual
  pub IsPlain : GConfValue → Type 0
  IsPlain (string_value none) = ⊥
  IsPlain (float_value d) = ⊥
  IsPlain (list_value t xs) = ArePlain xs
  IsPlain (pair_value x y) = IsPlainPart x × IsPlainPart y
  IsPlain v = Unit

  pub ArePlain : Values → Type 0
  ArePlain nil = Unit
  ArePlain (cons x xs) = IsPlain x × ArePlain xs

  pub IsPlainPart : MaybeValue → Type 0
  IsPlainPart null = Unit
  IsPlainPart (just x) = IsPlain x

or_else_eq :
    (o r : Ordering) → (or_else o r ≡ Ordering.eq) ↔ ((o ≡ Ordering.eq) × (r ≡ Ordering.eq))
or_else_eq o r = ground arith

then_compare_eq :
    (o r : Option Ordering)
    → (then_compare o r ≡ some Ordering.eq) ↔ ((o ≡ some Ordering.eq) × (r ≡ some Ordering.eq))
then_compare_eq o r = ground arith

compare_types_eq : (t u : GConfValueType) → (compare_types t u ≡ Ordering.eq) ↔ (t ≡ u)
compare_types_eq t u = ground arith

compare_ints_eq : (a b : ℤ) → (compare_ints a b ≡ Ordering.eq) ↔ (a ≡ b)
unfolding compare_ints
compare_ints_eq a b = ground arith

compare_bools_eq : (a b : Bool) → (compare_bools a b ≡ Ordering.eq) ↔ (a ≡ b)
unfolding compare_bools
compare_bools_eq a b = ground arith

null_safe_eq : (s t : Option Bytes) → (null_safe_strcmp s t ≡ Ordering.eq) ↔ (s ≡ t)
unfolding null_safe_strcmp
null_safe_eq none none = ground arith
null_safe_eq none (some t) = ground arith
null_safe_eq (some s) none = ground arith
null_safe_eq (some s) (some t) = ground (arith, strcmp_eq s t, strcmp_refl s)

compare_parts_eq :
    (t l1 c1 d1 l2 c2 d2 : GConfValueType)
    → (compare_parts t l1 c1 d1 l2 c2 d2 ≡ Ordering.eq) ↔ (
        (list_part t l1 ≡ list_part t l2)
        × (pair_part t c1 ≡ pair_part t c2)
        × (pair_part t d1 ≡ pair_part t d2))
unfolding compare_parts
compare_parts_eq list l1 c1 d1 l2 c2 d2 = ground (arith, compare_types_eq l1 l2)
compare_parts_eq pair l1 c1 d1 l2 c2 d2 = ground (
  arith,
  or_else_eq (compare_types c1 c2) (compare_types d1 d2),
  compare_types_eq c1 c2,
  compare_types_eq d1 d2,
)
compare_parts_eq t l1 c1 d1 l2 c2 d2 = ground arith

compare_schemas_eq :
    (a b : GConfSchema)
    → (compare_schemas a b ≡ Ordering.eq) ↔ (compared_schema a ≡ compared_schema b)
unfolding compare_schemas
compare_schemas_eq (make_schema t1 l1 c1 d1 lo1 o1 s1 g1 v1)
      (make_schema t2 l2 c2 d2 lo2 o2 s2 g2 v2) =
    ground (
      arith,
      compare_types_eq t1 t2,
      null_safe_eq s1 s2,
      null_safe_eq g1 g2,
      null_safe_eq lo1 lo2,
      compare_parts_eq t1 l1 c1 d1 l2 c2 d2,
    )

module _ (p : Platform) where
  mutual
    unfolding gconf_value_compare compare_lists compare_maybe compare_strings value_type

    eq→same :
        (a b : GConfValue)
        → IsPlain a
        → gconf_value_compare p a b ≡ some Ordering.eq
        → compared_part a ≡ compared_part b
    eq→same invalid_value invalid_value w h = refl
    eq→same invalid_value b w h = absurd (cc)
    eq→same (string_value none) b w h = absurd w
    eq→same (string_value (some s)) (string_value none) w h = absurd (cc)
    eq→same (string_value (some s)) (string_value (some t)) w h = ground (arith, strcmp_eq s t)
    eq→same (string_value (some s)) b w h = absurd (cc)
    eq→same (int_value y) (int_value z) w h = ground (arith, compare_ints_eq y z)
    eq→same (int_value y) b w h = absurd (cc)
    eq→same (float_value d) b w h = absurd w
    eq→same (bool_value x) (bool_value y) w h = ground (arith, compare_bools_eq x y)
    eq→same (bool_value x) b w h = absurd (cc)
    eq→same schema_null schema_null w h = refl
    eq→same schema_null (schema_value sd) w h =
        ap schema_value ((compare_schemas_eq no_schema sd).0 (cc))
    eq→same schema_null b w h = absurd (cc)
    eq→same (schema_value sc) schema_null w h =
        ap schema_value ((compare_schemas_eq sc no_schema).0 (cc))
    eq→same (schema_value sc) (schema_value sd) w h =
        ap schema_value ((compare_schemas_eq sc sd).0 (cc))
    eq→same (schema_value sc) b w h = absurd (cc)
    eq→same (list_value t xs) (list_value u ys) w h =
        ap (list_value invalid) (eq→same_lists xs ys w h)
    eq→same (list_value t xs) b w h = absurd (cc)
    eq→same (pair_value x y) (pair_value z v) w h =
        let e = (then_compare_eq (compare_maybe p x z) (compare_maybe p y v)).0 h in
        cc (eq→same_maybe x z w.0 e.0, eq→same_maybe y v w.1 e.1)
    eq→same (pair_value x y) b w h = absurd (cc)

    eq→same_lists :
        (xs ys : Values)
        → ArePlain xs
        → compare_lists p xs ys ≡ some Ordering.eq
        → compared_items xs ≡ compared_items ys
    eq→same_lists nil nil w h = refl
    eq→same_lists nil (cons y ys) w h = absurd (cc)
    eq→same_lists (cons x xs) nil w h = absurd (cc)
    eq→same_lists (cons x xs) (cons y ys) w h =
        let e = (then_compare_eq (gconf_value_compare p x y) (compare_lists p xs ys)).0 h in
        cc (eq→same x y w.0 e.0, eq→same_lists xs ys w.1 e.1)

    eq→same_maybe :
        (x y : MaybeValue)
        → IsPlainPart x
        → compare_maybe p x y ≡ some Ordering.eq
        → compared_maybe x ≡ compared_maybe y
    eq→same_maybe null null w h = refl
    eq→same_maybe null (just y) w h = absurd (cc)
    eq→same_maybe (just x) null w h = absurd (cc)
    eq→same_maybe (just x) (just y) w h = ap just (eq→same x y w h)

  mutual
    unfolding gconf_value_compare compare_lists compare_maybe compare_strings value_type

    same→eq :
        (a b : GConfValue)
        → IsPlain a
        → compared_part a ≡ compared_part b
        → gconf_value_compare p a b ≡ some Ordering.eq
    same→eq invalid_value invalid_value w h = refl
    same→eq invalid_value b w h = absurd (cc)
    same→eq (string_value none) b w h = absurd w
    same→eq (string_value (some s)) (string_value none) w h = absurd (cc)
    same→eq (string_value (some s)) (string_value (some t)) w h = cc (strcmp_refl s)
    same→eq (string_value (some s)) b w h = absurd (cc)
    same→eq (int_value y) (int_value z) w h = ap some ((compare_ints_eq y z).1 (cc))
    same→eq (int_value y) b w h = absurd (cc)
    same→eq (float_value d) b w h = absurd w
    same→eq (bool_value x) (bool_value y) w h = ap some ((compare_bools_eq x y).1 (cc))
    same→eq (bool_value x) b w h = absurd (cc)
    same→eq schema_null schema_null w h = ap some ((compare_schemas_eq no_schema no_schema).1 refl)
    same→eq schema_null (schema_value sd) w h = ap some ((compare_schemas_eq no_schema sd).1 (cc))
    same→eq schema_null b w h = absurd (cc)
    same→eq (schema_value sc) schema_null w h = ap some ((compare_schemas_eq sc no_schema).1 (cc))
    same→eq (schema_value sc) (schema_value sd) w h = ap some ((compare_schemas_eq sc sd).1 (cc))
    same→eq (schema_value sc) b w h = absurd (cc)
    same→eq (list_value t xs) (list_value u ys) w h = same→eq_lists xs ys w (cc)
    same→eq (list_value t xs) b w h = absurd (cc)
    same→eq (pair_value x y) (pair_value z v) w h =
        (then_compare_eq (compare_maybe p x z) (compare_maybe p y v)).1
          (same→eq_maybe x z w.0 (cc), same→eq_maybe y v w.1 (cc))
    same→eq (pair_value x y) b w h = absurd (cc)

    same→eq_lists :
        (xs ys : Values)
        → ArePlain xs
        → compared_items xs ≡ compared_items ys
        → compare_lists p xs ys ≡ some Ordering.eq
    same→eq_lists nil nil w h = refl
    same→eq_lists nil (cons y ys) w h = absurd (cc)
    same→eq_lists (cons x xs) nil w h = absurd (cc)
    same→eq_lists (cons x xs) (cons y ys) w h =
        (then_compare_eq (gconf_value_compare p x y) (compare_lists p xs ys)).1
          (same→eq x y w.0 (cc), same→eq_lists xs ys w.1 (cc))

    same→eq_maybe :
        (x y : MaybeValue)
        → IsPlainPart x
        → compared_maybe x ≡ compared_maybe y
        → compare_maybe p x y ≡ some Ordering.eq
    same→eq_maybe null null w h = refl
    same→eq_maybe null (just y) w h = absurd (cc)
    same→eq_maybe (just x) null w h = absurd (cc)
    same→eq_maybe (just x) (just y) w h = same→eq x y w (cc)

  -- A value with no NULL string and no float in it: gconf_value_compare finds another value equal
  -- to it exactly when the two agree but for the element types of lists, the owners and default
  -- values of schemas, and those element types of a schema that its type does not use.
  pub gconf_value_compare_eq_iff :
      (a b : GConfValue)
      → IsPlain a
      → (gconf_value_compare p a b ≡ some Ordering.eq) ↔ (compared_part a ≡ compared_part b)
  gconf_value_compare_eq_iff a b w = (eq→same a b w, same→eq a b w)
