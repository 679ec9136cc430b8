-- ===== src/Keys/Valid.antt =====
-- What `gconf_valid_key` accepts: paths of components.
use gconf_dbus.Prelude.{
  ℕ, ◌<◌, ◌≡◌, refl, ◌∙◌, ap, sym, ◌↔◌, ◌⊎◌, inl, inr, Bool, true, false, List, [], ◌∷◌, ◌++◌, All,
  arith, ◌==◌, Bool-cases, ◌≢◌,
}
use mathlib.Core.Bool.{false≢true}
use gconf_dbus.CString.{Bytes}
use gconf_dbus.Keys.{slash, dot, is_invalid_char, valid_key_result, valid_key_loop, valid_key}

-- A byte that may stand in a component of a key.
pub record IsKeyChar (c : ℕ) : Type 0 where
  pub no_slash : (c == slash) ≡ false
  pub ascii : c < 128
  pub allowed : is_invalid_char c ≡ false

-- A component is not empty, does not begin with a period, and has allowed bytes only.
abbrev pub IsComponent : Bytes → Type 0
IsComponent [] = ⊥
IsComponent (c ∷ s) = IsKeyChar c × (c ≢ dot) × All IsKeyChar s

-- Each component behind a slash.
abbrev pub join : List Bytes → Bytes
join [] = []
join (c ∷ cs) = slash ∷ (c ++ join cs)

-- The key of a list of components, "/" for none.
abbrev pub key_of : List Bytes → Bytes
key_of [] = slash ∷ []
key_of (c ∷ cs) = join (c ∷ cs)

-- What the loop accepts: the rest of a component, a whole one behind a slash, and more of them.
abbrev IsRest : Bool → Bytes → Type 0
IsRest true c = IsComponent c
IsRest false c = All IsKeyChar c

record Parts (just_saw_slash : Bool) (s : Bytes) : Type 0 where
  first : Bytes
  others : List Bytes
  whole : s ≡ first ++ join others
  first_good : IsRest just_saw_slash first
  others_good : All IsComponent others

module _ (c : ℕ) (s : Bytes) where
  slash-Parts : c ≡ slash → Parts true s → Parts false (c ∷ s)
  slash-Parts e r = record {
    first = [];
    others = r.first ∷ r.others;
    whole = cc (e, r.whole);
    first_good = tt;
    others_good = (r.first_good, r.others_good);
  }

  char-Parts : IsKeyChar c → Parts false s → Parts false (c ∷ s)
  char-Parts g r = record {
    first = c ∷ r.first;
    others = r.others;
    whole = ap (λ (t : Bytes). c ∷ t) r.whole;
    first_good = (g, r.first_good);
    others_good = r.others_good;
  }

  first_char-Parts : IsKeyChar c → c ≢ dot → Parts false s → Parts true (c ∷ s)
  first_char-Parts g n r = record {
    first = c ∷ r.first;
    others = r.others;
    whole = ap (λ (t : Bytes). c ∷ t) r.whole;
    first_good = (g, n, r.first_good);
    others_good = r.others_good;
  }

  -- One round of the loop that goes on.
  loop_after_slash :
      valid_key_loop (c ∷ s) true ≡ valid_key_result
      → IsKeyChar c × (c ≢ dot) × (valid_key_loop s false ≡ valid_key_result)
  unfolding valid_key_loop
  loop_after_slash h = ground arith

  loop_in_component :
      valid_key_loop (c ∷ s) false ≡ valid_key_result
      → ((c ≡ slash) × (valid_key_loop s true ≡ valid_key_result))
        ⊎ (IsKeyChar c × (valid_key_loop s false ≡ valid_key_result))
  unfolding valid_key_loop
  loop_in_component h = ground arith

  loop_char :
      (saw : Bool)
      → IsKeyChar c
      → (saw ≡ true → c ≢ dot)
      → valid_key_loop (c ∷ s) saw ≡ valid_key_loop s false
  unfolding valid_key_loop
  loop_char saw g n = ground arith

valid_key_loop-Parts :
    (s : Bytes) (saw : Bool) → valid_key_loop s saw ≡ valid_key_result → Parts saw s
valid_key_loop-Parts [] true h = unfold valid_key_loop in cc
valid_key_loop-Parts [] false h = record {
  first = [];
  others = [];
  whole = refl;
  first_good = tt;
  others_good = tt;
}
valid_key_loop-Parts (c ∷ s) true h =
    let (g, n, rest) = loop_after_slash c s h in
    first_char-Parts c s g n (valid_key_loop-Parts s false rest)
valid_key_loop-Parts (c ∷ s) false h = elim (loop_in_component c s h) [
  | inl (e, rest) ↦ slash-Parts c s e (valid_key_loop-Parts s true rest)
  | inr (g, rest) ↦ char-Parts c s g (valid_key_loop-Parts s false rest)
]

loop_rest :
    (s t : Bytes)
    → All IsKeyChar s
    → valid_key_loop t false ≡ valid_key_result
    → valid_key_loop (s ++ t) false ≡ valid_key_result
loop_rest [] t h e = e
loop_rest (c ∷ s) t h e =
    loop_char c (s ++ t) false h.0 (λ x. absurd (false≢true x)) ∙ loop_rest s t h.1 e

loop_component :
    (c t : Bytes)
    → IsComponent c
    → valid_key_loop t false ≡ valid_key_result
    → valid_key_loop (c ++ t) true ≡ valid_key_result
loop_component [] t h e = absurd h
loop_component (c ∷ s) t h e = loop_char c (s ++ t) true h.0 (λ _. h.1) ∙ loop_rest s t h.2 e

loop_slash : (s : Bytes) → valid_key_loop (slash ∷ s) false ≡ valid_key_loop s true
unfolding valid_key_loop
loop_slash s = refl

loop_join :
    (cs : List Bytes) → All IsComponent cs → valid_key_loop (join cs) false ≡ valid_key_result
loop_join [] h = unfold valid_key_loop in refl
loop_join (c ∷ cs) h = loop_slash (c ++ join cs) ∙ loop_component c (join cs) h.0 (loop_join cs h.1)

valid_key-components :
    (key : Bytes)
    → valid_key key ≡ valid_key_result
    → (cs : List Bytes) × All IsComponent cs × (key ≡ key_of cs)
unfolding valid_key
valid_key-components [] h = cc
valid_key-components (c ∷ []) h = ([], tt, ground arith)
valid_key-components (c ∷ d ∷ s) h = elim (Bool-cases (c == slash)) [
  | inr e ↦ absurd (ground arith)
  | inl e ↦ elim (loop_in_component c (d ∷ s) (ground arith)) [
    | inl (e', rest) ↦
        let r = valid_key_loop-Parts (d ∷ s) true rest in
        (r.first ∷ r.others, (r.first_good, r.others_good), cc (e', r.whole))
    | inr (g, rest) ↦ absurd (false≢true (sym g.no_slash ∙ e))
  ]
]

valid_key-key_of : (cs : List Bytes) → All IsComponent cs → valid_key (key_of cs) ≡ valid_key_result
unfolding valid_key
valid_key-key_of [] h = refl
valid_key-key_of ([] ∷ cs) h = absurd h.0
valid_key-key_of ((c ∷ s) ∷ cs) h = loop_join ((c ∷ s) ∷ cs) h

-- `gconf_valid_key` accepts a key exactly when it is "/", or a sequence of components each behind
-- a slash, where a component is not empty, does not begin with a period, and has only ASCII bytes
-- that are neither a slash nor among the invalid characters.
pub valid_key_iff :
    (key : Bytes)
    → (valid_key key ≡ valid_key_result)
      ↔ ((cs : List Bytes) × All IsComponent cs × (key ≡ key_of cs))
valid_key_iff key =
    (valid_key-components key, λ (cs, good, e). ap valid_key e ∙ valid_key-key_of cs good)
