-- ===== src/Keys/Concat.antt =====
-- `gconf_concat_dir_and_key`, `gconf_key_directory` and `gconf_key_key` on the paths of components.
use gconf_dbus.Prelude.{
  ℕ, ◌≡◌, refl, ◌∙◌, ap, sym, false, none, some, List, [], ◌∷◌, ◌++◌, append-nil, All,
}
use gconf_dbus.CString.{Bytes, begins}
use gconf_dbus.Keys.{
  slash, ends_with_slash?, skip_slash, concat_dir_and_key, split_last_slash, key_directory, key_key,
  directory_before,
}
use gconf_dbus.Keys.Valid.{IsKeyChar, IsComponent, join, key_of}
use gconf_dbus.Keys.Below.{join-append, component-IsKeyChar}

-- Neither a component nor a path of components ends with a slash.
ends_with_slash?-append :
    (s : Bytes) (c : ℕ) (t : Bytes) → ends_with_slash? (s ++ c ∷ t) ≡ ends_with_slash? (c ∷ t)
unfolding ends_with_slash?
ends_with_slash?-append [] c t = refl
ends_with_slash?-append (d ∷ []) c t = refl
ends_with_slash?-append (d ∷ e ∷ s) c t = ends_with_slash?-append (e ∷ s) c t

chars_end : (c : ℕ) (s : Bytes) → All IsKeyChar (c ∷ s) → ends_with_slash? (c ∷ s) ≡ false
unfolding ends_with_slash?
chars_end c [] h = h.0.no_slash
chars_end c (d ∷ s) h = chars_end d s h.1

join_end :
    (c : Bytes) (cs : List Bytes)
    → IsComponent c
    → All IsComponent cs
    → ends_with_slash? (join (c ∷ cs)) ≡ false
join_end [] cs h hs = absurd h
join_end (d ∷ c) [] h hs =
    ap ends_with_slash? (ap (λ (t : Bytes). slash ∷ t) (append-nil (d ∷ c)))
    ∙ ends_with_slash?-append (slash ∷ []) d c
    ∙ chars_end d c (h.0, h.2)
join_end (d ∷ c) (e ∷ cs) h hs =
    ends_with_slash?-append (slash ∷ d ∷ c) slash (e ++ join cs) ∙ join_end e cs hs.0 hs.1

-- A component begins with no slash.
begins-component : (c s : Bytes) → IsComponent c → begins (c ++ s) slash ≡ false
begins-component [] s h = absurd h
begins-component (d ∷ c) s h = h.0.no_slash

skip_slash-component : (c s : Bytes) → IsComponent c → skip_slash (c ++ s) ≡ c ++ s
skip_slash-component [] s h = absurd h
skip_slash-component (d ∷ c) s h = rw h.0.no_slash

module _ (c : Bytes) (cs : List Bytes) (h : IsComponent c) where
  concat_root_absolute : concat_dir_and_key (slash ∷ []) (join (c ∷ cs)) ≡ some (join (c ∷ cs))
  unfolding concat_dir_and_key
  concat_root_absolute = refl

  concat_root_relative : concat_dir_and_key (slash ∷ []) (c ++ join cs) ≡ some (join (c ∷ cs))
  unfolding concat_dir_and_key
  concat_root_relative = rw (skip_slash-component c (join cs) h)

-- Putting a path of components behind a directory appends the components, whether the path begins
-- with a slash or not.
pub concat_dir_and_key-key_of :
    (ds : List Bytes) (c : Bytes) (cs : List Bytes)
    → All IsComponent ds
    → IsComponent c
    → (concat_dir_and_key (key_of ds) (join (c ∷ cs)) ≡ some (key_of (ds ++ c ∷ cs)))
      × (concat_dir_and_key (key_of ds) (c ++ join cs) ≡ some (key_of (ds ++ c ∷ cs)))
concat_dir_and_key-key_of [] c cs hd h = (concat_root_absolute c cs h, concat_root_relative c cs h)
concat_dir_and_key-key_of (d ∷ ds) c cs hd h =
    unfold concat_dir_and_key in
    (
      rw (join_end d ds hd.0 hd.1) (ap some (sym (join-append (d ∷ ds) (c ∷ cs)))),
      rw (join_end d ds hd.0 hd.1, begins-component c (join cs) h)
          (ap some (sym (join-append (d ∷ ds) (c ∷ cs)))),
    )

split_last_slash-chars : (s : Bytes) → All IsKeyChar s → split_last_slash s ≡ none
unfolding split_last_slash
split_last_slash-chars [] h = refl
split_last_slash-chars (c ∷ s) h = rw (split_last_slash-chars s h.1) (rw h.0.no_slash)

split_last_slash-append :
    (s t : Bytes) → All IsKeyChar t → split_last_slash (s ++ slash ∷ t) ≡ some (s, t)
unfolding split_last_slash
split_last_slash-append [] t h = rw (split_last_slash-chars t h)
split_last_slash-append (c ∷ s) t h = rw (split_last_slash-append s t h)

join_last : (ds : List Bytes) (c : Bytes) → key_of (ds ++ c ∷ []) ≡ join ds ++ slash ∷ c
join_last [] c = ap (λ (t : Bytes). slash ∷ t) (append-nil c)
join_last (d ∷ ds) c =
    join-append (d ∷ ds) (c ∷ []) ∙ ap (λ (t : Bytes). join (d ∷ ds) ++ slash ∷ t) (append-nil c)

directory_before-join : (ds : List Bytes) → directory_before (join ds) ≡ key_of ds
directory_before-join [] = refl
directory_before-join (d ∷ ds) = refl

key_directory-split :
    (key before behind : Bytes)
    → split_last_slash key ≡ some (before, behind)
    → (key_directory key ≡ some (directory_before before)) × (key_key key ≡ some behind)
unfolding key_directory key_key
key_directory-split key before behind e = (rw (e, key_directory), rw (e, key_key))

-- The last component of a key and the path of the others are what `gconf_key_key` and
-- `gconf_key_directory` return.
pub key_directory-key_of :
    (ds : List Bytes) (c : Bytes)
    → IsComponent c
    → (key_directory (key_of (ds ++ c ∷ [])) ≡ some (key_of ds))
      × (key_key (key_of (ds ++ c ∷ [])) ≡ some c)
key_directory-key_of ds c h =
    let (directory, last) =
      key_directory-split (join ds ++ slash ∷ c) (join ds) c
        (split_last_slash-append (join ds) c (component-IsKeyChar c h)) in
    (
      ap key_directory (join_last ds c) ∙ directory ∙ ap some (directory_before-join ds),
      ap key_key (join_last ds c) ∙ last,
    )
