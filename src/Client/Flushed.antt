-- ===== src/Client/Flushed.antt =====
-- `gconf_client_flush_notifies` returns, and tells of every queued entry that is cached.
use gconf_dbus.Prelude.{
  ◌≡◌, refl, sym, subst, ◌∙◌, true, Option, none, some, List, [], ◌∷◌, ◌++◌, All, arith, ◌⊎◌, inl,
  inr, Bool-cases, All-map,
}
use mathlib.Core.Bool.{false≢true}
use gconf_dbus.CString.{Bytes, bytes_eq-eq}
use gconf_dbus.Platform.{Platform}
use gconf_dbus.Sources.{GConfError}
use gconf_dbus.Value.Entry.{GConfEntry, entry_copy}
use gconf_dbus.Client.{Dir, Engine}
use gconf_dbus.Client.Cache.{
  gconf_client_lookup, cache_found, gconf_client_cache, Got, get, get_found, get_answer, or_default,
  key_being_monitored,
}
use gconf_dbus.Client.Cached.{some_eq, lookup_key}
use gconf_dbus.Client.Fresh.{HasKey, IsKeyed}
use gconf_dbus.Client.Flush.{
  Flushed, is_last, told, follow, flush_key, flush_loop, gconf_client_flush_notifies,
}

abbrev pub IsIn : GConfEntry → List GConfEntry → Type 0
IsIn x [] = ⊥
IsIn x (y ∷ ys) = (x ≡ y) ⊎ IsIn x ys

in_front : (x : GConfEntry) (xs ys : List GConfEntry) → IsIn x xs → IsIn x (xs ++ ys)
in_front x [] ys h = absurd h
in_front x (y ∷ xs) ys (inl e) = inl e
in_front x (y ∷ xs) ys (inr h) = inr (in_front x xs ys h)

behind : (x : GConfEntry) (xs ys : List GConfEntry) → IsIn x ys → IsIn x (xs ++ ys)
behind x [] ys h = h
behind x (y ∷ xs) ys h = inr (behind x xs ys h)

-- The key is that of the last entry, or the entry is among those told of.
abbrev Told : Option Bytes → Bytes → GConfEntry → List GConfEntry → Type 0
Told last key x told_of = (is_last last key ≡ true) ⊎ IsIn x told_of

record Round {E : Type 0} (last : Option Bytes) (cache : List GConfEntry) (key : Bytes)
    (r : Option (Flushed E)) : Type 0 where
  state : Flushed E
  returned : r ≡ some state
  stays :
      (k : Bytes) (x : GConfEntry)
      → gconf_client_lookup cache k ≡ some x
      → gconf_client_lookup state.cache k ≡ some x
  kept :
      (k : Bytes) (x : GConfEntry)
      → gconf_client_lookup cache k ≡ some x
      → is_last state.last k ≡ true
      → Told last k x state.notified
  here : (x : GConfEntry) → gconf_client_lookup cache key ≡ some x → Told last key x state.notified

-- What was in the list is in the sorted list.
pub record IsSort (g_slist_sort : List Bytes → List Bytes) : Type 1 where
  pub keeps : (P : Bytes → Type 0) (xs : List Bytes) → All P (g_slist_sort xs) → All P xs

from_none : (key : Bytes) (x : GConfEntry) (xs : List GConfEntry) → Told none key x xs → IsIn x xs
from_none key x xs (inl h) = absurd (false≢true h)
from_none key x xs (inr h) = h

module _ (p : Platform) {E : Type 0} (eng : Engine E) (ds : List Dir) where
  -- `get` for a key that is monitored and not cached.
  record Fetched (cache : List GConfEntry) (r : Option (Got E)) : Type 0 where
    got : Got E
    returned : r ≡ some got
    stays :
        (k : Bytes) (x : GConfEntry)
        → gconf_client_lookup cache k ≡ some x
        → gconf_client_lookup got.cache k ≡ some x

  answer-Fetched :
      (cache : List GConfEntry) (key : Bytes) (a : E × (GConfEntry ⊎ GConfError))
      → gconf_client_lookup cache key ≡ none
      → key_being_monitored ds key ≡ true
      → HasKey key a
      → Fetched cache (get_answer p eng ds cache key true a)
  unfolding get_answer gconf_client_cache cache_found
  answer-Fetched cache key (e, inr err) h m q = record {
    got = record { entry = none; cache = cache; engine = e; error = some err };
    returned = refl;
    stays = λ k x c. c;
  }
  answer-Fetched cache key (e, inl entry) h m q = record {
    got = record {
      entry = or_default true entry;
      cache = entry_copy entry ∷ cache;
      engine = e;
      error = none;
    };
    returned = rw (m, q, h) refl;
    stays = λ k x c. ground (arith, bytes_eq-eq entry.key k, q, h, c);
  }

  get-Fetched :
      (law : IsKeyed eng) (cache : List GConfEntry) (key : Bytes) (e : E)
      → gconf_client_lookup cache key ≡ none
      → key_being_monitored ds key ≡ true
      → Fetched cache (get p eng ds cache key true e)
  unfolding get get_found
  get-Fetched law cache key e h m =
      rw h (answer-Fetched cache key (eng.get_entry e key) h m (law.keyed e key))

  told-Round :
      (last : Option Bytes) (cache : List GConfEntry) (key : Bytes) (g : Got E)
      → (entry : Option GConfEntry) → gconf_client_lookup cache key ≡ none
      → ((k : Bytes) (x : GConfEntry)
          → gconf_client_lookup cache k ≡ some x
          → gconf_client_lookup g.cache k ≡ some x)
      → Round last cache key (some (told last entry g))
  told-Round last cache key g none h stays = record {
    state = told last none g;
    returned = refl;
    stays = stays;
    kept = λ k x c l. inl l;
    here = λ x c. absurd (ground (arith, h, c));
  }
  told-Round last cache key g (some entry) h stays = record {
    state = told last (some entry) g;
    returned = refl;
    stays = stays;
    kept = λ k x c l. absurd (false≢true l);
    here = λ x c. absurd (ground (arith, h, c));
  }

  quiet-Round :
      (last : Option Bytes) (cache : List GConfEntry) (key : Bytes) (e : E)
      → ((x : GConfEntry) → gconf_client_lookup cache key ≡ some x → is_last last key ≡ true)
      → Round last cache key
          (some (record { last = last; notified = []; cache = cache; engine = e }))
  quiet-Round last cache key e h = record {
    state = record { last = last; notified = []; cache = cache; engine = e };
    returned = refl;
    stays = λ k x c. c;
    kept = λ k x c l. inl l;
    here = λ x c. inl (h x c);
  }

  told_of-Round :
      (last : Option Bytes) (cache : List GConfEntry) (key : Bytes) (e : E) (entry : GConfEntry)
      → gconf_client_lookup cache key ≡ some entry
      → Round last cache key (
          some (record { last = some entry.key; notified = entry ∷ []; cache = cache; engine = e }))
  told_of-Round last cache key e entry h = record {
    state = record { last = some entry.key; notified = entry ∷ []; cache = cache; engine = e };
    returned = refl;
    stays = λ k x c. c;
    kept = λ k x c l.
        let same : entry.key ≡ k = bytes_eq-eq entry.key k l in
        let it : gconf_client_lookup cache k ≡ some entry =
          subst (λ (m : Bytes). gconf_client_lookup cache m ≡ some entry)
            (sym (lookup_key key cache entry h) ∙ same) h in
        inr (inl (some_eq (sym c ∙ it)));
    here = λ x c. inr (inl (some_eq (sym c ∙ h)));
  }

  flush_key-Round :
      (law : IsKeyed eng) (last : Option Bytes) (cache : List GConfEntry) (e : E) (key : Bytes)
      → (found : Option GConfEntry) → gconf_client_lookup cache key ≡ found
      → Round last cache key (flush_key p eng ds last cache e key found)
  unfolding flush_key
  flush_key-Round law last cache e key (some entry) h =
      let same = lookup_key key cache entry h in
      elim (Bool-cases (is_last last entry.key)) [
        | inl l ↦ rw l (quiet-Round last cache key e (λ x c. rw same at l))
        | inr l ↦ rw l (told_of-Round last cache key e entry h)
      ]
  flush_key-Round law last cache e key none h = elim (Bool-cases (key_being_monitored ds key)) [
    | inl m ↦
        let f = get-Fetched law cache key e h m in
        rw (m, f.returned) (told-Round last cache key f.got f.got.entry h f.stays)
    | inr m ↦ rw m (quiet-Round last cache key e (λ x c. absurd (ground (arith, h, c))))
  ]

  -- What the loop is to do for a key.
  abbrev IsTold : Option Bytes → List GConfEntry → List GConfEntry → Bytes → Type 0
  IsTold last cache told_of key =
      (x : GConfEntry) → gconf_client_lookup cache key ≡ some x → Told last key x told_of

  record Loop (last : Option Bytes) (cache : List GConfEntry) (keys : List Bytes)
      (r : Option (Flushed E)) : Type 0 where
    state : Flushed E
    returned : r ≡ some state
    told_keys : All (IsTold last cache state.notified) keys

  later :
      (last : Option Bytes) (cache : List GConfEntry) (key k : Bytes) (r : Option (Flushed E))
      → (t : Round last cache key r) (f : Flushed E)
      → IsTold t.state.last t.state.cache f.notified k
      → IsTold last cache (t.state.notified ++ f.notified) k
  later last cache key k r t f h x c = elim (h x (t.stays k x c)) [
    | inl l ↦ elim (t.kept k x c l) [
      | inl m ↦ inl m
      | inr m ↦ inr (in_front x t.state.notified f.notified m)
    ]
    | inr m ↦ inr (behind x t.state.notified f.notified m)
  ]

  first :
      (last : Option Bytes) (cache : List GConfEntry) (key : Bytes) (r : Option (Flushed E))
      → (t : Round last cache key r) (f : Flushed E)
      → IsTold last cache (t.state.notified ++ f.notified) key
  first last cache key r t f x c = elim (t.here x c) [
    | inl l ↦ inl l
    | inr m ↦ inr (in_front x t.state.notified f.notified m)
  ]

  flush_loop-Loop :
      (law : IsKeyed eng) (last : Option Bytes) (cache : List GConfEntry) (e : E)
      → (keys : List Bytes) → Loop last cache keys (flush_loop p eng ds last cache e keys)
  unfolding flush_loop
  flush_loop-Loop law last cache e [] = record {
    state = record { last = last; notified = []; cache = cache; engine = e };
    returned = refl;
    told_keys = tt;
  }
  flush_loop-Loop law last cache e (key ∷ keys) =
      let found = gconf_client_lookup cache key in
      let r = flush_key p eng ds last cache e key found in
      let t = flush_key-Round law last cache e key found refl in
      let rest = flush_loop-Loop law t.state.last t.state.cache t.state.engine keys in
      record {
        state = follow t.state rest.state;
        returned = rw (t.returned, rest.returned) refl;
        told_keys = (
          first last cache key r t rest.state,
          All-map (IsTold t.state.last t.state.cache rest.state.notified)
              (IsTold last cache (t.state.notified ++ rest.state.notified))
              (λ k. later last cache key k r t rest.state) keys rest.told_keys,
        );
      }

  pub record Notified (cache : List GConfEntry) (keys : List Bytes) (r : Option (Flushed E))
      : Type 0 where
    pub state : Flushed E
    pub returned : r ≡ some state
    pub all_told :
        All
          (λ key. (x : GConfEntry) → gconf_client_lookup cache key ≡ some x → IsIn x state.notified)
          keys

  -- With a sort that keeps what is in a list, and an engine that answers a key with an entry that
  -- has the key: gconf_client_flush_notifies returns, and for every key in the queue that the cache
  -- has an entry for, that entry is told of.
  pub flush_notifies-Notified :
      (law : IsKeyed eng) (g_slist_sort : List Bytes → List Bytes) (sorts : IsSort g_slist_sort)
      → (keys : List Bytes) (cache : List GConfEntry) (e : E)
      → Notified cache keys (gconf_client_flush_notifies p eng ds g_slist_sort keys cache e)
  unfolding gconf_client_flush_notifies
  flush_notifies-Notified law g_slist_sort sorts keys cache e =
      let l = flush_loop-Loop law none cache e (g_slist_sort keys) in
      record {
        state = l.state;
        returned = l.returned;
        all_told = sorts.keeps _ keys (
            All-map (IsTold none cache l.state.notified)
              (λ key.
                (x : GConfEntry) → gconf_client_lookup cache key ≡ some x → IsIn x l.state.notified)
              (λ key h x c. from_none key x l.state.notified (h x c)) (g_slist_sort keys)
              l.told_keys);
      }
