-- ===== src/Text/NerCache.antt =====
-- internal/text/nercache.go: the lines that the span model has seen. A pointer to an element of
-- container/list is an id that no other element has; times are nanoseconds, of which
-- int64 holds the expiry.
pub mod Sound
pub mod Index
pub mod Agreement
pub mod Bounded
use palena_litellm_pseudonym.Base.{
  ℕ, zero, suc, ◌+◌, ◌-◌, ◌*◌, ◌/◌, ◌%◌, ◌^◌, ◌≤◌, ◌<◌, ◌≡◌, ◌≢◌, ◌↔◌, ◌⊎◌, inl, inr, refl, sym, ap,
  subst, ◌∙◌, Bool, true, false, ◌&&◌, ◌||◌, not, List, [], ◌∷◌, ◌++◌, map, append_assoc,
  append-nil, Option, none, some, arith, ltb, leb, ◌==◌, if◌then◌else◌, Bool-cases, Option-cases,
  &&-eq-true, ||-eq-true, ||-eq-false, bool_ext, ==_iff, ==_refl, leb→le, ltb→lt, lt→ltb, length,
  take, drop, get_elem?, all, any, keep, length-append, take-append-drop, length-take, length-drop,
  take_all, take-append, drop-append, length-keep-le, length-map, In, Distinct, All, In-append_left,
  In-append_right, All-In, pigeonhole, In-map,
}
use palena_litellm_pseudonym.GoLib.Int.{ℤ, pos, ltbℤ, int64}
use palena_litellm_pseudonym.GoLib.Strings.{
  Str, codes, raw_byte, replacement_char, width, byte_len, is_empty, text_eq, text_eq_iff,
  text_eq_refl, text_eq-false, starts_with, contains, elem, elem_iff, infixes, In-infixes,
  width_pos, byte_len-append,
}
use palena_litellm_pseudonym.GoLib.Dict.{
  get, put, has, keys, get-put, get-put_self, get-put_ne, has-false, has_of_get, put_new,
  get-append, In-keys_of_get, get_of_In-keys,
}

-- start and end hold an int32.
pub record CachedSpan : Type 0 where
  pub start : ℤ
  pub end : ℤ
  pub score : ℕ
  pub label : Str

-- An element of the list with the nerCacheEntry that it holds.
pub record Element : Type 0 where
  pub id : ℕ
  pub key : Str
  pub expires : ℤ
  pub spans : List CachedSpan

-- `order` has the most recently used element in front. The three counters are uint64.
pub record NerCache : Type 0 where
  pub ttl : ℕ
  pub max_entries : ℕ
  pub order : List Element
  pub items : List (Str × ℕ)
  pub next_id : ℕ
  pub hits : ℕ
  pub misses : ℕ
  pub evictions : ℕ

-- NewNERCache: none for a nil cache.
unfoldable pub new_ner_cache : ℕ → ℕ → Option NerCache
new_ner_cache max_entries ttl =
    if max_entries == 0 || ttl == 0
    then none
    else some (record {
      ttl = ttl;
      max_entries = max_entries;
      order = [];
      items = [];
      next_id = 0;
      hits = 0;
      misses = 0;
      evictions = 0;
    })

-- atomic.Uint64.Add(1)
abbrev pub count_up : ℕ → ℕ
count_up n = (n + 1) % 2 ^ 64

-- The element that a pointer leads to.
unfoldable pub element_at : ℕ → List Element → Option Element
element_at i [] = none
element_at i (e ∷ order) = if e.id == i then some e else element_at i order

-- list.Remove
unfoldable pub remove : ℕ → List Element → List Element
remove i [] = []
remove i (e ∷ order) = if e.id == i then order else e ∷ remove i order

-- delete(c.items, key)
unfoldable pub delete_key : Str → List (Str × ℕ) → List (Str × ℕ)
delete_key k [] = []
delete_key k ((j, v) ∷ m) = if text_eq j k then m else (j, v) ∷ delete_key k m

-- list.Back
unfoldable pub back : List Element → Option Element
back [] = none
back (e ∷ order) = elim (back order) [ none ↦ some e | some last ↦ some last ]

-- nerCacheKey, where `sha` is SHA-256.
unfoldable pub ner_cache_key : (Str → Str) → Str → Str → Str
ner_cache_key sha scope line = sha (scope ++ (0 ∷ line))

unfoldable pub miss : NerCache → NerCache
miss c = record c { misses = count_up c.misses }

unfoldable pub drop_element : Element → NerCache → NerCache
drop_element e c = record c { order = remove e.id c.order; items = delete_key e.key c.items }

-- What get does with the element that it has found.
unfoldable pub read_element : ℕ → Element → NerCache → NerCache × Option (List CachedSpan)
unfolding miss drop_element
read_element now e c =
    if not (ltbℤ (pos now) e.expires)
    then (miss (drop_element e c), none)
    else (record c { order = e ∷ remove e.id c.order; hits = count_up c.hits }, some e.spans)

-- The element behind the pointer that items has for a key.
unfoldable pub lookup : Str → NerCache → Option Element
lookup k c = elim (get k c.items) [ none ↦ none | some i ↦ element_at i c.order ]

-- NERCache.get at the time `now`, which is an int64 that is not negative.
unfoldable pub get_spans : Str → ℕ → NerCache → NerCache × Option (List CachedSpan)
unfolding miss
get_spans k now c = elim (lookup k c) [ none ↦ (miss c, none) | some e ↦ read_element now e c ]

-- The loop that makes room. The fuel is the number of entries: each round drops one. On an empty list
-- the code would fail; with an index that agrees with the list it is not reached.
unfoldable pub make_room : ℕ → NerCache → NerCache
unfolding drop_element
make_room zero c = c
make_room (suc fuel) c = elim (back c.order) [
  | none ↦ c
  | some oldest ↦
      let roomier =
        make_room fuel (record (drop_element oldest c) { evictions = count_up c.evictions }) in
      if leb c.max_entries (length c.items) then roomier else c
]

unfoldable pub push_front : Str → ℤ → List CachedSpan → NerCache → NerCache
push_front k expires spans c = record c {
  order = (record { id = c.next_id; key = k; expires = expires; spans = spans }) ∷ c.order;
  items = put k c.next_id c.items;
  next_id = suc c.next_id;
}

-- put over an entry that is there already: it is changed in place and moved to the front.
unfoldable pub refresh : Element → ℤ → List CachedSpan → NerCache → NerCache
refresh e expires spans c = record c {
  order = (record e { expires = expires; spans = spans }) ∷ remove e.id c.order;
}

-- NERCache.put at the time `now`.
unfoldable pub put_spans : Str → List CachedSpan → ℕ → NerCache → NerCache
unfolding refresh push_front
put_spans k spans now c = elim (lookup k c) [
  | some e ↦ refresh e (int64 (now + c.ttl)) spans c
  | none ↦ push_front k (int64 (now + c.ttl)) spans (make_room (length c.items) c)
]
