-- ===== src/Text/NerCache/Bounded.antt =====
-- The number of entries of the cache, and the agreement of its list and its index.
use palena_litellm_pseudonym.Base.{
  not, ℕ, zero, suc, ◌+◌, ◌≤◌, ◌<◌, ◌≡◌, inl, inr, ap, List, [], ◌∷◌, none, arith, leb, Bool-cases,
  Option-cases, length, length-append,
}
use palena_litellm_pseudonym.GoLib.Int.{ltbℤ, pos, int64}
use palena_litellm_pseudonym.GoLib.Strings.{Str}
use palena_litellm_pseudonym.GoLib.Dict.{get, put_new}
use palena_litellm_pseudonym.Text.NerCache.{
  CachedSpan, NerCache, count_up, delete_key, back, miss, drop_element, read_element, lookup,
  get_spans, make_room, push_front, refresh, put_spans,
}
use palena_litellm_pseudonym.Text.NerCache.Index.{back-In, back-none}
use palena_litellm_pseudonym.Text.NerCache.Agreement.{
  Agree, dropped, dropped_size, moved, pushed, lookup-In, lookup-none,
}

abbrev pub IsSound : NerCache → Type 0
IsSound c = Agree c.order c.items c.next_id

get-delete_none : (j k : Str) (m : List (Str × ℕ)) → get k m ≡ none → get k (delete_key j m) ≡ none
unfolding get delete_key
get-delete_none j k [] h = h
get-delete_none j k ((i, v) ∷ m) h = ground (arith, get-delete_none j k m)

-- Enough fuel makes room for one more entry, and no key appears.
make_room-IsSound :
    (fuel : ℕ) (k : Str) (c : NerCache)
    → 0 < c.max_entries
    → length c.items ≤ fuel
    → IsSound c
    → get k c.items ≡ none
    → IsSound (make_room fuel c)
      × (length (make_room fuel c).items < c.max_entries)
      × (get k (make_room fuel c).items ≡ none)
unfolding make_room drop_element
make_room-IsSound zero k c some_room enough s new = (s, omega arith, new)
make_room-IsSound (suc fuel) k c some_room enough s new = elim (Option-cases (back c.order)) [
  | inl nothing ↦
      let empty = back-none c.order nothing in
      rw (nothing, make_room) (s, omega (arith, s.same_size, ap length empty), new)
  | inr (e, found) ↦ elim (Bool-cases (leb c.max_entries (length c.items))) [
    | inr fits ↦ rw (found, make_room) (rw fits (s, ground arith, new))
    | inl full ↦
        let m = back-In c.order e found in
        let fewer = dropped_size e c.order c.items c.next_id m s in
        rw (found, make_room)
          (rw full (
            make_room-IsSound fuel k
              (record (drop_element e c) { evictions = count_up c.evictions }) some_room
              (omega arith) (dropped e c.order c.items c.next_id m s)
              (get-delete_none e.key k c.items new)))
  ]
]

-- After a put the cache has at most its limit of entries, in the list as in the index, which agree;
-- if they agreed before and the cache was within its limit.
pub put_spans-IsSound :
    (k : Str) (spans : List CachedSpan) (now : ℕ) (c : NerCache)
    → 0 < c.max_entries
    → IsSound c
    → length c.items ≤ c.max_entries
    → IsSound (put_spans k spans now c) × (length (put_spans k spans now c).items ≤ c.max_entries)
unfolding put_spans refresh push_front
put_spans-IsSound k spans now c some_room s small = elim (Option-cases (lookup k c)) [
  | inr (e, found) ↦
      rw (found, put_spans)
        (
          moved e c.order c.items c.next_id (lookup-In k c e found) s (int64 (now + c.ttl)) spans,
          small,
        )
  | inl absent ↦
      let room = make_room (length c.items) c in
      let (sound, space, new) =
        make_room-IsSound (length c.items) k c some_room (omega arith) s
          (lookup-none k c s absent) in
      rw (absent, put_spans)
        (
          pushed room.order room.items room.next_id k (int64 (now + c.ttl)) spans sound new,
          omega (
            arith,
            space,
            ap length (put_new k room.next_id room.items new),
            length-append room.items ((k, room.next_id) ∷ []),
          ),
        )
]

-- A read keeps the agreement, and the cache does not grow.
pub get_spans-IsSound :
    (k : Str) (now : ℕ) (c : NerCache)
    → IsSound c
    → IsSound (get_spans k now c).0 × (length (get_spans k now c).0.items ≤ length c.items)
unfolding get_spans read_element miss drop_element
get_spans-IsSound k now c s = elim (Option-cases (lookup k c)) [
  | inl absent ↦ rw (absent, get_spans) (s, omega arith)
  | inr (e, found) ↦
      let m = lookup-In k c e found in
      elim (Bool-cases (not (ltbℤ (pos now) e.expires))) [
        | inl over ↦
            rw (found, get_spans)
              (rw over (
                dropped e c.order c.items c.next_id m s,
                omega (arith, dropped_size e c.order c.items c.next_id m s),
              ))
        | inr fresh ↦
            rw (found, get_spans)
              (rw fresh (moved e c.order c.items c.next_id m s e.expires e.spans, omega arith))
      ]
]
