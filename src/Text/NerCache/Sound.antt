-- ===== src/Text/NerCache/Sound.antt =====
-- What the cache answers after a put, and after a read.
use palena_litellm_pseudonym.Base.{
  ℕ, ◌+◌, ◌<◌, ◌^◌, not, ◌≡◌, inl, inr, refl, sym, ap, ◌∙◌, List, [], ◌∷◌, Option, none, some,
  arith, ltb, ◌==◌, if◌then◌else◌, Bool-cases, Option-cases, ==_iff, ==_refl, length,
}
use palena_litellm_pseudonym.GoLib.Strings.{Str}
use palena_litellm_pseudonym.GoLib.Int.{ltbℤ, pos, int64, int64-small}
use palena_litellm_pseudonym.GoLib.Dict.{get, get-put_self}
use palena_litellm_pseudonym.Text.NerCache.{
  CachedSpan, Element, NerCache, count_up, element_at, remove, read_element, lookup, get_spans,
  make_room, push_front, refresh, put_spans,
}

element_at_lem :
    (i : ℕ) (order : List Element) (e : Element) → element_at i order ≡ some e → e.id ≡ i
unfolding element_at
element_at_lem i [] e h = absurd (cc)
element_at_lem i (x ∷ order) e h = elim (Bool-cases (x.id == i)) [
  | inl here ↦
      let same : x ≡ e = (let h' = rw here at h in cc) in
      sym (ap (λ y. y.id) same) ∙ (==_iff x.id i).0 here
  | inr later ↦ element_at_lem i order e (let h' = rw later at h in h')
]

-- The element that the index has for a key stands in the list under the pointer.
lookup_lem :
    (k : Str) (c : NerCache) (e : Element) → lookup k c ≡ some e → get k c.items ≡ some e.id
unfolding lookup
lookup_lem k c e h = elim (Option-cases (get k c.items)) [
  | inl nothing ↦ absurd (let h' = rw (nothing, lookup) at h in cc)
  | inr (i, found) ↦
      let h' = rw (found, lookup) at h in found ∙ ap some (sym (element_at_lem i c.order e h'))
]

lookup_front :
    (k : Str) (c : NerCache) (e : Element) (rest : List Element)
    → c.order ≡ e ∷ rest
    → get k c.items ≡ some e.id
    → lookup k c ≡ some e
unfolding lookup element_at
lookup_front k c e rest front found =
    rw (found, lookup) (rw (front, element_at) (rw (==_refl e.id) refl))

-- What get answers for an element that it has found.
read_answer : ℕ → Element → Option (List CachedSpan)
read_answer now e = if not (ltbℤ (pos now) e.expires) then none else some e.spans

get_spans_found :
    (k : Str) (now : ℕ) (c : NerCache) (e : Element)
    → lookup k c ≡ some e
    → (get_spans k now c).1 ≡ read_answer now e
unfolding get_spans read_element read_answer
get_spans_found k now c e found = elim (Bool-cases (not (ltbℤ (pos now) e.expires))) [
  | inl over ↦ rw (found, get_spans) (rw over refl)
  | inr fresh ↦ rw (found, get_spans) (rw fresh refl)
]

-- A line that is put and looked up next is answered with its spans if that is before its time to live
-- is over, and else not at all, also if it was in the cache before and if the cache was full; as long
-- as the end of its life fits an int64.
pub get_spans-put_spans :
    (k : Str) (spans : List CachedSpan) (now later : ℕ) (c : NerCache)
    → now + c.ttl < 2 ^ 63
    → (get_spans k later (put_spans k spans now c)).1
      ≡ (if ltb later (now + c.ttl) then some spans else none)
unfolding put_spans refresh push_front read_answer
get_spans-put_spans k spans now later c small =
    let end : int64 (now + c.ttl) ≡ pos (now + c.ttl) = int64-small (now + c.ttl) small in
    elim (Option-cases (lookup k c)) [
      | inl new ↦
          let room = make_room (length c.items) c in
          let e : Element = record {
            id = room.next_id;
            key = k;
            expires = pos (now + c.ttl);
            spans = spans;
          } in
          let after = push_front k (pos (now + c.ttl)) spans room in
          let there =
            lookup_front k after e room.order refl (get-put_self k room.next_id room.items) in
          rw (new, end, put_spans) (get_spans_found k later after e there ∙ ground arith)
      | inr (old, known) ↦
          let e : Element = record old { expires = pos (now + c.ttl); spans = spans } in
          let after = refresh old (pos (now + c.ttl)) spans c in
          let there =
            lookup_front k after e (remove old.id c.order) refl (lookup_lem k c old known) in
          rw (known, end, put_spans) (get_spans_found k later after e there ∙ ground arith)
    ]

-- A read that is answered does not extend the life of the line, nor shorten it: any later read is
-- answered as without it.
pub get_spans-twice :
    (k : Str) (now later : ℕ) (c : NerCache) (spans : List CachedSpan)
    → (get_spans k now c).1 ≡ some spans
    → (get_spans k later (get_spans k now c).0).1 ≡ (get_spans k later c).1
unfolding get_spans read_element
get_spans-twice k now later c spans hit = elim (Option-cases (lookup k c)) [
  | inl nothing ↦ absurd (let h = rw (nothing, get_spans) at hit in cc)
  | inr (e, found) ↦ elim (Bool-cases (not (ltbℤ (pos now) e.expires))) [
    | inl over ↦ absurd (let h = rw (found, get_spans) at hit in let h' = rw over at h in cc)
    | inr fresh ↦
        let after : NerCache = record c {
          order = e ∷ remove e.id c.order;
          hits = count_up c.hits;
        } in
        let read : (get_spans k now c).0 ≡ after = rw (found, get_spans) (rw fresh refl) in
        let there = lookup_front k after e (remove e.id c.order) refl (lookup_lem k c e found) in
        ap (λ d. (get_spans k later d).1) read
        ∙ get_spans_found k later after e there
        ∙ sym (get_spans_found k later c e found)
  ]
]
