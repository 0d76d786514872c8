-- ===== src/Tests/Lines.antt =====
-- The cache of lines at concrete times.
use palena_litellm_pseudonym.GoLib.Int.{pos}
use palena_litellm_pseudonym.Base.{
  ◌+◌, ◌≤◌, ◌≡◌, refl, [], ◌∷◌, none, some, arith, ltb, if◌then◌else◌, length,
}
use palena_litellm_pseudonym.GoLib.Strings.{codes, text_eq}
use palena_litellm_pseudonym.GoLib.Dict.{get, put}
use palena_litellm_pseudonym.Text.NerCache.{
  CachedSpan, NerCache, element_at, remove, delete_key, back, drop_element, lookup, get_spans,
  make_room, push_front, put_spans,
}
use palena_litellm_pseudonym.Text.NerCache.Sound.{get_spans-put_spans}
use palena_litellm_pseudonym.Text.NerCache.Bounded.{IsSound, put_spans-IsSound}

abbrev empty_cache : NerCache
empty_cache = record {
  ttl = 10;
  max_entries = 1;
  order = [];
  items = [];
  next_id = 0;
  hits = 0;
  misses = 0;
  evictions = 0;
}

abbrev span : CachedSpan
span = record { start = pos 0; end = pos 3; score = 90; label = codes "name" }

abbrev one_line : NerCache
one_line = put_spans (codes "a") (span ∷ []) 5 empty_cache

-- A second line makes the first one leave.
eviction-run : (put_spans (codes "b") [] 6 one_line).evictions ≡ 1
unfolding put_spans lookup get element_at push_front put make_room back drop_element remove
    delete_key text_eq
eviction-run = refl

get_spans-put_spans_example :
    (get_spans (codes "a") 14 one_line).1
    ≡ (if ltb 14 (5 + empty_cache.ttl) then some (span ∷ []) else none)
get_spans-put_spans_example =
    get_spans-put_spans (codes "a") (span ∷ []) 5 14 empty_cache (omega arith)

line_hit : (get_spans (codes "a") 14 one_line).1 ≡ some (span ∷ [])
line_hit = get_spans-put_spans (codes "a") (span ∷ []) 5 14 empty_cache (omega arith)

empty-IsSound : IsSound empty_cache
unfolding get
empty-IsSound = record {
  agrees = λ k. refl;
  same_size = refl;
  item_keys = tt;
  order_keys = tt;
  order_ids = tt;
  old_ids = λ i h. absurd h;
}

one_line-IsSound : IsSound one_line × (length one_line.items ≤ empty_cache.max_entries)
one_line-IsSound =
    put_spans-IsSound (codes "a") (span ∷ []) 5 empty_cache (omega arith) empty-IsSound
      (omega arith)

put_spans-IsSound_example : IsSound one_line × (length one_line.items ≤ empty_cache.max_entries)
put_spans-IsSound_example =
    put_spans-IsSound (codes "a") (span ∷ []) 5 empty_cache (omega arith) empty-IsSound
      (omega arith)
