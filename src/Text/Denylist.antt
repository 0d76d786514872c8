-- ===== src/Text/Denylist.antt =====
-- internal/text/denylist.go: the terms that are always pseudonymized, found as whole words. A compiled
-- pattern is its term, which it matches without regard to case.
pub mod Words
pub mod Coverage
pub mod Laws
use palena_litellm_pseudonym.Base.{
  ℕ, zero, suc, ◌+◌, ◌-◌, ◌*◌, ◌/◌, ◌%◌, ◌^◌, ◌≤◌, ◌<◌, ◌≡◌, ◌≢◌, ◌↔◌, ◌⊎◌, inl, inr, refl, sym, ap,
  subst, ◌∙◌, Bool, true, false, ◌&&◌, ◌||◌, not, List, [], ◌∷◌, ◌++◌, map, append_assoc,
  append-nil, Option, none, some, arith, ltb, leb, ◌==◌, if◌then◌else◌, Bool-cases, Option-cases,
  &&-eq-true, ||-eq-true, ||-eq-false, bool_ext, ==_iff, ==_refl, leb→le, ltb→lt, lt→ltb, length,
  take, drop, get_elem?, all, any, keep, length-append, take-append-drop, length-take, length-drop,
  take_all, take-append, drop-append, length-keep-le, length-map, In, Distinct, All, In-append_left,
  In-append_right, All-In, pigeonhole, In-map,
}
use palena_litellm_pseudonym.GoLib.Strings.{
  Str, codes, raw_byte, replacement_char, width, byte_len, is_empty, text_eq, text_eq_iff,
  text_eq_refl, text_eq-false, starts_with, contains, elem, elem_iff, infixes, In-infixes,
  width_pos, byte_len-append,
}
use palena_litellm_pseudonym.GoLib.Dict.{
  get, put, has, keys, get-put, get-put_self, get-put_ne, has-false, has_of_get, put_new,
  get-append, In-keys_of_get, get_of_In-keys,
}
use palena_litellm_pseudonym.GoLib.Unicode.{
  Unicode, lower, upper, equal_fold, lower-lower, trim_left, trim_right, trim, trim_space, fields,
}
use palena_litellm_pseudonym.GoLib.Order.{sort_by, In-sort_by}
use palena_litellm_pseudonym.Presidio.{Detection}
use palena_litellm_pseudonym.Text.Replacer.{match_key, head_of, last_of}

pub record DenyList : Type 0 where
  pub entity : Str
  pub terms : List Str

-- A score is in millionths.
abbrev pub deny_match : ℕ
deny_match = 1_000_000

-- byEntity: the terms of each entity type, longest first.
pub record DenyMatcher : Type 0 where
  pub by_entity : List (Str × List Str)

trimmed_terms : Unicode → List Str → List Str
trimmed_terms u [] = []
trimmed_terms u (t ∷ ts) =
    let rest = trimmed_terms u ts in
    if is_empty (trim_space u t) then rest else trim_space u t ∷ rest

-- append(m[k], ts...)
append_terms : Str → List Str → List (Str × List Str) → List (Str × List Str)
append_terms k [] m = m
append_terms k (t ∷ ts) m = put k ((elim (get k m) [ none ↦ [] | some old ↦ old ]) ++ (t ∷ ts)) m

collect_terms : Unicode → List Str → List DenyList → List (Str × List Str) → List (Str × List Str)
unfolding trimmed_terms append_terms
collect_terms u entities [] m = m
collect_terms u entities (l ∷ lists) m =
    collect_terms u entities lists
      (if elem l.entity entities then append_terms l.entity (trimmed_terms u l.terms) m else m)

-- sort.SliceStable by decreasing length in bytes.
longer_first : Str → Str → Bool
longer_first a b = leb (byte_len b) (byte_len a)

sorted_terms : List (Str × List Str) → List (Str × List Str)
unfolding longer_first
sorted_terms [] = []
sorted_terms ((k, ts) ∷ m) = (k, sort_by longer_first ts) ∷ sorted_terms m

-- NewDenyMatcher: none for nil.
unfoldable pub new_deny_matcher : Unicode → List DenyList → List Str → Option DenyMatcher
unfolding collect_terms sorted_terms
new_deny_matcher u lists entities =
    let terms = collect_terms u entities lists [] in
    if length terms == 0 then none else some (record { by_entity = sorted_terms terms })

-- A match in a text, in bytes, with the code points next to it.
pub record Match : Type 0 where
  pub start : ℕ
  pub end : ℕ
  pub before : Option ℕ
  pub after : Option ℕ
  pub text : Str

-- FindAllStringIndex from the byte `pos` on, behind the code point `prev`. The fuel is the text's
-- length.
unfoldable pub find_all : Unicode → Str → ℕ → ℕ → Option ℕ → Str → List Match
find_all u term zero pos prev s = []
find_all u term (suc fuel) pos prev [] = []
find_all u term (suc fuel) pos prev (c ∷ s) = elim (match_key u term (c ∷ s)) [
  | none ↦ find_all u term fuel (pos + width c) (some c) s
  | some (found, rest) ↦
      (record {
        start = pos;
        end = pos + byte_len found;
        before = prev;
        after = head_of rest;
        text = found;
      })
      ∷ find_all u term fuel (pos + byte_len found) (last_of prev found) rest
]

unfoldable pub matches_of : Unicode → Str → Str → List Match
unfolding find_all
matches_of u s term = find_all u term (length s) 0 none s

-- What an undecodable byte is decoded to.
decoded : ℕ → ℕ
decoded c = if leb 0x110000 c then replacement_char else c

unfoldable pub is_word_rune : Unicode → ℕ → Bool
unfolding decoded
is_word_rune u c = decoded c == b'_' || u.is_letter (decoded c) || u.is_digit (decoded c)

-- wordBoundaryBefore and wordBoundaryAfter, on the neighbour if there is one.
unfoldable pub word_boundary : Unicode → Option ℕ → Bool
word_boundary u none = true
word_boundary u (some c) = not (is_word_rune u c)

-- overlaps: whether a kept span intersects one.
unfoldable pub overlaps : List (ℕ × ℕ) → ℕ → ℕ → Bool
overlaps [] start end = false
overlaps ((a, b) ∷ kept) start end = (ltb start b && ltb a end) || overlaps kept start end

unfoldable pub is_rejected : Unicode → List (ℕ × ℕ) → Match → Bool
is_rejected u kept m =
    not (word_boundary u m.before) || not (word_boundary u m.after) || overlaps kept m.start m.end

unfoldable pub deny_detection : Str → Match → Detection
deny_detection entity m = record {
  entity_type = entity;
  start = m.start;
  end = m.end;
  score = deny_match;
  text = m.text;
}

-- The loop over the matches of one term: the spans that are kept then, and the detections.
unfoldable pub keep_matches :
    Unicode → Str → List Match → List (ℕ × ℕ) → List (ℕ × ℕ) × List Detection
unfolding deny_detection
keep_matches u entity [] kept = (kept, [])
keep_matches u entity (m ∷ ms) kept = elim (is_rejected u kept m) [
  | true ↦ keep_matches u entity ms kept
  | false ↦
      let later = keep_matches u entity ms (kept ++ (m.start, m.end) ∷ []) in
      (later.0, deny_detection entity m ∷ later.1)
]

-- The loop over the terms of one entity type.
unfoldable pub find_terms : Unicode → Str → Str → List Str → List (ℕ × ℕ) → List Detection
find_terms u entity s [] kept = []
find_terms u entity s (t ∷ ts) kept =
    let here = keep_matches u entity (matches_of u s t) kept in
    here.1 ++ find_terms u entity s ts here.0

unfoldable pub find_entities : Unicode → Str → List (Str × List Str) → List Detection
find_entities u s [] = []
find_entities u s ((entity, ts) ∷ m) = find_terms u entity s ts [] ++ find_entities u s m

-- DenyMatcher.Find, also on nil.
unfoldable pub find : Unicode → Option DenyMatcher → Str → List Detection
find u none s = []
find u (some m) s = find_entities u s m.by_entity
