-- ===== src/Text/Detector.antt =====
-- internal/text/detector.go: the two detection engines. The NER service, the Analyzer, SHA-256, the
-- text of the threshold and the clock are parameters.
pub mod Names
pub mod Asking
use palena_litellm_pseudonym.Base.{
  ℕ, zero, suc, ◌+◌, ◌-◌, ◌*◌, ◌/◌, ◌%◌, ◌^◌, ◌≤◌, ◌<◌, ◌≡◌, ◌≢◌, ◌↔◌, ◌⊎◌, inl, inr, refl, sym, ap,
  subst, ◌∙◌, Bool, true, false, ◌&&◌, ◌||◌, not, List, [], ◌∷◌, ◌++◌, map, append_assoc,
  append-nil, Option, none, some, arith, ltb, leb, ◌==◌, if◌then◌else◌, Bool-cases, Option-cases,
  &&-eq-true, ||-eq-true, ||-eq-false, bool_ext, ==_iff, ==_refl, leb→le, ltb→lt, lt→ltb, length,
  take, drop, get_elem?, all, any, keep, length-append, take-append-drop, length-take, length-drop,
  take_all, take-append, drop-append, length-keep-le, length-map, In, Distinct, All, In-append_left,
  In-append_right, All-In, pigeonhole, In-map,
}
use palena_litellm_pseudonym.GoLib.Strings.{
  Str, codes, raw_byte, replacement_char, width, byte_len, is_empty, text_eq, text_eq_iff,
  text_eq_refl, text_eq-false, starts_with, contains, elem, elem_iff, infixes, In-infixes,
  width_pos, byte_len-append,
}
use palena_litellm_pseudonym.GoLib.Dict.{
  get, put, has, keys, get-put, get-put_self, get-put_ne, has-false, has_of_get, put_new,
  get-append, In-keys_of_get, get_of_In-keys,
}
use palena_litellm_pseudonym.GoLib.Unicode.{
  Unicode, lower, upper, equal_fold, lower-lower, trim_left, trim_right, trim, trim_space, fields,
}
use palena_litellm_pseudonym.Errs.{Result, ok, err, Task, ◌>>=◌, return, ner_malformed}
use palena_litellm_pseudonym.GoLib.Int.{ltbℤ, int32}
use palena_litellm_pseudonym.GoLib.Order.{sort_by, text_lt}
use palena_litellm_pseudonym.GoLib.Slices.{byte_slice}
use palena_litellm_pseudonym.GoLib.Cuts.{join}
use palena_litellm_pseudonym.Ner.{Span}
use palena_litellm_pseudonym.Presidio.{Detection}
use palena_litellm_pseudonym.Presidio.Analyzer.{rune_byte_offsets, byte_at}
use palena_litellm_pseudonym.Text.Denylist.{DenyMatcher, find}
use palena_litellm_pseudonym.Text.NerCache.{
  CachedSpan, NerCache, ner_cache_key, get_spans, put_spans,
}
use palena_litellm_pseudonym.Text.Units.{TextUnit, split_units}
use mathlib.Core.Option

-- text.Analyzer
abbrev pub Analyzer : Type 0 → Type 0
Analyzer W = Str → List Str → Str → Task W (List Detection)

-- text.NERClient
abbrev pub NerClient : Type 0 → Type 0
NerClient W = List Str → List Str → ℕ → Task W (List (List Span))

-- PresidioDetector.Detect
unfoldable pub presidio_detect :
    {W : Type 0} → Analyzer W → List Str → (Str → Str) → Str → Task W (List Detection)
presidio_detect analyze entities language text = analyze text entities (language text)

-- NERDetector, without its cache, which is part of the state. Labels maps a label to its type.
pub record NerDetector : Type 0 where
  pub labels : List (Str × Str)
  pub threshold : ℕ
  pub chunk_chars : ℕ
  pub chunk_overlap : ℕ
  pub deny : Option DenyMatcher
  pub pattern_entities : List Str
  pub pattern_language : Str

pub record State (W : Type 0) : Type 0 where
  pub cache : Option NerCache
  pub world : W

unfoldable pub from_cached : List CachedSpan → List Span
from_cached = map (λ s. record { label = s.label; start = s.start; end = s.end; score = s.score })

-- Only the spans of the labels that were asked for.
unfoldable pub to_cached : List Span → List Str → List CachedSpan
to_cached [] labels = []
to_cached (s ∷ spans) labels =
    let rest = to_cached spans labels in
    if elem s.label labels
    then record { start = int32 s.start; end = int32 s.end; score = s.score; label = s.label }
      ∷ rest
    else rest

-- What the first loop leaves to do for a text: nothing, or to take the answer to the question of
-- that index.
pub data Pending : Type 0 where
  answered : List Span → Pending
  asked : ℕ → Pending

-- The index of a text among the questions: askOf.
unfoldable pub ask_of : Str → List Str → Option ℕ
ask_of t [] = none
ask_of t (q ∷ ask) = if text_eq t q then some 0 else Option.map suc (ask_of t ask)

-- strings.Join(labels, "|") + "|" + the threshold.
unfoldable pub scope_of : (ℕ → Str) → List Str → ℕ → Str
scope_of format labels threshold = join (codes "|") labels ++ (codes "|" ++ format threshold)

-- The answer of the cache, if there is one.
unfoldable pub cached_answer : Str → ℕ → Option NerCache → Option NerCache × Option (List Span)
cached_answer key now none = (none, none)
cached_answer key now (some c) =
    let (c', found) = get_spans key now c in (some c', Option.map from_cached found)

unfoldable pub remember : Str → List CachedSpan → ℕ → Option NerCache → Option NerCache
remember key spans now none = none
remember key spans now (some c) = some (put_spans key spans now c)

-- A text that the cache does not answer: its question, a new one if the text was not asked yet.
unfoldable pub ask_for : Str → List Str → ℕ × List Str
unfolding ask_of
ask_for t ask = elim (ask_of t ask) [ none ↦ (length ask, ask ++ t ∷ []) | some j ↦ (j, ask) ]

-- The first loop of spansFor, at the time `now`.
unfoldable pub first_pass :
    (Str → Str)
    → ℕ
    → List Str
    → List Str
    → Option NerCache
    → List Pending × (List Str × Option NerCache)
unfolding ask_for
first_pass key now [] ask cache = ([], (ask, cache))
first_pass key now (t ∷ texts) ask cache =
    let (cache', found) = cached_answer (key t) now cache in
    elim found [
      | some spans ↦
          let (pending, rest) = first_pass key now texts ask cache' in
          (answered spans ∷ pending, rest)
      | none ↦
          let (j, ask') = ask_for t ask in
          let (pending, rest) = first_pass key now texts ask' cache' in (asked j ∷ pending, rest)
    ]

unfoldable pub result_at : List (List Span) → ℕ → List Span
result_at results j = elim (get_elem? results j) [ none ↦ [] | some spans ↦ spans ]

unfoldable pub second_pass :
    (Str → Str)
    → ℕ
    → List Str
    → List (List Span)
    → List Str
    → List Pending
    → Option NerCache
    → List (List Span) × Option NerCache
second_pass key now labels results [] pending cache = ([], cache)
second_pass key now labels results (t ∷ texts) [] cache = ([], cache)
second_pass key now labels results (t ∷ texts) (answered spans ∷ pending) cache =
    let (out, cache') = second_pass key now labels results texts pending cache in
    (spans ∷ out, cache')
second_pass key now labels results (t ∷ texts) (asked j ∷ pending) cache =
    let spans = result_at results j in
    let filled = remember (key t) (to_cached spans labels) now cache in
    let (out, cache') = second_pass key now labels results texts pending filled in
    (spans ∷ out, cache')

module _ {W : Type 0} (sha : Str → Str) (format : ℕ → Str) (clock : W → ℕ)
    (client : NerClient W) where
  unfoldable pub answered_step :
      (Str → Str)
      → List Str
      → List Str
      → List Str
      → List Pending
      → Option NerCache
      → W × Result (List (List Span))
      → State W × Result (List (List Span))
  answered_step key labels texts ask pending cache (w, err e) =
      (record { cache = cache; world = w }, err e)
  answered_step key labels texts ask pending cache (w, ok results) =
      let (out, cache') = second_pass key (clock w) labels results texts pending cache in
      if length results == length ask
      then (record { cache = cache'; world = w }, ok out)
      else (record { cache = cache; world = w }, err ner_malformed)

  -- spansFor.
  unfoldable pub spans_for : ℕ → List Str → List Str → Task (State W) (List (List Span))
  unfolding first_pass answered_step second_pass
  spans_for threshold texts labels st =
      let key = ner_cache_key sha (scope_of format labels threshold) in
      let first = first_pass key (clock st.world) texts [] st.cache in
      let ask = first.1.0 in
      let without_call = second_pass key (clock st.world) labels [] texts first.0 first.1.1 in
      let with_call = client ask labels threshold st.world in
      if length ask == 0
      then (record { cache = first.1.1; world = st.world }, ok without_call.0)
      else answered_step key labels texts ask first.0 first.1.1 with_call

-- best[k], where the key of a detection is its range and its type: the higher score stays.
unfoldable pub keep_best : Detection → List Detection → List Detection
keep_best d [] = d ∷ []
keep_best d (e ∷ best) =
    let rest = keep_best d best in
    if e.start == d.start && (e.end == d.end && text_eq e.entity_type d.entity_type)
    then (if leb d.score e.score then e ∷ best else d ∷ best)
    else e ∷ rest

-- charToByte on the ends of a span.
unfoldable pub span_bytes : Str → Span → Option (ℕ × ℕ)
unfolding rune_byte_offsets byte_at
span_bytes s span = elim (byte_at (rune_byte_offsets s) span.start) [
  | none ↦ none
  | some a ↦ Option.map (λ b. (a, b)) (byte_at (rune_byte_offsets s) span.end)
]

unfoldable pub name_detection : Str → Str → ℕ → Span → ℕ × ℕ → Detection
name_detection text entity_type offset span (a, b) = record {
  entity_type = entity_type;
  start = offset + a;
  end = offset + b;
  score = span.score;
  text = byte_slice text (offset + a) (offset + b);
}

-- The loop over the spans of one unit; none for a span outside the unit.
unfoldable pub best_of_unit :
    Str → List (Str × Str) → TextUnit → List Span → List Detection → Option (List Detection)
unfolding span_bytes name_detection
best_of_unit text labels unit [] best = some best
best_of_unit text labels unit (s ∷ spans) best = elim (get s.label labels) [
  | none ↦ best_of_unit text labels unit spans best
  | some entity_type ↦ elim (ltbℤ s.start s.end) [
    | false ↦ best_of_unit text labels unit spans best
    | true ↦ elim (span_bytes unit.text s) [
      | none ↦ none
      | some range ↦
          best_of_unit text labels unit spans
            (keep_best (name_detection text entity_type unit.offset s range) best)
    ]
  ]
]

unfoldable pub best_of_units :
    Str
    → List (Str × Str)
    → List TextUnit
    → List (List Span)
    → List Detection
    → Option (List Detection)
best_of_units text labels [] results best = some best
best_of_units text labels (unit ∷ units) [] best = some best
best_of_units text labels (unit ∷ units) (spans ∷ results) best =
    elim (best_of_unit text labels unit spans best) [
      | none ↦ none
      | some best' ↦ best_of_units text labels units results best'
    ]

unfoldable pub by_place : Detection → Detection → Bool
by_place a b = if a.start == b.start then ltb a.end b.end else ltb a.start b.start

unfoldable pub names_found :
    Str → List (Str × Str) → List TextUnit → List (List Span) → Result (List Detection)
unfolding by_place
names_found text labels units results = elim (best_of_units text labels units results []) [
  | none ↦ err ner_malformed
  | some best ↦ ok (sort_by by_place best)
]

-- The labels in order: sort.Strings.
unfoldable pub sorted_labels : List (Str × Str) → List Str
sorted_labels labels = sort_by (λ a b. not (text_lt b a)) (keys labels)

module _ {W : Type 0} (u : Unicode) (sha : Str → Str) (format : ℕ → Str) (clock : W → ℕ)
    (client : NerClient W) (analyze : Analyzer W) where
  unfoldable pub detect_names : NerDetector → Str → Task (State W) (List Detection)
  unfolding names_found sorted_labels
  detect_names d text =
      let units = split_units u text d.chunk_chars d.chunk_overlap in
      if length units == 0
      then return []
      else (spans_for sha format clock client d.threshold (map (λ x. x.text) units)
            (sorted_labels d.labels)
          >>= λ results. λ st. (st, names_found text d.labels units results))

  -- A call of the Analyzer, which leaves the cache as it is.
  unfoldable pub analyze_patterns : NerDetector → Str → Task (State W) (List Detection)
  analyze_patterns d text st =
      let (w, result) = analyze text d.pattern_entities d.pattern_language st.world in
      if length d.pattern_entities == 0
      then (st, ok [])
      else (record { cache = st.cache; world = w }, result)

  -- NERDetector.Detect.
  unfoldable pub ner_detect : NerDetector → Str → Task (State W) (List Detection)
  unfolding detect_names analyze_patterns
  ner_detect d text = (if length d.labels == 0 then return [] else detect_names d text) >>= λ names.
      analyze_patterns d text >>= λ patterns. return (names ++ (find u d.deny text ++ patterns))

-- NERLabelsFor: the labels of enabled types, and the entity types that are left for Presidio.
unfoldable pub labels_of_enabled : List (Str × Str) → List Str → List (Str × Str)
labels_of_enabled [] entities = []
labels_of_enabled ((label, entity_type) ∷ labels) entities =
    let rest = labels_of_enabled labels entities in
    if elem entity_type entities then (label, entity_type) ∷ rest else rest

unfoldable pub ner_labels_for : List (Str × Str) → List Str → List (Str × Str) × List Str
unfolding labels_of_enabled
ner_labels_for labels entities =
    let chosen = labels_of_enabled labels entities in
    (chosen, keep (λ e. not (elem e (map (λ x. x.1) chosen))) entities)
