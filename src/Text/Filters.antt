-- ===== src/Text/Filters.antt =====
-- internal/text/allowlist.go and the filters of internal/text/handler.go: which detections are left to
-- pseudonymize. A score is a number in fixed-point units; only the order of scores matters.
use palena_litellm_pseudonym.Base.{
  ℕ, Bool, true, false, ◌&&◌, ◌||◌, not, List, [], ◌∷◌, none, some, ltb, leb, ◌==◌, if◌then◌else◌,
  length, drop, all, any, keep,
}
use palena_litellm_pseudonym.GoLib.Strings.{Str, codes, is_empty, text_eq, starts_with, elem}
use palena_litellm_pseudonym.GoLib.Dict.{get}
use palena_litellm_pseudonym.GoLib.Unicode.{Unicode, lower, trim_left, trim_space, fields}
use palena_litellm_pseudonym.Presidio.{Detection}

abbrev pub max_inflection : ℕ
max_inflection = 5

abbrev is_mark : ℕ → Bool
is_mark c = c == b'-' || c == 0x27 || c == 0x2019

-- A short ending of letters, after hyphens and apostrophes.
unfoldable pub is_inflection : Unicode → Str → Bool
is_inflection u rest =
    let ending = trim_left is_mark rest in
    all u.is_letter ending && leb 1 (length ending) && leb (length ending) max_inflection

abbrev inflects : Unicode → Str → Str → Bool
inflects u s term =
    if ltb (length term) 3 || not (starts_with term s)
    then false
    else is_inflection u (drop (length term) s)

-- AllowListed: the set holds lower-cased terms.
unfoldable pub allow_listed : Unicode → List Str → Str → Bool
allow_listed u terms span =
    let s = lower u (trim_space u span) in
    if is_empty s then false else if elem s terms then true else any (inflects u s) terms

abbrev no_letter : Unicode → ℕ → Bool
no_letter u c = not (u.is_letter c)

abbrev upper_letter : Unicode → ℕ → Bool
upper_letter u c = u.is_letter c && not (u.is_lower c)

words_plausible : List Str → Bool
words_plausible [] = false
words_plausible (w ∷ ws) = ltb (length (w ∷ ws)) 4 && (ltb 1 (length (w ∷ ws)) || ltb 3 (length w))

-- plausiblePerson
unfoldable pub plausible_person : Unicode → Str → Bool
unfolding words_plausible
plausible_person u s =
    let words = fields u s in
    if length words == 0 || ltb 5 (length words)
    then false
    else if all (no_letter u) s
    then false
    else if any (upper_letter u) s
    then true
    else words_plausible words

unfoldable pub filter_by_entity_type : List Detection → List Str → List Detection
filter_by_entity_type detections allowed =
    if length allowed == 0 then detections else keep (λ d. elem d.entity_type allowed) detections

-- The threshold of an entity type: its own, or the global one.
unfoldable pub threshold_for : ℕ → List (Str × ℕ) → Str → ℕ
threshold_for threshold thresholds entity_type = elim (get entity_type thresholds) [
  | none ↦ threshold
  | some t ↦ t
]

unfoldable pub filter_score : ℕ → List (Str × ℕ) → List Detection → List Detection
filter_score threshold thresholds =
    keep (λ d. leb (threshold_for threshold thresholds d.entity_type) d.score)

unfoldable pub filter_allow_list : Unicode → List Str → List Detection → List Detection
filter_allow_list u allow_list detections =
    if length allow_list == 0
    then detections
    else keep (λ d. not (allow_listed u allow_list d.text)) detections

unfoldable pub filter_implausible : Unicode → List Detection → List Detection
filter_implausible u =
    keep (λ d. not (text_eq d.entity_type (codes "PERSON") && not (plausible_person u d.text)))
