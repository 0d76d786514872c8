-- ===== src/Config.antt =====
-- internal/config/config.go: the configuration, its tables and Validate. Parsing of URLs, numbers and
-- JSON, lingua's language codes and the built-in allow-list are parameters. Scores are float64, in millionths,
-- durations in nanoseconds.
pub mod Laws
use palena_litellm_pseudonym.Base.{
  ℕ, zero, suc, ◌+◌, ◌-◌, ◌*◌, ◌/◌, ◌%◌, ◌^◌, ◌≤◌, ◌<◌, ◌≡◌, ◌≢◌, ◌↔◌, ◌⊎◌, inl, inr, refl, sym, ap,
  subst, ◌∙◌, Bool, true, false, ◌&&◌, ◌||◌, not, List, [], ◌∷◌, ◌++◌, map, append_assoc,
  append-nil, Option, none, some, arith, ltb, leb, ◌==◌, if◌then◌else◌, Bool-cases, Option-cases,
  &&-eq-true, ||-eq-true, ||-eq-false, bool_ext, ==_iff, ==_refl, leb→le, ltb→lt, lt→ltb, length,
  take, drop, get_elem?, all, any, keep, length-append, take-append-drop, length-take, length-drop,
  take_all, take-append, drop-append, length-keep-le, length-map, In, Distinct, All, In-append_left,
  In-append_right, All-In, pigeonhole, In-map,
}
use palena_litellm_pseudonym.GoLib.Strings.{
  Str, codes, raw_byte, replacement_char, width, byte_len, is_empty, text_eq, text_eq_iff,
  text_eq_refl, text_eq-false, starts_with, contains, elem, elem_iff, infixes, In-infixes,
  width_pos, byte_len-append,
}
use palena_litellm_pseudonym.GoLib.Dict.{
  get, put, has, keys, get-put, get-put_self, get-put_ne, has-false, has_of_get, put_new,
  get-append, In-keys_of_get, get_of_In-keys,
}
use palena_litellm_pseudonym.GoLib.Unicode.{
  Unicode, lower, upper, equal_fold, lower-lower, trim_left, trim_right, trim, trim_space, fields,
}
use palena_litellm_pseudonym.GoLib.Cuts.{cut, split_on}
use palena_litellm_pseudonym.GoLib.Float.{Float, fixed, lt_float, min_float}
use palena_litellm_pseudonym.GoLib.Int.{ℤ, pos, negsuc, ltbℤ, is_positive}
use palena_litellm_pseudonym.Language.{parse}
use palena_litellm_pseudonym.Text.Denylist.{DenyList}

pub record Config : Type 0 where
  pub http_addr : Str
  pub http_read_timeout : ℤ
  pub http_write_timeout : ℤ
  pub http_idle_timeout : ℤ
  pub http_max_header_bytes : ℤ
  pub detection_engine : Str
  pub ner_url : Str
  pub ner_timeout : ℤ
  pub ner_threshold : Float
  pub ner_entity_labels : List Str
  pub ner_chunk_chars : ℤ
  pub ner_chunk_overlap : ℤ
  pub ner_batch_size : ℤ
  pub ner_cache_entries : ℤ
  pub ner_cache_ttl : ℤ
  pub analyzer_url : Str
  pub image_redactor_url : Str
  pub presidio_timeout : ℤ
  pub presidio_readiness : ℤ
  pub score_threshold : Float
  pub entity_score_threshold : List Str
  pub entities : List Str
  pub language : Str
  pub languages : List Str
  pub entity_strategy : List Str
  pub entity_strategy_default : Str
  pub allow_list : List Str
  pub allow_list_builtin : Bool
  pub deny_lists : Str
  pub deterministic_secret : Str
  pub redis_url : Str
  pub session_ttl : ℤ
  pub redis_key_prefix : Str
  pub redis_timeout : ℤ
  pub redis_pool_size : ℤ
  pub redis_cluster : Bool
  pub pool_person : List Str
  pub pool_organization : List Str
  pub pool_location : List Str
  pub session_metadata_key : Str
  pub decompose_person_names : Bool
  pub pii_action : Str
  pub block_message : Str
  pub max_image_bytes : ℤ
  pub max_images_per_request : ℤ
  pub api_key : Str
  pub log_level : Str
  pub log_format : Str
  pub shutdown_timeout : ℤ
  pub max_request_bytes : ℤ

pub data ConfigError : Type 0 where
  invalid_analyzer_url invalid_deny_lists deny_list_without_entity invalid_ner_url : ConfigError
  ner_threshold_range ner_chunk_chars_range ner_chunk_overlap_range ner_batch_size_range :
      ConfigError
  ner_cache_range ner_labels_entry unknown_engine invalid_image_redactor_url : ConfigError
  invalid_redis_url score_threshold_range no_entities score_threshold_entry : ConfigError
  unknown_language strategy_default strategy_entry unknown_pii_action unknown_log_level :
      ConfigError
  unknown_log_format session_ttl_range redis_pool_size_range max_header_bytes_range : ConfigError
  max_request_bytes_range max_image_bytes_range max_images_range block_message_placeholder :
      ConfigError

pub record UrlParts : Type 0 where
  pub scheme : Str
  pub host : Str

-- url.Parse, strconv.ParseFloat in millionths, json.Unmarshal, lingua, and text.BuiltinAllowList.
pub record Libraries : Type 0 where
  pub parse_url : Str → Option UrlParts
  pub parse_float : Str → Option Float
  pub decode_lists : Str → Option (List DenyList)
  pub known_language : Str → Bool
  pub builtin_allow_list : List Str

unfoldable pub pools_map : Config → List (Str × List Str)
pools_map c =
    (codes "PERSON", c.pool_person)
    ∷ (codes "ORGANIZATION", c.pool_organization)
    ∷ (codes "LOCATION", c.pool_location)
    ∷ []

-- One entry of ENTITY_STRATEGY.
unfoldable pub add_strategy : Unicode → Str → List (Str × Str) → List (Str × Str)
add_strategy u pair out =
    let p = trim_space u pair in
    if is_empty p then out else elim (cut b':' p) [
      | none ↦ out
      | some (k, v) ↦ put (trim_space u k) (lower u (trim_space u v)) out
    ]

unfoldable pub strategies_from : Unicode → List Str → List (Str × Str) → List (Str × Str)
unfolding add_strategy
strategies_from u [] out = out
strategies_from u (pair ∷ pairs) out = strategies_from u pairs (add_strategy u pair out)

unfoldable pub strategy_overrides : Unicode → Config → List (Str × Str)
unfolding strategies_from
strategy_overrides u c = strategies_from u c.entity_strategy []

unfoldable pub analyze_languages : Unicode → Libraries → Config → List Str
analyze_languages u lib c =
    let listed = if length c.languages == 0 then c.language ∷ [] else c.languages in
    elim (parse u lib.known_language listed) [ none ↦ [] | some out ↦ out ]

unfoldable pub thresholds_from :
    Unicode → Libraries → List Str → List (Str × Float) → List (Str × Float)
thresholds_from u lib [] out = out
thresholds_from u lib (pair ∷ pairs) out = elim (cut b':' (trim_space u pair)) [
  | none ↦ thresholds_from u lib pairs out
  | some (k, v) ↦ elim (lib.parse_float (trim_space u v)) [
    | none ↦ thresholds_from u lib pairs out
    | some f ↦ thresholds_from u lib pairs (put (trim_space u k) f out)
  ]
]

unfoldable pub entity_thresholds : Unicode → Libraries → Config → List (Str × Float)
entity_thresholds u lib c = thresholds_from u lib c.entity_score_threshold []

unfoldable pub least : Float → List (Str × Float) → Float
least m [] = m
least m ((k, f) ∷ rest) = least (min_float m f) rest

unfoldable pub min_score_threshold : Unicode → Libraries → Config → Float
unfolding least
min_score_threshold u lib c = least c.score_threshold (entity_thresholds u lib c)

unfoldable pub allow_terms : Unicode → List Str → List Str → List Str
allow_terms u [] out = out
allow_terms u (term ∷ terms) out =
    let t = lower u (trim_space u term) in
    allow_terms u terms (if is_empty t then out else if elem t out then out else out ++ t ∷ [])

unfoldable pub allow_list_set : Unicode → Libraries → Config → List Str
unfolding allow_terms
allow_list_set u lib c =
    allow_terms u
      (if c.allow_list_builtin then c.allow_list ++ lib.builtin_allow_list else c.allow_list) []

unfoldable pub deny_list_entries : Unicode → Libraries → Config → List DenyList
deny_list_entries u lib c =
    if is_empty (trim_space u c.deny_lists)
    then []
    else elim (lib.decode_lists c.deny_lists) [ none ↦ [] | some out ↦ out ]

unfoldable pub add_labels : Unicode → Str → List Str → List (Str × Str) → List (Str × Str)
add_labels u entity_type [] out = out
add_labels u entity_type (l ∷ ls) out =
    let label = trim_space u l in
    add_labels u entity_type ls
      (if is_empty label then out else put label (trim_space u entity_type) out)

unfoldable pub labels_from : Unicode → List Str → List (Str × Str) → List (Str × Str)
unfolding add_labels
labels_from u [] out = out
labels_from u (pair ∷ pairs) out = elim (cut b':' (trim_space u pair)) [
  | none ↦ labels_from u pairs out
  | some (entity_type, labels) ↦
      labels_from u pairs (add_labels u entity_type (split_on b'|' labels) out)
]

unfoldable pub ner_labels : Unicode → Config → List (Str × Str)
unfolding labels_from
ner_labels u c = labels_from u c.ner_entity_labels []

unfoldable pub valid_strategy : Str → Bool
valid_strategy s = text_eq s (codes "pool") || text_eq s (codes "token")

-- An entry of NER_ENTITY_LABELS is blank or TYPE:label|label.
unfoldable pub is_label_entry : Unicode → Str → Bool
is_label_entry u pair =
    let p = trim_space u pair in
    is_empty p || elim (cut b':' p) [
      | none ↦ false
      | some (entity_type, labels) ↦
          not (is_empty (trim_space u entity_type))
          && not (is_empty (trim (λ c. c == b'|' || c == b' ') labels))
    ]

-- An entry of ENTITY_SCORE_THRESHOLD is blank or TYPE:score.
unfoldable pub is_threshold_entry : Unicode → Libraries → Str → Bool
is_threshold_entry u lib pair =
    let p = trim_space u pair in
    is_empty p || elim (cut b':' p) [
      | none ↦ false
      | some (k, v) ↦ elim (lib.parse_float (trim_space u v)) [
        | none ↦ false
        | some f ↦
            not (is_empty (trim_space u k))
            && not (lt_float f (fixed (pos 0)) || lt_float (fixed (pos 1_000_000)) f)
      ]
    ]

-- strings.Count of a text that is not empty; `skip` counts the rest of the last match.
unfoldable pub count_of : Str → ℕ → Str → ℕ
count_of old skip [] = 0
count_of old (suc skip) (c ∷ s) = count_of old skip s
count_of old zero (c ∷ s) =
    let behind = count_of old (length old - 1) s in
    let next = count_of old 0 s in if starts_with old (c ∷ s) then suc behind else next

unfoldable pub out_of_unit : Float → Bool
out_of_unit f = lt_float f (fixed (pos 0)) || lt_float (fixed (pos 1_000_000)) f

-- int division by 2 of a number that is at least 100.
unfoldable pub half : ℤ → ℤ
half (pos n) = pos (n / 2)
half (negsuc n) = pos 0

no_host : Libraries → Str → Bool
no_host lib url = elim (lib.parse_url url) [
  | none ↦ true
  | some parts ↦ is_empty parts.scheme || is_empty parts.host
]

unfoldable pub no_url : Libraries → Str → Bool
no_url lib url = elim (lib.parse_url url) [ none ↦ true | some parts ↦ false ]

deny_entities_missing : Unicode → List DenyList → Bool
deny_entities_missing u [] = false
deny_entities_missing u (l ∷ lists) =
    is_empty (trim_space u l.entity) || deny_entities_missing u lists

-- The checks of Validate in order, each with whether it fails.
unfoldable pub deny_checks : Unicode → Libraries → Config → List (Bool × ConfigError)
unfolding deny_entities_missing
deny_checks u lib c =
    if is_empty (trim_space u c.deny_lists) then [] else elim (lib.decode_lists c.deny_lists) [
      | none ↦ (true, invalid_deny_lists) ∷ []
      | some lists ↦ (deny_entities_missing u lists, deny_list_without_entity) ∷ []
    ]

unfoldable pub engine_checks : Unicode → Libraries → Config → List (Bool × ConfigError)
unfolding out_of_unit half no_host
engine_checks u lib c =
    if text_eq c.detection_engine (codes "presidio")
    then []
    else if text_eq c.detection_engine (codes "ner")
    then (no_host lib c.ner_url, invalid_ner_url)
      ∷ (out_of_unit c.ner_threshold, ner_threshold_range)
      ∷ (ltbℤ c.ner_chunk_chars (pos 100), ner_chunk_chars_range)
      ∷ (
        ltbℤ c.ner_chunk_overlap (pos 0) || not (ltbℤ c.ner_chunk_overlap (half c.ner_chunk_chars)),
        ner_chunk_overlap_range,
      )
      ∷ (ltbℤ c.ner_batch_size (pos 1), ner_batch_size_range)
      ∷ (ltbℤ c.ner_cache_entries (pos 0) || ltbℤ c.ner_cache_ttl (pos 0), ner_cache_range)
      ∷ (not (all (is_label_entry u) c.ner_entity_labels), ner_labels_entry)
      ∷ []
    else (true, unknown_engine) ∷ []

unfoldable pub strategies_valid : List (Str × Str) → Bool
strategies_valid [] = true
strategies_valid ((k, s) ∷ rest) = valid_strategy s && strategies_valid rest

unfoldable pub other_checks : Unicode → Libraries → Config → List (Bool × ConfigError)
unfolding out_of_unit no_url strategies_valid strategy_overrides
other_checks u lib c =
    (no_url lib c.image_redactor_url, invalid_image_redactor_url)
    ∷ (no_url lib c.redis_url, invalid_redis_url)
    ∷ (out_of_unit c.score_threshold, score_threshold_range)
    ∷ (length c.entities == 0, no_entities)
    ∷ (not (all (is_threshold_entry u lib) c.entity_score_threshold), score_threshold_entry)
    ∷ (
      elim (parse u lib.known_language (c.language ∷ c.languages)) [
        | none ↦ true
        | some out ↦ false
      ],
      unknown_language,
    )
    ∷ (not (valid_strategy c.entity_strategy_default), strategy_default)
    ∷ (not (strategies_valid (strategy_overrides u c)), strategy_entry)
    ∷ (
      not (elem c.pii_action (codes "redact" ∷ codes "block" ∷ codes "passthrough" ∷ [])),
      unknown_pii_action,
    )
    ∷ (
      not (elem c.log_level (codes "debug" ∷ codes "info" ∷ codes "warn" ∷ codes "error" ∷ [])),
      unknown_log_level,
    )
    ∷ (not (elem c.log_format (codes "json" ∷ codes "text" ∷ [])), unknown_log_format)
    ∷ (not (is_positive c.session_ttl), session_ttl_range)
    ∷ (ltbℤ c.redis_pool_size (pos 1), redis_pool_size_range)
    ∷ (not (is_positive c.http_max_header_bytes), max_header_bytes_range)
    ∷ (not (is_positive c.max_request_bytes), max_request_bytes_range)
    ∷ (not (is_positive c.max_image_bytes), max_image_bytes_range)
    ∷ (not (is_positive c.max_images_per_request), max_images_range)
    ∷ (not (count_of (codes "{entity_types}") 0 c.block_message == 1), block_message_placeholder)
    ∷ []

unfoldable pub first_failure : List (Bool × ConfigError) → Option ConfigError
first_failure [] = none
first_failure ((failed, e) ∷ checks) = if failed then some e else first_failure checks

unfoldable pub all_checks : Unicode → Libraries → Config → List (Bool × ConfigError)
unfolding deny_checks engine_checks other_checks no_url
all_checks u lib c =
    ((no_url lib c.analyzer_url, invalid_analyzer_url) ∷ [])
    ++ (deny_checks u lib c ++ (engine_checks u lib c ++ other_checks u lib c))

-- Validate: none if the configuration is valid.
unfoldable pub validate : Unicode → Libraries → Config → Option ConfigError
unfolding first_failure all_checks
validate u lib c = first_failure (all_checks u lib c)
