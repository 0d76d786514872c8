-- ===== src/Tests/Calls.antt =====
-- Whole calls of the handlers and of the orchestrator over the concrete server.
use palena_litellm_pseudonym.Base.{
  ◌≡◌, ◌≢◌, ◌⊎◌, refl, true, false, List, [], ◌∷◌, none, arith, if◌then◌else◌, length, In,
}
use palena_litellm_pseudonym.GoLib.Strings.{
  Str, codes, byte_len, is_empty, text_eq, starts_with, contains, elem,
}
use palena_litellm_pseudonym.GoLib.Dict.{get, put, has}
use palena_litellm_pseudonym.GoLib.Unicode.{trim_left, trim_right, trim, trim_space, fields}
use palena_litellm_pseudonym.Tests.Samples.{
  ascii, plain_mac, plain_json, memory_redis, Memory, empty_memory, apart_of_test,
}
use palena_litellm_pseudonym.Presidio.{Detection}
use palena_litellm_pseudonym.Errs.{
  ok, err, Result, Task, presidio_unavailable, mapping_store_unavailable,
}
use palena_litellm_pseudonym.Audit.{new_counters, normalize_entity_type, add_count}
use palena_litellm_pseudonym.GoLib.Order.{text_lt, insert_by, sort_by}
use palena_litellm_pseudonym.Mapping.{
  RedisStore, merge_table, session_key, mapping_field, payload, get_mapping, decode_existing,
  write_back, add_script, add_mappings, get_reverse_mapping,
}
use palena_litellm_pseudonym.Mapping.Laws.{mapping_of, IsSound}
use palena_litellm_pseudonym.Mapping.Merge.{Mapping, reverse_into, reverse_of}
use palena_litellm_pseudonym.Text.Assign.{
  has_case_insensitive_key, is_known, register, assign_one, assign_all, sorted_detections, dedup,
  dedup_step, precedes, assign_new,
}
use palena_litellm_pseudonym.Text.Filters.{
  plausible_person, filter_by_entity_type, threshold_for, filter_score, filter_allow_list,
  filter_implausible,
}
use palena_litellm_pseudonym.Text.Pools.{pool_of, first_free, is_taken, reserved_contains, assign}
use palena_litellm_pseudonym.Text.Strategy.{strategy_token, strategy_for, assign_name}
use palena_litellm_pseudonym.Text.Token.{is_token_char, unclose, split_last, parse_token, is_token}
use palena_litellm_pseudonym.Text.Holdback.{
  can_start, begins, held, holdback_from, compute_holdback,
}
use palena_litellm_pseudonym.Text.Replacer.{
  is_word_context, left_boundary_clear, right_boundary_clear, match_key, match_first, endings,
  possessive, pieces, match_case, rewrite_piece, rewrite_pieces, lowered_into, lowered_table,
  key_precedes, sorted_keys, replace,
}
use palena_litellm_pseudonym.Text.Races.{Shared, IsNewName, concurrent_requests_share}
use palena_litellm_pseudonym.Text.Handler.{
  Store, Handler, PseudonymizeResult, count_types, filter_all, pseudonymize, reverse_stream,
  stream_texts,
}
use palena_litellm_pseudonym.Text.Handler.Laws.{pseudonymize-covers}
use palena_litellm_pseudonym.Text.Handler.Redis.{redis_store, redis_store-IsStore}
use palena_litellm_pseudonym.Pseudonymizer.{
  action_none, action_intervene, Request, Response, count_text, respond, conclude, pass_text,
  text_pass, handle_request, best_effort, stream_response, handle_response,
}
use palena_litellm_pseudonym.Pseudonymizer.Requests.{
  Calls, texts_of, handle_request_lem, handle_request-fail_closed,
}
use palena_litellm_pseudonym.Pseudonymizer.Responses.{handle_response-available}

abbrev person : Str → Detection
person text = record {
  entity_type = codes "PERSON";
  start = 0;
  end = length text;
  score = 80;
  text = text;
}

abbrev handler : Handler
handler = record {
  settings = record {
    strat = record {
      pools = record { by_type = (codes "PERSON", codes "Ann" ∷ codes "Bo" ∷ []) ∷ [] };
      by_entity = [];
      default_strategy = strategy_token;
      det_secret = none;
    };
    decompose = false;
    allow_list = [];
  };
  entities = [];
  threshold = 50;
  thresholds = [];
}

abbrev store : Store
store = redis_store memory_redis plain_json (record { key_prefix = codes "p"; ttl = 3600000 })

-- The detector finds Max in every text but one, on which it fails.
abbrev detect : Str → Task Memory (List Detection)
detect text s =
    if text_eq text (codes "bad")
    then (s, err presidio_unavailable)
    else (s, ok (person (codes "Max") ∷ []))

abbrev hi_max : Memory × Result PseudonymizeResult
hi_max = pseudonymize ascii plain_mac handler store detect (codes "hi Max") (codes "s") empty_memory

abbrev hi_ann : PseudonymizeResult
hi_ann = record {
  text = codes "hi Ann";
  entities_detected = 1;
  new_mappings_created = 1;
  entity_type_counts = (codes "PERSON", 1) ∷ [];
  session_mapping_size = 1;
}

hi_max-run : hi_max ≡ (hi_max.0, ok hi_ann)
unfolding pseudonymize filter_all filter_implausible plausible_person filter_allow_list filter_score
    threshold_for filter_by_entity_type fields trim trim_left trim_right elem text_eq get put has
    sorted_detections dedup dedup_step sort_by insert_by precedes byte_len text_lt assign_new
    assign_all assign_one is_known register has_case_insensitive_key assign_name strategy_for assign
    pool_of first_free is_taken reserved_contains contains starts_with get_mapping add_mappings
    add_script decode_existing write_back payload session_key mapping_field merge_table count_types
    normalize_entity_type add_count replace sorted_keys key_precedes lowered_table lowered_into
    rewrite_pieces rewrite_piece pieces match_first match_key possessive endings left_boundary_clear
    right_boundary_clear is_word_context match_case is_token parse_token unclose split_last
    is_token_char handle_response reverse_stream stream_texts get_reverse_mapping reverse_of
    reverse_into stream_response respond best_effort compute_holdback holdback_from held begins
    can_start new_counters
hi_max-run = refl

pseudonymize-covers_example :
    (t : Memory) × (detections : List Detection) × (merged : Mapping) × (detect
        (codes "hi Max")
        empty_memory
      ≡ (t, ok detections))
    × (hi_ann.text ≡ replace ascii (codes "hi Max") merged)
    × ((d : Detection)
        → In d (filter_all ascii handler detections)
        → is_empty (trim_space ascii d.text) ≡ false
        → has_case_insensitive_key ascii merged (trim_space ascii d.text) ≡ true)
unfolding trim trim_left trim_right
pseudonymize-covers_example =
    pseudonymize-covers ascii plain_mac handler store detect (codes "hi Max") (codes "s")
      empty_memory hi_max.0 hi_ann
      (redis_store-IsStore memory_redis plain_json
        (record { key_prefix = codes "p"; ttl = 3600000 }) (omega arith)
        (λ key raw t s held e. (t, e)))
      refl hi_max-run

abbrev request : List Str → Request
request texts = record {
  input_type = codes "request";
  session_id = codes "s";
  texts = texts;
  images = [];
  document_count = 0;
  stream_transform = false;
}

hi_max-Calls :
    Calls ascii plain_mac handler store detect
      (codes "s")
      (codes "hi Max" ∷ [])
      empty_memory
      (hi_ann ∷ [])
      hi_max.0
unfolding Calls
hi_max-Calls = (hi_max.0, hi_max-run, refl)

handle_request-fail_closed_example :
    handle_request ascii plain_mac handler store detect none
      (request (codes "hi Max" ∷ codes "bad" ∷ codes "c" ∷ []))
      empty_memory
    ≡ (hi_max.0, err presidio_unavailable)
unfolding pseudonymize trim trim_left trim_right text_eq
handle_request-fail_closed_example =
    handle_request-fail_closed ascii plain_mac handler store detect none
      (request (codes "hi Max" ∷ codes "bad" ∷ codes "c" ∷ [])) (codes "hi Max" ∷ [])
      (codes "c" ∷ []) (codes "bad") (hi_ann ∷ []) empty_memory hi_max.0 hi_max.0
      presidio_unavailable refl hi_max-Calls refl

abbrev hi_response : Response
hi_response =
    respond action_intervene [] (codes "hi Ann" ∷ []) [] [] (count_text new_counters hi_ann)

request_run :
    handle_request ascii plain_mac handler store detect none
      (request (codes "hi Max" ∷ []))
      empty_memory
    ≡ (hi_max.0, ok hi_response)
unfolding handle_request text_pass pass_text conclude text_eq
request_run = rw (hi_max-run, text_pass) refl

handle_request_lem_example :
    (rs : List PseudonymizeResult) × Calls ascii plain_mac handler store detect
      (codes "s")
      (codes "hi Max" ∷ [])
      empty_memory
      rs
      hi_max.0
    × (((hi_response.action ≡ action_none)
          × (texts_of ascii plain_mac handler store detect rs ≡ codes "hi Max" ∷ []))
        ⊎ ((hi_response.action ≡ action_intervene)
            × (hi_response.texts ≡ texts_of ascii plain_mac handler store detect rs)
            × (texts_of ascii plain_mac handler store detect rs ≢ codes "hi Max" ∷ [])))
handle_request_lem_example =
    handle_request_lem ascii plain_mac handler store detect none (request (codes "hi Max" ∷ []))
      empty_memory hi_max.0 hi_response refl request_run

-- A store that is lost.
abbrev lost_store : Store
lost_store = record {
  World = Memory;
  get_mapping = λ session_id s. (s, err mapping_store_unavailable);
  add_mappings = λ session_id m s. (s, err mapping_store_unavailable);
  get_reverse_mapping = λ session_id s. (s, err mapping_store_unavailable);
}

handle_response-available_example :
    (handle_response ascii lost_store (request (codes "hi Ann" ∷ [])) empty_memory).1
    ≢ err mapping_store_unavailable
handle_response-available_example =
    handle_response-available ascii lost_store (request (codes "hi Ann" ∷ [])) empty_memory

abbrev streaming : Request
streaming = record (request (codes "hi Ann, An" ∷ [])) { stream_transform = true }

abbrev hi_back : Response
hi_back = respond action_intervene [] (codes "hi Max, An" ∷ []) [] (2 ∷ []) new_counters

streaming_run :
    handle_response ascii store streaming hi_max.0
    ≡ ((handle_response ascii store streaming hi_max.0).0, ok hi_back)
unfolding pseudonymize filter_all filter_implausible plausible_person filter_allow_list filter_score
    threshold_for filter_by_entity_type fields trim trim_left trim_right elem text_eq get put has
    sorted_detections dedup dedup_step sort_by insert_by precedes byte_len text_lt assign_new
    assign_all assign_one is_known register has_case_insensitive_key assign_name strategy_for assign
    pool_of first_free is_taken reserved_contains contains starts_with get_mapping add_mappings
    add_script decode_existing write_back payload session_key mapping_field merge_table count_types
    normalize_entity_type add_count replace sorted_keys key_precedes lowered_table lowered_into
    rewrite_pieces rewrite_piece pieces match_first match_key possessive endings left_boundary_clear
    right_boundary_clear is_word_context match_case is_token parse_token unclose split_last
    is_token_char handle_response reverse_stream stream_texts get_reverse_mapping reverse_of
    reverse_into stream_response respond best_effort compute_holdback holdback_from held begins
    can_start new_counters
streaming_run = refl

abbrev AnnFree : Str → Type 0
AnnFree name = IsNewName ascii plain_mac handler.settings [] (person name) [] (codes "Ann")

max_free : AnnFree (codes "Max")
unfolding pseudonymize filter_all filter_implausible plausible_person filter_allow_list filter_score
    threshold_for filter_by_entity_type fields trim trim_left trim_right elem text_eq get put has
    sorted_detections dedup dedup_step sort_by insert_by precedes byte_len text_lt assign_new
    assign_all assign_one is_known register has_case_insensitive_key assign_name strategy_for assign
    pool_of first_free is_taken reserved_contains contains starts_with get_mapping add_mappings
    add_script decode_existing write_back payload session_key mapping_field merge_table count_types
    normalize_entity_type add_count replace sorted_keys key_precedes lowered_table lowered_into
    rewrite_pieces rewrite_piece pieces match_first match_key possessive endings left_boundary_clear
    right_boundary_clear is_word_context match_case is_token parse_token unclose split_last
    is_token_char handle_response reverse_stream stream_texts get_reverse_mapping reverse_of
    reverse_into stream_response respond best_effort compute_holdback holdback_from held begins
    can_start new_counters
max_free = record {
  full = refl;
  absent = refl;
  unknown = refl;
  pooled = refl;
  others = codes "Bo" ∷ [];
  pool = refl;
  free = refl;
}

eva_free : AnnFree (codes "Eva")
unfolding pseudonymize filter_all filter_implausible plausible_person filter_allow_list filter_score
    threshold_for filter_by_entity_type fields trim trim_left trim_right elem text_eq get put has
    sorted_detections dedup dedup_step sort_by insert_by precedes byte_len text_lt assign_new
    assign_all assign_one is_known register has_case_insensitive_key assign_name strategy_for assign
    pool_of first_free is_taken reserved_contains contains starts_with get_mapping add_mappings
    add_script decode_existing write_back payload session_key mapping_field merge_table count_types
    normalize_entity_type add_count replace sorted_keys key_precedes lowered_table lowered_into
    rewrite_pieces rewrite_piece pieces match_first match_key possessive endings left_boundary_clear
    right_boundary_clear is_word_context match_case is_token parse_token unclose split_last
    is_token_char handle_response reverse_stream stream_texts get_reverse_mapping reverse_of
    reverse_into stream_response respond best_effort compute_holdback holdback_from held begins
    can_start new_counters
eva_free = record {
  full = refl;
  absent = refl;
  unknown = refl;
  pooled = refl;
  others = codes "Bo" ∷ [];
  pool = refl;
  free = refl;
}

abbrev race_store : RedisStore
race_store = record { key_prefix = codes "p"; ttl = 3600000 }

start-IsSound : IsSound memory_redis plain_json race_store (codes "s") empty_memory
unfolding mapping_of payload decode_existing get
start-IsSound = ([], refl, ([], refl, λ k. refl))

concurrent_requests_share_example :
    Shared memory_redis plain_json race_store
      (codes "s")
      empty_memory
      (assign_new ascii plain_mac handler.settings
        (person (codes "Max") ∷ [])
        (mapping_of memory_redis plain_json race_store (codes "s") empty_memory)
        [])
      (assign_new ascii plain_mac handler.settings
        (person (codes "Eva") ∷ [])
        (mapping_of memory_redis plain_json race_store (codes "s") empty_memory)
        [])
      (trim_space ascii (codes "Max"))
      (trim_space ascii (codes "Eva"))
      (codes "Ann")
unfolding text_eq trim trim_left trim_right mapping_of payload get
concurrent_requests_share_example =
    concurrent_requests_share ascii plain_mac handler.settings memory_redis plain_json race_store
      (codes "s") empty_memory (person (codes "Max")) (person (codes "Eva")) [] [] (codes "Ann")
      refl (omega arith) start-IsSound refl refl max_free eva_free
      (apart_of_test (codes "Max") (codes "Eva") refl) refl
