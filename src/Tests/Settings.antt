-- ===== src/Tests/Settings.antt =====
-- The HTTP layer, the configuration and the store under several clients at concrete inputs.
use palena_litellm_pseudonym.Base.{
  ℕ, suc, In, ◌≤◌, ◌≡◌, ◌↔◌, ◌⊎◌, refl, true, false, [], ◌∷◌, none, some, arith, if◌then◌else◌,
}
use palena_litellm_pseudonym.GoLib.Strings.{Str, codes, text_eq, starts_with, elem}
use palena_litellm_pseudonym.GoLib.Dict.{get, put}
use palena_litellm_pseudonym.GoLib.Unicode.{trim_left, trim_right, trim}
use palena_litellm_pseudonym.Api.{GuardrailResponse, applied, answer, wire_response, action_text}
use palena_litellm_pseudonym.Api.Answers.{IsHandled, serve_http-applied, serve_http-documents}
use palena_litellm_pseudonym.Api.Guardrail.{
  GuardrailRequest, block, decoded_request, ApiHandler, serve_http, serve_body, serve_request,
  answering, internal_request, session_input, input_type_of, is_input_type, effective_metadata_key,
  param, count_document_blocks, count_items, is_document, stream_transform_mode,
}
use palena_litellm_pseudonym.Api.Keys.{check_api_key, difference, check_api_key_lem}
use palena_litellm_pseudonym.Api.Sessions.{
  delete_session, delete_answer, api_key_valid, delete_session-erases,
}
use palena_litellm_pseudonym.Audit.{new_counters}
use palena_litellm_pseudonym.Config.{
  Config, Libraries, pools_map, entity_thresholds, min_score_threshold, validate, all_checks,
  first_failure, deny_checks, engine_checks, other_checks, out_of_unit, half, no_url,
  strategies_valid, valid_strategy, strategy_overrides, strategies_from, add_strategy,
  is_threshold_entry, is_label_entry, count_of,
}
use palena_litellm_pseudonym.Config.Laws.{
  IsStrategy, validate-strategies, validate-windows, min_score_threshold-le,
}
use palena_litellm_pseudonym.Errs.{Task, ok}
use palena_litellm_pseudonym.GoLib.Cuts.{cut}
use palena_litellm_pseudonym.GoLib.Float.{fixed, nan, le_float}
use palena_litellm_pseudonym.GoLib.Int.{pos}
use palena_litellm_pseudonym.Language.{parse, parse_from}
use palena_litellm_pseudonym.Mapping.{delete, session_key}
use palena_litellm_pseudonym.Mapping.Laws.{mapping_of}
use palena_litellm_pseudonym.Ner.{new_batch_size}
use palena_litellm_pseudonym.Pseudonymizer.{Request, Response, action_none, respond, handle}
use palena_litellm_pseudonym.Session.{
  text, derive, first_source, candidates, newest_id, sanitize, is_printable, hex,
  default_metadata_key,
}
use palena_litellm_pseudonym.Tests.Samples.{ascii, plain_mac, Memory, memory_redis, plain_json}
use palena_litellm_pseudonym.Tests.Inputs.{length_hash}
use palena_litellm_pseudonym.Text.Handler.{Store, Handler}
use palena_litellm_pseudonym.Text.Pools.{new_pools}
use palena_litellm_pseudonym.Text.Strategy.{new_strategizer, strategy_for}
use palena_litellm_pseudonym.Text.Units.{fitting_overlap}

check_api_key_lem_example :
    (check_api_key (codes "key") (codes "kez") ≡ true)
    ↔ ((codes "key" ≡ []) ⊎ (codes "kez" ≡ codes "key"))
check_api_key_lem_example = check_api_key_lem (codes "key") (codes "kez")

abbrev api : ApiHandler
api = record {
  max_request_bytes = pos 100;
  metadata_key = codes "session_id";
  api_key = codes "key";
}

abbrev hello : GuardrailRequest
hello = record {
  input_type = codes "Request";
  call_id = codes "c1";
  trace_id = [];
  texts = [];
  images = [];
  structured_messages = [];
  end_user_id = [];
  params = [];
}

abbrev calm : Request → Task ℕ Response
calm req s = (suc s, ok (respond action_none [] [] [] [] new_counters))

abbrev nothing_to_do : GuardrailResponse
nothing_to_do = record {
  action = codes "NONE";
  blocked_reason = [];
  texts = [];
  images = [];
  stream_holdback_chars = [];
}

serve_http-applied_example :
    IsHandled ascii length_hash none calm api
      (codes "POST")
      (codes "key")
      (decoded_request hello)
      0
      1
      nothing_to_do
unfolding serve_http serve_body serve_request answering internal_request session_input input_type_of
    is_input_type check_api_key difference effective_metadata_key param text_eq derive first_source
    candidates newest_id sanitize is_printable hex trim trim_left trim_right answer wire_response
    action_text respond count_document_blocks stream_transform_mode get default_metadata_key
serve_http-applied_example =
    serve_http-applied ascii length_hash none calm api (codes "POST") (codes "key")
      (decoded_request hello) 0 1 nothing_to_do refl

abbrev with_document : GuardrailRequest
with_document = record hello {
  structured_messages =
      (record {
        fields = [];
        content = some (block ((codes "type", text (codes "file")) ∷ []) ∷ []);
      })
      ∷ [];
}

abbrev no_store : Store
no_store = record {
  World = ℕ;
  get_mapping = λ session_id s. (s, ok []);
  add_mappings = λ session_id new_map s. (s, ok new_map);
  get_reverse_mapping = λ session_id s. (s, ok []);
}

abbrev plain_handler : Handler
plain_handler = record {
  settings = record {
    strat = record {
      pools = record { by_type = [] };
      by_entity = [];
      default_strategy = codes "token";
      det_secret = none;
    };
    decompose = false;
    allow_list = [];
  };
  entities = [];
  threshold = 0;
  thresholds = [];
}

serve_http-documents_example :
    serve_http ascii length_hash none
      (handle ascii plain_mac plain_handler no_store (λ t s. (s, ok [])) none)
      api
      (codes "POST")
      (codes "key")
      (decoded_request with_document)
      0
    ≡ (
      0,
      applied (record {
        action = codes "BLOCKED";
        blocked_reason = codes "documents_not_supported_in_v1";
        texts = [];
        images = [];
        stream_holdback_chars = [];
      }),
    )
unfolding check_api_key difference is_input_type input_type_of text_eq trim trim_left trim_right
    count_document_blocks count_items is_document get
serve_http-documents_example =
    serve_http-documents ascii length_hash none plain_mac plain_handler no_store (λ t s. (s, ok []))
      none api (codes "key") with_document 0 tt refl refl (omega arith)

abbrev one_session : Memory
one_session k = if text_eq k (codes "p:s") then (codes "mapping", codes "") ∷ [] else []

delete_session-erases_example :
    mapping_of memory_redis plain_json
      (record { key_prefix = codes "p"; ttl = 3600000 })
      (codes "s")
      (delete memory_redis plain_json
        (record { key_prefix = codes "p"; ttl = 3600000 })
        (codes "s")
        one_session).0
    ≡ []
unfolding delete_session delete_answer api_key_valid delete session_key text_eq
delete_session-erases_example =
    delete_session-erases memory_redis plain_json (record { key_prefix = codes "p"; ttl = 3600000 })
      (λ a b. true) [] [] (codes "s") one_session
      (delete memory_redis plain_json (record { key_prefix = codes "p"; ttl = 3600000 }) (codes "s")
        one_session).0
      true refl

abbrev libraries : Libraries
libraries = record {
  parse_url = λ url. some (record { scheme = codes "http"; host = url });
  parse_float = λ s. some (fixed (pos 400_000));
  decode_lists = λ s. none;
  known_language = λ code. true;
  builtin_allow_list = [];
}

abbrev config : Config
config = record {
  http_addr = codes ":8080";
  http_read_timeout = pos 30_000_000_000;
  http_write_timeout = pos 30_000_000_000;
  http_idle_timeout = pos 120_000_000_000;
  ner_timeout = pos 10_000_000_000;
  presidio_timeout = pos 10_000_000_000;
  presidio_readiness = pos 2_000_000_000;
  redis_key_prefix = codes "p";
  redis_timeout = pos 2_000_000_000;
  redis_cluster = false;
  session_metadata_key = codes "session_id";
  decompose_person_names = true;
  api_key = [];
  shutdown_timeout = pos 30_000_000_000;
  http_max_header_bytes = pos 1;
  detection_engine = codes "ner";
  ner_url = codes "n";
  ner_threshold = fixed (pos 900_000);
  ner_entity_labels = [];
  ner_chunk_chars = pos 1000;
  ner_chunk_overlap = pos 150;
  ner_batch_size = pos 16;
  ner_cache_entries = pos 0;
  ner_cache_ttl = pos 0;
  analyzer_url = [];
  image_redactor_url = [];
  score_threshold = fixed (pos 700_000);
  entity_score_threshold = codes "A:4" ∷ [];
  entities = codes "PERSON" ∷ [];
  language = codes "en";
  languages = [];
  entity_strategy = codes "A:pool" ∷ [];
  entity_strategy_default = codes "token";
  allow_list = [];
  allow_list_builtin = false;
  deny_lists = [];
  deterministic_secret = [];
  redis_url = [];
  session_ttl = pos 3600;
  redis_pool_size = pos 10;
  pool_person = [];
  pool_organization = [];
  pool_location = [];
  pii_action = codes "block";
  block_message = codes "{entity_types}";
  max_image_bytes = pos 1;
  max_images_per_request = pos 1;
  log_level = codes "info";
  log_format = codes "json";
  max_request_bytes = pos 1;
}

config-run : validate ascii libraries config ≡ none
unfolding validate all_checks first_failure deny_checks engine_checks other_checks out_of_unit half
    no_url strategies_valid valid_strategy strategy_overrides strategies_from add_strategy
    is_threshold_entry is_label_entry count_of cut put text_eq elem trim trim_left trim_right
    starts_with parse parse_from
config-run = refl

validate-strategies_example : IsStrategy (
    strategy_for
      (new_strategizer ascii (record {
        pools = some (new_pools ascii (pools_map config));
        overrides = strategy_overrides ascii config;
        default_strategy = codes "token";
        deterministic_secret = [];
      }))
      (codes "A"))
validate-strategies_example = validate-strategies ascii libraries config (codes "A") config-run

validate-windows_example :
    (chars : ℕ) × (overlap : ℕ) × (pos 1000 ≡ pos chars)
    × (pos 150 ≡ pos overlap)
    × (100 ≤ chars)
    × (fitting_overlap chars overlap ≡ overlap)
    × (pos (new_batch_size (record { batch_size = pos 16 })) ≡ pos 16)
validate-windows_example = validate-windows ascii libraries config config-run refl

min_score_threshold-le_example :
    ((min_score_threshold ascii libraries config ≡ config.score_threshold)
      ⊎ ((k : Str) × In
            (k, min_score_threshold ascii libraries config)
            (entity_thresholds ascii libraries config)))
    × ((min_score_threshold ascii libraries config ≡ nan)
        ⊎ (le_float
              (min_score_threshold ascii libraries config)
              (elim (get (codes "A") (entity_thresholds ascii libraries config)) [
                | none ↦ config.score_threshold
                | some own ↦ own
              ])
            ≡ true))
min_score_threshold-le_example = min_score_threshold-le ascii libraries config (codes "A")
