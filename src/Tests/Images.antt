-- ===== src/Tests/Images.antt =====
-- internal/image and internal/presidio at concrete inputs. The Image Redactor of the runs blanks the byte 200.
use palena_litellm_pseudonym.Base.{
  ℕ, suc, ◌≡◌, refl, true, false, [], ◌∷◌, ◌++◌, map, none, some, ◌==◌, if◌then◌else◌, All,
}
use palena_litellm_pseudonym.GoLib.Strings.{Str, codes, text_eq, starts_with, contains}
use palena_litellm_pseudonym.GoLib.Unicode.{trim_left, trim_right, trim}
use palena_litellm_pseudonym.Audit.{add_counts}
use palena_litellm_pseudonym.Errs.{Result, ok}
use palena_litellm_pseudonym.GoLib.Cuts.{cut, split_on, after_prefix}
use palena_litellm_pseudonym.GoLib.Int.{pos}
use palena_litellm_pseudonym.Image.DataUrl.{
  Base64, decode_data_url, decode_rest, decode_payload, read_parts, read_part, encode_data_url,
  media_or_png, Fetched, failed,
}
use palena_litellm_pseudonym.Image.Handler.{
  HandlerConfig, bytes_differ, filter_detections, count_image_types, tally, shown, start_tally,
  no_images, count_result, image_outcome, dropping_error,
}
use palena_litellm_pseudonym.Image.Process.{
  process_all, process_images, process_entry, resolve_input, process_one, conclude_image,
  share_with_mapping, analyzed_step, share_relevant, redact_step, payload_step, result_with,
}
use palena_litellm_pseudonym.Image.Laws.{
  OnlyRedacted, OnlyClean, process_all-OnlyRedacted, process_all-OnlyClean,
}
use palena_litellm_pseudonym.Image.Loop.{Pairs}
use palena_litellm_pseudonym.Mapping.{RedisStore, get_mapping, add_mappings}
use palena_litellm_pseudonym.Text.Handler.Redis.{redis_store}
use palena_litellm_pseudonym.Presidio.Analyzer.{RawDetection, keep_all}
use palena_litellm_pseudonym.Presidio.ImageRedactor.{ImageDetection, Redactor}
use palena_litellm_pseudonym.Presidio.Placed.{IsPlaced, keep_all-IsPlaced}
use palena_litellm_pseudonym.Pseudonymizer.{ImageOutcome}
use palena_litellm_pseudonym.Text.Handler.{Store}
use palena_litellm_pseudonym.Tests.Samples.{
  ascii, plain_mac, plain_json, memory_redis, Memory, empty_memory,
}

-- Base64 that leaves the bytes as they are.
abbrev bare_base64 : Base64
bare_base64 = record {
  encode = λ bytes. bytes;
  decode = λ s. some s;
  decode_raw = λ s. none;
  decode-encode = λ bytes. refl;
}

abbrev no_store : Store
no_store = record {
  World = ℕ;
  get_mapping = λ session_id s. (s, ok []);
  add_mappings = λ session_id new_map s. (s, ok new_map);
  get_reverse_mapping = λ session_id s. (s, ok []);
}

abbrev blanking : Redactor ℕ
blanking = record {
  redact = λ bytes color s. (suc s, ok (map (λ b. if b == 200 then 0 else b) bytes));
  analyze = λ bytes s. (s, ok []);
}

abbrev no_fetch : Str → ℕ → ℕ × Fetched
no_fetch url s = (s, failed)

abbrev acting : Str → HandlerConfig
acting action = record {
  pools = record { by_type = [] };
  strategizer = none;
  entities = [];
  pii_action = action;
  block_message_tmpl = codes "{entity_types}";
  max_image_bytes = pos 100;
  max_images_per_request = pos 3;
  redact_color = [];
  decompose_person_names = false;
  allow_list = [];
}

abbrev secret_image : Str
secret_image = codes "data:image/gif;base64," ++ (7 ∷ 200 ∷ [])

abbrev clean_image : Str
clean_image = codes "data:image/gif;base64," ++ (7 ∷ [])

abbrev only_redacted : ℕ × Result ImageOutcome
only_redacted =
    process_all ascii plain_mac bare_base64 (acting (codes "redact")) no_store blanking no_fetch
      (codes "s") (secret_image ∷ []) 0

redacted_outcome : ImageOutcome
redacted_outcome = record {
  images = (codes "data:image/png;base64," ++ (7 ∷ 0 ∷ [])) ∷ [];
  block = none;
  modified = true;
  counters = record {
    total = 1;
    with_pii = 0;
    redacted = 1;
    entities_detected = 0;
    per_image = [];
  };
}

only_redacted-run : only_redacted ≡ (1, ok redacted_outcome)
unfolding redacted_outcome process_all process_images process_entry resolve_input process_one
    conclude_image analyzed_step share_relevant redact_step payload_step result_with decode_data_url
    decode_rest decode_payload after_prefix cut split_on read_parts read_part encode_data_url
    media_or_png trim trim_left trim_right contains starts_with text_eq bytes_differ
    filter_detections count_image_types tally shown start_tally no_images count_result image_outcome
    add_counts dropping_error
only_redacted-run = refl

process_all-OnlyRedacted_example :
    Pairs
      (OnlyRedacted ascii plain_mac bare_base64
        (acting (codes "redact"))
        no_store
        blanking
        no_fetch
        (codes "s"))
      (secret_image ∷ [])
      redacted_outcome.images
unfolding text_eq redacted_outcome
process_all-OnlyRedacted_example =
    process_all-OnlyRedacted ascii plain_mac bare_base64 (acting (codes "redact")) no_store blanking
      no_fetch (codes "s") (secret_image ∷ []) 0 1 redacted_outcome refl refl only_redacted-run refl

abbrev only_clean : ℕ × Result ImageOutcome
only_clean =
    process_all ascii plain_mac bare_base64 (acting (codes "block")) no_store blanking no_fetch
      (codes "s") (clean_image ∷ []) 0

clean_outcome : ImageOutcome
clean_outcome = record {
  images = clean_image ∷ [];
  block = none;
  modified = false;
  counters = record {
    total = 1;
    with_pii = 0;
    redacted = 0;
    entities_detected = 0;
    per_image = [];
  };
}

only_clean-run : only_clean ≡ (1, ok clean_outcome)
unfolding clean_outcome process_all process_images process_entry resolve_input process_one
    conclude_image analyzed_step share_relevant redact_step payload_step result_with decode_data_url
    decode_rest decode_payload after_prefix cut split_on read_parts read_part encode_data_url
    media_or_png trim trim_left trim_right contains starts_with text_eq bytes_differ
    filter_detections count_image_types tally shown start_tally no_images count_result image_outcome
    add_counts dropping_error
only_clean-run = refl

process_all-OnlyClean_example :
    Pairs
      (OnlyClean ascii plain_mac bare_base64
        (acting (codes "block"))
        no_store
        blanking
        no_fetch
        (codes "s"))
      (clean_image ∷ [])
      clean_outcome.images
unfolding text_eq clean_outcome
process_all-OnlyClean_example =
    process_all-OnlyClean ascii plain_mac bare_base64 (acting (codes "block")) no_store blanking
      no_fetch (codes "s") (clean_image ∷ []) 0 1 clean_outcome refl only_clean-run refl

abbrev read_name : ImageDetection
read_name = record {
  entity_type = codes "PERSON";
  text = codes " Max ";
  score = 80;
  left = pos 0;
  top = pos 0;
  width = pos 1;
  height = pos 1;
}

abbrev kept_store : RedisStore
kept_store = record { key_prefix = codes "p"; ttl = 3600000 }

abbrev idle_redactor : Redactor Memory
idle_redactor = record { redact = λ bytes color s. (s, ok bytes); analyze = λ bytes s. (s, ok []) }

abbrev sharing : Memory × Result (Unit {0})
sharing =
    share_with_mapping ascii plain_mac bare_base64 (acting (codes "redact"))
      (redis_store memory_redis plain_json kept_store) idle_redactor (λ url s. (s, failed))
      (codes "s") (read_name ∷ []) empty_memory

-- An answer of the Analyzer with an offset that counts characters, behind one of two bytes.
abbrev raw_name : RawDetection
raw_name = record {
  entity_type = codes "PERSON";
  start = pos 2;
  end = pos 5;
  score = 80;
  text = [];
}

keep_all-IsPlaced_example :
    All
      (IsPlaced ascii (codes "é Max") (raw_name ∷ []))
      (keep_all ascii (codes "é Max") (raw_name ∷ []))
keep_all-IsPlaced_example = keep_all-IsPlaced ascii (codes "é Max") (raw_name ∷ [])
