-- ===== src/Image/Process.antt =====
-- internal/image/handler.go: ProcessAll and its steps.
use palena_litellm_pseudonym.Base.{
  ℕ, Bool, true, false, ◌||◌, not, List, [], ◌∷◌, Option, none, some, ltb, if◌then◌else◌, length,
}
use palena_litellm_pseudonym.GoLib.Strings.{Str, codes, is_empty, text_eq}
use palena_litellm_pseudonym.GoLib.Unicode.{Unicode, trim_space}
use palena_litellm_pseudonym.Errs.{ok, err, Task, ◌>>=◌, return, image_too_large, other}
use palena_litellm_pseudonym.GoLib.Int.{pos, ltbℤ}
use palena_litellm_pseudonym.Image.DataUrl.{
  Payload, Base64, not_data_url, malformed, decoded, decode_data_url, encode_data_url, Fetched,
  fetch_reply,
}
use palena_litellm_pseudonym.Mapping.Merge.{Mapping}
use palena_litellm_pseudonym.Presidio.ImageRedactor.{ImageDetection, Redactor}
use palena_litellm_pseudonym.Pseudonymizer.{ImageOutcome}
use palena_litellm_pseudonym.Text.Handler.{Store}
use palena_litellm_pseudonym.Image.Handler.{
  HandlerConfig, ProcessResult, filter_detections, count_image_types, bytes_differ, action_block,
  action_passthrough, Tally, tally, shown, image_outcome, no_images, start_tally, image_mapping,
  dropping_error, fetched,
}

module _ (u : Unicode) (mac : Str → Str → List ℕ) (b64 : Base64) (cfg : HandlerConfig) (st : Store)
    (redactor : Redactor st.World) (fetch : Str → st.World → st.World × Fetched) where
  unfoldable pub share_step : Str → List ImageDetection → Mapping → Task st.World (Unit {0})
  share_step session_id detections existing = elim (image_mapping u mac cfg detections existing) [
    | [] ↦ return tt
    | e ∷ new_map ↦ st.add_mappings session_id (e ∷ new_map) >>= λ merged. return tt
  ]

  unfoldable pub share_with_mapping : Str → List ImageDetection → Task st.World (Unit {0})
  unfolding share_step
  share_with_mapping session_id detections =
      st.get_mapping session_id >>= share_step session_id detections

  unfoldable pub share_relevant : Str → List ImageDetection → Task st.World (Unit {0})
  unfolding share_with_mapping
  share_relevant session_id [] = return tt
  share_relevant session_id (d ∷ relevant) = share_with_mapping session_id (d ∷ relevant)

  unfoldable pub result_with :
      List ImageDetection → List ImageDetection → Str → Bool → Bool → ProcessResult
  result_with detections relevant url blocked redacted = record {
    output_url = url;
    blocked = blocked;
    entities_detected = length relevant;
    entity_type_counts = count_image_types relevant [];
    redacted = redacted;
    ocr_enriched = ltb 0 (length detections);
  }

  -- The end of processOne, with what /redact answered.
  unfoldable pub conclude_image :
      Payload → List ImageDetection → List ImageDetection → List ℕ → ProcessResult
  unfolding result_with
  conclude_image payload detections relevant redacted =
      let pii_found = ltb 0 (length relevant) || bytes_differ payload.bytes redacted in
      let as_is = encode_data_url u b64 payload.media_type payload.bytes in
      if not pii_found
      then result_with detections relevant as_is false false
      else if text_eq cfg.pii_action action_block
      then result_with detections relevant [] true false
      else if text_eq cfg.pii_action action_passthrough
      then result_with detections relevant as_is false false
      else result_with detections relevant (encode_data_url u b64 (codes "image/png") redacted)
          false true

  unfoldable pub redact_step :
      Payload → List ImageDetection → List ImageDetection → Unit {0} → Task st.World ProcessResult
  unfolding conclude_image
  redact_step payload detections relevant _ =
      redactor.redact payload.bytes cfg.redact_color >>= λ redacted.
      return (conclude_image payload detections relevant redacted)

  unfoldable pub analyzed_step : Str → Payload → List ImageDetection → Task st.World ProcessResult
  unfolding share_relevant redact_step
  analyzed_step session_id payload detections =
      let relevant = filter_detections detections cfg.entities in
      share_relevant session_id relevant >>= redact_step payload detections relevant

  unfoldable pub process_one : Str → Payload → Task st.World ProcessResult
  unfolding analyzed_step
  process_one session_id payload =
      (λ s. dropping_error (redactor.analyze payload.bytes s)) >>= analyzed_step session_id payload

  -- Nothing for an entry that is blank.
  unfoldable pub resolve_input : Str → Task st.World (Option Payload)
  resolve_input raw s =
      let url = trim_space u raw in
      if is_empty url then (s, ok none) else elim (decode_data_url u b64 url) [
        | malformed ↦ (s, err other)
        | decoded payload ↦ (s, ok (some payload))
        | not_data_url ↦
            let (s', reply) = fetch url s in fetched (s', fetch_reply u cfg.max_image_bytes reply)
      ]

  unfoldable pub payload_step : Str → Option Payload → Task st.World (Option ProcessResult)
  payload_step session_id none = return none
  payload_step session_id (some payload) =
      if is_empty payload.bytes
      then return none
      else if ltbℤ cfg.max_image_bytes (pos (length payload.bytes))
      then (λ s. (s, err image_too_large))
      else (process_one session_id payload >>= λ res. return (some res))

  unfoldable pub process_entry : Str → Str → Task st.World (Option ProcessResult)
  unfolding payload_step
  process_entry session_id raw = resolve_input raw >>= payload_step session_id

  -- The loop of ProcessAll; the first error ends it.
  unfoldable pub process_images : Str → List Str → Tally → Task st.World (List Str × Tally)
  process_images session_id [] t = return ([], t)
  process_images session_id (raw ∷ inputs) t = process_entry session_id raw >>= λ res.
      process_images session_id inputs (tally raw res t) >>= λ later.
      return (shown raw res ∷ later.0, later.1)

  unfoldable pub process_all : Str → List Str → Task st.World ImageOutcome
  unfolding start_tally
  process_all session_id [] =
      return (record { images = []; block = none; modified = false; counters = no_images })
  process_all session_id (raw ∷ inputs) =
      if ltbℤ cfg.max_images_per_request (pos (length (raw ∷ inputs)))
      then return (record {
        images = [];
        block = some (record { reason = codes "too_many_images" });
        modified = false;
        counters = no_images;
      })
      else (process_images session_id (raw ∷ inputs) start_tally >>= λ r.
          return (image_outcome cfg r.0 r.1))
