-- ===== src/Pseudonymizer.antt =====
-- internal/pseudonymizer/orchestrator.go: one call of the guardrail. The image pipeline, which may be
-- absent, is a parameter; a request that it blocks is blocked.
pub mod Requests
pub mod Responses
use palena_litellm_pseudonym.Base.{
  ℕ, zero, suc, ◌+◌, ◌-◌, ◌*◌, ◌/◌, ◌%◌, ◌^◌, ◌≤◌, ◌<◌, ◌≡◌, ◌≢◌, ◌↔◌, ◌⊎◌, inl, inr, refl, sym, ap,
  subst, ◌∙◌, Bool, true, false, ◌&&◌, ◌||◌, not, List, [], ◌∷◌, ◌++◌, map, append_assoc,
  append-nil, Option, none, some, arith, ltb, leb, ◌==◌, if◌then◌else◌, Bool-cases, Option-cases,
  &&-eq-true, ||-eq-true, ||-eq-false, bool_ext, ==_iff, ==_refl, leb→le, ltb→lt, lt→ltb, length,
  take, drop, get_elem?, all, any, keep, length-append, take-append-drop, length-take, length-drop,
  take_all, take-append, drop-append, length-keep-le, length-map, In, Distinct, All, In-append_left,
  In-append_right, All-In, pigeonhole, In-map,
}
use palena_litellm_pseudonym.GoLib.Strings.{
  Str, codes, raw_byte, replacement_char, width, byte_len, is_empty, text_eq, text_eq_iff,
  text_eq_refl, text_eq-false, starts_with, contains, elem, elem_iff, infixes, In-infixes,
  width_pos, byte_len-append,
}
use palena_litellm_pseudonym.GoLib.Unicode.{
  Unicode, lower, upper, equal_fold, lower-lower, trim_left, trim_right, trim, trim_space, fields,
}
use palena_litellm_pseudonym.Audit.{Counters, new_counters, add_counts}
use palena_litellm_pseudonym.Errs.{
  Error, mapping_store_unavailable, other, Result, ok, err, Task, ◌>>=◌, bind_result, >>=-eq-ok,
  return, BlockDecision,
}
use palena_litellm_pseudonym.Presidio.{Detection}
use palena_litellm_pseudonym.Text.Handler.{
  Store, Handler, PseudonymizeResult, ReverseStreamResult, pseudonymize, reverse, reverse_stream,
}

pub data Action : Type 0 where
  action_none action_intervene action_blocked : Action

pub record Request : Type 0 where
  pub input_type : Str
  pub session_id : Str
  pub texts : List Str
  pub images : List Str
  pub document_count : ℕ
  pub stream_transform : Bool

pub record Response : Type 0 where
  pub action : Action
  pub blocked_reason : Str
  pub texts : List Str
  pub images : List Str
  pub stream_holdback_chars : List ℕ
  pub counters : Counters

pub record ImageCounters : Type 0 where
  pub total : ℕ
  pub with_pii : ℕ
  pub redacted : ℕ
  pub entities_detected : ℕ
  pub per_image : List (Str × ℕ)

pub record ImageOutcome : Type 0 where
  pub images : List Str
  pub block : Option BlockDecision
  pub modified : Bool
  pub counters : ImageCounters

-- The counters after one more text.
unfoldable pub count_text : Counters → PseudonymizeResult → Counters
count_text c res = record {
  entities_detected = c.entities_detected + res.entities_detected;
  entities_pseudonymized = c.entities_pseudonymized + res.entities_detected;
  new_mappings_created = c.new_mappings_created + res.new_mappings_created;
  entity_types = add_counts c.entity_types res.entity_type_counts;
  images_processed = c.images_processed;
  images_pii_found = c.images_pii_found;
  images_redacted = c.images_redacted;
  documents_processed = c.documents_processed;
  session_mapping_size = res.session_mapping_size;
}

unfoldable pub count_images : Counters → ImageCounters → Counters
count_images c i = record {
  entities_detected = c.entities_detected + i.entities_detected;
  entities_pseudonymized = c.entities_pseudonymized;
  new_mappings_created = c.new_mappings_created;
  entity_types = add_counts c.entity_types i.per_image;
  images_processed = c.images_processed + i.total;
  images_pii_found = c.images_pii_found + i.with_pii;
  images_redacted = c.images_redacted + i.redacted;
  documents_processed = c.documents_processed;
  session_mapping_size = c.session_mapping_size;
}

unfoldable pub respond : Action → Str → List Str → List Str → List ℕ → Counters → Response
respond action reason texts images holdbacks counters = record {
  action = action;
  blocked_reason = reason;
  texts = texts;
  images = images;
  stream_holdback_chars = holdbacks;
  counters = counters;
}

-- A response that changes nothing.
unfoldable pub untouched : Counters → Response
unfolding respond
untouched counters = respond action_none [] [] [] [] counters

-- The end of handleRequest: the texts and the images, each only if they have changed.
unfoldable pub conclude : Bool → List Str → Bool → List Str → Counters → Response
unfolding untouched respond
conclude text_modified texts image_modified images counters =
    if text_modified || image_modified
    then respond action_intervene [] (if text_modified then texts else [])
        (if image_modified then images else []) [] counters
    else untouched counters

unfoldable pub after_images : Bool → List Str → Counters → ImageOutcome → Response
unfolding conclude respond
after_images text_modified texts counters out = elim out.block [
  | some b ↦ respond action_blocked b.reason [] [] [] counters
  | none ↦ conclude text_modified texts out.modified out.images (count_images counters out.counters)
]

-- What the loop over the texts has made: the texts, whether one has changed, the counters.
pub record TextPass : Type 0 where
  pub texts : List Str
  pub modified : Bool
  pub counters : Counters

unfoldable pub pass_text : Str → PseudonymizeResult → TextPass → TextPass
pass_text raw res pass = record {
  texts = res.text ∷ pass.texts;
  modified = not (text_eq res.text raw) || pass.modified;
  counters = pass.counters;
}

module _ (u : Unicode) (mac : Str → Str → List ℕ) (h : Handler) (st : Store)
    (detect : Str → Task st.World (List Detection)) where
  -- The loop of handleRequest; the first error ends it.
  unfoldable pub text_pass : Str → List Str → Counters → Task st.World TextPass
  text_pass session_id [] counters =
      return (record { texts = []; modified = false; counters = counters })
  text_pass session_id (raw ∷ texts) counters =
      pseudonymize u mac h st detect raw session_id >>= λ res.
      text_pass session_id texts (count_text counters res) >>= λ pass.
      return (pass_text raw res pass)

module _ (u : Unicode) (mac : Str → Str → List ℕ) (h : Handler) (st : Store)
    (detect : Str → Task st.World (List Detection))
    (images : Option (Str → List Str → Task st.World ImageOutcome)) where
  -- Nothing to do without a pipeline or without images.
  image_pass : Str → List Str → TextPass → Task st.World Response
  image_pass session_id [] pass = return (conclude pass.modified pass.texts false [] pass.counters)
  image_pass session_id (i ∷ is) pass = elim images [
    | none ↦ return (conclude pass.modified pass.texts false [] pass.counters)
    | some process_all ↦ process_all session_id (i ∷ is) >>= λ out.
        return (after_images pass.modified pass.texts pass.counters out)
  ]

  unfoldable pub handle_request : Request → Task st.World Response
  unfolding image_pass
  handle_request req =
      text_pass u mac h st detect req.session_id req.texts new_counters
      >>= image_pass req.session_id req.images

-- handleResponse.
unfoldable pub is_unavailable : Error → Bool
is_unavailable mapping_store_unavailable = true
is_unavailable _ = false

-- Post-call is best-effort: without the mapping store the response goes out as it is.
unfoldable pub best_effort : {S : Type 0} → S × Result Response → S × Result Response
unfolding is_unavailable untouched
best_effort (s, ok res) = (s, ok res)
best_effort (s, err e) = if is_unavailable e then (s, ok (untouched new_counters)) else (s, err e)

unfoldable pub reversed_response : List Str → Bool → Response
unfolding untouched respond
reversed_response texts modified =
    if modified
    then respond action_intervene [] texts [] [] new_counters
    else untouched new_counters

unfoldable pub stream_response : ReverseStreamResult → Response
unfolding untouched respond
stream_response result =
    if not result.modified && not (any (ltb 0) result.holdbacks)
    then untouched new_counters
    else respond action_intervene [] result.texts [] result.holdbacks new_counters

module _ (u : Unicode) (st : Store) where
  unfoldable pub reverse_all : Str → List Str → Task st.World (List Str × Bool)
  reverse_all session_id [] = return ([], false)
  reverse_all session_id (raw ∷ texts) = reverse u st raw session_id >>= λ reversed.
      reverse_all session_id texts >>= λ later.
      return (reversed ∷ later.0, not (text_eq reversed raw) || later.1)

  unfoldable pub handle_response : Request → Task st.World Response
  unfolding reversed_response stream_response best_effort untouched
  handle_response req s =
      if length req.texts == 0
      then (s, ok (untouched new_counters))
      else if req.stream_transform
      then best_effort (
          (reverse_stream u st req.texts req.session_id >>= λ result.
          return (stream_response result))
            s)
      else best_effort
          ((reverse_all req.session_id req.texts >>= λ r. return (reversed_response r.0 r.1)) s)

module _ (u : Unicode) (mac : Str → Str → List ℕ) (h : Handler) (st : Store)
    (detect : Str → Task st.World (List Detection))
    (images : Option (Str → List Str → Task st.World ImageOutcome)) where
  -- Handle.
  unfoldable pub handle : Request → Task st.World Response
  unfolding handle_request handle_response respond
  handle req s =
      if ltb 0 req.document_count
      then (
        s,
        ok (respond action_blocked (codes "documents_not_supported_in_v1") [] [] [] new_counters),
      )
      else if text_eq req.input_type (codes "request")
      then handle_request u mac h st detect images req s
      else if text_eq req.input_type (codes "response")
      then handle_response u st req s
      else (s, err other)
