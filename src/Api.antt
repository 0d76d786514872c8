-- ===== src/Api.antt =====
-- internal/httpapi/handler.go: what the HTTP handler answers for the outcome of Handle. Routing, decoding and
-- logging are left out.
pub mod Keys
pub mod Answers
pub mod Sessions
pub mod Waeg
pub mod Guardrail
use palena_litellm_pseudonym.Base.{
  ℕ, ◌≤◌, ◌≡◌, ◌↔◌, ◌⊎◌, inl, inr, refl, Bool, true, false, List, [], arith, if◌then◌else◌,
}
use palena_litellm_pseudonym.GoLib.Strings.{Str, codes}
use palena_litellm_pseudonym.Errs.{
  Error, presidio_unavailable, presidio_malformed, ner_unavailable, ner_malformed,
  mapping_store_unavailable, caller_canceled, session_derivation_failed, request_too_large,
  image_too_large, image_fetch_failed, other, Result, ok, err,
}
use palena_litellm_pseudonym.Pseudonymizer.{
  Action, action_none, action_intervene, action_blocked, Response,
}

pub record ErrorResponse : Type 0 where
  pub status : ℕ
  pub error : Str

-- The text of a sentinel.
unfoldable pub error_text : Error → Str
error_text presidio_unavailable = codes "presidio_unreachable"
error_text presidio_malformed = codes "presidio_malformed"
error_text ner_unavailable = codes "ner_unreachable"
error_text ner_malformed = codes "ner_malformed"
error_text mapping_store_unavailable = codes "mapping_store_unreachable"
error_text caller_canceled = codes "caller_canceled"
error_text session_derivation_failed = codes "session_id_derivation_failed"
error_text request_too_large = codes "request_too_large"
error_text image_too_large = codes "image_too_large"
error_text image_fetch_failed = codes "image_fetch_failed"
error_text other = codes "other"

abbrev pub status_client_closed_request : ℕ
status_client_closed_request = 499

abbrev pub status_bad_gateway : ℕ
status_bad_gateway = 502

unfoldable pub write_error : ℕ → Str → ErrorResponse
write_error status reason = record { status = status; error = reason }

unfoldable pub map_error : Error → ErrorResponse
unfolding write_error error_text
map_error caller_canceled = write_error status_client_closed_request (error_text caller_canceled)
map_error presidio_unavailable = write_error status_bad_gateway (error_text presidio_unavailable)
map_error presidio_malformed = write_error status_bad_gateway (error_text presidio_unavailable)
map_error ner_unavailable = write_error status_bad_gateway (error_text ner_unavailable)
map_error ner_malformed = write_error status_bad_gateway (error_text ner_unavailable)
map_error mapping_store_unavailable =
    write_error status_bad_gateway (error_text mapping_store_unavailable)
map_error request_too_large = write_error 413 (error_text request_too_large)
map_error session_derivation_failed = write_error 500 (codes "internal")
map_error image_too_large = write_error 500 (codes "internal")
map_error image_fetch_failed = write_error 500 (codes "internal")
map_error other = write_error 500 (codes "internal")

-- The body of a successful answer; an empty list is left out of the JSON.
pub record GuardrailResponse : Type 0 where
  pub action : Str
  pub blocked_reason : Str
  pub texts : List Str
  pub images : List Str
  pub stream_holdback_chars : List ℕ

unfoldable pub action_text : Action → Str
action_text action_none = codes "NONE"
action_text action_intervene = codes "GUARDRAIL_INTERVENED"
action_text action_blocked = codes "BLOCKED"

abbrev is_blocked : Action → Bool
is_blocked action_blocked = true
is_blocked action_none = false
is_blocked action_intervene = false

abbrev is_intervene : Action → Bool
is_intervene action_intervene = true
is_intervene action_none = false
is_intervene action_blocked = false

unfoldable pub wire_response : Response → GuardrailResponse
unfolding action_text
wire_response resp = record {
  action = action_text resp.action;
  blocked_reason = if is_blocked resp.action then resp.blocked_reason else [];
  texts = if is_intervene resp.action then resp.texts else [];
  images = if is_intervene resp.action then resp.images else [];
  stream_holdback_chars = if is_intervene resp.action then resp.stream_holdback_chars else [];
}

-- The end of ServeHTTP: a status other than 200, or the body.
pub data Answer : Type 0 where
  refused : ErrorResponse → Answer
  applied : GuardrailResponse → Answer

unfoldable pub answer : Result Response → Answer
unfolding wire_response map_error
answer (ok resp) = applied (wire_response resp)
answer (err e) = refused (map_error e)

-- The failure of a dependency, as against one of the caller's request or of the program.
abbrev pub IsDependency : Error → Type 0
IsDependency e =
    (e ≡ presidio_unavailable)
    ⊎ ((e ≡ presidio_malformed)
        ⊎ ((e ≡ ner_unavailable) ⊎ ((e ≡ ner_malformed) ⊎ (e ≡ mapping_store_unavailable))))

dependency_status : (e : Error) → IsDependency e → (map_error e).status ≡ status_bad_gateway
unfolding map_error write_error
dependency_status e (inl h) = rw h refl
dependency_status e (inr (inl h)) = rw h refl
dependency_status e (inr (inr (inl h))) = rw h refl
dependency_status e (inr (inr (inr (inl h)))) = rw h refl
dependency_status e (inr (inr (inr (inr h)))) = rw h refl

-- An error of Handle is answered with an error status, and with 502 exactly if a dependency has
-- failed: Presidio, the NER service or the mapping store.
pub map_error-status :
    (e : Error)
    → (400 ≤ (map_error e).status) × (((map_error e).status ≡ status_bad_gateway) ↔ IsDependency e)
unfolding map_error write_error
map_error-status presidio_unavailable = (omega arith, (λ _. inl refl, λ _. refl))
map_error-status presidio_malformed = (omega arith, (λ _. inr (inl refl), λ _. refl))
map_error-status ner_unavailable = (omega arith, (λ _. inr (inr (inl refl)), λ _. refl))
map_error-status ner_malformed = (omega arith, (λ _. inr (inr (inr (inl refl))), λ _. refl))
map_error-status mapping_store_unavailable =
    (omega arith, (λ _. inr (inr (inr (inr refl))), λ _. refl))
map_error-status caller_canceled =
    (omega arith, (λ h. absurd (omega (arith, h)), dependency_status caller_canceled))
map_error-status session_derivation_failed =
    (omega arith, (λ h. absurd (omega (arith, h)), dependency_status session_derivation_failed))
map_error-status request_too_large =
    (omega arith, (λ h. absurd (omega (arith, h)), dependency_status request_too_large))
map_error-status image_too_large =
    (omega arith, (λ h. absurd (omega (arith, h)), dependency_status image_too_large))
map_error-status image_fetch_failed =
    (omega arith, (λ h. absurd (omega (arith, h)), dependency_status image_fetch_failed))
map_error-status other = (omega arith, (λ h. absurd (omega (arith, h)), dependency_status other))
