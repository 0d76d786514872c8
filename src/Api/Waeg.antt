-- ===== src/Api/Waeg.antt =====
-- internal/httpapi/waeg.go: the endpoint of the other gateway, ServeWaegHTTP, without logging.
use palena_litellm_pseudonym.Base.{
  ℕ, Bool, true, false, ◌&&◌, not, List, [], ◌∷◌, Option, none, some, if◌then◌else◌,
}
use palena_litellm_pseudonym.GoLib.Strings.{Str, codes, is_empty, text_eq, elem}
use palena_litellm_pseudonym.GoLib.Unicode.{Unicode, lower, trim_space}
use palena_litellm_pseudonym.Errs.{Result, ok, err, Task}
use palena_litellm_pseudonym.Api.{ErrorResponse, write_error, map_error}
use palena_litellm_pseudonym.Pseudonymizer.{
  Action, action_none, action_intervene, action_blocked, Request, Response,
}
use palena_litellm_pseudonym.Session.{Hash, derive}
use palena_litellm_pseudonym.Api.Keys.{check_api_key_waeg}
use palena_litellm_pseudonym.Api.Guardrail.{ApiHandler}

pub record WaegIdentity : Type 0 where
  pub user_id : Str
  pub session_id : Str

-- The fields of WaegRequest that are read.
pub record WaegRequest : Type 0 where
  pub phase : Str
  pub request_id : Str
  pub text : Str
  pub input_text : Str
  pub output_text : Str
  pub pending : Str
  pub identity : Option WaegIdentity

pub record WaegResponse : Type 0 where
  pub action : Str
  pub reason : Str
  pub text : Str
  pub pending : Str
  pub hold_chars : ℕ
  pub rules_hit : List Str
  pub redact_rest : Bool

pub data WaegBody : Type 0 where
  waeg_too_large waeg_bad_json : WaegBody
  decoded_waeg : WaegRequest → WaegBody

pub data WaegAnswer : Type 0 where
  waeg_refused : ErrorResponse → WaegAnswer
  waeg_applied : WaegResponse → WaegAnswer

-- firstNonEmpty
unfoldable pub first_non_empty : Unicode → List Str → Str
first_non_empty u [] = []
first_non_empty u (s ∷ ss) =
    let rest = first_non_empty u ss in if is_empty (trim_space u s) then rest else s

one_text : Str → List Str
one_text [] = []
one_text (c ∷ s) = (c ∷ s) ∷ []

-- What the switch on the phase sets: the input type, the texts and whether the stream is rewritten.
pub record Phase : Type 0 where
  pub input_type : Str
  pub texts : List Str
  pub stream_transform : Bool

unfoldable pub stream_phases : List Str
stream_phases = codes "during_call" ∷ codes "during_stream" ∷ codes "stream" ∷ []

unfoldable pub read_phase : Unicode → WaegRequest → Option Phase
unfolding one_text stream_phases
read_phase u wr =
    let phase = lower u (trim_space u wr.phase) in
    let uncommitted = one_text (first_non_empty u (wr.pending ∷ wr.output_text ∷ wr.text ∷ [])) in
    if text_eq phase (codes "pre_call")
    then some (record {
      input_type = codes "request";
      texts = one_text (first_non_empty u (wr.input_text ∷ wr.text ∷ []));
      stream_transform = false;
    })
    else if elem phase stream_phases
    then some
        (record { input_type = codes "response"; texts = uncommitted; stream_transform = true })
    else if text_eq phase (codes "post_call")
    then some
        (record { input_type = codes "response"; texts = uncommitted; stream_transform = false })
    else none

unfoldable pub waeg_call_id : Unicode → WaegRequest → Str
waeg_call_id u wr =
    if is_empty (trim_space u wr.request_id) then codes "waeg-anon" else trim_space u wr.request_id

-- The session: the identity's, else the derived one, else the call id.
unfoldable pub waeg_session : Unicode → Hash → Option (List ℕ) → Str → WaegRequest → Str
unfolding waeg_call_id
waeg_session u sha random metadata_key wr =
    let session_id : Str = elim wr.identity [ none ↦ [] | some who ↦ who.session_id ] in
    let derived =
      (derive u sha random (record {
        structured_messages = [];
        end_user_id = elim wr.identity [ none ↦ [] | some who ↦ who.user_id ];
        trace_id = [];
        call_id = waeg_call_id u wr;
        metadata_key = metadata_key;
      })).0 in
    if not (is_empty session_id)
    then session_id
    else if not (is_empty derived)
    then derived
    else waeg_call_id u wr

first_text : List Str → Str
first_text [] = []
first_text (t ∷ texts) = t

first_hold : List ℕ → ℕ
first_hold [] = 0
first_hold (n ∷ ns) = n

waeg_action : Action → Str
waeg_action action_blocked = codes "block"
waeg_action action_intervene = codes "mask"
waeg_action action_none = codes "allow"

is_mask : Action → Bool
is_mask action_intervene = true
is_mask action_none = false
is_mask action_blocked = false

blocked_reason_of : Response → Str
blocked_reason_of resp = elim resp.action [
  | action_blocked ↦ resp.blocked_reason
  | action_none ↦ []
  | action_intervene ↦ []
]

unfoldable pub waeg_response : Response → WaegResponse
unfolding first_text first_hold waeg_action is_mask blocked_reason_of
waeg_response resp = record {
  action = waeg_action resp.action;
  reason = blocked_reason_of resp;
  text = if is_mask resp.action then first_text resp.texts else [];
  pending = if is_mask resp.action then first_text resp.texts else [];
  hold_chars = if is_mask resp.action then first_hold resp.stream_holdback_chars else 0;
  rules_hit = codes "palena-pseudonymizer" ∷ [];
  redact_rest = false;
}

unfoldable pub waeg_request : Phase → Str → Request
waeg_request p sid = record {
  input_type = p.input_type;
  session_id = sid;
  texts = p.texts;
  images = [];
  document_count = 0;
  stream_transform = p.stream_transform && text_eq p.input_type (codes "response");
}

unfoldable pub waeg_answer : Result Response → WaegAnswer
unfolding waeg_response
waeg_answer (ok resp) = waeg_applied (waeg_response resp)
waeg_answer (err e) = waeg_refused (map_error e)

module _ {W : Type 0} (u : Unicode) (sha : Hash) (random : Option (List ℕ))
    (trim_bytes : List ℕ → List ℕ) (handle : Request → Task W Response) where
  waeg_answering : W × Result Response → W × WaegAnswer
  waeg_answering (w, r) = (w, waeg_answer r)

  unfoldable pub serve_waeg : Str → WaegRequest → W → W × WaegAnswer
  unfolding waeg_answering waeg_request
  serve_waeg metadata_key wr w = elim (read_phase u wr) [
    | none ↦ (w, waeg_refused (write_error 400 (codes "bad_phase")))
    | some p ↦
        waeg_answering (handle (waeg_request p (waeg_session u sha random metadata_key wr)) w)
  ]

  serve_waeg_body : Str → WaegBody → W → W × WaegAnswer
  unfolding serve_waeg
  serve_waeg_body metadata_key waeg_too_large w =
      (w, waeg_refused (write_error 413 (codes "request_too_large")))
  serve_waeg_body metadata_key waeg_bad_json w =
      (w, waeg_refused (write_error 400 (codes "bad_json")))
  serve_waeg_body metadata_key (decoded_waeg wr) w = serve_waeg metadata_key wr w

  -- ServeWaegHTTP for a method, the headers x-api-key and Authorization, and a body.
  unfoldable pub serve_waeg_http :
      ApiHandler → Str → List ℕ → List ℕ → WaegBody → W → W × WaegAnswer
  unfolding serve_waeg_body
  serve_waeg_http h method key authorization body w =
      if not (text_eq method (codes "POST"))
      then (w, waeg_refused (write_error 405 (codes "method_not_allowed")))
      else if not (check_api_key_waeg trim_bytes h.api_key key authorization)
      then (w, waeg_refused (write_error 401 (codes "unauthorized")))
      else serve_waeg_body h.metadata_key body w
