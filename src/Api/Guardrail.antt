-- ===== src/Api/Guardrail.antt =====
-- internal/httpapi/handler.go: ServeHTTP up to its answer, without logging. The orchestrator is the
-- parameter `handle`, what the body decodes to is an argument, and so is whether the key is right.
use palena_litellm_pseudonym.Base.{
  ℕ, ◌+◌, Bool, false, ◌&&◌, ◌||◌, not, List, [], ◌∷◌, map, Option, none, some, if◌then◌else◌,
}
use palena_litellm_pseudonym.GoLib.Strings.{Str, codes, is_empty, text_eq}
use palena_litellm_pseudonym.GoLib.Dict.{get}
use palena_litellm_pseudonym.GoLib.Unicode.{Unicode, lower, trim_space, fields}
use palena_litellm_pseudonym.Errs.{Result, session_derivation_failed, Task}
use palena_litellm_pseudonym.Api.{write_error, Answer, refused, answer, error_text}
use palena_litellm_pseudonym.Pseudonymizer.{Request, Response}
use palena_litellm_pseudonym.Session.{
  Value, text, no_text, Field, Hash, Input, derive, default_metadata_key,
}
use palena_litellm_pseudonym.Api.Keys.{check_api_key}
use palena_litellm_pseudonym.GoLib.Int.{ℤ, pos, is_positive}

-- What countDocumentBlocks tells apart of a message's content.
pub data Item : Type 0 where
  block : List (Str × Value) → Item
  no_block : Item

pub record Message : Type 0 where
  pub fields : List (Str × Field)
  pub content : Option (List Item)

-- The fields of GuardrailRequest that are read.
pub record GuardrailRequest : Type 0 where
  pub input_type : Str
  pub call_id : Str
  pub trace_id : Str
  pub texts : List Str
  pub images : List Str
  pub structured_messages : List Message
  pub end_user_id : Str
  pub params : List (Str × Value)

pub data Body : Type 0 where
  too_large unknown_field bad_json : Body
  decoded_request : GuardrailRequest → Body

-- The fields of Handler that the answer depends on.
pub record ApiHandler : Type 0 where
  pub max_request_bytes : ℤ
  pub metadata_key : Str
  pub api_key : List ℕ

-- NewHandler, with 32 MiB and the default key.
unfoldable pub new_api_handler : ApiHandler → ApiHandler
new_api_handler cfg = record {
  max_request_bytes =
      if is_positive cfg.max_request_bytes then cfg.max_request_bytes else pos 33_554_432;
  metadata_key = if is_empty cfg.metadata_key then default_metadata_key else cfg.metadata_key;
  api_key = cfg.api_key;
}

-- A string among the provider's parameters, empty without one.
unfoldable pub param : Str → GuardrailRequest → Str
param key req = elim (get key req.params) [ none ↦ [] | some no_text ↦ [] | some (text v) ↦ v ]

unfoldable pub effective_metadata_key : ApiHandler → GuardrailRequest → Str
unfolding param
effective_metadata_key h req =
    let v = param (codes "session_id_metadata_key") req in if is_empty v then h.metadata_key else v

unfoldable pub stream_transform_mode : GuardrailRequest → Str
unfolding param
stream_transform_mode req =
    if text_eq (param (codes "streaming_transform_mode") req) (codes "incremental_diff")
    then codes "incremental_diff"
    else codes "block_only"

unfoldable pub is_document : Item → Bool
is_document no_block = false
is_document (block fields) = elim (get (codes "type") fields) [
  | none ↦ false
  | some no_text ↦ false
  | some (text t) ↦ text_eq t (codes "document") || text_eq t (codes "file")
]

unfoldable pub count_items : List Item → ℕ
unfolding is_document
count_items [] = 0
count_items (i ∷ items) = (if is_document i then 1 else 0) + count_items items

unfoldable pub count_document_blocks : List Message → ℕ
unfolding count_items
count_document_blocks [] = 0
count_document_blocks (m ∷ msgs) =
    elim m.content [ none ↦ 0 | some items ↦ count_items items ] + count_document_blocks msgs

unfoldable pub input_type_of : Unicode → GuardrailRequest → Str
input_type_of u req = lower u (trim_space u req.input_type)

unfoldable pub session_input : ApiHandler → GuardrailRequest → Input
unfolding effective_metadata_key
session_input h req = record {
  structured_messages = map (λ m. m.fields) req.structured_messages;
  end_user_id = req.end_user_id;
  trace_id = req.trace_id;
  call_id = req.call_id;
  metadata_key = effective_metadata_key h req;
}

unfoldable pub internal_request : Unicode → GuardrailRequest → Str → Request
unfolding count_document_blocks stream_transform_mode
internal_request u req sid = record {
  input_type = input_type_of u req;
  session_id = sid;
  texts = req.texts;
  images = req.images;
  document_count = count_document_blocks req.structured_messages;
  stream_transform =
      text_eq (stream_transform_mode req) (codes "incremental_diff")
      && text_eq (input_type_of u req) (codes "response");
}

unfoldable pub is_input_type : Str → Bool
is_input_type t = text_eq t (codes "request") || text_eq t (codes "response")

module _ {W : Type 0} (u : Unicode) (sha : Hash) (random : Option (List ℕ))
    (handle : Request → Task W Response) where
  unfoldable pub answering : W × Result Response → W × Answer
  answering (w, r) = (w, answer r)

  unfoldable pub serve_request : ApiHandler → GuardrailRequest → W → W × Answer
  unfolding answering is_input_type session_input internal_request
  serve_request h req w =
      let sid = (derive u sha random (session_input h req)).0 in
      if not (is_input_type (input_type_of u req))
      then (w, refused (write_error 400 (codes "bad_input_type")))
      else if is_empty sid
      then (w, refused (write_error 400 (error_text session_derivation_failed)))
      else answering (handle (internal_request u req sid) w)

  unfoldable pub serve_body : ApiHandler → Body → W → W × Answer
  unfolding serve_request
  serve_body h too_large w = (w, refused (write_error 413 (codes "request_too_large")))
  serve_body h unknown_field w = (w, refused (write_error 400 (codes "unknown_field")))
  serve_body h bad_json w = (w, refused (write_error 400 (codes "bad_json")))
  serve_body h (decoded_request req) w = serve_request h req w

  -- ServeHTTP for a method, the value of x-api-key and a body.
  unfoldable pub serve_http : ApiHandler → Str → List ℕ → Body → W → W × Answer
  unfolding serve_body
  serve_http h method key body w =
      if not (text_eq method (codes "POST"))
      then (w, refused (write_error 405 (codes "method_not_allowed")))
      else if not (check_api_key h.api_key key)
      then (w, refused (write_error 401 (codes "unauthorized")))
      else serve_body h body w
