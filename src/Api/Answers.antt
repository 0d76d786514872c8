-- ===== src/Api/Answers.antt =====
-- internal/httpapi/handler.go: what stands behind an answer of ServeHTTP.
use palena_litellm_pseudonym.Base.{
  ℕ, ◌<◌, ◌≡◌, ◌⊎◌, inl, inr, refl, sym, ap, true, false, List, [], ◌∷◌, Option, Bool-cases, lt→ltb,
}
use palena_litellm_pseudonym.GoLib.Strings.{
  Str, codes, is_empty, text_eq, text_eq_iff, text_eq_refl,
}
use palena_litellm_pseudonym.Errs.{Result, ok, err, Task}
use palena_litellm_pseudonym.Api.{
  Answer, refused, applied, answer, GuardrailResponse, wire_response, action_text,
}
use palena_litellm_pseudonym.Api.Keys.{check_api_key, check_api_key_lem}
use palena_litellm_pseudonym.Api.Guardrail.{
  GuardrailRequest, Body, too_large, unknown_field, bad_json, decoded_request, ApiHandler,
  session_input, internal_request, is_input_type, input_type_of, count_document_blocks, answering,
  serve_request, serve_body, serve_http,
}
use palena_litellm_pseudonym.GoLib.Unicode.{Unicode}
use palena_litellm_pseudonym.Presidio.{Detection}
use palena_litellm_pseudonym.Pseudonymizer.{Request, Response, ImageOutcome, handle, respond}
use palena_litellm_pseudonym.Session.{Hash, derive, is_printable}
use palena_litellm_pseudonym.Session.Printable.{AreRandom, derive-printable}
use palena_litellm_pseudonym.Text.Handler.{Store, Handler}

module _ {W : Type 0} (u : Unicode) (sha : Hash) (random : Option (List ℕ))
    (handle : Request → Task W Response) where
  session_of : ApiHandler → GuardrailRequest → Str
  session_of h req = (derive u sha random (session_input h req)).0

  -- What an answer other than a refusal stands for.
  pub record IsHandled (h : ApiHandler) (method : Str) (key : List ℕ) (body : Body) (w w' : W)
      (g : GuardrailResponse) : Type 0 where
    pub req : GuardrailRequest
    pub resp : Response
    pub posted : method ≡ codes "POST"
    pub authorized : (h.api_key ≡ []) ⊎ (key ≡ h.api_key)
    pub decoded : body ≡ decoded_request req
    pub handled :
        handle (internal_request u req (derive u sha random (session_input h req)).0) w
        ≡ (w', ok resp)
    pub wired : g ≡ wire_response resp

  answer-applied :
      (r : W × Result Response) (w' : W) (g : GuardrailResponse)
      → answering u sha random handle r ≡ (w', applied g)
      → (resp : Response) × (r ≡ (w', ok resp)) × (g ≡ wire_response resp)
  unfolding answering answer
  answer-applied (w, ok resp) w' g e =
      (resp, ap (λ x. (x.0, ok resp)) e, sym (ap (λ x. answered_with x.1) e))
    where
      answered_with : Answer → GuardrailResponse
      answered_with (applied x) = x
      answered_with (refused x) = wire_response resp
  answer-applied (w, err x) w' g e = absurd (let k = ap (λ x. x.1) e in cc)

  serve_request-applied :
      (h : ApiHandler) (req : GuardrailRequest) (w w' : W) (g : GuardrailResponse)
      → serve_request u sha random handle h req w ≡ (w', applied g)
      → answering u sha random handle (handle (internal_request u req (session_of h req)) w)
        ≡ (w', applied g)
  unfolding serve_request session_of
  serve_request-applied h req w w' g e = elim (Bool-cases (is_input_type (input_type_of u req))) [
    | inr bad ↦ absurd (let k = rw (bad, serve_request) at e in let c = ap (λ x. x.1) k in cc)
    | inl good ↦ elim (Bool-cases (is_empty (session_of h req))) [
      | inl void ↦
          absurd (let k = rw (good, void, serve_request) at e in let c = ap (λ x. x.1) k in cc)
      | inr named ↦ rw (good, named, serve_request) at e
    ]
  ]

  serve_body-applied :
      (h : ApiHandler) (method : Str) (key : List ℕ) (body : Body) (w w' : W)
      (g : GuardrailResponse)
      → method ≡ codes "POST"
      → (h.api_key ≡ []) ⊎ (key ≡ h.api_key)
      → serve_body u sha random handle h body w ≡ (w', applied g)
      → IsHandled h method key body w w' g
  unfolding serve_body session_of
  serve_body-applied h method key too_large w w' g p a e = absurd (let k = ap (λ x. x.1) e in cc)
  serve_body-applied h method key unknown_field w w' g p a e =
      absurd (let k = ap (λ x. x.1) e in cc)
  serve_body-applied h method key bad_json w w' g p a e = absurd (let k = ap (λ x. x.1) e in cc)
  serve_body-applied h method key (decoded_request req) w w' g p a e =
      let k = serve_request-applied h req w w' g e in
      let (resp, ran, wired) = answer-applied _ w' g k in
      record {
        req = req;
        resp = resp;
        posted = p;
        authorized = a;
        decoded = refl;
        handled = ran;
        wired = wired;
      }

  -- An answer of ServeHTTP other than an error stands for a POST whose key was right (or no key is
  -- configured), whose body decoded, and for which Handle succeeded on the translated request with
  -- the derived session; the body of the answer is what that response is translated to.
  pub serve_http-applied :
      (h : ApiHandler) (method : Str) (key : List ℕ) (body : Body) (w w' : W)
      (g : GuardrailResponse)
      → serve_http u sha random handle h method key body w ≡ (w', applied g)
      → IsHandled h method key body w w' g
  unfolding serve_http
  serve_http-applied h method key body w w' g e =
      elim (Bool-cases (text_eq method (codes "POST"))) [
        | inr other_method ↦
            absurd (let k = rw (other_method, serve_http) at e in let c = ap (λ x. x.1) k in cc)
        | inl post ↦ elim (Bool-cases (check_api_key h.api_key key)) [
          | inr wrong ↦
              absurd (let k = rw (post, wrong, serve_http) at e in let c = ap (λ x. x.1) k in cc)
          | inl right ↦
              let k = rw (post, right, serve_http) at e in
              serve_body-applied h method key body w w' g
                ((text_eq_iff method (codes "POST")).0 post)
                ((check_api_key_lem h.api_key key).0 right) k
        ]
      ]

printable-full : (s : Str) → is_printable s ≡ true → is_empty s ≡ false
unfolding is_printable
printable-full [] e = absurd (cc)
printable-full (c ∷ s) e = refl

module _ (u : Unicode) (sha : Hash) (random : Option (List ℕ)) (mac : Str → Str → List ℕ)
    (th : Handler) (st : Store) (detect : Str → Task st.World (List Detection))
    (images : Option (Str → List Str → Task st.World ImageOutcome)) where
  -- A posted request with a valid key and input type and a document among its content blocks is
  -- blocked, whatever else it holds: no text is detected in, nothing is stored and nothing is
  -- returned but the reason.
  pub serve_http-documents :
      (h : ApiHandler) (key : List ℕ) (req : GuardrailRequest) (w : st.World)
      → AreRandom random
      → check_api_key h.api_key key ≡ true
      → is_input_type (input_type_of u req) ≡ true
      → 0 < count_document_blocks req.structured_messages
      → serve_http u sha random
          (handle u mac th st detect images)
          h
          (codes "POST")
          key
          (decoded_request req)
          w
        ≡ (
          w,
          applied (record {
            action = codes "BLOCKED";
            blocked_reason = codes "documents_not_supported_in_v1";
            texts = [];
            images = [];
            stream_holdback_chars = [];
          }),
        )
  unfolding serve_http serve_body serve_request answering internal_request handle respond
      wire_response answer action_text
  serve_http-documents h key req w fresh authorized typed documents =
      let sid = (derive u sha random (session_input h req)).0 in
      let named : is_empty sid ≡ false =
        printable-full sid (derive-printable u sha random (session_input h req) fresh) in
      let post = text_eq_refl (codes "POST") in
      rw (serve_http, post, authorized, serve_request, typed, named, lt→ltb 0 _ documents) refl
