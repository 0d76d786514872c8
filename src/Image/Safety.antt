-- ===== src/Image/Safety.antt =====
-- internal/image/handler.go: what ProcessAll lets through.
use palena_litellm_pseudonym.Base.{
  ℕ, ◌≡◌, ◌⊎◌, inl, inr, refl, true, List, Option, none, some, arith, Bool-cases, length,
}
use palena_litellm_pseudonym.GoLib.Strings.{Str, is_empty}
use palena_litellm_pseudonym.GoLib.Unicode.{Unicode}
use palena_litellm_pseudonym.Errs.{>>=-eq-ok, ok, Task, return}
use palena_litellm_pseudonym.GoLib.Int.{pos, ltbℤ}
use palena_litellm_pseudonym.Image.DataUrl.{Payload, Base64, Fetched}
use palena_litellm_pseudonym.Presidio.ImageRedactor.{ImageDetection, Redactor}
use palena_litellm_pseudonym.Text.Handler.{Store}
use palena_litellm_pseudonym.Image.Handler.{
  HandlerConfig, ProcessResult, filter_detections, dropping_error,
}
use palena_litellm_pseudonym.Image.Process.{
  conclude_image, redact_step, analyzed_step, share_relevant, process_one, resolve_input,
  payload_step, process_entry,
}

module _ (u : Unicode) (mac : Str → Str → List ℕ) (b64 : Base64) (cfg : HandlerConfig) (st : Store)
    (redactor : Redactor st.World) (fetch : Str → st.World → st.World × Fetched)
    (session_id : Str) where
  abbrev entry : Str → Task st.World (Option ProcessResult)
  entry = process_entry u mac b64 cfg st redactor fetch session_id

  -- What an entry resolved to, in the state of the world in which the loop met it.
  abbrev pub Resolved : Str → Option Payload → Type 0
  Resolved raw p =
      (s : st.World) × (s' : st.World) × (resolve_input u mac b64 cfg st redactor fetch raw s
        ≡ (s', ok p))

  -- What the Image Redactor made of the bytes.
  abbrev pub Redacted : List ℕ → List ℕ → Type 0
  Redacted bytes red =
      (s : st.World) × (s' : st.World) × (redactor.redact bytes cfg.redact_color s ≡ (s', ok red))

  -- An entry that carries no image: it is blank, or it has no bytes.
  pub record IsVoid (raw : Str) : Type 0 where
    pub payload : Option Payload
    pub resolved : Resolved raw payload
    pub no_bytes : elim payload [ none ↦ true | some p ↦ is_empty p.bytes ] ≡ true

  -- How one image was handled.
  pub record Handling (raw : Str) (res : ProcessResult) : Type 0 where
    pub payload : Payload
    pub detections : List ImageDetection
    pub red : List ℕ
    pub resolved : Resolved raw (some payload)
    pub redaction : Redacted payload.bytes red
    pub same :
        res
        ≡ conclude_image u mac b64 cfg st redactor fetch payload detections
            (filter_detections detections cfg.entities)
            red

  process_one-inv :
      (p : Payload) (s s' : st.World) (res : ProcessResult)
      → process_one u mac b64 cfg st redactor fetch session_id p s ≡ (s', ok res)
      → (detections : List ImageDetection) × (red : List ℕ) × Redacted p.bytes red
        × (res
            ≡ conclude_image u mac b64 cfg st redactor fetch p detections
                (filter_detections detections cfg.entities)
                red)
  unfolding process_one analyzed_step redact_step
  process_one-inv p s s' res e =
      let (t, detections, found, next) =
        >>=-eq-ok (λ w. dropping_error (redactor.analyze p.bytes w))
          (analyzed_step u mac b64 cfg st redactor fetch session_id p) s e in
      let relevant = filter_detections detections cfg.entities in
      let (t', done, shared, last) =
        >>=-eq-ok (share_relevant u mac b64 cfg st redactor fetch session_id relevant)
          (redact_step u mac b64 cfg st redactor fetch p detections relevant) t next in
      let (t'', red, drawn, end) =
        >>=-eq-ok (redactor.redact p.bytes cfg.redact_color)
          (λ r. return (conclude_image u mac b64 cfg st redactor fetch p detections relevant r)) t'
          last in
      (detections, red, (t', t'', drawn), ground arith)

  pub process_entry-inv :
      (raw : Str) (s s' : st.World) (o : Option ProcessResult)
      → entry raw s ≡ (s', ok o)
      → ((o ≡ none) × IsVoid raw) ⊎ ((res : ProcessResult) × (o ≡ some res) × Handling raw res)
  unfolding process_entry payload_step
  process_entry-inv raw s s' o e =
      let (t, p, got, next) =
        >>=-eq-ok (resolve_input u mac b64 cfg st redactor fetch raw)
          (payload_step u mac b64 cfg st redactor fetch session_id) s e in
      by_payload t p (s, t, got) next
    where
      by_payload :
          (t : st.World) (p : Option Payload)
          → Resolved raw p
          → payload_step u mac b64 cfg st redactor fetch session_id p t ≡ (s', ok o)
          → ((o ≡ none) × IsVoid raw) ⊎ ((res : ProcessResult) × (o ≡ some res) × Handling raw res)
      by_payload t none r next =
          inl (ground arith, record { payload = none; resolved = r; no_bytes = refl })
      by_payload t (some p) r next = elim (Bool-cases (is_empty p.bytes)) [
        | inl void ↦
            let h = rw void at next in
            inl (ground arith, record { payload = some p; resolved = r; no_bytes = void })
        | inr full ↦ elim (Bool-cases (ltbℤ cfg.max_image_bytes (pos (length p.bytes)))) [
          | inl large ↦ absurd (let h = rw (full, large) at next in cc)
          | inr fits ↦
              let h = rw (full, fits) at next in
              let (t', res, ran, end) =
                >>=-eq-ok (process_one u mac b64 cfg st redactor fetch session_id p)
                  (λ x. return (some x)) t h in
              let (detections, red, redaction, same) = process_one-inv p t t' res ran in
              inr (
                res,
                ground arith,
                record {
                  payload = p;
                  detections = detections;
                  red = red;
                  resolved = r;
                  redaction = redaction;
                  same = same;
                },
              )
        ]
      ]
