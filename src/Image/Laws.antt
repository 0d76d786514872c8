-- ===== src/Image/Laws.antt =====
-- internal/image/handler.go: what ProcessAll guarantees under the actions "redact" and "block".
use palena_litellm_pseudonym.Base.{
  ℕ, ◌≡◌, ◌⊎◌, inl, inr, refl, sym, ap, ◌∙◌, true, false, ◌||◌, not, List, Option, none, some, ltb,
  ◌==◌, Bool-cases, ||-eq-false, length,
}
use palena_litellm_pseudonym.GoLib.Strings.{Str, codes, text_eq, text_eq_iff}
use palena_litellm_pseudonym.GoLib.Unicode.{Unicode}
use palena_litellm_pseudonym.Errs.{ok}
use palena_litellm_pseudonym.Image.DataUrl.{Payload, Base64, encode_data_url, Fetched}
use palena_litellm_pseudonym.Presidio.ImageRedactor.{Redactor}
use palena_litellm_pseudonym.Pseudonymizer.{ImageOutcome}
use palena_litellm_pseudonym.Text.Handler.{Store}
use palena_litellm_pseudonym.Image.Handler.{
  HandlerConfig, ProcessResult, filter_detections, bytes_differ, action_block, action_passthrough,
  shown,
}
use palena_litellm_pseudonym.Image.Process.{conclude_image, result_with, process_all}
use palena_litellm_pseudonym.Image.Safety.{IsVoid, Handling, Resolved, Redacted}
use palena_litellm_pseudonym.Image.Loop.{not_blocked, Shown, Pairs, Pairs-map, process_all-Shown}

bytes_differ-false : (a b : List ℕ) → bytes_differ a b ≡ false → b ≡ a
unfolding bytes_differ
bytes_differ-false a b e = elim (Bool-cases (length a == length b)) [
  | inl long ↦ elim (Bool-cases (text_eq a b)) [
    | inl same ↦ sym ((text_eq_iff a b).0 same)
    | inr differ ↦ absurd (let h = rw (long, differ) at e in cc)
  ]
  | inr short ↦ absurd (let h = rw short at e in cc)
]

module _ (u : Unicode) (mac : Str → Str → List ℕ) (b64 : Base64) (cfg : HandlerConfig) (st : Store)
    (redactor : Redactor st.World) (fetch : Str → st.World → st.World × Fetched)
    (session_id : Str) where
  shown_url :
      (raw out media : Str) (bytes : List ℕ) (res : ProcessResult)
      → res.output_url ≡ encode_data_url u b64 media bytes
      → res.blocked ≡ false
      → out ≡ shown raw (some res)
      → out ≡ encode_data_url u b64 media bytes
  unfolding shown encode_data_url
  shown_url raw out media bytes res url open_one e = e ∙ rw (shown, open_one, url) refl

  -- The image came back from the Image Redactor as it was, and it is passed on as it was.
  abbrev pub Unchanged : Payload → List ℕ → Str → Type 0
  Unchanged payload red out =
      (red ≡ payload.bytes) × (out ≡ encode_data_url u b64 payload.media_type payload.bytes)

  abbrev pub IsResolved : Str → Option Payload → Type 0
  IsResolved = Resolved u mac b64 cfg st redactor fetch session_id

  abbrev pub IsRedacted : List ℕ → List ℕ → Type 0
  IsRedacted = Redacted u mac b64 cfg st redactor fetch session_id

  -- An entry without an image stays; for an image, the output is what the Image Redactor made of it.
  abbrev pub OnlyRedacted : Str → Str → Type 0
  OnlyRedacted raw out =
      ((out ≡ raw) × IsVoid u mac b64 cfg st redactor fetch session_id raw)
      ⊎ ((payload : Payload) × (red : List ℕ) × IsResolved raw (some payload)
          × IsRedacted payload.bytes red
          × ((out ≡ encode_data_url u b64 (codes "image/png") red) ⊎ Unchanged payload red out))

  abbrev pub OnlyClean : Str → Str → Type 0
  OnlyClean raw out =
      ((out ≡ raw) × IsVoid u mac b64 cfg st redactor fetch session_id raw)
      ⊎ ((payload : Payload) × (red : List ℕ) × IsResolved raw (some payload)
          × IsRedacted payload.bytes red
          × Unchanged payload red out)

  -- How the two actions end for an image that is let through.
  conclude_redact :
      (raw out : Str) (res : ProcessResult)
      → text_eq cfg.pii_action action_passthrough ≡ false
      → text_eq cfg.pii_action action_block ≡ false
      → Handling u mac b64 cfg st redactor fetch session_id raw res
      → out ≡ shown raw (some res)
      → OnlyRedacted raw out
  unfolding conclude_image result_with
  conclude_redact raw out res no_pass no_block h e =
      let relevant = filter_detections h.detections cfg.entities in
      elim (Bool-cases (ltb 0 (length relevant) || bytes_differ h.payload.bytes h.red)) [
        | inl pii ↦
            let same = rw (pii, no_block, no_pass) at h.same in
            inr (
              h.payload,
              h.red,
              h.resolved,
              h.redaction,
              inl (shown_url raw out (codes "image/png") h.red res (rw same refl) (rw same refl) e),
            )
        | inr clean ↦
            let same = rw clean at h.same in
            let (none_found, alike) =
              ||-eq-false (ltb 0 (length relevant)) (bytes_differ h.payload.bytes h.red) clean in
            inr (
              h.payload,
              h.red,
              h.resolved,
              h.redaction,
              inr (
                bytes_differ-false h.payload.bytes h.red alike,
                shown_url raw out h.payload.media_type h.payload.bytes res (rw same refl)
                    (rw same refl) e,
              ),
            )
      ]

  conclude_block :
      (raw out : Str) (res : ProcessResult)
      → text_eq cfg.pii_action action_block ≡ true
      → not res.blocked ≡ true
      → Handling u mac b64 cfg st redactor fetch session_id raw res
      → out ≡ shown raw (some res)
      → OnlyClean raw out
  unfolding conclude_image result_with
  conclude_block raw out res block open_one h e =
      let relevant = filter_detections h.detections cfg.entities in
      elim (Bool-cases (ltb 0 (length relevant) || bytes_differ h.payload.bytes h.red)) [
        | inl pii ↦
            let same = rw (pii, block) at h.same in
            let blocked : res.blocked ≡ true = rw same refl in
            absurd (let k = rw blocked at open_one in cc)
        | inr clean ↦
            let same = rw clean at h.same in
            let (none_found, alike) =
              ||-eq-false (ltb 0 (length relevant)) (bytes_differ h.payload.bytes h.red) clean in
            inr (
              h.payload,
              h.red,
              h.resolved,
              h.redaction,
              (
                bytes_differ-false h.payload.bytes h.red alike,
                shown_url raw out h.payload.media_type h.payload.bytes res (rw same refl)
                    (rw same refl) e,
              ),
            )
      ]

  Shown-Redacted :
      (raw out : Str)
      → text_eq cfg.pii_action action_passthrough ≡ false
      → text_eq cfg.pii_action action_block ≡ false
      → Shown u mac b64 cfg st redactor fetch session_id raw out
      → OnlyRedacted raw out
  unfolding shown
  Shown-Redacted raw out no_pass no_block (o, e, clear, inl (skipped, void)) =
      inl (e ∙ ap (shown raw) skipped, void)
  Shown-Redacted raw out no_pass no_block (o, e, clear, inr (res, made, h)) =
      conclude_redact raw out res no_pass no_block h (e ∙ ap (shown raw) made)

  Shown-Clean :
      (raw out : Str)
      → text_eq cfg.pii_action action_block ≡ true
      → Shown u mac b64 cfg st redactor fetch session_id raw out
      → OnlyClean raw out
  unfolding shown not_blocked
  Shown-Clean raw out block (o, e, clear, inl (skipped, void)) =
      inl (e ∙ ap (shown raw) skipped, void)
  Shown-Clean raw out block (o, e, clear, inr (res, made, h)) =
      conclude_block raw out res block (ap not_blocked (sym made) ∙ clear) h
        (e ∙ ap (shown raw) made)

  -- Unless the action is "block" or "passthrough", an answer that blocks nothing has one output for
  -- each input, in order. An entry without image bytes stays as it is; the output for an image is
  -- what the Image Redactor answered for its bytes, as a PNG, or the image itself where the Image
  -- Redactor answered with the same bytes.
  pub process_all-OnlyRedacted :
      (inputs : List Str) (s s' : st.World) (out : ImageOutcome)
      → text_eq cfg.pii_action action_passthrough ≡ false
      → text_eq cfg.pii_action action_block ≡ false
      → process_all u mac b64 cfg st redactor fetch session_id inputs s ≡ (s', ok out)
      → out.block ≡ none
      → Pairs OnlyRedacted inputs out.images
  process_all-OnlyRedacted inputs s s' out no_pass no_block e clear =
      Pairs-map (Shown u mac b64 cfg st redactor fetch session_id) OnlyRedacted inputs out.images
        (λ raw o. Shown-Redacted raw o no_pass no_block)
        (process_all-Shown u mac b64 cfg st redactor fetch session_id inputs s s' out e clear)

  -- Under the action "block", an answer that blocks nothing has one output for each input, in order,
  -- and each image in it came back from the Image Redactor as it was: an image that the Image
  -- Redactor changed is never let through.
  pub process_all-OnlyClean :
      (inputs : List Str) (s s' : st.World) (out : ImageOutcome)
      → text_eq cfg.pii_action action_block ≡ true
      → process_all u mac b64 cfg st redactor fetch session_id inputs s ≡ (s', ok out)
      → out.block ≡ none
      → Pairs OnlyClean inputs out.images
  process_all-OnlyClean inputs s s' out block e clear =
      Pairs-map (Shown u mac b64 cfg st redactor fetch session_id) OnlyClean inputs out.images
        (λ raw o. Shown-Clean raw o block)
        (process_all-Shown u mac b64 cfg st redactor fetch session_id inputs s s' out e clear)
