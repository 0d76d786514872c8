-- ===== src/Presidio/ImageRedactor.antt =====
-- internal/presidio/image_redactor.go: the client of the Image Redactor. The server is the parameter
-- `post`, which gets the path, the image and the data field of the multipart form; decoding the JSON
-- of its answers and encoding the color are the parameters `decode` and `color_json`.
use palena_litellm_pseudonym.Base.{ℕ, List, [], Option, none, some, leb, ◌==◌, if◌then◌else◌, take}
use palena_litellm_pseudonym.GoLib.Strings.{Str, codes, is_empty}
use palena_litellm_pseudonym.Errs.{Error, Task, Result, ok, err, presidio_unavailable, other}
use palena_litellm_pseudonym.GoLib.Http.{Reply, lost, replied}
use palena_litellm_pseudonym.GoLib.Int.{ℤ}

pub record ImageDetection : Type 0 where
  pub entity_type : Str
  pub text : Str
  pub score : ℕ
  pub left : ℤ
  pub top : ℤ
  pub width : ℤ
  pub height : ℤ

-- image.Redactor
pub record Redactor (S : Type 0) : Type 0 where
  pub redact : List ℕ → Str → Task S (List ℕ)
  pub analyze : List ℕ → Task S (List ImageDetection)

-- The cap on the answer of /redact, 64 MiB.
abbrev redact_cap : ℕ
redact_cap = 67_108_864

unfoldable pub redact_reply : Reply → Result (List ℕ)
redact_reply (lost _) = err presidio_unavailable
redact_reply (replied status body) =
    if leb 500 status
    then err presidio_unavailable
    else if leb 400 status
    then err presidio_unavailable
    else elim body [ none ↦ err other | some bytes ↦ ok (take redact_cap bytes) ]

-- Ping: the error, if there is one.
unfoldable pub ping_reply : Reply → Option Error
ping_reply (lost _) = some presidio_unavailable
ping_reply (replied status body) = if leb 500 status then some presidio_unavailable else none

module _ {S : Type 0} (post : Str → List ℕ → Str → S → S × Reply)
    (decode : List ℕ → Option (List ImageDetection)) (color_json : Str → Str) where
  unfoldable pub redact_image : List ℕ → Str → Task S (List ℕ)
  unfolding redact_reply
  redact_image image color s =
      let data_field = if is_empty color then codes "{}" else color_json color in
      let (s', reply) = post (codes "/redact") image data_field s in
      if is_empty image then (s, ok []) else (s', redact_reply reply)

  -- Best effort: whatever goes wrong, there is nothing to enrich the mapping with.
  unfoldable pub analyze_reply : Reply → List ImageDetection
  analyze_reply (lost _) = []
  analyze_reply (replied status body) =
      if status == 200
      then elim body [ none ↦ [] | some bytes ↦ elim (decode bytes) [ none ↦ [] | some ds ↦ ds ] ]
      else []

  unfoldable pub analyze_image : List ℕ → Task S (List ImageDetection)
  unfolding analyze_reply
  analyze_image image s =
      let (s', reply) = post (codes "/analyze") image [] s in
      if is_empty image then (s, ok []) else (s', ok (analyze_reply reply))

  unfoldable pub image_redactor : Redactor S
  image_redactor = record { redact = redact_image; analyze = analyze_image }
