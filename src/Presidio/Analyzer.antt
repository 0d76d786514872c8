-- ===== src/Presidio/Analyzer.antt =====
-- internal/presidio/analyzer.go: the client of the Analyzer. The server is the parameter `post`, which
-- gets the text, the entity types, the language and the score threshold; decoding the JSON of its
-- answers is the parameter `decode`.
use palena_litellm_pseudonym.Base.{
  ℕ, ◌+◌, ◌||◌, not, List, [], ◌∷◌, Option, none, some, leb, ◌==◌, if◌then◌else◌, length, get_elem?,
}
use palena_litellm_pseudonym.GoLib.Strings.{Str, codes, width, is_empty}
use palena_litellm_pseudonym.GoLib.Unicode.{Unicode, trim_space}
use palena_litellm_pseudonym.Errs.{
  Result, ok, err, Task, presidio_unavailable, presidio_malformed, send_failure,
}
use palena_litellm_pseudonym.GoLib.Http.{Reply, lost, replied}
use palena_litellm_pseudonym.GoLib.Int.{ℤ, pos, negsuc, ltbℤ}
use palena_litellm_pseudonym.GoLib.Slices.{byte_slice}
use palena_litellm_pseudonym.Presidio.{Detection}

-- One element of the answer: a Detection as it is decoded, with offsets in characters.
pub record RawDetection : Type 0 where
  pub entity_type : Str
  pub start : ℤ
  pub end : ℤ
  pub score : ℕ
  pub text : Str

-- json.Decoder.Decode: the end of the input, malformed input, or the elements.
pub data DecodedBody : Type 0 where
  eof bad_json : DecodedBody
  elements : List RawDetection → DecodedBody

pub record AnalyzerConfig : Type 0 where
  pub score_threshold : ℕ

unfoldable pub offsets_from : ℕ → Str → List ℕ
offsets_from here [] = here ∷ []
offsets_from here (c ∷ s) = here ∷ offsets_from (here + width c) s

-- runeByteOffsets
unfoldable pub rune_byte_offsets : Str → List ℕ
unfolding offsets_from
rune_byte_offsets text = offsets_from 0 text

-- byteAt[d.Start], none where the guards of the loop reject the offset.
unfoldable pub byte_at : List ℕ → ℤ → Option ℕ
byte_at offsets (pos i) = get_elem? offsets i
byte_at offsets (negsuc i) = none

unfoldable pub raw_detection : Unicode → Str → RawDetection → ℕ → ℕ → Option Detection
raw_detection u text d start end =
    let found = if is_empty d.text then byte_slice text start end else d.text in
    if is_empty (trim_space u found)
    then none
    else some (record {
      entity_type = d.entity_type;
      start = start;
      end = end;
      score = d.score;
      text = found;
    })

-- One round of the loop over the answer: none if the element is skipped.
unfoldable pub keep_raw : Unicode → Str → RawDetection → Option Detection
unfolding rune_byte_offsets byte_at raw_detection
keep_raw u text d =
    if is_empty d.entity_type || not (ltbℤ d.start d.end)
    then none
    else elim (byte_at (rune_byte_offsets text) d.start) [
      | none ↦ none
      | some start ↦ elim (byte_at (rune_byte_offsets text) d.end) [
        | none ↦ none
        | some end ↦ raw_detection u text d start end
      ]
    ]

unfoldable pub keep_all : Unicode → Str → List RawDetection → List Detection
keep_all u text [] = []
keep_all u text (d ∷ ds) =
    let rest = keep_all u text ds in elim (keep_raw u text d) [ none ↦ rest | some x ↦ x ∷ rest ]

unfoldable pub analyze_reply :
    Unicode → (List ℕ → DecodedBody) → Str → Reply → Result (List Detection)
unfolding keep_all
analyze_reply u decode text (lost e) = err (send_failure e presidio_unavailable)
analyze_reply u decode text (replied status body) =
    if leb 500 status
    then err presidio_unavailable
    else if leb 400 status
    then err presidio_unavailable
    else elim body [
      | none ↦ err presidio_malformed
      | some bytes ↦ elim (decode bytes) [
        | eof ↦ ok []
        | bad_json ↦ err presidio_malformed
        | elements ds ↦ ok (keep_all u text ds)
      ]
    ]

module _ {S : Type 0} (u : Unicode) (decode : List ℕ → DecodedBody)
    (post : Str → List Str → Str → ℕ → S → S × Reply) where
  -- Analyze.
  unfoldable pub analyze : AnalyzerConfig → Str → List Str → Str → Task S (List Detection)
  unfolding analyze_reply
  analyze cfg text entities language s =
      let asked = if is_empty language then codes "en" else language in
      let (s', reply) = post text entities asked cfg.score_threshold s in
      if is_empty text || length entities == 0
      then (s, ok [])
      else (s', analyze_reply u decode text reply)
