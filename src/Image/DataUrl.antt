-- ===== src/Image/DataUrl.antt =====
-- internal/image/dataurl.go: data URLs and the download of an image. Base64 and the HTTP client are
-- parameters.
use palena_litellm_pseudonym.Base.{
  ℕ, suc, ◌≡◌, Bool, true, false, not, List, [], ◌∷◌, ◌++◌, Option, none, some, leb, ◌==◌,
  if◌then◌else◌, length, take,
}
use palena_litellm_pseudonym.GoLib.Strings.{Str, codes, is_empty, text_eq, contains}
use palena_litellm_pseudonym.GoLib.Decimal.{max_int}
use palena_litellm_pseudonym.GoLib.Unicode.{Unicode, trim_space}
use palena_litellm_pseudonym.Errs.{Result, ok, err, other}
use palena_litellm_pseudonym.GoLib.Int.{ℤ, pos, negsuc, ltbℤ}
use palena_litellm_pseudonym.GoLib.Cuts.{cut, split_on, after_prefix}

pub record Payload : Type 0 where
  pub bytes : List ℕ
  pub media_type : Str

-- encoding/base64: StdEncoding, and RawStdEncoding for decoding without padding.
pub record Base64 : Type 0 where
  pub encode : List ℕ → Str
  pub decode : Str → Option (List ℕ)
  pub decode_raw : Str → Option (List ℕ)
  pub decode-encode : (bytes : List ℕ) → decode (encode bytes) ≡ some bytes

pub data Decoded : Type 0 where
  not_data_url malformed : Decoded
  decoded : Payload → Decoded

-- The parameters in front of the comma: the media type and whether base64 is among them.
pub record Metadata : Type 0 where
  pub media_type : Str
  pub is_base64 : Bool

unfoldable pub read_part : Str → Metadata → Metadata
read_part p md =
    if is_empty p
    then md
    else if text_eq p (codes "base64")
    then record { media_type = md.media_type; is_base64 = true }
    else if contains p (codes "/")
    then record { media_type = p; is_base64 = md.is_base64 }
    else md

unfoldable pub read_parts : Unicode → List Str → Metadata → Metadata
unfolding read_part
read_parts u [] md = md
read_parts u (part ∷ parts) md = read_parts u parts (read_part (trim_space u part) md)

module _ (u : Unicode) (b64 : Base64) where
  unfoldable pub decode_payload : Str → Option (List ℕ)
  decode_payload payload = elim (b64.decode payload) [
    | some raw ↦ some raw
    | none ↦ b64.decode_raw payload
  ]

  unfoldable pub decode_rest : Str → Str → Decoded
  unfolding read_parts decode_payload
  decode_rest metadata payload =
      let md =
        read_parts u (split_on b';' metadata) (record { media_type = []; is_base64 = false }) in
      if not md.is_base64 then malformed else elim (decode_payload payload) [
        | none ↦ malformed
        | some raw ↦ decoded (record { bytes = raw; media_type = md.media_type })
      ]

  unfoldable pub decode_data_url : Str → Decoded
  unfolding decode_rest
  decode_data_url s = elim (after_prefix (codes "data:") s) [
    | none ↦ not_data_url
    | some rest ↦ elim (cut b',' rest) [
      | none ↦ malformed
      | some (metadata, payload) ↦ decode_rest metadata payload
    ]
  ]

  unfoldable pub media_or_png : Str → Str
  media_or_png media_type = if is_empty media_type then codes "image/png" else media_type

  unfoldable pub encode_data_url : Str → List ℕ → Str
  unfolding media_or_png
  encode_data_url media_type bytes =
      codes "data:" ++ (media_or_png media_type ++ (codes ";base64," ++ b64.encode bytes))

-- An answer to the download: the status, the body up to what the limit lets through (none if
-- reading fails), the Content-Type.
pub data Fetched : Type 0 where
  failed : Fetched
  answered : ℕ → Option (List ℕ) → Str → Fetched

-- io.LimitReader with maxBytes+1, in an int64.
unfoldable pub read_limit : ℤ → ℕ
read_limit (pos m) = if m == max_int then 0 else suc m
read_limit (negsuc m) = 0

unfoldable pub fetch_reply : Unicode → ℤ → Fetched → Result Payload
unfolding read_limit
fetch_reply u max_bytes failed = err other
fetch_reply u max_bytes (answered status body content_type) =
    if leb 400 status then err other else elim body [
      | none ↦ err other
      | some all_bytes ↦
          let bytes = take (read_limit max_bytes) all_bytes in
          if ltbℤ max_bytes (pos (length bytes))
          then err other
          else ok (record {
            bytes = bytes;
            media_type = elim (cut b';' content_type) [
              | none ↦ content_type
              | some (before, after) ↦ trim_space u before
            ];
          })
    ]
