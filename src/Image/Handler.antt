-- ===== src/Image/Handler.antt =====
-- internal/image/handler.go: the images of a request, one after the other. The store, the redactor,
-- the download (`fetch`) and base64 are parameters.
use palena_litellm_pseudonym.Base.{
  ℕ, ◌+◌, Bool, true, false, ◌&&◌, ◌||◌, not, List, [], ◌∷◌, ◌++◌, Option, none, some, ltb, ◌==◌,
  if◌then◌else◌, length, keep,
}
use palena_litellm_pseudonym.GoLib.Strings.{Str, codes, byte_len, is_empty, text_eq, elem}
use palena_litellm_pseudonym.GoLib.Unicode.{Unicode, lower, trim_space}
use palena_litellm_pseudonym.Audit.{normalize_entity_type, add_count, add_counts}
use palena_litellm_pseudonym.Errs.{Result, ok, err, image_fetch_failed}
use palena_litellm_pseudonym.GoLib.Cuts.{replace_first, join}
use palena_litellm_pseudonym.GoLib.Int.{ℤ, pos, is_positive}
use palena_litellm_pseudonym.GoLib.Order.{text_lt, sort_by}
use palena_litellm_pseudonym.Image.DataUrl.{Payload}
use palena_litellm_pseudonym.Mapping.Merge.{Mapping}
use palena_litellm_pseudonym.Presidio.ImageRedactor.{ImageDetection}
use palena_litellm_pseudonym.Pseudonymizer.{ImageCounters, ImageOutcome}
use palena_litellm_pseudonym.Text.Assign.{Progress, register, is_known, add_components}
use palena_litellm_pseudonym.Text.Components.{component_mappings}
use palena_litellm_pseudonym.Text.Pools.{Pools, assign}
use palena_litellm_pseudonym.Text.Strategy.{Strategizer, assign_name, values}

abbrev pub action_redact : Str
action_redact = codes "redact"

abbrev pub action_block : Str
action_block = codes "block"

abbrev pub action_passthrough : Str
action_passthrough = codes "passthrough"

pub record HandlerConfig : Type 0 where
  pub pools : Pools
  pub strategizer : Option Strategizer
  pub entities : List Str
  pub pii_action : Str
  pub block_message_tmpl : Str
  pub max_image_bytes : ℤ
  pub max_images_per_request : ℤ
  pub redact_color : Str
  pub decompose_person_names : Bool
  pub allow_list : List Str

abbrev default_block_message : Str
default_block_message =
    codes
      "This attachment contains personal data ({entity_types}) that cannot be pseudonymized. Please remove sensitive information and try again."

or_default : Str → Str → Str
or_default s default_value = if is_empty s then default_value else s

-- NewHandler; 20 MiB is the default size.
unfoldable pub new_handler : HandlerConfig → HandlerConfig
unfolding or_default
new_handler cfg = record {
  pools = cfg.pools;
  strategizer = cfg.strategizer;
  entities = cfg.entities;
  pii_action = or_default cfg.pii_action action_redact;
  block_message_tmpl = or_default cfg.block_message_tmpl default_block_message;
  max_image_bytes = if is_positive cfg.max_image_bytes then cfg.max_image_bytes else pos 20_971_520;
  max_images_per_request =
      if is_positive cfg.max_images_per_request then cfg.max_images_per_request else pos 20;
  redact_color = or_default cfg.redact_color (codes "0, 0, 0");
  decompose_person_names = cfg.decompose_person_names;
  allow_list = cfg.allow_list;
}

pub record ProcessResult : Type 0 where
  pub output_url : Str
  pub blocked : Bool
  pub entities_detected : ℕ
  pub entity_type_counts : List (Str × ℕ)
  pub redacted : Bool
  pub ocr_enriched : Bool

unfoldable pub filter_detections : List ImageDetection → List Str → List ImageDetection
filter_detections dets allowed =
    if length allowed == 0 then dets else keep (λ d. elem d.entity_type allowed) dets

unfoldable pub count_image_types : List ImageDetection → List (Str × ℕ) → List (Str × ℕ)
count_image_types [] counts = counts
count_image_types (d ∷ ds) counts =
    count_image_types ds (add_count (normalize_entity_type d.entity_type) 1 counts)

unfoldable pub bytes_differ : List ℕ → List ℕ → Bool
bytes_differ a b = if not (length a == length b) then true else not (text_eq a b)

-- Longest first, then alphabetical.
unfoldable pub image_precedes : ImageDetection → ImageDetection → Bool
image_precedes a b =
    if byte_len a.text == byte_len b.text
    then text_lt a.text b.text
    else ltb (byte_len b.text) (byte_len a.text)

-- The block message for the types found; sort.Strings puts them in order.
unfoldable pub block_reason : Str → List Str → Str
unfolding replace_first join
block_reason tmpl types =
    replace_first (codes "{entity_types}")
      (join (codes ", ") (sort_by (λ a b. not (text_lt b a)) types)) tmpl

-- blockEntities[k] = struct{}{} for the keys of the counts.
unfoldable pub add_types : List (Str × ℕ) → List Str → List Str
add_types [] types = types
add_types ((k, n) ∷ counts) types =
    add_types counts (if elem k types then types else types ++ k ∷ [])

-- What the loop over the images carries.
pub record Tally : Type 0 where
  pub counters : ImageCounters
  pub modified : Bool
  pub blocked_any : Bool
  pub block_entities : List Str

unfoldable pub no_images : ImageCounters
no_images = record { total = 0; with_pii = 0; redacted = 0; entities_detected = 0; per_image = [] }

unfoldable pub start_tally : Tally
unfolding no_images
start_tally = record {
  counters = no_images;
  modified = false;
  blocked_any = false;
  block_entities = [];
}

unfoldable pub count_result : ProcessResult → ImageCounters → ImageCounters
count_result res c = record {
  total = c.total + 1;
  with_pii = if ltb 0 res.entities_detected then c.with_pii + 1 else c.with_pii;
  redacted = if res.redacted then c.redacted + 1 else c.redacted;
  entities_detected = c.entities_detected + res.entities_detected;
  per_image = add_counts c.per_image res.entity_type_counts;
}

-- The output for one entry, none for an entry that was skipped. That of a blocked image is empty.
unfoldable pub shown : Str → Option ProcessResult → Str
shown raw none = raw
shown raw (some res) =
    if res.blocked then [] else if is_empty res.output_url then raw else res.output_url

unfoldable pub tally : Str → Option ProcessResult → Tally → Tally
unfolding count_result
tally raw none t = t
tally raw (some res) t = record {
  counters = count_result res t.counters;
  modified =
      t.modified
      || (not res.blocked && (not (is_empty res.output_url) && not (text_eq res.output_url raw)));
  blocked_any = t.blocked_any || res.blocked;
  block_entities =
      if res.blocked then add_types res.entity_type_counts t.block_entities else t.block_entities;
}

unfoldable pub image_outcome : HandlerConfig → List Str → Tally → ImageOutcome
image_outcome cfg outputs t =
    if t.blocked_any
    then record {
      images = [];
      block = some (record { reason = block_reason cfg.block_message_tmpl t.block_entities });
      modified = false;
      counters = t.counters;
    }
    else record { images = outputs; block = none; modified = t.modified; counters = t.counters }

module _ (u : Unicode) (mac : Str → Str → List ℕ) (cfg : HandlerConfig) where
  -- The pseudonym of a name in an image: there is no text around it to reserve.
  unfoldable pub assign_image : Str → Str → List (Str × Str) → Str
  assign_image entity_type name scratch = elim cfg.strategizer [
    | some st ↦ assign_name u mac st entity_type name scratch []
    | none ↦ assign u cfg.pools entity_type (values scratch) []
  ]

  -- One round of the loop of shareWithMapping. The components meet no allow-list.
  unfoldable pub share_one : ImageDetection → Progress → Progress
  unfolding assign_image
  share_one d st =
      let name = trim_space u d.text in
      let p = assign_image d.entity_type name st.scratch in
      if elem (lower u name) cfg.allow_list
      then st
      else if is_known u st name
      then st
      else if cfg.decompose_person_names && text_eq d.entity_type (codes "PERSON")
      then add_components u [] (component_mappings u name p) (register name p st)
      else register name p st

  unfoldable pub share_all : List ImageDetection → Progress → Progress
  share_all [] st = st
  share_all (d ∷ ds) st = share_all ds (share_one d st)

  unfoldable pub image_mapping : List ImageDetection → Mapping → Mapping
  image_mapping detections existing =
      let named = keep (λ d. not (is_empty (trim_space u d.text))) detections in
      (share_all (sort_by image_precedes named)
        (record { new_map = []; scratch = existing })).new_map

-- `detections, _ := Analyze(…)`
unfoldable pub dropping_error : {S A : Type 0} → S × Result (List A) → S × Result (List A)
dropping_error (s, ok ds) = (s, ok ds)
dropping_error (s, err e) = (s, ok [])

-- Any failure of the download counts as the same error.
unfoldable pub fetched : {S : Type 0} → S × Result Payload → S × Result (Option Payload)
fetched (s, ok p) = (s, ok (some p))
fetched (s, err e) = (s, err image_fetch_failed)
