-- ===== src/Text/Assign.antt =====
-- Handler.assignNew of internal/text/handler.go: the pseudonyms of the detections that the session
-- does not know yet. A map that is ranged over is taken in the order of its list.
pub mod Known
pub mod Dedup
pub mod Covers
pub mod Grows
pub mod Injective
use palena_litellm_pseudonym.Base.{
  ℕ, zero, suc, ◌+◌, ◌-◌, ◌*◌, ◌/◌, ◌%◌, ◌^◌, ◌≤◌, ◌<◌, ◌≡◌, ◌≢◌, ◌↔◌, ◌⊎◌, inl, inr, refl, sym, ap,
  subst, ◌∙◌, Bool, true, false, ◌&&◌, ◌||◌, not, List, [], ◌∷◌, ◌++◌, map, append_assoc,
  append-nil, Option, none, some, arith, ltb, leb, ◌==◌, if◌then◌else◌, Bool-cases, Option-cases,
  &&-eq-true, ||-eq-true, ||-eq-false, bool_ext, ==_iff, ==_refl, leb→le, ltb→lt, lt→ltb, length,
  take, drop, get_elem?, all, any, keep, length-append, take-append-drop, length-take, length-drop,
  take_all, take-append, drop-append, length-keep-le, length-map, In, Distinct, All, In-append_left,
  In-append_right, All-In, pigeonhole, In-map,
}
use palena_litellm_pseudonym.GoLib.Strings.{
  Str, codes, raw_byte, replacement_char, width, byte_len, is_empty, text_eq, text_eq_iff,
  text_eq_refl, text_eq-false, starts_with, contains, elem, elem_iff, infixes, In-infixes,
}
use palena_litellm_pseudonym.GoLib.Dict.{
  get, put, has, keys, get-put, get-put_self, get-put_ne, has-false, has_of_get, put_new,
  get-append, In-keys_of_get, get_of_In-keys,
}
use palena_litellm_pseudonym.GoLib.Unicode.{
  Unicode, lower, upper, equal_fold, lower-lower, trim_left, trim_right, trim, trim_space, fields,
}
use palena_litellm_pseudonym.GoLib.Order.{text_lt, sort_by}
use palena_litellm_pseudonym.Presidio.{Detection}
use palena_litellm_pseudonym.Text.Components.{component_mappings}
use palena_litellm_pseudonym.Text.Strategy.{Strategizer, assign_name}

-- The fields of text.Handler that the assignment reads.
pub record Settings : Type 0 where
  pub strat : Strategizer
  pub decompose : Bool
  pub allow_list : List Str

-- De-dup by trimmed text: the higher score wins.
unfoldable pub dedup_step : Unicode → Detection → List (Str × Detection) → List (Str × Detection)
dedup_step u d by_text =
    let trimmed = trim_space u d.text in
    let entry : Detection = record d { start = 0; end = 0; text = trimmed } in
    if is_empty trimmed then by_text else elim (get trimmed by_text) [
      | none ↦ put trimmed entry by_text
      | some prev ↦ if leb d.score prev.score then by_text else put trimmed entry by_text
    ]

unfoldable pub dedup : Unicode → List Detection → List (Str × Detection) → List (Str × Detection)
dedup u [] by_text = by_text
dedup u (d ∷ ds) by_text = dedup u ds (dedup_step u d by_text)

-- Longest first, then alphabetical.
unfoldable pub precedes : Detection → Detection → Bool
precedes a b =
    if byte_len a.text == byte_len b.text
    then text_lt a.text b.text
    else ltb (byte_len b.text) (byte_len a.text)

-- hasCaseInsensitiveKey
unfoldable pub has_case_insensitive_key : Unicode → List (Str × Str) → Str → Bool
has_case_insensitive_key u [] key = false
has_case_insensitive_key u ((k, v) ∷ m) key =
    text_eq (lower u k) (lower u key) || has_case_insensitive_key u m key

-- What the loop of assignNew carries: the new mappings, and what the merged mapping will be.
pub record Progress : Type 0 where
  pub new_map : List (Str × Str)
  pub scratch : List (Str × Str)

unfoldable pub register : Str → Str → Progress → Progress
register name pseudo st = record {
  new_map = put name pseudo st.new_map;
  scratch = put name pseudo st.scratch;
}

unfoldable pub is_known : Unicode → Progress → Str → Bool
is_known u st name = has name st.scratch || has_case_insensitive_key u st.scratch name

-- The loop over ComponentMappings.
unfoldable pub add_components : Unicode → List Str → List (Str × Str) → Progress → Progress
add_components u allow_list [] st = st
add_components u allow_list ((name, pseudo) ∷ rest) st = add_components u allow_list rest (
    if elem (lower u name) allow_list
    then st
    else if is_known u st name
    then st
    else register name pseudo st)

-- One round of the loop over the sorted detections.
unfoldable pub assign_one :
    Unicode → (Str → Str → List ℕ) → Settings → Str → Detection → Progress → Progress
assign_one u mac h reserved d st =
    if is_known u st d.text
    then st
    else let p = assign_name u mac h.strat d.entity_type d.text st.scratch reserved in
      if h.decompose && text_eq d.entity_type (codes "PERSON")
      then add_components u h.allow_list (component_mappings u d.text p) (register d.text p st)
      else register d.text p st

unfoldable pub assign_all :
    Unicode → (Str → Str → List ℕ) → Settings → Str → List Detection → Progress → Progress
assign_all u mac h reserved [] st = st
assign_all u mac h reserved (d ∷ ds) st =
    assign_all u mac h reserved ds (assign_one u mac h reserved d st)

-- The deduplicated detections in the order of the loop.
unfoldable pub sorted_detections : Unicode → List Detection → List Detection
sorted_detections u detections = sort_by precedes (map (λ e. e.1) (dedup u detections []))

unfoldable pub assign_new :
    Unicode
    → (Str → Str → List ℕ)
    → Settings
    → List Detection
    → List (Str × Str)
    → Str
    → List (Str × Str)
assign_new u mac h detections existing reserved =
    (assign_all u mac h reserved (sorted_detections u detections)
      (record { new_map = []; scratch = existing })).new_map
