-- ===== src/Text/Handler.antt =====
-- internal/text/handler.go: Pseudonymize, Reverse and ReverseStream, over the interfaces Detector and
-- mapping.Store. A store and a detector share the state of the world, which both may change.
pub mod Laws
pub mod Redis
use palena_litellm_pseudonym.Base.{
  ℕ, zero, suc, ◌+◌, ◌-◌, ◌*◌, ◌/◌, ◌%◌, ◌^◌, ◌≤◌, ◌<◌, ◌≡◌, ◌≢◌, ◌↔◌, ◌⊎◌, inl, inr, refl, sym, ap,
  subst, ◌∙◌, Bool, true, false, ◌&&◌, ◌||◌, not, List, [], ◌∷◌, ◌++◌, map, append_assoc,
  append-nil, Option, none, some, arith, ltb, leb, ◌==◌, if◌then◌else◌, Bool-cases, Option-cases,
  &&-eq-true, ||-eq-true, ||-eq-false, bool_ext, ==_iff, ==_refl, leb→le, ltb→lt, lt→ltb, length,
  take, drop, get_elem?, all, any, keep, length-append, take-append-drop, length-take, length-drop,
  take_all, take-append, drop-append, length-keep-le, length-map, In, Distinct, All, In-append_left,
  In-append_right, All-In, pigeonhole, In-map,
}
use palena_litellm_pseudonym.GoLib.Strings.{
  Str, codes, raw_byte, replacement_char, width, byte_len, is_empty, text_eq, text_eq_iff,
  text_eq_refl, text_eq-false, starts_with, contains, elem, elem_iff, infixes, In-infixes,
  width_pos, byte_len-append,
}
use palena_litellm_pseudonym.GoLib.Dict.{
  get, put, has, keys, get-put, get-put_self, get-put_ne, has-false, has_of_get, put_new,
  get-append, In-keys_of_get, get_of_In-keys,
}
use palena_litellm_pseudonym.GoLib.Unicode.{
  Unicode, lower, upper, equal_fold, lower-lower, trim_left, trim_right, trim, trim_space, fields,
}
use palena_litellm_pseudonym.Audit.{normalize_entity_type, add_count}
use palena_litellm_pseudonym.Errs.{Task, ◌>>=◌, return}
use palena_litellm_pseudonym.Mapping.Merge.{Mapping}
use palena_litellm_pseudonym.Presidio.{Detection}
use palena_litellm_pseudonym.Text.Assign.{Settings, assign_new}
use palena_litellm_pseudonym.Text.Filters.{
  filter_by_entity_type, filter_score, filter_allow_list, filter_implausible,
}
use palena_litellm_pseudonym.Text.Holdback.{compute_holdback}
use palena_litellm_pseudonym.Text.Replacer.{replace}

-- mapping.Store, as far as the handlers use it.
pub record Store : Type 1 where
  pub World : Type 0
  pub get_mapping : Str → Task World Mapping
  pub add_mappings : Str → Mapping → Task World Mapping
  pub get_reverse_mapping : Str → Task World Mapping

pub record Handler : Type 0 where
  pub settings : Settings
  pub entities : List Str
  pub threshold : ℕ
  pub thresholds : List (Str × ℕ)

pub record PseudonymizeResult : Type 0 where
  pub text : Str
  pub entities_detected : ℕ
  pub new_mappings_created : ℕ
  pub entity_type_counts : List (Str × ℕ)
  pub session_mapping_size : ℕ

pub record ReverseStreamResult : Type 0 where
  pub texts : List Str
  pub holdbacks : List ℕ
  pub modified : Bool

unfoldable pub count_types : List Detection → List (Str × ℕ) → List (Str × ℕ)
count_types [] counts = counts
count_types (d ∷ ds) counts =
    count_types ds (add_count (normalize_entity_type d.entity_type) 1 counts)

-- The four filters, in the order of the code.
unfoldable pub filter_all : Unicode → Handler → List Detection → List Detection
filter_all u h detections = filter_implausible u (
    filter_allow_list u h.settings.allow_list
      (filter_score h.threshold h.thresholds (filter_by_entity_type detections h.entities)))

module _ (u : Unicode) (mac : Str → Str → List ℕ) (h : Handler) (st : Store)
    (detect : Str → Task st.World (List Detection)) where
  finish : Str → List Detection → ℕ → Mapping → PseudonymizeResult
  finish text filtered created merged = record {
    text = replace u text merged;
    entities_detected = length filtered;
    new_mappings_created = created;
    entity_type_counts = count_types filtered [];
    session_mapping_size = length merged;
  }

  add_new : Str → Mapping → Mapping → Task st.World Mapping
  add_new session_id existing [] = return existing
  add_new session_id existing (e ∷ new_map) = st.add_mappings session_id (e ∷ new_map)

  last_step : Str → List Detection → ℕ → Mapping → Task st.World PseudonymizeResult
  unfolding finish
  last_step text filtered created merged = return (finish text filtered created merged)

  -- The steps behind the second GetMapping of the code.
  assign_step : Str → Str → List Detection → Mapping → Task st.World PseudonymizeResult
  unfolding add_new last_step
  assign_step text session_id filtered existing =
      let new_map = assign_new u mac h.settings filtered existing (lower u text) in
      add_new session_id existing new_map >>= last_step text filtered (length new_map)

  pseudonymize_filtered : Str → Str → List Detection → Task st.World PseudonymizeResult
  unfolding last_step assign_step
  pseudonymize_filtered text session_id [] = st.get_mapping session_id >>= last_step text [] 0
  pseudonymize_filtered text session_id (d ∷ filtered) =
      st.get_mapping session_id >>= assign_step text session_id (d ∷ filtered)

  detected_step : Str → Str → List Detection → Task st.World PseudonymizeResult
  unfolding pseudonymize_filtered
  detected_step text session_id detections =
      pseudonymize_filtered text session_id (filter_all u h detections)

  untouched : Str → PseudonymizeResult
  untouched text = record {
    text = text;
    entities_detected = 0;
    new_mappings_created = 0;
    entity_type_counts = [];
    session_mapping_size = 0;
  }

  unfoldable pub pseudonymize : Str → Str → Task st.World PseudonymizeResult
  unfolding detected_step untouched
  pseudonymize text session_id =
      if is_empty (trim_space u text)
      then return (untouched text)
      else detect text >>= detected_step text session_id

module _ (u : Unicode) (st : Store) where
  unfoldable pub reverse : Str → Str → Task st.World Str
  reverse text session_id =
      if is_empty text
      then return text
      else st.get_reverse_mapping session_id >>= λ rev.
          return (if length rev == 0 then text else replace u text rev)

  -- The loop over the texts; `names` are the keys of the reverse mapping.
  unfoldable pub stream_texts : Mapping → List Str → List Str → ReverseStreamResult
  stream_texts rev names [] = record { texts = []; holdbacks = []; modified = false }
  stream_texts rev names (raw ∷ rest) =
      let later = stream_texts rev names rest in
      let rewritten = replace u raw rev in
      record {
        texts = rewritten ∷ later.texts;
        holdbacks = compute_holdback u rewritten names ∷ later.holdbacks;
        modified = not (text_eq rewritten raw) || later.modified;
      }

  unfoldable pub zeros : List Str → List ℕ
  zeros [] = []
  zeros (t ∷ ts) = 0 ∷ zeros ts

  unfoldable pub reverse_stream : List Str → Str → Task st.World ReverseStreamResult
  reverse_stream [] session_id = return (record { texts = []; holdbacks = []; modified = false })
  reverse_stream (t ∷ texts) session_id = st.get_reverse_mapping session_id >>= λ rev. return (
      if length rev == 0
      then record { texts = t ∷ texts; holdbacks = zeros (t ∷ texts); modified = false }
      else stream_texts rev (keys rev) (t ∷ texts))
