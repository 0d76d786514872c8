-- ===== src/Tests/Terms.antt =====
-- The detectors and the deny list at concrete inputs.
use palena_litellm_pseudonym.Base.{
  ℕ, suc, ◌<◌, ◌≡◌, inl, refl, List, [], ◌∷◌, map, Option, none, some, arith, length, In, All,
}
use palena_litellm_pseudonym.GoLib.Strings.{Str, codes, byte_len, text_eq}
use palena_litellm_pseudonym.GoLib.Dict.{get}
use palena_litellm_pseudonym.Errs.{ok}
use palena_litellm_pseudonym.GoLib.Decimal.{decimal}
use palena_litellm_pseudonym.GoLib.Http.{Reply, replied}
use palena_litellm_pseudonym.GoLib.Int.{pos}
use palena_litellm_pseudonym.GoLib.Order.{sort_by, insert_by}
use palena_litellm_pseudonym.GoLib.Slices.{byte_slice, byte_take, byte_drop}
use palena_litellm_pseudonym.Ner.{
  Span, detect, new_batch_size, detect_batches, detect_batch, detect_reply,
}
use palena_litellm_pseudonym.Ner.Batches.{detect-length}
use palena_litellm_pseudonym.Presidio.{Detection}
use palena_litellm_pseudonym.Presidio.Analyzer.{rune_byte_offsets, byte_at, offsets_from}
use palena_litellm_pseudonym.Tests.Samples.{ascii}
use palena_litellm_pseudonym.Text.Denylist.{
  DenyMatcher, Match, find, find_all, matches_of, is_word_rune, word_boundary,
}
use palena_litellm_pseudonym.Text.Denylist.Laws.{IsListed, find-IsListed, find-covers}
use palena_litellm_pseudonym.Text.Detector.{
  NerClient, spans_for, names_found, best_of_units, best_of_unit, span_bytes, name_detection,
  keep_best,
}
use palena_litellm_pseudonym.Text.Detector.Asking.{spans_for_lem}
use palena_litellm_pseudonym.Text.Detector.Names.{Beats, names_found-covers}
use palena_litellm_pseudonym.Text.Replacer.{match_key}
use palena_litellm_pseudonym.Text.Units.{TextUnit}

abbrev company : DenyMatcher
company = record { by_entity = (codes "ORGANIZATION", codes "Contoso" ∷ []) ∷ [] }

abbrev at_contoso : Str
at_contoso = codes "at contoso!"

find-IsListed_example :
    All (IsListed ascii at_contoso company.by_entity) (find ascii (some company) at_contoso)
find-IsListed_example = find-IsListed ascii at_contoso company

abbrev contoso : Match
contoso = record {
  start = 3;
  end = 10;
  before = some b' ';
  after = some b'!';
  text = codes "contoso";
}

find-covers_example :
    (d : Detection) × In d (find ascii (some company) at_contoso) × (3 < d.end) × (d.start < 10)
unfolding matches_of find_all match_key byte_len word_boundary is_word_rune
find-covers_example =
    find-covers ascii at_contoso company (codes "ORGANIZATION") (codes "Contoso" ∷ [])
      (codes "Contoso") contoso (inl refl) (inl refl) (inl refl) refl refl (omega arith)

abbrev name_span : Span
name_span = record { label = codes "name"; start = pos 3; end = pos 6; score = 90 }

abbrev name_labels : List (Str × Str)
name_labels = (codes "name", codes "PERSON") ∷ []

abbrev hi_unit : TextUnit
hi_unit = record { offset = 0; text = codes "hi Max" }

abbrev max_found : Detection
max_found = record {
  entity_type = codes "PERSON";
  start = 3;
  end = 6;
  score = 90;
  text = codes "Max";
}

names_found-covers_example :
    (range : ℕ × ℕ) × (span_bytes (codes "hi Max") name_span ≡ some range)
    × Beats (max_found ∷ []) (name_detection (codes "hi Max") (codes "PERSON") 0 name_span range)
unfolding names_found best_of_units best_of_unit span_bytes rune_byte_offsets byte_at offsets_from
    name_detection keep_best byte_slice byte_take byte_drop get text_eq sort_by insert_by
names_found-covers_example =
    names_found-covers (codes "hi Max") name_labels (hi_unit ∷ []) ((name_span ∷ []) ∷ [])
      (max_found ∷ []) hi_unit (name_span ∷ []) name_span (codes "PERSON") refl (inl refl)
      (inl refl) refl refl

-- A model that finds one name of the text's length in every text.
abbrev whole_name : Str → List Span
whole_name t = record { label = codes "name"; start = pos 0; end = pos (length t); score = 90 } ∷ []

abbrev model : NerClient ℕ
model ask labels threshold w = (suc w, ok (map whole_name ask))

abbrev three_texts : List Str
three_texts = codes "Max" ∷ codes "Bo" ∷ codes "Max" ∷ []

spans_for_lem_example :
    (w' : ℕ) × (spans_for
        (λ s. s)
        decimal
        (λ w. w)
        model
        50
        three_texts
        (codes "name" ∷ [])
        (record { cache = none; world = 0 })
      ≡ (record { cache = none; world = w' }, ok (map whole_name three_texts)))
spans_for_lem_example =
    spans_for_lem (λ s. s) decimal (λ w. w) model whole_name 50 three_texts (codes "name" ∷ []) 0
      (λ ask distinct. (1, refl))

-- A server whose answer has one byte for each text.
abbrev decode_spans : List ℕ → Option (List (List Span))
decode_spans bytes = some (map (λ b. []) bytes)

abbrev post_texts : List Str → List Str → ℕ → ℕ → ℕ × Reply
post_texts texts labels threshold s = (suc s, replied 200 (some (map (λ t. 0) texts)))

abbrev no_spans : List (List Span)
no_spans = [] ∷ [] ∷ [] ∷ []

detect-length_example : length no_spans ≡ length three_texts
unfolding detect new_batch_size detect_batches detect_batch detect_reply
detect-length_example =
    detect-length decode_spans post_texts (record { batch_size = pos 2 }) three_texts
      (codes "name" ∷ []) 50 0 2 no_spans refl
