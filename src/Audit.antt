-- ===== src/Audit.antt =====
-- internal/audit/audit.go: the entity types that are counted, and the counters of a request.
use palena_litellm_pseudonym.Base.{ℕ, ◌+◌, List, [], ◌∷◌, none, some, if◌then◌else◌}
use palena_litellm_pseudonym.GoLib.Strings.{Str, codes, elem}
use palena_litellm_pseudonym.GoLib.Dict.{get, put}

-- NormalizeEntityType: a type that is not counted by name is OTHER.
unfoldable pub normalize_entity_type : Str → Str
normalize_entity_type raw =
    if elem raw (codes "PERSON" ∷ codes "ORGANIZATION" ∷ codes "LOCATION" ∷ [])
    then raw
    else codes "OTHER"

-- m[k] += n
unfoldable pub add_count : Str → ℕ → List (Str × ℕ) → List (Str × ℕ)
add_count k n m = put k (elim (get k m) [ none ↦ n | some old ↦ old + n ]) m

-- for k, v := range m { total[k] += v }
unfoldable pub add_counts : List (Str × ℕ) → List (Str × ℕ) → List (Str × ℕ)
add_counts total [] = total
add_counts total ((k, v) ∷ m) = add_counts (add_count k v total) m

pub record Counters : Type 0 where
  pub entities_detected : ℕ
  pub entities_pseudonymized : ℕ
  pub new_mappings_created : ℕ
  pub entity_types : List (Str × ℕ)
  pub images_processed : ℕ
  pub images_pii_found : ℕ
  pub images_redacted : ℕ
  pub documents_processed : ℕ
  pub session_mapping_size : ℕ

unfoldable pub new_counters : Counters
new_counters = record {
  entities_detected = 0;
  entities_pseudonymized = 0;
  new_mappings_created = 0;
  entity_types = [];
  images_processed = 0;
  images_pii_found = 0;
  images_redacted = 0;
  documents_processed = 0;
  session_mapping_size = 0;
}
