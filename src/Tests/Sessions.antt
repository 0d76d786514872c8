-- ===== src/Tests/Sessions.antt =====
-- The mapping store on the concrete server.
use palena_litellm_pseudonym.Base.{
  ◌≡◌, ◌≢◌, inl, inr, refl, [], ◌∷◌, map, none, some, arith, Distinct,
}
use palena_litellm_pseudonym.GoLib.Strings.{Str, codes, text_eq}
use palena_litellm_pseudonym.GoLib.Dict.{get, put, has, keys}
use palena_litellm_pseudonym.Tests.Samples.{
  plain_json, memory_redis, Memory, empty_memory, apart_of_test,
}
use palena_litellm_pseudonym.Errs.{ok}
use palena_litellm_pseudonym.Mapping.{
  RedisStore, session_key, mapping_field, payload, get_mapping, decode_existing, write_back,
  merge_table, add_script, add_mappings, delete,
}
use palena_litellm_pseudonym.Mapping.Laws.{
  mapping_of, IsSound, add_mappings_lem, add_mappings_short_ttl,
}
use palena_litellm_pseudonym.Mapping.Merge.{Mapping, reverse_of}
use palena_litellm_pseudonym.Mapping.Reach.{adds, erases, here, next, Reach-Holds}
use palena_litellm_pseudonym.Mapping.Reverse.{get-reverse_of}

abbrev store : RedisStore
store = record { key_prefix = codes "p"; ttl = 3600000 }

abbrev hasty_store : RedisStore
hasty_store = record { key_prefix = codes "p"; ttl = 500 }

abbrev max_lee : Mapping
max_lee = (codes "Max", codes "Ann Lee") ∷ []

abbrev eva_ray : Mapping
eva_ray = (codes "Eva", codes "Bo Ray") ∷ []

abbrev after_add : Memory
after_add = (add_mappings memory_redis plain_json store (codes "s") max_lee empty_memory).0

-- What was added is read back, and another session does not see it.
get_mapping-add_mappings :
    (get_mapping memory_redis plain_json store (codes "s") after_add).1 ≡ ok max_lee
unfolding get_mapping add_mappings add_script decode_existing write_back payload session_key
    mapping_field get put has text_eq merge_table
get_mapping-add_mappings = refl

nothing_stored :
    (cfg : RedisStore)
    → decode_existing memory_redis plain_json cfg
        (memory_redis.hget (session_key cfg (codes "s")) mapping_field empty_memory)
      ≡ some []
unfolding decode_existing get
nothing_stored cfg = refl

start-IsSound : (cfg : RedisStore) → IsSound memory_redis plain_json cfg (codes "s") empty_memory
unfolding mapping_of payload get
start-IsSound cfg = ([], nothing_stored cfg, ([], refl, λ k. refl))

add_mappings_lem_example :
    (s' : Memory) × (merged : Mapping) × (add_mappings memory_redis plain_json store
        (codes "s")
        max_lee
        empty_memory
      ≡ (s', ok merged))
    × ((k : Str)
        → get k merged
          ≡ elim (get k (mapping_of memory_redis plain_json store (codes "s") empty_memory)) [
            | none ↦ get k max_lee
            | some v ↦ some v
          ])
    × ((k : Str) → get k (mapping_of memory_redis plain_json store (codes "s") s') ≡ get k merged)
add_mappings_lem_example =
    add_mappings_lem memory_redis plain_json store (codes "s") max_lee empty_memory refl
      (omega arith) (start-IsSound store)

abbrev corrupt : Memory
corrupt k = (mapping_field, 0 ∷ []) ∷ []

add_mappings_short_ttl_example :
    (s' : Memory) × (merged : Mapping) × (add_mappings memory_redis plain_json hasty_store
        (codes "s")
        max_lee
        empty_memory
      ≡ (s', ok merged))
    × ((k : Str)
        → get k merged
          ≡ elim (get k (mapping_of memory_redis plain_json hasty_store (codes "s") empty_memory)) [
            | none ↦ get k max_lee
            | some v ↦ some v
          ])
    × (mapping_of memory_redis plain_json hasty_store (codes "s") s' ≡ [])
add_mappings_short_ttl_example =
    add_mappings_short_ttl memory_redis plain_json hasty_store (codes "s")
      (codes "Max", codes "Ann Lee") [] empty_memory refl (omega arith) (start-IsSound hasty_store)

abbrev two_names : Mapping
two_names = (codes "Max", codes "Ann Lee") ∷ (codes "Eva", codes "Bo Ray") ∷ []

two_pseudonyms : Distinct (map (λ e. e.1) two_names)
unfolding text_eq
two_pseudonyms = (
  λ h. elim h [ inl e ↦ apart_of_test (codes "Ann Lee") (codes "Bo Ray") refl e | inr m ↦ m ],
  (λ h. h, tt),
)

two_keys : Distinct (keys two_names)
unfolding text_eq
two_keys = (
  λ h. elim h [ inl e ↦ apart_of_test (codes "Max") (codes "Eva") refl e | inr m ↦ m ],
  (λ h. h, tt),
)

get-reverse_of_example : get (codes "Bo Ray") (reverse_of two_names) ≡ some (codes "Eva")
unfolding get text_eq
get-reverse_of_example = get-reverse_of two_names (codes "Eva") (codes "Bo Ray") two_pseudonyms refl

-- Two other operations: one adds to the session, one erases another session.
abbrev after_more : Memory
after_more = (add_mappings memory_redis plain_json store (codes "s") eva_ray after_add).0

abbrev after_erasure : Memory
after_erasure = (delete memory_redis plain_json store (codes "t") after_more).0

another_session : codes "t" ≢ codes "s"
unfolding text_eq
another_session = apart_of_test (codes "t") (codes "s") refl

max_held :
    get (codes "Max") (mapping_of memory_redis plain_json store (codes "s") after_add)
    ≡ some (codes "Ann Lee")
unfolding get_mapping add_mappings add_script decode_existing write_back payload session_key
    mapping_field get put has text_eq merge_table mapping_of
max_held = refl

Reach-Holds_example :
    get (codes "Max") (mapping_of memory_redis plain_json store (codes "s") after_erasure)
    ≡ some (codes "Ann Lee")
Reach-Holds_example =
    Reach-Holds memory_redis plain_json store (codes "s") (codes "Max") (codes "Ann Lee")
      {s = after_add} {s' = after_erasure} (omega arith)
      (next (next here (adds (codes "s") eva_ray refl)) (erases (codes "t") another_session refl))
      max_held
