-- ===== src/Mapping.antt =====
-- internal/mapping: the mapping of each session, one Redis hash per session. Redis and JSON are
-- parameters with the laws that their documentation gives; the Lua script is modelled.
pub mod Reach
pub mod Interface
pub mod Merge
pub mod Laws
pub mod Reverse
use palena_litellm_pseudonym.Base.{
  ℕ, zero, suc, ◌+◌, ◌-◌, ◌*◌, ◌/◌, ◌%◌, ◌^◌, ◌≤◌, ◌<◌, ◌≡◌, ◌≢◌, ◌↔◌, ◌⊎◌, inl, inr, refl, sym, ap,
  subst, ◌∙◌, Bool, true, false, ◌&&◌, ◌||◌, not, List, [], ◌∷◌, ◌++◌, map, append_assoc,
  append-nil, Option, none, some, arith, ltb, leb, ◌==◌, if◌then◌else◌, Bool-cases, Option-cases,
  &&-eq-true, ||-eq-true, ||-eq-false, bool_ext, ==_iff, ==_refl, leb→le, ltb→lt, lt→ltb, length,
  take, drop, get_elem?, all, any, keep, length-append, take-append-drop, length-take, length-drop,
  take_all, take-append, drop-append, length-keep-le, length-map, In, Distinct, All, In-append_left,
  In-append_right, All-In, pigeonhole, In-map,
}
use palena_litellm_pseudonym.GoLib.Strings.{
  Str, codes, raw_byte, replacement_char, width, byte_len, is_empty, text_eq, text_eq_iff,
  text_eq_refl, text_eq-false, starts_with, contains, elem, elem_iff, infixes, In-infixes,
}
use palena_litellm_pseudonym.GoLib.Dict.{
  get, put, has, keys, get-put, get-put_self, get-put_ne, has-false, has_of_get, put_new,
  get-append, In-keys_of_get, get_of_In-keys,
}
use palena_litellm_pseudonym.Errs.{Result, ok, err, mapping_store_unavailable}
use palena_litellm_pseudonym.Mapping.Interface.{Redis, Json}
use palena_litellm_pseudonym.Mapping.Merge.{Mapping, reverse_of}

-- Durations are in milliseconds.
pub record RedisStore : Type 0 where
  pub key_prefix : Str
  pub ttl : ℕ

unfoldable pub mapping_field : Str
mapping_field = codes "mapping"

unfoldable pub session_key : RedisStore → Str → Str
session_key st session_id = st.key_prefix ++ b':' ∷ session_id

-- NewRedisStoreFromClient: the defaults for an empty prefix and a TTL that is not positive.
unfoldable pub new_redis_store : Str → ℕ → RedisStore
new_redis_store key_prefix ttl = record {
  key_prefix = if is_empty key_prefix then codes "palena:pseudonymizer" else key_prefix;
  ttl = if ttl == 0 then 3600 * 1000 else ttl;
}

module _ (r : Redis) (j : Json) (st : RedisStore) where
  open r use {Server}

  -- A payload that is missing or empty, or that does not decode, is no mapping.
  unfoldable pub payload : Option Str → Mapping
  payload none = []
  payload (some raw) = elim (j.decode raw) [ none ↦ [] | some m ↦ m ]

  -- GetMapping: one HGET, then an EXPIRE whose failure is ignored.
  unfoldable pub get_mapping : Str → Server → Server × Result Mapping
  get_mapping session_id s =
      if r.reachable s
      then (
        r.refresh (session_key st session_id) st.ttl s,
        ok (payload (r.hget (session_key st session_id) mapping_field s)),
      )
      else (s, err mapping_store_unavailable)

  -- What the script starts from: it raises on a payload that cjson does not decode to a table.
  unfoldable pub decode_existing : Option Str → Option j.Table
  decode_existing none = some j.no_table
  decode_existing (some raw) = j.cjson_decode raw

  -- The loop of the script: `merged` and `changed`. The new entries come as JSON from json.Marshal,
  -- and cjson reads the same entries in it.
  unfoldable pub merge_table : j.Table × Bool → Mapping → j.Table × Bool
  merge_table (merged, changed) [] = (merged, changed)
  merge_table (merged, changed) ((k, v) ∷ new_map) =
      merge_table (if j.is_set k merged then (merged, changed) else (j.assign k v merged, true))
        new_map

  -- The script after the merge: HSET if something changed, and EXPIRE in any case.
  unfoldable pub write_back : Str → j.Table × Bool → Server → Server
  write_back key (merged, changed) s =
      r.expire key (st.ttl / 1000)
        (if changed then r.hset key mapping_field (j.cjson_encode merged) s else s)

  -- atomicAddMappings: none if the script raises.
  unfoldable pub add_script : Str → Mapping → Server → Option (Server × Str)
  add_script key new_map s = elim (decode_existing (r.hget key mapping_field s)) [
    | none ↦ none
    | some existing ↦
        let merged = merge_table (existing, false) new_map in
        some (write_back key merged s, j.cjson_encode merged.0)
  ]

  unfoldable pub add_mappings : Str → Mapping → Server → Server × Result Mapping
  add_mappings session_id [] s = get_mapping session_id s
  add_mappings session_id (e ∷ new_map) s =
      if r.reachable s
      then elim (add_script (session_key st session_id) (e ∷ new_map) s) [
        | none ↦ (s, err mapping_store_unavailable)
        | some (s', merged) ↦ elim (j.decode merged) [
          | none ↦ (s', err mapping_store_unavailable)
          | some out ↦ (s', ok out)
        ]
      ]
      else (s, err mapping_store_unavailable)

  unfoldable pub delete : Str → Server → Server × Result Bool
  delete session_id s =
      if r.reachable s
      then (r.del (session_key st session_id) s, ok (r.holds (session_key st session_id) s))
      else (s, err mapping_store_unavailable)

  unfoldable pub get_reverse_mapping : Str → Server → Server × Result Mapping
  get_reverse_mapping session_id s =
      let (s', got) = get_mapping session_id s in
      (s', elim got [ err e ↦ err e | ok forward ↦ ok (reverse_of forward) ])

  unfoldable pub ping : Server → Result (Unit {0})
  ping s = if r.reachable s then ok tt else err mapping_store_unavailable
