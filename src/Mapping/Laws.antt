-- ===== src/Mapping/Laws.antt =====
-- The operations of the Redis store against the mapping that the server holds for a session.
use palena_litellm_pseudonym.Base.{
  ◌/◌, ◌≤◌, ◌<◌, ◌≡◌, ◌≢◌, inl, inr, refl, sym, ap, ◌∙◌, Bool, true, false, [], ◌∷◌, ◌++◌, Option,
  none, some, arith, Bool-cases, Option-cases, length, drop, drop-append,
}
use palena_litellm_pseudonym.GoLib.Strings.{Str}
use palena_litellm_pseudonym.GoLib.Dict.{get, put, has, get-put}
use palena_litellm_pseudonym.Errs.{ok}
use palena_litellm_pseudonym.Mapping.{
  RedisStore, mapping_field, session_key, payload, get_mapping, decode_existing, write_back,
  merge_table, add_script, add_mappings, delete,
}
use palena_litellm_pseudonym.Mapping.Interface.{Redis, Json}
use palena_litellm_pseudonym.Mapping.Merge.{Mapping, merge, merge_from, get-merge, merge-unchanged}

append_cancel : (p s t : Str) → p ++ s ≡ p ++ t → s ≡ t
append_cancel p s t e = sym (drop-append p s) ∙ ap (drop (length p)) e ∙ drop-append p t

-- Two sessions have two keys.
session_key_injective : (st : RedisStore) (a b : Str) → session_key st a ≡ session_key st b → a ≡ b
unfolding session_key
session_key_injective st a b e = ap (drop 1) (append_cancel st.key_prefix (b':' ∷ a) (b':' ∷ b) e)

module _ (r : Redis) (j : Json) (st : RedisStore) where
  open r use {Server}

  stored : Str → Server → Option Str
  stored session_id s = r.hget (session_key st session_id) mapping_field s

  -- The mapping that the server holds for a session, as GetMapping reads it.
  unfoldable pub mapping_of : Str → Server → Mapping
  mapping_of session_id s = payload r j st (r.hget (session_key st session_id) mapping_field s)

  -- A table that encoding/json reads as a mapping.
  abbrev pub Reads : j.Table → Mapping → Type 0
  Reads t m =
      (m' : Mapping) × (j.decode (j.cjson_encode t) ≡ some m') × ((k : Str) → get k m' ≡ get k m)

  -- The payload of the session, if there is one, decodes to a table that encoding/json reads as what
  -- GetMapping reads.
  abbrev pub IsSound : Str → Server → Type 0
  IsSound session_id s =
      (t : j.Table) × (decode_existing r j st (r.hget (session_key st session_id) mapping_field s)
        ≡ some t)
      × Reads t (mapping_of session_id s)

  has-alike : (k : Str) (m m' : Mapping) → get k m' ≡ get k m → has k m' ≡ has k m
  unfolding has
  has-alike k m m' e = rw (e, has) refl

  put-alike :
      (i k v : Str) (m m' : Mapping) → get i m' ≡ get i m → get i (put k v m') ≡ get i (put k v m)
  put-alike i k v m m' e = ground (arith, get-put k i v m, get-put k i v m')

  -- The loop of the script on a table does what the merge does on the mapping that it is read as.
  merge_table-Reads :
      (new_map : Mapping) (t : j.Table) (m : Mapping) (changed : Bool)
      → Reads t m
      → ((merge_table r j st (t, changed) new_map).1 ≡ (merge_from (m, changed) new_map).1)
        × Reads (merge_table r j st (t, changed) new_map).0 (merge_from (m, changed) new_map).0
  unfolding merge_table merge_from
  merge_table-Reads [] t m changed reads = (refl, reads)
  merge_table-Reads ((k, v) ∷ new_map) t m changed (m', e, alike) =
      let same : j.is_set k t ≡ has k m = j.is_set-decode k t m' e ∙ has-alike k m m' (alike k) in
      elim (Bool-cases (has k m)) [
        | inl old ↦ rw (same ∙ old, old) (merge_table-Reads new_map t m changed (m', e, alike))
        | inr new ↦
            let (m'', e', alike') = j.decode-assign k v t m' e in
            rw (same ∙ new, new)
              (merge_table-Reads new_map (j.assign k v t) (put k v m) true
                (m'', e', λ i. alike' i ∙ put-alike i k v m m' (alike i)))
      ]

  -- GetMapping returns the mapping that is held and does not change it.
  pub get_mapping_lem :
      (session_id : Str) (s : Server)
      → r.reachable s ≡ true
      → 0 < st.ttl
      → (s' : Server) × (get_mapping r j st session_id s ≡ (s', ok (mapping_of session_id s)))
        × (mapping_of session_id s' ≡ mapping_of session_id s)
  unfolding get_mapping mapping_of
  get_mapping_lem session_id s up positive =
      let key = session_key st session_id in
      (
        r.refresh key st.ttl s,
        rw up,
        ap (payload r j st) (r.hget-refresh key key mapping_field st.ttl s positive),
      )

  hget-write_back :
      (key : Str) (t : j.Table) (m new_map : Mapping) (s : Server)
      → 1000 ≤ st.ttl
      → payload r j st (r.hget key mapping_field s) ≡ m
      → Reads t m
      → (m' : Mapping) × (payload r j st (
            r.hget key mapping_field
              (write_back r j st key (merge_table r j st (t, false) new_map) s))
          ≡ m')
        × ((k : Str) → get k m' ≡ get k (merge m new_map).0)
  unfolding write_back payload merge
  hget-write_back key t m new_map s long e reads =
      let (flags, (m', read, same)) = merge_table-Reads new_map t m false reads in
      let kept : (s : Server)
          → r.hget key mapping_field (r.expire key (st.ttl / 1000) s) ≡ r.hget key mapping_field s =
        λ s. r.hget-expire_pos key key mapping_field (st.ttl / 1000) s (omega arith) in
      elim (Bool-cases (merge_table r j st (t, false) new_map).1) [
        | inl changed ↦ (m', rw changed (rw kept (rw r.hget-hset_self (rw (read, payload)))), same)
        | inr unchanged ↦ (
          m,
          rw unchanged (rw kept e),
          λ k. ap (get k) (sym (merge-unchanged m new_map (sym flags ∙ unchanged))),
        )
      ]

  -- AddMappings succeeds on a reachable server with a sound payload and a TTL of a second or more.
  -- What it returns and what the server then holds read alike: as the existing mapping where that
  -- has an entry, else as the new one.
  pub add_mappings_lem :
      (session_id : Str) (new_map : Mapping) (s : Server)
      → r.reachable s ≡ true
      → 1000 ≤ st.ttl
      → IsSound session_id s
      → (s' : Server) × (merged : Mapping) × (add_mappings r j st session_id new_map s
          ≡ (s', ok merged))
        × ((k : Str)
            → get k merged
              ≡ elim (get k (mapping_of session_id s)) [ none ↦ get k new_map | some v ↦ some v ])
        × ((k : Str) → get k (mapping_of session_id s') ≡ get k merged)
  unfolding add_mappings add_script mapping_of merge
  add_mappings_lem session_id [] s up long sound =
      let (s', e, same) = get_mapping_lem session_id s up (omega arith) in
      (s', mapping_of session_id s, e, λ k. unfold get in ground arith, λ k. ap (get k) same)
  add_mappings_lem session_id (e ∷ new_map) s up long (t, found, reads) =
      let key = session_key st session_id in
      let before = mapping_of session_id s in
      let (flags, (out, back, alike)) = merge_table-Reads (e ∷ new_map) t before false reads in
      let (held, is_held, same) = hget-write_back key t before (e ∷ new_map) s long refl reads in
      (
        write_back r j st key (merge_table r j st (t, false) (e ∷ new_map)) s,
        out,
        rw up (rw found (rw back)),
        λ k. alike k ∙ get-merge before (e ∷ new_map) k,
        λ k. ap (get k) is_held ∙ same k ∙ sym (alike k),
      )

  -- With a TTL below one second, on a reachable server with a sound payload, AddMappings of a mapping
  -- that is not empty still returns a mapping that reads as the existing one where that has an entry,
  -- else as the new one; but the session holds nothing afterwards: the script rounds the TTL down to
  -- zero.
  pub add_mappings_short_ttl :
      (session_id : Str) (e : Str × Str) (new_map : Mapping) (s : Server)
      → r.reachable s ≡ true
      → st.ttl < 1000
      → IsSound session_id s
      → (s' : Server) × (merged : Mapping) × (add_mappings r j st session_id (e ∷ new_map) s
          ≡ (s', ok merged))
        × ((k : Str)
            → get k merged ≡ elim (get k (mapping_of session_id s)) [
              | none ↦ get k (e ∷ new_map)
              | some v ↦ some v
            ])
        × (mapping_of session_id s' ≡ [])
  unfolding add_mappings add_script mapping_of write_back payload merge
  add_mappings_short_ttl session_id e new_map s up short (t, found, reads) =
      let key = session_key st session_id in
      let before = mapping_of session_id s in
      let (flags, (out, back, alike)) = merge_table-Reads (e ∷ new_map) t before false reads in
      let zero_seconds : st.ttl / 1000 ≡ 0 = omega arith in
      (
        write_back r j st key (merge_table r j st (t, false) (e ∷ new_map)) s,
        out,
        rw up (rw found (rw back)),
        λ k. alike k ∙ get-merge before (e ∷ new_map) k,
        rw (zero_seconds, write_back, mapping_of) (rw r.hget-expire_zero refl),
      )

  hget-write_back_ne :
      (a b : Str) (written : j.Table × Bool) (s : Server)
      → a ≢ b
      → r.hget b mapping_field (write_back r j st a written s) ≡ r.hget b mapping_field s
  unfolding write_back
  hget-write_back_ne a b (merged, true) s apart =
      r.hget-expire_ne a b mapping_field (st.ttl / 1000) _ apart
      ∙ r.hget-hset_ne a b mapping_field mapping_field (j.cjson_encode merged) s apart
  hget-write_back_ne a b (merged, false) s apart =
      r.hget-expire_ne a b mapping_field (st.ttl / 1000) s apart

  hget-add_mappings_ne :
      (session_id b : Str) (new_map : Mapping) (s : Server)
      → session_key st session_id ≢ b
      → 0 < st.ttl
      → r.hget b mapping_field (add_mappings r j st session_id new_map s).0
        ≡ r.hget b mapping_field s
  unfolding add_mappings add_script get_mapping
  hget-add_mappings_ne session_id b [] s apart positive =
      ground (arith, r.hget-refresh (session_key st session_id) b mapping_field st.ttl s positive)
  hget-add_mappings_ne session_id b (e ∷ new_map) s apart positive =
      let key = session_key st session_id in
      elim (Option-cases (decode_existing r j st (r.hget key mapping_field s))) [
        | inl corrupt ↦ ground arith
        | inr (t, found) ↦
            let written = merge_table r j st (t, false) (e ∷ new_map) in
            ground (arith, hget-write_back_ne key b written s apart)
      ]

  -- AddMappings and Delete of one session leave the mapping of every other session as it is.
  pub sessions_apart :
      (session_id other_id : Str) (new_map : Mapping) (s : Server)
      → session_id ≢ other_id
      → 0 < st.ttl
      → (mapping_of other_id (add_mappings r j st session_id new_map s).0 ≡ mapping_of other_id s)
        × (mapping_of other_id (delete r j st session_id s).0 ≡ mapping_of other_id s)
  unfolding mapping_of delete
  sessions_apart session_id other_id new_map s differ positive =
      let a = session_key st session_id in
      let b = session_key st other_id in
      let apart : a ≢ b = λ e. differ (session_key_injective st session_id other_id e) in
      (
        ap (payload r j st) (hget-add_mappings_ne session_id b new_map s apart positive),
        ap (payload r j st) (ground (arith, r.hget-del_ne a b mapping_field s apart)),
      )

  -- After Delete the session holds no mapping, and Delete answers true for a mapping that was held.
  pub delete_lem :
      (session_id : Str) (s : Server)
      → r.reachable s ≡ true
      → (mapping_of session_id (delete r j st session_id s).0 ≡ [])
        × (mapping_of session_id s ≢ [] → (delete r j st session_id s).1 ≡ ok true)
  unfolding delete mapping_of payload
  delete_lem session_id s up =
      let key = session_key st session_id in
      (
        rw up (rw r.hget-del_self refl),
        λ full. elim (Option-cases (r.hget key mapping_field s)) [
          | inl nothing ↦ absurd (full (rw nothing refl))
          | inr (raw, held) ↦ rw up (rw (r.holds_of_hget key mapping_field raw s held) refl)
        ],
      )
