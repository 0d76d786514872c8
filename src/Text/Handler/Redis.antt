-- ===== src/Text/Handler/Redis.antt =====
-- The Redis store as the store of the handlers.
use palena_litellm_pseudonym.Base.{
  ◌≤◌, ◌<◌, ◌≡◌, inl, inr, refl, sym, ap, subst, Option, none, some, ◌∙◌, true, [], ◌∷◌, ◌++◌,
  append-nil, arith, Bool-cases, Option-cases,
}
use palena_litellm_pseudonym.GoLib.Strings.{Str}
use palena_litellm_pseudonym.GoLib.Dict.{get, get-append}
use palena_litellm_pseudonym.Errs.{ok}
use palena_litellm_pseudonym.Mapping.{
  RedisStore, session_key, mapping_field, get_mapping, decode_existing, payload, add_script,
  add_mappings, get_reverse_mapping,
}
use palena_litellm_pseudonym.Mapping.Interface.{Redis, Json}
use palena_litellm_pseudonym.Mapping.Laws.{
  mapping_of, IsSound, Reads, get_mapping_lem, add_mappings_lem,
}
use palena_litellm_pseudonym.Mapping.Merge.{Mapping}
use palena_litellm_pseudonym.Text.Handler.{Store}
use mathlib.Core.Option
use palena_litellm_pseudonym.Text.Handler.Laws.{IsStore}

module _ (r : Redis) (j : Json) (st : RedisStore) where
  -- No state of the server holds a payload that cjson reads and encoding/json does not. So it is while
  -- the store alone writes the sessions.
  abbrev pub IsReadable : Type 0
  IsReadable =
      (key raw : Str) (t : j.Table) (s : r.Server)
      → r.hget key mapping_field s ≡ some raw
      → j.cjson_decode raw ≡ some t
      → (m : Mapping) × (j.decode raw ≡ some m)

  payload_read : (raw : Str) (m : Mapping) → j.decode raw ≡ some m → payload r j st (some raw) ≡ m
  unfolding payload
  payload_read raw m read = rw (read, payload) refl

  found-IsSound :
      (session_id : Str) (t : j.Table) (s : r.Server)
      → IsReadable
      → decode_existing r j st (r.hget (session_key st session_id) mapping_field s) ≡ some t
      → Reads r j st t (mapping_of r j st session_id s)
  unfolding mapping_of
  found-IsSound session_id t s readable =
      by_payload (r.hget (session_key st session_id) mapping_field s)
        (λ raw u. readable (session_key st session_id) raw u s)
    where
      by_payload :
          (o : Option Str)
          → ((raw : Str) (u : j.Table)
              → o ≡ some raw
              → j.cjson_decode raw ≡ some u
              → (m : Mapping) × (j.decode raw ≡ some m))
          → decode_existing r j st o ≡ some t
          → Reads r j st t (payload r j st o)
      by_payload none both e =
          let same : j.no_table ≡ t =
            Option.some-injective j.no_table t (unfold decode_existing in e) in
          subst (λ x. Reads r j st x (payload r j st none)) same
            ([], j.decode-no_table, λ k. unfold payload in refl)
      by_payload (some raw) both e =
          let found : j.cjson_decode raw ≡ some t = unfold decode_existing in e in
          let (m, read) = both raw t refl found in
          let whole : payload r j st (some raw) ≡ m = payload_read raw m read in
          subst (λ x. Reads r j st t x) (sym whole) (j.decode-alike raw t m found read)

  abbrev pub redis_store : Store
  redis_store = record {
    World = r.Server;
    get_mapping = get_mapping r j st;
    add_mappings = add_mappings r j st;
    get_reverse_mapping = get_reverse_mapping r j st;
  }

  pub get_mapping-eq-ok :
      (session_id : Str) (s s' : r.Server) (m : Mapping)
      → 0 < st.ttl
      → get_mapping r j st session_id s ≡ (s', ok m)
      → (m ≡ mapping_of r j st session_id s)
        × (mapping_of r j st session_id s' ≡ mapping_of r j st session_id s)
  get_mapping-eq-ok session_id s s' m positive got = elim (Bool-cases (r.reachable s)) [
    | inl up ↦
        let (t, e, same) = get_mapping_lem r j st session_id s up positive in
        let both : (t, ok (mapping_of r j st session_id s)) ≡ (s', ok m) = sym e ∙ got in
        let world : t ≡ s' = cc in
        let read : mapping_of r j st session_id s ≡ m = ground arith in
        (sym read, rw (← world) same)
    | inr down ↦ absurd (unfold get_mapping in ground arith)
  ]

  add_mappings-eq-ok :
      (session_id : Str) (e : Str × Str) (new_map merged : Mapping) (s s' : r.Server)
      → IsReadable
      → add_mappings r j st session_id (e ∷ new_map) s ≡ (s', ok merged)
      → (r.reachable s ≡ true) × IsSound r j st session_id s
  unfolding add_mappings add_script
  add_mappings-eq-ok session_id e new_map merged s s' readable added =
      elim (Bool-cases (r.reachable s)) [
        | inl up ↦
            elim (Option-cases
              (decode_existing r j st (r.hget (session_key st session_id) mapping_field s))) [
                | inl corrupt ↦ absurd (let h = rw (up, corrupt) at added in cc)
                | inr (t, found) ↦ (up, (t, found, found-IsSound session_id t s readable found))
              ]
        | inr down ↦ absurd (let h = rw down at added in cc)
      ]

  adds :
      (session_id : Str) (s s' s'' : r.Server) (existing new_map merged : Mapping)
      → 1000 ≤ st.ttl
      → IsReadable
      → get_mapping r j st session_id s ≡ (s', ok existing)
      → add_mappings r j st session_id new_map s' ≡ (s'', ok merged)
      → (k : Str) → get k merged ≡ get k (existing ++ new_map)
  adds session_id s s' s'' existing [] merged long readable got added k =
      let (read, same) = get_mapping-eq-ok session_id s s' existing (omega arith) got in
      let (again, later) =
        get_mapping-eq-ok session_id s' s'' merged (omega arith) (unfold add_mappings in added) in
      let alike : merged ≡ existing = again ∙ same ∙ sym read in
      ap (get k) (alike ∙ sym (append-nil existing))
  adds session_id s s' s'' existing (e ∷ new_map) merged long readable got added k =
      let (read, same) = get_mapping-eq-ok session_id s s' existing (omega arith) got in
      let (up, sound) = add_mappings-eq-ok session_id e new_map merged s' s'' readable added in
      let (t, out, ran, alike, held) =
        add_mappings_lem r j st session_id (e ∷ new_map) s' up long sound in
      let made : out ≡ merged = cc in
      let start : mapping_of r j st session_id s' ≡ existing = same ∙ sym read in
      ap (get k) (sym made) ∙ alike k ∙ rw start (sym (get-append k existing (e ∷ new_map)))

  -- After GetMapping and AddMappings the server holds what was there and the new entries.
  pub adds-mapping_of :
      (session_id : Str) (s s' s'' : r.Server) (existing : Mapping) (e : Str × Str)
      (new_map merged : Mapping)
      → 1000 ≤ st.ttl
      → IsReadable
      → get_mapping r j st session_id s ≡ (s', ok existing)
      → add_mappings r j st session_id (e ∷ new_map) s' ≡ (s'', ok merged)
      → (k : Str) → get k (mapping_of r j st session_id s'') ≡ get k (existing ++ e ∷ new_map)
  adds-mapping_of session_id s s' s'' existing e new_map merged long readable got added k =
      let (up, sound) = add_mappings-eq-ok session_id e new_map merged s' s'' readable added in
      let (t, out, ran, alike, held) =
        add_mappings_lem r j st session_id (e ∷ new_map) s' up long sound in
      let end : t ≡ s'' = cc in
      let made : out ≡ merged = cc in
      ap (λ x. get k (mapping_of r j st session_id x)) (sym end)
      ∙ held k
      ∙ ap (get k) made
      ∙ adds session_id s s' s'' existing (e ∷ new_map) merged long readable got added k

  pub redis_store-IsStore : 1000 ≤ st.ttl → IsReadable → IsStore redis_store
  redis_store-IsStore long readable = record {
    adds = λ session_id s s' s'' existing new_map merged.
        adds session_id s s' s'' existing new_map merged long readable;
  }
