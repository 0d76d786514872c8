-- ===== src/Mapping/Reach.antt =====
-- internal/mapping/redis.go: the store under any number of clients, whose operations come one after the
-- other in any order.
use palena_litellm_pseudonym.Base.{
  ◌≤◌, ◌<◌, ◌≡◌, ◌≢◌, inl, inr, refl, sym, ap, subst, ◌∙◌, [], ◌∷◌, Option, none, some, arith,
  Bool-cases, Option-cases,
}
use palena_litellm_pseudonym.GoLib.Strings.{Str, text_eq, text_eq_iff}
use palena_litellm_pseudonym.GoLib.Dict.{get}
use palena_litellm_pseudonym.Mapping.{
  RedisStore, mapping_field, session_key, payload, get_mapping, decode_existing, add_mappings,
  delete, get_reverse_mapping,
}
use palena_litellm_pseudonym.Mapping.Interface.{Redis, Json}
use palena_litellm_pseudonym.Mapping.Laws.{
  mapping_of, IsSound, Reads, add_mappings_lem, sessions_apart,
}
use palena_litellm_pseudonym.Mapping.Merge.{Mapping}

module _ (r : Redis) (j : Json) (st : RedisStore) (kept : Str) where
  -- One operation of some client on some session, except the erasure of the session that is looked
  -- at; or the server goes away or comes back with its data.
  pub data Step (s s' : r.Server) : Type 0 where
    reads : (session_id : Str) → s' ≡ (get_mapping r j st session_id s).0 → Step s s'
    reads_reverse :
        (session_id : Str) → s' ≡ (get_reverse_mapping r j st session_id s).0 → Step s s'
    adds :
        (session_id : Str) (new_map : Mapping)
        → s' ≡ (add_mappings r j st session_id new_map s).0
        → Step s s'
    erases :
        (session_id : Str) → session_id ≢ kept → s' ≡ (delete r j st session_id s).0 → Step s s'
    outage : ((k f : Str) → r.hget k f s' ≡ r.hget k f s) → Step s s'

  pub data Reach (s : r.Server) : r.Server → Type 0 where
    here : Reach s s
    next : {t t' : r.Server} → Reach s t → Step t t' → Reach s t'

  Holds : Str → Str → r.Server → Type 0
  Holds k v s = get k (mapping_of r j st kept s) ≡ some v

  -- A mapping with an entry comes from a payload that decodes.
  pub IsSound-of_Holds :
      (k v : Str) (s : r.Server) → get k (mapping_of r j st kept s) ≡ some v → IsSound r j st kept s
  unfolding mapping_of payload decode_existing get
  IsSound-of_Holds k v s held = by_payload (r.hget (session_key st kept) mapping_field s) held
    where
      by_payload :
          (raw : Option Str)
          → get k (payload r j st raw) ≡ some v
          → (t : j.Table) × (decode_existing r j st raw ≡ some t)
            × Reads r j st t (payload r j st raw)
      by_payload none h = absurd (cc)
      by_payload (some raw) h = elim (Option-cases (j.decode raw)) [
        | inl corrupt ↦ absurd (let x = rw (corrupt, payload) at h in cc)
        | inr (m, e) ↦
            let x : get k m ≡ some v = (let y = rw (e, payload) at h in y) in
            let (t, found) = j.cjson_decode_of_get raw k v m e x in
            (t, found, rw (e, payload) (j.decode-alike raw t m found e))
      ]

  refresh-Holds :
      (session_id k v : Str) (s : r.Server)
      → 0 < st.ttl
      → Holds k v s
      → Holds k v (r.refresh (session_key st session_id) st.ttl s)
  unfolding Holds mapping_of
  refresh-Holds session_id k v s positive held =
      rw
        (r.hget-refresh (session_key st session_id) (session_key st kept) mapping_field st.ttl s
          positive)
        held

  read-Holds :
      (session_id k v : Str) (s : r.Server)
      → 0 < st.ttl
      → Holds k v s
      → Holds k v (get_mapping r j st session_id s).0
  unfolding get_mapping
  read-Holds session_id k v s positive held = elim (Bool-cases (r.reachable s)) [
    | inl up ↦ rw up (refresh-Holds session_id k v s positive held)
    | inr down ↦ rw down held
  ]

  reverse-Holds :
      (session_id k v : Str) (s : r.Server)
      → 0 < st.ttl
      → Holds k v s
      → Holds k v (get_reverse_mapping r j st session_id s).0
  unfolding get_reverse_mapping get_mapping
  reverse-Holds session_id k v s positive held = elim (Bool-cases (r.reachable s)) [
    | inl up ↦ rw (up, get_reverse_mapping) (refresh-Holds session_id k v s positive held)
    | inr down ↦ rw (down, get_reverse_mapping) held
  ]

  add-Holds :
      (session_id k v : Str) (new_map : Mapping) (s : r.Server)
      → 1000 ≤ st.ttl
      → Holds k v s
      → Holds k v (add_mappings r j st session_id new_map s).0
  unfolding Holds add_mappings
  add-Holds session_id k v [] s long held = read-Holds session_id k v s (omega arith) held
  add-Holds session_id k v (e ∷ new_map) s long held = elim (Bool-cases (text_eq session_id kept)) [
    | inr other ↦
        let differ : session_id ≢ kept =
          λ same. let x = (text_eq_iff session_id kept).1 same in cc in
        ap (get k) (sessions_apart r j st session_id kept (e ∷ new_map) s differ (omega arith)).0
        ∙ held
    | inl this ↦ elim (Bool-cases (r.reachable s)) [
      | inr down ↦ rw down held
      | inl up ↦
          let same = (text_eq_iff session_id kept).0 this in
          let (t, merged, ran, alike, holds) =
            add_mappings_lem r j st kept (e ∷ new_map) s up long (IsSound-of_Holds k v s held) in
          let after = holds k ∙ alike k ∙ rw held refl in
          subst
            (λ x. get k (mapping_of r j st kept (add_mappings r j st x (e ∷ new_map) s).0) ≡ some v)
            (sym same) (subst (λ x. get k (mapping_of r j st kept x.0) ≡ some v) (sym ran) after)
    ]
  ]

  Step-Holds :
      (k v : Str) {s s' : r.Server} → 1000 ≤ st.ttl → Step s s' → Holds k v s → Holds k v s'
  unfolding Holds mapping_of
  Step-Holds k v {s} long (reads session_id e) held =
      subst (Holds k v) (sym e) (read-Holds session_id k v s (omega arith) held)
  Step-Holds k v {s} long (reads_reverse session_id e) held =
      subst (Holds k v) (sym e) (reverse-Holds session_id k v s (omega arith) held)
  Step-Holds k v {s} long (adds session_id new_map e) held =
      subst (Holds k v) (sym e) (add-Holds session_id k v new_map s long held)
  Step-Holds k v {s} long (erases session_id differ e) held =
      subst (Holds k v) (sym e)
        (ap (get k) (sessions_apart r j st session_id kept [] s differ (omega arith)).1 ∙ held)
  Step-Holds k v long (outage alike) held = rw (alike (session_key st kept) mapping_field) held

  -- A name that a session maps keeps its pseudonym: with a TTL of a second or more, no sequence of
  -- operations of any clients on any sessions changes or removes the entry, unless the session is
  -- erased (or expires, which is no step here).
  pub Reach-Holds :
      (k v : Str) {s s' : r.Server}
      → 1000 ≤ st.ttl
      → Reach s s'
      → get k (mapping_of r j st kept s) ≡ some v
      → get k (mapping_of r j st kept s') ≡ some v
  unfolding Holds
  Reach-Holds k v long here held = held
  Reach-Holds k v long (next before step) held =
      Step-Holds k v long step (Reach-Holds k v long before held)
