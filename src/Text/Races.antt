-- ===== src/Text/Races.antt =====
-- Two concurrent requests of one session: both read the mapping before either writes it.
use palena_litellm_pseudonym.Base.{
  ℕ, ◌≤◌, ◌≡◌, ◌≢◌, refl, sym, ap, ◌∙◌, true, false, List, [], ◌∷◌, none, some,
}
use palena_litellm_pseudonym.GoLib.Strings.{Str, is_empty, text_eq, text_eq_refl, text_eq-false}
use palena_litellm_pseudonym.GoLib.Dict.{get, put, has}
use palena_litellm_pseudonym.GoLib.Unicode.{Unicode, trim_space}
use palena_litellm_pseudonym.GoLib.Order.{insert_by, sort_by}
use palena_litellm_pseudonym.Presidio.{Detection}
use palena_litellm_pseudonym.Errs.{ok}
use palena_litellm_pseudonym.Mapping.{RedisStore, add_mappings}
use palena_litellm_pseudonym.Mapping.Interface.{Redis, Json}
use palena_litellm_pseudonym.Mapping.Laws.{mapping_of, IsSound, add_mappings_lem}
use palena_litellm_pseudonym.Mapping.Reach.{IsSound-of_Holds}
use mathlib.Core.Option
use palena_litellm_pseudonym.Mapping.Merge.{Mapping, reverse_of}
use palena_litellm_pseudonym.Text.Pools.{pool_of, first_free, is_taken, assign}
use palena_litellm_pseudonym.Text.Strategy.{
  strategy_pool, strategy_token, strategy_for, values, assign_name,
}
use palena_litellm_pseudonym.Text.Assign.{
  Settings, dedup_step, dedup, has_case_insensitive_key, Progress, register, is_known, assign_one,
  assign_all, sorted_detections, assign_new,
}

module _ (u : Unicode) (mac : Str → Str → List ℕ) (h : Settings) where
  -- A request that detected one name which the session does not know, of a type whose pool begins with
  -- `pseudo`; no pseudonym of the session is that one, and the request's text does not hold it.
  pub record IsNewName (existing : Mapping) (d : Detection) (reserved pseudo : Str) : Type 0 where
    pub full : is_empty (trim_space u d.text) ≡ false
    pub absent : get (trim_space u d.text) existing ≡ none
    pub unknown : has_case_insensitive_key u existing (trim_space u d.text) ≡ false
    pub pooled : strategy_for h.strat d.entity_type ≡ strategy_pool
    pub others : List Str
    pub pool : pool_of h.strat.pools d.entity_type ≡ pseudo ∷ others
    pub free : is_taken u (values existing) reserved pseudo ≡ false

  trimmed_entry : Detection → Detection
  trimmed_entry d = record d { start = 0; end = 0; text = trim_space u d.text }

  sorted_detections_one :
      (d : Detection)
      → is_empty (trim_space u d.text) ≡ false
      → sorted_detections u (d ∷ []) ≡ trimmed_entry d ∷ []
  unfolding sorted_detections dedup dedup_step sort_by insert_by put get trimmed_entry
  sorted_detections_one d full = rw (full, dedup_step) refl

  assign_name_one :
      (existing : Mapping) (d : Detection) (reserved pseudo : Str)
      → h.strat.det_secret ≡ none
      → IsNewName existing d reserved pseudo
      → assign_name u mac h.strat d.entity_type (trim_space u d.text) existing reserved ≡ pseudo
  unfolding assign_name assign first_free
  assign_name_one existing d reserved pseudo plain n =
      let token : text_eq (strategy_for h.strat d.entity_type) strategy_token ≡ false =
        unfold text_eq in rw (n.pooled) refl in
      let chosen : first_free u (values existing) reserved (pool_of h.strat.pools d.entity_type)
          ≡ some pseudo =
        rw (n.pool, first_free) (rw (n.free, first_free) refl) in
      rw token (rw plain (rw (chosen, assign) refl))

  assign_new_one :
      (existing : Mapping) (d : Detection) (reserved pseudo : Str)
      → h.decompose ≡ false
      → h.strat.det_secret ≡ none
      → IsNewName existing d reserved pseudo
      → assign_new u mac h (d ∷ []) existing reserved ≡ (trim_space u d.text, pseudo) ∷ []
  unfolding assign_new assign_all assign_one is_known register put has trimmed_entry
  assign_new_one existing d reserved pseudo whole plain n =
      let start : Progress = record { new_map = []; scratch = existing } in
      let new : is_known u start (trim_space u d.text) ≡ false =
        rw (n.absent, is_known, has) n.unknown in
      rw (sorted_detections_one d n.full, assign_new)
        (rw (new, assign_one)
          (rw whole (rw (assign_name_one existing d reserved pseudo plain n) refl)))

module _ (r : Redis) (j : Json) (st : RedisStore) (session_id : Str) where
  -- Two AddMappings, one after the other, from a state `s`, after which the session maps two names to
  -- one pseudonym, so that its reverse mapping does not give back both.
  pub record Shared (s : r.Server) (first second : Mapping) (a b pseudo : Str) : Type 0 where
    pub between : r.Server
    pub end : r.Server
    pub answer_first : Mapping
    pub answer_second : Mapping
    pub added_first : add_mappings r j st session_id first s ≡ (between, ok answer_first)
    pub added_second : add_mappings r j st session_id second between ≡ (end, ok answer_second)
    pub at_a : get a (mapping_of r j st session_id end) ≡ some pseudo
    pub at_b : get b (mapping_of r j st session_id end) ≡ some pseudo
    pub lost : ¬ (
        (get pseudo (reverse_of (mapping_of r j st session_id end)) ≡ some a)
        × (get pseudo (reverse_of (mapping_of r j st session_id end)) ≡ some b))

  added_both :
      (s : r.Server) (a b pseudo : Str)
      → r.reachable s ≡ true
      → 1000 ≤ st.ttl
      → IsSound r j st session_id s
      → r.reachable (add_mappings r j st session_id ((a, pseudo) ∷ []) s).0 ≡ true
      → get a (mapping_of r j st session_id s) ≡ none
      → get b (mapping_of r j st session_id s) ≡ none
      → a ≢ b
      → Shared s ((a, pseudo) ∷ []) ((b, pseudo) ∷ []) a b pseudo
  unfolding get
  added_both s a b pseudo up long sound still_up absent_a absent_b differ =
      let first : Mapping = (a, pseudo) ∷ [] in
      let second : Mapping = (b, pseudo) ∷ [] in
      let (t, m, ran, alike, held) = add_mappings_lem r j st session_id first s up long sound in
      let a_then : get a (mapping_of r j st session_id t) ≡ some pseudo =
        held a ∙ alike a ∙ rw absent_a (rw (text_eq_refl a) refl) in
      let b_then : get b (mapping_of r j st session_id t) ≡ none =
        held b ∙ alike b ∙ rw absent_b (rw (text_eq-false a b differ) refl) in
      let up_then : r.reachable t ≡ true = ap (λ x. r.reachable x.0) (sym ran) ∙ still_up in
      let sound_then = IsSound-of_Holds r j st session_id a pseudo t a_then in
      let (t', m', ran', alike', held') =
        add_mappings_lem r j st session_id second t up_then long sound_then in
      let a_end : get a (mapping_of r j st session_id t') ≡ some pseudo =
        held' a ∙ alike' a ∙ rw a_then refl in
      let b_end : get b (mapping_of r j st session_id t') ≡ some pseudo =
        held' b ∙ alike' b ∙ rw b_then (rw (text_eq_refl b) refl) in
      record {
        between = t;
        end = t';
        answer_first = m;
        answer_second = m';
        added_first = ran;
        added_second = ran';
        at_a = a_end;
        at_b = b_end;
        lost = λ both. differ (Option.some-injective a b (sym both.0 ∙ both.1));
      }

-- Two requests of one session that both read the mapping before either writes, and that each detect
-- another new name of types whose pools begin alike, give both names the first pseudonym of the pool,
-- if it is free. Both AddMappings succeed then, the session maps both names to that pseudonym, and its
-- reverse mapping does not give back both names. (No secret is set, names are not decomposed, the TTL
-- is a second or more, the session's payload is sound, and the server stays reachable.)
pub concurrent_requests_share :
    (u : Unicode) (mac : Str → Str → List ℕ) (h : Settings) (r : Redis) (j : Json) (st : RedisStore)
    (session_id : Str) (s : r.Server) (d e : Detection) (reserved_d reserved_e pseudo : Str)
    → r.reachable s ≡ true
    → 1000 ≤ st.ttl
    → IsSound r j st session_id s
    → h.decompose ≡ false
    → h.strat.det_secret ≡ none
    → IsNewName u mac h (mapping_of r j st session_id s) d reserved_d pseudo
    → IsNewName u mac h (mapping_of r j st session_id s) e reserved_e pseudo
    → trim_space u d.text ≢ trim_space u e.text
    → r.reachable
        (add_mappings r j st session_id
          (assign_new u mac h (d ∷ []) (mapping_of r j st session_id s) reserved_d)
          s).0
      ≡ true
    → Shared r j st session_id s
        (assign_new u mac h (d ∷ []) (mapping_of r j st session_id s) reserved_d)
        (assign_new u mac h (e ∷ []) (mapping_of r j st session_id s) reserved_e)
        (trim_space u d.text)
        (trim_space u e.text)
        pseudo
concurrent_requests_share u mac h r j st session_id s d e reserved_d reserved_e pseudo up long sound
      whole plain n m differ still_up =
    let existing = mapping_of r j st session_id s in
    let first = assign_new_one u mac h existing d reserved_d pseudo whole plain n in
    let second = assign_new_one u mac h existing e reserved_e pseudo whole plain m in
    let up_then = rw first at still_up in
    rw (first, second)
      (added_both r j st session_id s (trim_space u d.text) (trim_space u e.text) pseudo up long
        sound up_then n.absent m.absent differ)
