-- ===== src/Text/Strategy.antt =====
-- internal/text/strategy.go: the substitution strategy of each entity type, and the assignment of a
-- pseudonym by it. A Strategy is a Go string, and any text can be configured; a map is a list.
pub mod Fresh
use palena_litellm_pseudonym.Base.{
  ℕ, zero, suc, ◌+◌, ◌-◌, ◌*◌, ◌/◌, ◌%◌, ◌^◌, ◌≤◌, ◌<◌, ◌≡◌, ◌≢◌, ◌↔◌, ◌⊎◌, inl, inr, refl, sym, ap,
  subst, ◌∙◌, Bool, true, false, ◌&&◌, ◌||◌, not, List, [], ◌∷◌, ◌++◌, map, append_assoc,
  append-nil, Option, none, some, arith, ltb, leb, ◌==◌, if◌then◌else◌, Bool-cases, Option-cases,
  &&-eq-true, ||-eq-true, ||-eq-false, bool_ext, ==_iff, ==_refl, leb→le, ltb→lt, lt→ltb, length,
  take, drop, get_elem?, all, any, keep, length-append, take-append-drop, length-take, length-drop,
  take_all, take-append, drop-append, length-keep-le, length-map, In, Distinct, All, In-append_left,
  In-append_right, All-In, pigeonhole, In-map,
}
use palena_litellm_pseudonym.GoLib.Strings.{
  Str, codes, raw_byte, replacement_char, width, byte_len, is_empty, text_eq, text_eq_iff,
  text_eq_refl, text_eq-false, starts_with, contains, elem, elem_iff, infixes, In-infixes,
}
use palena_litellm_pseudonym.GoLib.Dict.{
  get, put, has, keys, get-put, get-put_self, get-put_ne, has-false, has_of_get, put_new,
  get-append, In-keys_of_get, get_of_In-keys,
}
use palena_litellm_pseudonym.GoLib.Unicode.{
  Unicode, lower, upper, equal_fold, lower-lower, trim_left, trim_right, trim, trim_space, fields,
}
use palena_litellm_pseudonym.Text.Pools.{Pools, new_pools, assign, assign_deterministic}
use palena_litellm_pseudonym.Text.Token.{next_token}

abbrev pub Strategy : Type 0
Strategy = Str

abbrev pub strategy_pool : Strategy
strategy_pool = codes "pool"

abbrev pub strategy_token : Strategy
strategy_token = codes "token"

abbrev pub nominal_types : List Str
nominal_types = codes "PERSON" ∷ codes "ORGANIZATION" ∷ codes "LOCATION" ∷ []

pub record Strategizer : Type 0 where
  pub pools : Pools
  pub by_entity : List (Str × Strategy)
  pub default_strategy : Strategy
  pub det_secret : Option Str

-- `pools` is none for a nil pointer.
pub record StrategizerConfig : Type 0 where
  pub pools : Option Pools
  pub overrides : List (Str × Str)
  pub default_strategy : Str
  pub deterministic_secret : Str

unfoldable pub new_strategizer : Unicode → StrategizerConfig → Strategizer
new_strategizer u cfg = record {
  pools = elim cfg.pools [ none ↦ new_pools u [] | some p ↦ p ];
  by_entity = cfg.overrides;
  default_strategy =
      if text_eq cfg.default_strategy strategy_pool || text_eq cfg.default_strategy strategy_token
      then cfg.default_strategy
      else strategy_token;
  det_secret = if is_empty cfg.deterministic_secret then none else some cfg.deterministic_secret;
}

-- An override wins, then nominal types go to the pool, then the default.
unfoldable pub strategy_for : Strategizer → Str → Strategy
strategy_for s entity_type = elim (get entity_type s.by_entity) [
  | some st ↦ st
  | none ↦ if elem entity_type nominal_types then strategy_pool else s.default_strategy
]

-- usedFromMap
abbrev pub values : List (Str × Str) → List Str
values = map (λ e. e.1)

unfoldable pub assign_name :
    Unicode → (Str → Str → List ℕ) → Strategizer → Str → Str → List (Str × Str) → Str → Str
assign_name u mac s entity_type name scratch reserved =
    if text_eq (strategy_for s entity_type) strategy_token
    then next_token u entity_type scratch reserved
    else elim s.det_secret [
      | some secret ↦
          assign_deterministic u mac s.pools entity_type name (values scratch) reserved secret
      | none ↦ assign u s.pools entity_type (values scratch) reserved
    ]
