-- ===== src/Tests/Names.antt =====
-- Pools, tokens, strategies and assignment at concrete names.
use palena_litellm_pseudonym.Base.{
  ℕ, suc, ◌+◌, ◌≤◌, ◌<◌, ◌≡◌, refl, false, List, [], ◌∷◌, ◌++◌, none, arith, length, In, Distinct,
  All,
}
use palena_litellm_pseudonym.GoLib.Strings.{Str, codes, byte_len, text_eq, elem, infixes}
use palena_litellm_pseudonym.GoLib.Dict.{get, put, has}
use palena_litellm_pseudonym.GoLib.Unicode.{trim_left, trim_right, trim}
use palena_litellm_pseudonym.Tests.Samples.{ascii, plain_mac}
use palena_litellm_pseudonym.Presidio.{Detection}
use palena_litellm_pseudonym.Text.Pools.{
  Pools, pool_of, first_free, is_taken, reserved_contains, assign,
}
use palena_litellm_pseudonym.Text.Pools.Fresh.{assign-free}
use palena_litellm_pseudonym.Text.Strategy.{
  Strategizer, strategy_token, values, assign_name, strategy_for,
}
use palena_litellm_pseudonym.Text.Strategy.Fresh.{assign_name-new, next_token_lem, HasRoom}
use palena_litellm_pseudonym.GoLib.Int.{int64}
use palena_litellm_pseudonym.Text.Token.{
  render_int, is_token_char, unclose, split_last, parse_token, token_prefix, render, index_of,
  max_index, next_token,
}
use palena_litellm_pseudonym.Text.Assign.{
  Settings, has_case_insensitive_key, is_known, register, assign_one, sorted_detections, dedup,
  dedup_step, precedes, assign_new,
}
use palena_litellm_pseudonym.Text.Assign.Covers.{assign_new-fresh}
use palena_litellm_pseudonym.Text.Assign.Injective.{assign_new-Distinct, HasRoomAlong}
use palena_litellm_pseudonym.Text.Numbering.{first_number}
use palena_litellm_pseudonym.GoLib.Order.{insert_by, text_lt, sort_by}
use palena_litellm_pseudonym.GoLib.Decimal.{decimal, atoi}

abbrev names : Pools
names = record { by_type = (codes "PERSON", codes "Ann Lee" ∷ codes "Bo Ray" ∷ []) ∷ [] }

abbrev detection : Str → Str → Detection
detection entity_type text = record {
  entity_type = entity_type;
  start = 0;
  end = length text;
  score = 80;
  text = text;
}

abbrev strategizer : Strategizer
strategizer = record {
  pools = names;
  by_entity = [];
  default_strategy = strategy_token;
  det_secret = none;
}

abbrev settings : Settings
settings = record { strat = strategizer; decompose = false; allow_list = [] }

abbrev found : List Detection
found = detection (codes "PERSON") (codes "Max") ∷ detection (codes "IBAN") (codes "DE12") ∷ []

-- The first name of the pool is taken, and then the whole pool is.
assign-second : assign ascii names (codes "PERSON") (codes "Ann Lee" ∷ []) [] ≡ codes "Bo Ray"
unfolding assign first_free pool_of get text_eq is_taken elem reserved_contains
assign-second = refl

assign-free_example :
    (¬ In
      (assign ascii names (codes "PERSON") (codes "Ann Lee" ∷ []) (codes "to bo ray"))
      (codes "Ann Lee" ∷ []))
    × (reserved_contains ascii
          (codes "to bo ray")
          (assign ascii names (codes "PERSON") (codes "Ann Lee" ∷ []) (codes "to bo ray"))
        ≡ false)
assign-free_example =
    assign-free ascii names (codes "PERSON") (codes "Ann Lee" ∷ []) (codes "to bo ray")

abbrev one_token : List (Str × Str)
one_token = (codes "a", codes "<IBAN_3>") ∷ []

iban_room : HasRoom ascii (codes "IBAN") one_token []
unfolding max_index index_of parse_token unclose split_last is_token_char token_prefix text_eq atoi
    infixes trim
iban_room = omega arith

next_token_lem_example :
    (n : ℕ) × (next_token ascii (codes "IBAN") ((codes "a", codes "<IBAN_3>") ∷ []) []
      ≡ render (token_prefix ascii (codes "IBAN")) n)
    × (max_index (token_prefix ascii (codes "IBAN")) 0 ((codes "a", codes "<IBAN_3>") ∷ []) < n)
    × (n
        ≤ max_index (token_prefix ascii (codes "IBAN")) 0 ((codes "a", codes "<IBAN_3>") ∷ [])
          + suc (length (infixes [])))
    × (reserved_contains ascii [] (render (token_prefix ascii (codes "IBAN")) n) ≡ false)
next_token_lem_example =
    next_token_lem ascii (codes "IBAN") ((codes "a", codes "<IBAN_3>") ∷ []) [] iban_room

assign_name-new_example :
    (¬ In
      (assign_name ascii plain_mac strategizer (codes "IBAN") (codes "DE12") one_token [])
      (values one_token))
    × (reserved_contains ascii []
          (assign_name ascii plain_mac strategizer (codes "IBAN") (codes "DE12") one_token [])
        ≡ false)
assign_name-new_example =
    assign_name-new ascii plain_mac strategizer (codes "IBAN") (codes "DE12") one_token [] iban_room

assign_new-fresh_example :
    All
      (λ e. has_case_insensitive_key ascii ((codes "max", codes "Bo Ray") ∷ []) e.0 ≡ false)
      (assign_new ascii plain_mac settings found ((codes "max", codes "Bo Ray") ∷ []) [])
assign_new-fresh_example =
    assign_new-fresh ascii plain_mac settings found ((codes "max", codes "Bo Ray") ∷ []) []

found_room :
    HasRoomAlong ascii plain_mac settings []
      (sorted_detections ascii found)
      (record { new_map = []; scratch = [] })
unfolding sorted_detections dedup dedup_step put get text_eq trim trim_left trim_right sort_by
    insert_by precedes assign_one is_known has has_case_insensitive_key register assign_name
    strategy_for elem assign pool_of first_free is_taken reserved_contains max_index index_of
    parse_token unclose split_last is_token_char token_prefix infixes byte_len text_lt next_token
    render first_number decimal atoi render_int int64
found_room = (omega arith, (omega arith, tt))

assign_new-Distinct_example :
    Distinct (values ([] ++ assign_new ascii plain_mac settings found [] []))
assign_new-Distinct_example =
    assign_new-Distinct ascii plain_mac settings found [] [] refl found_room tt
