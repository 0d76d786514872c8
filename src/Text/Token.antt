-- ===== src/Text/Token.antt =====
-- The token pseudonyms of internal/text/strategy.go, such as <CREDIT_CARD_12>: their pattern tokenRE,
-- `^<([A-Z0-9_]+)_(\d+)>$`, their prefix and the next free one.
pub mod RoundTrip
use palena_litellm_pseudonym.Base.{
  ℕ, suc, ◌+◌, ◌≤◌, ◌≡◌, refl, arith, Bool, true, false, ◌&&◌, ◌||◌, not, List, [], ◌∷◌, ◌++◌, map,
  Option, none, some, ltb, leb, ◌==◌, if◌then◌else◌, length, all,
}
use palena_litellm_pseudonym.GoLib.Strings.{Str, codes, is_empty, text_eq, infixes}
use palena_litellm_pseudonym.GoLib.Decimal.{decimal, max_int, is_digit, atoi}
use palena_litellm_pseudonym.GoLib.Int.{ℤ, pos, negsuc, int64, int64-small}
use palena_litellm_pseudonym.GoLib.Unicode.{Unicode, upper, trim, trim_space}
use mathlib.Core.Option
use palena_litellm_pseudonym.Text.Numbering.{first_number}
use palena_litellm_pseudonym.Text.Pools.{reserved_contains}

-- [A-Z0-9_]
unfoldable pub is_token_char : ℕ → Bool
is_token_char c = (leb b'A' c && leb c b'Z') || is_digit c || c == b'_'

-- A text without its last code point, if that is `>`.
unfoldable pub unclose : Str → Option Str
unclose [] = none
unclose (c ∷ []) = if c == b'>' then some [] else none
unclose (c ∷ d ∷ s) = Option.map (◌∷◌ c) (unclose (d ∷ s))

-- The texts before and after the last underscore.
unfoldable pub split_last : Str → Option (Str × Str)
split_last [] = none
split_last (c ∷ s) = elim (split_last s) [
  | some (a, b) ↦ some (c ∷ a, b)
  | none ↦ if c == b'_' then some ([], s) else none
]

check_parts : Option (Str × Str) → Option (Str × Str)
check_parts none = none
check_parts (some (prefix, index)) =
    if not (is_empty prefix)
      && all is_token_char prefix
      && not (is_empty index)
      && all is_digit index
    then some (prefix, index)
    else none

open_body : Option Str → Option (Str × Str)
unfolding check_parts
open_body none = none
open_body (some body) = check_parts (split_last body)

-- tokenRE.FindStringSubmatch: the two groups. No digit is an underscore, so the second group
-- stands behind the last one.
unfoldable pub parse_token : Str → Option (Str × Str)
unfolding open_body
parse_token [] = none
parse_token (c ∷ s) = if c == b'<' then open_body (unclose s) else none

-- tokenRE.MatchString
unfoldable pub is_token : Str → Bool
is_token s = elim (parse_token s) [ none ↦ false | some parts ↦ true ]

upper_or_underscore : ℕ → ℕ
upper_or_underscore c = if (leb b'A' c && leb c b'Z') || is_digit c then c else b'_'

unfoldable pub token_prefix : Unicode → Str → Str
unfolding upper_or_underscore
token_prefix u entity_type =
    let up = trim (λ c. c == b'_') (map upper_or_underscore (upper u (trim_space u entity_type))) in
    if is_empty up then codes "PII" else up

-- The token with an index.
unfoldable pub render : Str → ℕ → Str
render prefix n = b'<' ∷ (prefix ++ b'_' ∷ (decimal n ++ b'>' ∷ []))

-- %d
decimal_int : ℤ → Str
decimal_int (pos n) = decimal n
decimal_int (negsuc n) = b'-' ∷ decimal (suc n)

-- fmt.Sprintf("<%s_%d>", prefix, n), where n is an int that wraps around.
unfoldable pub render_int : Str → ℕ → Str
unfolding decimal_int
render_int prefix n = b'<' ∷ (prefix ++ b'_' ∷ (decimal_int (int64 n) ++ b'>' ∷ []))

pub render_int-small : (prefix : Str) (n : ℕ) → n ≤ max_int → render_int prefix n ≡ render prefix n
unfolding render_int decimal_int render
render_int-small prefix n small = rw (int64-small n (omega arith)) refl

-- The index of a value that is a token of this prefix and fits into an int.
unfoldable pub index_of : Str → Str → Option ℕ
index_of prefix v = elim (parse_token v) [
  | none ↦ none
  | some (p, digits) ↦ if text_eq p prefix then atoi digits else none
]

-- The loop over the scratch mapping.
unfoldable pub max_index : Str → ℕ → List (Str × Str) → ℕ
max_index prefix max_n [] = max_n
max_index prefix max_n ((k, v) ∷ scratch) =
    max_index prefix
      (elim (index_of prefix v) [ none ↦ max_n | some n ↦ if ltb max_n n then n else max_n ])
      scratch

-- The search starts behind the largest index; its numbers are taken modulo 2^64 where they are rendered.
unfoldable pub next_token : Unicode → Str → List (Str × Str) → Str → Str
next_token u entity_type scratch reserved =
    let prefix = token_prefix u entity_type in
    elim (first_number (λ n. reserved_contains u reserved (render_int prefix n))
      (suc (length (infixes reserved))) (max_index prefix 0 scratch + 1)) [
        | none ↦ []
        | some n ↦ render_int prefix n
      ]
