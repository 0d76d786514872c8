-- ===== src/Text/Pools.antt =====
-- internal/text/pools.go: the pools of fictional names, the search of a free one, and the fallback
-- that numbers names when a pool is exhausted. A set of used names is a list; HMAC-SHA256 is the
-- parameter `mac`, which yields the bytes of a digest.
pub mod Fresh
use palena_litellm_pseudonym.Base.{
  ℕ, zero, suc, ◌+◌, ◌*◌, ◌/◌, ◌%◌, Bool, false, ◌||◌, List, [], ◌∷◌, ◌++◌, Option, none, some, ltb,
  ◌==◌, if◌then◌else◌, length, get_elem?,
}
use palena_litellm_pseudonym.GoLib.Strings.{
  Str, codes, raw_byte, replacement_char, width, is_empty, contains, elem, infixes,
}
use palena_litellm_pseudonym.GoLib.Decimal.{decimal, value}
use palena_litellm_pseudonym.GoLib.Dict.{get}
use palena_litellm_pseudonym.GoLib.Unicode.{Unicode, lower, trim_space}
use palena_litellm_pseudonym.Text.Numbering.{first_number}

pub record Pools : Type 0 where
  pub by_type : List (Str × List Str)

-- The names of one pool that are not blank, trimmed.
clean : Unicode → List Str → List Str
clean u [] = []
clean u (entry ∷ rest) =
    let e = trim_space u entry in if is_empty e then clean u rest else e ∷ clean u rest

clean_all : Unicode → List (Str × List Str) → List (Str × List Str)
unfolding clean
clean_all u [] = []
clean_all u ((k, v) ∷ rest) = (k, clean u v) ∷ clean_all u rest

unfoldable pub new_pools : Unicode → List (Str × List Str) → Pools
unfolding clean_all
new_pools u pools = record { by_type = clean_all u pools }

-- p.byType[entityType]: nil for a type without a pool.
unfoldable pub pool_of : Pools → Str → List Str
pool_of p entity_type = elim (get entity_type p.by_type) [ none ↦ [] | some names ↦ names ]

unfoldable pub synthetic_prefix : List (Str × Str)
synthetic_prefix =
    (codes "PERSON", codes "Person")
    ∷ (codes "ORGANIZATION", codes "Organization")
    ∷ (codes "LOCATION", codes "Location")
    ∷ []

-- The bytes after the first of an encoded code point.
continuation : ℕ → Str
continuation c =
    if ltb c 0x80
    then []
    else if ltb c 0x800
    then raw_byte (0x80 + c % 64) ∷ []
    else if ltb c 0x10000
    then raw_byte (0x80 + c / 64 % 64) ∷ raw_byte (0x80 + c % 64) ∷ []
    else raw_byte (0x80 + c / 4096 % 64)
      ∷ raw_byte (0x80 + c / 64 % 64)
      ∷ raw_byte (0x80 + c % 64)
      ∷ []

-- strings.ToUpper(lowered[:1]) + lowered[1:], which cuts after the first byte.
cut_first : Unicode → Str → Str
unfolding continuation
cut_first u [] = []
cut_first u (c ∷ s) =
    if width c == 1 then u.to_upper c ∷ s else replacement_char ∷ continuation c ++ s

unfoldable pub title_case : Unicode → Str → Str
unfolding cut_first
title_case u s = if is_empty s then s else cut_first u (lower u s)

-- Whether the candidate, in lower case, occurs in the reserved text.
unfoldable pub reserved_contains : Unicode → Str → Str → Bool
reserved_contains u reserved candidate =
    if is_empty reserved then false else contains reserved (lower u candidate)

-- The two `continue`s of each search.
unfoldable pub is_taken : Unicode → List Str → Str → Str → Bool
is_taken u used reserved candidate = elem candidate used || reserved_contains u reserved candidate

unfoldable pub first_free : Unicode → List Str → Str → List Str → Option Str
first_free u used reserved [] = none
first_free u used reserved (candidate ∷ rest) =
    let later = first_free u used reserved rest in
    if is_taken u used reserved candidate then later else some candidate

unfoldable pub prefix_for : Unicode → Str → Str
prefix_for u entity_type = elim (get entity_type synthetic_prefix) [
  | none ↦ title_case u entity_type
  | some prefix ↦ prefix
]

-- fmt.Sprintf("%s-%d", prefix, n)
unfoldable pub numbered : Str → ℕ → Str
numbered prefix n = prefix ++ b'-' ∷ decimal n

-- Above the number of names that can be in the way of a candidate.
unfoldable pub search_fuel : List Str → Str → ℕ
search_fuel used reserved = suc (length used + length (infixes reserved))

unfoldable pub synthetic_fallback : Unicode → Str → List Str → Str → Str
synthetic_fallback u entity_type used reserved =
    let prefix = prefix_for u entity_type in
    elim (first_number (λ n. is_taken u used reserved (numbered prefix n))
      (search_fuel used reserved) 1) [ none ↦ [] | some n ↦ numbered prefix n ]

unfoldable pub assign : Unicode → Pools → Str → List Str → Str → Str
assign u p entity_type used reserved = elim (first_free u used reserved (pool_of p entity_type)) [
  | some candidate ↦ candidate
  | none ↦ synthetic_fallback u entity_type used reserved
]

-- binary.BigEndian.Uint64 of the first eight bytes.
unfoldable pub big_endian : ℕ → ℕ → List ℕ → ℕ
big_endian zero acc bytes = acc
big_endian (suc k) acc [] = acc
big_endian (suc k) acc (b ∷ bytes) = big_endian k (acc * 256 + b) bytes

unfoldable pub hmac_index : (Str → Str → List ℕ) → Str → Str → ℕ → ℕ
hmac_index mac secret value n = if n == 0 then 0 else big_endian 8 0 (mac secret value) % n

-- The loop over i: `rounds` are left.
unfoldable pub probe : Unicode → List Str → Str → List Str → ℕ → ℕ → ℕ → Option Str
probe u used reserved pool start zero i = none
probe u used reserved pool start (suc rounds) i =
    let later = probe u used reserved pool start rounds (suc i) in
    elim (get_elem? pool ((start + i) % length pool)) [
      | none ↦ none
      | some candidate ↦ if is_taken u used reserved candidate then later else some candidate
    ]

unfoldable pub assign_deterministic :
    Unicode → (Str → Str → List ℕ) → Pools → Str → Str → List Str → Str → Str → Str
assign_deterministic u mac p entity_type name used reserved secret =
    let pool = pool_of p entity_type in
    let start = hmac_index mac secret (lower u (trim_space u name)) (length pool) in
    if length pool == 0
    then synthetic_fallback u entity_type used reserved
    else elim (probe u used reserved pool start (length pool) 0) [
      | some candidate ↦ candidate
      | none ↦ synthetic_fallback u entity_type used reserved
    ]
