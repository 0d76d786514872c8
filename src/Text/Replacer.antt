-- ===== src/Text/Replacer.antt =====
-- internal/text/replacer.go: replacement at word boundaries, without regard to case. The regular
-- expression `(?i)(k1|…|kn)('s|’s|')?` is leftmost-first: at each position the first key that
-- matches is taken, then the first ending. Letters match if they fold alike.
pub mod Casing
pub mod Pieces
pub mod Rewrites
use palena_litellm_pseudonym.Base.{
  ℕ, zero, suc, ◌+◌, ◌-◌, ◌*◌, ◌/◌, ◌%◌, ◌^◌, ◌≤◌, ◌<◌, ◌≡◌, ◌≢◌, ◌↔◌, ◌⊎◌, inl, inr, refl, sym, ap,
  subst, ◌∙◌, Bool, true, false, ◌&&◌, ◌||◌, not, List, [], ◌∷◌, ◌++◌, map, append_assoc,
  append-nil, Option, none, some, arith, ltb, leb, ◌==◌, if◌then◌else◌, Bool-cases, Option-cases,
  &&-eq-true, ||-eq-true, ||-eq-false, bool_ext, ==_iff, ==_refl, leb→le, ltb→lt, lt→ltb, length,
  take, drop, get_elem?, all, any, keep, length-append, take-append-drop, length-take, length-drop,
  take_all, take-append, drop-append, length-keep-le, length-map, In, Distinct, All, In-append_left,
  In-append_right, All-In, pigeonhole, In-map,
}
use palena_litellm_pseudonym.GoLib.Strings.{
  Str, codes, raw_byte, replacement_char, width, byte_len, is_empty, text_eq, text_eq_iff,
  text_eq_refl, text_eq-false, starts_with, contains, elem, elem_iff, infixes, In-infixes,
  width_pos, byte_len-append,
}
use palena_litellm_pseudonym.GoLib.Dict.{
  get, put, has, keys, get-put, get-put_self, get-put_ne, has-false, has_of_get, put_new,
  get-append, In-keys_of_get, get_of_In-keys,
}
use palena_litellm_pseudonym.GoLib.Unicode.{
  Unicode, lower, upper, equal_fold, lower-lower, trim_left, trim_right, trim, trim_space, fields,
}
use mathlib.Core.Option
use palena_litellm_pseudonym.GoLib.Order.{text_lt, sort_by}
use palena_litellm_pseudonym.Text.Token.{is_token}

unfoldable pub is_word_context : Unicode → ℕ → Bool
is_word_context u c =
    if c == b'_' || c == 0x27 || c == 0x2019 then true else u.is_letter c || u.is_digit c

-- utf8.RuneError is what an undecodable byte decodes to, and a character of its own.
abbrev is_rune_error : ℕ → Bool
is_rune_error c = c == replacement_char || leb 0x110000 c

unfoldable pub left_boundary_clear : Unicode → Option ℕ → Bool
left_boundary_clear u none = true
left_boundary_clear u (some c) = if is_rune_error c then true else not (is_word_context u c)

unfoldable pub right_boundary_clear : Unicode → Option ℕ → Bool
right_boundary_clear u none = true
right_boundary_clear u (some c) =
    if is_rune_error c
    then true
    else if c == b'_'
    then false
    else not (u.is_letter c) && not (u.is_digit c)

-- A literal under (?i): what it matches at the start of the text, and the rest.
unfoldable pub match_key : Unicode → Str → Str → Option (Str × Str)
match_key u [] s = some ([], s)
match_key u (c ∷ k) [] = none
match_key u (c ∷ k) (d ∷ s) =
    if u.fold c == u.fold d then Option.map (λ m. (d ∷ m.0, m.1)) (match_key u k s) else none

-- An alternation: the first alternative that matches.
unfoldable pub match_first : Unicode → List Str → Str → Option (Str × Str)
match_first u [] s = none
match_first u (k ∷ keys) s = elim (match_key u k s) [
  | some m ↦ some m
  | none ↦ match_first u keys s
]

unfoldable pub endings : List Str
endings = codes "'s" ∷ (0x2019 ∷ b's' ∷ []) ∷ codes "'" ∷ []

-- The optional second group.
unfoldable pub possessive : Unicode → Str → Str × Str
possessive u s = elim (match_first u endings s) [ none ↦ ([], s) | some m ↦ m ]

-- A match with its neighbours: the code point before it, the key, the possessive ending, and the
-- code point behind it. A gap is a code point that is no part of a match.
pub data Piece : Type 0 where
  gap : ℕ → Piece
  hit : Option ℕ → Str → Str → Option ℕ → Piece

abbrev pub head_of : Str → Option ℕ
head_of [] = none
head_of (c ∷ s) = some c

abbrev pub last_of : Option ℕ → Str → Option ℕ
last_of prev [] = prev
last_of prev (c ∷ s) = last_of (some c) s

-- FindAllStringSubmatchIndex, with what lies between the matches. The fuel is the text's length,
-- since no key is empty.
unfoldable pub pieces : Unicode → List Str → ℕ → Option ℕ → Str → List Piece
pieces u keys zero prev s = []
pieces u keys (suc fuel) prev [] = []
pieces u keys (suc fuel) prev (c ∷ s) = elim (match_first u keys (c ∷ s)) [
  | none ↦ gap c ∷ pieces u keys fuel (some c) s
  | some (source, rest) ↦
      let ending = possessive u rest in
      hit prev source ending.0 (head_of ending.1)
      ∷ pieces u keys fuel (last_of prev (source ++ ending.0)) ending.1
]

unfoldable pub case_like : Unicode → Str → Str → Str
case_like u [] replacement = replacement
case_like u (c ∷ letters) replacement =
    if all u.is_upper (c ∷ letters)
    then upper u replacement
    else if all u.is_lower (c ∷ letters)
    then lower u replacement
    else replacement

-- The casing of the source on the replacement; a token is never changed, and none is for a token.
unfoldable pub match_case : Unicode → Str → Str → Str
unfolding case_like
match_case u source replacement =
    if is_token source || is_token replacement
    then replacement
    else case_like u (keep u.is_letter source) replacement

-- One round of the loop over the matches.
unfoldable pub rewrite_piece : Unicode → List (Str × Str) → Piece → Str
rewrite_piece u lowered (gap c) = c ∷ []
rewrite_piece u lowered (hit before source ending after) =
    if not (left_boundary_clear u before) || not (right_boundary_clear u after)
    then source ++ ending
    else elim (get (lower u source) lowered) [
      | none ↦ source ++ ending
      | some replacement ↦ match_case u source replacement ++ ending
    ]

unfoldable pub rewrite_pieces : Unicode → List (Str × Str) → List Piece → Str
rewrite_pieces u lowered [] = []
rewrite_pieces u lowered (p ∷ ps) = rewrite_piece u lowered p ++ rewrite_pieces u lowered ps

-- The table from lowered keys, in the order in which the map is ranged over.
unfoldable pub lowered_into : Unicode → List (Str × Str) → List (Str × Str) → List (Str × Str)
lowered_into u table [] = table
lowered_into u table ((k, v) ∷ mapping) = lowered_into u (put (lower u k) v table) mapping

unfoldable pub lowered_table : Unicode → List (Str × Str) → List (Str × Str)
lowered_table u mapping = lowered_into u [] mapping

-- Longest first in bytes, then alphabetical.
unfoldable pub key_precedes : Str → Str → Bool
key_precedes a b = if byte_len a == byte_len b then text_lt a b else ltb (byte_len b) (byte_len a)

unfoldable pub sorted_keys : List (Str × Str) → List Str
sorted_keys mapping = sort_by key_precedes (keep (λ k. not (is_empty k)) (keys mapping))

replace_by : Unicode → List (Str × Str) → List Str → Str → Str
replace_by u mapping [] text = text
replace_by u mapping (k ∷ ks) text =
    rewrite_pieces u (lowered_table u mapping) (pieces u (k ∷ ks) (length text) none text)

unfoldable pub replace : Unicode → Str → List (Str × Str) → Str
unfolding replace_by
replace u text mapping =
    if is_empty text || length mapping == 0
    then text
    else replace_by u mapping (sorted_keys mapping) text
