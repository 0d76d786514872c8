-- ===== src/Text/Units.antt =====
-- internal/text/units.go: the lines of a text, and the windows of a long line. The index of byte offsets
-- is byte_len of the characters before.
pub mod Windows
use palena_litellm_pseudonym.Base.{
  ℕ, zero, suc, ◌+◌, ◌-◌, ◌*◌, ◌/◌, ◌%◌, ◌^◌, ◌≤◌, ◌<◌, ◌≡◌, ◌≢◌, ◌↔◌, ◌⊎◌, inl, inr, refl, sym, ap,
  subst, ◌∙◌, Bool, true, false, ◌&&◌, ◌||◌, not, List, [], ◌∷◌, ◌++◌, map, append_assoc,
  append-nil, Option, none, some, arith, ltb, leb, ◌==◌, if◌then◌else◌, Bool-cases, Option-cases,
  &&-eq-true, ||-eq-true, ||-eq-false, bool_ext, ==_iff, ==_refl, leb→le, ltb→lt, lt→ltb, length,
  take, drop, get_elem?, all, any, keep, length-append, take-append-drop, length-take, length-drop,
  take_all, take-append, drop-append, length-keep-le, length-map, In, Distinct, All, In-append_left,
  In-append_right, All-In, pigeonhole, In-map,
}
use palena_litellm_pseudonym.GoLib.Strings.{
  Str, codes, raw_byte, replacement_char, width, byte_len, is_empty, text_eq, text_eq_iff,
  text_eq_refl, text_eq-false, starts_with, contains, elem, elem_iff, infixes, In-infixes,
  width_pos, byte_len-append,
}
use palena_litellm_pseudonym.GoLib.Dict.{
  get, put, has, keys, get-put, get-put_self, get-put_ne, has-false, has_of_get, put_new,
  get-append, In-keys_of_get, get_of_In-keys,
}
use palena_litellm_pseudonym.GoLib.Unicode.{
  Unicode, lower, upper, equal_fold, lower-lower, trim_left, trim_right, trim, trim_space, fields,
}
use Prim.Native.Nat.{max}
use mathlib.Core.Option

-- The type unit.
pub record TextUnit : Type 0 where
  pub offset : ℕ
  pub text : Str

abbrev pub decoded : ℕ → ℕ
decoded c = if leb 0x110000 c then replacement_char else c

-- runeAt: behind the end an undecodable character.
abbrev pub rune_at : Str → ℕ → ℕ
rune_at line i = elim (get_elem? line i) [ none ↦ replacement_char | some c ↦ decoded c ]

abbrev pub is_space_at : Unicode → Str → ℕ → Bool
is_space_at u line i = u.is_space (rune_at line i)

abbrev pub is_sentence_mark : ℕ → Bool
is_sentence_mark c = c == b'.' || c == b'!' || c == b'?' || c == b';' || c == b':'

-- The first loop of cutAt, from i downwards while i > lo.
unfoldable pub sentence_cut : Unicode → Str → ℕ → ℕ → Option ℕ
sentence_cut u line lo zero = none
sentence_cut u line lo (suc i) =
    let lower_cut = sentence_cut u line lo i in
    if ltb lo (suc i)
    then if is_space_at u line (suc i) && is_sentence_mark (rune_at line i)
      then some (suc i + 1)
      else lower_cut
    else none

-- The second loop, from i downwards while i >= lo, where lo is positive.
unfoldable pub space_cut : Unicode → Str → ℕ → ℕ → Option ℕ
space_cut u line lo zero = none
space_cut u line lo (suc i) =
    let lower_cut = space_cut u line lo i in
    if leb lo (suc i)
    then if is_space_at u line (suc i) then some (suc i + 1) else lower_cut
    else none

unfoldable pub cut_at : Unicode → Str → ℕ → ℕ → ℕ → ℕ
cut_at u line start end overlap =
    let lo = max (start + 1) (end - overlap) in
    elim (sentence_cut u line lo (end - 1)) [
      | some cut ↦ cut
      | none ↦ elim (space_cut u line lo (end - 1)) [ some cut ↦ cut | none ↦ end ]
    ]

-- for next < end && !isSpaceAt(next-1): `left` is end - next.
unfoldable pub word_start : Unicode → Str → ℕ → ℕ → ℕ
word_start u line zero next = next
word_start u line (suc left) next =
    let further = word_start u line left (suc next) in
    if is_space_at u line (next - 1) then next else further

unfoldable pub window_end : Unicode → Str → ℕ → ℕ → ℕ → ℕ
window_end u line max_chars overlap start =
    if ltb (start + max_chars) (length line)
    then cut_at u line start (start + max_chars) overlap
    else length line

unfoldable pub next_start : Unicode → Str → ℕ → ℕ → ℕ → ℕ
next_start u line overlap start end =
    let next = max (end - overlap) (start + 1) in word_start u line (end - next) next

-- The loop of windowLine: the windows from `start` on as pairs of character indices. The fuel is the
-- number of characters, since every window starts behind the one before.
unfoldable pub windows : Unicode → Str → ℕ → ℕ → ℕ → ℕ → List (ℕ × ℕ)
windows u line max_chars overlap zero start = []
windows u line max_chars overlap (suc fuel) start =
    let end = window_end u line max_chars overlap start in
    let later = windows u line max_chars overlap fuel (next_start u line overlap start end) in
    if ltb start (length line)
    then (start, end) ∷ (if leb (length line) end then [] else later)
    else []

unfoldable pub piece_at : Str → ℕ × ℕ → TextUnit
piece_at line (start, end) = record {
  offset = byte_len (take start line);
  text = take (end - start) (drop start line);
}

-- The overlap that is used: one of half a window or more is replaced by a quarter.
unfoldable pub fitting_overlap : ℕ → ℕ → ℕ
fitting_overlap max_chars overlap = if leb (max_chars / 2) overlap then max_chars / 4 else overlap

-- A limit that is not positive is 0; a negative overlap is one that is too large.
unfoldable pub window_line : Unicode → Str → ℕ → ℕ → List TextUnit
window_line u line max_chars overlap =
    if max_chars == 0 || leb (length line) max_chars
    then record { offset = 0; text = line } ∷ []
    else map (piece_at line)
        (windows u line max_chars (fitting_overlap max_chars overlap) (length line) 0)

unfoldable pub line_pieces : Unicode → ℕ → Str → ℕ → ℕ → List TextUnit
line_pieces u pos line max_chars overlap =
    if is_empty (trim_space u line)
    then []
    else map (λ w. record { offset = pos + w.offset; text = w.text })
        (window_line u line max_chars overlap)

-- The text up to the first line feed, and the text behind it if there is one.
unfoldable pub cut_line : Str → Str × Option Str
cut_line [] = ([], none)
cut_line (c ∷ s) =
    let (line, rest) = cut_line s in if c == 10 then ([], some s) else (c ∷ line, rest)

-- The loop of splitUnits; the fuel is one more than the number of characters.
unfoldable pub units_from : Unicode → ℕ → ℕ → ℕ → ℕ → Str → List TextUnit
units_from u max_chars overlap zero pos s = []
units_from u max_chars overlap (suc fuel) pos s =
    let line = (cut_line s).0 in
    line_pieces u pos line max_chars overlap ++ elim (cut_line s).1 [
      | none ↦ []
      | some rest ↦ units_from u max_chars overlap fuel (pos + byte_len line + 1) rest
    ]

unfoldable pub split_units : Unicode → Str → ℕ → ℕ → List TextUnit
split_units u s max_chars overlap = units_from u max_chars overlap (suc (length s)) 0 s

-- charToByte: none if an index lies outside.
unfoldable pub char_to_byte : Str → List ℕ → Option (List ℕ)
char_to_byte s [] = some []
char_to_byte s (c ∷ chars) =
    let later = char_to_byte s chars in
    if ltb (length s) c then none else Option.map (◌∷◌ (byte_len (take c s))) later
