-- ===== src/Session.antt =====
-- internal/session/derive.go: the session id of a request. SHA-256 and the source of random bytes are
-- parameters, with the lengths that they document.
pub mod Printable
use palena_litellm_pseudonym.Base.{
  ℕ, zero, suc, ◌+◌, ◌-◌, ◌*◌, ◌/◌, ◌%◌, ◌^◌, ◌≤◌, ◌<◌, ◌≡◌, ◌≢◌, ◌↔◌, ◌⊎◌, inl, inr, refl, sym, ap,
  subst, ◌∙◌, Bool, true, false, ◌&&◌, ◌||◌, not, List, [], ◌∷◌, ◌++◌, map, append_assoc,
  append-nil, Option, none, some, arith, ltb, leb, ◌==◌, if◌then◌else◌, Bool-cases, Option-cases,
  &&-eq-true, ||-eq-true, ||-eq-false, bool_ext, ==_iff, ==_refl, leb→le, ltb→lt, lt→ltb, length,
  take, drop, get_elem?, all, any, keep, length-append, take-append-drop, length-take, length-drop,
  take_all, take-append, drop-append, length-keep-le, length-map, In, Distinct, All, In-append_left,
  In-append_right, All-In, pigeonhole, In-map,
}
use palena_litellm_pseudonym.GoLib.Strings.{
  Str, codes, raw_byte, replacement_char, width, byte_len, is_empty, text_eq, text_eq_iff,
  text_eq_refl, text_eq-false, starts_with, contains, elem, elem_iff, infixes, In-infixes,
  width_pos, byte_len-append,
}
use palena_litellm_pseudonym.GoLib.Dict.{
  get, put, has, keys, get-put, get-put_self, get-put_ne, has-false, has_of_get, put_new,
  get-append, In-keys_of_get, get_of_In-keys,
}
use palena_litellm_pseudonym.GoLib.Unicode.{
  Unicode, lower, upper, equal_fold, lower-lower, trim_left, trim_right, trim, trim_space, fields,
}

-- Of the values of a decoded message only these are told apart.
pub data Value : Type 0 where
  text : Str → Value
  no_text : Value

pub data Field : Type 0 where
  object : List (Str × Value) → Field
  no_object : Field

pub data Source : Type 0 where
  source_metadata_key source_end_user source_trace_id source_call_id source_synthetic : Source

pub record Input : Type 0 where
  pub structured_messages : List (List (Str × Field))
  pub end_user_id : Str
  pub trace_id : Str
  pub call_id : Str
  pub metadata_key : Str

pub record Hash : Type 0 where
  pub sum : Str → List ℕ
  pub length-sum : (s : Str) → length (sum s) ≡ 32
  pub sum-bytes : (s : Str) → All (λ b. b < 256) (sum s)

abbrev pub hex_digit : ℕ → ℕ
hex_digit n = if ltb n 10 then b'0' + n else b'a' + (n - 10)

-- hex.EncodeToString
unfoldable pub hex : List ℕ → Str
hex [] = []
hex (b ∷ bs) = hex_digit (b / 16) ∷ hex_digit (b % 16) ∷ hex bs

abbrev pub is_printable_char : ℕ → Bool
is_printable_char c = leb 0x20 c && leb c 0x7E

-- printableRE: ^[\x20-\x7E]{1,256}$
unfoldable pub is_printable : Str → Bool
is_printable v = all is_printable_char v && leb 1 (length v) && leb (length v) 256

unfoldable pub sanitize : Hash → Str → Str
sanitize sha v = if is_printable v then v else codes "hashed-" ++ hex (take 16 (sha.sum v))

-- The trimmed id in one message, empty if it has none.
unfoldable pub message_id : Unicode → Str → List (Str × Field) → Str
message_id u key msg = elim (get (codes "metadata") msg) [
  | none ↦ []
  | some no_object ↦ []
  | some (object meta) ↦ elim (get key meta) [
    | none ↦ []
    | some no_text ↦ []
    | some (text v) ↦ trim_space u v
  ]
]

-- The loop over the messages, from the newest, which is the last.
unfoldable pub newest_id : Unicode → Str → List (List (Str × Field)) → Str
newest_id u key [] = []
newest_id u key (msg ∷ later) =
    let newer = newest_id u key later in if is_empty newer then message_id u key msg else newer

unfoldable pub default_metadata_key : Str
default_metadata_key = codes "session_id"

-- `random` is what rand.Read fills twelve bytes with; none is its failure.
unfoldable pub synthetic_id : Option (List ℕ) → Str
synthetic_id none = codes "anon-fallback"
synthetic_id (some bytes) = codes "anon-" ++ hex bytes

-- The first of the candidates that is not empty, in the order of the chain.
unfoldable pub first_source : List (Str × Source) → Option (Str × Source)
first_source [] = none
first_source ((v, source) ∷ rest) = if is_empty v then first_source rest else some (v, source)

unfoldable pub candidates : Unicode → Input → List (Str × Source)
candidates u input =
    let key = if is_empty input.metadata_key then default_metadata_key else input.metadata_key in
    (newest_id u key input.structured_messages, source_metadata_key)
    ∷ (trim_space u input.end_user_id, source_end_user)
    ∷ (trim_space u input.trace_id, source_trace_id)
    ∷ (trim_space u input.call_id, source_call_id)
    ∷ []

-- What the chain returns for the candidate that it has found.
abbrev pub returned : Hash → Option (List ℕ) → Option (Str × Source) → Str × Source
returned sha random none = (synthetic_id random, source_synthetic)
returned sha random (some (v, source)) = (sanitize sha v, source)

unfoldable pub derive : Unicode → Hash → Option (List ℕ) → Input → Str × Source
derive u sha random input = returned sha random (first_source (candidates u input))
