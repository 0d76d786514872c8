-- ===== src/Session/Printable.antt =====
-- Derive: the form of a session id, and when it is made up.
use palena_litellm_pseudonym.Base.{
  ℕ, zero, suc, ◌+◌, ◌*◌, ◌/◌, ◌%◌, ◌≤◌, ◌<◌, ◌≡◌, ◌↔◌, inl, inr, refl, true, List, [], ◌∷◌, ◌++◌,
  Option, none, some, arith, if◌then◌else◌, Bool-cases, &&-eq-true, length, take, all,
  length-append, length-take, All,
}
use palena_litellm_pseudonym.GoLib.Strings.{Str, codes, is_empty}
use palena_litellm_pseudonym.GoLib.Unicode.{Unicode, trim_space}
use palena_litellm_pseudonym.Session.{
  Source, source_metadata_key, source_end_user, source_trace_id, source_call_id, source_synthetic,
  Input, Hash, hex_digit, hex, is_printable_char, is_printable, sanitize, newest_id,
  default_metadata_key, synthetic_id, first_source, candidates, returned, derive,
}

digit_printable : (n : ℕ) → n < 16 → is_printable_char (hex_digit n) ≡ true
digit_printable n h = ground arith

all-hex : (bs : List ℕ) → All (λ b. b < 256) bs → all is_printable_char (hex bs) ≡ true
unfolding hex
all-hex [] h = refl
all-hex (b ∷ bs) h =
    let high : is_printable_char (hex_digit (b / 16)) ≡ true =
      digit_printable (b / 16) (omega (arith, h.0)) in
    let low : is_printable_char (hex_digit (b % 16)) ≡ true =
      digit_printable (b % 16) (omega arith) in
    rw high (rw low (all-hex bs h.1))

length-hex : (bs : List ℕ) → length (hex bs) ≡ 2 * length bs
unfolding hex
length-hex [] = refl
length-hex (b ∷ bs) = omega (arith, length-hex bs)

All-take : (n : ℕ) (bs : List ℕ) → All (λ b. b < 256) bs → All (λ b. b < 256) (take n bs)
All-take zero bs h = tt
All-take (suc n) [] h = tt
All-take (suc n) (b ∷ bs) h = (h.0, All-take n bs h.1)

all-append :
    (s t : Str)
    → all is_printable_char s ≡ true
    → all is_printable_char t ≡ true
    → all is_printable_char (s ++ t) ≡ true
all-append [] t h k = k
all-append (c ∷ s) t h k =
    let (a, b) = &&-eq-true (is_printable_char c) (all is_printable_char s) h in
    rw a (all-append s t b k)

prefixed :
    (prefix : Str) (bs : List ℕ)
    → all is_printable_char prefix ≡ true
    → 1 ≤ length prefix
    → length prefix + 2 * length bs ≤ 256
    → All (λ b. b < 256) bs
    → is_printable (prefix ++ hex bs) ≡ true
unfolding is_printable
prefixed prefix bs printable some_prefix short bytes =
    let size = length-append prefix (hex bs) in
    let digits = length-hex bs in
    rw (all-append prefix (hex bs) printable (all-hex bs bytes)) (ground (arith, size, digits))

sanitize-printable : (sha : Hash) (v : Str) → is_printable (sanitize sha v) ≡ true
unfolding sanitize
sanitize-printable sha v = elim (Bool-cases (is_printable v)) [
  | inl fine ↦ rw fine fine
  | inr rejected ↦ rw rejected (
      prefixed (codes "hashed-") (take 16 (sha.sum v)) refl (omega arith)
        (omega (arith, length-take 16 (sha.sum v), sha.length-sum v))
        (All-take 16 (sha.sum v) (sha.sum-bytes v)))
]

-- What rand.Read fills: twelve bytes, or it fails.
abbrev pub AreRandom : Option (List ℕ) → Type 0
AreRandom none = Unit
AreRandom (some bytes) = (length bytes ≡ 12) × All (λ b. b < 256) bytes

synthetic_id-printable :
    (random : Option (List ℕ)) → AreRandom random → is_printable (synthetic_id random) ≡ true
unfolding synthetic_id
synthetic_id-printable none h = unfold is_printable in refl
synthetic_id-printable (some bytes) (twelve, small) =
    prefixed (codes "anon-") bytes refl (omega arith) (omega (arith, twelve)) small

-- The session id that Derive makes of a request has between 1 and 256 characters, all of them
-- printable ASCII, whatever the request holds, if the random bytes, where there are any, are twelve.
pub derive-printable :
    (u : Unicode) (sha : Hash) (random : Option (List ℕ)) (input : Input)
    → AreRandom random
    → is_printable (derive u sha random input).0 ≡ true
unfolding derive
derive-printable u sha random input h = returned-printable (first_source (candidates u input))
  where
    returned-printable :
        (found : Option (Str × Source)) → is_printable (returned sha random found).0 ≡ true
    returned-printable none = synthetic_id-printable random h
    returned-printable (some (v, source)) = sanitize-printable sha v

chain_end :
    (sha : Hash) (random : Option (List ℕ)) (a b c d : Str)
    → ((returned sha random (
          first_source (
            (a, source_metadata_key)
            ∷ (b, source_end_user)
            ∷ (c, source_trace_id)
            ∷ (d, source_call_id)
            ∷ []))).1
        ≡ source_synthetic)
      ↔ ((a ≡ []) × (b ≡ []) × (c ≡ []) × (d ≡ []))
unfolding first_source
chain_end sha random [] [] [] [] = (λ _. (refl, refl, refl, refl), λ _. refl)
chain_end sha random [] [] [] (x ∷ d) = (λ e. absurd (cc), λ h. absurd (cc))
chain_end sha random [] [] (x ∷ c) d = (λ e. absurd (cc), λ h. absurd (cc))
chain_end sha random [] (x ∷ b) c d = (λ e. absurd (cc), λ h. absurd (cc))
chain_end sha random (x ∷ a) b c d = (λ e. absurd (cc), λ h. absurd (cc))

-- The id is made up exactly if the request gives none: neither a message nor the three fields hold
-- one that is not blank.
pub derive-synthetic :
    (u : Unicode) (sha : Hash) (random : Option (List ℕ)) (input : Input)
    → ((derive u sha random input).1 ≡ source_synthetic) ↔ (
        (newest_id u
            (if is_empty input.metadata_key then default_metadata_key else input.metadata_key)
            input.structured_messages
          ≡ [])
        × (trim_space u input.end_user_id ≡ [])
        × (trim_space u input.trace_id ≡ [])
        × (trim_space u input.call_id ≡ []))
unfolding derive candidates
derive-synthetic u sha random input =
    chain_end sha random
      (newest_id u
        (if is_empty input.metadata_key then default_metadata_key else input.metadata_key)
        input.structured_messages)
      (trim_space u input.end_user_id) (trim_space u input.trace_id) (trim_space u input.call_id)
