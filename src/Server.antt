-- ===== src/Server.antt =====
-- cmd/server/main.go: how the NER engine's thresholds are set up, and what of the Redis URL is logged.
use palena_litellm_pseudonym.Base.{
  ℕ, ◌≡◌, refl, true, false, not, List, [], ◌∷◌, ◌++◌, Option, none, some, arith, ◌==◌, &&-eq-true,
  ==_refl, all,
}
use palena_litellm_pseudonym.GoLib.Strings.{Str, codes}
use palena_litellm_pseudonym.GoLib.Dict.{get, put}
use palena_litellm_pseudonym.GoLib.Cuts.{cut, after_prefix}
use palena_litellm_pseudonym.GoLib.Float.{Float, min_float}
use mathlib.Core.Option

-- The loop over the labels: the thresholds of the types, and the lowest of theirs.
unfoldable pub ner_thresholds :
    Float → List (Str × Str) → List (Str × Float) → Float → List (Str × Float) × Float
ner_thresholds ner_threshold [] thresholds lowest = (thresholds, lowest)
ner_thresholds ner_threshold ((label, entity_type) ∷ labels) thresholds lowest =
    elim (get entity_type thresholds) [
      | none ↦
          ner_thresholds ner_threshold labels (put entity_type ner_threshold thresholds)
            (min_float lowest ner_threshold)
      | some own ↦ ner_thresholds ner_threshold labels thresholds (min_float lowest own)
    ]

-- strings.Index with the parts around the first match.
unfoldable pub around : Str → Str → Option (Str × Str)
around sep [] = elim (after_prefix sep []) [ none ↦ none | some rest ↦ some ([], rest) ]
around sep (c ∷ s) =
    let later = around sep s in
    elim (after_prefix sep (c ∷ s)) [
      | some rest ↦ some ([], rest)
      | none ↦ Option.map (λ p. (c ∷ p.0, p.1)) later
    ]

unfoldable pub without_credentials : Str → Str
without_credentials rest = elim (cut b'@' rest) [ none ↦ rest | some (before, host) ↦ host ]

-- redactRedisURL
unfoldable pub redact_redis_url : Str → Str
unfolding around without_credentials
redact_redis_url raw = elim (around (codes "://") raw) [
  | none ↦ without_credentials raw
  | some (scheme, rest) ↦ scheme ++ (codes "://" ++ without_credentials rest)
]

cut_first :
    (c : ℕ) (s t : Str) → all (λ d. not (c == d)) s ≡ true → cut c (s ++ c ∷ t) ≡ some (s, t)
unfolding cut
cut_first c [] t e = rw (cut, ==_refl c) refl
cut_first c (d ∷ s) t e =
    let (differ, later) = &&-eq-true (not (c == d)) (all (λ x. not (c == x)) s) e in
    let apart : (c == d) ≡ false = ground arith in rw (cut, apart, cut_first c s t later) refl

around_first :
    (s t : Str)
    → all (λ d. not (b':' == d)) s ≡ true
    → around (codes "://") (s ++ (codes "://" ++ t)) ≡ some (s, t)
unfolding around after_prefix
around_first [] t e = refl
around_first (d ∷ s) t e =
    let (differ, later) = &&-eq-true (not (b':' == d)) (all (λ x. not (b':' == x)) s) e in
    let apart : (b':' == d) ≡ false = ground arith in
    rw (around, after_prefix, apart, around_first s t later) refl

-- Of a Redis URL with user and password only the scheme and what follows the @ is logged, provided
-- that there is no @ in the user or the password (and no colon in the scheme).
redact_redis_url_lem :
    (scheme credentials host : Str)
    → all (λ c. not (b':' == c)) scheme ≡ true
    → all (λ c. not (b'@' == c)) credentials ≡ true
    → redact_redis_url (scheme ++ (codes "://" ++ (credentials ++ b'@' ∷ host)))
      ≡ scheme ++ (codes "://" ++ host)
unfolding redact_redis_url without_credentials
redact_redis_url_lem scheme credentials host plain secret =
    rw (redact_redis_url, around_first scheme (credentials ++ b'@' ∷ host) plain)
      (rw (without_credentials, cut_first b'@' credentials host secret) refl)
