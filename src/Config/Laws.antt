-- ===== src/Config/Laws.antt =====
-- internal/config/config.go: what the other components may rely on in a configuration that Validate
-- accepts.
use palena_litellm_pseudonym.Base.{
  ℕ, ◌/◌, ◌≤◌, ◌<◌, ◌≡◌, ◌⊎◌, inl, inr, refl, sym, ap, subst, ◌∙◌, Bool, true, false, ◌||◌, not,
  List, [], ◌∷◌, ◌++◌, none, some, arith, leb, ◌==◌, if◌then◌else◌, Bool-cases, Option-cases,
  &&-eq-true, ||-eq-true, All, In,
}
use palena_litellm_pseudonym.GoLib.Strings.{Str, codes, text_eq, text_eq_iff, elem}
use palena_litellm_pseudonym.GoLib.Dict.{get}
use palena_litellm_pseudonym.GoLib.Unicode.{Unicode}
use palena_litellm_pseudonym.Config.{
  Config, ConfigError, invalid_analyzer_url, Libraries, strategy_overrides, pools_map,
  entity_thresholds, least, min_score_threshold, valid_strategy, half, no_url, deny_checks,
  engine_checks, strategies_valid, other_checks, all_checks, first_failure, validate,
}
use palena_litellm_pseudonym.GoLib.Float.{
  Float, nan, neg_inf, pos_inf, fixed, is_nan, lt_float, le_float, min_float, min_float-le,
  le_float_trans,
}
use palena_litellm_pseudonym.GoLib.Int.{ℤ, pos, negsuc, ltbℤ}
use palena_litellm_pseudonym.Ner.{new_batch_size}
use palena_litellm_pseudonym.Text.Pools.{new_pools}
use palena_litellm_pseudonym.Text.Strategy.{
  strategy_pool, strategy_token, nominal_types, new_strategizer, strategy_for, Strategizer,
}
use palena_litellm_pseudonym.Text.Units.{fitting_overlap}
use mathlib.Core.Option

abbrev Passed : Bool × ConfigError → Type 0
Passed check = check.0 ≡ false

All-Passed : (checks : List (Bool × ConfigError)) → first_failure checks ≡ none → All Passed checks
unfolding first_failure
All-Passed [] e = tt
All-Passed ((true, x) ∷ checks) e = absurd (cc)
All-Passed ((false, x) ∷ checks) e = (refl, All-Passed checks e)

All-split :
    (xs ys : List (Bool × ConfigError)) → All Passed (xs ++ ys) → All Passed xs × All Passed ys
All-split [] ys a = (tt, a)
All-split (x ∷ xs) ys (here, later) =
    let (left, right) = All-split xs ys later in ((here, left), right)

not-false : (b : Bool) → not b ≡ false → b ≡ true
not-false true e = refl
not-false false e = absurd (cc)

strategies_valid-get :
    (m : List (Str × Str)) (k s : Str)
    → strategies_valid m ≡ true
    → get k m ≡ some s
    → valid_strategy s ≡ true
unfolding strategies_valid get
strategies_valid-get [] k s h e = absurd (cc)
strategies_valid-get ((j, v) ∷ m) k s h e =
    let (here, later) = &&-eq-true (valid_strategy v) (strategies_valid m) h in
    elim (Bool-cases (text_eq j k)) [
      | inl same ↦
          let x = rw same at e in
          subst (λ y. valid_strategy y ≡ true) (Option.some-injective v s x) here
      | inr differ ↦ strategies_valid-get m k s later (rw differ at e)
    ]

abbrev pub IsStrategy : Str → Type 0
IsStrategy s = (s ≡ strategy_pool) ⊎ (s ≡ strategy_token)

valid-IsStrategy : (s : Str) → valid_strategy s ≡ true → IsStrategy s
unfolding valid_strategy
valid-IsStrategy s h = elim (||-eq-true (text_eq s (codes "pool")) (text_eq s (codes "token")) h) [
  | inl pool ↦ inl ((text_eq_iff s (codes "pool")).0 pool)
  | inr token ↦ inr ((text_eq_iff s (codes "token")).0 token)
]

strategy_for-IsStrategy :
    (s : Strategizer) (entity_type : Str)
    → ((k v : Str) → get k s.by_entity ≡ some v → IsStrategy v)
    → IsStrategy s.default_strategy
    → IsStrategy (strategy_for s entity_type)
unfolding strategy_for
strategy_for-IsStrategy s entity_type listed by_default =
    elim (Option-cases (get entity_type s.by_entity)) [
      | inr (v, found) ↦ rw (found, strategy_for) (listed entity_type v found)
      | inl missing ↦ elim (Bool-cases (elem entity_type nominal_types)) [
        | inl nominal ↦ rw (missing, nominal, strategy_for) (inl refl)
        | inr other_type ↦ rw (missing, other_type, strategy_for) by_default
      ]
    ]

-- What NewStrategizer makes of the default.
default-IsStrategy :
    (d : Str)
    → IsStrategy (if text_eq d strategy_pool || text_eq d strategy_token then d else strategy_token)
unfolding valid_strategy
default-IsStrategy d = elim (Bool-cases (text_eq d strategy_pool || text_eq d strategy_token)) [
  | inl known ↦ rw known (valid-IsStrategy d known)
  | inr unknown ↦ rw unknown (inr refl)
]

-- The settings of the windows and batches that pass the checks.
windows_lem :
    (chunk_chars chunk_overlap size : ℤ)
    → ltbℤ chunk_chars (pos 100) ≡ false
    → (ltbℤ chunk_overlap (pos 0) || not (ltbℤ chunk_overlap (half chunk_chars))) ≡ false
    → ltbℤ size (pos 1) ≡ false
    → (chars : ℕ) × (overlap : ℕ) × (chunk_chars ≡ pos chars)
      × (chunk_overlap ≡ pos overlap)
      × (100 ≤ chars)
      × (fitting_overlap chars overlap ≡ overlap)
      × (pos (new_batch_size (record { batch_size = size })) ≡ size)
unfolding half fitting_overlap new_batch_size
windows_lem (negsuc n) overlap size small o b = absurd (cc)
windows_lem (pos n) (negsuc m) size small o b = absurd (cc)
windows_lem (pos n) (pos m) (negsuc k) small o b = absurd (cc)
windows_lem (pos n) (pos m) (pos k) small o b =
    let short : m < n / 2 = ground arith in
    let some_texts : (k == 0) ≡ false = ground arith in
    let kept : leb (n / 2) m ≡ false = ground arith in
    (n, m, refl, refl, ground arith, rw kept refl, rw some_texts refl)

module _ (u : Unicode) (lib : Libraries) (c : Config) where
  -- The checks that Validate has made.
  record Checked : Type 0 where
    engine : All Passed (engine_checks u lib c)
    others : All Passed (other_checks u lib c)

  checked : validate u lib c ≡ none → Checked
  unfolding validate all_checks
  checked e =
      let all = All-Passed (all_checks u lib c) e in
      let (url, rest) = All-split ((no_url lib c.analyzer_url, invalid_analyzer_url) ∷ []) _ all in
      let (deny, rest') = All-split (deny_checks u lib c) _ rest in
      let (engine, others) = All-split (engine_checks u lib c) (other_checks u lib c) rest' in
      record { engine = engine; others = others }

  -- The Strategizer of a valid configuration knows the strategy of every entity type: it is pool or
  -- token, also where ENTITY_STRATEGY says it.
  pub validate-strategies :
      (entity_type : Str)
      → validate u lib c ≡ none
      → IsStrategy (
          strategy_for
            (new_strategizer u (record {
              pools = some (new_pools u (pools_map c));
              overrides = strategy_overrides u c;
              default_strategy = c.entity_strategy_default;
              deterministic_secret = c.deterministic_secret;
            }))
            entity_type)
  unfolding other_checks new_strategizer
  validate-strategies entity_type e =
      let later = (checked e).others.1.1.1.1.1.1 in
      let overrides_ok = later.1.0 in
      strategy_for-IsStrategy _ entity_type
        (λ k v found.
          valid-IsStrategy v
            (strategies_valid-get (strategy_overrides u c) k v (not-false _ overrides_ok) found))
        (default-IsStrategy c.entity_strategy_default)

  -- With a valid configuration for the NER engine, the windows are cut with the very overlap that is
  -- configured, and the batches have the very size that is configured.
  pub validate-windows :
      validate u lib c ≡ none
      → c.detection_engine ≡ codes "ner"
      → (chars : ℕ) × (overlap : ℕ) × (c.ner_chunk_chars ≡ pos chars)
        × (c.ner_chunk_overlap ≡ pos overlap)
        × (100 ≤ chars)
        × (fitting_overlap chars overlap ≡ overlap)
        × (pos (new_batch_size (record { batch_size = c.ner_batch_size })) ≡ c.ner_batch_size)
  unfolding engine_checks text_eq
  validate-windows e engine =
      let checks = (checked e).engine in
      let ranges = (rw (engine, engine_checks) at checks).1.1 in
      windows_lem c.ner_chunk_chars c.ner_chunk_overlap c.ner_batch_size ranges.0 ranges.1.0
        ranges.1.1.0

  least-nan : (l : List (Str × Float)) → least nan l ≡ nan
  unfolding least
  least-nan [] = refl
  least-nan ((k, f) ∷ l) = least-nan l

  least-le :
      (m bound : Float) (l : List (Str × Float))
      → le_float m bound ≡ true
      → (least m l ≡ nan) ⊎ (le_float (least m l) bound ≡ true)
  unfolding least
  least-le m bound [] low = inr low
  least-le m bound ((k, f) ∷ l) low = elim (min_float-le m f) [
    | inl void ↦ inl (ap (λ x. least x l) void ∙ least-nan l)
    | inr (below, _) ↦
        least-le (min_float m f) bound l (le_float_trans (min_float m f) m bound below low)
  ]

  least-get :
      (m f : Float) (k : Str) (l : List (Str × Float))
      → get k l ≡ some f
      → (least m l ≡ nan) ⊎ (le_float (least m l) f ≡ true)
  unfolding least get
  least-get m f k [] e = absurd (cc)
  least-get m f k ((j, g) ∷ l) e = elim (Bool-cases (text_eq j k)) [
    | inr differ ↦ least-get (min_float m g) f k l (rw differ at e)
    | inl same ↦
        let x = Option.some-injective g f (rw same at e) in
        subst (λ y. (least (min_float m g) l ≡ nan) ⊎ (le_float (least (min_float m g) l) y ≡ true))
          x (at_head g)
  ]
    where
      at_head :
          (g : Float)
          → (least (min_float m g) l ≡ nan) ⊎ (le_float (least (min_float m g) l) g ≡ true)
      at_head g = elim (min_float-le m g) [
        | inl void ↦ inl (ap (λ x. least x l) void ∙ least-nan l)
        | inr (_, below) ↦ least-le (min_float m g) g l below
      ]

  le_self : (m : Float) → (m ≡ nan) ⊎ (le_float m m ≡ true)
  le_self nan = inl refl
  le_self neg_inf = inr refl
  le_self pos_inf = inr refl
  le_self (fixed (pos n)) = inr (ground arith)
  le_self (fixed (negsuc n)) = inr (ground arith)

  least-start :
      (m : Float) (l : List (Str × Float)) → (least m l ≡ nan) ⊎ (le_float (least m l) m ≡ true)
  least-start m l = elim (le_self m) [
    | inl void ↦ inl (ap (λ x. least x l) void ∙ least-nan l)
    | inr low ↦ least-le m m l low
  ]

  min_float-of : (a b : Float) → (min_float a b ≡ a) ⊎ (min_float a b ≡ b)
  min_float-of a b = elim (Bool-cases (is_nan a)) [
    | inl void ↦ rw void (inl (sym (nan_of a void)))
    | inr here ↦ elim (Bool-cases (is_nan b)) [
      | inl void ↦ rw (here, void) (inr (sym (nan_of b void)))
      | inr there ↦ elim (Bool-cases (lt_float b a)) [
        | inl less ↦ rw (here, there, less) (inr refl)
        | inr more ↦ rw (here, there, more) (inl refl)
      ]
    ]
  ]
    where
      nan_of : (x : Float) → is_nan x ≡ true → x ≡ nan
      nan_of nan e = refl
      nan_of neg_inf e = absurd (cc)
      nan_of pos_inf e = absurd (cc)
      nan_of (fixed n) e = absurd (cc)

  least-of :
      (m : Float) (l : List (Str × Float)) → (least m l ≡ m) ⊎ ((k : Str) × In (k, least m l) l)
  unfolding least
  least-of m [] = inl refl
  least-of m ((k, f) ∷ l) = elim (least-of (min_float m f) l) [
    | inr (j, there) ↦ inr (j, inr there)
    | inl same ↦ elim (min_float-of m f) [
      | inl first ↦ inl (same ∙ first)
      | inr second ↦ inr (k, inl (ap (λ x. (k, x)) (same ∙ second)))
    ]
  ]

  -- The score that Presidio is asked for is one of the configured thresholds. Unless it is NaN, which
  -- Validate lets pass, it is at most the threshold of every entity type, its own or the default.
  pub min_score_threshold-le :
      (entity_type : Str)
      → ((min_score_threshold u lib c ≡ c.score_threshold)
          ⊎ ((k : Str) × In (k, min_score_threshold u lib c) (entity_thresholds u lib c)))
        × ((min_score_threshold u lib c ≡ nan)
            ⊎ (le_float
                  (min_score_threshold u lib c)
                  (elim (get entity_type (entity_thresholds u lib c)) [
                    | none ↦ c.score_threshold
                    | some own ↦ own
                  ])
                ≡ true))
  unfolding min_score_threshold
  min_score_threshold-le entity_type =
      let listed = entity_thresholds u lib c in
      (
        least-of c.score_threshold listed,
        elim (Option-cases (get entity_type listed)) [
          | inl missing ↦ rw missing (least-start c.score_threshold listed)
          | inr (own, found) ↦ rw found (least-get c.score_threshold own entity_type listed found)
        ],
      )
