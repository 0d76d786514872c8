-- ===== src/Language.antt =====
-- internal/language/detector.go: the languages of the Analyzer. Package lingua is a parameter: whether
-- it knows a code, and which language it detects.
use palena_litellm_pseudonym.Base.{
  ◌≡◌, ◌⊎◌, inl, inr, refl, sym, ap, subst, Bool, true, false, ◌||◌, not, List, [], ◌∷◌, Option,
  none, some, arith, if◌then◌else◌, Bool-cases, Option-cases, ||-eq-false, In, Distinct, All,
  All-In,
}
use palena_litellm_pseudonym.GoLib.Strings.{Str, codes, is_empty, elem, elem_iff}
use palena_litellm_pseudonym.GoLib.Unicode.{Unicode, lower, upper, trim_space}
use mathlib.Core.Option

unfoldable pub parse_from : Unicode → (Str → Bool) → List Str → List Str → Option (List Str)
parse_from u known seen [] = some []
parse_from u known seen (code ∷ codes) =
    let c = lower u (trim_space u code) in
    if is_empty c || elem c seen
    then parse_from u known seen codes
    else if not (known (upper u c))
    then none
    else Option.map (◌∷◌ c) (parse_from u known (c ∷ seen) codes)

-- Parse: none for a code that is unknown.
unfoldable pub parse : Unicode → (Str → Bool) → List Str → Option (List Str)
unfolding parse_from
parse u known = parse_from u known []

-- New and Detect: `detect` is none for a text that cannot be classified.
unfoldable pub detector : Unicode → (Str → Option Str) → List Str → Str → Str
detector u detect [] text = codes "en"
detector u detect (c ∷ []) text = c
detector u detect (c ∷ d ∷ cs) text = elim (detect text) [ none ↦ c | some lang ↦ lower u lang ]

module _ (u : Unicode) (known : Str → Bool) where
  -- What a code is taken for.
  abbrev pub normal : Str → Str
  normal code = lower u (trim_space u code)

  IsNew : List Str → Str → Type 0
  IsNew seen c = (¬ In c seen) × (known (upper u c) ≡ true)

  older : (c : Str) (seen rest : List Str) → All (IsNew (c ∷ seen)) rest → All (IsNew seen) rest
  unfolding IsNew
  older c seen [] a = tt
  older c seen (x ∷ rest) (here, later) = ((λ m. here.0 (inr m), here.1), older c seen rest later)

  Good : List Str → List Str → List Str → Type 0
  Good seen codes out =
      Distinct out
      × All (IsNew seen) out
      × ((code : Str)
          → In code codes
          → is_empty (normal code) ≡ false
          → In (normal code) seen ⊎ In (normal code) out)

  parse_from-Good :
      (codes seen out : List Str) → parse_from u known seen codes ≡ some out → Good seen codes out
  unfolding parse_from Good IsNew
  parse_from-Good [] seen out e =
      let same : [] ≡ out = Option.some-injective [] out e in
      subst (Good seen []) same (tt, tt, λ code m. absurd m)
  parse_from-Good (code ∷ codes) seen out e =
      let c = normal code in
      elim (Bool-cases (is_empty c || elem c seen)) [
        | inl skipped ↦
            let (distinct, new, found) =
              parse_from-Good codes seen out (rw (skipped, parse_from) at e) in
            (
              distinct,
              new,
              λ x m full. elim m [
                | inl same ↦
                    let c_full : is_empty c ≡ false =
                      subst (λ y. is_empty (normal y) ≡ false) same full in
                    let c_seen : elem c seen ≡ true = ground arith in
                    inl (subst (λ y. In (normal y) seen) (sym same) ((elem_iff c seen).0 c_seen))
                | inr later ↦ found x later full
              ],
            )
        | inr added ↦ elim (Bool-cases (known (upper u c))) [
          | inr unknown ↦ absurd (let h = rw (added, unknown, parse_from) at e in cc)
          | inl is_known ↦ elim (Option-cases (parse_from u known (c ∷ seen) codes)) [
            | inl bad ↦ absurd (let h = rw (added, is_known, bad, parse_from) at e in cc)
            | inr (rest, r) ↦
                let h = rw (added, is_known, r, parse_from) at e in
                let (distinct, new, found) = parse_from-Good codes (c ∷ seen) rest r in
                let fresh : elem c seen ≡ false =
                  (||-eq-false (is_empty c) (elem c seen) added).1 in
                subst (Good seen (code ∷ codes)) (Option.some-injective (c ∷ rest) out h) (
                  (λ m. (All-In (IsNew (c ∷ seen)) rest new m).0 (inl refl), distinct),
                  (
                    (λ m. let k = (elem_iff c seen).1 m in let x = rw k at fresh in cc, is_known),
                    older c seen rest new,
                  ),
                  λ x m full. elim m [
                    | inl same ↦ inr (inl (ap normal same))
                    | inr later ↦ elim (found x later full) [
                      | inl among ↦ elim among [ inl here ↦ inr (inl here) | inr old ↦ inl old ]
                      | inr there ↦ inr (inr there)
                    ]
                  ],
                )
          ]
        ]
      ]

  -- The languages that Parse returns are all different and known, and every code that is not blank is
  -- among them, trimmed and in lower case.
  parse_lem :
      (codes out : List Str)
      → parse u known codes ≡ some out
      → Distinct out
        × All (λ c. known (upper u c) ≡ true) out
        × ((code : Str) → In code codes → is_empty (normal code) ≡ false → In (normal code) out)
  unfolding parse Good IsNew
  parse_lem codes out e =
      let (distinct, new, found) = parse_from-Good codes [] out e in
      (
        distinct,
        all_known out new,
        λ code m full. elim (found code m full) [
          | inl none_seen ↦ absurd none_seen
          | inr there ↦ there
        ],
      )
    where
      all_known : (l : List Str) → All (IsNew []) l → All (λ c. known (upper u c) ≡ true) l
      all_known [] a = tt
      all_known (x ∷ l) (here, later) = (here.1, all_known l later)
