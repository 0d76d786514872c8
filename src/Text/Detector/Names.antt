-- ===== src/Text/Detector/Names.antt =====
-- internal/text/detector.go: the spans of the model against the detections made of them.
use palena_litellm_pseudonym.Base.{
  ℕ, ◌≤◌, ◌≡◌, inl, inr, refl, sym, ap, subst, ◌∙◌, Bool, true, ◌&&◌, List, [], ◌∷◌, some, arith,
  leb, ◌==◌, Bool-cases, Option-cases, &&-eq-true, ==_iff, leb→le, In,
}
use palena_litellm_pseudonym.GoLib.Strings.{Str, text_eq, text_eq_iff}
use palena_litellm_pseudonym.GoLib.Dict.{get}
use palena_litellm_pseudonym.Errs.{ok, from_ok}
use palena_litellm_pseudonym.GoLib.Int.{ltbℤ}
use palena_litellm_pseudonym.GoLib.Order.{In-sort_by}
use palena_litellm_pseudonym.Ner.{Span}
use palena_litellm_pseudonym.Presidio.{Detection}
use palena_litellm_pseudonym.Text.Units.{TextUnit}
use palena_litellm_pseudonym.Text.Detector.{
  keep_best, span_bytes, name_detection, best_of_unit, best_of_units, by_place, names_found,
}
use mathlib.Core.Option

-- A detection of the same range and type that scores as much or more.
abbrev pub Beats : List Detection → Detection → Type 0
Beats best d =
    (e : Detection) × In e best
    × (e.start ≡ d.start)
    × (e.end ≡ d.end)
    × (e.entity_type ≡ d.entity_type)
    × (d.score ≤ e.score)

-- The test of the keys, and what it says.
same_key : Detection → Detection → Bool
same_key e d = e.start == d.start && (e.end == d.end && text_eq e.entity_type d.entity_type)

same_key_lem :
    (e d : Detection)
    → same_key e d ≡ true
    → (e.start ≡ d.start) × (e.end ≡ d.end) × (e.entity_type ≡ d.entity_type)
unfolding same_key
same_key_lem e d h =
    let (left, rest) = &&-eq-true (e.start == d.start) _ h in
    let (right, kind) = &&-eq-true (e.end == d.end) _ rest in
    (
      (==_iff e.start d.start).0 left,
      (==_iff e.end d.end).0 right,
      (text_eq_iff e.entity_type d.entity_type).0 kind,
    )

keep_best-new : (d : Detection) (best : List Detection) → Beats (keep_best d best) d
unfolding keep_best same_key
keep_best-new d [] = (d, inl refl, refl, refl, refl, omega arith)
keep_best-new d (e ∷ best) = elim (Bool-cases (same_key e d)) [
  | inl same ↦
      let (left, right, kind) = same_key_lem e d same in
      elim (Bool-cases (leb d.score e.score)) [
        | inl higher ↦
            rw (same, higher) (e, inl refl, left, right, kind, leb→le d.score e.score higher)
        | inr lower ↦ rw (same, lower) (d, inl refl, refl, refl, refl, omega arith)
      ]
  | inr differ ↦
      let (x, there, left, right, kind, less) = keep_best-new d best in
      rw differ (x, inr there, left, right, kind, less)
]

keep_best-old :
    (d x : Detection) (best : List Detection) → Beats best x → Beats (keep_best d best) x
unfolding keep_best same_key
keep_best-old d x [] (e, there, left, right, kind, less) = absurd there
keep_best-old d x (y ∷ best) (e, there, left, right, kind, less) =
    elim (Bool-cases (same_key y d)) [
      | inl same ↦
          let (left', right', kind') = same_key_lem y d same in
          elim (Bool-cases (leb d.score y.score)) [
            | inl higher ↦ rw (same, higher) (e, there, left, right, kind, less)
            | inr lower ↦
                rw (same, lower)
                  (elim there [
                    | inl here ↦
                        let l = ap (λ z. z.start) here in
                        let r = ap (λ z. z.end) here in
                        let t = ap (λ z. z.entity_type) here in
                        let s = ap (λ z. z.score) here in
                        (
                          d,
                          inl refl,
                          sym left' ∙ sym l ∙ left,
                          sym right' ∙ sym r ∙ right,
                          sym kind' ∙ sym t ∙ kind,
                          ground (arith, lower, s, less),
                        )
                    | inr later ↦ (e, inr later, left, right, kind, less)
                  ])
          ]
      | inr differ ↦ rw differ (elim there [
        | inl here ↦ (e, inl here, left, right, kind, less)
        | inr later ↦
            let (z, m, l, r, k, s) = keep_best-old d x best (e, later, left, right, kind, less) in
            (z, inr m, l, r, k, s)
      ])
    ]

module _ (text : Str) (labels : List (Str × Str)) where
  -- A span that the loop has to report: its label stands for a type, and it is not empty.
  Reported : TextUnit → Span → List Detection → Type 0
  Reported unit s best =
      (entity_type : Str)
      → get s.label labels ≡ some entity_type
      → ltbℤ s.start s.end ≡ true
      → (range : ℕ × ℕ) × (span_bytes unit.text s ≡ some range)
        × Beats best (name_detection text entity_type unit.offset s range)

  best_of_unit-old :
      (unit : TextUnit) (spans : List Span) (best out : List Detection) (x : Detection)
      → best_of_unit text labels unit spans best ≡ some out
      → Beats best x
      → Beats out x
  unfolding best_of_unit
  best_of_unit-old unit [] best out x h b =
      subst (λ l. Beats l x) (Option.some-injective best out h) b
  best_of_unit-old unit (s ∷ spans) best out x h b = elim (Option-cases (get s.label labels)) [
    | inl other_label ↦
        best_of_unit-old unit spans best out x (rw (other_label, best_of_unit) at h) b
    | inr (entity_type, kind) ↦ elim (Bool-cases (ltbℤ s.start s.end)) [
      | inr void ↦ best_of_unit-old unit spans best out x (rw (kind, void, best_of_unit) at h) b
      | inl full ↦ elim (Option-cases (span_bytes unit.text s)) [
        | inl outside ↦ absurd (let k = rw (kind, full, outside, best_of_unit) at h in cc)
        | inr (range, e) ↦
            let k = rw (kind, full, e, best_of_unit) at h in
            let d = name_detection text entity_type unit.offset s range in
            best_of_unit-old unit spans (keep_best d best) out x k (keep_best-old d x best b)
      ]
    ]
  ]

  best_of_unit-new :
      (unit : TextUnit) (spans : List Span) (best out : List Detection) (s : Span)
      → best_of_unit text labels unit spans best ≡ some out
      → In s spans
      → Reported unit s out
  unfolding best_of_unit Reported
  best_of_unit-new unit [] best out s h m entity_type kind full = absurd m
  best_of_unit-new unit (y ∷ spans) best out s h (inl same) entity_type kind full =
      let kind' : get y.label labels ≡ some entity_type =
        subst (λ z. get z.label labels ≡ some entity_type) same kind in
      let full' : ltbℤ y.start y.end ≡ true = subst (λ z. ltbℤ z.start z.end ≡ true) same full in
      elim (Option-cases (span_bytes unit.text y)) [
        | inl outside ↦ absurd (let k = rw (kind', full', outside, best_of_unit) at h in cc)
        | inr (range, e) ↦
            let k = rw (kind', full', e, best_of_unit) at h in
            let d = name_detection text entity_type unit.offset y range in
            let found =
              best_of_unit-old unit spans (keep_best d best) out d k (keep_best-new d best) in
            (
              range,
              ap (span_bytes unit.text) same ∙ e,
              subst (λ z. Beats out (name_detection text entity_type unit.offset z range))
                  (sym same) found,
            )
      ]
  best_of_unit-new unit (y ∷ spans) best out s h (inr later) entity_type kind full =
      elim (Option-cases (get y.label labels)) [
        | inl other_label ↦
            best_of_unit-new unit spans best out s (rw (other_label, best_of_unit) at h) later
              entity_type kind full
        | inr (t, kind') ↦ elim (Bool-cases (ltbℤ y.start y.end)) [
          | inr void ↦
              best_of_unit-new unit spans best out s (rw (kind', void, best_of_unit) at h) later
                entity_type kind full
          | inl full' ↦ elim (Option-cases (span_bytes unit.text y)) [
            | inl outside ↦ absurd (let k = rw (kind', full', outside, best_of_unit) at h in cc)
            | inr (range, e) ↦
                let d = name_detection text t unit.offset y range in
                best_of_unit-new unit spans (keep_best d best) out s
                  (rw (kind', full', e, best_of_unit) at h) later entity_type kind full
          ]
        ]
      ]

  -- The units with the spans that were found in them.
  abbrev pub paired : List TextUnit → List (List Span) → List (TextUnit × List Span)
  paired [] results = []
  paired (unit ∷ units) [] = []
  paired (unit ∷ units) (spans ∷ results) = (unit, spans) ∷ paired units results

  best_of_units-old :
      (units : List TextUnit) (results : List (List Span)) (best out : List Detection)
      (x : Detection)
      → best_of_units text labels units results best ≡ some out
      → Beats best x
      → Beats out x
  unfolding best_of_units
  best_of_units-old [] results best out x h b =
      subst (λ l. Beats l x) (Option.some-injective best out h) b
  best_of_units-old (unit ∷ units) [] best out x h b =
      subst (λ l. Beats l x) (Option.some-injective best out h) b
  best_of_units-old (unit ∷ units) (spans ∷ results) best out x h b =
      elim (Option-cases (best_of_unit text labels unit spans best)) [
        | inl outside ↦ absurd (let k = rw (outside, best_of_units) at h in cc)
        | inr (best', e) ↦
            best_of_units-old units results best' out x (rw (e, best_of_units) at h)
              (best_of_unit-old unit spans best best' x e b)
      ]

  best_of_units-new :
      (units : List TextUnit) (results : List (List Span)) (best out : List Detection)
      (unit : TextUnit) (spans : List Span) (s : Span)
      → best_of_units text labels units results best ≡ some out
      → In (unit, spans) (paired units results)
      → In s spans
      → Reported unit s out
  unfolding best_of_units Reported
  best_of_units-new [] results best out unit spans s h there m entity_type kind full = absurd there
  best_of_units-new (v ∷ units) [] best out unit spans s h there m entity_type kind full =
      absurd there
  best_of_units-new (v ∷ units) (ys ∷ results) best out unit spans s h there m entity_type kind
        full =
      elim (Option-cases (best_of_unit text labels v ys best)) [
        | inl outside ↦ absurd (let k = rw (outside, best_of_units) at h in cc)
        | inr (best', e) ↦
            let k = rw (e, best_of_units) at h in
            elim there [
              | inl here ↦
                  let e' : best_of_unit text labels unit spans best ≡ some best' =
                    subst (λ z. best_of_unit text labels z.0 z.1 best ≡ some best') (sym here) e in
                  let (range, inside, b) =
                    best_of_unit-new unit spans best best' s e' m entity_type kind full in
                  (
                    range,
                    inside,
                    best_of_units-old units results best' out
                        (name_detection text entity_type unit.offset s range) k b,
                  )
              | inr later ↦
                  best_of_units-new units results best' out unit spans s k later m entity_type kind
                    full
            ]
      ]

  -- If the names are found without an error, then every nonempty span of a known label lies inside
  -- its unit, and a detection has its bytes, its type and at least its score: of the spans that
  -- overlapping windows report, none is lost.
  pub names_found-covers :
      (units : List TextUnit) (results : List (List Span)) (out : List Detection) (unit : TextUnit)
      (spans : List Span) (s : Span) (entity_type : Str)
      → names_found text labels units results ≡ ok out
      → In (unit, spans) (paired units results)
      → In s spans
      → get s.label labels ≡ some entity_type
      → ltbℤ s.start s.end ≡ true
      → (range : ℕ × ℕ) × (span_bytes unit.text s ≡ some range)
        × Beats out (name_detection text entity_type unit.offset s range)
  unfolding names_found Reported
  names_found-covers units results out unit spans s entity_type h there m kind full =
      elim (Option-cases (best_of_units text labels units results [])) [
        | inl outside ↦ absurd (let k = rw (outside, names_found) at h in cc)
        | inr (best, e) ↦
            let k = rw (e, names_found) at h in
            let (range, inside, found) =
              best_of_units-new units results [] best unit spans s e there m entity_type kind
                full in
            let (d, listed, l, r, t, less) = found in
            (
              range,
              inside,
              (d, subst (In d) (result-of k) (In-sort_by by_place d best listed), l, r, t, less),
            )
      ]
    where
      result-of : {l : List Detection} → ok l ≡ ok out → l ≡ out
      result-of e = ap (from_ok out) e
