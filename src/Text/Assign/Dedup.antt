-- ===== src/Text/Assign/Dedup.antt =====
-- The detections that the loop of assignNew meets: the deduplication by trimmed text and the sorting.
use palena_litellm_pseudonym.Base.{
  ◌≡◌, inl, inr, refl, sym, ap, subst, ◌∙◌, false, List, [], ◌∷◌, map, some, arith, leb, Bool-cases,
  Option-cases, In, All,
}
use palena_litellm_pseudonym.GoLib.Strings.{Str, is_empty, text_eq, text_eq_iff}
use palena_litellm_pseudonym.GoLib.Dict.{get, put}
use palena_litellm_pseudonym.GoLib.Unicode.{Unicode, trim_space}
use palena_litellm_pseudonym.Presidio.{Detection}
use palena_litellm_pseudonym.Text.Assign.{dedup_step, dedup, precedes, sorted_detections}
use palena_litellm_pseudonym.GoLib.Order.{In-sort_by}

-- An entry of the deduplicated detections under the key `key` has that text.
HasEntry : Str → List (Str × Detection) → Type 0
HasEntry key m = (d : Detection) × In d (map (λ e. e.1) m) × (d.text ≡ key)

put-HasEntry_self :
    (key : Str) (d : Detection) (m : List (Str × Detection))
    → d.text ≡ key
    → HasEntry key (put key d m)
unfolding put HasEntry
put-HasEntry_self key d [] e = (d, inl refl, e)
put-HasEntry_self key d ((k, x) ∷ m) e = elim (Bool-cases (text_eq k key)) [
  | inl same ↦ rw same (d, inl refl, e)
  | inr differ ↦ rw differ (let (y, there, t) = put-HasEntry_self key d m e in (y, inr there, t))
]

put-HasEntry :
    (key k : Str) (d : Detection) (m : List (Str × Detection))
    → d.text ≡ k
    → All (λ e. e.1.text ≡ e.0) m
    → HasEntry key m
    → HasEntry key (put k d m)
unfolding put HasEntry
put-HasEntry key k d [] e all_named (x, there, t) = absurd there
put-HasEntry key k d ((j, y) ∷ m) e all_named (x, there, t) = elim (Bool-cases (text_eq j k)) [
  | inl same ↦ rw same (elim there [
    | inl here ↦ (
      d,
      inl refl,
      e ∙ sym ((text_eq_iff j k).0 same) ∙ sym all_named.0 ∙ sym (ap (λ z. z.text) here) ∙ t,
    )
    | inr later ↦ (x, inr later, t)
  ])
  | inr differ ↦ rw differ (elim there [
    | inl here ↦ (x, inl here, t)
    | inr later ↦
        let (z, in_z, t') = put-HasEntry key k d m e all_named.1 (x, later, t) in (z, inr in_z, t')
  ])
]

put-All_named :
    (k : Str) (d : Detection) (m : List (Str × Detection))
    → d.text ≡ k
    → All (λ e. e.1.text ≡ e.0) m
    → All (λ e. e.1.text ≡ e.0) (put k d m)
unfolding put
put-All_named k d [] e h = (e, tt)
put-All_named k d ((j, y) ∷ m) e h = elim (Bool-cases (text_eq j k)) [
  | inl same ↦ rw same (e ∙ sym ((text_eq_iff j k).0 same), h.1)
  | inr differ ↦ rw differ (h.0, put-All_named k d m e h.1)
]

HasEntry-of_get :
    (key : Str) (m : List (Str × Detection)) (d : Detection)
    → All (λ e. e.1.text ≡ e.0) m
    → get key m ≡ some d
    → HasEntry key m
unfolding get HasEntry
HasEntry-of_get key [] d h g = absurd (cc)
HasEntry-of_get key ((j, y) ∷ m) d h g = elim (Bool-cases (text_eq j key)) [
  | inl same ↦ (y, inl refl, h.0 ∙ (text_eq_iff j key).0 same)
  | inr differ ↦ let (x, there, t) = HasEntry-of_get key m d h.1 (ground arith) in (x, inr there, t)
]

module _ (u : Unicode) where
  -- What a step of the deduplication keeps and adds.
  dedup_step_lem :
      (d : Detection) (m : List (Str × Detection))
      → All (λ e. e.1.text ≡ e.0) m
      → All (λ e. e.1.text ≡ e.0) (dedup_step u d m)
        × ((key : Str) → HasEntry key m → HasEntry key (dedup_step u d m))
        × (is_empty (trim_space u d.text) ≡ false
            → HasEntry (trim_space u d.text) (dedup_step u d m))
  unfolding dedup_step
  dedup_step_lem d m h =
      let trimmed = trim_space u d.text in
      let entry : Detection = record d { start = 0; end = 0; text = trimmed } in
      elim (Bool-cases (is_empty trimmed)) [
        | inl blank ↦ rw (blank, dedup_step) (h, λ key k. k, λ full. absurd (cc))
        | inr full ↦ elim (Option-cases (get trimmed m)) [
          | inl absent ↦
              rw (full, absent, dedup_step)
                (
                  put-All_named trimmed entry m refl h,
                  λ key k. put-HasEntry key trimmed entry m refl h k,
                  λ _. put-HasEntry_self trimmed entry m refl,
                )
          | inr found ↦ elim (Bool-cases (leb d.score (found.0).score)) [
            | inl weaker ↦
                rw (full, found.1, weaker, dedup_step)
                  (h, λ key k. k, λ _. HasEntry-of_get trimmed m found.0 h found.1)
            | inr stronger ↦
                rw (full, found.1, stronger, dedup_step)
                  (
                    put-All_named trimmed entry m refl h,
                    λ key k. put-HasEntry key trimmed entry m refl h k,
                    λ _. put-HasEntry_self trimmed entry m refl,
                  )
          ]
        ]
      ]

  dedup_lem :
      (ds : List Detection) (m : List (Str × Detection))
      → All (λ e. e.1.text ≡ e.0) m
      → ((key : Str) → HasEntry key m → HasEntry key (dedup u ds m))
        × ((d : Detection)
            → In d ds
            → is_empty (trim_space u d.text) ≡ false
            → HasEntry (trim_space u d.text) (dedup u ds m))
  unfolding dedup
  dedup_lem [] m h = (λ key k. k, λ d k full. absurd k)
  dedup_lem (e ∷ ds) m h =
      let (named, stays, adds) = dedup_step_lem e m h in
      let (stays', adds') = dedup_lem ds (dedup_step u e m) named in
      (
        λ key k. stays' key (stays key k),
        λ d k. elim k [
          | inl same ↦ λ full.
              subst (λ x. HasEntry (trim_space u x.text) (dedup u ds (dedup_step u e m))) (sym same)
                (stays' (trim_space u e.text)
                  (adds (subst (λ x. is_empty (trim_space u x.text) ≡ false) same full)))
          | inr later ↦ adds' d later
        ],
      )

  -- The loop meets the trimmed text of every detection that is not blank.
  pub sorted_detections_lem :
      (ds : List Detection) (d : Detection)
      → In d ds
      → is_empty (trim_space u d.text) ≡ false
      → (e : Detection) × In e (sorted_detections u ds) × (e.text ≡ trim_space u d.text)
  unfolding sorted_detections HasEntry
  sorted_detections_lem ds d m full =
      let (e, there, t) = (dedup_lem ds [] tt).1 d m full in
      (e, In-sort_by precedes e (map (λ x. x.1) (dedup u ds [])) there, t)
