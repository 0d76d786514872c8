-- ===== src/Image/Shared.antt =====
-- internal/image/handler.go: what shareWithMapping adds to a session.
use palena_litellm_pseudonym.Base.{
  ℕ, ◌≡◌, inl, inr, refl, sym, subst, ◌∙◌, Bool, true, false, ◌&&◌, not, List, [], ◌∷◌, ◌++◌,
  append-nil, arith, Bool-cases, keep, In,
}
use palena_litellm_pseudonym.GoLib.Strings.{Str, codes, is_empty, text_eq, text_eq_refl, elem}
use palena_litellm_pseudonym.GoLib.Unicode.{Unicode, lower, trim_space}
use palena_litellm_pseudonym.GoLib.Order.{sort_by, In-sort_by}
use palena_litellm_pseudonym.Mapping.Merge.{Mapping}
use palena_litellm_pseudonym.Presidio.ImageRedactor.{ImageDetection}
use palena_litellm_pseudonym.Text.Assign.{Progress, register, is_known, has_case_insensitive_key}
use palena_litellm_pseudonym.Text.Components.{component_mappings}
use palena_litellm_pseudonym.Image.Handler.{
  HandlerConfig, image_mapping, share_one, share_all, assign_image, image_precedes,
}
use palena_litellm_pseudonym.Text.Assign.Known.{Keeps, known-has_key, has_key-register}
use palena_litellm_pseudonym.Text.Assign.Grows.{
  Grows, Grows-trans, register-Grows, add_components-Grows,
}

In-keep :
    (p : ImageDetection → Bool) (x : ImageDetection) (xs : List ImageDetection)
    → In x xs
    → p x ≡ true
    → In x (keep p xs)
In-keep p x [] m yes_x = absurd m
In-keep p x (y ∷ ys) (inl same) yes_x = rw (← same, yes_x) (inl refl)
In-keep p x (y ∷ ys) (inr later) yes_x = elim (Bool-cases (p y)) [
  | inl kept ↦ rw kept (inr (In-keep p x ys later yes_x))
  | inr gone ↦ rw gone (In-keep p x ys later yes_x)
]

module _ (u : Unicode) (mac : Str → Str → List ℕ) (cfg : HandlerConfig) (existing : Mapping) where
  KnownName : Progress → ImageDetection → Type 0
  KnownName st d = has_case_insensitive_key u st.scratch (trim_space u d.text) ≡ true

  stays_here : (st : Progress) → Keeps u existing st → Grows u existing st st
  stays_here st k = record { keeps = k; stays = λ key old. old }

  share_one-Grows :
      (d : ImageDetection) (st : Progress)
      → Keeps u existing st
      → Grows u existing st (share_one u mac cfg d st)
        × (elem (lower u (trim_space u d.text)) cfg.allow_list ≡ false
            → KnownName (share_one u mac cfg d st) d)
  unfolding share_one KnownName
  share_one-Grows d st k =
      let name = trim_space u d.text in
      elim (Bool-cases (elem (lower u name) cfg.allow_list)) [
        | inl allowed ↦ rw (allowed, share_one) (stays_here st k, λ plain. absurd (cc))
        | inr plain ↦ elim (Bool-cases (is_known u st name)) [
          | inl known ↦
              rw (plain, known, share_one) (stays_here st k, λ _. known-has_key u st name known)
          | inr unknown ↦
              let p = assign_image u mac cfg d.entity_type name st.scratch in
              let here = register-Grows u existing st name p k unknown in
              let there : has_case_insensitive_key u (register name p st).scratch name ≡ true =
                has_key-register u existing st name p name k unknown
                ∙ rw (text_eq_refl (lower u name)) (ground arith) in
              let later =
                add_components-Grows u existing [] (component_mappings u name p)
                  (register name p st) here.keeps in
              elim (Bool-cases
                (cfg.decompose_person_names && text_eq d.entity_type (codes "PERSON"))) [
                  | inl split ↦
                      rw (plain, unknown, split, share_one)
                        (Grows-trans u existing here later, λ _. later.stays name there)
                  | inr whole ↦ rw (plain, unknown, whole, share_one) (here, λ _. there)
                ]
        ]
      ]

  share_all-Grows :
      (ds : List ImageDetection) (st : Progress)
      → Keeps u existing st
      → Grows u existing st (share_all u mac cfg ds st)
        × ((d : ImageDetection)
            → In d ds
            → elem (lower u (trim_space u d.text)) cfg.allow_list ≡ false
            → KnownName (share_all u mac cfg ds st) d)
  unfolding share_all KnownName
  share_all-Grows [] st k = (stays_here st k, λ d m. absurd m)
  share_all-Grows (e ∷ ds) st k =
      let (here, known) = share_one-Grows e st k in
      let (later, rest) = share_all-Grows ds (share_one u mac cfg e st) here.keeps in
      (
        Grows-trans u existing here later,
        λ d m plain. elim m [
          | inl same ↦
              subst (KnownName (share_all u mac cfg ds (share_one u mac cfg e st))) (sym same) (
                later.stays (trim_space u e.text) (
                  known (
                    subst (λ x. elem (lower u (trim_space u x.text)) cfg.allow_list ≡ false) same
                      plain)))
          | inr there ↦ rest d there plain
        ],
      )

  -- The mapping that shareWithMapping starts from, together with the entries that it adds, has a key
  -- for the text of every detection that it is given, up to case, unless that is blank or on the
  -- allow-list.
  pub image_mapping-covers :
      (detections : List ImageDetection) (d : ImageDetection)
      → In d detections
      → is_empty (trim_space u d.text) ≡ false
      → elem (lower u (trim_space u d.text)) cfg.allow_list ≡ false
      → has_case_insensitive_key u
          (existing ++ image_mapping u mac cfg detections existing)
          (trim_space u d.text)
        ≡ true
  unfolding image_mapping KnownName
  image_mapping-covers detections d m full plain =
      let named = keep (λ x. not (is_empty (trim_space u x.text))) detections in
      let start : Progress = record { new_map = []; scratch = existing } in
      let (grown, known) =
        share_all-Grows (sort_by image_precedes named) start
          (record { split = sym (append-nil existing); fresh = tt }) in
      let there =
        In-sort_by image_precedes d named
          (In-keep (λ x. not (is_empty (trim_space u x.text))) d detections m (rw full refl)) in
      subst (λ s. has_case_insensitive_key u s (trim_space u d.text) ≡ true) grown.keeps.split
        (known d there plain)
