-- ===== src/Text/Assign/Covers.antt =====
-- assignNew: which names the merged mapping has.
use palena_litellm_pseudonym.Base.{
  ℕ, ◌≡◌, inl, inr, sym, subst, ◌∙◌, true, false, ◌&&◌, List, [], ◌∷◌, ◌++◌, append-nil, arith,
  Bool-cases, In, All,
}
use palena_litellm_pseudonym.GoLib.Strings.{Str, codes, is_empty, text_eq, text_eq_refl}
use palena_litellm_pseudonym.GoLib.Unicode.{Unicode, lower, trim_space}
use palena_litellm_pseudonym.Presidio.{Detection}
use palena_litellm_pseudonym.Text.Components.{component_mappings}
use palena_litellm_pseudonym.Text.Strategy.{assign_name}
use palena_litellm_pseudonym.Text.Assign.{
  Settings, has_case_insensitive_key, Progress, register, is_known, assign_one, assign_all,
  sorted_detections, assign_new,
}
use palena_litellm_pseudonym.Text.Assign.Known.{Keeps, known-has_key, has_key-register}
use palena_litellm_pseudonym.Text.Assign.Dedup.{sorted_detections_lem}
use palena_litellm_pseudonym.Text.Assign.Grows.{
  Grows, Grows-trans, register-Grows, add_components-Grows,
}

module _ (u : Unicode) (mac : Str → Str → List ℕ) (h : Settings) (reserved : Str)
    (existing : List (Str × Str)) where
  -- One round keeps what is known and makes the detection's text known.
  assign_one-Grows :
      (d : Detection) (st : Progress)
      → Keeps u existing st
      → Grows u existing st (assign_one u mac h reserved d st)
        × (has_case_insensitive_key u (assign_one u mac h reserved d st).scratch d.text ≡ true)
  unfolding assign_one
  assign_one-Grows d st k = elim (Bool-cases (is_known u st d.text)) [
    | inl known ↦
        rw (known, assign_one)
          (record { keeps = k; stays = λ key old. old }, known-has_key u st d.text known)
    | inr unknown ↦
        let p = assign_name u mac h.strat d.entity_type d.text st.scratch reserved in
        let parts = component_mappings u d.text p in
        let here = register-Grows u existing st d.text p k unknown in
        let there : has_case_insensitive_key u (register d.text p st).scratch d.text ≡ true =
          has_key-register u existing st d.text p d.text k unknown
          ∙ rw (text_eq_refl (lower u d.text)) (ground arith) in
        let later =
          add_components-Grows u existing h.allow_list parts (register d.text p st) here.keeps in
        elim (Bool-cases (h.decompose && text_eq d.entity_type (codes "PERSON"))) [
          | inl split ↦
              rw (unknown, split, assign_one)
                (Grows-trans u existing here later, later.stays d.text there)
          | inr whole ↦ rw (unknown, whole, assign_one) (here, there)
        ]
  ]

  assign_all-Grows :
      (ds : List Detection) (st : Progress)
      → Keeps u existing st
      → Grows u existing st (assign_all u mac h reserved ds st)
        × ((d : Detection)
            → In d ds
            → has_case_insensitive_key u (assign_all u mac h reserved ds st).scratch d.text ≡ true)
  unfolding assign_all
  assign_all-Grows [] st k = (record { keeps = k; stays = λ key old. old }, λ d m. absurd m)
  assign_all-Grows (e ∷ ds) st k =
      let (here, known) = assign_one-Grows e st k in
      let (later, rest) = assign_all-Grows ds (assign_one u mac h reserved e st) here.keeps in
      (
        Grows-trans u existing here later,
        λ d m. elim m [
          | inl same ↦
              subst
                (λ x.
                  has_case_insensitive_key u
                    (assign_all u mac h reserved ds (assign_one u mac h reserved e st)).scratch
                    x.text
                  ≡ true)
                (sym same) (later.stays e.text known)
          | inr k' ↦ rest d k'
        ],
      )

module _ (u : Unicode) where
  module _ (mac : Str → Str → List ℕ) (h : Settings) (detections : List Detection)
      (existing : List (Str × Str)) (reserved : Str) where
    start_Keeps : Keeps u existing (record { new_map = []; scratch = existing })
    start_Keeps = record { split = sym (append-nil existing); fresh = tt }

    -- After assignNew every detection whose text is not blank has a key in the merged mapping, up
    -- to case: no detected name is left without a pseudonym.
    pub assign_new-covers :
        (d : Detection)
        → In d detections
        → is_empty (trim_space u d.text) ≡ false
        → has_case_insensitive_key u
            (existing ++ assign_new u mac h detections existing reserved)
            (trim_space u d.text)
          ≡ true
    unfolding assign_new
    assign_new-covers d m full =
        let start : Progress = record { new_map = []; scratch = existing } in
        let (grown, known) =
          assign_all-Grows u mac h reserved existing (sorted_detections u detections) start
            start_Keeps in
        let (e, there, t) = sorted_detections_lem u detections d m full in
        subst (λ s. has_case_insensitive_key u s (trim_space u d.text) ≡ true) (grown.keeps).split
          (subst
            (λ k.
              has_case_insensitive_key u
                (assign_all u mac h reserved (sorted_detections u detections) start).scratch k
              ≡ true)
            t (known e there))

    -- assignNew proposes no name that the session maps already, also not up to case: a pseudonym
    -- that was given out stays.
    pub assign_new-fresh :
        All
          (λ e. has_case_insensitive_key u existing e.0 ≡ false)
          (assign_new u mac h detections existing reserved)
    unfolding assign_new
    assign_new-fresh =
        ((assign_all-Grows u mac h reserved existing (sorted_detections u detections)
          (record { new_map = []; scratch = existing }) start_Keeps).0
        ).keeps.fresh
