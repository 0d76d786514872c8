-- ===== src/Text/Assign/Known.antt =====
-- One round of the loop of assignNew: the names that are known before and after.
use palena_litellm_pseudonym.Base.{
  ◌≡◌, inl, inr, refl, sym, subst, ◌∙◌, true, false, ◌||◌, List, [], ◌∷◌, ◌++◌, append_assoc, none,
  arith, Bool-cases, ||-eq-true, ||-eq-false, All,
}
use palena_litellm_pseudonym.GoLib.Strings.{Str, text_eq, text_eq_iff, text_eq_refl}
use palena_litellm_pseudonym.GoLib.Dict.{get, has, has-false, put_new, get-append}
use palena_litellm_pseudonym.GoLib.Unicode.{Unicode, lower}
use palena_litellm_pseudonym.Text.Assign.{has_case_insensitive_key, Progress, register, is_known}

module _ (u : Unicode) where
  pub has_key-append :
      (m n : List (Str × Str)) (key : Str)
      → has_case_insensitive_key u (m ++ n) key
        ≡ (has_case_insensitive_key u m key || has_case_insensitive_key u n key)
  unfolding has_case_insensitive_key
  has_key-append [] n key = refl
  has_key-append ((k, v) ∷ m) n key = ground (arith, has_key-append m n key)

  pub has_key_of_get :
      (m : List (Str × Str)) (key : Str)
      → has key m ≡ true
      → has_case_insensitive_key u m key ≡ true
  unfolding has get has_case_insensitive_key
  has_key_of_get [] key h = absurd (cc)
  has_key_of_get ((k, v) ∷ m) key h = elim (Bool-cases (text_eq k key)) [
    | inl same ↦ rw ((text_eq_iff k key).0 same) (rw (text_eq_refl (lower u key)))
    | inr differ ↦
        let later : has key m ≡ true = ground arith in ground (arith, has_key_of_get m key later)
  ]

  -- A name that is not known is not in the mapping at all.
  pub not-known :
      (st : Progress) (name : Str)
      → is_known u st name ≡ false
      → (get name st.scratch ≡ none) × (has_case_insensitive_key u st.scratch name ≡ false)
  unfolding is_known
  not-known st name h =
      let (absent, apart) =
        ||-eq-false (has name st.scratch) (has_case_insensitive_key u st.scratch name) h in
      (has-false name st.scratch absent, apart)

  pub known-has_key :
      (st : Progress) (name : Str)
      → is_known u st name ≡ true
      → has_case_insensitive_key u st.scratch name ≡ true
  unfolding is_known
  known-has_key st name h =
      elim (||-eq-true (has name st.scratch) (has_case_insensitive_key u st.scratch name) h) [
        | inl there ↦ has_key_of_get st.scratch name there
        | inr alike ↦ alike
      ]

  module _ (existing : List (Str × Str)) where
    -- The scratch mapping is the existing one and the new one, and no new key is an existing one,
    -- also up to case.
    pub record Keeps (st : Progress) : Type 0 where
      pub split : st.scratch ≡ existing ++ st.new_map
      pub fresh : All (λ e. has_case_insensitive_key u existing e.0 ≡ false) st.new_map

    All-append :
        (P : Str × Str → Type 0) (xs ys : List (Str × Str)) → All P xs → All P ys → All P (xs ++ ys)
    All-append P [] ys h k = k
    All-append P (x ∷ xs) ys h k = (h.0, All-append P xs ys h.1 k)

    -- Registering an unknown name appends it to both mappings.
    pub register-append :
        (st : Progress) (name pseudo : Str)
        → Keeps st
        → is_known u st name ≡ false
        → register name pseudo st ≡ record {
          new_map = st.new_map ++ (name, pseudo) ∷ [];
          scratch = st.scratch ++ (name, pseudo) ∷ [];
        }
    unfolding register
    register-append st name pseudo k h =
        let (absent, _) = not-known st name h in
        let absent' : get name (existing ++ st.new_map) ≡ none = rw (← k.split) absent in
        let new_absent : get name st.new_map ≡ none =
          ground (arith, get-append name existing st.new_map) in
        rw (put_new name pseudo st.scratch absent) (rw (put_new name pseudo st.new_map new_absent))

    pub register-Keeps :
        (st : Progress) (name pseudo : Str)
        → Keeps st
        → is_known u st name ≡ false
        → Keeps (register name pseudo st)
    register-Keeps st name pseudo k h = rw (register-append st name pseudo k h) (record {
      split = rw k.split (append_assoc existing st.new_map ((name, pseudo) ∷ []));
      fresh = All-append _ st.new_map ((name, pseudo) ∷ []) k.fresh (
        (||-eq-false (has_case_insensitive_key u existing name)
            (has_case_insensitive_key u st.new_map name)
            (sym (has_key-append existing st.new_map name)
              ∙ subst (λ m. has_case_insensitive_key u m name ≡ false) k.split
                  (not-known st name h).1)).0,
        tt,
      );
    })

    -- A registered name is known, and known names stay known.
    pub has_key-register :
        (st : Progress) (name pseudo key : Str)
        → Keeps st
        → is_known u st name ≡ false
        → has_case_insensitive_key u (register name pseudo st).scratch key
          ≡ (has_case_insensitive_key u st.scratch key || text_eq (lower u name) (lower u key))
    unfolding has_case_insensitive_key
    has_key-register st name pseudo key k h =
        rw (register-append st name pseudo k h)
          (rw (has_key-append st.scratch ((name, pseudo) ∷ []) key) (ground arith))
