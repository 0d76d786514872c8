-- ===== src/Text/Assign/Grows.antt =====
-- internal/text/handler.go: what the loops of assignNew do to the names that the session knows.
use palena_litellm_pseudonym.Base.{◌≡◌, inl, inr, true, false, List, [], ◌∷◌, arith, Bool-cases}
use palena_litellm_pseudonym.GoLib.Strings.{Str, elem}
use palena_litellm_pseudonym.GoLib.Unicode.{Unicode, lower}
use palena_litellm_pseudonym.Text.Assign.{
  has_case_insensitive_key, Progress, register, is_known, add_components,
}
use palena_litellm_pseudonym.Text.Assign.Known.{Keeps, register-Keeps, has_key-register}

module _ (u : Unicode) (existing : List (Str × Str)) where
  -- The invariant of the loops, and that no known name is lost from one state to a later one.
  pub record Grows (st st' : Progress) : Type 0 where
    pub keeps : Keeps u existing st'
    pub stays :
        (key : Str)
        → has_case_insensitive_key u st.scratch key ≡ true
        → has_case_insensitive_key u st'.scratch key ≡ true

  pub Grows-trans : {a b c : Progress} → Grows a b → Grows b c → Grows a c
  Grows-trans f g = record { keeps = g.keeps; stays = λ key k. g.stays key (f.stays key k) }

  pub register-Grows :
      (st : Progress) (name pseudo : Str)
      → Keeps u existing st
      → is_known u st name ≡ false
      → Grows st (register name pseudo st)
  register-Grows st name pseudo k unknown = record {
    keeps = register-Keeps u existing st name pseudo k unknown;
    stays = λ key old. ground (arith, has_key-register u existing st name pseudo key k unknown);
  }

  pub add_components-Grows :
      (allow_list : List Str) (parts : List (Str × Str)) (st : Progress)
      → Keeps u existing st
      → Grows st (add_components u allow_list parts st)
  unfolding add_components
  add_components-Grows allow_list [] st k = record { keeps = k; stays = λ key old. old }
  add_components-Grows allow_list ((name, pseudo) ∷ rest) st k =
      elim (Bool-cases (elem (lower u name) allow_list)) [
        | inl allowed ↦ rw allowed (add_components-Grows allow_list rest st k)
        | inr plain ↦ elim (Bool-cases (is_known u st name)) [
          | inl known ↦ rw (plain, known) (add_components-Grows allow_list rest st k)
          | inr unknown ↦
              let here = register-Grows st name pseudo k unknown in
              rw (plain, unknown)
                (Grows-trans here
                  (add_components-Grows allow_list rest (register name pseudo st) here.keeps))
        ]
      ]
