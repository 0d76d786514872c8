-- ===== src/Text/Components.antt =====
-- internal/text/components.go: the first-name and last-name mappings of a full person name.
use palena_litellm_pseudonym.Base.{
  ℕ, suc, ◌≡◌, inl, inr, sym, subst, Bool, true, false, ◌||◌, not, List, [], ◌∷◌, arith, ltb, leb,
  if◌then◌else◌, Bool-cases, length, All,
}
use palena_litellm_pseudonym.GoLib.Strings.{Str, is_empty, text_eq, text_eq_iff}
use palena_litellm_pseudonym.GoLib.Dict.{put}
use palena_litellm_pseudonym.GoLib.Unicode.{Unicode, equal_fold, fields}

letter_count : Unicode → Str → ℕ
letter_count u [] = 0
letter_count u (c ∷ s) = if u.is_letter c then suc (letter_count u s) else letter_count u s

-- At least two code points, no lower-case start, and at least two letters.
unfoldable pub is_safe_component : Unicode → Str → Bool
unfolding letter_count
is_safe_component u [] = false
is_safe_component u (c ∷ s) =
    if ltb (length (c ∷ s)) 2
    then false
    else if u.is_lower c
    then false
    else leb 2 (letter_count u (c ∷ s))

-- The closure addPair.
unfoldable pub add_pair : Unicode → List (Str × Str) → Str → Str → List (Str × Str)
add_pair u out r p =
    if is_empty p || not (is_safe_component u r)
    then out
    else if equal_fold u r p
    then out
    else put r p out

abbrev pub last_of : Str → List Str → Str
last_of s [] = s
last_of s (t ∷ ts) = last_of t ts

token_mappings : Unicode → List Str → List Str → List (Str × Str)
token_mappings u (r0 ∷ r1 ∷ rs) (p0 ∷ p1 ∷ ps) =
    let first = add_pair u [] r0 p0 in
    if equal_fold u (last_of r1 rs) r0
    then first
    else add_pair u first (last_of r1 rs) (last_of p1 ps)
token_mappings u (r0 ∷ r1 ∷ rs) (p0 ∷ []) = []
token_mappings u (r0 ∷ r1 ∷ rs) [] = []
token_mappings u (r0 ∷ []) ps = []
token_mappings u [] ps = []

-- An empty list stands for nil.
unfoldable pub component_mappings : Unicode → Str → Str → List (Str × Str)
unfolding token_mappings
component_mappings u name pseudo = token_mappings u (fields u name) (fields u pseudo)

module _ (u : Unicode) where
  IsComponent : Str × Str → Type 0
  IsComponent e = (is_safe_component u e.0 ≡ true) × (equal_fold u e.0 e.1 ≡ false)

  put-IsComponent :
      (m : List (Str × Str)) (r p : Str)
      → All IsComponent m
      → IsComponent (r, p)
      → equal_fold u r p ≡ false
      → All IsComponent (put r p m)
  unfolding put IsComponent
  put-IsComponent [] r p h new clear = (new, tt)
  put-IsComponent ((k, v) ∷ m) r p h new clear = elim (Bool-cases (text_eq k r)) [
    | inl same ↦ rw same (
      (
        subst (λ s. is_safe_component u s ≡ true) (sym ((text_eq_iff k r).0 same)) new.0,
        subst (λ s. equal_fold u s p ≡ false) (sym ((text_eq_iff k r).0 same)) clear,
      ),
      h.1,
    )
    | inr differ ↦ rw differ (h.0, put-IsComponent m r p h.1 new clear)
  ]

  add_pair-IsComponent :
      (m : List (Str × Str)) (r p : Str) → All IsComponent m → All IsComponent (add_pair u m r p)
  unfolding add_pair IsComponent
  add_pair-IsComponent m r p h = elim (Bool-cases (is_empty p || not (is_safe_component u r))) [
    | inl skip ↦ rw (skip, add_pair) h
    | inr go ↦ elim (Bool-cases (equal_fold u r p)) [
      | inl same ↦ rw (go, same, add_pair) h
      | inr differ ↦
          let safe : is_safe_component u r ≡ true = ground arith in
          rw (go, differ, add_pair) (put-IsComponent m r p h (safe, differ) differ)
    ]
  ]

  -- Every key of a decomposed name may stand alone: it has at least two letters and no lower-case
  -- start. And no component is mapped to itself.
  pub component_mappings_safe :
      (name pseudo : Str)
      → All
          (λ e. (is_safe_component u e.0 ≡ true) × (equal_fold u e.0 e.1 ≡ false))
          (component_mappings u name pseudo)
  unfolding component_mappings IsComponent
  component_mappings_safe name pseudo = token_mappings_safe (fields u name) (fields u pseudo)
    where
      token_mappings_safe : (rs ps : List Str) → All IsComponent (token_mappings u rs ps)
      token_mappings_safe (r0 ∷ r1 ∷ rs) (p0 ∷ p1 ∷ ps) =
          let first = add_pair-IsComponent [] r0 p0 tt in
          elim (Bool-cases (equal_fold u (last_of r1 rs) r0)) [
            | inl same ↦ rw same first
            | inr differ ↦
                rw differ
                  (add_pair-IsComponent (add_pair u [] r0 p0) (last_of r1 rs) (last_of p1 ps) first)
          ]
      token_mappings_safe (r0 ∷ r1 ∷ rs) (p0 ∷ []) = tt
      token_mappings_safe (r0 ∷ r1 ∷ rs) [] = tt
      token_mappings_safe (r0 ∷ []) ps = tt
      token_mappings_safe [] ps = tt
