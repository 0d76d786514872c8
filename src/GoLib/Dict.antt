-- ===== src/GoLib/Dict.antt =====
-- map[string]V as an association list. Go leaves the order of iteration open; where it matters a
-- definition that ranges over a map takes the list in the order that the run happens to choose.
use palena_litellm_pseudonym.Base.{
  ◌≡◌, ◌≢◌, refl, Bool, true, false, List, [], ◌∷◌, ◌++◌, Option, none, some, arith, if◌then◌else◌,
  Bool-cases, In, inl, inr,
}
use palena_litellm_pseudonym.GoLib.Strings.{Str, text_eq, text_eq_iff, text_eq_refl}

module _ {ℓ} {V : Type ℓ} where
  -- m[k]
  unfoldable pub get : Str → List (Str × V) → Option V
  get k [] = none
  get k ((j, v) ∷ m) = if text_eq j k then some v else get k m

  -- m[k] = v
  unfoldable pub put : Str → V → List (Str × V) → List (Str × V)
  put k v [] = (k, v) ∷ []
  put k v ((j, w) ∷ m) = if text_eq j k then (j, v) ∷ m else (j, w) ∷ put k v m

  -- _, ok := m[k]
  unfoldable pub has : Str → List (Str × V) → Bool
  unfolding get
  has k m = elim (get k m) [ none ↦ false | some v ↦ true ]

  abbrev pub keys : List (Str × V) → List Str
  keys [] = []
  keys ((k, v) ∷ m) = k ∷ keys m

  -- A read after a write.
  pub get-put :
      (k j : Str) (v : V) (m : List (Str × V))
      → get j (put k v m) ≡ (if text_eq k j then some v else get j m)
  unfolding get put
  get-put k j v [] = refl
  get-put k j v ((i, w) ∷ m) =
      ground (arith, text_eq_iff k j, text_eq_iff i k, text_eq_iff i j, get-put k j v m)

  pub get-put_self : (k : Str) (v : V) (m : List (Str × V)) → get k (put k v m) ≡ some v
  get-put_self k v m = rw (get-put, text_eq_refl)

  pub get-put_ne : (k j : Str) (v : V) (m : List (Str × V)) → k ≢ j → get j (put k v m) ≡ get j m
  get-put_ne k j v m h = ground (arith, get-put k j v m, text_eq_iff k j)

  pub has-false : (k : Str) (m : List (Str × V)) → has k m ≡ false → get k m ≡ none
  unfolding has
  has-false k m h = ground arith

  pub has_of_get : (k : Str) (m : List (Str × V)) (v : V) → get k m ≡ some v → has k m ≡ true
  unfolding has
  has_of_get k m v h = ground arith

  -- A new key is put at the end.
  pub put_new :
      (k : Str) (v : V) (m : List (Str × V)) → get k m ≡ none → put k v m ≡ m ++ (k, v) ∷ []
  unfolding get put
  put_new k v [] h = refl
  put_new k v ((j, w) ∷ m) h = ground (arith, put_new k v m)

  pub get-append :
      (k : Str) (m n : List (Str × V))
      → get k (m ++ n) ≡ elim (get k m) [ none ↦ get k n | some v ↦ some v ]
  unfolding get
  get-append k [] n = refl
  get-append k ((j, v) ∷ m) n = ground (arith, get-append k m n)

  pub In-keys_of_get : (k : Str) (m : List (Str × V)) (v : V) → get k m ≡ some v → In k (keys m)
  unfolding get
  In-keys_of_get k [] v h = absurd (cc)
  In-keys_of_get k ((j, w) ∷ m) v h = ground (arith, text_eq_iff j k, In-keys_of_get k m v)

  pub get_of_In-keys : (k : Str) (m : List (Str × V)) → In k (keys m) → (v : V) × (get k m ≡ some v)
  unfolding get
  get_of_In-keys k [] h = absurd h
  get_of_In-keys k ((j, w) ∷ m) (inl e) = (w, ground (arith, text_eq_iff j k))
  get_of_In-keys k ((j, w) ∷ m) (inr h) =
      let (v, e) = get_of_In-keys k m h in
      elim (Bool-cases (text_eq j k)) [ inl y ↦ (w, rw y) | inr n ↦ (v, rw n e) ]
