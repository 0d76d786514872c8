-- ===== src/Text/NerCache/Index.antt =====
-- The list of the cache and the index of its elements, and removal from both.
use palena_litellm_pseudonym.Base.{
  ℕ, suc, ◌≡◌, inl, inr, refl, sym, ap, subst, ◌∙◌, true, false, List, [], ◌∷◌, map, none, some,
  arith, ◌==◌, if◌then◌else◌, Bool-cases, Option-cases, ==_iff, length, In, Distinct, In-map,
}
use palena_litellm_pseudonym.GoLib.Strings.{Str, text_eq, text_eq_iff}
use palena_litellm_pseudonym.GoLib.Dict.{get, keys, In-keys_of_get}
use palena_litellm_pseudonym.Text.NerCache.{Element, remove, delete_key, back}

abbrev pub index_of_order : List Element → List (Str × ℕ)
index_of_order = map (λ e. (e.key, e.id))

abbrev pub ids : List Element → List ℕ
ids = map (λ e. e.id)

module _ (j : Str) where
  pub get-delete_key :
      (k : Str) (m : List (Str × ℕ))
      → Distinct (keys m)
      → get k (delete_key j m) ≡ (if text_eq j k then none else get k m)
  unfolding get delete_key
  get-delete_key k [] d = ground arith
  get-delete_key k ((i, v) ∷ m) d = elim (Bool-cases (text_eq i j)) [
    | inl same ↦
        let here : i ≡ j = (text_eq_iff i j).0 same in
        elim (Bool-cases (text_eq j k)) [
          | inl asked ↦
              let key : j ≡ k = (text_eq_iff j k).0 asked in
              rw same (rw asked (not_there m (subst (λ x. ¬ In x (keys m)) (here ∙ key) d.0)))
          | inr other ↦
              let apart : text_eq i k ≡ false = rw here other in rw same (rw other (rw apart refl))
        ]
    | inr differ ↦
        let rest = get-delete_key k m d.1 in
        elim (Bool-cases (text_eq j k)) [
          | inl asked ↦
              let key : j ≡ k = (text_eq_iff j k).0 asked in
              let apart : text_eq i k ≡ false = rw (← key) differ in
              rw differ (rw apart (rw asked (rest ∙ rw asked refl)))
          | inr other ↦ rw differ (
              rw other (elim (Bool-cases (text_eq i k)) [
                | inl found ↦ rw found refl
                | inr past ↦ rw past (rest ∙ rw other refl)
              ]))
        ]
  ]
    where
      not_there : (m : List (Str × ℕ)) → (¬ In k (keys m)) → get k m ≡ none
      not_there m absent = elim (Option-cases (get k m)) [
        | inl nothing ↦ nothing
        | inr (v, found) ↦ absurd (absent (In-keys_of_get k m v found))
      ]

  pub length-delete_key :
      (m : List (Str × ℕ)) (v : ℕ) → get j m ≡ some v → suc (length (delete_key j m)) ≡ length m
  unfolding get delete_key
  length-delete_key [] v h = absurd (cc)
  length-delete_key ((i, w) ∷ m) v h = ground (arith, length-delete_key m v)

  pub In-delete_key : (a : Str) (m : List (Str × ℕ)) → In a (keys (delete_key j m)) → In a (keys m)
  unfolding delete_key
  In-delete_key a [] h = h
  In-delete_key a ((i, w) ∷ m) h = elim (Bool-cases (text_eq i j)) [
    | inl same ↦ inr (let h' = rw same at h in h')
    | inr differ ↦
        let h' : In a (i ∷ keys (delete_key j m)) = rw differ at h in
        elim h' [ inl e ↦ inl e | inr k ↦ inr (In-delete_key a m k) ]
  ]

  pub Distinct-delete_key :
      (m : List (Str × ℕ)) → Distinct (keys m) → Distinct (keys (delete_key j m))
  unfolding delete_key
  Distinct-delete_key [] d = d
  Distinct-delete_key ((i, w) ∷ m) d = elim (Bool-cases (text_eq i j)) [
    | inl same ↦ rw same d.1
    | inr differ ↦ rw differ (λ h. d.0 (In-delete_key i m h), Distinct-delete_key m d.1)
  ]

module _ (i : ℕ) where
  pub In-ids-remove :
      (a : ℕ) (order : List Element) → In a (ids (remove i order)) → In a (ids order)
  unfolding remove
  In-ids-remove a [] h = h
  In-ids-remove a (e ∷ order) h = elim (Bool-cases (e.id == i)) [
    | inl here ↦ inr (let h' = rw here at h in h')
    | inr later ↦
        let h' : In a (e.id ∷ ids (remove i order)) = rw later at h in
        elim h' [ inl s ↦ inl s | inr m ↦ inr (In-ids-remove a order m) ]
  ]

  pub Distinct-remove :
      (order : List Element) → Distinct (ids order) → Distinct (ids (remove i order))
  unfolding remove
  Distinct-remove [] d = d
  Distinct-remove (e ∷ order) d = elim (Bool-cases (e.id == i)) [
    | inl here ↦ rw here d.1
    | inr later ↦ rw later (λ h. d.0 (In-ids-remove e.id order h), Distinct-remove order d.1)
  ]

  pub remove-gone : (order : List Element) → Distinct (ids order) → ¬ In i (ids (remove i order))
  unfolding remove
  remove-gone [] d h = h
  remove-gone (e ∷ order) d h = elim (Bool-cases (e.id == i)) [
    | inl here ↦
        let same : e.id ≡ i = (==_iff e.id i).0 here in
        let h' : In i (ids order) = rw here at h in
        d.0 (subst (λ x. In x (ids order)) (sym same) h')
    | inr later ↦
        let h' : In i (e.id ∷ ids (remove i order)) = rw later at h in
        elim h' [ inl s ↦ ground (arith, ==_iff e.id i) | inr m ↦ remove-gone order d.1 m ]
  ]

pub remove-delete_key :
    (e : Element) (order : List Element)
    → In e order
    → Distinct (ids order)
    → Distinct (keys (index_of_order order))
    → index_of_order (remove e.id order) ≡ delete_key e.key (index_of_order order)
unfolding remove delete_key
remove-delete_key e [] m d k = absurd m
remove-delete_key e (x ∷ order) (inl s) d k =
    let same_id : (x.id == e.id) ≡ true = (==_iff x.id e.id).1 (sym (ap (λ y. y.id) s)) in
    let same_key : text_eq x.key e.key ≡ true =
      (text_eq_iff x.key e.key).1 (sym (ap (λ y. y.key) s)) in
    rw same_id (rw same_key refl)
remove-delete_key e (x ∷ order) (inr m) d k =
    let other_id : (x.id == e.id) ≡ false = elim (Bool-cases (x.id == e.id)) [
      | inr n ↦ n
      | inl y ↦ absurd (d.0 (rw ((==_iff x.id e.id).0 y) (In-map (λ z. z.id) e order m)))
    ] in
    let other_key : text_eq x.key e.key ≡ false = elim (Bool-cases (text_eq x.key e.key)) [
      | inr n ↦ n
      | inl y ↦ absurd (k.0 (rw ((text_eq_iff x.key e.key).0 y) (key_there e order m)))
    ] in
    rw other_id (rw other_key (ap (◌∷◌ (x.key, x.id)) (remove-delete_key e order m d.1 k.1)))
  where
    key_there :
        (e : Element) (order : List Element) → In e order → In e.key (keys (index_of_order order))
    key_there e (x ∷ order) (inl s) = inl (ap (λ y. y.key) s)
    key_there e (x ∷ order) (inr m) = inr (key_there e order m)
    key_there e [] m = absurd m

-- The index has every element of the list.
pub get-index_of_order :
    (e : Element) (order : List Element)
    → In e order
    → Distinct (keys (index_of_order order))
    → get e.key (index_of_order order) ≡ some e.id
unfolding get
get-index_of_order e [] m k = absurd m
get-index_of_order e (x ∷ order) (inl s) k =
    let same_key : text_eq x.key e.key ≡ true =
      (text_eq_iff x.key e.key).1 (sym (ap (λ y. y.key) s)) in
    rw same_key (ap some (sym (ap (λ y. y.id) s)))
get-index_of_order e (x ∷ order) (inr m) k = elim (Bool-cases (text_eq x.key e.key)) [
  | inl y ↦
      let found = get-index_of_order e order m k.1 in
      absurd (
        k.0 (
          rw ((text_eq_iff x.key e.key).0 y)
            (In-keys_of_get e.key (index_of_order order) e.id found)))
  | inr n ↦ rw n (get-index_of_order e order m k.1)
]

pub back-In : (order : List Element) (e : Element) → back order ≡ some e → In e order
unfolding back
back-In [] e h = absurd (cc)
back-In (x ∷ order) e h = elim (Option-cases (back order)) [
  | inl last ↦ inl (let h' = rw (last, back) at h in cc)
  | inr (l, found) ↦
      let h' : some l ≡ some e = rw (found, back) at h in inr (back-In order e (found ∙ h'))
]

pub back-none : (order : List Element) → back order ≡ none → order ≡ []
unfolding back
back-none [] h = refl
back-none (x ∷ order) h = elim (Option-cases (back order)) [
  | inl last ↦ absurd (let h' = rw (last, back) at h in cc)
  | inr (l, found) ↦ absurd (let h' = rw (found, back) at h in cc)
]
