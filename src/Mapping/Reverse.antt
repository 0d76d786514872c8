-- ===== src/Mapping/Reverse.antt =====
-- GetReverseMapping against the mapping that it inverts.
use palena_litellm_pseudonym.Base.{
  ◌≡◌, ◌≢◌, ◌⊎◌, inl, inr, refl, sym, ap, subst, ◌∙◌, [], ◌∷◌, map, some, arith, Bool-cases, In,
  Distinct,
}
use palena_litellm_pseudonym.GoLib.Strings.{Str, text_eq, text_eq_iff}
use palena_litellm_pseudonym.GoLib.Dict.{
  get, put, keys, get-put, get-put_self, get-put_ne, In-keys_of_get,
}
use palena_litellm_pseudonym.Mapping.Merge.{Mapping, reverse_into, reverse_of}

module _ (v : Str) where
  get-reverse_into_absent :
      (rev m : Mapping) → ¬ In v (map (λ e. e.1) m) → get v (reverse_into rev m) ≡ get v rev
  unfolding reverse_into
  get-reverse_into_absent rev [] n = refl
  get-reverse_into_absent rev ((k, w) ∷ m) n =
      get-reverse_into_absent (put w k rev) m (λ i. n (inr i))
      ∙ get-put_ne w v k rev (λ e. n (inl (sym e)))

  get-reverse_into :
      (rev m : Mapping) (k : Str)
      → Distinct (map (λ e. e.1) m)
      → get k m ≡ some v
      → get v (reverse_into rev m) ≡ some k
  unfolding reverse_into get
  get-reverse_into rev [] k d h = absurd (cc)
  get-reverse_into rev ((j, w) ∷ m) k d h = elim (Bool-cases (text_eq j k)) [
    | inl same ↦
        let here : w ≡ v = ground arith in
        let n : ¬ In v (map (λ (e : Str × Str). e.1) m) =
          λ i. d.0 (subst (λ x. In x (map (λ (e : Str × Str). e.1) m)) (sym here) i) in
        get-reverse_into_absent (put w j rev) m n
        ∙ subst (λ x. get v (put x j rev) ≡ some k) (sym here)
            (get-put_self v j rev ∙ ap some ((text_eq_iff j k).0 same))
    | inr differ ↦ get-reverse_into (put w j rev) m k d.1 (ground arith)
  ]

-- If no two names of a mapping share a pseudonym, the reverse mapping gives every name back from
-- its pseudonym.
pub get-reverse_of :
    (m : Mapping) (k v : Str)
    → Distinct (map (λ e. e.1) m)
    → get k m ≡ some v
    → get v (reverse_of m) ≡ some k
unfolding reverse_of
get-reverse_of m k v d h = get-reverse_into v [] m k d h

get-reverse_into_sound :
    (rev m : Mapping) (k v : Str)
    → Distinct (keys m)
    → get v (reverse_into rev m) ≡ some k
    → (get k m ≡ some v) ⊎ (get v rev ≡ some k)
unfolding reverse_into get
get-reverse_into_sound rev [] k v d h = inr h
get-reverse_into_sound rev ((j, w) ∷ m) k v d h =
    elim (get-reverse_into_sound (put w j rev) m k v d.1 h) [
      | inl later ↦ elim (Bool-cases (text_eq j k)) [
        | inl same ↦ absurd (
            d.0 (
              subst (λ x. In x (keys m)) (sym ((text_eq_iff j k).0 same))
                (In-keys_of_get k m v later)))
        | inr differ ↦ inl (rw differ later)
      ]
      | inr there ↦ elim (Bool-cases (text_eq w v)) [
        | inl same ↦
            let here : j ≡ k = ground (arith, get-put w v j rev) in
            inl (rw ((text_eq_iff j k).1 here) (ap some ((text_eq_iff w v).0 same)))
        | inr differ ↦ inr (ground (arith, get-put w v j rev))
      ]
    ]

-- What the reverse mapping gives back for a pseudonym is a name that is mapped to it.
pub get-reverse_of_sound :
    (m : Mapping) (k v : Str) → Distinct (keys m) → get v (reverse_of m) ≡ some k → get k m ≡ some v
unfolding reverse_of
get-reverse_of_sound m k v d h = elim (get-reverse_into_sound [] m k v d h) [
  | inl there ↦ there
  | inr nowhere ↦ absurd (unfold get in cc)
]

-- If two names share a pseudonym, one of them is not given back.
pub shared_pseudonym :
    (m : Mapping) (a b v : Str)
    → a ≢ b
    → get a m ≡ some v
    → get b m ≡ some v
    → ¬ ((k : Str) → get k m ≡ some v → get v (reverse_of m) ≡ some k)
shared_pseudonym m a b v differ at_a at_b all_back =
    let one : get v (reverse_of m) ≡ some a = all_back a at_a in
    let two : get v (reverse_of m) ≡ some b = all_back b at_b in differ (cc)
