-- ===== src/Text/Assign/Injective.antt =====
-- assignNew: the pseudonyms of different names, without decomposition.
use palena_litellm_pseudonym.Base.{
  ℕ, ◌≡◌, ◌⊎◌, inl, inr, sym, subst, false, List, [], ◌∷◌, ◌++◌, append-nil, Bool-cases, In,
  Distinct,
}
use palena_litellm_pseudonym.GoLib.Strings.{Str}
use palena_litellm_pseudonym.GoLib.Unicode.{Unicode}
use palena_litellm_pseudonym.Presidio.{Detection}
use palena_litellm_pseudonym.Text.Pools.Fresh.{map-append}
use palena_litellm_pseudonym.Text.Strategy.{assign_name, values}
use palena_litellm_pseudonym.Text.Strategy.Fresh.{HasRoom, assign_name-new}
use palena_litellm_pseudonym.Text.Assign.{
  Settings, Progress, is_known, assign_one, assign_all, sorted_detections, assign_new,
}
use palena_litellm_pseudonym.Text.Assign.Known.{Keeps, register-append, register-Keeps}

Distinct-append_one :
    {A : Type 0} (xs : List A) (x : A) → Distinct xs → ¬ In x xs → Distinct (xs ++ x ∷ [])
Distinct-append_one [] x d n = (λ m. m, tt)
Distinct-append_one (y ∷ xs) x d n = (
  λ m. elim (In-append_cases y xs x m) [ inl k ↦ d.0 k | inr e ↦ n (inl (sym e)) ],
  Distinct-append_one xs x d.1 (λ m. n (inr m)),
)
  where
    In-append_cases :
        {A : Type 0} (a : A) (xs : List A) (x : A) → In a (xs ++ x ∷ []) → In a xs ⊎ (a ≡ x)
    In-append_cases a [] x (inl e) = inr e
    In-append_cases a [] x (inr m) = absurd m
    In-append_cases a (y ∷ xs) x (inl e) = inl (inl e)
    In-append_cases a (y ∷ xs) x (inr m) = elim (In-append_cases a xs x m) [
      | inl k ↦ inl (inr k)
      | inr e ↦ inr e
    ]

values-append : (m : List (Str × Str)) (k v : Str) → values (m ++ (k, v) ∷ []) ≡ values m ++ v ∷ []
values-append m k v = map-append (λ (e : Str × Str). e.1) m ((k, v) ∷ [])

module _ (u : Unicode) (mac : Str → Str → List ℕ) (h : Settings) (reserved : Str) where
  -- Token indices fit an int in every round of the loop.
  abbrev pub HasRoomAlong : List Detection → Progress → Type 0
  HasRoomAlong [] st = Unit
  HasRoomAlong (d ∷ ds) st =
      HasRoom u d.entity_type st.scratch reserved
      × HasRoomAlong ds (assign_one u mac h reserved d st)

  module _ (existing : List (Str × Str)) (whole : h.decompose ≡ false) where
    assign_one-Distinct :
        (d : Detection) (st : Progress)
        → Keeps u existing st
        → HasRoom u d.entity_type st.scratch reserved
        → Distinct (values st.scratch)
        → Keeps u existing (assign_one u mac h reserved d st)
          × Distinct (values (assign_one u mac h reserved d st).scratch)
    unfolding assign_one
    assign_one-Distinct d st k room apart = elim (Bool-cases (is_known u st d.text)) [
      | inl known ↦ rw (known, assign_one) (k, apart)
      | inr unknown ↦
          let p = assign_name u mac h.strat d.entity_type d.text st.scratch reserved in
          let (new, _) =
            assign_name-new u mac h.strat d.entity_type d.text st.scratch reserved room in
          rw (unknown, whole, assign_one)
            (
              register-Keeps u existing st d.text p k unknown,
              rw (register-append u existing st d.text p k unknown) (
                  rw (values-append st.scratch d.text p)
                    (Distinct-append_one (values st.scratch) p apart new)),
            )
    ]

    assign_all-Distinct :
        (ds : List Detection) (st : Progress)
        → Keeps u existing st
        → HasRoomAlong ds st
        → Distinct (values st.scratch)
        → Keeps u existing (assign_all u mac h reserved ds st)
          × Distinct (values (assign_all u mac h reserved ds st).scratch)
    unfolding assign_all
    assign_all-Distinct [] st k room apart = (k, apart)
    assign_all-Distinct (d ∷ ds) st k room apart =
        let (k', apart') = assign_one-Distinct d st k room.0 apart in
        assign_all-Distinct ds (assign_one u mac h reserved d st) k' room.1 apart'

-- Without decomposition no two names of the merged mapping share a pseudonym, if none did before:
-- the reverse mapping is well defined. Token indices are taken to fit an int along the loop.
pub assign_new-Distinct :
    (u : Unicode) (mac : Str → Str → List ℕ) (h : Settings) (detections : List Detection)
    (existing : List (Str × Str)) (reserved : Str)
    → h.decompose ≡ false
    → HasRoomAlong u mac h reserved
        (sorted_detections u detections)
        (record { new_map = []; scratch = existing })
    → Distinct (values existing)
    → Distinct (values (existing ++ assign_new u mac h detections existing reserved))
unfolding assign_new
assign_new-Distinct u mac h detections existing reserved whole room apart =
    let start : Progress = record { new_map = []; scratch = existing } in
    let k : Keeps u existing start = record { split = sym (append-nil existing); fresh = tt } in
    let (k', apart') =
      assign_all-Distinct u mac h reserved existing whole (sorted_detections u detections) start k
        room apart in
    subst (λ m. Distinct (values m)) k'.split apart'
