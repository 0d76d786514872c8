-- ===== src/Text/Pools/Fresh.antt =====
-- The assignments of pools.go: the search of the fallback, and the name that is returned.
use palena_litellm_pseudonym.Base.{
  ℕ, zero, suc, ◌+◌, ◌-◌, ◌≤◌, ◌<◌, ◌≡◌, inl, inr, refl, sym, ap, subst, ◌∙◌, true, false, List, [],
  ◌∷◌, ◌++◌, map, some, arith, ◌==◌, Bool-cases, Option-cases, &&-eq-true, ||-eq-true, ||-eq-false,
  length, drop, all, length-append, drop-append, length-map, In, In-append_left, In-append_right,
  In-map,
}
use palena_litellm_pseudonym.GoLib.Strings.{Str, elem, elem_iff, infixes, In-infixes}
use palena_litellm_pseudonym.GoLib.Decimal.{decimal, is_digit, decimal_injective, all-decimal}
use palena_litellm_pseudonym.GoLib.Unicode.{Unicode, lower, trim_space}
use palena_litellm_pseudonym.Text.Numbering.{first_number-free, first_number-total}
use palena_litellm_pseudonym.Text.Pools.{
  Pools, pool_of, reserved_contains, is_taken, first_free, prefix_for, numbered, search_fuel,
  synthetic_fallback, assign, hmac_index, probe, assign_deterministic,
}

pub map-append {ℓ κ} :
    {A : Type ℓ} {B : Type κ} (f : A → B) (xs ys : List A) → map f (xs ++ ys) ≡ map f xs ++ map f ys
map-append f [] ys = refl
map-append f (x ∷ xs) ys = ap (◌∷◌ (f x)) (map-append f xs ys)

pub append_left_cancel {ℓ} :
    {A : Type ℓ} (xs : List A) {ys zs : List A} → xs ++ ys ≡ xs ++ zs → ys ≡ zs
append_left_cancel xs {ys} {zs} e =
    sym (drop-append xs ys) ∙ ap (drop (length xs)) e ∙ drop-append xs zs

module _ (u : Unicode) where
  pub lower-digits : (s : Str) → all is_digit s ≡ true → lower u s ≡ s
  lower-digits [] h = refl
  lower-digits (c ∷ s) h =
      let (digit, rest) = &&-eq-true (is_digit c) (all is_digit s) h in
      let below : c - b'0' < 10 = ground arith in
      let shift : b'0' + (c - b'0') ≡ c = ground arith in
      let here : u.to_lower c ≡ c =
        subst (λ x. u.to_lower x ≡ x) shift (u.lower_digit (c - b'0') below) in
      rw here (ap (◌∷◌ c) (lower-digits s rest))

  -- Candidates with different numbers differ also in lower case.
  pub lower-numbered_injective :
      (prefix : Str) (i j : ℕ) → lower u (numbered prefix i) ≡ lower u (numbered prefix j) → i ≡ j
  unfolding numbered
  lower-numbered_injective prefix i j e =
      let split = λ (n : ℕ). map-append u.to_lower prefix (b'-' ∷ decimal n) in
      let tails : lower u (b'-' ∷ decimal i) ≡ lower u (b'-' ∷ decimal j) =
        append_left_cancel (lower u prefix) (sym (split i) ∙ e ∙ split j) in
      decimal_injective i j (
        sym (lower-digits (decimal i) (all-decimal i))
        ∙ ap (drop 1) tails
        ∙ lower-digits (decimal j) (all-decimal j))

  pub In-infixes_of_reserved :
      (reserved candidate : Str)
      → reserved_contains u reserved candidate ≡ true
      → In (lower u candidate) (infixes reserved)
  unfolding reserved_contains
  In-infixes_of_reserved reserved candidate h =
      In-infixes reserved (lower u candidate) (ground arith)

  module _ (used : List Str) (reserved : Str) where
    blocked : List Str
    blocked = map (lower u) used ++ infixes reserved

    In-blocked :
        (candidate : Str)
        → is_taken u used reserved candidate ≡ true
        → In (lower u candidate) blocked
    unfolding is_taken blocked
    In-blocked candidate h =
        elim (||-eq-true (elem candidate used) (reserved_contains u reserved candidate) h) [
          | inl e ↦
              In-append_left _ (map (lower u) used) (infixes reserved)
                (In-map (lower u) candidate used ((elem_iff candidate used).0 e))
          | inr r ↦
              In-append_right _ (map (lower u) used) (infixes reserved)
                (In-infixes_of_reserved reserved candidate r)
        ]

    length-blocked : length blocked < search_fuel used reserved
    unfolding blocked search_fuel
    length-blocked =
        omega
          (arith, length-append (map (lower u) used) (infixes reserved), length-map (lower u) used)

    -- The fallback finds a number, and its candidate is free.
    pub synthetic_fallback_lem :
        (entity_type : Str)
        → (n : ℕ) × (synthetic_fallback u entity_type used reserved
            ≡ numbered (prefix_for u entity_type) n)
          × (1 ≤ n)
          × (is_taken u used reserved (numbered (prefix_for u entity_type) n) ≡ false)
    unfolding synthetic_fallback
    synthetic_fallback_lem entity_type =
        let name = numbered (prefix_for u entity_type) in
        let taken = λ (n : ℕ). is_taken u used reserved (name n) in
        let (n, found) =
          first_number-total (λ k. lower u (name k)) taken blocked (search_fuel used reserved) 1
            (lower-numbered_injective (prefix_for u entity_type)) (λ k. In-blocked (name k))
            length-blocked in
        let (free, positive, _) = first_number-free taken (search_fuel used reserved) 1 found in
        (n, rw (found, synthetic_fallback), positive, free)

    synthetic_fallback-free :
        (entity_type : Str)
        → is_taken u used reserved (synthetic_fallback u entity_type used reserved) ≡ false
    synthetic_fallback-free entity_type =
        let (n, e, _, free) = synthetic_fallback_lem entity_type in rw e free

    first_free-free :
        (pool : List Str) (c : Str)
        → first_free u used reserved pool ≡ some c
        → is_taken u used reserved c ≡ false
    unfolding first_free
    first_free-free [] c h = absurd (cc)
    first_free-free (d ∷ pool) c h = elim (Bool-cases (is_taken u used reserved d)) [
      | inl full ↦ first_free-free pool c (ground arith)
      | inr free ↦ ground arith
    ]

    probe-free :
        (pool : List Str) (start rounds i : ℕ) (c : Str)
        → probe u used reserved pool start rounds i ≡ some c
        → is_taken u used reserved c ≡ false
    unfolding probe
    probe-free pool start zero i c h = absurd (cc)
    probe-free pool start (suc rounds) i c h =
        ground (arith, probe-free pool start rounds (suc i) c)

    assign-is_taken :
        (p : Pools) (entity_type : Str)
        → is_taken u used reserved (assign u p entity_type used reserved) ≡ false
    unfolding assign
    assign-is_taken p entity_type =
        elim (Option-cases (first_free u used reserved (pool_of p entity_type))) [
          | inl empty ↦ rw (empty, assign) (synthetic_fallback-free entity_type)
          | inr found ↦
              rw (found.1, assign) (first_free-free (pool_of p entity_type) found.0 found.1)
        ]

    assign_deterministic-is_taken :
        (mac : Str → Str → List ℕ) (p : Pools) (entity_type name secret : Str)
        → is_taken u used reserved
            (assign_deterministic u mac p entity_type name used reserved secret)
          ≡ false
    unfolding assign_deterministic
    assign_deterministic-is_taken mac p entity_type name secret =
        let pool = pool_of p entity_type in
        let start = hmac_index mac secret (lower u (trim_space u name)) (length pool) in
        elim (Bool-cases (length pool == 0)) [
          | inl none_left ↦ rw none_left (synthetic_fallback-free entity_type)
          | inr some_left ↦
              rw some_left (elim (Option-cases (probe u used reserved pool start (length pool) 0)) [
                | inl empty ↦ rw empty (synthetic_fallback-free entity_type)
                | inr found ↦ rw (found.1) (probe-free pool start (length pool) 0 found.0 found.1)
              ])
        ]

    -- What `is_taken` denies.
    pub not-taken :
        (candidate : Str)
        → is_taken u used reserved candidate ≡ false
        → (¬ In candidate used) × (reserved_contains u reserved candidate ≡ false)
    unfolding is_taken
    not-taken candidate h =
        let (unused, clear) =
          ||-eq-false (elem candidate used) (reserved_contains u reserved candidate) h in
        (λ m. absurd (ground (arith, elem_iff candidate used)), clear)

  -- Pools.Assign returns a name that is not used and does not occur in the reserved text, in lower
  -- case, whatever is left of the pool.
  pub assign-free :
      (p : Pools) (entity_type : Str) (used : List Str) (reserved : Str)
      → (¬ In (assign u p entity_type used reserved) used)
        × (reserved_contains u reserved (assign u p entity_type used reserved) ≡ false)
  assign-free p entity_type used reserved =
      not-taken used reserved _ (assign-is_taken used reserved p entity_type)

  -- Pools.AssignDeterministic promises the same, whatever the keyed hash answers.
  pub assign_deterministic-free :
      (mac : Str → Str → List ℕ) (p : Pools) (entity_type name : Str) (used : List Str)
      (reserved secret : Str)
      → (¬ In (assign_deterministic u mac p entity_type name used reserved secret) used)
        × (reserved_contains u reserved
              (assign_deterministic u mac p entity_type name used reserved secret)
            ≡ false)
  assign_deterministic-free mac p entity_type name used reserved secret =
      not-taken used reserved _
        (assign_deterministic-is_taken used reserved mac p entity_type name secret)
