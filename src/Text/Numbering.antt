-- ===== src/Text/Numbering.antt =====
-- The loops `for n := k; ; n++` of pools.go and strategy.go, which number candidates until one is
-- free. They run on fuel; fuel above the number of names that can be in the way is enough.
use palena_litellm_pseudonym.Base.{
  ℕ, zero, suc, ◌+◌, ◌≤◌, ◌<◌, ◌≡◌, inl, inr, refl, sym, ap, subst, Bool, true, false, List, [],
  ◌∷◌, Option, none, some, arith, if◌then◌else◌, Bool-cases, Option-cases, length, In, Distinct,
  pigeonhole,
}

-- The first number from `n` on that is not taken.
unfoldable pub first_number : (ℕ → Bool) → ℕ → ℕ → Option ℕ
first_number taken zero n = none
first_number taken (suc fuel) n =
    let next = first_number taken fuel (suc n) in if taken n then next else some n

pub first_number-free :
    (taken : ℕ → Bool) (fuel n : ℕ) {m : ℕ}
    → first_number taken fuel n ≡ some m
    → (taken m ≡ false) × (n ≤ m) × (m < n + fuel)
unfolding first_number
first_number-free taken zero n h = absurd (cc)
first_number-free taken (suc fuel) n {m} h = elim (Bool-cases (taken n)) [
  | inl full ↦
      let later : first_number taken fuel (suc n) ≡ some m = ground arith in
      let (free, above, below) = first_number-free taken fuel (suc n) later in
      (free, omega arith, omega arith)
  | inr free ↦ (ground arith, ground arith, ground arith)
]

-- Only the numbers that are tried matter.
pub first_number-alike :
    (p q : ℕ → Bool) (fuel n : ℕ)
    → ((m : ℕ) → m < n + fuel → p m ≡ q m)
    → first_number p fuel n ≡ first_number q fuel n
unfolding first_number
first_number-alike p q zero n alike = refl
first_number-alike p q (suc fuel) n alike =
    rw (first_number-alike p q fuel (suc n) (λ m l. alike m (omega arith)), first_number)
      (rw (alike n (omega arith)) refl)

-- The names of the numbers from `n` on.
named : (ℕ → List ℕ) → ℕ → ℕ → List (List ℕ)
named name zero n = []
named name (suc k) n = name n ∷ named name k (suc n)

length-named : (name : ℕ → List ℕ) (k n : ℕ) → length (named name k n) ≡ k
unfolding named
length-named name zero n = refl
length-named name (suc k) n = ap suc (length-named name k (suc n))

In-named :
    (name : ℕ → List ℕ) (k n : ℕ) (t : List ℕ)
    → In t (named name k n)
    → (m : ℕ) × (t ≡ name m) × (n ≤ m)
unfolding named
In-named name zero n t h = absurd h
In-named name (suc k) n t (inl e) = (n, e, omega arith)
In-named name (suc k) n t (inr h) =
    let (m, e, le) = In-named name k (suc n) t h in (m, e, omega arith)

Distinct-named :
    (name : ℕ → List ℕ) (k n : ℕ)
    → ((i j : ℕ) → name i ≡ name j → i ≡ j)
    → Distinct (named name k n)
unfolding named
Distinct-named name zero n inj = tt
Distinct-named name (suc k) n inj = (
  λ h.
      let (m, e, le) = In-named name k (suc n) (name n) h in
      let same : n ≡ m = inj n m e in absurd (omega arith),
  Distinct-named name k (suc n) inj,
)

named-taken :
    (name : ℕ → List ℕ) (taken : ℕ → Bool) (blocked : List (List ℕ)) (fuel n : ℕ)
    → ((m : ℕ) → taken m ≡ true → In (name m) blocked)
    → first_number taken fuel n ≡ none
    → (t : List ℕ) → In t (named name fuel n)
    → In t blocked
unfolding named first_number
named-taken name taken blocked zero n sub h t m = absurd m
named-taken name taken blocked (suc fuel) n sub h t m = elim (Bool-cases (taken n)) [
  | inr free ↦ absurd (ground arith)
  | inl full ↦
      let later : first_number taken fuel (suc n) ≡ none = ground arith in
      elim m [
        | inl e ↦ subst (λ x. In x blocked) (sym e) (sub n full)
        | inr k ↦ named-taken name taken blocked fuel (suc n) sub later t k
      ]
]

-- If every taken number has its own name in a list, more fuel than the list is long suffices.
pub first_number-total :
    (name : ℕ → List ℕ) (taken : ℕ → Bool) (blocked : List (List ℕ)) (fuel n : ℕ)
    → ((i j : ℕ) → name i ≡ name j → i ≡ j)
    → ((m : ℕ) → taken m ≡ true → In (name m) blocked)
    → length blocked < fuel
    → (m : ℕ) × (first_number taken fuel n ≡ some m)
first_number-total name taken blocked fuel n inj sub enough =
    elim (Option-cases (first_number taken fuel n)) [
      | inr found ↦ found
      | inl nothing ↦
          let few : length (named name fuel n) ≤ length blocked =
            pigeonhole (named name fuel n) blocked (Distinct-named name fuel n inj)
              (named-taken name taken blocked fuel n sub nothing) in
          absurd (omega (arith, length-named name fuel n))
    ]
