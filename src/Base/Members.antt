-- ===== src/Base/Members.antt =====
-- Membership by recursion, and the pigeonhole principle on which the search for a free name rests.
use Prim.Native.Nat.{suc, ◌≤◌}
use mathlib.Core.Path.{◌≡◌, refl, ap}
use mathlib.Core.Logic.{◌≢◌, ◌⊎◌, inl, inr}
use mathlib.Core.List.{List, [], ◌∷◌, ◌++◌, map}
use native.Mathlib.Omega.{arith}
use palena_litellm_pseudonym.Base.Lists.{length}

module _ {A : Type 0} where
  -- `a` occurs in the list.
  abbrev pub In : A → List A → Type 0
  In a [] = ⊥
  In a (x ∷ xs) = (a ≡ x) ⊎ In a xs

  -- No two places hold the same element.
  abbrev pub Distinct : List A → Type 0
  Distinct [] = Unit
  Distinct (x ∷ xs) = (¬ In x xs) × Distinct xs

  abbrev pub All {κ} : (A → Type κ) → List A → Type κ
  All P [] = Unit
  All P (x ∷ xs) = P x × All P xs

  pub In-append_left : (a : A) (xs ys : List A) → In a xs → In a (xs ++ ys)
  In-append_left a (x ∷ xs) ys (inl e) = inl e
  In-append_left a (x ∷ xs) ys (inr m) = inr (In-append_left a xs ys m)
  In-append_left a [] ys m = absurd m

  pub In-append_right : (a : A) (xs ys : List A) → In a ys → In a (xs ++ ys)
  In-append_right a [] ys m = m
  In-append_right a (x ∷ xs) ys m = inr (In-append_right a xs ys m)

  pub All-In {κ} : (P : A → Type κ) (xs : List A) {a : A} → All P xs → In a xs → P a
  All-In P (x ∷ xs) h (inl e) = rw e h.0
  All-In P (x ∷ xs) h (inr m) = All-In P xs h.1 m
  All-In P [] h m = absurd m

  -- The list without its first occurrence of a member.
  without : (a : A) (xs : List A) → In a xs → List A
  without a (x ∷ xs) (inl e) = xs
  without a (x ∷ xs) (inr m) = x ∷ without a xs m
  without a [] m = absurd m

  length-without : (a : A) (xs : List A) (m : In a xs) → length xs ≡ suc (length (without a xs m))
  unfolding without
  length-without a (x ∷ xs) (inl e) = refl
  length-without a (x ∷ xs) (inr m) = ap suc (length-without a xs m)
  length-without a [] m = absurd m

  In-without : (a b : A) (xs : List A) (m : In a xs) → In b xs → b ≢ a → In b (without a xs m)
  unfolding without
  In-without a b (x ∷ xs) (inl e) (inl f) n = absurd (n (cc))
  In-without a b (x ∷ xs) (inl e) (inr k) n = k
  In-without a b (x ∷ xs) (inr m) (inl f) n = inl f
  In-without a b (x ∷ xs) (inr m) (inr k) n = inr (In-without a b xs m k n)
  In-without a b [] m k n = absurd m

  -- Distinct elements that all occur in `bs` are at most as many as `bs` has places.
  pub pigeonhole :
      (xs bs : List A) → Distinct xs → ((a : A) → In a xs → In a bs) → length xs ≤ length bs
  pigeonhole [] bs d sub = omega arith
  pigeonhole (a ∷ xs) bs d sub =
      let m = sub a (inl refl) in
      let rest : length xs ≤ length (without a bs m) =
        pigeonhole xs (without a bs m) d.1
          (λ b k. In-without a b bs m (sub b (inr k)) (λ e. d.0 (rw (← e) k))) in
      omega (arith, length-without a bs m)

pub In-map : {A B : Type 0} (f : A → B) (a : A) (xs : List A) → In a xs → In (f a) (map f xs)
In-map f a (x ∷ xs) (inl e) = inl (ap f e)
In-map f a (x ∷ xs) (inr m) = inr (In-map f a xs m)
In-map f a [] m = absurd m
