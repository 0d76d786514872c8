-- ===== src/Image/Loop.antt =====
-- internal/image/handler.go: the loop of ProcessAll, entry by entry.
use palena_litellm_pseudonym.Base.{
  ℕ, ◌≡◌, ◌⊎◌, inl, inr, refl, ap, subst, ◌∙◌, Bool, true, false, not, List, [], ◌∷◌, Option, none,
  some, arith, Bool-cases, ||-eq-false, length,
}
use palena_litellm_pseudonym.GoLib.Strings.{Str, codes}
use palena_litellm_pseudonym.GoLib.Unicode.{Unicode}
use palena_litellm_pseudonym.Errs.{>>=-eq-ok, from_ok, ok, Task, ◌>>=◌, return}
use palena_litellm_pseudonym.GoLib.Int.{pos, ltbℤ}
use palena_litellm_pseudonym.Image.DataUrl.{Base64, Fetched}
use palena_litellm_pseudonym.Presidio.ImageRedactor.{Redactor}
use palena_litellm_pseudonym.Pseudonymizer.{ImageOutcome}
use palena_litellm_pseudonym.Text.Handler.{Store}
use palena_litellm_pseudonym.Image.Handler.{
  HandlerConfig, ProcessResult, Tally, tally, shown, image_outcome, start_tally,
}
use palena_litellm_pseudonym.Image.Process.{process_entry, process_images, process_all}
use palena_litellm_pseudonym.Image.Safety.{IsVoid, Handling, process_entry-inv}

-- Each input with its output, in order and equally many.
abbrev pub Pairs : (Str → Str → Type 0) → List Str → List Str → Type 0
Pairs R [] [] = Unit
Pairs R [] (y ∷ ys) = ⊥
Pairs R (x ∷ xs) [] = ⊥
Pairs R (x ∷ xs) (y ∷ ys) = R x y × Pairs R xs ys

unfoldable pub not_blocked : Option ProcessResult → Bool
not_blocked none = true
not_blocked (some res) = not res.blocked

pub Pairs-map :
    (R R' : Str → Str → Type 0) (xs ys : List Str)
    → ((x y : Str) → R x y → R' x y)
    → Pairs R xs ys
    → Pairs R' xs ys
Pairs-map R R' [] [] f p = tt
Pairs-map R R' [] (y ∷ ys) f p = p
Pairs-map R R' (x ∷ xs) [] f p = p
Pairs-map R R' (x ∷ xs) (y ∷ ys) f (here, later) = (f x y here, Pairs-map R R' xs ys f later)

module _ (u : Unicode) (mac : Str → Str → List ℕ) (b64 : Base64) (cfg : HandlerConfig) (st : Store)
    (redactor : Redactor st.World) (fetch : Str → st.World → st.World × Fetched)
    (session_id : Str) where
  abbrev entry : Str → Task st.World (Option ProcessResult)
  entry = process_entry u mac b64 cfg st redactor fetch session_id

  -- One entry of the answer: what was shown for it, and that nothing blocked it.
  abbrev pub Shown : Str → Str → Type 0
  Shown raw out =
      (o : Option ProcessResult) × (out ≡ shown raw o)
      × (not_blocked o ≡ true)
      × (((o ≡ none) × IsVoid u mac b64 cfg st redactor fetch session_id raw)
          ⊎ ((res : ProcessResult) × (o ≡ some res)
              × Handling u mac b64 cfg st redactor fetch session_id raw res))

  unblocked :
      (raw : Str) (o : Option ProcessResult) (t : Tally)
      → (tally raw o t).blocked_any ≡ false
      → (t.blocked_any ≡ false) × (not_blocked o ≡ true)
  unfolding tally not_blocked
  unblocked raw none t e = (e, refl)
  unblocked raw (some res) t e =
      let (before, here) = ||-eq-false t.blocked_any res.blocked e in (before, rw here refl)

  process_images-inv :
      (inputs : List Str) (t : Tally) (s s' : st.World) (r : List Str × Tally)
      → process_images u mac b64 cfg st redactor fetch session_id inputs t s ≡ (s', ok r)
      → r.1.blocked_any ≡ false
      → (t.blocked_any ≡ false) × Pairs Shown inputs r.0
  unfolding process_images
  process_images-inv [] t s s' r e clear =
      let same : ([], t) ≡ r = ground arith in
      subst (λ x. (x.1.blocked_any ≡ false) → (t.blocked_any ≡ false) × Pairs Shown [] x.0) same
        (λ h. (h, tt)) clear
  process_images-inv (raw ∷ inputs) t s s' r e clear =
      let (s1, o, here, next) =
        >>=-eq-ok (entry raw)
          (λ res w.
            (process_images u mac b64 cfg st redactor fetch session_id inputs (tally raw res t)
                >>= λ later. return (shown raw res ∷ later.0, later.1))
              w)
          s e in
      let (s2, later, rest, end) =
        >>=-eq-ok (process_images u mac b64 cfg st redactor fetch session_id inputs (tally raw o t))
          (λ later. return (shown raw o ∷ later.0, later.1)) s1 next in
      let same : (shown raw o ∷ later.0, later.1) ≡ r = ground arith in
      let clear' : later.1.blocked_any ≡ false = ap (λ x. x.1.blocked_any) same ∙ clear in
      let (between, others) = process_images-inv inputs (tally raw o t) s1 s2 later rest clear' in
      let (before, unblocked_here) = unblocked raw o t between in
      (
        before,
        subst (λ x. Pairs Shown (raw ∷ inputs) x.0) same
            (
              (
                o,
                refl,
                unblocked_here,
                process_entry-inv u mac b64 cfg st redactor fetch session_id raw s s1 o here,
              ),
              others,
            ),
      )

  -- An answer that blocks nothing.
  pub process_all-Shown :
      (inputs : List Str) (s s' : st.World) (out : ImageOutcome)
      → process_all u mac b64 cfg st redactor fetch session_id inputs s ≡ (s', ok out)
      → out.block ≡ none
      → Pairs Shown inputs out.images
  unfolding process_all start_tally image_outcome
  process_all-Shown [] s s' out e clear =
      subst (Pairs Shown []) (ap (λ x. (from_ok out x.1).images) e) tt
  process_all-Shown (raw ∷ inputs) s s' out e clear =
      elim (Bool-cases (ltbℤ cfg.max_images_per_request (pos (length (raw ∷ inputs))))) [
        | inl many ↦ absurd (
            let h = rw many at e in
            let k : some (record { reason = codes "too_many_images" }) ≡ out.block =
              ap (λ x. (from_ok out x.1).block) h in
            cc)
        | inr fits ↦
            let h = rw fits at e in
            let (t, r, ran, end) =
              >>=-eq-ok
                (process_images u mac b64 cfg st redactor fetch session_id (raw ∷ inputs)
                  start_tally)
                (λ r. return (image_outcome cfg r.0 r.1)) s h in
            elim (Bool-cases r.1.blocked_any) [
              | inl blocked ↦
                  absurd
                    (let b = ap (λ x. (from_ok out x.1).block) end in let k = rw blocked at b in cc)
              | inr open_all ↦
                  let b = ap (λ x. (from_ok out x.1).images) end in
                  let k = rw open_all at b in
                  subst (Pairs Shown (raw ∷ inputs)) k
                    (process_images-inv (raw ∷ inputs) start_tally s t r ran open_all).1
            ]
      ]
