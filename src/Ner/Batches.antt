-- ===== src/Ner/Batches.antt =====
-- internal/ner/client.go: the answers of Detect against the texts.
use palena_litellm_pseudonym.Base.{
  ℕ, zero, suc, ◌≤◌, ◌<◌, ◌≡◌, inl, inr, sym, ap, ◌∙◌, List, [], ◌∷◌, ◌++◌, Option, none, some,
  arith, ◌==◌, if◌then◌else◌, Option-cases, length, take, drop, length-append, length-take,
  length-drop,
}
use palena_litellm_pseudonym.GoLib.Strings.{Str}
use palena_litellm_pseudonym.Errs.{ok, ◌>>=◌, return, >>=-eq-ok, from_ok}
use palena_litellm_pseudonym.GoLib.Http.{Reply, lost, replied}
use palena_litellm_pseudonym.GoLib.Int.{pos, negsuc}
use palena_litellm_pseudonym.Ner.{
  Span, Config, new_batch_size, detect_reply, detect_batch, detect_batches, detect,
}

new_batch_size_pos : (cfg : Config) → 0 < new_batch_size cfg
unfolding new_batch_size
new_batch_size_pos cfg =
    elim cfg.batch_size
      as (λ z. 0 < (elim z [ pos n ↦ if n == 0 then 16 else n | negsuc n ↦ 16 ])) [
        | pos n ↦ ground arith
        | negsuc n ↦ omega arith
      ]

detect_reply-length :
    (decode : List ℕ → Option (List (List Span))) (asked : ℕ) (r : Reply)
    (results : List (List Span))
    → detect_reply decode asked r ≡ ok results
    → length results ≡ asked
unfolding detect_reply
detect_reply-length decode asked (lost e) results h = absurd (cc)
detect_reply-length decode asked (replied status none) results h = absurd (ground arith)
detect_reply-length decode asked (replied status (some bytes)) results h =
    elim (Option-cases (decode bytes)) [
      | inl bad ↦ absurd (let k = rw bad at h in ground arith)
      | inr (found, e) ↦ let k = rw e at h in ground arith
    ]

module _ {S : Type 0} (decode : List ℕ → Option (List (List Span)))
    (post : List Str → List Str → ℕ → S → S × Reply) where
  detect_batches-length :
      (batch_size fuel : ℕ) (texts labels : List Str) (threshold : ℕ) (s s' : S)
      (results : List (List Span))
      → 0 < batch_size
      → length texts ≤ fuel
      → detect_batches decode post batch_size fuel texts labels threshold s ≡ (s', ok results)
      → length results ≡ length texts
  unfolding detect_batches detect_batch
  detect_batches-length n zero [] labels threshold s s' results p enough h =
      ap (λ x. length (from_ok results x.1)) (sym h)
  detect_batches-length n zero (t ∷ texts) labels threshold s s' results p enough h =
      absurd (omega (arith, enough))
  detect_batches-length n (suc fuel) [] labels threshold s s' results p enough h =
      ap (λ x. length (from_ok results x.1)) (sym h)
  detect_batches-length n (suc fuel) (t ∷ texts) labels threshold s s' results p enough h =
      let rest = detect_batches decode post n fuel (drop n (t ∷ texts)) labels threshold in
      let (s1, batch, first, next) =
        >>=-eq-ok (detect_batch decode post (take n (t ∷ texts)) labels threshold)
          (λ b. rest >>= λ later. return (b ++ later)) s h in
      let (s2, later, others, end) = >>=-eq-ok rest (λ l. return (batch ++ l)) s1 next in
      let long =
        detect_reply-length decode (length (take n (t ∷ texts)))
          (post (take n (t ∷ texts)) labels threshold s).1 batch (ap (λ x. x.1) first) in
      let dropped = length-drop n (t ∷ texts) in
      let rec =
        detect_batches-length n fuel (drop n (t ∷ texts)) labels threshold s1 s2 later p
          (omega (arith, enough, p, dropped)) others in
      let whole : batch ++ later ≡ results = ap (λ x. from_ok results x.1) end in
      let taken = length-take n (t ∷ texts) in
      let both = length-append batch later in
      ap length (sym whole) ∙ omega (arith, long, rec, dropped, taken, both)

  -- If Detect of the NER client succeeds, it has an answer for every text, in however many batches
  -- the texts were sent: the result is as long as the list of texts.
  pub detect-length :
      (cfg : Config) (texts labels : List Str) (threshold : ℕ) (s s' : S)
      (results : List (List Span))
      → detect decode post cfg texts labels threshold s ≡ (s', ok results)
      → length results ≡ length texts
  unfolding detect
  detect-length cfg texts labels threshold s s' results =
      detect_batches-length (new_batch_size cfg) (length texts) texts labels threshold s s' results
        (new_batch_size_pos cfg) (omega arith)
