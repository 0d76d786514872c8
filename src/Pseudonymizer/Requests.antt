-- ===== src/Pseudonymizer/Requests.antt =====
-- handleRequest against the calls of Pseudonymize that it makes.
use palena_litellm_pseudonym.Base.{
  ℕ, ◌≡◌, ◌≢◌, ◌↔◌, ◌⊎◌, inl, inr, refl, sym, ap, subst, ◌∙◌, false, List, [], ◌∷◌, ◌++◌, Option,
  arith, Bool-cases,
}
use palena_litellm_pseudonym.GoLib.Strings.{Str, text_eq_iff}
use palena_litellm_pseudonym.GoLib.Unicode.{Unicode}
use palena_litellm_pseudonym.Audit.{Counters, new_counters}
use palena_litellm_pseudonym.Errs.{Error, ok, err, Task, ◌>>=◌, >>=-eq-ok}
use palena_litellm_pseudonym.Presidio.{Detection}
use palena_litellm_pseudonym.Text.Handler.{Store, Handler, PseudonymizeResult, pseudonymize}
use palena_litellm_pseudonym.Pseudonymizer.{
  action_none, action_intervene, Request, Response, ImageOutcome, count_text, respond, untouched,
  conclude, TextPass, pass_text, text_pass, image_pass, handle_request,
}

module _ (u : Unicode) (mac : Str → Str → List ℕ) (h : Handler) (st : Store)
    (detect : Str → Task st.World (List Detection)) where
  -- Pseudonymize, called on the texts one after the other, succeeds with these results.
  unfoldable pub Calls : Str → List Str → st.World → List PseudonymizeResult → st.World → Type 0
  Calls session_id [] s [] s' = s ≡ s'
  Calls session_id [] s (res ∷ rs) s' = ⊥
  Calls session_id (raw ∷ texts) s [] s' = ⊥
  Calls session_id (raw ∷ texts) s (res ∷ rs) s' =
      (t : st.World) × (pseudonymize u mac h st detect raw session_id s ≡ (t, ok res))
      × Calls session_id texts t rs s'

  unfoldable pub texts_of : List PseudonymizeResult → List Str
  texts_of [] = []
  texts_of (res ∷ rs) = res.text ∷ texts_of rs

  Passed : List Str → Str → st.World → st.World → TextPass → Type 0
  Passed texts session_id s s' pass =
      (rs : List PseudonymizeResult) × Calls session_id texts s rs s'
      × (pass.texts ≡ texts_of rs)
      × ((pass.modified ≡ false) ↔ (texts_of rs ≡ texts))

  text_pass-Passed :
      (texts : List Str) (session_id : Str) (counters : Counters) (s s' : st.World)
      (pass : TextPass)
      → text_pass u mac h st detect session_id texts counters s ≡ (s', ok pass)
      → Passed texts session_id s s' pass
  unfolding text_pass Passed Calls texts_of pass_text
  text_pass-Passed [] session_id counters s s' pass e =
      ([], cc, ground arith, (λ h. refl, λ h. ground arith))
  text_pass-Passed (raw ∷ texts) session_id counters s s' pass e =
      let (t, res, first, e1) = >>=-eq-ok (pseudonymize u mac h st detect raw session_id) _ s e in
      let (t', later, second, e2) =
        >>=-eq-ok (text_pass u mac h st detect session_id texts (count_text counters res)) _ t e1 in
      let (rs, calls, same, kept) =
        text_pass-Passed texts session_id (count_text counters res) t t' later second in
      let made : pass_text raw res later ≡ pass = ground arith in
      let world : t' ≡ s' = ground arith in
      (
        res ∷ rs,
        (t, first, subst (λ w. Calls session_id texts t rs w) world calls),
        ap (λ p. p.texts) (sym made) ∙ ap (◌∷◌ res.text) same,
        (
          λ h. ground (arith, made, kept, text_eq_iff res.text raw),
          λ h. ground (arith, made, kept, text_eq_iff res.text raw),
        ),
      )

  module _ (images : Option (Str → List Str → Task st.World ImageOutcome)) where
    -- A request without images that is answered was answered by Pseudonymize for every text, in
    -- order; the answer is NONE exactly if no text has changed, else it holds the texts returned.
    pub handle_request_lem :
        (req : Request) (s s' : st.World) (res : Response)
        → req.images ≡ []
        → handle_request u mac h st detect images req s ≡ (s', ok res)
        → (rs : List PseudonymizeResult) × Calls req.session_id req.texts s rs s'
          × (((res.action ≡ action_none) × (texts_of rs ≡ req.texts))
              ⊎ ((res.action ≡ action_intervene)
                  × (res.texts ≡ texts_of rs)
                  × (texts_of rs ≢ req.texts)))
    unfolding handle_request image_pass conclude respond untouched Passed
    handle_request_lem req s s' res none_sent e =
        let e' = rw none_sent at e in
        let (t, pass, passed, done) =
          >>=-eq-ok (text_pass u mac h st detect req.session_id req.texts new_counters) _ s e' in
        let (rs, calls, same, kept) =
          text_pass-Passed req.texts req.session_id new_counters s t pass passed in
        let world : t ≡ s' = ground arith in
        let made : conclude pass.modified pass.texts false [] pass.counters ≡ res = ground arith in
        (
          rs,
          subst (λ w. Calls req.session_id req.texts s rs w) world calls,
          elim (Bool-cases pass.modified) [
            | inl changed ↦ inr (
              ap (λ r. r.action) (sym made) ∙ rw changed refl,
              ap (λ r. r.texts) (sym made) ∙ rw changed same,
              λ unchanged. let e'' = kept.1 unchanged in cc,
            )
            | inr unchanged ↦
                inl (ap (λ r. r.action) (sym made) ∙ rw unchanged refl, kept.0 unchanged)
          ],
        )

  text_pass-append :
      (before rest : List Str) (session_id : Str) (s t : st.World) (rs : List PseudonymizeResult)
      → Calls session_id before s rs t
      → (counters : Counters) (t' : st.World) (e : Error)
      → ((c : Counters) → text_pass u mac h st detect session_id rest c t ≡ (t', err e))
      → text_pass u mac h st detect session_id (before ++ rest) counters s ≡ (t', err e)
  unfolding text_pass Calls
  text_pass-append [] rest session_id s t [] same counters t' e fails = rw same (fails counters)
  text_pass-append [] rest session_id s t (r ∷ rs) calls counters t' e fails = absurd calls
  text_pass-append (raw ∷ before) rest session_id s t [] calls counters t' e fails = absurd calls
  text_pass-append (raw ∷ before) rest session_id s t (r ∷ rs) (w, first, calls) counters t' e
        fails =
      rw (first, ◌>>=◌)
        (rw
          (text_pass-append before rest session_id w t rs calls (count_text counters r) t' e fails)
          refl)

  module _ (images : Option (Str → List Str → Task st.World ImageOutcome)) where
    -- If Pseudonymize fails on one of the texts, after it has succeeded on those before, then the
    -- request fails with its error: no text is let through, whatever the other texts are.
    pub handle_request-fail_closed :
        (req : Request) (before after : List Str) (raw : Str) (rs : List PseudonymizeResult)
        (s t t' : st.World) (e : Error)
        → req.texts ≡ before ++ raw ∷ after
        → Calls req.session_id before s rs t
        → pseudonymize u mac h st detect raw req.session_id t ≡ (t', err e)
        → handle_request u mac h st detect images req s ≡ (t', err e)
    unfolding handle_request text_pass
    handle_request-fail_closed req before after raw rs s t t' e split calls failed =
        let fails : (c : Counters)
            → text_pass u mac h st detect req.session_id (raw ∷ after) c t ≡ (t', err e) =
          λ c. rw (failed, ◌>>=◌) refl in
        rw (split, ◌>>=◌)
          (rw
            (text_pass-append before (raw ∷ after) req.session_id s t rs calls new_counters t' e
              fails)
            refl)
