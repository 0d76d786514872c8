-- ===== src/Pseudonymizer/Responses.antt =====
-- handleResponse: its errors and the shape of its answers.
use palena_litellm_pseudonym.Base.{
  suc, ◌≡◌, ◌≢◌, ◌⊎◌, inl, inr, refl, sym, ap, ◌∙◌, Bool, false, ◌&&◌, ◌||◌, not, List, [], ◌∷◌,
  arith, ltb, ◌==◌, if◌then◌else◌, Bool-cases, length, any,
}
use palena_litellm_pseudonym.GoLib.Strings.{Str, text_eq}
use palena_litellm_pseudonym.GoLib.Dict.{keys}
use palena_litellm_pseudonym.GoLib.Unicode.{Unicode}
use palena_litellm_pseudonym.Audit.{new_counters}
use palena_litellm_pseudonym.Errs.{
  Error, mapping_store_unavailable, Result, ok, err, ◌>>=◌, >>=-eq-ok, return,
}
use palena_litellm_pseudonym.Text.Handler.{
  Store, ReverseStreamResult, reverse, reverse_stream, stream_texts, zeros,
}
use palena_litellm_pseudonym.Pseudonymizer.{
  action_none, action_intervene, Request, Response, respond, untouched, is_unavailable, best_effort,
  reversed_response, stream_response, reverse_all, handle_response,
}

not_available : (x : Error) → is_unavailable x ≡ false → x ≢ mapping_store_unavailable
unfolding is_unavailable
not_available x other_error same = absurd (let h = rw (same, is_unavailable) at other_error in cc)

best_effort-available :
    {S : Type 0} (run : S × Result Response) → (best_effort run).1 ≢ err mapping_store_unavailable
unfolding best_effort is_unavailable
best_effort-available (s, ok res) e = cc
best_effort-available (s, err x) e = elim (Bool-cases (is_unavailable x)) [
  | inl lost ↦ absurd (let e' = rw lost at e in cc)
  | inr other_error ↦ absurd (let e' = rw other_error at e in not_available x other_error (cc))
]

module _ (u : Unicode) (st : Store) where
  -- The loss of the mapping store never fails the response side: whatever the request, the error
  -- is not that the store is unavailable.
  pub handle_response-available :
      (req : Request) (s : st.World)
      → (handle_response u st req s).1 ≢ err mapping_store_unavailable
  unfolding handle_response
  handle_response-available req s e = elim (Bool-cases (length req.texts == 0)) [
    | inl none_sent ↦ ground arith
    | inr sent ↦ elim (Bool-cases req.stream_transform) [
      | inl streaming ↦ best_effort-available _ (let e' = rw (sent, streaming) at e in e')
      | inr whole ↦ best_effort-available _ (let e' = rw (sent, whole) at e in e')
    ]
  ]

  stream_texts-length :
      (rev : List (Str × Str)) (names texts : List Str)
      → (length (stream_texts u st rev names texts).texts ≡ length texts)
        × (length (stream_texts u st rev names texts).holdbacks ≡ length texts)
  unfolding stream_texts
  stream_texts-length rev names [] = (refl, refl)
  stream_texts-length rev names (t ∷ texts) =
      let (a, b) = stream_texts-length rev names texts in (ap suc a, ap suc b)

  zeros-length : (texts : List Str) → length (zeros u st texts) ≡ length texts
  unfolding zeros
  zeros-length [] = refl
  zeros-length (t ∷ texts) = ap suc (zeros-length texts)

  reverse_stream-length :
      (texts : List Str) (session_id : Str) (s s' : st.World) (result : ReverseStreamResult)
      → reverse_stream u st texts session_id s ≡ (s', ok result)
      → (length result.texts ≡ length texts) × (length result.holdbacks ≡ length texts)
  unfolding reverse_stream
  reverse_stream-length [] session_id s s' result e = (ground arith, ground arith)
  reverse_stream-length (t ∷ texts) session_id s s' result e =
      let (w, rev, got, done) = >>=-eq-ok (st.get_reverse_mapping session_id) _ s e in
      elim (Bool-cases (length rev == 0)) [
        | inl nothing ↦
            let d = rw nothing at done in
            let made : record {
              texts = t ∷ texts;
              holdbacks = zeros u st (t ∷ texts);
              modified = false;
            }
                ≡ result =
              ground arith in
            (
              ap (λ r. length r.texts) (sym made),
              ap (λ r. length r.holdbacks) (sym made) ∙ zeros-length (t ∷ texts),
            )
        | inr some_names ↦
            let d = rw some_names at done in
            let made : stream_texts u st rev (keys rev) (t ∷ texts) ≡ result = ground arith in
            let (a, b) = stream_texts-length rev (keys rev) (t ∷ texts) in
            (ap (λ r. length r.texts) (sym made) ∙ a, ap (λ r. length r.holdbacks) (sym made) ∙ b)
      ]

  reverse_all-length :
      (session_id : Str) (texts : List Str) (s s' : st.World) (out : List Str × Bool)
      → reverse_all u st session_id texts s ≡ (s', ok out)
      → length out.0 ≡ length texts
  unfolding reverse_all
  reverse_all-length session_id [] s s' out e = ground arith
  reverse_all-length session_id (raw ∷ texts) s s' out e =
      let (t, reversed, first, e1) = >>=-eq-ok (reverse u st raw session_id) _ s e in
      let (t', later, second, e2) = >>=-eq-ok (reverse_all u st session_id texts) _ t e1 in
      let known = reverse_all-length session_id texts t t' later second in
      let made : (reversed ∷ later.0, not (text_eq reversed raw) || later.1) ≡ out = ground arith in
      ap (λ o. length o.0) (sym made) ∙ ap suc known

  best_effort-eq-ok :
      (run : st.World × Result Response) (s' : st.World) (res : Response)
      → best_effort run ≡ (s', ok res)
      → (run ≡ (s', ok res)) ⊎ (res ≡ untouched new_counters)
  unfolding best_effort
  best_effort-eq-ok (s, ok out) s' res e = inl e
  best_effort-eq-ok (s, err x) s' res e = elim (Bool-cases (is_unavailable x)) [
    | inl lost ↦ inr (let e' = rw lost at e in ground arith)
    | inr other_error ↦ absurd (let e' = rw other_error at e in cc)
  ]

  Beside : Request → Response → Type 0
  Beside req res =
      (res.action ≡ action_intervene)
      → (length res.texts ≡ length req.texts)
        × (if req.stream_transform
            then length res.stream_holdback_chars ≡ length req.texts
            else res.stream_holdback_chars ≡ [])

  untouched-Beside :
      (req : Request) (res : Response) → res ≡ untouched new_counters → Beside req res
  unfolding Beside untouched respond
  untouched-Beside req res e intervened =
      absurd
        (let a : action_none ≡ action_intervene = ap (λ r. r.action) (sym e) ∙ intervened in cc)

  streamed_length :
      (req : Request) (s s' : st.World) (res : Response)
      → (reverse_stream u st req.texts req.session_id >>= λ result. return (stream_response result))
          s
        ≡ (s', ok res)
      → res.action ≡ action_intervene
      → (length res.texts ≡ length req.texts)
        × (length res.stream_holdback_chars ≡ length req.texts)
  unfolding stream_response respond untouched
  streamed_length req s s' res run intervened =
      let (t, result, first, done) =
        >>=-eq-ok (reverse_stream u st req.texts req.session_id) _ s run in
      let (a, b) = reverse_stream-length req.texts req.session_id s t result first in
      let made : stream_response result ≡ res = ground arith in
      elim (Bool-cases (not result.modified && not (any (ltb 0) result.holdbacks))) [
        | inl kept ↦ absurd (
            let quiet : action_none ≡ action_intervene =
              rw kept at (ap (λ r. r.action) made ∙ intervened) in
            cc)
        | inr changed ↦ (
          ap (λ r. length r.texts) (sym made) ∙ rw changed a,
          ap (λ r. length r.stream_holdback_chars) (sym made) ∙ rw changed b,
        )
      ]

  whole_length :
      (req : Request) (s s' : st.World) (res : Response)
      → (reverse_all u st req.session_id req.texts >>= λ r. return (reversed_response r.0 r.1)) s
        ≡ (s', ok res)
      → res.action ≡ action_intervene
      → (length res.texts ≡ length req.texts) × (res.stream_holdback_chars ≡ [])
  unfolding reversed_response respond untouched
  whole_length req s s' res run intervened =
      let (t, out, first, done) = >>=-eq-ok (reverse_all u st req.session_id req.texts) _ s run in
      let a = reverse_all-length req.session_id req.texts s t out first in
      let made : reversed_response out.0 out.1 ≡ res = ground arith in
      elim (Bool-cases out.1) [
        | inr kept ↦ absurd (
            let quiet : action_none ≡ action_intervene =
              rw kept at (ap (λ r. r.action) made ∙ intervened) in
            cc)
        | inl changed ↦ (
          ap (λ r. length r.texts) (sym made) ∙ rw changed a,
          ap (λ r. r.stream_holdback_chars) (sym made) ∙ rw changed refl,
        )
      ]

  -- A response that intervenes has one text for each text of the request, and in the streaming mode
  -- one number of withheld characters for each text, else none.
  pub handle_response-length :
      (req : Request) (s s' : st.World) (res : Response)
      → handle_response u st req s ≡ (s', ok res)
      → res.action ≡ action_intervene
      → (length res.texts ≡ length req.texts)
        × (if req.stream_transform
            then length res.stream_holdback_chars ≡ length req.texts
            else res.stream_holdback_chars ≡ [])
  unfolding handle_response Beside
  handle_response-length req s s' res e intervened = elim (Bool-cases (length req.texts == 0)) [
    | inl none_sent ↦
        untouched-Beside req res (let e' = rw none_sent at e in ground arith) intervened
    | inr sent ↦ elim (Bool-cases req.stream_transform) [
      | inl streaming ↦
          elim (best_effort-eq-ok
            ((reverse_stream u st req.texts req.session_id >>= λ result.
                return (stream_response result))
              s)
            s' res (let e' = rw (sent, streaming) at e in e')) [
              | inl run ↦
                  let (a, b) = streamed_length req s s' res run intervened in (a, rw streaming b)
              | inr lost ↦ untouched-Beside req res lost intervened
            ]
      | inr whole ↦
          elim (best_effort-eq-ok
            ((reverse_all u st req.session_id req.texts >>= λ r. return (reversed_response r.0 r.1))
              s)
            s' res (let e' = rw (sent, whole) at e in e')) [
              | inl run ↦ let (a, b) = whole_length req s s' res run intervened in (a, rw whole b)
              | inr lost ↦ untouched-Beside req res lost intervened
            ]
    ]
  ]
