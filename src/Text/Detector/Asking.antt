-- ===== src/Text/Detector/Asking.antt =====
-- internal/text/detector.go: what spansFor asks the model, and what NERLabelsFor leaves for Presidio.
use palena_litellm_pseudonym.Base.{
  ℕ, zero, suc, ◌≡◌, ◌↔◌, inl, inr, refl, sym, ap, subst, ◌∙◌, Bool, true, not, List, [], ◌∷◌, ◌++◌,
  map, append_assoc, append-nil, none, some, arith, ◌==◌, Bool-cases, Option-cases, ==_iff, ==_refl,
  length, get_elem?, keep, length-map, In, Distinct, ◌⊎◌,
}
use palena_litellm_pseudonym.GoLib.Strings.{Str, text_eq, text_eq_iff, elem, elem_iff}
use palena_litellm_pseudonym.Errs.{ok}
use palena_litellm_pseudonym.Ner.{Span}
use palena_litellm_pseudonym.Text.NerCache.{ner_cache_key}
use palena_litellm_pseudonym.Text.Detector.{
  Pending, answered, asked, ask_of, ask_for, scope_of, cached_answer, remember, first_pass,
  result_at, second_pass, answered_step, spans_for, NerClient, labels_of_enabled, ner_labels_for,
}
use mathlib.Core.Option

ask_of_found : (t : Str) (ask : List Str) (j : ℕ) → ask_of t ask ≡ some j → get_elem? ask j ≡ some t
unfolding ask_of
ask_of_found t [] j e = absurd (cc)
ask_of_found t (q ∷ ask) j e = elim (Bool-cases (text_eq t q)) [
  | inl same ↦
      let h = rw same at e in
      let here : 0 ≡ j = Option.some-injective 0 j h in
      rw (← here) (ap some (sym ((text_eq_iff t q).0 same)))
  | inr differ ↦
      let h = rw differ at e in
      elim (Option-cases (ask_of t ask)) [
        | inl missing ↦ absurd (let k = rw missing at h in cc)
        | inr (i, found) ↦
            let k = rw found at h in
            let there : suc i ≡ j = Option.some-injective (suc i) j k in
            rw (← there) (ask_of_found t ask i found)
      ]
]

get_elem-append :
    (ask more : List Str) (j : ℕ) (t : Str)
    → get_elem? ask j ≡ some t
    → get_elem? (ask ++ more) j ≡ some t
get_elem-append [] more j t e = absurd (cc)
get_elem-append (q ∷ ask) more zero t e = e
get_elem-append (q ∷ ask) more (suc j) t e = get_elem-append ask more j t e

get_elem-snoc : (ask : List Str) (t : Str) → get_elem? (ask ++ t ∷ []) (length ask) ≡ some t
get_elem-snoc [] t = refl
get_elem-snoc (q ∷ ask) t = get_elem-snoc ask t

-- A question for each text, of the index that is noted for it.
Noted : List Str → List Str → List Pending → Type 0
Noted ask [] [] = Unit
Noted ask [] (p ∷ pending) = ⊥
Noted ask (t ∷ texts) [] = ⊥
Noted ask (t ∷ texts) (answered spans ∷ pending) = ⊥
Noted ask (t ∷ texts) (asked j ∷ pending) = (get_elem? ask j ≡ some t) × Noted ask texts pending

ask_for_lem :
    (t : Str) (ask : List Str)
    → (more : List Str) × ((ask_for t ask).1 ≡ ask ++ more)
      × (get_elem? (ask_for t ask).1 (ask_for t ask).0 ≡ some t)
unfolding ask_for
ask_for_lem t ask = elim (Option-cases (ask_of t ask)) [
  | inl missing ↦ rw (missing, ask_for) (t ∷ [], refl, get_elem-snoc ask t)
  | inr (j, found) ↦ rw (found, ask_for) ([], sym (append-nil ask), ask_of_found t ask j found)
]

module _ (key : Str → Str) (now : ℕ) where
  -- Without a cache the first loop answers nothing, and only adds questions.
  first_pass_lem :
      (texts ask : List Str)
      → (more : List Str) × ((first_pass key now texts ask none).1.0 ≡ ask ++ more)
        × ((first_pass key now texts ask none).1.1 ≡ none)
        × Noted (first_pass key now texts ask none).1.0 texts (first_pass key now texts ask none).0
  unfolding first_pass cached_answer Noted
  first_pass_lem [] ask = ([], sym (append-nil ask), refl, tt)
  first_pass_lem (t ∷ texts) ask =
      let (here, added, noted) = ask_for_lem t ask in
      let ask' = (ask_for t ask).1 in
      let (later, more, same, rest) = first_pass_lem texts ask' in
      let whole : (first_pass key now texts ask' none).1.0 ≡ ask ++ (here ++ later) =
        more ∙ ap (λ l. l ++ later) added ∙ append_assoc ask here later in
      let kept : get_elem? (first_pass key now texts ask' none).1.0 (ask_for t ask).0 ≡ some t =
        subst (λ l. get_elem? l (ask_for t ask).0 ≡ some t) (sym more)
          (get_elem-append ask' later (ask_for t ask).0 t noted) in
      (here ++ later, whole, same, (kept, rest))

  result_at-map :
      (f : Str → List Span) (ask : List Str) (j : ℕ) (t : Str)
      → get_elem? ask j ≡ some t
      → result_at (map f ask) j ≡ f t
  unfolding result_at
  result_at-map f [] j t e = absurd (cc)
  result_at-map f (q ∷ ask) zero t e = ap f (Option.some-injective q t e)
  result_at-map f (q ∷ ask) (suc j) t e = result_at-map f ask j t e

  second_pass_lem :
      (labels : List Str) (f : Str → List Span) (ask texts : List Str) (pending : List Pending)
      → Noted ask texts pending
      → second_pass key now labels (map f ask) texts pending none ≡ (map f texts, none)
  unfolding second_pass remember Noted
  second_pass_lem labels f ask [] [] n = refl
  second_pass_lem labels f ask [] (p ∷ pending) n = absurd n
  second_pass_lem labels f ask (t ∷ texts) [] n = absurd n
  second_pass_lem labels f ask (t ∷ texts) (answered spans ∷ pending) n = absurd n
  second_pass_lem labels f ask (t ∷ texts) (asked j ∷ pending) (here, later) =
      let rest = second_pass_lem labels f ask texts pending later in
      rw (rest, second_pass) (ap (λ x. (x ∷ map f texts, none)) (result_at-map f ask j t here))

ask_of_missing : (t : Str) (ask : List Str) → ask_of t ask ≡ none → ¬ In t ask
unfolding ask_of
ask_of_missing t [] e m = absurd m
ask_of_missing t (q ∷ ask) e m = elim (Bool-cases (text_eq t q)) [
  | inl same ↦ absurd (let h = rw same at e in cc)
  | inr differ ↦ elim (Option-cases (ask_of t ask)) [
    | inr (i, found) ↦ absurd (let h = rw (differ, found) at e in cc)
    | inl missing ↦ elim m [
      | inl same ↦ absurd (let h = (text_eq_iff t q).1 same in cc)
      | inr later ↦ ask_of_missing t ask missing later
    ]
  ]
]

Distinct-snoc : (ask : List Str) (t : Str) → Distinct ask → ¬ In t ask → Distinct (ask ++ t ∷ [])
Distinct-snoc [] t d new = (λ h. h, tt)
Distinct-snoc (q ∷ ask) t d new = (
  λ h. elim (In-snoc ask q t h) [ inl there ↦ d.0 there | inr same ↦ new (inl (sym same)) ],
  Distinct-snoc ask t d.1 (λ m. new (inr m)),
)
  where
    In-snoc : (xs : List Str) (q t : Str) → In q (xs ++ t ∷ []) → In q xs ⊎ (q ≡ t)
    In-snoc [] q t (inl e) = inr e
    In-snoc [] q t (inr m) = absurd m
    In-snoc (x ∷ xs) q t (inl e) = inl (inl e)
    In-snoc (x ∷ xs) q t (inr m) = elim (In-snoc xs q t m) [
      | inl there ↦ inl (inr there)
      | inr same ↦ inr same
    ]

ask_for-Distinct : (t : Str) (ask : List Str) → Distinct ask → Distinct (ask_for t ask).1
unfolding ask_for
ask_for-Distinct t ask d = elim (Option-cases (ask_of t ask)) [
  | inl missing ↦ rw (missing, ask_for) (Distinct-snoc ask t d (ask_of_missing t ask missing))
  | inr (j, found) ↦ rw (found, ask_for) d
]

-- Without a cache no text is asked twice.
first_pass-Distinct :
    (key : Str → Str) (now : ℕ) (texts ask : List Str)
    → Distinct ask
    → Distinct (first_pass key now texts ask none).1.0
unfolding first_pass cached_answer
first_pass-Distinct key now [] ask d = d
first_pass-Distinct key now (t ∷ texts) ask d =
    first_pass-Distinct key now texts (ask_for t ask).1 (ask_for-Distinct t ask d)

no_question :
    (ask texts : List Str) (pending : List Pending)
    → Noted ask texts pending
    → length ask ≡ 0
    → texts ≡ []
unfolding Noted
no_question ask [] [] n e = refl
no_question ask [] (p ∷ pending) n e = absurd n
no_question ask (t ∷ texts) [] n e = absurd n
no_question ask (t ∷ texts) (answered spans ∷ pending) n e = absurd n
no_question [] (t ∷ texts) (asked j ∷ pending) (here, later) e = absurd (cc)
no_question (q ∷ ask) (t ∷ texts) (asked j ∷ pending) (here, later) e = absurd (omega (arith, e))

module _ {W : Type 0} (sha : Str → Str) (format : ℕ → Str) (clock : W → ℕ)
    (client : NerClient W) where
  -- Without a cache, if the model answers every list of distinct texts (about other lists nothing is
  -- assumed), and its answer to a text depends on the text alone, spansFor returns for each text what
  -- the model answers to it.
  pub spans_for_lem :
      (f : Str → List Span) (threshold : ℕ) (texts labels : List Str) (w : W)
      → ((ask : List Str)
          → Distinct ask
          → (w' : W) × (client ask labels threshold w ≡ (w', ok (map f ask))))
      → (w' : W) × (spans_for sha format clock client threshold texts labels
            (record { cache = none; world = w })
          ≡ (record { cache = none; world = w' }, ok (map f texts)))
  unfolding spans_for answered_step
  spans_for_lem f threshold texts labels w answers =
      let key = ner_cache_key sha (scope_of format labels threshold) in
      let (more, whole, same, noted) = first_pass_lem key (clock w) texts [] in
      let ask = (first_pass key (clock w) texts [] none).1.0 in
      let pending = (first_pass key (clock w) texts [] none).0 in
      elim (Bool-cases (length ask == 0)) [
        | inl nothing ↦
            let void = no_question ask texts pending noted ((==_iff (length ask) 0).0 nothing) in
            (w, rw void refl)
        | inr questions ↦
            let (w', e) = answers ask (first_pass-Distinct key (clock w) texts [] tt) in
            let long : (length (map f ask) == length ask) ≡ true =
              rw (length-map f ask) (==_refl (length ask)) in
            let out = second_pass_lem key (clock w') labels f ask texts pending noted in
            let first = first_pass key (clock w) texts [] none in
            let call = client ask labels threshold w in
            (
              w',
              rw questions (
                  ap
                    (λ c. answered_step sha format clock client key labels texts ask pending c call)
                    same
                  ∙ ap (answered_step sha format clock client key labels texts ask pending none) e
                  ∙ rw (answered_step, out, long) refl),
            )
      ]

-- The types of the labels that are asked.
abbrev pub asked_types : List (Str × Str) → List Str → List Str
asked_types labels entities = map (λ x. x.1) (ner_labels_for labels entities).0

In-keep : (p : Str → Bool) (t : Str) (ts : List Str) → In t (keep p ts) ↔ (In t ts × (p t ≡ true))
In-keep p t [] = (λ m. absurd m, λ m. absurd m.0)
In-keep p t (x ∷ ts) = elim (Bool-cases (p x)) [
  | inl kept ↦ rw kept (
    λ m. elim m [
      | inl same ↦ (inl same, ap p same ∙ kept)
      | inr later ↦ (inr ((In-keep p t ts).0 later).0, ((In-keep p t ts).0 later).1)
    ],
    λ m. elim m.0 [ inl same ↦ inl same | inr later ↦ inr ((In-keep p t ts).1 (later, m.1)) ],
  )
  | inr gone ↦ rw gone (
    λ m. (inr ((In-keep p t ts).0 m).0, ((In-keep p t ts).0 m).1),
    λ m. elim m.0 [
      | inl same ↦ absurd (let h = sym gone ∙ ap p (sym same) ∙ m.1 in cc)
      | inr later ↦ (In-keep p t ts).1 (later, m.1)
    ],
  )
]

-- An entity type is left for Presidio exactly if it is enabled and no asked label stands for it:
-- every enabled type is looked for by one of the two, and by one only.
ner_labels_for_lem :
    (labels : List (Str × Str)) (entities : List Str) (e : Str)
    → In e (ner_labels_for labels entities).1
      ↔ (In e entities × (¬ In e (asked_types labels entities)))
unfolding ner_labels_for
ner_labels_for_lem labels entities e =
    let chosen = map (λ x. x.1) (labels_of_enabled labels entities) in
    let kept = In-keep (λ x. not (elem x chosen)) e entities in
    let listed = elem_iff e chosen in
    (
      λ m. (
        (kept.0 m).0,
        λ there. let h = (kept.0 m).1 in let k = listed.1 there in let x = rw k at h in cc,
      ),
      λ m. kept.1 (
        m.0,
        elim (Bool-cases (elem e chosen)) [
          | inl there ↦ absurd (m.1 (listed.0 there))
          | inr clear ↦ rw clear refl
        ],
      ),
    )
