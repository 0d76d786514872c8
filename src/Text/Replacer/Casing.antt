-- ===== src/Text/Replacer/Casing.antt =====
-- The casing of a pseudonym (matchCase of internal/text/replacer.go), and the table of lowered keys.
use palena_litellm_pseudonym.Base.{
  ℕ, ◌≡◌, ◌⊎◌, inl, inr, refl, sym, ap, subst, ◌∙◌, Bool, true, false, ◌||◌, List, [], ◌∷◌, some,
  arith, if◌then◌else◌, Bool-cases, all, keep, In,
}
use palena_litellm_pseudonym.GoLib.Strings.{Str, text_eq, text_eq_iff}
use palena_litellm_pseudonym.GoLib.Dict.{get, put, get-put_self, get-put_ne}
use palena_litellm_pseudonym.GoLib.Unicode.{Unicode, lower, upper}
use palena_litellm_pseudonym.Text.Token.{is_token}
use palena_litellm_pseudonym.Text.Replacer.{case_like, match_case, lowered_into, lowered_table}

-- Every letter of a text passes a test; a letter of it fails one.
abbrev pub EveryLetter : Unicode → (ℕ → Bool) → Str → Type 0
EveryLetter u p s = (c : ℕ) → In c s → u.is_letter c ≡ true → p c ≡ true

abbrev pub SomeLetter : Unicode → (ℕ → Bool) → Bool → Str → Type 0
SomeLetter u p b s = (c : ℕ) × In c s × (u.is_letter c ≡ true) × (p c ≡ b)

-- `r` is the pseudonym `v` in the casing of `source`: in upper case for a name in capitals, in lower case
-- for a name without any, and as it stands for a mixed name, for one without letters, and where
-- a token is involved.
pub record Cased (u : Unicode) (source v r : Str) : Type 0 where
  pub token : (is_token source ≡ true) ⊎ (is_token v ≡ true) → r ≡ v
  pub capitals :
      is_token source ≡ false
      → is_token v ≡ false
      → SomeLetter u u.is_upper true source
      → EveryLetter u u.is_upper source
      → r ≡ upper u v
  pub small :
      is_token source ≡ false
      → is_token v ≡ false
      → SomeLetter u u.is_upper false source
      → EveryLetter u u.is_lower source
      → r ≡ lower u v
  pub mixed : SomeLetter u u.is_upper false source → SomeLetter u u.is_lower false source → r ≡ v
  pub plain : ((c : ℕ) → In c source → u.is_letter c ≡ false) → r ≡ v

module _ (u : Unicode) (p : ℕ → Bool) where
  all-letters : (s : Str) → EveryLetter u p s → all p (keep u.is_letter s) ≡ true
  all-letters [] every = refl
  all-letters (c ∷ s) every =
      let later = all-letters s (λ d m. every d (inr m)) in
      elim (Bool-cases (u.is_letter c)) [
        | inl letter ↦ rw (letter, every c (inl refl) letter) later
        | inr other ↦ rw other later
      ]

  all-failing : (s : Str) → SomeLetter u p false s → all p (keep u.is_letter s) ≡ false
  all-failing [] (c, m, letter, fails) = absurd m
  all-failing (d ∷ s) (c, inl same, letter, fails) =
      let l = subst (λ x. u.is_letter x ≡ true) same letter in
      let f = subst (λ x. p x ≡ false) same fails in rw (l, f) refl
  all-failing (d ∷ s) (c, inr later, letter, fails) =
      let rest = all-failing s (c, later, letter, fails) in
      elim (Bool-cases (u.is_letter d)) [
        | inr other ↦ rw other rest
        | inl here ↦ elim (Bool-cases (p d)) [
          | inl pass ↦ rw (here, pass) rest
          | inr fail ↦ rw (here, fail) refl
        ]
      ]

module _ (u : Unicode) where
  kept-letter :
      (s : Str) (c : ℕ)
      → In c s
      → u.is_letter c ≡ true
      → (d : ℕ) × (ds : Str) × (keep u.is_letter s ≡ d ∷ ds)
  kept-letter [] c m letter = absurd m
  kept-letter (d ∷ s) c m letter = elim (Bool-cases (u.is_letter d)) [
    | inl here ↦ rw here (d, keep u.is_letter s, refl)
    | inr other ↦ elim m [
      | inl same ↦ absurd (let l = subst (λ x. u.is_letter x ≡ true) same letter in cc)
      | inr later ↦ rw other (kept-letter s c later letter)
    ]
  ]

  none_kept : (s : Str) → ((c : ℕ) → In c s → u.is_letter c ≡ false) → keep u.is_letter s ≡ []
  none_kept [] h = refl
  none_kept (c ∷ s) h = rw (h c (inl refl)) (none_kept s (λ d m. h d (inr m)))

  -- What case_like answers for letters of which there is one.
  case_like-cons :
      (letters : Str) (d : ℕ) (ds r : Str)
      → letters ≡ d ∷ ds
      → case_like u letters r ≡ (
          if all u.is_upper letters
          then upper u r
          else if all u.is_lower letters
          then lower u r
          else r)
  unfolding case_like
  case_like-cons letters d ds r e =
      subst
        (λ l.
          case_like u l r
          ≡ (if all u.is_upper l then upper u r else if all u.is_lower l then lower u r else r))
        (sym e) refl

  case_like-some :
      (s r : Str) (c : ℕ)
      → In c s
      → u.is_letter c ≡ true
      → case_like u (keep u.is_letter s) r ≡ (
          if all u.is_upper (keep u.is_letter s)
          then upper u r
          else if all u.is_lower (keep u.is_letter s)
          then lower u r
          else r)
  case_like-some s r c m letter =
      let (d, ds, e) = kept-letter s c m letter in case_like-cons (keep u.is_letter s) d ds r e

  match_case-plain :
      (source v : Str)
      → is_token source ≡ false
      → is_token v ≡ false
      → match_case u source v ≡ case_like u (keep u.is_letter source) v
  unfolding match_case
  match_case-plain source v a b = rw (a, b) refl

  match_case-token :
      (source v : Str) → (is_token source || is_token v) ≡ true → match_case u source v ≡ v
  unfolding match_case
  match_case-token source v t = rw t refl

  pub match_case-Cased : (source v : Str) → Cased u source v (match_case u source v)
  match_case-Cased source v =
      let same = case_like-some source v in
      record {
        token = λ t.
            match_case-token source v (elim t [ inl a ↦ rw a refl | inr b ↦ rw b (ground arith) ]);
        capitals = λ a b some every.
            match_case-plain source v a b
            ∙ same some.0 some.1 some.2
            ∙ rw (all-letters u u.is_upper source every) refl;
        small = λ a b some every.
            match_case-plain source v a b
            ∙ same some.0 some.1 some.2
            ∙ rw (all-failing u u.is_upper source some, all-letters u u.is_lower source every) refl;
        mixed = λ some other. either_way source v (λ _.
            same some.0 some.1 some.2
            ∙ rw (all-failing u u.is_upper source some, all-failing u u.is_lower source other)
                refl);
        plain = λ none.
            either_way source v
              (λ _. ap (λ l. case_like u l v) (none_kept source none) ∙ unfold case_like in refl);
      }
    where
      either_way :
          (source v : Str)
          → (Unit {0} → case_like u (keep u.is_letter source) v ≡ v)
          → match_case u source v ≡ v
      either_way source v h = elim (Bool-cases (is_token source)) [
        | inl a ↦ match_case-token source v (rw a refl)
        | inr a ↦ elim (Bool-cases (is_token v)) [
          | inl b ↦ match_case-token source v (rw (a, b) refl)
          | inr b ↦ match_case-plain source v a b ∙ h tt
        ]
      ]

  -- The table has the pseudonym under the lowered key, if no other entry has a key of that casing.
  get-lowered_into :
      (key v : Str) (mapping table : List (Str × Str))
      → ((j w : Str) → In (j, w) mapping → lower u j ≡ key → w ≡ v)
      → ((k : Str) × In (k, v) mapping × (lower u k ≡ key)) ⊎ (get key table ≡ some v)
      → get key (lowered_into u table mapping) ≡ some v
  unfolding lowered_into
  get-lowered_into key v [] table single (inl (k, m, e)) = absurd m
  get-lowered_into key v [] table single (inr there) = there
  get-lowered_into key v ((j, w) ∷ mapping) table single found =
      let rest : (i x : Str) → In (i, x) mapping → lower u i ≡ key → x ≡ v =
        λ i x m e. single i x (inr m) e in
      elim (Bool-cases (text_eq (lower u j) key)) [
        | inl same ↦
            let e : lower u j ≡ key = (text_eq_iff (lower u j) key).0 same in
            let read : get key (put (lower u j) w table) ≡ some v =
              subst (λ x. get key (put x w table) ≡ some v) (sym e)
                (get-put_self key w table ∙ ap some (single j w (inl refl) e)) in
            get-lowered_into key v mapping (put (lower u j) w table) rest (inr read)
        | inr differ ↦
            let apart : ¬ (lower u j ≡ key) =
              λ e. let t = (text_eq_iff (lower u j) key).1 e in cc in
            get-lowered_into key v mapping (put (lower u j) w table) rest (elim found [
              | inr there ↦ inr (get-put_ne (lower u j) key w table apart ∙ there)
              | inl (k, m, e) ↦ elim m [
                | inl here ↦ absurd (apart (ap (λ x. lower u x.0) (sym here) ∙ e))
                | inr later ↦ inl (k, later, e)
              ]
            ])
      ]

  pub get-lowered_table :
      (key v : Str) (mapping : List (Str × Str)) (k : Str)
      → In (k, v) mapping
      → lower u k ≡ key
      → ((j w : Str) → In (j, w) mapping → lower u j ≡ key → w ≡ v)
      → get key (lowered_table u mapping) ≡ some v
  unfolding lowered_table
  get-lowered_table key v mapping k listed fits single =
      get-lowered_into key v mapping [] single (inl (k, listed, fits))
