-- ===== src/Text/Denylist/Words.antt =====
-- What the deny list finds in a text, and what it finds of a term.
use palena_litellm_pseudonym.Base.{
  ℕ, zero, suc, ◌+◌, ◌≡◌, inl, inr, refl, sym, ap, ◌∙◌, [], ◌∷◌, ◌++◌, append_assoc, Option, none,
  some, arith, Option-cases, All,
}
use palena_litellm_pseudonym.GoLib.Strings.{Str, width, byte_len, byte_len-append}
use palena_litellm_pseudonym.GoLib.Unicode.{Unicode}
use palena_litellm_pseudonym.Text.Replacer.{match_key, head_of, last_of}
use palena_litellm_pseudonym.Text.Replacer.Pieces.{match_key-append}
use palena_litellm_pseudonym.Text.Denylist.{Match, find_all}

last_of-append : (prev : Option ℕ) (s t : Str) → last_of prev (s ++ t) ≡ last_of (last_of prev s) t
last_of-append prev [] t = refl
last_of-append prev (c ∷ s) t = last_of-append (some c) s t

module _ (u : Unicode) (whole : Str) where
  -- A match of a term in the whole text, at the bytes and between the neighbours that it names.
  pub record IsMatch (term : Str) (m : Match) : Type 0 where
    pub pre : Str
    pub post : Str
    pub split : whole ≡ pre ++ (m.text ++ post)
    pub at_start : m.start ≡ byte_len pre
    pub at_end : m.end ≡ byte_len pre + byte_len m.text
    pub left : m.before ≡ last_of none pre
    pub right : m.after ≡ head_of post
    pub same : match_key u term (m.text ++ post) ≡ some (m.text, post)

  pub find_all-IsMatch :
      (term : Str) (fuel : ℕ) (pre s : Str)
      → whole ≡ pre ++ s
      → All (IsMatch term) (find_all u term fuel (byte_len pre) (last_of none pre) s)
  unfolding find_all
  find_all-IsMatch term zero pre s split = tt
  find_all-IsMatch term (suc fuel) pre [] split = tt
  find_all-IsMatch term (suc fuel) pre (c ∷ s) split =
      elim (Option-cases (match_key u term (c ∷ s))) [
        | inl nothing ↦
            let next =
              find_all-IsMatch term fuel (pre ++ c ∷ []) s
                (split ∙ sym (append_assoc pre (c ∷ []) s)) in
            let at : byte_len (pre ++ c ∷ []) ≡ byte_len pre + width c =
              (unfold byte_len in omega (arith, byte_len-append pre (c ∷ []))) in
            rw (nothing, find_all) (rw (← at) (rw (← last_of-append none pre (c ∷ [])) next))
        | inr ((found, rest), e) ↦
            let whole_match = (match_key-append u term (c ∷ s) (found, rest) e).0 in
            let split' : whole ≡ pre ++ (found ++ rest) = split ∙ ap (◌++◌ pre) (sym whole_match) in
            let next =
              find_all-IsMatch term fuel (pre ++ found) rest
                (split' ∙ sym (append_assoc pre found rest)) in
            rw (e, find_all)
              (
                record {
                  pre = pre;
                  post = rest;
                  split = split';
                  at_start = refl;
                  at_end = refl;
                  left = refl;
                  right = refl;
                  same = ap (match_key u term) whole_match ∙ e;
                },
                rw (← byte_len-append pre found) (rw (← last_of-append none pre found) next),
              )
      ]
