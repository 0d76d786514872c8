-- ===== src/Text/Replacer/Rewrites.antt =====
-- Replace on a name in its context, and on a name that a longer key hides.
use palena_litellm_pseudonym.Base.{
  ℕ, zero, suc, ◌-◌, ◌≤◌, ◌≡◌, ◌⊎◌, inl, inr, refl, sym, ap, ◌∙◌, true, false, List, [], ◌∷◌, ◌++◌,
  append_assoc, append-nil, Option, none, some, arith, ◌==◌, Bool-cases, length, length-append, In,
}
use palena_litellm_pseudonym.GoLib.Strings.{Str, is_empty}
use palena_litellm_pseudonym.GoLib.Dict.{get}
use palena_litellm_pseudonym.GoLib.Unicode.{Unicode, lower}
use palena_litellm_pseudonym.Text.Replacer.{
  right_boundary_clear, left_boundary_clear, match_first, possessive, hit, head_of, last_of, pieces,
  match_case, rewrite_piece, rewrite_pieces, lowered_table, sorted_keys, replace,
}
use palena_litellm_pseudonym.GoLib.Order.{sort_by}
use palena_litellm_pseudonym.Text.Replacer.Casing.{Cased, match_case-Cased, get-lowered_table}
use palena_litellm_pseudonym.Text.Replacer.Pieces.{NoMatch, pieces-hit, rewrite_pieces-NoMatch}

module _ (u : Unicode) (mapping : List (Str × Str)) where
  replace-cons :
      (c : ℕ) (s k : Str) (ks : List Str)
      → sorted_keys mapping ≡ k ∷ ks
      → replace u (c ∷ s) mapping
        ≡ rewrite_pieces u
            (lowered_table u mapping)
            (pieces u (sorted_keys mapping) (length (c ∷ s)) none (c ∷ s))
  unfolding replace
  replace-cons c s k ks e = elim (Bool-cases (length mapping == 0)) [
    | inl no_entry ↦ absurd (no_keys mapping no_entry e)
    | inr entries ↦ rw entries (rw e refl)
  ]
    where
      no_keys : (m : List (Str × Str)) → (length m == 0) ≡ true → ¬ (sorted_keys m ≡ k ∷ ks)
      no_keys [] z e' = absurd (unfold sorted_keys sort_by in cc)
      no_keys (x ∷ m) z e' = absurd (ground arith)

  nothing_left :
      (fuel : ℕ) (prev : Option ℕ)
      → rewrite_pieces u (lowered_table u mapping) (pieces u (sorted_keys mapping) fuel prev [])
        ≡ []
  unfolding pieces rewrite_pieces
  nothing_left zero prev = refl
  nothing_left (suc fuel) prev = refl

  -- A text in which no key matches is returned as it is.
  pub replace-NoMatch :
      (text : Str) → NoMatch u (sorted_keys mapping) text [] → replace u text mapping ≡ text
  unfolding replace
  replace-NoMatch [] none_there = refl
  replace-NoMatch (c ∷ s) none_there = elim (keys_cases (sorted_keys mapping)) [
    | inl no_keys ↦ ground arith
    | inr (k, ks, e) ↦
        let step = replace-cons c s k ks e in
        let whole = append-nil (c ∷ s) in
        let pass =
          rewrite_pieces-NoMatch u (lowered_table u mapping) (sorted_keys mapping) (length (c ∷ s))
            none (c ∷ s) [] (omega arith) none_there in
        step
        ∙ ap
            (λ t.
              rewrite_pieces u (lowered_table u mapping)
                (pieces u (sorted_keys mapping) (length (c ∷ s)) none t))
            (sym whole)
        ∙ pass
        ∙ ap (λ t. (c ∷ s) ++ t)
            (nothing_left (length (c ∷ s) - length (c ∷ s)) (last_of none (c ∷ s)))
        ∙ whole
  ]
    where
      keys_cases : (l : List Str) → (l ≡ []) ⊎ ((k : Str) × (ks : List Str) × (l ≡ k ∷ ks))
      keys_cases [] = inl refl
      keys_cases (k ∷ ks) = inr (k, ks, refl)

  match_first-keys :
      (ks : List Str) (s : Str) (m : Str × Str)
      → match_first u ks s ≡ some m
      → (k : Str) × (l : List Str) × (ks ≡ k ∷ l)
  match_first-keys [] s m h = absurd (unfold match_first in cc)
  match_first-keys (k ∷ l) s m h = (k, l, refl)

  -- The match that Replace meets behind the first `length pre` characters: the key, what follows it,
  -- and no match before.
  pub record Meets (pre source ending after : Str) : Type 0 where
    pub full : is_empty source ≡ false
    pub before : NoMatch u (sorted_keys mapping) pre (source ++ (ending ++ after))
    pub key :
        match_first u (sorted_keys mapping) (source ++ (ending ++ after))
        ≡ some (source, ending ++ after)
    pub tail : possessive u (ending ++ after) ≡ (ending, after)

  -- Up to the first match nothing changes; the match is rewritten, and the loop goes on behind it.
  replace-Meets :
      (pre source ending after : Str)
      → Meets pre source ending after
      → replace u (pre ++ (source ++ (ending ++ after))) mapping
        ≡ pre
          ++ (rewrite_piece u
                (lowered_table u mapping)
                (hit (last_of none pre) source ending (head_of after))
              ++ rewrite_pieces u (lowered_table u mapping) (
                  pieces u
                    (sorted_keys mapping)
                    (length (source ++ (ending ++ after)) - 1)
                    (last_of (last_of none pre) (source ++ ending))
                    after))
  replace-Meets pre [] ending after m = absurd (cc (m.full))
  replace-Meets pre (c ∷ source) ending after m =
      let ks = sorted_keys mapping in
      let table = lowered_table u mapping in
      let rest = (c ∷ source) ++ (ending ++ after) in
      let (k, l, e) = match_first-keys ks rest (c ∷ source, ending ++ after) m.key in
      let enough : length pre ≤ length (pre ++ rest) = omega (arith, length-append pre rest) in
      let fuel : length (pre ++ rest) - length pre ≡ suc (length rest - 1) =
        omega (arith, length-append pre rest) in
      let met =
        pieces-hit u ks (length rest - 1) (last_of none pre) c (source ++ (ending ++ after))
          (c ∷ source, ending ++ after) m.key in
      whole_text pre (source ++ (ending ++ after)) k l e
      ∙ rewrite_pieces-NoMatch u table ks (length (pre ++ rest)) none pre rest enough m.before
      ∙ ap (λ n. pre ++ rewrite_pieces u table (pieces u ks n (last_of none pre) rest)) fuel
      ∙ ap (λ p. pre ++ rewrite_pieces u table p) met
      ∙ ap
          (λ (p : Str × Str).
            pre
            ++ rewrite_pieces u table (
                hit (last_of none pre) (c ∷ source) p.0 (head_of p.1)
                ∷ pieces u ks (length rest - 1) (last_of (last_of none pre) ((c ∷ source) ++ p.0))
                    p.1))
          m.tail
      ∙ unfold rewrite_pieces in refl
    where
      whole_text :
          (pre s k : Str) (l : List Str)
          → sorted_keys mapping ≡ k ∷ l
          → replace u (pre ++ c ∷ s) mapping
            ≡ rewrite_pieces u
                (lowered_table u mapping)
                (pieces u (sorted_keys mapping) (length (pre ++ c ∷ s)) none (pre ++ c ∷ s))
      whole_text [] s k l e = replace-cons c s k l e
      whole_text (d ∷ pre) s k l e = replace-cons d (pre ++ c ∷ s) k l e

  rest_NoMatch :
      (fuel : ℕ) (prev : Option ℕ) (after : Str)
      → length after ≤ fuel
      → NoMatch u (sorted_keys mapping) after []
      → rewrite_pieces u (lowered_table u mapping) (pieces u (sorted_keys mapping) fuel prev after)
        ≡ after
  rest_NoMatch fuel prev after enough none_there =
      ap
        (λ t.
          rewrite_pieces u (lowered_table u mapping) (pieces u (sorted_keys mapping) fuel prev t))
        (sym (append-nil after))
      ∙ rewrite_pieces-NoMatch u (lowered_table u mapping) (sorted_keys mapping) fuel prev after []
          enough none_there
      ∙ ap (λ t. after ++ t) (nothing_left (fuel - length after) (last_of prev after))
      ∙ append-nil after

  room :
      (s ending after : Str)
      → is_empty s ≡ false
      → length after ≤ length (s ++ (ending ++ after)) - 1
  room [] ending after e = absurd (cc)
  room (c ∷ s) ending after e =
      omega (arith, length-append s (ending ++ after), length-append ending after)

  -- A name that stands once in a text, at word boundaries, and that is mapped to one pseudonym only
  -- (whatever the casing of the key), is replaced by that pseudonym in the casing of the name, as
  -- Cased describes it; the name's possessive ending and all else stay.
  pub replace-name :
      (pre source ending after k v : Str)
      → Meets pre source ending after
      → left_boundary_clear u (last_of none pre) ≡ true
      → right_boundary_clear u (head_of after) ≡ true
      → In (k, v) mapping
      → lower u k ≡ lower u source
      → ((j w : Str) → In (j, w) mapping → lower u j ≡ lower u source → w ≡ v)
      → NoMatch u (sorted_keys mapping) after []
      → (r : Str) × Cased u source v r
        × (replace u (pre ++ (source ++ (ending ++ after))) mapping
            ≡ pre ++ (r ++ (ending ++ after)))
  replace-name pre source ending after k v m left right listed fits single last =
      let table = lowered_table u mapping in
      let known : get (lower u source) table ≡ some v =
        get-lowered_table u (lower u source) v mapping k listed fits single in
      let r = match_case u source v in
      let rewritten : rewrite_piece u table (hit (last_of none pre) source ending (head_of after))
          ≡ r ++ ending =
        unfold rewrite_piece in rw left (rw right (rw known refl)) in
      let enough : length after ≤ length (source ++ (ending ++ after)) - 1 =
        room source ending after m.full in
      (
        r,
        match_case-Cased u source v,
        replace-Meets pre source ending after m
            ∙ ap
                (λ t.
                  pre
                  ++ (t
                      ++ rewrite_pieces u table (
                          pieces u (sorted_keys mapping) (length (source ++ (ending ++ after)) - 1)
                            (last_of (last_of none pre) (source ++ ending)) after)))
                rewritten
            ∙ ap (λ t. pre ++ ((r ++ ending) ++ t))
                (rest_NoMatch (length (source ++ (ending ++ after)) - 1)
                  (last_of (last_of none pre) (source ++ ending)) after enough last)
            ∙ ap (λ t. pre ++ t) (append_assoc r ending after),
      )

  -- A match that is not followed by a word boundary is left as it stands, with its ending, also
  -- where a shorter key would match at the same place.
  pub replace-rejected :
      (pre source ending after : Str)
      → Meets pre source ending after
      → right_boundary_clear u (head_of after) ≡ false
      → NoMatch u (sorted_keys mapping) after []
      → replace u (pre ++ (source ++ (ending ++ after))) mapping
        ≡ pre ++ (source ++ (ending ++ after))
  replace-rejected pre source ending after m right last =
      let table = lowered_table u mapping in
      let kept : rewrite_piece u table (hit (last_of none pre) source ending (head_of after))
          ≡ source ++ ending =
        unfold rewrite_piece in ground arith in
      replace-Meets pre source ending after m
      ∙ ap
          (λ t.
            pre
            ++ (t
                ++ rewrite_pieces u table (
                    pieces u (sorted_keys mapping) (length (source ++ (ending ++ after)) - 1)
                      (last_of (last_of none pre) (source ++ ending)) after)))
          kept
      ∙ ap (λ t. pre ++ ((source ++ ending) ++ t))
          (rest_NoMatch (length (source ++ (ending ++ after)) - 1)
            (last_of (last_of none pre) (source ++ ending)) after (room source ending after m.full)
            last)
      ∙ ap (λ t. pre ++ t) (append_assoc source ending after)
