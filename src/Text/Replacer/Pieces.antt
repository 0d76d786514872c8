-- ===== src/Text/Replacer/Pieces.antt =====
-- The matches of the replacer and what lies between them.
use palena_litellm_pseudonym.Base.{
  ℕ, zero, suc, ◌-◌, ◌≤◌, ◌<◌, ◌≡◌, inl, inr, refl, sym, ap, subst, ◌∙◌, List, [], ◌∷◌, ◌++◌, map,
  append_assoc, Option, none, some, arith, ◌==◌, Bool-cases, Option-cases, length, length-append,
  In, All,
}
use palena_litellm_pseudonym.GoLib.Strings.{Str}
use palena_litellm_pseudonym.GoLib.Unicode.{Unicode}
use palena_litellm_pseudonym.Text.Replacer.{
  match_key, match_first, endings, possessive, Piece, gap, hit, head_of, last_of, pieces,
  rewrite_piece, rewrite_pieces,
}

module _ (u : Unicode) where
  -- A literal consumes what it matches.
  pub match_key-append :
      (k s : Str) (m : Str × Str)
      → match_key u k s ≡ some m
      → (m.0 ++ m.1 ≡ s) × (length m.0 ≡ length k)
  unfolding match_key
  match_key-append [] s m h = ground arith
  match_key-append (c ∷ k) [] m h = absurd (cc)
  match_key-append (c ∷ k) (d ∷ s) m h = elim (Option-cases (match_key u k s)) [
    | inl miss ↦ absurd (ground arith)
    | inr (n, found) ↦
        let (same, long) = match_key-append k s n found in
        elim (Bool-cases (u.fold c == u.fold d)) [
          | inr differ ↦ absurd (ground arith)
          | inl alike ↦
              let e : (d ∷ n.0, n.1) ≡ m = ground arith in
              subst (λ x. (x.0 ++ x.1 ≡ d ∷ s) × (length x.0 ≡ suc (length k))) e
                (ap (◌∷◌ d) same, ap suc long)
        ]
  ]

  match_first-append :
      (ks : List Str) (s : Str) (m : Str × Str)
      → match_first u ks s ≡ some m
      → (m.0 ++ m.1 ≡ s) × In (length m.0) (map length ks)
  unfolding match_first
  match_first-append [] s m h = absurd (cc)
  match_first-append (k ∷ ks) s m h = elim (Option-cases (match_key u k s)) [
    | inr (n, found) ↦
        let e : n ≡ m = ground arith in
        let (same, long) = match_key-append k s n found in
        subst (λ x. (x.0 ++ x.1 ≡ s) × In (length x.0) (map length (k ∷ ks))) e (same, inl long)
    | inl miss ↦ let (same, long) = match_first-append ks s m (ground arith) in (same, inr long)
  ]

  pub possessive-append : (s : Str) → (possessive u s).0 ++ (possessive u s).1 ≡ s
  possessive-append s = elim (Option-cases (match_first u endings s)) [
    | inl miss ↦
        let e : possessive u s ≡ ([], s) = unfold possessive in rw (miss, possessive) refl in
        subst (λ x. x.0 ++ x.1 ≡ s) (sym e) refl
    | inr (m, found) ↦
        let e : possessive u s ≡ m = unfold possessive in rw (found, possessive) refl in
        subst (λ x. x.0 ++ x.1 ≡ s) (sym e) (match_first-append endings s m found).0
  ]

  module _ (ks : List Str) (fuel : ℕ) (prev : Option ℕ) (c : ℕ) (s : Str) where
    pub pieces-gap :
        match_first u ks (c ∷ s) ≡ none
        → pieces u ks (suc fuel) prev (c ∷ s) ≡ gap c ∷ pieces u ks fuel (some c) s
    unfolding pieces
    pieces-gap miss = rw (miss, pieces) refl

    pub pieces-hit :
        (m : Str × Str)
        → match_first u ks (c ∷ s) ≡ some m
        → pieces u ks (suc fuel) prev (c ∷ s)
          ≡ hit prev m.0 (possessive u m.1).0 (head_of (possessive u m.1).1)
            ∷ pieces u ks fuel (last_of prev (m.0 ++ (possessive u m.1).0)) (possessive u m.1).1
    unfolding pieces
    pieces-hit m found = rw (found, pieces) refl

  -- The text that a piece covers.
  abbrev pub covered : Piece → Str
  covered (gap c) = c ∷ []
  covered (hit before source ending after) = source ++ ending

  abbrev pub covered_all : List Piece → Str
  covered_all [] = []
  covered_all (p ∷ ps) = covered p ++ covered_all ps

  -- No key is empty.
  abbrev pub AreKeys : List Str → Type 0
  AreKeys = All (λ k. 0 < length k)

  In-length_pos : (ks : List Str) (n : ℕ) → AreKeys ks → In n (map length ks) → 0 < n
  In-length_pos [] n h m = absurd m
  In-length_pos (k ∷ ks) n h (inl e) = omega (arith, h.0)
  In-length_pos (k ∷ ks) n h (inr m) = In-length_pos ks n h.1 m

  -- With fuel for each character the pieces are the text, in order, with nothing left out.
  pub covered_all-pieces :
      (ks : List Str) (fuel : ℕ) (prev : Option ℕ) (s : Str)
      → AreKeys ks
      → length s ≤ fuel
      → covered_all (pieces u ks fuel prev s) ≡ s
  unfolding pieces
  covered_all-pieces ks zero prev [] full enough = refl
  covered_all-pieces ks zero prev (c ∷ s) full enough = absurd (omega arith)
  covered_all-pieces ks (suc fuel) prev [] full enough = refl
  covered_all-pieces ks (suc fuel) prev (c ∷ s) full enough =
      elim (Option-cases (match_first u ks (c ∷ s))) [
        | inl miss ↦
            rw (pieces-gap ks fuel prev c s miss)
              (ap (◌∷◌ c) (covered_all-pieces ks fuel (some c) s full (omega arith)))
        | inr (m, found) ↦
            let (same, long) = match_first-append ks (c ∷ s) m found in
            let positive : 0 < length m.0 = In-length_pos ks (length m.0) full long in
            let ending = possessive u m.1 in
            let tail = possessive-append m.1 in
            let shorter : length ending.1 ≤ fuel = omega (
              arith,
              length-append m.0 m.1,
              length-append ending.0 ending.1,
              ap length same,
              ap length tail,
            ) in
            let ih =
              covered_all-pieces ks fuel (last_of prev (m.0 ++ ending.0)) ending.1 full shorter in
            rw (pieces-hit ks fuel prev c s m found) (
              ap (λ t. (m.0 ++ ending.0) ++ t) ih
              ∙ append_assoc m.0 ending.0 ending.1
              ∙ ap (λ t. m.0 ++ t) tail
              ∙ same)
      ]

  -- No key matches where one of the first characters stands.
  abbrev pub NoMatch : List Str → Str → Str → Type 0
  NoMatch ks [] rest = Unit
  NoMatch ks (c ∷ pre) rest = (match_first u ks (c ∷ pre ++ rest) ≡ none) × NoMatch ks pre rest

  -- Where no key matches, the text is passed over.
  pub rewrite_pieces-NoMatch :
      (lowered : List (Str × Str)) (ks : List Str) (fuel : ℕ) (prev : Option ℕ) (pre rest : Str)
      → length pre ≤ fuel
      → NoMatch ks pre rest
      → rewrite_pieces u lowered (pieces u ks fuel prev (pre ++ rest))
        ≡ pre ++ rewrite_pieces u lowered (pieces u ks (fuel - length pre) (last_of prev pre) rest)
  unfolding rewrite_pieces rewrite_piece pieces
  rewrite_pieces-NoMatch lowered ks fuel prev [] rest enough none_there =
      ap (λ n. rewrite_pieces u lowered (pieces u ks n prev rest)) (omega arith)
  rewrite_pieces-NoMatch lowered ks zero prev (c ∷ pre) rest enough none_there =
      absurd (omega arith)
  rewrite_pieces-NoMatch lowered ks (suc fuel) prev (c ∷ pre) rest enough none_there =
      rw (pieces-gap ks fuel prev c (pre ++ rest) none_there.0) (
        ap (◌∷◌ c) (
          rewrite_pieces-NoMatch lowered ks fuel (some c) pre rest (omega arith) none_there.1
          ∙ ap (λ n. pre ++ rewrite_pieces u lowered (pieces u ks n (last_of (some c) pre) rest))
              (omega arith)))
