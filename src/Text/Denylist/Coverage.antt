-- ===== src/Text/Denylist/Coverage.antt =====
-- internal/text/denylist.go: the detections of the deny list against the matches of its terms.
use palena_litellm_pseudonym.Base.{
  ℕ, ◌≤◌, ◌<◌, ◌≡◌, ◌⊎◌, inl, inr, refl, sym, subst, ◌∙◌, true, false, ◌&&◌, ◌||◌, List, [], ◌∷◌,
  ◌++◌, map, append_assoc, append-nil, arith, ltb, Bool-cases, &&-eq-true, ||-eq-true, ||-eq-false,
  ltb→lt, lt→ltb, In, All,
}
use palena_litellm_pseudonym.GoLib.Strings.{Str}
use palena_litellm_pseudonym.GoLib.Unicode.{Unicode}
use palena_litellm_pseudonym.Presidio.{Detection}
use palena_litellm_pseudonym.Text.Denylist.{
  Match, word_boundary, overlaps, is_rejected, deny_detection, keep_matches,
}

unfoldable pub span_of : Detection → ℕ × ℕ
span_of d = (d.start, d.end)

abbrev pub Apart : ℕ × ℕ → ℕ × ℕ → Type 0
Apart a b = (a.1 ≤ b.0) ⊎ (b.1 ≤ a.0)

-- Each span of a list is apart from the later ones.
abbrev pub Disjoint : List (ℕ × ℕ) → Type 0
Disjoint [] = Unit
Disjoint (a ∷ l) = All (Apart a) l × Disjoint l

pub overlaps-append :
    (kept later : List (ℕ × ℕ)) (a b : ℕ)
    → overlaps (kept ++ later) a b ≡ (overlaps kept a b || overlaps later a b)
unfolding overlaps
overlaps-append [] later a b = refl
overlaps-append (k ∷ kept) later a b =
    let rec = overlaps-append kept later a b in
    elim (Bool-cases (ltb a k.1 && ltb k.0 b)) [
      | inl e ↦ rw (overlaps, e) refl
      | inr e ↦ rw (overlaps, e, rec) refl
    ]

overlaps_self : (kept : List (ℕ × ℕ)) (a b : ℕ) → a < b → overlaps (kept ++ (a, b) ∷ []) a b ≡ true
unfolding overlaps
overlaps_self [] a b long = rw (overlaps, lt→ltb a b long) refl
overlaps_self (k ∷ kept) a b long = elim (Bool-cases (ltb a k.1 && ltb k.0 b)) [
  | inl e ↦ rw (overlaps, e) refl
  | inr e ↦ rw (overlaps, e) (overlaps_self kept a b long)
]

pub overlaps-false :
    (kept : List (ℕ × ℕ)) (a b : ℕ) → overlaps kept a b ≡ false → All (λ k. Apart k (a, b)) kept
unfolding overlaps
overlaps-false [] a b e = tt
overlaps-false ((x, y) ∷ kept) a b e =
    let (here, later) = ||-eq-false (ltb a y && ltb x b) (overlaps kept a b) e in
    (ground arith, overlaps-false kept a b later)

pub overlaps-In :
    (kept : List (ℕ × ℕ)) (a b : ℕ)
    → overlaps kept a b ≡ true
    → (k : ℕ × ℕ) × In k kept × (a < k.1) × (k.0 < b)
unfolding overlaps
overlaps-In [] a b e = absurd (cc)
overlaps-In ((x, y) ∷ kept) a b e = elim (||-eq-true (ltb a y && ltb x b) (overlaps kept a b) e) [
  | inl here ↦
      let (left, right) = &&-eq-true (ltb a y) (ltb x b) here in
      ((x, y), inl refl, ltb→lt a y left, ltb→lt x b right)
  | inr there ↦
      let (k, listed, left, right) = overlaps-In kept a b there in (k, inr listed, left, right)
]

module _ (u : Unicode) (entity : Str) where
  -- The kept spans are those of before and those of the detections.
  pub keep_matches-kept :
      (ms : List Match) (kept : List (ℕ × ℕ))
      → (keep_matches u entity ms kept).0 ≡ kept ++ map span_of (keep_matches u entity ms kept).1
  unfolding keep_matches span_of deny_detection
  keep_matches-kept [] kept = sym (append-nil kept)
  keep_matches-kept (m ∷ ms) kept = elim (Bool-cases (is_rejected u kept m)) [
    | inl no_match ↦ rw (no_match, keep_matches) (keep_matches-kept ms kept)
    | inr yes_match ↦
        let rec = keep_matches-kept ms (kept ++ (m.start, m.end) ∷ []) in
        rw (yes_match, keep_matches) (rec ∙ append_assoc kept ((m.start, m.end) ∷ []) _)
  ]

  -- Every match between clear boundaries is rejected for an overlap only.
  pub keep_matches-covers :
      (ms : List Match) (kept : List (ℕ × ℕ)) (m : Match)
      → In m ms
      → word_boundary u m.before ≡ true
      → word_boundary u m.after ≡ true
      → m.start < m.end
      → overlaps (keep_matches u entity ms kept).0 m.start m.end ≡ true
  unfolding keep_matches is_rejected
  keep_matches-covers [] kept m listed before after long = absurd listed
  keep_matches-covers (x ∷ ms) kept m (inl same) before after long =
      elim (Bool-cases (is_rejected u kept x)) [
        | inl refused ↦
            let over : overlaps kept m.start m.end ≡ true = ground arith in
            rw (refused, keep_matches)
              (rw (keep_matches-kept ms kept, overlaps-append kept _ m.start m.end, over) refl)
        | inr accepted ↦
            let kept' = kept ++ (x.start, x.end) ∷ [] in
            let over : overlaps kept' m.start m.end ≡ true =
              subst (λ y. overlaps (kept ++ (y.start, y.end) ∷ []) m.start m.end ≡ true) same
                (overlaps_self kept m.start m.end long) in
            rw (accepted, keep_matches)
              (rw (keep_matches-kept ms kept', overlaps-append kept' _ m.start m.end, over) refl)
      ]
  keep_matches-covers (x ∷ ms) kept m (inr later) before after long =
      elim (Bool-cases (is_rejected u kept x)) [
        | inl refused ↦
            rw (refused, keep_matches) (keep_matches-covers ms kept m later before after long)
        | inr accepted ↦
            rw (accepted, keep_matches)
              (keep_matches-covers ms (kept ++ (x.start, x.end) ∷ []) m later before after long)
      ]
