-- ===== src/Text/Denylist/Laws.antt =====
-- internal/text/denylist.go: what Find answers for a whole text.
use palena_litellm_pseudonym.Base.{
  ℕ, ◌<◌, ◌≡◌, inl, inr, refl, sym, ap, subst, ◌∙◌, true, false, List, [], ◌∷◌, ◌++◌, map,
  append_assoc, append-nil, some, arith, Bool-cases, length, In, All, In-append_left,
  In-append_right, All-In,
}
use palena_litellm_pseudonym.GoLib.Strings.{Str, byte_len}
use palena_litellm_pseudonym.GoLib.Unicode.{Unicode}
use palena_litellm_pseudonym.Presidio.{Detection}
use palena_litellm_pseudonym.Text.Denylist.{
  DenyMatcher, Match, matches_of, word_boundary, overlaps, is_rejected, deny_detection,
  keep_matches, find_terms, find_entities, find,
}
use palena_litellm_pseudonym.Text.Denylist.Words.{IsMatch, find_all-IsMatch}
use palena_litellm_pseudonym.Text.Denylist.Coverage.{
  span_of, Apart, Disjoint, overlaps-append, overlaps-false, overlaps-In, keep_matches-kept,
  keep_matches-covers,
}

map-append : (xs ys : List Detection) → map span_of (xs ++ ys) ≡ map span_of xs ++ map span_of ys
map-append [] ys = refl
map-append (x ∷ xs) ys = ap (◌∷◌ (span_of x)) (map-append xs ys)

All-append :
    (P : Detection → Type 0) (xs ys : List Detection) → All P xs → All P ys → All P (xs ++ ys)
All-append P [] ys left right = right
All-append P (x ∷ xs) ys (here, left) right = (here, All-append P xs ys left right)

In-span :
    (k : ℕ × ℕ) (ds : List Detection)
    → In k (map span_of ds)
    → (d : Detection) × In d ds × (span_of d ≡ k)
In-span k [] listed = absurd listed
In-span k (d ∷ ds) (inl same) = (d, inl refl, sym same)
In-span k (d ∷ ds) (inr later) = let (e, listed, same) = In-span k ds later in (e, inr listed, same)

Disjoint-snoc :
    (kept : List (ℕ × ℕ)) (k : ℕ × ℕ)
    → Disjoint kept
    → All (λ x. Apart x k) kept
    → Disjoint (kept ++ k ∷ [])
Disjoint-snoc [] k apart each = (tt, tt)
Disjoint-snoc (x ∷ kept) k (here, apart) (first, each) =
    (All-snoc kept here, Disjoint-snoc kept k apart each)
  where
    All-snoc : (l : List (ℕ × ℕ)) → All (Apart x) l → All (Apart x) (l ++ k ∷ [])
    All-snoc [] none_left = (first, tt)
    All-snoc (y ∷ l) (near, far) = (near, All-snoc l far)

-- A detection that the deny list stands for: a match of a listed term of its entity type, with no
-- letter, digit or underscore next to it.
pub record IsListed (u : Unicode) (whole : Str) (lists : List (Str × List Str)) (d : Detection)
    : Type 0 where
  pub terms : List Str
  pub term : Str
  pub found : Match
  pub listed : In (d.entity_type, terms) lists
  pub chosen : In term terms
  pub matched : IsMatch u whole term found
  pub clear_before : word_boundary u found.before ≡ true
  pub clear_after : word_boundary u found.after ≡ true
  pub same : d ≡ deny_detection d.entity_type found

module _ (u : Unicode) (entity : Str) where
  keep_matches-All :
      (P : Detection → Type 0) (ms : List Match) (kept : List (ℕ × ℕ))
      → ((m : Match)
          → In m ms
          → word_boundary u m.before ≡ true
          → word_boundary u m.after ≡ true
          → P (deny_detection entity m))
      → All P (keep_matches u entity ms kept).1
  unfolding keep_matches is_rejected
  keep_matches-All P [] kept each = tt
  keep_matches-All P (m ∷ ms) kept each = elim (Bool-cases (is_rejected u kept m)) [
    | inl refused ↦
        rw (refused, keep_matches) (keep_matches-All P ms kept (λ x listed. each x (inr listed)))
    | inr accepted ↦
        let rest =
          keep_matches-All P ms (kept ++ (m.start, m.end) ∷ []) (λ x listed. each x (inr listed)) in
        rw (accepted, keep_matches) (each m (inl refl) (ground arith) (ground arith), rest)
  ]

  keep_matches-Disjoint :
      (ms : List Match) (kept : List (ℕ × ℕ))
      → Disjoint kept
      → Disjoint (keep_matches u entity ms kept).0
  unfolding keep_matches is_rejected
  keep_matches-Disjoint [] kept apart = apart
  keep_matches-Disjoint (m ∷ ms) kept apart = elim (Bool-cases (is_rejected u kept m)) [
    | inl refused ↦ rw (refused, keep_matches) (keep_matches-Disjoint ms kept apart)
    | inr accepted ↦
        let clear : overlaps kept m.start m.end ≡ false = ground arith in
        rw (accepted, keep_matches)
          (keep_matches-Disjoint ms (kept ++ (m.start, m.end) ∷ [])
            (Disjoint-snoc kept (m.start, m.end) apart (overlaps-false kept m.start m.end clear)))
  ]

  module _ (s : Str) where
    find_terms-kept :
        (t : Str) (ts : List Str) (kept : List (ℕ × ℕ))
        → kept ++ map span_of (find_terms u entity s (t ∷ ts) kept)
          ≡ (keep_matches u entity (matches_of u s t) kept).0
            ++ map span_of
                (find_terms u entity s ts (keep_matches u entity (matches_of u s t) kept).0)
    unfolding find_terms
    find_terms-kept t ts kept =
        let here = keep_matches u entity (matches_of u s t) kept in
        let rest = find_terms u entity s ts here.0 in
        ap (◌++◌ kept) (map-append here.1 rest)
        ∙ sym (append_assoc kept (map span_of here.1) (map span_of rest))
        ∙ ap (λ l. l ++ map span_of rest) (sym (keep_matches-kept u entity (matches_of u s t) kept))

    find_terms-covers :
        (ts : List Str) (kept : List (ℕ × ℕ)) (t : Str) (m : Match)
        → In t ts
        → In m (matches_of u s t)
        → word_boundary u m.before ≡ true
        → word_boundary u m.after ≡ true
        → m.start < m.end
        → overlaps (kept ++ map span_of (find_terms u entity s ts kept)) m.start m.end ≡ true
    find_terms-covers [] kept t m chosen found before after long = absurd chosen
    find_terms-covers (x ∷ ts) kept t m (inl same) found before after long =
        let here = keep_matches u entity (matches_of u s x) kept in
        let over =
          keep_matches-covers u entity (matches_of u s x) kept m
            (subst (λ y. In m (matches_of u s y)) same found) before after long in
        rw (find_terms-kept x ts kept, overlaps-append here.0 _ m.start m.end, over) refl
    find_terms-covers (x ∷ ts) kept t m (inr later) found before after long =
        rw (find_terms-kept x ts kept) (find_terms-covers ts _ t m later found before after long)

    find_terms-kept_Disjoint :
        (ts : List Str) (kept : List (ℕ × ℕ))
        → Disjoint kept
        → Disjoint (kept ++ map span_of (find_terms u entity s ts kept))
    unfolding find_terms
    find_terms-kept_Disjoint [] kept apart = rw (append-nil kept) apart
    find_terms-kept_Disjoint (t ∷ ts) kept apart =
        rw (find_terms-kept t ts kept)
          (find_terms-kept_Disjoint ts _ (keep_matches-Disjoint (matches_of u s t) kept apart))

    -- The deny-list detections of one entity type in a text never overlap each other.
    find_terms-Disjoint : (ts : List Str) → Disjoint (map span_of (find_terms u entity s ts []))
    find_terms-Disjoint ts = find_terms-kept_Disjoint ts [] tt

    find_terms-IsListed :
        (lists : List (Str × List Str)) (terms ts : List Str) (kept : List (ℕ × ℕ))
        → In (entity, terms) lists
        → ((t : Str) → In t ts → In t terms)
        → All (IsListed u s lists) (find_terms u entity s ts kept)
    unfolding find_terms matches_of deny_detection byte_len
    find_terms-IsListed lists terms [] kept listed within = tt
    find_terms-IsListed lists terms (t ∷ ts) kept listed within =
        let ms = matches_of u s t in
        let all_match = find_all-IsMatch u s t (length s) [] s refl in
        let here = keep_matches-All (IsListed u s lists) ms kept (λ m found before after. record {
          terms = terms;
          term = t;
          found = m;
          listed = listed;
          chosen = within t (inl refl);
          matched = All-In (IsMatch u s t) ms all_match found;
          clear_before = before;
          clear_after = after;
          same = refl;
        }) in
        All-append (IsListed u s lists) _ _ here
          (find_terms-IsListed lists terms ts _ listed (λ x chosen. within x (inr chosen)))

module _ (u : Unicode) (s : Str) where
  find_entities-IsListed :
      (lists later : List (Str × List Str))
      → ((x : Str × List Str) → In x later → In x lists)
      → All (IsListed u s lists) (find_entities u s later)
  unfolding find_entities
  find_entities-IsListed lists [] within = tt
  find_entities-IsListed lists ((entity, ts) ∷ later) within =
      All-append (IsListed u s lists) _ _
        (find_terms-IsListed u entity s lists ts ts [] (within (entity, ts) (inl refl))
          (λ t chosen. chosen))
        (find_entities-IsListed lists later (λ x listed. within x (inr listed)))

  -- Whatever the deny list detects is an occurrence, up to case, of one of the terms listed for the
  -- detection's entity type, at the bytes and with the text that the detection names, and neither a
  -- letter nor a digit nor an underscore stands next to it.
  pub find-IsListed : (m : DenyMatcher) → All (IsListed u s m.by_entity) (find u (some m) s)
  unfolding find
  find-IsListed m = find_entities-IsListed m.by_entity m.by_entity (λ x listed. listed)

  find_entities-covers :
      (lists : List (Str × List Str)) (entity : Str) (ts : List Str) (k : ℕ × ℕ)
      → In (entity, ts) lists
      → In k (map span_of (find_terms u entity s ts []))
      → (d : Detection) × In d (find_entities u s lists) × (span_of d ≡ k)
  unfolding find_entities
  find_entities-covers [] entity ts k listed there = absurd listed
  find_entities-covers ((e, xs) ∷ lists) entity ts k (inl same) there =
      let (d, found, at) =
        In-span k (find_terms u e s xs [])
          (subst (λ x. In k (map span_of (find_terms u x.0 s x.1 []))) same there) in
      (d, In-append_left d (find_terms u e s xs []) (find_entities u s lists) found, at)
  find_entities-covers ((e, xs) ∷ lists) entity ts k (inr later) there =
      let (d, found, at) = find_entities-covers lists entity ts k later there in
      (d, In-append_right d (find_terms u e s xs []) (find_entities u s lists) found, at)

  -- Every match that the pattern of a listed term finds, that is not empty and has no letter, digit or
  -- underscore next to it, overlaps a detection (itself, where it is the one detected).
  pub find-covers :
      (dm : DenyMatcher) (entity : Str) (ts : List Str) (t : Str) (m : Match)
      → In (entity, ts) dm.by_entity
      → In t ts
      → In m (matches_of u s t)
      → word_boundary u m.before ≡ true
      → word_boundary u m.after ≡ true
      → m.start < m.end
      → (d : Detection) × In d (find u (some dm) s) × (m.start < d.end) × (d.start < m.end)
  unfolding find span_of
  find-covers dm entity ts t m listed chosen found before after long =
      let over = find_terms-covers u entity s ts [] t m chosen found before after long in
      let (k, there, left, right) =
        overlaps-In (map span_of (find_terms u entity s ts [])) m.start m.end over in
      let (d, detected, at) = find_entities-covers dm.by_entity entity ts k listed there in
      (
        d,
        detected,
        subst (λ x. m.start < x.1) (sym at) left,
        subst (λ x. x.0 < m.end) (sym at) right,
      )
