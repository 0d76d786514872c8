-- ===== src/Text/Units/Windows.antt =====
-- windowLine: the length of its windows and the characters in them.
use palena_litellm_pseudonym.Base.{
  ℕ, zero, suc, ◌+◌, ◌-◌, ◌≤◌, ◌<◌, ◌≡◌, inl, inr, refl, sym, true, false, ◌||◌, List, [], ◌∷◌,
  ◌++◌, map, append-nil, some, arith, ltb, leb, ◌==◌, Bool-cases, Option-cases, ltb→lt, lt→ltb,
  length, take, drop, take-append-drop, length-take, length-drop, In, All, All-In, In-map,
}
use palena_litellm_pseudonym.GoLib.Strings.{Str, byte_len}
use palena_litellm_pseudonym.GoLib.Unicode.{Unicode}
use Prim.Native.Nat.{max}
use palena_litellm_pseudonym.Text.Units.{
  TextUnit, sentence_cut, space_cut, cut_at, word_start, window_end, next_start, windows, piece_at,
  fitting_overlap, window_line,
}

sentence_cut_lem :
    (u : Unicode) (line : Str) (lo i cut : ℕ)
    → sentence_cut u line lo i ≡ some cut
    → (lo < cut) × (cut ≤ suc i)
unfolding sentence_cut
sentence_cut_lem u line lo zero cut e = absurd (cc)
sentence_cut_lem u line lo (suc i) cut e = ground (arith, sentence_cut_lem u line lo i cut)

space_cut_lem :
    (u : Unicode) (line : Str) (lo i cut : ℕ)
    → space_cut u line lo i ≡ some cut
    → (lo < cut) × (cut ≤ suc i)
unfolding space_cut
space_cut_lem u line lo zero cut e = absurd (cc)
space_cut_lem u line lo (suc i) cut e = ground (arith, space_cut_lem u line lo i cut)

cut_at_lem :
    (u : Unicode) (line : Str) (start end overlap : ℕ)
    → start < end
    → (start < cut_at u line start end overlap) × (cut_at u line start end overlap ≤ end)
unfolding cut_at
cut_at_lem u line start end overlap h =
    let lo = max (start + 1) (end - overlap) in
    let above : start < lo = omega arith in
    elim (Option-cases (sentence_cut u line lo (end - 1))) [
      | inr (cut, e) ↦
          let (a, b) = sentence_cut_lem u line lo (end - 1) cut e in
          rw (e, cut_at) (omega arith, omega arith)
      | inl no_sentence ↦ elim (Option-cases (space_cut u line lo (end - 1))) [
        | inr (cut, e) ↦
            let (a, b) = space_cut_lem u line lo (end - 1) cut e in
            rw (no_sentence, cut_at) (rw e (omega arith, omega arith))
        | inl no_space ↦ rw (no_sentence, cut_at) (rw no_space (h, omega arith))
      ]
    ]

word_start_lem :
    (u : Unicode) (line : Str) (left next : ℕ)
    → (next ≤ word_start u line left next) × (word_start u line left next ≤ next + left)
unfolding word_start
word_start_lem u line zero next = (omega arith, omega arith)
word_start_lem u line (suc left) next =
    let (a, b) = word_start_lem u line left (suc next) in ground arith

next_start_lem :
    (u : Unicode) (line : Str) (overlap start end : ℕ)
    → start < end
    → (start < next_start u line overlap start end) × (next_start u line overlap start end ≤ end)
unfolding next_start
next_start_lem u line overlap start end h =
    let next = max (end - overlap) (start + 1) in
    let (a, b) = word_start_lem u line (end - next) next in (omega arith, omega arith)

module _ (u : Unicode) (line : Str) (max_chars overlap : ℕ) (some_chars : 0 < max_chars) where
  window_end_lem :
      (start : ℕ)
      → start < length line
      → (start < window_end u line max_chars overlap start)
        × (window_end u line max_chars overlap start ≤ start + max_chars)
        × (window_end u line max_chars overlap start ≤ length line)
  unfolding window_end
  window_end_lem start h = elim (Bool-cases (ltb (start + max_chars) (length line))) [
    | inl cut ↦
        let (a, b) = cut_at_lem u line start (start + max_chars) overlap (omega arith) in
        let inside = ltb→lt (start + max_chars) (length line) cut in rw cut (a, b, omega arith)
    | inr whole ↦ rw whole (h, ground arith, omega arith)
  ]

  abbrev IsWindow : ℕ × ℕ → Type 0
  IsWindow w = (w.0 < w.1) × (w.1 ≤ w.0 + max_chars) × (w.1 ≤ length line)

  windows-IsWindow : (fuel start : ℕ) → All IsWindow (windows u line max_chars overlap fuel start)
  unfolding windows
  windows-IsWindow zero start = tt
  windows-IsWindow (suc fuel) start =
      let end = window_end u line max_chars overlap start in
      let later = windows-IsWindow fuel (next_start u line overlap start end) in
      elim (Bool-cases (ltb start (length line))) [
        | inr past ↦ rw past tt
        | inl inside ↦
            let here = window_end_lem start (ltb→lt start (length line) inside) in
            elim (Bool-cases (leb (length line) end)) [
              | inl last ↦ rw inside (here, rw last tt)
              | inr more ↦ rw inside (here, rw more later)
            ]
      ]

  -- With fuel for each character that is left, every index is in a window.
  windows-cover :
      (fuel start i : ℕ)
      → start ≤ i
      → i < length line
      → length line ≤ start + fuel
      → (w : ℕ × ℕ) × In w (windows u line max_chars overlap fuel start) × (w.0 ≤ i) × (i < w.1)
  unfolding windows
  windows-cover zero start i from below enough = absurd (omega arith)
  windows-cover (suc fuel) start i from below enough =
      let end = window_end u line max_chars overlap start in
      let inside : ltb start (length line) ≡ true = lt→ltb start (length line) (omega arith) in
      let (after, short, fits) = window_end_lem start (omega arith) in
      let (later, back) = next_start_lem u line overlap start end after in
      elim (Bool-cases (ltb i end)) [
        | inl here ↦ ((start, end), rw inside (inl refl), from, ltb→lt i end here)
        | inr behind ↦
            let more : leb (length line) end ≡ false = ground arith in
            let (w, m, a, b) =
              windows-cover fuel (next_start u line overlap start end) i (ground arith) below
                (omega arith) in
            (w, rw inside (rw more (inr m)), a, b)
      ]

-- Every character of a line is in one of the windows that windowLine cuts: the window is a part of the
-- line, at the byte offset that it carries, around the character.
pub window_line-covers :
    (u : Unicode) (line : Str) (max_chars overlap i : ℕ)
    → i < length line
    → (w : TextUnit) × (before : Str) × (after : Str) × In w (window_line u line max_chars overlap)
      × (line ≡ before ++ (w.text ++ after))
      × (w.offset ≡ byte_len before)
      × (length before ≤ i)
      × (i < length before + length w.text)
unfolding window_line piece_at
window_line-covers u line max_chars overlap i below =
    elim (Bool-cases (max_chars == 0 || leb (length line) max_chars)) [
      | inl whole ↦ (
        record { offset = 0; text = line },
        [],
        [],
        rw whole (inl refl),
        sym (append-nil line),
        unfold byte_len in refl,
        omega arith,
        omega arith,
      )
      | inr long ↦
          let some_chars : 0 < max_chars = ground arith in
          let ((a, b), m, from, upto) =
            windows-cover u line max_chars (fitting_overlap max_chars overlap) some_chars
              (length line) 0 i (omega arith) below (omega arith) in
          let split : line
              ≡ take a line ++ (take (b - a) (drop a line) ++ drop (b - a) (drop a line)) =
            sym (rw (take-append-drop (b - a) (drop a line)) (take-append-drop a line)) in
          let (proper, _, fits) =
            All-In (IsWindow u line max_chars (fitting_overlap max_chars overlap) some_chars)
              (windows u line max_chars (fitting_overlap max_chars overlap) (length line) 0)
              (windows-IsWindow u line max_chars (fitting_overlap max_chars overlap) some_chars
                (length line) 0)
              m in
          (
            piece_at line (a, b),
            take a line,
            drop (b - a) (drop a line),
            rw long (In-map (piece_at line) (a, b) _ m),
            split,
            refl,
            omega (arith, length-take a line),
            omega
                (arith, length-take a line, length-take (b - a) (drop a line), length-drop a line),
          )
    ]

-- No window is longer than the limit, if there is one.
pub window_line-bounded :
    (u : Unicode) (line : Str) (max_chars overlap : ℕ)
    → 0 < max_chars
    → All (λ w. length w.text ≤ max_chars) (window_line u line max_chars overlap)
unfolding window_line piece_at
window_line-bounded u line max_chars overlap some_chars =
    elim (Bool-cases (max_chars == 0 || leb (length line) max_chars)) [
      | inl whole ↦ rw whole (ground arith, tt)
      | inr long ↦ rw long (
          cut_bounded (windows u line max_chars (fitting_overlap max_chars overlap) (length line) 0)
            (windows-IsWindow u line max_chars (fitting_overlap max_chars overlap) some_chars
              (length line) 0))
    ]
  where
    cut_bounded :
        (ws : List (ℕ × ℕ))
        → All (IsWindow u line max_chars (fitting_overlap max_chars overlap) some_chars) ws
        → All (λ w. length w.text ≤ max_chars) (map (piece_at line) ws)
    cut_bounded [] h = tt
    cut_bounded ((a, b) ∷ ws) h =
        (omega (arith, h.0, length-take (b - a) (drop a line)), cut_bounded ws h.1)
