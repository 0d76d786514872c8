-- ===== src/Presidio/Placed.antt =====
-- internal/presidio/analyzer.go: where the detections of Analyze lie in the text.
use palena_litellm_pseudonym.Base.{
  ℕ, zero, suc, ◌+◌, ◌-◌, ◌≤◌, ◌<◌, ◌≡◌, inl, inr, refl, ap, subst, true, false, ◌||◌, not, List,
  [], ◌∷◌, some, arith, if◌then◌else◌, Bool-cases, Option-cases, ltb→lt, length, take, drop,
  get_elem?, In, All,
}
use palena_litellm_pseudonym.GoLib.Strings.{Str, width, byte_len, is_empty}
use palena_litellm_pseudonym.GoLib.Unicode.{Unicode, trim_space}
use mathlib.Core.Option
use palena_litellm_pseudonym.GoLib.Int.{ℤ, pos, negsuc, ltbℤ}
use palena_litellm_pseudonym.GoLib.Slices.{byte_slice, byte_slice-take}
use palena_litellm_pseudonym.Presidio.{Detection}
use palena_litellm_pseudonym.Presidio.Analyzer.{
  RawDetection, offsets_from, rune_byte_offsets, byte_at, raw_detection, keep_raw, keep_all,
}

-- A detection that stands for an element of the answer, with the characters a to b of the text.
pub record IsPlaced (u : Unicode) (text : Str) (ds : List RawDetection) (d : Detection)
    : Type 0 where
  pub raw : RawDetection
  pub a : ℕ
  pub b : ℕ
  pub listed : In raw ds
  pub from : raw.start ≡ pos a
  pub upto : raw.end ≡ pos b
  pub order : a < b
  pub inside : b ≤ length text
  pub at_start : d.start ≡ byte_len (take a text)
  pub at_end : d.end ≡ byte_len (take b text)
  pub same_type : d.entity_type ≡ raw.entity_type
  pub same_text : d.text ≡ (if is_empty raw.text then take (b - a) (drop a text) else raw.text)
  pub full : is_empty (trim_space u d.text) ≡ false

offset_of :
    (text : Str) (here i found : ℕ)
    → get_elem? (offsets_from here text) i ≡ some found
    → (i ≤ length text) × (found ≡ here + byte_len (take i text))
unfolding offsets_from byte_len
offset_of [] here zero found e = (omega arith, ground arith)
offset_of [] here (suc i) found e = absurd (cc)
offset_of (c ∷ text) here zero found e = (omega arith, ground arith)
offset_of (c ∷ text) here (suc i) found e =
    let (inside, same) = offset_of text (here + width c) i found e in
    (omega (arith, inside), omega (arith, same))

byte_at_lem :
    (text : Str) (z : ℤ) (found : ℕ)
    → byte_at (rune_byte_offsets text) z ≡ some found
    → (i : ℕ) × (z ≡ pos i) × (i ≤ length text) × (found ≡ byte_len (take i text))
unfolding rune_byte_offsets byte_at
byte_at_lem text (pos i) found e =
    let (inside, same) = offset_of text 0 i found e in (i, refl, inside, omega (arith, same))
byte_at_lem text (negsuc i) found e = absurd (cc)

module _ (u : Unicode) (text : Str) where
  keep_raw-IsPlaced :
      (ds : List RawDetection) (r : RawDetection) (d : Detection)
      → In r ds
      → keep_raw u text r ≡ some d
      → IsPlaced u text ds d
  unfolding keep_raw raw_detection
  keep_raw-IsPlaced ds r d listed e =
      elim (Bool-cases (is_empty r.entity_type || not (ltbℤ r.start r.end))) [
        | inl skipped ↦ absurd (let h = rw skipped at e in cc)
        | inr taken ↦
            let h = rw taken at e in
            elim (Option-cases (byte_at (rune_byte_offsets text) r.start)) [
              | inl outside ↦ absurd (let k = rw outside at h in cc)
              | inr (start, at_start) ↦
                  elim (Option-cases (byte_at (rune_byte_offsets text) r.end)) [
                    | inl outside ↦ absurd (let k = rw (at_start, outside) at h in cc)
                    | inr (end, at_end) ↦
                        let k = rw (at_start, at_end) at h in
                        let (a, from, inside_a, here) = byte_at_lem text r.start start at_start in
                        let (b, upto, inside_b, there) = byte_at_lem text r.end end at_end in
                        let found = if is_empty r.text then byte_slice text start end else r.text in
                        elim (Bool-cases (is_empty (trim_space u found))) [
                          | inl blank ↦ absurd (let x = rw blank at k in cc)
                          | inr full ↦
                              let x = rw full at k in
                              let rising : ltbℤ r.start r.end ≡ true = ground arith in
                              let rising' = rw (from, upto) at rising in
                              let order : a < b = ltb→lt a b rising' in
                              subst (IsPlaced u text ds) (Option.some-injective _ _ x) (record {
                                raw = r;
                                a = a;
                                b = b;
                                listed = listed;
                                from = from;
                                upto = upto;
                                order = order;
                                inside = inside_b;
                                at_start = here;
                                at_end = there;
                                same_type = refl;
                                same_text =
                                    ap (λ t. if is_empty r.text then t else r.text)
                                      (rw (here, there)
                                        (byte_slice-take text a b (omega (arith, order))));
                                full = full;
                              })
                        ]
                  ]
            ]
      ]

  -- Every detection that Analyze makes of an answer stands for an element of it and covers a range
  -- of characters of the text that is not empty: its byte offsets are those of the range, and its
  -- text is the range where the server has sent none, and not blank.
  pub keep_all-IsPlaced : (ds : List RawDetection) → All (IsPlaced u text ds) (keep_all u text ds)
  unfolding keep_all
  keep_all-IsPlaced ds = go ds (λ r listed. listed)
    where
      go :
          (later : List RawDetection)
          → ((r : RawDetection) → In r later → In r ds)
          → All (IsPlaced u text ds) (keep_all u text later)
      go [] within = tt
      go (r ∷ later) within = elim (Option-cases (keep_raw u text r)) [
        | inl skipped ↦ rw (keep_all, skipped) (go later (λ x m. within x (inr m)))
        | inr (d, e) ↦
            rw (keep_all, e)
              (keep_raw-IsPlaced ds r d (within r (inl refl)) e, go later (λ x m. within x (inr m)))
      ]
