-- ===== src/GoLib/Unicode.antt =====
-- Package unicode, whose tables are a parameter, and the functions of strings that read them.
use palena_litellm_pseudonym.Base.{
  ℕ, ◌+◌, ◌<◌, ◌≡◌, refl, Bool, true, false, List, [], ◌∷◌, ◌++◌, map, if◌then◌else◌,
}
use palena_litellm_pseudonym.GoLib.Strings.{Str, text_eq}

pub record Unicode : Type 0 where
  pub is_letter : ℕ → Bool
  pub is_digit : ℕ → Bool
  pub is_upper : ℕ → Bool
  pub is_lower : ℕ → Bool
  pub is_space : ℕ → Bool
  pub to_lower : ℕ → ℕ
  pub to_upper : ℕ → ℕ
  -- The least member of the orbit of unicode.SimpleFold, by which (?i) and EqualFold compare.
  pub fold : ℕ → ℕ
  pub lower_digit : (d : ℕ) → d < 10 → to_lower (b'0' + d) ≡ b'0' + d
  pub lower_twice : (c : ℕ) → to_lower (to_lower c) ≡ to_lower c
  pub space-not-letter : (c : ℕ) → is_space c ≡ true → is_letter c ≡ false

module _ (u : Unicode) where
  -- strings.ToLower, strings.ToUpper
  abbrev pub lower : Str → Str
  lower = map u.to_lower

  abbrev pub upper : Str → Str
  upper = map u.to_upper

  -- strings.EqualFold
  unfoldable pub equal_fold : Str → Str → Bool
  equal_fold s t = text_eq (map u.fold s) (map u.fold t)

  pub lower-lower : (s : Str) → lower (lower s) ≡ lower s
  lower-lower [] = refl
  lower-lower (c ∷ s) = rw (u.lower_twice c) (rw (lower-lower s))

-- strings.TrimLeft and TrimRight by a test.
unfoldable pub trim_left : (ℕ → Bool) → Str → Str
trim_left p [] = []
trim_left p (c ∷ s) = if p c then trim_left p s else c ∷ s

trim_right_step : Bool → ℕ → Str → Str
trim_right_step true c [] = []
trim_right_step _ c s = c ∷ s

unfoldable pub trim_right : (ℕ → Bool) → Str → Str
unfolding trim_right_step
trim_right p [] = []
trim_right p (c ∷ s) = trim_right_step (p c) c (trim_right p s)

unfoldable pub trim : (ℕ → Bool) → Str → Str
unfolding trim_left trim_right
trim p s = trim_right p (trim_left p s)

-- strings.TrimSpace
abbrev pub trim_space : Unicode → Str → Str
trim_space u = trim u.is_space

flush : Str → List Str
flush [] = []
flush (c ∷ w) = (c ∷ w) ∷ []

fields_from : (ℕ → Bool) → Str → Str → List Str
unfolding flush
fields_from p cur [] = flush cur
fields_from p cur (c ∷ s) =
    let closed = flush cur ++ fields_from p [] s in
    let longer = fields_from p (cur ++ c ∷ []) s in if p c then closed else longer

-- strings.Fields
unfoldable pub fields : Unicode → Str → List Str
unfolding fields_from
fields u s = fields_from u.is_space [] s
