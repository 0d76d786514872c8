-- ===== src/Text/Token/RoundTrip.antt =====
-- The token pattern against rendered tokens.
use palena_litellm_pseudonym.Base.{
  ℕ, ◌≤◌, ◌≡◌, inl, inr, refl, subst, Bool, true, false, List, [], ◌∷◌, ◌++◌, map, append_assoc,
  none, some, arith, ltb, ◌==◌, if◌then◌else◌, Bool-cases, Option-cases, all, In,
}
use palena_litellm_pseudonym.GoLib.Strings.{Str, is_empty}
use palena_litellm_pseudonym.GoLib.Decimal.{decimal, is_digit, all-decimal, decimal-cons}
use palena_litellm_pseudonym.GoLib.Unicode.{Unicode, upper, trim_left, trim_right, trim, trim_space}
use palena_litellm_pseudonym.Text.Token.{
  is_token_char, unclose, split_last, parse_token, upper_or_underscore, token_prefix, render,
  index_of, max_index,
}

unclose-append : (s : Str) → unclose (s ++ b'>' ∷ []) ≡ some s
unfolding unclose
unclose-append [] = refl
unclose-append (c ∷ []) = refl
unclose-append (c ∷ d ∷ s) = rw (unclose-append (d ∷ s))

split_last-none : (s : Str) → all is_digit s ≡ true → split_last s ≡ none
unfolding split_last
split_last-none [] h = refl
split_last-none (c ∷ s) h = ground (arith, split_last-none s)

split_last-append : (p s : Str) → all is_digit s ≡ true → split_last (p ++ b'_' ∷ s) ≡ some (p, s)
unfolding split_last
split_last-append [] s h = rw (split_last-none s h)
split_last-append (c ∷ p) s h = rw (split_last-append p s h)

is_empty-decimal : (n : ℕ) → is_empty (decimal n) ≡ false
is_empty-decimal n = let (c, s, e) = decimal-cons n in rw e

-- A prefix that the pattern accepts.
abbrev pub IsPrefix : Str → Type 0
IsPrefix prefix = (is_empty prefix ≡ false) × (all is_token_char prefix ≡ true)

-- A rendered token is read back as its prefix and its digits.
pub parse_token-render :
    (prefix : Str) (n : ℕ)
    → is_empty prefix ≡ false
    → all is_token_char prefix ≡ true
    → parse_token (render prefix n) ≡ some (prefix, decimal n)
unfolding parse_token render
parse_token-render prefix n full valid =
    let closed : unclose (prefix ++ b'_' ∷ (decimal n ++ b'>' ∷ []))
        ≡ some (prefix ++ b'_' ∷ decimal n) =
      subst (λ s. unclose s ≡ some (prefix ++ b'_' ∷ decimal n))
        (append_assoc prefix (b'_' ∷ decimal n) (b'>' ∷ []))
        (unclose-append (prefix ++ b'_' ∷ decimal n)) in
    rw closed (
      rw (split_last-append prefix (decimal n) (all-decimal n))
        (rw (full, valid, is_empty-decimal n, all-decimal n)))

all-trim_left : (p q : ℕ → Bool) (s : Str) → all q s ≡ true → all q (trim_left p s) ≡ true
unfolding trim_left
all-trim_left p q [] h = refl
all-trim_left p q (c ∷ s) h = ground (arith, all-trim_left p q s)

all-trim_right : (p q : ℕ → Bool) (s : Str) → all q s ≡ true → all q (trim_right p s) ≡ true
unfolding trim_right
all-trim_right p q [] h = refl
all-trim_right p q (c ∷ s) h = ground (arith, all-trim_right p q s)

all-upper_or_underscore : (s : Str) → all is_token_char (map upper_or_underscore s) ≡ true
unfolding is_token_char upper_or_underscore
all-upper_or_underscore [] = refl
all-upper_or_underscore (c ∷ s) = ground (arith, all-upper_or_underscore s)

module _ (u : Unicode) where
  -- The prefix of every entity type is one that the pattern accepts.
  pub token_prefix-IsPrefix : (entity_type : Str) → IsPrefix (token_prefix u entity_type)
  unfolding token_prefix is_token_char
  token_prefix-IsPrefix entity_type =
      let raw = map upper_or_underscore (upper u (trim_space u entity_type)) in
      let up = trim (λ c. c == b'_') raw in
      let valid : all is_token_char up ≡ true =
        unfold trim in
        all-trim_right (λ c. c == b'_') is_token_char (trim_left (λ c. c == b'_') raw)
          (all-trim_left (λ c. c == b'_') is_token_char raw
            (all-upper_or_underscore (upper u (trim_space u entity_type)))) in
      elim (Bool-cases (is_empty up)) [
        | inl nothing ↦ rw nothing (refl, refl)
        | inr full ↦ rw full (full, valid)
      ]

max_index-le : (prefix : Str) (n : ℕ) (m : List (Str × Str)) → n ≤ max_index prefix n m
unfolding max_index
max_index-le prefix n [] = omega arith
max_index-le prefix n ((k, v) ∷ m) = elim (Option-cases (index_of prefix v)) [
  | inl miss ↦ rw miss (max_index-le prefix n m)
  | inr found ↦
      rw (found.1) (ground (arith, max_index-le prefix (if ltb n found.0 then found.0 else n) m))
]

-- No index that a value of the mapping carries exceeds the largest one.
pub index_of-le :
    (prefix v : Str) (i n : ℕ) (m : List (Str × Str))
    → index_of prefix v ≡ some i
    → In v (map (λ e. e.1) m)
    → i ≤ max_index prefix n m
unfolding max_index
index_of-le prefix v i n [] h k = absurd k
index_of-le prefix v i n ((k, w) ∷ m) h (inl e) =
    let here : index_of prefix w ≡ some i = rw (← e) h in
    rw here (ground (arith, max_index-le prefix (if ltb n i then i else n) m))
index_of-le prefix v i n ((k, w) ∷ m) h (inr later) =
    index_of-le prefix v i
      (elim (index_of prefix w) [ none ↦ n | some j ↦ if ltb n j then j else n ]) m h later
