-- ===== src/Text/Strategy/Fresh.antt =====
-- The strategizer: the next token and the assigned pseudonym against the mapping and the text.
use palena_litellm_pseudonym.Base.{
  ℕ, suc, ◌+◌, ◌≤◌, ◌<◌, ◌≡◌, inl, inr, refl, sym, ap, subst, ◌∙◌, false, List, [], ◌∷◌, ◌++◌, some,
  arith, Bool-cases, Option-cases, length, drop, In,
}
use palena_litellm_pseudonym.GoLib.Strings.{Str, text_eq, text_eq_refl, infixes}
use palena_litellm_pseudonym.GoLib.Decimal.{
  decimal, max_int, atoi, value-decimal, decimal_injective, all-decimal,
}
use palena_litellm_pseudonym.GoLib.Unicode.{Unicode, lower}
use palena_litellm_pseudonym.Text.Numbering.{
  first_number, first_number-alike, first_number-free, first_number-total,
}
use palena_litellm_pseudonym.Text.Pools.{reserved_contains}
use palena_litellm_pseudonym.Text.Pools.Fresh.{
  map-append, append_left_cancel, lower-digits, In-infixes_of_reserved, assign-free,
  assign_deterministic-free,
}
use palena_litellm_pseudonym.Text.Token.{
  render_int, render_int-small, token_prefix, render, index_of, max_index, next_token,
}
use palena_litellm_pseudonym.Text.Token.RoundTrip.{
  IsPrefix, parse_token-render, token_prefix-IsPrefix, index_of-le,
}
use palena_litellm_pseudonym.Text.Strategy.{
  Strategizer, strategy_token, strategy_for, values, assign_name,
}

drop_last : Str → Str
drop_last [] = []
drop_last (c ∷ []) = []
drop_last (c ∷ d ∷ s) = c ∷ drop_last (d ∷ s)

drop_last-append : (s : Str) (c : ℕ) → drop_last (s ++ c ∷ []) ≡ s
unfolding drop_last
drop_last-append [] c = refl
drop_last-append (d ∷ []) c = refl
drop_last-append (d ∷ e ∷ s) c = ap (◌∷◌ d) (drop_last-append (e ∷ s) c)

index_of-render :
    (prefix : Str) (n : ℕ)
    → IsPrefix prefix
    → n ≤ max_int
    → index_of prefix (render prefix n) ≡ some n
unfolding index_of atoi
index_of-render prefix n p small =
    rw (parse_token-render prefix n p.0 p.1, index_of)
      (rw (text_eq_refl prefix, atoi, value-decimal n) (ground arith))

module _ (u : Unicode) where
  lower-render_injective :
      (prefix : Str) (i j : ℕ) → lower u (render prefix i) ≡ lower u (render prefix j) → i ≡ j
  unfolding render
  lower-render_injective prefix i j e =
      let shut = λ (n : ℕ). b'_' ∷ (decimal n ++ b'>' ∷ []) in
      let split = λ (n : ℕ). map-append u.to_lower prefix (shut n) in
      let tails : lower u (shut i) ≡ lower u (shut j) =
        append_left_cancel (lower u prefix) (sym (split i) ∙ ap (drop 1) e ∙ split j) in
      let inner = λ (n : ℕ). map-append u.to_lower (decimal n) (b'>' ∷ []) in
      let ends : lower u (decimal i) ++ u.to_lower b'>' ∷ []
          ≡ lower u (decimal j) ++ u.to_lower b'>' ∷ [] =
        sym (inner i) ∙ ap (drop 1) tails ∙ inner j in
      let digits : lower u (decimal i) ≡ lower u (decimal j) =
        sym (drop_last-append (lower u (decimal i)) (u.to_lower b'>'))
        ∙ ap drop_last ends
        ∙ drop_last-append (lower u (decimal j)) (u.to_lower b'>') in
      decimal_injective i j (
        sym (lower-digits u (decimal i) (all-decimal i))
        ∙ digits
        ∙ lower-digits u (decimal j) (all-decimal j))

  -- Tokens are numbered within int as long as this holds: the largest index in use leaves room
  -- for every number that the reserved text can hold.
  abbrev pub HasRoom : Str → List (Str × Str) → Str → Type 0
  HasRoom entity_type scratch reserved =
      max_index (token_prefix u entity_type) 0 scratch + suc (length (infixes reserved)) ≤ max_int

  -- If the numbering stays within int (HasRoom), the search for a token ends: the token's index is above
  -- the largest index in use, by at most one more than the reserved text has infixes, and the token
  -- does not occur in the reserved text in lower case.
  pub next_token_lem :
      (entity_type : Str) (scratch : List (Str × Str)) (reserved : Str)
      → HasRoom entity_type scratch reserved
      → (n : ℕ) × (next_token u entity_type scratch reserved
          ≡ render (token_prefix u entity_type) n)
        × (max_index (token_prefix u entity_type) 0 scratch < n)
        × (n ≤ max_index (token_prefix u entity_type) 0 scratch + suc (length (infixes reserved)))
        × (reserved_contains u reserved (render (token_prefix u entity_type) n) ≡ false)
  unfolding next_token
  next_token_lem entity_type scratch reserved room =
      let prefix = token_prefix u entity_type in
      let taken = λ (n : ℕ). reserved_contains u reserved (render prefix n) in
      let fuel = suc (length (infixes reserved)) in
      let start = max_index prefix 0 scratch + 1 in
      let (n, found) =
        first_number-total (λ k. lower u (render prefix k)) taken (infixes reserved) fuel start
          (lower-render_injective prefix) (λ k. In-infixes_of_reserved u reserved (render prefix k))
          (omega arith) in
      let (free, above, below) = first_number-free taken fuel start found in
      let rendered = λ (k : ℕ). reserved_contains u reserved (render_int prefix k) in
      let same : first_number rendered fuel start ≡ first_number taken fuel start =
        first_number-alike rendered taken fuel start
          (λ k l. ap (reserved_contains u reserved) (render_int-small prefix k (omega arith))) in
      (
        n,
        rw (same ∙ found, next_token) (render_int-small prefix n (omega arith)),
        omega arith,
        omega arith,
        free,
      )

  next_token-new :
      (entity_type : Str) (scratch : List (Str × Str)) (reserved : Str)
      → HasRoom entity_type scratch reserved
      → ¬ In (next_token u entity_type scratch reserved) (values scratch)
  next_token-new entity_type scratch reserved room m =
      let prefix = token_prefix u entity_type in
      let (n, e, above, below, free) = next_token_lem entity_type scratch reserved room in
      let small : n ≤ max_int = omega arith in
      let read = index_of-render prefix n (token_prefix-IsPrefix u entity_type) small in
      let known : In (render prefix n) (values scratch) = subst (λ t. In t (values scratch)) e m in
      absurd (omega (arith, index_of-le prefix (render prefix n) n 0 scratch read known))

  -- Whatever the strategy, the pseudonym that Strategizer.Assign returns is no value of the mapping,
  -- and it does not occur in the reserved text in lower case. Token indices are taken to fit an int.
  pub assign_name-new :
      (mac : Str → Str → List ℕ) (s : Strategizer) (entity_type name : Str)
      (scratch : List (Str × Str)) (reserved : Str)
      → HasRoom entity_type scratch reserved
      → (¬ In (assign_name u mac s entity_type name scratch reserved) (values scratch))
        × (reserved_contains u reserved (assign_name u mac s entity_type name scratch reserved)
            ≡ false)
  unfolding assign_name
  assign_name-new mac s entity_type name scratch reserved room =
      elim (Bool-cases (text_eq (strategy_for s entity_type) strategy_token)) [
        | inl token ↦
            let (n, e, _, _, free) = next_token_lem entity_type scratch reserved room in
            rw (token, assign_name) (next_token-new entity_type scratch reserved room, rw e free)
        | inr pool ↦ elim (Option-cases s.det_secret) [
          | inl plain ↦
              rw (pool, plain, assign_name)
                (assign-free u s.pools entity_type (values scratch) reserved)
          | inr keyed ↦
              rw (pool, keyed.1, assign_name)
                (assign_deterministic-free u mac s.pools entity_type name (values scratch) reserved
                  keyed.0)
        ]
      ]
