-- ===== src/Tests/Rewriting.antt =====
-- Replacing and holding back at concrete texts.
use palena_litellm_pseudonym.Base.{
  ◌≤◌, ◌<◌, ◌≡◌, ◌⊎◌, inl, inr, ap, In, refl, List, [], ◌∷◌, ◌++◌, length,
}
use palena_litellm_pseudonym.GoLib.Strings.{Str, codes, byte_len, text_eq, starts_with}
use palena_litellm_pseudonym.GoLib.Dict.{get, put}
use palena_litellm_pseudonym.Tests.Samples.{ascii}
use palena_litellm_pseudonym.GoLib.Order.{text_lt, insert_by, sort_by}
use palena_litellm_pseudonym.Text.Token.{is_token, parse_token}
use palena_litellm_pseudonym.Text.Holdback.{
  max_length, can_start, begins, held, holdback_from, compute_holdback, compute_holdback_sound,
  compute_holdback_complete, Begins,
}
use palena_litellm_pseudonym.Text.Replacer.{
  is_word_context, left_boundary_clear, right_boundary_clear, match_key, match_first, endings,
  possessive, pieces, match_case, rewrite_piece, rewrite_pieces, lowered_into, lowered_table,
  key_precedes, sorted_keys, replace,
}
use palena_litellm_pseudonym.Text.Replacer.Casing.{Cased}
use palena_litellm_pseudonym.GoLib.Unicode.{lower}
use palena_litellm_pseudonym.Text.Replacer.Pieces.{NoMatch}
use palena_litellm_pseudonym.Text.Replacer.Rewrites.{Meets, replace-name, replace-rejected}

abbrev max_lee : List (Str × Str)
max_lee = (codes "Max", codes "Ann") ∷ []

replace-run : replace ascii (codes "to MAX's dog") max_lee ≡ codes "to ANN's dog"
unfolding replace sorted_keys lowered_table sort_by insert_by lowered_into put get text_eq
    rewrite_pieces pieces rewrite_piece match_first match_key possessive endings left_boundary_clear
    right_boundary_clear is_word_context match_case is_token parse_token
replace-run = refl

abbrev Seen : Str → List (Str × Str) → Type 0
Seen text mapping = NoMatch ascii (sorted_keys mapping) text []

no_name : Seen (codes "hi") max_lee
unfolding sorted_keys sort_by insert_by match_first match_key
no_name = (refl, (refl, tt))

name_met : Meets ascii max_lee (codes "a ") (codes "MAX") (codes "'s") (codes " b")
unfolding sorted_keys sort_by insert_by match_first match_key possessive endings
name_met = record { full = refl; before = (refl, (refl, tt)); key = refl; tail = refl }

after_met : NoMatch ascii (sorted_keys max_lee) (codes " b") []
unfolding sorted_keys sort_by insert_by match_first match_key
after_met = (refl, (refl, tt))

one_entry :
    (j w : Str) → In (j, w) max_lee → lower ascii j ≡ lower ascii (codes "MAX") → w ≡ codes "Ann"
one_entry j w (inl e) _ = ap (λ x. x.1) e
one_entry j w (inr m) _ = absurd m

replace-name_example :
    (r : Str) × Cased ascii (codes "MAX") (codes "Ann") r
    × (replace ascii (codes "a " ++ (codes "MAX" ++ (codes "'s" ++ codes " b"))) max_lee
        ≡ codes "a " ++ (r ++ (codes "'s" ++ codes " b")))
unfolding left_boundary_clear right_boundary_clear is_word_context
replace-name_example =
    replace-name ascii max_lee (codes "a ") (codes "MAX") (codes "'s") (codes " b") (codes "Max")
      (codes "Ann") name_met refl refl (inl refl) refl one_entry after_met

-- The longer key matches in front of "isch" and is rejected, and so "Max" stays in clear.
abbrev max_fr : List (Str × Str)
max_fr = (codes "Max Fr", codes "Ann Lee") ∷ (codes "Max", codes "Ann") ∷ []

fr_met : Meets ascii max_fr (codes "a ") (codes "Max Fr") [] (codes "isch")
unfolding sorted_keys sort_by insert_by key_precedes byte_len text_lt match_first match_key
    possessive endings
fr_met = record { full = refl; before = (refl, (refl, tt)); key = refl; tail = refl }

isch_met : NoMatch ascii (sorted_keys max_fr) (codes "isch") []
unfolding sorted_keys sort_by insert_by key_precedes byte_len text_lt match_first match_key
isch_met = (refl, (refl, (refl, (refl, tt))))

replace-rejected_example :
    replace ascii (codes "a " ++ (codes "Max Fr" ++ ([] ++ codes "isch"))) max_fr
    ≡ codes "a " ++ (codes "Max Fr" ++ ([] ++ codes "isch"))
unfolding right_boundary_clear
replace-rejected_example =
    replace-rejected ascii max_fr (codes "a ") (codes "Max Fr") [] (codes "isch") fr_met refl
      isch_met

compute_holdback_sound_example :
    (compute_holdback ascii (codes "to An") (codes "Ann" ∷ []) ≤ length (codes "to An"))
    × ((compute_holdback ascii (codes "to An") (codes "Ann" ∷ []) ≡ 0)
        ⊎ ((compute_holdback ascii (codes "to An") (codes "Ann" ∷ [])
              < max_length 0 (codes "Ann" ∷ []))
            × Begins ascii
                (codes "to An")
                (codes "Ann" ∷ [])
                (compute_holdback ascii (codes "to An") (codes "Ann" ∷ []))))
compute_holdback_sound_example = compute_holdback_sound ascii (codes "to An") (codes "Ann" ∷ [])

compute_holdback-run : compute_holdback ascii (codes "to An") (codes "Ann" ∷ []) ≡ 2
unfolding compute_holdback holdback_from held begins can_start starts_with byte_len is_word_context
compute_holdback-run = refl

compute_holdback_complete_example :
    length (codes "An") ≤ compute_holdback ascii (codes "to " ++ codes "An") (codes "Ann" ∷ [])
unfolding can_start is_word_context
compute_holdback_complete_example =
    compute_holdback_complete ascii (codes "to ") (codes "An") (codes "Ann" ∷ []) (codes "Ann") b'n'
      [] (inl refl) refl refl refl
