-- ===== src/GoLib/Cuts.antt =====
-- Parts of strings: what is used of the package strings to cut, split, join and replace.
use palena_litellm_pseudonym.Base.{
  ℕ, List, [], ◌∷◌, ◌++◌, Option, none, some, ◌==◌, if◌then◌else◌, length, drop,
}
use palena_litellm_pseudonym.GoLib.Strings.{Str, starts_with}

-- strings.IndexByte: what is before the first such byte and what is behind it.
unfoldable pub cut : ℕ → Str → Option (Str × Str)
cut c [] = none
cut c (d ∷ s) =
    let rest = cut c s in
    if c == d
    then some ([], s)
    else elim rest [ none ↦ none | some (before, after) ↦ some (d ∷ before, after) ]

add_to_first : ℕ → List Str → List Str
add_to_first c [] = (c ∷ []) ∷ []
add_to_first c (w ∷ ws) = (c ∷ w) ∷ ws

-- strings.Split by one byte.
unfoldable pub split_on : ℕ → Str → List Str
unfolding add_to_first
split_on c [] = [] ∷ []
split_on c (d ∷ s) = let rest = split_on c s in if c == d then [] ∷ rest else add_to_first d rest

-- strings.TrimPrefix, none without the prefix.
unfoldable pub after_prefix : Str → Str → Option Str
after_prefix [] s = some s
after_prefix (p ∷ ps) [] = none
after_prefix (p ∷ ps) (c ∷ s) = let rest = after_prefix ps s in if p == c then rest else none

-- strings.Replace(s, old, new, 1)
unfoldable pub replace_first : Str → Str → Str → Str
replace_first old new [] = []
replace_first old new (c ∷ s) =
    let rest = replace_first old new s in
    if starts_with old (c ∷ s) then new ++ drop (length old) (c ∷ s) else c ∷ rest

-- strings.Join
unfoldable pub join : Str → List Str → Str
join sep [] = []
join sep (w ∷ []) = w
join sep (w ∷ v ∷ ws) = w ++ (sep ++ join sep (v ∷ ws))
