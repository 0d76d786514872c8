-- ===== src/Mapping/Merge.antt =====
-- What the merge of the Lua script amounts to on mappings, and the inversion of GetReverseMapping.
use palena_litellm_pseudonym.Base.{
  ◌≡◌, inl, inr, refl, ◌∙◌, Bool, true, false, List, [], ◌∷◌, Option, none, some, arith,
  if◌then◌else◌, Bool-cases,
}
use palena_litellm_pseudonym.GoLib.Strings.{Str, text_eq_iff}
use palena_litellm_pseudonym.GoLib.Dict.{get, put, has, get-put}

abbrev pub Mapping : Type 0
Mapping = List (Str × Str)

-- The merge in which existing entries win, and whether it adds one.
unfoldable pub merge_from : Mapping × Bool → Mapping → Mapping × Bool
merge_from (merged, changed) [] = (merged, changed)
merge_from (merged, changed) ((k, v) ∷ new_map) =
    merge_from (if has k merged then (merged, changed) else (put k v merged, true)) new_map

unfoldable pub merge : Mapping → Mapping → Mapping × Bool
merge existing new_map = merge_from (existing, false) new_map

unfoldable pub reverse_into : Mapping → Mapping → Mapping
reverse_into rev [] = rev
reverse_into rev ((k, v) ∷ m) = reverse_into (put v k rev) m

-- rev[v] = k for each entry: of two names with one pseudonym the later one stays.
unfoldable pub reverse_of : Mapping → Mapping
reverse_of m = reverse_into [] m

abbrev pub first_of : Option Str → Option Str → Option Str
first_of none o = o
first_of (some v) o = some v

get-merge_from :
    (merged new_map : Mapping) (changed : Bool) (k : Str)
    → get k (merge_from (merged, changed) new_map).0 ≡ first_of (get k merged) (get k new_map)
unfolding merge_from get has
get-merge_from merged [] changed k = ground arith
get-merge_from merged ((j, w) ∷ new_map) changed k = elim (Bool-cases (has j merged)) [
  | inl old ↦
      rw old (rw (get-merge_from merged new_map changed k) (ground (arith, text_eq_iff j k)))
  | inr new ↦ rw new (
      rw (get-merge_from (put j w merged) new_map true k)
        (ground (arith, get-put j k w merged, text_eq_iff j k)))
]

-- The merged mapping reads as the existing one where that has a value, else as the new one:
-- existing entries win.
pub get-merge :
    (existing new_map : Mapping) (k : Str)
    → get k (merge existing new_map).0
      ≡ elim (get k existing) [ none ↦ get k new_map | some v ↦ some v ]
unfolding merge
get-merge existing new_map k = get-merge_from existing new_map false k ∙ ground arith

merge_from-unchanged :
    (merged new_map : Mapping) (changed : Bool)
    → (merge_from (merged, changed) new_map).1 ≡ false
    → ((merge_from (merged, changed) new_map).0 ≡ merged) × (changed ≡ false)
unfolding merge_from
merge_from-unchanged merged [] changed h = (refl, h)
merge_from-unchanged merged ((k, v) ∷ new_map) changed h = elim (Bool-cases (has k merged)) [
  | inl old ↦
      let h' : (merge_from (merged, changed) new_map).1 ≡ false = rw old at h in
      rw old (merge_from-unchanged merged new_map changed h')
  | inr new ↦
      let h' : (merge_from (put k v merged, true) new_map).1 ≡ false = rw new at h in
      absurd (cc ((merge_from-unchanged (put k v merged) new_map true h').1))
]

-- If the script writes nothing, there was nothing to write.
pub merge-unchanged :
    (existing new_map : Mapping)
    → (merge existing new_map).1 ≡ false
    → (merge existing new_map).0 ≡ existing
unfolding merge
merge-unchanged existing new_map h = (merge_from-unchanged existing new_map false h).0
