-- ===== src/Text/Handler/Laws.antt =====
-- Handler.Pseudonymize: its answer against the mapping of the session.
use palena_litellm_pseudonym.Base.{
  ℕ, ◌≡◌, inl, inr, refl, sym, ap, ◌∙◌, true, false, List, [], ◌∷◌, ◌++◌, append-nil, arith,
  Bool-cases, length, In,
}
use palena_litellm_pseudonym.GoLib.Strings.{Str, is_empty, text_eq, text_eq_iff}
use palena_litellm_pseudonym.GoLib.Dict.{get, keys, In-keys_of_get, get_of_In-keys}
use palena_litellm_pseudonym.GoLib.Unicode.{Unicode, lower, trim_space}
use palena_litellm_pseudonym.Errs.{ok, Task, >>=-eq-ok}
use palena_litellm_pseudonym.Mapping.Merge.{Mapping}
use palena_litellm_pseudonym.Presidio.{Detection}
use palena_litellm_pseudonym.Text.Assign.{has_case_insensitive_key, assign_new}
use palena_litellm_pseudonym.Text.Assign.Covers.{assign_new-covers}
use palena_litellm_pseudonym.Text.Handler.{
  Store, Handler, PseudonymizeResult, filter_all, finish, add_new, last_step, assign_step,
  detected_step, pseudonymize_filtered, pseudonymize,
}
use palena_litellm_pseudonym.Text.Replacer.{replace}

has_key_of_In :
    (u : Unicode) (m : Mapping) (k key : Str)
    → In k (keys m)
    → lower u k ≡ lower u key
    → has_case_insensitive_key u m key ≡ true
unfolding has_case_insensitive_key
has_key_of_In u [] k key h e = absurd h
has_key_of_In u ((j, v) ∷ m) k key (inl same) e =
    let here : text_eq (lower u j) (lower u key) ≡ true =
      (text_eq_iff (lower u j) (lower u key)).1 (ap (lower u) (sym same) ∙ e) in
    rw here refl
has_key_of_In u ((j, v) ∷ m) k key (inr later) e = ground (arith, has_key_of_In u m k key later e)

key_of_has_key :
    (u : Unicode) (m : Mapping) (key : Str)
    → has_case_insensitive_key u m key ≡ true
    → (k : Str) × In k (keys m) × (lower u k ≡ lower u key)
unfolding has_case_insensitive_key
key_of_has_key u [] key h = absurd (cc)
key_of_has_key u ((j, v) ∷ m) key h = elim (Bool-cases (text_eq (lower u j) (lower u key))) [
  | inl here ↦ (j, inl refl, (text_eq_iff (lower u j) (lower u key)).0 here)
  | inr differ ↦ let (k, there, e) = key_of_has_key u m key (ground arith) in (k, inr there, e)
]

-- A mapping that reads alike knows the same names.
pub has_key-cong :
    (u : Unicode) (m n : Mapping) (key : Str)
    → ((k : Str) → get k n ≡ get k m)
    → has_case_insensitive_key u m key ≡ true
    → has_case_insensitive_key u n key ≡ true
has_key-cong u m n key alike h =
    let (k, there, e) = key_of_has_key u m key h in
    let (v, found) = get_of_In-keys k m there in
    has_key_of_In u n k key (In-keys_of_get k n v (alike k ∙ found)) e

-- What a store promises when nothing else writes between the calls of a request: AddMappings after
-- GetMapping answers with the existing entries and the new ones, the existing ones first.
pub record IsStore (st : Store) : Type 0 where
  pub adds :
      (session_id : Str) (s s' s'' : st.World) (existing new_map merged : Mapping)
      → st.get_mapping session_id s ≡ (s', ok existing)
      → st.add_mappings session_id new_map s' ≡ (s'', ok merged)
      → (k : Str) → get k merged ≡ get k (existing ++ new_map)

module _ (u : Unicode) (mac : Str → Str → List ℕ) (h : Handler) (st : Store)
    (detect : Str → Task st.World (List Detection)) where
  Covered : Str → List Detection → PseudonymizeResult → Type 0
  Covered text filtered res =
      (merged : Mapping) × (res.text ≡ replace u text merged)
      × ((d : Detection)
          → In d filtered
          → is_empty (trim_space u d.text) ≡ false
          → has_case_insensitive_key u merged (trim_space u d.text) ≡ true)

  add_new-get :
      (lawful : IsStore st) (session_id : Str) (s s' s'' : st.World)
      (existing new_map merged : Mapping)
      → st.get_mapping session_id s ≡ (s', ok existing)
      → add_new u mac h st detect session_id existing new_map s' ≡ (s'', ok merged)
      → (k : Str) → get k merged ≡ get k (existing ++ new_map)
  unfolding add_new
  add_new-get lawful session_id s s' s'' existing [] merged got added k =
      let same : existing ≡ merged = ground arith in
      ap (get k) (sym same ∙ sym (append-nil existing))
  add_new-get lawful session_id s s' s'' existing (e ∷ new_map) merged got added k =
      lawful.adds session_id s s' s'' existing (e ∷ new_map) merged got added k

  filtered-Covered :
      (lawful : IsStore st) (text session_id : Str) (filtered : List Detection) (s s' : st.World)
      (res : PseudonymizeResult)
      → pseudonymize_filtered u mac h st detect text session_id filtered s ≡ (s', ok res)
      → Covered text filtered res
  unfolding pseudonymize_filtered assign_step last_step finish Covered
  filtered-Covered lawful text session_id [] s s' res e =
      let (t, merged, got, done) =
        >>=-eq-ok (st.get_mapping session_id) (last_step u mac h st detect text [] 0) s e in
      (merged, ground arith, λ d m. absurd m)
  filtered-Covered lawful text session_id (d ∷ filtered) s s' res e =
      let (t, existing, got, next) =
        >>=-eq-ok (st.get_mapping session_id)
          (assign_step u mac h st detect text session_id (d ∷ filtered)) s e in
      let new_map = assign_new u mac h.settings (d ∷ filtered) existing (lower u text) in
      let (t', merged, added, done) =
        >>=-eq-ok (add_new u mac h st detect session_id existing new_map)
          (last_step u mac h st detect text (d ∷ filtered) (length new_map)) t next in
      (
        merged,
        ground arith,
        λ x m full.
            has_key-cong u (existing ++ new_map) merged (trim_space u x.text)
              (add_new-get lawful session_id s t t' existing new_map merged got added)
              (assign_new-covers u mac h.settings (d ∷ filtered) existing (lower u text) x m full),
      )

  -- Over a store that keeps its promise, the text that Pseudonymize returns is the input rewritten
  -- by a mapping in which every detection that passes the filters has a key, up to case.
  pub pseudonymize-covers :
      (text session_id : Str) (s s' : st.World) (res : PseudonymizeResult)
      → IsStore st
      → is_empty (trim_space u text) ≡ false
      → pseudonymize u mac h st detect text session_id s ≡ (s', ok res)
      → (t : st.World) × (detections : List Detection) × (merged : Mapping) × (detect text s
          ≡ (t, ok detections))
        × (res.text ≡ replace u text merged)
        × ((d : Detection)
            → In d (filter_all u h detections)
            → is_empty (trim_space u d.text) ≡ false
            → has_case_insensitive_key u merged (trim_space u d.text) ≡ true)
  unfolding pseudonymize detected_step Covered
  pseudonymize-covers text session_id s s' res lawful full e =
      let e' = rw full at e in
      let (t, detections, found, next) =
        >>=-eq-ok (detect text) (detected_step u mac h st detect text session_id) s e' in
      let (merged, same, known) =
        filtered-Covered lawful text session_id (filter_all u h detections) t s' res next in
      (t, detections, merged, found, same, known)
