-- ===== src/Text/NerCache/Agreement.antt =====
-- The agreement of the list and the index when an element is dropped, moved or pushed.
use palena_litellm_pseudonym.Base.{
  ℕ, suc, ◌<◌, ◌≡◌, ◌⊎◌, inl, inr, refl, sym, ap, subst, ◌∙◌, List, [], ◌∷◌, none, some, arith,
  ◌==◌, if◌then◌else◌, Bool-cases, Option-cases, ==_iff, length, length-append, In, Distinct,
  In-map,
}
use palena_litellm_pseudonym.GoLib.Int.{ℤ}
use palena_litellm_pseudonym.GoLib.Strings.{Str, text_eq, text_eq_iff, text_eq_refl}
use palena_litellm_pseudonym.GoLib.Dict.{get, put, keys, get-put, put_new, get_of_In-keys}
use palena_litellm_pseudonym.Text.NerCache.{
  CachedSpan, Element, NerCache, element_at, remove, delete_key, lookup,
}
use palena_litellm_pseudonym.Text.NerCache.Index.{
  index_of_order, ids, get-delete_key, length-delete_key, Distinct-delete_key, In-ids-remove,
  Distinct-remove, remove-gone, remove-delete_key, get-index_of_order,
}

-- The list and the index hold the same entries, one for each key, and no id comes again.
pub record Agree (order : List Element) (items : List (Str × ℕ)) (next_id : ℕ) : Type 0 where
  pub agrees : (k : Str) → get k items ≡ get k (index_of_order order)
  pub same_size : length items ≡ length order
  pub item_keys : Distinct (keys items)
  pub order_keys : Distinct (keys (index_of_order order))
  pub order_ids : Distinct (ids order)
  pub old_ids : (i : ℕ) → In i (ids order) → i < next_id

length-index : (order : List Element) → length (index_of_order order) ≡ length order
length-index [] = refl
length-index (e ∷ order) = ap suc (length-index order)

absent_key : (k : Str) (m : List (Str × ℕ)) → get k m ≡ none → ¬ In k (keys m)
absent_key k m nothing there = let (v, found) = get_of_In-keys k m there in cc

module _ (e : Element) (order : List Element) (items : List (Str × ℕ)) (next_id : ℕ)
    (m : In e order) (s : Agree order items next_id) where
  same_index : index_of_order (remove e.id order) ≡ delete_key e.key (index_of_order order)
  same_index = remove-delete_key e order m s.order_ids s.order_keys

  in_index : get e.key (index_of_order order) ≡ some e.id
  in_index = get-index_of_order e order m s.order_keys

  length-remove : suc (length (remove e.id order)) ≡ length order
  length-remove = omega (
    arith,
    length-index (remove e.id order),
    length-index order,
    ap length same_index,
    length-delete_key e.key (index_of_order order) e.id in_index,
  )

  pub dropped_size : suc (length (delete_key e.key items)) ≡ length items
  dropped_size = length-delete_key e.key items e.id (s.agrees e.key ∙ in_index)

  pub dropped : Agree (remove e.id order) (delete_key e.key items) next_id
  dropped = record {
    agrees = λ k.
        get-delete_key e.key k items s.item_keys
        ∙ ap (λ g. if text_eq e.key k then none else g) (s.agrees k)
        ∙ sym (get-delete_key e.key k (index_of_order order) s.order_keys)
        ∙ ap (get k) (sym same_index);
    same_size = omega (arith, length-remove, dropped_size, s.same_size);
    item_keys = Distinct-delete_key e.key items s.item_keys;
    order_keys =
        subst (λ x. Distinct (keys x)) (sym same_index)
          (Distinct-delete_key e.key (index_of_order order) s.order_keys);
    order_ids = Distinct-remove e.id order s.order_ids;
    old_ids = λ i h. s.old_ids i (In-ids-remove e.id i order h);
  }

  gone : get e.key (index_of_order (remove e.id order)) ≡ none
  gone =
      ap (get e.key) same_index
      ∙ get-delete_key e.key e.key (index_of_order order) s.order_keys
      ∙ rw (text_eq_refl e.key) refl

  front_agrees :
      (k : Str) → get k items ≡ get k ((e.key, e.id) ∷ index_of_order (remove e.id order))
  unfolding get
  front_agrees k = elim (Bool-cases (text_eq e.key k)) [
    | inl asked ↦ rw asked (
        s.agrees k
        ∙ ap (λ x. get x (index_of_order order)) (sym ((text_eq_iff e.key k).0 asked))
        ∙ in_index)
    | inr other ↦ rw other (
        s.agrees k
        ∙ sym (
            ap (get k) same_index
            ∙ get-delete_key e.key k (index_of_order order) s.order_keys
            ∙ rw other refl))
  ]

  -- The element moved to the front, with another life and other spans perhaps.
  pub moved :
      (expires : ℤ) (spans : List CachedSpan)
      → Agree ((record e { expires = expires; spans = spans }) ∷ remove e.id order) items next_id
  moved expires spans = record {
    agrees = front_agrees;
    same_size = omega (arith, length-remove, s.same_size);
    item_keys = s.item_keys;
    order_keys = (absent_key e.key (index_of_order (remove e.id order)) gone, dropped.order_keys);
    order_ids = (remove-gone e.id order s.order_ids, dropped.order_ids);
    old_ids = λ i h. elim h [
      | inl same ↦ rw same (s.old_ids e.id (In-map (λ x. x.id) e order m))
      | inr k ↦ dropped.old_ids i k
    ];
  }

Distinct-put :
    (k : Str) (v : ℕ) (m : List (Str × ℕ))
    → get k m ≡ none
    → Distinct (keys m)
    → Distinct (keys (put k v m))
unfolding get put
Distinct-put k v [] h d = (λ x. x, tt)
Distinct-put k v ((j, w) ∷ m) h d = elim (Bool-cases (text_eq j k)) [
  | inl same ↦ rw same d
  | inr differ ↦
      let h' : get k m ≡ none = rw differ at h in
      rw differ (
        λ there. elim (In-put j m there) [
          | inl here ↦ absurd (ground (arith, text_eq_iff j k))
          | inr old ↦ d.0 old
        ],
        Distinct-put k v m h' d.1,
      )
]
  where
    In-put : (a : Str) (m : List (Str × ℕ)) → In a (keys (put k v m)) → (a ≡ k) ⊎ In a (keys m)
    In-put a [] (inl s) = inl s
    In-put a [] (inr n) = absurd n
    In-put a ((j, w) ∷ m) there = elim (Bool-cases (text_eq j k)) [
      | inl same ↦ inr (let t = rw same at there in t)
      | inr differ ↦
          let t : In a (j ∷ keys (put k v m)) = rw differ at there in
          elim t [
            | inl s ↦ inr (inl s)
            | inr n ↦ elim (In-put a m n) [ inl s ↦ inl s | inr o ↦ inr (inr o) ]
          ]
    ]

-- A new key is pushed under the next id.
pub pushed :
    (order : List Element) (items : List (Str × ℕ)) (next_id : ℕ) (k : Str) (expires : ℤ)
    (spans : List CachedSpan)
    → Agree order items next_id
    → get k items ≡ none
    → Agree
        ((record { id = next_id; key = k; expires = expires; spans = spans }) ∷ order)
        (put k next_id items)
        (suc next_id)
pushed order items next_id k expires spans s new = record {
  agrees = λ j.
      get-put k j next_id items
      ∙ ap (λ g. if text_eq k j then some next_id else g) (s.agrees j)
      ∙ unfold get in refl;
  same_size = omega (
    arith,
    s.same_size,
    ap length (put_new k next_id items new),
    length-append items ((k, next_id) ∷ []),
  );
  item_keys = Distinct-put k next_id items new s.item_keys;
  order_keys = (absent_key k (index_of_order order) (sym (s.agrees k) ∙ new), s.order_keys);
  order_ids = (λ h. absurd (omega (arith, s.old_ids next_id h)), s.order_ids);
  old_ids =
      λ i h. elim h [ inl same ↦ omega (arith, same) | inr old ↦ omega (arith, s.old_ids i old) ];
}

element_at-In :
    (i : ℕ) (order : List Element) (e : Element) → element_at i order ≡ some e → In e order
unfolding element_at
element_at-In i [] e h = absurd (cc)
element_at-In i (x ∷ order) e h = elim (Bool-cases (x.id == i)) [
  | inl here ↦ inl (let h' = rw here at h in cc)
  | inr later ↦ inr (element_at-In i order e (let h' = rw later at h in h'))
]

element_at-index :
    (k : Str) (i : ℕ) (order : List Element)
    → get k (index_of_order order) ≡ some i
    → (e : Element) × (element_at i order ≡ some e)
unfolding element_at get
element_at-index k i [] h = absurd (cc)
element_at-index k i (x ∷ order) h = elim (Bool-cases (x.id == i)) [
  | inl here ↦ (x, rw here refl)
  | inr later ↦
      let (e, found) = element_at-index k i order (ground (arith, ==_iff x.id i)) in
      (e, rw later found)
]

pub lookup-In : (k : Str) (c : NerCache) (e : Element) → lookup k c ≡ some e → In e c.order
unfolding lookup
lookup-In k c e h = elim (Option-cases (get k c.items)) [
  | inl nothing ↦ absurd (let h' = rw (nothing, lookup) at h in cc)
  | inr (i, found) ↦ element_at-In i c.order e (let h' = rw (found, lookup) at h in h')
]

-- Where the list and the index agree, a pointer always leads to an element.
pub lookup-none :
    (k : Str) (c : NerCache)
    → Agree c.order c.items c.next_id
    → lookup k c ≡ none
    → get k c.items ≡ none
unfolding lookup
lookup-none k c s h = elim (Option-cases (get k c.items)) [
  | inl nothing ↦ nothing
  | inr (i, found) ↦
      let (e, there) = element_at-index k i c.order (sym (s.agrees k) ∙ found) in
      absurd (let h' = rw (found, lookup) at h in cc)
]
