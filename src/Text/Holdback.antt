-- ===== src/Text/Holdback.antt =====
-- internal/text/holdback.go: how many trailing characters of a streamed text are held back, because
-- they may be the beginning of a pseudonym.
use palena_litellm_pseudonym.Base.{
  ℕ, zero, suc, ◌+◌, ◌-◌, ◌≤◌, ◌<◌, ◌≡◌, ◌⊎◌, inl, inr, refl, sym, ap, subst, ◌∙◌, Bool, true,
  false, ◌&&◌, ◌||◌, not, List, [], ◌∷◌, ◌++◌, map, Option, none, some, arith, ltb, ◌==◌,
  if◌then◌else◌, Bool-cases, ==_iff, ==_refl, lt→ltb, length, drop, take, take-append-drop,
  length-take, length-drop, &&-eq-true, ltb→lt, get_elem?, any, length-append, drop-append,
  length-map, In, In-map,
}
use palena_litellm_pseudonym.GoLib.Strings.{
  Str, byte_len, is_empty, starts_with, width_pos, byte_len-append, width,
}
use palena_litellm_pseudonym.GoLib.Unicode.{Unicode, lower}
use palena_litellm_pseudonym.Text.Replacer.{is_word_context, last_of}

abbrev pub max_length : ℕ → List Str → ℕ
max_length n [] = n
max_length n (k ∷ ks) = max_length (if ltb n (length k) then length k else n) ks

abbrev is_unbound : Unicode → Option ℕ → Bool
is_unbound u none = true
is_unbound u (some c) = not (is_word_context u c)

-- A match that would begin behind the first `start` characters: the character before them does not
-- bind to the left.
unfoldable pub can_start : Unicode → Str → ℕ → Bool
can_start u buf start = if start == 0 then true else is_unbound u (get_elem? buf (start - 1))

-- The suffix is a proper prefix of the key; both are lowered.
unfoldable pub begins : Str → Str → Bool
begins suffix k = ltb (byte_len suffix) (byte_len k) && starts_with suffix k

-- Whether the last `h` characters are held back.
unfoldable pub held : Unicode → Str → List Str → ℕ → Bool
held u buf keys h =
    can_start u buf (length buf - h)
    && any (begins (lower u (drop (length buf - h) buf))) (map (lower u) keys)

-- The loop over h, downwards.
unfoldable pub holdback_from : Unicode → Str → List Str → ℕ → ℕ
holdback_from u buf keys zero = 0
holdback_from u buf keys (suc h) =
    let shorter = holdback_from u buf keys h in if held u buf keys (suc h) then suc h else shorter

unfoldable pub compute_holdback : Unicode → Str → List Str → ℕ
compute_holdback u buf keys =
    let longest = max_length 0 keys in
    if is_empty buf || length keys == 0 || ltb longest 2
    then 0
    else holdback_from u buf keys
        (if ltb (longest - 1) (length buf) then longest - 1 else length buf)

-- The loop returns a length that is held, or 0, and no longer one up to its start is held.
holdback_from_lem :
    (u : Unicode) (buf : Str) (keys : List Str) (n : ℕ)
    → (holdback_from u buf keys n ≤ n)
      × ((holdback_from u buf keys n ≡ 0) ⊎ (held u buf keys (holdback_from u buf keys n) ≡ true))
      × ((h : ℕ) → h ≤ n → held u buf keys h ≡ true → h ≤ holdback_from u buf keys n)
unfolding holdback_from
holdback_from_lem u buf keys zero = (omega arith, inl refl, λ h le _. le)
holdback_from_lem u buf keys (suc n) =
    let (small, found, largest) = holdback_from_lem u buf keys n in
    elim (Bool-cases (held u buf keys (suc n))) [
      | inl yes_held ↦ rw yes_held (omega arith, inr yes_held, λ h le _. le)
      | inr not_held ↦ rw not_held (
        omega arith,
        found,
        λ h le is_held. elim (Bool-cases (h == suc n)) [
          | inl same ↦
              let e : h ≡ suc n = (==_iff h (suc n)).0 same in
              absurd
                (let both : true ≡ false = sym is_held ∙ ap (held u buf keys) e ∙ not_held in cc)
          | inr differ ↦ largest h (ground arith) is_held
        ],
      )
    ]

max_length-le : (n : ℕ) (ks : List Str) → n ≤ max_length n ks
max_length-le n [] = omega arith
max_length-le n (k ∷ ks) =
    ground (arith, max_length-le (if ltb n (length k) then length k else n) ks)

length-le-max_length : (k : Str) (n : ℕ) (ks : List Str) → In k ks → length k ≤ max_length n ks
length-le-max_length k n [] m = absurd m
length-le-max_length k n (j ∷ ks) (inl e) =
    subst (λ x. length x ≤ max_length (if ltb n (length j) then length j else n) ks) (sym e)
      (ground (arith, max_length-le (if ltb n (length j) then length j else n) ks))
length-le-max_length k n (j ∷ ks) (inr m) =
    length-le-max_length k (if ltb n (length j) then length j else n) ks m

-- A suffix of the buffer that begins a key at a word boundary: in front of it stands nothing, or a
-- character that binds to no word, and lowered it is continued to a lowered key.
pub record Begins (u : Unicode) (buf : Str) (keys : List Str) (h : ℕ) : Type 0 where
  pub before : Str
  pub part : Str
  pub key : Str
  pub next : ℕ
  pub rest : Str
  pub split : buf ≡ before ++ part
  pub size : length part ≡ h
  pub boundary :
      (last_of none before ≡ none)
      ⊎ ((c : ℕ) × (last_of none before ≡ some c) × (is_word_context u c ≡ false))
  pub listed : In key keys
  pub continued : lower u key ≡ lower u part ++ next ∷ rest

get_elem-last :
    (s : Str) (n : ℕ) (prev : Option ℕ) → length s ≡ suc n → get_elem? s n ≡ last_of prev s
get_elem-last [] n prev e = absurd (omega (arith, e))
get_elem-last (c ∷ []) zero prev e = refl
get_elem-last (c ∷ []) (suc n) prev e = absurd (omega (arith, e))
get_elem-last (c ∷ d ∷ s) zero prev e = absurd (omega (arith, e))
get_elem-last (c ∷ d ∷ s) (suc n) prev e = get_elem-last (d ∷ s) n (some c) (omega (arith, e))

get_elem-take : (s : Str) (n i : ℕ) → i < n → get_elem? (take n s) i ≡ get_elem? s i
get_elem-take [] zero i l = refl
get_elem-take [] (suc n) i l = refl
get_elem-take (c ∷ s) zero i l = absurd (omega arith)
get_elem-take (c ∷ s) (suc n) zero l = refl
get_elem-take (c ∷ s) (suc n) (suc i) l = get_elem-take s n i (omega arith)

can_start-boundary :
    (u : Unicode) (buf : Str) (n : ℕ)
    → n ≤ length buf
    → can_start u buf n ≡ true
    → (last_of none (take n buf) ≡ none)
      ⊎ ((c : ℕ) × (last_of none (take n buf) ≡ some c) × (is_word_context u c ≡ false))
unfolding can_start
can_start-boundary u buf zero le h = inl refl
can_start-boundary u buf (suc n) le h =
    let size : length (take (suc n) buf) ≡ suc n = omega (arith, length-take (suc n) buf) in
    let here : get_elem? buf n ≡ last_of none (take (suc n) buf) =
      sym (get_elem-take buf (suc n) n (omega arith))
      ∙ get_elem-last (take (suc n) buf) n none size in
    let at : suc n - 1 ≡ n = omega arith in
    let differ : (suc n == 0) ≡ false = ground arith in
    let opened : is_unbound u (get_elem? buf (suc n - 1)) ≡ true =
      (let k = rw (differ, can_start) at h in k) in
    by_character (get_elem? buf (suc n - 1)) (ap (get_elem? buf) at ∙ here) opened
  where
    by_character :
        (o : Option ℕ)
        → o ≡ last_of none (take (suc n) buf)
        → is_unbound u o ≡ true
        → (last_of none (take (suc n) buf) ≡ none)
          ⊎ ((c : ℕ) × (last_of none (take (suc n) buf) ≡ some c) × (is_word_context u c ≡ false))
    by_character none e k = inl (sym e)
    by_character (some c) e k = inr (c, sym e, ground arith)

begins-tail : (d c : ℕ) (p k : Str) → d ≡ c → begins (d ∷ p) (c ∷ k) ≡ true → begins p k ≡ true
unfolding begins starts_with byte_len
begins-tail d c p k e h =
    let h' = subst (λ x. begins (d ∷ p) (x ∷ k) ≡ true) (sym e) h in
    let (short, prefix) = &&-eq-true _ _ h' in
    let less : width d + byte_len p < width d + byte_len k = ltb→lt _ _ short in
    let same : starts_with p k ≡ true = (let q = rw (==_refl d) at prefix in q) in
    rw (lt→ltb (byte_len p) (byte_len k) (omega arith), same) refl

begins-continued : (p k : Str) → begins p k ≡ true → (c : ℕ) × (rest : Str) × (k ≡ p ++ c ∷ rest)
unfolding begins starts_with byte_len
begins-continued [] [] h = absurd (ground arith)
begins-continued [] (c ∷ k) h = (c, k, refl)
begins-continued (d ∷ p) [] h = absurd (ground arith)
begins-continued (d ∷ p) (c ∷ k) h = elim (Bool-cases (d == c)) [
  | inr differ ↦ absurd (ground arith)
  | inl same ↦
      let e : d ≡ c = (==_iff d c).0 same in
      let inner : begins p k ≡ true = begins-tail d c p k e h in
      let (n, rest, more) = begins-continued p k inner in
      (n, rest, ap (λ x. x ∷ k) (sym e) ∙ ap (◌∷◌ d) more)
]

any-found :
    {A : Type 0} (p : A → Bool) (xs : List A) → any p xs ≡ true → (a : A) × In a xs × (p a ≡ true)
any-found p [] h = absurd (cc)
any-found p (x ∷ xs) h = elim (Bool-cases (p x)) [
  | inl yes_x ↦ (x, inl refl, yes_x)
  | inr no_x ↦ let (a, m, e) = any-found p xs (ground arith) in (a, inr m, e)
]

In-map_found :
    (f : Str → Str) (xs : List Str) (y : Str) → In y (map f xs) → (x : Str) × In x xs × (y ≡ f x)
In-map_found f [] y m = absurd m
In-map_found f (x ∷ xs) y (inl e) = (x, inl refl, e)
In-map_found f (x ∷ xs) y (inr m) = let (z, n, e) = In-map_found f xs y m in (z, inr n, e)

held-Begins :
    (u : Unicode) (buf : Str) (keys : List Str) (h : ℕ)
    → h ≤ length buf
    → held u buf keys h ≡ true
    → Begins u buf keys h
unfolding held
held-Begins u buf keys h le is_held =
    let n = length buf - h in
    let (start, found) = &&-eq-true _ _ is_held in
    let (low, listed, begun) =
      any-found (begins (lower u (drop n buf))) (map (lower u) keys) found in
    let (key, member, same) = In-map_found (lower u) keys low listed in
    let (c, rest, e) = begins-continued (lower u (drop n buf)) low begun in
    record {
      before = take n buf;
      part = drop n buf;
      key = key;
      next = c;
      rest = rest;
      split = sym (take-append-drop n buf);
      size = length-drop n buf ∙ omega arith;
      boundary = can_start-boundary u buf n (omega arith) start;
      listed = member;
      continued = sym same ∙ e;
    }

-- What is held back is at most the buffer and shorter than the longest key. Unless it is nothing, it
-- is a suffix of the buffer in front of which stands no letter, digit, underscore or apostrophe, and
-- which is, up to case, the beginning of a key that goes on behind it.
pub compute_holdback_sound :
    (u : Unicode) (buf : Str) (keys : List Str)
    → (compute_holdback u buf keys ≤ length buf)
      × ((compute_holdback u buf keys ≡ 0)
          ⊎ ((compute_holdback u buf keys < max_length 0 keys)
              × Begins u buf keys (compute_holdback u buf keys)))
unfolding compute_holdback
compute_holdback_sound u buf keys =
    let longest = max_length 0 keys in
    let bound = if ltb (longest - 1) (length buf) then longest - 1 else length buf in
    let in_buf : bound ≤ length buf = ground arith in
    let (small, found, _) = holdback_from_lem u buf keys bound in
    elim (Bool-cases (is_empty buf || length keys == 0 || ltb longest 2)) [
      | inl idle ↦ rw (idle, compute_holdback) (omega arith, inl refl)
      | inr busy ↦
          let short : bound < longest = ground arith in
          rw (busy, compute_holdback)
            (
              omega arith,
              elim found [
                | inl zero_held ↦ inl zero_held
                | inr is_held ↦ inr (omega arith, held-Begins u buf keys _ (omega arith) is_held)
              ],
            )
    ]

starts_with-append : (p q : Str) → starts_with p (p ++ q) ≡ true
unfolding starts_with
starts_with-append [] q = refl
starts_with-append (c ∷ p) q = rw (==_refl c) (starts_with-append p q)

begins-append : (p : Str) (c : ℕ) (q : Str) → begins p (p ++ c ∷ q) ≡ true
unfolding begins byte_len
begins-append p c q =
    let longer : byte_len p < byte_len (p ++ c ∷ q) =
      omega (arith, byte_len-append p (c ∷ q), width_pos c) in
    rw (lt→ltb (byte_len p) (byte_len (p ++ c ∷ q)) longer, starts_with-append p (c ∷ q)) refl

any-In : {A : Type 0} (p : A → Bool) (a : A) (xs : List A) → In a xs → p a ≡ true → any p xs ≡ true
any-In p a [] m h = absurd m
any-In p a (x ∷ xs) (inl e) h = let here : p x ≡ true = rw (← e) h in rw here refl
any-In p a (x ∷ xs) (inr m) h = ground (arith, any-In p a xs m h)

-- A pseudonym that the end of the buffer cuts is held back whole: where the buffer ends, at a word
-- boundary, in the beginning of a key, up to case, at least that beginning is held back.
pub compute_holdback_complete :
    (u : Unicode) (pre part : Str) (keys : List Str) (key : Str) (c : ℕ) (rest : Str)
    → In key keys
    → lower u key ≡ lower u part ++ c ∷ rest
    → is_empty part ≡ false
    → can_start u (pre ++ part) (length pre) ≡ true
    → length part ≤ compute_holdback u (pre ++ part) keys
unfolding compute_holdback held
compute_holdback_complete u pre part keys key c rest member cut full start =
    let buf = pre ++ part in
    let h = length part in
    let longest = max_length 0 keys in
    let bound = if ltb (longest - 1) (length buf) then longest - 1 else length buf in
    let total : length buf ≡ length pre + h = length-append pre part in
    let at : length buf - h ≡ length pre = omega arith in
    let nonempty : 0 < h = length_pos part full in
    let key_length : length key ≡ h + suc (length rest) =
      sym (length-map u.to_lower key)
      ∙ ap length cut
      ∙ length-append (lower u part) (c ∷ rest)
      ∙ ap (λ n. n + suc (length rest)) (length-map u.to_lower part) in
    let fits : length key ≤ longest = length-le-max_length key 0 keys member in
    let in_range : h ≤ bound = ground arith in
    let is_begin : begins (lower u part) (lower u key) ≡ true =
      subst (λ k. begins (lower u part) k ≡ true) (sym cut) (begins-append (lower u part) c rest) in
    let found : any (begins (lower u part)) (map (lower u) keys) ≡ true =
      any-In (begins (lower u part)) (lower u key) (map (lower u) keys)
        (In-map (lower u) key keys member) is_begin in
    let is_held : held u buf keys h ≡ true =
      rw at (rw (drop-append pre part) (rw start (rw found refl))) in
    let busy : (is_empty buf || length keys == 0 || ltb longest 2) ≡ false =
      busy_lem buf keys longest (omega arith) (length_pos_of_In key keys member) (omega arith) in
    rw busy ((holdback_from_lem u buf keys bound).2 h in_range is_held)
  where
    length_pos : (s : Str) → is_empty s ≡ false → 0 < length s
    length_pos [] e = absurd (cc)
    length_pos (c ∷ s) e = omega arith

    length_pos_of_In : (k : Str) (ks : List Str) → In k ks → 0 < length ks
    length_pos_of_In k [] m = absurd m
    length_pos_of_In k (j ∷ ks) m = omega arith

    busy_lem :
        (buf : Str) (ks : List Str) (n : ℕ)
        → 0 < length buf
        → 0 < length ks
        → 2 ≤ n
        → (is_empty buf || length ks == 0 || ltb n 2) ≡ false
    busy_lem [] ks n b k l = absurd (omega arith)
    busy_lem (c ∷ buf) ks n b k l = ground arith
