-- ===== src/Tests/Samples.antt =====
-- Concrete parameters for the runs: the ASCII part of the Unicode tables, a keyed hash, a Redis server
-- that is always reachable, and a JSON of words that end in a zero.
use palena_litellm_pseudonym.Base.{
  ℕ, zero, suc, ◌+◌, ◌-◌, ◌<◌, ◌≡◌, ◌≢◌, inl, inr, refl, sym, ap, ◌∙◌, Bool, true, false, ◌&&◌,
  ◌||◌, not, List, [], ◌∷◌, ◌++◌, map, append_assoc, append-nil, Option, none, some, arith, leb,
  ◌==◌, if◌then◌else◌, Bool-cases, length,
}
use palena_litellm_pseudonym.GoLib.Strings.{Str, text_eq, text_eq_iff, text_eq_refl, text_eq-false}
use palena_litellm_pseudonym.GoLib.Dict.{get, put, has, get-put_self}
use palena_litellm_pseudonym.GoLib.Unicode.{Unicode}
use mathlib.Core.Option
use palena_litellm_pseudonym.Mapping.Interface.{Redis, Json}

abbrev is_upper_ascii : ℕ → Bool
is_upper_ascii c = leb b'A' c && leb c b'Z'

abbrev is_lower_ascii : ℕ → Bool
is_lower_ascii c = leb b'a' c && leb c b'z'

abbrev lower_ascii : ℕ → ℕ
lower_ascii c = if is_upper_ascii c then c + 32 else c

abbrev upper_ascii : ℕ → ℕ
upper_ascii c = if is_lower_ascii c then c - 32 else c

abbrev is_letter_ascii : ℕ → Bool
is_letter_ascii c = is_upper_ascii c || is_lower_ascii c

abbrev is_space_ascii : ℕ → Bool
is_space_ascii c = c == 32 || (leb 9 c && leb c 13)

pub lower_ascii-digit : (d : ℕ) → d < 10 → lower_ascii (b'0' + d) ≡ b'0' + d
lower_ascii-digit d h = ground arith

pub lower_ascii_twice : (c : ℕ) → lower_ascii (lower_ascii c) ≡ lower_ascii c
lower_ascii_twice c = ground arith

pub is_space_ascii-letter : (c : ℕ) → is_space_ascii c ≡ true → is_letter_ascii c ≡ false
is_space_ascii-letter c h = ground arith

abbrev pub ascii : Unicode
ascii = record {
  is_letter = is_letter_ascii;
  is_digit = λ c. leb b'0' c && leb c b'9';
  is_upper = is_upper_ascii;
  is_lower = is_lower_ascii;
  is_space = is_space_ascii;
  to_lower = lower_ascii;
  to_upper = upper_ascii;
  fold = lower_ascii;
  lower_digit = lower_ascii-digit;
  lower_twice = lower_ascii_twice;
  space-not-letter = is_space_ascii-letter;
}

pub apart_of_test : (s t : Str) → text_eq s t ≡ false → s ≢ t
apart_of_test s t h e = let same = (text_eq_iff s t).1 e in cc

abbrev pub plain_mac : Str → Str → List ℕ
plain_mac secret value = value ++ secret

-- Words, each ended by a zero.
abbrev written : List (Str × Str) → Str
written [] = []
written ((k, v) ∷ m) = map suc k ++ (0 ∷ (map suc v ++ (0 ∷ written m)))

abbrev words : Str → Str → List Str
words acc [] = []
words acc (zero ∷ s) = acc ∷ words [] s
words acc (suc c ∷ s) = words (acc ++ c ∷ []) s

abbrev pairs : List Str → Option (List (Str × Str))
pairs [] = some []
pairs (k ∷ []) = none
pairs (k ∷ v ∷ rest) = Option.map (◌∷◌ (k, v)) (pairs rest)

words-written :
    (acc s rest : Str) → words acc (map suc s ++ (0 ∷ rest)) ≡ (acc ++ s) ∷ words [] rest
words-written acc [] rest = ap (λ a. a ∷ words [] rest) (sym (append-nil acc))
words-written acc (c ∷ s) rest =
    words-written (acc ++ c ∷ []) s rest ∙ ap (λ a. a ∷ words [] rest) (append_assoc acc (c ∷ []) s)

pub read_back : (m : List (Str × Str)) → pairs (words [] (written m)) ≡ some m
read_back [] = refl
read_back ((k, v) ∷ m) =
    ap pairs (
      words-written [] k (map suc v ++ (0 ∷ written m))
      ∙ ap (◌∷◌ k) (words-written [] v (written m)))
    ∙ ap (Option.map (◌∷◌ (k, v))) (read_back m)

pub plain-is_set :
    (k : Str) (t m : List (Str × Str)) → pairs (words [] (written t)) ≡ some m → has k t ≡ has k m
plain-is_set k t m e = ap (has k) (Option.some-injective t m (sym (read_back t) ∙ e))

pub plain-assign :
    (k v : Str) (t m : List (Str × Str))
    → pairs (words [] (written t)) ≡ some m
    → (m' : List (Str × Str)) × (pairs (words [] (written (put k v t))) ≡ some m')
      × ((i : Str) → get i m' ≡ get i (put k v m))
plain-assign k v t m e = (
  put k v t,
  read_back (put k v t),
  λ i. ap (λ x. get i (put k v x)) (Option.some-injective t m (sym (read_back t) ∙ e)),
)

-- Tables are mappings, and there is one way of writing and reading.
abbrev pub plain_json : Json
plain_json = record {
  decode = λ s. pairs (words [] s);
  Table = List (Str × Str);
  no_table = [];
  cjson_decode = λ s. pairs (words [] s);
  cjson_encode = written;
  is_set = has;
  assign = put;
  decode-no_table = refl;
  is_set-decode = plain-is_set;
  decode-assign = plain-assign;
  decode-alike =
      λ raw t m a b. (t, read_back t, λ i. ap (get i) (Option.some-injective t m (sym a ∙ b)));
  cjson_decode_of_get = λ raw k v m e h. (m, e);
}

abbrev pub Memory : Type 0
Memory = Str → List (Str × Str)

abbrev pub empty_memory : Memory
empty_memory k = []

abbrev at_key : Str → List (Str × Str) → Memory → Memory
at_key k hash s k' = if text_eq k k' then hash else s k'

abbrev expire_memory : Str → ℕ → Memory → Memory
expire_memory k n s = if n == 0 then at_key k [] s else s

abbrev holds_memory : Str → Memory → Bool
holds_memory k s = not (length (s k) == 0)

module _ (k : Str) (hash : List (Str × Str)) (s : Memory) where
  pub at_key_self : at_key k hash s k ≡ hash
  at_key_self = rw text_eq_refl

  pub at_key_ne : (k' : Str) → k ≢ k' → at_key k hash s k' ≡ s k'
  at_key_ne k' apart = rw (text_eq-false k k' apart) refl

pub get_cleared : (k f : Str) (s : Memory) → get f (at_key k [] s k) ≡ none
unfolding get
get_cleared k f s = ap (get f) (at_key_self k [] s)

pub expire_memory_pos : (k k' : Str) (n : ℕ) (s : Memory) → 0 < n → expire_memory k n s k' ≡ s k'
expire_memory_pos k k' n s h = ground arith

pub holds_get : (k f v : Str) (s : Memory) → get f (s k) ≡ some v → holds_memory k s ≡ true
unfolding get
holds_get k f v s h = nonempty (s k) h
  where
    nonempty : (m : List (Str × Str)) → get f m ≡ some v → not (length m == 0) ≡ true
    nonempty [] e = absurd (cc)
    nonempty (e ∷ m) _ = ground arith

pub expire_ne :
    (k k' f : Str) (n : ℕ) (s : Memory) → k ≢ k' → get f (expire_memory k n s k') ≡ get f (s k')
expire_ne k k' f n s apart = elim (Bool-cases (n == 0)) [
  | inl gone ↦ rw gone (ap (get f) (at_key_ne k [] s k' apart))
  | inr kept ↦ rw kept refl
]

abbrev pub memory_redis : Redis
memory_redis = record {
  Server = Memory;
  reachable = λ s. true;
  hget = λ k f s. get f (s k);
  hset = λ k f v s. at_key k (put f v (s k)) s;
  expire = expire_memory;
  refresh = expire_memory;
  del = λ k s. at_key k [] s;
  holds = holds_memory;
  hget-hset_self = λ k f v s. ap (get f) (at_key_self k (put f v (s k)) s) ∙ get-put_self f v (s k);
  hget-hset_ne = λ k k' f f' v s apart. ap (get f') (at_key_ne k (put f v (s k)) s k' apart);
  hget-expire_pos = λ k k' f n s h. ap (get f) (expire_memory_pos k k' n s h);
  hget-expire_zero = get_cleared;
  hget-expire_ne = expire_ne;
  hget-refresh = λ k k' f n s h. ap (get f) (expire_memory_pos k k' n s h);
  hget-del_self = get_cleared;
  hget-del_ne = λ k k' f s apart. ap (get f) (at_key_ne k [] s k' apart);
  holds_of_hget = holds_get;
}
