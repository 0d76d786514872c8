-- ===== src/GoLib/Decimal.antt =====
-- fmt's %d and strconv.Atoi, on digits of ASCII.
use palena_litellm_pseudonym.Base.{
  ℕ, zero, suc, ◌+◌, ◌-◌, ◌*◌, ◌/◌, ◌%◌, ◌^◌, ◌≤◌, ◌<◌, ◌≡◌, refl, ap, sym, ◌∙◌, Bool, true, ◌&&◌,
  [], ◌∷◌, ◌++◌, Option, none, some, arith, ltb, leb, if◌then◌else◌, all, Bool-cases, inl, inr,
}
use palena_litellm_pseudonym.GoLib.Strings.{Str, codes}

digits_of : ℕ → ℕ → Str
digits_of zero n = []
digits_of (suc fuel) n =
    let more = digits_of fuel (n / 10) ++ (b'0' + n % 10) ∷ [] in
    if ltb n 10 then (b'0' + n) ∷ [] else more

-- fmt.Sprintf("%d", n)
unfoldable pub decimal : ℕ → Str
unfolding digits_of
decimal n = digits_of (suc n) n

abbrev pub is_digit : ℕ → Bool
is_digit c = leb b'0' c && leb c b'9'

value_from : ℕ → Str → ℕ
value_from acc [] = acc
value_from acc (c ∷ s) = value_from (acc * 10 + (c - b'0')) s

-- The number that a list of digits writes.
unfoldable pub value : Str → ℕ
unfolding value_from
value s = value_from 0 s

abbrev pub max_int : ℕ
max_int = 2 ^ 63 - 1

-- strconv.Atoi on a text that matches \d+: it fails out of the range of int.
unfoldable pub atoi : Str → Option ℕ
unfolding value
atoi s = if leb (value s) max_int then some (value s) else none

value_from-append :
    (acc : ℕ) (s t : Str) → value_from acc (s ++ t) ≡ value_from (value_from acc s) t
unfolding value_from
value_from-append acc [] t = refl
value_from-append acc (c ∷ s) t = value_from-append (acc * 10 + (c - b'0')) s t

value_from-digits_of : (fuel n : ℕ) → n < fuel → value_from 0 (digits_of fuel n) ≡ n
unfolding digits_of value_from
value_from-digits_of zero n h = absurd (omega arith)
value_from-digits_of (suc fuel) n h = elim (Bool-cases (ltb n 10)) [
  | inl small ↦ rw small (omega arith)
  | inr large ↦
      let ten : 10 ≤ n = ground arith in
      let ih : value_from 0 (digits_of fuel (n / 10)) ≡ n / 10 =
        value_from-digits_of fuel (n / 10) (omega arith) in
      rw large (rw value_from-append (rw ih (omega arith)))
]

-- Reading back what was written gives the number.
pub value-decimal : (n : ℕ) → value (decimal n) ≡ n
unfolding value decimal
value-decimal n = value_from-digits_of (suc n) n (omega arith)

-- Different numbers are written differently.
pub decimal_injective : (m n : ℕ) → decimal m ≡ decimal n → m ≡ n
decimal_injective m n e = sym (value-decimal m) ∙ ap value e ∙ value-decimal n

all-append : (p : ℕ → Bool) (s t : Str) → all p s ≡ true → all p t ≡ true → all p (s ++ t) ≡ true
all-append p [] t h k = k
all-append p (c ∷ s) t h k = ground (arith, all-append p s t)

all-digits_of : (fuel n : ℕ) → all is_digit (digits_of fuel n) ≡ true
unfolding digits_of
all-digits_of zero n = refl
all-digits_of (suc fuel) n = elim (Bool-cases (ltb n 10)) [
  | inl small ↦ rw small (ground arith)
  | inr large ↦ rw large (
      all-append is_digit (digits_of fuel (n / 10)) ((b'0' + n % 10) ∷ [])
        (all-digits_of fuel (n / 10)) (ground arith))
]

-- A written number consists of digits.
pub all-decimal : (n : ℕ) → all is_digit (decimal n) ≡ true
unfolding decimal
all-decimal n = all-digits_of (suc n) n

digits_of-cons : (fuel n : ℕ) → (c : ℕ) × (s : Str) × (digits_of (suc fuel) n ≡ c ∷ s)
unfolding digits_of
digits_of-cons fuel n = elim (Bool-cases (ltb n 10)) [
  | inl small ↦ (b'0' + n, [], rw small)
  | inr large ↦
      let (c, s, e) = head_of (digits_of fuel (n / 10)) (b'0' + n % 10) in (c, s, rw large e)
]
  where
    head_of : (s : Str) (d : ℕ) → (c : ℕ) × (t : Str) × (s ++ d ∷ [] ≡ c ∷ t)
    head_of [] d = (d, [], refl)
    head_of (c ∷ s) d = (c, s ++ d ∷ [], refl)

-- A written number has a first digit.
pub decimal-cons : (n : ℕ) → (c : ℕ) × (s : Str) × (decimal n ≡ c ∷ s)
unfolding decimal
decimal-cons n = digits_of-cons n n

decimal_107 : decimal 107 ≡ codes "107"
unfolding decimal
decimal_107 = refl
