-- ===== src/GoLib/Strings.antt =====
-- Package strings on lists of code points: comparison, search, lengths in bytes.
use palena_litellm_pseudonym.Base.{
  ◌<◌, ℕ, ◌+◌, ◌≡◌, ◌≢◌, ◌↔◌, refl, ap, sym, subst, Bool, true, false, ◌&&◌, ◌||◌, List, [], ◌∷◌,
  ◌++◌, arith, ltb, ◌==◌, if◌then◌else◌, Bool-cases, In, In-append_left, In-append_right, map, inl,
  inr,
}
use Prim.Native.Char.{code}
use Prim.Native.String.{String}

abbrev pub Str : Type 0
Str = List ℕ

-- A literal of the source.
abbrev pub codes : String → Str
codes String.[] = []
codes (String.◌∷◌ c s) = code c ∷ codes s

abbrev pub raw_byte : ℕ → ℕ
raw_byte b = 0x110000 + b

abbrev pub replacement_char : ℕ
replacement_char = 0xFFFD

-- utf8.RuneLen; an undecodable byte has width 1.
abbrev pub width : ℕ → ℕ
width c =
    if ltb c 0x80
    then 1
    else if ltb c 0x800
    then 2
    else if ltb c 0x10000
    then 3
    else if ltb c 0x110000
    then 4
    else 1

-- len(s)
unfoldable pub byte_len : Str → ℕ
byte_len [] = 0
byte_len (c ∷ s) = width c + byte_len s

abbrev pub is_empty : Str → Bool
is_empty [] = true
is_empty (c ∷ s) = false

-- s == t
unfoldable pub text_eq : Str → Str → Bool
text_eq [] [] = true
text_eq [] (d ∷ t) = false
text_eq (c ∷ s) [] = false
text_eq (c ∷ s) (d ∷ t) = c == d && text_eq s t

pub text_eq_iff : (s t : Str) → (text_eq s t ≡ true) ↔ (s ≡ t)
unfolding text_eq
text_eq_iff [] [] = (λ _. refl, λ _. refl)
text_eq_iff [] (d ∷ t) = (λ h. cc, λ h. cc)
text_eq_iff (c ∷ s) [] = (λ h. cc, λ h. cc)
text_eq_iff (c ∷ s) (d ∷ t) =
    (λ h. ground (arith, text_eq_iff s t), λ h. ground (arith, text_eq_iff s t))

pub text_eq_refl : (s : Str) → text_eq s s ≡ true
text_eq_refl s = (text_eq_iff s s).1 refl

pub text_eq-false : (s t : Str) → s ≢ t → text_eq s t ≡ false
text_eq-false s t h = ground (arith, text_eq_iff s t)

-- strings.HasPrefix(s, p), with the prefix first.
unfoldable pub starts_with : Str → Str → Bool
starts_with [] s = true
starts_with (c ∷ p) [] = false
starts_with (c ∷ p) (d ∷ s) = c == d && starts_with p s

-- strings.Contains(s, t)
unfoldable pub contains : Str → Str → Bool
unfolding starts_with
contains [] t = starts_with t []
contains (c ∷ s) t = starts_with t (c ∷ s) || contains s t

-- Whether s[i] is in the list.
unfoldable pub elem : Str → List Str → Bool
unfolding text_eq
elem s [] = false
elem s (t ∷ ts) = text_eq s t || elem s ts

pub elem_iff : (s : Str) (ts : List Str) → (elem s ts ≡ true) ↔ In s ts
unfolding elem
elem_iff s [] = (λ h. absurd (cc), λ h. absurd h)
elem_iff s (t ∷ ts) = (
  λ h. ground (arith, text_eq_iff s t, elem_iff s ts),
  λ h. ground (arith, text_eq_iff s t, elem_iff s ts),
)

prefixes : Str → List Str
prefixes [] = [] ∷ []
prefixes (c ∷ s) = [] ∷ map (◌∷◌ c) (prefixes s)

-- Every text that occurs in `s`, some of them more than once.
unfoldable pub infixes : Str → List Str
unfolding prefixes
infixes [] = [] ∷ []
infixes (c ∷ s) = prefixes (c ∷ s) ++ infixes s

In-map_cons : (c : ℕ) (t : Str) (ts : List Str) → In t ts → In (c ∷ t) (map (◌∷◌ c) ts)
In-map_cons c t (u ∷ ts) m = elim m [
  | inl e ↦ inl (ap (◌∷◌ c) e)
  | inr k ↦ inr (In-map_cons c t ts k)
]
In-map_cons c t [] m = absurd m

In-prefixes : (t s : Str) → starts_with t s ≡ true → In t (prefixes s)
unfolding starts_with prefixes
In-prefixes [] [] h = inl refl
In-prefixes [] (d ∷ s) h = inl refl
In-prefixes (c ∷ t) [] h = absurd (cc)
In-prefixes (c ∷ t) (d ∷ s) h =
    let same : c ≡ d = ground arith in
    let rest : starts_with t s ≡ true = ground arith in
    inr (
      subst (λ x. In (x ∷ t) (map (◌∷◌ d) (prefixes s))) (sym same)
        (In-map_cons d t (prefixes s) (In-prefixes t s rest)))

-- A text that occurs in `s` is one of its infixes.
pub In-infixes : (s t : Str) → contains s t ≡ true → In t (infixes s)
unfolding contains infixes
In-infixes [] t h = elim (prefix_nil t h) [ inl e ↦ inl e | inr b ↦ absurd b ]
  where
    prefix_nil : (t : Str) → starts_with t [] ≡ true → In t ([] ∷ [])
    prefix_nil [] h = inl refl
    prefix_nil (c ∷ t) h = absurd (cc)
In-infixes (c ∷ s) t h = elim (Bool-cases (starts_with t (c ∷ s))) [
  | inl here ↦ In-append_left t (prefixes (c ∷ s)) (infixes s) (In-prefixes t (c ∷ s) here)
  | inr miss ↦ In-append_right t (prefixes (c ∷ s)) (infixes s) (In-infixes s t (ground arith))
]

pub width_pos : (c : ℕ) → 0 < width c
width_pos c = ground arith

pub byte_len-append : (s t : Str) → byte_len (s ++ t) ≡ byte_len s + byte_len t
unfolding byte_len
byte_len-append [] t = omega arith
byte_len-append (c ∷ s) t = omega (arith, byte_len-append s t)
