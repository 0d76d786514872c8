-- ===== src/GoLib/Slices.antt =====
-- Slices of a string by byte offsets. The offsets that the code slices at are ends of characters.
use palena_litellm_pseudonym.Base.{
  ℕ, zero, suc, ◌+◌, ◌-◌, ◌≤◌, ◌≡◌, refl, sym, ap, ◌∙◌, false, [], ◌∷◌, ◌++◌, arith, ◌==◌,
  if◌then◌else◌, take, drop, take-append-drop,
}
use palena_litellm_pseudonym.GoLib.Strings.{Str, width, byte_len, width_pos, byte_len-append}

unfoldable pub byte_drop : ℕ → Str → Str
byte_drop n [] = []
byte_drop n (c ∷ s) = let rest = byte_drop (n - width c) s in if n == 0 then c ∷ s else rest

unfoldable pub byte_take : ℕ → Str → Str
byte_take n [] = []
byte_take n (c ∷ s) = let rest = byte_take (n - width c) s in if n == 0 then [] else c ∷ rest

-- s[a:b]
unfoldable pub byte_slice : Str → ℕ → ℕ → Str
unfolding byte_drop byte_take
byte_slice s a b = byte_take (b - a) (byte_drop a s)

byte_drop_zero : (s : Str) → byte_drop 0 s ≡ s
unfolding byte_drop
byte_drop_zero [] = refl
byte_drop_zero (c ∷ s) = refl

byte_take_zero : (s : Str) → byte_take 0 s ≡ []
unfolding byte_take
byte_take_zero [] = refl
byte_take_zero (c ∷ s) = refl

pub byte_drop-append : (s t : Str) → byte_drop (byte_len s) (s ++ t) ≡ t
unfolding byte_drop byte_len
byte_drop-append [] t = byte_drop_zero t
byte_drop-append (c ∷ s) t =
    let full : (width c + byte_len s == 0) ≡ false = let w = width_pos c in ground arith in
    let less : (width c + byte_len s) - width c ≡ byte_len s = omega arith in
    rw (byte_drop, full, less) (byte_drop-append s t)

pub byte_take-append : (s t : Str) → byte_take (byte_len s) (s ++ t) ≡ s
unfolding byte_take byte_len
byte_take-append [] t = byte_take_zero t
byte_take-append (c ∷ s) t =
    let full : (width c + byte_len s == 0) ≡ false = let w = width_pos c in ground arith in
    let less : (width c + byte_len s) - width c ≡ byte_len s = omega arith in
    rw (byte_take, full, less) (ap (◌∷◌ c) (byte_take-append s t))

-- A slice of the bytes of a middle part is the middle part.
pub byte_slice-append :
    (before part after : Str)
    → byte_slice (before ++ (part ++ after)) (byte_len before) (byte_len before + byte_len part)
      ≡ part
unfolding byte_slice
byte_slice-append before part after =
    let less : (byte_len before + byte_len part) - byte_len before ≡ byte_len part = omega arith in
    rw (byte_slice, less, byte_drop-append before (part ++ after)) (byte_take-append part after)

take_nil : (n : ℕ) → ◌≡◌ {A = Str} [] (take n [])
take_nil zero = refl
take_nil (suc n) = refl

-- A character range is the slice between the byte offsets of its ends.
pub byte_slice-take :
    (s : Str) (a b : ℕ)
    → a ≤ b
    → byte_slice s (byte_len (take a s)) (byte_len (take b s)) ≡ take (b - a) (drop a s)
unfolding byte_slice
byte_slice-take s a b h =
    let part = take (b - a) (drop a s) in
    let whole : take a s ++ (part ++ drop (b - a) (drop a s)) ≡ s =
      ap (◌++◌ (take a s)) (take-append-drop (b - a) (drop a s)) ∙ take-append-drop a s in
    let upto : take b s ≡ take a s ++ part = take-split s a b h in
    let long = byte_len-append (take a s) part in
    rw (upto, long)
      (ap (λ x. byte_slice x (byte_len (take a s)) (byte_len (take a s) + byte_len part))
          (sym whole)
        ∙ byte_slice-append (take a s) part (drop (b - a) (drop a s)))
  where
    take-split : (l : Str) (i j : ℕ) → i ≤ j → take j l ≡ take i l ++ take (j - i) (drop i l)
    take-split l zero j le = let e : j - 0 ≡ j = omega arith in rw e refl
    take-split [] (suc i) zero le = absurd (omega (arith, le))
    take-split [] (suc i) (suc j) le = take_nil (suc j - suc i)
    take-split (c ∷ l) (suc i) zero le = absurd (omega (arith, le))
    take-split (c ∷ l) (suc i) (suc j) le =
        let e : suc j - suc i ≡ j - i = omega arith in
        rw e (ap (◌∷◌ c) (take-split l i j (omega (arith, le))))
