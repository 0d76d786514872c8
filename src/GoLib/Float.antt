-- ===== src/GoLib/Float.antt =====
-- The float64 of Go where a configuration reads one: ParseFloat also accepts NaN and the infinities. A
-- finite number is in fixed-point units.
use palena_litellm_pseudonym.Base.{
  ◌≡◌, ◌⊎◌, inl, inr, refl, Bool, true, false, ◌||◌, not, arith, if◌then◌else◌,
}
use palena_litellm_pseudonym.GoLib.Int.{ℤ, pos, negsuc, ltbℤ}

pub data Float : Type 0 where
  nan neg_inf pos_inf : Float
  fixed : ℤ → Float

abbrev pub is_nan : Float → Bool
is_nan nan = true
is_nan neg_inf = false
is_nan pos_inf = false
is_nan (fixed a) = false

-- The comparison a < b, false with a NaN.
abbrev pub lt_float : Float → Float → Bool
lt_float nan b = false
lt_float neg_inf nan = false
lt_float neg_inf neg_inf = false
lt_float neg_inf pos_inf = true
lt_float neg_inf (fixed b) = true
lt_float pos_inf b = false
lt_float (fixed a) nan = false
lt_float (fixed a) neg_inf = false
lt_float (fixed a) pos_inf = true
lt_float (fixed a) (fixed b) = ltbℤ a b

-- The comparison a <= b.
abbrev pub le_float : Float → Float → Bool
le_float nan b = false
le_float neg_inf nan = false
le_float neg_inf neg_inf = true
le_float neg_inf pos_inf = true
le_float neg_inf (fixed b) = true
le_float pos_inf nan = false
le_float pos_inf neg_inf = false
le_float pos_inf pos_inf = true
le_float pos_inf (fixed b) = false
le_float (fixed a) nan = false
le_float (fixed a) neg_inf = false
le_float (fixed a) pos_inf = true
le_float (fixed a) (fixed b) = not (ltbℤ b a)

-- The builtin min: NaN if one of the two is.
abbrev pub min_float : Float → Float → Float
min_float a b = if is_nan a || is_nan b then nan else if lt_float b a then b else a

le_fixed :
    (a b : ℤ)
    → (le_float (if ltbℤ b a then fixed b else fixed a) (fixed a) ≡ true)
      × (le_float (if ltbℤ b a then fixed b else fixed a) (fixed b) ≡ true)
le_fixed (pos a) (pos b) = (ground arith, ground arith)
le_fixed (pos a) (negsuc b) = (refl, ground arith)
le_fixed (negsuc a) (pos b) = (ground arith, refl)
le_fixed (negsuc a) (negsuc b) = (ground arith, ground arith)

-- The smaller of two is at most each, unless it is NaN.
pub min_float-le :
    (a b : Float)
    → (min_float a b ≡ nan)
      ⊎ ((le_float (min_float a b) a ≡ true) × (le_float (min_float a b) b ≡ true))
min_float-le nan b = inl refl
min_float-le neg_inf nan = inl refl
min_float-le neg_inf neg_inf = inr (refl, refl)
min_float-le neg_inf pos_inf = inr (refl, refl)
min_float-le neg_inf (fixed b) = inr (refl, refl)
min_float-le pos_inf nan = inl refl
min_float-le pos_inf neg_inf = inr (refl, refl)
min_float-le pos_inf pos_inf = inr (refl, refl)
min_float-le pos_inf (fixed (pos b)) = inr (refl, ground arith)
min_float-le pos_inf (fixed (negsuc b)) = inr (refl, ground arith)
min_float-le (fixed a) nan = inl refl
min_float-le (fixed a) neg_inf = inr (refl, refl)
min_float-le (fixed (pos a)) pos_inf = inr (ground arith, refl)
min_float-le (fixed (negsuc a)) pos_inf = inr (ground arith, refl)
min_float-le (fixed a) (fixed b) = inr (le_fixed a b)

le_trans : (a b x : ℤ) → not (ltbℤ b a) ≡ true → not (ltbℤ x b) ≡ true → not (ltbℤ x a) ≡ true
le_trans (pos a) (pos b) (pos x) p q = ground arith
le_trans (pos a) (pos b) (negsuc x) p q = absurd (cc)
le_trans (pos a) (negsuc b) x p q = absurd (cc)
le_trans (negsuc a) (pos b) (pos x) p q = refl
le_trans (negsuc a) (pos b) (negsuc x) p q = absurd (cc)
le_trans (negsuc a) (negsuc b) (pos x) p q = refl
le_trans (negsuc a) (negsuc b) (negsuc x) p q = ground arith

pub le_float_trans :
    (a b x : Float) → le_float a b ≡ true → le_float b x ≡ true → le_float a x ≡ true
le_float_trans nan b x p q = absurd (cc)
le_float_trans neg_inf b neg_inf p q = refl
le_float_trans neg_inf b pos_inf p q = refl
le_float_trans neg_inf b (fixed x) p q = refl
le_float_trans neg_inf nan nan p q = absurd (cc)
le_float_trans neg_inf neg_inf nan p q = absurd (cc)
le_float_trans neg_inf pos_inf nan p q = absurd (cc)
le_float_trans neg_inf (fixed b) nan p q = absurd (cc)
le_float_trans pos_inf nan x p q = absurd (cc)
le_float_trans pos_inf neg_inf x p q = absurd (cc)
le_float_trans pos_inf (fixed b) x p q = absurd (cc)
le_float_trans pos_inf pos_inf x p q = q
le_float_trans (fixed a) nan x p q = absurd (cc)
le_float_trans (fixed a) neg_inf x p q = absurd (cc)
le_float_trans (fixed a) pos_inf nan p q = absurd (cc)
le_float_trans (fixed a) pos_inf neg_inf p q = absurd (cc)
le_float_trans (fixed a) pos_inf pos_inf p q = refl
le_float_trans (fixed a) pos_inf (fixed x) p q = absurd (cc)
le_float_trans (fixed a) (fixed b) nan p q = absurd (cc)
le_float_trans (fixed a) (fixed b) neg_inf p q = absurd (cc)
le_float_trans (fixed a) (fixed b) pos_inf p q = refl
le_float_trans (fixed a) (fixed b) (fixed x) p q = le_trans a b x p q
