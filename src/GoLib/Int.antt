-- ===== src/GoLib/Int.antt =====
-- The int and int64 of Go where the code reads a sign, and the answers of an HTTP server.
use palena_litellm_pseudonym.Base.{
  ℕ, ◌-◌, ◌%◌, ◌^◌, ◌<◌, ◌≡◌, refl, arith, Bool, true, false, ltb, if◌then◌else◌,
}

pub data ℤ : Type 0 where
  pos negsuc : ℕ → ℤ

abbrev pub is_positive : ℤ → Bool
is_positive (pos n) = ltb 0 n
is_positive (negsuc n) = false

abbrev pub ltbℤ : ℤ → ℤ → Bool
ltbℤ (pos m) (pos n) = ltb m n
ltbℤ (pos m) (negsuc n) = false
ltbℤ (negsuc m) (pos n) = true
ltbℤ (negsuc m) (negsuc n) = ltb n m

signed32 : ℕ → ℤ
signed32 m = if ltb m (2 ^ 31) then pos m else negsuc (2 ^ 32 - 1 - m)

-- int32(z), which wraps around.
unfoldable pub int32 : ℤ → ℤ
unfolding signed32
int32 (pos n) = signed32 (n % 2 ^ 32)
int32 (negsuc n) = signed32 (2 ^ 32 - 1 - n % 2 ^ 32)

signed64 : ℕ → ℤ
signed64 m = if ltb m (2 ^ 63) then pos m else negsuc (2 ^ 64 - 1 - m)

-- int64 of a sum of two that are not negative, which wraps around.
unfoldable pub int64 : ℕ → ℤ
unfolding signed64
int64 n = signed64 (n % 2 ^ 64)

pub int64-small : (n : ℕ) → n < 2 ^ 63 → int64 n ≡ pos n
unfolding int64 signed64
int64-small n small =
    let same : n % 2 ^ 64 ≡ n = omega arith in
    let below : ltb (n % 2 ^ 64) (2 ^ 63) ≡ true = ground arith in rw (below, same) refl
