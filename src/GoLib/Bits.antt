-- ===== src/GoLib/Bits.antt =====
-- The bit operations of a comparison in constant time.
use palena_litellm_pseudonym.Base.{ℕ, zero, suc, ◌/◌, ◌%◌, ◌≤◌, ◌≡◌, refl, sym, ap, ◌∙◌, arith}
use Prim.Native.Nat.{bit_or, bit_xor, digits, differ, max, bit_or-bitwise, bit_xor-bitwise}

differ-zero : (x y : ℕ) → differ x y ≡ 0 → x ≡ y
differ-zero zero y e = sym e
differ-zero (suc x) zero e = e
differ-zero (suc x) (suc y) e = ap suc (differ-zero x y e)

xor_digits-zero : (n a b : ℕ) → a ≤ n → digits (λ b. b) differ n a b ≡ 0 → a ≡ b
xor_digits-zero zero zero b le e = sym e
xor_digits-zero zero (suc a) b le e = absurd (omega arith)
xor_digits-zero (suc n) zero b le e = sym e
xor_digits-zero (suc n) (suc a) b le e =
    let lowest : differ (suc a % 2) (b % 2) ≡ 0 = omega (arith, e) in
    let higher : digits (λ b. b) differ n (suc a / 2) (b / 2) ≡ 0 = omega (arith, e) in
    omega (
      arith,
      differ-zero (suc a % 2) (b % 2) lowest,
      xor_digits-zero n (suc a / 2) (b / 2) (omega (arith, le)) higher,
    )

-- The exclusive or of two numbers is 0 only if they are the same.
pub bit_xor-zero : (a b : ℕ) → bit_xor a b ≡ 0 → a ≡ b
bit_xor-zero a b e = xor_digits-zero a a b (omega arith) (sym (bit_xor-bitwise a b) ∙ e)

or_digits-zero : (n a b : ℕ) → a ≤ n → digits (λ b. b) max n a b ≡ 0 → (a ≡ 0) × (b ≡ 0)
or_digits-zero zero zero b le e = (refl, e)
or_digits-zero zero (suc a) b le e = absurd (omega arith)
or_digits-zero (suc n) zero b le e = (refl, e)
or_digits-zero (suc n) (suc a) b le e =
    let lowest : max (suc a % 2) (b % 2) ≡ 0 = omega (arith, e) in
    let higher : digits (λ b. b) max n (suc a / 2) (b / 2) ≡ 0 = omega (arith, e) in
    let rec = or_digits-zero n (suc a / 2) (b / 2) (omega (arith, le)) higher in
    (omega (arith, lowest, rec.0), omega (arith, lowest, rec.1))

pub bit_or-zero : (a b : ℕ) → bit_or a b ≡ 0 → (a ≡ 0) × (b ≡ 0)
bit_or-zero a b e = or_digits-zero a a b (omega arith) (sym (bit_or-bitwise a b) ∙ e)

xor_digits_self : (n a : ℕ) → a ≤ n → digits (λ b. b) differ n a a ≡ 0
xor_digits_self zero zero le = refl
xor_digits_self zero (suc a) le = absurd (omega arith)
xor_digits_self (suc n) zero le = refl
xor_digits_self (suc n) (suc a) le =
    omega (arith, differ_self (suc a % 2), xor_digits_self n (suc a / 2) (omega (arith, le)))
  where
    differ_self : (x : ℕ) → differ x x ≡ 0
    differ_self zero = refl
    differ_self (suc x) = differ_self x

pub bit_xor_self : (a : ℕ) → bit_xor a a ≡ 0
bit_xor_self a = bit_xor-bitwise a a ∙ xor_digits_self a a (omega arith)
