-- ===== src/Base/Xor.antt =====
-- The exclusive or of numbers, which antt computes natively: the law of its lowest digit, and that
-- nothing is lost by it.
use Prim.Native.Nat.{
  ℕ, zero, suc, ◌+◌, ◌*◌, ◌/◌, ◌%◌, ◌≤◌, ◌<◌, bit_xor, digits, differ, bit_xor-bitwise,
}
use mathlib.Core.Path.{◌≡◌, refl}
use native.Mathlib.Omega.{arith}

abbrev xor_digits : ℕ → ℕ → ℕ → ℕ
xor_digits n a b = digits (λ b. b) differ n a b

differ_lem : (x y : ℕ) → x < 2 → y < 2 → differ x y ≡ (x + y) % 2
differ_lem zero y p q = omega arith
differ_lem (suc zero) zero p q = refl
differ_lem (suc zero) (suc zero) p q = refl
differ_lem (suc zero) (suc (suc y)) p q = absurd (omega arith)
differ_lem (suc (suc x)) y p q = absurd (omega arith)

-- More rounds than the first number has digits change nothing.
xor_digits_enough : (n m a b : ℕ) → a ≤ n → a ≤ m → xor_digits n a b ≡ xor_digits m a b
xor_digits_enough zero zero a b p q = refl
xor_digits_enough n m zero b p q = omega (arith, at_zero n b, at_zero m b)
  where
    at_zero : (k c : ℕ) → xor_digits k zero c ≡ c
    at_zero zero c = refl
    at_zero (suc k) c = refl
xor_digits_enough zero m (suc a) b p q = absurd (omega arith)
xor_digits_enough (suc n) zero (suc a) b p q = absurd (omega arith)
xor_digits_enough (suc n) (suc m) (suc a) b p q =
    omega (arith, xor_digits_enough n m (suc a / 2) (b / 2) (omega arith) (omega arith))

bit_xor_lem : (a b : ℕ) → bit_xor a b ≡ bit_xor (a / 2) (b / 2) * 2 + (a + b) % 2
bit_xor_lem zero b = omega (arith, bit_xor-bitwise 0 b, bit_xor-bitwise 0 (b / 2))
bit_xor_lem (suc a) b = omega (
  arith,
  bit_xor-bitwise (suc a) b,
  bit_xor-bitwise (suc a / 2) (b / 2),
  differ_lem (suc a % 2) (b % 2) (omega arith) (omega arith),
  xor_digits_enough a (suc a / 2) (suc a / 2) (b / 2) (omega arith) (omega arith),
)

left_from : (n a b c : ℕ) → a ≤ n → b ≤ n → bit_xor a c ≡ bit_xor b c → a ≡ b
left_from zero a b c p q e = omega arith
left_from (suc n) a b c p q e = omega (
  arith,
  e,
  left_from n (a / 2) (b / 2) (c / 2) (omega arith) (omega arith)
      (omega (arith, e, bit_xor_lem a c, bit_xor_lem b c)),
  bit_xor_lem a c,
  bit_xor_lem b c,
)

right_from : (n a b c : ℕ) → b ≤ n → c ≤ n → bit_xor a b ≡ bit_xor a c → b ≡ c
right_from zero a b c p q e = omega arith
right_from (suc n) a b c p q e = omega (
  arith,
  e,
  right_from n (a / 2) (b / 2) (c / 2) (omega arith) (omega arith)
      (omega (arith, e, bit_xor_lem a b, bit_xor_lem a c)),
  bit_xor_lem a b,
  bit_xor_lem a c,
)

-- Either operand can be told from the result and the other one.
pub bit_xor_left : (a b c : ℕ) → bit_xor a c ≡ bit_xor b c → a ≡ b
bit_xor_left a b c e = left_from (a + b) a b c (omega arith) (omega arith) e

pub bit_xor_right : (a b c : ℕ) → bit_xor a b ≡ bit_xor a c → b ≡ c
bit_xor_right a b c e = right_from (b + c) a b c (omega arith) (omega arith) e
