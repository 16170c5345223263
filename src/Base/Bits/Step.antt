-- ===== src/Base/Bits/Step.antt =====
-- One equation for the lowest digit of each native operation, from the digit recursion that the
-- operation stands for.
use Prim.Native.Nat.{
  ℕ, zero, suc, ◌+◌, ◌*◌, ◌/◌, ◌%◌, ◌≤◌, min, max, digits, bit_and, bit_or, bit_and-bitwise,
  bit_or-bitwise,
}
use mathlib.Core.Path.{◌≡◌, refl, ap}
use native.Mathlib.Omega.{arith}

-- The recursion `digits` has enough fuel as soon as the fuel reaches the first operand.
module _ (rest : ℕ → ℕ) (op : ℕ → ℕ → ℕ) where
  digits_enough : (a k m b : ℕ) → a ≤ m → a ≤ k → digits rest op k a b ≡ digits rest op m a b
  digits_enough (suc a) (suc k) (suc m) b h l =
      ap (λ (t : ℕ). t * 2 + op (suc a % 2) (b % 2))
        (digits_enough (suc a / 2) k m (b / 2) (omega arith) (omega arith))
  digits_enough (suc a) (suc k) zero b h l = absurd (omega arith)
  digits_enough (suc a) zero m b h l = absurd (omega arith)
  digits_enough zero (suc k) (suc m) b h l = refl
  digits_enough zero (suc k) zero b h l = refl
  digits_enough zero zero (suc m) b h l = refl
  digits_enough zero zero zero b h l = refl

  digits_low :
      (a b : ℕ)
      → digits rest op (suc a) (suc a) b
        ≡ digits rest op (suc a / 2) (suc a / 2) (b / 2) * 2 + op (suc a % 2) (b % 2)
  digits_low a b =
      ap (λ (t : ℕ). t * 2 + op (suc a % 2) (b % 2))
        (digits_enough (suc a / 2) a (suc a / 2) (b / 2) (omega arith) (omega arith))

pub bit_and_none : (b : ℕ) → bit_and 0 b ≡ 0
bit_and_none b = bit_and-bitwise 0 b

pub bit_or_none : (b : ℕ) → bit_or 0 b ≡ b
bit_or_none b = bit_or-bitwise 0 b

pub bit_and_step : (a b : ℕ) → bit_and a b ≡ bit_and (a / 2) (b / 2) * 2 + min (a % 2) (b % 2)
bit_and_step (suc a) b = omega (
  arith,
  digits_low (λ _. 0) min a b,
  bit_and-bitwise (suc a / 2) (b / 2),
  bit_and-bitwise (suc a) b,
)
bit_and_step zero b = omega (arith, bit_and_none b, bit_and_none (b / 2))

pub bit_or_step : (a b : ℕ) → bit_or a b ≡ bit_or (a / 2) (b / 2) * 2 + max (a % 2) (b % 2)
bit_or_step zero b = omega (arith, bit_or-bitwise 0 b, bit_or-bitwise 0 (b / 2))
bit_or_step (suc a) b = omega (
  arith,
  bit_or-bitwise (suc a) b,
  bit_or-bitwise (suc a / 2) (b / 2),
  digits_low (λ y. y) max a b,
)

no_ones : (a k : ℕ) → a ≤ k → bit_and a 0 ≡ 0
no_ones (suc a) (suc k) h =
    let shorter = no_ones (suc a / 2) k (omega arith) in
    omega (arith, shorter, bit_and_step (suc a) 0)
no_ones (suc a) zero h = absurd (omega arith)
no_ones zero k h = bit_and_none 0

pub bit_and-zero : (a : ℕ) → bit_and a 0 ≡ 0
bit_and-zero a = no_ones a (a + 0) (omega arith)
