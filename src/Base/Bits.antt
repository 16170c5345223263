-- ===== src/Base/Bits.antt =====
-- The binary digits of a number under `|`, `&` and `~`, as code/userprog/bitmap.cc uses them.
mod Step
use Prim.Native.Nat.{
  ℕ, zero, suc, ◌+◌, ◌-◌, ◌*◌, ◌/◌, ◌%◌, ◌^◌, ◌≤◌, ◌<◌, min, max, bit_and, bit_or,
}
use mathlib.Core.Path.{◌≡◌, refl}
use mathlib.Core.Logic.{◌≢◌}
use native.Mathlib.Omega.{arith}
use native.Mathlib.Nat.{pow-suc, one-le-pow}
pub use Step.{bit_or_step}
use Step.{bit_and_step, bit_and-zero, bit_and_none, bit_or_none}

pub pow-lt : (k n : ℕ) → k < n → 2 ^ k < 2 ^ n
pow-lt k zero h = absurd (omega arith)
pow-lt zero (suc n) h = omega (arith, pow-suc 2 n, one-le-pow n 2)
pow-lt (suc k) (suc n) h = omega (arith, pow-suc 2 k, pow-suc 2 n, pow-lt k n (omega arith))

-- Digit `k` of `w`, 0 or 1.
unfoldable pub digit : ℕ → ℕ → ℕ
digit w zero = w % 2
digit w (suc k) = digit (w / 2) k

pub digit-le : (w k : ℕ) → digit w k ≤ 1
unfolding digit
digit-le w zero = omega arith
digit-le w (suc k) = digit-le (w / 2) k

pub digit-bit_or : (a b k : ℕ) → digit (bit_or a b) k ≡ max (digit a k) (digit b k)
unfolding digit
digit-bit_or a b zero = omega (arith, bit_or_step a b)
digit-bit_or a b (suc k) =
    let e : bit_or a b / 2 ≡ bit_or (a / 2) (b / 2) = omega (arith, bit_or_step a b) in
    rw e (digit-bit_or (a / 2) (b / 2) k)

pub digit-bit_and : (a b k : ℕ) → digit (bit_and a b) k ≡ min (digit a k) (digit b k)
unfolding digit
digit-bit_and a b zero = omega (arith, bit_and_step a b)
digit-bit_and a b (suc k) =
    let e : bit_and a b / 2 ≡ bit_and (a / 2) (b / 2) = omega (arith, bit_and_step a b) in
    rw e (digit-bit_and (a / 2) (b / 2) k)

digit-zero : (k : ℕ) → digit 0 k ≡ 0
unfolding digit
digit-zero zero = refl
digit-zero (suc k) = digit-zero k

pub digit-pow_self : (k : ℕ) → digit (2 ^ k) k ≡ 1
unfolding digit
digit-pow_self zero = refl
digit-pow_self (suc k) =
    let e : 2 ^ suc k / 2 ≡ 2 ^ k = omega (arith, pow-suc 2 k) in rw e (digit-pow_self k)

pub digit-pow_ne : (k j : ℕ) → k ≢ j → digit (2 ^ k) j ≡ 0
unfolding digit
digit-pow_ne zero zero h = absurd (h refl)
digit-pow_ne zero (suc j) h = digit-zero j
digit-pow_ne (suc k) zero h = omega (arith, pow-suc 2 k)
digit-pow_ne (suc k) (suc j) h =
    let e : 2 ^ suc k / 2 ≡ 2 ^ k = omega (arith, pow-suc 2 k) in
    rw e (digit-pow_ne k j (omega arith))

-- The complement of `a` in `n` binary digits.
pub digit-complement : (n a j : ℕ) → a < 2 ^ n → j < n → digit (2 ^ n - 1 - a) j ≡ 1 - digit a j
unfolding digit
digit-complement zero a j h l = absurd (omega arith)
digit-complement (suc n) a zero h l = omega (arith, pow-suc 2 n)
digit-complement (suc n) a (suc j) h l =
    let e : (2 ^ suc n - 1 - a) / 2 ≡ 2 ^ n - 1 - a / 2 = omega (arith, pow-suc 2 n) in
    rw e (digit-complement n (a / 2) j (omega (arith, pow-suc 2 n)) (omega arith))

-- The test `w & (1 << k)` reads digit `k`.
pub bit_and-pow : (w k : ℕ) → bit_and w (2 ^ k) ≡ digit w k * 2 ^ k
unfolding digit
bit_and-pow w zero = omega (arith, bit_and_step w 1, bit_and-zero (w / 2))
bit_and-pow w (suc k) =
    let e : 2 ^ suc k / 2 ≡ 2 ^ k = omega (arith, pow-suc 2 k) in
    let s : bit_and w (2 ^ suc k) ≡ bit_and (w / 2) (2 ^ suc k / 2) * 2 =
      omega (arith, bit_and_step w (2 ^ suc k), pow-suc 2 k) in
    grind (arith, s, e, bit_and-pow (w / 2) k, pow-suc 2 k)

pub bit_or-lt : (n a b : ℕ) → a < 2 ^ n → b < 2 ^ n → bit_or a b < 2 ^ n
bit_or-lt zero a b h l = let e : a ≡ 0 = omega arith in rw e (omega (arith, bit_or_none b))
bit_or-lt (suc n) a b h l = omega (
  arith,
  bit_or_step a b,
  pow-suc 2 n,
  bit_or-lt n (a / 2) (b / 2) (omega (arith, pow-suc 2 n)) (omega (arith, pow-suc 2 n)),
)

pub bit_and-lt : (n a b : ℕ) → a < 2 ^ n → bit_and a b < 2 ^ n
bit_and-lt zero a b h = let e : a ≡ 0 = omega arith in rw e (omega (arith, bit_and_none b))
bit_and-lt (suc n) a b h = omega (
  arith,
  bit_and_step a b,
  pow-suc 2 n,
  bit_and-lt n (a / 2) (b / 2) (omega (arith, pow-suc 2 n)),
)
