-- ===== src/Mips/Meaning.antt =====
-- What the operations of Machine::OneInstruction, code/machine/mipssim.cc, compute.
use Prim.Native.Nat.{bit_or}
use native.Mathlib.Nat.{div-le_self, mod-lt, div-add-mod, div-lt_iff_lt-mul, pow-le-pow_right}
use nachos_lab.Base.{
  ℕ, zero, suc, ◌+◌, ◌*◌, ◌/◌, ◌%◌, ◌^◌, ◌<◌, ◌≤◌, ◌≡◌, refl, ◌↔◌, true, false, arith, Bool, leb,
  if◌then◌else◌,
}
use nachos_lab.Base.Bits.{bit_or_step}
use nachos_lab.Mips.{sign_bit, negate, complement}
use nachos_lab.Mips.Product.{magnitude, differ}
use nachos_lab.Mips.Outcome.{word_add, word_sub}
use nachos_lab.Mips.Compute.{
  sum_overflows, difference_overflows, signed_quotient, signed_remainder, or_registers,
  shift_right_logical,
}

-- An `int` plus 2 ^ 31, so that the order of the numbers is the order of the `int`s.
abbrev pub biased : ℕ → ℕ
biased a = (a + 2 ^ 31) % 2 ^ 32

-- ADD raises no overflow exactly when the word it stores is the sum of the two `int`s.
pub add-exact :
    (a b : ℕ)
    → a < 2 ^ 32
    → b < 2 ^ 32
    → (sum_overflows a b a ≡ false) ↔ (biased (word_add a b) + 2 ^ 31 ≡ biased a + biased b)
add-exact a b ha hb = (λ e. ground arith, λ e. ground arith)

-- ADDI looks at the sign of the constant in place of that of the sum, with the same result.
pub add_immediate-exact :
    (a b : ℕ)
    → a < 2 ^ 32
    → b < 2 ^ 32
    → (sum_overflows a b b ≡ false) ↔ (biased (word_add a b) + 2 ^ 31 ≡ biased a + biased b)
add_immediate-exact a b ha hb = (λ e. ground arith, λ e. ground arith)

-- SUB raises no overflow exactly when the word it stores is the difference of the two `int`s.
pub subtract-exact :
    (a b : ℕ)
    → a < 2 ^ 32
    → b < 2 ^ 32
    → (difference_overflows a b ≡ false) ↔ (biased (word_sub a b) + biased b ≡ biased a + 2 ^ 31)
subtract-exact a b ha hb = (λ e. ground arith, λ e. ground arith)

magnitude-signed : (b : Bool) (q : ℕ) → q ≤ 2 ^ 31 → magnitude (if b then negate q else q) ≡ q
magnitude-signed true q h = ground arith
magnitude-signed false q h = ground arith

magnitude-le : (a : ℕ) → a < 2 ^ 32 → magnitude a ≤ 2 ^ 31
magnitude-le a h = ground arith

magnitude-pos : (b : ℕ) → b < 2 ^ 32 → 0 < b → 0 < magnitude b
magnitude-pos b h p = ground arith

-- DIV: the quotient times the divisor, plus the remainder, is the dividend, in the sizes of the three
-- `int`s, and the remainder is smaller than the divisor.
pub divide-exact :
    (a b : ℕ)
    → a < 2 ^ 32
    → b < 2 ^ 32
    → 0 < b
    → (magnitude (signed_quotient a b) * magnitude b + magnitude (signed_remainder a b)
        ≡ magnitude a)
      × (magnitude (signed_remainder a b) < magnitude b)
divide-exact a b ha hb p =
    let x = magnitude a in
    let y = magnitude b in
    let small : x / y ≤ 2 ^ 31 = omega (arith, div-le_self x y, magnitude-le a ha) in
    let below : x % y < y = mod-lt x (magnitude-pos b hb p) in
    let q : magnitude (signed_quotient a b) ≡ x / y = magnitude-signed (differ a b) (x / y) small in
    let r : magnitude (signed_remainder a b) ≡ x % y =
      magnitude-signed (leb sign_bit a) (x % y) (omega (arith, below, magnitude-le b hb)) in
    (rw (q, r) (grind (arith, div-add-mod x y)), rw r below)

bit_or_self : (a n : ℕ) → a ≤ n → bit_or a a ≡ a
bit_or_self zero n h = refl
bit_or_self (suc a) zero h = absurd (omega arith)
bit_or_self (suc a) (suc n) h =
    omega (arith, bit_or_step (suc a) (suc a), bit_or_self (suc a / 2) n (omega arith))

-- OR stores its first operand, whatever the second is.
pub or_registers-first : (rs rt : ℕ) → or_registers rs rt ≡ rs
or_registers-first rs rt = bit_or_self rs rs (omega arith)

-- SRL of a negative word by one or more places sets the bits that it should clear.
pub shift_right_logical-signed :
    (rt n : ℕ)
    → sign_bit ≤ rt
    → rt < 2 ^ 32
    → 0 < n
    → n < 32
    → rt / 2 ^ n < shift_right_logical rt n
shift_right_logical-signed rt n neg h pos small =
    let two : 2 ^ 1 ≤ 2 ^ n = pow-le-pow_right (omega arith) pos in
    let enough : rt < 2 ^ 31 * 2 ^ n = grind (arith, two) in
    let below : rt / 2 ^ n < 2 ^ 31 = (div-lt_iff_lt-mul (omega (arith, two))).1 enough in
    let shifted = div-le_self (complement rt) (2 ^ n) in ground (arith, below, shifted)
