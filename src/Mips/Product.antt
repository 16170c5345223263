-- ===== src/Mips/Product.antt =====
-- What Mult of code/machine/mipssim.cc computes.
use native.Mathlib.Nat.{pow-suc, mul-le-mul}
use nachos_lab.Base.{
  ℕ, zero, suc, ◌+◌, ◌-◌, ◌*◌, ◌/◌, ◌%◌, ◌^◌, ◌≤◌, ◌<◌, ◌≡◌, refl, ◌∙◌, sym, ap, Bool, true, false,
  not, ◌||◌, ltb, leb, ◌==◌, if◌then◌else◌, arith, inl, inr, Bool-cases, ==_iff,
}
use nachos_lab.Mips.{mult_loop, mult, shift_right, sign_bit, negate, negate_double}

-- The number that the low `n` digits of `a` make.
unfoldable low : ℕ → ℕ → ℕ
low zero a = 0
low (suc n) a = low n (a / 2) * 2 + a % 2

low-all : (n a : ℕ) → a < 2 ^ n → low n a ≡ a
unfolding low
low-all zero a h = omega arith
low-all (suc n) a h = omega (arith, low-all n (a / 2) (omega (arith, pow-suc 2 n)))

low-high : (n k a : ℕ) → n ≤ k → low n (a + 2 ^ k) ≡ low n a
unfolding low
low-high zero k a h = refl
low-high (suc n) zero a h = absurd (omega arith)
low-high (suc n) (suc k) a h =
    let e : (a + 2 ^ suc k) / 2 ≡ a / 2 + 2 ^ k = omega (arith, pow-suc 2 k) in
    let r : (a + 2 ^ suc k) % 2 ≡ a % 2 = omega (arith, pow-suc 2 k) in
    rw (e, r, low-high n k (a / 2) (omega arith)) refl

low-shift_right : (n a : ℕ) → n ≤ 31 → low n (shift_right a) ≡ low n (a / 2)
low-shift_right n a h = elim (Bool-cases (leb sign_bit a)) [
  | inl e ↦ rw e (low-high n 31 (a / 2) h)
  | inr e ↦ rw e refl
]

-- One digit of the product.
split_digit : (l r b : ℕ) → (l * 2 + r) * b ≡ l * (b * 2) + r * b
split_digit l r b = grind arith

low-none : (n : ℕ) → low n 0 ≡ 0
unfolding low
low-none zero = refl
low-none (suc n) = omega (arith, low-none n)

abbrev next_high : ℕ → ℕ → ℕ
next_high b_hi b_lo = b_hi * 2 % 2 ^ 32 + (if leb sign_bit b_lo then 1 else 0)

double_word :
    (b_hi b_lo : ℕ)
    → b_hi < 2 ^ 32
    → b_lo < 2 ^ 32
    → (b_hi * 2 ^ 32 + b_lo) * 2 < 2 ^ 64
    → next_high b_hi b_lo * 2 ^ 32 + b_lo * 2 % 2 ^ 32 ≡ (b_hi * 2 ^ 32 + b_lo) * 2
double_word b_hi b_lo h l fits = ground arith

le_multiple : (l x : ℕ) → x ≤ suc l * x
le_multiple l x = grind arith

-- Doubling the factor loses no digit while the product needs it.
next_factor :
    (l b_hi b_lo : ℕ)
    → b_hi < 2 ^ 32
    → b_lo < 2 ^ 32
    → l * ((b_hi * 2 ^ 32 + b_lo) * 2) < 2 ^ 64
    → l * (next_high b_hi b_lo * 2 ^ 32 + b_lo * 2 % 2 ^ 32) ≡ l * ((b_hi * 2 ^ 32 + b_lo) * 2)
next_factor zero b_hi b_lo h k fits = omega arith
next_factor (suc l) b_hi b_lo h k fits =
    ap (λ (x : ℕ). suc l * x)
      (double_word b_hi b_lo h k (omega (arith, le_multiple l ((b_hi * 2 ^ 32 + b_lo) * 2))))

-- The sum with its carry, where it fits 64 bits.
add_double :
    (b_hi b_lo hi lo : ℕ)
    → b_hi < 2 ^ 32
    → b_lo < 2 ^ 32
    → hi < 2 ^ 32
    → lo < 2 ^ 32
    → hi * 2 ^ 32 + lo + (b_hi * 2 ^ 32 + b_lo) < 2 ^ 64
    → (hi + (if ltb ((lo + b_lo) % 2 ^ 32) b_lo then 1 else 0) + b_hi) % 2 ^ 32 * 2 ^ 32
        + (lo + b_lo) % 2 ^ 32
      ≡ hi * 2 ^ 32 + lo + (b_hi * 2 ^ 32 + b_lo)
add_double b_hi b_lo hi lo h k i j fits = ground arith

-- The lowest digit, 1 or 0, taken off the factor.
one_more : (x l b p r : ℕ) → r ≡ 1 → x + (l * 2 + r) * b ≡ p → x + (l * (b * 2) + b) ≡ p
one_more x l b p r q e = omega (arith, ap (λ (u : ℕ). u * b) q, split_digit l r b, e)

no_more : (x l b p r : ℕ) → r ≡ 0 → x + (l * 2 + r) * b ≡ p → x + l * (b * 2) ≡ p
no_more x l b p r q e = omega (arith, ap (λ (u : ℕ). u * b) q, split_digit l r b, e)

Value : ℕ × ℕ → ℕ → Type 0
Value (hi, lo) p = (hi * 2 ^ 32 + lo ≡ p) × (hi < 2 ^ 32) × (lo < 2 ^ 32)

mult_loop-Value :
    (n a b_hi b_lo hi lo p : ℕ)
    → n ≤ 32
    → b_hi < 2 ^ 32
    → b_lo < 2 ^ 32
    → hi < 2 ^ 32
    → lo < 2 ^ 32
    → hi * 2 ^ 32 + lo + low n a * (b_hi * 2 ^ 32 + b_lo) ≡ p
    → p < 2 ^ 64
    → Value (mult_loop n a b_hi b_lo hi lo) p
unfolding mult_loop low Value
mult_loop-Value zero a b_hi b_lo hi lo p n h k i j e f = (omega arith, i, j)
mult_loop-Value (suc n) a b_hi b_lo hi lo p m h k i j e f =
    let l = low n (a / 2) in
    let b = b_hi * 2 ^ 32 + b_lo in
    let hi' = (hi + (if ltb ((lo + b_lo) % 2 ^ 32) b_lo then 1 else 0) + b_hi) % 2 ^ 32 in
    let lo' = (lo + b_lo) % 2 ^ 32 in
    let b_lo' = b_lo * 2 % 2 ^ 32 in
    elim (Bool-cases (a % 2 == 1)) [
      | inl odd ↦
          let one : a % 2 ≡ 1 = (==_iff _ _).0 odd in
          let t : hi * 2 ^ 32 + lo + (l * (b * 2) + b) ≡ p =
            one_more (hi * 2 ^ 32 + lo) l b p (a % 2) one e in
          let sum = add_double b_hi b_lo hi lo h k i j (omega (arith, t)) in
          rw odd (elim (Bool-cases ((a / 2) == 0)) [
            | inl last ↦
                let none_left : l ≡ 0 = ap (low n) ((==_iff (a / 2) 0).0 last) ∙ low-none n in
                let nothing : l * (b * 2) ≡ 0 =
                  ap (λ (x : ℕ). x * (b * 2)) none_left ∙ omega arith in
                rw last (omega (arith, t, sum, nothing), omega arith, omega arith)
            | inr more ↦
                let next = next_factor l b_hi b_lo h k (omega (arith, t)) in
                rw more (
                  mult_loop-Value n (shift_right a) (next_high b_hi b_lo) b_lo' hi' lo' p
                    (omega arith) (ground arith) (omega arith) (omega arith) (omega arith)
                    (rw (low-shift_right n a (omega arith)) (omega (arith, t, sum, next))) f)
          ])
      | inr even ↦
          let zero_ : a % 2 ≡ 0 = ground arith in
          let t : hi * 2 ^ 32 + lo + l * (b * 2) ≡ p =
            no_more (hi * 2 ^ 32 + lo) l b p (a % 2) zero_ e in
          let next = next_factor l b_hi b_lo h k (omega (arith, t)) in
          rw even (
            mult_loop-Value n (shift_right a) (next_high b_hi b_lo) b_lo' hi lo p (omega arith)
              (ground arith) (omega arith) i j
              (rw (low-shift_right n a (omega arith)) (omega (arith, t, next))) f)
    ]

zero_product : (a b : ℕ) → ((a == 0) || (b == 0)) ≡ true → 0 ≡ a * b
zero_product a b h = elim (Bool-cases (a == 0)) [
  | inl e ↦ let z : a ≡ 0 = (==_iff a 0).0 e in rw z (omega arith)
  | inr ne ↦ let z : b ≡ 0 = ground arith in rw z (omega arith)
]

small_product : (a b : ℕ) → a < 2 ^ 32 → b < 2 ^ 32 → a * b < 2 ^ 64
small_product a b h k =
    let p : a * b ≤ (2 ^ 32 - 1) * (2 ^ 32 - 1) =
      mul-le-mul {n₂ = 2 ^ 32 - 1} {m₂ = 2 ^ 32 - 1} (omega arith) (omega arith) in
    omega (arith, p)

-- The whole loop gives the product.
mult_loop-product : (a b : ℕ) → a < 2 ^ 32 → b < 2 ^ 32 → Value (mult_loop 32 a 0 b 0 0) (a * b)
mult_loop-product a b h k =
    let all : low 32 a ≡ a = low-all 32 a h in
    let start : 0 * 2 ^ 32 + 0 + low 32 a * (0 * 2 ^ 32 + b) ≡ a * b = rw all (grind arith) in
    mult_loop-Value 32 a 0 b 0 0 (a * b) (omega arith) (omega arith) k (omega arith) (omega arith)
      start (small_product a b h k)

-- MULTU: the two words are the product, for all operands of 32 bits.
pub mult-unsigned :
    (a b : ℕ)
    → a < 2 ^ 32
    → b < 2 ^ 32
    → ((mult a b false).0 * 2 ^ 32 + (mult a b false).1 ≡ a * b)
      × ((mult a b false).0 < 2 ^ 32)
      × ((mult a b false).1 < 2 ^ 32)
unfolding mult Value
mult-unsigned a b h k = elim (Bool-cases ((a == 0) || (b == 0))) [
  | inl none_ ↦ rw none_ (zero_product a b none_, omega arith, omega arith)
  | inr some_ ↦ rw some_ (mult_loop-product a b h k)
]

-- The size of an `int`, and whether two of them have different signs.
abbrev pub magnitude : ℕ → ℕ
magnitude a = if leb sign_bit a then negate a else a

abbrev pub differ : ℕ → ℕ → Bool
differ a b = if leb sign_bit a then not (leb sign_bit b) else leb sign_bit b

magnitude-lt : (a : ℕ) → a < 2 ^ 32 → magnitude a < 2 ^ 32
magnitude-lt a h = ground arith

negate_double-Value :
    (r : ℕ × ℕ) (p : ℕ)
    → Value r p
    → ((negate_double r).0 * 2 ^ 32 + (negate_double r).1 + p) % 2 ^ 64 ≡ 0
unfolding Value
negate_double-Value (hi, lo) p (e, i, j) = ground arith

zero_magnitude : (a b : ℕ) → ((a == 0) || (b == 0)) ≡ true → 0 ≡ magnitude a * magnitude b
zero_magnitude a b h = elim (Bool-cases (a == 0)) [
  | inl e ↦ let z : magnitude a ≡ 0 = ap magnitude ((==_iff a 0).0 e) in rw z (omega arith)
  | inr ne ↦
      let y : b ≡ 0 = ground arith in let z : magnitude b ≡ 0 = ap magnitude y in rw z (omega arith)
]

-- MULT: the two words are the product of the sizes where the signs agree, and its two's complement in
-- 64 bits where they differ, for all operands of 32 bits.
pub mult-signed :
    (a b : ℕ)
    → a < 2 ^ 32
    → b < 2 ^ 32
    → (if differ a b
        then ((mult a b true).0 * 2 ^ 32 + (mult a b true).1 + magnitude a * magnitude b) % 2 ^ 64
        else (mult a b true).0 * 2 ^ 32 + (mult a b true).1)
      ≡ (if differ a b then 0 else magnitude a * magnitude b)
unfolding mult Value
mult-signed a b h k = elim (Bool-cases ((a == 0) || (b == 0))) [
  | inl none_ ↦
      let z = zero_magnitude a b none_ in
      rw none_ (elim (Bool-cases (differ a b)) [
        | inl other ↦ rw other (ap (λ (x : ℕ). (0 + x) % 2 ^ 64) (sym z))
        | inr same ↦ rw same z
      ])
  | inr some_ ↦
      let v = mult_loop-product (magnitude a) (magnitude b) (magnitude-lt a h) (magnitude-lt b k) in
      rw some_ (elim (Bool-cases (differ a b)) [
        | inl other ↦ rw other (
            negate_double-Value (mult_loop 32 (magnitude a) 0 (magnitude b) 0 0)
              (magnitude a * magnitude b) v)
        | inr same ↦ rw same v.0
      ])
]
