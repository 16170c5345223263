-- ===== src/Mips.antt =====
-- code/machine/mipssim.cc, the simulated MIPS: Mult here, Decode in a child. A word is an unsigned
-- number below 2 ^ 32.
pub mod Product
pub mod Decode
pub mod Fields
pub mod Outcome
pub mod Compute
pub mod Transfer
pub mod Execute
pub mod Safe
pub mod Running
pub mod Meaning
mod Tests
mod RunTests
use nachos_lab.Base.{
  ℕ, zero, suc, ◌+◌, ◌-◌, ◌*◌, ◌/◌, ◌%◌, ◌^◌, Bool, true, false, not, ◌&&◌, ◌||◌, ltb, leb, ◌==◌,
  if◌then◌else◌,
}

abbrev pub sign_bit : ℕ
sign_bit = 2 ^ 31

-- `-a` and `~a`, and `a >> 1` of an `int`, which keeps the sign.
abbrev pub negate : ℕ → ℕ
negate a = (2 ^ 32 - a) % 2 ^ 32

abbrev pub complement : ℕ → ℕ
complement a = 2 ^ 32 - 1 - a

abbrev pub shift_right : ℕ → ℕ
shift_right a = if leb sign_bit a then a / 2 + sign_bit else a / 2

-- The loop of Mult with `n` rounds left: `(hi, lo)`.
unfoldable pub mult_loop : ℕ → ℕ → ℕ → ℕ → ℕ → ℕ → ℕ × ℕ
mult_loop zero a b_hi b_lo hi lo = (hi, lo)
mult_loop (suc n) a b_hi b_lo hi lo =
    let odd = a % 2 == 1 in
    let lo' = if odd then (lo + b_lo) % 2 ^ 32 else lo in
    let carry = if ltb lo' b_lo then 1 else 0 in
    let hi' = if odd then (hi + carry + b_hi) % 2 ^ 32 else hi in
    let b_hi' = b_hi * 2 % 2 ^ 32 + (if leb sign_bit b_lo then 1 else 0) in
    let rest = mult_loop n (shift_right a) b_hi' (b_lo * 2 % 2 ^ 32) hi' lo' in
    if odd && ((a / 2) == 0) then (hi', lo') else rest

-- The two's complement of the double word.
abbrev pub negate_double : ℕ × ℕ → ℕ × ℕ
negate_double (hi, lo) =
    let lo' = (complement lo + 1) % 2 ^ 32 in
    ((if lo' == 0 then (complement hi + 1) % 2 ^ 32 else complement hi), lo')

unfoldable pub mult : ℕ → ℕ → Bool → ℕ × ℕ
unfolding mult_loop
mult a b signed_arith =
    if (a == 0) || (b == 0)
    then (0, 0)
    else let a_negative = signed_arith && leb sign_bit a in
      let b_negative = signed_arith && leb sign_bit b in
      let a' = if a_negative then negate a else a in
      let b' = if b_negative then negate b else b in
      let product = mult_loop 32 a' 0 b' 0 0 in
      if (if a_negative then not b_negative else b_negative) then negate_double product else product
