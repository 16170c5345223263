-- ===== src/Base/Int.antt =====
-- C's `int` where the program uses its sign: -1 for "none", and sector numbers read as `char`.
use Prim.Native.Nat.{ℕ, ◌-◌, ◌%◌, ◌^◌, ◌<◌}
use mathlib.Core.Path.{◌≡◌, ap}
use mathlib.Core.Bool.{Bool, true, false}
use native.Mathlib.Omega.{arith}
use nachos_lab.Base.Tests.{ltb, ◌==◌, if◌then◌else◌, ==_iff, ==_refl}

-- `negsuc n` is -(n + 1).
pub data ℤ : Type 0 where
  pos : ℕ → ℤ
  negsuc : ℕ → ℤ

abbrev pub int_eq : ℤ → ℤ → Bool
int_eq (pos a) (pos b) = a == b
int_eq (negsuc a) (negsuc b) = a == b
int_eq (pos a) (negsuc b) = false
int_eq (negsuc a) (pos b) = false

pub int_eq_sound : (a b : ℤ) → int_eq a b ≡ true → a ≡ b
int_eq_sound (pos a) (pos b) h = ap pos ((==_iff a b).0 h)
int_eq_sound (negsuc a) (negsuc b) h = ap negsuc ((==_iff a b).0 h)
int_eq_sound (pos a) (negsuc b) h = ground arith
int_eq_sound (negsuc a) (pos b) h = ground arith

pub int_eq_refl : (a : ℤ) → int_eq a a ≡ true
int_eq_refl (pos a) = ==_refl a
int_eq_refl (negsuc a) = ==_refl a

-- `0 <= a && a < n`
abbrev pub between : ℤ → ℕ → Bool
between (pos a) n = ltb a n
between (negsuc a) n = false

-- The value of an `int` that is known not to be negative.
abbrev pub index : ℤ → ℕ
index (pos a) = a
index (negsuc a) = 0

-- An `int` as the unsigned word with the same 32 bits.
abbrev pub word_of_int : ℤ → ℕ
word_of_int (pos a) = a % 2 ^ 32
word_of_int (negsuc a) = 2 ^ 32 - 1 - a % 2 ^ 32

-- An `int` as read from 32 bits, and from the 8 bits of a signed `char`.
abbrev pub int_of_word : ℕ → ℤ
int_of_word w = if ltb w (2 ^ 31) then pos w else negsuc (2 ^ 32 - 1 - w)

abbrev pub int_of_char : ℕ → ℤ
int_of_char c = if ltb c 128 then pos c else negsuc (255 - c)

-- `a < b`
abbrev pub int_ltb : ℤ → ℤ → Bool
int_ltb (pos a) (pos b) = ltb a b
int_ltb (pos a) (negsuc b) = false
int_ltb (negsuc a) (pos b) = true
int_ltb (negsuc a) (negsuc b) = ltb b a

pub int_ltb-flip : (a b : ℤ) → int_ltb a b ≡ true → int_ltb b a ≡ false
int_ltb-flip (pos a) (pos b) h = ground arith
int_ltb-flip (pos a) (negsuc b) h = cc
int_ltb-flip (negsuc a) (pos b) h = ground arith
int_ltb-flip (negsuc a) (negsuc b) h = ground arith

-- The numbers that an `int` of 32 bits can hold.
abbrev pub IsInt : ℤ → Type 0
IsInt (pos n) = n < 2 ^ 31
IsInt (negsuc n) = n < 2 ^ 31

pub word_of_int-lt : (v : ℤ) → word_of_int v < 2 ^ 32
word_of_int-lt (pos n) = omega arith
word_of_int-lt (negsuc n) = omega arith

pub int-word : (v : ℤ) → IsInt v → int_of_word (word_of_int v) ≡ v
int-word (pos n) h = ground arith
int-word (negsuc n) h = ground arith
