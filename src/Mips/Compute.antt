-- ===== src/Mips/Compute.antt =====
-- Machine::OneInstruction of code/machine/mipssim.cc: the operations that compute from registers. Each
-- is the `case` of its name, on the machine, the instruction and `pcAfter`.
use Prim.Native.Nat.{bit_and, bit_or, bit_xor}
use nachos_lab.Base.{
  ℕ, ◌/◌, ◌%◌, Bool, not, ◌&&◌, leb, ltb, ◌==◌, if◌then◌else◌, Result, ok, err, trap, ◌>>=◌,
}
use nachos_lab.Machine.{
  Machine, read_register, write_register, raise_exception, ExceptionType, overflow_exception,
}
use nachos_lab.Mips.{sign_bit, negate, complement, mult}
use nachos_lab.Mips.Product.{magnitude, differ}
use nachos_lab.Mips.Decode.{Instruction}
use nachos_lab.Mips.Outcome.{
  Outcome, stop, word_add, word_sub, shift_left, shift_right_by, signed_lt, store, hi_reg, lo_reg,
}

-- `RaiseException(which, bad_vaddr); return;`
unfoldable pub raise : Machine → ExceptionType → ℕ → Result Outcome
raise m which bad_vaddr = do m1 ← raise_exception m which bad_vaddr; ok (stop m1)

-- Is the sum of `a` and `b` out of range, by the signs? `c` is the operand that the source compares
-- the sum with.
abbrev pub sum_overflows : ℕ → ℕ → ℕ → Bool
sum_overflows a b c = not (differ a b) && differ c (word_add a b)

abbrev pub difference_overflows : ℕ → ℕ → Bool
difference_overflows a b = differ a b && differ a (word_sub a b)

unfoldable pub add : Machine → Instruction → ℕ → Result Outcome
unfolding raise store read_register
add m i pc_after = do
  rs ← read_register m i.rs
  rt ← read_register m i.rt
  if sum_overflows rs rt rs
      then raise m overflow_exception 0
      else store m pc_after i.rd (word_add rs rt)

unfoldable pub add_immediate : Machine → Instruction → ℕ → Result Outcome
unfolding raise store read_register
add_immediate m i pc_after = do
  rs ← read_register m i.rs
  if sum_overflows rs i.extra i.extra
      then raise m overflow_exception 0
      else store m pc_after i.rt (word_add rs i.extra)

unfoldable pub subtract : Machine → Instruction → ℕ → Result Outcome
unfolding raise store read_register
subtract m i pc_after = do
  rs ← read_register m i.rs
  rt ← read_register m i.rt
  if difference_overflows rs rt
      then raise m overflow_exception 0
      else store m pc_after i.rd (word_sub rs rt)

-- `registers[instr->rd] = f(registers[instr->rs], registers[instr->rt]); break;`
unfoldable pub of_two : (ℕ → ℕ → ℕ) → Machine → Instruction → ℕ → Result Outcome
unfolding store read_register
of_two f m i pc_after = do
  rs ← read_register m i.rs
  rt ← read_register m i.rt
  store m pc_after i.rd (f rs rt)

-- `registers[instr->rt] = f(registers[instr->rs], instr->extra); break;`
unfoldable pub of_immediate : (ℕ → ℕ → ℕ) → Machine → Instruction → ℕ → Result Outcome
unfolding store read_register
of_immediate f m i pc_after = do rs ← read_register m i.rs; store m pc_after i.rt (f rs i.extra)

-- `registers[instr->rd] = f(registers[instr->rt], instr->extra); break;`
unfoldable pub of_amount : (ℕ → ℕ → ℕ) → Machine → Instruction → ℕ → Result Outcome
unfolding store read_register
of_amount f m i pc_after = do rt ← read_register m i.rt; store m pc_after i.rd (f rt i.extra)

-- `registers[to] = registers[from]; break;`
unfoldable pub move : ℕ → ℕ → Machine → ℕ → Result Outcome
unfolding store read_register
move to from m pc_after = do value ← read_register m from; store m pc_after to value

-- The operands of `of_two`, `of_immediate` and `of_amount`.
abbrev pub and_immediate : ℕ → ℕ → ℕ
and_immediate rs extra = bit_and rs (bit_and extra 0xffff)

abbrev pub nor : ℕ → ℕ → ℕ
nor rs rt = complement (bit_or rs rt)

abbrev pub or_registers : ℕ → ℕ → ℕ
or_registers rs rt = bit_or rs rs

abbrev pub or_immediate : ℕ → ℕ → ℕ
or_immediate rs extra = bit_or rs (bit_and extra 0xffff)

abbrev pub xor_immediate : ℕ → ℕ → ℕ
xor_immediate rs extra = bit_xor rs (bit_and extra 0xffff)

abbrev pub shift_left_variable : ℕ → ℕ → ℕ
shift_left_variable rs rt = shift_left rt (bit_and rs 0x1f)

abbrev pub shift_right_variable : ℕ → ℕ → ℕ
shift_right_variable rs rt = shift_right_by rt (bit_and rs 0x1f)

-- `tmp` is an `int`, so that the shift keeps the sign.
abbrev pub shift_right_logical : ℕ → ℕ → ℕ
shift_right_logical rt extra = shift_right_by rt extra

abbrev pub shift_right_logical_variable : ℕ → ℕ → ℕ
shift_right_logical_variable rs rt = shift_right_by rt (bit_and rs 0x1f)

abbrev pub set_less_than : ℕ → ℕ → ℕ
set_less_than a b = if signed_lt a b then 1 else 0

abbrev pub set_less_than_unsigned : ℕ → ℕ → ℕ
set_less_than_unsigned a b = if ltb a b then 1 else 0

-- The quotient of two `int`s is rounded towards 0, and the remainder has the sign of the dividend.
abbrev pub signed_quotient : ℕ → ℕ → ℕ
signed_quotient a b =
    if differ a b then negate (magnitude a / magnitude b) else magnitude a / magnitude b

abbrev pub signed_remainder : ℕ → ℕ → ℕ
signed_remainder a b =
    if leb sign_bit a then negate (magnitude a % magnitude b) else magnitude a % magnitude b

unfoldable pub store_hi_lo : Machine → ℕ → ℕ → ℕ → Result Outcome
unfolding store write_register
store_hi_lo m pc_after hi lo = do m1 ← write_register m lo_reg lo; store m1 pc_after hi_reg hi

-- The smallest `int` has no quotient by -1: the host's division traps.
unfoldable pub divide : Machine → Instruction → ℕ → Result Outcome
unfolding store_hi_lo read_register
divide m i pc_after = do
  rs ← read_register m i.rs
  rt ← read_register m i.rt
  if rt == 0
      then store_hi_lo m pc_after 0 0
      else if (rs == sign_bit) && (rt == 0xffffffff)
      then err trap
      else store_hi_lo m pc_after (signed_remainder rs rt) (signed_quotient rs rt)

unfoldable pub divide_unsigned : Machine → Instruction → ℕ → Result Outcome
unfolding store_hi_lo read_register
divide_unsigned m i pc_after = do
  rs ← read_register m i.rs
  rt ← read_register m i.rt
  if rt == 0 then store_hi_lo m pc_after 0 0 else store_hi_lo m pc_after (rs % rt) (rs / rt)

unfoldable pub multiply : Bool → Machine → Instruction → ℕ → Result Outcome
unfolding store_hi_lo read_register
multiply signed m i pc_after = do
  rs ← read_register m i.rs
  rt ← read_register m i.rt
  let product = mult rs rt signed
  store_hi_lo m pc_after product.0 product.1
