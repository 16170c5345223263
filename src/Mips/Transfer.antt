-- ===== src/Mips/Transfer.antt =====
-- Machine::OneInstruction of code/machine/mipssim.cc: the branches, the jumps, and the loads and stores.
use Prim.Native.Nat.{bit_and, bit_or}
use nachos_lab.Base.{
  ℕ, Bool, not, ◌&&◌, none, some, leb, ◌==◌, if◌then◌else◌, Result, ok, ◌>>=◌, ◌>>◌, check,
}
use nachos_lab.Machine.{
  Machine, read_register, address_error_exception, read_mem, write_mem, load_reg, load_value_reg,
}
use nachos_lab.Mips.{sign_bit}
use nachos_lab.Mips.Decode.{Instruction}
use nachos_lab.Mips.Outcome.{
  Outcome, next, stop, word_add, shift_left, shift_right_by, index_to_addr, signed_lt, branch, link,
}
use nachos_lab.Mips.Compute.{raise}

-- OP_BEQ and OP_BNE: `test` of the two registers.
unfoldable pub branch_on_two : (ℕ → ℕ → Bool) → Machine → Instruction → ℕ → Result Outcome
unfolding branch read_register
branch_on_two test m i pc_after = do
  rs ← read_register m i.rs
  rt ← read_register m i.rt
  branch m pc_after i.extra (test rs rt)

unfoldable pub branch_on : (ℕ → Bool) → Machine → Instruction → ℕ → Result Outcome
unfolding branch read_register
branch_on test m i pc_after = do rs ← read_register m i.rs; branch m pc_after i.extra (test rs)

-- The `case` that falls through to the branch: the register is read after the link.
unfoldable pub branch_and_link : (ℕ → Bool) → Machine → Instruction → ℕ → Result Outcome
unfolding branch_on link
branch_and_link test m i pc_after = do m1 ← link m 31; branch_on test m1 i pc_after

abbrev pub is_negative : ℕ → Bool
is_negative a = leb sign_bit a

abbrev pub is_positive : ℕ → Bool
is_positive a = signed_lt 0 a

unfoldable pub jump : Machine → Instruction → ℕ → Result Outcome
jump m i pc_after = ok (next m (bit_or (bit_and pc_after 0xf0000000) (index_to_addr i.extra)) 0 0)

unfoldable pub jump_and_link : Machine → Instruction → ℕ → Result Outcome
unfolding jump link
jump_and_link m i pc_after = do m1 ← link m 31; jump m1 i pc_after

unfoldable pub jump_register : Machine → Instruction → ℕ → Result Outcome
unfolding read_register
jump_register m i pc_after = do target ← read_register m i.rs; ok (next m target 0 0)

unfoldable pub jump_and_link_register : Machine → Instruction → ℕ → Result Outcome
unfolding jump_register link
jump_and_link_register m i pc_after = do m1 ← link m i.rd; jump_register m1 i pc_after

-- `tmp = registers[instr->rs] + instr->extra;`
unfoldable pub address_of : Machine → Instruction → Result ℕ
unfolding read_register
address_of m i = do rs ← read_register m i.rs; ok (word_add rs i.extra)

-- `if (!machine->ReadMem(addr, size, &value)) return;`, and then the rest of the case.
unfoldable pub reading : Machine → ℕ → ℕ → (ℕ → Machine → Result Outcome) → Result Outcome
unfolding read_mem
reading m addr size rest = do
  (found, m1) ← read_mem m addr size
  elim found [ none ↦ ok (stop m1) | some value ↦ rest value m1 ]

unfoldable pub writing : Machine → ℕ → ℕ → ℕ → ℕ → Result Outcome
unfolding write_mem
writing m addr size value pc_after = do
  (done, m1) ← write_mem m addr size value
  if done then ok (next m1 pc_after 0 0) else ok (stop m1)

abbrev pub extend_byte : Bool → ℕ → ℕ
extend_byte signed value =
    if not (bit_and value 0x80 == 0) && signed then bit_or value 0xffffff00 else bit_and value 0xff

abbrev pub extend_half : Bool → ℕ → ℕ
extend_half signed value =
    if not (bit_and value 0x8000 == 0) && signed
    then bit_or value 0xffff0000
    else bit_and value 0xffff

unfoldable pub load_byte : Bool → Machine → Instruction → ℕ → Result Outcome
unfolding address_of reading
load_byte signed m i pc_after = do
  addr ← address_of m i
  reading m addr 1 (λ value m1. ok (next m1 pc_after i.rt (extend_byte signed value)))

unfoldable pub load_half : Bool → Machine → Instruction → ℕ → Result Outcome
unfolding address_of reading raise
load_half signed m i pc_after = do
  addr ← address_of m i
  if not (bit_and addr 1 == 0)
      then raise m address_error_exception addr
      else reading m addr 2 (λ value m1. ok (next m1 pc_after i.rt (extend_half signed value)))

unfoldable pub load_word : Machine → Instruction → ℕ → Result Outcome
unfolding address_of reading raise
load_word m i pc_after = do
  addr ← address_of m i
  if not (bit_and addr 3 == 0)
      then raise m address_error_exception addr
      else reading m addr 4 (λ value m1. ok (next m1 pc_after i.rt value))

-- What the register is to hold before the load changes a part of it: a load under way counts.
unfoldable pub pending_value : Machine → ℕ → Result ℕ
unfolding read_register
pending_value m num = do
  reg ← read_register m load_reg
  if reg == num then read_register m load_value_reg else read_register m num

-- The inner `switch` of OP_LWL, on `tmp & 0x3`, with the old value and the word of memory.
abbrev pub merge_left : ℕ → ℕ → ℕ → ℕ
merge_left lane old value =
    if lane == 0
    then value
    else if lane == 1
    then bit_or (bit_and old 0xff) (shift_left value 8)
    else if lane == 2
    then bit_or (bit_and old 0xffff) (shift_left value 16)
    else bit_or (bit_and old 0xffffff) (shift_left value 24)

abbrev pub merge_right : ℕ → ℕ → ℕ → ℕ
merge_right lane old value =
    if lane == 0
    then bit_or (bit_and old 0xffffff00) (bit_and (shift_right_by value 24) 0xff)
    else if lane == 1
    then bit_or (bit_and old 0xffff0000) (bit_and (shift_right_by value 16) 0xffff)
    else if lane == 2
    then bit_or (bit_and old 0xff000000) (bit_and (shift_right_by value 8) 0xffffff)
    else value

-- OP_LWL with `merge_left`, and OP_LWR with `merge_right`.
unfoldable pub load_part : (ℕ → ℕ → ℕ → ℕ) → Machine → Instruction → ℕ → Result Outcome
unfolding address_of reading pending_value
load_part merge m i pc_after = do
  addr ← address_of m i
  check (bit_and addr 3 == 0)
  reading m addr 4 (λ value m1. do
    old ← pending_value m1 i.rt
    ok (next m1 pc_after i.rt (merge (bit_and addr 3) old value)))

-- OP_SB, OP_SH and OP_SW, of 1, 2 and 4 bytes.
unfoldable pub store_bytes : ℕ → Machine → Instruction → ℕ → Result Outcome
unfolding address_of read_register writing
store_bytes size m i pc_after = do
  addr ← address_of m i
  rt ← read_register m i.rt
  writing m addr size rt pc_after

-- The inner `switch` of OP_SWL and of OP_SWR, with the register and the word of memory.
abbrev pub split_left : ℕ → ℕ → ℕ → ℕ
split_left lane rt value =
    if lane == 0
    then rt
    else if lane == 1
    then bit_or (bit_and value 0xff000000) (bit_and (shift_right_by rt 8) 0xffffff)
    else if lane == 2
    then bit_or (bit_and value 0xffff0000) (bit_and (shift_right_by rt 16) 0xffff)
    else bit_or (bit_and value 0xffffff00) (bit_and (shift_right_by rt 24) 0xff)

abbrev pub split_right : ℕ → ℕ → ℕ → ℕ
split_right lane rt value =
    if lane == 0
    then bit_or (bit_and value 0xffffff) (shift_left rt 24)
    else if lane == 1
    then bit_or (bit_and value 0xffff) (shift_left rt 16)
    else if lane == 2
    then bit_or (bit_and value 0xff) (shift_left rt 8)
    else rt

unfoldable pub store_part : (ℕ → ℕ → ℕ → ℕ) → Machine → Instruction → ℕ → Result Outcome
unfolding address_of reading read_register writing
store_part split m i pc_after = do
  addr ← address_of m i
  check (bit_and addr 3 == 0)
  reading m (bit_and addr 0xfffffffc) 4 (λ value m1. do
    rt ← read_register m1 i.rt
    writing m1 (bit_and addr 0xfffffffc) 4 (split (bit_and addr 3) rt value) pc_after)
