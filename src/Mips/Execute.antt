-- ===== src/Mips/Execute.antt =====
-- Machine::OneInstruction of code/machine/mipssim.cc: the fetch, the choice of the operation, and the
-- end of a completed instruction. A run without debugging output.
use Prim.Native.Nat.{bit_and, bit_xor}
use nachos_lab.Base.{ℕ, not, true, false, none, some, ◌==◌, Result, ok, err, assert, ◌>>=◌}
use nachos_lab.Machine.{
  Machine, read_register, write_register, delayed_load, read_mem, syscall_exception,
  illegal_instr_exception,
}
use nachos_lab.Mips.Decode.{
  OpCode, op_add, op_addi, op_addiu, op_addu, op_and, op_andi, op_beq, op_bgez, op_bgezal, op_bgtz,
  op_blez, op_bltz, op_bltzal, op_bne, op_div, op_divu, op_j, op_jal, op_jalr, op_jr, op_lb, op_lbu,
  op_lh, op_lhu, op_lui, op_lw, op_lwl, op_lwr, op_mfhi, op_mflo, op_mthi, op_mtlo, op_mult,
  op_multu, op_nor, op_or, op_ori, op_rfe, op_sb, op_sh, op_sll, op_sllv, op_slt, op_slti, op_sltiu,
  op_sltu, op_sra, op_srav, op_srl, op_srlv, op_sub, op_subu, op_sw, op_swl, op_swr, op_xor,
  op_xori, op_syscall, op_unimp, op_res, special, bcond, Instruction, decode,
}
use nachos_lab.Mips.Outcome.{
  Outcome, next, stop, hi_reg, lo_reg, pc_reg, next_pc_reg, prev_pc_reg, word_add, word_sub,
  shift_left, shift_right_by, store,
}
use nachos_lab.Mips.Compute.{
  raise, add, add_immediate, subtract, of_two, of_immediate, of_amount, move, and_immediate, nor,
  or_registers, or_immediate, xor_immediate, shift_left_variable, shift_right_variable,
  shift_right_logical, shift_right_logical_variable, set_less_than, set_less_than_unsigned, divide,
  divide_unsigned, multiply,
}
use nachos_lab.Mips.Transfer.{
  branch_on_two, branch_on, branch_and_link, is_negative, is_positive, jump, jump_and_link,
  jump_register, jump_and_link_register, load_byte, load_half, load_word, merge_left, merge_right,
  load_part, store_bytes, split_left, split_right, store_part,
}

-- The `switch`: the operation, the machine, the instruction and `pcAfter`.
unfoldable pub execute : OpCode → Machine → Instruction → ℕ → Result Outcome
execute op_add m i pc_after = add m i pc_after
execute op_addi m i pc_after = add_immediate m i pc_after
execute op_addiu m i pc_after = of_immediate word_add m i pc_after
execute op_addu m i pc_after = of_two word_add m i pc_after
execute op_and m i pc_after = of_two bit_and m i pc_after
execute op_andi m i pc_after = of_immediate and_immediate m i pc_after
execute op_beq m i pc_after = branch_on_two ◌==◌ m i pc_after
execute op_bgezal m i pc_after = branch_and_link (λ a. not (is_negative a)) m i pc_after
execute op_bgez m i pc_after = branch_on (λ a. not (is_negative a)) m i pc_after
execute op_bgtz m i pc_after = branch_on is_positive m i pc_after
execute op_blez m i pc_after = branch_on (λ a. not (is_positive a)) m i pc_after
execute op_bltzal m i pc_after = branch_and_link is_negative m i pc_after
execute op_bltz m i pc_after = branch_on is_negative m i pc_after
execute op_bne m i pc_after = branch_on_two (λ a b. not (a == b)) m i pc_after
execute op_div m i pc_after = divide m i pc_after
execute op_divu m i pc_after = divide_unsigned m i pc_after
execute op_jal m i pc_after = jump_and_link m i pc_after
execute op_j m i pc_after = jump m i pc_after
execute op_jalr m i pc_after = jump_and_link_register m i pc_after
execute op_jr m i pc_after = jump_register m i pc_after
execute op_lb m i pc_after = load_byte true m i pc_after
execute op_lbu m i pc_after = load_byte false m i pc_after
execute op_lh m i pc_after = load_half true m i pc_after
execute op_lhu m i pc_after = load_half false m i pc_after
execute op_lui m i pc_after = store m pc_after i.rt (shift_left i.extra 16)
execute op_lw m i pc_after = load_word m i pc_after
execute op_lwl m i pc_after = load_part merge_left m i pc_after
execute op_lwr m i pc_after = load_part merge_right m i pc_after
execute op_mfhi m i pc_after = move i.rd hi_reg m pc_after
execute op_mflo m i pc_after = move i.rd lo_reg m pc_after
execute op_mthi m i pc_after = move hi_reg i.rs m pc_after
execute op_mtlo m i pc_after = move lo_reg i.rs m pc_after
execute op_mult m i pc_after = multiply true m i pc_after
execute op_multu m i pc_after = multiply false m i pc_after
execute op_nor m i pc_after = of_two nor m i pc_after
execute op_or m i pc_after = of_two or_registers m i pc_after
execute op_ori m i pc_after = of_immediate or_immediate m i pc_after
execute op_sb m i pc_after = store_bytes 1 m i pc_after
execute op_sh m i pc_after = store_bytes 2 m i pc_after
execute op_sll m i pc_after = of_amount shift_left m i pc_after
execute op_sllv m i pc_after = of_two shift_left_variable m i pc_after
execute op_slt m i pc_after = of_two set_less_than m i pc_after
execute op_slti m i pc_after = of_immediate set_less_than m i pc_after
execute op_sltiu m i pc_after = of_immediate set_less_than_unsigned m i pc_after
execute op_sltu m i pc_after = of_two set_less_than_unsigned m i pc_after
execute op_sra m i pc_after = of_amount shift_right_by m i pc_after
execute op_srav m i pc_after = of_two shift_right_variable m i pc_after
execute op_srl m i pc_after = of_amount shift_right_logical m i pc_after
execute op_srlv m i pc_after = of_two shift_right_logical_variable m i pc_after
execute op_sub m i pc_after = subtract m i pc_after
execute op_subu m i pc_after = of_two word_sub m i pc_after
execute op_sw m i pc_after = store_bytes 4 m i pc_after
execute op_swl m i pc_after = store_part split_left m i pc_after
execute op_swr m i pc_after = store_part split_right m i pc_after
execute op_syscall m i pc_after = raise m syscall_exception 0
execute op_xor m i pc_after = of_two bit_xor m i pc_after
execute op_xori m i pc_after = of_immediate xor_immediate m i pc_after
execute op_res m i pc_after = raise m illegal_instr_exception 0
execute op_unimp m i pc_after = raise m illegal_instr_exception 0
execute op_rfe m i pc_after = err assert
execute special m i pc_after = err assert
execute bcond m i pc_after = err assert

-- What follows the `switch`.
unfoldable pub complete : Outcome → Result Machine
unfolding delayed_load read_register write_register
complete (stop m) = ok m
complete (next m pc_after load value) = do
  m1 ← delayed_load m load value
  pc ← read_register m1 pc_reg
  m2 ← write_register m1 prev_pc_reg pc
  next_pc ← read_register m2 next_pc_reg
  m3 ← write_register m2 pc_reg next_pc
  write_register m3 next_pc_reg pc_after

-- What follows the fetch of `raw`.
unfoldable pub run_decoded : ℕ → Machine → Result Machine
unfolding read_register decode execute complete
run_decoded raw m = do
  next_pc ← read_register m next_pc_reg
  outcome ← execute (decode raw).op_code m (decode raw) (word_add next_pc 4)
  complete outcome

unfoldable pub one_instruction : Machine → Result Machine
unfolding read_register read_mem run_decoded
one_instruction m = do
  pc ← read_register m pc_reg
  (fetched, m1) ← read_mem m pc 4
  elim fetched [ none ↦ ok m1 | some raw ↦ run_decoded raw m1 ]
