-- ===== src/Mips/Running.antt =====
-- Machine::OneInstruction of code/machine/mipssim.cc as a whole: each case of the `switch`, and the
-- fetch and the end around it.
use nachos_lab.Base.{ℕ, arith, Option, none, some, true, false, ok}
use nachos_lab.Base.Yields.{Yields, yields, fails, Yields->>=}
use nachos_lab.Machine.{Machine}
use nachos_lab.Machine.Paging.{IsMachine}
use nachos_lab.Machine.Registers.{IsRested, delayed_load-Yields, spare_zero-Yields}
use nachos_lab.Machine.Memory.{IsLocated, read_mem-Yields}
use nachos_lab.Mips.Decode.{
  OpCode, op_add, op_addi, op_addiu, op_addu, op_and, op_andi, op_beq, op_bgez, op_bgezal, op_bgtz,
  op_blez, op_bltz, op_bltzal, op_bne, op_div, op_divu, op_j, op_jal, op_jalr, op_jr, op_lb, op_lbu,
  op_lh, op_lhu, op_lui, op_lw, op_lwl, op_lwr, op_mfhi, op_mflo, op_mthi, op_mtlo, op_mult,
  op_multu, op_nor, op_or, op_ori, op_rfe, op_sb, op_sh, op_sll, op_sllv, op_slt, op_slti, op_sltiu,
  op_sltu, op_sra, op_srav, op_srl, op_srlv, op_sub, op_subu, op_sw, op_swl, op_swr, op_xor,
  op_xori, op_syscall, op_unimp, op_res, special, bcond, Instruction, decode, decode-bounds,
}
use nachos_lab.Mips.Outcome.{Outcome, next, stop, word_add, prev_pc_reg, pc_reg, next_pc_reg}
use nachos_lab.Mips.Execute.{execute, complete, run_decoded, one_instruction}
use nachos_lab.Mips.Safe.{
  IsGeneral, IsSettled, read, store-Yields, raise-Yields, add-Yields, add_immediate-Yields,
  subtract-Yields, of_two-Yields, of_immediate-Yields, of_amount-Yields, move-Yields, divide-Yields,
  divide_unsigned-Yields, multiply-Yields, branch_on_two-Yields, branch_on-Yields, jump-Yields,
  jump_register-Yields, store_bytes-Yields, store_part-Yields, load_part-Yields, load_byte-Yields,
  load_half-Yields, load_word-Yields, branch_and_link-Yields, jump_and_link-Yields,
  jump_and_link_register-Yields,
}

execute-Yields :
    (op : OpCode) (m : Machine) (i : Instruction) (pc_after : ℕ)
    → IsMachine m
    → IsGeneral i
    → Yields IsSettled (execute op m i pc_after)
unfolding execute
execute-Yields op_add m i pc_after w g = add-Yields m i pc_after w g
execute-Yields op_addi m i pc_after w g = add_immediate-Yields m i pc_after w g
execute-Yields op_addiu m i pc_after w g = of_immediate-Yields m i pc_after w g _
execute-Yields op_addu m i pc_after w g = of_two-Yields m i pc_after w g _
execute-Yields op_and m i pc_after w g = of_two-Yields m i pc_after w g _
execute-Yields op_andi m i pc_after w g = of_immediate-Yields m i pc_after w g _
execute-Yields op_beq m i pc_after w g = branch_on_two-Yields m i pc_after w g _
execute-Yields op_bgezal m i pc_after w g = branch_and_link-Yields m i pc_after w g _
execute-Yields op_bgez m i pc_after w g = branch_on-Yields m i pc_after w g _
execute-Yields op_bgtz m i pc_after w g = branch_on-Yields m i pc_after w g _
execute-Yields op_blez m i pc_after w g = branch_on-Yields m i pc_after w g _
execute-Yields op_bltzal m i pc_after w g = branch_and_link-Yields m i pc_after w g _
execute-Yields op_bltz m i pc_after w g = branch_on-Yields m i pc_after w g _
execute-Yields op_bne m i pc_after w g = branch_on_two-Yields m i pc_after w g _
execute-Yields op_div m i pc_after w g = divide-Yields m i pc_after w g
execute-Yields op_divu m i pc_after w g = divide_unsigned-Yields m i pc_after w g
execute-Yields op_jal m i pc_after w g = jump_and_link-Yields m i pc_after w g
execute-Yields op_j m i pc_after w g = jump-Yields m i pc_after w g
execute-Yields op_jalr m i pc_after w g = jump_and_link_register-Yields m i pc_after w g
execute-Yields op_jr m i pc_after w g = jump_register-Yields m i pc_after w g
execute-Yields op_lb m i pc_after w g = load_byte-Yields m i pc_after w g true
execute-Yields op_lbu m i pc_after w g = load_byte-Yields m i pc_after w g false
execute-Yields op_lh m i pc_after w g = load_half-Yields m i pc_after w g true
execute-Yields op_lhu m i pc_after w g = load_half-Yields m i pc_after w g false
execute-Yields op_lui m i pc_after w g = store-Yields m pc_after _ w (omega (arith, g.rt))
execute-Yields op_lw m i pc_after w g = load_word-Yields m i pc_after w g
execute-Yields op_lwl m i pc_after w g = load_part-Yields m i pc_after w g _
execute-Yields op_lwr m i pc_after w g = load_part-Yields m i pc_after w g _
execute-Yields op_mfhi m i pc_after w g =
    move-Yields m i pc_after w g _ _ (omega (arith, g.rd, g.rs)) (omega (arith, g.rd, g.rs))
execute-Yields op_mflo m i pc_after w g =
    move-Yields m i pc_after w g _ _ (omega (arith, g.rd, g.rs)) (omega (arith, g.rd, g.rs))
execute-Yields op_mthi m i pc_after w g =
    move-Yields m i pc_after w g _ _ (omega (arith, g.rd, g.rs)) (omega (arith, g.rd, g.rs))
execute-Yields op_mtlo m i pc_after w g =
    move-Yields m i pc_after w g _ _ (omega (arith, g.rd, g.rs)) (omega (arith, g.rd, g.rs))
execute-Yields op_mult m i pc_after w g = multiply-Yields m i pc_after w g true
execute-Yields op_multu m i pc_after w g = multiply-Yields m i pc_after w g false
execute-Yields op_nor m i pc_after w g = of_two-Yields m i pc_after w g _
execute-Yields op_or m i pc_after w g = of_two-Yields m i pc_after w g _
execute-Yields op_ori m i pc_after w g = of_immediate-Yields m i pc_after w g _
execute-Yields op_sb m i pc_after w g = store_bytes-Yields m i pc_after w g 1
execute-Yields op_sh m i pc_after w g = store_bytes-Yields m i pc_after w g 2
execute-Yields op_sll m i pc_after w g = of_amount-Yields m i pc_after w g _
execute-Yields op_sllv m i pc_after w g = of_two-Yields m i pc_after w g _
execute-Yields op_slt m i pc_after w g = of_two-Yields m i pc_after w g _
execute-Yields op_slti m i pc_after w g = of_immediate-Yields m i pc_after w g _
execute-Yields op_sltiu m i pc_after w g = of_immediate-Yields m i pc_after w g _
execute-Yields op_sltu m i pc_after w g = of_two-Yields m i pc_after w g _
execute-Yields op_sra m i pc_after w g = of_amount-Yields m i pc_after w g _
execute-Yields op_srav m i pc_after w g = of_two-Yields m i pc_after w g _
execute-Yields op_srl m i pc_after w g = of_amount-Yields m i pc_after w g _
execute-Yields op_srlv m i pc_after w g = of_two-Yields m i pc_after w g _
execute-Yields op_sub m i pc_after w g = subtract-Yields m i pc_after w g
execute-Yields op_subu m i pc_after w g = of_two-Yields m i pc_after w g _
execute-Yields op_sw m i pc_after w g = store_bytes-Yields m i pc_after w g 4
execute-Yields op_swl m i pc_after w g = store_part-Yields m i pc_after w g _
execute-Yields op_swr m i pc_after w g = store_part-Yields m i pc_after w g _
execute-Yields op_syscall m i pc_after w g = raise-Yields m _ 0 w
execute-Yields op_xor m i pc_after w g = of_two-Yields m i pc_after w g _
execute-Yields op_xori m i pc_after w g = of_immediate-Yields m i pc_after w g _
execute-Yields op_res m i pc_after w g = raise-Yields m _ 0 w
execute-Yields op_unimp m i pc_after w g = raise-Yields m _ 0 w
execute-Yields op_rfe m i pc_after w g = fails tt
execute-Yields special m i pc_after w g = fails tt
execute-Yields bcond m i pc_after w g = fails tt

complete-Yields : (outcome : Outcome) → IsSettled outcome → Yields IsRested (complete outcome)
unfolding complete
complete-Yields (stop m) r = yields r
complete-Yields (next m pc_after load value) (w, h) =
    Yields->>= (delayed_load-Yields m load value w h) (λ m1 r.
      Yields->>= (read m1 r.machine (omega arith)) (λ pc _.
        Yields->>= (spare_zero-Yields m1 prev_pc_reg pc r (omega arith) (omega arith)) (λ m2 r2.
          Yields->>= (read m2 r2.machine (omega arith)) (λ next_pc _.
            Yields->>= (spare_zero-Yields m2 pc_reg next_pc r2 (omega arith) (omega arith))
              (λ m3 r3.
                spare_zero-Yields m3 next_pc_reg pc_after r3 (omega arith) (omega arith))))))

decode-IsGeneral : (raw : ℕ) → IsGeneral (decode raw)
decode-IsGeneral raw =
    let (rs, rt, rd, _) = decode-bounds raw in record { rs = rs; rt = rt; rd = rd }

run_decoded-Yields : (raw : ℕ) (m : Machine) → IsMachine m → Yields IsRested (run_decoded raw m)
unfolding run_decoded
run_decoded-Yields raw m w = Yields->>= (read m w (omega arith)) (λ next_pc _.
    Yields->>=
      (execute-Yields (decode raw).op_code m (decode raw) (word_add next_pc 4) w
        (decode-IsGeneral raw))
      complete-Yields)

-- One instruction from any well-formed machine, whatever its memory and registers hold: no access is
-- outside the register file, the page table or the bitmap of the frames, and where the simulation goes
-- on, the machine is well formed and register 0 is 0.
pub one_instruction-IsRested : (m : Machine) → IsMachine m → Yields IsRested (one_instruction m)
unfolding one_instruction
one_instruction-IsRested m w =
    Yields->>= (read m w (omega arith))
      (λ pc _. Yields->>= (read_mem-Yields m pc 4 w) (λ (fetched, m1) l. answer fetched m1 l))
  where
    answer :
        (fetched : Option ℕ) (m1 : Machine)
        → IsLocated (fetched, m1)
        → Yields IsRested (elim fetched [ none ↦ ok m1 | some raw ↦ run_decoded raw m1 ])
    answer none m1 l = yields l
    answer (some raw) m1 l = run_decoded-Yields raw m1 l
