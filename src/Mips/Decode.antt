-- ===== src/Mips/Decode.antt =====
-- Instruction::Decode of code/machine/mipssim.cc, with the tables of mipssim.h.
use nachos_lab.Base.{
  ℕ, ◌+◌, ◌/◌, ◌%◌, ◌^◌, ◌<◌, List, [], ◌∷◌, leb, ◌==◌, if◌then◌else◌, arith, get_or,
}

-- The operations, and the two marks for a second table.
pub data OpCode : Type 0 where
  op_add op_addi op_addiu op_addu op_and op_andi op_beq op_bgez : OpCode
  op_bgezal op_bgtz op_blez op_bltz op_bltzal op_bne op_div op_divu : OpCode
  op_j op_jal op_jalr op_jr op_lb op_lbu op_lh op_lhu : OpCode
  op_lui op_lw op_lwl op_lwr op_mfhi op_mflo op_mthi op_mtlo : OpCode
  op_mult op_multu op_nor op_or op_ori op_rfe op_sb op_sh : OpCode
  op_sll op_sllv op_slt op_slti op_sltiu op_sltu op_sra op_srav : OpCode
  op_srl op_srlv op_sub op_subu op_sw op_swl op_swr op_xor : OpCode
  op_xori op_syscall op_unimp op_res : OpCode
  special bcond : OpCode

pub data Format : Type 0 where
  ifmt jfmt rfmt : Format

abbrev pub op_table : List (OpCode × Format)
op_table =
    (special, rfmt)
    ∷ (bcond, ifmt)
    ∷ (op_j, jfmt)
    ∷ (op_jal, jfmt)
    ∷ (op_beq, ifmt)
    ∷ (op_bne, ifmt)
    ∷ (op_blez, ifmt)
    ∷ (op_bgtz, ifmt)
    ∷ (op_addi, ifmt)
    ∷ (op_addiu, ifmt)
    ∷ (op_slti, ifmt)
    ∷ (op_sltiu, ifmt)
    ∷ (op_andi, ifmt)
    ∷ (op_ori, ifmt)
    ∷ (op_xori, ifmt)
    ∷ (op_lui, ifmt)
    ∷ (op_unimp, ifmt)
    ∷ (op_unimp, ifmt)
    ∷ (op_unimp, ifmt)
    ∷ (op_unimp, ifmt)
    ∷ (op_res, ifmt)
    ∷ (op_res, ifmt)
    ∷ (op_res, ifmt)
    ∷ (op_res, ifmt)
    ∷ (op_res, ifmt)
    ∷ (op_res, ifmt)
    ∷ (op_res, ifmt)
    ∷ (op_res, ifmt)
    ∷ (op_res, ifmt)
    ∷ (op_res, ifmt)
    ∷ (op_res, ifmt)
    ∷ (op_res, ifmt)
    ∷ (op_lb, ifmt)
    ∷ (op_lh, ifmt)
    ∷ (op_lwl, ifmt)
    ∷ (op_lw, ifmt)
    ∷ (op_lbu, ifmt)
    ∷ (op_lhu, ifmt)
    ∷ (op_lwr, ifmt)
    ∷ (op_res, ifmt)
    ∷ (op_sb, ifmt)
    ∷ (op_sh, ifmt)
    ∷ (op_swl, ifmt)
    ∷ (op_sw, ifmt)
    ∷ (op_res, ifmt)
    ∷ (op_res, ifmt)
    ∷ (op_swr, ifmt)
    ∷ (op_res, ifmt)
    ∷ (op_unimp, ifmt)
    ∷ (op_unimp, ifmt)
    ∷ (op_unimp, ifmt)
    ∷ (op_unimp, ifmt)
    ∷ (op_res, ifmt)
    ∷ (op_res, ifmt)
    ∷ (op_res, ifmt)
    ∷ (op_res, ifmt)
    ∷ (op_unimp, ifmt)
    ∷ (op_unimp, ifmt)
    ∷ (op_unimp, ifmt)
    ∷ (op_unimp, ifmt)
    ∷ (op_res, ifmt)
    ∷ (op_res, ifmt)
    ∷ (op_res, ifmt)
    ∷ (op_res, ifmt)
    ∷ []

abbrev pub special_table : List OpCode
special_table =
    op_sll ∷ op_res ∷ op_srl ∷ op_sra ∷ op_sllv ∷ op_res ∷ op_srlv ∷ op_srav ∷ op_jr ∷ op_jalr
    ∷ op_res ∷ op_res ∷ op_syscall ∷ op_unimp ∷ op_res ∷ op_res ∷ op_mfhi ∷ op_mthi ∷ op_mflo
    ∷ op_mtlo ∷ op_res ∷ op_res ∷ op_res ∷ op_res ∷ op_mult ∷ op_multu ∷ op_div ∷ op_divu ∷ op_res
    ∷ op_res ∷ op_res ∷ op_res ∷ op_add ∷ op_addu ∷ op_sub ∷ op_subu ∷ op_and ∷ op_or ∷ op_xor
    ∷ op_nor ∷ op_res ∷ op_res ∷ op_slt ∷ op_sltu ∷ op_res ∷ op_res ∷ op_res ∷ op_res ∷ op_res
    ∷ op_res ∷ op_res ∷ op_res ∷ op_res ∷ op_res ∷ op_res ∷ op_res ∷ op_res ∷ op_res ∷ op_res
    ∷ op_res ∷ op_res ∷ op_res ∷ op_res ∷ op_res ∷ []

-- `extra` is an `int`, as a word.
pub record Instruction : Type 0 where
  pub value : ℕ
  pub op_code : OpCode
  pub rs : ℕ
  pub rt : ℕ
  pub rd : ℕ
  pub extra : ℕ

-- `extra |= 0xffff0000` where bit 15 is on.
abbrev pub sign_extend : ℕ → ℕ
sign_extend w = if leb 0x8000 w then 0xffff0000 + w else w

unfoldable pub extra_of : Format → ℕ → ℕ
extra_of ifmt value = sign_extend (value % 2 ^ 16)
extra_of rfmt value = value / 2 ^ 6 % 2 ^ 5
extra_of jfmt value = value % 2 ^ 26

-- The operation that bits 16 to 20 choose.
pub bcond_op : ℕ → OpCode
bcond_op i =
    if i == 0
    then op_bltz
    else if i == 1
    then op_bgez
    else if i == 0x10
    then op_bltzal
    else if i == 0x11
    then op_bgezal
    else op_unimp

unfoldable pub second_op : OpCode → ℕ → OpCode
unfolding bcond_op
second_op special value = get_or special_table (value % 2 ^ 6) op_res
second_op bcond value = bcond_op (value / 2 ^ 16 % 2 ^ 5)
second_op op value = op

unfoldable pub decode : ℕ → Instruction
unfolding second_op extra_of
decode value =
    let (op, format) = get_or op_table (value / 2 ^ 26 % 2 ^ 6) (op_res, ifmt) in
    record {
      value = value;
      op_code = second_op op value;
      rs = value / 2 ^ 21 % 2 ^ 5;
      rt = value / 2 ^ 16 % 2 ^ 5;
      rd = value / 2 ^ 11 % 2 ^ 5;
      extra = extra_of format value;
    }

extra_of-lt : (f : Format) (value : ℕ) → extra_of f value < 2 ^ 32
unfolding extra_of
extra_of-lt ifmt value = ground arith
extra_of-lt rfmt value = omega arith
extra_of-lt jfmt value = omega arith

-- The registers that a decoded instruction names are general registers, and its immediate value is a word.
pub decode-bounds :
    (value : ℕ)
    → ((decode value).rs < 32)
      × ((decode value).rt < 32)
      × ((decode value).rd < 32)
      × ((decode value).extra < 2 ^ 32)
unfolding decode
decode-bounds value = (
  omega arith,
  omega arith,
  omega arith,
  extra_of-lt ((get_or op_table (value / 2 ^ 26 % 2 ^ 6) (op_res, ifmt)).1) value,
)
