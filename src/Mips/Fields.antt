-- ===== src/Mips/Fields.antt =====
-- Words that are put together from their fields, and Instruction::Decode of code/machine/mipssim.cc.
use nachos_lab.Base.{
  ℕ, ◌+◌, ◌-◌, ◌*◌, ◌/◌, ◌%◌, ◌^◌, ◌<◌, ◌≡◌, refl, ap, arith, leb, ltb, if◌then◌else◌, get_or,
  Bool-cases, inl, inr, true, false,
}
use nachos_lab.Base.Int.{ℤ, pos, negsuc, int_of_word}
use nachos_lab.Mips.Decode.{
  ifmt, op_res, op_table, special_table, decode, extra_of, second_op, sign_extend,
}

-- An instruction with an immediate value of 16 bits, and one with three registers and a shift amount.
abbrev pub immediate_word : ℕ → ℕ → ℕ → ℕ → ℕ
immediate_word op rs rt immediate = op * 2 ^ 26 + rs * 2 ^ 21 + rt * 2 ^ 16 + immediate

abbrev pub register_word : ℕ → ℕ → ℕ → ℕ → ℕ → ℕ
register_word rs rt rd amount funct =
    rs * 2 ^ 21 + rt * 2 ^ 16 + rd * 2 ^ 11 + amount * 2 ^ 6 + funct

-- Sixteen bits as a number with a sign.
abbrev pub int_of_half : ℕ → ℤ
int_of_half v = if leb (2 ^ 15) v then negsuc (2 ^ 16 - 1 - v) else pos v

sign_extend-int : (v : ℕ) → v < 2 ^ 16 → int_of_word (sign_extend v) ≡ int_of_half v
sign_extend-int v h = elim (Bool-cases (leb 0x8000 v)) [
  | inl e ↦
      let big : ltb (0xffff0000 + v) (2 ^ 31) ≡ false = ground arith in
      rw (e, big) (ap negsuc (omega arith))
  | inr e ↦ let small : ltb v (2 ^ 31) ≡ true = ground arith in rw (e, small) refl
]

-- Decode gives back the fields of a word. With an operation of the immediate format: the two registers,
-- and the sixteen bits as a number with a sign. With the operation 0: the operation that the function
-- chooses in the second table, the three registers, and the shift amount.
pub decode-fields :
    (op rs rt rd amount funct immediate : ℕ)
    → op < 64
    → rs < 32
    → rt < 32
    → rd < 32
    → amount < 32
    → funct < 64
    → immediate < 2 ^ 16
    → (get_or op_table op (op_res, ifmt)).1 ≡ ifmt
    → ((decode (immediate_word op rs rt immediate)).rs ≡ rs)
      × ((decode (immediate_word op rs rt immediate)).rt ≡ rt)
      × (int_of_word (decode (immediate_word op rs rt immediate)).extra ≡ int_of_half immediate)
      × ((decode (register_word rs rt rd amount funct)).op_code ≡ get_or special_table funct op_res)
      × ((decode (register_word rs rt rd amount funct)).rs ≡ rs)
      × ((decode (register_word rs rt rd amount funct)).rt ≡ rt)
      × ((decode (register_word rs rt rd amount funct)).rd ≡ rd)
      × ((decode (register_word rs rt rd amount funct)).extra ≡ amount)
unfolding decode second_op extra_of
decode-fields op rs rt rd amount funct immediate o s t d a f i format =
    let w = immediate_word op rs rt immediate in
    let v = register_word rs rt rd amount funct in
    let top : w / 2 ^ 26 % 2 ^ 6 ≡ op = omega arith in
    let low : w % 2 ^ 16 ≡ immediate = omega arith in
    let zero_op : v / 2 ^ 26 % 2 ^ 6 ≡ 0 = omega arith in
    let function : v % 2 ^ 6 ≡ funct = omega arith in
    let shift : v / 2 ^ 6 % 2 ^ 5 ≡ amount = omega arith in
    (
      omega arith,
      omega arith,
      rw (top, format) (rw low (sign_extend-int immediate i)),
      rw zero_op (rw function refl),
      omega arith,
      omega arith,
      omega arith,
      rw zero_op shift,
    )
