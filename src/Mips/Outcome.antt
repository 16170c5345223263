-- ===== src/Mips/Outcome.antt =====
-- Machine::OneInstruction of code/machine/mipssim.cc: what the `switch` on the operation leaves, and
-- the arithmetic of its words.
use nachos_lab.Base.{ℕ, ◌+◌, ◌-◌, ◌*◌, ◌/◌, ◌%◌, ◌^◌, Bool, leb, if◌then◌else◌, Result, ok, ◌>>=◌}
use nachos_lab.Base.Int.{int_of_word, int_ltb}
use nachos_lab.Machine.{Machine, read_register, write_register}
use nachos_lab.Mips.{sign_bit, complement}

abbrev pub hi_reg : ℕ
hi_reg = 32

abbrev pub lo_reg : ℕ
lo_reg = 33

abbrev pub pc_reg : ℕ
pc_reg = 34

abbrev pub next_pc_reg : ℕ
next_pc_reg = 35

abbrev pub prev_pc_reg : ℕ
prev_pc_reg = 36

-- `next` is the end of the switch, with `pcAfter`, `nextLoadReg` and `nextLoadValue`; `stop` is a
-- `return` from within it.
pub data Outcome : Type 0 where
  next : Machine → ℕ → ℕ → ℕ → Outcome
  stop : Machine → Outcome

-- Sums, differences and left shifts of 32 bits, which wrap around.
abbrev pub word_add : ℕ → ℕ → ℕ
word_add a b = (a + b) % 2 ^ 32

abbrev pub word_sub : ℕ → ℕ → ℕ
word_sub a b = (a + (2 ^ 32 - b)) % 2 ^ 32

abbrev pub shift_left : ℕ → ℕ → ℕ
shift_left a n = a * 2 ^ n % 2 ^ 32

-- `a >> n` of an `int`, which keeps the sign.
abbrev pub shift_right_by : ℕ → ℕ → ℕ
shift_right_by a n = if leb sign_bit a then complement (complement a / 2 ^ n) else a / 2 ^ n

-- `IndexToAddr`
abbrev pub index_to_addr : ℕ → ℕ
index_to_addr x = shift_left x 2

-- `a < b` of two `int`s
abbrev pub signed_lt : ℕ → ℕ → Bool
signed_lt a b = int_ltb (int_of_word a) (int_of_word b)

-- `registers[num] = value; break;`
unfoldable pub store : Machine → ℕ → ℕ → ℕ → Result Outcome
unfolding write_register
store m pc_after num value = do m1 ← write_register m num value; ok (next m1 pc_after 0 0)

-- `if (test) pcAfter = registers[NextPCReg] + IndexToAddr(instr->extra); break;`
unfoldable pub branch : Machine → ℕ → ℕ → Bool → Result Outcome
unfolding read_register
branch m pc_after extra test = do
  next_pc ← read_register m next_pc_reg
  ok (next m (if test then word_add next_pc (index_to_addr extra) else pc_after) 0 0)

-- `registers[num] = registers[NextPCReg] + 4;`
unfoldable pub link : Machine → ℕ → Result Machine
unfolding read_register write_register
link m num = do next_pc ← read_register m next_pc_reg; write_register m num (word_add next_pc 4)
