-- ===== src/Mips/RunTests.antt =====
-- Runs of single instructions, and the theorems of the simulation at a machine with a program in its
-- memory.
use nachos_lab.Base.{
  ℕ, zero, suc, ◌+◌, ◌-◌, ◌*◌, ◌/◌, ◌^◌, ◌<◌, ◌≡◌, ◌↔◌, refl, true, false, List, [], ◌∷◌, Option,
  none, some, ok, err, arith, div_round_up, get_or, Result,
}
use nachos_lab.Base.Int.{pos, negsuc}
use nachos_lab.Base.Yields.{Yields}
use nachos_lab.Machine.{TranslationEntry, Machine}
use nachos_lab.Machine.Paging.{IsMachine}
use nachos_lab.Machine.Registers.{IsRested}
use nachos_lab.Mips.{mult}
use nachos_lab.Mips.Product.{magnitude}
use nachos_lab.Mips.Outcome.{word_add, word_sub}
use nachos_lab.Mips.Compute.{
  sum_overflows, difference_overflows, signed_quotient, signed_remainder, shift_right_logical,
  of_immediate, of_two, divide,
}
use nachos_lab.Mips.Transfer.{load_word}
use nachos_lab.Mips.Execute.{run_decoded, one_instruction}
use nachos_lab.Mips.Running.{one_instruction-IsRested}
use nachos_lab.Mips.Meaning.{
  biased, add-exact, subtract-exact, divide-exact, shift_right_logical-signed,
}

abbrev repeat : {A : Type 0} → ℕ → A → List A
repeat zero x = []
repeat (suc n) x = x ∷ repeat n x

abbrev unmapped : TranslationEntry
unmapped = record {
  virtual_page = negsuc 0;
  physical_page = pos 0;
  valid = false;
  read_only = false;
  use_ = false;
  dirty = false;
  thread = negsuc 0;
}

-- `addiu $29, $29, -8` at address 0.
abbrev program : ℕ → ℕ
program a = get_or (0xf8 ∷ 0xff ∷ 0xbd ∷ 0x27 ∷ []) a 0

-- Page 0 is in frame 0.
abbrev entry : TranslationEntry
entry = record unmapped {
  virtual_page = pos 0;
  physical_page = pos 0;
  valid = true;
  thread = pos 3;
}

-- Register 29 is 32, register 4 is -7, register 5 is 2, and the next program counter is 4.
abbrev machine : Machine
machine = record {
  registers =
      0 ∷ 0 ∷ 0 ∷ 0 ∷ 4294967289 ∷ 2 ∷ 0 ∷ 0 ∷ 0 ∷ 0 ∷ 0 ∷ 0 ∷ 0 ∷ 0 ∷ 0 ∷ 0 ∷ 0 ∷ 0 ∷ 0 ∷ 0 ∷ 0 ∷ 0
      ∷ 0 ∷ 0 ∷ 0 ∷ 0 ∷ 0 ∷ 0 ∷ 0 ∷ 32 ∷ 0 ∷ 0 ∷ 0 ∷ 0 ∷ 0 ∷ 4 ∷ 0 ∷ 0 ∷ 0 ∷ 0 ∷ [];
  main_memory = program;
  page_table = entry ∷ repeat 31 unmapped;
  memory_map = record { num_bits = 32; num_words = 1; map = 1 ∷ [] };
  swap = λ position. none;
  pid = pos 3;
}

machine-IsMachine : IsMachine machine
unfolding div_round_up
machine-IsMachine = record {
  registers = refl;
  loading = omega arith;
  table = refl;
  valid = record { words = refl; size = refl; unsigned = omega arith };
  frames = refl;
}

-- A register after an instruction.
abbrev register : ℕ → Result Machine → Option ℕ
register num (ok m) = some (get_or m.registers num 0)
register num (err e) = none

tests_fetch :
    (register 29 (one_instruction machine) ≡ some 24)
    × (register 34 (one_instruction machine) ≡ some 4)
    × (register 35 (one_instruction machine) ≡ some 8)
unfolding one_instruction of_immediate
tests_fetch = (refl, refl, refl)

-- `div $4, $5`, `lw $8, 0($29)`, and `or $8, $4, $5`
tests_operations :
    (register 33 (run_decoded 0x0085001a machine) ≡ some 4294967293)
    × (register 32 (run_decoded 0x0085001a machine) ≡ some 4294967295)
    × (register 37 (run_decoded 0x8fa80000 machine) ≡ some 8)
    × (register 8 (run_decoded 0x00854025 machine) ≡ some 4294967289)
unfolding run_decoded divide load_word of_two mult
tests_operations = (refl, refl, refl, refl)

one_instruction-IsRested_example : Yields IsRested (one_instruction machine)
one_instruction-IsRested_example = one_instruction-IsRested machine machine-IsMachine

tests_add_exact :
    (sum_overflows 5 (2 ^ 32 - 7) 5 ≡ false)
    ↔ (biased (word_add 5 (2 ^ 32 - 7)) + 2 ^ 31 ≡ biased 5 + biased (2 ^ 32 - 7))
tests_add_exact = add-exact 5 (2 ^ 32 - 7) (omega arith) (omega arith)

tests_subtract_exact :
    (difference_overflows 5 (2 ^ 32 - 7) ≡ false)
    ↔ (biased (word_sub 5 (2 ^ 32 - 7)) + biased (2 ^ 32 - 7) ≡ biased 5 + 2 ^ 31)
tests_subtract_exact = subtract-exact 5 (2 ^ 32 - 7) (omega arith) (omega arith)

tests_divide_exact :
    (magnitude (signed_quotient (2 ^ 32 - 7) 2) * magnitude 2
        + magnitude (signed_remainder (2 ^ 32 - 7) 2)
      ≡ magnitude (2 ^ 32 - 7))
    × (magnitude (signed_remainder (2 ^ 32 - 7) 2) < magnitude 2)
tests_divide_exact = divide-exact (2 ^ 32 - 7) 2 (omega arith) (omega arith) (omega arith)

tests_shift_right_logical-signed : (2 ^ 32 - 8) / 2 ^ 1 < shift_right_logical (2 ^ 32 - 8) 1
tests_shift_right_logical-signed =
    shift_right_logical-signed (2 ^ 32 - 8) 1 (omega arith) (omega arith) (omega arith)
      (omega arith)
