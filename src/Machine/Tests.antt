-- ===== src/Machine/Tests.antt =====
-- The theorems of the memory at a machine with an empty page table, and at one with a page in it.
use nachos_lab.Base.{
  ℕ, zero, suc, ◌+◌, ◌<◌, ◌*◌, ◌≡◌, refl, true, false, List, [], ◌∷◌, arith, none, some, ok,
  div_round_up, inl, inr, set,
}
use nachos_lab.Base.Int.{ℤ, pos, negsuc}
use nachos_lab.Base.Bits.{digit}
use nachos_lab.BitMap.Valid.{is_set}
use nachos_lab.BitMap.Count.{free, clear_places}
use nachos_lab.Machine.{
  TranslationEntry, Machine, init, page_fault_exception, find_entry, raise_exception, read_mem,
  write_mem,
}
use nachos_lab.Machine.Paging.{IsMachine, Paged, raise_exception-Paged}
use nachos_lab.Machine.Start.{init-IsMachine}
use nachos_lab.Machine.Access.{Mapped, read_mem-swap, read_mem-write_mem}

abbrev repeat : {A : Type 0} → ℕ → A → List A
repeat zero x = []
repeat (suc n) x = x ∷ repeat n x

-- The numbers below `n`, downwards.
abbrev counted : ℕ → List ℕ
counted zero = []
counted (suc n) = n ∷ counted n

abbrev unmapped : TranslationEntry
unmapped = record {
  virtual_page = negsuc 0;
  physical_page = pos 0;
  valid = false;
  read_only = false;
  use_ = false;
  dirty = false;
  thread = negsuc 0;
}

-- Byte `a` of the file is `a % 256`. No frame is in use, and no page is mapped.
abbrev machine : Machine
machine = record {
  registers = repeat 40 0;
  main_memory = λ a. 0;
  page_table = repeat 32 unmapped;
  memory_map = record { num_bits = 32; num_words = 1; map = 0 ∷ [] };
  swap = λ position. some (counted 128);
  pid = pos 3;
}

-- Page 2 is in frame 5.
abbrev entry : TranslationEntry
entry = record unmapped {
  virtual_page = pos 2;
  physical_page = pos 5;
  valid = true;
  thread = pos 3;
}

abbrev loaded : Machine
loaded = record machine { page_table = set (repeat 32 unmapped) 5 entry }

machine-IsMachine : IsMachine machine
unfolding div_round_up
machine-IsMachine = record {
  registers = refl;
  loading = omega arith;
  table = refl;
  valid = record { words = refl; size = refl; unsigned = omega arith };
  frames = refl;
}

free-machine : free machine.memory_map ≡ 32
unfolding free clear_places is_set digit
free-machine = refl

not_mapped : find_entry machine.page_table 0 (pos 3) 2 ≡ none
unfolding find_entry
not_mapped = refl

loaded-Mapped : Mapped loaded 260 5 entry
unfolding find_entry
loaded-Mapped = record {
  found = refl;
  held = refl;
  frame = refl;
  small = omega arith;
  table = refl;
}

tests_raise_exception-Paged :
    (k : ℕ) × (m' : Machine) × (raise_exception machine page_fault_exception 260 ≡ ok m')
    × Paged machine 260 (counted 128) k m'
tests_raise_exception-Paged =
    raise_exception-Paged 260 (counted 128) machine-IsMachine (omega (arith, free-machine)) refl

read_mem-swap_example : (m' : Machine) × (read_mem machine 260 2 ≡ ok (some (123 + 256 * 122), m'))
read_mem-swap_example =
    read_mem-swap 260 2 (123 + 256 * 122) (counted 128) machine-IsMachine (omega arith)
      (inr (inl refl)) refl not_mapped (omega (arith, free-machine)) refl (omega arith) refl

read_mem-write_mem_example :
    (m' m'' : Machine) × (write_mem loaded 260 4 70000 ≡ ok (true, m'))
    × (read_mem m' 260 4 ≡ ok (some 70000, m''))
read_mem-write_mem_example =
    read_mem-write_mem loaded 260 5 70000 entry loaded-Mapped refl refl (omega arith)

tests_init_IsMachine :
    (m : Machine) × (init (7 ∷ []) (λ a. 9) (λ a. none) (pos 3) ≡ ok m)
    × IsMachine m
    × ((thread : ℤ) (vpn : ℕ) → find_entry m.page_table 0 thread vpn ≡ none)
    × ((k : ℕ) → k < 32 → is_set m.memory_map k ≡ false)
    × ((a : ℕ) → a < 4096 → m.main_memory a ≡ 0)
unfolding div_round_up
tests_init_IsMachine = init-IsMachine (7 ∷ []) (λ a. 9) (λ a. none) (pos 3) refl (omega arith, tt)
