-- ===== src/AddrSpace/Tests.antt =====
-- The registers of a program across a switch of threads and at its start, and the loading of a small one.
use nachos_lab.Base.{
  ℕ, zero, suc, ◌+◌, ◌≡◌, refl, false, List, [], ◌∷◌, get_or, div_round_up, none, some, Option,
  Result, ok, err, ◌-◌, ◌&&◌, Bool, ltb, leb, if◌then◌else◌, length,
}
use nachos_lab.Base.Int.{pos, negsuc, ℤ}
use nachos_lab.Machine.{TranslationEntry, Machine}
use nachos_lab.AddrSpace.{
  Segment, NoffHeader, noff_magic_number, num_pages, init_registers, save_user_state,
  restore_user_state, Calls,
}
use nachos_lab.AddrSpace.State.{restore-save_user_state}

abbrev filled : ℕ → ℕ → List ℕ
filled zero x = []
filled (suc n) x = x ∷ filled n x

-- All the registers of a machine hold `x`.
abbrev machine : ℕ → Machine
machine x = record {
  registers = filled 40 x;
  main_memory = λ a. 0;
  page_table = [];
  memory_map = record { num_bits = 32; num_words = 1; map = 1 ∷ [] };
  swap = λ position. none;
  pid = pos 3;
}

abbrev register : ℕ → Result Machine → Option ℕ
register num (ok m) = some (get_or m.registers num 0)
register num (err e) = none

-- Segments of a size, at an address.
abbrev segment : ℕ → ℕ → ℕ → Segment
segment virtual_addr in_file_addr size = record {
  virtual_addr = virtual_addr;
  in_file_addr = in_file_addr;
  size = size;
}

abbrev header : NoffHeader
header = record {
  noff_magic = noff_magic_number;
  code = segment 0 40 1000;
  init_data = segment 1000 1040 0;
  uninit_data = segment 1000 0 40;
}

-- 2064 bytes are seventeen pages, and the stack begins 16 bytes below their end.
tests_start :
    (num_pages header ≡ 17)
    × (register 29 (init_registers (machine 7) (num_pages header)) ≡ some 2160)
    × (register 35 (init_registers (machine 7) (num_pages header)) ≡ some 4)
    × (register 8 (init_registers (machine 7) (num_pages header)) ≡ some 0)
unfolding num_pages init_registers div_round_up
tests_start = (refl, refl, refl, refl)

tests_restore-save_user_state :
    (save_user_state (machine 7) ≡ ok (machine 7).registers)
    × (restore_user_state (machine 7).registers (machine 9)
        ≡ ok (record (machine 9) { registers = (machine 7).registers }))
tests_restore-save_user_state = restore-save_user_state (machine 7) (machine 9) refl refl

-- An object file of 46 bytes: four of code for address 0, two of data for address 4, and eight bytes
-- that are not in the file.
abbrev executable : List ℕ
executable =
    0xad ∷ 0xdf ∷ 0xba ∷ 0 ∷ 0 ∷ 0 ∷ 0 ∷ 0 ∷ 40 ∷ 0 ∷ 0 ∷ 0 ∷ 4 ∷ 0 ∷ 0 ∷ 0 ∷ 4 ∷ 0 ∷ 0 ∷ 0 ∷ 44 ∷ 0
    ∷ 0 ∷ 0 ∷ 2 ∷ 0 ∷ 0 ∷ 0 ∷ 6 ∷ 0 ∷ 0 ∷ 0 ∷ 0 ∷ 0 ∷ 0 ∷ 0 ∷ 8 ∷ 0 ∷ 0 ∷ 0 ∷ 12 ∷ 0 ∷ 2 ∷ 36 ∷ 7
    ∷ 9 ∷ []

abbrev small : NoffHeader
small = record {
  noff_magic = noff_magic_number;
  code = segment 0 40 4;
  init_data = segment 4 44 2;
  uninit_data = segment 6 0 8;
}

-- A host whose files have a byte at each position that was written.
abbrev File : Type 0
File = ℕ → Option ℕ

abbrev inside : ℕ → List ℕ → ℕ → Bool
inside p bytes a = leb p a && ltb a (p + length bytes)

abbrev written : File → ℕ → List ℕ → File
written f p bytes a = if inside p bytes a then some (get_or bytes (a - p) 0) else f a

abbrev write_at : File → ℤ → List ℕ → Option File
write_at f (pos p) bytes = some (written f p bytes)
write_at f (negsuc n) bytes = none

abbrev or_zero : Option ℕ → ℕ
or_zero none = 0
or_zero (some v) = v

abbrev bytes_from : ℕ → ℕ → File → List ℕ
bytes_from zero p f = []
bytes_from (suc n) p f = or_zero (f p) ∷ bytes_from n (p + 1) f

abbrev read : File → ℤ → Option (List ℕ)
read f (pos p) = some (bytes_from 128 p f)
read f (negsuc n) = none

abbrev calls : Calls File
calls = record { create_and_open = λ size. some (λ a. none); write_at = write_at }

abbrev empty_entry : TranslationEntry
empty_entry = record {
  virtual_page = negsuc 0;
  physical_page = pos 0;
  valid = false;
  read_only = false;
  use_ = false;
  dirty = false;
  thread = negsuc 0;
}

abbrev entries : ℕ → List TranslationEntry
entries zero = []
entries (suc n) = empty_entry ∷ entries n

-- The file of the small program, and the machine with it and with no page in memory.
abbrev loaded : File
loaded = written (written (λ a. none) 0 (12 ∷ 0 ∷ 2 ∷ 36 ∷ [])) 512 (7 ∷ 9 ∷ [])

abbrev started : Machine
started = record (machine 0) {
  page_table = entries 32;
  memory_map = record { num_bits = 32; num_words = 1; map = 0 ∷ [] };
  swap = read loaded;
}
