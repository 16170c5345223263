-- ===== src/AddrSpace.antt =====
-- code/userprog/addrspace.cc and the user state of code/threads/thread.cc: the registers of a program at
-- its start and across a switch of threads, and the loading of a program. The executable is what
-- it holds, a list of bytes, and the file "VirtualMemory" a value of the host.
pub mod State
pub mod Loading
pub mod Program
mod Tests
use nachos_lab.Base.Int.{int_of_word, ℤ}
use nachos_lab.Base.{
  Bool, true, false, not, ◌&&◌, ltb, leb, ◌==◌, if◌then◌else◌, length, get_or, take, drop, err,
  wild, check, ◌>>◌, ℕ, zero, suc, ◌+◌, ◌-◌, ◌*◌, ◌%◌, ◌^◌, List, [], ◌∷◌, div_round_up, Result, ok,
  ◌>>=◌, Option, some, none, trap,
}
use nachos_lab.FileHeader.Words.{words_of_bytes}
use nachos_lab.OpenFile.{overwrite}
use nachos_lab.Machine.{Machine, read_register, write_register, page_size}

abbrev pub num_total_regs : ℕ
num_total_regs = 40

abbrev pub user_stack_size : ℕ
user_stack_size = 1024

-- A segment of an object file, and the header of the file.
pub record Segment : Type 0 where
  pub virtual_addr : ℕ
  pub in_file_addr : ℕ
  pub size : ℕ

pub record NoffHeader : Type 0 where
  pub noff_magic : ℕ
  pub code : Segment
  pub init_data : Segment
  pub uninit_data : Segment

abbrev pub noff_magic_number : ℕ
noff_magic_number = 0xbadfad

-- The header as the first ten words of the file; of a shorter file it is not initialised.
unfoldable pub noff_of_words : List ℕ → Result NoffHeader
noff_of_words (magic ∷ cv ∷ cf ∷ cs ∷ iv ∷ if_ ∷ is ∷ uv ∷ uf ∷ us ∷ _) = ok (record {
  noff_magic = magic;
  code = record { virtual_addr = cv; in_file_addr = cf; size = cs };
  init_data = record { virtual_addr = iv; in_file_addr = if_; size = is };
  uninit_data = record { virtual_addr = uv; in_file_addr = uf; size = us };
})
noff_of_words _ = err wild

-- WordToHost of code/machine/translate.cc, on a host that is not big endian.
abbrev pub word_to_host : ℕ → ℕ
word_to_host word = word

abbrev pub swap_segment : Segment → Segment
swap_segment s = record {
  virtual_addr = word_to_host s.virtual_addr;
  in_file_addr = word_to_host s.in_file_addr;
  size = word_to_host s.size;
}

unfoldable pub swap_header : NoffHeader → NoffHeader
swap_header h = record {
  noff_magic = word_to_host h.noff_magic;
  code = swap_segment h.code;
  init_data = swap_segment h.init_data;
  uninit_data = swap_segment h.uninit_data;
}

-- The header that the constructor reads and tests.
unfoldable pub read_header : List ℕ → Result NoffHeader
unfolding noff_of_words swap_header words_of_bytes
read_header executable = do
  raw ← noff_of_words (words_of_bytes executable)
  let h : NoffHeader =
      if not (raw.noff_magic == noff_magic_number)
        && (word_to_host raw.noff_magic == noff_magic_number)
      then swap_header raw
      else raw
  check (h.noff_magic == noff_magic_number)
  ok h

-- `numPages` of the constructor; the sum is an `unsigned int`.
unfoldable pub num_pages : NoffHeader → ℕ
num_pages n =
    div_round_up ((n.code.size + n.init_data.size + n.uninit_data.size + user_stack_size) % 2 ^ 32)
      page_size

-- The two calls of the file system on "VirtualMemory", with the host under them: the open file after
-- Create with a size, or NULL; and the file after WriteAt, unless the host ends the run.
pub record Calls (File : Type 0) : Type 0 where
  pub create_and_open : ℕ → Option File
  pub write_at : File → ℤ → List ℕ → Option File

abbrev pub or_ended : {File : Type 0} → Option File → Result File
or_ended (some f) = ok f
or_ended none = err trap

unfoldable pub zeros : ℕ → List ℕ
zeros zero = []
zeros (suc n) = 0 ∷ zeros n

-- `noffH.code.virtualAddr*PageSize`, an `int`.
abbrev pub file_position : ℕ → ℤ
file_position virtual_addr = int_of_word ((virtual_addr * page_size) % 2 ^ 32)

module _ {File : Type 0} (calls : Calls File) where
  -- `if (noffH.code.size > 0) { ... }`, of either segment: ReadAt into the array, WriteAt from it. The
  -- first argument is what the executable holds; a position in it that is negative ends the run, and so does a call on NULL.
  unfoldable pub load_segment :
      List ℕ → Segment → List ℕ × Option File → Result (List ℕ × Option File)
  load_segment executable s (temp, vm) =
      if ltb 0 s.size && ltb s.size (2 ^ 31)
      then (if leb (s.virtual_addr + s.size) (length temp)
          then (let temp' =
                overwrite temp s.virtual_addr (take s.size (drop s.in_file_addr executable)) in
              do
                check (ltb s.in_file_addr (2 ^ 31))
                file ← or_ended vm
                vm' ← or_ended (
                    calls.write_at file (file_position s.virtual_addr)
                      (take s.size (drop s.virtual_addr temp')))
                ok (temp', some vm'))
          else err wild)
      else ok (temp, vm)

  -- The constructor: the number of pages, and the file "VirtualMemory", which is NULL where it could not be
  -- opened.
  unfoldable pub address_space : List ℕ → Result (ℕ × Option File)
  unfolding read_header load_segment zeros num_pages
  address_space executable = do
    h ← read_header executable
    let size = (num_pages h * page_size) % 2 ^ 32
    loaded ← load_segment executable h.code (zeros size, calls.create_and_open size)
    (_, vm') ← load_segment executable h.init_data loaded
    ok (num_pages h, vm')

-- `for (i = 0; i < NumTotalRegs; i++) machine->WriteRegister(i, 0)`, from `i` with `n` rounds left.
unfoldable pub clear_registers : ℕ → ℕ → Machine → Result Machine
unfolding write_register
clear_registers zero i m = ok m
clear_registers (suc n) i m = do m1 ← write_register m i 0; clear_registers n (i + 1) m1

-- AddrSpace::InitRegisters; the registers 34, 35 and 29 are the program counters and the stack pointer.
unfoldable pub init_registers : Machine → ℕ → Result Machine
unfolding clear_registers write_register
init_registers m pages = do
  m1 ← clear_registers num_total_regs 0 m
  m2 ← write_register m1 34 0
  m3 ← write_register m2 35 4
  write_register m3 29 ((pages * page_size + (2 ^ 32 - 16)) % 2 ^ 32)

-- The loop of Thread::SaveUserState, from register `i` with `n` rounds left: the array `userRegisters`.
unfoldable pub save_from : ℕ → ℕ → Machine → Result (List ℕ)
unfolding read_register
save_from zero i m = ok []
save_from (suc n) i m = do
  value ← read_register m i
  rest ← save_from n (i + 1) m
  ok (value ∷ rest)

unfoldable pub save_user_state : Machine → Result (List ℕ)
unfolding save_from
save_user_state m = save_from num_total_regs 0 m

-- The loop of Thread::RestoreUserState, with the rest of the array.
unfoldable pub restore_from : ℕ → List ℕ → Machine → Result Machine
unfolding write_register
restore_from i [] m = ok m
restore_from i (value ∷ rest) m = do m1 ← write_register m i value; restore_from (i + 1) rest m1

unfoldable pub restore_user_state : List ℕ → Machine → Result Machine
unfolding restore_from
restore_user_state user_registers m = restore_from 0 user_registers m
