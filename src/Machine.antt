-- ===== src/Machine.antt =====
-- code/machine/translate.cc, machine.cc and code/userprog/exception.cc, built with one page table for
-- the machine (no USE_TLB, so that `tlb` is NULL): the memory of user programs, its translation, and
-- demand paging. A word is an unsigned number below 2 ^ 32, a byte one below 256; the simulated
-- machine is little endian. `swap` is what Open("VirtualMemory") and ReadAt of a page give at each
-- position: the bytes that are read, fewer than a page at the end of the file, or none where Open gives
-- NULL or ReadAt ends the run.
pub mod Paging
pub mod Translation
pub mod Access
pub mod Start
pub mod Registers
pub mod Trap
pub mod Memory
pub mod Tlb
mod Tests
use nachos_lab.Base.{
  ℕ, zero, suc, ◌+◌, ◌-◌, ◌*◌, ◌/◌, ◌%◌, ◌^◌, Bool, true, false, not, ◌&&◌, ◌||◌, List, [], ◌∷◌,
  Option, none, some, ltb, leb, ◌==◌, if◌then◌else◌, Result, ok, err, assert, halted, finished,
  ◌>>=◌, ◌>>◌, check, put, fetch, length, trap, get_or,
}
use nachos_lab.Base.Int.{ℤ, pos, negsuc, int_eq, word_of_int, int_of_char, int_of_word}
use nachos_lab.BitMap
use nachos_lab.BitMap.{BitMap, find}
use nachos_lab.SynchDisk.{sector_size}

abbrev pub page_size : ℕ
page_size = sector_size

abbrev pub num_phys_pages : ℕ
num_phys_pages = 32

abbrev pub memory_size : ℕ
memory_size = num_phys_pages * page_size

pub data ExceptionType : Type 0 where
  no_exception syscall_exception page_fault_exception read_only_exception bus_error_exception :
      ExceptionType
  address_error_exception overflow_exception illegal_instr_exception : ExceptionType

pub record TranslationEntry : Type 0 where
  pub virtual_page : ℤ
  pub physical_page : ℤ
  pub valid : Bool
  pub read_only : Bool
  pub use_ : Bool
  pub dirty : Bool
  pub thread : ℤ

-- `pid` is that of the running thread.
pub record Machine : Type 0 where
  pub registers : List ℕ
  pub main_memory : ℕ → ℕ
  pub page_table : List TranslationEntry
  pub memory_map : BitMap
  pub swap : ℤ → Option (List ℕ)
  pub pid : ℤ

-- The loops of the constructor: `n` registers at 0, and the entries from `i` on.
pub cleared_registers : ℕ → List ℕ
cleared_registers zero = []
cleared_registers (suc n) = 0 ∷ cleared_registers n

pub unmapped_entries : ℕ → ℕ → List TranslationEntry
unmapped_entries zero i = []
unmapped_entries (suc n) i =
    record {
      virtual_page = negsuc 0;
      physical_page = pos i;
      valid = false;
      read_only = false;
      use_ = false;
      dirty = false;
      thread = negsuc 0;
    }
    ∷ unmapped_entries n (i + 1)

-- Machine::Machine, for the file and the thread at its side. `raw` and `memory` are what the new
-- bitmap and the new memory hold before they are cleared.
pub init : List ℕ → (ℕ → ℕ) → (ℤ → Option (List ℕ)) → ℤ → Result Machine
unfolding cleared_registers unmapped_entries
init raw memory swap pid = do
  memory_map ← BitMap.init num_phys_pages raw
  ok (record {
    registers = cleared_registers 40;
    main_memory = λ a. if ltb a memory_size then 0 else memory a;
    page_table = unmapped_entries num_phys_pages 0;
    memory_map = memory_map;
    swap = swap;
    pid = pid;
  })

-- The numbers of the registers that the kernel and the simulation use.
abbrev pub load_reg : ℕ
load_reg = 37

abbrev pub load_value_reg : ℕ
load_value_reg = 38

abbrev pub bad_vaddr_reg : ℕ
bad_vaddr_reg = 39

unfoldable pub read_register : Machine → ℕ → Result ℕ
read_register m num = fetch m.registers num

unfoldable pub write_register : Machine → ℕ → ℕ → Result Machine
write_register m num value = do
  registers ← put m.registers num value
  ok (record m { registers = registers })

-- Machine::DelayedLoad: finish the load under way, and begin another.
unfoldable pub delayed_load : Machine → ℕ → ℕ → Result Machine
unfolding read_register write_register
delayed_load m next_reg next_value = do
  reg ← read_register m load_reg
  value ← read_register m load_value_reg
  m1 ← write_register m reg value
  m2 ← write_register m1 load_reg next_reg
  m3 ← write_register m2 load_value_reg next_value
  write_register m3 0 0

-- The test on one entry, and the loop over the table, which keeps the last match.
abbrev pub maps : ℤ → ℕ → TranslationEntry → Bool
maps pid vpn e = word_of_int e.virtual_page == vpn && e.valid && int_eq e.thread pid

unfoldable pub find_entry : List TranslationEntry → ℕ → ℤ → ℕ → Option ℕ
find_entry [] j pid vpn = none
find_entry (e ∷ es) j pid vpn = elim (find_entry es (j + 1) pid vpn) [
  | some k ↦ some k
  | none ↦ if maps pid vpn e then some j else none
]

-- Is the address aligned for an access of that size?
abbrev pub misaligned : ℕ → ℕ → Bool
misaligned addr size = (size == 4 && not (addr % 4 == 0)) || (size == 2 && not (addr % 2 == 0))

-- The exception, and the physical address where there is none.
unfoldable pub translate : Machine → ℕ → ℕ → Bool → Result (ExceptionType × ℕ × Machine)
unfolding find_entry
translate m addr size writing =
    if misaligned addr size
    then ok (address_error_exception, 0, m)
    else elim (find_entry m.page_table 0 m.pid (addr / page_size)) [
      | none ↦ ok (page_fault_exception, 0, m)
      | some j ↦ do
        e ← fetch m.page_table j
        let frame = word_of_int e.physical_page
        if e.read_only && writing
            then ok (read_only_exception, 0, m)
            else if leb num_phys_pages frame
            then ok (bus_error_exception, 0, m)
            else (do
              table ← put m.page_table j (record e { use_ = true; dirty = e.dirty || writing })
              check (leb (frame * page_size + addr % page_size + size) memory_size)
              ok (
                no_exception,
                frame * page_size + addr % page_size,
                record m { page_table = table },
              ))
    ]

-- `vpn * PageSize`, as an `int`.
abbrev pub code_pos : ℕ → ℤ
code_pos addr = int_of_word (addr / page_size * page_size)

-- `ReadAt(&mainMemory[paddr], PageSize, code_pos)`: the bytes that are read, at most a page, go to the
-- frame, and the rest of the frame is as it was.
abbrev pub load_page : Machine → ℕ → List ℕ → ℕ → ℕ
load_page m paddr bytes a =
    if leb paddr a && ltb a (paddr + page_size) && ltb (a - paddr) (length bytes)
    then get_or bytes (a - paddr) 0
    else m.main_memory a

-- A run that the host ends.
abbrev pub or_trap : Option (List ℕ) → Result (List ℕ)
or_trap (some bytes) = ok bytes
or_trap none = err trap

-- The page fault branch of ExceptionHandler: a frame is taken, mapped and read in.
unfoldable pub page_fault : Machine → Result Machine
unfolding read_register
page_fault m = do
  addr ← read_register m bad_vaddr_reg
  (new_page, memory_map) ← find m.memory_map
  elim new_page [
    | negsuc _ ↦ err assert
    | pos k ↦ do
      e ← fetch m.page_table k
      table ← put m.page_table k (record e {
        virtual_page = pos (addr / page_size);
        physical_page = pos k;
        valid = true;
        thread = m.pid;
      })
      bytes ← or_trap (m.swap (code_pos addr))
      ok (record m {
        page_table = table;
        memory_map = memory_map;
        main_memory = load_page m (k * page_size) bytes;
      })
  ]

-- ExceptionHandler of exception.cc; the system calls Halt and Exit have the numbers 0 and 1.
unfoldable pub exception_handler : Machine → ExceptionType → Result Machine
unfolding page_fault
exception_handler m syscall_exception = do
  type ← read_register m 2
  if type == 0 then err halted else if type == 1 then err finished else err assert
exception_handler m page_fault_exception = page_fault m
exception_handler m _ = err assert

unfoldable pub raise_exception : Machine → ExceptionType → ℕ → Result Machine
unfolding write_register delayed_load exception_handler
raise_exception m which bad_vaddr = do
  m1 ← write_register m bad_vaddr_reg bad_vaddr
  m2 ← delayed_load m1 0 0
  exception_handler m2 which

-- The translation that ReadMem and WriteMem share: a second try after an exception, and `none` where
-- that fails too.
unfoldable pub locate : Machine → ℕ → ℕ → Bool → Result (Option ℕ × Machine)
unfolding translate raise_exception
locate m addr size writing = do
  (exception, physical, m') ← translate m addr size writing
  elim exception [
    | no_exception ↦ ok (some physical, m')
    | failure ↦ do
      m'' ← raise_exception m' failure addr
      (again, physical', m3) ← translate m'' addr size writing
      elim again [ no_exception ↦ ok (some physical', m3) | _ ↦ ok (none, m3) ]
  ]

-- The bytes of memory at an address as the value that the source reads there: one byte as a signed
-- `char`, two and four unsigned.
abbrev pub read_bytes : (ℕ → ℕ) → ℕ → ℕ → Result ℕ
read_bytes mem a size =
    if size == 1
    then ok (word_of_int (int_of_char (mem a)))
    else if size == 2
    then ok (mem a + 256 * mem (a + 1))
    else if size == 4
    then ok (mem a + 256 * (mem (a + 1) + 256 * (mem (a + 2) + 256 * mem (a + 3))))
    else err assert

abbrev pub store_byte : (ℕ → ℕ) → ℕ → ℕ → ℕ → ℕ
store_byte mem a v b = if a == b then v else mem b

abbrev pub write_bytes : (ℕ → ℕ) → ℕ → ℕ → ℕ → Result (ℕ → ℕ)
write_bytes mem a size v =
    if size == 1
    then ok (store_byte mem a (v % 256))
    else if size == 2
    then ok (store_byte (store_byte mem a (v % 256)) (a + 1) (v / 256 % 256))
    else if size == 4
    then ok (
        store_byte
          (store_byte (store_byte (store_byte mem a (v % 256)) (a + 1) (v / 256 % 256)) (a + 2)
            (v / 65536 % 256))
          (a + 3) (v / 16777216 % 256))
    else err assert

-- `none` where the translation failed.
unfoldable pub read_mem : Machine → ℕ → ℕ → Result (Option ℕ × Machine)
unfolding locate
read_mem m addr size = do
  (found, m') ← locate m addr size false
  elim found [
    | none ↦ ok (none, m')
    | some a ↦ do value ← read_bytes m'.main_memory a size; ok (some value, m')
  ]

unfoldable pub write_mem : Machine → ℕ → ℕ → ℕ → Result (Bool × Machine)
unfolding locate
write_mem m addr size value = do
  (found, m') ← locate m addr size true
  elim found [
    | none ↦ ok (false, m')
    | some a ↦ do
      memory ← write_bytes m'.main_memory a size value
      ok (true, record m' { main_memory = memory })
  ]
