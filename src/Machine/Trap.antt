-- ===== src/Machine/Trap.antt =====
-- Translation in code/machine/translate.cc and the exceptions of code/machine/machine.cc and
-- code/userprog/exception.cc: no access of the kernel is outside an array, whatever the address is.
use nachos_lab.Base.{
  ℕ, ◌+◌, ◌*◌, ◌/◌, ◌%◌, ◌<◌, ◌≡◌, refl, ◌∙◌, Bool, true, false, ◌&&◌, ◌||◌, List, [], ◌∷◌, some,
  arith, Option-cases, Bool-cases, length, length-set, get_or, inl, inr, ok, err, assert, ◌>>=◌,
  ◌>>◌, check, fetch, put, leb, ◌==◌, if◌then◌else◌, none, Option, ◌≤◌,
}
use nachos_lab.Base.Int.{ℤ, pos, negsuc, word_of_int}
use nachos_lab.Base.Yields.{
  Yields, yields, fails, Yields->>=, Yields-if, Yields-check, fetch-get_or, put-Yields,
}
use nachos_lab.BitMap.{BitMap}
use nachos_lab.BitMap.Safe.{IsFound, find-IsFound}
use nachos_lab.Machine.{
  TranslationEntry, ExceptionType, no_exception, syscall_exception, page_fault_exception,
  read_only_exception, bus_error_exception, address_error_exception, overflow_exception,
  illegal_instr_exception, Machine, find_entry, misaligned, translate, page_fault,
  exception_handler, raise_exception, page_size, num_phys_pages, memory_size, load_page, or_trap,
  code_pos,
}
use nachos_lab.Machine.Paging.{IsMachine}
use nachos_lab.Machine.Registers.{
  IsRested, read_register-Yields, write_register-Yields, delayed_load-Yields,
}

find_entry-lt :
    (es : List TranslationEntry) (j k : ℕ) (pid : ℤ) (vpn : ℕ)
    → find_entry es j pid vpn ≡ some k
    → k < j + length es
unfolding find_entry
find_entry-lt [] j k pid vpn found = cc
find_entry-lt (e ∷ es) j k pid vpn found = elim (Option-cases (find_entry es (j + 1) pid vpn)) [
  | inr (i, later) ↦
      let same : i ≡ k = cc (rw later at found) in
      omega (arith, find_entry-lt es (j + 1) i pid vpn later)
  | inl missing ↦ ground (arith, rw missing at found)
]

-- Only the table is written.
pub record Kept (m m' : Machine) : Type 0 where
  pub machine : IsMachine m'
  pub registers : m'.registers ≡ m.registers

abbrev pub Translated : Machine → ExceptionType × ℕ × Machine → Type 0
Translated m (e, physical, m') = Kept m m'

pub unchanged : {m : Machine} → IsMachine m → Kept m m
unchanged i = record { machine = i; registers = refl }

with_table :
    {m : Machine} (table : List TranslationEntry)
    → IsMachine m
    → length table ≡ 32
    → Kept m (record m { page_table = table })
with_table table i long = record {
  machine = record {
    registers = i.registers;
    loading = i.loading;
    table = long;
    valid = i.valid;
    frames = i.frames;
  };
  registers = refl;
}

blank : TranslationEntry
blank = record {
  virtual_page = pos 0;
  physical_page = pos 0;
  valid = false;
  read_only = false;
  use_ = false;
  dirty = false;
  thread = pos 0;
}

-- An entry of the table that is found.
found-Yields :
    (m : Machine) (addr size j : ℕ) (writing : Bool)
    → IsMachine m
    → j < 32
    → (e : TranslationEntry)
    → Yields (Translated m) (
        if e.read_only && writing
        then ok (read_only_exception, 0, m)
        else if leb num_phys_pages (word_of_int e.physical_page)
        then ok (bus_error_exception, 0, m)
        else (do
          table ← put m.page_table j (record e { use_ = true; dirty = e.dirty || writing })
          check
              (leb (word_of_int e.physical_page * page_size + addr % page_size + size) memory_size)
          ok (
            no_exception,
            word_of_int e.physical_page * page_size + addr % page_size,
            record m { page_table = table },
          )))
found-Yields m addr size j writing i h e =
    let touched : TranslationEntry = record e { use_ = true; dirty = e.dirty || writing } in
    Yields-if (e.read_only && writing) (λ _. yields (unchanged i))
      (λ _.
        Yields-if (leb num_phys_pages (word_of_int e.physical_page)) (λ _. yields (unchanged i))
          (λ _.
            Yields->>= {P = λ table. length table ≡ 32}
              (put-Yields m.page_table j (omega (arith, i.table)) touched
                (length-set m.page_table j touched ∙ i.table))
              (λ table long. Yields-check _ (yields (with_table table i long)))))

pub translate-Yields :
    (m : Machine) (addr size : ℕ) (writing : Bool)
    → IsMachine m
    → Yields (Translated m) (translate m addr size writing)
unfolding translate
translate-Yields m addr size writing i = elim (Bool-cases (misaligned addr size)) [
  | inl off ↦ rw off (yields (unchanged i))
  | inr aligned ↦ rw aligned (elim (Option-cases (find_entry m.page_table 0 m.pid (addr / 128))) [
    | inl missing ↦ rw missing (yields (unchanged i))
    | inr (j, found) ↦
        let h : j < 32 =
          omega (arith, find_entry-lt m.page_table 0 j m.pid (addr / 128) found, i.table) in
        rw found (
          rw (fetch-get_or m.page_table j (omega (arith, i.table)) blank)
            (found-Yields m addr size j writing i h (get_or m.page_table j blank)))
  ])
]

or_trap-Yields : (page : Option (List ℕ)) → Yields (λ bytes. 0 ≤ length bytes) (or_trap page)
or_trap-Yields (some bytes) = yields (omega arith)
or_trap-Yields none = fails tt

page_fault-Yields : (m : Machine) → IsRested m → Yields IsRested (page_fault m)
unfolding page_fault
page_fault-Yields m r = Yields->>= (read_register-Yields m 39 r.machine (omega arith)) (λ addr _.
    Yields->>= (find-IsFound m.memory_map r.machine.valid)
      (λ (place, b) found. loaded-Yields addr place b found))
  where
    loaded-Yields :
        (addr : ℕ) (place : ℤ) (b : BitMap)
        → IsFound m.memory_map.num_bits (place, b)
        → Yields IsRested (elim place [
          | negsuc _ ↦ err assert
          | pos k ↦ do
            e ← fetch m.page_table k
            table ← put m.page_table k (record e {
              virtual_page = pos (addr / page_size);
              physical_page = pos k;
              valid = true;
              thread = m.pid;
            })
            bytes ← or_trap (m.swap (code_pos addr))
            ok (record m {
              page_table = table;
              memory_map = b;
              main_memory = load_page m (k * page_size) bytes;
            })
        ])
    loaded-Yields addr (negsuc k) b found = fails tt
    loaded-Yields addr (pos k) b found =
        let i = r.machine in
        let e : TranslationEntry = record (get_or m.page_table k blank) {
          virtual_page = pos (addr / page_size);
          physical_page = pos k;
          valid = true;
          thread = m.pid;
        } in
        rw (fetch-get_or m.page_table k (omega (arith, found.0, i.table, i.frames)) blank) (
          Yields->>= {P = λ table. length table ≡ 32}
            (put-Yields m.page_table k (omega (arith, found.0, i.table, i.frames)) e
              (length-set m.page_table k e ∙ i.table))
            (λ table long. Yields->>= (or_trap-Yields (m.swap (code_pos addr))) (λ bytes _.
              yields (record {
                machine = record {
                  registers = i.registers;
                  loading = i.loading;
                  table = long;
                  valid = found.1;
                  frames = found.2 ∙ i.frames;
                };
                zero_register = r.zero_register;
              }))))

exception_handler-Yields :
    (m : Machine) (which : ExceptionType) → IsRested m → Yields IsRested (exception_handler m which)
unfolding exception_handler
exception_handler-Yields m syscall_exception r =
    Yields->>= (read_register-Yields m 2 r.machine (omega arith)) (λ type _.
      Yields-if (type == 0) (λ _. fails tt)
        (λ _. Yields-if (type == 1) (λ _. fails tt) (λ _. fails tt)))
exception_handler-Yields m page_fault_exception r = page_fault-Yields m r
exception_handler-Yields m no_exception r = fails tt
exception_handler-Yields m read_only_exception r = fails tt
exception_handler-Yields m bus_error_exception r = fails tt
exception_handler-Yields m address_error_exception r = fails tt
exception_handler-Yields m overflow_exception r = fails tt
exception_handler-Yields m illegal_instr_exception r = fails tt

pub raise_exception-Yields :
    (m : Machine) (which : ExceptionType) (addr : ℕ)
    → IsMachine m
    → Yields IsRested (raise_exception m which addr)
unfolding raise_exception
raise_exception-Yields m which addr i =
    Yields->>= (write_register-Yields m 39 addr i (omega arith) (λ e. absurd (omega arith)))
      (λ m1 i1.
        Yields->>= (delayed_load-Yields m1 0 0 i1 (omega arith))
          (λ m2 r. exception_handler-Yields m2 which r))
