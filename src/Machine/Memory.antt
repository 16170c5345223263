-- ===== src/Machine/Memory.antt =====
-- ReadMem and WriteMem of code/machine/translate.cc: no access of the kernel is outside an array,
-- whatever the address is.
use nachos_lab.Base.{ℕ, Bool, true, false, Option, none, some, ok, ◌>>=◌, ◌==◌}
use nachos_lab.Base.Yields.{Yields, yields, fails, Yields->>=, Yields-if}
use nachos_lab.Machine.{
  ExceptionType, no_exception, syscall_exception, page_fault_exception, read_only_exception,
  bus_error_exception, address_error_exception, overflow_exception, illegal_instr_exception,
  Machine, translate, raise_exception, locate, read_bytes, write_bytes, read_mem, write_mem,
}
use nachos_lab.Machine.Paging.{IsMachine}
use nachos_lab.Machine.Registers.{IsRested}
use nachos_lab.Machine.Trap.{Kept, translate-Yields, raise_exception-Yields}

-- An access that fails has raised an exception.
abbrev pub IsLocated {ℓ} : {A : Type ℓ} → Option A × Machine → Type 0
IsLocated (some a, m) = IsMachine m
IsLocated (none, m) = IsRested m

Kept-IsRested : {m m' : Machine} → IsRested m → Kept m m' → IsRested m'
Kept-IsRested r k = record { machine = k.machine; zero_register = rw k.registers r.zero_register }

answered-Yields :
    (again : ExceptionType) (physical : ℕ) (m : Machine)
    → IsRested m
    → Yields {X = Option ℕ × Machine} IsLocated
        (elim again [ no_exception ↦ ok (some physical, m) | _ ↦ ok (none, m) ])
answered-Yields no_exception physical m r = yields r.machine
answered-Yields syscall_exception physical m r = yields r
answered-Yields page_fault_exception physical m r = yields r
answered-Yields read_only_exception physical m r = yields r
answered-Yields bus_error_exception physical m r = yields r
answered-Yields address_error_exception physical m r = yields r
answered-Yields overflow_exception physical m r = yields r
answered-Yields illegal_instr_exception physical m r = yields r

second-Yields :
    (m : Machine) (addr size : ℕ) (writing : Bool) (exception : ExceptionType)
    → IsMachine m
    → Yields {X = Option ℕ × Machine} IsLocated (do
      m'' ← raise_exception m exception addr
      (again, physical', m3) ← translate m'' addr size writing
      elim again [ no_exception ↦ ok (some physical', m3) | _ ↦ ok (none, m3) ])
second-Yields m addr size writing exception i =
    Yields->>= (raise_exception-Yields m exception addr i) (λ m'' r.
      Yields->>= (translate-Yields m'' addr size writing r.machine)
        (λ (again, physical, m3) k. answered-Yields again physical m3 (Kept-IsRested r k)))

-- The first try, and the second where it failed.
first-Yields :
    (m : Machine) (addr size : ℕ) (writing : Bool) (exception : ExceptionType) (physical : ℕ)
    → IsMachine m
    → Yields {X = Option ℕ × Machine} IsLocated (elim exception [
      | no_exception ↦ ok (some physical, m)
      | failure ↦ do
        m'' ← raise_exception m failure addr
        (again, physical', m3) ← translate m'' addr size writing
        elim again [ no_exception ↦ ok (some physical', m3) | _ ↦ ok (none, m3) ]
    ])
first-Yields m addr size writing no_exception physical i = yields i
first-Yields m addr size writing syscall_exception physical i =
    second-Yields m addr size writing syscall_exception i
first-Yields m addr size writing page_fault_exception physical i =
    second-Yields m addr size writing page_fault_exception i
first-Yields m addr size writing read_only_exception physical i =
    second-Yields m addr size writing read_only_exception i
first-Yields m addr size writing bus_error_exception physical i =
    second-Yields m addr size writing bus_error_exception i
first-Yields m addr size writing address_error_exception physical i =
    second-Yields m addr size writing address_error_exception i
first-Yields m addr size writing overflow_exception physical i =
    second-Yields m addr size writing overflow_exception i
first-Yields m addr size writing illegal_instr_exception physical i =
    second-Yields m addr size writing illegal_instr_exception i

pub locate-Yields :
    (m : Machine) (addr size : ℕ) (writing : Bool)
    → IsMachine m
    → Yields IsLocated (locate m addr size writing)
unfolding locate
locate-Yields m addr size writing i =
    Yields->>= (translate-Yields m addr size writing i) (λ (exception, physical, m1) k.
      first-Yields m1 addr size writing exception physical k.machine)

read_bytes-Yields : (mem : ℕ → ℕ) (a size : ℕ) → Yields (λ _. Unit) (read_bytes mem a size)
read_bytes-Yields mem a size =
    Yields-if (size == 1) (λ _. yields tt)
      (λ _.
        Yields-if (size == 2) (λ _. yields tt)
          (λ _. Yields-if (size == 4) (λ _. yields tt) (λ _. fails tt)))

write_bytes-Yields : (mem : ℕ → ℕ) (a size v : ℕ) → Yields (λ _. Unit) (write_bytes mem a size v)
write_bytes-Yields mem a size v =
    Yields-if (size == 1) (λ _. yields tt)
      (λ _.
        Yields-if (size == 2) (λ _. yields tt)
          (λ _. Yields-if (size == 4) (λ _. yields tt) (λ _. fails tt)))

with_memory :
    {m : Machine} (memory : ℕ → ℕ) → IsMachine m → IsMachine (record m { main_memory = memory })
with_memory memory i = record {
  registers = i.registers;
  loading = i.loading;
  table = i.table;
  valid = i.valid;
  frames = i.frames;
}

-- ReadMem, whatever the address and the size are.
pub read_mem-Yields :
    (m : Machine) (addr size : ℕ) → IsMachine m → Yields IsLocated (read_mem m addr size)
unfolding read_mem
read_mem-Yields m addr size i =
    Yields->>= (locate-Yields m addr size false i) (λ (found, m1) l. value-Yields found m1 l)
  where
    value-Yields :
        (found : Option ℕ) (m1 : Machine)
        → IsLocated (found, m1)
        → Yields {X = Option ℕ × Machine} IsLocated (elim found [
          | none ↦ ok (none, m1)
          | some a ↦ do value ← read_bytes m1.main_memory a size; ok (some value, m1)
        ])
    value-Yields none m1 l = yields l
    value-Yields (some a) m1 l =
        Yields->>= (read_bytes-Yields m1.main_memory a size) (λ value _. yields l)

abbrev pub IsWritten : Bool × Machine → Type 0
IsWritten (true, m) = IsMachine m
IsWritten (false, m) = IsRested m

pub write_mem-Yields :
    (m : Machine) (addr size value : ℕ)
    → IsMachine m
    → Yields IsWritten (write_mem m addr size value)
unfolding write_mem
write_mem-Yields m addr size value i =
    Yields->>= (locate-Yields m addr size true i) (λ (found, m1) l. done-Yields found m1 l)
  where
    done-Yields :
        (found : Option ℕ) (m1 : Machine)
        → IsLocated (found, m1)
        → Yields {X = Bool × Machine} IsWritten (elim found [
          | none ↦ ok (false, m1)
          | some a ↦ do
            memory ← write_bytes m1.main_memory a size value
            ok (true, record m1 { main_memory = memory })
        ])
    done-Yields none m1 l = yields l
    done-Yields (some a) m1 l =
        Yields->>= (write_bytes-Yields m1.main_memory a size value)
          (λ memory _. yields (with_memory memory l))
