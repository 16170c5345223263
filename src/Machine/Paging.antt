-- ===== src/Machine/Paging.antt =====
-- Demand paging: RaiseException of code/machine/machine.cc and the page fault branch of
-- code/userprog/exception.cc.
use nachos_lab.Base.{
  ℕ, ◌*◌, ◌/◌, ◌<◌, ◌≡◌, refl, ◌∙◌, ap, true, false, List, arith, some, length, set, get_elem?,
  get_or, length-set, get_elem?-eq-get_or, get_or-set_self, get_or-set_ne, ok, lt→ltb, put-ok,
}
use nachos_lab.Base.Int.{pos}
use nachos_lab.BitMap.Valid.{IsValid, is_set, marked}
use nachos_lab.BitMap.Count.{free}
use nachos_lab.BitMap.Taking.{find-takes}
use nachos_lab.Machine.{
  TranslationEntry, Machine, page_fault_exception, delayed_load, read_register, write_register,
  page_fault, exception_handler, raise_exception, load_page, code_pos, num_phys_pages, page_size,
  load_reg, load_value_reg, bad_vaddr_reg,
}

-- The machine has its 40 registers and its table of 32 entries, a load under way is for one of the
-- 32 general registers, and the map of the frames has a bit for each.
pub record IsMachine (m : Machine) : Type 0 where
  pub registers : length m.registers ≡ 40
  pub loading : get_or m.registers load_reg 0 < 32
  pub table : length m.page_table ≡ num_phys_pages
  pub valid : IsValid m.memory_map
  pub frames : m.memory_map.num_bits ≡ num_phys_pages

-- The registers after the exception is noted and the load under way is finished.
abbrev pub trap_registers : List ℕ → ℕ → List ℕ
trap_registers rs addr =
    let rs1 = set rs bad_vaddr_reg addr in
    set
      (set (set (set rs1 (get_or rs load_reg 0) (get_or rs load_value_reg 0)) load_reg 0)
        load_value_reg 0)
      0 0

pub length-trap_registers : (rs : List ℕ) (addr : ℕ) → length (trap_registers rs addr) ≡ length rs
length-trap_registers rs addr = omega (
  arith,
  length-set rs 39 addr,
  length-set (set rs 39 addr) (get_or rs 37 0) (get_or rs 38 0),
  length-set (set (set rs 39 addr) (get_or rs 37 0) (get_or rs 38 0)) 37 0,
  length-set (set (set (set rs 39 addr) (get_or rs 37 0) (get_or rs 38 0)) 37 0) 38 0,
  length-set (set (set (set (set rs 39 addr) (get_or rs 37 0) (get_or rs 38 0)) 37 0) 38 0) 0 0,
)

-- The faulting address stays in its register.
trap_registers-bad_vaddr :
    (rs : List ℕ) (addr : ℕ)
    → length rs ≡ 40
    → get_or rs load_reg 0 < 32
    → get_elem? (trap_registers rs addr) bad_vaddr_reg ≡ some addr
trap_registers-bad_vaddr rs addr l h =
    let rs1 = set rs 39 addr in
    let rs2 = set rs1 (get_or rs 37 0) (get_or rs 38 0) in
    get_elem?-eq-get_or (trap_registers rs addr) 39 0 (omega (arith, length-trap_registers rs addr))
    ∙ ap some (
        get_or-set_ne (set (set rs2 37 0) 38 0) 0 39 0 0 (omega arith)
        ∙ get_or-set_ne (set rs2 37 0) 38 39 0 0 (omega arith)
        ∙ get_or-set_ne rs2 37 39 0 0 (omega arith)
        ∙ get_or-set_ne rs1 (get_or rs 37 0) 39 (get_or rs 38 0) 0 (omega arith)
        ∙ get_or-set_self rs 39 addr 0 (omega arith))

delayed_load-trap :
    (m : Machine) (addr : ℕ)
    → length m.registers ≡ 40
    → get_or m.registers load_reg 0 < 32
    → delayed_load (record m { registers = set m.registers bad_vaddr_reg addr }) 0 0
      ≡ ok (record m { registers = trap_registers m.registers addr })
unfolding delayed_load
delayed_load-trap m addr l h =
    let rs = m.registers in
    let rs1 = set rs 39 addr in
    let reg = get_or rs 37 0 in
    let value = get_or rs 38 0 in
    let rs2 = set rs1 reg value in
    let rs3 = set rs2 37 0 in
    let rs4 = set rs3 38 0 in
    let l1 = length-set rs 39 addr in
    let l2 = length-set rs1 reg value in
    let l3 = length-set rs2 37 0 in
    let l4 = length-set rs3 38 0 in
    let a : get_elem? rs1 37 ≡ some reg =
      get_elem?-eq-get_or rs1 37 0 (omega arith)
      ∙ ap some (get_or-set_ne rs 39 37 addr 0 (omega arith)) in
    let b : get_elem? rs1 38 ≡ some value =
      get_elem?-eq-get_or rs1 38 0 (omega arith)
      ∙ ap some (get_or-set_ne rs 39 38 addr 0 (omega arith)) in
    let c1 = lt→ltb reg (length rs1) (omega arith) in
    let c2 = lt→ltb 37 (length rs2) (omega arith) in
    let c3 = lt→ltb 38 (length rs3) (omega arith) in
    let c4 = lt→ltb 0 (length rs4) (omega arith) in rw a (rw b (rw c1 (rw c2 (rw c3 (rw c4 refl)))))

-- What a page fault at `addr` leaves: a frame `k` that was free is taken, its entry maps the page of
-- the address for the running thread, and the bytes that were read from the file are in it.
pub record Paged (m : Machine) (addr : ℕ) (bytes : List ℕ) (k : ℕ) (m' : Machine) : Type 0 where
  pub small : k < num_phys_pages
  pub was_free : is_set m.memory_map k ≡ false
  pub taken : m'.memory_map ≡ marked m.memory_map k
  pub entry :
      (e : TranslationEntry) × (get_elem? m.page_table k ≡ some e)
      × (m'.page_table
          ≡ set m.page_table k (record e {
            virtual_page = pos (addr / page_size);
            physical_page = pos k;
            valid = true;
            thread = m.pid;
          }))
  pub memory : m'.main_memory ≡ load_page m (k * page_size) bytes
  pub same_thread : m'.pid ≡ m.pid
  pub same_file : m'.swap ≡ m.swap

-- A page fault with a free frame and a file that can be read, from any well-formed machine, succeeds and maps the page.
pub raise_exception-Paged :
    {m : Machine} (addr : ℕ) (bytes : List ℕ)
    → IsMachine m
    → 0 < free m.memory_map
    → m.swap (code_pos addr) ≡ some bytes
    → (k : ℕ) × (m' : Machine) × (raise_exception m page_fault_exception addr ≡ ok m')
      × Paged m addr bytes k m'
unfolding raise_exception exception_handler page_fault write_register read_register
raise_exception-Paged {m} addr bytes i room paged =
    let (k, found, inside, off) = find-takes i.valid room in
    let e = get_or m.page_table k blank in
    let got : get_elem? m.page_table k ≡ some e =
      get_elem?-eq-get_or m.page_table k blank (omega (arith, i.table, i.frames)) in
    let e' : TranslationEntry = record e {
      virtual_page = pos (addr / page_size);
      physical_page = pos k;
      valid = true;
      thread = m.pid;
    } in
    (
      k,
      record m {
        registers = trap_registers m.registers addr;
        main_memory = load_page m (k * page_size) bytes;
        page_table = set m.page_table k e';
        memory_map = marked m.memory_map k;
      },
      rw (put-ok m.registers 39 addr (omega (arith, i.registers))) (
          rw (delayed_load-trap m addr i.registers i.loading) (
            rw (trap_registers-bad_vaddr m.registers addr i.registers i.loading) (
              rw found (
                rw got (
                  rw (put-ok m.page_table k e' (omega (arith, i.table, i.frames)))
                    (rw paged refl)))))),
      record {
        small = omega (arith, i.frames);
        was_free = off;
        taken = refl;
        entry = (e, got, refl);
        memory = refl;
        same_thread = refl;
        same_file = refl;
      },
    )
  where
    blank : TranslationEntry
    blank = record {
      virtual_page = pos 0;
      physical_page = pos 0;
      valid = false;
      read_only = false;
      use_ = false;
      dirty = false;
      thread = pos 0;
    }
