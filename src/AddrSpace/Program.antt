-- ===== src/AddrSpace/Program.antt =====
-- A program from its object file to the instructions that the machine fetches: the constructor of
-- code/userprog/addrspace.cc, and ReadMem with the page fault handler.
use nachos_lab.Base.{ℕ, ◌+◌, ◌*◌, ◌%◌, ◌^◌, ◌≤◌, ◌≡◌, List, get_or, ok}
use nachos_lab.Machine.{Machine, page_size}
use nachos_lab.AddrSpace.Loading.{IsInside}
use nachos_lab.AddrSpace.{NoffHeader, read_header, num_pages}

-- The size of the address space.
abbrev pub space : NoffHeader → ℕ
space h = (num_pages h * page_size) % 2 ^ 32

-- An object file with its code at address 0, and the data behind it.
pub record IsProgram (executable : List ℕ) (h : NoffHeader) : Type 0 where
  pub header : read_header executable ≡ ok h
  pub start : h.code.virtual_addr ≡ 0
  pub code : IsInside executable (space h) h.code
  pub init_data : IsInside executable (space h) h.init_data
  pub apart : h.code.size ≤ h.init_data.virtual_addr

-- Four bytes of a file, from a position on.
abbrev pub word_at : List ℕ → ℕ → ℕ
word_at bytes p =
    get_or bytes p 0
    + 256 * (get_or bytes (p + 1) 0 + 256 * (get_or bytes (p + 2) 0 + 256 * get_or bytes (p + 3) 0))
