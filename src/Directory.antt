-- ===== src/Directory.antt =====
-- code/filesys/directory.cc and directory.h: the table of names. A C string is the list of its
-- characters without the NUL; the array `name` of an entry is the list of its ten characters.
pub mod Names
pub mod Lookup
pub mod Update
pub mod Removal
mod Tests
use nachos_lab.Base.{
  ℕ, zero, suc, ◌+◌, Bool, true, false, not, ◌&&◌, List, [], ◌∷◌, ◌++◌, ◌==◌, if◌then◌else◌, length,
  get_elem?, set, Result, ok, err, ◌>>=◌, fetch, put,
}
use nachos_lab.Base.Int.{ℤ, pos, negsuc, int_eq}
use Names.{strncmp_eq, strncpy}

abbrev pub file_name_max_len : ℕ
file_name_max_len = 9

pub record DirectoryEntry : Type 0 where
  pub in_use : Bool
  pub sector : ℤ
  pub name : List ℕ
  pub is_file : Bool

-- `tableSize` is the length of the table.
pub record Directory : Type 0 where
  pub table : List DirectoryEntry

-- The loop of the constructor clears `inUse`.
pub all_unused : List DirectoryEntry → List DirectoryEntry
all_unused [] = []
all_unused (e ∷ es) = record e { in_use = false } ∷ all_unused es

-- `raw` is what `new DirectoryEntry[size]` leaves in the entries.
pub init : List DirectoryEntry → Directory
unfolding all_unused
init raw = record { table = all_unused raw }

-- `table[i].inUse && !strncmp(table[i].name, name, FileNameMaxLen)`
abbrev pub matches : DirectoryEntry → List ℕ → Bool
matches e name = e.in_use && strncmp_eq file_name_max_len e.name name

-- The loop of FindIndex, with the entries from `i` on.
unfoldable pub find_index_from : List DirectoryEntry → ℕ → List ℕ → ℤ
find_index_from [] i name = negsuc 0
find_index_from (e ∷ es) i name = if matches e name then pos i else find_index_from es (i + 1) name

pub find_index : Directory → List ℕ → ℤ
unfolding find_index_from
find_index d name = find_index_from d.table 0 name

-- `i != -1` is a test of the sign here: FindIndex returns an index or -1.
unfoldable pub find : Directory → List ℕ → Result ℤ
unfolding find_index
find d name = elim (find_index d name) [
  | pos i ↦ do e ← fetch d.table i; ok e.sector
  | negsuc _ ↦ ok (negsuc 0)
]

-- What Add makes of a free entry.
unfoldable pub filled : DirectoryEntry → List ℕ → ℤ → DirectoryEntry
filled e name sector = record {
  in_use = true;
  sector = sector;
  name = strncpy file_name_max_len name e.name;
  is_file = false;
}

-- The loop of Add: the first entry that is not in use is filled in.
unfoldable pub add_loop : List DirectoryEntry → List ℕ → ℤ → Bool × List DirectoryEntry
unfolding filled
add_loop [] name sector = (false, [])
add_loop (e ∷ es) name sector =
    let (done, rest) = add_loop es name sector in
    if not e.in_use then (true, filled e name sector ∷ es) else (done, e ∷ rest)

unfoldable pub add : Directory → List ℕ → ℤ → Bool × Directory
unfolding find_index add_loop
add d name sector = elim (find_index d name) [
  | pos i ↦ (false, d)
  | negsuc _ ↦ let (done, table) = add_loop d.table name sector in (done, record { table = table })
]

unfoldable pub remove : Directory → List ℕ → Result (Bool × Directory)
unfolding find_index
remove d name = elim (find_index d name) [
  | pos i ↦ do
    e ← fetch d.table i
    table ← put d.table i (record e { in_use = false })
    ok (true, record { table = table })
  | negsuc _ ↦ ok (false, d)
]
