-- ===== src/FileSystem/Tests.antt =====
-- The theorems of the file system at a disk with one file.
use nachos_lab.Base.{
  ℕ, zero, suc, ◌≡◌, refl, Bool, true, false, List, [], ◌∷◌, ◌==◌, Result, ok, err, Option, some,
  none, div_round_up, if◌then◌else◌, take,
}
use nachos_lab.Base.Int.{pos, index}
use nachos_lab.BitMap.{BitMap}
use nachos_lab.BitMap
use nachos_lab.Directory.{DirectoryEntry, Directory}
use nachos_lab.Directory
use nachos_lab.Directory.Names.{strncmp_eq, strncpy}
use nachos_lab.SynchDisk.{Cache, read_sector, write_sector}
use nachos_lab.FileHeader.{
  FileHeader, allocate, write_back, deallocate, fetch_from, byte_to_sector, file_length,
}
use nachos_lab.FileHeader
use nachos_lab.FileHeader.Words.{bytes_of_words, words_of_bytes}
use nachos_lab.OpenFile.{read_at, write_at, read_sectors, write_sectors}
use nachos_lab.FileSystem.{
  FileSystem, Raw, create, remove, fetch_directory, fetch_map, put_directory, put_map,
}
use nachos_lab.FileSystem.Create
use nachos_lab.FileSystem.Remove

abbrev repeat : {A : Type 0} → ℕ → A → List A
repeat zero x = []
repeat (suc n) x = x ∷ repeat n x

-- A layout with four bytes for an entry, of names of one character.
abbrev bytes_of : List DirectoryEntry → List ℕ
bytes_of [] = []
bytes_of (e ∷ es) =
    (if e.in_use then 1 else 0)
    ∷ index e.sector
    ∷ first e.name
    ∷ (if e.is_file then 1 else 0)
    ∷ bytes_of es
  where
    first : List ℕ → ℕ
    first [] = 0
    first (c ∷ cs) = c

abbrev copy_in : List ℕ → List DirectoryEntry → List DirectoryEntry
copy_in (a ∷ b ∷ c ∷ d ∷ bytes) (e ∷ es) =
    record { in_use = a == 1; sector = pos b; name = c ∷ []; is_file = d == 1 } ∷ copy_in bytes es
copy_in bytes es = es

abbrev no_entry : Cache
no_entry = record { valid = 0; sector = pos 0; data_ = [] }

abbrev header : ℕ → ℕ → FileHeader
header size sector = record {
  create_time = 0;
  last_visit_time = 0;
  last_modify_time = 0;
  hdr_sector = pos 0;
  num_bytes = size;
  num_sectors = 1;
  data_sectors = pos sector ∷ repeat 25 (pos 0);
}

abbrev unused : DirectoryEntry
unused = record { in_use = false; sector = pos 0; name = []; is_file = false }

abbrev raw : Raw
raw = record {
  table = unused ∷ unused ∷ [];
  map = record { num_bits = 32; num_words = 1; map = 0 ∷ [] };
  header = header 0 0;
  buffer = repeat 128 0;
  stack = [];
}

-- The map is in sector 2 and the directory in sector 3: it has a file "a", with its header in sector 4
-- and its data in sector 5. Sectors 0 to 5 are taken.
abbrev system : FileSystem
system = record {
  map_hdr = header 4 2;
  dir_hdr = header 8 3;
  disk = record {
    sectors = λ n.
        if n == 2
        then 63 ∷ 0 ∷ 0 ∷ 0 ∷ []
        else if n == 3
        then 1 ∷ 4 ∷ 97 ∷ 0 ∷ 0 ∷ 0 ∷ 0 ∷ 0 ∷ []
        else bytes_of_words (0 ∷ 0 ∷ 0 ∷ 4 ∷ 100 ∷ 1 ∷ 5 ∷ repeat 25 0);
    active = false;
    wakeups = 0;
    cache = repeat 4 no_entry;
    fifo_pointer = 0;
  };
}

-- The first bytes of a sector.
abbrev file : ℕ → Result (Bool × FileSystem) → Option (Bool × List ℕ)
file n (ok (b, fs)) = some (b, take 8 (fs.disk.sectors n))
file n (err e) = none

-- "b", of 100 bytes, gets its header in sector 6 and its data in 7: the file of the map, and that of the
-- directory.
tests_create :
    (file 2 (create copy_in bytes_of raw 7 system (98 ∷ []) 100) ≡ some (true, 255 ∷ repeat 7 0))
    × (file 3 (create copy_in bytes_of raw 7 system (98 ∷ []) 100)
        ≡ some (true, 1 ∷ 4 ∷ 97 ∷ 0 ∷ 1 ∷ 6 ∷ 98 ∷ 0 ∷ []))
unfolding create fetch_directory read_at read_sectors byte_to_sector read_sector file_length
    Directory.find Directory.find_index_from strncmp_eq Directory.add Directory.add_loop
    Directory.filled strncpy BitMap.find BitMap.find_loop BitMap.test BitMap.mark BitMap.num_clear
    BitMap.num_clear_loop BitMap.first_find BitMap.first_find_loop BitMap.run_is_clear
    BitMap.mark_run allocate write_back div_round_up fetch_map words_of_bytes bytes_of_words
    write_at write_sectors write_sector put_directory put_map
tests_create = (refl, refl)

-- The sectors 4 and 5 are free again.
tests_remove :
    (file 2 (remove copy_in bytes_of raw 7 system (97 ∷ [])) ≡ some (true, 15 ∷ repeat 7 0))
    × (file 3 (remove copy_in bytes_of raw 7 system (97 ∷ []))
        ≡ some (true, 0 ∷ 4 ∷ 97 ∷ 0 ∷ 0 ∷ 0 ∷ 0 ∷ 0 ∷ []))
unfolding remove fetch_directory read_at read_sectors byte_to_sector read_sector file_length
    Directory.find Directory.find_index_from strncmp_eq Directory.remove fetch_from deallocate
    BitMap.test BitMap.clear FileHeader.header_of_words fetch_map words_of_bytes bytes_of_words
    write_at write_sectors write_sector put_directory put_map
tests_remove = (refl, refl)

unfoldable read :
    (r : Directory × FileSystem) × (fetch_directory copy_in bytes_of raw 7 system ≡ ok r)
unfolding fetch_directory read_at read_sectors byte_to_sector read_sector file_length
read = (_, refl)
