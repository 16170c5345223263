-- ===== src/FileHeader.antt =====
-- code/filesys/filehdr.cc and filehdr.h: the file header. `now` is what time(NULL) returns. The free
-- map and the synchronous disk that a call changes are arguments and results.
pub mod Words
pub mod Table
pub mod Allocate
pub mod Indirect
pub mod Deallocate
pub mod Locate
pub mod Extend
pub mod Stored
mod Tests
use nachos_lab.Base.{
  ℕ, zero, suc, ◌+◌, ◌-◌, ◌*◌, ◌/◌, Bool, true, false, List, [], ◌∷◌, map, ltb, leb, ◌==◌,
  if◌then◌else◌, div_round_up, Result, ok, err, wild, ◌>>=◌, ◌>>◌, check, put, fetch,
}
use nachos_lab.Base.Int.{ℤ, pos, negsuc, word_of_int, int_of_char, int_of_word}
use nachos_lab.BitMap.{BitMap, mark, clear, test, find, first_find, num_clear}
use nachos_lab.SynchDisk.{SynchDisk, sector_size, read_sector, write_sector}
use Words.{bytes_of_words, words_of_bytes}

-- `NumDirect`: (SectorSize - 6 * sizeof(int)) / sizeof(int), for an `int` of four bytes.
abbrev pub num_direct : ℕ
num_direct = (sector_size - 6 * 4) / 4

pub record FileHeader : Type 0 where
  pub create_time : ℕ
  pub last_visit_time : ℕ
  pub last_modify_time : ℕ
  pub hdr_sector : ℤ
  pub num_bytes : ℕ
  pub num_sectors : ℕ
  pub data_sectors : List ℤ

-- What Allocate, Deallocate and ExtendFile change, beside their answer.
pub record Store : Type 0 where
  pub header : FileHeader
  pub free_map : BitMap
  pub disk : SynchDisk

-- `for (i = 0; i < numSectors; i++) dataSectors[i] = freeSpace + i`, from `i` with `n` rounds left.
unfoldable pub store_run : ℕ → ℕ → ℕ → List ℤ → Result (List ℤ)
store_run zero i first table = ok table
store_run (suc n) i first table = do
  table' ← put table i (pos (first + i))
  store_run n (i + 1) first table'

-- `for (...) table[i] = freeMap->Find()`, from `i` with `n` rounds left.
pub find_each : ℕ → ℕ → List ℤ → BitMap → Result (List ℤ × BitMap)
find_each zero i table b = ok (table, b)
find_each (suc n) i table b = do
  (sector, b') ← find b
  table' ← put table i sector
  find_each n (i + 1) table' b'

-- The header as Allocate fills it in before it looks for space.
pub fresh_header : FileHeader → ℕ → ℕ → FileHeader
fresh_header h now file_size = record h {
  create_time = now;
  last_visit_time = now;
  last_modify_time = now;
  num_bytes = file_size;
  num_sectors = div_round_up file_size sector_size;
}

-- The branch for at most `NumDirect` sectors.
unfoldable pub allocate_direct : Store → Result (Bool × Store)
unfolding store_run find_each
allocate_direct s = do
  (free_space, b) ← first_find s.free_map s.header.num_sectors
  (table, b') ← (elim free_space [
    | pos first ↦ do
      table ← store_run s.header.num_sectors 0 first s.header.data_sectors
      ok (table, b)
    | negsuc _ ↦ find_each s.header.num_sectors 0 s.header.data_sectors b
  ])
  ok (true, record s { header = record (s.header) { data_sectors = table }; free_map = b' })

-- The branch for more. `stack` is what the array `int secondIndex[32]` holds when it is declared.
unfoldable pub allocate_indirect : List ℤ → Store → Result (Bool × Store)
unfolding find_each bytes_of_words
allocate_indirect stack s = do
  (table, b) ← find_each (num_direct - 1) 0 s.header.data_sectors s.free_map
  (index_sector, b') ← find b
  table' ← put table (num_direct - 1) index_sector
  (second_index, b'') ← find_each (s.header.num_sectors - num_direct + 1) 0 stack b'
  last ← fetch table' (num_direct - 1)
  disk' ← write_sector s.disk last (bytes_of_words (map word_of_int second_index))
  ok (
    true,
    record { header = record (s.header) { data_sectors = table' }; free_map = b''; disk = disk' },
  )

unfoldable pub allocate : List ℤ → ℕ → ℕ → Store → Result (Bool × Store)
unfolding fresh_header allocate_direct allocate_indirect
allocate stack now file_size s =
    let s' = record s { header = fresh_header s.header now file_size } in
    do
      clear_bits ← num_clear s.free_map
      if ltb clear_bits s'.header.num_sectors
          then ok (false, s')
          else if leb s'.header.num_sectors num_direct
          then allocate_direct s'
          else allocate_indirect stack s'

-- The loops of Deallocate: over the direct table with the ASSERT, over the bytes of the index block
-- that stand at multiples of four, read as signed `char`, and over the table with no ASSERT.
unfoldable pub clear_tested : ℕ → ℕ → List ℤ → BitMap → Result BitMap
clear_tested zero i table b = ok b
clear_tested (suc n) i table b = do
  sector ← fetch table i
  marked ← test b sector
  check marked
  b' ← clear b sector
  clear_tested n (i + 1) table b'

pub clear_chars : ℕ → ℕ → List ℕ → BitMap → Result BitMap
clear_chars zero i bytes b = ok b
clear_chars (suc n) i bytes b = do
  c ← fetch bytes (i * 4)
  b' ← clear b (int_of_char c)
  clear_chars n (i + 1) bytes b'

pub clear_each : ℕ → ℕ → List ℤ → BitMap → Result BitMap
clear_each zero i table b = ok b
clear_each (suc n) i table b = do
  sector ← fetch table i
  b' ← clear b sector
  clear_each n (i + 1) table b'

unfoldable pub deallocate : Store → Result Store
unfolding clear_tested clear_chars clear_each
deallocate s =
    if leb s.header.num_sectors num_direct
    then (do
      b ← clear_tested s.header.num_sectors 0 s.header.data_sectors s.free_map
      ok (record s { free_map = b }))
    else (do
      last ← fetch s.header.data_sectors (num_direct - 1)
      (bytes, disk') ← read_sector s.disk last
      b ← clear_chars (s.header.num_sectors - num_direct + 1) 0 bytes s.free_map
      b' ← clear_each num_direct 0 s.header.data_sectors b
      ok (record s { free_map = b'; disk = disk' }))

unfoldable pub byte_to_sector : FileHeader → SynchDisk → ℕ → Result (ℤ × SynchDisk)
byte_to_sector h d offset =
    if ltb offset (sector_size * (num_direct - 1))
    then (do sector ← fetch h.data_sectors (offset / sector_size); ok (sector, d))
    else (do
      last ← fetch h.data_sectors (num_direct - 1)
      (bytes, d') ← read_sector d last
      c ← fetch bytes ((offset - sector_size * (num_direct - 1)) / sector_size * 4)
      ok (int_of_char c, d'))

unfoldable pub file_length : FileHeader → ℕ
file_length h = h.num_bytes

-- The loop of ExtendFile returns in its first round; were there none, the function would end
-- without a return value.
pub extend_file : FileHeader → BitMap → ℕ → Result (Bool × FileHeader × BitMap)
extend_file h b bytes =
    let new_length = h.num_bytes + bytes in
    let new_sectors = div_round_up new_length sector_size in
    if new_sectors == h.num_sectors then ok (true, record h { num_bytes = new_length }, b) else (do
      clear_bits ← num_clear b
      if ltb (clear_bits + h.num_sectors) new_sectors
          then ok (false, h, b)
          else if ltb h.num_sectors new_sectors
          then (do
            (temp, b') ← find b
            table ← put h.data_sectors h.num_sectors temp
            ok (
              true,
              record h { num_bytes = new_length; num_sectors = new_sectors; data_sectors = table },
              b',
            ))
          else err wild)

-- The object as the 128 bytes that ReadSector and WriteSector move, `(char *)this`. The sizes and
-- times are below 2 ^ 31 in a program that runs, so that they are natural numbers here.
unfoldable pub header_words : FileHeader → List ℕ
header_words h =
    h.create_time
    ∷ h.last_visit_time
    ∷ h.last_modify_time
    ∷ word_of_int h.hdr_sector
    ∷ h.num_bytes
    ∷ h.num_sectors
    ∷ map word_of_int h.data_sectors

unfoldable pub header_of_words : List ℕ → Result FileHeader
header_of_words (c ∷ v ∷ m ∷ s ∷ b ∷ n ∷ table) = ok (record {
  create_time = c;
  last_visit_time = v;
  last_modify_time = m;
  hdr_sector = int_of_word s;
  num_bytes = b;
  num_sectors = n;
  data_sectors = map int_of_word table;
})
header_of_words _ = err wild

unfoldable pub fetch_from : SynchDisk → ℕ → ℤ → Result (FileHeader × SynchDisk)
fetch_from d now sector = do
  (bytes, d') ← read_sector d sector
  h ← header_of_words (words_of_bytes bytes)
  ok (record h { last_visit_time = now }, d')

unfoldable pub write_back : FileHeader → SynchDisk → ℕ → ℤ → Result (FileHeader × SynchDisk)
write_back h d now sector =
    let h' = record h { last_modify_time = now; hdr_sector = sector } in
    do d' ← write_sector d sector (bytes_of_words (header_words h')); ok (h', d')
