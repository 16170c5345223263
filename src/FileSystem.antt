-- ===== src/FileSystem.antt =====
-- code/filesys/filesys.cc: creation, opening and removal of files. The directory and the map of the free
-- sectors are read from their files and written back by code/filesys/openfile.cc, through the cache of
-- the synchronous disk.
pub mod Reads
pub mod Create
pub mod Remove
mod Tests
use nachos_lab.Base.{
  ℕ, Bool, true, false, not, Option, none, some, List, ◌*◌, ◌/◌, ◌++◌, drop, length, if◌then◌else◌,
  Result, ok, ◌>>=◌,
}
use nachos_lab.Base.Int.{ℤ, pos, negsuc, int_eq}
use nachos_lab.BitMap
use nachos_lab.BitMap.{BitMap}
use nachos_lab.SynchDisk.{SynchDisk}
use nachos_lab.Directory
use nachos_lab.Directory.{DirectoryEntry, Directory}
use nachos_lab.FileHeader.{FileHeader, Store, allocate, deallocate, fetch_from, write_back}
use nachos_lab.FileHeader.Words.{bytes_of_words, words_of_bytes}
use nachos_lab.OpenFile.{read_at, write_at}

-- The headers of `freeMapFile` and `directoryFile`, which are open, and the disk.
pub record FileSystem : Type 0 where
  pub map_hdr : FileHeader
  pub dir_hdr : FileHeader
  pub disk : SynchDisk

-- What new objects hold: the table of a directory, a map, a header, the buffer of WriteAt, and the array
-- of Allocate.
pub record Raw : Type 0 where
  pub table : List DirectoryEntry
  pub map : BitMap
  pub header : FileHeader
  pub buffer : List ℕ
  pub stack : List ℤ

abbrev pub minus_one : ℤ
minus_one = negsuc 0

-- FetchFrom and WriteBack of BitMap.
unfoldable pub fetch_map : Raw → ℕ → FileSystem → Result (BitMap × FileSystem)
fetch_map raw now fs = do
  (bytes, h, d) ← read_at fs.map_hdr fs.disk now (raw.map.num_words * 4) 0
  ok (
    record raw.map { map = words_of_bytes bytes ++ drop (length bytes / 4) raw.map.map },
    record fs { map_hdr = h; disk = d },
  )

unfoldable pub put_map : Raw → ℕ → BitMap → FileSystem → Result FileSystem
put_map raw now b fs = do
  (n, h, d) ← write_at raw.map raw.buffer fs.map_hdr fs.disk now (bytes_of_words b.map) 0
  ok (record fs { map_hdr = h; disk = d })

-- `sector >= 0`
abbrev pub is_sector : ℤ → Bool
is_sector (pos n) = true
is_sector (negsuc n) = false

-- The layout of the entries of a directory is the host's: `copy_in` puts bytes over a table, from its
-- front on, and `bytes_of` gives the bytes of a table.
module _ (copy_in : List ℕ → List DirectoryEntry → List DirectoryEntry)
    (bytes_of : List DirectoryEntry → List ℕ) where
  -- FetchFrom and WriteBack of Directory.
  unfoldable pub fetch_directory : Raw → ℕ → FileSystem → Result (Directory × FileSystem)
  fetch_directory raw now fs = do
    (bytes, h, d) ← read_at fs.dir_hdr fs.disk now (length (bytes_of raw.table)) 0
    ok (record { table = copy_in bytes raw.table }, record fs { dir_hdr = h; disk = d })

  unfoldable pub put_directory : Raw → ℕ → Directory → FileSystem → Result FileSystem
  put_directory raw now dir fs = do
    (n, h, d) ← write_at raw.map raw.buffer fs.dir_hdr fs.disk now (bytes_of dir.table) 0
    ok (record fs { dir_hdr = h; disk = d })

  -- Create, once the name is in the directory `dir` with `sector` for its header; `free_map` has that
  -- sector marked.
  unfoldable pub create_at :
      Raw → ℕ → FileSystem → ℕ → ℤ → BitMap → Directory → Result (Bool × FileSystem)
  create_at raw now fs size sector free_map dir = do
    (success, s) ←
        allocate raw.stack now size
          (record { header = raw.header; free_map = free_map; disk = fs.disk })
    if success
        then (do
          (hdr, disk) ← write_back s.header s.disk now sector
          fs1 ← put_directory raw now dir (record fs { disk = disk })
          fs2 ← put_map raw now s.free_map fs1
          ok (true, fs2))
        else ok (false, record fs { disk = s.disk })

  -- FileSystem::Create.
  unfoldable pub create : Raw → ℕ → FileSystem → List ℕ → ℕ → Result (Bool × FileSystem)
  unfolding create_at
  create raw now fs name size = do
    (directory, fs1) ← fetch_directory raw now fs
    there ← Directory.find directory name
    if not (int_eq there minus_one) then ok (false, fs1) else (do
      (map, fs2) ← fetch_map raw now fs1
      (sector, free_map) ← BitMap.find map
      if int_eq sector minus_one
          then ok (false, fs2)
          else (let (added, dir) = Directory.add directory name sector in
              if added then create_at raw now fs2 size sector free_map dir else ok (false, fs2)))

  -- The version of Create for directories, which does not look at its last argument.
  unfoldable pub create_directory :
      Raw → ℕ → FileSystem → List ℕ → ℕ → Bool → Result (Bool × FileSystem)
  unfolding create
  create_directory raw now fs name size type = create raw now fs name size

  -- FileSystem::Open: the header that the new OpenFile reads in, or NULL.
  unfoldable pub open_file : Raw → ℕ → FileSystem → List ℕ → Result (Option FileHeader × FileSystem)
  open_file raw now fs name = do
    (directory, fs1) ← fetch_directory raw now fs
    sector ← Directory.find directory name
    if is_sector sector
        then (do
          (hdr, disk) ← fetch_from fs1.disk now sector
          ok (some hdr, record fs1 { disk = disk }))
        else ok (none, fs1)

  unfoldable pub remove : Raw → ℕ → FileSystem → List ℕ → Result (Bool × FileSystem)
  remove raw now fs name = do
    (directory, fs1) ← fetch_directory raw now fs
    sector ← Directory.find directory name
    if int_eq sector minus_one then ok (false, fs1) else (do
      (hdr, disk) ← fetch_from fs1.disk now sector
      (map, fs2) ← fetch_map raw now (record fs1 { disk = disk })
      s ← deallocate (record { header = hdr; free_map = map; disk = fs2.disk })
      free_map ← BitMap.clear s.free_map sector
      (done, dir) ← Directory.remove directory name
      fs3 ← put_map raw now free_map (record fs2 { disk = s.disk })
      fs4 ← put_directory raw now dir fs3
      ok (true, fs4))
