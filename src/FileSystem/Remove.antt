-- ===== src/FileSystem/Remove.antt =====
-- FileSystem::Remove of code/filesys/filesys.cc: what it writes to the disk, by what it reads.
use nachos_lab.SynchDisk.{SynchDisk}
use nachos_lab.Base.{ℕ, ◌≡◌, Bool, true, false, none, List, ok, ◌>>=◌, some, ◌⊎◌}
use nachos_lab.Base.Int.{ℤ}
use nachos_lab.BitMap
use nachos_lab.BitMap.{BitMap}
use nachos_lab.Directory
use nachos_lab.Directory.{DirectoryEntry, Directory}
use nachos_lab.Directory.Lookup.{lookup}
use nachos_lab.Directory.Removal.{Removed}
use nachos_lab.FileHeader.{FileHeader, Store, deallocate, fetch_from}
use nachos_lab.FileSystem.{FileSystem, Raw, minus_one, fetch_map, put_directory, put_map}

module _ (copy_in : List ℕ → List DirectoryEntry → List DirectoryEntry)
    (bytes_of : List DirectoryEntry → List ℕ) (raw : Raw) (now : ℕ) where
  -- What a call has done that has read the directory, and then is at `fs1`: with true, the sectors of the
  -- file are cleared in the map that was read, and the sector of its header; this map was written, and
  -- then the directory, in which the name is not found and every other name is as before.
  abbrev pub Outcome : FileSystem → Directory → FileSystem → List ℕ → Bool × FileSystem → Type 0
  Outcome fs directory fs1 name (true, fs') =
      (sector : ℤ) × (hdr : FileHeader) × (disk : SynchDisk) × (bits : BitMap) × (fs2 : FileSystem)
      × (s : Store) × (free_map : BitMap) × (dir : Directory) × (fs3 : FileSystem) × (lookup
            directory.table name
          ≡ some sector)
      × (fetch_from fs1.disk now sector ≡ ok (hdr, disk))
      × (fetch_map raw now (record fs1 { disk = disk }) ≡ ok (bits, fs2))
      × (deallocate (record { header = hdr; free_map = bits; disk = fs2.disk }) ≡ ok s)
      × (BitMap.clear s.free_map sector ≡ ok free_map)
      × (put_map raw now free_map (record fs2 { disk = s.disk }) ≡ ok fs3)
      × (put_directory copy_in bytes_of raw now dir fs3 ≡ ok fs')
      × Removed directory.table name dir.table
  Outcome fs directory fs1 name (false, fs') =
      (fs' ≡ fs1)
      × (fs1.disk.sectors ≡ fs.disk.sectors)
      × ((lookup directory.table name ≡ none) ⊎ (lookup directory.table name ≡ some minus_one))
