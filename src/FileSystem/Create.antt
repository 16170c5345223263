-- ===== src/FileSystem/Create.antt =====
-- FileSystem::Create of code/filesys/filesys.cc: what it writes to the disk, by what it reads from the
-- files of the directory and of the map.
use nachos_lab.SynchDisk.{SynchDisk}
use nachos_lab.Base.{ℕ, ◌≡◌, Bool, true, false, none, List, ok, ◌>>=◌, map}
use nachos_lab.Base.Int.{ℤ, int_eq}
use nachos_lab.BitMap
use nachos_lab.BitMap.{BitMap}
use nachos_lab.Directory
use nachos_lab.Directory.{DirectoryEntry, Directory}
use nachos_lab.Directory.Lookup.{lookup}
use nachos_lab.Directory.Update.{Added}
use nachos_lab.FileHeader.{Store, allocate}
use nachos_lab.FileSystem.{
  FileSystem, Raw, minus_one, fetch_directory, fetch_map, put_directory, put_map,
}

abbrev IsRefused : Store → Bool × Store → Type 0
IsRefused s (success, s') = success ≡ false → s'.disk ≡ s.disk

module _ (copy_in : List ℕ → List DirectoryEntry → List DirectoryEntry)
    (bytes_of : List DirectoryEntry → List ℕ) (raw : Raw) (now : ℕ) where
  -- The directory with the new name and its sector, and a map of what Allocate has left, have been
  -- written to their files, in this order and last of all.
  pub record Written (fs : FileSystem) (name : List ℕ) (size : ℕ) (directory : Directory)
      (sector : ℤ) (free_map : BitMap) (fs' : FileSystem) : Type 0 where
    pub absent : lookup directory.table name ≡ none
    pub taken :
        (s : Store) × (allocate raw.stack now size
            (record { header = raw.header; free_map = free_map; disk = fs.disk })
          ≡ ok (true, s))
        × (dir : Directory) × (fs1 fs2 : FileSystem) × Added directory.table name sector dir.table
        × (put_directory copy_in bytes_of raw now dir fs1 ≡ ok fs2)
        × (put_map raw now s.free_map fs2 ≡ ok fs')

  -- What a call has done: with true, on the directory and the map that it has read; with false, to the
  -- disk.
  abbrev pub Outcome : FileSystem → List ℕ → ℕ → Bool × FileSystem → Type 0
  Outcome fs name size (true, fs') =
      (directory : Directory) × (fs1 : FileSystem) × (map : BitMap) × (fs2 : FileSystem)
      × (sector : ℤ) × (free_map : BitMap) × (fetch_directory copy_in bytes_of raw now fs
          ≡ ok (directory, fs1))
      × (fetch_map raw now fs1 ≡ ok (map, fs2))
      × (BitMap.find map ≡ ok (sector, free_map))
      × (int_eq sector minus_one ≡ false)
      × Written fs2 name size directory sector free_map fs'
  Outcome fs name size (false, fs') = fs'.disk.sectors ≡ fs.disk.sectors

  -- The rest of Create, once the name is not found.
  unfoldable Settled : FileSystem → List ℕ → ℕ → Directory → ℤ → BitMap → Bool × FileSystem → Type 0
  Settled fs name size directory sector free_map (true, fs') =
      Written fs name size directory sector free_map fs'
  Settled fs name size directory sector free_map (false, fs') = fs'.disk.sectors ≡ fs.disk.sectors
