-- ===== src/OpenFile.antt =====
-- code/filesys/openfile.cc: reading and writing of a part of a file, a sector at a time. `numBytes` and
-- `position` are not negative, and `now` is what time(NULL) returns.
pub mod Buffer
mod Tests
use nachos_lab.Base.{
  take, drop, ℕ, zero, suc, ◌+◌, ◌-◌, ◌*◌, ◌/◌, ◌%◌, Bool, true, false, not, ◌&&◌, ◌||◌, List, [],
  ◌∷◌, ◌++◌, length, ltb, leb, ◌==◌, if◌then◌else◌, Result, ok, err, hang, ◌>>=◌,
}
use nachos_lab.Base.Int.{ℤ, pos}
use nachos_lab.BitMap.{BitMap}
use nachos_lab.SynchDisk.{SynchDisk, sector_size, read_sector, write_sector}
use nachos_lab.FileHeader.{
  FileHeader, file_length, byte_to_sector, extend_file, fetch_from, write_back,
}
use nachos_lab.FileHeader.Words.{bytes_of_words, words_of_bytes}

pub record OpenFile : Type 0 where
  pub hdr : FileHeader
  pub file_sector : ℤ
  pub seek_position : ℕ

-- The constructor, without the count of visitors.
unfoldable pub open_at : SynchDisk → ℕ → ℤ → Result (OpenFile × SynchDisk)
open_at d now sector = do
  (hdr, d') ← fetch_from d now sector
  ok (record { hdr = hdr; file_sector = sector; seek_position = 0 }, d')

unfoldable pub seek : OpenFile → ℕ → OpenFile
seek f position = record f { seek_position = position }

unfoldable pub file_size : OpenFile → ℕ
file_size f = file_length f.hdr

-- `bcopy(from, &buf[at], ...)`
abbrev pub overwrite : {A : Type 0} → List A → ℕ → List A → List A
overwrite buf at_ from = take at_ buf ++ from ++ drop (at_ + length from) buf

-- The loop over the sectors in ReadAt: `n` sectors, from sector `i` of the file on.
unfoldable pub read_sectors : ℕ → ℕ → FileHeader → SynchDisk → Result (List ℕ × SynchDisk)
read_sectors zero i h d = ok ([], d)
read_sectors (suc n) i h d = do
  (sector, d1) ← byte_to_sector h d (i * sector_size)
  (bytes, d2) ← read_sector d1 sector
  (rest, d3) ← read_sectors n (i + 1) h d2
  ok (bytes ++ rest, d3)

-- The loop over the sectors in WriteAt.
unfoldable pub write_sectors : ℕ → ℕ → FileHeader → SynchDisk → List ℕ → Result SynchDisk
write_sectors zero i h d buf = ok d
write_sectors (suc n) i h d buf = do
  (sector, d1) ← byte_to_sector h d (i * sector_size)
  d2 ← write_sector d1 sector (take sector_size buf)
  write_sectors n (i + 1) h d2 (drop sector_size buf)

abbrev pub first_sector : ℕ → ℕ
first_sector position = position / sector_size

abbrev pub last_sector : ℕ → ℕ → ℕ
last_sector position num_bytes = (position + num_bytes - 1) / sector_size

abbrev pub sector_count : ℕ → ℕ → ℕ
sector_count position num_bytes = 1 + last_sector position num_bytes - first_sector position

-- `numBytes` after the test against the length of the file.
abbrev pub within : ℕ → ℕ → ℕ → ℕ
within length_ num_bytes position =
    if ltb length_ (position + num_bytes) then length_ - position else num_bytes

-- The bytes that are read, as many as the call returns.
unfoldable pub read_at :
    FileHeader → SynchDisk → ℕ → ℕ → ℕ → Result (List ℕ × FileHeader × SynchDisk)
unfolding read_sectors
read_at h d now num_bytes position =
    if (num_bytes == 0) || leb (file_length h) position
    then ok ([], h, d)
    else let n = within (file_length h) num_bytes position in
      do
        (buf, d') ← read_sectors (sector_count position n) (first_sector position) h d
        ok (
          take n (drop (position - first_sector position * sector_size) buf),
          record h { last_visit_time = now },
          d',
        )

-- `ReadAt(&buf[at], SectorSize, ...)` of the sector `i` of the file.
unfoldable pub read_into :
    FileHeader → SynchDisk → ℕ → ℕ → ℕ → List ℕ → Result (List ℕ × FileHeader × SynchDisk)
unfolding read_at
read_into h d now i at_ buf = do
  (bytes, h', d') ← read_at h d now sector_size (i * sector_size)
  ok (overwrite buf at_ bytes, h', d')

-- WriteAt after the file is long enough. `raw` is what the new buffer holds.
unfoldable pub write_within :
    List ℕ → FileHeader → SynchDisk → ℕ → List ℕ → ℕ → Result (FileHeader × SynchDisk)
unfolding read_into write_sectors
write_within raw h d now from position = do
  let n = length from
  let first = first_sector position
  let last = last_sector position n
  let first_aligned = position == (first * sector_size)
  let last_aligned = (position + n) == ((last + 1) * sector_size)
  (buf, h1, d1) ← (if not first_aligned then read_into h d now first 0 raw else ok (raw, h, d))
  (buf', h2, d2) ←
      (if not last_aligned && (not (first == last) || first_aligned)
        then read_into h1 d1 now last ((last - first) * sector_size) buf
        else ok (buf, h1, d1))
  d3 ←
      write_sectors (sector_count position n) first h2 d2
        (overwrite buf' (position - first * sector_size) from)
  ok (record h2 { last_modify_time = now }, d3)

-- The extension in WriteAt: the map of free sectors is read from its file, whose header is in sector 0,
-- changed, and written back; what ExtendFile answers is not looked at. The file of the map is as long as
-- the map, so that its own WriteAt extends nothing. `raw_map` is what a new map holds.
unfoldable pub extend_for :
    BitMap → List ℕ → FileHeader → SynchDisk → ℕ → ℕ → Result (FileHeader × SynchDisk)
unfolding read_at write_within
extend_for raw_map raw h d now extra = do
  (map_file, d1) ← open_at d now (pos 0)
  (bytes, map_hdr, d2) ← read_at map_file.hdr d1 now (raw_map.num_words * 4) 0
  (extended, h', b) ← extend_file h (record raw_map { map = words_of_bytes bytes }) extra
  (h'', d3) ← write_back h' d2 now h'.hdr_sector
  (map_hdr', d4) ← write_within raw map_hdr d3 now (bytes_of_words b.map) 0
  ok (h'', d4)

-- The bytes written are all of `from`.
unfoldable pub write_at :
    BitMap → List ℕ → FileHeader → SynchDisk → ℕ → List ℕ → ℕ → Result (ℕ × FileHeader × SynchDisk)
unfolding extend_for write_within
write_at raw_map raw h d now from position = if length from == 0 then ok (0, h, d) else (do
  (h1, d1) ←
      (if ltb (file_length h) (position + length from)
        then extend_for raw_map raw h d now (position + length from - file_length h)
        else ok (h, d))
  (h2, d2) ← write_within raw h1 d1 now from position
  ok (length from, h2, d2))

-- OpenFile::Read and Write, between the calls of SynchReaderStart and the like.
unfoldable pub read : OpenFile → SynchDisk → ℕ → ℕ → Result (List ℕ × OpenFile × SynchDisk)
unfolding read_at
read f d now num_bytes = do
  (bytes, h, d') ← read_at f.hdr d now num_bytes f.seek_position
  ok (bytes, record f { hdr = h; seek_position = f.seek_position + length bytes }, d')

unfoldable pub write :
    BitMap → List ℕ → OpenFile → SynchDisk → ℕ → List ℕ → Result (ℕ × OpenFile × SynchDisk)
unfolding write_at
write raw_map raw f d now from = do
  (n, h, d') ← write_at raw_map raw f.hdr d now from f.seek_position
  ok (n, record f { hdr = h; seek_position = f.seek_position + n }, d')
