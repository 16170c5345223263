-- ===== src/FileHeader/Locate.antt =====
-- `ByteToSector` of code/filesys/filehdr.cc: where it answers with the sector of the byte.
use nachos_lab.Base.{
  ℕ, zero, suc, ◌+◌, ◌-◌, ◌*◌, ◌/◌, ◌%◌, ◌≤◌, ◌<◌, ◌≡◌, ◌↔◌, ◌∙◌, ap, List, [], ◌∷◌, arith, length,
  get_or, get_elem?, lt→ltb, le→ltb, ok, some,
}
use nachos_lab.Base.Int.{ℤ, pos, int_of_char}
use nachos_lab.SynchDisk.{SynchDisk, num_sectors, sector_size}
use nachos_lab.SynchDisk.Cached.{IsIdle, IsCoherent, read_sector-IsCoherent}
use nachos_lab.FileHeader.{FileHeader, num_direct, byte_to_sector}
use nachos_lab.FileHeader.Words.{bytes_of_words, get_elem?-bytes_of_words}
use nachos_lab.FileHeader.Table.{Holds}

Holds-get :
    (table : List ℤ) (i j : ℕ) (ks : List ℕ)
    → Holds table i ks
    → j < length ks
    → get_elem? table (i + j) ≡ some (pos (get_or ks j 0))
Holds-get table i j [] h l = absurd (omega arith)
Holds-get table i zero (k ∷ ks) h l = let z : i + 0 ≡ i = omega arith in rw z h.0
Holds-get table i (suc j) (k ∷ ks) h l =
    let e : i + suc j ≡ i + 1 + j = omega arith in
    rw e (Holds-get table (i + 1) j ks h.1 (omega arith))

-- Below the 25 direct sectors the answer is the table's, and no disk access is made.
pub byte_to_sector-direct :
    (h : FileHeader) (d : SynchDisk) (offset : ℕ) (ks : List ℕ)
    → Holds h.data_sectors 0 ks
    → offset / sector_size < length ks
    → offset < sector_size * (num_direct - 1)
    → byte_to_sector h d offset ≡ ok (pos (get_or ks (offset / sector_size) 0), d)
unfolding byte_to_sector
byte_to_sector-direct h d offset ks held l near =
    let e : 0 + offset / 128 ≡ offset / 128 = omega arith in
    let got = rw e at (Holds-get h.data_sectors 0 (offset / 128) ks held l) in
    rw (lt→ltb offset 3200 near) (rw got)

-- The place in the index block that an offset of 3200 or more falls on.
abbrev pub second_index : ℕ → ℕ
second_index offset = (offset - sector_size * (num_direct - 1)) / sector_size

-- From there on the answer is the low byte of a word of sector `dataSectors[25]`, as a `char`.
pub byte_to_sector-index :
    (h : FileHeader) (d : SynchDisk) (offset index : ℕ) (ws : List ℕ)
    → get_elem? h.data_sectors (num_direct - 1) ≡ some (pos index)
    → index < num_sectors
    → IsIdle d
    → IsCoherent d
    → d.sectors index ≡ bytes_of_words ws
    → sector_size * (num_direct - 1) ≤ offset
    → second_index offset < length ws
    → (d' : SynchDisk) × (byte_to_sector h d offset
        ≡ ok (int_of_char (get_or ws (second_index offset) 0 % 256), d'))
unfolding byte_to_sector
byte_to_sector-index h d offset index ws last inside idle fresh block far l =
    let (d', read, _, _, _) = read_sector-IsCoherent index idle fresh inside in
    (
      d',
      rw (le→ltb offset 3200 far)
          (rw last (rw (read, block) (rw (get_elem?-bytes_of_words ws (second_index offset) l)))),
    )

char_iff : (k : ℕ) → (int_of_char (k % 256) ≡ pos k) ↔ (k < 128)
char_iff k = ground arith

-- A sector number that the index block holds comes back exactly when it is below 128.
pub byte_to_sector_iff :
    (h : FileHeader) (d : SynchDisk) (offset index k : ℕ) (ws : List ℕ)
    → get_elem? h.data_sectors (num_direct - 1) ≡ some (pos index)
    → index < num_sectors
    → IsIdle d
    → IsCoherent d
    → d.sectors index ≡ bytes_of_words ws
    → sector_size * (num_direct - 1) ≤ offset
    → second_index offset < length ws
    → get_or ws (second_index offset) 0 ≡ k
    → (answer : ℤ) × (d' : SynchDisk) × (byte_to_sector h d offset ≡ ok (answer, d'))
      × ((answer ≡ pos k) ↔ (k < 128))
byte_to_sector_iff h d offset index k ws last inside idle fresh block far l word =
    let (d', e) = byte_to_sector-index h d offset index ws last inside idle fresh block far l in
    (int_of_char (k % 256), d', e ∙ ap (λ w. ok (int_of_char (w % 256), d')) word, char_iff k)

-- A defect: a file of exactly 26 sectors has no index block (Allocate puts its last data sector at
-- place 25), and yet a byte of that sector is looked for through the bytes of the data in it.
pub byte_to_sector-last :
    (h : FileHeader) (d : SynchDisk) (offset k c : ℕ)
    → h.num_sectors ≡ num_direct
    → get_elem? h.data_sectors (num_direct - 1) ≡ some (pos k)
    → k < num_sectors
    → IsIdle d
    → IsCoherent d
    → get_elem? (d.sectors k) 0 ≡ some c
    → sector_size * (num_direct - 1) ≤ offset
    → offset < sector_size * h.num_sectors
    → (d' : SynchDisk) × (byte_to_sector h d offset ≡ ok (int_of_char c, d'))
unfolding byte_to_sector
byte_to_sector-last h d offset k c n last inside idle fresh first far near =
    let (d', read, _, _, _) = read_sector-IsCoherent k idle fresh inside in
    let z : (offset - 3200) / 128 * 4 ≡ 0 = omega (arith, n) in
    (d', rw (le→ltb offset 3200 far) (rw last (rw (read, ap (get_elem? (d.sectors k)) z ∙ first))))
