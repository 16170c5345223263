-- ===== src/FileHeader/Tests.antt =====
-- The theorems of the file header at a disk with an empty cache and small free maps.
use nachos_lab.Base.{
  ℕ, zero, suc, ◌+◌, ◌≤◌, ◌<◌, ◌≡◌, ◌≢◌, ◌↔◌, refl, true, false, List, [], ◌∷◌, arith, get_or,
  get_elem?, ◌>>=◌, ok, err, assert, wild, div_round_up, some,
}
use nachos_lab.Base.Int.{ℤ, pos, int_of_char}
use nachos_lab.Base.Bits.{digit}
use nachos_lab.BitMap.{BitMap}
use nachos_lab.BitMap.Valid.{IsValid, is_set}
use nachos_lab.BitMap.Count.{free, clear_places}
use nachos_lab.BitMap.FirstFind.{all_clear}
use nachos_lab.BitMap.Taken.{Taken}
use nachos_lab.BitMap.Taking.{run_from}
use nachos_lab.SynchDisk.{Cache, SynchDisk, sector_size}
use nachos_lab.SynchDisk.Cached.{IsIdle, IsCoherent, NotCached}
use nachos_lab.FileHeader.{
  FileHeader, Store, allocate, deallocate, byte_to_sector, extend_file, fetch_from, write_back,
  fresh_header,
}
use nachos_lab.FileHeader.Words.{bytes_of_words}
use nachos_lab.FileHeader.Allocate.{
  IsReady, Direct, allocate_refused, allocate-Direct, allocate_aborts,
}
use nachos_lab.FileHeader.Indirect.{Indirect, allocate-Indirect}
use nachos_lab.FileHeader.Deallocate.{deallocate-allocate, HasIndex, deallocate_never}
use nachos_lab.FileHeader.Locate.{byte_to_sector-direct, byte_to_sector_iff, byte_to_sector-last}
use nachos_lab.FileHeader.Extend.{
  extended, extend_file-within, extend_file-refused, extend_file-one, extend_file-wild,
}
use nachos_lab.FileHeader.Stored.{Fits, stamped, fetch_from-write_back}

abbrev repeat : {A : Type 0} → ℕ → A → List A
repeat zero x = []
repeat (suc n) x = x ∷ repeat n x

abbrev blank : Cache
blank = record { valid = 0; sector = pos 0; data_ = [] }

-- Every sector is an index block that names sector 200 first, and then sector 1.
abbrev disk : SynchDisk
disk = record {
  sectors = λ n. bytes_of_words (200 ∷ 1 ∷ []);
  active = false;
  wakeups = 0;
  cache = blank ∷ blank ∷ blank ∷ blank ∷ [];
  fifo_pointer = 0;
}

-- 64 bits, of which bit 0 is on.
abbrev roomy : BitMap
roomy = record { num_bits = 64; num_words = 2; map = 1 ∷ 0 ∷ [] }

-- Every other bit of six is on.
abbrev striped : BitMap
striped = record { num_bits = 6; num_words = 1; map = 0x2a ∷ [] }

-- A header with `n` sectors, each of them sector 9.
abbrev header : ℕ → ℕ → FileHeader
header bytes n = record {
  create_time = 0;
  last_visit_time = 0;
  last_modify_time = 0;
  hdr_sector = pos 5;
  num_bytes = bytes;
  num_sectors = n;
  data_sectors = repeat 26 (pos 9);
}

abbrev store : Store
store = record { header = header 0 0; free_map = roomy; disk = disk }

abbrev scattered : Store
scattered = record store { free_map = striped }

disk-IsIdle : IsIdle disk
disk-IsIdle = record { at_rest = refl; no_wakeup = refl; entries = refl; pointer = omega arith }

disk-IsCoherent : IsCoherent disk
disk-IsCoherent = (
  λ v. absurd (omega arith),
  (λ v. absurd (omega arith), (λ v. absurd (omega arith), (λ v. absurd (omega arith), tt))),
)

disk-NotCached : NotCached 5 disk.cache
disk-NotCached = (
  λ v. absurd (omega arith),
  (λ v. absurd (omega arith), (λ v. absurd (omega arith), (λ v. absurd (omega arith), tt))),
)

roomy-IsValid : IsValid roomy
unfolding div_round_up
roomy-IsValid = record { words = refl; size = refl; unsigned = omega arith }

striped-IsValid : IsValid striped
unfolding div_round_up
striped-IsValid = record { words = refl; size = refl; unsigned = omega arith }

store-IsReady : IsReady store
store-IsReady = record { valid = roomy-IsValid; table = refl }

scattered-IsReady : IsReady scattered
scattered-IsReady = record { valid = striped-IsValid; table = refl }

free-roomy : free roomy ≡ 63
unfolding free clear_places is_set digit
free-roomy = refl

free-striped : free striped ≡ 3
unfolding free clear_places is_set digit
free-striped = refl

sectors_of :
    (div_round_up 300 128 ≡ 3) × (div_round_up 3500 128 ≡ 28) × (div_round_up 9000 128 ≡ 71)
unfolding div_round_up
sectors_of = (refl, refl, refl)

clear_at_1 : all_clear roomy 1 (div_round_up 300 sector_size) ≡ true
unfolding all_clear is_set digit div_round_up
clear_at_1 = refl

none_below_1 : (m : ℕ) → m < 1 → all_clear roomy m (div_round_up 300 sector_size) ≡ false
unfolding all_clear is_set digit div_round_up
none_below_1 zero h = refl
none_below_1 (suc m) h = absurd (omega arith)

no_run : (m : ℕ) → m + 3 ≤ 6 → all_clear striped m 3 ≡ false
unfolding all_clear is_set digit
no_run zero h = refl
no_run (suc zero) h = refl
no_run (suc (suc zero)) h = refl
no_run (suc (suc (suc zero))) h = refl
no_run (suc (suc (suc (suc m)))) h = absurd (omega arith)

deallocate-allocate_example :
    (s'' : Store) × ((allocate [] 7 300 store >>= λ (_, s'). deallocate s') ≡ ok s'')
    × ((m : ℕ) → is_set s''.free_map m ≡ is_set roomy m)
    × (free s''.free_map ≡ free roomy)
deallocate-allocate_example =
    deallocate-allocate [] 7 300 1 store-IsReady (omega (arith, sectors_of.0)) (omega arith)
      (omega (arith, sectors_of.0)) clear_at_1 none_below_1

allocate-Direct_example :
    (s' : Store) × (allocate [] 7 300 store ≡ ok (true, s'))
    × Direct store 300 (run_from 1 (div_round_up 300 sector_size)) s'
allocate-Direct_example =
    allocate-Direct [] 7 300 1 store-IsReady (omega (arith, sectors_of.0)) (omega arith)
      (omega (arith, sectors_of.0)) clear_at_1 none_below_1

allocate-Indirect_example :
    (front : List ℕ) × (index : ℕ) × (back : List ℕ) × (s' : Store) × (allocate
        (repeat 32 (pos 0))
        7
        3500
        store
      ≡ ok (true, s'))
    × Indirect store (repeat 32 (pos 0)) 3500 front index back s'
allocate-Indirect_example =
    allocate-Indirect (repeat 32 (pos 0)) 7 3500 store-IsReady disk-IsIdle refl (omega arith)
      (omega (arith, sectors_of.1)) (omega (arith, sectors_of.1))
      (omega (arith, sectors_of.1, free-roomy))

tests_allocate_refused :
    allocate [] 7 9000 store
    ≡ ok (false, record store { header = fresh_header store.header 7 9000 })
tests_allocate_refused =
    allocate_refused [] 7 9000 store-IsReady (omega (arith, sectors_of.2, free-roomy))

allocate_aborts_example : allocate [] 7 300 scattered ≡ err assert
allocate_aborts_example =
    allocate_aborts [] 7 300 scattered-IsReady (omega (arith, sectors_of.0))
      (omega (arith, sectors_of.0)) (omega (arith, sectors_of.0, free-striped)) (omega arith)
      (rw (sectors_of.0) no_run)

-- A file of 28 sectors with its index block at sector 9.
indexed : HasIndex (header 3500 28) disk 9 (bytes_of_words (200 ∷ 1 ∷ []))
indexed = record {
  many = omega arith;
  last = refl;
  inside = omega arith;
  idle = disk-IsIdle;
  coherent = disk-IsCoherent;
  block = refl;
}

low_byte : get_elem? (bytes_of_words (200 ∷ 1 ∷ [])) 0 ≡ some 200
unfolding bytes_of_words
low_byte = refl

tests_deallocate_never : deallocate (record store { header = header 3500 28 }) ≢ ok store
tests_deallocate_never =
    deallocate_never (record store { header = header 3500 28 }) 9 0 200
      (bytes_of_words (200 ∷ 1 ∷ [])) indexed (omega arith) low_byte (omega arith)

tests_byte_to_sector_direct :
    byte_to_sector (header 3500 28) disk 130 ≡ ok (pos (get_or (9 ∷ 9 ∷ []) 1 0), disk)
tests_byte_to_sector_direct =
    byte_to_sector-direct (header 3500 28) disk 130 (9 ∷ 9 ∷ []) (refl, (refl, tt)) (omega arith)
      (omega arith)

byte_to_sector_iff_example :
    (answer : ℤ) × (d' : SynchDisk) × (byte_to_sector (header 3500 28) disk 3201 ≡ ok (answer, d'))
    × ((answer ≡ pos 200) ↔ (200 < 128))
byte_to_sector_iff_example =
    byte_to_sector_iff (header 3500 28) disk 3201 9 200 (200 ∷ 1 ∷ []) refl (omega arith)
      disk-IsIdle disk-IsCoherent refl (omega arith) (omega arith) refl

tests_byte_to_sector_last :
    (d' : SynchDisk) × (byte_to_sector (header 3328 26) disk 3300 ≡ ok (int_of_char 200, d'))
tests_byte_to_sector_last =
    byte_to_sector-last (header 3328 26) disk 3300 9 200 refl refl (omega arith) disk-IsIdle
      disk-IsCoherent low_byte (omega arith) (omega arith)

grown_by :
    (div_round_up 301 128 ≡ 3)
    × (div_round_up 684 128 ≡ 6)
    × (div_round_up 3428 128 ≡ 27)
    × (div_round_up 9300 128 ≡ 73)
unfolding div_round_up
grown_by = (refl, refl, refl, refl)

tests_extend_file_within : extend_file (header 300 3) roomy 1 ≡ ok (true, header 301 3, roomy)
tests_extend_file_within = extend_file-within (header 300 3) roomy 1 grown_by.0

tests_extend_file_refused : extend_file (header 300 3) roomy 9000 ≡ ok (false, header 300 3, roomy)
tests_extend_file_refused =
    extend_file-refused (header 300 3) 9000 roomy-IsValid (omega (arith, grown_by, free-roomy))

tests_extend_file_one :
    (k : ℕ) × (b' : BitMap) × (extend_file (header 300 3) roomy 384
      ≡ ok (true, extended (header 300 3) 384 k, b'))
    × Taken roomy (k ∷ []) b'
tests_extend_file_one =
    extend_file-one (header 300 3) 384 roomy-IsValid (omega (arith, grown_by))
      (omega (arith, grown_by, free-roomy)) (omega arith)

tests_extend_file_wild : extend_file (header 3328 26) roomy 100 ≡ err wild
tests_extend_file_wild =
    extend_file-wild (header 3328 26) 100 roomy-IsValid (omega (arith, grown_by))
      (omega (arith, grown_by, free-roomy)) (omega arith)

header-Fits : Fits (header 300 3)
header-Fits = record {
  create_fits = omega arith;
  visit_fits = omega arith;
  modify_fits = omega arith;
  bytes_fit = omega arith;
  sectors_fit = omega arith;
  table_fits = omega arith;
}

fetch_from-write_back_example :
    (d' : SynchDisk) × ((write_back (header 300 3) disk 7 (pos 5) >>= λ (_, d1).
    fetch_from d1 8 (pos 5))
      ≡ ok (record (stamped (header 300 3) 7 5) { last_visit_time = 8 }, d'))
fetch_from-write_back_example =
    fetch_from-write_back (header 300 3) 7 8 5 header-Fits (omega arith) (omega arith) disk-IsIdle
      disk-IsCoherent disk-NotCached
