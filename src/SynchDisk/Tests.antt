-- ===== src/SynchDisk/Tests.antt =====
-- The theorems of the synchronous disk at a disk with one cached sector.
use nachos_lab.Base.{true, ◌*◌, ◌+◌, ◌≤◌, ◌⊎◌, ◌≡◌, refl, false, [], ◌∷◌, arith, ok}
use nachos_lab.Base.Int.{pos}
use nachos_lab.SynchDisk.{Cache, SynchDisk, read_sector, write_sector}
use nachos_lab.SynchDisk.ReaderWriter.{
  Access, initial, reader_start, starts_reading, passes, Reachable, begin, next, one_if,
  Reachable-exclusive,
}
use nachos_lab.SynchDisk.Latency.{
  rotation_time, compute_latency, time_to_seek, compute_latency-bounds,
}
use nachos_lab.SynchDisk.Cached.{
  IsIdle, IsCoherent, NotCached, read_sector-IsCoherent, read_sector-write_sector,
  read_sector-stale,
}

abbrev empty_entry : Cache
empty_entry = record { valid = 0; sector = pos 0; data_ = [] }

-- Sector `n` holds the byte `n`; sector 7 is cached.
abbrev disk : SynchDisk
disk = record {
  sectors = λ n. n ∷ [];
  active = false;
  wakeups = 0;
  cache =
      record { valid = 1; sector = pos 7; data_ = 7 ∷ [] }
      ∷ empty_entry
      ∷ empty_entry
      ∷ empty_entry
      ∷ [];
  fifo_pointer = 1;
}

disk-IsIdle : IsIdle disk
disk-IsIdle = record { at_rest = refl; no_wakeup = refl; entries = refl; pointer = omega arith }

disk-IsCoherent : IsCoherent disk
disk-IsCoherent = (
  λ v n e. ground arith,
  (
    λ v n e. absurd (omega arith),
    (λ v n e. absurd (omega arith), (λ v n e. absurd (omega arith), tt)),
  ),
)

disk-NotCached : NotCached 9 disk.cache
disk-NotCached =
    (λ v e. ground arith, (λ v e. ground arith, (λ v e. ground arith, (λ v e. ground arith, tt))))

read_sector-IsCoherent_example :
    (s' : SynchDisk) × (read_sector disk (pos 9) ≡ ok (9 ∷ [], s'))
    × IsIdle s'
    × IsCoherent s'
    × (s'.sectors ≡ disk.sectors)
read_sector-IsCoherent_example = read_sector-IsCoherent 9 disk-IsIdle disk-IsCoherent (omega arith)

read_sector-write_sector_example :
    (s' s'' : SynchDisk) × (write_sector disk (pos 9) (1 ∷ []) ≡ ok s')
    × (read_sector s' (pos 9) ≡ ok (1 ∷ [], s''))
    × IsCoherent s''
read_sector-write_sector_example =
    read_sector-write_sector 9 (1 ∷ []) disk-IsIdle disk-IsCoherent (omega arith) disk-NotCached

read_sector-stale_example :
    (s' s'' : SynchDisk) × (write_sector disk (pos 7) (1 ∷ []) ≡ ok s')
    × (s'.sectors 7 ≡ 1 ∷ [])
    × (read_sector s' (pos 7) ≡ ok (7 ∷ [], s''))
read_sector-stale_example = read_sector-stale 7 (7 ∷ []) (1 ∷ []) disk-IsIdle (omega arith) refl

abbrev one_reader : Access
one_reader = record initial { reader_num = 1; semaphore = 0; reading = 1 }

-- One reader has passed the semaphore, and a second has come.
two_readers : Reachable (reader_start one_reader)
two_readers =
    next _ _
      (next _ _ (next _ _ begin (starts_reading initial refl))
        (passes (reader_start initial) refl (omega arith)))
      (starts_reading one_reader refl)

Reachable-exclusive_example :
    ((reader_start one_reader).writing ≤ 1)
    × (((reader_start one_reader).writing ≡ 0) ⊎ ((reader_start one_reader).reading ≡ 0))
    × ((reader_start one_reader).reader_num ≡ (reader_start one_reader).reading + one_if false)
Reachable-exclusive_example = Reachable-exclusive two_readers

tests_compute_latency_bounds :
    (rotation_time ≤ compute_latency (record { last_sector = 0; buffer_init = 0 }) 1010 70 true)
    × (compute_latency (record { last_sector = 0; buffer_init = 0 }) 1010 70 true
        ≤ (time_to_seek (record { last_sector = 0; buffer_init = 0 }) 1010 70).0
          + 33 * rotation_time)
tests_compute_latency_bounds =
    compute_latency-bounds (record { last_sector = 0; buffer_init = 0 }) 1010 70 true
