-- ===== src/SynchDisk.antt =====
-- code/filesys/synchdisk.cc, with the requests of code/machine/disk.cc that it makes: one thread's
-- view of the disk. The lock is free when such a call begins (Synch has the lock), and the wait for
-- the semaphore ends with the interrupt of the request that is under way.
pub mod Cached
pub mod ReaderWriter
pub mod Latency
mod Tests
use nachos_lab.Base.{
  ℕ, zero, suc, ◌+◌, ◌-◌, ◌%◌, Bool, true, false, not, ◌&&◌, Option, none, some, List, [], ◌∷◌,
  ◌==◌, if◌then◌else◌, set, get_elem?, Result, ok, err, hang, ◌>>=◌, ◌>>◌, check, or_wild,
}
use nachos_lab.Base.Int.{ℤ, pos, negsuc, int_eq, between, index}

abbrev pub sector_size : ℕ
sector_size = 128

abbrev pub num_sectors : ℕ
num_sectors = 1024

-- The bytes of one sector.
abbrev pub Sector : Type 0
Sector = List ℕ

pub record Cache : Type 0 where
  pub valid : ℕ
  pub sector : ℤ
  pub data_ : Sector

-- `active` is the disk's; `wakeups` is the value of the semaphore "synch disk".
pub record SynchDisk : Type 0 where
  pub sectors : ℕ → Sector
  pub active : Bool
  pub wakeups : ℕ
  pub cache : List Cache
  pub fifo_pointer : ℕ

-- Disk::ReadRequest and Disk::WriteRequest, without the time that they take.
unfoldable pub read_request : SynchDisk → ℤ → Result (Sector × SynchDisk)
read_request s n = do
  check (not s.active)
  check (between n num_sectors)
  ok (s.sectors (index n), record s { active = true })

abbrev pub update : (ℕ → Sector) → ℕ → Sector → ℕ → Sector
update f k v i = if k == i then v else f i

unfoldable pub write_request : SynchDisk → ℤ → Sector → Result SynchDisk
write_request s n bytes = do
  check (not s.active)
  check (between n num_sectors)
  ok (record s { active = true; sectors = update s.sectors (index n) bytes })

-- Disk::HandleInterrupt, whose handler calls SynchDisk::RequestDone, a V.
unfoldable pub handle_interrupt : SynchDisk → SynchDisk
handle_interrupt s = record s { active = false; wakeups = s.wakeups + 1 }

-- `semaphore->P()`: at value 0 the thread sleeps until the interrupt of an active request.
unfoldable pub wait : SynchDisk → Result SynchDisk
unfolding handle_interrupt
wait s =
    if s.wakeups == 0
    then (if s.active then ok (record (handle_interrupt s) { wakeups = s.wakeups }) else err hang)
    else ok (record s { wakeups = s.wakeups - 1 })

-- The first loop of ReadSector: the first valid entry for the sector.
abbrev pub find_cached : List Cache → ℤ → Option Sector
find_cached [] n = none
find_cached (c ∷ cs) n =
    if c.valid == 1 && int_eq c.sector n then some c.data_ else find_cached cs n

-- The entry at the FIFO pointer gets the sector, and the pointer moves on.
unfoldable pub remember : SynchDisk → ℤ → Sector → SynchDisk
remember s n bytes = record s {
  cache = set s.cache s.fifo_pointer (record { valid = 1; sector = n; data_ = bytes });
  fifo_pointer = (s.fifo_pointer + 1) % 4;
}

unfoldable pub read_sector : SynchDisk → ℤ → Result (Sector × SynchDisk)
unfolding read_request remember handle_interrupt wait
read_sector s n = elim (find_cached s.cache n) [
  | none ↦ do (bytes, s') ← read_request s n; s'' ← wait (remember s' n bytes); ok (bytes, s'')
  | some bytes ↦ do s' ← wait (handle_interrupt s); ok (bytes, s')
]

unfoldable pub write_sector : SynchDisk → ℤ → Sector → Result SynchDisk
unfolding write_request wait
write_sector s n bytes = do s' ← write_request s n bytes; wait s'
