-- ===== src/SynchDisk/ReaderWriter.antt =====
-- SynchReaderStart, SynchReaderExit, SynchWriterStart and SynchWriterExit of code/filesys/synchdisk.cc,
-- for one sector, as steps of any number of threads. A thread that waits in P with the reader lock held
-- is `waiting`; a thread that waits for the lock, or in P without it, has not taken its step yet.
use nachos_lab.Base.{
  ℕ, ◌+◌, ◌-◌, ◌≤◌, ◌<◌, ◌≡◌, refl, Bool, true, false, ◌==◌, if◌then◌else◌, arith, ltb, ◌⊎◌,
}

-- `readerNum`, the value of the semaphore, and the threads between a Start and its Exit.
pub record Access : Type 0 where
  pub reader_num : ℕ
  pub semaphore : ℕ
  pub waiting : Bool
  pub reading : ℕ
  pub writing : ℕ

-- The constructor of SynchDisk: the semaphore is 1.
abbrev pub initial : Access
initial = record { reader_num = 0; semaphore = 1; waiting = false; reading = 0; writing = 0 }

-- SynchReaderStart with the lock: the first reader goes on to P, any other one reads.
abbrev pub reader_start : Access → Access
reader_start s =
    if (s.reader_num + 1) == 1
    then record s { reader_num = s.reader_num + 1; waiting = true }
    else record s { reader_num = s.reader_num + 1; reading = s.reading + 1 }

-- SynchReaderExit with the lock: the last reader does V.
abbrev pub reader_exit : Access → Access
reader_exit s =
    if (s.reader_num - 1) == 0
    then record s {
      reader_num = s.reader_num - 1;
      reading = s.reading - 1;
      semaphore = s.semaphore + 1;
    }
    else record s { reader_num = s.reader_num - 1; reading = s.reading - 1 }

-- The steps: the lock is free when no thread waits with it.
pub data Step : Access → Access → Type 0 where
  starts_reading : (s : Access) → s.waiting ≡ false → Step s (reader_start s)
  passes :
      (s : Access)
      → s.waiting ≡ true
      → 0 < s.semaphore
      → Step s (record s { semaphore = s.semaphore - 1; waiting = false; reading = s.reading + 1 })
  stops_reading : (s : Access) → s.waiting ≡ false → 0 < s.reading → Step s (reader_exit s)
  starts_writing :
      (s : Access)
      → 0 < s.semaphore
      → Step s (record s { semaphore = s.semaphore - 1; writing = s.writing + 1 })
  stops_writing :
      (s : Access)
      → 0 < s.writing
      → Step s (record s { semaphore = s.semaphore + 1; writing = s.writing - 1 })

pub data Reachable : Access → Type 0 where
  begin : Reachable initial
  next : (s t : Access) → Reachable s → Step s t → Reachable t

abbrev pub one_if : Bool → ℕ
one_if b = if b then 1 else 0

-- The semaphore, a writer, or the readers together have the sector; every reader is counted.
record IsShared (s : Access) : Type 0 where
  owner : s.semaphore + s.writing + one_if (ltb 0 s.reading) ≡ 1
  counted : s.reader_num ≡ s.reading + one_if s.waiting
  alone : s.waiting ≡ true → s.reading ≡ 0

Step-IsShared : {s t : Access} → Step s t → IsShared s → IsShared t
Step-IsShared (starts_reading s free) i = record {
  owner = ground (arith, i.owner, i.counted, free);
  counted = ground (arith, i.counted, free);
  alone = λ h. ground (arith, i.counted, free, h);
}
Step-IsShared (passes s held up) i = record {
  owner = ground (arith, i.owner, i.alone held, up);
  counted = ground (arith, i.counted, held);
  alone = λ h. cc;
}
Step-IsShared (stops_reading s free some_) i = record {
  owner = ground (arith, i.owner, i.counted, free, some_);
  counted = ground (arith, i.counted, free, some_);
  alone = λ h. ground (arith, i.counted, free, h, some_);
}
Step-IsShared (starts_writing s up) i = record {
  owner = omega (arith, i.owner, up);
  counted = i.counted;
  alone = i.alone;
}
Step-IsShared (stops_writing s some_) i = record {
  owner = omega (arith, i.owner, some_);
  counted = i.counted;
  alone = i.alone;
}

Reachable-IsShared : {s : Access} → Reachable s → IsShared s
Reachable-IsShared begin = record { owner = refl; counted = refl; alone = λ h. refl }
Reachable-IsShared (next s t r step) = Step-IsShared step (Reachable-IsShared r)

-- Whatever the threads do, at most one of them writes the sector, no thread reads while one writes,
-- and `readerNum` counts the threads that read or hold the lock to read.
pub Reachable-exclusive :
    {s : Access}
    → Reachable s
    → (s.writing ≤ 1)
      × ((s.writing ≡ 0) ⊎ (s.reading ≡ 0))
      × (s.reader_num ≡ s.reading + one_if s.waiting)
Reachable-exclusive {s} r =
    let i = Reachable-IsShared r in (omega (arith, i.owner), ground (arith, i.owner), i.counted)
