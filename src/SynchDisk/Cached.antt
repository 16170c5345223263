-- ===== src/SynchDisk/Cached.antt =====
-- When the four-entry cache of code/filesys/synchdisk.cc shows the disk as it is, and when not.
use nachos_lab.Base.{
  ℕ, ◌+◌, ◌%◌, ◌<◌, ◌≡◌, ◌≢◌, refl, ◌∙◌, sym, ap, false, none, some, List, [], ◌∷◌, arith, ◌==◌,
  ==_iff, ==_refl, lt→ltb, set, length, length-set, All, All-set, Option-cases, inl, inr, ok,
  Bool-cases, ◌&&◌,
}
use nachos_lab.Base.Int.{pos, int_eq, int_eq_sound}
use nachos_lab.SynchDisk.{
  Sector, Cache, SynchDisk, num_sectors, update, find_cached, read_sector, write_sector,
}

-- No request is under way, and the cache has its four entries.
pub record IsIdle (s : SynchDisk) : Type 0 where
  pub at_rest : s.active ≡ false
  pub no_wakeup : s.wakeups ≡ 0
  pub entries : length s.cache ≡ 4
  pub pointer : s.fifo_pointer < 4

-- Every entry that a read would take shows the sector as the disk has it.
abbrev pub IsFresh : (ℕ → Sector) → Cache → Type 0
IsFresh sectors c = c.valid ≡ 1 → (n : ℕ) → c.sector ≡ pos n → c.data_ ≡ sectors n

abbrev pub IsCoherent : SynchDisk → Type 0
IsCoherent s = All (IsFresh s.sectors) s.cache

-- No entry holds the sector.
abbrev pub NotCached : ℕ → List Cache → Type 0
NotCached n = All (λ c. c.valid ≡ 1 → c.sector ≢ pos n)

find_cached-fresh :
    (sectors : ℕ → Sector) (cs : List Cache) (n : ℕ) (bytes : Sector)
    → All (IsFresh sectors) cs
    → find_cached cs (pos n) ≡ some bytes
    → bytes ≡ sectors n
find_cached-fresh sectors [] n bytes fresh e = cc
find_cached-fresh sectors (c ∷ cs) n bytes fresh e =
    elim (Bool-cases (c.valid == 1 && int_eq c.sector (pos n))) [
      | inl hit ↦
          ground
            (arith, hit, fresh.0 (ground arith) n (int_eq_sound c.sector (pos n) (ground arith)))
      | inr miss ↦ find_cached-fresh sectors cs n bytes fresh.1 (rw miss at e)
    ]

-- What a read leaves behind, when the sector was in the cache and when it was not.
abbrev pub after_hit : SynchDisk → SynchDisk
after_hit s = record s { active = false; wakeups = 0 }

abbrev pub after_miss : SynchDisk → ℕ → SynchDisk
after_miss s n = record s {
  active = false;
  wakeups = 0;
  cache = set s.cache s.fifo_pointer (record { valid = 1; sector = pos n; data_ = s.sectors n });
  fifo_pointer = (s.fifo_pointer + 1) % 4;
}

read_sector-miss :
    {s : SynchDisk} (n : ℕ)
    → IsIdle s
    → n < num_sectors
    → find_cached s.cache (pos n) ≡ none
    → read_sector s (pos n) ≡ ok (s.sectors n, after_miss s n)
unfolding read_sector
read_sector-miss {s} n idle h e = rw (e, read_sector) (ground (arith, lt→ltb n num_sectors h))

read_sector-hit :
    {s : SynchDisk} (n : ℕ) {bytes : Sector}
    → IsIdle s
    → find_cached s.cache (pos n) ≡ some bytes
    → read_sector s (pos n) ≡ ok (bytes, after_hit s)
unfolding read_sector
read_sector-hit {s} n idle e = rw (e, read_sector) (ground arith)

IsFresh-entry :
    (sectors : ℕ → Sector) (n : ℕ)
    → IsFresh sectors (record { valid = 1; sector = pos n; data_ = sectors n })
IsFresh-entry sectors n v m e = ap sectors (cc)

-- From a coherent cache `ReadSector` returns what the disk holds, changes nothing on the disk, and
-- leaves the cache coherent.
pub read_sector-IsCoherent :
    {s : SynchDisk} (n : ℕ)
    → IsIdle s
    → IsCoherent s
    → n < num_sectors
    → (s' : SynchDisk) × (read_sector s (pos n) ≡ ok (s.sectors n, s'))
      × IsIdle s'
      × IsCoherent s'
      × (s'.sectors ≡ s.sectors)
unfolding read_sector
read_sector-IsCoherent {s} n idle fresh h = elim (Option-cases (find_cached s.cache (pos n))) [
  | inl e ↦ (
    after_miss s n,
    read_sector-miss n idle h e,
    record {
      at_rest = refl;
      no_wakeup = refl;
      entries = length-set s.cache _ _ ∙ idle.entries;
      pointer = omega arith;
    },
    All-set (IsFresh s.sectors) s.cache _ _ fresh (IsFresh-entry s.sectors n),
    refl,
  )
  | inr (bytes, e) ↦ (
    after_hit s,
    rw (← find_cached-fresh s.sectors s.cache n bytes fresh e) (read_sector-hit n idle e),
    record { at_rest = refl; no_wakeup = refl; entries = idle.entries; pointer = idle.pointer },
    fresh,
    refl,
  )
]

-- Is the sector in no entry, a write of it leaves every entry fresh.
IsFresh-update :
    (sectors : ℕ → Sector) (n : ℕ) (bytes : Sector) (cs : List Cache)
    → All (IsFresh sectors) cs
    → NotCached n cs
    → All (IsFresh (update sectors n bytes)) cs
IsFresh-update sectors n bytes [] fresh out = tt
IsFresh-update sectors n bytes (c ∷ cs) fresh out =
    (other, IsFresh-update sectors n bytes cs fresh.1 out.1)
  where
    other : IsFresh (update sectors n bytes) c
    other v m e = elim (Bool-cases (n == m)) [
      | inl same ↦ absurd (out.0 v (e ∙ ap pos (sym ((==_iff n m).0 same))))
      | inr differ ↦ rw differ (fresh.0 v m e)
    ]

abbrev pub written : SynchDisk → ℕ → Sector → SynchDisk
written s n bytes = record s { active = false; wakeups = 0; sectors = update s.sectors n bytes }

pub write_sector-ok :
    {s : SynchDisk} (n : ℕ) (bytes : Sector)
    → IsIdle s
    → n < num_sectors
    → write_sector s (pos n) bytes ≡ ok (written s n bytes)
unfolding write_sector
write_sector-ok {s} n bytes idle h = rw (idle.at_rest, lt→ltb n num_sectors h) (ground arith)

pub written-IsIdle :
    {s : SynchDisk} (n : ℕ) (bytes : Sector) → IsIdle s → IsIdle (written s n bytes)
written-IsIdle n bytes idle = record {
  at_rest = refl;
  no_wakeup = refl;
  entries = idle.entries;
  pointer = idle.pointer;
}

-- `WriteSector` of a sector that the cache does not hold, then `ReadSector`: the bytes come back,
-- and the cache is coherent.
pub read_sector-write_sector :
    {s : SynchDisk} (n : ℕ) (bytes : Sector)
    → IsIdle s
    → IsCoherent s
    → n < num_sectors
    → NotCached n s.cache
    → (s' s'' : SynchDisk) × (write_sector s (pos n) bytes ≡ ok s')
      × (read_sector s' (pos n) ≡ ok (bytes, s''))
      × IsCoherent s''
read_sector-write_sector {s} n bytes idle fresh h out =
    let coherent = IsFresh-update s.sectors n bytes s.cache fresh out in
    let (s'', e, _, fresh', _) =
      read_sector-IsCoherent {s = written s n bytes} n (written-IsIdle n bytes idle) coherent h in
    (
      written s n bytes,
      s'',
      write_sector-ok n bytes idle h,
      e ∙ ap (λ x. ok (x, s'')) (rw (==_refl n)),
      fresh',
    )

-- A defect: while the cache holds the sector, `WriteSector` does not touch the entry, so that the
-- next `ReadSector` returns the bytes from before the write.
pub read_sector-stale :
    {s : SynchDisk} (n : ℕ) (old bytes : Sector)
    → IsIdle s
    → n < num_sectors
    → find_cached s.cache (pos n) ≡ some old
    → (s' s'' : SynchDisk) × (write_sector s (pos n) bytes ≡ ok s')
      × (s'.sectors n ≡ bytes)
      × (read_sector s' (pos n) ≡ ok (old, s''))
read_sector-stale {s} n old bytes idle h e = (
  written s n bytes,
  after_hit (written s n bytes),
  write_sector-ok n bytes idle h,
  rw (==_refl n),
  read_sector-hit n (written-IsIdle n bytes idle) e,
)
