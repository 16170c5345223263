-- ===== src/FileHeader/Allocate.antt =====
-- `Allocate` of code/filesys/filehdr.cc, branch by branch.
use nachos_lab.Base.{
  ℕ, ◌+◌, ◌≤◌, ◌<◌, ◌≡◌, refl, true, false, List, arith, length, leb, lt→ltb, le→ltb, div_round_up,
  ok, err, assert,
}
use nachos_lab.Base.Int.{ℤ}
use nachos_lab.BitMap.Valid.{IsValid}
use nachos_lab.BitMap.Count.{free, num_clear-free}
use nachos_lab.BitMap.FirstFind.{all_clear, first_find-aborts}
use nachos_lab.BitMap.Taken.{Taken}
use nachos_lab.BitMap.Taking.{run_from, length-run_from, first_find-Taken}
use nachos_lab.SynchDisk.{sector_size}
use nachos_lab.FileHeader.{Store, num_direct, fresh_header, allocate}
use nachos_lab.FileHeader.Table.{Holds, store_all, store_all-Holds, store_run-ok}

-- What Allocate finds: a well-formed free map, and the header's table of 26 sectors.
pub record IsReady (s : Store) : Type 0 where
  pub valid : IsValid s.free_map
  pub table : length s.header.data_sectors ≡ num_direct

pub leb-true : (a b : ℕ) → a ≤ b → leb a b ≡ true
leb-true a b h = ground arith

pub leb-false : (a b : ℕ) → b < a → leb a b ≡ false
leb-false a b h = ground arith

-- With too few clear bits Allocate answers FALSE, and neither the free map nor the disk changes.
pub allocate_refused :
    {s : Store} (stack : List ℤ) (now size : ℕ)
    → IsReady s
    → free s.free_map < div_round_up size sector_size
    → allocate stack now size s ≡ ok (false, record s { header = fresh_header s.header now size })
unfolding allocate
allocate_refused {s} stack now size r h =
    rw (num_clear-free r.valid, lt→ltb (free s.free_map) (div_round_up size sector_size) h)

-- What a successful call leaves: the header has its size, the sectors `ks` stand in its table, and
-- they are the bits that were taken from the free map.
pub record Direct (s : Store) (size : ℕ) (ks : List ℕ) (s' : Store) : Type 0 where
  pub bytes : s'.header.num_bytes ≡ size
  pub sectors : s'.header.num_sectors ≡ div_round_up size sector_size
  pub number : length ks ≡ div_round_up size sector_size
  pub table : Holds s'.header.data_sectors 0 ks
  pub taken : Taken s.free_map ks s'.free_map
  pub disk : s'.disk ≡ s.disk

-- A file of at most 26 sectors, for which a run of clear sectors first begins at `k`, gets that run.
pub allocate-Direct :
    {s : Store} (stack : List ℤ) (now size k : ℕ)
    → IsReady s
    → div_round_up size sector_size ≤ num_direct
    → k < s.free_map.num_bits
    → k + div_round_up size sector_size ≤ s.free_map.num_bits
    → all_clear s.free_map k (div_round_up size sector_size) ≡ true
    → ((m : ℕ) → m < k → all_clear s.free_map m (div_round_up size sector_size) ≡ false)
    → (s' : Store) × (allocate stack now size s ≡ ok (true, s'))
      × Direct s size (run_from k (div_round_up size sector_size)) s'
unfolding allocate
allocate-Direct {s} stack now size k r small h l clear least =
    let n = div_round_up size sector_size in
    let table = s.header.data_sectors in
    let (b', found, t) = first_find-Taken n k r.valid h l clear least in
    let z : k + 0 ≡ k = omega arith in
    let long = length-run_from k n in
    (
      record s {
        header = record (fresh_header s.header now size) {
          data_sectors = store_all table 0 (run_from k n);
        };
        free_map = b';
      },
      rw
          (
            num_clear-free r.valid,
            le→ltb (free s.free_map) n (omega (arith, t.count, long)),
            leb-true n num_direct small,
          )
          (rw found (rw (store_run-ok n 0 k table (omega (arith, r.table))) (rw z))),
      record {
        bytes = refl;
        sectors = refl;
        number = long;
        table = store_all-Holds table 0 (run_from k n) (omega (arith, r.table, long));
        taken = t;
        disk = refl;
      },
    )

-- A defect: a file of two to 26 sectors on a disk with room enough, but no run of that many clear
-- sectors. The branch that would collect single sectors is not reached: `FirstFind` fails an ASSERT.
pub allocate_aborts :
    {s : Store} (stack : List ℤ) (now size : ℕ)
    → IsReady s
    → 1 < div_round_up size sector_size
    → div_round_up size sector_size ≤ num_direct
    → div_round_up size sector_size ≤ free s.free_map
    → 0 < s.free_map.num_bits
    → ((m : ℕ)
        → m + div_round_up size sector_size ≤ s.free_map.num_bits
        → all_clear s.free_map m (div_round_up size sector_size) ≡ false)
    → allocate stack now size s ≡ err assert
unfolding allocate
allocate_aborts {s} stack now size r big small enough some_bits no_run =
    let n = div_round_up size sector_size in
    rw (num_clear-free r.valid, le→ltb (free s.free_map) n enough, leb-true n num_direct small)
      (rw (first_find-aborts n r.valid some_bits big no_run))
