-- ===== src/FileHeader/Deallocate.antt =====
-- `Deallocate` of code/filesys/filehdr.cc.
use nachos_lab.Base.{
  ℕ, zero, suc, ◌+◌, ◌-◌, ◌*◌, ◌≤◌, ◌<◌, ◌≡◌, ◌≢◌, refl, ◌∙◌, sym, ap, true, false, List, [], ◌∷◌,
  arith, length, All, div_round_up, ok, err, assert, ◌>>=◌, get_elem?, some, le→ltb, >>=-eq-ok,
  dec_lt, fetch,
}
use nachos_lab.Base.Int.{ℤ, pos, int_of_char}
use nachos_lab.BitMap.{BitMap, clear}
use nachos_lab.BitMap.Valid.{
  IsValid, is_set, cleared, test-ok, clear-ok, cleared-IsValid, clear_negative,
}
use nachos_lab.BitMap.Count.{free}
use nachos_lab.BitMap.FirstFind.{all_clear}
use nachos_lab.BitMap.Taken.{Distinct}
use nachos_lab.BitMap.Taking.{run_from}
use nachos_lab.BitMap.Given.{
  Given, Given-nil, Given-cons, IsTaken, IsTaken-cleared, Taken-IsTaken, Given-Taken,
}
use nachos_lab.SynchDisk.{SynchDisk, num_sectors, sector_size}
use nachos_lab.SynchDisk.Cached.{IsIdle, IsCoherent, read_sector-IsCoherent}
use nachos_lab.FileHeader.{
  FileHeader, Store, num_direct, allocate, deallocate, clear_tested, clear_chars,
}
use nachos_lab.FileHeader.Table.{Holds}
use nachos_lab.FileHeader.Allocate.{IsReady, Direct, allocate-Direct, leb-true, leb-false}

clear_tested-Given :
    (ks : List ℕ) (i : ℕ) (table : List ℤ) (b : BitMap)
    → IsValid b
    → Holds table i ks
    → All (IsTaken b) ks
    → Distinct ks
    → (b' : BitMap) × (clear_tested (length ks) i table b ≡ ok b') × Given b ks b'
unfolding clear_tested
clear_tested-Given [] i table b v h t d = (b, refl, Given-nil v)
clear_tested-Given (k ∷ ks) i table b v h t d =
    let (b', done, g) =
      clear_tested-Given ks (i + 1) table (cleared b k) (cleared-IsValid k v) h.1
        (IsTaken-cleared k ks v t.0.inside d.0 t.1) d.1 in
    (
      b',
      rw h.0 (rw (test-ok k v t.0.inside) (rw t.0.on (rw (clear-ok k v t.0.inside) done))),
      Given-cons k ks v t.0 g,
    )

-- A file of at most 26 sectors gives back exactly the sectors that its table holds.
pub deallocate-Direct :
    {s : Store} (size : ℕ) (ks : List ℕ) {s' : Store}
    → Direct s size ks s'
    → div_round_up size sector_size ≤ num_direct
    → (s'' : Store) × (deallocate s' ≡ ok s'')
      × ((m : ℕ) → is_set s''.free_map m ≡ is_set s.free_map m)
      × (free s''.free_map ≡ free s.free_map)
unfolding deallocate
deallocate-Direct {s} size ks {s'} d small =
    let n : length ks ≡ s'.header.num_sectors = d.number ∙ sym d.sectors in
    let (b', done, g) =
      clear_tested-Given ks 0 s'.header.data_sectors s'.free_map d.taken.valid d.table
        (Taken-IsTaken ks d.taken) d.taken.distinct in
    let few : s'.header.num_sectors ≤ num_direct = omega (arith, d.sectors) in
    let (same, count) = Given-Taken ks d.taken g in
    (
      record s' { free_map = b' },
      rw (leb-true s'.header.num_sectors num_direct few) (rw (← n) (rw done)),
      same,
      count,
    )

-- A file of at most 26 sectors, where the first run of free sectors that is long enough begins at `k`:
-- after Allocate and then Deallocate the free map has the bits that it had before, and as many free ones.
pub deallocate-allocate :
    {s : Store} (stack : List ℤ) (now size k : ℕ)
    → IsReady s
    → div_round_up size sector_size ≤ num_direct
    → k < s.free_map.num_bits
    → k + div_round_up size sector_size ≤ s.free_map.num_bits
    → all_clear s.free_map k (div_round_up size sector_size) ≡ true
    → ((m : ℕ) → m < k → all_clear s.free_map m (div_round_up size sector_size) ≡ false)
    → (s'' : Store) × ((allocate stack now size s >>= λ (_, s'). deallocate s') ≡ ok s'')
      × ((m : ℕ) → is_set s''.free_map m ≡ is_set s.free_map m)
      × (free s''.free_map ≡ free s.free_map)
deallocate-allocate stack now size k r small h l clear least =
    let (s', done, d) = allocate-Direct stack now size k r small h l clear least in
    let (s'', undone, same, count) =
      deallocate-Direct size (run_from k (div_round_up size sector_size)) d small in
    (s'', rw done undone, same, count)

clear_char : (b : BitMap) (c : ℕ) → 127 < c → clear b (int_of_char c) ≡ err assert
clear_char b c h = rw (le→ltb c 128 h) (clear_negative b (255 - c))

-- A byte of 128 or more, read as `char`, is a negative sector number, which `Clear` refuses.
clear_chars-fails :
    (n i j c : ℕ) (bytes : List ℕ) (b b' : BitMap)
    → i ≤ j
    → j < i + n
    → get_elem? bytes (j * 4) ≡ some c
    → 127 < c
    → clear_chars n i bytes b ≢ ok b'
unfolding clear_chars
clear_chars-fails zero i j c bytes b b' h l e big done = absurd (omega arith)
clear_chars-fails (suc n) i j c bytes b b' h l e big done =
    let (c1, e1, rest) = >>=-eq-ok (fetch bytes (i * 4)) _ done in
    let (b1, cleared_c, rest') = >>=-eq-ok (clear b (int_of_char c1)) _ rest in
    elim (dec_lt i j) [
      | yes p ↦ clear_chars-fails n (i + 1) j c bytes b1 b' (omega arith) (omega arith) e big rest'
      | no p ↦
          let q : i ≡ j = omega arith in
          let same : c1 ≡ c = ground (arith, ap (λ x. get_elem? bytes (x * 4)) q) in
          cc (clear_char b c1 (omega arith))
    ]

-- The header of a file with an index block, and the index block on the disk.
pub record HasIndex (h : FileHeader) (d : SynchDisk) (index : ℕ) (bytes : List ℕ) : Type 0 where
  pub many : num_direct < h.num_sectors
  pub last : get_elem? h.data_sectors (num_direct - 1) ≡ some (pos index)
  pub inside : index < num_sectors
  pub idle : IsIdle d
  pub coherent : IsCoherent d
  pub block : d.sectors index ≡ bytes

-- A defect: `secondIndex` is an array of `char`, so that a file with an index block cannot be
-- removed once the number of one of the sectors in it has a low byte of 128 or more.
pub deallocate_never :
    (s : Store) {s' : Store} (index j c : ℕ) (bytes : List ℕ)
    → HasIndex s.header s.disk index bytes
    → j < s.header.num_sectors - num_direct + 1
    → get_elem? bytes (j * 4) ≡ some c
    → 127 < c
    → deallocate s ≢ ok s'
unfolding deallocate
deallocate_never s {s'} index j c bytes i h e big done =
    let (d', read, _, _, _) = read_sector-IsCoherent index i.idle i.coherent i.inside in
    let done1 = rw (leb-false s.header.num_sectors num_direct i.many) at done in
    let done2 = rw i.last at done1 in
    let done3 = rw (read, i.block) at done2 in
    let (b1, cleared_all, _) =
      >>=-eq-ok (clear_chars (s.header.num_sectors - num_direct + 1) 0 bytes s.free_map) _ done3 in
    clear_chars-fails (s.header.num_sectors - num_direct + 1) 0 j c bytes s.free_map b1
      (omega arith) (omega arith) e big cleared_all
