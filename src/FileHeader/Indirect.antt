-- ===== src/FileHeader/Indirect.antt =====
-- `Allocate` of code/filesys/filehdr.cc for a file of more than 26 sectors: 25 sectors in the table,
-- the index block, and the other sectors in it.
use nachos_lab.Base.{
  ℕ, ◌+◌, ◌-◌, ◌≤◌, ◌<◌, ◌≡◌, refl, ◌∙◌, true, List, ◌∷◌, ◌++◌, map, arith, length, le→ltb,
  div_round_up, ok, get_elem?, set, put-ok, some,
}
use nachos_lab.Base.Int.{ℤ, pos, word_of_int}
use nachos_lab.BitMap.Valid.{marked, marked-IsValid}
use nachos_lab.BitMap.Count.{free, num_clear-free, free-marked}
use nachos_lab.BitMap.Taken.{Taken, Taken-cons, Taken-append}
use nachos_lab.BitMap.Taking.{find-takes}
use nachos_lab.SynchDisk.{num_sectors, sector_size}
use nachos_lab.SynchDisk.Cached.{IsIdle, written, write_sector-ok}
use nachos_lab.FileHeader.{Store, num_direct, fresh_header, allocate}
use nachos_lab.FileHeader.Words.{bytes_of_words}
use nachos_lab.FileHeader.Table.{
  Holds, store_all, length-store_all, store_all-Holds, find_each-takes, get_elem?-set_self,
  Holds-set,
}
use nachos_lab.FileHeader.Allocate.{IsReady, leb-false}

-- The words of the index block, over what the array `secondIndex` held before.
abbrev pub index_words : List ℤ → List ℕ → List ℕ
index_words stack ks = map word_of_int (store_all stack 0 ks)

-- What a successful call leaves: `front` in the table, the index block at `index`, `back` in it, and
-- all of these taken from the free map.
pub record Indirect (s : Store) (stack : List ℤ) (size : ℕ) (front : List ℕ) (index : ℕ)
    (back : List ℕ) (s' : Store) : Type 0 where
  pub bytes : s'.header.num_bytes ≡ size
  pub sectors : s'.header.num_sectors ≡ div_round_up size sector_size
  pub in_front : length front ≡ num_direct - 1
  pub in_back : length back + (num_direct - 1) ≡ div_round_up size sector_size
  pub table : Holds s'.header.data_sectors 0 front
  pub last : get_elem? s'.header.data_sectors (num_direct - 1) ≡ some (pos index)
  pub block : s'.disk ≡ written s.disk index (bytes_of_words (index_words stack back))
  pub taken : Taken s.free_map (front ++ index ∷ back) s'.free_map

-- With a bit for the index block too, and at most 32 sectors in it, Allocate answers TRUE.
pub allocate-Indirect :
    {s : Store} (stack : List ℤ) (now size : ℕ)
    → IsReady s
    → IsIdle s.disk
    → length stack ≡ 32
    → s.free_map.num_bits ≤ num_sectors
    → num_direct < div_round_up size sector_size
    → div_round_up size sector_size ≤ 57
    → div_round_up size sector_size < free s.free_map
    → (front : List ℕ) × (index : ℕ) × (back : List ℕ) × (s' : Store) × (allocate stack now size s
        ≡ ok (true, s'))
      × Indirect s stack size front index back s'
unfolding allocate
allocate-Indirect {s} stack now size r idle long fits big bound enough =
    let n = div_round_up size sector_size in
    let table = s.header.data_sectors in
    let (front, b1, found1, len1, t1) =
      find_each-takes 25 0 table s.free_map r.valid (omega arith) (omega (arith, r.table)) in
    let (k, found2, inside, off) = find-takes {b = b1} t1.valid (omega (arith, t1.count)) in
    let (back, b3, found3, len3, t3) =
      find_each-takes (n - 26 + 1) 0 stack (marked b1 k) (marked-IsValid k t1.valid)
        (omega (arith, t1.count, free-marked k t1.valid inside off)) (omega arith) in
    let table1 = store_all table 0 front in
    let len : length table1 ≡ 26 = length-store_all table 0 front ∙ r.table in
    let table2 = set table1 25 (pos k) in
    let last = get_elem?-set_self table1 25 (pos k) (omega arith) in
    let size1 = t1.size in
    let h1 : n ≤ free s.free_map = omega arith in
    (
      front,
      k,
      back,
      record s {
        header = record (fresh_header s.header now size) { data_sectors = table2 };
        free_map = b3;
        disk = written s.disk k (bytes_of_words (index_words stack back));
      },
      rw (num_clear-free r.valid, le→ltb (free s.free_map) n h1, leb-false n num_direct big)
          (rw found1 (
            rw found2 (
              rw (put-ok table1 25 (pos k) (omega arith)) (
                rw found3 (
                  rw last (
                    rw (
                      write_sector-ok k (bytes_of_words (index_words stack back)) idle
                        (omega arith)))))))),
      record {
        bytes = refl;
        sectors = refl;
        in_front = len1;
        in_back = omega arith;
        table =
            Holds-set table1 25 (pos k) 0 front (omega arith)
              (store_all-Holds table 0 front (omega (arith, r.table)));
        last = last;
        block = refl;
        taken = Taken-append front (k ∷ back) t1 (Taken-cons k back t1.valid inside off t3);
      },
    )
