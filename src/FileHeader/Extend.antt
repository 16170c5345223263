-- ===== src/FileHeader/Extend.antt =====
-- `ExtendFile` of code/filesys/filehdr.cc.
use nachos_lab.Base.{
  ℕ, ◌+◌, ◌≤◌, ◌<◌, ◌≡◌, true, false, [], ◌∷◌, arith, length, lt→ltb, le→ltb, ◌==◌, ==_iff,
  div_round_up, ok, err, wild, set, put-ok,
}
use nachos_lab.Base.Int.{pos}
use nachos_lab.BitMap.{BitMap}
use nachos_lab.BitMap.Valid.{IsValid, marked, marked-IsValid}
use nachos_lab.BitMap.Count.{free, num_clear-free}
use nachos_lab.BitMap.Taken.{Taken, Taken-nil, Taken-cons}
use nachos_lab.BitMap.Taking.{find-takes}
use nachos_lab.SynchDisk.{sector_size}
use nachos_lab.FileHeader.{FileHeader, extend_file}

-- How many sectors the file has after it has grown.
abbrev pub grown : FileHeader → ℕ → ℕ
grown h bytes = div_round_up (h.num_bytes + bytes) sector_size

-- Growth within the last sector changes the length and nothing else.
pub extend_file-within :
    (h : FileHeader) (b : BitMap) (bytes : ℕ)
    → grown h bytes ≡ h.num_sectors
    → extend_file h b bytes ≡ ok (true, record h { num_bytes = h.num_bytes + bytes }, b)
unfolding extend_file
extend_file-within h b bytes e =
    let t : (grown h bytes == h.num_sectors) ≡ true = (==_iff _ _).1 e in rw t

-- With too few clear bits the answer is FALSE, and nothing changes.
pub extend_file-refused :
    (h : FileHeader) {b : BitMap} (bytes : ℕ)
    → IsValid b
    → free b + h.num_sectors < grown h bytes
    → extend_file h b bytes ≡ ok (false, h, b)
unfolding extend_file
extend_file-refused h {b} bytes v few =
    let ne : (grown h bytes == h.num_sectors) ≡ false = ground arith in
    rw ne (rw (num_clear-free v, lt→ltb (free b + h.num_sectors) (grown h bytes) few))

-- What a call that takes a sector leaves: the header counts all the new sectors.
abbrev pub extended : FileHeader → ℕ → ℕ → FileHeader
extended h bytes k = record h {
  num_bytes = h.num_bytes + bytes;
  num_sectors = grown h bytes;
  data_sectors = set h.data_sectors h.num_sectors (pos k);
}

-- However many sectors the file grows by, one is taken from the free map, since the loop returns in
-- its first round: that is right for growth by one sector, and a defect for growth by more.
pub extend_file-one :
    (h : FileHeader) {b : BitMap} (bytes : ℕ)
    → IsValid b
    → h.num_sectors < grown h bytes
    → grown h bytes ≤ free b + h.num_sectors
    → h.num_sectors < length h.data_sectors
    → (k : ℕ) × (b' : BitMap) × (extend_file h b bytes ≡ ok (true, extended h bytes k, b'))
      × Taken b (k ∷ []) b'
unfolding extend_file
extend_file-one h {b} bytes v more enough room =
    let n = grown h bytes in
    let ne : (n == h.num_sectors) ≡ false = ground arith in
    let (k, found, inside, off) = find-takes v (omega arith) in
    (
      k,
      marked b k,
      rw ne (
          rw
            (
              num_clear-free v,
              le→ltb (free b + h.num_sectors) n enough,
              lt→ltb h.num_sectors n more,
            )
            (rw found (rw (put-ok h.data_sectors h.num_sectors (pos k) room)))),
      Taken-cons k [] v inside off (Taken-nil (marked-IsValid k v)),
    )

-- A defect: a file that already has the 26 sectors of its table is extended past the end of it.
pub extend_file-wild :
    (h : FileHeader) {b : BitMap} (bytes : ℕ)
    → IsValid b
    → h.num_sectors < grown h bytes
    → grown h bytes ≤ free b + h.num_sectors
    → length h.data_sectors ≤ h.num_sectors
    → extend_file h b bytes ≡ err wild
unfolding extend_file
extend_file-wild h {b} bytes v more enough full =
    let n = grown h bytes in
    let ne : (n == h.num_sectors) ≡ false = ground arith in
    let (k, found, inside, off) = find-takes v (omega arith) in
    rw ne (
      rw (num_clear-free v, le→ltb (free b + h.num_sectors) n enough, lt→ltb h.num_sectors n more)
        (rw found (rw (le→ltb h.num_sectors (length h.data_sectors) full))))
