-- ===== src/OpenFile/Buffer.antt =====
-- ReadAt of code/filesys/openfile.cc: how many bytes it returns.
use nachos_lab.Base.{
  take, drop, length-take, ℕ, zero, suc, ◌+◌, ◌-◌, ◌*◌, ◌/◌, ◌<◌, ◌≤◌, ◌≡◌, sym, ◌∙◌, ap, arith,
  true, false, ◌||◌, ◌&&◌, List, [], ◌∷◌, ◌++◌, some, Option-cases, Bool-cases, inl, inr, length,
  length-append, All, All-set, Result, ok, err, hang, subst, >>=-eq-ok, ltb, leb, ◌==◌,
  if◌then◌else◌, not, check, fetch,
}
use nachos_lab.Base.Int.{ℤ, int_eq, index, between, int_of_char}
use nachos_lab.SynchDisk.{
  SynchDisk, Sector, Cache, sector_size, num_sectors, read_sector, read_request, find_cached,
  remember, handle_interrupt, wait,
}
use nachos_lab.FileHeader.{FileHeader, file_length, byte_to_sector, num_direct}
use nachos_lab.OpenFile.{read_sectors, read_at, within, first_sector, sector_count}

-- Every sector is whole, on the disk and in the cache.
pub record IsWhole (d : SynchDisk) : Type 0 where
  pub sectors : (n : ℕ) → length (d.sectors n) ≡ sector_size
  pub cached : All (λ c. (c.valid ≡ 1) → length c.data_ ≡ sector_size) d.cache

find_cached-length :
    (cs : List Cache) (n : ℤ) (bytes : Sector)
    → All (λ c. (c.valid ≡ 1) → length c.data_ ≡ sector_size) cs
    → find_cached cs n ≡ some bytes
    → length bytes ≡ sector_size
find_cached-length [] n bytes a h = cc
find_cached-length (c ∷ cs) n bytes (w, a) h =
    elim (Bool-cases (c.valid == 1 && int_eq c.sector n)) [
      | inl e ↦
          let q : c.data_ ≡ bytes = cc (rw e at h) in
          let valid : c.valid ≡ 1 = ground arith in ap length (sym q) ∙ w valid
      | inr e ↦ find_cached-length cs n bytes a (rw e at h)
    ]

same : {d d' : SynchDisk} → IsWhole d → ok d ≡ ok d' → IsWhole d'
same {d} {d'} w e = let q : d ≡ d' = cc in subst IsWhole q w

wait-IsWhole : (d d' : SynchDisk) → IsWhole d → wait d ≡ ok d' → IsWhole d'
unfolding wait
wait-IsWhole d d' w h =
    let again : IsWhole (record d { active = false }) = record {
      sectors = w.sectors;
      cached = w.cached;
    } in
    elim (Bool-cases (d.wakeups == 0)) [
      | inl z ↦
          let h1 = rw z at h in
          elim (Bool-cases d.active) [
            | inl on ↦ same again (rw on at h1)
            | inr off ↦ let no : ◌≡◌ {A = Result SynchDisk} (err hang) (ok d') = rw off at h1 in cc
          ]
      | inr nz ↦
          same {d = record d { wakeups = d.wakeups - 1 }}
            (record { sectors = w.sectors; cached = w.cached }) (rw nz at h)
    ]

read_request-IsWhole :
    (d : SynchDisk) (n : ℤ) (bytes : Sector) (d' : SynchDisk)
    → IsWhole d
    → read_request d n ≡ ok (bytes, d')
    → (length bytes ≡ sector_size) × IsWhole d'
unfolding read_request
read_request-IsWhole d n bytes d' w h =
    let (u, idle, h1) = >>=-eq-ok (check (not d.active)) _ h in
    let (u', inside, h2) = >>=-eq-ok (check (between n num_sectors)) _ h1 in
    let q : (d.sectors (index n), record d { active = true }) ≡ (bytes, d') = cc in
    let whole : IsWhole (record d { active = true }) = record {
      sectors = w.sectors;
      cached = w.cached;
    } in
    (
      ap (λ (r : Sector × SynchDisk). length r.0) (sym q) ∙ w.sectors (index n),
      subst IsWhole (ap (λ (r : Sector × SynchDisk). r.1) q) whole,
    )

remember-IsWhole :
    (d : SynchDisk) (n : ℤ) (bytes : Sector)
    → IsWhole d
    → length bytes ≡ sector_size
    → IsWhole (remember d n bytes)
unfolding remember
remember-IsWhole d n bytes w l = record {
  sectors = w.sectors;
  cached =
      All-set (λ (c : Cache). (c.valid ≡ 1) → length c.data_ ≡ sector_size) d.cache d.fifo_pointer
        (record { valid = 1; sector = n; data_ = bytes }) w.cached (λ e. l);
}

read_sector-IsWhole :
    (d : SynchDisk) (n : ℤ) (bytes : Sector) (d' : SynchDisk)
    → IsWhole d
    → read_sector d n ≡ ok (bytes, d')
    → (length bytes ≡ sector_size) × IsWhole d'
unfolding read_sector handle_interrupt
read_sector-IsWhole d n bytes d' w h = elim (Option-cases (find_cached d.cache n)) [
  | inl miss ↦
      let ((read, d1), asked, h1) = >>=-eq-ok (read_request d n) _ (rw (read_sector, miss) at h) in
      let (long, w1) = read_request-IsWhole d n read d1 w asked in
      let (d2, waited, h2) = >>=-eq-ok (wait (remember d1 n read)) _ h1 in
      let w2 = wait-IsWhole (remember d1 n read) d2 (remember-IsWhole d1 n read w1 long) waited in
      let q : (read, d2) ≡ (bytes, d') = cc in
      (
        ap (λ (r : Sector × SynchDisk). length r.0) (sym q) ∙ long,
        subst IsWhole (ap (λ (r : Sector × SynchDisk). r.1) q) w2,
      )
  | inr (kept, hit) ↦
      let (d1, waited, h1) = >>=-eq-ok (wait (handle_interrupt d)) _ (rw (read_sector, hit) at h) in
      let q : (kept, d1) ≡ (bytes, d') = cc in
      (
        ap (λ (r : Sector × SynchDisk). length r.0) (sym q)
            ∙ find_cached-length d.cache n kept w.cached hit,
        subst IsWhole (ap (λ (r : Sector × SynchDisk). r.1) q)
            (wait-IsWhole (handle_interrupt d) d1 (handled d w) waited),
      )
]
  where
    handled : (d : SynchDisk) → IsWhole d → IsWhole (handle_interrupt d)
    handled d w = record { sectors = w.sectors; cached = w.cached }

byte_to_sector-IsWhole :
    (h : FileHeader) (d : SynchDisk) (offset : ℕ) (sector : ℤ) (d' : SynchDisk)
    → IsWhole d
    → byte_to_sector h d offset ≡ ok (sector, d')
    → IsWhole d'
unfolding byte_to_sector
byte_to_sector-IsWhole h d offset sector d' w e =
    elim (Bool-cases (ltb offset (sector_size * (num_direct - 1)))) [
      | inl near ↦
          let (z, got, e1) =
            >>=-eq-ok (fetch h.data_sectors (offset / sector_size)) _ (rw near at e) in
          let q : (z, d) ≡ (sector, d') = cc in subst IsWhole (ap (λ (r : ℤ × SynchDisk). r.1) q) w
      | inr far ↦
          let (last, got, e1) = >>=-eq-ok (fetch h.data_sectors (num_direct - 1)) _ (rw far at e) in
          let ((bytes, d1), read, e2) = >>=-eq-ok (read_sector d last) _ e1 in
          let (c, at_, e3) = >>=-eq-ok (fetch bytes _) _ e2 in
          let q : (int_of_char c, d1) ≡ (sector, d') = cc in
          subst IsWhole (ap (λ (r : ℤ × SynchDisk). r.1) q)
            (read_sector-IsWhole d last bytes d1 w read).1
    ]

-- The loop fills the buffer.
read_sectors-length :
    (n i : ℕ) (h : FileHeader) (d : SynchDisk) (buf : List ℕ) (d' : SynchDisk)
    → IsWhole d
    → read_sectors n i h d ≡ ok (buf, d')
    → length buf ≡ n * sector_size
unfolding read_sectors
read_sectors-length zero i h d buf d' w e =
    let q : ([], d) ≡ (buf, d') = cc in ap (λ (r : List ℕ × SynchDisk). length r.0) (sym q)
read_sectors-length (suc n) i h d buf d' w e =
    let ((sector, d1), found, e1) = >>=-eq-ok (byte_to_sector h d (i * sector_size)) _ e in
    let w1 = byte_to_sector-IsWhole h d (i * sector_size) sector d1 w found in
    let ((bytes, d2), read, e2) = >>=-eq-ok (read_sector d1 sector) _ e1 in
    let (long, w2) = read_sector-IsWhole d1 sector bytes d2 w1 read in
    let ((rest, d3), filled, e3) = >>=-eq-ok (read_sectors n (i + 1) h d2) _ e2 in
    let more = read_sectors-length n (i + 1) h d2 rest d3 w2 filled in
    let q : (bytes ++ rest, d3) ≡ (buf, d') = cc in
    ap (λ (r : List ℕ × SynchDisk). length r.0) (sym q)
    ∙ omega (arith, length-append bytes rest, long, more)

length-drop : (n : ℕ) (xs : List ℕ) → length (drop n xs) ≡ length xs - n
length-drop zero xs = omega arith
length-drop (suc n) [] = omega arith
length-drop (suc n) (x ∷ xs) = omega (arith, length-drop n xs)

-- The part that is copied lies within the sectors that are read.
part_inside :
    (position n size : ℕ)
    → 0 < n
    → size ≡ sector_count position n * sector_size
    → n ≤ size - (position - first_sector position * sector_size)
part_inside position n size h e = omega arith

-- The smaller of two numbers.
abbrev pub minimum : ℕ → ℕ → ℕ
minimum a b = if leb a b then a else b

-- A call of ReadAt that returns, over sectors that are whole: it reads as many bytes as were asked for, or
-- as there are from the position to the end of the file where these are fewer, and none from the end on.
pub read_at-length :
    (h : FileHeader) (d : SynchDisk) (now num_bytes position : ℕ) (bytes : List ℕ) (h' : FileHeader)
    (d' : SynchDisk)
    → IsWhole d
    → read_at h d now num_bytes position ≡ ok (bytes, h', d')
    → length bytes ≡ minimum num_bytes (file_length h - position)
unfolding read_at
read_at-length h d now num_bytes position bytes h' d' w e =
    let size = file_length h in
    elim (Bool-cases ((num_bytes == 0) || leb size position)) [
      | inl nothing ↦
          let q : ([], h, d) ≡ (bytes, h', d') = cc (rw nothing at e) in
          let none_read : 0 ≡ length bytes =
            ap (λ (r : List ℕ × FileHeader × SynchDisk). length r.0) q in
          ground (arith, none_read)
      | inr some_bytes ↦
          let n = within size num_bytes position in
          let ((buf, d1), filled, e1) =
            >>=-eq-ok (read_sectors (sector_count position n) (first_sector position) h d) _
              (rw some_bytes at e) in
          let at_ = position - first_sector position * sector_size in
          let long =
            read_sectors-length (sector_count position n) (first_sector position) h d buf d1 w
              filled in
          let q : (take n (drop at_ buf), record h { last_visit_time = now }, d1)
              ≡ (bytes, h', d') =
            cc in
          let here : length (take n (drop at_ buf)) ≡ n = length-take n (drop at_ buf) (
            omega (
              arith,
              length-drop at_ buf,
              part_inside position n (length buf) (ground arith) long,
            )) in
          let inside : n ≡ minimum num_bytes (size - position) = ground arith in
          ap (λ (r : List ℕ × FileHeader × SynchDisk). length r.0) (sym q) ∙ here ∙ inside
    ]
