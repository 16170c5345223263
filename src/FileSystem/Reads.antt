-- ===== src/FileSystem/Reads.antt =====
-- Calls of code/filesys/openfile.cc and synchdisk.cc that only read: no sector of the disk changes.
use nachos_lab.FileHeader.Words.{words_of_bytes}
use nachos_lab.Directory.{DirectoryEntry}
use nachos_lab.FileSystem.{FileSystem, Raw, fetch_map, fetch_directory}
use nachos_lab.Base.{
  ℕ, zero, suc, ◌+◌, ◌-◌, ◌*◌, ◌/◌, ◌≡◌, refl, ◌∙◌, Bool, true, false, ◌||◌, not, List,
  Option-cases, inl, inr, leb, ltb, ◌==◌, if◌then◌else◌, Result, ok, err, ◌>>=◌, ◌>>◌, check, fetch,
  subst, [], take, drop, Error, ◌++◌, length,
}
use nachos_lab.Base.Int.{ℤ, between, int_of_char}
use nachos_lab.SynchDisk.{
  SynchDisk, read_sector, read_request, find_cached, wait, handle_interrupt, remember, num_sectors,
  sector_size,
}
use nachos_lab.FileHeader.{FileHeader, byte_to_sector, file_length, num_direct}
use nachos_lab.OpenFile.{read_at, read_sectors, within, sector_count, first_sector}

-- Where the run succeeds, `P` holds of its result.
pub data Gives {X : Type 0} (P : X → Type 0) : Result X → Type 0 where
  gives : {x : X} → P x → Gives P (ok x)
  fails : {e : Error} → Gives P (err e)

module _ {X : Type 0} {P : X → Type 0} where
  pub Gives->>= :
      {Y : Type 0} {Q : Y → Type 0} (first : Result X) {rest : X → Result Y}
      → Gives P first
      → ((x : X) → first ≡ ok x → P x → Gives Q (rest x))
      → Gives Q (first >>= rest)
  Gives->>= (ok x) (gives p) q = q x refl p
  Gives->>= (err e) g q = fails

  pub Gives-if :
      {r s : Result X} (b : Bool)
      → (b ≡ true → Gives P r)
      → (b ≡ false → Gives P s)
      → Gives P (if b then r else s)
  Gives-if true p q = p refl
  Gives-if false p q = q refl

  pub Gives-check : {r : Result X} (b : Bool) → Gives P r → Gives P (check b >> r)
  Gives-check true p = p
  Gives-check false p = fails

pub Gives-imp :
    {X : Type 0} {P Q : X → Type 0} {r : Result X} → Gives P r → ((x : X) → P x → Q x) → Gives Q r
Gives-imp (gives {x} p) q = gives (q x p)
Gives-imp fails q = fails

-- No claim on the result.
abbrev pub Any : {X : Type 0} → X → Type 0
Any x = Unit {0}

pub Gives-Any : {X : Type 0} (r : Result X) → Gives Any r
Gives-Any (ok x) = gives tt
Gives-Any (err e) = fails

pub given : {X : Type 0} {P : X → Type 0} {x : X} (r : Result X) → Gives P r → r ≡ ok x → P x
given {X} {P} {x} (ok y) (gives p) e = let q : y ≡ x = cc in subst P q p
given {X} {P} {x} (err y) g e = absurd (cc)

-- The sectors are those of `d`.
abbrev pub Keeps : {X : Type 0} → SynchDisk → X × SynchDisk → Type 0
Keeps d (x, d') = d'.sectors ≡ d.sectors

wait-Keeps : (d : SynchDisk) → Gives (λ d'. d'.sectors ≡ d.sectors) (wait d)
unfolding wait handle_interrupt
wait-Keeps d =
    Gives-if (d.wakeups == 0) (λ z. Gives-if d.active (λ a. gives refl) (λ a. fails))
      (λ z. gives refl)

read_request-Keeps : (d : SynchDisk) (n : ℤ) → Gives (Keeps d) (read_request d n)
unfolding read_request
read_request-Keeps d n =
    Gives-check (not d.active) (Gives-check (between n num_sectors) (gives refl))

pub read_sector-Keeps : (d : SynchDisk) (n : ℤ) → Gives (Keeps d) (read_sector d n)
unfolding read_sector handle_interrupt remember
read_sector-Keeps d n = elim (Option-cases (find_cached d.cache n)) [
  | inl miss ↦
      rw (read_sector, miss)
        (Gives->>= (read_request d n) (read_request-Keeps d n) (λ (bytes, d1) e k.
          Gives->>= (wait (remember d1 n bytes)) (wait-Keeps (remember d1 n bytes))
            (λ d2 e2 k2. gives (k2 ∙ k))))
  | inr (bytes, hit) ↦
      rw (read_sector, hit)
        (Gives->>= (wait (handle_interrupt d)) (wait-Keeps (handle_interrupt d))
          (λ d2 e2 k2. gives k2))
]

byte_to_sector-Keeps :
    (h : FileHeader) (d : SynchDisk) (offset : ℕ) → Gives (Keeps d) (byte_to_sector h d offset)
unfolding byte_to_sector
byte_to_sector-Keeps h d offset =
    Gives-if (ltb offset (sector_size * (num_direct - 1)))
      (λ near.
        Gives->>= (fetch h.data_sectors (offset / sector_size)) (Gives-Any _)
          (λ z e k. gives {x = (z, d)} refl))
      (λ far. Gives->>= (fetch h.data_sectors (num_direct - 1)) (Gives-Any _) (λ last e k.
        Gives->>= (read_sector d last) (read_sector-Keeps d last) (λ (bytes, d1) e1 k1.
          Gives->>= (fetch bytes _) (Gives-Any _) (λ c e2 k2. gives {x = (int_of_char c, d1)} k1))))

read_sectors-Keeps :
    (n i : ℕ) (h : FileHeader) (d : SynchDisk) → Gives (Keeps d) (read_sectors n i h d)
unfolding read_sectors
read_sectors-Keeps zero i h d = gives refl
read_sectors-Keeps (suc n) i h d =
    Gives->>= (byte_to_sector h d (i * sector_size)) (byte_to_sector-Keeps h d (i * sector_size))
      (λ (sector, d1) e1 k1.
        Gives->>= (read_sector d1 sector) (read_sector-Keeps d1 sector) (λ (bytes, d2) e2 k2.
          Gives->>= (read_sectors n (i + 1) h d2) (read_sectors-Keeps n (i + 1) h d2)
            (λ (rest, d3) e3 k3. gives (k3 ∙ k2 ∙ k1))))

pub read_at-Keeps :
    (h : FileHeader) (d : SynchDisk) (now num_bytes position : ℕ)
    → Gives
        (λ (r : List ℕ × FileHeader × SynchDisk). r.2.sectors ≡ d.sectors)
        (read_at h d now num_bytes position)
unfolding read_at
read_at-Keeps h d now num_bytes position =
    Gives-if ((num_bytes == 0) || leb (file_length h) position) (λ e. gives {x = ([], h, d)} refl)
      (λ e.
        let n = within (file_length h) num_bytes position in
        Gives->>= (read_sectors (sector_count position n) (first_sector position) h d)
          (read_sectors-Keeps (sector_count position n) (first_sector position) h d)
          (λ (buf, d1) e1 k1.
            gives
              {x = (
                take n (drop (position - first_sector position * sector_size) buf),
                record h { last_visit_time = now },
                d1,
              )}
              k1))

-- A call that only reads.
abbrev pub Reads : {X : Type 0} → FileSystem → X × FileSystem → Type 0
Reads fs (x, fs') = fs'.disk.sectors ≡ fs.disk.sectors

pub fetch_map-Reads :
    (raw : Raw) (now : ℕ) (fs : FileSystem) → Gives (Reads fs) (fetch_map raw now fs)
unfolding fetch_map
fetch_map-Reads raw now fs =
    Gives->>= (read_at fs.map_hdr fs.disk now (raw.map.num_words * 4) 0)
      (read_at-Keeps fs.map_hdr fs.disk now (raw.map.num_words * 4) 0)
      (λ (bytes, h, d) e k.
        gives
          {x = (
            record raw.map { map = words_of_bytes bytes ++ drop (length bytes / 4) raw.map.map },
            record fs { map_hdr = h; disk = d },
          )}
          k)

module _ (copy_in : List ℕ → List DirectoryEntry → List DirectoryEntry)
    (bytes_of : List DirectoryEntry → List ℕ) where
  pub fetch_directory-Reads :
      (raw : Raw) (now : ℕ) (fs : FileSystem)
      → Gives (Reads fs) (fetch_directory copy_in bytes_of raw now fs)
  unfolding fetch_directory
  fetch_directory-Reads raw now fs =
      Gives->>= (read_at fs.dir_hdr fs.disk now (length (bytes_of raw.table)) 0)
        (read_at-Keeps fs.dir_hdr fs.disk now (length (bytes_of raw.table)) 0)
        (λ (bytes, h, d) e k.
          gives
            {x = (record { table = copy_in bytes raw.table }, record fs { dir_hdr = h; disk = d })}
            k)
