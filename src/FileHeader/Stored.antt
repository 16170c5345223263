-- ===== src/FileHeader/Stored.antt =====
-- `WriteBack` and `FetchFrom` of code/filesys/filehdr.cc.
use nachos_lab.Base.{ℕ, ◌^◌, ◌<◌, ◌≡◌, refl, List, [], ◌∷◌, map, arith, All, ok, ◌>>=◌}
use nachos_lab.Base.Int.{ℤ, pos, word_of_int, int_of_word, IsInt, word_of_int-lt, int-word}
use nachos_lab.SynchDisk.{SynchDisk, num_sectors}
use nachos_lab.SynchDisk.Cached.{IsIdle, IsCoherent, NotCached, read_sector-write_sector}
use nachos_lab.FileHeader.{FileHeader, fetch_from, write_back, header_words, header_of_words}
use nachos_lab.FileHeader.Words.{bytes_of_words, words-bytes}

-- Every field fits its four bytes.
pub record Fits (h : FileHeader) : Type 0 where
  pub create_fits : h.create_time < 2 ^ 32
  pub visit_fits : h.last_visit_time < 2 ^ 32
  pub modify_fits : h.last_modify_time < 2 ^ 32
  pub bytes_fit : h.num_bytes < 2 ^ 32
  pub sectors_fit : h.num_sectors < 2 ^ 32
  pub table_fits : All IsInt h.data_sectors

words-lt : (vs : List ℤ) → All (λ w. w < 2 ^ 32) (map word_of_int vs)
words-lt [] = tt
words-lt (v ∷ vs) = (word_of_int-lt v, words-lt vs)

map-int-word : (vs : List ℤ) → All IsInt vs → map int_of_word (map word_of_int vs) ≡ vs
map-int-word [] h = refl
map-int-word (v ∷ vs) h = rw (int-word v h.0, map-int-word vs h.1)

header-words :
    (h : FileHeader)
    → IsInt h.hdr_sector
    → All IsInt h.data_sectors
    → header_of_words (header_words h) ≡ ok h
unfolding header_of_words header_words
header-words h i table = rw (int-word h.hdr_sector i, map-int-word h.data_sectors table)

header_words-lt :
    (h : FileHeader)
    → h.create_time < 2 ^ 32
    → h.last_visit_time < 2 ^ 32
    → h.last_modify_time < 2 ^ 32
    → h.num_bytes < 2 ^ 32
    → h.num_sectors < 2 ^ 32
    → All (λ w. w < 2 ^ 32) (header_words h)
unfolding header_words
header_words-lt h c v m b n =
    (c, (v, (m, (word_of_int-lt h.hdr_sector, (b, (n, words-lt h.data_sectors))))))

-- The header as WriteBack stores it, and as FetchFrom then gives it.
abbrev pub stamped : FileHeader → ℕ → ℕ → FileHeader
stamped h now sector = record h { last_modify_time = now; hdr_sector = pos sector }

-- A header that is written to a sector which the cache does not hold and fetched from it again has
-- every field as it was, but the time of the visit.
pub fetch_from-write_back :
    (h : FileHeader) {d : SynchDisk} (now later sector : ℕ)
    → Fits h
    → now < 2 ^ 32
    → sector < num_sectors
    → IsIdle d
    → IsCoherent d
    → NotCached sector d.cache
    → (d' : SynchDisk) × ((write_back h d now (pos sector) >>= λ (_, d1).
          fetch_from d1 later (pos sector))
        ≡ ok (record (stamped h now sector) { last_visit_time = later }, d'))
unfolding write_back fetch_from
fetch_from-write_back h {d} now later sector fits t inside idle fresh out =
    let ws = header_words (stamped h now sector) in
    let (d1, d2, wrote, read, _) =
      read_sector-write_sector sector (bytes_of_words ws) idle fresh inside out in
    let small =
      header_words-lt (stamped h now sector) fits.create_fits fits.visit_fits t fits.bytes_fit
        fits.sectors_fit in
    (
      d2,
      rw wrote (
          rw read (
            rw (words-bytes ws small)
              (rw (header-words (stamped h now sector) (omega arith) fits.table_fits)))),
    )
