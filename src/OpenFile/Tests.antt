-- ===== src/OpenFile/Tests.antt =====
-- A read of a file of 300 bytes in three sectors.
use nachos_lab.Base.{ℕ, zero, suc, ◌≡◌, refl, false, List, [], ◌∷◌, arith, ok, length, ◌-◌}
use nachos_lab.Base.Int.{pos}
use nachos_lab.SynchDisk.{Cache, SynchDisk, read_sector}
use nachos_lab.FileHeader.{FileHeader, byte_to_sector, file_length}
use nachos_lab.OpenFile.{read_at}
use nachos_lab.OpenFile.Buffer.{IsWhole, minimum, read_at-length}

abbrev repeat : {A : Type 0} → ℕ → A → List A
repeat zero x = []
repeat (suc n) x = x ∷ repeat n x

abbrev no_entry : Cache
no_entry = record { valid = 0; sector = pos 0; data_ = [] }

-- Every byte of sector `n` is `n`.
abbrev disk : SynchDisk
disk = record {
  sectors = λ n. repeat 128 n;
  active = false;
  wakeups = 0;
  cache = repeat 4 no_entry;
  fifo_pointer = 0;
}

abbrev header : FileHeader
header = record {
  create_time = 0;
  last_visit_time = 0;
  last_modify_time = 0;
  hdr_sector = pos 4;
  num_bytes = 300;
  num_sectors = 3;
  data_sectors = pos 10 ∷ pos 11 ∷ pos 12 ∷ repeat 23 (pos 0);
}

disk-IsWhole : IsWhole disk
disk-IsWhole = record {
  sectors = λ n. refl;
  cached = (
    λ e. absurd (omega arith),
    (λ e. absurd (omega arith), (λ e. absurd (omega arith), (λ e. absurd (omega arith), tt))),
  );
}

-- Two bytes on each side of the boundary between two sectors.
tests_read :
    (r : FileHeader × SynchDisk) × (read_at header disk 9 4 126
      ≡ ok (10 ∷ 10 ∷ 11 ∷ 11 ∷ [], r.0, r.1))
unfolding read_at read_sector byte_to_sector file_length
tests_read = (_, refl)

-- 20 bytes are asked for, of which 10 are left.
short : (r : List ℕ × FileHeader × SynchDisk) × (read_at header disk 9 20 290 ≡ ok (r.0, r.1, r.2))
unfolding read_at read_sector byte_to_sector file_length
short = (_, refl)

read_at-length_example : length short.0.0 ≡ minimum 20 (file_length header - 290)
read_at-length_example =
    read_at-length header disk 9 20 290 short.0.0 short.0.1 short.0.2 disk-IsWhole short.1
