-- ===== src/SynchDisk/Latency.antt =====
-- How long a request takes: TimeToSeek, ModuloDiff, ComputeLatency and UpdateLast of
-- code/machine/disk.cc, at the time `ticks`, with the track buffer.
use nachos_lab.Base.{
  ℕ, ◌+◌, ◌-◌, ◌*◌, ◌/◌, ◌%◌, ◌≤◌, ◌<◌, Bool, not, ◌&&◌, ltb, ◌==◌, if◌then◌else◌, arith,
}

abbrev pub rotation_time : ℕ
rotation_time = 500

abbrev pub seek_time : ℕ
seek_time = 500

abbrev pub sectors_per_track : ℕ
sectors_per_track = 32

-- `lastSector` and `bufferInit`. No request begins before the buffer began to fill.
pub record Head : Type 0 where
  pub last_sector : ℕ
  pub buffer_init : ℕ

abbrev pub distance : ℕ → ℕ → ℕ
distance a b = (a - b) + (b - a)

-- The time to seek, and the rest of the sector that is under the head then.
pub time_to_seek : Head → ℕ → ℕ → ℕ × ℕ
time_to_seek h ticks new_sector =
    let seek =
      distance (new_sector / sectors_per_track) (h.last_sector / sectors_per_track) * seek_time in
    let over = (ticks + seek) % rotation_time in
    (seek, (if ltb 0 over then rotation_time - over else 0))

pub modulo_diff : ℕ → ℕ → ℕ
modulo_diff to from =
    (to % sectors_per_track + sectors_per_track - from % sectors_per_track) % sectors_per_track

pub compute_latency : Head → ℕ → ℕ → Bool → ℕ
unfolding time_to_seek modulo_diff
compute_latency h ticks new_sector writing =
    let (seek, rotation) = time_to_seek h ticks new_sector in
    let time_after = ticks + seek + rotation in
    if not writing
      && (seek == 0)
      && ltb (modulo_diff new_sector (h.buffer_init / rotation_time))
          ((time_after - h.buffer_init) / rotation_time)
    then rotation_time
    else seek
      + (rotation + modulo_diff new_sector (time_after / rotation_time) * rotation_time)
      + rotation_time

pub update_last : Head → ℕ → ℕ → Head
unfolding time_to_seek
update_last h ticks new_sector =
    let (seek, rotate) = time_to_seek h ticks new_sector in
    record {
      last_sector = new_sector;
      buffer_init = if seek == 0 then h.buffer_init else ticks + seek + rotate;
    }

modulo_diff-lt : (to from : ℕ) → modulo_diff to from < 32
unfolding modulo_diff
modulo_diff-lt to from = omega arith

-- A request takes at least the time of one sector, and at most that of the seek and a full rotation
-- with the sector that the seek ends in.
pub compute_latency-bounds :
    (h : Head) (ticks new_sector : ℕ) (writing : Bool)
    → (rotation_time ≤ compute_latency h ticks new_sector writing)
      × (compute_latency h ticks new_sector writing
          ≤ (time_to_seek h ticks new_sector).0 + 33 * rotation_time)
unfolding compute_latency time_to_seek
compute_latency-bounds h ticks new_sector writing =
    let (seek, rotation) = time_to_seek h ticks new_sector in
    let d = modulo_diff-lt new_sector ((ticks + seek + rotation) / rotation_time) in
    (ground (arith, d), ground (arith, d))
