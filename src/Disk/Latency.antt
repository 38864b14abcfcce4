-- ===== src/Disk/Latency.antt =====
-- machine/disk.cc: when the head has passed a sector.
use csci350_project.Base.{
  ℕ, ◌+◌, ◌-◌, ◌*◌, ◌/◌, ◌%◌, ◌^◌, ◌≤◌, ◌<◌, ◌≡◌, refl, lt→ltb, dec_lt, ℕ_discrete, arith, Bool,
  true, false,
}
use csci350_project.FileSys.System.{num_sectors}
use csci350_project.Disk.{
  Disk, rotation_time, sectors_per_track, time_to_seek, modulo_diff, modulo_diff_back,
  compute_latency, update_last, seek_time,
}

-- After the seek and the rotation the head is at the start of a sector, the first one it can be at.
time_to_seek_lem :
    (d : Disk) (total_ticks new_sector : ℕ)
    → let (seek, rotation) = time_to_seek d total_ticks new_sector in
      ((total_ticks + seek + rotation) % rotation_time ≡ 0) × (rotation < rotation_time)
unfolding time_to_seek
time_to_seek_lem d total_ticks new_sector = (ground arith, ground arith)

modulo_diff_lem :
    (to from : ℕ)
    → (modulo_diff to from < sectors_per_track)
      × ((from + modulo_diff to from) % sectors_per_track ≡ to % sectors_per_track)
unfolding modulo_diff
modulo_diff_lem to from = (ground arith, ground arith)

modulo_diff_back_lem : (to back : ℕ) → modulo_diff_back to back < sectors_per_track
unfolding modulo_diff_back
modulo_diff_back_lem to back = ground arith

modulo_diff-least :
    (to from n : ℕ)
    → (from + n) % sectors_per_track ≡ to % sectors_per_track
    → modulo_diff to from ≤ n
unfolding modulo_diff
modulo_diff-least to from n h = ground arith

-- At the time `w` the start of the sector is below the head.
pub record AtSector (w sector : ℕ) : Type 0 where
  pub boundary : w % rotation_time ≡ 0
  pub below : (w / rotation_time) % sectors_per_track ≡ sector % sectors_per_track

-- `start` is the first time from `from` on at which the sector begins to pass below the head.
pub record FirstPass (from sector start : ℕ) : Type 0 where
  pub later : from ≤ start
  pub passes : AtSector start sector
  pub first : (w : ℕ) → from ≤ w → AtSector w sector → start ≤ w

-- The sector boundary from `t` on.
boundary_after :
    (t r w : ℕ)
    → (t + r) % rotation_time ≡ 0
    → r < rotation_time
    → t ≤ w
    → w % rotation_time ≡ 0
    → t + r ≤ w
boundary_after t r w h small le e = omega arith

rotate-FirstPass :
    (from rotation sector : ℕ)
    → (from + rotation) % rotation_time ≡ 0
    → rotation < rotation_time
    → FirstPass from sector
        (from + rotation + modulo_diff sector ((from + rotation) / rotation_time) * rotation_time)
rotate-FirstPass from rotation sector aligned small =
    let at = (from + rotation) / rotation_time in
    let turns = modulo_diff_lem sector at in
    let number : (from + rotation + modulo_diff sector at * rotation_time) / rotation_time
        ≡ at + modulo_diff sector at =
      omega arith in
    record {
      later = omega arith;
      passes = record { boundary = omega arith; below = rw number turns.1 };
      first = λ w le p.
          let reached = boundary_after from rotation w aligned small le p.boundary in
          let turned : at + (w / rotation_time - at) ≡ w / rotation_time = omega arith in
          let least = modulo_diff-least sector at (w / rotation_time - at) (rw (turned, p.below)) in
          omega (arith, p.boundary);
    }

-- The time of the seek: 500 ticks for each track between the last request's and this one's.
abbrev pub seek_ticks : Disk → ℕ → ℕ
seek_ticks d sector =
    let from = d.last_sector / 32 in let to = sector / 32 in ((to - from) + (from - to)) * 500

time_to_seek-seek_ticks :
    (d : Disk) (total_ticks sector : ℕ)
    → (time_to_seek d total_ticks sector).0 ≡ seek_ticks d sector
unfolding time_to_seek
time_to_seek-seek_ticks d total_ticks sector = refl

-- Before 2 ^ 31 ticks, `timeAfter` does not wrap around.
pub no_wrap :
    (d : Disk) (total_ticks sector : ℕ)
    → total_ticks + seek_ticks d sector + rotation_time ≤ 2 ^ 31
    → let head = time_to_seek d total_ticks sector in total_ticks + head.0 + head.1 < 2 ^ 31
no_wrap d total_ticks sector small = omega (
  arith,
  small,
  time_to_seek-seek_ticks d total_ticks sector,
  (time_to_seek_lem d total_ticks sector).1,
)

pub compute_latency-write :
    (d : Disk) (total_ticks sector : ℕ)
    → total_ticks + seek_ticks d sector + rotation_time ≤ 2 ^ 31
    → let (seek, rotation) = time_to_seek d total_ticks sector in
      compute_latency d total_ticks sector true
      ≡ seek
        + (rotation
            + modulo_diff sector ((total_ticks + seek + rotation) / rotation_time) * rotation_time)
        + rotation_time
unfolding compute_latency
compute_latency-write d total_ticks sector small =
    let head = time_to_seek d total_ticks sector in
    let after = total_ticks + head.0 + head.1 in
    let before = no_wrap d total_ticks sector small in
    let same : after % 2 ^ 32 ≡ after = omega (arith, before) in rw (same, lt→ltb _ _ before)

-- Where the seek, and one sector's rotation after it, end by 2 ^ 31 ticks, a write waits for the seek,
-- 500 ticks for each track, then until the start of the sector is first below the head, then until the
-- sector has passed.
pub compute_latency-FirstPass :
    (d : Disk) (total_ticks sector : ℕ)
    → total_ticks + seek_ticks d sector + rotation_time ≤ 2 ^ 31
    → (start : ℕ) × FirstPass (total_ticks + seek_ticks d sector) sector start
      × (total_ticks + compute_latency d total_ticks sector true ≡ start + rotation_time)
compute_latency-FirstPass d total_ticks sector small =
    let (seek, rotation) = time_to_seek d total_ticks sector in
    let head = time_to_seek_lem d total_ticks sector in
    let e : seek ≡ seek_ticks d sector = time_to_seek-seek_ticks d total_ticks sector in
    rw (← e) (
      _,
      rotate-FirstPass (total_ticks + seek) rotation sector head.0 head.1,
      omega (arith, compute_latency-write d total_ticks sector small),
    )

-- The sector has passed below the head as a whole between the times `from` and `until`.
abbrev pub Buffered : ℕ → ℕ → ℕ → Type 0
Buffered from until sector = (w : ℕ) × (from ≤ w) × (w + rotation_time ≤ until) × AtSector w sector

-- How long a read takes.
pub data ReadLatency (d : Disk) (total_ticks sector latency : ℕ) : Type 0 where
  buffered :
      (time_to_seek d total_ticks sector).0 ≡ 0
      → Buffered d.buffer_init (total_ticks + (time_to_seek d total_ticks sector).1) sector
      → latency ≡ rotation_time
      → ReadLatency d total_ticks sector latency
  on_track :
      (time_to_seek d total_ticks sector).0 ≡ 0
      → ¬ Buffered d.buffer_init (total_ticks + (time_to_seek d total_ticks sector).1) sector
      → latency ≡ compute_latency d total_ticks sector true
      → ReadLatency d total_ticks sector latency
  off_track :
      0 < (time_to_seek d total_ticks sector).0
      → latency ≡ compute_latency d total_ticks sector true
      → ReadLatency d total_ticks sector latency

-- A sector has passed since the buffer began to fill exactly where the test of the code says so.
passed :
    (from until sector : ℕ)
    → from % rotation_time ≡ 0
    → until % rotation_time ≡ 0
    → modulo_diff sector (from / rotation_time) < (until - from) / rotation_time
    → Buffered from until sector
passed from until sector h k test =
    let m = modulo_diff sector (from / rotation_time) in
    let turns = modulo_diff_lem sector (from / rotation_time) in
    let number : (from + m * rotation_time) / rotation_time ≡ from / rotation_time + m =
      omega arith in
    (
      from + m * rotation_time,
      omega arith,
      omega arith,
      record { boundary = omega arith; below = rw number turns.1 },
    )

not_passed :
    (from until sector : ℕ)
    → from % rotation_time ≡ 0
    → (until - from) / rotation_time ≤ modulo_diff sector (from / rotation_time)
    → ¬ Buffered from until sector
not_passed from until sector h test (w, le, before, p) =
    let at = from / rotation_time in
    let turned : at + (w / rotation_time - at) ≡ w / rotation_time = omega arith in
    let least = modulo_diff-least sector at (w / rotation_time - at) (rw (turned, p.below)) in
    omega (arith, p.boundary)

-- With a track buffer that began to fill at a sector boundary, and before 2 ^ 31 ticks, a read takes the time of one sector
-- exactly where the head is on the track and the sector has passed since; it takes as long as a
-- write otherwise.
pub compute_latency-ReadLatency :
    (d : Disk) (total_ticks sector : ℕ)
    → d.buffer_init % rotation_time ≡ 0
    → total_ticks + seek_ticks d sector + rotation_time ≤ 2 ^ 31
    → ReadLatency d total_ticks sector (compute_latency d total_ticks sector false)
unfolding compute_latency
compute_latency-ReadLatency d total_ticks sector boundary small =
    let head = time_to_seek d total_ticks sector in
    let after = total_ticks + head.0 + head.1 in
    let before = no_wrap d total_ticks sector small in
    let wraps : after % 2 ^ 32 ≡ after = omega (arith, before) in
    let below = lt→ltb _ _ before in
    let m = modulo_diff sector (d.buffer_init / rotation_time) in
    let aligned = (time_to_seek_lem d total_ticks sector).0 in
    elim (ℕ_discrete head.0 0) [
      | no moves ↦ off_track (omega arith) (ground arith)
      | yes stays ↦
          let same : total_ticks + head.1 ≡ after = omega arith in
          elim (dec_lt m ((after - d.buffer_init) / rotation_time)) [
            | yes h ↦
                buffered stays (rw same (passed d.buffer_init after sector boundary aligned h))
                  (ground arith)
            | no h ↦
                on_track stays
                  (rw same (not_passed d.buffer_init after sector boundary (omega arith)))
                  (ground arith)
          ]
    ]

seek_bound :
    (d : Disk) (total_ticks sector : ℕ)
    → d.last_sector < num_sectors
    → sector < num_sectors
    → (time_to_seek d total_ticks sector).0 ≤ 31 * seek_time
unfolding time_to_seek
seek_bound d total_ticks sector last on = omega arith

-- For sectors of the disk a request takes the time of one sector at least, and no longer than a seek
-- over all tracks, a rotation to the next boundary and a whole turn.
pub compute_latency_bounds :
    (d : Disk) (total_ticks sector : ℕ) (writing : Bool)
    → d.last_sector < num_sectors
    → sector < num_sectors
    → let latency = compute_latency d total_ticks sector writing in
      (rotation_time ≤ latency)
      × (latency < 31 * seek_time + rotation_time + sectors_per_track * rotation_time)
unfolding compute_latency
compute_latency_bounds d total_ticks sector writing last on =
    let (seek, rotation) = time_to_seek d total_ticks sector in
    let turn = (time_to_seek_lem d total_ticks sector).1 in
    let move = seek_bound d total_ticks sector last on in
    let after = (total_ticks + seek + rotation) % 2 ^ 32 in
    let wait = (modulo_diff_lem sector (after / rotation_time)).0 in
    let wait_back = modulo_diff_back_lem sector ((2 ^ 32 - after) / rotation_time) in
    (ground arith, ground arith)

-- The track buffer begins to fill at a sector boundary.
pub update_last-boundary :
    (d : Disk) (total_ticks sector : ℕ)
    → d.buffer_init % rotation_time ≡ 0
    → (update_last d total_ticks sector).buffer_init % rotation_time ≡ 0
unfolding update_last
update_last-boundary d total_ticks sector h = ground (arith, time_to_seek_lem d total_ticks sector)
