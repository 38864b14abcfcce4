-- ===== src/Disk.antt =====
-- machine/disk.cc: the simulated disk, its head and its track buffer. The clock is 64 bits wide, and
-- `timeAfter` an `int`; `bufferInit` is taken to be a time below 2 ^ 31. The sectors of the UNIX file are a `Store`.
pub mod Latency
pub mod Request
use csci350_project.Base.{
  ℕ, ◌+◌, ◌-◌, ◌*◌, ◌/◌, ◌%◌, ◌^◌, List, Bool, true, false, not, ◌&&◌, Option, none, some, ltb,
  ◌==◌, if◌then◌else◌, ◌>>=◌,
}
use csci350_project.Base.Int.{ℤ, pos, negsuc}
use csci350_project.FileSys.Store.{Store, read_sector, write_sector}
use csci350_project.Interrupt.{Interrupt, disk_int, schedule}

abbrev pub sectors_per_track : ℕ
sectors_per_track = 32

abbrev pub rotation_time : ℕ
rotation_time = 500

abbrev pub seek_time : ℕ
seek_time = 500

-- The class without its file; `handler` is the address of `DiskDone`, and `self` of the disk. The two
-- counters are those of `stats`.
pub record Disk : Type 0 where
  pub active : Bool
  pub last_sector : ℕ
  pub buffer_init : ℕ
  pub disk_done : ℕ
  pub self : ℕ
  pub num_disk_reads : ℕ
  pub num_disk_writes : ℕ

-- `abs` of the difference.
abbrev pub abs_diff : ℕ → ℕ → ℕ
abs_diff a b = (a - b) + (b - a)

-- `Disk::TimeToSeek`: the seek, and the rotation that it leaves.
pub time_to_seek : Disk → ℕ → ℕ → ℕ × ℕ
time_to_seek d total_ticks new_sector =
    let new_track = new_sector / sectors_per_track in
    let old_track = d.last_sector / sectors_per_track in
    let seek = abs_diff new_track old_track * seek_time in
    let over = (total_ticks + seek) % rotation_time in
    (seek, if ltb 0 over then rotation_time - over else 0)

-- `Disk::ModuloDiff`; the offset `to` may be the smaller one, so that the track's length comes first.
pub modulo_diff : ℕ → ℕ → ℕ
modulo_diff to from =
    ((to % sectors_per_track + sectors_per_track) - from % sectors_per_track) % sectors_per_track

-- `Disk::ModuloDiff` from a sector number `-back`.
pub modulo_diff_back : ℕ → ℕ → ℕ
modulo_diff_back to back =
    (to % sectors_per_track + back % sectors_per_track + sectors_per_track) % sectors_per_track

-- `Disk::ComputeLatency`, with the track buffer. `time_after` holds the 32 bits of the `int`, which is
-- below 0 from 2 ^ 31 on. A buffer that is yet to be loaded then holds nothing, by a difference below 0
-- there and 0 here.
pub compute_latency : Disk → ℕ → ℕ → Bool → ℕ
compute_latency d total_ticks new_sector writing =
    let head = time_to_seek d total_ticks new_sector in
    let time_after = (total_ticks + head.0 + head.1) % 2 ^ 32 in
    let sectors =
      if ltb time_after (2 ^ 31)
      then modulo_diff new_sector (time_after / rotation_time)
      else modulo_diff_back new_sector ((2 ^ 32 - time_after) / rotation_time) in
    if not writing
      && ((head.0 == 0)
          && (ltb time_after (2 ^ 31)
              && ltb (modulo_diff new_sector (d.buffer_init / rotation_time))
                  ((time_after - d.buffer_init) / rotation_time)))
    then rotation_time
    else head.0 + (head.1 + sectors * rotation_time) + rotation_time

-- `Disk::UpdateLast`
pub update_last : Disk → ℕ → ℕ → Disk
update_last d total_ticks new_sector =
    let head = time_to_seek d total_ticks new_sector in
    record d {
      buffer_init = if head.0 == 0 then d.buffer_init else total_ticks + head.0 + head.1;
      last_sector = new_sector;
    }

-- `Disk::ReadRequest`; the disk's ASSERTs come first here, as the latency changes nothing.
pub read_request : Disk → Store → Interrupt → ℤ → Option (List ℕ × Disk × Interrupt)
read_request d st i (negsuc n) = none
read_request d st i (pos s) =
    let ticks = compute_latency d i.total_ticks s false in
    if d.active
    then none
    else (read_sector st (pos s) >>= λ bytes.
        schedule i d.disk_done d.self (pos ticks) disk_int >>= λ i'. some (
          bytes,
          record (update_last (record d { active = true }) i.total_ticks s) {
            num_disk_reads = d.num_disk_reads + 1;
          },
          i',
        ))

-- `Disk::WriteRequest`
pub write_request : Disk → Store → Interrupt → ℤ → List ℕ → Option (Store × Disk × Interrupt)
write_request d st i (negsuc n) bytes = none
write_request d st i (pos s) bytes =
    let ticks = compute_latency d i.total_ticks s true in
    if d.active
    then none
    else (write_sector st (pos s) bytes >>= λ st'.
        schedule i d.disk_done d.self (pos ticks) disk_int >>= λ i'. some (
          st',
          record (update_last (record d { active = true }) i.total_ticks s) {
            num_disk_writes = d.num_disk_writes + 1;
          },
          i',
        ))

-- `Disk::HandleInterrupt` before it calls the handler that it was given.
pub handle_interrupt : Disk → Disk
handle_interrupt d = record d { active = false }
