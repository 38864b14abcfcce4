-- ===== src/FileSys/OpenFile/Write.antt =====
-- filesys/openfile.cc, `WriteAt`, against the file's array of bytes.
pub mod Sectors
pub mod Buffer
use csci350_project.Base.{
  ℕ, zero, suc, ◌+◌, ◌-◌, ◌*◌, ◌/◌, ◌%◌, ◌≤◌, ◌<◌, ◌≡◌, ◌≢◌, refl, sym, ap, ◌∙◌, ◌⊎◌, arith, Bool,
  true, false, not, ◌&&◌, ◌||◌, List, [], ◌∷◌, Option, none, some, ltb, leb, ltb→lt, lt→ltb, le→leb,
  leb→le, leb-false, ltb-false, Bool-cases, inl, inr, ==_iff, ==_self, ==_false, ◌==◌,
  if◌then◌else◌, ◌>>=◌, min, length, take, drop, get_or, get_or-take, length-take, ℕ_discrete,
}
use csci350_project.FileSys.FileHeader.{FileHeader, sector_size, file_length}
use csci350_project.FileSys.Store.{Store}
use csci350_project.FileSys.OpenFile.{
  request, first_sector, last_sector, sector_count, read_at, splice, write_sectors, read_in,
  write_at,
}
use csci350_project.FileSys.OpenFile.Contents.{
  byte_at, IsDisk, FileLayout, length-splice, get_or-splice,
}
use csci350_project.FileSys.OpenFile.Read.{request-cases, read_at_lem}
use csci350_project.FileSys.OpenFile.Write.Sectors.{Avoids, write_sectors_lem}
use csci350_project.FileSys.OpenFile.Write.Buffer.{Filled, read_in-Filled, written}

-- The steps of `WriteAt` put together.
write_at_steps :
    (st : Store) (hdr : FileHeader) (memory from : List ℕ) (n position count : ℕ)
    (buf1 buf2 : List ℕ) (st' : Store)
    → let first = first_sector position in
      let last = last_sector position count in
      request hdr.num_bytes n position ≡ some count
      → read_in st hdr (not (position == first * sector_size)) first 0 memory ≡ some buf1
      → read_in st hdr
          (not (position + count == (last + 1) * sector_size)
            && (not (first == last) || position == first * sector_size))
          last
          ((last - first) * sector_size)
          buf1
        ≡ some buf2
      → write_sectors st hdr
          (sector_count position count)
          first
          (splice buf2 (position - first * sector_size) (take count from))
        ≡ some st'
      → write_at st hdr memory from n position ≡ some (count, st')
unfolding write_at file_length
write_at_steps st hdr memory from n position count buf1 buf2 st' e d1 d2 d =
    rw (e, write_at, d1, d2, d) refl

-- On a disk that the file is laid out on, with `n` bytes at least in `from` and memory for the sectors
-- of the request, `WriteAt` writes as many bytes as are asked for and as the
-- file has room for from `position` on: they are the file's bytes there afterwards. Every other byte
-- of the file, and every sector that holds none of its bytes, is as it was.
pub write_at_lem :
    (st : Store) (hdr : FileHeader) (size : ℕ) (memory from : List ℕ) (n position : ℕ)
    → IsDisk st size
    → FileLayout hdr size
    → n ≤ length from
    → length memory ≡ sector_count position (min n (hdr.num_bytes - position)) * sector_size
    → let count = min n (hdr.num_bytes - position) in
      (st' : Store) × (write_at st hdr memory from n position ≡ some (count, st'))
      × IsDisk st' size
      × ((j : ℕ)
          → j < hdr.num_bytes
          → byte_at st' hdr j ≡ (
              if leb position j && ltb j (position + count)
              then get_or from (j - position) 0
              else byte_at st hdr j))
      × ((s : ℕ) → Avoids hdr s → get_or st' s [] ≡ get_or st s [])
unfolding write_at file_length
write_at_lem st hdr size memory from n position disk lay enough room =
    elim (request-cases hdr.num_bytes n position) [
      | inl (e, none_left) ↦
          (st, rw (e, write_at, none_left), disk, (λ j h. ground arith), λ s away. refl)
      | inr (e, positive) ↦
          let count = min n (hdr.num_bytes - position) in
          let first = first_sector position in
          let last = last_sector position count in
          let whole : position + count ≤ hdr.num_bytes = omega arith in
          let (buf1, done1, f1) =
            read_in-Filled st hdr size (not (position == first * sector_size)) first 0 memory disk
              lay (omega arith) in
          let both =
            not (position + count == (last + 1) * sector_size)
            && (not (first == last) || position == first * sector_size) in
          let (buf2, done2, f2) =
            read_in-Filled st hdr size both last ((last - first) * sector_size) buf1 disk lay
              (omega (arith, f1.same_length)) in
          let (st', done, disk', gives, keeps) =
            written st hdr memory buf1 buf2 position count f1 f2 positive whole size from disk lay
              (omega arith) room in
          (
            st',
            write_at_steps st hdr memory from n position count buf1 buf2 st' e done1 done2 done,
            disk',
            gives,
            keeps,
          )
    ]
