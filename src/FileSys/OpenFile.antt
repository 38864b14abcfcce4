-- ===== src/FileSys/OpenFile.antt =====
-- filesys/openfile.cc: reading and writing any part of a file by whole sectors. A count or a position
-- is a number; a request for a negative count is one for none. `none` is a failed ASSERT or an access
-- outside of `dataSectors`.
pub mod Contents
pub mod Read
pub mod Write
pub mod Seek
pub mod Fresh
use csci350_project.Base.{
  ℕ, zero, suc, ◌+◌, ◌-◌, ◌*◌, ◌/◌, ◌%◌, Bool, true, false, not, ◌&&◌, ◌||◌, List, [], ◌++◌, Option,
  none, some, ltb, leb, ◌==◌, if◌then◌else◌, ◌>>=◌, length, take, drop,
}
use csci350_project.FileSys.FileHeader.{FileHeader, sector_size, byte_to_sector, file_length}
use csci350_project.FileSys.Store.{Store, read_sector, write_sector}

-- The request, cut to the file: `none` where there is nothing to do. The sum is an `int`'s in the
-- source, so that the model stands for positions and counts with a sum below 2 ^ 31.
abbrev pub request : ℕ → ℕ → ℕ → Option ℕ
request size n position =
    if n == 0 || leb size position
    then none
    else some (if ltb size (position + n) then size - position else n)

-- `firstSector` and `numSectors` of a request for `n` bytes.
abbrev pub first_sector : ℕ → ℕ
first_sector position = position / sector_size

abbrev pub last_sector : ℕ → ℕ → ℕ
last_sector position n = (position + n - 1) / sector_size

abbrev pub sector_count : ℕ → ℕ → ℕ
sector_count position n = 1 + last_sector position n - first_sector position

-- The loop of `ReadAt` from the file's sector `i` on, with `left` rounds to go: what is in `buf`.
pub read_sectors : Store → FileHeader → ℕ → ℕ → Option (List ℕ)
read_sectors st hdr zero i = some []
read_sectors st hdr (suc left) i = do
  s ← byte_to_sector hdr (i * sector_size)
  bytes ← read_sector st s
  rest ← read_sectors st hdr left (i + 1)
  some (bytes ++ rest)

-- `OpenFile::ReadAt`: the bytes that go to `into`; the answer is how many they are.
unfoldable pub read_at : Store → FileHeader → ℕ → ℕ → Option (List ℕ)
read_at st hdr n position = elim (request (file_length hdr) n position) [
  | none ↦ some []
  | some count ↦
      read_sectors st hdr (sector_count position count) (first_sector position) >>= λ buf.
      some (take count (drop (position - first_sector position * sector_size) buf))
]

-- `bcopy` of `bytes` to `&buf[at]`.
abbrev pub splice : List ℕ → ℕ → List ℕ → List ℕ
splice buf at bytes = take at buf ++ (bytes ++ drop (at + length bytes) buf)

-- The loop of `WriteAt`: the first sector of `buf` goes to the file's sector `i`.
pub write_sectors : Store → FileHeader → ℕ → ℕ → List ℕ → Option Store
write_sectors st hdr zero i buf = some st
write_sectors st hdr (suc left) i buf = do
  s ← byte_to_sector hdr (i * sector_size)
  st' ← write_sector st s (take sector_size buf)
  write_sectors st' hdr left (i + 1) (drop sector_size buf)

-- `ReadAt` of one sector of the file into `&buf[at]`, where `needed`.
unfoldable pub read_in : Store → FileHeader → Bool → ℕ → ℕ → List ℕ → Option (List ℕ)
read_in st hdr needed i at buf =
    if needed
    then (read_at st hdr sector_size (i * sector_size) >>= λ bytes. some (splice buf at bytes))
    else some buf

-- `OpenFile::WriteAt`; `memory` is what `new char` hands out, with no values set.
unfoldable pub write_at : Store → FileHeader → List ℕ → List ℕ → ℕ → ℕ → Option (ℕ × Store)
write_at st hdr memory from n position = elim (request (file_length hdr) n position) [
  | none ↦ some (0, st)
  | some count ↦
      let first = first_sector position in
      let last = last_sector position count in
      let first_aligned = position == first * sector_size in
      let last_aligned = position + count == (last + 1) * sector_size in
      let both = not last_aligned && (not (first == last) || first_aligned) in
      read_in st hdr (not first_aligned) first 0 memory >>= λ buf1.
      read_in st hdr both last ((last - first) * sector_size) buf1 >>= λ buf2.
      write_sectors st hdr (sector_count position count) first
        (splice buf2 (position - first * sector_size) (take count from))
      >>= λ st'. some (count, st')
]

-- The class; the file's sectors are in the store.
pub record OpenFile : Type 0 where
  pub hdr : FileHeader
  pub seek_position : ℕ

-- `OpenFile::Seek`, `Read`, `Write` and `Length`
pub seek : OpenFile → ℕ → OpenFile
seek f position = record f { seek_position = position }

unfoldable pub read : Store → OpenFile → ℕ → Option (List ℕ × OpenFile)
read st f n = read_at st f.hdr n f.seek_position >>= λ bytes.
    some (bytes, record f { seek_position = f.seek_position + length bytes })

unfoldable pub write : Store → OpenFile → List ℕ → List ℕ → ℕ → Option (ℕ × Store × OpenFile)
write st f memory from n = write_at st f.hdr memory from n f.seek_position >>= λ (result, st').
    some (result, st', record f { seek_position = f.seek_position + result })

pub open_length : OpenFile → ℕ
open_length f = file_length f.hdr
