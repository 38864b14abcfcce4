-- ===== src/FileSys/FileHeader.antt =====
-- filesys/filehdr.h and filehdr.cc: where on the disk the data of a file lies. `none` is a failed
-- ASSERT or an access outside of the array `dataSectors`.
pub mod Sectors
pub mod Allocation
pub mod Release
use csci350_project.Base.{
  ℕ, zero, suc, ◌+◌, ◌/◌, Bool, true, false, List, Option, none, some, ltb, if◌then◌else◌, ◌>>=◌,
  get_elem?, set,
}
use csci350_project.Base.Int.{ℤ}
use csci350_project.BitMap.{BitMap, div_round_up, find, num_clear, test, clear}

abbrev pub sector_size : ℕ
sector_size = 128

-- `NumDirect`, (SectorSize - 2 * sizeof(int)) / sizeof(int).
abbrev pub num_direct : ℕ
num_direct = 30

pub record FileHeader : Type 0 where
  pub num_bytes : ℕ
  pub num_sectors : ℕ
  pub data_sectors : List ℤ

-- A write into `dataSectors[i]`.
abbrev pub put_sector : List ℤ → ℕ → ℤ → Option (List ℤ)
put_sector ds i s = if ltb i num_direct then some (set ds i s) else none

-- The loop `dataSectors[i] = freeMap->Find()`, with `left` rounds to go.
unfoldable pub allocate_from : ℕ → ℕ → List ℤ → BitMap → Option (List ℤ × BitMap)
allocate_from zero i ds m = some (ds, m)
allocate_from (suc left) i ds m = do
  (s, m') ← find m
  ds' ← put_sector ds i s
  allocate_from left (i + 1) ds' m'

-- `FileHeader::Allocate`: the answer, with the header and the free map as they are left.
unfoldable pub allocate : FileHeader → BitMap → ℕ → Option (Bool × FileHeader × BitMap)
allocate hdr free_map file_size = do
  let n = div_round_up file_size sector_size
  let hdr' = record hdr { num_bytes = file_size; num_sectors = n }
  clear_sectors ← num_clear free_map
  if ltb clear_sectors n
      then some (false, hdr', free_map)
      else (allocate_from n 0 hdr.data_sectors free_map >>= λ (ds, m).
          some (true, record hdr' { data_sectors = ds }, m))

-- The loop of `Deallocate`; the ASSERT wants each sector to be marked.
pub deallocate_from : ℕ → ℕ → List ℤ → BitMap → Option BitMap
deallocate_from zero i ds m = some m
deallocate_from (suc left) i ds m = do
  s ← get_elem? ds i
  used ← test m s
  m' ← (if used then clear m s else none)
  deallocate_from left (i + 1) ds m'

-- `FileHeader::Deallocate`
pub deallocate : FileHeader → BitMap → Option BitMap
deallocate hdr free_map = deallocate_from hdr.num_sectors 0 hdr.data_sectors free_map

-- `FileHeader::ByteToSector`
unfoldable pub byte_to_sector : FileHeader → ℕ → Option ℤ
byte_to_sector hdr offset = get_elem? hdr.data_sectors (offset / sector_size)

-- `FileHeader::FileLength`
unfoldable pub file_length : FileHeader → ℕ
file_length hdr = hdr.num_bytes
