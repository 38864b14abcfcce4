-- ===== src/FileSys/System.antt =====
-- filesys/filesys.cc: creating, opening and removing files. The files of the free map and of the
-- directory, and the sectors of file headers, are kept as what they stand for: `FetchFrom` and
-- `WriteBack` copy that structure as it is. `none` is a failed ASSERT, or an access outside of an
-- array.
pub mod Space
pub mod Entries
pub mod Create
pub mod Remove
pub mod Format
pub mod Steps
use csci350_project.Base.{
  ℕ, ◌+◌, ◌*◌, ◌/◌, Bool, true, false, not, List, [], ◌∷◌, Option, none, some, ◌==◌, if◌then◌else◌,
  ◌>>=◌,
}
use csci350_project.Base.Int.{ℤ, pos, negsuc, minus_one}
use csci350_project.BitMap
use csci350_project.BitMap.{BitMap}
use csci350_project.FileSys.FileHeader.{FileHeader, allocate, deallocate, sector_size}
use csci350_project.FileSys.Directory
use csci350_project.FileSys.Directory.{DirectoryEntry, Directory}
use csci350_project.FileSys.OpenFile.{OpenFile}

abbrev pub num_sectors : ℕ
num_sectors = 1024

abbrev pub free_map_sector : ℕ
free_map_sector = 0

abbrev pub directory_sector : ℕ
directory_sector = 1

abbrev pub free_map_file_size : ℕ
free_map_file_size = num_sectors / 8

abbrev pub num_dir_entries : ℕ
num_dir_entries = 10

-- A `DirectoryEntry` takes 20 bytes.
abbrev pub directory_file_size : ℕ
directory_file_size = 20 * num_dir_entries

-- What the disk holds: the free map, the directory, and in each sector the header that stands there.
pub record FileSystem : Type 0 where
  pub free_map : BitMap
  pub directory : Directory
  pub headers : ℕ → FileHeader

-- `FetchFrom` and `WriteBack` of a header; `none` is the disk's ASSERT for a negative sector. For one
-- past the disk's end, which no directory in order names, the ASSERT is left out.
abbrev pub fetch_header : FileSystem → ℤ → Option FileHeader
fetch_header fs (pos s) = some (fs.headers s)
fetch_header fs (negsuc s) = none

abbrev pub put_header : (ℕ → FileHeader) → ℕ → FileHeader → ℕ → FileHeader
put_header headers s hdr t = if s == t then hdr else headers t

abbrev pub is_missing : ℤ → Bool
is_missing (pos s) = false
is_missing (negsuc s) = s == 0

-- The rest of `Create` once a sector for the header is found and the name is entered.
unfoldable pub create_file :
    FileSystem → FileHeader → ℕ → ℕ → BitMap → Directory → Option (Bool × FileSystem)
create_file fs fresh initial_size sector free_map directory =
    allocate fresh free_map initial_size >>= λ (room, hdr, free_map'). some (
      if room
      then (
        true,
        record {
          free_map = free_map';
          directory = directory;
          headers = put_header fs.headers sector hdr;
        },
      )
      else (false, fs))

-- `FileSystem::Create`; `fresh` is the new header, with no values set.
unfoldable pub create : FileSystem → FileHeader → List ℕ → ℕ → Option (Bool × FileSystem)
create fs fresh name initial_size =
    if not (is_missing (Directory.find fs.directory name))
    then some (false, fs)
    else (BitMap.find fs.free_map >>= λ (sector, free_map). elim sector [
      | negsuc _ ↦ some (false, fs)
      | pos s ↦
          let added = Directory.add fs.directory name (pos s) in
          if not added.0
          then some (false, fs)
          else create_file fs fresh initial_size s free_map added.1
    ])

-- `FileSystem::Open`; the answer `none` is NULL.
unfoldable pub open_file : FileSystem → List ℕ → Option OpenFile
open_file fs name = elim (Directory.find fs.directory name) [
  | negsuc _ ↦ none
  | pos s ↦ some (record { hdr = fs.headers s; seek_position = 0 })
]

-- `FileSystem::Remove`
unfoldable pub remove : FileSystem → List ℕ → Option (Bool × FileSystem)
remove fs name =
    let sector = Directory.find fs.directory name in
    if is_missing sector
    then some (false, fs)
    else (fetch_header fs sector >>= λ hdr. deallocate hdr fs.free_map >>= λ map1.
        BitMap.clear map1 sector >>= λ map2.
        some
          (true, record fs { free_map = map2; directory = (Directory.remove fs.directory name).1 }))

-- The constructor with `format`; `memory` is the map's array, `table` the directory's, and the two
-- headers are new, all with no values set.
unfoldable pub format :
    List ℕ → List DirectoryEntry → FileHeader → FileHeader → (ℕ → FileHeader) → Option FileSystem
format memory table map_hdr dir_hdr headers = do
  map1 ← BitMap.init num_sectors memory
  map2 ← BitMap.mark map1 (pos free_map_sector)
  map3 ← BitMap.mark map2 (pos directory_sector)
  (ok1, map_hdr', map4) ← allocate map_hdr map3 free_map_file_size
  (ok2, dir_hdr', map5) ← (if ok1 then allocate dir_hdr map4 directory_file_size else none)
  if ok2
      then some (record {
        free_map = map5;
        directory = Directory.init table;
        headers =
            put_header (put_header headers free_map_sector map_hdr') directory_sector dir_hdr';
      })
      else none
