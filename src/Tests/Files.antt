-- ===== src/Tests/Files.antt =====
-- Files and the disk they are on at concrete inputs.
use csci350_project.Base.{
  ℕ, zero, suc, ◌-◌, ◌*◌, ◌<◌, ◌≡◌, refl, arith, List, [], ◌∷◌, Bool, true, false, ◌&&◌, ◌||◌, some,
  ltb, leb, ◌==◌, if◌then◌else◌, length, get_or, get_elem?,
}
use csci350_project.Base.Int.{ℤ, pos, minus_one}
use csci350_project.BitMap
use csci350_project.BitMap.{
  BitMap, clear_from, mark, clear, test, find_from, num_clear_from, num_clear,
}
use csci350_project.FileSys.Directory
use csci350_project.FileSys.FileHeader.{allocate_from, allocate}
use csci350_project.BitMap.Laws.{is_set}
use csci350_project.FileSys.FileHeader.{FileHeader, sector_size}
use csci350_project.FileSys.Directory.{
  DirectoryEntry, Directory, add, add_entry, strncpy, find, find_index, strncmp_eq,
}
use csci350_project.FileSys.Directory.Lookup.{Unique}
use csci350_project.FileSys.Store.{Store}
use csci350_project.FileSys.OpenFile.{OpenFile, write_at}
use csci350_project.FileSys.OpenFile.Contents.{byte_at, IsDisk, FileLayout, sector_number}
use csci350_project.FileSys.OpenFile.Write.{write_at_lem}
use csci350_project.FileSys.OpenFile.Write.Sectors.{Avoids}
use csci350_project.FileSys.System.{FileSystem, format, create, remove, put_header, create_file}
use csci350_project.FileSys.System.Space.{file_takes, taken, Names, Separate, IsConsistent}
use csci350_project.FileSys.System.Create.{CreateOutcome, create-CreateOutcome}
use csci350_project.FileSys.System.Remove.{RemoveOutcome, remove-RemoveOutcome}
use csci350_project.FileSys.System.Format.{system_sectors}
use csci350_project.FileSys.System.Steps.{begin, creates, Reaches-IsConsistent}

abbrev pub copies : ℕ → List ℤ
copies zero = []
copies (suc n) = minus_one ∷ copies n

abbrev header : ℕ → ℕ → FileHeader
header bytes sector = record {
  num_bytes = bytes;
  num_sectors = 1;
  data_sectors = pos sector ∷ copies 29;
}

abbrev pub empty_header : FileHeader
empty_header = record { num_bytes = 0; num_sectors = 0; data_sectors = copies 30 }

-- The system has the sectors 0 and 1; "f" has its header at 2 and its data at 3, and "g" at 4 and 5.
abbrev headers : ℕ → FileHeader
headers s = if s == 2 then header 100 3 else (if s == 4 then header 128 5 else empty_header)

abbrev directory : Directory
directory =
    record { in_use = true; sector = pos 2; name = 102 ∷ 0 ∷ [] }
    ∷ record { in_use = true; sector = pos 4; name = 103 ∷ 0 ∷ [] }
    ∷ record { in_use = false; sector = minus_one; name = [] }
    ∷ []

abbrev pub small_disk : FileSystem
small_disk = record {
  free_map = record { num_bits = 8; num_words = 1; map = 63 ∷ [] };
  directory = directory;
  headers = headers;
}

abbrev pub system : ℕ → Bool
system k = ltb k 2

in_system : (k : ℕ) → system k ≡ true → taken headers directory k ≡ false
in_system zero h = refl
in_system (suc zero) h = refl
in_system (suc (suc k)) h = absurd (ground arith)

marked : (k : ℕ) → k < 8 → is_set small_disk.free_map k ≡ (taken headers directory k || system k)
marked zero h = refl
marked (suc zero) h = refl
marked (suc (suc zero)) h = refl
marked (suc (suc (suc zero))) h = refl
marked (suc (suc (suc (suc zero)))) h = refl
marked (suc (suc (suc (suc (suc zero))))) h = refl
marked (suc (suc (suc (suc (suc (suc zero)))))) h = refl
marked (suc (suc (suc (suc (suc (suc (suc zero))))))) h = refl
marked (suc (suc (suc (suc (suc (suc (suc (suc k)))))))) h = absurd (omega arith)

header-Names : (bytes s : ℕ) → s < 8 → (i : ℕ) → i < 1 → Names (header bytes s).data_sectors 8 i
header-Names bytes s on zero h = record { sector = s; entry = refl; on_disk = on; fresh = refl }
header-Names bytes s on (suc i) h = absurd (omega arith)

f_alone :
    (k : ℕ) → file_takes headers (pos 2) k ≡ true → (file_takes headers (pos 4) k || false) ≡ false
f_alone k h = ground arith

small_disk-Separate : Separate headers 8 directory
small_disk-Separate = (
  (λ u. (
    record {
      on_disk = omega arith;
      names = header-Names 100 3 (omega arith);
      apart = refl;
      sized = refl;
    },
    f_alone,
  )),
  (
    (λ u. (
      record {
        on_disk = omega arith;
        names = header-Names 128 5 (omega arith);
        apart = refl;
        sized = refl;
      },
      λ k takes. refl,
    )),
    ((λ u. cc), tt),
  ),
)

small_disk-Unique : Unique directory
unfolding strncmp_eq
small_disk-Unique = ((λ u. refl), ((λ u. refl), ((λ u. cc), tt)))

pub small_disk-IsConsistent : IsConsistent system small_disk
small_disk-IsConsistent = record {
  valid = record { room = omega arith };
  unique = small_disk-Unique;
  separate = small_disk-Separate;
  reserved = in_system;
  exact = marked;
}

create-CreateOutcome_example :
    CreateOutcome system small_disk
      (104 ∷ 0 ∷ [])
      128
      (create small_disk empty_header (104 ∷ 0 ∷ []) 128)
create-CreateOutcome_example =
    create-CreateOutcome system small_disk empty_header (104 ∷ 0 ∷ []) 128 small_disk-IsConsistent
      refl (omega arith)

remove-RemoveOutcome_example :
    RemoveOutcome system small_disk (102 ∷ 0 ∷ []) (remove small_disk (102 ∷ 0 ∷ []))
remove-RemoveOutcome_example =
    remove-RemoveOutcome system small_disk (102 ∷ 0 ∷ []) small_disk-IsConsistent

-- A formatted disk of 1024 sectors, on which "f" is then created with 200 bytes.
abbrev pub words : ℕ → ℕ → List ℕ
words zero w = []
words (suc n) w = w ∷ words n w

abbrev blank_table : List DirectoryEntry
blank_table = record { in_use = true; sector = pos 9; name = [] } ∷ []

abbrev system_headers : ℕ → FileHeader
system_headers =
    put_header
      (put_header headers 0
        (record { num_bytes = 128; num_sectors = 1; data_sectors = pos 2 ∷ copies 29 }))
      1 (record { num_bytes = 200; num_sectors = 2; data_sectors = pos 3 ∷ pos 4 ∷ copies 28 })

abbrev formatted : FileSystem
formatted = record {
  free_map = record { num_bits = 1024; num_words = 32; map = 31 ∷ words 31 0 };
  directory = record { in_use = false; sector = pos 9; name = [] } ∷ [];
  headers = system_headers;
}

formats : format (words 32 7) blank_table empty_header empty_header headers ≡ some formatted
unfolding format BitMap.init clear_from mark clear test find_from BitMap.find num_clear_from
    num_clear allocate_from allocate Directory.init
formats = refl

abbrev with_file : FileSystem
with_file = record {
  free_map = record { num_bits = 1024; num_words = 32; map = 255 ∷ words 31 0 };
  directory =
      record { in_use = true; sector = pos 5; name = 102 ∷ 0 ∷ 0 ∷ 0 ∷ 0 ∷ 0 ∷ 0 ∷ 0 ∷ 0 ∷ [] }
      ∷ [];
  headers =
      put_header system_headers 5
        (record { num_bytes = 200; num_sectors = 2; data_sectors = pos 6 ∷ pos 7 ∷ copies 28 });
}

creates_file : create formatted empty_header (102 ∷ 0 ∷ []) 200 ≡ some (true, with_file)
unfolding create create_file find find_index add add_entry strncpy strncmp_eq mark test find_from
    BitMap.find num_clear_from num_clear allocate_from allocate
creates_file = refl

Reaches-IsConsistent_example : IsConsistent (system_sectors formatted.headers) with_file
Reaches-IsConsistent_example =
    Reaches-IsConsistent (words 32 7) blank_table empty_header empty_header headers formatted
      with_file (omega arith) refl refl formats
      (creates formatted with_file empty_header (102 ∷ 0 ∷ []) 200 true begin refl (omega arith)
        creates_file)

-- Three sectors, of which a file of 200 bytes has the last and the first.
abbrev pub sectors : Store
sectors = words 128 1 ∷ words 128 2 ∷ words 128 3 ∷ []

abbrev pub two_sectors : FileHeader
two_sectors = record { num_bytes = 200; num_sectors = 2; data_sectors = pos 2 ∷ pos 0 ∷ copies 28 }

pub sectors-IsDisk : IsDisk sectors 3
sectors-IsDisk = record { sectors = refl; whole = whole }
  where
    whole : (s : ℕ) → s < 3 → length (get_or sectors s []) ≡ sector_size
    whole zero h = refl
    whole (suc zero) h = refl
    whole (suc (suc zero)) h = refl
    whole (suc (suc (suc s))) h = absurd (omega arith)

pub two_sectors-FileLayout : FileLayout two_sectors 3
two_sectors-FileLayout = record { entry = entry; on_disk = on_disk; distinct = distinct }
  where
    entry :
        (i : ℕ)
        → i * sector_size < 200
        → get_elem? two_sectors.data_sectors i ≡ some (pos (sector_number two_sectors i))
    entry zero h = refl
    entry (suc zero) h = refl
    entry (suc (suc i)) h = absurd (omega arith)

    on_disk : (i : ℕ) → i * sector_size < 200 → sector_number two_sectors i < 3
    on_disk zero h = omega arith
    on_disk (suc zero) h = omega arith
    on_disk (suc (suc i)) h = absurd (omega arith)

    distinct :
        (i k : ℕ)
        → i * sector_size < 200
        → k * sector_size < 200
        → sector_number two_sectors i ≡ sector_number two_sectors k
        → i ≡ k
    distinct zero zero h g e = refl
    distinct zero (suc zero) h g e = absurd (omega arith)
    distinct (suc zero) zero h g e = absurd (omega arith)
    distinct (suc zero) (suc zero) h g e = refl
    distinct (suc (suc i)) k h g e = absurd (omega arith)
    distinct zero (suc (suc k)) h g e = absurd (omega arith)
    distinct (suc zero) (suc (suc k)) h g e = absurd (omega arith)

write_at_lem_example :
    (st' : Store) × (write_at sectors two_sectors (words 256 9) (7 ∷ 8 ∷ 9 ∷ []) 3 127
      ≡ some (3, st'))
    × IsDisk st' 3
    × ((j : ℕ)
        → j < 200
        → byte_at st' two_sectors j ≡ (
            if leb 127 j && ltb j 130
            then get_or (7 ∷ 8 ∷ 9 ∷ []) (j - 127) 0
            else byte_at sectors two_sectors j))
    × ((s : ℕ) → Avoids two_sectors s → get_or st' s [] ≡ get_or sectors s [])
write_at_lem_example =
    write_at_lem sectors two_sectors 3 (words 256 9) (7 ∷ 8 ∷ 9 ∷ []) 3 127 sectors-IsDisk
      two_sectors-FileLayout (omega arith) refl

abbrev opened_file : OpenFile
opened_file = record { hdr = two_sectors; seek_position = 0 }

abbrev behind : OpenFile
behind = record { hdr = two_sectors; seek_position = 130 }
