-- ===== src/Tests/Programs.antt =====
-- A program that begins, at concrete inputs.
use csci350_project.Base.{
  ℕ, zero, suc, ◌*◌, ◌/◌, ◌%◌, ◌<◌, ◌≡◌, refl, sym, ◌∙◌, arith, true, List, [], ◌∷◌, ◌++◌, some,
  none, length, get_or, replicate, get_or-append, lt→ltb, get_elem?,
}
use csci350_project.Base.Int.{pos}
use csci350_project.Machine.{Machine}
use csci350_project.AddrSpace.{Table}
use csci350_project.AddrSpace.Load.{Fresh, noff_header, start_process}
use csci350_project.AddrSpace.Paging.{AddrSpace, page_entries, set_up_pages}
use csci350_project.FileSys.FileHeader.{FileHeader, sector_size}
use csci350_project.FileSys.Store.{Store}
use csci350_project.FileSys.System.{FileSystem, open_file}
use csci350_project.FileSys.Directory.{find, find_index, strncmp_eq}
use csci350_project.FileSys.OpenFile.Contents.{byte_at, IsDisk, FileLayout, sector_number}
use csci350_project.Machine.Memory.{load_le}
use csci350_project.FileSys.OpenFile.{OpenFile}
use csci350_project.Syscall.Start.{IsExecutable, IsFresh, Started, start_process-Started}
use csci350_project.Tests.Files.{copies, words}
use csci350_project.Tests.Calls.{user, length-memory}

-- A file of 100 bytes with a program: two words of code, and a word of data behind them.
abbrev head : List ℕ
head =
    173 ∷ 223 ∷ 186 ∷ 0 ∷ 0 ∷ 0 ∷ 0 ∷ 0 ∷ 40 ∷ 0 ∷ 0 ∷ 0 ∷ 8 ∷ 0 ∷ 0 ∷ 0 ∷ 8 ∷ 0 ∷ 0 ∷ 0 ∷ 48 ∷ 0
    ∷ 0 ∷ 0 ∷ 4 ∷ 0 ∷ 0 ∷ 0 ∷ 12 ∷ 0 ∷ 0 ∷ 0 ∷ 0 ∷ 0 ∷ 0 ∷ 0 ∷ 4 ∷ 0 ∷ 0 ∷ 0 ∷ []

abbrev executable_sectors : Store
executable_sectors = words 128 5 ∷ (head ++ words 88 17) ∷ []

abbrev executable_header : FileHeader
executable_header = record { num_bytes = 100; num_sectors = 1; data_sectors = pos 1 ∷ copies 29 }

abbrev executable : OpenFile
executable = record { hdr = executable_header; seek_position = 0 }

executable-IsDisk : IsDisk executable_sectors 2
executable-IsDisk = record { sectors = refl; whole = whole }
  where
    whole : (s : ℕ) → s < 2 → length (get_or executable_sectors s []) ≡ sector_size
    whole zero h = refl
    whole (suc zero) h = refl
    whole (suc (suc s)) h = absurd (omega arith)

executable-FileLayout : FileLayout executable_header 2
executable-FileLayout = record { entry = entry; on_disk = on_disk; distinct = distinct }
  where
    entry :
        (i : ℕ)
        → i * sector_size < 100
        → get_elem? executable_header.data_sectors i
          ≡ some (pos (sector_number executable_header i))
    entry zero h = refl
    entry (suc i) h = absurd (omega arith)

    on_disk : (i : ℕ) → i * sector_size < 100 → sector_number executable_header i < 2
    on_disk zero h = omega arith
    on_disk (suc i) h = absurd (omega arith)

    distinct :
        (i k : ℕ)
        → i * sector_size < 100
        → k * sector_size < 100
        → sector_number executable_header i ≡ sector_number executable_header k
        → i ≡ k
    distinct i k h g e = omega arith

head_bytes : (j : ℕ) → j < 40 → get_or head j 0 ≡ byte_at executable_sectors executable_header j
head_bytes j h =
    let sector : j / 128 ≡ 0 = omega arith in
    let offset : j % 128 ≡ j = omega arith in
    rw (sector, offset) (sym (get_or-append head (words 88 17) j 0 ∙ rw (lt→ltb j 40 h) refl))

abbrev loaded_program : AddrSpace
loaded_program = record { page_table = page_entries 0 9; num_pages = 9 }

executable-IsExecutable : IsExecutable executable_sectors executable 2 head loaded_program
unfolding noff_header load_le set_up_pages
executable-IsExecutable = record {
  disk = executable-IsDisk;
  layout = executable-FileLayout;
  long = omega arith;
  head_size = refl;
  head_bytes = head_bytes;
  magic = refl;
  pages = refl;
  code = record {
    sized = omega arith;
    placed = omega arith;
    in_file = omega arith;
    in_pages = omega arith;
  };
  init_data = record {
    sized = omega arith;
    placed = omega arith;
    in_file = omega arith;
    in_pages = omega arith;
  };
}

abbrev fresh : Fresh
fresh = record { words = words 8 77; slots = replicate 256 none; header = words 40 3 }

fresh-IsFresh : IsFresh fresh
fresh-IsFresh = record { words = omega arith; slots = refl; header = refl }

abbrev program_disk : FileSystem
program_disk = record {
  free_map = record { num_bits = 2; num_words = 1; map = 3 ∷ [] };
  directory = record { in_use = true; sector = pos 0; name = 102 ∷ 0 ∷ [] } ∷ [];
  headers = λ s. executable_header;
}

opens_program : open_file program_disk (102 ∷ 0 ∷ []) ≡ some executable
unfolding open_file find find_index strncmp_eq
opens_program = refl

start_process-Started_example :
    (files : Table OpenFile) × (m' : Machine) × (start_process executable_sectors program_disk fresh
        user
        (102 ∷ 0 ∷ [])
      ≡ some (some (loaded_program, files, m')))
    × Started executable_sectors executable head loaded_program user m' files
start_process-Started_example =
    start_process-Started executable_sectors program_disk fresh user (102 ∷ 0 ∷ []) executable 2
      head loaded_program opens_program executable-IsExecutable fresh-IsFresh refl length-memory
      refl
