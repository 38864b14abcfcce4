-- ===== src/Syscall/Create.antt =====
-- userprog/exception.cc, `Create_Syscall`, with what filesys/ makes of the new file.
use csci350_project.Base.{
  ℕ, suc, ◌^◌, ◌-◌, ◌+◌, ◌*◌, ◌≤◌, ◌≡◌, refl, ap, ◌⊎◌, inl, inr, arith, Bool, false, List, [], ◌∷◌,
  ◌++◌, none, some, ◌==◌, ==_false, length,
}
use csci350_project.Machine.{Handler, page_size}
use csci350_project.FileSys.FileHeader.{num_direct, file_length}
use csci350_project.FileSys.Store.{Store}
use csci350_project.FileSys.OpenFile
use csci350_project.FileSys.OpenFile.{OpenFile, request}
use csci350_project.FileSys.System.{FileSystem}
use csci350_project.FileSys.System.Space.{IsConsistent}
use csci350_project.FileSys.System.Create.{Created, refused, created, create-CreateOutcome}
use csci350_project.Syscall.{Process, Given, as_size, fetch_name, create_syscall}
use csci350_project.Syscall.Memory.{Maps, IsBytes}
use csci350_project.Syscall.Copy.{bytes_at, copyin_lem}

-- The file is there, and has no room.
pub record Empty (system : ℕ → Bool) (fs fs' : FileSystem) (name : List ℕ) : Type 0 where
  pub made : Created system fs fs' name 0
  pub takes_nothing :
      (st : Store) (memory from : List ℕ) (n : ℕ)
      → OpenFile.write st made.file memory from n ≡ some (0, st, made.file)
  pub gives_nothing : (st : Store) (n : ℕ) → OpenFile.read st made.file n ≡ some ([], made.file)

no_request : (size n position : ℕ) → size ≡ 0 → request size n position ≡ none
no_request size n position h = ground arith

at_start_still : (f : OpenFile) → record f { seek_position = f.seek_position + 0 } ≡ f
at_start_still f =
    let e : f.seek_position + 0 ≡ f.seek_position = omega arith in
    ap (λ s. record f { seek_position = s }) e

no_bytes_written :
    (st : Store) (f : OpenFile) (memory from : List ℕ) (n : ℕ)
    → f.hdr.num_bytes ≡ 0
    → OpenFile.write st f memory from n ≡ some (0, st, f)
unfolding OpenFile.write OpenFile.write_at file_length
no_bytes_written st f memory from n h =
    let nothing : OpenFile.write_at st f.hdr memory from n f.seek_position ≡ some (0, st) =
      rw (no_request f.hdr.num_bytes n f.seek_position h, OpenFile.write_at) refl in
    rw nothing (ap (λ x. some (0, st, x)) (at_start_still f))

no_bytes_read :
    (st : Store) (f : OpenFile) (n : ℕ) → f.hdr.num_bytes ≡ 0 → OpenFile.read st f n ≡ some ([], f)
unfolding OpenFile.read OpenFile.read_at file_length
no_bytes_read st f n h =
    let nothing : OpenFile.read_at st f.hdr n f.seek_position ≡ some [] =
      rw (no_request f.hdr.num_bytes n f.seek_position h, OpenFile.read_at) refl in
    rw nothing (ap (λ x. some ([], x)) (at_start_still f))

Created-Empty :
    (system : ℕ → Bool) (fs fs' : FileSystem) (name : List ℕ)
    → Created system fs fs' name 0
    → Empty system fs fs' name
Created-Empty system fs fs' name c = record {
  made = c;
  takes_nothing = λ st memory from n. no_bytes_written st c.file memory from n c.of_size;
  gives_nothing = λ st n. no_bytes_read st c.file n c.of_size;
}

-- On a disk in order, with a new header of a whole table, and a name of `len` bytes inside of the
-- program's pages, which are the first of the memory: `Create` fails no ASSERT. The file system is as it was, or the file is there,
-- `Open` gives it, the names that do not agree with it open what they did and the disk is in order;
-- but it has no room: a `Write` on it writes nothing, and a `Read` gives nothing.
-- The memory, the open files and the disk's sectors are as they were.
pub create_syscall-Empty :
    (handler : Handler) (g : Given) (p : Process) (system : ℕ → Bool) (n va len fuel : ℕ)
    → Maps p.machine n
    → IsBytes p.machine.main_memory
    → va + len ≤ n * page_size
    → g.fuel ≡ suc fuel
    → IsConsistent system p.fs
    → length g.header.data_sectors ≡ num_direct
    → let name = bytes_at p.machine.main_memory va len ++ (0 ∷ []) in
      (p' : Process) × (create_syscall handler g p va len ≡ some p')
      × ((p'.fs ≡ p.fs) ⊎ Empty system p.fs p'.fs name)
      × (p'.machine.main_memory ≡ p.machine.main_memory)
      × (p'.files ≡ p.files)
      × (p'.store ≡ p.store)
unfolding create_syscall fetch_name
create_syscall-Empty handler g p system n va len fuel ok whole inside fueled order table =
    let name = bytes_at p.machine.main_memory va len ++ (0 ∷ []) in
    let sized : as_size (len + 1) ≡ some (len + 1) = ground (arith, ok.small) in
    let named : (len == 2 ^ 32 - 1) ≡ false = ==_false _ _ (λ e. omega (arith, ok.small)) in
    let (m, went, a) = copyin_lem handler n len fuel va p.machine ok whole inside in
    elim (create-CreateOutcome system p.fs g.header name 0 order table (omega arith)) [
      | refused e ↦ (
        record p { machine = m },
        rw (named, sized, fueled, went, e) refl,
        inl refl,
        a.memory,
        refl,
        refl,
      )
      | created fs' e c ↦ (
        record p { machine = m; fs = fs' },
        rw (named, sized, fueled, went, e) refl,
        inr (Created-Empty system p.fs fs' name c),
        a.memory,
        refl,
        refl,
      )
    ]
