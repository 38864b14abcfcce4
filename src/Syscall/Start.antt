-- ===== src/Syscall/Start.antt =====
-- userprog/progtest.cc, `StartProcess`: the program as it begins.
use csci350_project.Base.{
  ℕ, ◌*◌, ◌≤◌, ◌<◌, ◌≡◌, refl, ap, subst, ◌∙◌, arith, List, none, some, get_elem?, get_elem?-lt,
  length, get_or,
}
use csci350_project.Machine.{Machine, page_size, memory_size, num_total_regs}
use csci350_project.FileSys.Store.{Store}
use csci350_project.FileSys.OpenFile.{OpenFile}
use csci350_project.FileSys.OpenFile.Contents.{byte_at, IsDisk, FileLayout}
use csci350_project.FileSys.System.{FileSystem, open_file}
use csci350_project.AddrSpace.{Table}
use csci350_project.AddrSpace.Paging.{
  AddrSpace, set_up_pages, restore_state, page_entries-get, length-page_entries, set_up_pages-some,
}
use csci350_project.AddrSpace.Load.{
  NoffHeader, Fresh, noff_header, noff_header_size, noff_magic_number, max_open_files, read_header,
  load_segment, bzero, file_table, construct, init_registers, start_program, start_process,
}
use csci350_project.AddrSpace.Load.Image.{IsSegment, image, read_header_lem, load-image}
use csci350_project.AddrSpace.Load.Registers.{Begins, init_registers_lem}
use csci350_project.AddrSpace.Load.Files.{IsNew, file_table_lem}
use csci350_project.Syscall.Memory.{Maps}

-- `RestoreState` of an address space gives the program its pages.
pub restore_state-Maps :
    (m : Machine) (space : AddrSpace) (a b c : ℕ)
    → set_up_pages a b c ≡ some space
    → m.tlb ≡ none
    → length m.main_memory ≡ memory_size
    → Maps (restore_state m space) space.num_pages
unfolding restore_state
restore_state-Maps m space a b c made no_tlb whole =
    let (table, room) = set_up_pages-some a b c space made in
    let long : length space.page_table ≡ space.num_pages =
      ap length table ∙ length-page_entries 0 space.num_pages in
    record {
      table = space.page_table;
      running = record {
        no_tlb = no_tlb;
        has_table = refl;
        whole_table = omega (arith, long);
        whole_memory = whole;
      };
      size = refl;
      small = room;
      page = λ i h.
          let (e, at) = get_elem?-lt space.page_table i (omega (arith, long)) in
          let (frame, valid, free) =
            page_entries-get 0 space.num_pages i e (subst (λ t. get_elem? t i ≡ some e) table at) in
          (e, at, omega (arith, frame), valid, free);
    }

-- A file that holds a program: its first bytes are `head`, a header of a program with the address space
-- `space`, and its segments lie inside of the file and of the pages.
pub record IsExecutable (st : Store) (f : OpenFile) (size : ℕ) (head : List ℕ) (space : AddrSpace)
    : Type 0 where
  pub disk : IsDisk st size
  pub layout : FileLayout f.hdr size
  pub long : noff_header_size ≤ f.hdr.num_bytes
  pub head_size : length head ≡ noff_header_size
  pub head_bytes : (j : ℕ) → j < noff_header_size → get_or head j 0 ≡ byte_at st f.hdr j
  pub magic : (noff_header head).noff_magic ≡ noff_magic_number
  pub pages :
      set_up_pages
        (noff_header head).code.size
        (noff_header head).init_data.size
        (noff_header head).uninit_data.size
      ≡ some space
  pub code : IsSegment f.hdr space.num_pages (noff_header head).code
  pub init_data : IsSegment f.hdr space.num_pages (noff_header head).init_data

-- The arrays that `new` hands out, and the header on the stack.
pub record IsFresh (fresh : Fresh) : Type 0 where
  pub words : max_open_files ≤ 32 * length fresh.words
  pub slots : length fresh.slots ≡ max_open_files
  pub header : length fresh.header ≡ noff_header_size

-- The program `space` with the header `head` begins.
pub record Started (st : Store) (f : OpenFile) (head : List ℕ) (space : AddrSpace) (m m' : Machine)
    (files : Table OpenFile) : Type 0 where
  pub maps : Maps m' space.num_pages
  pub memory :
      (j : ℕ)
      → get_or m'.main_memory j 0
        ≡ image st f.hdr (noff_header head) space.num_pages j (get_or m.main_memory j 0)
  pub registers : Begins m' space.num_pages
  pub open_files : IsNew files

-- The constructor's steps.
construct_steps :
    (st : Store) (f : OpenFile) (fresh : Fresh) (m : Machine) (space : AddrSpace)
    (files : Table OpenFile) (h : NoffHeader) (mem1 mem2 : List ℕ)
    → file_table fresh.words fresh.slots ≡ some files
    → read_header st f.hdr fresh.header ≡ some h
    → set_up_pages h.code.size h.init_data.size h.uninit_data.size ≡ some space
    → load_segment st f.hdr h.code (bzero m.main_memory (space.num_pages * page_size)) ≡ some mem1
    → load_segment st f.hdr h.init_data mem1 ≡ some mem2
    → construct st f fresh m ≡ some (space, files, record m { main_memory = mem2 })
unfolding construct
construct_steps st f fresh m space files h mem1 mem2 tabled read pages loaded1 loaded2 =
    rw (tabled, read, pages, loaded1, loaded2) refl

start_steps :
    (st : Store) (fs : FileSystem) (fresh : Fresh) (m : Machine) (name : List ℕ) (f : OpenFile)
    (space : AddrSpace) (files : Table OpenFile) (m1 m2 : Machine)
    → open_file fs name ≡ some f
    → construct st f fresh m ≡ some (space, files, m1)
    → init_registers m1 space ≡ some m2
    → start_process st fs fresh m name ≡ some (some (space, files, restore_state m2 space))
unfolding start_process start_program
start_steps st fs fresh m name f space files m1 m2 there constructed cleared =
    let started : start_program st f fresh m ≡ some (space, files, restore_state m2 space) =
      rw (constructed, cleared) refl in
    rw (there, start_process, started) refl

-- With a file of that name that holds a program whose segments lie inside of the file and of the
-- program's pages, on a machine with all its registers and memory and no TLB: `StartProcess` fails no
-- ASSERT up to the run of the program. The program's pages are then the first of the memory, which hold the code and the initialized data from the
-- file, the data over the code where they overlap, and zeros elsewhere; the rest of the memory is as it was. The program
-- counters are at 0 and 4, the stack register is 16 below the end of the pages, all other registers
-- are 0; no file is open, and of the numbers of open files 0 and 1 are in use, no other.
pub start_process-Started :
    (st : Store) (fs : FileSystem) (fresh : Fresh) (m : Machine) (name : List ℕ) (f : OpenFile)
    (size : ℕ) (head : List ℕ) (space : AddrSpace)
    → open_file fs name ≡ some f
    → IsExecutable st f size head space
    → IsFresh fresh
    → length m.registers ≡ num_total_regs
    → length m.main_memory ≡ memory_size
    → m.tlb ≡ none
    → (files : Table OpenFile) × (m' : Machine) × (start_process st fs fresh m name
        ≡ some (some (space, files, m')))
      × Started st f head space m m' files
unfolding restore_state
start_process-Started st fs fresh m name f size head space there exe new whole_registers
      whole_memory no_tlb =
    let h = noff_header head in
    let (table, pages) =
      set_up_pages-some h.code.size h.init_data.size h.uninit_data.size space exe.pages in
    let (files, tabled, opened) = file_table_lem fresh.words fresh.slots new.words new.slots in
    let read =
      read_header_lem st f.hdr size exe.disk exe.layout fresh.header head new.header exe.head_size
        exe.long exe.head_bytes exe.magic in
    let (mem1, mem2, loaded1, loaded2, len, gives) =
      load-image st f.hdr size space.num_pages h m.main_memory exe.disk exe.layout exe.code
        exe.init_data (omega (arith, pages, whole_memory)) in
    let m1 : Machine = record m { main_memory = mem2 } in
    let (rs, cleared, begins) = init_registers_lem m1 space whole_registers in
    let m2 : Machine = record m1 { registers = rs } in
    (
      files,
      restore_state m2 space,
      start_steps st fs fresh m name f space files m1 (record m1 { registers = rs }) there
          (construct_steps st f fresh m space files h mem1 mem2 tabled read exe.pages loaded1
            loaded2)
          cleared,
      record {
        maps =
            restore_state-Maps m2 space h.code.size h.init_data.size h.uninit_data.size exe.pages
              no_tlb (len ∙ whole_memory);
        memory = gives;
        registers = record {
          pc = begins.pc;
          next_pc = begins.next_pc;
          stack = begins.stack;
          others = begins.others;
          whole = begins.whole;
        };
        open_files = opened;
      },
    )
