-- ===== src/AddrSpace/Load.antt =====
-- userprog/addrspace.cc and progtest.cc: loading a program from its file, on a little-endian host, and
-- its first registers. `none` is a failed ASSERT or an access outside of an array.
pub mod Image
pub mod Registers
pub mod Files
use csci350_project.Base.{
  ℕ, zero, suc, ◌+◌, ◌-◌, ◌*◌, ◌%◌, ◌^◌, Bool, true, false, not, ◌&&◌, ◌||◌, List, [], ◌∷◌, Option,
  none, some, ltb, leb, ◌==◌, if◌then◌else◌, ◌>>=◌, length, replicate,
}
use csci350_project.BitMap
use csci350_project.BitMap.{BitMap}
use csci350_project.Machine.{
  Machine, page_size, pc_reg, next_pc_reg, num_total_regs, write_register,
}
use csci350_project.Machine.Memory.{load_le}
use csci350_project.FileSys.FileHeader.{FileHeader}
use csci350_project.FileSys.Store.{Store}
use csci350_project.FileSys.OpenFile.{OpenFile, read_at, splice}
use csci350_project.FileSys.System.{FileSystem, open_file}
use csci350_project.AddrSpace
use csci350_project.AddrSpace.{Table}
use csci350_project.AddrSpace.Paging.{AddrSpace, set_up_pages, restore_state}

abbrev pub noff_magic_number : ℕ
noff_magic_number = 12246957

abbrev pub max_open_files : ℕ
max_open_files = 256

abbrev pub stack_reg : ℕ
stack_reg = 29

-- bin/noff.h; each field is a word.
pub record Segment : Type 0 where
  pub virtual_addr : ℕ
  pub in_file_addr : ℕ
  pub size : ℕ

pub record NoffHeader : Type 0 where
  pub noff_magic : ℕ
  pub code : Segment
  pub init_data : Segment
  pub uninit_data : Segment

abbrev pub noff_header_size : ℕ
noff_header_size = 40

-- The header in memory.
abbrev pub header_word : List ℕ → ℕ → ℕ
header_word bytes i = load_le bytes (4 * i) 4

abbrev pub segment_of : List ℕ → ℕ → Segment
segment_of bytes i = record {
  virtual_addr = header_word bytes i;
  in_file_addr = header_word bytes (i + 1);
  size = header_word bytes (i + 2);
}

unfoldable pub noff_header : List ℕ → NoffHeader
noff_header bytes = record {
  noff_magic = header_word bytes 0;
  code = segment_of bytes 1;
  init_data = segment_of bytes 4;
  uninit_data = segment_of bytes 7;
}

-- `WordToHost`
abbrev pub word_to_host : ℕ → ℕ
word_to_host word = word

abbrev pub swap_segment : Segment → Segment
swap_segment s = record {
  virtual_addr = word_to_host s.virtual_addr;
  in_file_addr = word_to_host s.in_file_addr;
  size = word_to_host s.size;
}

-- `SwapHeader`
abbrev pub swap_header : NoffHeader → NoffHeader
swap_header h = record {
  noff_magic = word_to_host h.noff_magic;
  code = swap_segment h.code;
  init_data = swap_segment h.init_data;
  uninit_data = swap_segment h.uninit_data;
}

-- The header in the file's first bytes, with its ASSERT; `given` is what stands in `noffH` before.
unfoldable pub read_header : Store → FileHeader → List ℕ → Option NoffHeader
read_header st hdr given = do
  bytes ← read_at st hdr noff_header_size 0
  let h = noff_header (splice given 0 bytes)
  let swaps =
      not (h.noff_magic == noff_magic_number) && word_to_host h.noff_magic == noff_magic_number
  let h' = if swaps then swap_header h else h
  if h'.noff_magic == noff_magic_number then some h' else none

-- A word that is an `int` above 0, or not below it.
abbrev pub is_positive : ℕ → Bool
is_positive w = ltb 0 w && ltb w (2 ^ 31)

abbrev pub is_natural : ℕ → Bool
is_natural w = ltb w (2 ^ 31)

-- `ReadAt` of a segment to its place in the memory.
unfoldable pub load_segment : Store → FileHeader → Segment → List ℕ → Option (List ℕ)
load_segment st hdr s mem =
    if is_positive s.size
    then (if is_natural s.in_file_addr
        then (read_at st hdr s.size s.in_file_addr >>= λ bytes.
            if length bytes == 0 || leb (s.virtual_addr + length bytes) (length mem)
            then some (splice mem s.virtual_addr bytes)
            else none)
        else none)
    else some mem

-- `bzero` of the first `n` bytes.
abbrev pub bzero : List ℕ → ℕ → List ℕ
bzero mem n = splice mem 0 (replicate n 0)

-- `fileTable` with its two entries for the console; `words` and `slots` are the new arrays.
unfoldable pub file_table : List ℕ → List (Option OpenFile) → Option (Table OpenFile)
file_table words slots = do
  map ← BitMap.init max_open_files words
  (i, t1) ← AddrSpace.put (record { map = map; table = slots; size = max_open_files }) none
  (k, t2) ← AddrSpace.put t1 none
  some t2

-- What the constructor finds in memory with no values set.
pub record Fresh : Type 0 where
  pub words : List ℕ
  pub slots : List (Option OpenFile)
  pub header : List ℕ

-- `AddrSpace::AddrSpace`: the address space, its file table and the machine's memory.
unfoldable pub construct :
    Store → OpenFile → Fresh → Machine → Option (AddrSpace × Table OpenFile × Machine)
construct st executable fresh m = do
  files ← file_table fresh.words fresh.slots
  h ← read_header st executable.hdr fresh.header
  space ← set_up_pages h.code.size h.init_data.size h.uninit_data.size
  mem1 ← load_segment st executable.hdr h.code (bzero m.main_memory (space.num_pages * page_size))
  mem2 ← load_segment st executable.hdr h.init_data mem1
  some (space, files, record m { main_memory = mem2 })

-- The loop of `InitRegisters`, `left` registers from `i` on.
unfoldable pub clear_registers : Machine → ℕ → ℕ → Option Machine
clear_registers m i zero = some m
clear_registers m i (suc left) = write_register m i 0 >>= λ m'. clear_registers m' (i + 1) left

-- `AddrSpace::InitRegisters`
unfoldable pub init_registers : Machine → AddrSpace → Option Machine
init_registers m space = do
  m1 ← clear_registers m 0 num_total_regs
  m2 ← write_register m1 pc_reg 0
  m3 ← write_register m2 next_pc_reg 4
  write_register m3 stack_reg (space.num_pages * page_size - 16)

-- `StartProcess` of an executable that is open, up to `machine->Run`.
unfoldable pub start_program :
    Store → OpenFile → Fresh → Machine → Option (AddrSpace × Table OpenFile × Machine)
start_program st executable fresh m = do
  (space, files, m1) ← construct st executable fresh m
  m2 ← init_registers m1 space
  some (space, files, restore_state m2 space)

-- `StartProcess`; the answer `none` is a file that cannot be opened.
unfoldable pub start_process :
    Store
    → FileSystem
    → Fresh
    → Machine
    → List ℕ
    → Option (Option (AddrSpace × Table OpenFile × Machine))
start_process st fs fresh m filename = elim (open_file fs filename) [
  | none ↦ some none
  | some executable ↦ start_program st executable fresh m >>= λ begun. some (some begun)
]
