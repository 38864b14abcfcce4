-- ===== src/Syscall/Transfer.antt =====
-- userprog/exception.cc, `Write_Syscall` and `Read_Syscall`, on a file that the program has open.
use csci350_project.Base.{
  ℕ, zero, suc, ◌+◌, ◌-◌, ◌*◌, ◌^◌, ◌≤◌, ◌<◌, ◌≡◌, ◌≢◌, refl, sym, ap, subst, ◌∙◌, arith, ◌&&◌,
  List, [], ◌∷◌, none, some, if◌then◌else◌, ==_false, ltb, lt→ltb, le→leb, min, length, take,
  get_elem?-set_ne, length-set, length-take, length-drop, get_or-take, drop, get_or-drop,
}
use csci350_project.Base.Int.{pos}
use csci350_project.Machine.{Machine, Handler, page_size}
use csci350_project.BitMap.Laws.{is_set}
use csci350_project.AddrSpace
use csci350_project.AddrSpace.{Table}
use csci350_project.AddrSpace.Handles.{IsTable, pointer, get_lem}
use csci350_project.FileSys.FileHeader.{sector_size}
use csci350_project.FileSys.Store.{Store}
use csci350_project.FileSys.OpenFile
use csci350_project.FileSys.OpenFile.{OpenFile, sector_count, splice}
use csci350_project.FileSys.OpenFile.Contents.{same_bytes, IsDisk, FileLayout}
use csci350_project.FileSys.OpenFile.Read.{read_at_lem}
use csci350_project.FileSys.OpenFile.Write.{write_at_lem}
use csci350_project.Syscall.{
  Process, Given, as_size, as_int, copy_back, keep_file, console_output, write_file, write_syscall,
  read_file, read_syscall,
}
use csci350_project.Syscall.Memory.{Maps, IsBytes, Accessed}
use csci350_project.Syscall.Copy.{bytes_at, copyin_lem, copyout_lem}

-- A change of one open file leaves the others.
get-keep_file :
    (t : Table OpenFile) (i k : ℕ) (f : OpenFile)
    → IsTable t
    → i ≢ k
    → AddrSpace.get (keep_file t (pos i) f) (pos k) ≡ AddrSpace.get t (pos k)
get-keep_file t i k f ok differ =
    let ok' : IsTable (keep_file t (pos i) f) = record {
      valid = ok.valid;
      bits = ok.bits;
      room = length-set t.table i (some f) ∙ ok.room;
    } in
    get_lem (keep_file t (pos i) f) k ok'
    ∙ ap (λ x. some (if ltb k t.size && is_set t.map k then pointer x else none))
        (get_elem?-set_ne t.table (some f) differ)
    ∙ sym (get_lem t k ok)

-- Numbers of files of the program, and counts, that are an `int`.
abbrev pub IsFile : Process → ℕ → OpenFile → Type 0
IsFile p i f = (console_output < i) × (i < 2 ^ 31) × (AddrSpace.get p.files (pos i) ≡ some (some f))

module _ (handler : Handler) (g : Given) (p : Process) (n va len i : ℕ) (f : OpenFile)
    (file : IsFile p i f) (ok : Maps p.machine n) (bytes : IsBytes p.machine.main_memory)
    (inside : va + len ≤ n * page_size) where
  sized : as_size len ≡ some len
  sized = ground (arith, ok.small)

  numbered : as_int i ≡ pos i
  numbered = ground (arith, file.1)

  there : AddrSpace.get p.files (as_int i) ≡ some (some f)
  there = ap (AddrSpace.get p.files) numbered ∙ file.2

  -- A write of bytes that the program may read.
  write_syscall_lem :
      (fuel count : ℕ) (st' : Store) (f' : OpenFile)
      → g.fuel ≡ suc fuel
      → OpenFile.write p.store f g.memory (bytes_at p.machine.main_memory va len) len
        ≡ some (count, st', f')
      → (m' : Machine) × (write_syscall handler g p va len i
          ≡ some (record p { machine = m'; store = st'; files = keep_file p.files (pos i) f' }))
        × Accessed p.machine m' n p.machine.main_memory
  unfolding write_syscall write_file
  write_syscall_lem fuel count st' f' fueled written =
      let (m', went, a) = copyin_lem handler n len fuel va p.machine ok bytes inside in
      (
        m',
        rw
            (
              ==_false i 0 (λ e. omega (arith, file.0)),
              sized,
              fueled,
              went,
              ==_false i 1 (λ e. omega (arith, file.0)),
              there,
              written,
            )
            (ap (λ z. some (record p { machine = m'; store = st'; files = keep_file p.files z f' }))
              numbered),
        a,
      )

  -- A read of bytes to where the program may write.
  read_syscall_lem :
      (found : List ℕ) (f' : OpenFile)
      → OpenFile.read p.store f len ≡ some (found, f')
      → length found ≤ len
      → IsBytes found
      → (m' : Machine) × (read_syscall handler g p va len i
          ≡ some
              (pos (length found), record p { machine = m'; files = keep_file p.files (pos i) f' }))
        × Accessed p.machine m' n (splice p.machine.main_memory va found)
  unfolding read_syscall read_file copy_back
  read_syscall_lem found f' taken few small =
      let (m', went, a) = copyout_lem handler n found va p.machine ok small (omega arith) in
      (
        m',
        rw
            (
              ==_false i 0 (λ e. omega (arith, file.0)),
              sized,
              ==_false i 1 (λ e. omega (arith, file.0)),
              there,
              taken,
              went,
            )
            (ap
              (λ z.
                some
                  (pos (length found), record p { machine = m'; files = keep_file p.files z f' }))
              numbered),
        a,
      )

length-bytes_at :
    (mem : List ℕ) (va len : ℕ) → va + len ≤ length mem → length (bytes_at mem va len) ≡ len
length-bytes_at mem va len h = omega (arith, length-take len (drop va mem), length-drop va mem)

take-IsBytes : (k : ℕ) (xs : List ℕ) → IsBytes xs → IsBytes (take k xs)
take-IsBytes zero xs h j = omega arith
take-IsBytes (suc k) [] h j = omega arith
take-IsBytes (suc k) (x ∷ xs) h zero = h 0
take-IsBytes (suc k) (x ∷ xs) h (suc j) = take-IsBytes k xs (λ i. h (suc i)) j

bytes_at-IsBytes : (mem : List ℕ) (va len : ℕ) → IsBytes mem → IsBytes (bytes_at mem va len)
bytes_at-IsBytes mem va len small =
    take-IsBytes len (drop va mem) (λ j. rw (get_or-drop va mem j 0) (small (va + j)))

-- A file that stands for what `f1` stands for, at the same place.
read-read_at :
    (st : Store) (f1 f2 : OpenFile) (len : ℕ) (found : List ℕ)
    → f2.hdr ≡ f1.hdr
    → f2.seek_position ≡ f1.seek_position
    → OpenFile.read_at st f1.hdr len f1.seek_position ≡ some found
    → OpenFile.read st f2 len
      ≡ some (found, record f2 { seek_position = f2.seek_position + length found })
unfolding OpenFile.read
read-read_at st f1 f2 len found hdr seek taken =
    let again : OpenFile.read_at st f2.hdr len f2.seek_position ≡ some found =
      rw (hdr, seek) taken in
    rw again refl

-- With two numbers of open files of the program, not those of the console, that stand for one file and
-- have one seek position, on a disk that the file is laid out on, with memory for the sectors of the
-- request; and with `len` bytes from `va` and `len` from `to` inside of the program's pages, which are
-- the first of the memory: `Write` of the bytes at `va` through one and then `Read` of as many to `to`
-- through the other fail no ASSERT. `Read` answers how many bytes the file has room for behind that
-- position, `len` at most; that many bytes of the memory are copied from `va` to `to`, and
-- nothing else in the memory changes.
pub read_syscall-write_syscall :
    (handler : Handler) (g : Given) (p : Process) (n va to len i k size fuel : ℕ) (f1 f2 : OpenFile)
    → IsFile p i f1
    → IsFile p k f2
    → i ≢ k
    → f2.hdr ≡ f1.hdr
    → f2.seek_position ≡ f1.seek_position
    → IsTable p.files
    → IsDisk p.store size
    → FileLayout f1.hdr size
    → Maps p.machine n
    → IsBytes p.machine.main_memory
    → va + len ≤ n * page_size
    → to + len ≤ n * page_size
    → g.fuel ≡ suc fuel
    → length g.memory
      ≡ sector_count f1.seek_position (min len (f1.hdr.num_bytes - f1.seek_position)) * sector_size
    → let mem = p.machine.main_memory in
      let count = min len (f1.hdr.num_bytes - f1.seek_position) in
      (p1 p2 : Process) × (write_syscall handler g p va len i ≡ some p1)
      × (read_syscall handler g p1 to len k ≡ some (pos count, p2))
      × (p2.machine.main_memory ≡ splice mem to (take count (bytes_at mem va len)))
unfolding OpenFile.write
read_syscall-write_syscall handler g p n va to len i k size fuel f1 f2 file1 file2 differ hdr seek
      table disk lay ok whole from_inside to_inside fueled room =
    let mem = p.machine.main_memory in
    let q = f1.seek_position in
    let count = min len (f1.hdr.num_bytes - q) in
    let from = bytes_at mem va len in
    let long : length from ≡ len =
      length-bytes_at mem va len (omega (arith, ok.running.whole_memory, ok.small)) in
    let (st', written, disk', gives, _) =
      write_at_lem p.store f1.hdr size g.memory from len q disk lay (omega (arith, long)) room in
    let f1' : OpenFile = record f1 { seek_position = q + count } in
    let (m1, wrote, a) =
      write_syscall_lem handler g p n va len i f1 file1 ok whole from_inside fuel count st' f1'
        fueled (rw written refl) in
    let p1 : Process = record p {
      machine = m1;
      store = st';
      files = keep_file p.files (pos i) f1';
    } in
    let (found, taken, amount, same) = read_at_lem st' f1.hdr size len q disk' lay in
    let copied : found ≡ take count from =
      same_bytes found (take count from) (omega (arith, amount, length-take count from, long))
        (λ j h.
          let low : q ≤ q + j = omega arith in
          let high : q + j < q + count = omega (arith, amount, h) in
          let back : q + j - q ≡ j = omega arith in
          same j h
          ∙ gives (q + j) (omega (arith, amount, h))
          ∙ rw (le→leb _ _ low, lt→ltb _ _ high, back)
              (sym (get_or-take count from j 0 (omega (arith, amount, h))))) in
    let f2' : OpenFile = record f2 { seek_position = f2.seek_position + length found } in
    let (m2, read, b) =
      read_syscall_lem handler g p1 n to len k f2
        (file2.0, file2.1, get-keep_file p.files i k f1' table differ ∙ file2.2) a.maps
        (subst IsBytes (sym a.memory) whole) to_inside found f2'
        (read-read_at st' f1 f2 len found hdr seek taken) (omega (arith, amount))
        (subst IsBytes (sym copied)
          (take-IsBytes count from (bytes_at-IsBytes mem va len whole))) in
    (
      p1,
      record p1 { machine = m2; files = keep_file p1.files (pos k) f2' },
      wrote,
      read
          ∙ ap
              (λ c.
                some (pos c, record p1 { machine = m2; files = keep_file p1.files (pos k) f2' }))
              amount,
      b.memory ∙ ap (λ x. splice x to found) a.memory ∙ ap (splice mem to) copied,
    )
