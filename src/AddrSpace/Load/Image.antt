-- ===== src/AddrSpace/Load/Image.antt =====
-- userprog/addrspace.cc: what the constructor leaves in the memory.
use csci350_project.Base.{
  ℕ, zero, suc, ◌+◌, ◌-◌, ◌*◌, ◌^◌, ◌≤◌, ◌<◌, ◌≡◌, refl, ap, ◌∙◌, arith, true, false, ◌&&◌, ◌||◌,
  List, some, ltb, leb, lt→ltb, ◌==◌, if◌then◌else◌, Bool-cases, inl, inr, length, get_or,
  replicate, length-replicate,
}
use csci350_project.Machine.{page_size}
use csci350_project.FileSys.FileHeader.{FileHeader}
use csci350_project.FileSys.Store.{Store}
use csci350_project.FileSys.OpenFile.{splice}
use csci350_project.FileSys.OpenFile.Contents.{
  byte_at, IsDisk, FileLayout, same_bytes, length-splice, get_or-splice,
}
use csci350_project.FileSys.OpenFile.Read.{read_at_lem}
use csci350_project.AddrSpace.Load.{
  Segment, NoffHeader, noff_magic_number, noff_header, noff_header_size, read_header, is_positive,
  load_segment, bzero,
}

-- The segment lies in the file and in the program's `n` pages.
pub record IsSegment (hdr : FileHeader) (n : ℕ) (s : Segment) : Type 0 where
  pub sized : s.size < 2 ^ 31
  pub placed : s.in_file_addr < 2 ^ 31
  pub in_file : s.in_file_addr + s.size ≤ hdr.num_bytes
  pub in_pages : s.virtual_addr + s.size ≤ n * page_size

-- The byte `j` of the memory where the segment is loaded, else `rest`.
abbrev pub with_segment : Store → FileHeader → Segment → ℕ → ℕ → ℕ
with_segment st hdr s j rest =
    if leb s.virtual_addr j && ltb j (s.virtual_addr + s.size)
    then byte_at st hdr (s.in_file_addr + (j - s.virtual_addr))
    else rest

module _ (st : Store) (hdr : FileHeader) (size : ℕ) (disk : IsDisk st size)
    (lay : FileLayout hdr size) where
  -- The header that the file begins with.
  pub read_header_lem :
      (given head : List ℕ)
      → length given ≡ noff_header_size
      → length head ≡ noff_header_size
      → noff_header_size ≤ hdr.num_bytes
      → ((j : ℕ) → j < noff_header_size → get_or head j 0 ≡ byte_at st hdr j)
      → (noff_header head).noff_magic ≡ noff_magic_number
      → read_header st hdr given ≡ some (noff_header head)
  unfolding read_header
  read_header_lem given head room whole long same magic =
      let (bytes, done, len, gives) = read_at_lem st hdr size noff_header_size 0 disk lay in
      let read : splice given 0 bytes ≡ head =
        same_bytes (splice given 0 bytes) head
          (omega (arith, length-splice given bytes 0 (omega arith)))
          (λ j h.
            let low : j < 40 = omega (arith, length-splice given bytes 0 (omega arith)) in
            let back : j - 0 ≡ j = omega arith in
            ground (
              arith,
              get_or-splice given bytes 0 j (omega arith),
              gives j (omega arith),
              same j low,
              ap (λ k. get_or bytes k 0) back,
            )) in
      rw (done, read, magic) refl

  -- One segment.
  pub load_segment_lem :
      (n : ℕ) (s : Segment) (mem : List ℕ)
      → IsSegment hdr n s
      → n * page_size ≤ length mem
      → (mem' : List ℕ) × (load_segment st hdr s mem ≡ some mem')
        × (length mem' ≡ length mem)
        × ((j : ℕ) → get_or mem' j 0 ≡ with_segment st hdr s j (get_or mem j 0))
  unfolding load_segment
  load_segment_lem n s mem seg room = elim (Bool-cases (is_positive s.size)) [
    | inr nothing ↦ (
      mem,
      rw nothing refl,
      refl,
      λ j.
          let outside : (leb s.virtual_addr j && ltb j (s.virtual_addr + s.size)) ≡ false =
            ground (arith, nothing, seg.sized) in
          rw outside refl,
    )
    | inl positive ↦
        let (bytes, done, len, gives) = read_at_lem st hdr size s.size s.in_file_addr disk lay in
        let whole : length bytes ≡ s.size = omega (arith, seg.in_file) in
        let fits : s.virtual_addr + length bytes ≤ length mem = omega (arith, seg.in_pages) in
        let allowed : (length bytes == 0 || leb (s.virtual_addr + length bytes) (length mem))
            ≡ true =
          ground (arith, fits) in
        (
          splice mem s.virtual_addr bytes,
          rw (positive, lt→ltb _ _ seg.placed, done, allowed) refl,
          length-splice mem bytes s.virtual_addr fits,
          λ j.
              get_or-splice mem bytes s.virtual_addr j fits
              ∙ elim (Bool-cases (leb s.virtual_addr j && ltb j (s.virtual_addr + s.size))) [
                | inl within ↦
                    rw (whole, within) (gives (j - s.virtual_addr) (ground (arith, within, whole)))
                | inr without ↦ rw (whole, without) refl
              ],
        )
  ]

length-zeros : (n : ℕ) → length {A = ℕ} (replicate n 0) ≡ n
length-zeros n = length-replicate {A = ℕ} n 0

-- The code and the initialized data over zeros, up to the end of the pages.
abbrev pub image : Store → FileHeader → NoffHeader → ℕ → ℕ → ℕ → ℕ
image st hdr h n j rest =
    with_segment st hdr h.init_data j
      (with_segment st hdr h.code j (if ltb j (n * page_size) then 0 else rest))

get_or-bzero :
    (mem : List ℕ) (n j : ℕ)
    → n ≤ length mem
    → get_or (bzero mem n) j 0 ≡ (if ltb j n then 0 else get_or mem j 0)
get_or-bzero mem n j h =
    let zeros : get_or {A = ℕ} (replicate n 0) (j - 0) 0 ≡ 0 = get_or-replicate n (j - 0) in
    ground (
      arith,
      length-zeros n,
      get_or-splice mem (replicate n 0) 0 j (omega (arith, length-zeros n)),
      zeros,
    )
  where
    get_or-replicate : (k i : ℕ) → get_or {A = ℕ} (replicate k 0) i 0 ≡ 0
    get_or-replicate zero i = refl
    get_or-replicate (suc k) zero = refl
    get_or-replicate (suc k) (suc i) = get_or-replicate k i

-- The memory once both segments are loaded.
pub load-image :
    (st : Store) (hdr : FileHeader) (size n : ℕ) (h : NoffHeader) (mem : List ℕ)
    → IsDisk st size
    → FileLayout hdr size
    → IsSegment hdr n h.code
    → IsSegment hdr n h.init_data
    → n * page_size ≤ length mem
    → (mem1 mem2 : List ℕ) × (load_segment st hdr h.code (bzero mem (n * page_size)) ≡ some mem1)
      × (load_segment st hdr h.init_data mem1 ≡ some mem2)
      × (length mem2 ≡ length mem)
      × ((j : ℕ) → get_or mem2 j 0 ≡ image st hdr h n j (get_or mem j 0))
load-image st hdr size n h mem disk lay code init room =
    let zeros = bzero mem (n * page_size) in
    let whole : length zeros ≡ length mem =
      length-splice mem (replicate (n * page_size) 0) 0
        (omega (arith, length-zeros (n * page_size))) in
    let (mem1, done1, len1, gives1) =
      load_segment_lem st hdr size disk lay n h.code zeros code (omega (arith, whole)) in
    let (mem2, done2, len2, gives2) =
      load_segment_lem st hdr size disk lay n h.init_data mem1 init (omega (arith, len1, whole)) in
    (
      mem1,
      mem2,
      done1,
      done2,
      len2 ∙ len1 ∙ whole,
      λ j.
          gives2 j
          ∙ ap (with_segment st hdr h.init_data j) (
              gives1 j
              ∙ ap (with_segment st hdr h.code j) (get_or-bzero mem (n * page_size) j room)),
    )
